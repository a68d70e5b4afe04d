-- ===== src/Proc/Table.antt =====
-- The process in each slot after the operations on the table. A slot is active if it is not UNUSED.
use xv6_public_os_project.Proc.Types.{
  Proc, runnable, is_unused, is_sleeping, is_zombie, is_proc, proc_at, zeroed,
}
use xv6_public_os_project.Proc.Sleep.{wakeup}
use xv6_public_os_project.Proc.Create.{find_unused}
use xv6_public_os_project.Proc.Exit.{abandon, find_zombie, has_child}
use xv6_public_os_project.Base.{
  ℕ, zero, suc, ◌+◌, ◌<◌, ◌≡◌, ◌≢◌, refl, ap, sym, inl, inr, Bool, true, false, not, ◌&&◌, Option,
  none, some, List, [], ◌∷◌, ◌==◌, if◌then◌else◌, set, length, get_or-set, get_or-set_self,
  get_or-set_ne, arith, Bool-cases,
}

abbrev pub active : List Proc → ℕ → Bool
active ps i = not (is_unused (proc_at ps i).state)

pub proc_at-set :
    (ps : List Proc) (i j : ℕ) (p : Proc)
    → i < length ps
    → proc_at (set ps i p) j ≡ (if i == j then p else proc_at ps j)
proc_at-set ps i j p h = get_or-set ps i j p zeroed h

pub proc_at-set_self :
    (ps : List Proc) (i : ℕ) (p : Proc) → i < length ps → proc_at (set ps i p) i ≡ p
proc_at-set_self ps i p h = get_or-set_self ps i p zeroed h

pub proc_at-set_ne :
    (ps : List Proc) (i j : ℕ) (p : Proc) → j ≢ i → proc_at (set ps i p) j ≡ proc_at ps j
proc_at-set_ne ps i j p h = get_or-set_ne ps i j p zeroed (λ e. h (sym e))

-- Exactly the processes that sleep on the channel are made RUNNABLE, and nothing else changes.
abbrev pub woken : ℕ → Proc → Proc
woken chan p = if is_sleeping p.state && p.chan == chan then record p { state = runnable } else p

pub proc_at-wakeup :
    (chan : ℕ) (ps : List Proc) (i : ℕ) → proc_at (wakeup chan ps) i ≡ woken chan (proc_at ps i)
unfolding wakeup
proc_at-wakeup chan [] i = refl
proc_at-wakeup chan (p ∷ ps) zero = refl
proc_at-wakeup chan (p ∷ ps) (suc i) = proc_at-wakeup chan ps i

pub length-wakeup : (chan : ℕ) (ps : List Proc) → length (wakeup chan ps) ≡ length ps
unfolding wakeup
length-wakeup chan [] = refl
length-wakeup chan (p ∷ ps) = ap suc (length-wakeup chan ps)

abbrev pub adopted : Option ℕ → ℕ → Proc → Proc
adopted init me p = if is_proc p.parent me then record p { parent = init } else p

pub proc_at-abandon :
    (init : Option ℕ) (me : ℕ) (ps : List Proc) (i : ℕ)
    → proc_at (abandon init me ps) i ≡ adopted init me (proc_at ps i)
unfolding abandon
proc_at-abandon init me [] i = refl
proc_at-abandon init me (p ∷ ps) zero = refl
proc_at-abandon init me (p ∷ ps) (suc i) = proc_at-abandon init me ps i

pub length-abandon :
    (init : Option ℕ) (me : ℕ) (ps : List Proc) → length (abandon init me ps) ≡ length ps
unfolding abandon
length-abandon init me [] = refl
length-abandon init me (p ∷ ps) = ap suc (length-abandon init me ps)

-- The slot that `allocproc` finds is UNUSED, and stands in the table.
abbrev pub FindsUnused : List Proc → ℕ → Option ℕ → Type 0
FindsUnused ps i none = (j : ℕ) → j < length ps → active ps j ≡ true
FindsUnused ps i (some s) = (j : ℕ) × (s ≡ i + j) × (j < length ps) × (active ps j ≡ false)

FindsUnused-cons :
    (p : Proc) (ps : List Proc) (i : ℕ) (o : Option ℕ)
    → is_unused p.state ≡ false
    → FindsUnused ps (i + 1) o
    → FindsUnused (p ∷ ps) i o
FindsUnused-cons p ps i none h f = go
  where
    go : (j : ℕ) → j < suc (length ps) → active (p ∷ ps) j ≡ true
    go zero lt = ground arith
    go (suc j) lt = f j (omega arith)
FindsUnused-cons p ps i (some s) h f = (suc f.0, omega (arith, f.1), omega (arith, f.2), f.3)

find_unused-loop : (ps : List Proc) (i : ℕ) → FindsUnused ps i (find_unused ps i)
unfolding find_unused
find_unused-loop [] i = λ j h. absurd (omega arith)
find_unused-loop (p ∷ ps) i = elim (Bool-cases (is_unused p.state)) [
  | inl e ↦ rw e (0, omega arith, omega arith, rw e)
  | inr e ↦ rw e (FindsUnused-cons p ps i _ e (find_unused-loop ps (i + 1)))
]

pub find_unused-Finds : (ps : List Proc) → FindsUnused ps 0 (find_unused ps 0)
find_unused-Finds ps = find_unused-loop ps 0

-- The child that `wait` finds is a ZOMBIE child of the caller, and else there is none.
abbrev pub is_dead_child : ℕ → Proc → Bool
is_dead_child me p = is_proc p.parent me && is_zombie p.state

abbrev pub FindsZombie : ℕ → List Proc → ℕ → Option ℕ → Type 0
FindsZombie me ps i none = (j : ℕ) → is_dead_child me (proc_at ps j) ≡ false
FindsZombie me ps i (some s) =
    (j : ℕ) × (s ≡ i + j) × (j < length ps) × (is_dead_child me (proc_at ps j) ≡ true)

FindsZombie-cons :
    (me : ℕ) (p : Proc) (ps : List Proc) (i : ℕ) (o : Option ℕ)
    → is_dead_child me p ≡ false
    → FindsZombie me ps (i + 1) o
    → FindsZombie me (p ∷ ps) i o
FindsZombie-cons me p ps i none h f = go
  where
    go : (j : ℕ) → is_dead_child me (proc_at (p ∷ ps) j) ≡ false
    go zero = h
    go (suc j) = f j
FindsZombie-cons me p ps i (some s) h f = (suc f.0, omega (arith, f.1), omega (arith, f.2), f.3)

find_zombie-loop : (me : ℕ) (ps : List Proc) (i : ℕ) → FindsZombie me ps i (find_zombie me ps i)
unfolding find_zombie
find_zombie-loop me [] i = λ j. refl
find_zombie-loop me (p ∷ ps) i = elim (Bool-cases (is_dead_child me p)) [
  | inl e ↦ rw e (0, omega arith, omega arith, e)
  | inr e ↦ rw e (FindsZombie-cons me p ps i _ e (find_zombie-loop me ps (i + 1)))
]

pub find_zombie-Finds : (me : ℕ) (ps : List Proc) → FindsZombie me ps 0 (find_zombie me ps 0)
find_zombie-Finds me ps = find_zombie-loop me ps 0

-- `havekids` tells whether some slot holds a child of the caller.
pub has_child-true :
    (me : ℕ) (ps : List Proc)
    → has_child me ps ≡ true
    → (j : ℕ) × (j < length ps) × (is_proc (proc_at ps j).parent me ≡ true)
unfolding has_child
has_child-true me [] h = ground arith
has_child-true me (p ∷ ps) h = elim (Bool-cases (is_proc p.parent me)) [
  | inl e ↦ (0, omega arith, e)
  | inr e ↦ let r = has_child-true me ps (ground arith) in (suc r.0, omega (arith, r.1), r.2)
]

pub has_child-false :
    (me : ℕ) (ps : List Proc) (j : ℕ)
    → has_child me ps ≡ false
    → is_proc (proc_at ps j).parent me ≡ false
unfolding has_child
has_child-false me [] j h = refl
has_child-false me (p ∷ ps) zero h = ground arith
has_child-false me (p ∷ ps) (suc j) h = has_child-false me ps j (ground arith)
