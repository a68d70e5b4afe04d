-- ===== src/Proc/Killing.antt =====
-- `kill`: whom it marks. It does not look at the state of the slot, and `allocproc` does not clear
-- the mark, so a mark on a free slot is inherited by the next process there.
use xv6_public_os_project.Proc.Types.{
  Proc, runnable, is_unused, is_sleeping, proc_at, Kernel, Services,
}
use xv6_public_os_project.Proc.Sleep.{kill, kill_loop}
use xv6_public_os_project.Proc.Create.{find_unused, allocproc, give_stack, claim}
use xv6_public_os_project.Proc.Table.{proc_at-set_self}
use xv6_public_os_project.Proc.Forking.{allocproc-Allocates, Allocates}
use xv6_public_os_project.Base.{
  ℕ, zero, suc, ◌+◌, ◌<◌, ◌≡◌, ◌≢◌, refl, ap, ◌∙◌, ◌⊎◌, inl, inr, true, Option, none, some, List,
  [], ◌∷◌, ◌==◌, if◌then◌else◌, set, length, arith, Bool-cases, minus_one, subst, ==_iff,
  ℕ_discrete, dec_lt,
}

-- The process with the kill mark, awake.
abbrev pub marked : Proc → Proc
marked p = record p { killed = true; state = if is_sleeping p.state then runnable else p.state }

-- Slot `i` is the first with that pid.
abbrev pub IsFirst : ℕ → List Proc → ℕ → Type 0
IsFirst pid ps i =
    (i < length ps) × ((proc_at ps i).pid ≡ pid) × ((j : ℕ) → j < i → (proc_at ps j).pid ≢ pid)

-- `kill` marks the first slot with the pid and returns 0, or there is none, nothing changes, and it
-- returns -1.
abbrev pub Kills : ℕ → List Proc → List Proc × ℕ → Type 0
Kills pid ps (qs, r) =
    ((i : ℕ) × IsFirst pid ps i × (qs ≡ set ps i (marked (proc_at ps i))) × (r ≡ 0))
    ⊎ (((j : ℕ) → j < length ps → (proc_at ps j).pid ≢ pid) × (qs ≡ ps) × (r ≡ minus_one))

abbrev Marks : ℕ → List Proc → Option (List Proc) → Type 0
Marks pid ps none = (j : ℕ) → j < length ps → (proc_at ps j).pid ≢ pid
Marks pid ps (some qs) = (i : ℕ) × IsFirst pid ps i × (qs ≡ set ps i (marked (proc_at ps i)))

Marks-cons :
    (pid : ℕ) (p : Proc) (ps : List Proc) (o : Option (List Proc))
    → p.pid ≢ pid
    → Marks pid ps o
    → Marks pid (p ∷ ps) (elim o [ none ↦ none | some qs ↦ some (p ∷ qs) ])
Marks-cons pid p ps none ne m = go
  where
    go : (j : ℕ) → j < suc (length ps) → (proc_at (p ∷ ps) j).pid ≢ pid
    go zero h = ne
    go (suc j) h = m j (omega arith)
Marks-cons pid p ps (some qs) ne m =
    (suc m.0, (omega (arith, m.1.0), m.1.1, before), ap (λ (l : List Proc). p ∷ l) m.2)
  where
    before : (j : ℕ) → j < suc m.0 → (proc_at (p ∷ ps) j).pid ≢ pid
    before zero h = ne
    before (suc j) h = m.1.2 j (omega arith)

kill_loop-Marks : (pid : ℕ) (ps : List Proc) → Marks pid ps (kill_loop pid ps)
unfolding kill_loop
kill_loop-Marks pid [] = λ j h. absurd (omega arith)
kill_loop-Marks pid (p ∷ ps) = elim (Bool-cases (p.pid == pid)) [
  | inl e ↦ rw e (0, (omega arith, (==_iff _ _).0 e, λ j h. absurd (omega arith)), refl)
  | inr e ↦
      rw e (Marks-cons pid p ps (kill_loop pid ps) (λ q. ground arith) (kill_loop-Marks pid ps))
]

kill-at :
    (pid : ℕ) (ps : List Proc) (o : Option (List Proc))
    → kill_loop pid ps ≡ o
    → Marks pid ps o
    → Kills pid ps (kill pid ps)
unfolding kill
kill-at pid ps none e m = rw (e, kill) (inr (m, refl, refl))
kill-at pid ps (some qs) e m = rw (e, kill) (inl (m.0, m.1, m.2, refl))

-- `kill(pid)` sets the kill mark of the first slot with that pid, whatever its state, wakes it if it
-- sleeps, changes nothing else and returns 0; with no such slot it changes nothing and returns -1.
pub kill-Kills : (pid : ℕ) (ps : List Proc) → Kills pid ps (kill pid ps)
kill-Kills pid ps = kill-at pid ps (kill_loop pid ps) refl (kill_loop-Marks pid ps)

IsFirst-unique : (pid : ℕ) (ps : List Proc) (i j : ℕ) → IsFirst pid ps i → IsFirst pid ps j → i ≡ j
IsFirst-unique pid ps i j f g = elim (ℕ_discrete i j) [
  | yes e ↦ e
  | no ne ↦ elim (dec_lt i j) [
    | yes lt ↦ absurd (g.2 i lt f.1)
    | no ge ↦ absurd (f.2 j (omega arith) g.1)
  ]
]

find_unused-set :
    (ps : List Proc) (k i : ℕ) (p : Proc)
    → is_unused p.state ≡ is_unused (proc_at ps i).state
    → find_unused (set ps i p) k ≡ find_unused ps k
unfolding find_unused
find_unused-set [] k i p e = refl
find_unused-set (q ∷ ps) k zero p e = rw e
find_unused-set (q ∷ ps) k (suc i) p e = ground (arith, find_unused-set ps (k + 1) i p e)

marked-unused : (p : Proc) → is_unused (marked p).state ≡ is_unused p.state
marked-unused p = ground arith

module _ {S : Type 0} (sv : Services S) (k : Kernel S) where
  abbrev pub after_kill : ℕ → Kernel S
  after_kill pid = record k { procs = (kill pid k.procs).0 }

  give_stack-slot : (l : Kernel S) (i j : ℕ) → (give_stack sv i l).1 ≡ some j → j ≡ i
  unfolding give_stack
  give_stack-slot l i j e = elim (Bool-cases ((sv.kalloc l.layers).0 == 0)) [
    | inl z ↦ let q = rw z at e in cc q
    | inr z ↦ let q = rw z at e in ground arith
  ]

  allocproc-slot :
      (l : Kernel S) (i j : ℕ)
      → find_unused l.procs 0 ≡ some i
      → (allocproc sv l).1 ≡ some j
      → j ≡ i
  unfolding allocproc
  allocproc-slot l i j f e = give_stack-slot (claim sv i l) i j (rw (f, allocproc) at e)

  Kills-first :
      (pid i : ℕ) (o : List Proc × ℕ)
      → IsFirst pid k.procs i
      → Kills pid k.procs o
      → (o.1 ≡ 0) × (o.0 ≡ set k.procs i (marked (proc_at k.procs i)))
  Kills-first pid i (qs, r) f (inl (i', f', e, z)) =
      (z, rw (IsFirst-unique pid k.procs i i' f f') e)
  Kills-first pid i (qs, r) f (inr (none_there, e, z)) = absurd (none_there i f.0 f.1)

  allocproc-killed :
      (l : Kernel S) (o : Option ℕ) (j : ℕ)
      → o ≡ some j
      → Allocates sv l (allocproc sv l).0 o
      → (proc_at (allocproc sv l).0.procs j).killed ≡ (proc_at l.procs j).killed
  allocproc-killed l none j e a = cc
  allocproc-killed l (some i) j e a =
      let same : i ≡ j = cc in
      subst (λ (x : ℕ). (proc_at (allocproc sv l).0.procs x).killed ≡ (proc_at l.procs x).killed)
        same a.4

  -- The slot that `allocproc` would take next, of pid `pid` and the first slot with it (as every
  -- slot of the fresh table is for pid 0): after `kill(pid)`, which reports success, the process
  -- that `allocproc` creates is killed before it has run.
  pub kill_free_slot :
      (pid i j : ℕ)
      → find_unused k.procs 0 ≡ some i
      → IsFirst pid k.procs i
      → (allocproc sv (after_kill pid)).1 ≡ some j
      → ((kill pid k.procs).1 ≡ 0)
        × (j ≡ i)
        × ((proc_at (allocproc sv (after_kill pid)).0.procs j).killed ≡ true)
  kill_free_slot pid i j f first e =
      let done = Kills-first pid i (kill pid k.procs) first (kill-Kills pid k.procs) in
      let next : find_unused (after_kill pid).procs 0 ≡ some i =
        ap (λ (ps : List Proc). find_unused ps 0) done.1
        ∙ find_unused-set k.procs 0 i (marked (proc_at k.procs i))
            (marked-unused (proc_at k.procs i))
        ∙ f in
      let here = allocproc-slot (after_kill pid) i j next e in
      (
        done.0,
        here,
        allocproc-killed (after_kill pid) _ j e (allocproc-Allocates sv (after_kill pid))
            ∙ ap (λ (x : ℕ). (proc_at (kill pid k.procs).0 x).killed) here
            ∙ ap (λ (ps : List Proc). (proc_at ps i).killed) done.1
            ∙ ap (λ (p : Proc). p.killed)
                (proc_at-set_self k.procs i (marked (proc_at k.procs i)) first.0),
      )
