-- ===== src/Locks/Exclusion.antt =====
-- The processors run `acquire` and `release` (spinlock.c) of one lock in any interleaving.
use xv6_public_os_project.Locks.{
  Cpu, Spinlock, initlock, pushcli, popcli, holding, acquire_start, try_lock, acquire_end,
  release_start, release_end, is_cpu,
}
use xv6_public_os_project.Base.{
  ℕ, ◌+◌, ◌-◌, ◌<◌, ◌≡◌, ◌≢◌, refl, sym, ap, ◌∙◌, inl, inr, Bool, true, false, not, ◌&&◌, none,
  some, ◌==◌, ==_refl, if◌then◌else◌, arith, update, Bool-cases,
}

-- Where a processor stands: in `acquire`, between its `xchg` and its end, between the two calls, in
-- `release` before the lock is free, or elsewhere.
pub data Stage : Type 0 where
  outside spinning entering inside leaving : Stage

-- The processor has won the lock and not let go of it.
abbrev pub has_lock : Stage → Bool
has_lock outside = false
has_lock spinning = false
has_lock entering = true
has_lock inside = true
has_lock leaving = true

pub record World : Type 0 where
  pub lock : Spinlock
  pub cpus : ℕ → Cpu
  pub stage : ℕ → Stage

pub data Step (w : World) : World → Type 0 where
  begins :
      (i : ℕ) (c : Cpu)
      → w.stage i ≡ outside
      → acquire_start i w.lock (w.cpus i) ≡ some c
      → Step w (record w { cpus = update w.cpus i c; stage = update w.stage i spinning })
  spins :
      (i : ℕ) (l : Spinlock)
      → w.stage i ≡ spinning
      → try_lock w.lock ≡ (l, false)
      → Step w (record w { lock = l })
  wins :
      (i : ℕ) (l : Spinlock)
      → w.stage i ≡ spinning
      → try_lock w.lock ≡ (l, true)
      → Step w (record w { lock = l; stage = update w.stage i entering })
  enters :
      (i : ℕ)
      → w.stage i ≡ entering
      → Step w (record w { lock = acquire_end i w.lock; stage = update w.stage i inside })
  leaves :
      (i : ℕ) (l : Spinlock) (c : Cpu)
      → w.stage i ≡ inside
      → release_start i w.lock (w.cpus i) ≡ some (l, c)
      → Step w (record { lock = l; cpus = update w.cpus i c; stage = update w.stage i leaving })
  unlocks :
      (i : ℕ) (l : Spinlock) (c : Cpu)
      → w.stage i ≡ leaving
      → release_end w.lock (w.cpus i) ≡ some (l, c)
      → Step w (record { lock = l; cpus = update w.cpus i c; stage = update w.stage i outside })

pub data Reach (w : World) : World → Type 0 where
  here : Reach w w
  next : {v u : World} → Reach w v → Step v u → Reach w u

record Inv (w : World) : Type 0 where
  free : (i : ℕ) → has_lock (w.stage i) ≡ true → w.lock.locked ≡ true
  one : (i j : ℕ) → has_lock (w.stage i) ≡ true → has_lock (w.stage j) ≡ true → i ≡ j
  mine : (i : ℕ) → w.stage i ≡ inside → w.lock.cpu ≡ some i

try_lock_lem :
    (l m : Spinlock) (b : Bool)
    → try_lock l ≡ (m, b)
    → (m ≡ record l { locked = true }) × (b ≡ not l.locked)
unfolding try_lock
try_lock_lem l m b e = (
  sym (ap (λ (p : Spinlock × Bool). p.0) e),
  sym (ap (λ (p : Spinlock × Bool). p.1) e) ∙ ground arith,
)

release_start_lem :
    (i : ℕ) (l m : Spinlock) (c d : Cpu)
    → release_start i l c ≡ some (m, d)
    → m ≡ record l { cpu = none }
unfolding release_start holding popcli pushcli
release_start_lem i l m c d e = ground arith

release_end_lem :
    (l m : Spinlock) (c d : Cpu) → release_end l c ≡ some (m, d) → m ≡ record l { locked = false }
unfolding release_end popcli
release_end_lem l m c d e = ground arith

Step-Inv : {w u : World} → Inv w → Step w u → Inv u
unfolding acquire_end
Step-Inv {w} v (begins i c at e) = record {
  free = λ j h. ground (arith, v.free j);
  one = λ j k g h. ground (arith, v.one j k);
  mine = λ j h. ground (arith, v.mine j);
}
Step-Inv {w} v (spins i l at e) =
    let (l_eq, b_eq) = try_lock_lem w.lock l false e in
    rw l_eq (record { free = λ j h. refl; one = v.one; mine = v.mine })
Step-Inv {w} v (wins i l at e) =
    let (l_eq, b_eq) = try_lock_lem w.lock l true e in
    rw l_eq (record {
      free = λ j h. refl;
      one = λ j k g h. ground (arith, v.free j, v.free k);
      mine = λ j h. ground (arith, v.mine j);
    })
Step-Inv {w} v (enters i at) = record {
  free = λ j h. ground (arith, v.free j, v.free i);
  one = λ j k g h. ground (arith, v.one j k, v.one i j, v.one i k);
  mine = λ j h. ground (arith, v.one i j);
}
Step-Inv {w} v (leaves i l c at e) = rw (release_start_lem i w.lock l (w.cpus i) c e) (record {
  free = λ j h. ground (arith, v.free j, v.free i);
  one = λ j k g h. ground (arith, v.one j k, v.one i j, v.one i k);
  mine = λ j h. ground (arith, v.one i j);
})
Step-Inv {w} v (unlocks i l c at e) = rw (release_end_lem w.lock l (w.cpus i) c e) (record {
  free = λ j h. ground (arith, v.one i j);
  one = λ j k g h. ground (arith, v.one j k);
  mine = λ j h. ground (arith, v.mine j);
})

Reach-Inv : {w u : World} → Inv w → Reach w u → Inv u
Reach-Inv v here = v
Reach-Inv v (next r st) = Step-Inv (Reach-Inv v r) st

-- A new lock, and every processor elsewhere.
abbrev pub start : (ℕ → Cpu) → World
start cpus = record { lock = initlock; cpus = cpus; stage = λ i. outside }

start-Inv : (cpus : ℕ → Cpu) → Inv (start cpus)
start-Inv cpus = record {
  free = λ i h. ground arith;
  one = λ i j g h. ground arith;
  mine = λ i h. ground arith;
}

-- From a new lock on, in every interleaving of the processors' steps through `acquire` and
-- `release`: while one processor is between the `xchg` that wins the lock and the store that frees
-- it, no other one is.
pub mutual_exclusion :
    (cpus : ℕ → Cpu) (w : World) (i j : ℕ)
    → Reach (start cpus) w
    → has_lock (w.stage i) ≡ true
    → i ≢ j
    → has_lock (w.stage j) ≡ false
mutual_exclusion cpus w i j r g ne = elim (Bool-cases (has_lock (w.stage j))) [
  | inl h ↦ absurd (ne ((Reach-Inv (start-Inv cpus) r).one i j g h))
  | inr h ↦ h
]

-- The processor after a `pushcli` and a `popcli`.
abbrev balanced : Cpu → Cpu
balanced c =
    let old = if c.ncli == 0 then c.interrupts else c.intena in
    record {
      interrupts = if (c.ncli + 1 - 1 == 0) && old then true else false;
      ncli = c.ncli + 1 - 1;
      intena = old;
    }

holding_lem :
    (i : ℕ) (l : Spinlock) (c : Cpu)
    → (d : Cpu) × (holding i l c ≡ some (l.locked && is_cpu l.cpu i, d))
unfolding holding popcli pushcli
holding_lem i l c =
    let deep : (c.ncli + 1 == 0) ≡ false = ground arith in (balanced c, rw (deep, holding) refl)

-- In the same runs `release` does not panic on a processor whose `acquire` has returned.
pub release_safe :
    (cpus : ℕ → Cpu) (w : World) (i : ℕ)
    → Reach (start cpus) w
    → w.stage i ≡ inside
    → (l : Spinlock) × (c : Cpu) × (release_start i w.lock (w.cpus i) ≡ some (l, c))
unfolding release_start
release_safe cpus w i r at =
    let v = Reach-Inv (start-Inv cpus) r in
    let (d, e) = holding_lem i w.lock (w.cpus i) in
    let locked : w.lock.locked ≡ true = v.free i (rw at refl) in
    (record w.lock { cpu = none }, d, rw (e, locked, v.mine i at, ==_refl i, release_start) refl)

-- `pushcli` and then `popcli` never panic, and leave the interrupts and the depth as they were, on a
-- processor that has the interrupts off whenever the depth is not 0.
pub popcli-pushcli :
    (c : Cpu)
    → (0 < c.ncli → c.interrupts ≡ false)
    → (d : Cpu) × (popcli (pushcli c) ≡ some d) × (d.interrupts ≡ c.interrupts) × (d.ncli ≡ c.ncli)
unfolding popcli pushcli
popcli-pushcli c calm =
    let deep : (c.ncli + 1 == 0) ≡ false = ground arith in
    (balanced c, rw deep refl, ground arith, omega arith)
