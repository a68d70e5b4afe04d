-- ===== src/Proc/Dispatch.antt =====
-- Which process a round of `scheduler` runs, for each policy.
use xv6_public_os_project.Proc.Types.{Proc, Kernel, running, is_runnable, proc_at, nproc, zeroed}
use xv6_public_os_project.Proc.Scheduler.{
  fcfs_better, sjf_better, bjf_better, select, rand, runnable_count, nth_runnable, dispatch,
  dispatch_best, random_round, rr_round, scheduler_round, sched_bjf, sched_random, sched_rr,
}
use xv6_public_os_project.Proc.Selection.{
  IsRanking, IsFirstBest, NoneRunnable, select-Picks, fcfs-IsRanking, sjf-IsRanking, bjf-IsRanking,
}
use xv6_public_os_project.Base.{
  ℕ, zero, suc, ◌+◌, ◌-◌, ◌%◌, ◌≤◌, ◌<◌, ◌≡◌, ◌≢◌, refl, ap, ◌∙◌, sym, ◌⊎◌, inl, inr, Bool, true,
  false, signed_key, Option, none, some, List, [], ◌∷◌, ◌==◌, if◌then◌else◌, ltb, get_elem?, take,
  arith, Bool-cases, subst, ℕ_discrete, get_or-set_ne,
}

-- When a process goes before another: what each policy orders by.
abbrev pub GoesBefore : ℕ → Proc → Proc → Type 0
GoesBefore zero p q = p.createtime < q.createtime
GoesBefore (suc zero) p q = signed_key p.estimated_burst < signed_key q.estimated_burst
GoesBefore (suc (suc n)) p q =
    (signed_key p.priority < signed_key q.priority)
    ⊎ ((signed_key p.priority ≡ signed_key q.priority) × (p.createtime < q.createtime))

-- `p` in slot `i` is RUNNABLE, no RUNNABLE process goes before it, and it goes before each RUNNABLE
-- process of a lower slot.
pub record IsChoice (policy : ℕ) (ps : List Proc) (i : ℕ) (p : Proc) : Type 0 where
  pub there : get_elem? ps i ≡ some p
  pub ready : is_runnable p.state ≡ true
  pub best :
      (j : ℕ) (q : Proc)
      → get_elem? ps j ≡ some q
      → is_runnable q.state ≡ true
      → ¬ GoesBefore policy q p
  pub first :
      (j : ℕ) (q : Proc)
      → j < i
      → get_elem? ps j ≡ some q
      → is_runnable q.state ≡ true
      → GoesBefore policy p q

-- A Boolean test of an order.
abbrev Tests : ℕ → (Proc → Proc → Bool) → Type 0
Tests policy better =
    (p q : Proc)
    → (better p q ≡ true → GoesBefore policy p q) × (better p q ≡ false → ¬ GoesBefore policy p q)

fcfs_better-Tests : Tests 0 fcfs_better
unfolding fcfs_better
fcfs_better-Tests p q = (λ e. ground arith, λ e h. ground arith)

sjf_better-Tests : Tests 1 sjf_better
unfolding sjf_better
sjf_better-Tests p q = (λ e. ground arith, λ e h. ground arith)

bjf_better-Tests : Tests 2 bjf_better
unfolding bjf_better
bjf_better-Tests p q = (λ e. ground arith, λ e h. ground arith)

IsFirstBest-IsChoice :
    (policy : ℕ) (better : Proc → Proc → Bool) (ps : List Proc) (i : ℕ) (p : Proc)
    → Tests policy better
    → IsFirstBest better ps i p
    → IsChoice policy ps i p
IsFirstBest-IsChoice policy better ps i p t h = record {
  there = h.there;
  ready = h.ready;
  best = λ j q e r. (t q p).1 (h.best j q e r);
  first = λ j q lt e r. (t p q).0 (h.first j q lt e r);
}

module _ {S : Type 0} (runs : ℕ → Kernel S → Kernel S) (k : Kernel S) where
  -- The round is idle since no process is RUNNABLE, or it runs the policy's choice.
  abbrev pub RunsBest : ℕ → Type 0
  RunsBest policy =
      (NoneRunnable k.procs × (scheduler_round runs k ≡ k))
      ⊎ ((i : ℕ) × (p : Proc) × IsChoice policy k.procs i p
          × (scheduler_round runs k ≡ dispatch runs i k))

  runs_best :
      (policy : ℕ) (better : Proc → Proc → Bool)
      → IsRanking better
      → Tests policy better
      → scheduler_round runs k ≡ dispatch_best runs (select better k.procs 0 none) k
      → RunsBest policy
  unfolding dispatch_best
  runs_best policy better rank t e = go (select better k.procs 0 none) refl
    where
      go : (b : Option (ℕ × Proc)) → select better k.procs 0 none ≡ b → RunsBest policy
      go none c = inl (
        rw c at (select-Picks better rank k.procs),
        e ∙ ap (λ (x : Option (ℕ × Proc)). dispatch_best runs x k) c,
      )
      go (some (i, p)) c = inr (
        i,
        p,
        IsFirstBest-IsChoice policy better k.procs i p t
            (rw c at (select-Picks better rank k.procs)),
        e ∙ ap (λ (x : Option (ℕ × Proc)). dispatch_best runs x k) c,
      )

at_policy :
    {S : Type 0} (runs : ℕ → Kernel S → Kernel S) (k : Kernel S) (policy : ℕ)
    → k.current_scheduler ≡ policy
    → policy ≤ sched_bjf
    → RunsBest runs k policy
unfolding scheduler_round
at_policy runs k zero e h = runs_best runs k 0 fcfs_better fcfs-IsRanking fcfs_better-Tests (rw e)
at_policy runs k (suc zero) e h =
    runs_best runs k 1 sjf_better sjf-IsRanking sjf_better-Tests (rw e)
at_policy runs k (suc (suc zero)) e h =
    runs_best runs k 2 bjf_better bjf-IsRanking bjf_better-Tests (rw e)
at_policy runs k (suc (suc (suc n))) e h = absurd (omega arith)

-- Under FCFS, SJF and BJF a round runs the RUNNABLE process with the least creation time, the least
-- burst estimate (as an int), or the least priority (as an int) and then the least creation time;
-- among equals the first in the table. It is idle only if no process is RUNNABLE.
pub scheduler-RunsBest :
    {S : Type 0} (runs : ℕ → Kernel S → Kernel S) (k : Kernel S)
    → k.current_scheduler ≤ sched_bjf
    → RunsBest runs k k.current_scheduler
scheduler-RunsBest runs k h = at_policy runs k k.current_scheduler refl h

-- Number `n` of the RUNNABLE processes stands in slot `i`.
pub record IsNth (ps : List Proc) (n i : ℕ) : Type 0 where
  pub who : Proc
  pub there : get_elem? ps i ≡ some who
  pub ready : is_runnable who.state ≡ true
  pub before : runnable_count (take i ps) ≡ n

abbrev Finds : List Proc → ℕ → ℕ → Option ℕ → Type 0
Finds ps i n o = (j : ℕ) × (m : ℕ) × (m ≡ i + j) × (o ≡ some m) × IsNth ps n j

Finds-here :
    (p : Proc) (ps : List Proc) (i n : ℕ)
    → is_runnable p.state ≡ true
    → n ≡ 0
    → Finds (p ∷ ps) i n (some i)
unfolding runnable_count
Finds-here p ps i n r e =
    (0, i, omega arith, refl, record { who = p; there = refl; ready = r; before = sym e })

Finds-later :
    (p : Proc) (ps : List Proc) (i n m : ℕ) (o : Option ℕ)
    → n ≡ (if is_runnable p.state then suc m else m)
    → Finds ps (i + 1) m o
    → Finds (p ∷ ps) i n o
unfolding runnable_count
Finds-later p ps i n m o e f = (
  suc f.0,
  f.1,
  omega (arith, f.2),
  f.3,
  record { who = f.4.who; there = f.4.there; ready = f.4.ready; before = rw f.4.before (sym e) },
)

nth_runnable-Finds :
    (ps : List Proc) (i c n t : ℕ)
    → n < runnable_count ps
    → t ≡ c + n
    → Finds ps i n (nth_runnable ps i c t)
unfolding runnable_count nth_runnable
nth_runnable-Finds [] i c n t h e = absurd (omega arith)
nth_runnable-Finds (p ∷ ps) i c n t h e = elim (Bool-cases (is_runnable p.state)) [
  | inr idle ↦ rw idle (
      Finds-later p ps i n n _ (ground arith)
        (nth_runnable-Finds ps (i + 1) c n t (ground arith) e))
  | inl ready ↦ elim (Bool-cases (c == t)) [
    | inl now ↦ rw (ready, now) (Finds-here p ps i n ready (ground arith))
    | inr later ↦
        rw (ready, later)
          (Finds-later p ps i n (n - 1) _ (ground arith)
            (nth_runnable-Finds ps (i + 1) (c + 1) (n - 1) t (ground arith) (ground arith)))
  ]
]

-- Under RANDOM a round with a RUNNABLE process runs number `rand() % runnable_count` of them, and
-- keeps the new seed; a round without one changes nothing.
pub scheduler_runs_random :
    {S : Type 0} (runs : ℕ → Kernel S → Kernel S) (k : Kernel S)
    → k.current_scheduler ≡ sched_random
    → let seed = rand k.random_seed in
      ((runnable_count k.procs ≡ 0) × (scheduler_round runs k ≡ k))
      ⊎ ((i : ℕ) × IsNth k.procs (seed % runnable_count k.procs) i
          × (scheduler_round runs k ≡ dispatch runs i (record k { random_seed = seed })))
unfolding scheduler_round random_round
scheduler_runs_random runs k e = elim (Bool-cases (ltb 0 (runnable_count k.procs))) [
  | inr none_ready ↦ inl (ground arith, rw (e, none_ready))
  | inl some_ready ↦
      let f =
        nth_runnable-Finds k.procs 0 0 (rand k.random_seed % runnable_count k.procs)
          (rand k.random_seed % runnable_count k.procs) (grind arith) (omega arith) in
      let same : f.1 ≡ f.0 = omega (arith, f.2) in inr (f.1, rw same f.4, rw (e, some_ready, f.3))
]

rr_lem :
    {S : Type 0} (runs : ℕ → Kernel S → Kernel S) (k : Kernel S)
    → k.current_scheduler ≡ sched_rr
    → scheduler_round runs k ≡ rr_round runs nproc 0 k
unfolding scheduler_round
rr_lem runs k e = simp e

module _ {S : Type 0} (runs : ℕ → Kernel S → Kernel S) (ran : S → ℕ → Bool)
    (runs_logged : (i : ℕ) (k : Kernel S) → ran (runs i k).layers i ≡ true)
    (log_kept : (i j : ℕ) (k : Kernel S) → ran k.layers j ≡ true → ran (runs i k).layers j ≡ true)
    (others_kept : (i j : ℕ) (k : Kernel S)
      → i ≢ j
      → is_runnable (proc_at k.procs j).state ≡ true
      → is_runnable (proc_at (runs i k).procs j).state ≡ true) where
  visit : ℕ → Kernel S → Kernel S
  visit i k = if is_runnable (proc_at k.procs i).state then dispatch runs i k else k

  visit-kept :
      (i j : ℕ) (k : Kernel S)
      → i ≢ j
      → is_runnable (proc_at k.procs j).state ≡ true
      → is_runnable (proc_at (visit i k).procs j).state ≡ true
  unfolding visit dispatch
  visit-kept i j k ne r = elim (Bool-cases (is_runnable (proc_at k.procs i).state)) [
    | inr idle ↦ rw idle r
    | inl ready ↦ rw ready (
        others_kept i j _ ne (
          subst (λ (p : Proc). is_runnable p.state ≡ true)
            (sym (
              get_or-set_ne k.procs i j (record (proc_at k.procs i) { state = running }) zeroed ne))
            r))
  ]

  visit-log : (i j : ℕ) (k : Kernel S) → ran k.layers j ≡ true → ran (visit i k).layers j ≡ true
  unfolding visit dispatch
  visit-log i j k r = elim (Bool-cases (is_runnable (proc_at k.procs i).state)) [
    | inr idle ↦ rw idle r
    | inl ready ↦ rw ready (log_kept i j _ r)
  ]

  visit-ran :
      (i : ℕ) (k : Kernel S)
      → is_runnable (proc_at k.procs i).state ≡ true
      → ran (visit i k).layers i ≡ true
  unfolding visit dispatch
  visit-ran i k r = rw r (runs_logged i _)

  rr_round-log :
      (n i j : ℕ) (k : Kernel S) → ran k.layers j ≡ true → ran (rr_round runs n i k).layers j ≡ true
  unfolding rr_round visit
  rr_round-log zero i j k r = r
  rr_round-log (suc n) i j k r = rr_round-log n (i + 1) j (visit i k) (visit-log i j k r)

  rr_round-ran :
      (n i j : ℕ) (k : Kernel S)
      → i ≤ j
      → j < i + n
      → is_runnable (proc_at k.procs j).state ≡ true
      → ran (rr_round runs n i k).layers j ≡ true
  unfolding rr_round visit
  rr_round-ran zero i j k lo hi r = absurd (omega arith)
  rr_round-ran (suc n) i j k lo hi r = elim (ℕ_discrete i j) [
    | yes e ↦
        rr_round-log n (i + 1) j (visit i k)
          (subst (λ (x : ℕ). ran (visit i k).layers x ≡ true) e (visit-ran i k (rw e r)))
    | no ne ↦
        rr_round-ran n (i + 1) j (visit i k) (omega arith) (omega arith) (visit-kept i j k ne r)
  ]

  -- Under RR a round runs every process that is RUNNABLE when it begins. Here `ran` is a log that
  -- the runs write and never erase, and no run takes another process out of the state RUNNABLE.
  pub scheduler_rr_fair :
      (k : Kernel S) (j : ℕ)
      → k.current_scheduler ≡ sched_rr
      → j < nproc
      → is_runnable (proc_at k.procs j).state ≡ true
      → ran (scheduler_round runs k).layers j ≡ true
  scheduler_rr_fair k j e h r =
      subst (λ (x : Kernel S). ran x.layers j ≡ true) (sym (rr_lem runs k e))
        (rr_round-ran nproc 0 j k (omega arith) (omega arith) r)
