-- ===== src/Proc/Scheduler.antt =====
-- `scheduler` and `rand` (proc.c). `runs` stands for `swtch`: what the chosen process, and all that
-- happens meanwhile, make of the kernel until the switch back. The debug output is left out.
use xv6_public_os_project.Proc.Types.{Proc, Kernel, running, is_runnable, proc_at, nproc}
use xv6_public_os_project.Base.{
  ℕ, zero, suc, ◌+◌, ◌%◌, Bool, ◌&&◌, ◌||◌, Option, none, some, List, [], ◌∷◌, ◌==◌, if◌then◌else◌,
  ltb, int_lt, int_eq, set, add32, mul32,
}

-- The tests of the three loops that look for the best process, at a process and the best so far.
unfoldable pub fcfs_better : Proc → Proc → Bool
fcfs_better p best = ltb p.createtime best.createtime

unfoldable pub sjf_better : Proc → Proc → Bool
sjf_better p best = int_lt p.estimated_burst best.estimated_burst

unfoldable pub bjf_better : Proc → Proc → Bool
bjf_better p best =
    int_lt p.priority best.priority
    || (int_eq p.priority best.priority && ltb p.createtime best.createtime)

module _ (better : Proc → Proc → Bool) where
  abbrev pub improve : ℕ → Proc → Option (ℕ × Proc) → Option (ℕ × Proc)
  improve i p none = some (i, p)
  improve i p (some (j, best)) = if better p best then some (i, p) else some (j, best)

  -- The loop over the table, from slot `i` on.
  unfoldable pub select : List Proc → ℕ → Option (ℕ × Proc) → Option (ℕ × Proc)
  select [] i best = best
  select (p ∷ ps) i best =
      select ps (i + 1) (if is_runnable p.state then improve i p best else best)

-- `rand`: the seed after one step of the generator.
unfoldable pub rand : ℕ → ℕ
rand seed = add32 (mul32 seed 1664525) 1013904223

unfoldable pub runnable_count : List Proc → ℕ
runnable_count [] = 0
runnable_count (p ∷ ps) = if is_runnable p.state then suc (runnable_count ps) else runnable_count ps

-- The second loop of the random scheduler: the slot of the RUNNABLE process number `target`.
unfoldable pub nth_runnable : List Proc → ℕ → ℕ → ℕ → Option ℕ
nth_runnable [] i current target = none
nth_runnable (p ∷ ps) i current target =
    if is_runnable p.state
    then if current == target then some i else nth_runnable ps (i + 1) (current + 1) target
    else nth_runnable ps (i + 1) current target

-- The policies (fcntl.h).
abbrev pub sched_fcfs : ℕ
sched_fcfs = 0

abbrev pub sched_sjf : ℕ
sched_sjf = 1

abbrev pub sched_bjf : ℕ
sched_bjf = 2

abbrev pub sched_random : ℕ
sched_random = 3

abbrev pub sched_rr : ℕ
sched_rr = 4

module _ {S : Type 0} (runs : ℕ → Kernel S → Kernel S) where
  -- Run process `i` until it switches back.
  unfoldable pub dispatch : ℕ → Kernel S → Kernel S
  dispatch i k =
      let p = record (proc_at k.procs i) { state = running } in
      let back = runs i (record k { cpu_proc = some i; procs = set k.procs i p }) in
      record back { cpu_proc = none }

  unfoldable pub dispatch_best : Option (ℕ × Proc) → Kernel S → Kernel S
  dispatch_best none k = k
  dispatch_best (some (i, p)) k = dispatch i k

  abbrev dispatch_slot : Option ℕ → Kernel S → Kernel S
  dispatch_slot none k = k
  dispatch_slot (some i) k = dispatch i k

  unfoldable pub random_round : Kernel S → Kernel S
  random_round k =
      let count = runnable_count k.procs in
      let seed = rand k.random_seed in
      if ltb 0 count
      then dispatch_slot (nth_runnable k.procs 0 0 (seed % count)) (record k { random_seed = seed })
      else k

  -- The round-robin loop, with `n` slots left from slot `i` on.
  unfoldable pub rr_round : ℕ → ℕ → Kernel S → Kernel S
  rr_round zero i k = k
  rr_round (suc n) i k =
      rr_round n (i + 1) (if is_runnable (proc_at k.procs i).state then dispatch i k else k)

  -- One round of the endless loop of `scheduler`.
  unfoldable pub scheduler_round : Kernel S → Kernel S
  scheduler_round k =
      if k.current_scheduler == sched_fcfs
      then dispatch_best (select fcfs_better k.procs 0 none) k
      else if k.current_scheduler == sched_sjf
      then dispatch_best (select sjf_better k.procs 0 none) k
      else if k.current_scheduler == sched_bjf
      then dispatch_best (select bjf_better k.procs 0 none) k
      else if k.current_scheduler == sched_random
      then random_round k
      else rr_round nproc 0 k
