-- ===== src/Proc/Tests.antt =====
-- A small process table: init in slot 0, its child in slot 1, two children of that one, and a free
-- slot.
use xv6_public_os_project.Proc.Types.{
  Proc, sleeping, runnable, running, zombie, proc_at, Kernel, Services, zeroed,
}
use xv6_public_os_project.Proc.Scheduler.{
  select, fcfs_better, bjf_better, sched_random, sched_rr, rand, runnable_count, scheduler_round,
  dispatch,
}
use xv6_public_os_project.Proc.Dispatch.{
  RunsBest, scheduler-RunsBest, IsNth, scheduler_runs_random, scheduler_rr_fair,
}
use xv6_public_os_project.Proc.Sleep.{kill, kill_loop, sleep}
use xv6_public_os_project.Proc.Create.{fork, allocproc, find_unused, give_stack, claim}
use xv6_public_os_project.Proc.Exit.{exit, exited, wait, asleep, find_zombie, has_child}
use xv6_public_os_project.Proc.Table.{active}
use xv6_public_os_project.Proc.Waiting.{Scan, wait-Scan}
use xv6_public_os_project.Proc.Exiting.{Exits, exit-Exits, wait_not_lost}
use xv6_public_os_project.Proc.Forking.{Forked, fork-Forked}
use xv6_public_os_project.Proc.Killing.{IsFirst, after_kill, kill_free_slot}
use xv6_public_os_project.Proc.Pids.{Unique, here, next, forks, pids-Unique}
use xv6_public_os_project.Base.{
  ℕ, zero, suc, ◌+◌, ◌%◌, ◌<◌, ◌≡◌, ◌≢◌, ◌⊎◌, refl, true, false, none, some, List, [], ◌∷◌,
  contains, arith, ==_refl,
}

-- Memory that never runs out: the state counts the pages handed out.
abbrev services : Services ℕ
services = record {
  kalloc = λ s. (4096, s + 1);
  kfree = λ v s. s;
  copyuvm = λ pgdir sz s. (8192, s + 1);
  freevm = λ pgdir s. s;
  allocuvm = λ pgdir old new s. (new, s);
  deallocuvm = λ pgdir old new s. (new, s);
  filedup = λ f s. s;
  fileclose = λ f s. s;
  idup = λ ip s. s;
  iput = λ ip s. s;
  forkret = 77;
  ptable = 1000;
}

abbrev table : List Proc
table =
    record zeroed { state = sleeping; pid = 1; chan = 5 }
    ∷ record zeroed { state = running; pid = 2; parent = some 0; createtime = 9 }
    ∷ record zeroed { state = runnable; pid = 3; parent = some 1; createtime = 4; priority = 8 }
    ∷ record zeroed { state = runnable; pid = 4; parent = some 1; createtime = 6; priority = 7 }
    ∷ zeroed
    ∷ []

abbrev kernel : Kernel ℕ
kernel = record {
  procs = table;
  initproc = some 0;
  current_scheduler = 0;
  nextpid = 5;
  random_seed = 1;
  now = 20;
  cpu_proc = some 1;
  layers = 0;
}

first_come : select fcfs_better table 0 none ≡ some (2, proc_at table 2)
unfolding select fcfs_better
first_come = refl

best_priority : select bjf_better table 0 none ≡ some (3, proc_at table 3)
unfolding select bjf_better
best_priority = refl

abbrev back : ℕ → Kernel ℕ → Kernel ℕ
back i k = record k { layers = i }

scheduler-RunsBest_example : RunsBest back kernel 0
scheduler-RunsBest_example = scheduler-RunsBest back kernel (omega arith)

abbrev dice : Kernel ℕ
dice = record kernel { current_scheduler = sched_random }

scheduler_runs_random_example :
    ((runnable_count table ≡ 0) × (scheduler_round back dice ≡ dice))
    ⊎ ((i : ℕ) × IsNth table (rand 1 % runnable_count table) i
        × (scheduler_round back dice ≡ dispatch back i (record dice { random_seed = rand 1 })))
scheduler_runs_random_example = scheduler_runs_random back dice refl

-- Runs that only write the log.
abbrev turns : Kernel (List ℕ)
turns = record {
  procs = table;
  initproc = some 0;
  current_scheduler = sched_rr;
  nextpid = 5;
  random_seed = 1;
  now = 20;
  cpu_proc = none;
  layers = [];
}

abbrev logs : ℕ → Kernel (List ℕ) → Kernel (List ℕ)
logs i k = record k { layers = i ∷ k.layers }

logged : (i : ℕ) (k : Kernel (List ℕ)) → contains (logs i k).layers i ≡ true
logged i k = ground (arith, ==_refl i)

log_kept :
    (i j : ℕ) (k : Kernel (List ℕ))
    → contains k.layers j ≡ true
    → contains (logs i k).layers j ≡ true
log_kept i j k h = ground arith

scheduler_rr_fair_example : contains (scheduler_round logs turns).layers 3 ≡ true
scheduler_rr_fair_example =
    scheduler_rr_fair logs contains logged log_kept (λ i j k ne r. r) turns 3 refl (omega arith)
      refl

wait-Scan_example : Scan services 1 kernel (wait services 1 kernel)
wait-Scan_example = wait-Scan services 1 kernel (omega arith)

exit-Exits_example :
    (k' : Kernel ℕ) × (exit services 1 kernel ≡ exited k') × Exits services 1 kernel k'
exit-Exits_example = exit-Exits services 1 kernel (omega arith) refl

abbrev waiting : Kernel ℕ
waiting = record kernel {
  procs =
      record zeroed { state = sleeping; pid = 1; chan = 5 }
      ∷ record zeroed { state = sleeping; pid = 2; parent = some 0; createtime = 9; chan = 1168 }
      ∷ record zeroed { state = runnable; pid = 3; parent = some 1; createtime = 4; priority = 8 }
      ∷ record zeroed { state = runnable; pid = 4; parent = some 1; createtime = 6; priority = 7 }
      ∷ zeroed
      ∷ [];
}

wait_sleeps : wait services 1 kernel ≡ asleep waiting
unfolding wait find_zombie has_child sleep
wait_sleeps = refl

wait_not_lost_example :
    (l' : Kernel ℕ) × (exit services 2 waiting ≡ exited l')
    × ((proc_at l'.procs 1).state ≡ runnable)
    × ((proc_at l'.procs 2).state ≡ zombie)
wait_not_lost_example =
    wait_not_lost services 1 2 kernel waiting waiting (omega arith) wait_sleeps refl refl
      (omega arith) (omega arith) refl refl

fork-Forked_example : Forked services 1 kernel (fork services 1 kernel)
fork-Forked_example = fork-Forked services 1 kernel refl

free_slot-IsFirst : IsFirst 0 table 4
free_slot-IsFirst = (omega arith, refl, before)
  where
    before : (j : ℕ) → j < 4 → (proc_at table j).pid ≢ 0
    before zero h = omega arith
    before (suc zero) h = omega arith
    before (suc (suc zero)) h = omega arith
    before (suc (suc (suc zero))) h = omega arith
    before (suc (suc (suc (suc j)))) h = absurd (omega arith)

next_slot : find_unused table 0 ≡ some 4
unfolding find_unused
next_slot = refl

allocated : (allocproc services (after_kill services kernel 0)).1 ≡ some 4
unfolding allocproc give_stack claim find_unused kill kill_loop
allocated = refl

kill_free_slot_example :
    ((kill 0 table).1 ≡ 0)
    × (◌≡◌ {A = ℕ} 4 4)
    × ((proc_at (allocproc services (after_kill services kernel 0)).0.procs 4).killed ≡ true)
kill_free_slot_example = kill_free_slot services kernel 0 4 4 next_slot free_slot-IsFirst allocated

abbrev alone : Kernel ℕ
alone = record kernel {
  procs = record zeroed { state = running; pid = 1 } ∷ zeroed ∷ zeroed ∷ [];
  nextpid = 2;
}

others_free : (j : ℕ) → j ≢ 0 → active alone.procs j ≡ false
others_free zero h = absurd (h refl)
others_free (suc zero) h = refl
others_free (suc (suc zero)) h = refl
others_free (suc (suc (suc j))) h = refl

pids-Unique_example : Unique (fork services 0 alone).0.procs (fork services 0 alone).0.nextpid
pids-Unique_example =
    pids-Unique services alone (fork services 0 alone).0 0 others_free (omega arith)
      (next here (forks 0 refl (omega arith)))
