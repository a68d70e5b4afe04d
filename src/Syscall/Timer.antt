-- ===== src/Syscall/Timer.antt =====
-- The timer interrupt in `trap` (trap.c), for a process that runs and is not killed. As the build
-- defines none of FCFS, SJF and BJF, the preemption test is compiled in.
use xv6_public_os_project.Proc.Types.{Proc, is_running, proc_at, Kernel}
use xv6_public_os_project.Proc.Sleep.{wakeup, yield}
use xv6_public_os_project.Base.{ℕ, Bool, true, false, ◌==◌, if◌then◌else◌, set, add32, leb}

abbrev pub quantum : ℕ
quantum = 5

-- The counters of the running process.
unfoldable pub count_tick : Proc → Proc
count_tick p = record p {
  runtime = add32 p.runtime 1;
  last_burst_ticks = add32 p.last_burst_ticks 1;
  ticks = add32 p.ticks 1;
}

unfoldable pub used_up : Proc → Bool
used_up p = leb quantum p.ticks

module _ {S : Type 0} (ticks_chan : ℕ) where
  -- On processor 0 the clock advances, and the sleepers on it are woken.
  unfoldable pub advance_clock : ℕ → Kernel S → Kernel S
  advance_clock cpu k =
      if cpu == 0 then record k { now = add32 k.now 1; procs = wakeup ticks_chan k.procs } else k

  -- The interrupt on processor `cpu`, which runs process `me`: the kernel, and whether the process
  -- yields.
  unfoldable pub timer_tick : ℕ → ℕ → Kernel S → Kernel S × Bool
  timer_tick cpu me k =
      let k' = advance_clock cpu k in
      let p = count_tick (proc_at k'.procs me) in
      let counted = record k' { procs = set k'.procs me p } in
      if is_running (proc_at k'.procs me).state
      then if used_up p
        then (
          yield me (record k' { procs = set k'.procs me (record p { yield_request = true }) }),
          true,
        )
        else (counted, false)
      else (k', false)
