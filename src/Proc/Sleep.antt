-- ===== src/Proc/Sleep.antt =====
-- `wakeup1`, `wakeup`, `sleep`, `yield` and `kill` (proc.c).
use xv6_public_os_project.Proc.Types.{Proc, runnable, sleeping, is_sleeping, proc_at, Kernel}
use xv6_public_os_project.Base.{
  ℕ, true, false, ◌&&◌, Option, none, some, List, [], ◌∷◌, ◌==◌, if◌then◌else◌, set, add32, sub32,
  minus_one,
}

-- `wakeup1`, and `wakeup`, which is `wakeup1` under the lock.
unfoldable pub wakeup : ℕ → List Proc → List Proc
wakeup chan [] = []
wakeup chan (p ∷ ps) =
    (if is_sleeping p.state && p.chan == chan then record p { state = runnable } else p)
    ∷ wakeup chan ps

module _ {S : Type 0} where
  -- `sleep` up to `sched`: the kernel and `start_ticks`.
  unfoldable pub sleep : ℕ → ℕ → Kernel S → Kernel S × ℕ
  sleep me chan k = (
    record k {
      procs = set k.procs me (record (proc_at k.procs me) { chan = chan; state = sleeping });
    },
    k.now,
  )

  -- `sleep` after `sched` has returned.
  unfoldable pub awake : ℕ → ℕ → Kernel S → Kernel S
  awake me start_ticks k =
      let p = proc_at k.procs me in
      record k {
        procs =
            set k.procs me
              (record p { sleeptime = add32 p.sleeptime (sub32 k.now start_ticks); chan = 0 });
      }

  -- `yield`, up to `sched`.
  unfoldable pub yield : ℕ → Kernel S → Kernel S
  yield me k = record k {
    procs =
        set k.procs me (record (proc_at k.procs me) { state = runnable; yield_request = false });
  }

-- The loop of `kill`: the table, if there is a process of that pid.
unfoldable pub kill_loop : ℕ → List Proc → Option (List Proc)
kill_loop pid [] = none
kill_loop pid (p ∷ ps) =
    if p.pid == pid
    then some
        (record p { killed = true; state = if is_sleeping p.state then runnable else p.state } ∷ ps)
    else elim (kill_loop pid ps) [ none ↦ none | some qs ↦ some (p ∷ qs) ]

unfoldable pub kill : ℕ → List Proc → List Proc × ℕ
kill pid ps = elim (kill_loop pid ps) [ none ↦ (ps, minus_one) | some qs ↦ (qs, 0) ]
