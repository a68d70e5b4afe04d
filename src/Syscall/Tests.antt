-- ===== src/Syscall/Tests.antt =====
-- The system calls at a few inputs.
use xv6_public_os_project.Proc.Types.{Proc, running, is_running, runnable, proc_at, Kernel, zeroed}
use xv6_public_os_project.Syscall.DigitRoot.{
  find_digit_root, digit_loop, rounds_enough, find_digit_root_lem,
}
use xv6_public_os_project.Syscall.Queries.{get_uncle_count, find_pid, uncles_of, uncle_loop}
use xv6_public_os_project.Syscall.Arguments.{argint, argptr, Points, argptr-Points}
use xv6_public_os_project.Proc.Sleep.{yield}
use xv6_public_os_project.Proc.Scheduler.{dispatch}
use xv6_public_os_project.Syscall.Timer.{timer_tick, advance_clock, used_up, count_tick, quantum}
use xv6_public_os_project.Syscall.Slices.{Lives, starts, ticks, resumes, quantum_only_once}
use xv6_public_os_project.Base.{
  ℕ, ◌≡◌, ◌≤◌, ◌↔◌, refl, Bool, true, false, some, List, [], ◌∷◌, arith, minus_one, if◌then◌else◌,
  ltb,
}

find_digit_root_38 : find_digit_root (some 38) ≡ some 2
unfolding find_digit_root digit_loop rounds_enough
find_digit_root_38 = refl

find_digit_root_example : find_digit_root (some 38) ≡ some 2
find_digit_root_example = find_digit_root_lem 38 (omega arith)

-- Slot 0 has the children 1 and 2, and slot 1 has the child 3.
abbrev family : List Proc
family =
    record zeroed { state = running; pid = 1 }
    ∷ record zeroed { state = runnable; pid = 2; parent = some 0 }
    ∷ record zeroed { state = runnable; pid = 3; parent = some 0 }
    ∷ record zeroed { state = runnable; pid = 4; parent = some 1 }
    ∷ []

uncle_of_4 : get_uncle_count 4 family ≡ 1
unfolding get_uncle_count find_pid uncles_of uncle_loop
uncle_of_4 = refl

found_4 : find_pid 4 family ≡ some (proc_at family 3)
unfolding find_pid
found_4 = refl

abbrev kernel : Kernel ℕ
kernel = record {
  procs = record zeroed { state = running; pid = 1; ticks = 7 } ∷ [];
  initproc = some 0;
  current_scheduler = 0;
  nextpid = 2;
  random_seed = 1;
  now = 20;
  cpu_proc = some 0;
  layers = 0;
}

abbrev calls : List (Bool × ℕ)
calls = (true, 0) ∷ (true, minus_one) ∷ (false, 0) ∷ []

abbrev before : Kernel ℕ
before = record kernel { procs = record zeroed { state = running; pid = 1 } ∷ [] }

abbrev ticked : Kernel ℕ → Kernel ℕ
ticked k = (timer_tick 900 1 0 k).0

abbrev fifth : Kernel ℕ
fifth = ticked (ticked (ticked (ticked (ticked before))))

-- The fifth tick takes the processor, and the scheduler gives it back.
abbrev back : Kernel ℕ
back = dispatch (λ i m. m) 0 fifth

back-Lives : Lives 900 0 before 5 back
unfolding timer_tick advance_clock used_up count_tick
back-Lives = resumes 5 fifth (
    ticks 4 1 (ticked (ticked (ticked (ticked before))))
      (ticks 3 1 (ticked (ticked (ticked before)))
        (ticks 2 1 (ticked (ticked before))
          (ticks 1 1 (ticked before) (ticks 0 1 before starts refl) refl) refl)
        refl)
      refl)

back_runs : is_running (proc_at back.procs 0).state ≡ true
unfolding timer_tick advance_clock used_up count_tick yield dispatch
back_runs = refl

quantum_only_once_example :
    ((proc_at back.procs 0).ticks ≡ 5) × (((timer_tick 900 0 0 back).1 ≡ true) ↔ (quantum ≤ 6))
quantum_only_once_example =
    quantum_only_once 900 0 0 5 before back (omega arith) refl back-Lives (omega arith) back_runs

-- A process of 8192 bytes whose words are 4096 and whose bytes are 0 from 4100 on.
argptr-Points_example :
    Points 8192 100 (argint (λ a. 4096) 8192 8000 0) (argptr (λ a. 4096) 8192 8000 0 100)
argptr-Points_example = argptr-Points (λ a. 4096) 8192 8000 0 100 (omega arith) (omega arith)

abbrev text : ℕ → ℕ
text a = if ltb a 4100 then 65 else 0
