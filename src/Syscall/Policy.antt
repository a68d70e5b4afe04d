-- ===== src/Syscall/Policy.antt =====
-- `sys_setschedpolicy`, `sys_set_priority`, `sys_set_burst_estimate` (sysproc.c) and the counting of
-- `syscall` (syscall.c). Each returns the result, as an int pattern, with the new state.
use xv6_public_os_project.Proc.Types.{Proc, proc_at, Kernel}
use xv6_public_os_project.Proc.Scheduler.{sched_fcfs, sched_rr}
use xv6_public_os_project.Base.{
  ℕ, ◌+◌, ◌≤◌, ◌<◌, ◌≡◌, refl, ◌⊎◌, inl, inr, Bool, true, false, not, ◌&&◌, ◌||◌, Option, none,
  some, List, [], ◌∷◌, if◌then◌else◌, set, add32, int_lt, minus_one, arith, word, Bool-cases,
}

module _ {S : Type 0} where
  unfoldable pub setschedpolicy : Option ℕ → Kernel S → Kernel S × ℕ
  setschedpolicy none k = (k, minus_one)
  setschedpolicy (some policy) k =
      if int_lt policy sched_fcfs || int_lt sched_rr policy
      then (k, minus_one)
      else (record k { current_scheduler = policy }, 0)

  unfoldable pub set_priority : Option ℕ → ℕ → Kernel S → Kernel S × ℕ
  set_priority none me k = (k, minus_one)
  set_priority (some priority) me k =
      (record k { procs = set k.procs me (record (proc_at k.procs me) { priority = priority }) }, 0)

  unfoldable pub set_burst_estimate : Option ℕ → ℕ → Kernel S → Kernel S × ℕ
  set_burst_estimate none me k = (k, minus_one)
  set_burst_estimate (some burst) me k = if int_lt burst 0 then (k, minus_one) else (
    record k { procs = set k.procs me (record (proc_at k.procs me) { estimated_burst = burst }) },
    0,
  )

  -- The argument is a policy and is set now, or it is none and nothing has changed.
  abbrev pub SetsPolicy : Option ℕ → Kernel S → Kernel S × ℕ → Type 0
  SetsPolicy arg k o =
      ((p : ℕ) × (arg ≡ some p) × (p ≤ sched_rr) × (o ≡ (record k { current_scheduler = p }, 0)))
      ⊎ (((p : ℕ) → arg ≡ some p → sched_rr < p) × (o ≡ (k, minus_one)))

  -- `setschedpolicy` accepts exactly the numbers of the five policies and sets the policy that it is
  -- given; it returns -1 for any other int, negative ones too, and changes nothing then.
  pub setschedpolicy-SetsPolicy :
      (arg : ℕ) (k : Kernel S) → arg < word → SetsPolicy (some arg) k (setschedpolicy (some arg) k)
  unfolding setschedpolicy
  setschedpolicy-SetsPolicy p k h = elim (Bool-cases (int_lt p sched_fcfs || int_lt sched_rr p)) [
    | inl bad ↦ rw bad (inr (λ q e. ground arith, refl))
    | inr good ↦ rw good (inl (p, refl, ground arith, refl))
  ]

-- The counting of `syscall`: `known` tells whether the number is in the table, `ret` is what the
-- handler returns.
unfoldable pub count_syscall : Bool → ℕ → Proc → Proc
count_syscall known ret p =
    if known && int_lt 0 p.pid
    then record p {
      syscall_count = add32 p.syscall_count 1;
      good_syscall_count =
          if int_lt ret 0 then p.good_syscall_count else add32 p.good_syscall_count 1;
      tf = record (p.tf) { eax = ret };
    }
    else record p { tf = record (p.tf) { eax = if known then ret else minus_one } }

-- A sequence of system calls of one process, each with whether it is known and what it returns.
unfoldable pub count_syscalls : List (Bool × ℕ) → Proc → Proc
count_syscalls [] p = p
count_syscalls ((known, ret) ∷ cs) p = count_syscalls cs (count_syscall known ret p)

-- The calls that are known, and those of them whose result is not negative.
abbrev pub known_count : List (Bool × ℕ) → ℕ
known_count [] = 0
known_count ((known, ret) ∷ cs) = (if known then 1 else 0) + known_count cs

abbrev pub good_count : List (Bool × ℕ) → ℕ
good_count [] = 0
good_count ((known, ret) ∷ cs) = (if known && not (int_lt ret 0) then 1 else 0) + good_count cs

-- While they do not wrap, the two counters of a process with a positive pid grow by the number of
-- its known system calls and by the number of those whose result is not negative, in every sequence
-- of calls.
pub count_syscalls_lem :
    (cs : List (Bool × ℕ)) (p : Proc)
    → int_lt 0 p.pid ≡ true
    → p.syscall_count + known_count cs < word
    → p.good_syscall_count + good_count cs < word
    → ((count_syscalls cs p).syscall_count ≡ p.syscall_count + known_count cs)
      × ((count_syscalls cs p).good_syscall_count ≡ p.good_syscall_count + good_count cs)
unfolding count_syscalls count_syscall
count_syscalls_lem [] p pos h g = (omega arith, omega arith)
count_syscalls_lem ((true, ret) ∷ cs) p pos h g =
    ground (arith, count_syscalls_lem cs (count_syscall true ret p))
count_syscalls_lem ((false, ret) ∷ cs) p pos h g =
    ground (arith, count_syscalls_lem cs (count_syscall false ret p))
