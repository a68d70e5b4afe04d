-- ===== src/Locks/Tests.antt =====
-- Two processors with the interrupts on; number 0 has taken the lock.
use xv6_public_os_project.Locks.{
  Cpu, initlock, pushcli, popcli, holding, acquire_start, try_lock, acquire_end,
}
use xv6_public_os_project.Locks.Exclusion.{
  World, start, Reach, here, next, begins, wins, enters, outside, spinning, entering, inside,
  has_lock, mutual_exclusion,
}
use xv6_public_os_project.Base.{◌≡◌, refl, true, false, some, none, update, arith}

abbrev idle : Cpu
idle = record { interrupts = true; ncli = 0; intena = false }

abbrev busy : Cpu
busy = record { interrupts = false; ncli = 1; intena = true }

abbrev taken : World
taken = record {
  lock = record { locked = true; cpu = some 0 };
  cpus = update (λ i. idle) 0 busy;
  stage = update (update (update (λ i. outside) 0 spinning) 0 entering) 0 inside;
}

begun : acquire_start 0 initlock idle ≡ some busy
unfolding acquire_start holding pushcli popcli initlock
begun = refl

won : try_lock initlock ≡ (record { locked = true; cpu = none }, true)
unfolding try_lock initlock
won = refl

taken-Reach : Reach (start (λ i. idle)) taken
unfolding acquire_end
taken-Reach =
    next
      (next (next here (begins 0 busy refl begun))
        (wins 0 (record { locked = true; cpu = none }) refl won))
      (enters 0 refl)

mutual_exclusion_example : has_lock (taken.stage 1) ≡ false
mutual_exclusion_example =
    mutual_exclusion (λ i. idle) taken 0 1 taken-Reach refl (λ e. omega arith)
