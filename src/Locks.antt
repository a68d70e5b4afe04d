-- ===== src/Locks.antt =====
-- spinlock.c: `pushcli`, `popcli`, `holding`, `acquire` and `release`. A processor is its number;
-- `acquire` and `release` are cut where another processor can see what they have done so far. The
-- recorded call stacks are left out.
pub mod Exclusion
mod Tests
use xv6_public_os_project.Base.{
  ℕ, ◌+◌, ◌-◌, Bool, true, false, ◌&&◌, Option, none, some, ◌==◌, if◌then◌else◌,
}

-- The interrupt flag of a processor (FL_IF of eflags), and struct cpu's fields.
pub record Cpu : Type 0 where
  pub interrupts : Bool
  pub ncli : ℕ
  pub intena : Bool

-- struct spinlock
pub record Spinlock : Type 0 where
  pub locked : Bool
  pub cpu : Option ℕ

unfoldable pub initlock : Spinlock
initlock = record { locked = false; cpu = none }

unfoldable pub pushcli : Cpu → Cpu
pushcli c = record {
  interrupts = false;
  ncli = c.ncli + 1;
  intena = if c.ncli == 0 then c.interrupts else c.intena;
}

-- `none` is a panic, here and below.
unfoldable pub popcli : Cpu → Option Cpu
popcli c =
    if c.interrupts
    then none
    else if c.ncli == 0
    then none
    else some (record c {
      ncli = c.ncli - 1;
      interrupts = if (c.ncli - 1 == 0) && c.intena then true else c.interrupts;
    })

abbrev pub is_cpu : Option ℕ → ℕ → Bool
is_cpu none me = false
is_cpu (some i) me = i == me

unfoldable pub holding : ℕ → Spinlock → Cpu → Option (Bool × Cpu)
holding me l c = elim (popcli (pushcli c)) [
  | none ↦ none
  | some c' ↦ some (l.locked && is_cpu l.cpu me, c')
]

-- `acquire` up to the loop.
unfoldable pub acquire_start : ℕ → Spinlock → Cpu → Option Cpu
acquire_start me l c = elim (holding me l (pushcli c)) [
  | none ↦ none
  | some (held, c') ↦ if held then none else some c'
]

-- One `xchg` of the loop: the lock after it, and whether it was free.
unfoldable pub try_lock : Spinlock → Spinlock × Bool
try_lock l = (record l { locked = true }, if l.locked then false else true)

-- The end of `acquire`.
unfoldable pub acquire_end : ℕ → Spinlock → Spinlock
acquire_end me l = record l { cpu = some me }

-- `release` up to the store that unlocks.
unfoldable pub release_start : ℕ → Spinlock → Cpu → Option (Spinlock × Cpu)
release_start me l c = elim (holding me l c) [
  | none ↦ none
  | some (held, c') ↦ if held then some (record l { cpu = none }, c') else none
]

-- The store, and `popcli`.
unfoldable pub release_end : Spinlock → Cpu → Option (Spinlock × Cpu)
release_end l c = elim (popcli c) [ none ↦ none | some c' ↦ some (record l { locked = false }, c') ]
