-- ===== src/Syscall.antt =====
-- sysproc.c, the counters and the arguments of syscall.c, `get_uncle_count` (proc.c) and the timer
-- tick of trap.c. An argument is what `argint` finds: `none` where it fails, else the pattern of an
-- int.
pub mod DigitRoot
pub mod Arguments
pub mod Calls
pub mod Queries
pub mod Policy
pub mod Timer
pub mod Slices
mod Tests
