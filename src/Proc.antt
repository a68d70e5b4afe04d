-- ===== src/Proc.antt =====
-- proc.c and proc.h: the process table, the schedulers and the life of a process. A pointer to a
-- process is its index in the table. A function that gives up the processor (`sched`) is two
-- definitions, one up to the switch and one from it on. `ptable.lock` makes
-- each of them one step. `allocproc` and `fork` give it up for their calls of `Services`, and `exit`
-- closes its files before it takes it: the model has no other process come between.
pub mod Types
pub mod Scheduler
pub mod Selection
pub mod Dispatch
pub mod Sleep
pub mod Create
pub mod Exit
pub mod Table
pub mod Waiting
pub mod Exiting
pub mod Forking
pub mod Killing
pub mod Pids
mod Tests
