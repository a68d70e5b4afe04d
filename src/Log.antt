-- ===== src/Log.antt =====
-- log.c: the redo log that makes the updates of several file system calls one atomic step. The
-- children hold the device and the buffers (Log/Device), the header block (Log/Header), the disk
-- writes of a commit and of recovery (Log/Commit, Log/Recovery) and the reservations (Log/Ops).
pub mod Device
pub mod Header
pub mod Commit
pub mod Installing
pub mod Writing
pub mod Recovery
pub mod Atomic
pub mod Ops
pub mod Running
pub mod Reservation
mod Tests
