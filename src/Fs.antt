-- ===== src/Fs.antt =====
-- fs.c: blocks, inodes, their contents, directories and paths, on the disk as the buffer cache shows
-- it. Each function runs in a transaction with the locks of its inodes held, so it is one step.
pub mod Disk
pub mod Bitmap
pub mod Bits
pub mod Allocation
pub mod Inode
pub mod OnDisk
pub mod Blocks
pub mod Slots
pub mod Mapping
pub mod Bmap
pub mod Content
pub mod Changes
pub mod Splicing
pub mod Writing
pub mod Reading
pub mod Path
pub mod Truncate
pub mod Freed
pub mod Emptying
pub mod Truncated
pub mod Cache
pub mod Sharing
pub mod Numbers
pub mod Holders
pub mod Directory
pub mod Entries
pub mod Linking
pub mod Naming
pub mod Linked
pub mod Relinked
mod Tests
mod DirTests
mod FileTests
