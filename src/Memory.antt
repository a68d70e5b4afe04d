-- ===== src/Memory.antt =====
-- kalloc.c: the allocator of physical pages. `kmem.lock` is held around each change, so each
-- operation is one step.
pub mod Kalloc
pub mod FreeList
mod Tests
