-- ===== src/Kheap.antt =====
-- memory/kheap.c, the heap of the kernel: `Ops` has the functions, `Sorted` what the chain of free
-- blocks is, `Insert` what putting a block into it does, `Take` the search, and `Alloc` the exported functions.
pub mod Ops
pub mod Sorted
pub mod Insert
pub mod Take
pub mod Alloc
mod Tests
