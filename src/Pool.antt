-- ===== src/Pool.antt =====
-- lib/allocator.c: objects of one size handed out of a block of memory. `Ops` has the functions,
-- `Stack` the objects that are free.
pub mod Ops
pub mod Stack
mod Tests
