-- ===== src/Mpool.antt =====
-- memory/mpool.c: pools of memory.
pub mod Ring
pub mod Ops
pub mod Insert
pub mod Blocks
pub mod Objects
pub mod Tests
