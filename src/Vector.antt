-- ===== src/Vector.antt =====
-- lib/vector.c: a growing table of pointers whose free slots are a list through the table itself.
-- `Ops` has the functions, `Slot` what a slot goes through from its insertion to its removal.
pub mod Ops
pub mod Slot
mod Tests
