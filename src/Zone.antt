-- ===== src/Zone.antt =====
-- memory/zone.c, memory/zonedirect.c, memory/virtual/zoneindirect.c and memory/memmgr.c: the zones of the
-- memory over the buddy allocator. `Ops` has one zone, `Manager` the list of them; the others prove.
pub mod Ops
pub mod Manager
pub mod Indirect
pub mod Trip
mod Tests
