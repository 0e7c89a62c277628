-- ===== src/Device.antt =====
-- memory/devices.c: the registered devices.
pub mod Ops
pub mod Trip
pub mod Tests
