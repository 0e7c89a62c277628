-- ===== src/Sleep.antt =====
-- kernel/sleep.c: the queue of the tasks that wait for a time. `Ops` has the functions, `Delta` the
-- times that the queue stands for, `Queue` what `TimerSet` does to them.
pub mod Ops
pub mod Delta
pub mod Queue
mod Tests
