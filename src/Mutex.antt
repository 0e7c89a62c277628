-- ===== src/Mutex.antt =====
-- kernel/mutex.c and kernel/cond.c over the scheduler: `Handle` has the functions that find, make and
-- try a mutex, `Ops` the others on mutexes, `Cond` those on condition variables.
pub mod Handle
pub mod Ops
pub mod Owned
pub mod Taken
pub mod Guards
pub mod Grant
pub mod Cond
mod Tests
