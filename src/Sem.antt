-- ===== src/Sem.antt =====
-- kernel/semaphore.c: `Ops` has the functions, `Trip` what a wait and a post do that block no task.
pub mod Ops
pub mod Trip
mod Tests
