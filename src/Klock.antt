-- ===== src/Klock.antt =====
-- kernel/klock.c: the recursive lock of the kernel, as the CPUs run it together. `Steps` has the
-- functions of klock.c a shared access at a time, `System` the interleavings, `Safety` the invariant
-- and mutual exclusion, and `Wakeup` the CPUs that sleep for the lock.
pub mod Steps
pub mod System
pub mod Safety
pub mod Wakeup
mod Tests
