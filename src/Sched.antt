-- ===== src/Sched.antt =====
-- kernel/scheduler.c: the ready list, the table of CPUs, and the choice of what runs next.
-- `State` has the data, `Ops` the functions, `Order` the order of the ready list, `Lowest` the CPU
-- with the lowest priority, and `Add` what it takes to make a task ready.
pub mod State
pub mod Ops
pub mod Order
pub mod Hold
pub mod Add
pub mod Lowest
pub mod Switch
pub mod Ticks
pub mod Next
pub mod Tests
