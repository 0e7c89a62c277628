-- ===== src/Lib.antt =====
-- Verification of the ukernel_mp microkernel: the parts of the kernel that its other parts stand
-- on, translated from the C sources into functions, with what makes them correct.
--
-- The parts and how they work together. lib/glist.c has the intrusive lists that every queue of
-- the kernel is: the ready list of kernel/scheduler.c, the queue of sleepers of kernel/sleep.c
-- and the queues of kernel/semaphore.c, kernel/mutex.c and kernel/cond.c. Each list is guarded by
-- a lock of kernel/rwlock.c, the scheduler and the memory by locks of kernel/klock.c. The order
-- of a queue is that of the callback it was given: ReadyListSort for tasks that wait to run,
-- SleepStort for tasks that wait for a time. A semaphore, a mutex or a condition variable stops
-- the running task through the scheduler and makes it ready again; a condition variable gives the
-- mutex up while its task waits. lib/vector.c is the table of handles of the processes,
-- lib/allocator.c hands out small objects, memory/buddy_2.c hands out the pages, memory/kheap.c
-- memory of any size from them, memory/mpool.c blocks or objects of a range of addresses, and
-- memory/memmgr.c finds the zone of memory that an address belongs to. Processes talk over the
-- channels of kernel/ipc_2.c: a sender waits in the queues of a channel until a receiver has
-- taken its message and responded, the message is copied between the two address spaces through
-- the page tables, and the scheduler stops and wakes the two.
--
-- Base has the shared names: tests on numbers, updates of maps, lists of addresses.
--
-- Glist (lib/glist.c, kernel/rwlock.c) runs over the state `Mem`: the words next, prev and owner
-- of the nodes as maps from addresses, the lists, the objects that hold the nodes, and the number
-- and interrupt mask of the one CPU that runs. A run ends in `ok`, in `fault` at an access
-- through NULL, or in `hang` in a loop that this CPU alone never leaves. GlistInsertObject is
-- `glist_insert_object`, and so for the other functions; the handlers behind the dispatch tables
-- are chosen by `insert_handler` and `remove_handler`. The loop of GlistInsert has count + 1
-- rounds of fuel, one more than the list has nodes, which is enough wherever the count is right.
--
-- Klock (kernel/klock.c) has the CPUs as program counters that make one shared access at a time:
-- `klock_step`, and `Reach` for the interleavings. `_cpu_hold` and `_cpus_signal` of
-- arch/arm/arch.c are `wfe` and `sev` over one event register for each CPU; that an interrupt
-- also ends `wfe` is left out.
--
-- Sched (kernel/scheduler.c) runs over the same state with `Kernel` for the objects: the tasks by
-- the address of their `node`, the table of CPUs, the lowest priority, and the scheduler
-- interrupts raised. Schedule is `schedule`; a function that switches stacks
-- (SchedStopRunningTask, SchedYield) is modelled up to the switch, and what its task does
-- afterwards is a function of its own (`stopped_resumes`). The loops over CPUs have as many
-- rounds as there are CPUs.
--
-- Sleep (kernel/sleep.c) and Sem (kernel/semaphore.c, with the spin lock of arch/arm/spinlock.S)
-- run over the same state. The distance between a task and its `timeout.node` and the call of a
-- handler through its address are parameters.
--
-- Mutex (kernel/mutex.c and kernel/cond.c) runs over the same state. `Layout` has where the
-- compiler puts the members of mutexes, condition variables, tasks and processes. MutexLock is
-- `mutex_lock`, CondWait `cond_wait`, and so for the others. Where a task is stopped, the
-- functions end with the switch of stacks, and what the task does when it runs again is a
-- function of its own: `lock_resumes`, and `cond_blocks`, `cond_resumes` and `cond_locked`.
-- MutexListSort looks at the queues of the mutexes, which a callback of a list cannot do here; it
-- stands for itself, and the theorems hold for every sort function that writes nothing.
--
-- Ipc (kernel/ipc_2.c) runs over the same state: channels, connections, links and notifications
-- by their addresses, and the memory as bytes by physical address. `Layout` has where the
-- compiler puts the lists of a channel. MsgSend is `msg_send`, and so for the others; a function
-- ends with the switch of stacks where its task is stopped, and `send_resumes` and
-- `receive_resumes` are what the task does when it runs again. What MsgRespond, MsgWrite and
-- MsgRead check first is `with_client`. The loops of MsgMapReceiverCopy and MsgMapSenderCopy are
-- one loop, `map_loop`, whose fuel is enough with one round more than there are bytes; that of
-- MsgsFlush with one more than there are tasks. What kmalloc returns is an argument, as are the
-- translations of addresses of the processes; what is done with the shared memory of a connection
-- and with a server too; kfree is left out.
--
-- Mmu (arch/arm/mmu.c) has MemoryVirtual2physical over a memory of words, in which the page
-- tables stand; MemoryP2L is a parameter.
--
-- Pool (lib/allocator.c) has a chain of allocators as a list over a memory of words; its locks
-- are left out, and AllocatorDestroy gives back to the kernel heap. Vector (lib/vector.c) runs
-- over a memory of words; the address that kmalloc returns is an argument. Buddy
-- (memory/buddy_2.c) runs over the free lists, without the lock that each function holds from
-- start to end; `deep` and `endless` are recursions and loops that have not ended within their
-- fuel. Eleven levels of recursion are enough for the orders 0 to 10 of BlockInsertMerge, and
-- fuel for the loops over a free list as many rounds as it has blocks. `IsFree` is the state that
-- the functions keep: the blocks of each order as a list, linked both ways, with each byte in at
-- most one of them.
--
-- Kheap (memory/kheap.c) has the chain of free blocks as a list of addresses and sizes; kmalloc
-- is `kmalloc`, and MemoryGet, from which it takes memory, is a parameter. A header that reaches
-- over the end of its block is not seen in this state.
--
-- Zone (memory/zone.c, memory/zonedirect.c, memory/virtual/zoneindirect.c and memory/memmgr.c)
-- has the zones of the memory as a list; a direct zone has a buddy, the memory pool of an
-- indirect one is a parameter, which `mpool_ops` fills with the pools of Mpool. MemoryGet is
-- `memory_get`, MemoryL2P `memory_l2p`.
--
-- Mpool (memory/mpool.c) has the free blocks of a pool as a list from its head on: the last one
-- is linked to the first in a pool of blocks of any size, and to none in a pool of objects of one
-- size. pmmInsert is `pmm_insert`, MemoryBlockAlloc `memory_block_alloc`, mPoolMemoryAlloc
-- `mpool_memory_alloc`. What kmalloc returns for a pool is an argument; the descriptors that a
-- pool of unmapped memory takes from it are left out. The lists are values, while in a pool of
-- mapped memory the links stand in the free blocks themselves: memory that is freed twice, whose
-- link the code sets to itself, would stand in the list twice, and is not described.
--
-- Device (memory/devices.c) has the registered devices as a list of addresses.
--
-- Numbers of a fixed width wrap around as the code's do: the count of a list, of a lock and of a
-- semaphore and the times of sleepers at 2 ^ 32, the free counts of vectors and of allocators at
-- 2 ^ 16, the time that a task has run at 2 ^ 64.
--
-- Not modelled: memory/buddy.c and kernel/ipc.c, which the makefiles do not build; the start of
-- the machine (init/main.c, SchedulerInit, SchedulerStart); the rest of the port to the hardware
-- (arch/arm); and virtual memory, processes and their loading. Of kernel/ipc_2.c the resolution
-- of the priority of a channel is left out. Of kernel/scheduler.c SchedKillProcessTasks and the
-- resolution of priorities over mutexes and channels are left out, of kernel/sleep.c SleepInit
-- and SleepMatch, of memory/memmgr.c MemoryManagerInit. The locks of the lists are taken by one
-- CPU alone; what several CPUs do to one such lock at a time is not described.
pub mod Base
pub mod Glist
pub mod Klock
pub mod Sched
pub mod Sleep
pub mod Vector
pub mod Pool
pub mod Sem
pub mod Mutex
pub mod Ipc
pub mod Mmu
pub mod Buddy
pub mod Kheap
pub mod Zone
pub mod Mpool
pub mod Device
