-- ===== src/Sched/State.antt =====
-- kernel/include/proctypes.h and the data of kernel/scheduler.c. A task is named by the address of
-- its `node`, so `GLISTNODE2TYPE` is the identity; a process by its address, a CPU by its number.
use ukernel_mp.Base.{ℕ, Bool, List}
use ukernel_mp.Klock.Steps.{Klock}
use ukernel_mp.Ipc.State.{Ipc}

pub data TaskState : Type 0 where
  dead running ready blocked : TaskState

-- `subState_t`
pub data SubState : Type 0 where
  none ipc_send ipc_reply ipc_receive semaphore mutex kernel_mutex cond : SubState
  sleeping joined interrupt_pending signal_pending : SubState

pub record Task : Type 0 where
  pub parent : ℕ
  pub tid : ℕ
  pub state : TaskState
  pub sub_state : SubState
  pub real_prio : ℕ
  pub active_prio : ℕ
  pub on_time : ℕ
  pub ret : ℕ

-- `timeout` of a task. `handler` is the address of a function.
pub record Timeout : Type 0 where
  pub set : Bool
  pub auto_reload : Bool
  pub wait_time : ℕ
  pub pend_time : ℕ
  pub handler : ℕ
  pub arg : ℕ

-- `sem_t` without its queue; `counter` is the pattern of an `int32_t`, `locked` its spin lock.
pub record Sem : Type 0 where
  pub magic : ℕ
  pub counter : ℕ
  pub locked : Bool

-- `mutex_t` without its queue and nodes; `lock` is 0 or 1, `locked` its spin lock.
pub record Mutex : Type 0 where
  pub magic : ℕ
  pub lock : ℕ
  pub locked : Bool
  pub owner : ℕ

-- `cond_t` without its queue and node.
pub record Cond : Type 0 where
  pub magic : ℕ
  pub mutex : ℕ

-- `cpu_t`
pub record Cpu : Type 0 where
  pub prio : ℕ
  pub irqlevel : ℕ
  pub tslice : ℕ
  pub task : ℕ
  pub process : ℕ

-- `sched_t` without its list, the table `CPUS`, the tasks, their
-- timeouts by the address of `timeout.node`, the semaphores, mutexes, condition variables and what
-- messages are passed with, the counts of running tasks of the
-- processes, and of each CPU the task whose TLS it has and the process whose page table; then the
-- scheduler interrupts raised so far, the last one first.
pub record Kernel : Type 0 where
  pub lock : Klock
  pub cpus : ℕ
  pub lprio : ℕ
  pub tslice : ℕ
  pub lcpu : ℕ
  pub cpu : ℕ → Cpu
  pub task : ℕ → Task
  pub timeout : ℕ → Timeout
  pub sem : ℕ → Sem
  pub mutex : ℕ → Mutex
  pub cond : ℕ → Cond
  pub ipc : Ipc
  pub tasks_running : ℕ → ℕ
  pub tls : ℕ → ℕ
  pub space : ℕ → ℕ
  pub raised : List ℕ
