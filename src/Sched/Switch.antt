-- ===== src/Sched/Switch.antt =====
-- The functions of kernel/scheduler.c that change what a CPU runs. `_TaskSave` and
-- `_SchedResumeTask` of arch/arm/arch.S switch the stack: a function that calls them is modelled up
-- to the switch, and what its task does when it runs again is a function of its own.
use ukernel_mp.Base.{
  ℕ, zero, suc, Bool, true, false, ◌+◌, ◌-◌, ◌%◌, ◌^◌, ◌==◌, ◌||◌, ◌&&◌, not, ltb, leb,
  if◌then◌else◌, update,
}
use ukernel_mp.Glist.Heap.{Ptr, null, Cmd, fault, pure, ◌>>=◌, ◌>>◌}
use ukernel_mp.Glist.Lock.{cpu_id, critical_lock, critical_unlock}
use ukernel_mp.Glist.Api.{glist_remove_specific}
use ukernel_mp.Sched.State.{TaskState, dead, running, ready, SubState, Kernel}
use ukernel_mp.Sched.Ops.{
  get, modify, set_task, set_cpu, sched_lock, sched_release, sched_unlock, sched_ensure_lock,
  sched_trigger, sched_sort_low_priority, sched_pending_prio, sched_get_next2run, sched_hold_task,
  sched_add_task,
}

abbrev pub is_dead : TaskState → Bool
is_dead dead = true
is_dead _ = false

abbrev pub is_ready : TaskState → Bool
is_ready ready = true
is_ready _ = false

abbrev pub is_running : TaskState → Bool
is_running running = true
is_running _ = false

-- An access through a field of the kernel's that is NULL.
abbrev pub checked : Ptr → Cmd Kernel (Unit {0})
checked p = if p == null then (λ _. fault) else pure tt

-- `if(process) atomic_inc(&process->tasksRunning)`, and `atomic_dec`
abbrev pub count_in : ℕ → Kernel → Kernel
count_in p k =
    if p == null
    then k
    else record k { tasks_running = update k.tasks_running p ((k.tasks_running p + 1) % 2 ^ 32) }

abbrev pub count_out : ℕ → Kernel → Kernel
count_out p k = if p == null then k else record k {
  tasks_running = update k.tasks_running p ((k.tasks_running p + 2 ^ 32 - 1) % 2 ^ 32);
}

abbrev pub set_tls : ℕ → ℕ → Kernel → Kernel
set_tls self t k = record k { tls = update k.tls self t }

-- `_VirtualSpaceSet` for a process
abbrev pub set_space : ℕ → ℕ → Kernel → Kernel
set_space self p k = if p == null then k else record k { space = update k.space self p }

-- `on_time += sched.tslice - cpu->tslice; cpu->tslice = sched.tslice;`
abbrev pub end_slice : ℕ → Kernel → Kernel
end_slice self k =
    set_cpu self (λ c. record c { tslice = k.tslice })
      (set_task (k.cpu self).task
        (λ t. record t {
          on_time = (t.on_time + (k.tslice + 2 ^ 32 - (k.cpu self).tslice) % 2 ^ 32) % 2 ^ 64;
        })
        k)

-- `CPUS[cpu]` takes over the task `t`.
abbrev pub dispatch : ℕ → ℕ → Kernel → Kernel
dispatch self t k =
    set_cpu self
      (λ c. record c { task = t; prio = (k.task t).active_prio; process = (k.task t).parent })
      (set_task t (λ r. record r { state = running }) k)

unfoldable pub sched_irq_attend : Cmd Kernel Ptr
sched_irq_attend = do
  self ← cpu_id
  modify (set_cpu self (λ c. record c { irqlevel = (c.irqlevel + 1) % 2 ^ 32 }))
  k ← get
  if ltb 1 (k.cpu self).irqlevel
      then pure null
      else (do checked (k.cpu self).task; pure (k.cpu self).task)

unfoldable pub sched_irq_exit : Cmd Kernel Ptr
sched_irq_exit = do
  self ← cpu_id
  modify (set_cpu self (λ c. record c { irqlevel = (c.irqlevel + 2 ^ 32 - 1) % 2 ^ 32 }))
  k ← get
  if (k.cpu self).irqlevel == 0
      then (do checked (k.cpu self).task; pure (k.cpu self).task)
      else pure null

unfoldable pub sched_get_running_task : Cmd Kernel Ptr
sched_get_running_task = do
  state ← critical_lock
  self ← cpu_id
  k ← get
  critical_unlock state
  pure (k.cpu self).task

unfoldable pub sched_get_running_process : Cmd Kernel ℕ
sched_get_running_process = do
  state ← critical_lock
  self ← cpu_id
  k ← get
  critical_unlock state
  pure (k.cpu self).process

module _ (tasks : Ptr) where
  -- `cpu->task = SchedGetNext2Run()` and what the CPU then records of the task.
  unfoldable pub take_next : ℕ → Cmd Kernel Ptr
  take_next self = do t ← sched_get_next2run tasks; checked t; modify (dispatch self t); pure t

  -- The end of `Schedule`.
  unfoldable pub switch_next : ℕ → Bool → Cmd Kernel (Unit {0})
  unfolding take_next
  switch_next self state = do
    t ← take_next self
    modify (set_tls self t)
    k ← get
    modify (count_in (k.cpu self).process)
    modify (sched_sort_low_priority self)
    sched_unlock state

  unfoldable pub schedule : Cmd Kernel (Unit {0})
  unfolding switch_next
  schedule = do
    state ← sched_lock
    self ← cpu_id
    k ← get
    let c = k.cpu self
    checked c.task
    if is_dead (k.task c.task).state
        then (do
          checked c.process
          modify (count_out c.process)
          modify (set_cpu self (λ c. record c { process = null }))
          switch_next self state)
        else (do
          modify (end_slice self)
          pending ← sched_pending_prio tasks
          if ltb pending c.prio then sched_unlock state else (do
            modify (count_out c.process)
            sched_hold_task tasks c.task
            switch_next self state))

  -- The result is the task to resume.
  unfoldable pub sched_terminate_running_task : Bool → Cmd Kernel Ptr
  unfolding take_next
  sched_terminate_running_task proc_death = do
    sched_ensure_lock >>= λ _. pure tt
    self ← cpu_id
    k ← get
    let process = (k.cpu self).process
    modify (λ k. if proc_death then k else count_out process k)
    t ← take_next self
    modify (sched_sort_low_priority self)
    sched_release >>= λ _. pure tt
    modify (set_tls self t)
    k' ← get
    let p = (k'.cpu self).process
    modify (λ k. if not (p == process) || (process == null) then set_space self p k else k)
    modify (count_in p)
    pure t

  -- Up to the switch; the result is the saved status of the interrupts, for `stopped_resumes`.
  unfoldable pub sched_stop_running_task : TaskState → SubState → Cmd Kernel Bool
  unfolding take_next
  sched_stop_running_task state substate = do
    status ← sched_ensure_lock
    self ← cpu_id
    k ← get
    let task = (k.cpu self).task
    let prev_process = (k.cpu self).process
    checked task
    modify (
        set_task task (λ r. record r {
          state = if is_dead r.state then r.state else state;
          sub_state = substate;
          ret = 0;
        }))
    modify (end_slice self)
    t ← take_next self
    modify (sched_sort_low_priority self)
    k' ← get
    (if is_ready (k'.task task).state then sched_hold_task tasks task else pure tt)
    modify (set_tls self t)
    modify (count_in (k'.cpu self).process)
    modify (count_out prev_process)
    modify (set_space self (k'.cpu self).process)
    sched_release >>= λ _. pure status

  unfoldable pub stopped_resumes : Bool → ℕ → Cmd Kernel ℕ
  stopped_resumes status task = do critical_unlock status; k ← get; pure (k.task task).ret

  -- Up to the switch, where there is one: then the result is `status` of `SchedYield`.
  unfoldable pub sched_yield : Cmd Kernel Bool
  sched_yield = do
    self ← cpu_id
    k ← get
    state ← sched_lock
    pending ← sched_pending_prio tasks
    if leb (k.cpu self).prio pending
        then (sched_stop_running_task ready SubState.none >>= λ _. pure state)
        else (do sched_unlock state; pure state)

  unfoldable pub sched_priority_resolve : ℕ → ℕ → Cmd Kernel (Unit {0})
  sched_priority_resolve t prio = do
    self ← cpu_id
    k ← get
    if is_running (k.task t).state
        then modify (λ k.
          if (k.lcpu == self) && leb k.lprio prio then sched_sort_low_priority self k else k)
        else (do glist_remove_specific t >>= λ _. pure tt; sched_add_task tasks t)

-- The body of the loop of `SystemTick`.
unfoldable pub tick_one : ℕ → Kernel → Kernel
tick_one c k =
    let slice = ((k.cpu c).tslice + 2 ^ 32 - 1) % 2 ^ 32 in
    let g = set_cpu c (λ r. record r { tslice = slice }) k in
    if slice == 0 then sched_trigger c g else g

-- The loop, with `left` CPUs to go from `c` on.
unfoldable pub tick_loop : (left c : ℕ) → Kernel → Kernel
unfolding tick_one
tick_loop zero c k = k
tick_loop (suc left) c k = tick_loop left (c + 1) (tick_one c k)

-- After `SystemTimerHandler` and `SleepUpdate`.
unfoldable pub tick_slices : Cmd Kernel (Unit {0})
unfolding tick_loop
tick_slices = do state ← sched_lock; modify (λ k. tick_loop k.cpus 0 k); sched_unlock state
