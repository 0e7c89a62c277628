-- ===== src/Sleep/Ops.antt =====
-- The functions of kernel/sleep.c; the queue is the list at the address `sleepers`. A task and its
-- `timeout.node` are at a fixed distance that the compiler sets: `node_of` and `task_of` go from one
-- to the other. `call_handler` is the call of a handler through its address.
use ukernel_mp.Base.{
  ℕ, zero, suc, Bool, true, false, ◌+◌, ◌-◌, ◌%◌, ◌^◌, ◌==◌, leb, if◌then◌else◌, ℤ, pos, update,
}
use ukernel_mp.Glist.Heap.{Ptr, null, Cmd, hang, pure, ◌>>=◌, ◌>>◌, get_next, get_list}
use ukernel_mp.Glist.Api.{glist_insert_object, glist_remove_specific}
use ukernel_mp.Sched.State.{blocked, SubState, Timeout, Kernel}
use ukernel_mp.Sched.Ops.{get, modify, sched_add_task}
use ukernel_mp.Sched.Switch.{checked, sched_get_running_task, sched_stop_running_task}

abbrev pub set_timeout : Ptr → (Timeout → Timeout) → Kernel → Kernel
set_timeout n f k = record k { timeout = update k.timeout n (f (k.timeout n)) }

abbrev pub pend : Kernel → Ptr → ℕ
pend k n = (k.timeout n).pend_time

-- `pendTime -= d`
abbrev pub sooner : Ptr → ℕ → Kernel → Kernel
sooner n d = set_timeout n (λ t. record t { pend_time = (t.pend_time + 2 ^ 32 - d) % 2 ^ 32 })

-- `pendTime += d`
abbrev pub later : Ptr → ℕ → Kernel → Kernel
later n d = set_timeout n (λ t. record t { pend_time = (t.pend_time + d) % 2 ^ 32 })

unfoldable pub sleep_sort : Ptr → Ptr → Kernel → ℤ × Kernel
sleep_sort current task k =
    if leb (pend k current) (pend k task)
    then (pos 1, sooner task (pend k current) k)
    else (pos 0, sooner current (pend k task) k)

abbrev pub is_sleeping : SubState → Bool
is_sleeping SubState.sleeping = true
is_sleeping _ = false

module _ (sleepers tasks : Ptr) (node_of task_of : ℕ → ℕ)
    (call_handler : ℕ → ℕ → ℕ → Cmd Kernel (Unit {0})) where
  -- With the running task set; `time` is its new `pendTime`. Up to the switch to another task.
  unfoldable pub sleep_insert : ℕ → Cmd Kernel Bool
  sleep_insert time = do
    task ← sched_get_running_task
    checked task
    modify (set_timeout (node_of task) (λ t. record t { pend_time = time }))
    glist_insert_object sleepers (node_of task) >>= λ _. pure tt
    sched_stop_running_task tasks blocked SubState.sleeping

  unfoldable pub timeout_set : ℕ → Bool → Cmd Kernel (Unit {0})
  timeout_set time auto_reload = do
    task ← sched_get_running_task
    checked task
    modify (
        set_timeout (node_of task)
          (λ t. record t { wait_time = time; set = true; auto_reload = auto_reload }))

  unfoldable pub timeout_unset : Cmd Kernel (Unit {0})
  timeout_unset = do
    task ← sched_get_running_task
    checked task
    modify (
        set_timeout (node_of task)
          (λ t. record t { wait_time = 0; set = false; auto_reload = false }))

  unfoldable pub timer_set : (task handler arg : ℕ) → Cmd Kernel (Unit {0})
  timer_set task handler arg = do
    modify (
        set_timeout (node_of task)
          (λ t. record t { handler = handler; arg = arg; pend_time = t.wait_time }))
    glist_insert_object sleepers (node_of task) >>= λ _. pure tt

  unfoldable pub sleep_remove : ℕ → Cmd Kernel (Unit {0})
  sleep_remove task = do
    after ← get_next (node_of task)
    glist_remove_specific (node_of task) >>= λ _. pure tt
    if after == null then pure tt else modify (λ k. later after (pend k (node_of task)) k)

  unfoldable pub timer_stop : ℕ → Cmd Kernel (Unit {0})
  unfolding sleep_remove
  timer_stop task = do
    sleep_remove task
    modify (
        set_timeout (node_of task)
          (λ t. if t.auto_reload then t else record t { wait_time = 0; set = false }))

  -- What `SleepUpdate` does with a task whose time has come.
  unfoldable pub wake : Ptr → Cmd Kernel (Unit {0})
  wake node = do
    glist_remove_specific node >>= λ _. pure tt
    k ← get
    if is_sleeping (k.task (task_of node)).sub_state
        then sched_add_task tasks (task_of node)
        else (do
          call_handler (k.timeout node).handler (k.timeout node).arg (task_of node)
          modify (set_timeout node (λ t. if t.auto_reload then t else record t { set = false })))

  -- The loop; with no fuel left it is a `hang`.
  unfoldable pub wake_loop : ℕ → Cmd Kernel (Unit {0})
  unfolding wake
  wake_loop zero = λ _. hang
  wake_loop (suc fuel) =
      let rest = wake_loop fuel in
      do
        g ← get_list sleepers
        k ← get
        if g.first == null
            then pure tt
            else (if pend k g.first == 0 then (do wake g.first; rest) else pure tt)

  unfoldable pub sleep_update : ℕ → Cmd Kernel (Unit {0})
  unfolding wake_loop
  sleep_update fuel = do
    g ← get_list sleepers
    if g.first == null then pure tt else (do modify (sooner g.first 1); wake_loop fuel)
