-- ===== src/Sem/Ops.antt =====
-- The functions of kernel/semaphore.c, with the spin lock of arch/arm/spinlock.S. A semaphore is
-- named by its address; `queue_of` goes from it to the address of its `lockQueue`, `node_of` and
-- `task_of` between a task and its `timeout.node`, as the compiler sets them.
use ukernel_mp.Base.{
  ℕ, zero, suc, Bool, true, false, ◌+◌, ◌-◌, ◌%◌, ◌^◌, ◌==◌, ◌||◌, leb, not, some, if◌then◌else◌,
  update,
}
use ukernel_mp.Glist.Heap.{Ptr, null, g_list, Cmd, hang, pure, ◌>>=◌, ◌>>◌}
use ukernel_mp.Glist.Lock.{critical_lock, critical_unlock}
use ukernel_mp.Glist.Link.{e_ok, e_inval, e_error}
use ukernel_mp.Glist.Api.{
  glist_initialize, glist_set_sort, glist_insert_object, glist_remove_specific, glist_remove_first,
}
use ukernel_mp.Sched.State.{blocked, SubState, Sem, Kernel}
use ukernel_mp.Sched.Ops.{get, modify, set_task, ready_list_sort, sched_lock, sched_add_task}
use ukernel_mp.Sched.Switch.{
  checked, sched_get_running_task, sched_stop_running_task, stopped_resumes,
}
use ukernel_mp.Sleep.Ops.{timer_set, timer_stop}

abbrev pub sem_magic : ℕ
sem_magic = 0xaaaadead

abbrev pub e_timed_out : ℕ
e_timed_out = 9

abbrev pub set_sem : Ptr → (Sem → Sem) → Kernel → Kernel
set_sem s f k = record k { sem = update k.sem s (f (k.sem s)) }

abbrev pub count_up : Sem → Sem
count_up r = record r { counter = (r.counter + 1) % 2 ^ 32 }

abbrev pub count_down : Sem → Sem
count_down r = record r { counter = (r.counter + 2 ^ 32 - 1) % 2 ^ 32 }

-- `counter < 0`
abbrev pub is_negative : ℕ → Bool
is_negative c = leb (2 ^ 31) c

-- A lock that is taken is waited for; on one CPU that is for ever.
unfoldable pub spinlock : Ptr → Cmd Kernel (Unit {0})
spinlock s = do
  k ← get
  if (k.sem s).locked then (λ _. hang) else modify (set_sem s (λ r. record r { locked = true }))

unfoldable pub spinunlock : Ptr → Cmd Kernel (Unit {0})
spinunlock s = modify (set_sem s (λ r. record r { locked = false }))

unfoldable pub spinlock_irq : Ptr → Cmd Kernel Bool
unfolding spinlock
spinlock_irq s = do spinlock s; critical_lock

unfoldable pub spinunlock_irq : Ptr → Bool → Cmd Kernel (Unit {0})
unfolding spinunlock
spinunlock_irq s status = do spinunlock s; critical_unlock status

-- The address may be that of a pointer to the semaphore: its first word then is one.
unfoldable pub get_sem_ptr : Ptr → Kernel → Ptr
get_sem_ptr s k =
    let mx = (k.sem s).magic in
    if s == null
    then null
    else (if mx == sem_magic
        then s
        else (if (mx == null) || not ((k.sem mx).magic == sem_magic) then null else mx))

-- How a wait goes on: it returns, or its task has been stopped with the saved status of the
-- interrupts, and `wait_resumes` is what the task does when it runs again.
pub data Wait : Type 0 where
  returned : ℕ → Wait
  stopped : (task : ℕ) → (status inner : Bool) → Wait

module _ (sleepers tasks : Ptr) (node_of task_of queue_of : ℕ → ℕ)
    (call_handler : ℕ → ℕ → ℕ → Cmd Kernel (Unit {0})) where
  unfoldable pub sem_resume_timeout : (s task : ℕ) → Cmd Kernel (Unit {0})
  sem_resume_timeout s task = do
    state ← spinlock_irq s
    found ← glist_remove_specific task
    if found == e_ok
        then (do
          modify (set_sem s count_up)
          spinunlock_irq s state
          modify (set_task task (λ t. record t { ret = e_timed_out }))
          sched_add_task tasks task)
        else spinunlock_irq s state

  -- `kmalloc` has returned the address `s`.
  unfoldable pub sem_create : Ptr → ℕ → Cmd Kernel Ptr
  sem_create s value = do
    checked s
    modify (set_sem s (λ _. record { magic = sem_magic; counter = value; locked = false }))
    glist_initialize (queue_of s) g_list >>= λ _. pure tt
    glist_set_sort (queue_of s) (some ready_list_sort) >>= λ _. pure s

  -- The address of the new semaphore is stored in the first word of `sem`.
  unfoldable pub sem_init : (fresh sem : Ptr) → ℕ → Cmd Kernel ℕ
  unfolding sem_create
  sem_init fresh sem value = if sem == null then pure e_inval else do
    s ← sem_create fresh value
    modify (set_sem sem (λ r. record r { magic = s }))
    pure (if s == null then e_error else e_ok)

  -- `handler` is the address of `SemResumeTimeout`.
  unfoldable pub sem_block : (handler s : ℕ) → Bool → Cmd Kernel Wait
  sem_block handler s state = do
    task ← sched_get_running_task
    glist_insert_object (queue_of s) task >>= λ _. pure tt
    k ← get
    (if (k.timeout (node_of task)).set
        then timer_set sleepers tasks node_of task_of call_handler task handler s
        else pure tt)
    sched_lock >>= λ _. pure tt
    spinunlock s
    inner ← sched_stop_running_task tasks blocked SubState.semaphore
    pure (stopped task state inner)

  unfoldable pub wait_resumes : (task : ℕ) → (status inner : Bool) → Cmd Kernel ℕ
  wait_resumes task status inner = do
    ret ← stopped_resumes tasks inner task
    critical_unlock status
    k ← get
    (if (k.timeout (node_of task)).set
        then timer_stop sleepers tasks node_of task_of call_handler task
        else pure tt)
    pure ret

  unfoldable pub sem_wait : (handler sem : ℕ) → Cmd Kernel Wait
  unfolding get_sem_ptr sem_block
  sem_wait handler sem = do
    k ← get
    let s = get_sem_ptr sem k
    if s == null then pure (returned e_inval) else (do
      state ← spinlock_irq s
      modify (set_sem s count_down)
      k' ← get
      if is_negative (k'.sem s).counter
          then sem_block handler s state
          else (do spinunlock_irq s state; pure (returned e_ok)))

  -- `SchedAddTask` of the first task that waits.
  unfoldable pub wake_first : Ptr → Cmd Kernel (Unit {0})
  wake_first s = do task ← glist_remove_first (queue_of s); checked task; sched_add_task tasks task

  unfoldable pub sem_post : Ptr → Cmd Kernel ℕ
  unfolding get_sem_ptr wake_first
  sem_post sem = do
    k ← get
    let s = get_sem_ptr sem k
    if s == null then pure e_inval else (do
      state ← spinlock_irq s
      modify (set_sem s count_up)
      k' ← get
      (if is_negative (k'.sem s).counter || ((k'.sem s).counter == 0)
          then wake_first s
          else pure tt)
      spinunlock_irq s state
      pure e_ok)

  -- The loop of `SemDestroy`; with no fuel left it is a `hang`.
  unfoldable pub destroy_loop : ℕ → Ptr → Cmd Kernel (Unit {0})
  unfolding wake_first
  destroy_loop zero s = λ _. hang
  destroy_loop (suc fuel) s =
      let rest = destroy_loop fuel s in
      do
        k ← get
        modify (set_sem s count_up)
        if is_negative (k.sem s).counter then (do wake_first s; rest) else pure tt

  unfoldable pub sem_destroy : (fuel : ℕ) → Ptr → Cmd Kernel ℕ
  unfolding get_sem_ptr destroy_loop
  sem_destroy fuel sem = do
    k ← get
    let s = get_sem_ptr sem k
    if s == null
        then pure e_inval
        else (do modify (set_sem s (λ r. record r { magic = 0 })); destroy_loop fuel s; pure e_ok)
