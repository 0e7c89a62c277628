-- ===== src/Mutex/Ops.antt =====
-- The functions of kernel/mutex.c that may wait, that pass the mutex on, or that end it.
use ukernel_mp.Base.{ℕ, Bool, ◌==◌, ◌||◌, ◌&&◌, not, ltb, if◌then◌else◌}
use ukernel_mp.Glist.Heap.{Ptr, null, Cmd, pure, ◌>>=◌, ◌>>◌, get_owner, get_list}
use ukernel_mp.Glist.Lock.{critical_unlock}
use ukernel_mp.Glist.Link.{e_ok, e_inval, e_error, e_busy}
use ukernel_mp.Glist.Api.{glist_insert_object, glist_remove_specific, glist_remove_first}
use ukernel_mp.Sched.State.{blocked, SubState, Kernel}
use ukernel_mp.Sched.Ops.{get, modify, set_task, sched_lock, sched_add_task}
use ukernel_mp.Sched.Switch.{
  checked, is_running, sched_get_running_task, sched_stop_running_task, stopped_resumes,
  sched_yield,
}
use ukernel_mp.Sleep.Ops.{timer_set, timer_stop}
use ukernel_mp.Sem.Ops.{Wait, returned, stopped, e_timed_out}
use ukernel_mp.Mutex.Handle.{
  Layout, set_mutex, set_active_prio, owner_of, mutex_spinlock_irq, mutex_spinunlock,
  mutex_spinunlock_irq, get_mutex_ptr, add_owned,
}

module _ (at : Layout) (sleepers tasks : Ptr)
    (call_handler : ℕ → ℕ → ℕ → Cmd Kernel (Unit {0})) where
  -- The head of the queue gives its priority to the owner again.
  unfoldable pub raise_owner : Ptr → Cmd Kernel (Unit {0})
  raise_owner mutex = do
    g ← get_list (at.lock_queue mutex)
    modify (λ k.
        let prio = (k.task g.first).active_prio in
        if not (g.first == null) && ltb (k.task (owner_of k mutex)).real_prio prio
        then set_active_prio (owner_of k mutex) prio k
        else k)

  unfoldable pub mutex_resume_timeout : (mutex task : Ptr) → Cmd Kernel (Unit {0})
  unfolding raise_owner mutex_spinlock_irq mutex_spinunlock_irq
  mutex_resume_timeout mutex task = do
    state ← mutex_spinlock_irq mutex
    g ← get_list (at.lock_queue mutex)
    k ← get
    let owner = owner_of k mutex
    (if task == g.first then checked owner else pure tt)
    let restore = (task == g.first) && not ((k.task owner).active_prio == (k.task owner).real_prio)
    modify (λ k. if restore then set_active_prio owner (k.task owner).real_prio k else k)
    ret ← glist_remove_specific task
    if not (ret == e_ok) then mutex_spinunlock_irq mutex state else (do
      (if restore then raise_owner mutex else pure tt)
      modify (set_task task (λ t. record t { ret = e_timed_out }))
      mutex_spinunlock_irq mutex state
      sched_add_task tasks task)

  -- The owner inherits the priority of a task that waits, and its place in the list that it is in.
  unfoldable pub inherit : (owner task : Ptr) → Cmd Kernel (Unit {0})
  inherit owner task = do
    checked owner
    k ← get
    let prio = (k.task task).active_prio
    if ltb (k.task owner).active_prio prio
        then (do
          modify (set_active_prio owner prio)
          if is_running (k.task owner).state then pure tt else (do
            l ← get_owner owner
            glist_remove_specific owner >>= λ _. pure tt
            glist_insert_object l owner >>= λ _. pure tt))
        else pure tt

  -- `handler` is the address of `MutexResumeTimeout`. Up to the switch to another task.
  unfoldable pub mutex_block : (handler mutex task : ℕ) → Bool → Cmd Kernel Wait
  unfolding inherit
  mutex_block handler mutex task state = do
    glist_insert_object (at.lock_queue mutex) task >>= λ _. pure tt
    k ← get
    inherit (owner_of k mutex) task
    (if (k.timeout (at.node_of task)).set
        then timer_set sleepers tasks at.node_of at.task_of call_handler task handler mutex
        else pure tt)
    sched_lock >>= λ _. pure tt
    mutex_spinunlock mutex
    inner ← sched_stop_running_task tasks blocked SubState.mutex
    pure (stopped task state inner)

  -- What the task does when it runs again.
  unfoldable pub lock_resumes : (task : ℕ) → (status inner : Bool) → Cmd Kernel ℕ
  lock_resumes task status inner = do
    ret ← stopped_resumes tasks inner task
    critical_unlock status
    pure ret

  unfoldable pub mutex_lock : (handler fresh mutex : ℕ) → Cmd Kernel Wait
  unfolding get_mutex_ptr mutex_block mutex_spinlock_irq mutex_spinunlock_irq
  mutex_lock handler fresh mutex = do
    mx ← get_mutex_ptr at fresh mutex
    if mx == null then pure (returned e_inval) else (do
      task ← sched_get_running_task
      k ← get
      if task == owner_of k mx then pure (returned e_inval) else (do
        state ← mutex_spinlock_irq mx
        k' ← get
        if (k'.mutex mx).lock == 1 then mutex_block handler mx task state else (do
          modify (set_mutex mx (λ r. record r { lock = 1; owner = task }))
          add_owned at task mx
          mutex_spinunlock_irq mx state
          pure (returned e_ok))))

  -- What `MutexUnlock` does with the first task that waits, or with NULL.
  unfoldable pub grant_first : (mutex next : Ptr) → Cmd Kernel Ptr
  grant_first mutex next =
      if next == null
      then (do modify (set_mutex mutex (λ r. record r { lock = 0; owner = null })); pure next)
      else (do
        modify (set_mutex mutex (λ r. record r { owner = next }))
        k ← get
        (if (k.timeout (at.node_of next)).set
            then timer_stop sleepers tasks at.node_of at.task_of call_handler next
            else pure tt)
        add_owned at next mutex
        pure next)

  unfoldable pub grant : Ptr → Cmd Kernel Ptr
  unfolding grant_first
  grant mutex = do
    glist_remove_specific (at.tnode mutex) >>= λ _. pure tt
    next ← glist_remove_first (at.lock_queue mutex)
    grant_first mutex next

  -- Up to the switch of `SchedYield`, where there is one.
  unfoldable pub mutex_unlock : (fresh mutex : Ptr) → Cmd Kernel ℕ
  unfolding get_mutex_ptr grant mutex_spinlock_irq mutex_spinunlock_irq
  mutex_unlock fresh mutex = do
    mx ← get_mutex_ptr at fresh mutex
    if mx == null then pure e_inval else (do
      task ← sched_get_running_task
      k ← get
      if not ((k.mutex mx).lock == 1) || not (owner_of k mx == task) then pure e_error else (do
        state ← mutex_spinlock_irq mx
        next ← grant mx
        mutex_spinunlock_irq mx state
        (if next == null then pure tt else sched_add_task tasks next)
        modify (λ k.
            if ltb (k.task task).real_prio (k.task task).active_prio
            then set_active_prio task (k.task task).real_prio k
            else k)
        sched_yield tasks >>= λ _. pure e_ok))

  -- `kfree` follows. The spin lock is not given back, nor the mask restored.
  unfoldable pub mutex_destroy : (fresh mutex : Ptr) → Cmd Kernel ℕ
  unfolding get_mutex_ptr mutex_spinlock_irq mutex_spinunlock_irq
  mutex_destroy fresh mutex = do
    mx ← get_mutex_ptr at fresh mutex
    if mx == null then pure e_inval else (do
      state ← mutex_spinlock_irq mx
      k ← get
      if (k.mutex mx).lock == 1 then (do mutex_spinunlock_irq mx state; pure e_busy) else (do
        modify (set_mutex mutex (λ r. record r { magic = 0 }))
        glist_remove_specific (at.pnode mx) >>= λ _. pure tt
        glist_remove_specific (at.tnode mx) >>= λ _. pure e_ok))

  -- `block_on` of the task is `mutex`.
  unfoldable pub mutex_priority_adjust : (mutex task prio : ℕ) → Cmd Kernel (Unit {0})
  unfolding mutex_spinlock_irq mutex_spinunlock_irq
  mutex_priority_adjust mutex task prio = do
    state ← mutex_spinlock_irq mutex
    glist_remove_specific task >>= λ _. pure tt
    modify (set_active_prio task prio)
    glist_insert_object (at.lock_queue mutex) task >>= λ _. pure tt
    glist_remove_specific (at.tnode mutex) >>= λ _. pure tt
    k ← get
    checked (owner_of k mutex)
    glist_insert_object (at.owned_mutexs (owner_of k mutex)) (at.tnode mutex) >>= λ _. pure tt
    mutex_spinunlock_irq mutex state

  -- Where the task has become the owner, the spin lock is not given back.
  unfoldable pub mutex_priority_resolve : (mutex task : ℕ) → Cmd Kernel (Unit {0})
  unfolding mutex_spinlock_irq mutex_spinunlock_irq
  mutex_priority_resolve mutex task = do
    status ← mutex_spinlock_irq mutex
    ret ← glist_remove_specific task
    k ← get
    if not (ret == e_ok) && (owner_of k mutex == task) then pure tt else (do
      glist_insert_object (at.lock_queue mutex) task >>= λ _. pure tt
      mutex_spinunlock_irq mutex status)
