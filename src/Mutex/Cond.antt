-- ===== src/Mutex/Cond.antt =====
-- The functions of kernel/cond.c. `mutex` of `CondWait` is the address of a word with the address of
-- the mutex. `atomic_cmp_set` succeeds: no other CPU writes in between.
use ukernel_mp.Base.{
  ℕ, zero, suc, Bool, ◌^◌, ◌==◌, ◌||◌, ◌&&◌, not, ltb, leb, some, if◌then◌else◌, update,
}
use ukernel_mp.Glist.Heap.{Ptr, null, g_list, Cmd, pure, ◌>>=◌, ◌>>◌, get_list}
use ukernel_mp.Glist.Lock.{critical_unlock}
use ukernel_mp.Glist.Link.{e_ok, e_inval, e_error, e_busy}
use ukernel_mp.Glist.Api.{
  glist_initialize, glist_set_sort, glist_insert_object, glist_remove_specific, glist_remove_first,
}
use ukernel_mp.Sched.State.{blocked, SubState, Kernel, Cond}
use ukernel_mp.Sched.Ops.{get, modify, set_task, ready_list_sort, sched_lock, sched_add_task}
use ukernel_mp.Sched.Switch.{
  checked, sched_get_running_task, sched_stop_running_task, stopped_resumes, sched_yield,
}
use ukernel_mp.Sleep.Ops.{timer_set, timer_stop}
use ukernel_mp.Sem.Ops.{Wait, returned, stopped, e_timed_out}
use ukernel_mp.Mutex.Handle.{Layout, owner_of}
use ukernel_mp.Mutex.Ops.{mutex_lock, mutex_unlock}

abbrev pub cond_magic : ℕ
cond_magic = 0xaaaadead

abbrev pub cond_initializer : ℕ
cond_initializer = 0x01010101

abbrev pub set_cond : Ptr → (Cond → Cond) → Kernel → Kernel
set_cond s f k = record k { cond = update k.cond s (f (k.cond s)) }

-- How `CondWait` goes on: it returns; or its task has been stopped by the yield of `MutexUnlock`,
-- and `cond_blocks` is what it does next; or it has been stopped to wait, and `cond_resumes` is.
pub data CondWait : Type 0 where
  cond_returned : ℕ → CondWait
  yielded : (task cond : ℕ) → (status : Bool) → CondWait
  waiting : (task cond : ℕ) → (status inner : Bool) → CondWait

module _ (at : Layout) where
  -- `kmalloc` has returned the address `fresh`.
  unfoldable pub cond_create : Ptr → Cmd Kernel Ptr
  cond_create fresh = do
    checked fresh
    modify (set_cond fresh (λ _. record { magic = cond_magic; mutex = null }))
    glist_initialize (at.cond_queue fresh) g_list >>= λ _. pure tt
    glist_set_sort (at.cond_queue fresh) (some ready_list_sort) >>= λ _. pure fresh

  unfoldable pub cond_init : (fresh cond : Ptr) → Cmd Kernel ℕ
  unfolding cond_create
  cond_init fresh cond = if cond == null then pure e_inval else do
    c ← cond_create fresh
    modify (set_cond cond (λ r. record r { magic = c }))
    pure (if c == null then e_error else e_ok)

  unfoldable pub get_cond_ptr : (fresh cond : Ptr) → Cmd Kernel Ptr
  unfolding cond_init
  get_cond_ptr fresh cond = if cond == null then pure null else do
    k ← get
    let c = (k.cond cond).magic
    if c == cond_initializer
        then (do
          ret ← cond_init fresh cond
          k' ← get
          pure (if ret == e_ok then (k'.cond cond).magic else null))
        else pure (
            if c == cond_magic
            then cond
            else (if (c == null) || not ((k.cond c).magic == cond_magic) then null else c))

module _ (at : Layout) (sleepers tasks : Ptr)
    (call_handler : ℕ → ℕ → ℕ → Cmd Kernel (Unit {0})) where
  unfoldable pub cond_resume_timeout : (task : ℕ) → Cmd Kernel (Unit {0})
  cond_resume_timeout task = do
    ret ← glist_remove_specific task
    if not (ret == e_ok) then pure tt else (do
      modify (set_task task (λ t. record t { ret = e_timed_out }))
      sched_add_task tasks task)

  -- From `SchedStopRunningTask` on, up to the switch.
  unfoldable pub cond_blocks : (task cond : ℕ) → Bool → Cmd Kernel CondWait
  cond_blocks task cond status = do
    inner ← sched_stop_running_task tasks blocked SubState.cond
    pure (waiting task cond status inner)

  -- `handler` is the address of `CondResumeTimeout`.
  unfoldable pub cond_enter : (handler mutex_fresh cond mx task : ℕ) → Cmd Kernel CondWait
  unfolding cond_blocks
  cond_enter handler mutex_fresh cond mx task = do
    glist_insert_object (at.cond_queue cond) task >>= λ _. pure tt
    k ← get
    (if (k.timeout (at.node_of task)).set
        then timer_set sleepers tasks at.node_of at.task_of call_handler task handler cond
        else pure tt)
    status ← sched_lock
    mutex_unlock at sleepers tasks call_handler mutex_fresh mx >>= λ _. pure tt
    now ← sched_get_running_task
    if now == task then cond_blocks task cond status else pure (yielded task cond status)

  unfoldable pub cond_wait : (handler fresh mutex_fresh cond mutex : ℕ) → Cmd Kernel CondWait
  unfolding get_cond_ptr cond_enter
  cond_wait handler fresh mutex_fresh cond mutex = do
    c ← get_cond_ptr at fresh cond
    k ← get
    let mx = (k.mutex mutex).magic
    if (c == null) || (not ((k.cond c).mutex == null) && not ((k.cond c).mutex == mx))
        then pure (cond_returned e_inval)
        else (do
          task ← sched_get_running_task
          checked mx
          if not (task == owner_of k mx) then pure (cond_returned e_inval) else (do
            modify (set_cond c (λ r. record r { mutex = mx }))
            cond_enter handler mutex_fresh c mx task))

  -- What the task does when it runs again after its wait; the result is that of `MutexLock`, for
  -- `cond_locked`, unless the wait has failed.
  unfoldable pub cond_resumes :
      (lock_handler fresh mutex task : ℕ) → (status inner : Bool) → Cmd Kernel Wait
  cond_resumes lock_handler fresh mutex task status inner = do
    ret ← stopped_resumes tasks inner task
    critical_unlock status
    k ← get
    (if (k.timeout (at.node_of task)).set
        then timer_stop sleepers tasks at.node_of at.task_of call_handler task
        else pure tt)
    k' ← get
    if not (ret == e_ok)
        then pure (returned ret)
        else mutex_lock at sleepers tasks call_handler lock_handler fresh (k'.mutex mutex).magic

  -- The end of `CondWait`, after `MutexLock`.
  unfoldable pub cond_locked : (cond ret : ℕ) → Cmd Kernel ℕ
  cond_locked cond ret = do
    g ← get_list (at.cond_queue cond)
    (if g.count == 0 then modify (set_cond cond (λ r. record r { mutex = null })) else pure tt)
    pure ret

  -- `count` tasks are woken with the result `ret`.
  unfoldable pub wake_all : (count ret cond : ℕ) → Cmd Kernel (Unit {0})
  wake_all zero ret cond = pure tt
  wake_all (suc count) ret cond =
      let rest = wake_all count ret cond in
      do
        task ← glist_remove_first (at.cond_queue cond)
        checked task
        modify (set_task task (λ t. record t { ret = ret }))
        sched_add_task tasks task
        rest

  -- The number of tasks that `CondSignal` wakes.
  abbrev pub signal_count : (count size : ℕ) → ℕ
  signal_count count size = if (count == 0) || ltb size count then size else count

  -- After `MutexLock` has returned `E_OK`.
  unfoldable pub signal_locked : (mutex_fresh cond count : ℕ) → Cmd Kernel ℕ
  unfolding wake_all
  signal_locked mutex_fresh cond count = do
    g ← get_list (at.cond_queue cond)
    wake_all (signal_count count g.count) e_ok cond
    k ← get
    mutex_unlock at sleepers tasks call_handler mutex_fresh (k.cond cond).mutex >>= λ _. pure tt
    sched_yield tasks >>= λ _. pure e_ok

  -- `count` is the pattern of an `int32_t`. `fresh` and `mutex_fresh` are what `kmalloc` returns for a
  -- condition variable and for a mutex. Where `MutexLock` stops the task, the rest is `signal_locked`.
  unfoldable pub cond_signal : (lock_handler fresh mutex_fresh cond count : ℕ) → Cmd Kernel Wait
  unfolding get_cond_ptr signal_locked
  cond_signal lock_handler fresh mutex_fresh cond count = do
    c ← get_cond_ptr at fresh cond
    if (c == null) || leb (2 ^ 31) count then pure (returned e_inval) else (do
      k ← get
      r ← mutex_lock at sleepers tasks call_handler lock_handler mutex_fresh (k.cond c).mutex
      elim r [
        | returned ret ↦
            if ret == e_ok
            then (signal_locked mutex_fresh c count >>= λ v. pure (returned v))
            else pure (returned e_inval)
        | stopped task status inner ↦ pure (stopped task status inner)
      ])

  -- `kfree` comes before the yield.
  unfoldable pub cond_destroy : (fresh cond : Ptr) → Cmd Kernel ℕ
  unfolding get_cond_ptr
  cond_destroy fresh cond = do
    c ← get_cond_ptr at fresh cond
    if c == null then pure e_inval else (do
      g ← get_list (at.cond_queue c)
      if not (g.count == 0) then pure e_busy else (do
        modify (set_cond c (λ r. record r { magic = 0 }))
        sched_yield tasks >>= λ _. pure e_ok))
