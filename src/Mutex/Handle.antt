-- ===== src/Mutex/Handle.antt =====
-- The functions of kernel/mutex.c. A mutex is named by its address; the first word at an address,
-- `magic`, may also be the address of a mutex. `MutexListSort` looks at the queues of the mutexes:
-- the callback of a list over `Kernel` cannot, so it stands here for itself.
use ukernel_mp.Base.{ℕ, Bool, true, false, ◌==◌, ◌||◌, not, some, if◌then◌else◌, update, ℤ}
use ukernel_mp.Glist.Heap.{Ptr, null, g_list, Cmd, hang, pure, ◌>>=◌, ◌>>◌, get_owner, get_list}
use ukernel_mp.Glist.Lock.{critical_lock, critical_unlock}
use ukernel_mp.Glist.Link.{e_ok, e_inval, e_busy, e_error}
use ukernel_mp.Glist.Api.{glist_initialize, glist_set_sort, glist_insert_object, glist_get_first}
use ukernel_mp.Sched.State.{Mutex, Kernel}
use ukernel_mp.Sched.Ops.{get, modify, set_task, sub_ℕ, ready_list_sort}
use ukernel_mp.Sched.Switch.{checked, sched_get_running_task, sched_get_running_process}

abbrev pub mutex_magic : ℕ
mutex_magic = 0xaaaadead

abbrev pub mutex_initializer : ℕ
mutex_initializer = 0x10101010

-- Where the compiler puts the members: of a mutex, a task, a process, a condition variable.
-- `process_of` is `GLISTNODE2TYPE` from the list `mutexs` of a process.
pub record Layout : Type 0 where
  pub node_of : ℕ → ℕ
  pub task_of : ℕ → ℕ
  pub lock_queue : ℕ → ℕ
  pub pnode : ℕ → ℕ
  pub tnode : ℕ → ℕ
  pub owned_mutexs : ℕ → ℕ
  pub mutexs : ℕ → ℕ
  pub process_of : ℕ → ℕ
  pub cond_queue : ℕ → ℕ

abbrev pub set_mutex : Ptr → (Mutex → Mutex) → Kernel → Kernel
set_mutex s f k = record k { mutex = update k.mutex s (f (k.mutex s)) }

abbrev pub set_active_prio : ℕ → ℕ → Kernel → Kernel
set_active_prio t p = set_task t (λ r. record r { active_prio = p })

abbrev pub owner_of : Kernel → Ptr → Ptr
owner_of k mutex = (k.mutex mutex).owner

unfoldable pub mutex_spinlock_irq : Ptr → Cmd Kernel Bool
mutex_spinlock_irq s = do
  k ← get
  (if (k.mutex s).locked
      then (λ _. hang)
      else modify (set_mutex s (λ r. record r { locked = true })))
  critical_lock

abbrev pub mutex_spinunlock : Ptr → Cmd Kernel (Unit {0})
mutex_spinunlock s = modify (set_mutex s (λ r. record r { locked = false }))

unfoldable pub mutex_spinunlock_irq : Ptr → Bool → Cmd Kernel (Unit {0})
mutex_spinunlock_irq s status = do mutex_spinunlock s; critical_unlock status

module _ (at : Layout) where
  -- `kmalloc` has returned the address `fresh`.
  unfoldable pub mutex_create : Ptr → Cmd Kernel Ptr
  mutex_create fresh = do
    checked fresh
    modify (
        set_mutex fresh
          (λ _. record { magic = mutex_magic; lock = 0; locked = false; owner = null }))
    glist_initialize (at.lock_queue fresh) g_list >>= λ _. pure tt
    glist_set_sort (at.lock_queue fresh) (some ready_list_sort) >>= λ _. pure tt
    process ← sched_get_running_process
    checked process
    glist_insert_object (at.mutexs process) (at.pnode fresh) >>= λ _. pure fresh

  unfoldable pub mutex_init : (fresh mutex : Ptr) → Cmd Kernel ℕ
  unfolding mutex_create
  mutex_init fresh mutex = if mutex == null then pure e_inval else do
    mx ← mutex_create fresh
    modify (set_mutex mutex (λ r. record r { magic = mx }))
    pure (if mx == null then e_error else e_ok)

  -- The last check of `GetMutexPtr`: the mutex is one of the running process.
  unfoldable pub own_mutex : Ptr → Cmd Kernel Ptr
  own_mutex mutex = do
    process ← sched_get_running_process
    l ← get_owner (at.pnode mutex)
    pure (if process == at.process_of l then mutex else null)

  unfoldable pub get_mutex_ptr : (fresh mutex : Ptr) → Cmd Kernel Ptr
  unfolding own_mutex mutex_init
  get_mutex_ptr fresh mutex = if mutex == null then pure null else do
    k ← get
    let mx = (k.mutex mutex).magic
    if mx == mutex_initializer
        then (do
          ret ← mutex_init fresh mutex
          k' ← get
          pure (if ret == e_ok then (k'.mutex mutex).magic else null))
        else (if mx == mutex_magic
            then own_mutex mutex
            else (if (mx == null) || not ((k.mutex mx).magic == mutex_magic)
                then pure null
                else own_mutex mx))

  -- `MUTEX_PRIO_CELLING`
  unfoldable pub prio_ceiling : Ptr → Cmd Kernel ℕ
  prio_ceiling mutex = do
    g ← get_list (at.lock_queue mutex)
    if g.count == 0
        then pure 0
        else (do t ← glist_get_first (at.lock_queue mutex); k ← get; pure (k.task t).active_prio)

  unfoldable pub mutex_list_sort : (current new_mutex : Ptr) → Cmd Kernel ℤ
  unfolding prio_ceiling
  mutex_list_sort current new_mutex = do
    a ← prio_ceiling current
    b ← prio_ceiling new_mutex
    pure (sub_ℕ a b)

  abbrev pub add_owned : (task mutex : Ptr) → Cmd Kernel (Unit {0})
  add_owned task mutex =
      glist_insert_object (at.owned_mutexs task) (at.tnode mutex) >>= λ _. pure tt

  -- A mutex that is unlocked becomes the running task's.
  unfoldable pub take_mutex : Ptr → Cmd Kernel (Unit {0})
  take_mutex mutex = do
    modify (set_mutex mutex (λ r. record r { lock = 1 }))
    task ← sched_get_running_task
    modify (set_mutex mutex (λ r. record r { owner = task }))
    add_owned task mutex

  unfoldable pub mutex_trylock : (fresh mutex : Ptr) → Cmd Kernel ℕ
  unfolding get_mutex_ptr mutex_spinlock_irq mutex_spinunlock_irq take_mutex
  mutex_trylock fresh mutex = do
    mx ← get_mutex_ptr fresh mutex
    if mx == null then pure e_inval else (do
      state ← mutex_spinlock_irq mx
      k ← get
      if (k.mutex mx).lock == 1
          then (do mutex_spinunlock_irq mx state; pure e_busy)
          else (do take_mutex mx; mutex_spinunlock_irq mx state; pure e_ok))
