-- ===== src/Sched/Ops.antt =====
-- The functions of kernel/scheduler.c, as the CPU that runs them sees them; the list of ready tasks
-- is at the address `tasks`. `SchedLock` never waits here: a lock that another CPU has is a `hang`.
use ukernel_mp.Base.{
  ℕ, zero, suc, Bool, true, false, ◌+◌, ◌-◌, ◌%◌, ◌^◌, ◌==◌, ltb, leb, if◌then◌else◌, ℤ, pos,
  negsuc, ◌∷◌, update,
}
use ukernel_mp.Klock.Steps.{klock_free}
use ukernel_mp.Glist.Heap.{Ptr, null, Cmd, ok, hang, pure, ◌>>=◌, ◌>>◌, get_list}
use ukernel_mp.Glist.Lock.{cpu_id, critical_lock, critical_unlock}
use ukernel_mp.Glist.Api.{glist_insert_object, glist_remove_first}
use ukernel_mp.Sched.State.{TaskState, dead, ready, SubState, Task, Cpu, Kernel}

-- a - b of two `int`s
abbrev pub sub_ℕ : ℕ → ℕ → ℤ
sub_ℕ a b = if leb b a then pos (a - b) else negsuc (b - a - 1)

abbrev pub get : Cmd Kernel Kernel
get m = ok m.objects m

abbrev pub modify : (Kernel → Kernel) → Cmd Kernel (Unit {0})
modify f m = ok tt (record m { objects = f m.objects })

abbrev pub set_task : ℕ → (Task → Task) → Kernel → Kernel
set_task t f k = record k { task = update k.task t (f (k.task t)) }

abbrev pub set_cpu : ℕ → (Cpu → Cpu) → Kernel → Kernel
set_cpu c f k = record k { cpu = update k.cpu c (f (k.cpu c)) }

unfoldable pub ready_list_sort : Ptr → Ptr → Kernel → ℤ × Kernel
ready_list_sort current newtask k =
    let a = (k.task newtask).active_prio in
    let prio = if ltb 1 a then a - 1 else a in (sub_ℕ (k.task current).active_prio prio, k)

unfoldable pub ready_list_cmp : Ptr → ℕ → Kernel → ℤ × Kernel
ready_list_cmp current tid k = (if (k.task current).tid == tid then pos 0 else pos 1, k)

-- The loop of `SchedSortLowPriority`, with `left` CPUs to go from `c` on.
unfoldable pub low_loop : (left c : ℕ) → Kernel → Kernel
low_loop zero c k = k
low_loop (suc left) c k =
    low_loop left (c + 1)
      (if ltb (k.cpu c).prio k.lprio then record k { lprio = (k.cpu c).prio; lcpu = c } else k)

unfoldable pub sched_sort_low_priority : ℕ → Kernel → Kernel
unfolding low_loop
sched_sort_low_priority self k =
    low_loop k.cpus 0 (if k.lcpu == self then record k { lprio = 0xffff } else k)

-- `SchedLock` and `SchedUnlock`, by `Klock` and `Kunlock` with a place for the status.
unfoldable pub sched_lock : Cmd Kernel Bool
sched_lock = do
  status ← critical_lock
  self ← cpu_id
  k ← get
  if k.lock.owner == self
      then modify (λ k. record k { lock = record k.lock { count = (k.lock.count + 1) % 2 ^ 32 } })
      else (if k.lock.owner == klock_free
          then modify (λ k. record k {
            lock = record { count = (k.lock.count + 1) % 2 ^ 32; owner = self };
          })
          else (λ _. hang))
  pure status

-- With the status NULL the mask stays; the result tells whether this CPU had the lock.
unfoldable pub sched_release : Cmd Kernel Bool
sched_release = do
  self ← cpu_id
  k ← get
  let left = (k.lock.count + 2 ^ 32 - 1) % 2 ^ 32
  if k.lock.owner == self
      then (do
        modify (λ k. record k {
          lock = record { count = left; owner = if left == 0 then klock_free else self };
        })
        pure true)
      else pure false

unfoldable pub sched_unlock : Bool → Cmd Kernel (Unit {0})
sched_unlock status = do held ← sched_release; if held then critical_unlock status else pure tt

-- `SchedEnsureLock`: a lock that is held is not counted again.
unfoldable pub sched_ensure_lock : Cmd Kernel Bool
sched_ensure_lock = do
  status ← critical_lock
  self ← cpu_id
  k ← get
  if k.lock.owner == self
      then pure status
      else (if k.lock.owner == klock_free
          then (do
            modify (λ k. record k {
              lock = record { count = (k.lock.count + 1) % 2 ^ 32; owner = self };
            })
            pure status)
          else (λ _. hang))

-- `InterruptGenerateSelf` and `InterruptGenerate`
abbrev pub sched_trigger : ℕ → Kernel → Kernel
sched_trigger c k = record k { raised = c ∷ k.raised }

module _ (tasks : Ptr) where
  unfoldable pub sched_pending_prio : Cmd Kernel ℕ
  sched_pending_prio = do
    g ← get_list tasks
    k ← get
    pure (if g.first == null then 0 else (k.task g.first).active_prio)

  unfoldable pub sched_get_next2run : Cmd Kernel Ptr
  sched_get_next2run = glist_remove_first tasks

  unfoldable pub hold_ready : ℕ → Cmd Kernel (Unit {0})
  hold_ready t = do
    modify (set_task t (λ r. record r { state = ready; sub_state = SubState.none }))
    r ← glist_insert_object tasks t
    pure tt

  unfoldable pub hold_in : TaskState → ℕ → Cmd Kernel (Unit {0})
  hold_in dead t = pure tt
  hold_in _ t = hold_ready t

  unfoldable pub sched_hold_task : ℕ → Cmd Kernel (Unit {0})
  unfolding hold_in hold_ready
  sched_hold_task t = do k ← get; hold_in (k.task t).state t

  -- The check of `SchedAddTask` against the CPU with the lowest priority.
  unfoldable pub preempt : ℕ → Kernel → Kernel
  preempt t k =
      if ltb k.lprio (k.task t).active_prio
      then sched_trigger k.lcpu (
          if (k.cpu k.lcpu).tslice == 1
          then set_cpu k.lcpu (λ c. record c { tslice = (c.tslice + 1) % 2 ^ 32 }) k
          else k)
      else k

  unfoldable pub sched_add_task : ℕ → Cmd Kernel (Unit {0})
  unfolding preempt
  sched_add_task t = do
    state ← sched_lock
    sched_hold_task t
    modify (preempt t)
    sched_unlock state
