-- ===== src/Mutex/Owned.antt =====
-- What the functions on mutexes do where the task need not wait.
use ukernel_mp.Base.{
  ℕ, ◌≡◌, ◌≢◌, ◌==◌, false, refl, sym, ap, ◌∙◌, Bool-cases, inl, inr, update_same, update-update,
  ==_ne, ==_refl,
}
use ukernel_mp.Glist.Heap.{Ptr, null, Mem, Cmd, ok}
use ukernel_mp.Glist.Link.{e_inval, e_error, e_busy}
use ukernel_mp.Sched.State.{Mutex, Kernel}
use ukernel_mp.Sched.Switch.{sched_get_running_task, sched_get_running_process}
use ukernel_mp.Sem.Ops.{returned}
use ukernel_mp.Mutex.Handle.{
  Layout, mutex_magic, owner_of, mutex_spinlock_irq, mutex_spinunlock_irq, own_mutex, get_mutex_ptr,
  mutex_trylock,
}
use ukernel_mp.Mutex.Ops.{mutex_lock, mutex_unlock}

-- The task that runs on the CPU.
abbrev pub self : Mem Kernel → Ptr
self m = (m.objects.cpu m.cpu).task

module _ (at : Layout) (m : Mem Kernel) (mutex : Ptr) where
  -- A mutex of the process that runs, with a free spin lock.
  pub record IsOurs : Type 0 where
    pub nonnull : mutex ≢ null
    pub magic : (m.objects.mutex mutex).magic ≡ mutex_magic
    pub pnode : at.pnode mutex ≢ null
    pub process : (m.objects.cpu m.cpu).process ≡ at.process_of (m.owner (at.pnode mutex))
    pub free : (m.objects.mutex mutex).locked ≡ false

  pub ptr : (fresh : Ptr) → IsOurs → get_mutex_ptr at fresh mutex m ≡ ok mutex m
  unfolding get_mutex_ptr own_mutex sched_get_running_process
  ptr fresh up =
      simp
        (
          ==_ne up.nonnull,
          up.magic,
          ==_ne up.pnode,
          up.process,
          ==_refl (at.process_of (m.owner (at.pnode mutex))),
        )
        refl

  same : (r : Mutex) → r.lock ≡ 1 → r.locked ≡ false → record r { lock = 1; locked = false } ≡ r
  same r held free =
      ap (λ b. record r { lock = 1; locked = b }) (sym free)
      ∙ ap (λ n. record r { lock = n }) (sym held)

  pub trylock-busy :
      (fresh : Ptr)
      → IsOurs
      → (m.objects.mutex mutex).lock ≡ 1
      → mutex_trylock at fresh mutex m ≡ ok e_busy m
  unfolding mutex_trylock mutex_spinlock_irq mutex_spinunlock_irq
  trylock-busy fresh up held = rw (ptr fresh up) (
      simp (==_ne up.nonnull, up.free, ==_refl mutex, held, update-update)
        (ap (λ t. ok e_busy (record m { objects = record m.objects { mutex = t } }))
          (update_same m.objects.mutex mutex _ (same (m.objects.mutex mutex) held up.free))))

module _ (at : Layout) (sleepers tasks : Ptr) (call_handler : ℕ → ℕ → ℕ → Cmd Kernel (Unit {0}))
    (m : Mem Kernel) (mutex fresh : Ptr) where
  -- `MutexLock` of a mutex that the task owns returns `E_INVAL` and changes nothing.
  pub lock-own :
      IsOurs at m mutex
      → self m ≡ owner_of m.objects mutex
      → (handler : ℕ)
      → mutex_lock at sleepers tasks call_handler handler fresh mutex m ≡ ok (returned e_inval) m
  unfolding mutex_lock sched_get_running_task
  lock-own up own handler =
      rw (ptr at m mutex fresh up)
        (simp (==_ne up.nonnull, own, ==_refl (owner_of m.objects mutex)) refl)

  -- So does `MutexUnlock` of one that it does not own, with `E_ERROR`.
  unlock-other :
      IsOurs at m mutex
      → owner_of m.objects mutex ≢ self m
      → mutex_unlock at sleepers tasks call_handler fresh mutex m ≡ ok e_error m
  unfolding mutex_unlock sched_get_running_task
  unlock-other up other =
      rw (ptr at m mutex fresh up) (elim (Bool-cases ((m.objects.mutex mutex).lock == 1)) [
        | inl e ↦ simp (==_ne up.nonnull, ==_ne other, e) refl
        | inr e ↦ simp (==_ne up.nonnull, e) refl
      ])

  -- On a locked mutex of the process with a free spin lock that another task owns,
  -- `MutexUnlock` returns `E_ERROR` and `MutexTrylock` `E_BUSY`, and neither changes anything.
  pub refused-other :
      IsOurs at m mutex
      → (m.objects.mutex mutex).lock ≡ 1
      → owner_of m.objects mutex ≢ self m
      → (mutex_unlock at sleepers tasks call_handler fresh mutex m ≡ ok e_error m)
        × (mutex_trylock at fresh mutex m ≡ ok e_busy m)
  refused-other up held other = (unlock-other up other, trylock-busy at m mutex fresh up held)
