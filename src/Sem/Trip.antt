-- ===== src/Sem/Trip.antt =====
-- A wait that need not block, and the post that takes it back.
use ukernel_mp.Base.{
  ℕ, suc, ◌≡◌, ◌≢◌, ◌<◌, ◌+◌, ◌-◌, ◌%◌, ◌^◌, ◌==◌, false, refl, arith, ==_ne, ==_refl,
  update-update, update, sym, update_self, update_same, ap, ◌∙◌,
}
use ukernel_mp.Glist.Heap.{Ptr, null, Mem, Cmd, ok, pure, ◌>>=◌}
use ukernel_mp.Glist.Link.{e_ok}
use ukernel_mp.Glist.Inv.{with_objects}
use ukernel_mp.Sched.State.{Sem, Kernel}
use ukernel_mp.Sem.Ops.{
  Wait, sem_magic, set_sem, is_negative, get_sem_ptr, spinlock_irq, spinunlock_irq, spinlock,
  spinunlock, returned, sem_wait, sem_post,
}

module _ (s : ℕ) (m : Mem Kernel) where
  -- A semaphore that nothing waits on, and whose spin lock is free.
  pub record IsIdle : Type 0 where
    pub nonnull : s ≢ null
    pub magic : (m.objects.sem s).magic ≡ sem_magic
    pub free : (m.objects.sem s).locked ≡ false

  -- The counter at `s` set.
  abbrev pub counted : ℕ → Mem Kernel
  counted c = with_objects (set_sem s (λ r. record r { counter = c }) m.objects) m

module _ (sleepers tasks : Ptr) (node_of task_of queue_of : ℕ → ℕ)
    (call_handler : ℕ → ℕ → ℕ → Cmd Kernel (Unit {0})) (handler s : ℕ) (m : Mem Kernel) where
  ptr : IsIdle s m → get_sem_ptr s m.objects ≡ s
  unfolding get_sem_ptr
  ptr up = rw (==_ne up.nonnull, up.magic) refl

  -- `SemWait` on a semaphore with a free spin lock and a positive counter returns `E_OK` with
  -- the counter one less and nothing else changed.
  pub wait-free :
      IsIdle s m
      → 0 < (m.objects.sem s).counter
      → (m.objects.sem s).counter < 2 ^ 31
      → sem_wait sleepers tasks node_of task_of queue_of call_handler handler s m
        ≡ ok (returned e_ok) (counted s m ((m.objects.sem s).counter - 1))
  unfolding sem_wait spinlock_irq spinunlock_irq spinlock spinunlock get_sem_ptr
  wait-free up h small =
      let less : ((m.objects.sem s).counter + 2 ^ 32 - 1) % 2 ^ 32 ≡ (m.objects.sem s).counter - 1 =
        omega arith in
      let test : is_negative ((m.objects.sem s).counter - 1) ≡ false = ground arith in
      rw (ptr up) (simp (==_ne up.nonnull, up.free, ==_refl s, less, test, update-update) refl)

  -- `SemPost` on a semaphore with a free spin lock and a counter of 0 or more returns `E_OK`
  -- with the counter one more and nothing else changed.
  pub post-free :
      IsIdle s m
      → suc (m.objects.sem s).counter < 2 ^ 31
      → sem_post sleepers tasks node_of task_of queue_of call_handler s m
        ≡ ok e_ok (counted s m (suc (m.objects.sem s).counter))
  unfolding sem_post spinlock_irq spinunlock_irq spinlock spinunlock get_sem_ptr
  post-free up small =
      let more : ((m.objects.sem s).counter + 1) % 2 ^ 32 ≡ suc (m.objects.sem s).counter =
        omega arith in
      let test : is_negative (suc (m.objects.sem s).counter) ≡ false = ground arith in
      let test2 : (suc (m.objects.sem s).counter == 0) ≡ false = ground arith in
      rw (ptr up)
        (simp (==_ne up.nonnull, up.free, ==_refl s, more, test, test2, update-update) refl)

-- `SemWait` on a semaphore, and then `SemPost` on it.
abbrev pub wait_post :
    (sleepers tasks : Ptr)
    → (node_of task_of queue_of : ℕ → ℕ) → (ℕ → ℕ → ℕ → Cmd Kernel (Unit {0}))
    → (handler s : ℕ) → Cmd Kernel (Wait × ℕ)
wait_post sleepers tasks node_of task_of queue_of call_handler handler s = do
  w ← sem_wait sleepers tasks node_of task_of queue_of call_handler handler s
  r ← sem_post sleepers tasks node_of task_of queue_of call_handler s
  pure (w, r)

-- A positive counter that has gone one down and one up again.
restored :
    (s : ℕ) (m : Mem Kernel)
    → 0 < (m.objects.sem s).counter
    → counted s (counted s m ((m.objects.sem s).counter - 1)) (suc ((m.objects.sem s).counter - 1))
      ≡ m
restored s m h =
    let down : Sem = record (m.objects.sem s) { counter = (m.objects.sem s).counter - 1 } in
    let back : (m.objects.sem s).counter ≡ suc ((m.objects.sem s).counter - 1) = omega arith in
    let up : Sem = record (m.objects.sem s) { counter = suc ((m.objects.sem s).counter - 1) } in
    ap (λ f. with_objects (record m.objects { sem = f }) m)
      (ap
          (λ r.
            update (update m.objects.sem s down) s
              (record r { counter = suc ((m.objects.sem s).counter - 1) }))
          (update_self m.objects.sem s down)
        ∙ update-update m.objects.sem s down up
        ∙ update_same m.objects.sem s up
            (ap (λ c. record (m.objects.sem s) { counter = c }) (sym back)))

module _ (sleepers tasks : Ptr) (node_of task_of queue_of : ℕ → ℕ)
    (call_handler : ℕ → ℕ → ℕ → Cmd Kernel (Unit {0})) (handler s : ℕ) (m : Mem Kernel) where
  -- `SemWait` and then `SemPost` on a semaphore with a free spin lock and a counter of 1 or
  -- more, below 2 ^ 31, both return `E_OK` and leave everything as it was.
  pub wait-post :
      IsIdle s m
      → 0 < (m.objects.sem s).counter
      → (m.objects.sem s).counter < 2 ^ 31
      → wait_post sleepers tasks node_of task_of queue_of call_handler handler s m
        ≡ ok (returned e_ok, e_ok) m
  wait-post up h small =
      let left = counted s m ((m.objects.sem s).counter - 1) in
      let same : left.objects.sem s
          ≡ record (m.objects.sem s) { counter = (m.objects.sem s).counter - 1 } =
        update_self m.objects.sem s _ in
      let idle : IsIdle s left = record {
        nonnull = up.nonnull;
        magic = ap (λ r. r.magic) same ∙ up.magic;
        free = ap (λ r. r.locked) same ∙ up.free;
      } in
      let number : (left.objects.sem s).counter ≡ (m.objects.sem s).counter - 1 =
        ap (λ r. r.counter) same in
      let posted =
        post-free sleepers tasks node_of task_of queue_of call_handler handler s left idle
          (omega (arith, number, h, small)) in
      rw (wait-free sleepers tasks node_of task_of queue_of call_handler handler s m up h small)
        (rw posted (rw number (ap (ok (returned e_ok, e_ok)) (restored s m h))))
