-- ===== src/Sched/Add.antt =====
-- What `SchedAddTask` does with a task, where no CPU has the lock of the scheduler.
use ukernel_mp.Base.{
  ℕ, ◌≡◌, ◌≢◌, ◌==◌, ◌||◌, ◌+◌, suc, [], ◌∷◌, ◌++◌, length, length-append, has-append, true, false,
  refl, ap, sym, ◌∙◌, List, Bool-cases, inl, inr, ltb, ==_ne, ==_refl, has, arith,
}
use ukernel_mp.Klock.Steps.{Klock, klock_free, klock_init}
use ukernel_mp.Glist.Heap.{Ptr, Mem, ok}
use ukernel_mp.Glist.Inv.{Returns, returns, Returns-bind}
use ukernel_mp.Glist.Object.{IsChanged, IsReady}
use ukernel_mp.Sched.State.{dead, Kernel}
use ukernel_mp.Sched.Ops.{preempt, sched_lock, sched_unlock, sched_release, sched_add_task}
use ukernel_mp.Sched.Order.{prio, at_least, less_than, IsSorted, IsSorted-same}
use ukernel_mp.Sched.Hold.{
  IsReadyList, IsGlist-status, IsReady-status, readied, queued, hold_task-queued,
}

abbrev pub with_lock : Klock → Kernel → Kernel
with_lock l k = record k { lock = l }

preempt-lock :
    (tasks t : ℕ) (k : Kernel) (l : Klock)
    → preempt tasks t (with_lock l k) ≡ with_lock l (preempt tasks t k)
unfolding preempt
preempt-lock tasks t k l = elim (Bool-cases (ltb k.lprio (k.task t).active_prio)) [
  | inl e ↦ elim (Bool-cases ((k.cpu k.lcpu).tslice == 1)) [
    | inl f ↦ rw (e, f) refl
    | inr f ↦ rw (e, f) refl
  ]
  | inr e ↦ rw e refl
]

pub preempt-task : (tasks t : ℕ) (k : Kernel) → (preempt tasks t k).task ≡ k.task
unfolding preempt
preempt-task tasks t k = elim (Bool-cases (ltb k.lprio (k.task t).active_prio)) [
  | inl e ↦ elim (Bool-cases ((k.cpu k.lcpu).tslice == 1)) [
    | inl f ↦ rw (e, f) refl
    | inr f ↦ rw (e, f) refl
  ]
  | inr e ↦ rw e refl
]

pub preempt-same_lock : (tasks t : ℕ) (k : Kernel) → (preempt tasks t k).lock ≡ k.lock
preempt-same_lock tasks t k = ap (λ o. o.lock) (preempt-lock tasks t k k.lock)

-- Who is in the ready list with `t` in its place.
module _ (k : Kernel) (p : ℕ) where
  has-parts :
      (a : ℕ) (xs : List ℕ) → (has a (at_least k p xs) || has a (less_than k p xs)) ≡ has a xs
  has-parts a [] = refl
  has-parts a (x ∷ xs) = ground (arith, has-parts a xs)

  pub has-placed :
      (a t : ℕ) (xs : List ℕ)
      → has a (at_least k p xs ++ t ∷ less_than k p xs) ≡ ((a == t) || has a xs)
  has-placed a t xs =
      has-append a (at_least k p xs) (t ∷ less_than k p xs) ∙ ground (arith, has-parts a xs)

  length-parts : (xs : List ℕ) → length (at_least k p xs) + length (less_than k p xs) ≡ length xs
  length-parts [] = refl
  length-parts (x ∷ xs) = ground (arith, length-parts xs)

  pub length-placed :
      (t : ℕ) (xs : List ℕ) → length (at_least k p xs ++ t ∷ less_than k p xs) ≡ suc (length xs)
  length-placed t xs =
      omega (arith, length-append (at_least k p xs) (t ∷ less_than k p xs), length-parts xs)

module _ (m : Mem Kernel) (tasks : Ptr) (t : ℕ) (xs : List ℕ) where
  -- The lock of the scheduler is free.
  pub record IsIdle : Type 0 where
    pub count : m.objects.lock.count ≡ 0
    pub owner : m.objects.lock.owner ≡ klock_free
    pub cpu : m.cpu ≢ klock_free

  -- In `g` the task is in the ready list, and the preemption is decided.
  pub record IsAdded (g : Mem Kernel) : Type 0 where
    pub changed :
        IsChanged m
          (record g { masked = true })
          tasks
          t
          (queued m tasks t xs)
          (preempt tasks t (readied t m.objects))
    pub ready_list : IsReadyList g tasks (queued m tasks t xs)
    pub masked : g.masked ≡ m.masked

  abbrev held : Klock
  held = record { count = 1; owner = m.cpu }

  -- With the lock taken.
  abbrev locked : Mem Kernel
  locked = record m { objects = with_lock held m.objects; masked = true }

  lock-locked : IsIdle → sched_lock m ≡ ok m.masked locked
  unfolding sched_lock
  lock-locked idle =
      let other : (klock_free == m.cpu) ≡ false = ==_ne (λ e. idle.cpu (sym e)) in
      simp (idle.owner, other, idle.count) refl

  -- The lock given back.
  abbrev freed : Mem Kernel → Mem Kernel
  freed g = record g {
    objects = with_lock klock_init (preempt tasks t (readied t m.objects));
    masked = m.masked;
  }

  abbrev pending : Mem Kernel → Mem Kernel
  pending g = record g { objects = with_lock held (preempt tasks t (readied t m.objects)) }

  unlock-freed :
      (g : Mem Kernel) → g.cpu ≡ m.cpu → sched_unlock m.masked (pending g) ≡ ok tt (freed g)
  unfolding sched_unlock sched_release klock_init
  unlock-freed g same = rw (same, ==_refl m.cpu) refl

  same_objects :
      IsIdle
      → with_lock klock_init (preempt tasks t (readied t m.objects))
        ≡ preempt tasks t (readied t m.objects)
  unfolding klock_init
  same_objects idle =
      let l : klock_init ≡ m.objects.lock = ground (arith, idle.count, idle.owner) in
      ap (λ l. with_lock l (preempt tasks t (readied t m.objects))) l
      ∙ sym (preempt-lock tasks t (readied t m.objects) m.objects.lock)

  still-IsSorted :
      (g : Mem Kernel)
      → g.objects ≡ readied t (with_lock held m.objects)
      → IsSorted g.objects (queued m tasks t xs)
      → IsSorted
          (with_lock klock_init (preempt tasks t (readied t m.objects)))
          (queued m tasks t xs)
  still-IsSorted g same s =
      let k = readied t m.objects in
      IsSorted-same g.objects (with_lock klock_init (preempt tasks t k)) (queued m tasks t xs)
        (λ a. ap (λ o. prio o a) same ∙ sym (ap (λ f. (f a).active_prio) (preempt-task tasks t k)))
        s

  -- With the lock of the scheduler free and a sorted ready list with a free lock,
  -- `SchedAddTask` makes a task that is not dead and in no list READY and puts it into the
  -- ready list: from priority 2 on behind the tasks of its priority or a higher one, with
  -- priority 0 or 1 behind those of a higher priority only, in front of its equals. It decides
  -- whether a CPU is interrupted for the task; the lock is free again and the mask as before.
  pub add_task-queued :
      IsIdle
      → (m.objects.task t).state ≢ dead
      → IsReadyList m tasks xs
      → IsReady m tasks t xs
      → Returns (λ _ g. IsAdded g) (sched_add_task tasks t m)
  unfolding sched_add_task
  add_task-queued idle alive list is_ready = rw (lock-locked idle) (
      Returns-bind
        (hold_task-queued locked tasks t xs alive
          (record { kind = list.kind; by_prio = list.by_prio; sorted = list.sorted })
          (IsReady-status (with_lock held m.objects) true is_ready))
        λ u g (c, l).
          let e : preempt tasks t g.objects
              ≡ with_lock held (preempt tasks t (readied t m.objects)) =
            ap (preempt tasks t) c.objects ∙ preempt-lock tasks t (readied t m.objects) held in
          rw (e, unlock-freed g c.cpu)
            (returns (record {
              changed = record {
                glist =
                    IsGlist-status (with_lock klock_init (preempt tasks t (readied t m.objects)))
                      true c.glist;
                objects = same_objects idle;
                cpu = c.cpu;
                masked = refl;
                lock = c.lock;
                kind = c.kind;
                list_sort = c.list_sort;
                list_cmp = c.list_cmp;
                others = c.others;
                nodes = c.nodes;
              };
              ready_list = record {
                kind = l.kind;
                by_prio = l.by_prio;
                sorted = still-IsSorted g c.objects l.sorted;
              };
              masked = refl;
            })))
