-- ===== src/Mutex/Taken.antt =====
-- A mutex that nothing has locked is taken.
use ukernel_mp.Base.{
  ℕ, ◌≡◌, ◌≢◌, true, false, refl, sym, ap, ◌∙◌, some, List, [], ◌∷◌, has, ℤ, false≢true, Bool-cases,
  inl, inr, positive, update-update, update_self, ==_ne, ==_refl,
}
use ukernel_mp.Glist.Heap.{Ptr, g_list, Mem, ok}
use ukernel_mp.Glist.Link.{e_ok, e_busy}
use ukernel_mp.Glist.Inv.{IsGlist, Returns, returns, Returns-bind, Returns-mono, with_objects}
use ukernel_mp.Glist.Sorted.{insert_spec}
use ukernel_mp.Glist.Object.{IsChanged, IsReady, insert_object-sorted, has-insert_spec, masked}
use ukernel_mp.Sched.State.{Mutex, Kernel}
use ukernel_mp.Sched.Hold.{IsGlist-status, IsReady-status}
use ukernel_mp.Sched.Switch.{sched_get_running_task}
use ukernel_mp.Mutex.Handle.{
  Layout, set_mutex, owner_of, mutex_spinlock_irq, mutex_spinunlock_irq, take_mutex, mutex_trylock,
}
use ukernel_mp.Mutex.Owned.{self, IsOurs, ptr, trylock-busy}

-- A callback that writes nothing.
abbrev pub IsPure : (Ptr → Ptr → Kernel → ℤ × Kernel) → Type 0
IsPure sort = (a b : Ptr) (k : Kernel) → (sort a b k).1 ≡ k

pub insert_spec-pure :
    (sort : Ptr → Ptr → Kernel → ℤ × Kernel) (node : Ptr) (xs : List ℕ) (k : Kernel)
    → IsPure sort
    → (insert_spec sort node xs k).1 ≡ k
unfolding insert_spec
insert_spec-pure sort node [] k same = refl
insert_spec-pure sort node (x ∷ xs) k same = elim (Bool-cases (positive (sort x node k).0)) [
  | inl e ↦ rw e (insert_spec-pure sort node xs (sort x node k).1 same ∙ same x node k)
  | inr e ↦ rw e (same x node k)
]

module _ (at : Layout) (m : Mem Kernel) (mutex : Ptr) (sort : Ptr → Ptr → Kernel → ℤ × Kernel)
    (xs : List ℕ) where
  -- The mutexes that the running task owns are `xs`, in the order of `sort`, with room for another one.
  pub record IsOwner : Type 0 where
    pub kind : (m.list (at.owned_mutexs (self m))).kind ≡ g_list
    pub sorted : (m.list (at.owned_mutexs (self m))).list_sort ≡ some sort
    pub is_pure : IsPure sort
    pub ready : IsReady m (at.owned_mutexs (self m)) (at.tnode mutex) xs
    pub other_node : at.pnode mutex ≢ at.tnode mutex
    pub no_node : has (at.pnode mutex) xs ≡ false

  abbrev pub after_lock : Kernel
  after_lock = set_mutex mutex (λ r. record r { lock = 1; locked = true; owner = self m }) m.objects

  -- The mutex is the running task's, and among those that it owns.
  pub record IsTaken (g : Mem Kernel) : Type 0 where
    pub lock : (g.objects.mutex mutex).lock ≡ 1
    pub owner : owner_of g.objects mutex ≡ self m
    pub ours : IsOurs at g mutex
    pub owned :
        IsGlist g (at.owned_mutexs (self m)) (insert_spec sort (at.tnode mutex) xs after_lock).0
    pub masked : g.masked ≡ m.masked

  -- After the insertion the spin lock is given back.
  abbrev unlocked : Mem Kernel → Mem Kernel
  unlocked g = record g {
    objects = set_mutex mutex (λ r. record r { locked = false }) g.objects;
    masked = m.masked;
  }

  not_has :
      has (at.pnode mutex) xs ≡ false
      → at.pnode mutex ≢ at.tnode mutex
      → has (at.pnode mutex) (insert_spec sort (at.tnode mutex) xs after_lock).0 ≡ false
  not_has out ne =
      elim (Bool-cases (has (at.pnode mutex) (insert_spec sort (at.tnode mutex) xs after_lock).0)) [
        | inl e ↦ absurd (
            false≢true
              (sym out ∙ has-insert_spec sort (at.tnode mutex) xs after_lock (at.pnode mutex) e ne))
        | inr e ↦ e
      ]

  taken :
      (g : Mem Kernel)
      → IsOurs at m mutex
      → IsOwner
      → IsChanged
          (masked (with_objects after_lock m))
          g
          (at.owned_mutexs (self m))
          (at.tnode mutex)
          (insert_spec sort (at.tnode mutex) xs after_lock).0
          (insert_spec sort (at.tnode mutex) xs after_lock).1
      → IsTaken (unlocked g)
  taken g up own c =
      let objects : g.objects ≡ after_lock =
        c.objects ∙ insert_spec-pure sort (at.tnode mutex) xs after_lock own.is_pure in
      let here : (unlocked g).objects.mutex mutex
          ≡ record (m.objects.mutex mutex) { lock = 1; locked = false; owner = self m } =
        update_self g.objects.mutex mutex _
        ∙ ap {B = Mutex} (λ k. record (k.mutex mutex) { locked = false }) objects
        ∙ ap {A = Mutex} {B = Mutex} (λ r. record r { locked = false })
            (update_self m.objects.mutex mutex _) in
      let out : has (at.pnode mutex) (insert_spec sort (at.tnode mutex) xs after_lock).0 ≡ false =
        not_has own.no_node own.other_node in
      let pnode : g.owner (at.pnode mutex) ≡ m.owner (at.pnode mutex) =
        (c.nodes (at.pnode mutex) out own.other_node).2 in
      record {
        lock = ap (λ r. r.lock) here;
        owner = ap (λ r. r.owner) here;
        ours = record {
          nonnull = up.nonnull;
          magic = ap (λ r. r.magic) here ∙ up.magic;
          pnode = up.pnode;
          process = rw (objects, c.cpu, pnode) up.process;
          free = ap (λ r. r.locked) here;
        };
        owned =
            IsGlist-status (set_mutex mutex (λ r. record r { locked = false }) g.objects) m.masked
              c.glist;
        masked = refl;
      }

  pub trylock-IsTaken :
      (fresh : Ptr)
      → IsOurs at m mutex
      → (m.objects.mutex mutex).lock ≢ 1
      → IsOwner
      → Returns (λ r g. (r ≡ e_ok) × IsTaken g) (mutex_trylock at fresh mutex m)
  unfolding mutex_trylock take_mutex mutex_spinlock_irq mutex_spinunlock_irq sched_get_running_task
  trylock-IsTaken fresh up idle own =
      let l = at.owned_mutexs (self m) in
      let tnode = at.tnode mutex in
      rw (ptr at m mutex fresh up) (
        simp (==_ne up.nonnull, up.free, ==_refl mutex, ==_ne idle, update-update)
          (Returns-bind
            {P = λ _ g.
              IsChanged (masked (with_objects after_lock m)) g l tnode
                (insert_spec sort tnode xs after_lock).0 (insert_spec sort tnode xs after_lock).1}
            (Returns-bind
              (insert_object-sorted (masked (with_objects after_lock m)) l tnode xs sort own.kind
                own.sorted (IsReady-status after_lock true own.ready))
              λ r g (e, c). returns c)
            λ u g c. returns (refl, taken g up own c)))

  -- `MutexTrylock` of a mutex of the process with a free spin lock that nothing has locked, by
  -- a task with room in its list of mutexes and a sort function that writes nothing, returns
  -- `E_OK`; the next `MutexTrylock` returns `E_BUSY` and changes nothing.
  pub trylock-excludes :
      (fresh again : Ptr)
      → IsOurs at m mutex
      → (m.objects.mutex mutex).lock ≢ 1
      → IsOwner
      → Returns
          (λ r g. (r ≡ e_ok) × (mutex_trylock at again mutex g ≡ ok e_busy g))
          (mutex_trylock at fresh mutex m)
  trylock-excludes fresh again up idle own =
      Returns-mono (trylock-IsTaken fresh up idle own)
        λ r g (e, t). (e, trylock-busy at g mutex again t.ours t.lock)
