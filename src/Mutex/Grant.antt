-- ===== src/Mutex/Grant.antt =====
-- How `MutexUnlock` passes a mutex on to the first task that waits for it.
use ukernel_mp.Base.{
  ℕ, ◌≡◌, ◌≢◌, true, false, refl, sym, ap, ◌∙◌, subst, some, List, [], ◌∷◌, has, erase, ne_of_head,
  has_of_erase, IsSplit-of_has, IsDistinct-erase, arith, ℤ, false≢true, Bool-cases, inl, inr, ==_ne,
  ==_refl,
}
use ukernel_mp.Glist.Heap.{Ptr, null, g_list, g_circular_list, Mem, Cmd}
use ukernel_mp.Glist.Inv.{IsGlist, Returns, returns, Returns-bind, with_objects, ne_null_of_linked}
use ukernel_mp.Glist.Sorted.{insert_spec}
use ukernel_mp.Glist.Object.{IsChanged, IsReady, insert_object-sorted, has-insert_spec}
use ukernel_mp.Glist.Remove.{IsOpen, remove_specific-erase, remove_first-erase}
use ukernel_mp.Glist.Frame.{
  IsDisjoint, not_has, not_has-erase, IsGlist-kept, IsOpen-kept, IsReady-kept,
}
use ukernel_mp.Sched.State.{Kernel}
use ukernel_mp.Sched.Hold.{IsReady-objects, IsGlist-objects}
use ukernel_mp.Mutex.Handle.{Layout, set_mutex}
use ukernel_mp.Mutex.Ops.{grant, grant_first}
use ukernel_mp.Mutex.Taken.{IsPure, insert_spec-pure}

not_has-insert :
    (sort : Ptr → Ptr → Kernel → ℤ × Kernel) (node a : Ptr) (xs : List ℕ) (k : Kernel)
    → has a xs ≡ false
    → a ≢ node
    → has a (insert_spec sort node xs k).0 ≡ false
not_has-insert sort node a xs k out ne = elim (Bool-cases (has a (insert_spec sort node xs k).0)) [
  | inl e ↦ absurd (false≢true (sym out ∙ has-insert_spec sort node xs k a e ne))
  | inr e ↦ e
]

erase-head : (x : ℕ) (xs : List ℕ) → erase x (x ∷ xs) ≡ xs
erase-head x xs = rw (==_refl x) refl

module _ (at : Layout) (m : Mem Kernel) (mutex x old : Ptr) (sort : Ptr → Ptr → Kernel → ℤ × Kernel)
    (os ws ps : List ℕ) where
  -- The mutex is among those of the list `old`, `os`; the tasks `x` and `ws` wait for it, and `x`
  -- owns the mutexes `ps`. The three lists are well formed and have no node in common, and no
  -- timeout is set for `x`.
  pub record IsWaited : Type 0 where
    pub old_kind : (m.list old).kind ≢ g_circular_list
    pub old_owned : IsOpen m old os
    pub inside : has (at.tnode mutex) os ≡ true
    pub waiters : IsOpen m (at.lock_queue mutex) (x ∷ ws)
    pub kind : (m.list (at.owned_mutexs x)).kind ≡ g_list
    pub sorted : (m.list (at.owned_mutexs x)).list_sort ≡ some sort
    pub is_pure : IsPure sort
    pub ready : IsReady m (at.owned_mutexs x) (at.tnode mutex) ps
    pub queue_ne_old : at.lock_queue mutex ≢ old
    pub queue_ne_new : at.lock_queue mutex ≢ at.owned_mutexs x
    pub new_ne_old : at.owned_mutexs x ≢ old
    pub queue_apart : IsDisjoint (x ∷ ws) os
    pub new_apart : IsDisjoint ps os
    pub new_queue : IsDisjoint ps (x ∷ ws)
    pub no_timeout : (m.objects.timeout (at.node_of x)).set ≡ false

  abbrev pub granted : Kernel
  granted = set_mutex mutex (λ r. record r { owner = x }) m.objects

  -- The mutex is that of `x`, which no longer waits, and no longer among those of the list `old`.
  pub record IsGranted (g : Mem Kernel) : Type 0 where
    pub objects : g.objects ≡ granted
    pub left : IsGlist g old (erase (at.tnode mutex) os)
    pub waiters : IsGlist g (at.lock_queue mutex) ws
    pub owned : IsGlist g (at.owned_mutexs x) (insert_spec sort (at.tnode mutex) ps granted).0

  -- The node of the mutex taken out, then the first task.
  module _ (h : IsWaited) where
    tnode_out : (a : ℕ) → has a os ≡ false → a ≢ at.tnode mutex
    tnode_out a out e = false≢true (sym out ∙ ap (λ b. has b os) e ∙ h.inside)

    waiters_left :
        {g : Mem Kernel}
        → IsChanged m g old (at.tnode mutex) (erase (at.tnode mutex) os) m.objects
        → IsOpen g (at.lock_queue mutex) (x ∷ ws)
    waiters_left c =
        IsOpen-kept c (at.lock_queue mutex) h.queue_ne_old (x ∷ ws)
          (λ a is. (
            not_has-erase a (at.tnode mutex) os (h.queue_apart a is),
            tnode_out a (h.queue_apart a is),
          ))
          h.waiters

    ready_left :
        {g f : Mem Kernel}
        → IsChanged m g old (at.tnode mutex) (erase (at.tnode mutex) os) m.objects
        → IsChanged g f (at.lock_queue mutex) x (erase x (x ∷ ws)) g.objects
        → IsReady f (at.owned_mutexs x) (at.tnode mutex) ps
    ready_left {g} {f} c d =
        IsReady-kept d (at.owned_mutexs x) (λ e. h.queue_ne_new (sym e)) ps
          (λ a is.
            (not_has-erase a x (x ∷ ws) (h.new_queue a is), ne_of_head a x ws (h.new_queue a is)))
          (at.tnode mutex)
          (IsReady-kept c (at.owned_mutexs x) h.new_ne_old ps
            (λ a is. (
              not_has-erase a (at.tnode mutex) os (h.new_apart a is),
              tnode_out a (h.new_apart a is),
            ))
            (at.tnode mutex) h.ready)

    waiter_out :
        (k : Kernel) (a : ℕ)
        → has a ws ≡ true
        → (has a (insert_spec sort (at.tnode mutex) ps k).0 ≡ false) × (a ≢ at.tnode mutex)
    waiter_out k a is =
        let inside : has a (x ∷ ws) ≡ true = ground (arith, is) in
        let ne = tnode_out a (h.queue_apart a inside) in
        (
          not_has-insert sort (at.tnode mutex) a ps k (not_has a (x ∷ ws) ps (h.new_queue a) inside)
              ne,
          ne,
        )

    -- The other mutexes of the list `old` stay there.
    left_out : (a : ℕ) → has a (erase (at.tnode mutex) os) ≡ true → a ≢ at.tnode mutex
    left_out a is e =
        let p = IsSplit-of_has (at.tnode mutex) os h.inside in
        let d = h.old_owned.glist.linked.distinct in
        let gone : has (at.tnode mutex) (erase (at.tnode mutex) os) ≡ false =
          rw p.rest (IsDistinct-erase p.before p.behind (at.tnode mutex) (rw p.whole at d)).1 in
        false≢true (sym gone ∙ ap (λ b. has b (erase (at.tnode mutex) os)) (sym e) ∙ is)

    old_left :
        (k : Kernel) {g f q : Mem Kernel}
        → IsChanged m g old (at.tnode mutex) (erase (at.tnode mutex) os) m.objects
        → IsChanged g f (at.lock_queue mutex) x (erase x (x ∷ ws)) g.objects
        → IsChanged
            (with_objects k f)
            q
            (at.owned_mutexs x)
            (at.tnode mutex)
            (insert_spec sort (at.tnode mutex) ps k).0
            (insert_spec sort (at.tnode mutex) ps k).1
        → IsGlist q old (erase (at.tnode mutex) os)
    old_left k {g} {f} {q} c d e =
        let rest = erase (at.tnode mutex) os in
        IsGlist-kept e old (λ z. h.new_ne_old (sym z)) rest
          (λ a is.
            let inside = has_of_erase a (at.tnode mutex) os is in
            (
              not_has-insert sort (at.tnode mutex) a ps k (not_has a os ps (h.new_apart a) inside)
                  (left_out a is),
              left_out a is,
            ))
          (IsGlist-objects k f old rest (
            IsGlist-kept d old (λ z. h.queue_ne_old (sym z)) rest
              (λ a is.
                let out =
                  not_has a os (x ∷ ws) (h.queue_apart a) (has_of_erase a (at.tnode mutex) os is) in
                (not_has-erase a x (x ∷ ws) out, ne_of_head a x ws out))
              c.glist))

    -- Then the node of the mutex put among those of `x`.
    granted_lem :
        (k : Kernel) {g f q : Mem Kernel}
        → k ≡ granted
        → IsGlist q old (erase (at.tnode mutex) os)
        → IsChanged g f (at.lock_queue mutex) x (erase x (x ∷ ws)) g.objects
        → IsChanged
            (with_objects k f)
            q
            (at.owned_mutexs x)
            (at.tnode mutex)
            (insert_spec sort (at.tnode mutex) ps k).0
            (insert_spec sort (at.tnode mutex) ps k).1
        → IsGranted q
    granted_lem k {g} {f} {q} same left d e = record {
      left = left;
      objects = e.objects ∙ insert_spec-pure sort (at.tnode mutex) ps k h.is_pure ∙ same;
      waiters = IsGlist-kept e (at.lock_queue mutex) h.queue_ne_new ws (waiter_out k) (
          IsGlist-objects k f (at.lock_queue mutex) ws
            (subst (IsGlist f (at.lock_queue mutex)) (erase-head x ws) d.glist));
      owned =
          subst (λ o. IsGlist q (at.owned_mutexs x) (insert_spec sort (at.tnode mutex) ps o).0) same
            e.glist;
    }

    after_first :
        (sleepers tasks : Ptr) (call_handler : ℕ → ℕ → ℕ → Cmd Kernel (Unit {0})) (r : Ptr)
        {g f : Mem Kernel}
        → r ≡ x
        → IsChanged m g old (at.tnode mutex) (erase (at.tnode mutex) os) m.objects
        → IsChanged g f (at.lock_queue mutex) x (erase x (x ∷ ws)) g.objects
        → Returns
            (λ r g. (r ≡ x) × IsGranted g)
            (grant_first at sleepers tasks call_handler mutex r f)
    unfolding grant_first
    after_first sleepers tasks call_handler r {g} {f} e c d =
        let x_ne : x ≢ null = ne_null_of_linked [] x ws h.waiters.glist.linked in
        let same : f.objects ≡ m.objects = d.objects ∙ c.objects in
        let k = set_mutex mutex (λ r. record r { owner = x }) f.objects in
        let list_same =
          d.others (at.owned_mutexs x) (λ q. h.queue_ne_new (sym q))
          ∙ c.others (at.owned_mutexs x) h.new_ne_old in
        let quiet : (f.objects.timeout (at.node_of x)).set ≡ false =
          ap (λ o. (o.timeout (at.node_of x)).set) same ∙ h.no_timeout in
        rw (e, ==_ne x_ne, quiet)
          (Returns-bind {P = λ _ q. IsGranted q}
            (Returns-bind
              (insert_object-sorted (with_objects k f) (at.owned_mutexs x) (at.tnode mutex) ps sort
                (ap (λ l. l.kind) list_same ∙ h.kind) (ap (λ l. l.list_sort) list_same ∙ h.sorted)
                (IsReady-objects k f (at.owned_mutexs x) (at.tnode mutex) ps (ready_left c d)))
              λ r q (e2, q2). returns (
                granted_lem k (ap (λ o. set_mutex mutex (λ r. record r { owner = x }) o) same)
                  (old_left k c d q2) d q2))
            λ u q t. returns (refl, t))

    -- With well formed lists that share no node, `x` the first of the tasks that wait, no
    -- timeout set for it, and a sort function that writes nothing, `MutexUnlock` makes `x`
    -- the owner: the other tasks still wait, the mutex is no longer among those of the old
    -- owner, whose others stay, and is among those of `x`, in the order of their list.
    pub grant-first :
        (sleepers tasks : Ptr) (call_handler : ℕ → ℕ → ℕ → Cmd Kernel (Unit {0}))
        → Returns (λ r g. (r ≡ x) × IsGranted g) (grant at sleepers tasks call_handler mutex m)
    unfolding grant
    grant-first sleepers tasks call_handler =
        let x_ne : x ≢ null = ne_null_of_linked [] x ws h.waiters.glist.linked in
        let tnode = at.tnode mutex in
        let queue = at.lock_queue mutex in
        Returns-bind {P = λ _ g. IsChanged m g old tnode (erase tnode os) m.objects}
          (Returns-bind (remove_specific-erase m old os h.old_owned tnode h.old_kind h.inside)
            λ r g (e, c). returns c)
          λ u g c.
            Returns-bind (remove_first-erase g queue (x ∷ ws) (waiters_left c) (omega arith))
              λ r f (e, d).
                after_first sleepers tasks call_handler r e c
                  (subst (λ q. IsChanged g f queue q (erase q (x ∷ ws)) g.objects) e d)
