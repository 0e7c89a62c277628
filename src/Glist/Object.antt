-- ===== src/Glist/Object.antt =====
-- What the exported functions of lib/glist.c do to a list whose lock is free.
use ukernel_mp.Base.{
  ℕ, suc, ◌≡◌, ◌≢◌, ◌<◌, ◌^◌, refl, sym, ap, ◌∙◌, true, false, some, inl, inr, ◌⊎◌, ℤ, List, [],
  ◌∷◌, ◌++◌, arith, update, update_ne, update_self, ℕ_discrete, ==_ne, has, length, length-append,
  has-append,
}
use ukernel_mp.Glist.Heap.{Ptr, null, no_writer, g_list, g_fifo, g_lifo, Mem}
use ukernel_mp.Glist.Lock.{lock_free}
use ukernel_mp.Glist.Chain.{Nexts-update, Prevs-update}
use ukernel_mp.Glist.Link.{e_ok, inc32, gqueue_insert}
use ukernel_mp.Glist.Api.{insert_handler, glist_insert_object}
use ukernel_mp.Glist.Inv.{IsLinked, IsGlist, with_count, Returns, returns, Returns-bind}
use ukernel_mp.Glist.Inserted.{Inserted}
use ukernel_mp.Glist.Sorted.{insert_spec, glist_insert_lem}
use ukernel_mp.Glist.Queue.{gqueue_insert_lem}
use ukernel_mp.Glist.Unlocked.{write_lock_free, write_unlock_free}

module _ {S : Type 0} where
  -- `g` is `m` with the list at `l` turned into `xs` and the objects into `s`; the interrupts are
  -- masked. `node` is the node that moved.
  pub record IsChanged (m g : Mem S) (l node : Ptr) (xs : List ℕ) (s : S) : Type 0 where
    pub glist : IsGlist g l xs
    pub objects : g.objects ≡ s
    pub cpu : g.cpu ≡ m.cpu
    pub masked : g.masked ≡ true
    pub lock : (g.list l).lock ≡ lock_free
    pub kind : (g.list l).kind ≡ (m.list l).kind
    pub list_sort : (g.list l).list_sort ≡ (m.list l).list_sort
    pub list_cmp : (g.list l).list_cmp ≡ (m.list l).list_cmp
    pub others : (q : Ptr) → q ≢ l → g.list q ≡ m.list q
    pub nodes :
        (a : ℕ)
        → has a xs ≡ false
        → a ≢ node
        → (g.next a ≡ m.next a) × (g.prev a ≡ m.prev a) × (g.owner a ≡ m.owner a)

  -- After `node->owner = o; node->next = NULL; node->prev = NULL`.
  abbrev pub detached : Ptr → Ptr → Mem S → Mem S
  detached node o m = record m {
    owner = update m.owner node o;
    next = update m.next node null;
    prev = update m.prev node null;
  }

  pub IsLinked-detached :
      {m : Mem S} {l : Ptr} {xs : List ℕ} (node o : Ptr)
      → has node xs ≡ false
      → IsLinked m l xs
      → IsLinked (detached node o m) l xs
  IsLinked-detached {m} {xs} node o out k = record {
    list = k.list;
    first = k.first;
    last = k.last;
    nexts = Nexts-update m.next xs null node null k.nexts out;
    prevs = Prevs-update m.prev null xs node null k.prevs out;
    distinct = k.distinct;
    nonnull = k.nonnull;
  }

  -- The interrupts masked.
  abbrev pub masked : Mem S → Mem S
  masked m = record m { masked = true }

  pub IsLinked-masked :
      {m : Mem S} {l : Ptr} {xs : List ℕ} → IsLinked m l xs → IsLinked (masked m) l xs
  IsLinked-masked k = record {
    list = k.list;
    first = k.first;
    last = k.last;
    nexts = k.nexts;
    prevs = k.prevs;
    distinct = k.distinct;
    nonnull = k.nonnull;
  }

module _ {S : Type 0} (m : Mem S) (l node : Ptr) (xs : List ℕ) where
  -- What every insertion needs: the list well formed and its lock free, a node that is in no list,
  -- and room in the count.
  pub record IsReady : Type 0 where
    pub glist : IsGlist m l xs
    pub free : (m.list l).lock ≡ lock_free
    pub cpu : m.cpu ≢ no_writer
    pub is_node : node ≢ null
    pub new : has node xs ≡ false
    pub room : suc (length xs) < 2 ^ 31

  -- A handler that inserts makes `GlistInsertObject` do so.
  insert_object-handler :
      (ys : List ℕ) (s : S)
      → IsReady
      → length ys ≡ suc (length xs)
      → ((a : ℕ) → has a ys ≡ true → a ≢ node → has a xs ≡ true)
      → Returns
          (Inserted (masked (detached node l m)) l (ys, s))
          (insert_handler (m.list l).kind l node (masked (detached node l m)))
      → Returns (λ r g. (r ≡ e_ok) × IsChanged m g l node ys s) (glist_insert_object l node m)
  unfolding glist_insert_object
  insert_object-handler ys s ready len old run =
      let k = ready.glist.linked in
      simp (==_ne k.list, ==_ne ready.is_node)
        (rw (write_lock_free (detached node l m) l k.list ready.free) (
          simp (==_ne k.list) (
            Returns-bind run λ r g (ret, linked, kept).
              let at : (with_count l (inc32 (m.list l).count) m).list l
                  ≡ record (m.list l) { count = inc32 (m.list l).count } =
                update_self m.list l _ in
              let lock = kept.lock ∙ ap (λ h. h.lock) at ∙ ready.free in
              rw (write_unlock_free g l k.list lock m.masked (λ e. ready.cpu (sym kept.cpu ∙ e))) (
                returns (
                  ret,
                  record {
                    glist = record {
                      linked = linked;
                      count = omega (arith, kept.count ∙ ap (λ h. h.count) at);
                      small = omega arith;
                      owned = λ a is. ap (λ f. f a) kept.owner ∙ elim (ℕ_discrete a node) [
                        | yes e ↦ ap (update m.owner node l) e ∙ update_self m.owner node l
                        | no ne ↦ update_ne m.owner l ne ∙ ready.glist.owned a (old a is ne)
                      ];
                    };
                    objects = kept.objects;
                    cpu = kept.cpu;
                    masked = kept.masked;
                    lock = lock;
                    kind = kept.kind ∙ ap (λ h. h.kind) at;
                    list_sort = kept.list_sort ∙ ap (λ h. h.list_sort) at;
                    list_cmp = kept.list_cmp ∙ ap (λ h. h.list_cmp) at;
                    others = λ q ne. kept.others q ne ∙ update_ne m.list _ ne;
                    nodes = λ a o ne. (
                      (kept.nodes a o).0 ∙ update_ne m.next null ne,
                      (kept.nodes a o).1 ∙ update_ne m.prev null ne,
                      ap (λ f. f a) kept.owner ∙ update_ne m.owner l ne,
                    );
                  },
                )))))

module _ {S : Type 0} (sort : Ptr → Ptr → S → ℤ × S) (node : Ptr) where
  length-insert_spec :
      (xs : List ℕ) (s : S) → length (insert_spec sort node xs s).0 ≡ suc (length xs)
  unfolding insert_spec
  length-insert_spec [] s = refl
  length-insert_spec (x ∷ xs) s = ground (arith, length-insert_spec xs (sort x node s).1)

  pub has-insert_spec :
      (xs : List ℕ) (s : S) (a : ℕ)
      → has a (insert_spec sort node xs s).0 ≡ true
      → a ≢ node
      → has a xs ≡ true
  unfolding insert_spec
  has-insert_spec [] s a is ne = ground arith
  has-insert_spec (x ∷ xs) s a is ne = ground (arith, has-insert_spec xs (sort x node s).1 a)

module _ {S : Type 0} (m : Mem S) (l node : Ptr) (xs : List ℕ) where
  -- On a linear list with a sort function, well formed and with a free lock,
  -- `GlistInsertObject` of a node that is in no list returns `E_OK` with the node in front of
  -- the first that does not compare as positive; the other lists and nodes are left alone, the
  -- interrupts masked.
  pub insert_object-sorted :
      (sort : Ptr → Ptr → S → ℤ × S)
      → (m.list l).kind ≡ g_list
      → (m.list l).list_sort ≡ some sort
      → IsReady m l node xs
      → Returns
          (λ r g.
            (r ≡ e_ok)
            × IsChanged m g l node
                (insert_spec sort node xs m.objects).0
                (insert_spec sort node xs m.objects).1)
          (glist_insert_object l node m)
  unfolding insert_handler
  insert_object-sorted sort kind sorted ready =
      insert_object-handler m l node xs _ _ ready (length-insert_spec sort node xs m.objects)
        (has-insert_spec sort node xs m.objects)
        (rw kind (
          glist_insert_lem sort node (masked (detached node l m)) l xs
            (IsLinked-masked (IsLinked-detached node l ready.new ready.glist.linked))
            ready.glist.count sorted ready.is_node ready.new))

  -- On a queue of either kind, well formed and with a free lock, `GlistInsertObject` of a node
  -- that is in no list puts it behind all others.
  pub insert_object-queue :
      ((m.list l).kind ≡ g_fifo) ⊎ ((m.list l).kind ≡ g_lifo)
      → IsReady m l node xs
      → Returns
          (λ r g. (r ≡ e_ok) × IsChanged m g l node (xs ++ node ∷ []) m.objects)
          (glist_insert_object l node m)
  unfolding insert_handler
  insert_object-queue kind ready =
      insert_object-handler m l node xs _ _ ready (omega (arith, length-append xs (node ∷ [])))
        (λ a is ne. ground (arith, has-append a xs (node ∷ [])))
        (elim kind [ inl e ↦ rw e queued | inr e ↦ rw e queued ])
    where
      queued :
          Returns
            (Inserted (masked (detached node l m)) l (xs ++ node ∷ [], m.objects))
            (gqueue_insert l node (masked (detached node l m)))
      queued =
          gqueue_insert_lem node (masked (detached node l m)) l xs
            (IsLinked-masked (IsLinked-detached node l ready.new ready.glist.linked)) ready.is_node
            ready.new
