-- ===== src/Glist/Lookup.antt =====
-- `GlistRemoveObject` on a linear list or a queue whose lock is free.
use ukernel_mp.Base.{
  ℕ, ◌≡◌, ◌≢◌, ◌<◌, refl, sym, ap, ◌∙◌, Bool, true, some, ℤ, List, [], ◌∷◌, ◌==◌, if◌then◌else◌,
  arith, ==_ne, head_or, last_or, has, has-head, has-last, erase, length, ne_of_has,
}
use ukernel_mp.Glist.Heap.{
  Run, Ptr, null, g_list, g_fifo, g_lifo, Mem, ok, g_circular_list, Cmd, pure, ◌>>=◌, ◌>>◌,
  get_list,
}
use ukernel_mp.Glist.Lock.{write_unlock}
use ukernel_mp.Glist.Api.{glist_pick, remove_handler, glist_remove_object, detach}
use ukernel_mp.Glist.Inv.{with_objects, Returns, returns, Returns-bind}
use ukernel_mp.Glist.Search.{search_spec, glist_search_lem}
use ukernel_mp.Glist.Unlocked.{write_lock_free, get_first_free, get_last_free}
use ukernel_mp.Glist.Object.{IsChanged, masked, IsLinked-masked}
use ukernel_mp.Glist.Remove.{
  IsOpen, unlinked, still_free, removed-IsChanged, remove_handler-linear, unlock,
}

module _ {S : Type 0} (cmp : Ptr → ℕ → S → ℤ × S) (v : ℕ) where
  has-search_spec :
      (xs : List ℕ) (s : S)
      → (search_spec cmp v xs s).0 ≢ null
      → has (search_spec cmp v xs s).0 xs ≡ true
  unfolding search_spec
  has-search_spec [] s ne = absurd (ne refl)
  has-search_spec (x ∷ xs) s ne = ground (arith, has-search_spec xs (cmp x v s).1)

eq_of_Returns :
    {S A : Type 0} {a : A} {b : Mem S} {r : Run S A}
    → Returns (λ x g. (x ≡ a) × (g ≡ b)) r
    → r ≡ ok a b
eq_of_Returns (returns (p, q)) = rw (p, q)

module _ {S : Type 0} (m : Mem S) (l : Ptr) (xs : List ℕ) (up : IsOpen m l xs) where
  -- The function from the choice of the node on.
  abbrev removal : Bool → Ptr → Cmd S Ptr
  removal status node = if node == null then pure null else (do
    g ← get_list l
    remove_handler g.kind l node
    write_unlock l status
    detach node null
    pure node)

  removal-IsChanged :
      (node : Ptr) (s : S)
      → (m.list l).kind ≢ g_circular_list
      → has node xs ≡ true
      → Returns
          (λ r g. (r ≡ node) × IsChanged m g l node (erase node xs) s)
          (removal m.masked node (masked (with_objects s m)))
  removal-IsChanged node s linear is =
      let k = up.glist.linked in
      let ne : node ≢ null = λ e. ne_of_has null node xs k.nonnull is (sym e) in
      rw
        (
          ==_ne ne,
          ==_ne k.list,
          remove_handler-linear (m.list l).kind l node (masked (with_objects s m)) linear,
        )
        (Returns-bind (unlinked node s up is) λ u g r.
          rw (unlock m l xs up g (still_free node s up is g u r) r.1.cpu)
            (simp (==_ne ne) (returns (refl, removed-IsChanged node s up is g u r))))

  -- What the function makes of a choice.
  remove_object-removal :
      (v : ℕ) (node : Ptr) (s : S)
      → glist_pick l v (masked m) ≡ ok node (masked (with_objects s m))
      → glist_remove_object l v m ≡ removal m.masked node (masked (with_objects s m))
  unfolding glist_remove_object
  remove_object-removal v node s pick =
      let k = up.glist.linked in simp (==_ne k.list) (rw (write_lock_free m l k.list up.free, pick))

  -- On a FIFO with something in it and a free lock `GlistRemoveObject` takes out and returns
  -- the first node, whatever the value.
  pub remove_object-fifo :
      (v : ℕ)
      → (m.list l).kind ≡ g_fifo
      → 0 < length xs
      → Returns
          (λ r g.
            (r ≡ head_or xs null)
            × IsChanged m g l (head_or xs null) (erase (head_or xs null) xs) m.objects)
          (glist_remove_object l v m)
  unfolding glist_pick
  remove_object-fifo v kind some_node =
      let k = up.glist.linked in
      rw
        (remove_object-removal v (head_or xs null) m.objects (
          rw (==_ne k.list, kind)
            (get_first_free (masked m) l k.list up.free ∙ ap (λ p. ok p (masked m)) k.first)))
        (removal-IsChanged (head_or xs null) m.objects (λ e. cc (sym kind ∙ e))
          (has-head xs some_node))

  -- On a LIFO with something in it and a free lock `GlistRemoveObject` takes out and returns
  -- the last node, whatever the value.
  pub remove_object-lifo :
      (v : ℕ)
      → (m.list l).kind ≡ g_lifo
      → 0 < length xs
      → Returns
          (λ r g.
            (r ≡ last_or null xs)
            × IsChanged m g l (last_or null xs) (erase (last_or null xs) xs) m.objects)
          (glist_remove_object l v m)
  unfolding glist_pick
  remove_object-lifo v kind some_node =
      let k = up.glist.linked in
      rw
        (remove_object-removal v (last_or null xs) m.objects (
          rw (==_ne k.list, kind)
            (get_last_free (masked m) l k.list up.free ∙ ap (λ p. ok p (masked m)) k.last)))
        (removal-IsChanged (last_or null xs) m.objects (λ e. cc (sym kind ∙ e))
          (has-last null xs some_node))

  module _ (cmp : Ptr → ℕ → S → ℤ × S) (v : ℕ) (kind : (m.list l).kind ≡ g_list)
      (has_cmp : (m.list l).list_cmp ≡ some cmp) where
    searched :
        glist_remove_object l v m
        ≡ removal m.masked
            (search_spec cmp v xs m.objects).0
            (masked (with_objects (search_spec cmp v xs m.objects).1 m))
    unfolding glist_pick
    searched = remove_object-removal v _ _ (
        rw (==_ne up.glist.linked.list, kind)
          (eq_of_Returns (
            glist_search_lem cmp v (masked m) l xs (IsLinked-masked up.glist.linked) up.glist.count
              up.glist.small has_cmp)))

    -- On a linear list with a free lock `GlistRemoveObject` takes out and returns the first
    -- node that compares as equal, if there is one.
    pub remove_object-found :
        (search_spec cmp v xs m.objects).0 ≢ null
        → Returns
            (λ r g.
              (r ≡ (search_spec cmp v xs m.objects).0)
              × IsChanged m g l
                  (search_spec cmp v xs m.objects).0
                  (erase (search_spec cmp v xs m.objects).0 xs)
                  (search_spec cmp v xs m.objects).1)
            (glist_remove_object l v m)
    remove_object-found found =
        rw searched (
          removal-IsChanged _ _ (λ e. cc (sym kind ∙ e)) (has-search_spec cmp v xs m.objects found))
