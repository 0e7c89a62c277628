-- ===== src/Glist/Remove.antt =====
-- `GlistRemoveSpecific`, `GlistRemoveFirst` and `GlistRemoveObject` on a linear list or a queue
-- whose lock is free.
use ukernel_mp.Base.{
  ℕ, suc, ◌≡◌, ◌≢◌, ◌<◌, refl, sym, ap, ◌∙◌, true, false, List, ◌∷◌, ◌==◌, arith, update_ne,
  update_self, ==_ne, head_or, has, has-head, erase, has_of_erase, IsSplit-of_has, length,
  length-append, ltb, ne_of_has, IsDistinct-erase,
}
use ukernel_mp.Glist.Heap.{
  Ptr, null, no_writer, GlistType, g_list, g_circular_list, g_fifo, g_lifo, Mem, ok,
}
use ukernel_mp.Glist.Lock.{lock_free, write_unlock}
use ukernel_mp.Glist.Link.{e_ok, dec32}
use ukernel_mp.Glist.Unlink.{glist_remove_node}
use ukernel_mp.Glist.Api.{remove_handler, glist_remove_specific, glist_remove_first}
use ukernel_mp.Glist.Inv.{
  IsGlist, with_count, with_objects, IsLinked-objects, Returns, returns, Returns-bind,
}
use ukernel_mp.Glist.Removed.{Removed, glist_remove_node_lem}
use ukernel_mp.Glist.Unlocked.{write_lock_free, write_unlock_free, get_first_free}
use ukernel_mp.Glist.Object.{IsChanged, detached, masked, IsLinked-detached, IsLinked-masked}

module _ {S : Type 0} (m : Mem S) (l : Ptr) (xs : List ℕ) where
  -- The list is well formed and its lock free.
  pub record IsOpen : Type 0 where
    pub glist : IsGlist m l xs
    pub free : (m.list l).lock ≡ lock_free
    pub cpu : m.cpu ≢ no_writer

module _ {S : Type 0} {m : Mem S} {l : Ptr} {xs : List ℕ} (node : Ptr) (s : S) (up : IsOpen m l xs)
    (is : has node xs ≡ true) where
  -- What `GlistRemoveNode` is given, and what it has done.
  abbrev pub start : Mem S
  start = masked (with_objects s m)

  pub unlinked : Returns (Removed start l node (erase node xs)) (glist_remove_node l node start)
  unlinked =
      let p = IsSplit-of_has node xs is in
      rw p.rest (
        glist_remove_node_lem start l node p.before p.behind
          (rw p.whole at (IsLinked-masked (IsLinked-objects s up.glist.linked))))

  fewer : suc (length (erase node xs)) ≡ length xs
  fewer =
      let p = IsSplit-of_has node xs is in
      omega (
        arith,
        ap length p.rest,
        ap length p.whole,
        length-append p.before p.behind,
        length-append p.before (node ∷ p.behind),
      )

  module _ (g : Mem S) (u : Unit {0}) (removed : Removed start l node (erase node xs) u g) where
    at :
        (with_count l (dec32 (m.list l).count) m).list l
        ≡ record (m.list l) { count = dec32 (m.list l).count }
    at = update_self m.list l _

    pub still_free : (g.list l).lock ≡ lock_free
    still_free = removed.1.lock ∙ ap (λ h. h.lock) at ∙ up.free

    one_less : (g.list l).count ≡ length (erase node xs)
    one_less =
        omega (arith, removed.1.count ∙ ap (λ h. h.count) at, up.glist.count, fewer, up.glist.small)

    gone : has node (erase node xs) ≡ false
    gone =
        let p = IsSplit-of_has node xs is in
        rw p.rest
          (IsDistinct-erase p.before p.behind node (rw p.whole at up.glist.linked.distinct)).1

    pub removed-IsChanged : IsChanged m (detached node null g) l node (erase node xs) s
    removed-IsChanged = record {
      glist = record {
        linked = IsLinked-detached node null gone removed.0;
        count = one_less;
        small = omega (arith, fewer, up.glist.small);
        owned = λ a h.
            update_ne g.owner null (λ e. ne_of_has node a (erase node xs) gone h (sym e))
            ∙ ap (λ f. f a) removed.1.owner
            ∙ up.glist.owned a (has_of_erase a node xs h);
      };
      objects = removed.1.objects;
      cpu = removed.1.cpu;
      masked = removed.1.masked;
      lock = still_free;
      kind = removed.1.kind ∙ ap (λ h. h.kind) at;
      list_sort = removed.1.list_sort ∙ ap (λ h. h.list_sort) at;
      list_cmp = removed.1.list_cmp ∙ ap (λ h. h.list_cmp) at;
      others = λ q ne. removed.1.others q ne ∙ update_ne m.list _ ne;
      nodes = λ a o ne. (
        update_ne g.next null ne ∙ (removed.1.nodes a o).0,
        update_ne g.prev null ne ∙ (removed.1.nodes a o).1,
        update_ne g.owner null ne ∙ ap (λ f. f a) removed.1.owner,
      );
    }

module _ {S : Type 0} where
  pub remove_handler-linear :
      (t : GlistType) (l node : Ptr) (m : Mem S)
      → t ≢ g_circular_list
      → remove_handler t l node m ≡ glist_remove_node l node m
  unfolding remove_handler
  remove_handler-linear g_list l node m ne = refl
  remove_handler-linear g_circular_list l node m ne = absurd (ne refl)
  remove_handler-linear g_fifo l node m ne = refl
  remove_handler-linear g_lifo l node m ne = refl

module _ {S : Type 0} (m : Mem S) (l : Ptr) (xs : List ℕ) (up : IsOpen m l xs) where
  pub unlock :
      (g : Mem S)
      → (g.list l).lock ≡ lock_free
      → g.cpu ≡ m.cpu
      → write_unlock l m.masked g ≡ ok tt g
  unlock g free cpu =
      write_unlock_free g l up.glist.linked.list free m.masked (λ e. up.cpu (sym cpu ∙ e))

  -- On a list that is not circular, well formed and with a free lock, `GlistRemoveSpecific` of
  -- one of its nodes takes that node out, and reports success.
  pub remove_specific-erase :
      (node : Ptr)
      → (m.list l).kind ≢ g_circular_list
      → has node xs ≡ true
      → Returns
          (λ r g. (r ≡ e_ok) × IsChanged m g l node (erase node xs) m.objects)
          (glist_remove_specific node m)
  unfolding glist_remove_specific
  remove_specific-erase node linear is =
      let k = up.glist.linked in
      let ne : node ≢ null = λ e. ne_of_has null node xs k.nonnull is (sym e) in
      simp (==_ne ne, up.glist.owned node is, ==_ne k.list)
        (rw (write_lock_free m l k.list up.free) (
          rw (==_ne k.list, remove_handler-linear (m.list l).kind l node (masked m) linear)
            (Returns-bind (unlinked node m.objects up is) λ u g r.
              let less : ltb (g.list l).count (m.list l).count ≡ true = ground (
                arith,
                one_less node m.objects up is g u r,
                fewer node m.objects up is,
                up.glist.count,
              ) in
              rw (unlock g (still_free node m.objects up is g u r) r.1.cpu) (
                simp (==_ne ne, ==_ne k.list, less)
                  (returns (refl, removed-IsChanged node m.objects up is g u r))))))

  -- On a list that is linked as a linear one, with a free lock and something in it,
  -- `GlistRemoveFirst` takes the first node out and returns it, whatever the type of the list
  -- says.
  pub remove_first-erase :
      0 < length xs
      → Returns
          (λ r g. (r ≡ head_or xs null) × IsChanged m g l r (erase r xs) m.objects)
          (glist_remove_first l m)
  unfolding glist_remove_first
  remove_first-erase some_node =
      let k = up.glist.linked in
      let is = has-head xs some_node in
      let ne : head_or xs null ≢ null =
        λ e. ne_of_has null (head_or xs null) xs k.nonnull is (sym e) in
      let full : ((m.list l).count == 0) ≡ false = ground (arith, up.glist.count) in
      simp (==_ne k.list, full)
        (rw (write_lock_free m l k.list up.free) (
          rw (get_first_free (masked m) l k.list up.free, k.first)
            (Returns-bind (unlinked (head_or xs null) m.objects up is) λ u g r.
              rw (unlock g (still_free (head_or xs null) m.objects up is g u r) r.1.cpu) (
                simp (==_ne ne)
                  (returns (refl, removed-IsChanged (head_or xs null) m.objects up is g u r))))))

  -- Of an empty list it returns NULL and changes nothing.
  pub remove_first-nil : length xs ≡ 0 → glist_remove_first l m ≡ ok null m
  unfolding glist_remove_first
  remove_first-nil none_left =
      let empty : ((m.list l).count == 0) ≡ true = ground (arith, up.glist.count) in
      simp (==_ne up.glist.linked.list, empty)
