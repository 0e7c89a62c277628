-- ===== src/Glist/Removed.antt =====
-- `GlistRemoveNode` takes a node out of the list that holds it.
use ukernel_mp.Base.{
  ℕ, ◌≡◌, refl, sym, ap, ◌∙◌, List, [], ◌∷◌, ◌++◌, update_ne, update_self, update-update, ==_refl,
  ==_ne, last_or, has-erase, last_or-ne, last_or-insert, ne_of_has_append, ne_of_head,
  IsDistinct-erase, IsDistinct-append, has-append_false, ne_of_has, has-last_or,
}
use mathlib.Core.List.{append-nil}
use ukernel_mp.Glist.Heap.{Ptr, null, Mem}
use ukernel_mp.Glist.Chain.{Nexts-split, Prevs-split, Nexts-relink, Prevs-relink}
use ukernel_mp.Glist.Relink.{Nexts-unlink, Prevs-unlink}
use ukernel_mp.Glist.Link.{dec32}
use ukernel_mp.Glist.Unlink.{unlink_node, glist_remove_node}
use ukernel_mp.Glist.Inv.{
  IsLinked, IsKept, ne_null_of_linked, IsKept-ends, IsKept-nodes, with_count, IsLinked-count,
  IsKept-count, Spliced, Returns, returns, Returns-bind, ne_null_of_linked_behind,
}

module _ {S : Type 0} (m : Mem S) (l node : Ptr) where
  -- The list holds `xs`, the count is one down, and nothing else has changed.
  abbrev pub Removed : List ℕ → Unit {0} → Mem S → Type 0
  Removed xs _ g = IsLinked g l xs × IsKept (with_count l (dec32 (m.list l).count) m) g l xs

  unlink_node_lem :
      (xs ys : List ℕ)
      → IsLinked m l (xs ++ node ∷ ys)
      → Returns (Spliced m l (xs ++ ys)) (unlink_node l node m)
  unfolding unlink_node
  unlink_node_lem [] [] k =
      let ne = ne_null_of_linked [] node [] k in
      simp (==_ne k.list, ==_ne ne, k.nexts.0, k.prevs.0, ==_refl l, update-update)
        (returns (
          record {
            list = k.list;
            first = ap (λ g. g.first) (update_self m.list l _);
            last = ap (λ g. g.last) (update_self m.list l _);
            nexts = tt;
            prevs = tt;
            distinct = tt;
            nonnull = refl;
          },
          IsKept-ends m l [] _ _ null null λ a o. (refl, refl),
        ))
  unlink_node_lem [] (y ∷ ys) k =
      let ne = ne_null_of_linked [] node (y ∷ ys) k in
      let y_ne = ne_null_of_linked (node ∷ []) y ys k in
      simp (==_ne k.list, ==_ne ne, k.nexts.0, k.prevs.0, ==_ne y_ne)
        (returns (
          record {
            list = k.list;
            first = ap (λ g. g.first) (update_self m.list l _);
            last = ap (λ g. g.last) (update_self m.list l _) ∙ k.last;
            nexts = k.nexts.1;
            prevs = Prevs-relink m.prev node y ys null k.prevs.1 k.distinct.1.0;
            distinct = k.distinct.1;
            nonnull = has-erase null [] node (y ∷ ys) k.nonnull;
          },
          IsKept-ends m l (y ∷ ys) _ _ y (m.list l).last
              λ a o. (refl, update_ne m.prev _ (ne_of_head a y ys o)),
        ))
  unlink_node_lem (x ∷ xs) [] k =
      let ne = ne_null_of_linked (x ∷ xs) node [] k in
      let back = Prevs-split m.prev null (x ∷ xs) (node ∷ []) k.prevs in
      let front = Nexts-split m.next (x ∷ xs) (node ∷ []) null k.nexts in
      let at = back.1.0 in
      let to = front.1.0 in
      let apart = IsDistinct-append (x ∷ xs) (node ∷ []) k.distinct in
      let last_ne = last_or-ne null x xs (node ∷ []) k.nonnull in
      simp (==_ne k.list, ==_ne ne, at, to, ==_ne last_ne)
        (rw append-nil (
          returns (
            record {
              list = k.list;
              first = ap (λ g. g.first) (update_self m.list l _) ∙ k.first;
              last = ap (λ g. g.last) (update_self m.list l _);
              nexts = Nexts-relink m.next x xs node null front.0 apart.0;
              prevs = back.0;
              distinct = apart.0;
              nonnull = (has-append_false null (x ∷ xs) (node ∷ []) k.nonnull).0;
            },
            IsKept-ends m l (x ∷ xs) _ _ (m.list l).first (last_or x xs) λ a o. (
              update_ne m.next _ (ne_of_has a (last_or x xs) (x ∷ xs) o (has-last_or x xs)),
              refl,
            ),
          )))
  unlink_node_lem (x ∷ xs) (y ∷ ys) k =
      let ne = ne_null_of_linked (x ∷ xs) node (y ∷ ys) k in
      let at = (Prevs-split m.prev null (x ∷ xs) (node ∷ y ∷ ys) k.prevs).1.0 in
      let to = (Nexts-split m.next (x ∷ xs) (node ∷ y ∷ ys) null k.nexts).1.0 in
      let last_ne = last_or-ne null x xs (node ∷ y ∷ ys) k.nonnull in
      let y_ne = ne_null_of_linked_behind (x ∷ xs) node y ys k in
      simp (==_ne ne, at, to, ==_ne last_ne, ==_ne y_ne)
        (returns (
          record {
            list = k.list;
            first = k.first;
            last = k.last ∙ last_or-insert null (x ∷ xs) node y ys;
            nexts = Nexts-unlink m.next x xs node (y ∷ ys) null k.nexts k.distinct;
            prevs = Prevs-unlink m.prev null (x ∷ xs) node y ys k.prevs k.distinct;
            distinct = (IsDistinct-erase (x ∷ xs) (y ∷ ys) node k.distinct).0;
            nonnull = has-erase null (x ∷ xs) node (y ∷ ys) k.nonnull;
          },
          IsKept-nodes m l (x ∷ xs ++ y ∷ ys) _ _ λ a o. (
            update_ne m.next _ (λ e. last_or-ne a x xs (y ∷ ys) o (sym e)),
            update_ne m.prev _ (ne_of_has_append a (x ∷ xs) y ys o),
          ),
        ))

  -- The node is gone, and the nodes around it follow one another.
  pub glist_remove_node_lem :
      (xs ys : List ℕ)
      → IsLinked m l (xs ++ node ∷ ys)
      → Returns (Removed (xs ++ ys)) (glist_remove_node l node m)
  unfolding glist_remove_node
  glist_remove_node_lem xs ys k = Returns-bind (unlink_node_lem xs ys k) λ u g (linked, kept).
      let c : dec32 (g.list l).count ≡ dec32 (m.list l).count = ap dec32 kept.count in
      simp (==_ne k.list, c)
        (returns (
          IsLinked-count (dec32 (m.list l).count) linked,
          IsKept-count (dec32 (m.list l).count) kept,
        ))
