-- ===== src/Glist/Splice.antt =====
-- The two branches behind the loop of `GlistInsert` link the node at the place that was found.
use ukernel_mp.Base.{
  ℕ, ◌≡◌, ◌≢◌, refl, sym, ap, ◌∙◌, false, List, [], ◌∷◌, ◌++◌, arith, update, update_ne,
  update_self, update-update, update-update_ne, ==_refl, ==_ne, last_or, has, has-insert, has-erase,
  ne_of_head, ne_of_has_append, last_or-ne, last_or-insert, last_or-append, IsDistinct-insert,
}
use mathlib.Core.List.{append-nil}
use ukernel_mp.Glist.Heap.{Ptr, null, Mem}
use ukernel_mp.Glist.Chain.{Nexts-update, Prevs-split, Prevs-update, Prevs-relink}
use ukernel_mp.Glist.Relink.{Nexts-insert, Prevs-insert, Nexts-append_one, Prevs-append_one}
use ukernel_mp.Glist.Link.{link_before, link_back}
use ukernel_mp.Glist.Inv.{
  IsLinked, last-ne-null, ne_null_of_linked, IsKept-ends, IsKept-nodes, Spliced, Returns, returns,
}

-- A node outside the list is none of the three that the middle case writes to.
apart_of :
    (x : ℕ) (xs : List ℕ) (node it : ℕ) (ys : List ℕ) (a : ℕ)
    → has a (x ∷ xs ++ node ∷ it ∷ ys) ≡ false
    → (a ≢ last_or x xs) × (a ≢ node) × (a ≢ it)
apart_of x xs node it ys a o = (
  λ e. last_or-ne a x xs (node ∷ it ∷ ys) o (sym e),
  ne_of_has_append a (x ∷ xs) node (it ∷ ys) o,
  ne_of_has_append a (x ∷ xs) it ys (has-erase a (x ∷ xs) node (it ∷ ys) o),
)

module _ {S : Type 0} {m : Mem S} {l : Ptr} (node : Ptr) (fresh : node ≢ null) where
  link_before-head :
      (it : ℕ) (ys : List ℕ)
      → IsLinked m l (it ∷ ys)
      → has node (it ∷ ys) ≡ false
      → Returns (Spliced m l (node ∷ it ∷ ys)) (link_before l node it m)
  unfolding link_before
  link_before-head it ys k out =
      let it_ne : it ≢ null = ground arith in
      let p0 : m.prev it ≡ null = k.prevs.0 in
      simp (==_ne fresh, ==_ne it_ne, ==_ne k.list, p0)
        (returns (
          record {
            list = k.list;
            first = ground arith;
            last = ground (arith, k.last);
            nexts = (ground arith, Nexts-update m.next (it ∷ ys) null node it k.nexts out);
            prevs = (
              ground arith,
              Prevs-relink (update m.prev node null) null it ys node
                  (Prevs-update m.prev null (it ∷ ys) node null k.prevs out) k.distinct.0,
            );
            distinct = (out, k.distinct);
            nonnull = ground arith;
          },
          IsKept-ends m l (node ∷ it ∷ ys) _ _ node (m.list l).last
              λ a o. (ground arith, ground arith),
        ))

  -- In front of `it`, behind the nodes `x ∷ xs`.
  link_before-tail :
      (x : ℕ) (xs : List ℕ) (it : ℕ) (ys : List ℕ)
      → IsLinked m l (x ∷ xs ++ it ∷ ys)
      → has node (x ∷ xs ++ it ∷ ys) ≡ false
      → Returns (Spliced m l (x ∷ xs ++ node ∷ it ∷ ys)) (link_before l node it m)
  unfolding link_before
  link_before-tail x xs it ys k out =
      let it_ne : it ≢ null = ne_null_of_linked (x ∷ xs) it ys k in
      let at = (Prevs-split m.prev null (x ∷ xs) (it ∷ ys) k.prevs).1.0 in
      let last_ne = last_or-ne null x xs (it ∷ ys) k.nonnull in
      simp (==_ne fresh, ==_ne it_ne, at, ==_ne last_ne)
        (returns (
          record {
            list = k.list;
            first = k.first;
            last = k.last ∙ sym (last_or-insert null (x ∷ xs) node it ys);
            nexts = Nexts-insert m.next x xs (it ∷ ys) null node k.nexts k.distinct out;
            prevs = Prevs-insert m.prev null (x ∷ xs) it ys node k.prevs k.distinct out;
            distinct = IsDistinct-insert (x ∷ xs) (it ∷ ys) node k.distinct out;
            nonnull = has-insert null (x ∷ xs) node (it ∷ ys) (λ e. fresh (sym e)) k.nonnull;
          },
          IsKept-nodes m l (x ∷ xs ++ node ∷ it ∷ ys) _ _ λ a o.
              let (n_last, n_node, n_it) = apart_of x xs node it ys a o in
              (update-update_ne m.next _ _ n_node n_last, update-update_ne m.prev _ _ n_node n_it),
        ))

  -- In front of `it`: the node stands right before it.
  pub link_before_lem :
      (xs : List ℕ) (it : ℕ) (ys : List ℕ)
      → IsLinked m l (xs ++ it ∷ ys)
      → has node (xs ++ it ∷ ys) ≡ false
      → Returns (Spliced m l (xs ++ node ∷ it ∷ ys)) (link_before l node it m)
  link_before_lem [] it ys = link_before-head it ys
  link_before_lem (x ∷ xs) it ys = link_before-tail x xs it ys

  -- At the end.
  pub link_back_lem :
      (xs : List ℕ)
      → IsLinked m l xs
      → has node xs ≡ false
      → Returns (Spliced m l (xs ++ node ∷ [])) (link_back l node m)
  unfolding link_back
  link_back_lem [] k out =
      simp (==_ne fresh, ==_ne k.list, k.last, ==_refl l, update-update)
        (returns (
          record {
            list = k.list;
            first = ap (λ g. g.first) (update_self m.list l _);
            last = ap (λ g. g.last) (update_self m.list l _);
            nexts = (update_self m.next node null, tt);
            prevs = (update_self m.prev node null, tt);
            distinct = (refl, tt);
            nonnull = has-insert null [] node [] (λ e. fresh (sym e)) refl;
          },
          IsKept-ends m l (node ∷ []) _ _ node node λ a o.
              let n_node = ne_of_head a node [] o in
              (update_ne m.next _ n_node, update_ne m.prev _ n_node),
        ))
  link_back_lem (x ∷ xs) k out =
      let last_ne : last_or x xs ≢ null = last-ne-null k in
      simp (==_ne fresh, ==_ne k.list, k.last, ==_ne last_ne)
        (returns (
          record {
            list = k.list;
            first = ground (arith, k.first);
            last =
                ap (λ g. g.last) (update_self m.list l _)
                ∙ sym (last_or-append null (x ∷ xs) (node ∷ []));
            nexts = Nexts-append_one m.next x xs null node k.nexts k.distinct out;
            prevs = Prevs-append_one m.prev null (x ∷ xs) node k.prevs out;
            distinct =
                IsDistinct-insert (x ∷ xs) [] node (rw append-nil k.distinct) (rw append-nil out);
            nonnull =
                has-insert null (x ∷ xs) node [] (λ e. fresh (sym e)) (rw append-nil k.nonnull);
          },
          IsKept-ends m l (x ∷ xs ++ node ∷ []) _ _ (m.list l).first node λ a o.
              let n_node = ne_of_has_append a (x ∷ xs) node [] o in
              (
                update-update_ne m.next _ _ n_node (λ e. last_or-ne a x xs (node ∷ []) o (sym e)),
                update_ne m.prev _ n_node,
              ),
        ))
