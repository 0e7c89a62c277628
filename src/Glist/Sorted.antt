-- ===== src/Glist/Sorted.antt =====
-- `GlistInsert` refines insertion into a list: the node goes in front of the first node that does
-- not compare as positive, and the comparisons before it have had their effects on the objects.
use ukernel_mp.Base.{
  ℕ, zero, suc, ◌≡◌, ◌≢◌, ◌<◌, ◌+◌, refl, ap, false, inl, inr, Bool-cases, some, ℤ, List, [], ◌∷◌,
  ◌++◌, arith, positive, if◌then◌else◌, ==_ne, head_or, has, length,
}
use ukernel_mp.Glist.Heap.{Ptr, null, Mem}
use ukernel_mp.Glist.Chain.{Nexts}
use ukernel_mp.Glist.Link.{insert_walk, glist_insert}
use ukernel_mp.Glist.Inv.{
  IsLinked, with_objects, IsLinked-objects, Returns, returns, Returns-bind, Returns-mono,
}
use ukernel_mp.Glist.Inserted.{Inserted, link-Inserted}

module _ {S : Type 0} (sort : Ptr → Ptr → S → ℤ × S) (node : Ptr) where
  -- The list and the objects after the insertion.
  unfoldable pub insert_spec : List ℕ → S → List ℕ × S
  insert_spec [] s = (node ∷ [], s)
  insert_spec (x ∷ xs) s =
      let c = sort x node s in
      let rest = insert_spec xs c.1 in
      if positive c.0 then (x ∷ rest.0, rest.1) else (node ∷ x ∷ xs, c.1)

  -- Where the loop has stopped, in terms of the nodes `ys` that it started on.
  pub record IsPlace (m : Mem S) (ys : List ℕ) (it : Ptr) (g : Mem S) : Type 0 where
    pub before : List ℕ
    pub behind : List ℕ
    pub whole : ys ≡ before ++ behind
    pub at : it ≡ head_or behind null
    pub result : insert_spec ys m.objects ≡ (before ++ node ∷ behind, g.objects)
    pub same : g ≡ with_objects g.objects m

  insert_walk-IsPlace :
      (k : ℕ) (ys : List ℕ) (m : Mem S)
      → length ys < k
      → Nexts m.next ys null
      → has null ys ≡ false
      → Returns (IsPlace m ys) (insert_walk k sort (head_or ys null) node m)
  unfolding insert_walk insert_spec
  insert_walk-IsPlace zero ys m fuel nx nn = absurd (omega arith)
  insert_walk-IsPlace (suc k) [] m fuel nx nn =
      returns
        (record { before = []; behind = []; whole = refl; at = refl; result = refl; same = refl })
  insert_walk-IsPlace (suc k) (x ∷ xs) m fuel (e, nx) nn =
      let x_ne : x ≢ null = ground arith in
      let s = (sort x node m.objects).1 in
      elim (Bool-cases (positive (sort x node m.objects).0)) [
        | inl more ↦
            rw (==_ne x_ne, more)
              (rw (==_ne x_ne, e)
                (Returns-mono
                  (insert_walk-IsPlace k xs (with_objects s m) (omega arith) nx (ground arith))
                  λ it g p. record {
                    before = x ∷ p.before;
                    behind = p.behind;
                    whole = ap (λ zs. x ∷ zs) p.whole;
                    at = p.at;
                    result = rw more (ap (λ (r : List ℕ × S). (x ∷ r.0, r.1)) p.result);
                    same = p.same;
                  }))
        | inr stop ↦
            rw (==_ne x_ne, stop)
              (returns (record {
                before = [];
                behind = x ∷ xs;
                whole = refl;
                at = refl;
                result = rw stop;
                same = refl;
              }))
      ]

  pub glist_insert_lem :
      (m : Mem S) (l : Ptr) (xs : List ℕ)
      → IsLinked m l xs
      → (m.list l).count ≡ length xs
      → (m.list l).list_sort ≡ some sort
      → node ≢ null
      → has node xs ≡ false
      → Returns (Inserted m l (insert_spec xs m.objects)) (glist_insert l node m)
  unfolding glist_insert
  glist_insert_lem m l xs k count sorted ne out =
      simp (==_ne k.list, sorted, k.first)
        (Returns-bind
          (insert_walk-IsPlace ((m.list l).count + 1) xs m (omega arith) k.nexts k.nonnull)
          λ it g p.
            rw (p.result, p.at, p.same)
              (link-Inserted node (with_objects g.objects m) l p.before p.behind
                (IsLinked-objects g.objects (rw p.whole at k)) ne (rw p.whole at out)))
