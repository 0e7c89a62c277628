-- ===== src/Glist/Inserted.antt =====
-- What an insert handler of lib/glist.c has done to the state, and that the linking at a place
-- that splits the list does it.
use ukernel_mp.Base.{
  ℕ, ◌≡◌, ◌≢◌, refl, ap, false, List, [], ◌∷◌, ◌++◌, if◌then◌else◌, ◌==◌, ==_ne, head_or, has,
}
use mathlib.Core.List.{append-nil}
use ukernel_mp.Glist.Heap.{Ptr, null, Mem, pure, ◌>>◌}
use ukernel_mp.Glist.Link.{link_back, link_before, count_up, e_ok, inc32}
use ukernel_mp.Glist.Inv.{
  IsLinked, IsKept, ne_null_of_linked, with_objects, with_count, IsLinked-count, IsKept-count,
  Spliced, Returns, returns, Returns-bind,
}
use ukernel_mp.Glist.Splice.{link_before_lem, link_back_lem}

module _ {S : Type 0} where
  -- The list holds the new nodes, the count is one up, and nothing else has changed but the
  -- objects, by the comparisons.
  abbrev pub Inserted : Mem S → Ptr → List ℕ × S → ℕ → Mem S → Type 0
  Inserted m l (ys, s) r g =
      (r ≡ e_ok)
      × IsLinked g l ys
      × IsKept (with_count l (inc32 (m.list l).count) (with_objects s m)) g l ys

module _ {S : Type 0} (node : Ptr) where
  link-Spliced :
      (m : Mem S) (l : Ptr) (before behind : List ℕ)
      → IsLinked m l (before ++ behind)
      → node ≢ null
      → has node (before ++ behind) ≡ false
      → Returns (Spliced m l (before ++ node ∷ behind)) (
          (if head_or behind null == null
              then link_back l node
              else link_before l node (head_or behind null))
            m)
  link-Spliced m l before [] k ne out =
      link_back_lem node ne before (rw append-nil at k) (rw append-nil at out)
  link-Spliced m l before (it ∷ ys) k ne out =
      rw (==_ne (ne_null_of_linked before it ys k)) (link_before_lem node ne before it ys k out)

  pub link-Inserted :
      (m : Mem S) (l : Ptr) (before behind : List ℕ)
      → IsLinked m l (before ++ behind)
      → node ≢ null
      → has node (before ++ behind) ≡ false
      → Returns (Inserted m l (before ++ node ∷ behind, m.objects)) (
          (do
            if head_or behind null == null
                then link_back l node
                else link_before l node (head_or behind null)
            count_up l
            pure e_ok)
            m)
  link-Inserted m l before behind k ne out =
      Returns-bind (link-Spliced m l before behind k ne out) λ u g (linked, kept).
        let c : inc32 (g.list l).count ≡ inc32 (m.list l).count = ap inc32 kept.count in
        simp (==_ne k.list, c)
          (returns (
            refl,
            IsLinked-count (inc32 (m.list l).count) linked,
            IsKept-count (inc32 (m.list l).count) kept,
          ))
