-- ===== src/Glist/Search.antt =====
-- `GlistSearch` returns the first node that compares as equal, or NULL.
use ukernel_mp.Base.{
  ℕ, ◌≡◌, ◌≢◌, ◌<◌, ◌^◌, refl, true, false, inl, inr, Bool-cases, some, ℤ, List, [], ◌∷◌, arith,
  nonzero, if◌then◌else◌, ◌==◌, ltb, ==_ne, head_or, has, length,
}
use ukernel_mp.Glist.Heap.{Ptr, null, Mem}
use ukernel_mp.Glist.Chain.{Nexts}
use ukernel_mp.Glist.Unlink.{search_walk, glist_search}
use ukernel_mp.Glist.Inv.{IsLinked, with_objects, Returns, returns, Returns-bind}

module _ {S : Type 0} (cmp : Ptr → ℕ → S → ℤ × S) (v : ℕ) where
  -- The node found, and the objects after the comparisons up to it.
  unfoldable pub search_spec : List ℕ → S → Ptr × S
  search_spec [] s = (null, s)
  search_spec (x ∷ xs) s =
      let c = cmp x v s in let rest = search_spec xs c.1 in if nonzero c.0 then rest else (x, c.1)

  search_walk-search_spec :
      (xs : List ℕ) (m : Mem S)
      → Nexts m.next xs null
      → has null xs ≡ false
      → Returns
          (λ (it, count) g.
            ((if count == 0 then null else it) ≡ (search_spec xs m.objects).0)
            × (g ≡ with_objects (search_spec xs m.objects).1 m))
          (search_walk (length xs) cmp (head_or xs null) v m)
  unfolding search_walk search_spec
  search_walk-search_spec [] m nx nn = returns (refl, refl)
  search_walk-search_spec (x ∷ xs) m (e, nx) nn =
      let x_ne : x ≢ null = ground arith in
      let s = (cmp x v m.objects).1 in
      elim (Bool-cases (nonzero (cmp x v m.objects).0)) [
        | inl more ↦
            rw more
              (rw (==_ne x_ne, e) (search_walk-search_spec xs (with_objects s m) nx (ground arith)))
        | inr stop ↦ rw stop (returns (ground arith, refl))
      ]

  pub glist_search_lem :
      (m : Mem S) (l : Ptr) (xs : List ℕ)
      → IsLinked m l xs
      → (m.list l).count ≡ length xs
      → length xs < 2 ^ 31
      → (m.list l).list_cmp ≡ some cmp
      → Returns
          (λ r g.
            (r ≡ (search_spec xs m.objects).0) × (g ≡ with_objects (search_spec xs m.objects).1 m))
          (glist_search l v m)
  unfolding glist_search
  glist_search_lem m l xs k count small has_cmp =
      let few : ltb (length xs) (2 ^ 31) ≡ true = ground arith in
      simp (==_ne k.list, has_cmp, k.first, count, few)
        (Returns-bind (search_walk-search_spec xs m k.nexts k.nonnull)
          λ r g (found, same). returns (found, same))
