-- ===== src/Buddy/Conserve.antt =====
-- What `BlockInsertMerge` does to the free memory.
use ukernel_mp.Base.{
  ℕ, zero, suc, ◌≡◌, ◌≢◌, ◌<◌, ◌≤◌, ◌+◌, ◌==◌, ◌&&◌, not, refl, sym, ◌∙◌, true, List, [], ◌∷◌,
  arith, has, ==_ne, subst, Bool-cases, inl, inr, length, ne_of_has, ne_of_head,
}
use ukernel_mp.Glist.Heap.{Ptr, null}
use ukernel_mp.Buddy.Order.{max_order}
use ukernel_mp.Buddy.Blocks.{
  Blocks, Outcome, done, Place, before, behind, Merge, linked, joined, is_buddy, merge_at,
  merge_first, place_walk, block_insert_merge, block_remove,
}
use ukernel_mp.Buddy.Rows.{IsRow}
use ukernel_mp.Buddy.Free.{IsFree, IsOutside}
use ukernel_mp.Buddy.Grown.{Grown, Grown-Linked, Shrunk-Unlinked, IsOutside-has}
use ukernel_mp.Buddy.Places.{
  Gives, Gives-bind, Gives-map, IsPlace, place_walk_lem, link_at_lem, link_first_lem, unlink_lem,
}
use ukernel_mp.Buddy.Joins.{Joined, joined_lem, prev-has}

abbrev Merged : (ℕ → List ℕ) → ℕ → ℕ → Merge → Type 0
Merged free block o (linked g) = Grown free block o g
Merged free block o (joined left g) = Joined free block o left g

module _ (b : Blocks) (free : ℕ → List ℕ) (block o : ℕ) (k : IsFree b free) (h : o ≤ max_order)
    (out : IsOutside free block o) where
  -- The buddy of the list is behind the block, or in front of it.
  join_behind :
      (it : ℕ)
      → has it (free o) ≡ true
      → is_buddy block it o ≡ true
      → Joined free block o block (block_remove it o b)
  join_behind it is e =
      joined_lem out (Shrunk-Unlinked k h (unlink_lem b o it (free o) (k.rows o h) is)) e
        out.nonnull (λ q. ne_of_has null it (free o) (k.rows o h).nonnull is (sym q)) out.fits
        (k.bounded o it h is) λ p. refl

  join_front :
      (it : ℕ)
      → has it (free o) ≡ true
      → is_buddy it block o ≡ true
      → Joined free block o it (block_remove it o b)
  join_front it is e =
      joined_lem out (Shrunk-Unlinked k h (unlink_lem b o it (free o) (k.rows o h) is)) e
        (λ q. ne_of_has null it (free o) (k.rows o h).nonnull is (sym q)) out.nonnull
        (k.bounded o it h is) out.fits λ p. omega arith

  merge_at_lem : (p : Place) → IsPlace (free o) p → Merged free block o (merge_at block o p b)
  unfolding merge_at
  merge_at_lem (before it) is = elim (Bool-cases (is_buddy block it o)) [
    | inl e ↦ rw e (join_behind it is e)
    | inr e ↦ elim (Bool-cases (not (b.prev it == null) && is_buddy (b.prev it) block o)) [
      | inl f ↦
          rw (e, f)
            (join_front (b.prev it) (prev-has b o it (free o) (k.rows o h) is (ground arith))
              (ground arith))
      | inr f ↦
          rw (e, f)
            (Grown-Linked k h out (
              link_at_lem b o block (free o) (before it) (k.rows o h) is out.nonnull
                (IsOutside-has o out h)))
    ]
  ]
  merge_at_lem (behind it) is = elim (Bool-cases (is_buddy it block o)) [
    | inl e ↦ rw e (join_front it is.0 e)
    | inr e ↦ rw e (
        Grown-Linked k h out (
          link_at_lem b o block (free o) (behind it) (k.rows o h) is out.nonnull
            (IsOutside-has o out h)))
  ]

  merge_first_lem :
      (fuel : ℕ) (xs : List ℕ)
      → free o ≡ xs
      → length xs ≤ fuel
      → Gives (Merged free block o) (merge_first fuel block o b)
  unfolding merge_first
  merge_first_lem fuel [] e enough =
      let row = subst (IsRow b o) e (k.rows o h) in
      rw row.head
        (Grown-Linked k h out (link_first_lem b o block (free o) (k.rows o h) e out.nonnull))
  merge_first_lem fuel (x ∷ xs) e enough =
      let row = subst (IsRow b o) e (k.rows o h) in
      let x_ne : x ≢ null = λ q. ne_of_head null x xs row.nonnull (sym q) in
      rw (row.head, ==_ne x_ne)
        (Gives-bind (IsPlace (x ∷ xs)) (Merged free block o) (place_walk fuel block x b) _
          (place_walk_lem fuel block x xs b row.nexts row.nonnull enough)
          λ p is. merge_at_lem p (subst (λ zs. IsPlace zs p) (sym e) is))

-- What the merge at one order gives, followed by that at the next one.
Merged-Grown :
    (free : ℕ → List ℕ) (block o : ℕ) (r : Merge) (again : Ptr → Blocks → Outcome Blocks)
    → Merged free block o r
    → ((left : Ptr) (g : Blocks) (m : Joined free block o left g)
        → Gives (Grown m.after left (o + 1)) (again left g))
    → Gives (Grown free block o) (elim r [ linked g ↦ done g | joined left g ↦ again left g ])
Merged-Grown free block o (linked g) again m next = m
Merged-Grown free block o (joined left g) again m next =
    Gives-map (Grown m.after left (o + 1)) (Grown free block o) (again left g)
      (λ f l. record {
        after = l.after;
        is_free = l.is_free;
        covers = λ p. l.covers p ∙ m.covers p;
        longer = λ i. omega (arith, l.longer i, m.shorter i);
        lower = λ i less. omega (arith, l.lower i (omega arith), m.shorter i);
      })
      (next left g m)

-- With the free lists well formed, the depth enough for the orders from `o` to the highest and
-- the fuel for every list, `BlockInsertMerge` of a block that has no byte in common with the free
-- ones ends with well formed lists, whose blocks cover what the free ones covered and the block,
-- each byte once.
pub insert_merge-conserves :
    (depth fuel : ℕ) (block o : ℕ) (b : Blocks) (free : ℕ → List ℕ)
    → IsFree b free
    → o ≤ max_order
    → max_order < depth + o
    → ((i : ℕ) → length (free i) ≤ fuel)
    → IsOutside free block o
    → Gives (Grown free block o) (block_insert_merge depth fuel block o b)
unfolding block_insert_merge
insert_merge-conserves zero fuel block o b free k h deep_enough enough out = absurd (omega arith)
insert_merge-conserves (suc depth) fuel block o b free k h deep_enough enough out =
    Gives-bind (Merged free block o) (Grown free block o) (merge_first fuel block o b) _
      (merge_first_lem b free block o k h out fuel (free o) refl (enough o))
      λ r m. Merged-Grown free block o r _ m λ left g j.
        insert_merge-conserves depth fuel left (o + 1) g j.after j.is_free (omega (arith, j.low))
          (omega arith) (λ i. omega (arith, j.shorter i, enough i)) j.outside
