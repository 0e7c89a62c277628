-- ===== src/Buddy/Merging.antt =====
-- The recursion of `BlockInsertMerge` from an order to the next one.
use ukernel_mp.Base.{
  ℕ, zero, suc, ◌≡◌, ◌≢◌, ◌<◌, ◌≤◌, ◌+◌, ◌==◌, ◌&&◌, not, arith, true, Bool-cases, inl, inr, refl,
}
use ukernel_mp.Glist.Heap.{Ptr, null}
use ukernel_mp.Buddy.Order.{max_order, get_order-bound}
use ukernel_mp.Buddy.Blocks.{
  Blocks, Outcome, done, deep, endless, ◌>>=◌, Merge, linked, joined, Place, before, behind,
  is_buddy, place_walk, merge_at, merge_first, block_insert_merge,
}
use ukernel_mp.Buddy.Get.{place_walk_ne_deep, done_ne_deep, endless_ne_deep}

-- Blocks are joined only below the highest order.
IsLow : ℕ → Outcome Merge → Type 0
IsLow order (done (linked g)) = Unit
IsLow order (done (joined left g)) = order < max_order
IsLow order deep = ⊥
IsLow order endless = Unit

pub is_buddy-order :
    (left right : Ptr) (order : ℕ) → is_buddy left right order ≡ true → order < max_order
unfolding is_buddy
is_buddy-order left right order e = ground (arith, get_order-bound left)

merge_at-IsLow :
    (block : Ptr) (order : ℕ) (p : Place) (b : Blocks)
    → IsLow order (done (merge_at block order p b))
unfolding merge_at IsLow
merge_at-IsLow block order (before it) b = elim (Bool-cases (is_buddy block it order)) [
  | inl e ↦ rw e (is_buddy-order block it order e)
  | inr e ↦ elim (Bool-cases (not (b.prev it == null) && is_buddy (b.prev it) block order)) [
    | inl f ↦ rw (e, f) (is_buddy-order (b.prev it) block order (ground arith))
    | inr f ↦ rw (e, f) tt
  ]
]
merge_at-IsLow block order (behind it) b = elim (Bool-cases (is_buddy it block order)) [
  | inl e ↦ rw e (is_buddy-order it block order e)
  | inr e ↦ rw e tt
]

walked-IsLow :
    (block : Ptr) (order : ℕ) (b : Blocks) (r : Outcome Place)
    → r ≢ deep
    → IsLow order (r >>= λ p. done (merge_at block order p b))
unfolding IsLow
walked-IsLow block order b (done p) h = merge_at-IsLow block order p b
walked-IsLow block order b deep h = h refl
walked-IsLow block order b endless h = tt

merge_first-IsLow :
    (fuel : ℕ) (block : Ptr) (order : ℕ) (b : Blocks) → IsLow order (merge_first fuel block order b)
unfolding merge_first IsLow
merge_first-IsLow fuel block order b = elim (Bool-cases (b.heads order == null)) [
  | inl e ↦ rw e tt
  | inr e ↦ rw e (
      walked-IsLow block order b (place_walk fuel block (b.heads order) b)
        (place_walk_ne_deep fuel block (b.heads order) b))
]

merged_ne_deep :
    (order : ℕ) (r : Outcome Merge) (again : Ptr → Blocks → Outcome Blocks)
    → IsLow order r
    → (order < max_order → (left : Ptr) (g : Blocks) → again left g ≢ deep)
    → (r >>= λ x. elim x [ linked g ↦ done g | joined left g ↦ again left g ]) ≢ deep
unfolding IsLow
merged_ne_deep order (done (linked g)) again low h = done_ne_deep g
merged_ne_deep order (done (joined left g)) again low h = h low left g
merged_ne_deep order deep again low h = absurd low
merged_ne_deep order endless again low h = endless_ne_deep

-- The recursion of `BlockInsertMerge` goes no deeper than there are orders from that of the block
-- to the highest, whatever the free lists hold.
pub insert_merge-ends :
    (depth fuel : ℕ) (block : Ptr) (order : ℕ) (b : Blocks)
    → order ≤ max_order
    → max_order < depth + order
    → block_insert_merge depth fuel block order b ≢ deep
unfolding block_insert_merge
insert_merge-ends zero fuel block order b h enough = absurd (omega arith)
insert_merge-ends (suc depth) fuel block order b h enough =
    merged_ne_deep order (merge_first fuel block order b) _ (merge_first-IsLow fuel block order b)
      λ low left g. insert_merge-ends depth fuel left (order + 1) g (omega arith) (omega arith)
