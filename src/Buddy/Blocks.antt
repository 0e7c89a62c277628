-- ===== src/Buddy/Blocks.antt =====
-- The free lists of memory/buddy_2.c. The two words of an `mBlock_t` are two maps from addresses;
-- a block is named by its address, and the functions never test the block that they are given.
use ukernel_mp.Base.{
  ℕ, zero, suc, Bool, ◌+◌, ◌%◌, ◌^◌, ◌==◌, ◌&&◌, not, ltb, leb, if◌then◌else◌, update,
}
use ukernel_mp.Glist.Heap.{Ptr, null}
use ukernel_mp.Buddy.Order.{bytes, get_order}

-- `mBlocks` and the memory that the blocks are in.
pub record Blocks : Type 0 where
  pub heads : ℕ → Ptr
  pub next : Ptr → Ptr
  pub prev : Ptr → Ptr

-- `deep` is a recursion, and `endless` a loop, that has not ended within its fuel.
pub data Outcome (A : Type 0) : Type 0 where
  done : A → Outcome A
  deep : Outcome A
  endless : Outcome A

infixl 5 ◌>>=◌
abbrev pub ◌>>=◌ : {A B : Type 0} → Outcome A → (A → Outcome B) → Outcome B
done a >>= k = k a
deep >>= k = deep
endless >>= k = endless

abbrev pub set_head : ℕ → Ptr → Blocks → Blocks
set_head o p b = record b { heads = update b.heads o p }

abbrev pub set_next : Ptr → Ptr → Blocks → Blocks
set_next a p b = record b { next = update b.next a p }

abbrev pub set_prev : Ptr → Ptr → Blocks → Blocks
set_prev a p b = record b { prev = update b.prev a p }

unfoldable pub block_get : ℕ → Blocks → Ptr × Blocks
block_get order b =
    let addr = b.heads order in
    let head = b.next addr in
    let g = set_head order head b in
    if addr == null then (null, b) else (addr, if head == null then g else set_prev head null g)

unfoldable pub block_remove : Ptr → ℕ → Blocks → Blocks
block_remove block order b =
    let g =
      if b.prev block == null
      then set_head order (b.next block) b
      else set_next (b.prev block) (b.next block) b in
    let h = if g.next block == null then g else set_prev (g.next block) (g.prev block) g in
    set_prev block null (set_next block null h)

unfoldable pub is_buddy : Ptr → Ptr → ℕ → Bool
is_buddy left right order =
    not (leb (get_order left) order) && ((left + bytes order) % 2 ^ 32 == right)

-- Where the loops of `BlockInsert` and `BlockInsertMerge` return: in front of the iterator, or
-- behind it as the last of the list.
pub data Place : Type 0 where
  before : Ptr → Place
  behind : Ptr → Place

unfoldable pub place_walk : ℕ → Ptr → Ptr → Blocks → Outcome Place
place_walk zero block it b = endless
place_walk (suc fuel) block it b =
    let rest = place_walk fuel block (b.next it) b in
    if ltb block it
    then done (before it)
    else (if b.next it == null then done (behind it) else rest)

-- The links of an only block, and of one at a place.
unfoldable pub link_only : Ptr → ℕ → Blocks → Blocks
link_only block order b = set_prev block null (set_next block null (set_head order block b))

unfoldable pub link_at : Ptr → ℕ → Place → Blocks → Blocks
link_at block order (before it) b =
    let g = set_prev block (b.prev it) (set_next block it b) in
    set_prev it block
      (if g.prev it == null then set_head order block g else set_next (g.prev it) block g)
link_at block order (behind it) b = set_next it block (set_prev block it (set_next block null b))

unfoldable pub block_insert : ℕ → Ptr → ℕ → Blocks → Outcome Blocks
unfolding place_walk link_only link_at
block_insert fuel block order b =
    if b.heads order == null
    then done (link_only block order b)
    else (place_walk fuel block (b.heads order) b >>= λ p. done (link_at block order p b))

-- What `BlockInsertMerge` does at a place: the block is linked, or it is joined with the buddy that
-- is taken out, and `joined` goes on with the left one of the two.
pub data Merge : Type 0 where
  linked : Blocks → Merge
  joined : Ptr → Blocks → Merge

unfoldable pub merge_at : Ptr → ℕ → Place → Blocks → Merge
unfolding link_at block_remove is_buddy
merge_at block order (before it) b =
    if is_buddy block it order
    then joined block (block_remove it order b)
    else (if not (b.prev it == null) && is_buddy (b.prev it) block order
        then joined (b.prev it) (block_remove (b.prev it) order b)
        else linked (link_at block order (before it) b))
merge_at block order (behind it) b =
    if is_buddy it block order
    then joined it (block_remove it order b)
    else linked (link_at block order (behind it) b)

unfoldable pub merge_first : ℕ → Ptr → ℕ → Blocks → Outcome Merge
unfolding place_walk link_only merge_at
merge_first fuel block order b =
    if b.heads order == null
    then done (linked (link_only block order b))
    else (place_walk fuel block (b.heads order) b >>= λ p. done (merge_at block order p b))

-- `depth` bounds the recursion.
unfoldable pub block_insert_merge : (depth fuel : ℕ) → Ptr → ℕ → Blocks → Outcome Blocks
unfolding merge_first
block_insert_merge zero fuel block order b = deep
block_insert_merge (suc depth) fuel block order b = merge_first fuel block order b >>= λ r. elim r [
  | linked g ↦ done g
  | joined left g ↦ block_insert_merge depth fuel left (order + 1) g
]
