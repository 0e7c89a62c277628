-- ===== src/Buddy/Joins.antt =====
-- Two buddies that `BlockInsertMerge` joins to one block.
use ukernel_mp.Base.{
  ℕ, ◌≡◌, ◌≢◌, ◌<◌, ◌≤◌, ◌+◌, ◌%◌, ◌^◌, ◌||◌, ap, sym, ◌∙◌, true, List, [], ◌∷◌, ◌++◌, arith, has,
  subst, last_or, length, IsSplit-of_has, has-append, has-last_or,
}
use ukernel_mp.Glist.Heap.{null}
use ukernel_mp.Buddy.Order.{bytes, max_order}
use ukernel_mp.Buddy.Blocks.{Blocks, is_buddy}
use ukernel_mp.Buddy.Merging.{is_buddy-order}
use ukernel_mp.Buddy.Rows.{IsRow, row-prev}
use ukernel_mp.Buddy.Cover.{within, within-twice, bytes_suc, covered}
use ukernel_mp.Buddy.Free.{IsFree, IsOutside}
use ukernel_mp.Buddy.Grown.{Shrunk}

-- The free blocks of `g` and the block of the next order at `left` are those of `free` and the
-- block; no list has grown.
pub record Joined (free : ℕ → List ℕ) (block o left : ℕ) (g : Blocks) : Type 0 where
  pub after : ℕ → List ℕ
  pub is_free : IsFree g after
  pub outside : IsOutside after left (o + 1)
  pub covers :
      (p : ℕ)
      → covered after p + within left (bytes (o + 1)) p ≡ covered free p + within block (bytes o) p
  pub low : o < max_order
  pub shorter : (i : ℕ) → length (after i) ≤ length (free i)

-- The buddy that is not NULL starts where the left one ends.
is_buddy-next :
    (left right o : ℕ)
    → is_buddy left right o ≡ true
    → right ≢ null
    → left + bytes o ≤ 2 ^ 32
    → left + bytes o ≡ right
unfolding is_buddy
is_buddy-next left right o e nonnull fits =
    let q : (left + bytes o) % 2 ^ 32 ≡ right = ground arith in omega (arith, q, nonnull, fits)

-- `block` and the buddy `it` that has been taken out, as the left and the right one in some order.
pub joined_lem :
    {free : ℕ → List ℕ} {block it o left right : ℕ} {g : Blocks}
    → IsOutside free block o
    → Shrunk free it o g
    → is_buddy left right o ≡ true
    → left ≢ null
    → right ≢ null
    → left + bytes o ≤ 2 ^ 32
    → right + bytes o ≤ 2 ^ 32
    → ((p : ℕ)
        → within left (bytes o) p + within right (bytes o) p
          ≡ within block (bytes o) p + within it (bytes o) p)
    → Joined free block o left g
joined_lem {free} {block} {it} {o} {left} {right} {g} out s e left_ne right_ne left_fits fits
      halves =
    let next = is_buddy-next left right o e right_ne left_fits in
    let covers : (p : ℕ)
        → covered s.after p + within left (bytes (o + 1)) p
          ≡ covered free p + within block (bytes o) p =
      λ p.
        let twice : within left (bytes (o + 1)) p
            ≡ within left (bytes o) p + within right (bytes o) p =
          within-twice left o p ∙ ap (λ r. within left (bytes o) p + within r (bytes o) p) next in
        omega (arith, twice, halves p, s.covers p) in
    record {
      after = s.after;
      is_free = s.is_free;
      outside = record {
        nonnull = left_ne;
        fits = omega (arith, bytes_suc o, next, fits);
        fresh = λ p. omega (arith, covers p, out.fresh p);
      };
      covers = covers;
      low = is_buddy-order left right o e;
      shorter = s.shorter;
    }

prev-has_split :
    (b : Blocks) (o : ℕ) (xs : List ℕ) (it : ℕ) (ys : List ℕ)
    → IsRow b o (xs ++ it ∷ ys)
    → b.prev it ≢ null
    → has (b.prev it) (xs ++ it ∷ ys) ≡ true
prev-has_split b o [] it ys k ne = absurd (ne (row-prev [] it ys k))
prev-has_split b o (x ∷ xs) it ys k ne =
    let inside : has (last_or x xs) (x ∷ xs ++ it ∷ ys) ≡ true =
      has-append (last_or x xs) (x ∷ xs) (it ∷ ys)
      ∙ ap (λ c. c || has (last_or x xs) (it ∷ ys)) (has-last_or x xs) in
    subst (λ a. has a (x ∷ xs ++ it ∷ ys) ≡ true) (sym (row-prev (x ∷ xs) it ys k)) inside

-- The node in front of one of the list is in the list, unless it is NULL.
pub prev-has :
    (b : Blocks) (o it : ℕ) (xs : List ℕ)
    → IsRow b o xs
    → has it xs ≡ true
    → b.prev it ≢ null
    → has (b.prev it) xs ≡ true
prev-has b o it xs k is ne =
    let s = IsSplit-of_has it xs is in
    subst (λ zs. has (b.prev it) zs ≡ true) (sym s.whole)
      (prev-has_split b o s.before it s.behind (subst (IsRow b o) s.whole k) ne)
