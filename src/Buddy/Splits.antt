-- ===== src/Buddy/Splits.antt =====
-- `buddyGetMemory` and the free memory.
use ukernel_mp.Base.{
  ℕ, zero, suc, ◌≡◌, ◌≢◌, ◌<◌, ◌≤◌, ◌+◌, ◌%◌, ◌^◌, ◌⊎◌, ◌==◌, inl, inr, refl, sym, ap, subst, true,
  List, [], ◌∷◌, arith, length, if◌then◌else◌, ==_ne, ℕ_discrete, ne_of_head,
}
use ukernel_mp.Glist.Heap.{Ptr, null}
use ukernel_mp.Buddy.Order.{bytes, max_order}
use ukernel_mp.Buddy.Blocks.{Blocks, done, ◌>>=◌, block_get, block_insert, place_walk}
use ukernel_mp.Buddy.Ops.{buddy_get_memory, is_refused}
use ukernel_mp.Buddy.Sizes.{get_order-bytes, accepts, too_large, double}
use ukernel_mp.Buddy.Rows.{IsRow, Relinked, row-ne_null}
use ukernel_mp.Buddy.Taken.{block_get_lem, block_get_nil}
use ukernel_mp.Buddy.Cover.{within, within-twice, bytes_suc, bytes-positive, covered}
use ukernel_mp.Buddy.Free.{IsFree, IsOutside}
use ukernel_mp.Buddy.Grown.{Grown, Shrunk, Grown-Linked, Shrunk-Unlinked, IsOutside-has}
use ukernel_mp.Buddy.Places.{
  Gives, Gives-bind, Gives-map, IsPlace, place_walk_lem, link_at_lem, link_first_lem,
}

-- Of the free blocks `free`, the `bytes o` at `addr` are not free any more.
pub record Obtained (free : ℕ → List ℕ) (o addr : ℕ) (g : Blocks) : Type 0 where
  pub after : ℕ → List ℕ
  pub is_free : IsFree g after
  pub nonnull : addr ≢ null
  pub fits : addr + bytes o ≤ 2 ^ 32
  pub covers : (p : ℕ) → covered after p + within addr (bytes o) p ≡ covered free p
  pub lower : (i : ℕ) → i < o → length (after i) ≤ length (free i)

-- The result is NULL, with nothing changed, and no block of the order or a higher one is free.
pub record IsNone (free : ℕ → List ℕ) (o : ℕ) (b : Blocks) (r : Ptr × Blocks) : Type 0 where
  pub is_null : r ≡ (null, b)
  pub none_free : (i : ℕ) → o ≤ i → i ≤ max_order → free i ≡ []

abbrev pub Allocated : (ℕ → List ℕ) → ℕ → Blocks → Ptr × Blocks → Type 0
Allocated free o b r = Obtained free o r.0 r.1 ⊎ IsNone free o b r

-- `BlockInsert` links a block that is not free.
pub block_insert-conserves :
    (fuel block o : ℕ) (b : Blocks) (free : ℕ → List ℕ) (xs : List ℕ)
    → IsFree b free
    → o ≤ max_order
    → IsOutside free block o
    → free o ≡ xs
    → length xs ≤ fuel
    → Gives (Grown free block o) (block_insert fuel block o b)
unfolding block_insert
block_insert-conserves fuel block o b free [] k h out e enough =
    let row = subst (IsRow b o) e (k.rows o h) in
    rw row.head
      (Grown-Linked k h out (link_first_lem b o block (free o) (k.rows o h) e out.nonnull))
block_insert-conserves fuel block o b free (x ∷ xs) k h out e enough =
    let row = subst (IsRow b o) e (k.rows o h) in
    let x_ne : x ≢ null = λ q. ne_of_head null x xs row.nonnull (sym q) in
    rw (row.head, ==_ne x_ne)
      (Gives-bind (IsPlace (x ∷ xs)) (Grown free block o) (place_walk fuel block x b) _
        (place_walk_lem fuel block x xs b row.nexts row.nonnull enough)
        λ p is. Grown-Linked k h out (
          link_at_lem b o block (free o) p (k.rows o h) (subst (λ zs. IsPlace zs p) (sym e) is)
            out.nonnull (IsOutside-has o out h)))

-- The halves of a block of the next order: the left one is returned, the right one is free again.
halved :
    (fuel o addr : ℕ) (b g : Blocks) (free : ℕ → List ℕ)
    → IsFree b free
    → o ≤ max_order
    → length (free o) ≤ fuel
    → Obtained free (o + 1) addr g
    → Gives (λ f. Obtained free o addr f) (block_insert fuel ((addr + bytes o) % 2 ^ 32) o g)
halved fuel o addr b g free k h enough got =
    let positive = bytes-positive o in
    let twice = bytes_suc o in
    let right : (addr + bytes o) % 2 ^ 32 ≡ addr + bytes o =
      omega (arith, got.fits, twice, positive) in
    let out : IsOutside got.after (addr + bytes o) o = record {
      nonnull = λ e. omega (arith, e, positive);
      fits = omega (arith, got.fits, twice);
      fresh = λ p. omega (arith, got.covers p, k.once p, within-twice addr o p);
    } in
    rw right (
      Gives-map (Grown got.after (addr + bytes o) o) (λ f. Obtained free o addr f)
        (block_insert fuel (addr + bytes o) o g)
        (λ f m. record {
          after = m.after;
          is_free = m.is_free;
          nonnull = got.nonnull;
          fits = omega (arith, got.fits, twice);
          covers = λ p. omega (arith, m.covers p, got.covers p, within-twice addr o p);
          lower = λ i less. omega (arith, m.lower i less, got.lower i (omega arith));
        })
        (block_insert-conserves fuel (addr + bytes o) o g got.after (got.after o) got.is_free h out
          refl (omega (arith, enough, got.lower o (omega arith)))))

-- The first block of the list.
Obtained-first :
    (o x : ℕ) (xs : List ℕ) (b : Blocks) (free : ℕ → List ℕ)
    → IsFree b free
    → o ≤ max_order
    → free o ≡ x ∷ xs
    → Obtained free o x (block_get o b).1
Obtained-first o x xs b free k h e =
    let row = subst (IsRow b o) e (k.rows o h) in
    let s : Shrunk free x o (block_get o b).1 = Shrunk-Unlinked k h (record {
      front = [];
      back = xs;
      whole = e;
      relinked =
          subst (λ zs. Relinked b o x zs xs (block_get o b).1) (sym e)
            (block_get_lem b o x xs row).1;
    }) in
    record {
      after = s.after;
      is_free = s.is_free;
      nonnull = row-ne_null [] x xs row;
      fits = k.bounded o x h (rw e (ground arith));
      covers = s.covers;
      lower = λ i less. s.shorter i;
    }

refused_lem :
    (depth fuel size : ℕ) (b : Blocks)
    → 0 < depth
    → is_refused size ≡ true
    → buddy_get_memory depth fuel size b ≡ done (null, b)
unfolding buddy_get_memory
refused_lem zero fuel size b h e = absurd (omega arith)
refused_lem (suc depth) fuel size b h e = rw e refl

-- What `buddyGetMemory` does with the block of the next order.
after_above :
    (fuel o : ℕ) (b : Blocks) (free : ℕ → List ℕ) (r : Ptr × Blocks)
    → IsFree b free
    → o ≤ max_order
    → length (free o) ≤ fuel
    → free o ≡ []
    → Allocated free (o + 1) b r
    → Gives (Allocated free o b) (
        if r.0 == null
        then done r
        else (block_insert fuel ((r.0 + bytes o) % 2 ^ 32) o r.1 >>= λ g. done (r.0, g)))
after_above fuel o b free (addr, g) k h enough e (inl got) = rw (==_ne got.nonnull) (
    Gives-bind (λ f. Obtained free o addr f) (Allocated free o b)
      (block_insert fuel ((addr + bytes o) % 2 ^ 32) o g) _
      (halved fuel o addr b g free k h enough got) λ f m. inl m)
after_above fuel o b free (addr, g) k h enough e (inr n) =
    let is_null = ap (λ r. r.0) n.is_null in
    rw is_null (
      inr (record {
        is_null = rw is_null at n.is_null;
        none_free = λ i low high. elim (ℕ_discrete i o) [
          | yes q ↦ rw q e
          | no ne ↦ n.none_free i (omega arith) high
        ];
      }))

-- Above the highest order the size is refused.
above_lem :
    (depth fuel o : ℕ) (b : Blocks) (free : ℕ → List ℕ)
    → o ≤ max_order
    → 0 < depth
    → (o < max_order
        → Gives (Allocated free (o + 1) b) (buddy_get_memory depth fuel (bytes (o + 1)) b))
    → Gives (Allocated free (o + 1) b) (buddy_get_memory depth fuel (bytes (o + 1)) b)
above_lem depth fuel o b free h some next = elim (ℕ_discrete o max_order) [
  | yes e ↦
      rw (e, refused_lem depth fuel (bytes 11) b some too_large)
        (inr (record { is_null = refl; none_free = λ i low high. absurd (omega arith) }))
  | no ne ↦ next (omega arith)
]

get_memory-one :
    (depth fuel o : ℕ) (b : Blocks) (free : ℕ → List ℕ) (xs : List ℕ)
    → IsFree b free
    → o ≤ max_order
    → length (free o) ≤ fuel
    → free o ≡ xs
    → Gives (Allocated free (o + 1) b) (buddy_get_memory depth fuel (bytes (o + 1)) b)
    → Gives (Allocated free o b) (buddy_get_memory (suc depth) fuel (bytes o) b)
unfolding buddy_get_memory
get_memory-one depth fuel o b free (x ∷ xs) k h enough e next =
    let row = subst (IsRow b o) e (k.rows o h) in
    let (got, _) = block_get_lem b o x xs row in
    let x_ne = row-ne_null [] x xs row in
    rw (accepts o h, get_order-bytes o h, got, ==_ne x_ne)
      (inl (rw got (Obtained-first o x xs b free k h e)))
get_memory-one depth fuel o b free [] k h enough e next =
    let row = subst (IsRow b o) e (k.rows o h) in
    rw (accepts o h, get_order-bytes o h, block_get_nil b o row, double o h)
      (Gives-bind (Allocated free (o + 1) b) (Allocated free o b)
        (buddy_get_memory depth fuel (bytes (o + 1)) b) _ next
        λ r m. after_above fuel o b free r k h enough e m)

-- With the free lists well formed, the depth enough for the orders from `o` up and the fuel for
-- every list, `buddyGetMemory` of the size of the order ends, with one of two results: an
-- address, not NULL, of bytes that were free and are not any more, all others staying free; or
-- NULL, with nothing changed, where no block of the order or of a higher one is free.
pub get_memory-conserves :
    (depth fuel o : ℕ) (b : Blocks) (free : ℕ → List ℕ)
    → IsFree b free
    → o ≤ max_order
    → suc max_order < depth + o
    → ((i : ℕ) → length (free i) ≤ fuel)
    → Gives (Allocated free o b) (buddy_get_memory depth fuel (bytes o) b)
get_memory-conserves zero fuel o b free k h deep_enough enough = absurd (omega arith)
get_memory-conserves (suc depth) fuel o b free k h deep_enough enough =
    get_memory-one depth fuel o b free (free o) k h (enough o) refl (
      above_lem depth fuel o b free h (omega arith)
        λ low. get_memory-conserves depth fuel (o + 1) b free k (omega arith) (omega arith) enough)
