-- ===== src/Buddy/GiveBack.antt =====
-- `buddyFreeMemory` and the free memory.
use ukernel_mp.Base.{
  ℕ_discrete, ℕ, ◌≡◌, ◌≢◌, ◌<◌, ◌≤◌, ◌+◌, ◌-◌, ◌*◌, ◌%◌, ◌^◌, ap, ◌∙◌, List, [], ◌∷◌, arith, length,
}
use ukernel_mp.Glist.Heap.{null}
use ukernel_mp.Buddy.Order.{bytes, max_order, page_size}
use ukernel_mp.Buddy.Blocks.{Blocks, block_insert_merge}
use ukernel_mp.Buddy.Ops.{buddy_free_memory}
use ukernel_mp.Buddy.Cover.{within, bytes-positive, covered}
use ukernel_mp.Buddy.Free.{IsFree, IsOutside}
use ukernel_mp.Buddy.Grown.{Grown}
use ukernel_mp.Buddy.Places.{Gives, Gives-bind, Gives-map}
use ukernel_mp.Buddy.Conserve.{insert_merge-conserves}
use ukernel_mp.Buddy.Pieces.{IsTiling, insert_all, free_memory-tiles, bytes_mono}

-- The free blocks of `g` are those of `free` and the `size` bytes from `memory` on.
pub record Given (free : ℕ → List ℕ) (memory size : ℕ) (g : Blocks) : Type 0 where
  pub after : ℕ → List ℕ
  pub is_free : IsFree g after
  pub covers : (p : ℕ) → covered after p ≡ covered free p + within memory size p

-- The range has no byte in common with the free blocks.
pub record IsOwned (free : ℕ → List ℕ) (memory size : ℕ) : Type 0 where
  pub nonnull : 0 < size → memory ≢ null
  pub fits : memory + size ≤ 2 ^ 32
  pub fresh : (p : ℕ) → covered free p + within memory size p ≤ 1

pub within-none : (memory p : ℕ) → within memory 0 p ≡ 0
unfolding within
within-none memory p = ground arith

pub within-append :
    (memory n m p : ℕ) → within memory (n + m) p ≡ within memory n p + within (memory + n) m p
unfolding within
within-append memory n m p = ground arith

-- A range is its first `n` bytes and the rest, also where nothing is left at the end of the
-- addresses.
within-split :
    (memory size n p : ℕ)
    → n ≤ size
    → memory + size ≤ 2 ^ 32
    → within memory size p ≡ within memory n p + within ((memory + n) % 2 ^ 32) (size - n) p
within-split memory size n p h fits = elim (ℕ_discrete size n) [
  | yes e ↦
      let nothing : size - n ≡ 0 = omega (arith, e) in
      rw (nothing, e, within-none ((memory + n) % 2 ^ 32) p) (omega arith)
  | no ne ↦
      let base : (memory + n) % 2 ^ 32 ≡ memory + n = omega (arith, ne, h, fits) in
      let whole : size ≡ n + (size - n) = omega (arith, h) in
      rw base (ap (λ m. within memory m p) whole ∙ within-append memory n (size - n) p)
]

module _ {free : ℕ → List ℕ} {memory size : ℕ} (o : ℕ) (h : bytes o ≤ size)
    (out : IsOwned free memory size) where
  -- The first block of the range.
  pub IsOwned-first : IsOutside free memory o
  IsOwned-first = record {
    nonnull = out.nonnull (omega (arith, bytes-positive o, h));
    fits = omega (arith, out.fits, h);
    fresh = λ p. omega (arith, within-split memory size (bytes o) p h out.fits, out.fresh p);
  }

  -- The rest of it, when the block is free.
  pub IsOwned-rest :
      {g : Blocks} (m : Grown free memory o g)
      → IsOwned m.after ((memory + bytes o) % 2 ^ 32) (size - bytes o)
  IsOwned-rest m = record {
    nonnull = λ some e.
        let positive = bytes-positive o in
        let base : (memory + bytes o) % 2 ^ 32 ≡ memory + bytes o = omega (arith, out.fits, some) in
        omega (arith, base, e, positive);
    fits = omega (arith, out.fits, h);
    fresh = λ p.
        omega (arith, within-split memory size (bytes o) p h out.fits, out.fresh p, m.covers p);
  }

  pub Given-of_rest :
      {g f : Blocks} (m : Grown free memory o g)
      → Given m.after ((memory + bytes o) % 2 ^ 32) (size - bytes o) f
      → Given free memory size f
  Given-of_rest m r = record {
    after = r.after;
    is_free = r.is_free;
    covers =
        λ p. omega (arith, within-split memory size (bytes o) p h out.fits, m.covers p, r.covers p);
  }

insert_all-conserves :
    (depth fuel memory size : ℕ) (pieces : List (ℕ × ℕ)) (b : Blocks) (free : ℕ → List ℕ)
    → IsFree b free
    → max_order < depth
    → IsTiling memory size pieces
    → ((i : ℕ) → length (free i) * page_size + size ≤ fuel * page_size)
    → IsOwned free memory size
    → Gives (Given free memory size) (insert_all depth fuel pieces b)
unfolding insert_all
insert_all-conserves depth fuel memory size [] b free k deep_enough none enough out = record {
  after = free;
  is_free = k;
  covers = λ p. rw (none, within-none memory p) (omega arith);
}
insert_all-conserves depth fuel memory size ((a, o) ∷ ps) b free k deep_enough (e, h, le, tiles)
      enough out =
    let page : page_size ≤ bytes o = bytes_mono 0 o (omega arith) in
    rw e (
      Gives-bind (Grown free memory o) (Given free memory size)
        (block_insert_merge depth fuel memory o b) _
        (insert_merge-conserves depth fuel memory o b free k h (omega arith)
          (λ i. omega (arith, enough i)) (IsOwned-first o le out))
        λ g m.
          Gives-map _ (Given free memory size) (insert_all depth fuel ps g)
            (λ f r. Given-of_rest o le out m r)
            (insert_all-conserves depth fuel ((memory + bytes o) % 2 ^ 32) (size - bytes o) ps g
              m.after m.is_free deep_enough tiles
              (λ i. omega (arith, enough i, m.longer i, page, le)) (IsOwned-rest o le out m)))

owned_small : {free : ℕ → List ℕ} {memory size : ℕ} → IsOwned free memory size → size < 2 ^ 32
owned_small {free} {memory} {size} out = elim (ℕ_discrete size 0) [
  | yes e ↦ rw e (omega arith)
  | no ne ↦ let some = out.nonnull (omega (arith, ne)) in omega (arith, some, out.fits)
]

-- With the free lists well formed and fuel for every list with the pages in it, `buddyFreeMemory`
-- of pages that have no byte in common with the free blocks ends with well formed lists, whose
-- blocks cover what the free ones covered and the pages, each byte once.
pub free_memory-conserves :
    (rounds depth fuel memory pages : ℕ) (b : Blocks) (free : ℕ → List ℕ)
    → IsFree b free
    → pages ≤ rounds
    → max_order < depth
    → ((i : ℕ) → length (free i) + pages ≤ fuel)
    → IsOwned free memory (pages * page_size)
    → Gives
        (Given free memory (pages * page_size))
        (buddy_free_memory rounds depth fuel memory (pages * page_size) b)
free_memory-conserves rounds depth fuel memory pages b free k rounds_enough deep_enough enough out =
    let cut = free_memory-tiles rounds depth fuel memory pages rounds_enough (owned_small out) in
    rw (cut.runs b) (
      insert_all-conserves depth fuel memory (pages * page_size) cut.pieces b free k deep_enough
        cut.tiles (λ i. omega (arith, enough i)) out)
