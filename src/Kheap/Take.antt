-- ===== src/Kheap/Take.antt =====
-- The loop of `kmalloc` over the free blocks.
use ukernel_mp.Base.{
  ℕ, ◌≡◌, ◌<◌, ◌≤◌, ◌+◌, ◌-◌, ◌%◌, ◌^◌, inl, inr, ap, ◌∙◌, arith, List, [], ◌∷◌, Bool-cases, ltb,
  Option, some, none,
}
use ukernel_mp.Glist.Heap.{Ptr}
use ukernel_mp.Buddy.Cover.{within}
use ukernel_mp.Buddy.GiveBack.{within-append}
use ukernel_mp.Kheap.Ops.{Block, header, take_block}
use ukernel_mp.Kheap.Sorted.{IsFrom, heap_cover, IsFrom-bound, IsFrom-mono}

-- No block is large enough.
abbrev pub IsSmall : ℕ → List Block → Type 0
IsSmall size [] = Unit
IsSmall size (b ∷ bs) = (b.size < size) × IsSmall size bs

-- Of the bytes of `bs`, `given` from `addr` on are not free any more: the size or a little more.
pub record IsTaken (n : ℕ) (bs : List Block) (size addr : ℕ) (ys : List Block) : Type 0 where
  pub given : ℕ
  pub enough : size ≤ given
  pub little : given < size + header
  pub start : n ≤ addr
  pub fits : addr + given ≤ 2 ^ 32
  pub in_order : IsFrom n ys
  pub covers : (p : ℕ) → heap_cover ys p + within addr given p ≡ heap_cover bs p

abbrev pub Takes : ℕ → List Block → ℕ → Option (Ptr × List Block) → Type 0
Takes n bs size none = IsSmall size bs
Takes n bs size (some r) = IsTaken n bs size r.0 r.1

-- A block in front that is too small.
Takes-cons :
    (n : ℕ) (b : Block) (bs : List Block) (size : ℕ) (r : Option (Ptr × List Block))
    → n ≤ b.addr
    → 0 < b.size
    → b.size < size
    → Takes (b.addr + b.size) bs size r
    → Takes n (b ∷ bs) size (elim r [ some r ↦ some (r.0, b ∷ r.1) | none ↦ none ])
Takes-cons n b bs size none h more small t = (small, t)
Takes-cons n b bs size (some r) h more small t = record {
  given = t.given;
  enough = t.enough;
  little = t.little;
  start = omega (arith, t.start, h);
  fits = t.fits;
  in_order = (h, more, t.in_order);
  covers = λ p. omega (arith, t.covers p);
}

pub take_block-Takes :
    (n : ℕ) (bs : List Block) (size : ℕ)
    → IsFrom n bs
    → 0 < size
    → size + header < 2 ^ 32
    → Takes n bs size (take_block size bs)
unfolding take_block
take_block-Takes n [] size q positive small = tt
take_block-Takes n (b ∷ bs) size (h, more, rest) positive small =
    let bound = IsFrom-bound (b.addr + b.size) bs rest in
    let sum : (size + header) % 2 ^ 32 ≡ size + header = omega arith in
    rw sum (elim (Bool-cases (ltb b.size size)) [
      | inl e ↦ rw e (
          Takes-cons n b bs size (take_block size bs) h more (ground arith)
            (take_block-Takes (b.addr + b.size) bs size rest positive small))
      | inr e ↦
          let large : size ≤ b.size = ground arith in
          elim (Bool-cases (ltb b.size (size + header))) [
            | inl f ↦
                rw (e, f)
                  (record {
                    given = b.size;
                    enough = large;
                    little = ground arith;
                    start = h;
                    fits = bound;
                    in_order = IsFrom-mono n (b.addr + b.size) bs (omega (arith, h)) rest;
                    covers = λ p. omega arith;
                  })
            | inr f ↦
                let room : size + header ≤ b.size = ground arith in
                let at : (b.addr + (b.size - size)) % 2 ^ 32 ≡ b.addr + (b.size - size) =
                  omega (arith, bound, large, positive) in
                let whole : b.size ≡ (b.size - size) + size = omega (arith, large) in
                rw (e, f, at)
                  (record {
                    given = size;
                    enough = omega arith;
                    little = omega arith;
                    start = omega (arith, h);
                    fits = omega (arith, bound, large);
                    in_order = (
                      h,
                      omega (arith, room),
                      IsFrom-mono (b.addr + (b.size - size)) (b.addr + b.size) bs (omega arith)
                          rest,
                    );
                    covers = λ p.
                        let split =
                          ap (λ k. within b.addr k p) whole
                          ∙ within-append b.addr (b.size - size) size p in
                        omega (arith, split);
                  })
          ]
    ])
