-- ===== src/Kheap/Insert.antt =====
-- `HeapBlockInsert` keeps the blocks in order and gives exactly the range to them.
use ukernel_mp.Base.{
  ℕ, ◌≡◌, ◌<◌, ◌≤◌, ◌+◌, ◌%◌, ◌^◌, ◌==◌, ◌⊎◌, inl, inr, refl, sym, ap, subst, some, none, ◌∙◌,
  arith, true, List, [], ◌∷◌, Bool-cases, ltb,
}
use ukernel_mp.Buddy.Cover.{within}
use ukernel_mp.Buddy.GiveBack.{within-append}
use ukernel_mp.Kheap.Ops.{
  Block, block_at, block_merge, block_expand, insert_behind, insert_block, insert_last,
  insert_tested, last_addr,
}
use ukernel_mp.Kheap.Sorted.{IsFrom, IsApart, IsFrom-bound, IsGrown}

-- A block in front of others.
pub block_merge-IsGrown :
    (n addr size : ℕ) (bs : List Block)
    → 0 < n
    → n ≤ addr
    → 0 < size
    → IsFrom (addr + size) bs
    → IsGrown n bs addr size (block_merge (block_at addr size) bs)
unfolding block_merge
block_merge-IsGrown n addr size [] pos h filled q = record {
  in_order = (h, filled, q);
  covers = λ p. omega arith;
}
block_merge-IsGrown n addr size (b ∷ bs) pos h filled (q, more, rest) =
    let bound = IsFrom-bound (b.addr + b.size) bs rest in
    let end : (addr + size) % 2 ^ 32 ≡ addr + size = omega (arith, q, more, bound) in
    rw end (elim (Bool-cases (addr + size == b.addr)) [
      | inl e ↦
          let next : addr + size ≡ b.addr = ground arith in
          let sum : (size + b.size) % 2 ^ 32 ≡ size + b.size = omega (arith, next, bound, pos, h) in
          let same_end : addr + (size + b.size) ≡ b.addr + b.size = omega (arith, next) in
          rw (e, sum)
            (record {
              in_order = (h, omega (arith, filled), subst (λ k. IsFrom k bs) (sym same_end) rest);
              covers = λ p.
                  let split : within addr (size + b.size) p
                      ≡ within addr size p + within b.addr b.size p =
                    within-append addr size b.size p
                    ∙ ap (λ a. within addr size p + within a b.size p) next in
                  omega (arith, split);
            })
      | inr e ↦ rw e (record { in_order = (h, filled, (q, more, rest)); covers = λ p. omega arith })
    ])

IsGrown-cons :
    (n : ℕ) (b : Block) (bs : List Block) (addr size : ℕ) (ys : List Block)
    → n ≤ b.addr
    → 0 < b.size
    → IsGrown (b.addr + b.size) bs addr size ys
    → IsGrown n (b ∷ bs) addr size (b ∷ ys)
IsGrown-cons n b bs addr size ys h filled g = record {
  in_order = (h, filled, g.in_order);
  covers = λ p. omega (arith, g.covers p);
}

-- The range behind the block and in front of the others.
insert_gap :
    (n : ℕ) (b : Block) (bs : List Block) (addr size : ℕ)
    → 0 < n
    → n ≤ b.addr
    → 0 < b.size
    → b.addr + b.size ≤ addr
    → 0 < size
    → IsFrom (addr + size) bs
    → IsGrown n (b ∷ bs) addr size (elim (block_expand b bs addr size) [
      | some ys ↦ ys
      | none ↦ b ∷ block_merge (block_at addr size) bs
    ])
unfolding block_expand
insert_gap n b bs addr size pos h more gap positive q =
    let bound = IsFrom-bound (addr + size) bs q in
    let end : (b.addr + b.size) % 2 ^ 32 ≡ b.addr + b.size = omega (arith, gap, bound, positive) in
    rw end (elim (Bool-cases (b.addr + b.size == addr)) [
      | inl e ↦
          let next : b.addr + b.size ≡ addr = ground arith in
          let sum : (b.size + size) % 2 ^ 32 ≡ b.size + size = omega (arith, next, bound, pos, h) in
          let same_end : b.addr + (b.size + size) ≡ addr + size = omega (arith, next) in
          let g =
            block_merge-IsGrown n b.addr (b.size + size) bs pos h (omega (arith, more))
              (subst (λ k. IsFrom k bs) (sym same_end) q) in
          rw (e, sum)
            (record {
              in_order = g.in_order;
              covers = λ p.
                  let split : within b.addr (b.size + size) p
                      ≡ within b.addr b.size p + within addr size p =
                    within-append b.addr b.size size p
                    ∙ ap (λ a. within b.addr b.size p + within a size p) next in
                  omega (arith, split, g.covers p);
            })
      | inr e ↦ rw e (
          IsGrown-cons n b bs addr size _ h more (
            block_merge-IsGrown (b.addr + b.size) addr size bs (omega (arith, more)) gap positive
              q))
    ])

-- Of the two sides that a range may be on.
gap_of :
    (b : Block) (addr size : ℕ)
    → b.addr < addr
    → (b.addr + b.size ≤ addr) ⊎ (addr + size ≤ b.addr)
    → b.addr + b.size ≤ addr
gap_of b addr size below (inl h) = h
gap_of b addr size below (inr h) = absurd (omega (arith, below, h))

behind_of :
    (b : Block) (bs : List Block) (n addr size : ℕ)
    → addr ≤ b.addr
    → IsFrom n (b ∷ bs)
    → (b.addr + b.size ≤ addr) ⊎ (addr + size ≤ b.addr)
    → IsFrom (addr + size) (b ∷ bs)
behind_of b bs n addr size above (h, more, rest) (inl q) = absurd (omega (arith, above, more, q))
behind_of b bs n addr size above (h, more, rest) (inr q) = (q, more, rest)

insert_behind-IsGrown :
    (n : ℕ) (b : Block) (bs : List Block) (addr size : ℕ)
    → 0 < n
    → IsFrom n (b ∷ bs)
    → b.addr < addr
    → 0 < size
    → addr + size ≤ 2 ^ 32
    → IsApart (b ∷ bs) addr size
    → IsGrown n (b ∷ bs) addr size (insert_behind b bs addr size)
unfolding insert_behind block_merge
insert_behind-IsGrown n b [] addr size pos (h, more, rest) below positive fits (away, apart) =
    insert_gap n b [] addr size pos h more (gap_of b addr size below away) positive fits
insert_behind-IsGrown n b (it ∷ bs) addr size pos (h, more, rest) below positive fits
      (away, apart) =
    elim (Bool-cases (ltb it.addr addr)) [
      | inl e ↦ rw e (
          IsGrown-cons n b (it ∷ bs) addr size _ h more (
            insert_behind-IsGrown (b.addr + b.size) it bs addr size (omega (arith, more)) rest
              (ground arith) positive fits apart))
      | inr e ↦ rw e (
          insert_gap n b (it ∷ bs) addr size pos h more (gap_of b addr size below away) positive
            (behind_of it bs (b.addr + b.size) addr size (ground arith) rest apart.0))
    ]

-- Give.
pub insert_block-IsGrown :
    (n : ℕ) (bs : List Block) (addr size : ℕ)
    → 0 < n
    → IsFrom n bs
    → n ≤ addr
    → 0 < size
    → addr + size ≤ 2 ^ 32
    → IsApart bs addr size
    → IsGrown n bs addr size (insert_block bs addr size)
unfolding insert_block
insert_block-IsGrown n [] addr size pos q h positive fits apart = record {
  in_order = (h, positive, fits);
  covers = λ p. omega arith;
}
insert_block-IsGrown n (it ∷ bs) addr size pos q h positive fits apart =
    elim (Bool-cases (ltb it.addr addr)) [
      | inl e ↦
          rw e (insert_behind-IsGrown n it bs addr size pos q (ground arith) positive fits apart)
      | inr e ↦ rw e (
          block_merge-IsGrown n addr size (it ∷ bs) pos h positive
            (behind_of it bs n addr size (ground arith) q apart.0))
    ]

last_addr-le : (n : ℕ) (b : Block) (bs : List Block) → IsFrom n (b ∷ bs) → b.addr ≤ last_addr b bs
last_addr-le n b [] q = omega arith
last_addr-le n b (it ∷ bs) (h, more, rest) =
    omega (arith, last_addr-le (b.addr + b.size) it bs rest, rest.0)

insert_last-behind :
    (n : ℕ) (b : Block) (bs : List Block) (addr size : ℕ)
    → IsFrom n (b ∷ bs)
    → last_addr b bs < addr
    → insert_last b bs addr size ≡ insert_behind b bs addr size
unfolding insert_last insert_behind
insert_last-behind n b [] addr size q below = refl
insert_last-behind n b (it ∷ bs) addr size (h, more, rest) below =
    let first = last_addr-le (b.addr + b.size) it bs rest in
    let e : ltb it.addr addr ≡ true = ground (arith, first, below) in
    rw e (ap (λ ys. b ∷ ys) (insert_last-behind (b.addr + b.size) it bs addr size rest below))

-- On blocks in order `HeapBlockInsert` does the same with the last block as `test` as with NULL.
pub insert_tested-insert_block :
    (n : ℕ) (bs : List Block) (addr size : ℕ)
    → IsFrom n bs
    → insert_tested bs addr size ≡ insert_block bs addr size
unfolding insert_tested insert_block
insert_tested-insert_block n [] addr size q = refl
insert_tested-insert_block n (b ∷ bs) addr size q = elim (Bool-cases (ltb (last_addr b bs) addr)) [
  | inl e ↦
      let below : last_addr b bs < addr = ground arith in
      let first : ltb b.addr addr ≡ true = ground (arith, last_addr-le n b bs q, below) in
      rw (e, first) (insert_last-behind n b bs addr size q below)
  | inr e ↦ rw e refl
]
