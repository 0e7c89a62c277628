-- ===== src/Mpool/Insert.antt =====
-- `pmmInsert` of memory/mpool.c gives exactly the range to the free blocks, in whatever order they
-- are.
use ukernel_mp.Base.{
  Option, ℕ, ◌≡◌, ◌<◌, ◌≤◌, ◌+◌, ◌%◌, ◌^◌, ◌==◌, refl, ap, ◌∙◌, arith, true, List, [], ◌∷◌,
  Bool-cases, inl, inr, ltb, some, none,
}
use ukernel_mp.Buddy.Cover.{within}
use ukernel_mp.Buddy.GiveBack.{within-append}
use ukernel_mp.Kheap.Ops.{Block, block_at, block_end, widen}
use ukernel_mp.Kheap.Sorted.{heap_cover}
use ukernel_mp.Mpool.Ring.{
  join, insert_walk, last_block, but_last, widen_last, insert_first, pmm_insert,
}

-- Not at NULL, not empty, and not beyond the end of the addresses.
pub record IsFit (b : Block) : Type 0 where
  pub addr : 0 < b.addr
  pub size : 0 < b.size
  pub end : b.addr + b.size ≤ 2 ^ 32

abbrev pub AreFit : List Block → Type 0
AreFit [] = Unit
AreFit (b ∷ bs) = IsFit b × AreFit bs

-- The result is well formed, and covers what `bs` does and the block.
pub record IsAdded (bs : List Block) (r : Block) (ys : List Block) : Type 0 where
  pub fit : AreFit ys
  pub covers : (p : ℕ) → heap_cover ys p ≡ heap_cover bs p + within r.addr r.size p

IsAdded-cons :
    (b : Block) (bs : List Block) (r : Block) (ys : List Block)
    → IsFit b
    → IsAdded bs r ys
    → IsAdded (b ∷ bs) r (b ∷ ys)
IsAdded-cons b bs r ys h a = record { fit = (h, a.fit); covers = λ p. omega (arith, a.covers p) }

-- A block with the one behind it.
module _ (b r : Block) (hb : IsFit b) (hr : IsFit r) (next : b.addr + b.size ≡ r.addr) where
  both_size : (b.size + r.size) % 2 ^ 32 ≡ b.size + r.size
  both_size = omega (arith, next, hb.addr, hr.end)

  widen-IsFit : IsFit (widen b r.size)
  widen-IsFit = record {
    addr = hb.addr;
    size = omega (arith, both_size, hb.size);
    end = omega (arith, both_size, next, hr.end);
  }

  widen-covers :
      (p : ℕ)
      → within b.addr (widen b r.size).size p ≡ within b.addr b.size p + within r.addr r.size p
  widen-covers p =
      ap (λ n. within b.addr n p) both_size
      ∙ within-append b.addr b.size r.size p
      ∙ ap (λ a. within b.addr b.size p + within a r.size p) next

end_eq :
    (b r : Block) → IsFit b → IsFit r → (block_end b == r.addr) ≡ true → b.addr + b.size ≡ r.addr
end_eq b r hb hr e =
    let same : (b.addr + b.size) % 2 ^ 32 ≡ r.addr = ground (arith, e) in
    omega (arith, same, hb.end, hr.addr)

touches_eq :
    (it r : Block)
    → IsFit it
    → IsFit r
    → (it.addr == ((r.addr + r.size) % 2 ^ 32)) ≡ true
    → r.addr + r.size ≡ it.addr
touches_eq it r hi hr e =
    let same : it.addr ≡ (r.addr + r.size) % 2 ^ 32 = ground (arith, e) in
    omega (arith, same, hr.end, hi.addr)

swapped : (r it : Block) → widen r it.size ≡ block_at r.addr ((it.size + r.size) % 2 ^ 32)
swapped r it = let e : r.size + it.size ≡ it.size + r.size = omega arith in rw e refl

join-IsAdded :
    (prev it : Block) (rest : List Block) (r : Block)
    → IsFit prev
    → IsFit it
    → AreFit rest
    → IsFit r
    → IsAdded (prev ∷ it ∷ rest) r (join prev it rest r.addr r.size)
unfolding join
join-IsAdded prev it rest r hp hi hs hr = elim (Bool-cases (block_end prev == r.addr)) [
  | inl e ↦
      let left = end_eq prev r hp hr e in
      let wide = widen prev r.size in
      let fit = widen-IsFit prev r hp hr left in
      elim (Bool-cases (it.addr == ((r.addr + r.size) % 2 ^ 32))) [
        | inl f ↦
            let right = touches_eq it r hi hr f in
            let meets : wide.addr + wide.size ≡ it.addr =
              omega (arith, both_size prev r hp hr left, left, right) in
            rw (e, f)
              (record {
                fit = (widen-IsFit wide it fit hi meets, hs);
                covers = λ p.
                    omega (
                      arith,
                      widen-covers wide it fit hi meets p,
                      widen-covers prev r hp hr left p,
                    );
              })
        | inr f ↦
            rw (e, f)
              (record {
                fit = (fit, (hi, hs));
                covers = λ p. omega (arith, widen-covers prev r hp hr left p);
              })
      ]
  | inr e ↦ elim (Bool-cases (it.addr == ((r.addr + r.size) % 2 ^ 32))) [
    | inl f ↦
        let right = touches_eq it r hi hr f in
        rw (e, f)
          (rw⁻¹ (swapped r it) (record {
            fit = (hp, (widen-IsFit r it hr hi right, hs));
            covers = λ p. omega (arith, widen-covers r it hr hi right p);
          }))
    | inr f ↦ rw (e, f) (record { fit = (hp, (hr, (hi, hs))); covers = λ p. omega arith })
  ]
]

-- The blocks that a loop has found, if it has found some.
IsFound : List Block → Block → Option (List Block) → Type 0
IsFound bs r none = Unit
IsFound bs r (some ys) = IsAdded bs r ys

IsFound-cons :
    (b : Block) (bs : List Block) (r : Block) (o : Option (List Block))
    → IsFit b
    → IsFound bs r o
    → IsFound (b ∷ bs) r (elim o [ some ys ↦ some (b ∷ ys) | none ↦ none ])
unfolding IsFound
IsFound-cons b bs r none h a = tt
IsFound-cons b bs r (some ys) h a = IsAdded-cons b bs r ys h a

insert_walk-IsFound :
    (prev : Block) (rest : List Block) (r : Block)
    → AreFit (prev ∷ rest)
    → IsFit r
    → IsFound (prev ∷ rest) r (insert_walk prev rest r.addr r.size)
unfolding insert_walk IsFound
insert_walk-IsFound prev [] r h hr = tt
insert_walk-IsFound prev (it ∷ rest) r (hp, (hi, hs)) hr = elim (Bool-cases (ltb r.addr it.addr)) [
  | inl e ↦ rw e (join-IsAdded prev it rest r hp hi hs hr)
  | inr e ↦ rw e (
      IsFound-cons prev (it ∷ rest) r (insert_walk it rest r.addr r.size) hp
        (insert_walk-IsFound it rest r (hi, hs) hr))
]

last-IsFit : (b : Block) (rest : List Block) → AreFit (b ∷ rest) → IsFit (last_block b rest)
last-IsFit b [] (h, hs) = h
last-IsFit b (next ∷ rest) (h, hs) = last-IsFit next rest hs

but_last-AreFit : (b : Block) (rest : List Block) → AreFit (b ∷ rest) → AreFit (but_last b rest)
but_last-AreFit b [] h = tt
but_last-AreFit b (next ∷ rest) (h, hs) = (h, but_last-AreFit next rest hs)

but_last-covers :
    (b : Block) (rest : List Block) (p : ℕ)
    → heap_cover (b ∷ rest) p
      ≡ heap_cover (but_last b rest) p + within (last_block b rest).addr (last_block b rest).size p
but_last-covers b [] p = omega arith
but_last-covers b (next ∷ rest) p = omega (arith, but_last-covers next rest p)

widen_last-IsAdded :
    (b : Block) (rest : List Block) (r : Block)
    → AreFit (b ∷ rest)
    → IsFit r
    → (last_block b rest).addr + (last_block b rest).size ≡ r.addr
    → IsAdded (b ∷ rest) r (widen_last b rest r.size)
widen_last-IsAdded b [] r (h, hs) hr next = record {
  fit = (widen-IsFit b r h hr next, tt);
  covers = λ p. omega (arith, widen-covers b r h hr next p);
}
widen_last-IsAdded b (it ∷ rest) r (h, hs) hr next =
    IsAdded-cons b (it ∷ rest) r (widen_last it rest r.size) h
      (widen_last-IsAdded it rest r hs hr next)

-- The range in front of the first block, in place of it where they touch.
front-IsAdded :
    (it : Block) (rest : List Block) (r : Block)
    → AreFit (it ∷ rest)
    → IsFit r
    → r.addr + r.size ≡ it.addr
    → IsAdded (it ∷ rest) r (block_at r.addr ((it.size + r.size) % 2 ^ 32) ∷ rest)
front-IsAdded it rest r (h, hs) hr right = rw⁻¹ (swapped r it) (record {
  fit = (widen-IsFit r it hr h right, hs);
  covers = λ p. omega (arith, widen-covers r it hr h right p);
})

-- Between the last block and the first one, where it touches both.
ends-IsAdded :
    (it next : Block) (rest : List Block) (r : Block)
    → AreFit (it ∷ next ∷ rest)
    → IsFit r
    → (last_block next rest).addr + (last_block next rest).size ≡ r.addr
    → r.addr + r.size ≡ it.addr
    → IsAdded
        (it ∷ next ∷ rest)
        r
        (widen (widen (last_block next rest) r.size) it.size ∷ but_last next rest)
ends-IsAdded it next rest r (hi, hs) hr left right =
    let last = last_block next rest in
    let hl = last-IsFit next rest hs in
    let wide = widen last r.size in
    let fit = widen-IsFit last r hl hr left in
    let meets : wide.addr + wide.size ≡ it.addr =
      omega (arith, both_size last r hl hr left, left, right) in
    record {
      fit = (widen-IsFit wide it fit hi meets, but_last-AreFit next rest hs);
      covers = λ p. omega (
        arith,
        widen-covers wide it fit hi meets p,
        widen-covers last r hl hr left p,
        but_last-covers next rest p,
      );
    }

insert_first-IsAdded :
    (it : Block) (rest : List Block) (r : Block)
    → AreFit (it ∷ rest)
    → IsFit r
    → IsAdded (it ∷ rest) r (insert_first it rest r.addr r.size)
unfolding insert_first
insert_first-IsAdded it [] r (hi, hs) hr = elim (Bool-cases (block_end it == r.addr)) [
  | inl e ↦
      let left = end_eq it r hi hr e in
      elim (Bool-cases (it.addr == ((r.addr + r.size) % 2 ^ 32))) [
        | inl f ↦ absurd (omega (arith, left, touches_eq it r hi hr f, hi.size))
        | inr f ↦ rw (e, f) (widen_last-IsAdded it [] r (hi, hs) hr left)
      ]
  | inr e ↦ elim (Bool-cases (it.addr == ((r.addr + r.size) % 2 ^ 32))) [
    | inl f ↦ rw (e, f) (front-IsAdded it [] r (hi, hs) hr (touches_eq it r hi hr f))
    | inr f ↦ rw (e, f) (record { fit = (hr, (hi, hs)); covers = λ p. omega arith })
  ]
]
insert_first-IsAdded it (next ∷ rest) r (hi, hs) hr =
    let hl = last-IsFit next rest hs in
    elim (Bool-cases (block_end (last_block next rest) == r.addr)) [
      | inl e ↦
          let left = end_eq (last_block next rest) r hl hr e in
          elim (Bool-cases (it.addr == ((r.addr + r.size) % 2 ^ 32))) [
            | inl f ↦
                rw (e, f) (ends-IsAdded it next rest r (hi, hs) hr left (touches_eq it r hi hr f))
            | inr f ↦
                rw (e, f)
                  (IsAdded-cons it (next ∷ rest) r (widen_last next rest r.size) hi
                    (widen_last-IsAdded next rest r hs hr left))
          ]
      | inr e ↦ elim (Bool-cases (it.addr == ((r.addr + r.size) % 2 ^ 32))) [
        | inl f ↦ rw (e, f) (front-IsAdded it (next ∷ rest) r (hi, hs) hr (touches_eq it r hi hr f))
        | inr f ↦ rw (e, f) (record { fit = (hr, (hi, hs)); covers = λ p. omega arith })
      ]
    ]

picked-IsAdded :
    (bs : List Block) (r : Block) (o : Option (List Block)) (zs : List Block)
    → IsFound bs r o
    → IsAdded bs r zs
    → IsAdded bs r (elim o [ some ys ↦ ys | none ↦ zs ])
unfolding IsFound
picked-IsAdded bs r none zs a b = b
picked-IsAdded bs r (some ys) zs a b = a

pub pmm_insert-IsAdded :
    (bs : List Block) (r : Block) → AreFit bs → IsFit r → IsAdded bs r (pmm_insert bs r.addr r.size)
unfolding pmm_insert
pmm_insert-IsAdded [] r h hr = record { fit = (hr, tt); covers = λ p. omega arith }
pmm_insert-IsAdded (it ∷ rest) r h hr = elim (Bool-cases (ltb r.addr it.addr)) [
  | inl e ↦ rw e (insert_first-IsAdded it rest r h hr)
  | inr e ↦ rw e (
      picked-IsAdded (it ∷ rest) r (insert_walk it rest r.addr r.size)
        (insert_first it rest r.addr r.size) (insert_walk-IsFound it rest r h hr)
        (insert_first-IsAdded it rest r h hr))
]
