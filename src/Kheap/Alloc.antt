-- ===== src/Kheap/Alloc.antt =====
-- `kmalloc` and `kfree` and the free bytes of the heap.
use ukernel_mp.Base.{
  ℕ, ◌≡◌, ◌≢◌, ◌<◌, ◌≤◌, ◌+◌, ◌-◌, ◌%◌, ◌^◌, ◌⊎◌, inl, inr, refl, ap, ◌∙◌, arith, List, [], ◌∷◌,
  ℕ_discrete, Option, some, none, ==_ne,
}
use ukernel_mp.Glist.Heap.{Ptr, null}
use ukernel_mp.Buddy.Cover.{within}
use ukernel_mp.Buddy.GiveBack.{within-append}
use ukernel_mp.Kheap.Ops.{
  Block, Kheap, header, take_block, round_size, grow_size, kmalloc, kmalloc_grown, kfree,
  insert_tested,
}
use ukernel_mp.Kheap.Sorted.{IsFrom, heap_cover, IsApart, IsGrown}
use ukernel_mp.Kheap.Insert.{insert_block-IsGrown, insert_tested-insert_block}
use ukernel_mp.Kheap.Take.{IsSmall, IsTaken, Takes, take_block-Takes}

-- The bytes that `MemoryGet` has returned are free, less those that `kmalloc` returns.
pub record IsFetched (bs : List Block) (ptr grow size addr : ℕ) (ys : List Block) : Type 0 where
  pub small : IsSmall size bs
  pub in_order : IsFrom 1 ys
  pub covers : (p : ℕ) → heap_cover ys p + within addr size p ≡ heap_cover bs p + within ptr grow p

-- NULL, with nothing changed.
pub record IsRefused (h : Kheap) (ptr size : ℕ) (r : Ptr × Kheap) : Type 0 where
  pub small : IsSmall size h.blocks
  pub no_memory : ptr ≡ null
  pub result : r ≡ (null, h)

abbrev pub Kmalloced : Kheap → (ptr grow size : ℕ) → Ptr × Kheap → Type 0
Kmalloced h ptr grow size r =
    IsTaken 1 h.blocks size r.0 r.1.blocks
    ⊎ (IsFetched h.blocks ptr grow size r.0 r.1.blocks ⊎ IsRefused h ptr size r)

IsApart-part :
    (bs : List Block) (addr size part : ℕ)
    → part ≤ size
    → IsApart bs addr size
    → IsApart bs addr part
IsApart-part [] addr size part h a = tt
IsApart-part (b ∷ bs) addr size part h (inl q, a) = (inl q, IsApart-part bs addr size part h a)
IsApart-part (b ∷ bs) addr size part h (inr q, a) =
    (inr (omega (arith, q, h)), IsApart-part bs addr size part h a)

module _ (memory_get : ℕ → Ptr) (size : ℕ) (h : Kheap) where
  abbrev pub rounded : ℕ
  rounded = round_size size

  abbrev pub grow : ℕ
  grow = grow_size h.grow rounded

  -- The heap in order, and memory from `MemoryGet` that is not of the heap and has room for a header.
  pub record IsGood : Type 0 where
    pub ready : h.grow ≢ 0
    pub in_order : IsFrom 1 h.blocks
    pub positive : 0 < rounded
    pub small : rounded + header < 2 ^ 32
    pub room : rounded + header ≤ grow
    pub fits : memory_get grow + grow ≤ 2 ^ 32
    pub apart : IsApart h.blocks (memory_get grow) grow

  grown-IsFetched :
      IsGood
      → IsSmall rounded h.blocks
      → memory_get grow ≢ null
      → IsFetched h.blocks
          (memory_get grow)
          grow
          rounded
          (memory_get grow + (grow - rounded))
          (insert_tested h.blocks (memory_get grow) (grow - rounded))
  grown-IsFetched good none_fits some_memory =
      let left = grow - rounded in
      let whole : grow ≡ left + rounded = omega (arith, good.room) in
      let g =
        insert_block-IsGrown 1 h.blocks (memory_get grow) left (omega arith) good.in_order
          (omega (arith, some_memory)) (omega (arith, good.room)) (omega (arith, good.fits))
          (IsApart-part h.blocks (memory_get grow) grow left (omega arith) good.apart) in
      rw (insert_tested-insert_block 1 h.blocks (memory_get grow) left good.in_order) (record {
        small = none_fits;
        in_order = g.in_order;
        covers = λ p.
            let split : within (memory_get grow) grow p
                ≡ within (memory_get grow) left p + within (memory_get grow + left) rounded p =
              ap (λ k. within (memory_get grow) k p) whole
              ∙ within-append (memory_get grow) left rounded p in
            omega (arith, split, g.covers p);
      })

  kmalloc_grown-Kmalloced :
      IsGood
      → IsSmall rounded h.blocks
      → Kmalloced h (memory_get grow) grow rounded (kmalloc_grown (memory_get grow) grow rounded h)
  unfolding kmalloc_grown
  kmalloc_grown-Kmalloced good none_fits = elim (ℕ_discrete (memory_get grow) null) [
    | yes e ↦ rw e (inr (inr (record { small = none_fits; no_memory = refl; result = refl })))
    | no ne ↦
        let left : (grow + 2 ^ 32 - rounded) % 2 ^ 32 ≡ grow - rounded =
          omega (arith, good.room, good.fits, ne) in
        let at : (memory_get grow + (grow - rounded)) % 2 ^ 32
            ≡ memory_get grow + (grow - rounded) =
          omega (arith, good.room, good.fits, good.positive) in
        rw (==_ne ne, left, at) (inr (inl (grown-IsFetched good none_fits ne)))
  ]

  taken-Kmalloced :
      (r : Option (Ptr × List Block))
      → IsGood
      → Takes 1 h.blocks rounded r
      → Kmalloced h (memory_get grow) grow rounded (elim r [
        | some r ↦ (r.0, record h { blocks = r.1 })
        | none ↦ kmalloc_grown (memory_get grow) grow rounded h
      ])
  taken-Kmalloced none good t = kmalloc_grown-Kmalloced good t
  taken-Kmalloced (some r) good t = inl t

  -- With `grow` not 0, the free blocks in order, a size that is not close to 2 ^ 32, and memory
  -- from `MemoryGet` that is not of the heap and has room for the rounded size and a header
  -- (4089 to 4092 bytes, and other sizes just below a power of two, leave none), `kmalloc` does
  -- one of three things. It takes the size, or up to seven bytes more, out of the free bytes;
  -- or no block is large enough, and it takes the size out of the free bytes and those of
  -- `MemoryGet`; or no block is large enough and `MemoryGet` has none, and it returns NULL with
  -- nothing changed.
  pub kmalloc-Kmalloced :
      IsGood → Kmalloced h (memory_get grow) grow rounded (kmalloc memory_get size h)
  unfolding kmalloc
  kmalloc-Kmalloced good = rw (==_ne good.ready) (
      taken-Kmalloced (take_block rounded h.blocks) good
        (take_block-Takes 1 h.blocks rounded good.in_order good.positive good.small))

-- With the free blocks in order, `kfree` of bytes that are not among them, with the size rounded
-- as `kmalloc` does, gives blocks in order that are the free bytes and those.
pub kfree-IsGrown :
    (ptr size : ℕ) (h : Kheap)
    → IsFrom 1 h.blocks
    → 0 < ptr
    → 0 < round_size size
    → ptr + round_size size ≤ 2 ^ 32
    → IsApart h.blocks ptr (round_size size)
    → IsGrown 1 h.blocks ptr (round_size size) (kfree ptr size h).blocks
unfolding kfree
kfree-IsGrown ptr size h q pos positive fits apart =
    insert_block-IsGrown 1 h.blocks ptr (round_size size) (omega arith) q (omega arith) positive
      fits apart
