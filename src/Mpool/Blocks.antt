-- ===== src/Mpool/Blocks.antt =====
-- Requests and returns of memory of any size of memory/mpool.c, and the free bytes of a pool.
use ukernel_mp.Base.{
  ◌&&◌, ◌||◌, not, ℕ, ◌≡◌, ◌≢◌, ◌<◌, ◌≤◌, ◌+◌, ◌-◌, ◌%◌, ◌^◌, ◌⊎◌, refl, sym, ap, ◌∙◌, arith, true,
  false, List, [], ◌∷◌, Bool-cases, inl, inr, ltb, some, none, Option, false≢true, ℕ_discrete,
}
use ukernel_mp.Glist.Heap.{Ptr, null}
use ukernel_mp.Buddy.Cover.{within, within-bound}
use ukernel_mp.Buddy.GiveBack.{within-append}
use ukernel_mp.Kheap.Ops.{Block, block_at}
use ukernel_mp.Kheap.Sorted.{heap_cover}
use ukernel_mp.Mpool.Ring.{min_size, trim, pmm_get, pmm_insert}
use ukernel_mp.Mpool.Insert.{IsFit, AreFit, pmm_insert-IsAdded}
use ukernel_mp.Mpool.Ops.{
  Mpool, is_any, is_empty, round_down, block_size, memory_block_alloc, memory_block_free,
}

-- No block has as much.
abbrev pub AreBelow : ℕ → List Block → Type 0
AreBelow n [] = Unit
AreBelow n (b ∷ bs) = (b.size < n) × AreBelow n bs

-- `r` is taken from the blocks `bs`, which leaves `ys`.
pub record IsCut (bs : List Block) (n : ℕ) (r : Block) (ys : List Block) : Type 0 where
  pub block : IsFit r
  pub fit : AreFit ys
  pub enough : n ≤ r.size
  pub waste : r.size < n + min_size
  pub covers : (p : ℕ) → heap_cover bs p ≡ within r.addr r.size p + heap_cover ys p

IsGot : List Block → ℕ → Option (Block × List Block) → Type 0
IsGot bs n none = AreBelow n bs
IsGot bs n (some r) = IsCut bs n r.0 r.1

module _ (n : ℕ) (some_byte : 0 < n) (small : n + min_size < 2 ^ 32) where
  trim-IsCut :
      (b : Block) (bs : List Block)
      → AreFit (b ∷ bs)
      → n ≤ b.size
      → IsCut (b ∷ bs) n (trim b bs n).0 (trim b bs n).1
  unfolding trim
  trim-IsCut b bs (h, hs) enough =
      let whole : (n + min_size) % 2 ^ 32 ≡ n + min_size = omega (arith, small) in
      rw whole (elim (Bool-cases (ltb b.size (n + min_size))) [
        | inl e ↦ rw e (record {
          block = h;
          fit = hs;
          enough = enough;
          waste = ground arith;
          covers = λ p. refl;
        })
        | inr e ↦
            let more : n + min_size ≤ b.size = ground arith in
            let base : (b.addr + n) % 2 ^ 32 ≡ b.addr + n = omega (arith, more, h.end) in
            let sum : b.size ≡ n + (b.size - n) = omega (arith, more) in
            rw (e, base)
              (record {
                block = record {
                  addr = h.addr;
                  size = some_byte;
                  end = omega (arith, more, h.end);
                };
                fit = (
                  record {
                    addr = omega (arith, h.addr);
                    size = omega (arith, more);
                    end = omega (arith, more, h.end);
                  },
                  hs,
                );
                enough = omega arith;
                waste = omega arith;
                covers = λ p.
                    let split : within b.addr b.size p
                        ≡ within b.addr n p + within (b.addr + n) (b.size - n) p =
                      ap (λ m. within b.addr m p) sum ∙ within-append b.addr n (b.size - n) p in
                    omega (arith, split);
              })
      ])

  IsGot-cons :
      (b : Block) (bs : List Block) (o : Option (Block × List Block))
      → IsFit b
      → b.size < n
      → IsGot bs n o
      → IsGot (b ∷ bs) n (elim o [ some r ↦ some (r.0, b ∷ r.1) | none ↦ none ])
  unfolding IsGot
  IsGot-cons b bs none h less g = (less, g)
  IsGot-cons b bs (some r) h less g = record {
    block = g.block;
    fit = (h, g.fit);
    enough = g.enough;
    waste = g.waste;
    covers = λ p. omega (arith, g.covers p);
  }

  pmm_get-IsGot : (bs : List Block) → AreFit bs → IsGot bs n (pmm_get bs n)
  unfolding pmm_get IsGot
  pmm_get-IsGot [] h = tt
  pmm_get-IsGot (b ∷ bs) (h, hs) = elim (Bool-cases (ltb b.size n)) [
    | inl e ↦ rw e (IsGot-cons b bs (pmm_get bs n) h (ground arith) (pmm_get-IsGot bs hs))
    | inr e ↦ rw e (trim-IsCut b bs (h, hs) (ground arith))
  ]

-- A pool of blocks of any size.
pub record IsPool (p : Mpool) : Type 0 where
  pub any : is_any p.flags.allocation ≡ true
  pub fit : AreFit p.head
  pub full : p.is_full ≡ is_empty p.head

-- The memory at `r.0` was free, and is no longer; the other memory that was free still is.
pub record IsGiven (p : Mpool) (n : ℕ) (r : Ptr × Mpool) : Type 0 where
  pub size : ℕ
  pub nonnull : r.0 ≢ null
  pub pool : IsPool r.1
  pub enough : n ≤ size
  pub waste : size < n + min_size
  pub covers : (q : ℕ) → heap_cover p.head q ≡ within r.0 size q + heap_cover r.1.head q

-- The pool has no block of `n` bytes, and stays as it is.
pub record IsRefused (p : Mpool) (n : ℕ) (r : Ptr × Mpool) : Type 0 where
  pub result : r ≡ (null, p)
  pub below : AreBelow n p.head

-- The pool with the rest of its blocks.
abbrev left_with : Mpool → List Block → Mpool
left_with p ys = record p {
  head = ys;
  is_free = p.is_free && not (is_empty ys);
  is_full = p.is_full || is_empty ys;
}

module _ (p : Mpool) (up : IsPool p) (n : ℕ) where
  answered :
      (o : Option (Block × List Block))
      → p.is_full ≡ false
      → IsGot p.head n o
      → IsGiven p n (elim o [ none ↦ (null, p) | some r ↦ (r.0.addr, left_with p r.1) ])
        ⊎ IsRefused p n (elim o [ none ↦ (null, p) | some r ↦ (r.0.addr, left_with p r.1) ])
  unfolding IsGot
  answered none room g = inr (record { result = refl; below = g })
  answered (some r) room g = inl (record {
    size = r.0.size;
    nonnull = omega (arith, g.block.addr);
    pool = record { any = up.any; fit = g.fit; full = rw room refl };
    enough = g.enough;
    waste = g.waste;
    covers = g.covers;
  })

  below_empty : (bs : List Block) → is_empty bs ≡ true → AreBelow n bs
  below_empty [] e = tt
  below_empty (b ∷ bs) e = absurd (false≢true e)

-- For a well formed pool of blocks of any size and a size that is not rounded to 0 and not close
-- to 2 ^ 32, `MemoryBlockAlloc` returns memory that was free and no longer is, of the rounded
-- size or up to 15 bytes more, with the rest as free as before; or it returns NULL and changes
-- nothing, where no free block has the rounded size.
pub block_alloc-IsGiven :
    (p : Mpool) (size : ℕ)
    → IsPool p
    → 0 < block_size size p
    → block_size size p + min_size < 2 ^ 32
    → IsGiven p (block_size size p) (memory_block_alloc size p)
      ⊎ IsRefused p (block_size size p) (memory_block_alloc size p)
unfolding memory_block_alloc
block_alloc-IsGiven p size up some_byte small = elim (Bool-cases p.is_full) [
  | inl e ↦
      simp (up.any, e)
        (inr (record {
          result = refl;
          below = below_empty p up (block_size size p) p.head (sym up.full ∙ e);
        }))
  | inr e ↦
      simp (up.any, e)
        (answered p up (block_size size p) (pmm_get p.head (block_size size p)) e
          (pmm_get-IsGot (block_size size p) some_byte small p.head up.fit))
]

-- A byte that is free at most once, and not at all in the range that is added.
pub once_with :
    (c addr n q d : ℕ) → d ≡ c + within addr n q → c ≤ 1 → (within addr n q ≡ 1 → c ≡ 0) → d ≤ 1
once_with c addr n q d sum once out = elim (ℕ_discrete (within addr n q) 1) [
  | yes e ↦ omega (arith, e, sum, out e)
  | no ne ↦ omega (arith, sum, once, within-bound addr n q, ne)
]

-- The free memory is that of `p` and the range, and no byte of it is free twice.
pub record IsReturned (p : Mpool) (addr n : ℕ) (g : Mpool) : Type 0 where
  pub pool : IsPool g
  pub covers : (q : ℕ) → heap_cover g.head q ≡ heap_cover p.head q + within addr n q
  pub once : (q : ℕ) → heap_cover g.head q ≤ 1

not_empty : (bs : List Block) (q : ℕ) → 0 < heap_cover bs q → is_empty bs ≡ false
not_empty [] q h = absurd (omega arith)
not_empty (b ∷ bs) q h = refl

within-first : (a n : ℕ) → 0 < n → 0 < within a n a
unfolding within
within-first a n h = ground arith

-- For a well formed pool of blocks of any size in which no byte is free twice, `MemoryBlockFree`
-- of memory that does not begin at NULL, ends within the addresses and is not free gives the
-- range, as it is rounded, to the free memory, and nothing else, in whatever order the blocks
-- are; the pool stays well formed and has memory again, and no byte is free twice.
pub block_free-IsReturned :
    (p : Mpool) (ptr size : ℕ)
    → IsPool p
    → 0 < round_down ptr p.size
    → 0 < block_size size p
    → round_down ptr p.size + block_size size p ≤ 2 ^ 32
    → ((q : ℕ) → heap_cover p.head q ≤ 1)
    → ((q : ℕ) → within (round_down ptr p.size) (block_size size p) q ≡ 1 → heap_cover p.head q ≡ 0)
    → IsReturned p (round_down ptr p.size) (block_size size p) (memory_block_free ptr size p)
unfolding memory_block_free
block_free-IsReturned p ptr size up nonnull some_byte room once out =
    let r = block_at (round_down ptr p.size) (block_size size p) in
    let added =
      pmm_insert-IsAdded p.head r up.fit
        (record { addr = nonnull; size = some_byte; end = room }) in
    let filled : 0 < heap_cover (pmm_insert p.head r.addr r.size) r.addr =
      omega (arith, added.covers r.addr, within-first r.addr r.size some_byte) in
    simp up.any (record {
      pool = record {
        any = up.any;
        fit = added.fit;
        full = sym (not_empty (pmm_insert p.head r.addr r.size) r.addr filled);
      };
      covers = added.covers;
      once =
          λ q. once_with (heap_cover p.head q) r.addr r.size q _ (added.covers q) (once q) (out q);
    })
