-- ===== src/Kheap/Sorted.antt =====
-- The free blocks of the heap in order, and the bytes that they are.
use ukernel_mp.Base.{ℕ, ◌≡◌, ◌<◌, ◌≤◌, ◌+◌, ◌^◌, ◌⊎◌, inr, arith, List, [], ◌∷◌}
use ukernel_mp.Buddy.Cover.{within}
use ukernel_mp.Kheap.Ops.{Block}

-- From `n` on, one behind the other, none empty, and none beyond the end of the addresses.
abbrev pub IsFrom : ℕ → List Block → Type 0
IsFrom n [] = n ≤ 2 ^ 32
IsFrom n (b ∷ bs) = (n ≤ b.addr) × (0 < b.size) × IsFrom (b.addr + b.size) bs

-- How many of the blocks hold the byte.
abbrev pub heap_cover : List Block → ℕ → ℕ
heap_cover [] p = 0
heap_cover (b ∷ bs) p = within b.addr b.size p + heap_cover bs p

-- The range has no byte in common with the blocks.
abbrev pub IsApart : List Block → (addr size : ℕ) → Type 0
IsApart [] addr size = Unit
IsApart (b ∷ bs) addr size =
    ((b.addr + b.size ≤ addr) ⊎ (addr + size ≤ b.addr)) × IsApart bs addr size

pub IsFrom-bound : (n : ℕ) (bs : List Block) → IsFrom n bs → n ≤ 2 ^ 32
IsFrom-bound n [] h = h
IsFrom-bound n (b ∷ bs) (h, some, rest) =
    omega (arith, h, some, IsFrom-bound (b.addr + b.size) bs rest)

pub IsFrom-mono : (k n : ℕ) (bs : List Block) → k ≤ n → IsFrom n bs → IsFrom k bs
IsFrom-mono k n [] h q = omega (arith, h, q)
IsFrom-mono k n (b ∷ bs) h (q, some, rest) = (omega (arith, h, q), some, rest)

-- Behind a block that lies behind the range, the rest does too.
pub IsApart-behind :
    (addr size n : ℕ) (bs : List Block) → addr + size ≤ n → IsFrom n bs → IsApart bs addr size
IsApart-behind addr size n [] h q = tt
IsApart-behind addr size n (b ∷ bs) h (q, some, rest) = (
  inr (omega (arith, h, q)),
  IsApart-behind addr size (b.addr + b.size) bs (omega (arith, h, q)) rest,
)

-- The result is in order, and covers what `bs` does and the range.
pub record IsGrown (n : ℕ) (bs : List Block) (addr size : ℕ) (ys : List Block) : Type 0 where
  pub in_order : IsFrom n ys
  pub covers : (p : ℕ) → heap_cover ys p ≡ heap_cover bs p + within addr size p
