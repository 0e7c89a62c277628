-- ===== src/Kheap/Ops.antt =====
-- The functions of memory/kheap.c. The free blocks are a list of addresses and sizes: the chain by
-- `next` from `kheap.blocks`. The lock is held from the first access to the last one and left out.
use Prim.Native.Nat.{bit_and, bit_or, bit_xor}
use ukernel_mp.Base.{
  ℕ, ◌+◌, ◌-◌, ◌*◌, ◌/◌, ◌%◌, ◌^◌, ◌==◌, ltb, if◌then◌else◌, List, [], ◌∷◌, Option, none, some,
}
use ukernel_mp.Glist.Heap.{Ptr, null}

-- `heapBlock_t`
pub record Block : Type 0 where
  pub addr : Ptr
  pub size : ℕ

-- `kheap` without its lock
pub record Kheap : Type 0 where
  pub size : ℕ
  pub grow : ℕ
  pub blocks : List Block

-- `sizeof(heapBlock_t)`
abbrev pub header : ℕ
header = 8

abbrev pub spread : ℕ → ℕ → ℕ
spread x n = bit_or x (x / 2 ^ n)

unfoldable pub msb32 : ℕ → ℕ
msb32 x =
    let y = spread (spread (spread (spread (spread x 1) 2) 4) 8) 16 in
    bit_and y (bit_xor (y / 2) (2 ^ 32 - 1))

abbrev pub block_end : Block → ℕ
block_end b = (b.addr + b.size) % 2 ^ 32

abbrev pub widen : Block → ℕ → Block
widen b n = record b { size = (b.size + n) % 2 ^ 32 }

-- `block` in front of the blocks behind it.
unfoldable pub block_merge : Block → List Block → List Block
block_merge b [] = b ∷ []
block_merge b (next ∷ rest) =
    if block_end b == next.addr then widen b next.size ∷ rest else b ∷ next ∷ rest

-- `None` where it returns FALSE.
unfoldable pub block_expand : Block → List Block → (addr size : ℕ) → Option (List Block)
unfolding block_merge
block_expand b rest addr size =
    if block_end b == addr then some (block_merge (widen b size) rest) else none

abbrev pub block_at : (addr size : ℕ) → Block
block_at addr size = record { addr = addr; size = size }

-- The first branch of `HeapBlockInsert`, where the last block is `test`, in front of `addr`.
unfoldable pub insert_last : Block → List Block → (addr size : ℕ) → List Block
unfolding block_expand
insert_last b [] addr size = elim (block_expand b [] addr size) [
  | some ys ↦ ys
  | none ↦ b ∷ block_at addr size ∷ []
]
insert_last b (next ∷ rest) addr size = b ∷ insert_last next rest addr size

-- The loop from `prev` on, which is in front of `addr`, and what follows it.
unfoldable pub insert_behind : (prev : Block) → List Block → (addr size : ℕ) → List Block
unfolding block_expand block_merge
insert_behind prev [] addr size = elim (block_expand prev [] addr size) [
  | some ys ↦ ys
  | none ↦ prev ∷ block_at addr size ∷ []
]
insert_behind prev (it ∷ rest) addr size =
    let next = insert_behind it rest addr size in
    if ltb it.addr addr then prev ∷ next else elim (block_expand prev (it ∷ rest) addr size) [
      | some ys ↦ ys
      | none ↦ prev ∷ block_merge (block_at addr size) (it ∷ rest)
    ]

-- `HeapBlockInsert` with `test` NULL.
unfoldable pub insert_block : List Block → (addr size : ℕ) → List Block
unfolding insert_behind block_merge
insert_block [] addr size = block_at addr size ∷ []
insert_block (it ∷ rest) addr size =
    if ltb it.addr addr
    then insert_behind it rest addr size
    else block_merge (block_at addr size) (it ∷ rest)

abbrev pub last_addr : Block → List Block → Ptr
last_addr b [] = b.addr
last_addr b (next ∷ rest) = last_addr next rest

-- `HeapBlockInsert` with the last block, if there is one, as `test`.
unfoldable pub insert_tested : List Block → (addr size : ℕ) → List Block
unfolding insert_last insert_block
insert_tested [] addr size = insert_block [] addr size
insert_tested (b ∷ rest) addr size =
    if ltb (last_addr b rest) addr
    then insert_last b rest addr size
    else insert_block (b ∷ rest) addr size

-- The size that `kmalloc` and `kfree` go on with.
unfoldable pub round_size : ℕ → ℕ
round_size size =
    if ltb size header
    then header
    else (if bit_and size 3 == 0 then size else (bit_and size 0xfffffffc + 4) % 2 ^ 32)

-- The loop of `kmalloc`, with what it does to the first block that is large enough.
unfoldable pub take_block : ℕ → List Block → Option (Ptr × List Block)
take_block size [] = none
take_block size (it ∷ rest) =
    let later = take_block size rest in
    if ltb it.size size
    then (elim later [ some r ↦ some (r.0, it ∷ r.1) | none ↦ none ])
    else (if ltb it.size ((size + header) % 2 ^ 32)
        then some (it.addr, rest)
        else some
            ((it.addr + (it.size - size)) % 2 ^ 32, record it { size = it.size - size } ∷ rest))

-- `grow` of `kmalloc` where no block is large enough.
unfoldable pub grow_size : (grow size : ℕ) → ℕ
unfolding msb32
grow_size grow size =
    if ltb ((grow + 2 ^ 32 - header) % 2 ^ 32) size then msb32 (size * 2 % 2 ^ 32) else grow

-- `memory_get` is `MemoryGet` from the direct zones.
unfoldable pub kheap_init : (memory_get : ℕ → Ptr) (size grow : ℕ) → Option Kheap
kheap_init memory_get size grow =
    let ptr = memory_get size in
    if ptr == null
    then none
    else some (record { size = size; grow = grow; blocks = block_at ptr size ∷ [] })

-- The end of `kmalloc` where no block is large enough, with the memory at `ptr`.
unfoldable pub kmalloc_grown : (ptr grow size : ℕ) → Kheap → Ptr × Kheap
unfolding insert_tested
kmalloc_grown ptr grow size h =
    let left = (grow + 2 ^ 32 - size) % 2 ^ 32 in
    if ptr == null then (null, h) else (
      (ptr + left) % 2 ^ 32,
      record h { size = (h.size + grow) % 2 ^ 32; blocks = insert_tested h.blocks ptr left },
    )

unfoldable pub kmalloc : (memory_get : ℕ → Ptr) → ℕ → Kheap → Ptr × Kheap
unfolding round_size take_block grow_size kmalloc_grown
kmalloc memory_get size h =
    let n = round_size size in
    let grow = grow_size h.grow n in
    if h.grow == 0 then (null, h) else elim (take_block n h.blocks) [
      | some r ↦ (r.0, record h { blocks = r.1 })
      | none ↦ kmalloc_grown (memory_get grow) grow n h
    ]

unfoldable pub kfree : (ptr size : ℕ) → Kheap → Kheap
unfolding round_size insert_block
kfree ptr size h = record h { blocks = insert_block h.blocks ptr (round_size size) }
