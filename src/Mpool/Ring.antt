-- ===== src/Mpool/Ring.antt =====
-- The free blocks of a pool of memory/mpool.c: a list from the head on. In a pool of blocks of any
-- size the last one is linked to the first, in one of objects the list ends. The descriptor of a
-- block is the block, also where `kmalloc` has given it. A block that is in the list already is not
-- described: the code links it to itself, and the list would hold it twice.
use ukernel_mp.Base.{
  ℕ, ◌+◌, ◌-◌, ◌%◌, ◌^◌, ◌==◌, ltb, if◌then◌else◌, List, [], ◌∷◌, Option, none, some,
}
use ukernel_mp.Kheap.Ops.{Block, block_at, block_end, widen}

-- `sizeof(pmm_t)`
abbrev pub min_size : ℕ
min_size = 16

-- Between two blocks: `it` is the first one behind the address.
unfoldable pub join : (prev it : Block) → List Block → (addr size : ℕ) → List Block
join prev it rest addr size =
    let touches = it.addr == ((addr + size) % 2 ^ 32) in
    if block_end prev == addr
    then (if touches then widen (widen prev size) it.size ∷ rest else widen prev size ∷ it ∷ rest)
    else (if touches
        then prev ∷ block_at addr ((it.size + size) % 2 ^ 32) ∷ rest
        else prev ∷ block_at addr size ∷ it ∷ rest)

-- The loop behind the first block; nothing where it comes back to it.
unfoldable pub insert_walk : (prev : Block) → List Block → (addr size : ℕ) → Option (List Block)
unfolding join
insert_walk prev [] addr size = none
insert_walk prev (it ∷ rest) addr size =
    let later = insert_walk it rest addr size in
    if ltb addr it.addr
    then some (join prev it rest addr size)
    else (elim later [ some ys ↦ some (prev ∷ ys) | none ↦ none ])

abbrev pub last_block : Block → List Block → Block
last_block b [] = b
last_block b (next ∷ rest) = last_block next rest

abbrev pub but_last : Block → List Block → List Block
but_last b [] = []
but_last b (next ∷ rest) = b ∷ but_last next rest

abbrev pub widen_last : Block → List Block → ℕ → List Block
widen_last b [] size = widen b size ∷ []
widen_last b (next ∷ rest) size = b ∷ widen_last next rest size

-- At the first block, with the last one in front of it.
unfoldable pub insert_first : Block → List Block → (addr size : ℕ) → List Block
insert_first it [] addr size =
    let touches = it.addr == ((addr + size) % 2 ^ 32) in
    let wide = widen it size in
    if block_end it == addr
    then (if touches then widen wide wide.size ∷ [] else wide ∷ [])
    else (if touches
        then block_at addr ((it.size + size) % 2 ^ 32) ∷ []
        else block_at addr size ∷ it ∷ [])
insert_first it (next ∷ rest) addr size =
    let touches = it.addr == ((addr + size) % 2 ^ 32) in
    let last = last_block next rest in
    if block_end last == addr
    then (if touches
        then widen (widen last size) it.size ∷ but_last next rest
        else it ∷ widen_last next rest size)
    else (if touches
        then block_at addr ((it.size + size) % 2 ^ 32) ∷ next ∷ rest
        else block_at addr size ∷ it ∷ next ∷ rest)

unfoldable pub pmm_insert : List Block → (addr size : ℕ) → List Block
unfolding insert_walk insert_first
pmm_insert [] addr size = block_at addr size ∷ []
pmm_insert (it ∷ rest) addr size =
    if ltb addr it.addr
    then insert_first it rest addr size
    else elim (insert_walk it rest addr size) [
      | some ys ↦ ys
      | none ↦ insert_first it rest addr size
    ]

-- What `pmmGet` does with the block that `pmmSearch` has found.
unfoldable pub trim : Block → List Block → ℕ → Block × List Block
trim b rest size =
    if ltb b.size ((size + min_size) % 2 ^ 32)
    then (b, rest)
    else (record b { size = size }, block_at ((b.addr + size) % 2 ^ 32) (b.size - size) ∷ rest)

unfoldable pub pmm_get : List Block → ℕ → Option (Block × List Block)
unfolding trim
pmm_get [] size = none
pmm_get (b ∷ rest) size =
    let later = pmm_get rest size in
    if ltb b.size size
    then (elim later [ some r ↦ some (r.0, b ∷ r.1) | none ↦ none ])
    else some (trim b rest size)

-- `LIST_INSERT`
unfoldable pub list_insert : Block → List Block → List Block
list_insert b [] = b ∷ []
list_insert b (it ∷ rest) =
    let later = list_insert b rest in if ltb b.addr it.addr then it ∷ later else b ∷ it ∷ rest
