-- ===== src/Buddy/Ops.antt =====
-- The exported functions of memory/buddy_2.c on the free lists. Each holds the lock of the buddy
-- from its first access to its last one, so that it is one step for the other CPUs.
use Prim.Native.Nat.{bit_and, bit_xor}
use ukernel_mp.Base.{
  ℕ, zero, suc, Bool, ◌+◌, ◌-◌, ◌*◌, ◌%◌, ◌^◌, ◌==◌, ltb, leb, not, true, if◌then◌else◌,
}
use ukernel_mp.Glist.Heap.{Ptr, null}
use ukernel_mp.Buddy.Order.{bytes, max_order, get_order, get_max_order}
use ukernel_mp.Buddy.Blocks.{
  Blocks, Outcome, done, deep, endless, ◌>>=◌, block_get, block_insert, block_insert_merge,
}

-- `buddy_t` without its lock.
pub record Buddy : Type 0 where
  pub p_addr : ℕ
  pub v_addr : ℕ
  pub size : ℕ
  pub offset : ℕ
  pub available_memory : ℕ
  pub blocks : Blocks

-- The memory is that of `memory`, of which the heads are cleared.
unfoldable pub buddy_system_create : (p_addr v_addr size offset : ℕ) → Blocks → Buddy
buddy_system_create p_addr v_addr size offset memory = record {
  p_addr = p_addr;
  v_addr = v_addr;
  size = size;
  offset = offset;
  available_memory = (size + 2 ^ 32 - offset) % 2 ^ 32;
  blocks = record memory { heads = λ _. null };
}

-- `size & ~mask`
abbrev pub without : ℕ → ℕ → ℕ
without size mask = bit_and size (bit_xor mask (2 ^ 32 - 1))

-- The inner loop of `buddyInit`: the order is lowered until the block ends at `end` or before.
unfoldable pub lower_order : (order base end : ℕ) → Outcome (ℕ × ℕ)
lower_order zero base end = if ltb end base then endless else done (0, base)
lower_order (suc order) base end =
    let rest = lower_order order ((base + 2 ^ 32 - bytes order) % 2 ^ 32) end in
    if ltb end base then rest else done (suc order, base)

unfoldable pub init_loop : (rounds depth fuel base end : ℕ) → Blocks → Outcome Blocks
unfolding lower_order
init_loop zero depth fuel base end b = endless
init_loop (suc rounds) depth fuel base end b =
    let order = get_order base in
    if ltb base end
    then (lower_order order ((base + bytes order) % 2 ^ 32) end >>= λ r.
        block_insert_merge depth fuel base r.0 b >>= init_loop rounds depth fuel r.1 end)
    else done b

unfoldable pub buddy_init : (rounds depth fuel : ℕ) → Buddy → Outcome Buddy
unfolding init_loop
buddy_init rounds depth fuel buddy =
    let base = (buddy.v_addr + buddy.offset) % 2 ^ 32 in
    init_loop rounds depth fuel base ((base + buddy.available_memory) % 2 ^ 32) buddy.blocks
    >>= λ g. done (record buddy { blocks = g })

-- Whether `buddyGetMemory` returns NULL before it takes the lock.
unfoldable pub is_refused : ℕ → Bool
is_refused size =
    if ltb (bytes max_order) size then true else not (without size (bytes (get_order size)) == 0)

unfoldable pub buddy_get_memory : (depth fuel size : ℕ) → Blocks → Outcome (Ptr × Blocks)
unfolding is_refused block_get
buddy_get_memory zero fuel size b = deep
buddy_get_memory (suc depth) fuel size b =
    let order = get_order size in
    let got = block_get order b in
    let above = buddy_get_memory depth fuel (size * 2 % 2 ^ 32) got.1 in
    if is_refused size
    then done (null, b)
    else (if got.0 == null
        then (above >>= λ r.
            if r.0 == null
            then done r
            else (block_insert fuel ((r.0 + size) % 2 ^ 32) order r.1 >>= λ g. done (r.0, g)))
        else done got)

-- The order of the block that `buddyFreeMemory` cuts off next.
unfoldable pub free_order : (memory size : ℕ) → ℕ
free_order memory size =
    if leb (get_order memory) (get_max_order size) then get_order memory else get_max_order size

unfoldable pub buddy_free_memory : (rounds depth fuel memory size : ℕ) → Blocks → Outcome Blocks
unfolding free_order
buddy_free_memory zero depth fuel memory size b = if size == 0 then done b else endless
buddy_free_memory (suc rounds) depth fuel memory size b =
    let order = free_order memory size in
    if size == 0
    then done b
    else (block_insert_merge depth fuel memory order b
        >>= buddy_free_memory rounds depth fuel ((memory + bytes order) % 2 ^ 32)
            ((size + 2 ^ 32 - bytes order) % 2 ^ 32))
