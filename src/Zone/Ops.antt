-- ===== src/Zone/Ops.antt =====
-- One zone: memory/zone.c, and the handlers of memory/zonedirect.c and memory/virtual/zoneindirect.c. The memory
-- pool of an indirect zone is that of memory/mpool.c: its state and functions are parameters. The lock of
-- the zone is held throughout each handler and left out.
use ukernel_mp.Base.{ℕ, Bool, true, false, ◌+◌, ◌-◌, ◌%◌, ◌^◌, ◌&&◌, leb, if◌then◌else◌}
use ukernel_mp.Glist.Heap.{Ptr, null}
use ukernel_mp.Buddy.Blocks.{Blocks, Outcome, done, ◌>>=◌}
use ukernel_mp.Buddy.Ops.{
  Buddy, buddy_system_create, buddy_init, buddy_get_memory, buddy_free_memory,
}

pub data ZoneType : Type 0 where
  zone_direct zone_indirect : ZoneType

abbrev pub is_direct : ZoneType → Bool
is_direct zone_direct = true
is_direct zone_indirect = false

-- `MemoryBlockAlloc` and `MemoryBlockFree`
pub record PoolOps (P : Type 0) : Type 0 where
  pub block_alloc : ℕ → P → Ptr × P
  pub block_free : Ptr → ℕ → P → P

-- `buddy_t` of a direct zone, `mPool_t` of an indirect one.
pub data Store (P : Type 0) : Type 0 where
  buddy_store : Buddy → Store P
  pool_store : P → Store P

pub record Zone (P : Type 0) : Type 0 where
  pub zone_type : ZoneType
  pub p_addr : ℕ
  pub v_addr : ℕ
  pub size : ℕ
  pub available_memory : ℕ
  pub store : Store P

-- `addr` and the size against the range that starts at `base`.
unfoldable pub in_range : (base size addr n : ℕ) → Bool
in_range base size addr n = leb base addr && leb addr ((base + size + 2 ^ 32 - n) % 2 ^ 32)

module _ {P : Type 0} where
  unfoldable pub fit_address_space : Zone P → (is_paddr : Bool) → (addr n : ℕ) → Bool
  unfolding in_range
  fit_address_space z is_paddr addr n =
      if is_paddr
      then in_range z.p_addr z.size addr n
      else (if is_direct z.zone_type then in_range z.v_addr z.size addr n else false)

  unfoldable pub zone_l2p : Zone P → Ptr → Ptr
  unfolding fit_address_space
  zone_l2p z laddr =
      if is_direct z.zone_type && fit_address_space z false laddr 0
      then (z.p_addr + (laddr + 2 ^ 32 - z.v_addr)) % 2 ^ 32
      else null

  unfoldable pub zone_p2l : Zone P → Ptr → Ptr
  unfolding fit_address_space
  zone_p2l z paddr =
      if is_direct z.zone_type && fit_address_space z true paddr 0
      then (z.v_addr + (paddr + 2 ^ 32 - z.p_addr)) % 2 ^ 32
      else null

  unfoldable pub zone_init : ZoneType → (p_addr v_addr size offset : ℕ) → Store P → Zone P
  zone_init t p_addr v_addr size offset store = record {
    zone_type = t;
    p_addr = p_addr;
    v_addr = v_addr;
    size = size;
    available_memory = (size + 2 ^ 32 - offset) % 2 ^ 32;
    store = store;
  }

  -- `ZoneInit` and `ZoneDirectCreate`, as `ZoneCreateEarly` and `ZoneCreate` call them.
  unfoldable pub zone_create_direct :
      (rounds depth fuel p_addr v_addr size offset : ℕ) → Blocks → Outcome (Zone P)
  unfolding zone_init
  zone_create_direct rounds depth fuel p_addr v_addr size offset memory =
      buddy_init rounds depth fuel (buddy_system_create p_addr v_addr size offset memory) >>= λ b.
      done (zone_init zone_direct p_addr v_addr size offset (buddy_store b))

  -- With the pool that `mPoolCreate` has made.
  unfoldable pub zone_create_indirect : P → (p_addr v_addr size offset : ℕ) → Zone P
  unfolding zone_init
  zone_create_indirect pool p_addr v_addr size offset =
      zone_init zone_indirect p_addr v_addr size offset (pool_store pool)

  module _ (ops : PoolOps P) where
    -- The `GetMemory` of both kinds of zones.
    unfoldable pub store_get : (depth fuel size : ℕ) → Store P → Outcome (Ptr × Store P)
    store_get depth fuel size (buddy_store b) = buddy_get_memory depth fuel size b.blocks >>= λ r.
        done (r.0, buddy_store (record b { blocks = r.1 }))
    store_get depth fuel size (pool_store p) =
        let r = ops.block_alloc size p in done (r.0, pool_store r.1)

    -- The `FreeMemory` of both.
    unfoldable pub store_free : (rounds depth fuel memory size : ℕ) → Store P → Outcome (Store P)
    store_free rounds depth fuel memory size (buddy_store b) =
        buddy_free_memory rounds depth fuel memory size b.blocks >>= λ g.
        done (buddy_store (record b { blocks = g }))
    store_free rounds depth fuel memory size (pool_store p) =
        done (pool_store (ops.block_free memory size p))
