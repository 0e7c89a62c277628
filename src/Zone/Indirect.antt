-- ===== src/Zone/Indirect.antt =====
-- The pool of an indirect zone: memory/virtual/zoneindirect.c over memory/mpool.c.
use ukernel_mp.Base.{
  ℕ, true, false, ◌≡◌, ◌≢◌, ◌<◌, ◌≤◌, ◌+◌, ◌%◌, ◌^◌, refl, ap, arith, Option, none, some, ==_ne,
  ltb,
}
use ukernel_mp.Glist.Heap.{null}
use ukernel_mp.Buddy.Order.{page_size}
use ukernel_mp.Buddy.Cover.{within}
use ukernel_mp.Kheap.Sorted.{heap_cover}
use ukernel_mp.Zone.Ops.{PoolOps, Zone, zone_create_indirect}
use ukernel_mp.Zone.Manager.{round_up}
use ukernel_mp.Mpool.Ring.{pmm_insert}
use ukernel_mp.Mpool.Ops.{
  free_allocation, Flags, Mpool, diff, round_down, min_alloc, place, new_pool, mpool_create,
  memory_block_alloc, memory_block_free,
}
use ukernel_mp.Mpool.Blocks.{IsPool}

-- `GetMemory` and `FreeMemory`
abbrev pub mpool_ops : PoolOps Mpool
mpool_ops = record { block_alloc = memory_block_alloc; block_free = memory_block_free }

abbrev pub zone_flags : Flags
zone_flags = record {
  allocation = free_allocation;
  align_check = true;
  use_pointers = false;
  unmapped = true;
  integrate_hdr = false;
  remote_hdr = false;
}

-- `kmalloc` has returned `remote` for the pool. Where there is no pool, the zone has none.
unfoldable pub zone_indirect_create : (remote p_addr v_addr size offset : ℕ) → Option (Zone Mpool)
unfolding mpool_create zone_create_indirect
zone_indirect_create remote p_addr v_addr size offset =
    elim (mpool_create remote p_addr ((p_addr + size) % 2 ^ 32) page_size page_size zone_flags) [
      | none ↦ none
      | some r ↦ some (zone_create_indirect r.1 p_addr v_addr size offset)
    ]

-- The pool of a new zone, and what is free in it.
pub record IsFilled (p_addr size : ℕ) (p : Mpool) : Type 0 where
  pub pool : IsPool p
  pub covers : (q : ℕ) → heap_cover p.head q ≡ within p_addr size q

-- The pool that `mPoolCreate` makes of the memory of the zone.
abbrev pub zone_pool : (p_addr size : ℕ) → Mpool
zone_pool p_addr size =
    new_pool p_addr ((p_addr + size) % 2 ^ 32) page_size (record zone_flags { remote_hdr = true })

module _ (p_addr size : ℕ) (nonnull : 0 < p_addr) (end : p_addr + size < 2 ^ 32)
    (some_page : page_size ≤ size) where
  whole : diff ((p_addr + size) % 2 ^ 32) p_addr ≡ size
  whole = omega (arith, end)

  zone_pool-IsFilled : IsFilled p_addr size (zone_pool p_addr size)
  unfolding new_pool pmm_insert
  zone_pool-IsFilled = record {
    pool = record {
      any = refl;
      fit = (
        record {
          addr = nonnull;
          size = omega (arith, whole, some_page);
          end = omega (arith, whole, end);
        },
        tt,
      );
      full = refl;
    };
    covers = λ q. omega (arith, ap (λ n. within p_addr n q) whole);
  }

  -- For memory of one page or more that is not at NULL, does not reach the end of the
  -- addresses, and begins and ends where ROUND_DOWN and ROUND_UP to pages leave the address as
  -- it is, `ZoneIndirectCreate` makes a pool, if `kmalloc` has room for it, that is well
  -- formed; exactly the memory of the zone is free in it. The descriptor that the pool takes
  -- from `kmalloc` is not looked at.
  pub zone_indirect_create-IsFilled :
      (remote v_addr offset : ℕ)
      → remote ≢ null
      → round_down p_addr page_size ≡ p_addr
      → round_up (p_addr + size) page_size ≡ p_addr + size
      → (zone_indirect_create remote p_addr v_addr size offset
          ≡ some (zone_create_indirect (zone_pool p_addr size) p_addr v_addr size offset))
        × IsFilled p_addr size (zone_pool p_addr size)
  unfolding zone_indirect_create mpool_create min_alloc place
  zone_indirect_create-IsFilled remote v_addr offset room low high =
      let last : (p_addr + size) % 2 ^ 32 ≡ p_addr + size = omega (arith, end) in
      let fits : ltb (diff (p_addr + size) p_addr) page_size ≡ false =
        ground (arith, some_page, end) in
      (simp (zone_indirect_create, last, high, low, fits, ==_ne room) refl, zone_pool-IsFilled)
