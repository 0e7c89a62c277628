-- ===== src/Mpool/Tests.antt =====
-- The theorems on memory/mpool.c at a pool of pages and at a pool of objects of 64 bytes.
use ukernel_mp.Base.{ℕ, ◌≡◌, ◌≤◌, ◌⊎◌, refl, true, false, [], ◌∷◌, arith}
use ukernel_mp.Buddy.Cover.{within}
use ukernel_mp.Kheap.Ops.{block_at}
use ukernel_mp.Kheap.Sorted.{heap_cover}
use ukernel_mp.Zone.Manager.{round_up}
use ukernel_mp.Mpool.Ring.{pmm_insert}
use ukernel_mp.Mpool.Ops.{
  Allocation, free_allocation, fixed_allocation, Flags, Mpool, round_down, block_size,
  memory_block_alloc, memory_block_free, mpool_memory_alloc, mpool_memory_free,
}
use ukernel_mp.Mpool.Blocks.{
  IsPool, IsGiven, IsRefused, IsReturned, block_alloc-IsGiven, block_free-IsReturned,
}
use ukernel_mp.Mpool.Objects.{
  IsStock, stock_cover, IsHanded, IsNone, IsBack, object_alloc-IsHanded, object_free-IsBack,
}

abbrev flags : Allocation → Flags
flags a = record {
  allocation = a;
  align_check = true;
  use_pointers = false;
  unmapped = false;
  integrate_hdr = true;
  remote_hdr = false;
}

-- The block behind the others has become the first.
abbrev pages : Mpool
pages = record {
  head = block_at 0x5000 0x3000 ∷ block_at 0x1000 0x1000 ∷ [];
  start = 0x1000;
  end = 0x8000;
  free = 0x1000;
  size = 0x1000;
  flags = flags free_allocation;
  is_free = true;
  is_full = false;
}

pages-IsPool : IsPool pages
pages-IsPool = record {
  any = refl;
  fit = (
    record { addr = omega arith; size = omega arith; end = omega arith },
    (record { addr = omega arith; size = omega arith; end = omega arith }, tt),
  );
  full = refl;
}

block_alloc-IsGiven_example :
    IsGiven pages (block_size 5000 pages) (memory_block_alloc 5000 pages)
    ⊎ IsRefused pages (block_size 5000 pages) (memory_block_alloc 5000 pages)
unfolding block_size round_up
block_alloc-IsGiven_example =
    block_alloc-IsGiven pages 5000 pages-IsPool (omega arith) (omega arith)

pages_once : (q : ℕ) → heap_cover pages.head q ≤ 1
unfolding within
pages_once q = ground arith

pages_out :
    (q : ℕ)
    → within (round_down 0x3000 0x1000) (block_size 0x2000 pages) q ≡ 1
    → heap_cover pages.head q ≡ 0
unfolding block_size round_up round_down within
pages_out q h = ground arith

block_free-IsReturned_example :
    IsReturned pages
      (round_down 0x3000 0x1000)
      (block_size 0x2000 pages)
      (memory_block_free 0x3000 0x2000 pages)
unfolding block_size round_up round_down
block_free-IsReturned_example =
    block_free-IsReturned pages 0x3000 0x2000 pages-IsPool (omega arith) (omega arith) (omega arith)
      pages_once pages_out

-- The block in front of the first one is joined with it, though the last one is another.
pages_joined :
    pmm_insert pages.head 0x3000 0x2000 ≡ block_at 0x3000 0x5000 ∷ block_at 0x1000 0x1000 ∷ []
unfolding pmm_insert
pages_joined = refl

-- The objects at 0x1000 and 0x1080 have come back, those from 0x1100 on were not handed out.
abbrev objects : Mpool
objects = record {
  head = block_at 0x1080 0x40 ∷ block_at 0x1000 0x40 ∷ [];
  start = 0x1000;
  end = 0x2000;
  free = 0x1100;
  size = 0x40;
  flags = flags fixed_allocation;
  is_free = true;
  is_full = false;
}

objects-IsStock : IsStock objects
objects-IsStock = record {
  fixed = refl;
  size = omega arith;
  start = omega arith;
  end = omega arith;
  low = omega arith;
  high = omega arith;
  objects = ((refl, (omega arith, omega arith)), ((refl, (omega arith, omega arith)), tt));
}

object_alloc-IsHanded_example :
    IsHanded objects (mpool_memory_alloc objects) ⊎ IsNone objects (mpool_memory_alloc objects)
object_alloc-IsHanded_example = object_alloc-IsHanded objects objects-IsStock

objects_once : (q : ℕ) → stock_cover objects q ≤ 1
unfolding within
objects_once q = ground arith

objects_out : (q : ℕ) → within 0x10c0 0x40 q ≡ 1 → stock_cover objects q ≡ 0
unfolding within
objects_out q h = ground arith

object_free-IsBack_example : IsBack objects 0x10c0 (mpool_memory_free 0x10c0 objects)
object_free-IsBack_example =
    object_free-IsBack objects 0x10c0 objects-IsStock (omega arith) (omega arith) objects_once
      objects_out
