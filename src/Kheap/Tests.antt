-- ===== src/Kheap/Tests.antt =====
-- The theorems on the heap of the kernel at one with a block of 64 bytes, and runs of it.
use ukernel_mp.Base.{ℕ, ◌≡◌, refl, inl, [], ◌∷◌, arith}
use ukernel_mp.Kheap.Ops.{
  Kheap, round_size, grow_size, msb32, kmalloc, kfree, insert_block, insert_tested, block_at,
  take_block, kmalloc_grown,
}
use ukernel_mp.Kheap.Sorted.{IsGrown}
use ukernel_mp.Kheap.Alloc.{IsGood, Kmalloced, rounded, grow, kmalloc-Kmalloced, kfree-IsGrown}

abbrev a_heap : Kheap
a_heap = record { size = 0x2000; grow = 0x2000; blocks = block_at 0x1000 64 ∷ [] }

abbrev get : ℕ → ℕ
get n = 0x8000

good : IsGood get 21 a_heap
unfolding round_size grow_size
good = record {
  ready = omega arith;
  in_order = (omega arith, omega arith, omega arith);
  positive = omega arith;
  small = omega arith;
  room = omega arith;
  fits = omega arith;
  apart = (inl (omega arith), tt);
}

kmalloc-Kmalloced_example :
    Kmalloced a_heap 0x8000 (grow get 21 a_heap) (rounded get 21 a_heap) (kmalloc get 21 a_heap)
kmalloc-Kmalloced_example = kmalloc-Kmalloced get 21 a_heap good

-- 24 bytes of the block.
kmalloc_runs : (kmalloc get 21 a_heap).0 ≡ 0x1028
unfolding kmalloc round_size grow_size take_block
kmalloc_runs = refl

round_size-pair : (round_size 24 ≡ 24) × (round_size 3 ≡ 8)
unfolding round_size
round_size-pair = (refl, refl)

kfree-IsGrown_example :
    IsGrown 1 a_heap.blocks 0x1040 (round_size 24) (kfree 0x1040 24 a_heap).blocks
unfolding round_size
kfree-IsGrown_example =
    kfree-IsGrown 0x1040 24 a_heap (omega arith, omega arith, omega arith) (omega arith)
      (omega arith) (omega arith) (inl (omega arith), tt)

-- The free block of 4 bytes at 0x8000 has its header in the memory that is returned.
header_overlaps :
    kmalloc get 0xffc (record { size = 0; grow = 0x1000; blocks = [] })
    ≡ (0x8004, record { size = 0x1000; grow = 0x1000; blocks = block_at 0x8000 4 ∷ [] })
unfolding kmalloc round_size grow_size take_block kmalloc_grown insert_tested insert_block msb32
header_overlaps = refl
