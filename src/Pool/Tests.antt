-- ===== src/Pool/Tests.antt =====
-- The theorems on lib/allocator.c at an allocator of three objects of 8 bytes at the address 64, of
-- which the one at 64 is handed out, in front of one whose objects are all handed out.
use ukernel_mp.Base.{refl, arith, [], ◌∷◌, false, true}
use ukernel_mp.Pool.Ops.{Pool, allocator_free}
use ukernel_mp.Pool.Stack.{IsStack, IsFreed, allocator_free-IsFreed}

abbrev three : Pool
three = record {
  table = 64;
  free = 72;
  size = 24;
  nfree = 2;
  max_id = 3;
  alloc_size = 8;
  clean_memory = false;
  allow_expand = true;
  purge = true;
}

abbrev used_up : Pool
used_up = record three { table = 256; free = 0; nfree = 0 }

three-IsStack : IsStack three (λ _. 0) (72 ∷ 80 ∷ [])
three-IsStack = record {
  chain = (refl, (refl, refl));
  empty = λ e. cc e;
  count = refl;
  small = omega arith;
  distinct = (refl, (refl, tt));
  nonnull = refl;
}

allocator_free-IsFreed_example :
    IsFreed 64 (72 ∷ 80 ∷ []) (used_up ∷ []) (allocator_free 64 (three ∷ used_up ∷ []) (λ _. 0))
allocator_free-IsFreed_example =
    allocator_free-IsFreed three (λ _. 0) 64 (72 ∷ 80 ∷ []) (used_up ∷ []) three-IsStack refl
      (omega arith) (omega arith) refl (omega arith)
