-- ===== src/Buddy/Tests.antt =====
-- The theorems on the buddy allocator at concrete sizes, and runs of it.
use ukernel_mp.Base.{◌≡◌, ◌≢◌, ◌≤◌, ◌*◌, refl, arith, update, ℕ, [], length, ◌+◌}
use ukernel_mp.Buddy.Order.{bytes, page_size, max_order, get_max_order, get_max_order-fits}
use ukernel_mp.Buddy.Blocks.{Blocks, deep, block_insert_merge, link_only}
use ukernel_mp.Buddy.Ops.{buddy_get_memory, buddy_free_memory, buddy_init, buddy_system_create}
use ukernel_mp.Buddy.Get.{get_memory-ends, get_memory-zero}
use ukernel_mp.Buddy.Pieces.{bytes_mono}
use ukernel_mp.Buddy.Cover.{within-bound, within-twice}
use ukernel_mp.Buddy.Free.{IsFree}
use ukernel_mp.Buddy.Grown.{Grown, Grown-Linked}
use ukernel_mp.Buddy.Places.{Gives, link_first_lem}
use ukernel_mp.Buddy.Conserve.{insert_merge-conserves}
use ukernel_mp.Buddy.GiveBack.{Given, IsOwned, IsOwned-first, free_memory-conserves}
use ukernel_mp.Buddy.Splits.{Allocated, get_memory-conserves}
use ukernel_mp.Buddy.Filling.{covered-none, IsFree-none, create_init-fills}

abbrev empty : Blocks
empty = record { heads = λ _. 0; next = λ _. 0; prev = λ _. 0 }

-- A block of two pages at 0x2000.
abbrev two_pages : Blocks
two_pages = record { heads = update (λ _. 0) 1 0x2000; next = λ _. 0; prev = λ _. 0 }

get_max_order-fits_example : bytes (get_max_order 0x6000) ≤ 0x6000
get_max_order-fits_example = get_max_order-fits 0x6000 (omega arith)

get_memory-ends_example : buddy_get_memory 24 9 0x1000 two_pages ≢ deep
get_memory-ends_example = get_memory-ends 24 9 0x1000 two_pages (omega arith) (omega arith)

get_memory-zero_example : buddy_get_memory 30 9 0 two_pages ≡ deep
get_memory-zero_example = get_memory-zero 30 9 two_pages refl

-- One free block, at 0x2000.
abbrev one_block : ℕ → Blocks
one_block o = link_only 0x2000 o empty

first : (o : ℕ) → o ≤ max_order → Grown (λ _. []) 0x2000 o (one_block o)
first o h =
    let none : IsFree empty (λ _. []) = IsFree-none empty λ i. refl in
    let small = bytes_mono o max_order h in
    Grown-Linked none h
      (record {
        nonnull = λ e. absurd (omega (arith, e));
        fits = omega (arith, small);
        fresh = λ p. omega (arith, covered-none p, within-bound 0x2000 (bytes o) p);
      })
      (link_first_lem empty o 0x2000 [] (none.rows o h) refl (λ e. absurd (omega (arith, e))))

one_page : Grown (λ _. []) 0x2000 0 (one_block 0)
one_page = first 0 (omega arith)

-- The page behind it is its buddy.
behind_page : IsOwned one_page.after 0x3000 (1 * page_size)
behind_page = record {
  nonnull = λ h e. omega (arith, e);
  fits = omega arith;
  fresh = λ p. omega (
    arith,
    one_page.covers p,
    covered-none p,
    within-twice 0x2000 0 p,
    within-bound 0x2000 (bytes 1) p,
  );
}

one_page-length : (i : ℕ) → length (one_page.after i) ≤ 8
one_page-length i = omega (arith, one_page.longer i)

insert_merge-conserves_example :
    Gives (Grown one_page.after 0x3000 0) (block_insert_merge 11 9 0x3000 0 (one_block 0))
insert_merge-conserves_example =
    insert_merge-conserves 11 9 0x3000 0 (one_block 0) one_page.after one_page.is_free (omega arith)
      (omega arith) (λ i. omega (arith, one_page-length i))
      (IsOwned-first 0 (omega arith) behind_page)

free_memory-conserves_example :
    Gives
      (Given one_page.after 0x3000 (1 * page_size))
      (buddy_free_memory 2 11 9 0x3000 (1 * page_size) (one_block 0))
free_memory-conserves_example =
    free_memory-conserves 2 11 9 0x3000 1 (one_block 0) one_page.after one_page.is_free
      (omega arith) (omega arith) (λ i. omega (arith, one_page-length i)) behind_page

-- A page of a block of two.
free_pages : Grown (λ _. []) 0x2000 1 (one_block 1)
free_pages = first 1 (omega arith)

get_memory-conserves_example :
    Gives
      (Allocated free_pages.after 0 (one_block 1))
      (buddy_get_memory 24 9 (bytes 0) (one_block 1))
get_memory-conserves_example =
    get_memory-conserves 24 9 0 (one_block 1) free_pages.after free_pages.is_free (omega arith)
      (omega arith) λ i. omega (arith, free_pages.longer i)

create_init-fills_example :
    Gives
      (λ g. Given (λ _. []) (0x8000 + 0x1000) (6 * page_size) g.blocks)
      (buddy_init 7 11 9 (buddy_system_create 0 0x8000 0x7000 0x1000 empty))
create_init-fills_example =
    create_init-fills 7 11 9 0 0x8000 0x7000 0x1000 6 empty (omega arith) (omega arith)
      (omega arith) (omega arith) (omega arith) (omega arith)
