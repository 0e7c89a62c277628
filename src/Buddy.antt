-- ===== src/Buddy.antt =====
-- memory/buddy_2.c, the buddy allocator that memory/makefile builds: `Order` has the functions from
-- sizes to orders, `Blocks` the free lists, `Ops` the exported functions, `Merging` and `Get` the
-- recursions of a merge and of an allocation, and `Pieces` what a freed range is cut into. `Rows` and
-- `Taken` are about the links of one list, `Cover`, `Free` and `Grown` about the bytes that the blocks
-- of all lists are, `Places` about the loops that search a list, `Joins` about two blocks that become
-- one, `Sizes` about the sizes of orders, and `Conserve`, `GiveBack`, `Splits` and `Filling` about what the functions do to the free memory.
pub mod Order
pub mod Blocks
pub mod Ops
pub mod Pieces
pub mod Rows
pub mod Taken
pub mod Cover
pub mod Free
pub mod Grown
pub mod Places
pub mod Joins
pub mod Conserve
pub mod GiveBack
pub mod Sizes
pub mod Splits
pub mod Filling
pub mod Merging
pub mod Get
mod Tests
