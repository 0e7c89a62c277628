-- ===== src/Buddy/Pieces.antt =====
-- `buddyFreeMemory` gives back exactly the range that it is given, cut into blocks.
use mathlib.Core.Path.{fun_ext}
use native.Mathlib.Nat.{pow-le-pow_right}
use ukernel_mp.Base.{
  ℕ, zero, suc, ◌≡◌, ◌<◌, ◌≤◌, ◌+◌, ◌-◌, ◌*◌, ◌%◌, ◌^◌, refl, sym, ap, subst, ◌∙◌, List, [], ◌∷◌,
  arith, ==_ne, leb, Bool-cases, inl, inr,
}
use ukernel_mp.Buddy.Order.{
  page_size, max_order, bytes, get_order, get_max_order, get_order-bound, get_max_order-bound,
  get_max_order-fits,
}
use ukernel_mp.Buddy.Blocks.{Blocks, Outcome, done, ◌>>=◌, block_insert_merge}
use ukernel_mp.Buddy.Ops.{free_order, buddy_free_memory}

-- The blocks of the orders in the list, one behind the other, are the `size` bytes from `memory`
-- on; each has an order that the buddy has.
abbrev pub IsTiling : ℕ → ℕ → List (ℕ × ℕ) → Type 0
IsTiling memory size [] = size ≡ 0
IsTiling memory size ((a, o) ∷ ps) =
    (a ≡ memory)
    × (o ≤ max_order)
    × (bytes o ≤ size)
    × IsTiling ((memory + bytes o) % 2 ^ 32) (size - bytes o) ps

-- The blocks are inserted in this order.
unfoldable pub insert_all : (depth fuel : ℕ) → List (ℕ × ℕ) → Blocks → Outcome Blocks
insert_all depth fuel [] b = done b
insert_all depth fuel ((a, o) ∷ ps) b =
    block_insert_merge depth fuel a o b >>= insert_all depth fuel ps

free_order-bound : (memory size : ℕ) → free_order memory size ≤ max_order
unfolding free_order
free_order-bound memory size = ground (arith, get_order-bound memory, get_max_order-bound size)

pub bytes_mono : (a b : ℕ) → a ≤ b → bytes a ≤ bytes b
bytes_mono a b h = let e : 2 ^ a ≤ 2 ^ b = pow-le-pow_right (omega arith) h in omega (arith, e)

free_order-fits : (memory size : ℕ) → page_size ≤ size → bytes (free_order memory size) ≤ size
unfolding free_order
free_order-fits memory size h = elim (Bool-cases (leb (get_order memory) (get_max_order size))) [
  | inl e ↦ rw e (
      omega (
        arith,
        get_max_order-fits size h,
        bytes_mono (get_order memory) (get_max_order size) (ground arith),
      ))
  | inr e ↦ rw e (get_max_order-fits size h)
]

pow-positive : (n : ℕ) → 0 < 2 ^ n
pow-positive n = pow-le-pow_right {n = 2} (omega arith) {i = 0} {j = n} (omega arith)

-- What is left of the pages after a block of order `o`.
left_pages :
    (pages o : ℕ)
    → bytes o ≤ pages * page_size
    → pages * page_size < 2 ^ 32
    → (pages * page_size + 2 ^ 32 - bytes o) % 2 ^ 32 ≡ (pages - 2 ^ o) * page_size
left_pages pages o h small =
    let e : (pages - 2 ^ o) * page_size ≡ pages * page_size - bytes o = omega arith in
    omega (arith, e)

free_none :
    (rounds depth fuel memory : ℕ) (b : Blocks)
    → buddy_free_memory rounds depth fuel memory 0 b ≡ done b
unfolding buddy_free_memory
free_none zero depth fuel memory b = refl
free_none (suc rounds) depth fuel memory b = refl

free_one :
    (rounds depth fuel memory size : ℕ) (b : Blocks)
    → 0 < size
    → buddy_free_memory (suc rounds) depth fuel memory size b ≡ (
        block_insert_merge depth fuel memory (free_order memory size) b
        >>= buddy_free_memory rounds depth fuel
            ((memory + bytes (free_order memory size)) % 2 ^ 32)
            ((size + 2 ^ 32 - bytes (free_order memory size)) % 2 ^ 32))
unfolding buddy_free_memory
free_one rounds depth fuel memory size b h = rw (==_ne {a = size} {b = 0} (omega arith)) refl

-- `buddyFreeMemory` cuts the range into the blocks `pieces`, whatever the free lists hold.
pub record IsFreed (rounds depth fuel memory size : ℕ) : Type 0 where
  pub pieces : List (ℕ × ℕ)
  pub tiles : IsTiling memory size pieces
  pub runs :
      (b : Blocks)
      → buddy_free_memory rounds depth fuel memory size b ≡ insert_all depth fuel pieces b

-- For a range of whole pages, in as many rounds as it has pages or more, `buddyFreeMemory`
-- inserts blocks of orders that the buddy has, which lie one behind the other and are exactly the
-- range.
pub free_memory-tiles :
    (rounds depth fuel memory pages : ℕ)
    → pages ≤ rounds
    → pages * page_size < 2 ^ 32
    → IsFreed rounds depth fuel memory (pages * page_size)
unfolding insert_all
free_memory-tiles rounds depth fuel memory zero h small = record {
  pieces = [];
  tiles = refl;
  runs = λ b. free_none rounds depth fuel memory b;
}
free_memory-tiles zero depth fuel memory (suc p) h small = absurd (omega arith)
free_memory-tiles (suc rounds) depth fuel memory (suc p) h small =
    let size = suc p * page_size in
    let o = free_order memory size in
    let fits : bytes o ≤ size = free_order-fits memory size (omega arith) in
    let some_pages = pow-positive o in
    let rest =
      free_memory-tiles rounds depth fuel ((memory + bytes o) % 2 ^ 32) (suc p - 2 ^ o)
        (omega arith) (omega arith) in
    let less : size - bytes o ≡ (suc p - 2 ^ o) * page_size = omega arith in
    record {
      pieces = (memory, o) ∷ rest.pieces;
      tiles = (
        refl,
        free_order-bound memory size,
        fits,
        subst (λ n. IsTiling ((memory + bytes o) % 2 ^ 32) n rest.pieces) (sym less) rest.tiles,
      );
      runs = λ b.
          free_one rounds depth fuel memory size b (omega arith)
          ∙ rw (left_pages (suc p) o fits small)
              (ap (λ k. block_insert_merge depth fuel memory o b >>= k) (fun_ext rest.runs));
    }
