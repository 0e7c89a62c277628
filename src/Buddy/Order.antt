-- ===== src/Buddy/Order.antt =====
-- `GetOrder` and `GetMaxOrder` of memory/buddy_2.c: sizes of pages as powers of two. An order `o`
-- stands for `PAGE_SIZE << o` bytes.
use Prim.Native.Nat.{bit_and}
use ukernel_mp.Base.{
  ℕ, zero, suc, ◌≡◌, ◌<◌, ◌≤◌, ◌-◌, ◌*◌, ◌/◌, ◌%◌, ◌^◌, ◌==◌, ℕ_discrete, refl, arith,
  if◌then◌else◌,
}

abbrev pub page_size : ℕ
page_size = 0x1000

abbrev pub max_order : ℕ
max_order = 10

-- `PAGE_SIZE << order`
abbrev pub bytes : ℕ → ℕ
bytes order = page_size * 2 ^ order

-- The loop of both functions, with `left` rounds before `order` is at its bound.
unfoldable pub order_loop : (left size : ℕ) → ℕ
order_loop zero size = 0
order_loop (suc left) size =
    let rest = order_loop left (size / 2) in if size == 0 then 0 else suc rest

unfoldable pub get_order : ℕ → ℕ
unfolding order_loop
get_order size = order_loop max_order (bit_and size ((2 ^ 32 - size) % 2 ^ 32) / 2 ^ 13)

unfoldable pub get_max_order : ℕ → ℕ
unfolding order_loop
get_max_order size = order_loop 10 (size / 2 ^ 13)

pow_suc : (n : ℕ) → 2 ^ suc n ≡ 2 * 2 ^ n
pow_suc n = omega arith

order_loop-bound : (left size : ℕ) → order_loop left size ≤ left
unfolding order_loop
order_loop-bound zero size = omega arith
order_loop-bound (suc left) size = ground (arith, order_loop-bound left (size / 2))

order_loop-zero : (left : ℕ) → order_loop left 0 ≡ 0
unfolding order_loop
order_loop-zero zero = refl
order_loop-zero (suc left) = refl

order_loop-suc :
    (left size : ℕ) → 0 < size → order_loop (suc left) size ≡ suc (order_loop left (size / 2))
unfolding order_loop
order_loop-suc left size h = ground arith

-- The loop counts the binary digits, up to its bound.
order_loop-fits : (left size : ℕ) → 0 < size → 2 ^ order_loop left size ≤ 2 * size
unfolding order_loop
order_loop-fits zero size h = omega arith
order_loop-fits (suc left) size h = elim (ℕ_discrete (size / 2) 0) [
  | yes e ↦ rw (order_loop-suc left size h, e, order_loop-zero left) (omega arith)
  | no ne ↦ rw (order_loop-suc left size h) (
      omega (
        arith,
        order_loop-fits left (size / 2) (omega arith),
        pow_suc (order_loop left (size / 2)),
      ))
]

order_loop-most : (left size : ℕ) → order_loop left size < left → size < 2 ^ order_loop left size
order_loop-most zero size h = absurd (omega arith)
order_loop-most (suc left) size h = elim (ℕ_discrete size 0) [
  | yes e ↦ rw (e, order_loop-zero (suc left)) (omega arith)
  | no ne ↦
      let e = order_loop-suc left size (omega arith) in
      rw e (
        omega (
          arith,
          order_loop-most left (size / 2) (omega (arith, e, h)),
          pow_suc (order_loop left (size / 2)),
        ))
]

get_max_order-loop : (size : ℕ) → get_max_order size ≡ order_loop 10 (size / 2 ^ 13)
unfolding get_max_order
get_max_order-loop size = refl

-- A block of the order that `GetMaxOrder` gives for a size of a page or more is no larger than
-- the size.
pub get_max_order-fits : (size : ℕ) → page_size ≤ size → bytes (get_max_order size) ≤ size
get_max_order-fits size h = rw (get_max_order-loop size) (elim (ℕ_discrete (size / 2 ^ 13) 0) [
  | yes e ↦ rw (e, order_loop-zero 10) (omega arith)
  | no ne ↦ omega (arith, order_loop-fits 10 (size / 2 ^ 13) (omega arith))
])

-- Unless `GetMaxOrder` gives the highest order, a block of the next order is larger than the
-- size.
pub get_max_order-most :
    (size : ℕ) → get_max_order size < max_order → size < bytes (suc (get_max_order size))
get_max_order-most size h =
    let e = get_max_order-loop size in
    let h' : order_loop 10 (size / 2 ^ 13) < 10 = omega (arith, h, e) in
    rw e (
      omega (arith, order_loop-most 10 (size / 2 ^ 13) h', pow_suc (order_loop 10 (size / 2 ^ 13))))

pub get_order-bound : (size : ℕ) → get_order size ≤ max_order
unfolding get_order
get_order-bound size = order_loop-bound 10 (bit_and size ((2 ^ 32 - size) % 2 ^ 32) / 2 ^ 13)

pub get_max_order-bound : (size : ℕ) → get_max_order size ≤ max_order
get_max_order-bound size = rw (get_max_order-loop size) (order_loop-bound 10 (size / 2 ^ 13))
