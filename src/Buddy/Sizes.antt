-- ===== src/Buddy/Sizes.antt =====
-- The size of an order is one that `buddyGetMemory` accepts, and has that order.
use ukernel_mp.Base.{
  ℕ, zero, suc, Bool, ◌≡◌, ◌<◌, ◌≤◌, ◌+◌, ◌*◌, ◌%◌, ◌^◌, ◌==◌, refl, true, false, arith, ◌&&◌, not,
  ℕ_discrete,
}
use ukernel_mp.Buddy.Order.{bytes, max_order, get_order, order_loop}
use ukernel_mp.Buddy.Ops.{is_refused}
use ukernel_mp.Buddy.Cover.{bytes_suc}
use ukernel_mp.Buddy.Pieces.{bytes_mono}

-- A test of all numbers below a bound.
abbrev all_below : ℕ → (ℕ → Bool) → Bool
all_below zero test = true
all_below (suc n) test = test n && all_below n test

all_below_lem : (n : ℕ) (test : ℕ → Bool) (o : ℕ) → all_below n test ≡ true → o < n → test o ≡ true
all_below_lem zero test o h less = absurd (omega arith)
all_below_lem (suc n) test o h less = elim (ℕ_discrete o n) [
  | yes e ↦ rw e (ground arith)
  | no ne ↦ all_below_lem n test o (ground arith) (omega arith)
]

get_order-bytes_all : all_below 11 (λ o. get_order (bytes o) == o) ≡ true
unfolding get_order order_loop
get_order-bytes_all = refl

accepts_all : all_below 11 (λ o. not (is_refused (bytes o))) ≡ true
unfolding is_refused get_order order_loop
accepts_all = refl

pub get_order-bytes : (o : ℕ) → o ≤ max_order → get_order (bytes o) ≡ o
get_order-bytes o h =
    let e = all_below_lem 11 (λ i. get_order (bytes i) == i) o get_order-bytes_all (omega arith) in
    ground arith

pub accepts : (o : ℕ) → o ≤ max_order → is_refused (bytes o) ≡ false
accepts o h =
    let e = all_below_lem 11 (λ i. not (is_refused (bytes i))) o accepts_all (omega arith) in
    ground arith

pub too_large : is_refused (bytes 11) ≡ true
unfolding is_refused get_order order_loop
too_large = refl

-- The size of the next order.
pub double : (o : ℕ) → o ≤ max_order → bytes o * 2 % 2 ^ 32 ≡ bytes (o + 1)
double o h = let small : bytes o ≤ bytes 10 = bytes_mono o 10 h in omega (arith, bytes_suc o, small)
