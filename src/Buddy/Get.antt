-- ===== src/Buddy/Get.antt =====
-- The recursion of `buddyGetMemory` from a size to twice the size.
use native.Mathlib.Nat.{pow-le-pow_right, mul_assoc, mul-le-mul_right}
use native.Mathlib.Omega.{pow_step}
use ukernel_mp.Base.{
  ℕ, zero, suc, ◌≡◌, ◌≢◌, ◌<◌, ◌≤◌, ◌*◌, ◌%◌, ◌^◌, ◌==◌, refl, sym, ap, ◌∙◌, arith, true, false,
  false≢true, ltb, Bool, Bool-cases, inl, inr, if◌then◌else◌,
}
use ukernel_mp.Glist.Heap.{Ptr, null}
use ukernel_mp.Buddy.Order.{bytes, max_order, get_order, order_loop}
use ukernel_mp.Buddy.Blocks.{
  Blocks, Outcome, done, deep, endless, ◌>>=◌, place_walk, block_get, block_insert,
}
use ukernel_mp.Buddy.Ops.{is_refused, buddy_get_memory}

module _ {A : Type 0} where
  pub done_ne_deep : (a : A) → done a ≢ deep
  done_ne_deep a e = cc e

  pub endless_ne_deep : ◌≢◌ {A = Outcome A} endless deep
  endless_ne_deep e = cc e

  if_ne_deep : (c : Bool) (x y : Outcome A) → x ≢ deep → y ≢ deep → (if c then x else y) ≢ deep
  if_ne_deep true x y hx hy = hx
  if_ne_deep false x y hx hy = hy

bind_ne_deep :
    {A B : Type 0} (r : Outcome A) (k : A → Outcome B)
    → r ≢ deep
    → ((a : A) → k a ≢ deep)
    → (r >>= k) ≢ deep
bind_ne_deep (done a) k h hk = hk a
bind_ne_deep deep k h hk = absurd (h refl)
bind_ne_deep endless k h hk = endless_ne_deep

pub place_walk_ne_deep :
    (fuel : ℕ) (block it : Ptr) (b : Blocks) → place_walk fuel block it b ≢ deep
unfolding place_walk
place_walk_ne_deep zero block it b = endless_ne_deep
place_walk_ne_deep (suc fuel) block it b = if_ne_deep (ltb block it) _ _ (done_ne_deep _) (
    if_ne_deep (b.next it == null) _ _ (done_ne_deep _)
      (place_walk_ne_deep fuel block (b.next it) b))

block_insert_ne_deep :
    (fuel : ℕ) (block : Ptr) (order : ℕ) (b : Blocks) → block_insert fuel block order b ≢ deep
unfolding block_insert
block_insert_ne_deep fuel block order b =
    if_ne_deep (b.heads order == null) _ _ (done_ne_deep _)
      (bind_ne_deep _ _ (place_walk_ne_deep fuel block (b.heads order) b) λ p. done_ne_deep _)

-- One size, given that the allocation of twice the size does not run out of depth.
get_memory-step :
    (depth fuel size : ℕ) (b : Blocks)
    → ((g : Blocks)
        → is_refused size ≡ false
        → buddy_get_memory depth fuel (size * 2 % 2 ^ 32) g ≢ deep)
    → buddy_get_memory (suc depth) fuel size b ≢ deep
unfolding buddy_get_memory
get_memory-step depth fuel size b above = elim (Bool-cases (is_refused size)) [
  | inl e ↦ rw e (done_ne_deep _)
  | inr e ↦ rw e (
      if_ne_deep ((block_get (get_order size) b).0 == null) _ _
        (bind_ne_deep _ _ (above _ e) λ r.
          if_ne_deep (r.0 == null) _ _ (done_ne_deep _)
            (bind_ne_deep _ _ (block_insert_ne_deep fuel _ _ _) λ g. done_ne_deep _))
        (done_ne_deep _))
]

refused-small : (size : ℕ) → is_refused size ≡ false → size ≤ bytes max_order
unfolding is_refused
refused-small size e = ground arith

refused-large : (size : ℕ) → bytes max_order < size → is_refused size ≡ true
unfolding is_refused
refused-large size h = ground arith

get_memory-within :
    (d fuel size : ℕ) (b : Blocks)
    → bytes max_order < size * 2 ^ d
    → buddy_get_memory (suc d) fuel size b ≢ deep
get_memory-within zero fuel size b h =
    get_memory-step zero fuel size b
      λ g e. absurd (false≢true (sym e ∙ refused-large size (omega arith)))
get_memory-within (suc d) fuel size b h = get_memory-step (suc d) fuel size b λ g e.
    get_memory-within d fuel (size * 2 % 2 ^ 32) g (
      let small = refused-small size e in
      let same : size * 2 % 2 ^ 32 ≡ size * 2 = omega arith in
      rw same (omega (arith, h, mul_assoc size 2 (2 ^ d), ap (λ x. size * x) (pow_step 2 d))))

-- `buddyGetMemory` of any size but 0 needs no more than 24 levels of its recursion, whatever the
-- free lists hold.
pub get_memory-ends :
    (depth fuel size : ℕ) (b : Blocks)
    → 24 ≤ depth
    → 0 < size
    → buddy_get_memory depth fuel size b ≢ deep
get_memory-ends zero fuel size b h some = absurd (omega arith)
get_memory-ends (suc d) fuel size b h some =
    let big : 2 ^ 23 ≤ 2 ^ d = pow-le-pow_right (omega arith) {i = 23} {j = d} (omega arith) in
    get_memory-within d fuel size b (omega (arith, big, mul-le-mul_right (2 ^ d) some))

get_order-zero : get_order 0 ≡ 0
unfolding get_order order_loop
get_order-zero = refl

accepts-zero : is_refused 0 ≡ false
unfolding is_refused get_order order_loop
accepts-zero = refl

block_get-nil : (order : ℕ) (b : Blocks) → b.heads order ≡ null → block_get order b ≡ (null, b)
unfolding block_get
block_get-nil order b e = rw e refl

-- `buddyGetMemory` of size 0 with no free page at hand needs more levels of recursion than any
-- number.
pub get_memory-zero :
    (depth fuel : ℕ) (b : Blocks) → b.heads 0 ≡ null → buddy_get_memory depth fuel 0 b ≡ deep
unfolding buddy_get_memory
get_memory-zero zero fuel b none_free = refl
get_memory-zero (suc depth) fuel b none_free =
    rw
      (
        accepts-zero,
        get_order-zero,
        block_get-nil 0 b none_free,
        get_memory-zero depth fuel b none_free,
      )
      refl
