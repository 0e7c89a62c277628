-- ===== src/Buddy/Cover.antt =====
-- Which bytes the free blocks are. The lists are given by the order; a block of order `o` at `a` is
-- the bytes from `a` to `a + bytes o`.
use native.Mathlib.Nat.{pow-le-pow_right}
use native.Mathlib.Omega.{pow_step}
use ukernel_mp.Base.{
  ℕ, zero, suc, ◌≡◌, ◌≢◌, ◌<◌, ◌≤◌, ◌+◌, ◌^◌, ◌==◌, ◌&&◌, refl, sym, true, false, List, [], ◌∷◌,
  ◌++◌, arith, update, has, ltb, leb, if◌then◌else◌, Bool-cases, inl, inr, ℕ_discrete, update_self,
  update_ne,
}
use ukernel_mp.Buddy.Order.{bytes, max_order}

-- How many of the blocks hold the byte `p`: 0 or 1 for one block.
unfoldable pub within : (a n p : ℕ) → ℕ
within a n p = if leb a p && ltb p (a + n) then 1 else 0

abbrev pub cover_row : ℕ → List ℕ → ℕ → ℕ
cover_row o [] p = 0
cover_row o (a ∷ xs) p = within a (bytes o) p + cover_row o xs p

-- In the lists of the first `n` orders.
abbrev pub cover : ℕ → (ℕ → List ℕ) → ℕ → ℕ
cover zero free p = 0
cover (suc n) free p = cover n free p + cover_row n (free n) p

pub bytes-positive : (o : ℕ) → 0 < bytes o
bytes-positive o =
    let e : 1 ≤ 2 ^ o = pow-le-pow_right {n = 2} (omega arith) {i = 0} {j = o} (omega arith) in
    omega arith

pub bytes_suc : (o : ℕ) → bytes (o + 1) ≡ bytes o + bytes o
bytes_suc o = let e : o + 1 ≡ suc o = omega arith in rw e (omega (arith, pow_step 2 o))

-- A block of the next order is two of the order, one behind the other.
pub within-twice :
    (a o p : ℕ)
    → within a (bytes (o + 1)) p ≡ within a (bytes o) p + within (a + bytes o) (bytes o) p
unfolding within
within-twice a o p = ground (arith, bytes_suc o)

pub within-bound : (a n p : ℕ) → within a n p ≤ 1
unfolding within
within-bound a n p = ground arith

pub within_self : (a o : ℕ) → within a (bytes o) a ≡ 1
unfolding within
within_self a o = ground (arith, bytes-positive o)

pub cover_row-append :
    (o : ℕ) (xs ys : List ℕ) (p : ℕ)
    → cover_row o (xs ++ ys) p ≡ cover_row o xs p + cover_row o ys p
cover_row-append o [] ys p = omega arith
cover_row-append o (a ∷ xs) ys p = omega (arith, cover_row-append o xs ys p)

-- One block more in the list.
pub cover_row-insert :
    (o : ℕ) (xs : List ℕ) (a : ℕ) (ys : List ℕ) (p : ℕ)
    → cover_row o (xs ++ a ∷ ys) p ≡ cover_row o (xs ++ ys) p + within a (bytes o) p
cover_row-insert o xs a ys p =
    omega (arith, cover_row-append o xs (a ∷ ys) p, cover_row-append o xs ys p)

pub cover_row-has : (o : ℕ) (xs : List ℕ) (a : ℕ) → has a xs ≡ true → 1 ≤ cover_row o xs a
cover_row-has o [] a h = cc h
cover_row-has o (x ∷ xs) a h = elim (Bool-cases (a == x)) [
  | inl e ↦ let q : a ≡ x = ground arith in rw (sym q) (omega (arith, within_self a o))
  | inr e ↦ let f : has a xs ≡ true = ground arith in omega (arith, cover_row-has o xs a f)
]

pub cover-le :
    (n : ℕ) (free : ℕ → List ℕ) (o p : ℕ) → o < n → cover_row o (free o) p ≤ cover n free p
cover-le zero free o p h = absurd (omega arith)
cover-le (suc n) free o p h = elim (ℕ_discrete o n) [
  | yes e ↦ rw e (omega arith)
  | no ne ↦ omega (arith, cover-le n free o p (omega arith))
]

cover-update_out :
    (n : ℕ) (free : ℕ → List ℕ) (o : ℕ) (ys : List ℕ) (p : ℕ)
    → n ≤ o
    → cover n (update free o ys) p ≡ cover n free p
cover-update_out zero free o ys p h = refl
cover-update_out (suc n) free o ys p h =
    let ne : n ≢ o = λ e. omega (arith, e, h) in
    rw (update_ne free ys ne) (omega (arith, cover-update_out n free o ys p (omega arith)))

-- Another list for one order.
pub cover-update :
    (n : ℕ) (free : ℕ → List ℕ) (o : ℕ) (ys : List ℕ) (p : ℕ)
    → o < n
    → cover n (update free o ys) p + cover_row o (free o) p ≡ cover n free p + cover_row o ys p
cover-update zero free o ys p h = absurd (omega arith)
cover-update (suc n) free o ys p h = elim (ℕ_discrete n o) [
  | yes e ↦
      rw (e, update_self free o ys) (omega (arith, cover-update_out o free o ys p (omega arith)))
  | no ne ↦ rw (update_ne free ys ne) (omega (arith, cover-update n free o ys p (omega arith)))
]

-- No two lists hold the same address, unless a byte of it is covered twice.
pub cover-apart :
    (n : ℕ) (free : ℕ → List ℕ) (o i a : ℕ)
    → o < n
    → i < n
    → i ≢ o
    → has a (free o) ≡ true
    → has a (free i) ≡ true
    → 2 ≤ cover n free a
cover-apart n free o i a ho hi ne inside other =
    let e = update_ne free [] ne in
    omega (
      arith,
      cover-update n free o [] a ho,
      rw e at (cover-le n (update free o []) i a hi),
      cover_row-has o (free o) a inside,
      cover_row-has i (free i) a other,
    )

≤-trans : {a b c : ℕ} → a ≤ b → b ≤ c → a ≤ c
≤-trans h k = omega arith

≤-one : {a : ℕ} → 2 ≤ a → a ≤ 1 → ⊥
≤-one h k = omega arith

-- In the lists of all orders.
unfoldable pub covered : (ℕ → List ℕ) → ℕ → ℕ
covered free p = cover (suc max_order) free p

module _ (free : ℕ → List ℕ) (o : ℕ) (h : o ≤ max_order) where
  pub covered-update :
      (ys : List ℕ) (p : ℕ)
      → covered (update free o ys) p + cover_row o (free o) p ≡ covered free p + cover_row o ys p
  unfolding covered
  covered-update ys p = cover-update 11 free o ys p (omega arith)

  pub covered-has : (a : ℕ) → has a (free o) ≡ true → 1 ≤ covered free a
  unfolding covered
  covered-has a inside =
      let one = cover_row-has o (free o) a inside in
      let all = cover-le 11 free o a (omega arith) in ≤-trans one all

  pub covered-apart :
      (i a : ℕ)
      → i ≤ max_order
      → i ≢ o
      → covered free a ≤ 1
      → has a (free o) ≡ true
      → has a (free i) ≡ false
  unfolding covered
  covered-apart i a hi ne once inside = elim (Bool-cases (has a (free i))) [
    | inl e ↦
        absurd (≤-one (cover-apart 11 free o i a (omega arith) (omega arith) ne inside e) once)
    | inr e ↦ e
  ]
