-- ===== src/Base/Tests.antt =====
-- Boolean tests on the native numbers, the conditional, and the C types that the parts share.
use Prim.Native.Nat.{ℕ, ◌<◌, compare, Ordering}
use mathlib.Core.Path.{◌≡◌, refl, fun_ext}
use mathlib.Core.Logic.{◌≢◌, ◌⊎◌, inl, inr}
use mathlib.Core.Bool.{Bool, true, false}
use native.Mathlib.Omega.{arith}

abbrev pub ltb : ℕ → ℕ → Bool
ltb a b = elim (compare a b) [ Ordering.lt ↦ true | _ ↦ false ]

abbrev pub leb : ℕ → ℕ → Bool
leb a b = elim (compare a b) [ Ordering.gt ↦ false | _ ↦ true ]

infix 50 ◌==◌
abbrev pub ◌==◌ : ℕ → ℕ → Bool
a == b = elim (compare a b) [ Ordering.eq ↦ true | _ ↦ false ]

infix 1 if◌then◌else◌
abbrev pub if◌then◌else◌ {ℓ} : {A : Type ℓ} → Bool → A → A → A
if true then x else y = x
if false then x else y = y

pub ltb→lt : (a b : ℕ) → ltb a b ≡ true → a < b
ltb→lt a b h = ground arith

pub Bool-cases : (b : Bool) → (b ≡ true) ⊎ (b ≡ false)
Bool-cases true = inl refl
Bool-cases false = inr refl

-- An `int32_t` result; `negsuc n` is -(n + 1).
pub data ℤ : Type 0 where
  pos : ℕ → ℤ
  negsuc : ℕ → ℤ

-- `0 < r`
abbrev pub positive : ℤ → Bool
positive (pos n) = ltb 0 n
positive (negsuc n) = false

-- `0 != r`
abbrev pub nonzero : ℤ → Bool
nonzero (pos n) = ltb 0 n
nonzero (negsuc n) = true

-- `f` with the value `v` at `a`.
abbrev pub update {ℓ} : {A : Type ℓ} → (ℕ → A) → ℕ → A → ℕ → A
update f a v b = if b == a then v else f b

pub update_ne {ℓ} : {A : Type ℓ} (f : ℕ → A) {a b : ℕ} (v : A) → b ≢ a → update f a v b ≡ f b
update_ne f v h = ground arith

pub update_self {ℓ} : {A : Type ℓ} (f : ℕ → A) (a : ℕ) (v : A) → update f a v a ≡ v
update_self f a v = ground arith

pub ==_refl : (a : ℕ) → (a == a) ≡ true
==_refl a = ground arith

pub ==_ne : {a b : ℕ} → a ≢ b → (a == b) ≡ false
==_ne h = ground arith

pub update-update_ne {ℓ} :
    {A : Type ℓ} (f : ℕ → A) {a p q : ℕ} (v w : A)
    → a ≢ p
    → a ≢ q
    → update (update f p v) q w a ≡ f a
update-update_ne f v w hp hq = ground arith

pub update-update {ℓ} :
    {A : Type ℓ} (f : ℕ → A) (a : ℕ) (v w : A) → update (update f a v) a w ≡ update f a w
update-update f a v w = fun_ext λ b. ground arith

-- Writing what is there changes nothing.
pub update_same {ℓ} : {A : Type ℓ} (f : ℕ → A) (a : ℕ) (v : A) → v ≡ f a → update f a v ≡ f
update_same f a v e = fun_ext λ b. ground arith
