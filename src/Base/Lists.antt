-- ===== src/Base/Lists.antt =====
-- Lists of addresses: length, membership as a test, first and last element with a default.
use Prim.Native.Nat.{ℕ, suc, ◌+◌, ◌<◌}
use mathlib.Core.Path.{◌≡◌, refl, ap, sym, ◌∙◌}
use mathlib.Core.Logic.{◌≢◌, inl, inr}
use mathlib.Core.Bool.{Bool, true, false, ◌||◌, false≢true}
use mathlib.Core.List.{List, [], ◌∷◌, ◌++◌}
use native.Mathlib.Omega.{arith}
use ukernel_mp.Base.Tests.{◌==◌, if◌then◌else◌, Bool-cases}

module _ {ℓ} {A : Type ℓ} where
  abbrev pub length : List A → ℕ
  length [] = 0
  length (x ∷ xs) = suc (length xs)

  pub length-append : (xs ys : List A) → length (xs ++ ys) ≡ length xs + length ys
  length-append [] ys = omega arith
  length-append (x ∷ xs) ys = omega (arith, length-append xs ys)

-- The first element, or `n` of the empty list.
abbrev pub head_or : List ℕ → ℕ → ℕ
head_or [] n = n
head_or (x ∷ xs) n = x

-- The last element, or `p` of the empty list.
abbrev pub last_or : ℕ → List ℕ → ℕ
last_or p [] = p
last_or p (x ∷ xs) = last_or x xs

abbrev pub has : ℕ → List ℕ → Bool
has a [] = false
has a (x ∷ xs) = (a == x) || has a xs

abbrev pub IsDistinct : List ℕ → Type 0
IsDistinct [] = Unit
IsDistinct (x ∷ xs) = (has x xs ≡ false) × IsDistinct xs

pub has-append : (a : ℕ) (xs ys : List ℕ) → has a (xs ++ ys) ≡ (has a xs || has a ys)
has-append a [] ys = refl
has-append a (x ∷ xs) ys = ground (arith, has-append a xs ys)

pub has-last_or : (x : ℕ) (xs : List ℕ) → has (last_or x xs) (x ∷ xs) ≡ true
has-last_or x [] = ground arith
has-last_or x (y ∷ ys) = ground (arith, has-last_or y ys)

pub head_or-append : (xs ys : List ℕ) (n : ℕ) → head_or (xs ++ ys) n ≡ head_or xs (head_or ys n)
head_or-append [] ys n = refl
head_or-append (x ∷ xs) ys n = refl

pub last_or-append : (p : ℕ) (xs ys : List ℕ) → last_or p (xs ++ ys) ≡ last_or (last_or p xs) ys
last_or-append p [] ys = refl
last_or-append p (x ∷ xs) ys = last_or-append x xs ys

pub IsDistinct-append :
    (xs ys : List ℕ)
    → IsDistinct (xs ++ ys)
    → IsDistinct xs × IsDistinct ys × ((a : ℕ) → has a xs ≡ true → has a ys ≡ false)
IsDistinct-append [] ys d = (tt, d, λ a h. cc)
IsDistinct-append (x ∷ xs) ys (out, d) =
    let (dx, dy, apart) = IsDistinct-append xs ys d in
    (
      (ground (arith, has-append x xs ys), dx),
      dy,
      λ a h. ground (arith, has-append x xs ys, apart a),
    )

pub IsDistinct-insert :
    (xs ys : List ℕ) (a : ℕ)
    → IsDistinct (xs ++ ys)
    → has a (xs ++ ys) ≡ false
    → IsDistinct (xs ++ a ∷ ys)
IsDistinct-insert [] ys a d out = (out, d)
IsDistinct-insert (x ∷ xs) ys a (o, d) out = (
  ground (arith, has-append x xs ys, has-append x xs (a ∷ ys)),
  IsDistinct-insert xs ys a d (ground arith),
)

pub IsDistinct-erase :
    (xs ys : List ℕ) (a : ℕ)
    → IsDistinct (xs ++ a ∷ ys)
    → IsDistinct (xs ++ ys) × (has a (xs ++ ys) ≡ false)
IsDistinct-erase [] ys a (out, d) = (d, out)
IsDistinct-erase (x ∷ xs) ys a (o, d) =
    let (d', out) = IsDistinct-erase xs ys a d in
    (
      (ground (arith, has-append x xs ys, has-append x xs (a ∷ ys)), d'),
      ground (arith, has-append x xs ys, has-append x xs (a ∷ ys)),
    )

pub ne_of_has : (a b : ℕ) (xs : List ℕ) → has a xs ≡ false → has b xs ≡ true → a ≢ b
ne_of_has a b xs out is e = cc (ap (λ c. has c xs) e)

pub has-append_false :
    (a : ℕ) (xs ys : List ℕ) → has a (xs ++ ys) ≡ false → (has a xs ≡ false) × (has a ys ≡ false)
has-append_false a xs ys h = ground (arith, has-append a xs ys)

pub ne_of_head : (a x : ℕ) (xs : List ℕ) → has a (x ∷ xs) ≡ false → a ≢ x
ne_of_head a x xs h = ground arith

-- The nodes around an element of a distinct list are others.
pub not_has_around :
    (xs : List ℕ) (y : ℕ) (ys : List ℕ)
    → IsDistinct (xs ++ y ∷ ys)
    → (has y xs ≡ false) × (has y ys ≡ false)
not_has_around xs y ys d = has-append_false y xs ys (IsDistinct-erase xs ys y d).1

pub ne_of_has_append :
    (a : ℕ) (xs : List ℕ) (y : ℕ) (ys : List ℕ) → has a (xs ++ y ∷ ys) ≡ false → a ≢ y
ne_of_has_append a xs y ys h = ne_of_head a y ys (has-append_false a xs (y ∷ ys) h).1

pub has-insert :
    (a : ℕ) (xs : List ℕ) (y : ℕ) (ys : List ℕ)
    → a ≢ y
    → has a (xs ++ ys) ≡ false
    → has a (xs ++ y ∷ ys) ≡ false
has-insert a xs y ys ne h = ground (arith, has-append a xs ys, has-append a xs (y ∷ ys))

pub has-erase :
    (a : ℕ) (xs : List ℕ) (y : ℕ) (ys : List ℕ)
    → has a (xs ++ y ∷ ys) ≡ false
    → has a (xs ++ ys) ≡ false
has-erase a xs y ys h = ground (arith, has-append a xs ys, has-append a xs (y ∷ ys))

-- The last node is none that the list lacks.
pub last_or-ne : (a x : ℕ) (xs ys : List ℕ) → has a (x ∷ xs ++ ys) ≡ false → last_or x xs ≢ a
last_or-ne a x xs ys h e =
    ne_of_has a (last_or x xs) (x ∷ xs) (has-append_false a (x ∷ xs) ys h).0 (has-last_or x xs)
      (sym e)

-- What stands in front of a node does not change the last.
pub last_or-insert :
    (p : ℕ) (xs : List ℕ) (node y : ℕ) (ys : List ℕ)
    → last_or p (xs ++ node ∷ y ∷ ys) ≡ last_or p (xs ++ y ∷ ys)
last_or-insert p xs node y ys =
    last_or-append p xs (node ∷ y ∷ ys) ∙ sym (last_or-append p xs (y ∷ ys))

-- The list without the first `a`.
abbrev pub erase : ℕ → List ℕ → List ℕ
erase a [] = []
erase a (x ∷ xs) = if a == x then xs else x ∷ erase a xs

-- A list with `a` in it is split by it.
pub record IsSplit (a : ℕ) (xs : List ℕ) : Type 0 where
  pub before : List ℕ
  pub behind : List ℕ
  pub whole : xs ≡ before ++ a ∷ behind
  pub rest : erase a xs ≡ before ++ behind

IsSplit-cons : (a x : ℕ) (xs : List ℕ) → (a == x) ≡ false → IsSplit a xs → IsSplit a (x ∷ xs)
IsSplit-cons a x xs ne s = record {
  before = x ∷ s.before;
  behind = s.behind;
  whole = ap (λ zs. x ∷ zs) s.whole;
  rest = rw ne (ap (λ zs. x ∷ zs) s.rest);
}

pub IsSplit-of_has : (a : ℕ) (xs : List ℕ) → has a xs ≡ true → IsSplit a xs
IsSplit-of_has a [] h = absurd (false≢true h)
IsSplit-of_has a (x ∷ xs) h = elim (Bool-cases (a == x)) [
  | inl e ↦ record {
    before = [];
    behind = xs;
    whole = ap (λ y. y ∷ xs) (ground arith);
    rest = rw e;
  }
  | inr ne ↦ IsSplit-cons a x xs ne (IsSplit-of_has a xs (ground arith))
]

pub has_of_erase : (b a : ℕ) (xs : List ℕ) → has b (erase a xs) ≡ true → has b xs ≡ true
has_of_erase b a [] h = h
has_of_erase b a (x ∷ xs) h = ground (arith, has_of_erase b a xs)

pub has-head : (xs : List ℕ) → 0 < length xs → has (head_or xs 0) xs ≡ true
has-head [] h = absurd (omega arith)
has-head (x ∷ xs) h = ground arith

pub has-last : (p : ℕ) (xs : List ℕ) → 0 < length xs → has (last_or p xs) xs ≡ true
has-last p [] h = absurd (omega arith)
has-last p (x ∷ xs) h = has-last_or x xs
