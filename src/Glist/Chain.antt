-- ===== src/Glist/Chain.antt =====
-- What the `next` and `prev` maps of a list say about the addresses of its nodes, in order, and
-- how a write to one of the maps changes it.
use ukernel_mp.Base.{
  ℕ, ◌≡◌, ◌∙◌, true, false, List, [], ◌∷◌, ◌++◌, arith, update, update_ne, head_or, last_or, has,
  IsDistinct, has-last_or, ne_of_has, head_or-append,
}

-- From each of `xs` the map leads to the one behind it, from the last to `n`.
abbrev pub Nexts : (ℕ → ℕ) → List ℕ → ℕ → Type 0
Nexts nx [] n = Unit
Nexts nx (x ∷ xs) n = (nx x ≡ head_or xs n) × Nexts nx xs n

-- From each of `xs` the map leads to the one before it, from the first to `p`.
abbrev pub Prevs : (ℕ → ℕ) → ℕ → List ℕ → Type 0
Prevs pv p [] = Unit
Prevs pv p (x ∷ xs) = (pv x ≡ p) × Prevs pv x xs

pub Nexts-append :
    (nx : ℕ → ℕ) (xs ys : List ℕ) (n : ℕ)
    → Nexts nx xs (head_or ys n)
    → Nexts nx ys n
    → Nexts nx (xs ++ ys) n
Nexts-append nx [] ys n h k = k
Nexts-append nx (x ∷ xs) ys n (e, h) k =
    (rw (head_or-append xs ys n) e, Nexts-append nx xs ys n h k)

pub Nexts-split :
    (nx : ℕ → ℕ) (xs ys : List ℕ) (n : ℕ)
    → Nexts nx (xs ++ ys) n
    → Nexts nx xs (head_or ys n) × Nexts nx ys n
Nexts-split nx [] ys n h = (tt, h)
Nexts-split nx (x ∷ xs) ys n (e, h) =
    let (a, b) = Nexts-split nx xs ys n h in ((rw (head_or-append xs ys n) at e, a), b)

pub Prevs-append :
    (pv : ℕ → ℕ) (p : ℕ) (xs ys : List ℕ)
    → Prevs pv p xs
    → Prevs pv (last_or p xs) ys
    → Prevs pv p (xs ++ ys)
Prevs-append pv p [] ys h k = k
Prevs-append pv p (x ∷ xs) ys (e, h) k = (e, Prevs-append pv x xs ys h k)

pub Prevs-split :
    (pv : ℕ → ℕ) (p : ℕ) (xs ys : List ℕ)
    → Prevs pv p (xs ++ ys)
    → Prevs pv p xs × Prevs pv (last_or p xs) ys
Prevs-split pv p [] ys h = (tt, h)
Prevs-split pv p (x ∷ xs) ys (e, h) = let (a, b) = Prevs-split pv x xs ys h in ((e, a), b)

-- A write elsewhere.
pub Nexts-update :
    (nx : ℕ → ℕ) (xs : List ℕ) (n a v : ℕ)
    → Nexts nx xs n
    → has a xs ≡ false
    → Nexts (update nx a v) xs n
Nexts-update nx [] n a v h out = tt
Nexts-update nx (x ∷ xs) n a v (e, h) out =
    (ground arith, Nexts-update nx xs n a v h (ground arith))

pub Prevs-update :
    (pv : ℕ → ℕ) (p : ℕ) (xs : List ℕ) (a v : ℕ)
    → Prevs pv p xs
    → has a xs ≡ false
    → Prevs (update pv a v) p xs
Prevs-update pv p [] a v h out = tt
Prevs-update pv p (x ∷ xs) a v (e, h) out =
    (ground arith, Prevs-update pv x xs a v h (ground arith))

-- A write to the last node turns the end of the chain to `m`.
pub Nexts-relink :
    (nx : ℕ → ℕ) (x : ℕ) (xs : List ℕ) (n m : ℕ)
    → Nexts nx (x ∷ xs) n
    → IsDistinct (x ∷ xs)
    → Nexts (update nx (last_or x xs) m) (x ∷ xs) m
Nexts-relink nx x [] n m h d = (ground arith, tt)
Nexts-relink nx x (y ∷ ys) n m (e, h) (out, d) = (
  update_ne nx m (ne_of_has x (last_or y ys) (y ∷ ys) out (has-last_or y ys)) ∙ e,
  Nexts-relink nx y ys n m h d,
)

-- A write to the first node turns its `prev` to `q`.
pub Prevs-relink :
    (pv : ℕ → ℕ) (p : ℕ) (x : ℕ) (xs : List ℕ) (q : ℕ)
    → Prevs pv p (x ∷ xs)
    → has x xs ≡ false
    → Prevs (update pv x q) q (x ∷ xs)
Prevs-relink pv p x xs q (e, h) out = (ground arith, Prevs-update pv x xs x q h out)

-- Two maps that agree on the nodes.
pub Nexts-agree :
    (f g : ℕ → ℕ) (xs : List ℕ) (n : ℕ)
    → ((a : ℕ) → has a xs ≡ true → g a ≡ f a)
    → Nexts f xs n
    → Nexts g xs n
Nexts-agree f g [] n same h = tt
Nexts-agree f g (x ∷ xs) n same (e, h) =
    (same x (ground arith) ∙ e, Nexts-agree f g xs n (λ a is. same a (ground arith)) h)

pub Prevs-agree :
    (f g : ℕ → ℕ) (p : ℕ) (xs : List ℕ)
    → ((a : ℕ) → has a xs ≡ true → g a ≡ f a)
    → Prevs f p xs
    → Prevs g p xs
Prevs-agree f g p [] same h = tt
Prevs-agree f g p (x ∷ xs) same (e, h) =
    (same x (ground arith) ∙ e, Prevs-agree f g x xs (λ a is. same a (ground arith)) h)
