-- ===== src/Buddy/Grown.antt =====
-- A free block more in the list of its order, and one less.
use ukernel_mp.Base.{
  ℕ, suc, ◌≡◌, ◌≢◌, ◌<◌, ◌≤◌, ◌+◌, ◌⊎◌, ap, sym, true, false, List, ◌∷◌, ◌++◌, arith, update, has,
  subst, Bool-cases, inl, inr, ℕ_discrete, update_self, update_ne, has-append, length,
  length-append,
}
use ukernel_mp.Buddy.Order.{bytes, max_order}
use ukernel_mp.Buddy.Blocks.{Blocks}
use ukernel_mp.Buddy.Rows.{Relinked}
use ukernel_mp.Buddy.Cover.{
  within, within_self, covered, covered-update, covered-has, cover_row, cover_row-insert,
}
use ukernel_mp.Buddy.Free.{IsFree, IsOutside, IsFree-Relinked, IsFree-apart}

-- The free blocks of `g` are those of `free` and the block of order `o`. No list is longer by more
-- than one block, and none of a lower order is.
pub record Grown (free : ℕ → List ℕ) (block o : ℕ) (g : Blocks) : Type 0 where
  pub after : ℕ → List ℕ
  pub is_free : IsFree g after
  pub covers : (p : ℕ) → covered after p ≡ covered free p + within block (bytes o) p
  pub longer : (i : ℕ) → length (after i) ≤ suc (length (free i))
  pub lower : (i : ℕ) → i < o → length (after i) ≤ length (free i)

-- `block` has been linked into the list `xs`.
pub record Linked (b : Blocks) (o block : ℕ) (xs : List ℕ) (g : Blocks) : Type 0 where
  pub front : List ℕ
  pub back : List ℕ
  pub whole : xs ≡ front ++ back
  pub relinked : Relinked b o block xs (front ++ block ∷ back) g

-- Or taken out of it.
pub record Unlinked (b : Blocks) (o block : ℕ) (xs : List ℕ) (g : Blocks) : Type 0 where
  pub front : List ℕ
  pub back : List ℕ
  pub whole : xs ≡ front ++ block ∷ back
  pub relinked : Relinked b o block xs (front ++ back) g

pub IsOutside-has :
    {free : ℕ → List ℕ} {block o : ℕ} (i : ℕ)
    → IsOutside free block o
    → i ≤ max_order
    → has block (free i) ≡ false
IsOutside-has {free} {block} {o} i out hi = elim (Bool-cases (has block (free i))) [
  | inl e ↦
      absurd (omega (arith, covered-has free i hi block e, out.fresh block, within_self block o))
  | inr e ↦ e
]

has_of_insert :
    (a : ℕ) (xs : List ℕ) (y : ℕ) (ys : List ℕ)
    → has a (xs ++ y ∷ ys) ≡ true
    → (a ≡ y) ⊎ (has a (xs ++ ys) ≡ true)
has_of_insert a xs y ys h = elim (ℕ_discrete a y) [
  | yes e ↦ inl e
  | no ne ↦ inr (ground (arith, has-append a xs ys, has-append a xs (y ∷ ys)))
]

-- The bytes of the blocks after a write of one list, given those of the lists.
update-covers :
    (free : ℕ → List ℕ) (o : ℕ) (ys : List ℕ) (p : ℕ) (n m : ℕ)
    → o ≤ max_order
    → cover_row o ys p + n ≡ cover_row o (free o) p + m
    → covered (update free o ys) p + n ≡ covered free p + m
update-covers free o ys p n m h e = omega (arith, covered-update free o h ys p, e)

length-insert :
    (xs : List ℕ) (y : ℕ) (ys : List ℕ) → length (xs ++ y ∷ ys) ≤ suc (length (xs ++ ys))
length-insert xs y ys = omega (arith, length-append xs ys, length-append xs (y ∷ ys))

shorter-append : (xs : List ℕ) (y : ℕ) (ys : List ℕ) → length (xs ++ ys) ≤ length (xs ++ y ∷ ys)
shorter-append xs y ys = omega (arith, length-append xs ys, length-append xs (y ∷ ys))

ne_of_lt : {i o : ℕ} → i < o → i ≢ o
ne_of_lt h e = omega (arith, h, e)

pub Grown-Linked :
    {b g : Blocks} {free : ℕ → List ℕ} {block o : ℕ}
    → IsFree b free
    → o ≤ max_order
    → IsOutside free block o
    → Linked b o block (free o) g
    → Grown free block o g
Grown-Linked {b} {g} {free} {block} {o} k h out l =
    let ys = l.front ++ block ∷ l.back in
    let covers : (p : ℕ)
        → covered (update free o ys) p ≡ covered free p + within block (bytes o) p =
      λ p.
        let row = cover_row-insert o l.front block l.back p in
        let e = ap (λ xs. cover_row o xs p) l.whole in
        omega (
          arith,
          update-covers free o ys p 0 (within block (bytes o) p) h (omega (arith, row, e)),
        ) in
    record {
      after = update free o ys;
      is_free =
          IsFree-Relinked o block ys k h l.relinked (λ i hi ne. IsOutside-has i out hi)
            (λ p. omega (arith, covers p, out.fresh p))
            λ a is. elim (has_of_insert a l.front block l.back is) [
              | inl e ↦ rw e out.fits
              | inr e ↦ k.bounded o a h (subst (λ xs. has a xs ≡ true) (sym l.whole) e)
            ];
      covers = covers;
      longer = λ i. elim (ℕ_discrete i o) [
        | yes e ↦ rw (e, update_self free o ys, l.whole) (length-insert l.front block l.back)
        | no ne ↦ rw (update_ne free ys ne) (omega arith)
      ];
      lower = λ i less. rw (update_ne free ys (ne_of_lt less)) (omega arith);
    }

-- The free blocks of `g` and the block of order `o` are those of `free`; no list has grown.
pub record Shrunk (free : ℕ → List ℕ) (block o : ℕ) (g : Blocks) : Type 0 where
  pub after : ℕ → List ℕ
  pub is_free : IsFree g after
  pub covers : (p : ℕ) → covered after p + within block (bytes o) p ≡ covered free p
  pub shorter : (i : ℕ) → length (after i) ≤ length (free i)

has-unlinked :
    (a : ℕ) (xs : List ℕ) (y : ℕ) (ys : List ℕ)
    → has a (xs ++ ys) ≡ true
    → has a (xs ++ y ∷ ys) ≡ true
has-unlinked a xs y ys h = ground (arith, has-append a xs ys, has-append a xs (y ∷ ys))

has-middle : (xs : List ℕ) (y : ℕ) (ys : List ℕ) → has y (xs ++ y ∷ ys) ≡ true
has-middle xs y ys = ground (arith, has-append y xs (y ∷ ys))

pub Shrunk-Unlinked :
    {b g : Blocks} {free : ℕ → List ℕ} {block o : ℕ}
    → IsFree b free
    → o ≤ max_order
    → Unlinked b o block (free o) g
    → Shrunk free block o g
Shrunk-Unlinked {b} {g} {free} {block} {o} k h l =
    let ys = l.front ++ l.back in
    let covers : (p : ℕ)
        → covered (update free o ys) p + within block (bytes o) p ≡ covered free p =
      λ p.
        let row = cover_row-insert o l.front block l.back p in
        let e = ap (λ xs. cover_row o xs p) l.whole in
        omega (
          arith,
          update-covers free o ys p (within block (bytes o) p) 0 h (omega (arith, row, e)),
        ) in
    record {
      after = update free o ys;
      is_free =
          IsFree-Relinked o block ys k h l.relinked
            (λ i hi ne.
              IsFree-apart i o block k hi h (λ e. ne (sym e))
                (rw l.whole (has-middle l.front block l.back)))
            (λ p. omega (arith, covers p, k.once p))
            λ a is. k.bounded o a h (
              subst (λ xs. has a xs ≡ true) (sym l.whole) (has-unlinked a l.front block l.back is));
      covers = covers;
      shorter = λ i. elim (ℕ_discrete i o) [
        | yes e ↦ rw (e, update_self free o ys, l.whole) (shorter-append l.front block l.back)
        | no ne ↦ rw (update_ne free ys ne) (omega arith)
      ];
    }
