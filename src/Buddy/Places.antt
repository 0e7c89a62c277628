-- ===== src/Buddy/Places.antt =====
-- The places where the loops of `BlockInsert` and `BlockInsertMerge` stop, in a list that is there.
use mathlib.Core.List.{append-nil}
use ukernel_mp.Base.{
  ℕ, zero, suc, ◌≡◌, ◌≢◌, ◌≤◌, refl, sym, true, false, List, [], ◌∷◌, ◌++◌, arith, has, ==_ne,
  subst, ltb, last_or, false≢true, length, IsSplit-of_has, ne_of_head, if◌then◌else◌, Bool,
}
use ukernel_mp.Glist.Heap.{null}
use ukernel_mp.Glist.Chain.{Nexts}
use ukernel_mp.Buddy.Blocks.{
  Blocks, Outcome, done, deep, endless, ◌>>=◌, Place, before, behind, place_walk, link_at,
  link_only, block_remove,
}
use ukernel_mp.Buddy.Rows.{IsRow, Relinked, link_only_lem, link_before_lem, link_behind_lem}
use ukernel_mp.Buddy.Taken.{block_remove_lem}
use ukernel_mp.Buddy.Grown.{Linked, Unlinked}

-- The function ends within its fuel, with a result that has the property.
abbrev pub Gives : {A : Type 0} → (A → Type 0) → Outcome A → Type 0
Gives P (done a) = P a
Gives P deep = ⊥
Gives P endless = ⊥

module _ {A : Type 0} (P : A → Type 0) where
  pub Gives-bind :
      {B : Type 0} (Q : B → Type 0) (r : Outcome A) (k : A → Outcome B)
      → Gives P r
      → ((a : A) → P a → Gives Q (k a))
      → Gives Q (r >>= k)
  Gives-bind Q (done a) k h next = next a h
  Gives-bind Q deep k h next = absurd h
  Gives-bind Q endless k h next = absurd h

  pub Gives-map : (Q : A → Type 0) (r : Outcome A) → ((a : A) → P a → Q a) → Gives P r → Gives Q r
  Gives-map Q (done a) next h = next a h
  Gives-map Q deep next h = absurd h
  Gives-map Q endless next h = absurd h

  pub Gives-if :
      (c : Bool) (x y : Outcome A)
      → (c ≡ true → Gives P x)
      → (c ≡ false → Gives P y)
      → Gives P (if c then x else y)
  Gives-if true x y hx hy = hx refl
  Gives-if false x y hx hy = hy refl

-- The node of the place is in the list; the one that a block is put behind is its last.
abbrev pub IsPlace : List ℕ → Place → Type 0
IsPlace xs (before it) = has it xs ≡ true
IsPlace xs (behind it) = (has it xs ≡ true) × (it ≡ last_or null xs)

IsPlace-cons : (x y : ℕ) (ys : List ℕ) (p : Place) → IsPlace (y ∷ ys) p → IsPlace (x ∷ y ∷ ys) p
IsPlace-cons x y ys (before it) h = ground arith
IsPlace-cons x y ys (behind it) (h, e) = (ground arith, e)

-- The loop ends, at a place of the list, in as many rounds as the list has blocks.
pub place_walk_lem :
    (fuel block it : ℕ) (xs : List ℕ) (b : Blocks)
    → Nexts b.next (it ∷ xs) null
    → has null (it ∷ xs) ≡ false
    → length (it ∷ xs) ≤ fuel
    → Gives (IsPlace (it ∷ xs)) (place_walk fuel block it b)
unfolding place_walk
place_walk_lem zero block it xs b h out enough = absurd (omega arith)
place_walk_lem (suc fuel) block it [] b (e, h) out enough =
    Gives-if _ (ltb block it) _ _ (λ c. ground arith) λ c. rw e (ground arith, refl)
place_walk_lem (suc fuel) block it (y ∷ ys) b (e, h) out enough =
    let rest = place_walk_lem fuel block y ys b h (ground arith) (omega arith) in
    let y_ne : y ≢ null = λ q. ne_of_head null y ys (ground arith) (sym q) in
    Gives-if _ (ltb block it) _ _ (λ c. ground arith)
      λ c.
        rw (e, ==_ne y_ne)
          (Gives-map _ _ (place_walk fuel block y b) (λ p. IsPlace-cons it y ys p) rest)

link_behind :
    (b : Blocks) (o block : ℕ) (xs : List ℕ) (it : ℕ)
    → IsRow b o xs
    → has it xs ≡ true
    → it ≡ last_or null xs
    → block ≢ null
    → has block xs ≡ false
    → Linked b o block xs (link_at block o (behind it) b)
link_behind b o block [] it k is e nonnull out = absurd (false≢true is)
link_behind b o block (x ∷ xs) it k is e nonnull out = record {
  front = x ∷ xs;
  back = [];
  whole = sym (append-nil (x ∷ xs));
  relinked = rw e (link_behind_lem b o block nonnull x xs k out);
}

module _ (b : Blocks) (o block : ℕ) (xs : List ℕ) where
  -- The links are written at the place.
  pub link_at_lem :
      (p : Place)
      → IsRow b o xs
      → IsPlace xs p
      → block ≢ null
      → has block xs ≡ false
      → Linked b o block xs (link_at block o p b)
  link_at_lem (before it) k is nonnull out =
      let s = IsSplit-of_has it xs is in
      record {
        front = s.before;
        back = it ∷ s.behind;
        whole = s.whole;
        relinked =
            subst
              (λ zs.
                Relinked b o block zs (s.before ++ block ∷ it ∷ s.behind)
                  (link_at block o (before it) b))
              (sym s.whole)
              (link_before_lem b o block nonnull s.before it s.behind (subst (IsRow b o) s.whole k)
                (subst (λ zs. has block zs ≡ false) s.whole out));
      }
  link_at_lem (behind it) k (is, e) nonnull out = link_behind b o block xs it k is e nonnull out

-- The only block of an empty list.
pub link_first_lem :
    (b : Blocks) (o block : ℕ) (xs : List ℕ)
    → IsRow b o xs
    → xs ≡ []
    → block ≢ null
    → Linked b o block xs (link_only block o b)
link_first_lem b o block xs k e nonnull = record {
  front = [];
  back = [];
  whole = e;
  relinked =
      subst (λ zs. Relinked b o block zs (block ∷ []) (link_only block o b)) (sym e)
        (link_only_lem b o block nonnull (subst (IsRow b o) e k));
}

-- A block of the list is taken out.
pub unlink_lem :
    (b : Blocks) (o block : ℕ) (xs : List ℕ)
    → IsRow b o xs
    → has block xs ≡ true
    → Unlinked b o block xs (block_remove block o b)
unlink_lem b o block xs k is =
    let s = IsSplit-of_has block xs is in
    record {
      front = s.before;
      back = s.behind;
      whole = s.whole;
      relinked =
          subst (λ zs. Relinked b o block zs (s.before ++ s.behind) (block_remove block o b))
            (sym s.whole)
            (block_remove_lem b o block s.before s.behind (subst (IsRow b o) s.whole k));
    }
