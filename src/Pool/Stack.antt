-- ===== src/Pool/Stack.antt =====
-- The free objects of an allocator are a stack. An object whose first word is 0 is followed by the
-- one behind it in memory, as in memory that was never handed out.
use ukernel_mp.Base.{
  ℕ, suc, Bool, ltb, ◌≡◌, ◌≢◌, ◌<◌, ◌+◌, ◌-◌, ◌%◌, ◌^◌, ◌==◌, true, false, refl, sym, ap, ◌∙◌,
  arith, ==_ne, List, [], ◌∷◌, length, has, IsDistinct, ne_of_head, Bool-cases, inl, inr,
  if◌then◌else◌, update, update_ne, update_self, subst, has-append_false,
}
use ukernel_mp.Glist.Heap.{Ptr, null}
use ukernel_mp.Pool.Ops.{Pool, take, give, allocator_free}

abbrev pub follower : ℕ → (ℕ → ℕ) → Ptr → Ptr
follower each w x = if w x == null then x + each else w x

-- From `at` on the free objects are `xs`; the word of the last one is 0.
abbrev pub IsChain : ℕ → (ℕ → ℕ) → Ptr → List ℕ → Type 0
IsChain each w at [] = Unit
IsChain each w at (x ∷ []) = (at ≡ x) × (w x ≡ null)
IsChain each w at (x ∷ y ∷ ys) = (at ≡ x) × IsChain each w (follower each w x) (y ∷ ys)

pub record IsStack (p : Pool) (w : ℕ → ℕ) (xs : List ℕ) : Type 0 where
  pub chain : IsChain p.alloc_size w p.free xs
  pub empty : xs ≡ [] → p.free ≡ null
  pub count : p.nfree ≡ length xs
  pub small : length xs < 2 ^ 16
  pub distinct : IsDistinct xs
  pub nonnull : has null xs ≡ false

IsChain-update :
    (each a v : ℕ) (w : ℕ → ℕ) (at : Ptr) (xs : List ℕ)
    → has a xs ≡ false
    → IsChain each w at xs
    → IsChain each (update w a v) at xs
IsChain-update each a v w at [] out c = tt
IsChain-update each a v w at (x ∷ []) out (e, z) =
    (e, update_ne w v (λ q. ne_of_head a x [] out (sym q)) ∙ z)
IsChain-update each a v w at (x ∷ y ∷ ys) out (e, c) =
    let same : update w a v x ≡ w x = update_ne w v (λ z. ne_of_head a x (y ∷ ys) out (sym z)) in
    (
      e,
      rw same (
          IsChain-update each a v w (follower each w x) (y ∷ ys)
            (has-append_false a (x ∷ []) (y ∷ ys) out).1 c),
    )

-- The last free object.
take-last :
    (p : Pool) (w : ℕ → ℕ) (x : ℕ) → IsStack p w (x ∷ []) → IsStack (take p w).1 (take p w).2 []
unfolding take
take-last p w x up =
    let word : (w p.free == null) ≡ true = rw (up.chain.0, up.chain.1) refl in
    let n : (p.nfree + 2 ^ 16 - 1) % 2 ^ 16 ≡ 0 = omega (arith, up.count) in
    rw (word, n)
      (record {
        chain = tt;
        empty = λ e. refl;
        count = refl;
        small = omega arith;
        distinct = tt;
        nonnull = refl;
      })

-- One of several.
take-first :
    (p : Pool) (w : ℕ → ℕ) (x y : ℕ) (ys : List ℕ)
    → IsStack p w (x ∷ y ∷ ys)
    → IsStack (take p w).1 (take p w).2 (y ∷ ys)
unfolding take
take-first p w x y ys up =
    let n : (p.nfree + 2 ^ 16 - 1) % 2 ^ 16 ≡ suc (length ys) = omega (arith, up.count, up.small) in
    let some_left : (suc (length ys) == 0) ≡ false = ground arith in
    let next = up.chain.1 in
    elim (Bool-cases (w x == null)) [
      | inl e ↦
          rw (up.chain.0, e, n, some_left)
            (record {
              chain = rw e at next;
              empty = λ z. cc z;
              count = refl;
              small = omega (arith, up.small);
              distinct = up.distinct.1;
              nonnull = (has-append_false null (x ∷ []) (y ∷ ys) up.nonnull).1;
            })
      | inr e ↦
          rw (up.chain.0, e, n)
            (record {
              chain = IsChain-update p.alloc_size x 0 w (w x) (y ∷ ys) up.distinct.0 (rw e at next);
              empty = λ z. cc z;
              count = refl;
              small = omega (arith, up.small);
              distinct = up.distinct.1;
              nonnull = (has-append_false null (x ∷ []) (y ∷ ys) up.nonnull).1;
            })
    ]

take-IsStack_at :
    (p : Pool) (w : ℕ → ℕ) (x : ℕ) (xs : List ℕ)
    → IsStack p w (x ∷ xs)
    → IsStack (take p w).1 (take p w).2 xs
take-IsStack_at p w x [] up = take-last p w x up
take-IsStack_at p w x (y ∷ ys) up = take-first p w x y ys up

free-first : (p : Pool) (w : ℕ → ℕ) (x : ℕ) (xs : List ℕ) → IsStack p w (x ∷ xs) → p.free ≡ x
free-first p w x [] up = up.chain.0
free-first p w x (y ∷ ys) up = up.chain.0

take-object : (p : Pool) (w : ℕ → ℕ) → (take p w).0 ≡ p.free
unfolding take
take-object p w = elim (Bool-cases (w p.free == null)) [ inl e ↦ rw e refl | inr e ↦ rw e refl ]

-- The allocation of `AllocatorGetObj` from an allocator whose free objects are a stack returns
-- the top one, and leaves the others as the stack.
pub take-IsStack :
    (p : Pool) (w : ℕ → ℕ) (x : ℕ) (xs : List ℕ)
    → IsStack p w (x ∷ xs)
    → ((take p w).0 ≡ x) × IsStack (take p w).1 (take p w).2 xs
take-IsStack p w x xs up = (take-object p w ∙ free-first p w x xs up, take-IsStack_at p w x xs up)

given-IsChain :
    (p : Pool) (w : ℕ → ℕ) (x : ℕ) (xs : List ℕ)
    → IsStack p w xs
    → has x xs ≡ false
    → IsChain p.alloc_size (update w x p.free) x (x ∷ xs)
given-IsChain p w x [] up out = (refl, update_self w x p.free ∙ up.empty refl)
given-IsChain p w x (y ∷ ys) up out =
    let at = free-first p w y ys up in
    let y_ne : (y == null) ≡ false = ==_ne (λ z. ne_of_head null y ys up.nonnull (sym z)) in
    let follow : follower p.alloc_size (update w x p.free) x ≡ y =
      ap (λ v. if v == null then x + p.alloc_size else v) (update_self w x p.free ∙ at)
      ∙ rw y_ne refl in
    let rest = subst (λ f. IsChain p.alloc_size w f (y ∷ ys)) at up.chain in
    (
      refl,
      subst (λ f. IsChain p.alloc_size (update w x p.free) f (y ∷ ys)) (sym follow)
          (IsChain-update p.alloc_size x p.free w y (y ∷ ys) out rest),
    )

give-IsStack :
    (p : Pool) (w : ℕ → ℕ) (x : ℕ) (xs : List ℕ)
    → IsStack p w xs
    → p.clean_memory ≡ false
    → x ≢ null
    → has x xs ≡ false
    → suc (length xs) < 2 ^ 16
    → IsStack (give x p w).0 (give x p w).1 (x ∷ xs)
unfolding give
give-IsStack p w x xs up clean ne out room = rw clean (record {
  chain = given-IsChain p w x xs up out;
  empty = λ z. cc z;
  count = omega (arith, up.count);
  small = room;
  distinct = (out, up.distinct);
  nonnull = ground arith;
})

-- `AllocatorFree` has found the object to be of the first allocator, which has it on top of its
-- stack; the others are as they were.
pub record IsFreed (x : Ptr) (xs : List ℕ) (ps : List Pool) (r : Bool × List Pool × (ℕ → ℕ))
    : Type 0 where
  pub first : Pool
  pub found : r.0 ≡ true
  pub chain : r.1 ≡ first ∷ ps
  pub stack : IsStack first r.2 (x ∷ xs)

module _ (p : Pool) (w : ℕ → ℕ) (x : ℕ) (xs : List ℕ) where
  -- For an address in front of the end of the first allocator, which does not clear its memory
  -- and has room in the count, and an object that is not free and not NULL, `AllocatorFree`
  -- succeeds and pushes the object onto the stack of free objects of that allocator; the others
  -- of the chain stay as they are.
  pub allocator_free-IsFreed :
      (ps : List Pool)
      → IsStack p w xs
      → p.clean_memory ≡ false
      → x < p.table + p.size
      → x ≢ null
      → has x xs ≡ false
      → suc (length xs) < 2 ^ 16
      → IsFreed x xs ps (allocator_free x (p ∷ ps) w)
  unfolding allocator_free
  allocator_free-IsFreed [] up clean inside ne out room =
      let near : ltb (p.table + p.size) x ≡ false = ground (arith, inside) in
      rw near (record {
        first = (give x p w).0;
        found = refl;
        chain = refl;
        stack = give-IsStack p w x xs up clean ne out room;
      })
  allocator_free-IsFreed (q ∷ ps) up clean inside ne out room =
      let near : ltb (p.table + p.size) x ≡ false = ground (arith, inside) in
      rw near (record {
        first = (give x p w).0;
        found = refl;
        chain = refl;
        stack = give-IsStack p w x xs up clean ne out room;
      })
