-- ===== src/Glist/Inv.antt =====
-- What a well-formed list of lib/glist.c is: the nodes it holds, in order.
use ukernel_mp.Base.{
  ℕ, ◌≡◌, ◌≢◌, ◌<◌, ◌^◌, refl, sym, ap, ◌∙◌, true, false, List, ◌∷◌, ◌++◌, arith, update, update_ne,
  update_self, has-last_or, ne_of_has, ne_of_has_append, has-erase, head_or, last_or, has,
  IsDistinct, length,
}
use ukernel_mp.Glist.Heap.{Ptr, null, Glist, Mem, Run, Cmd, ok, and_then}
use ukernel_mp.Glist.Chain.{Nexts, Prevs}

module _ {S : Type 0} where
  -- The list at `l` links the nodes `xs` both ways between NULL and NULL.
  pub record IsLinked (m : Mem S) (l : Ptr) (xs : List ℕ) : Type 0 where
    pub list : l ≢ null
    pub first : (m.list l).first ≡ head_or xs null
    pub last : (m.list l).last ≡ last_or null xs
    pub nexts : Nexts m.next xs null
    pub prevs : Prevs m.prev null xs
    pub distinct : IsDistinct xs
    pub nonnull : has null xs ≡ false

  pub last-ne-null :
      {m : Mem S} {l x : Ptr} {xs : List ℕ} → IsLinked m l (x ∷ xs) → last_or x xs ≢ null
  last-ne-null {x} {xs} k e =
      ne_of_has null (last_or x xs) (x ∷ xs) k.nonnull (has-last_or x xs) (sym e)

  pub ne_null_of_linked :
      {m : Mem S} {l : Ptr} (xs : List ℕ) (y : ℕ) (ys : List ℕ)
      → IsLinked m l (xs ++ y ∷ ys)
      → y ≢ null
  ne_null_of_linked xs y ys k e = ne_of_has_append null xs y ys k.nonnull (sym e)

  pub ne_null_of_linked_behind :
      {m : Mem S} {l : Ptr} (xs : List ℕ) (x y : ℕ) (ys : List ℕ)
      → IsLinked m l (xs ++ x ∷ y ∷ ys)
      → y ≢ null
  ne_null_of_linked_behind xs x y ys k e =
      ne_of_has_append null xs y ys (has-erase null xs x (y ∷ ys) k.nonnull) (sym e)

  -- The nodes of `xs` say that they are in the list.
  abbrev pub IsOwned : Mem S → Ptr → List ℕ → Type 0
  IsOwned m l xs = (a : ℕ) → has a xs ≡ true → m.owner a ≡ l

  pub record IsGlist (m : Mem S) (l : Ptr) (xs : List ℕ) : Type 0 where
    pub linked : IsLinked m l xs
    pub count : (m.list l).count ≡ length xs
    pub small : length xs < 2 ^ 31
    pub owned : IsOwned m l xs

  -- From `m` to `g` only the links of the list at `l` and of its nodes `xs` may differ.
  pub record IsKept (m g : Mem S) (l : Ptr) (xs : List ℕ) : Type 0 where
    pub owner : g.owner ≡ m.owner
    pub objects : g.objects ≡ m.objects
    pub cpu : g.cpu ≡ m.cpu
    pub masked : g.masked ≡ m.masked
    pub others : (q : Ptr) → q ≢ l → g.list q ≡ m.list q
    pub kind : (g.list l).kind ≡ (m.list l).kind
    pub count : (g.list l).count ≡ (m.list l).count
    pub list_sort : (g.list l).list_sort ≡ (m.list l).list_sort
    pub list_cmp : (g.list l).list_cmp ≡ (m.list l).list_cmp
    pub lock : (g.list l).lock ≡ (m.list l).lock
    pub nodes : (a : ℕ) → has a xs ≡ false → (g.next a ≡ m.next a) × (g.prev a ≡ m.prev a)

  -- Writes to the links of nodes of `xs`, and to both ends of the list.
  pub IsKept-ends :
      (m : Mem S) (l : Ptr) (xs : List ℕ) (nx pv : Ptr → Ptr) (p q : Ptr)
      → ((a : ℕ) → has a xs ≡ false → (nx a ≡ m.next a) × (pv a ≡ m.prev a))
      → IsKept m
          (record m {
            next = nx;
            prev = pv;
            list = update m.list l (record (m.list l) { first = p; last = q });
          })
          l
          xs
  IsKept-ends m l xs nx pv p q same = record {
    owner = refl;
    objects = refl;
    cpu = refl;
    masked = refl;
    others = λ a ne. update_ne m.list _ ne;
    kind = ground arith;
    count = ground arith;
    list_sort = ground arith;
    list_cmp = ground arith;
    lock = ground arith;
    nodes = same;
  }

  -- The same with the ends left alone.
  pub IsKept-nodes :
      (m : Mem S) (l : Ptr) (xs : List ℕ) (nx pv : Ptr → Ptr)
      → ((a : ℕ) → has a xs ≡ false → (nx a ≡ m.next a) × (pv a ≡ m.prev a))
      → IsKept m (record m { next = nx; prev = pv }) l xs
  IsKept-nodes m l xs nx pv same = record {
    owner = refl;
    objects = refl;
    cpu = refl;
    masked = refl;
    others = λ a ne. refl;
    kind = refl;
    count = refl;
    list_sort = refl;
    list_cmp = refl;
    lock = refl;
    nodes = same;
  }

  abbrev pub with_objects : S → Mem S → Mem S
  with_objects s m = record m { objects = s }

  abbrev pub with_count : Ptr → ℕ → Mem S → Mem S
  with_count l c m = record m { list = update m.list l (record (m.list l) { count = c }) }

  pub IsLinked-objects :
      {m : Mem S} {l : Ptr} {xs : List ℕ} (s : S)
      → IsLinked m l xs
      → IsLinked (with_objects s m) l xs
  IsLinked-objects s k = record {
    list = k.list;
    first = k.first;
    last = k.last;
    nexts = k.nexts;
    prevs = k.prevs;
    distinct = k.distinct;
    nonnull = k.nonnull;
  }

  pub IsLinked-count :
      {m : Mem S} {l : Ptr} {xs : List ℕ} (c : ℕ)
      → IsLinked m l xs
      → IsLinked (with_count l c m) l xs
  IsLinked-count {m} {l} c k = record {
    list = k.list;
    first = ap (λ g. g.first) (update_self m.list l _) ∙ k.first;
    last = ap (λ g. g.last) (update_self m.list l _) ∙ k.last;
    nexts = k.nexts;
    prevs = k.prevs;
    distinct = k.distinct;
    nonnull = k.nonnull;
  }

  pub IsKept-count :
      {m g : Mem S} {l : Ptr} {xs : List ℕ} (c : ℕ)
      → IsKept m g l xs
      → IsKept (with_count l c m) (with_count l c g) l xs
  IsKept-count {m} {g} {l} c k = record {
    owner = k.owner;
    objects = k.objects;
    cpu = k.cpu;
    masked = k.masked;
    others = λ q ne. update_ne g.list _ ne ∙ k.others q ne ∙ sym (update_ne m.list _ ne);
    kind = same (λ h. h.kind) k.kind;
    count = same (λ h. h.count) refl;
    list_sort = same (λ h. h.list_sort) k.list_sort;
    list_cmp = same (λ h. h.list_cmp) k.list_cmp;
    lock = same (λ h. h.lock) k.lock;
    nodes = k.nodes;
  }
    where
      same :
          {A : Type 0} (f : Glist S → A)
          → f (record (g.list l) { count = c }) ≡ f (record (m.list l) { count = c })
          → f ((with_count l c g).list l) ≡ f ((with_count l c m).list l)
      same f e = ap f (update_self g.list l _) ∙ e ∙ sym (ap f (update_self m.list l _))

  -- The list at `l` now holds `xs`, and nothing else has changed.
  abbrev pub Spliced : Mem S → Ptr → List ℕ → Unit {0} → Mem S → Type 0
  Spliced m l xs _ g = IsLinked g l xs × IsKept m g l xs

  -- The run ends, and its result and state meet `P`.
  pub data Returns {A : Type 0} (P : A → Mem S → Type 0) : Run S A → Type 0 where
    returns : {a : A} {m : Mem S} → P a m → Returns P (ok a m)

  pub Returns-bind :
      {A B : Type 0} {P : A → Mem S → Type 0} {Q : B → Mem S → Type 0} {r : Run S A}
      {k : A → Cmd S B}
      → Returns P r
      → ((a : A) (m : Mem S) → P a m → Returns Q (k a m))
      → Returns Q (and_then r k)
  Returns-bind (returns p) go = go _ _ p

  pub Returns-mono :
      {A : Type 0} {P Q : A → Mem S → Type 0} {r : Run S A}
      → Returns P r
      → ((a : A) (m : Mem S) → P a m → Q a m)
      → Returns Q r
  Returns-mono (returns p) go = returns (go _ _ p)
