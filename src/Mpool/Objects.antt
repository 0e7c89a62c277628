-- ===== src/Mpool/Objects.antt =====
-- Pools of objects of one size of memory/mpool.c: the objects that have come back, and the memory
-- from `free` on that was not handed out yet.
use ukernel_mp.Base.{
  ℕ, Bool, ◌≡◌, ◌≢◌, ◌<◌, ◌≤◌, ◌+◌, ◌-◌, ◌%◌, ◌^◌, ◌⊎◌, ◌==◌, refl, ap, ◌∙◌, arith, true, false,
  List, [], ◌∷◌, Bool-cases, inl, inr, ltb,
}
use ukernel_mp.Glist.Heap.{Ptr, null}
use ukernel_mp.Buddy.Cover.{within}
use ukernel_mp.Buddy.GiveBack.{within-append}
use ukernel_mp.Kheap.Ops.{Block, block_at}
use ukernel_mp.Kheap.Sorted.{heap_cover}
use ukernel_mp.Mpool.Ring.{list_insert}
use ukernel_mp.Mpool.Blocks.{once_with}
use ukernel_mp.Mpool.Ops.{
  Mpool, diff, is_fixed, from_end, get_object, take_back, mpool_memory_alloc, mpool_memory_free,
}

-- Objects of the size `n` between two addresses.
abbrev pub AreObjects : (n low high : ℕ) → List Block → Type 0
AreObjects n low high [] = Unit
AreObjects n low high (b ∷ bs) =
    ((b.size ≡ n) × ((low ≤ b.addr) × (b.addr + n ≤ high))) × AreObjects n low high bs

-- A pool of objects, not at NULL and within the addresses.
pub record IsStock (p : Mpool) : Type 0 where
  pub fixed : is_fixed p.flags.allocation ≡ true
  pub size : 0 < p.size
  pub start : 0 < p.start
  pub end : p.end < 2 ^ 32
  pub low : p.start ≤ p.free
  pub high : p.free ≤ p.end
  pub objects : AreObjects p.size p.start p.end p.head

-- How often a byte is free.
abbrev pub stock_cover : Mpool → ℕ → ℕ
stock_cover p q = heap_cover p.head q + within p.free (p.end - p.free) q

-- An object of the pool that was free, and is no longer; the other memory that was free still is.
pub record IsHanded (p : Mpool) (r : Ptr × Mpool) : Type 0 where
  pub nonnull : r.0 ≢ null
  pub low : p.start ≤ r.0
  pub high : r.0 + p.size ≤ p.end
  pub stock : IsStock r.1
  pub covers : (q : ℕ) → stock_cover p q ≡ within r.0 p.size q + stock_cover r.1 q

-- No object is left: none has come back, and what is behind `free` is too small.
pub record IsNone (p : Mpool) (r : Ptr × Mpool) : Type 0 where
  pub result : r.0 ≡ null
  pub none_back : p.head ≡ []
  pub small : p.end - p.free < p.size
  pub stock : IsStock r.1
  pub covers : (q : ℕ) → stock_cover r.1 q ≡ stock_cover p q

module _ (p : Mpool) (up : IsStock p) where
  rest_size : diff p.end p.free ≡ p.end - p.free
  rest_size = omega (arith, up.high, up.end)

  fresh-covers :
      p.size ≤ p.end - p.free
      → (q : ℕ)
      → within p.free (p.end - p.free) q
        ≡ within p.free p.size q + within (p.free + p.size) (p.end - (p.free + p.size)) q
  fresh-covers fits q =
      let sum : p.end - p.free ≡ p.size + (p.end - (p.free + p.size)) = omega (arith, fits) in
      ap (λ n. within p.free n q) sum ∙ within-append p.free p.size (p.end - (p.free + p.size)) q

  fresh-IsHanded : p.size ≤ p.end - p.free → IsHanded p (from_end true p)
  fresh-IsHanded fits =
      let step : (p.free + p.size) % 2 ^ 32 ≡ p.free + p.size =
        omega (arith, fits, up.size, up.end) in
      record {
        nonnull = omega (arith, up.start, up.low);
        low = up.low;
        high = omega (arith, fits, up.high, up.size);
        stock = record {
          fixed = up.fixed;
          size = up.size;
          start = up.start;
          end = up.end;
          low = omega (arith, step, up.low);
          high = omega (arith, step, fits, up.size);
          objects = up.objects;
        };
        covers = λ q.
            let moved : within ((p.free + p.size) % 2 ^ 32) (p.end - (p.free + p.size) % 2 ^ 32) q
                ≡ within (p.free + p.size) (p.end - (p.free + p.size)) q =
              ap (λ f. within f (p.end - f) q) step in
            omega (arith, fresh-covers fits q, moved);
      }

  refused-IsNone : p.head ≡ [] → p.end - p.free < p.size → IsNone p (from_end false p)
  refused-IsNone e small = record {
    result = refl;
    none_back = e;
    small = small;
    stock = record {
      fixed = up.fixed;
      size = up.size;
      start = up.start;
      end = up.end;
      low = up.low;
      high = up.high;
      objects = up.objects;
    };
    covers = λ q. refl;
  }

  back-IsHanded :
      (b : Block) (rest : List Block)
      → p.head ≡ b ∷ rest
      → AreObjects p.size p.start p.end (b ∷ rest)
      → IsHanded p (b.addr, record p { head = rest })
  back-IsHanded b rest e ((same, (low, high)), hs) = record {
    nonnull = omega (arith, up.start, low);
    low = low;
    high = high;
    stock = record {
      fixed = up.fixed;
      size = up.size;
      start = up.start;
      end = up.end;
      low = up.low;
      high = up.high;
      objects = hs;
    };
    covers = λ q. omega (arith, ap (λ bs. heap_cover bs q) e, ap (λ n. within b.addr n q) same);
  }

  get_object-IsHanded :
      (bs : List Block)
      → p.head ≡ bs
      → AreObjects p.size p.start p.end bs
      → IsHanded p (get_object bs p) ⊎ IsNone p (get_object bs p)
  get_object-IsHanded [] e h = elim (Bool-cases (ltb (diff p.end p.free) p.size)) [
    | inl f ↦ simp f (inr (refused-IsNone e (ground (arith, rest_size, f))))
    | inr f ↦ simp f (inl (fresh-IsHanded (ground (arith, rest_size, f))))
  ]
  get_object-IsHanded (b ∷ rest) e h = inl (back-IsHanded b rest e h)

-- For a well formed pool of objects, `mPoolMemoryAlloc` returns an object of the pool that was
-- free and no longer is, with the rest as free as before; or it returns NULL and leaves all that
-- is free as it is, where no object has come back and the memory behind `free` is too small for
-- one.
pub object_alloc-IsHanded :
    (p : Mpool) → IsStock p → IsHanded p (mpool_memory_alloc p) ⊎ IsNone p (mpool_memory_alloc p)
unfolding mpool_memory_alloc
object_alloc-IsHanded p up = simp up.fixed (get_object-IsHanded p up p.head refl up.objects)

-- The pool after an object at `ptr` has come back.
pub record IsBack (p : Mpool) (ptr : Ptr) (g : Mpool) : Type 0 where
  pub stock : IsStock g
  pub covers : (q : ℕ) → stock_cover g q ≡ stock_cover p q + within ptr p.size q
  pub once : (q : ℕ) → stock_cover g q ≤ 1

module _ (n low high : ℕ) (filled : 0 < n) (nonnull : 0 < low) (bound : high < 2 ^ 32) where
  list_insert-AreObjects :
      (b : Block) (bs : List Block)
      → AreObjects n low high (b ∷ [])
      → AreObjects n low high bs
      → AreObjects n low high (list_insert b bs)
  unfolding list_insert
  list_insert-AreObjects b [] (h, _) hs = (h, hs)
  list_insert-AreObjects b (it ∷ rest) (h, u) (hi, hs) = elim (Bool-cases (ltb b.addr it.addr)) [
    | inl e ↦ rw e (hi, list_insert-AreObjects b rest (h, u) hs)
    | inr e ↦ rw e (h, (hi, hs))
  ]

  -- What the loop has taken back, and the list that it leaves.
  pub record IsTakenBack (free : ℕ) (bs : List Block) (t : ℕ × (List Block × Bool)) : Type 0 where
    pub low_free : low ≤ t.0
    pub high_free : t.0 ≤ high
    pub objects : AreObjects n low high t.1.0
    pub covers :
        (q : ℕ)
        → heap_cover t.1.0 q + within t.0 (high - t.0) q
          ≡ heap_cover bs q + within free (high - free) q

  take_back-IsTakenBack :
      (free : ℕ) (bs : List Block)
      → low ≤ free
      → free ≤ high
      → AreObjects n low high bs
      → IsTakenBack free bs (take_back n free bs)
  unfolding take_back
  take_back-IsTakenBack free [] lo hi h = record {
    low_free = lo;
    high_free = hi;
    objects = tt;
    covers = λ q. refl;
  }
  take_back-IsTakenBack free (b ∷ rest) lo hi ((same, (l, u)), hs) =
      let whole : (b.addr + n) % 2 ^ 32 ≡ b.addr + n = omega (arith, u, bound) in
      rw whole (elim (Bool-cases ((b.addr + n) == free)) [
        | inl e ↦
            let next : b.addr + n ≡ free = ground (arith, e) in
            let rec = take_back-IsTakenBack b.addr rest l (omega (arith, u)) hs in
            let sum : high - b.addr ≡ n + (high - free) = omega (arith, next, hi) in
            rw e (record {
              low_free = rec.low_free;
              high_free = rec.high_free;
              objects = rec.objects;
              covers = λ q.
                  let split : within b.addr (high - b.addr) q
                      ≡ within b.addr n q + within free (high - free) q =
                    ap (λ k. within b.addr k q) sum
                    ∙ within-append b.addr n (high - free) q
                    ∙ ap (λ a. within b.addr n q + within a (high - free) q) next in
                  omega (arith, rec.covers q, split, ap (λ k. within b.addr k q) same);
            })
        | inr e ↦ rw e (record {
          low_free = lo;
          high_free = hi;
          objects = ((same, (l, u)), hs);
          covers = λ q. refl;
        })
      ])

list_insert-covers :
    (b : Block) (bs : List Block) (q : ℕ)
    → heap_cover (list_insert b bs) q ≡ within b.addr b.size q + heap_cover bs q
unfolding list_insert
list_insert-covers b [] q = refl
list_insert-covers b (it ∷ rest) q = elim (Bool-cases (ltb b.addr it.addr)) [
  | inl e ↦ rw e (omega (arith, list_insert-covers b rest q))
  | inr e ↦ rw e refl
]

module _ (p : Mpool) (ptr : Ptr) (up : IsStock p) (lo : p.start ≤ ptr) (hi : ptr + p.size ≤ p.end)
    (once : (q : ℕ) → stock_cover p q ≤ 1)
    (out : (q : ℕ) → within ptr p.size q ≡ 1 → stock_cover p q ≡ 0) where
  -- The object is in front of `free`.
  joined-IsBack :
      (a b : Bool)
      → ptr + p.size ≡ p.free
      → IsBack p ptr (record p {
        head = (take_back p.size ptr p.head).1.0;
        free = (take_back p.size ptr p.head).0;
        is_free = a;
        is_full = b;
      })
  joined-IsBack a b next =
      let t =
        take_back-IsTakenBack p.size p.start p.end up.size up.start up.end ptr p.head lo
          (omega (arith, hi)) up.objects in
      let sum : p.end - ptr ≡ p.size + (p.end - p.free) = omega (arith, next, up.high) in
      let covers : (q : ℕ)
          → heap_cover (take_back p.size ptr p.head).1.0 q
              + within (take_back p.size ptr p.head).0 (p.end - (take_back p.size ptr p.head).0) q
            ≡ stock_cover p q + within ptr p.size q =
        λ q.
          let split : within ptr (p.end - ptr) q
              ≡ within ptr p.size q + within p.free (p.end - p.free) q =
            ap (λ k. within ptr k q) sum
            ∙ within-append ptr p.size (p.end - p.free) q
            ∙ ap (λ a. within ptr p.size q + within a (p.end - p.free) q) next in
          omega (arith, t.covers q, split) in
      record {
        stock = record {
          fixed = up.fixed;
          size = up.size;
          start = up.start;
          end = up.end;
          low = t.low_free;
          high = t.high_free;
          objects = t.objects;
        };
        covers = covers;
        once = λ q. once_with (stock_cover p q) ptr p.size q _ (covers q) (once q) (out q);
      }

  listed-IsBack : IsBack p ptr (record p {
    head = list_insert (block_at ptr p.size) p.head;
    is_free = true;
    is_full = false;
  })
  listed-IsBack = record {
    stock = record {
      fixed = up.fixed;
      size = up.size;
      start = up.start;
      end = up.end;
      low = up.low;
      high = up.high;
      objects =
          list_insert-AreObjects p.size p.start p.end up.size up.start up.end (block_at ptr p.size)
            p.head ((refl, (lo, hi)), tt) up.objects;
    };
    covers = λ q. omega (arith, list_insert-covers (block_at ptr p.size) p.head q);
    once = λ q.
        once_with (stock_cover p q) ptr p.size q _
          (omega (arith, list_insert-covers (block_at ptr p.size) p.head q)) (once q) (out q);
  }

-- For a well formed pool of objects in which no byte is free twice, `mPoolMemoryFree` of an
-- object of the pool that is not free gives exactly its bytes to the free memory, also where it
-- and objects that came back before it join what is behind `free`; the pool stays well formed,
-- and no byte is free twice.
pub object_free-IsBack :
    (p : Mpool) (ptr : Ptr)
    → IsStock p
    → p.start ≤ ptr
    → ptr + p.size ≤ p.end
    → ((q : ℕ) → stock_cover p q ≤ 1)
    → ((q : ℕ) → within ptr p.size q ≡ 1 → stock_cover p q ≡ 0)
    → IsBack p ptr (mpool_memory_free ptr p)
unfolding mpool_memory_free
object_free-IsBack p ptr up lo hi once out =
    let below : ltb ptr p.start ≡ false = ground (arith, lo) in
    let above : ltb p.end ptr ≡ false = ground (arith, hi) in
    let whole : (ptr + p.size) % 2 ^ 32 ≡ ptr + p.size = omega (arith, hi, up.end) in
    elim (Bool-cases ((ptr + p.size) == p.free)) [
      | inl e ↦
          simp (up.fixed, below, above, whole, e)
            (joined-IsBack p ptr up lo hi once out _ _ (ground (arith, e)))
      | inr e ↦ simp (up.fixed, below, above, whole, e) (listed-IsBack p ptr up lo hi once out)
    ]
