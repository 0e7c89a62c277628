-- ===== src/Pool/Ops.antt =====
-- The functions of lib/allocator.c. The allocators of a chain are a list, `word` is the memory by
-- the addresses of its words, and `fresh` holds the addresses that `kmalloc` returns for the data of
-- new allocators, in order, until it returns NULL. The locks are left out.
use ukernel_mp.Base.{
  ℕ, zero, suc, Bool, true, false, ◌+◌, ◌-◌, ◌*◌, ◌/◌, ◌%◌, ◌^◌, ◌==◌, ltb, leb, not, Option, none,
  some, List, [], ◌∷◌, if◌then◌else◌, update,
}
use ukernel_mp.Glist.Heap.{Ptr, null}
use ukernel_mp.Kheap.Ops.{Kheap, kfree}

-- `sizeof(allocator_t)`
abbrev pub sizeof_allocator : ℕ
sizeof_allocator = 32

-- `allow_expand` and `purge` are two of the flags.
pub record Pool : Type 0 where
  pub table : Ptr
  pub free : Ptr
  pub size : ℕ
  pub nfree : ℕ
  pub max_id : ℕ
  pub alloc_size : ℕ
  pub clean_memory : Bool
  pub allow_expand : Bool
  pub purge : Bool

-- `memset` of `left` words to 0
unfoldable pub clear_words : (left : ℕ) → Ptr → (ℕ → ℕ) → (ℕ → ℕ)
clear_words zero at w = w
clear_words (suc left) at w = clear_words left (at + 4) (update w at 0)

-- With the data at `base`. The test of the flags is `flags | ALLOCATOR_CLEAN_MEMORY`, which is
-- never 0: the memory is always cleared.
unfoldable pub allocator_init :
    (base size alloc_size : ℕ) → (clean allow purge : Bool) → (ℕ → ℕ) → Pool × (ℕ → ℕ)
unfolding clear_words
allocator_init base size alloc_size clean allow purge w =
    let each = (alloc_size + 3) / 4 * 4 % 2 ^ 16 in
    let n = size / each in
    (
      record {
        table = base;
        free = base;
        size = n * each;
        nfree = n;
        max_id = n;
        alloc_size = each;
        clean_memory = clean;
        allow_expand = allow;
        purge = purge;
      },
      clear_words (n * each / 4) base w,
    )

-- `AllocatorGetObj` where an object is free: the object, and what it leaves.
unfoldable pub take : Pool → (ℕ → ℕ) → Ptr × Pool × (ℕ → ℕ)
take p w =
    let obj = p.free in
    let n = (p.nfree + 2 ^ 16 - 1) % 2 ^ 16 in
    if w obj == null
    then (obj, record p { nfree = n; free = if n == 0 then null else obj + p.alloc_size }, w)
    else (obj, record p { nfree = n; free = w obj }, update w obj 0)

abbrev pub addr_to_id : Pool → Ptr → ℕ
addr_to_id p obj = (obj - p.table) / p.alloc_size

-- The object and its id, NULL where there is none; no result is an access through NULL.
abbrev pub Got : Type 0
Got = Option ((Ptr × ℕ) × List Pool × (ℕ → ℕ))

abbrev pub behind_pool : Pool → Got → Got
behind_pool p none = none
behind_pool p (some (r, ps, w)) = some (r, p ∷ ps, w)

-- `AllocatorGetObj` of an allocator with an object free, in front of the others `ps`.
unfoldable pub take_from : (base : ℕ) → Pool → List Pool → (ℕ → ℕ) → Got
unfolding take
take_from base p ps w =
    let (obj, q, v) = take p w in some ((obj, base + addr_to_id p obj), q ∷ ps, v)

-- `AllocatorExpand` of the allocator `p`, the last of the chain, and `AllocatorGetObj` of the new
-- one.
unfoldable pub get_new : List Ptr → (base : ℕ) → Pool → (ℕ → ℕ) → Got
unfolding allocator_init take_from
get_new [] base p w = none
get_new (f ∷ fs) base p w =
    let (q, v) = allocator_init f p.size p.alloc_size p.clean_memory p.allow_expand p.purge w in
    let more = get_new fs (base + q.max_id) q v in
    if not (q.nfree == 0)
    then take_from base q [] v
    else (if q.allow_expand then behind_pool q more else some ((null, 0), q ∷ [], v))

unfoldable pub allocator_get_obj : List Ptr → (base : ℕ) → List Pool → (ℕ → ℕ) → Got
unfolding get_new take_from
allocator_get_obj fresh base [] w = none
allocator_get_obj fresh base (p ∷ []) w =
    if not (p.nfree == 0)
    then take_from base p [] w
    else (if p.allow_expand
        then behind_pool p (get_new fresh (base + p.max_id) p w)
        else some ((null, 0), p ∷ [], w))
allocator_get_obj fresh base (p ∷ q ∷ ps) w =
    let next = allocator_get_obj fresh (base + p.max_id) (q ∷ ps) w in
    if not (p.nfree == 0)
    then take_from base p (q ∷ ps) w
    else (if p.allow_expand then behind_pool p next else some ((null, 0), p ∷ q ∷ ps, w))

-- `AllocatorFree` of an object of this allocator.
unfoldable pub give : Ptr → Pool → (ℕ → ℕ) → Pool × (ℕ → ℕ)
unfolding clear_words
give obj p w =
    let v = if p.clean_memory then clear_words (p.alloc_size / 4) obj w else w in
    (record p { free = obj; nfree = (p.nfree + 1) % 2 ^ 16 }, update v obj p.free)

-- `AllocatorPurge` of the rest of a chain.
abbrev pub purged : List Pool → List Pool
purged [] = []
purged (p ∷ ps) = if p.nfree == p.max_id then ps else p ∷ ps

-- Whether the object was of the chain, and what is left.
unfoldable pub allocator_free : Ptr → List Pool → (ℕ → ℕ) → Bool × List Pool × (ℕ → ℕ)
unfolding give
allocator_free obj [] w = (false, [], w)
allocator_free obj (p ∷ []) w =
    let (q, v) = give obj p w in
    if ltb (p.table + p.size) obj then (false, p ∷ [], w) else (true, q ∷ [], v)
allocator_free obj (p ∷ p' ∷ ps) w =
    let (q, v) = give obj p w in
    let (ok, qs, u) = allocator_free obj (p' ∷ ps) w in
    if ltb (p.table + p.size) obj
    then (ok, p ∷ (if p.purge then purged qs else qs), u)
    else (true, q ∷ p' ∷ ps, v)

unfoldable pub allocator_to_addr : (id : ℕ) → List Pool → Ptr
allocator_to_addr id [] = null
allocator_to_addr id (p ∷ ps) =
    let next = allocator_to_addr (id - p.max_id) ps in
    if leb p.max_id id then next else id * p.alloc_size + p.table

unfoldable pub allocator_free_id : (id : ℕ) → List Pool → (ℕ → ℕ) → Bool × List Pool × (ℕ → ℕ)
unfolding allocator_to_addr allocator_free
allocator_free_id id ps w = allocator_free (allocator_to_addr id ps) ps w

-- No result is -1.
unfoldable pub allocator_to_id : Ptr → List Pool → Option ℕ
allocator_to_id obj [] = none
allocator_to_id obj (p ∷ ps) =
    let next = allocator_to_id obj ps in
    if obj == null
    then none
    else (if ltb (p.table + p.size) obj then next else some (addr_to_id p obj))

-- The loop of `AllocatorDestroy`: the allocators behind the first one, with their addresses, give
-- their data and themselves back to the kernel heap.
unfoldable pub free_others : List (Ptr × Pool) → Kheap → Kheap
free_others [] h = h
free_others ((at, p) ∷ ps) h = free_others ps (kfree at sizeof_allocator (kfree p.table p.size h))

abbrev pub no_pool : Pool
no_pool = record {
  table = null;
  free = null;
  size = 0;
  nfree = 0;
  max_id = 0;
  alloc_size = 0;
  clean_memory = false;
  allow_expand = false;
  purge = false;
}

-- What is left of the first allocator, whose own memory is not given back, and the heap.
unfoldable pub allocator_destroy : Pool → List (Ptr × Pool) → Kheap → Pool × Kheap
unfolding free_others
allocator_destroy p ps h = (no_pool, kfree p.table p.size (free_others ps h))
