-- ===== src/Mpool/Ops.antt =====
-- The functions of memory/mpool.c on a pool that is not NULL. A pool has blocks of any size
-- (`MPOOL_FREEALLOCATION`) or objects of one (`MPOOL_FIXEDALLOCATION`), not both; what `kmalloc`
-- returns for the pool itself is an argument.
use Prim.Native.Nat.{bit_and, bit_xor}
use ukernel_mp.Base.{
  ℕ, Bool, true, false, ◌+◌, ◌-◌, ◌*◌, ◌%◌, ◌^◌, ◌==◌, ◌&&◌, ◌||◌, not, ltb, if◌then◌else◌, List,
  [], ◌∷◌, Option, none, some,
}
use ukernel_mp.Glist.Heap.{Ptr, null}
use ukernel_mp.Kheap.Ops.{Block, block_at}
use ukernel_mp.Zone.Manager.{round_up}
use ukernel_mp.Mpool.Ring.{min_size, pmm_insert, pmm_get, list_insert}

pub data Allocation : Type 0 where
  no_allocation free_allocation fixed_allocation : Allocation

-- The control flags.
pub record Flags : Type 0 where
  pub allocation : Allocation
  pub align_check : Bool
  pub use_pointers : Bool
  pub unmapped : Bool
  pub integrate_hdr : Bool
  pub remote_hdr : Bool

-- `mPool_t`; `is_free` and `is_full` are the flags `MPOOL_PFREE` and `MPOOL_PFULL`.
pub record Mpool : Type 0 where
  pub head : List Block
  pub start : ℕ
  pub end : ℕ
  pub free : ℕ
  pub size : ℕ
  pub flags : Flags
  pub is_free : Bool
  pub is_full : Bool

-- `ROUND_DOWN(m, a)`
unfoldable pub round_down : ℕ → ℕ → ℕ
round_down m a = bit_and m (bit_xor ((a + 2 ^ 32 - 1) % 2 ^ 32) (2 ^ 32 - 1))

abbrev pub diff : ℕ → ℕ → ℕ
diff a b = (a + 2 ^ 32 - b) % 2 ^ 32

abbrev pub is_any : Allocation → Bool
is_any free_allocation = true
is_any no_allocation = false
is_any fixed_allocation = false

abbrev pub is_fixed : Allocation → Bool
is_fixed fixed_allocation = true
is_fixed no_allocation = false
is_fixed free_allocation = false

-- The size that the pool must have room for.
unfoldable pub min_alloc : (size align : ℕ) → Flags → ℕ
unfolding round_up
min_alloc size align f =
    let n = if ltb size min_size then min_size else size in
    if f.align_check then round_up n align else n

-- How a pool begins, with its memory between `start` and `end`.
unfoldable pub new_pool : (start end size : ℕ) → Flags → Mpool
unfolding pmm_insert
new_pool start end size f = record {
  head = if is_any f.allocation then pmm_insert [] start (diff end start) else [];
  start = start;
  end = end;
  free = start;
  size = size;
  flags = f;
  is_free = true;
  is_full = false;
}

-- `sizeof(mPool_t)` with `MPOOL_POINTERS_OFFSET`, where it is asked for.
abbrev pub pool_bytes : Flags → ℕ
pool_bytes f = if f.use_pointers then 32 else 24

-- The address of the pool and the end of its memory; `remote` is what `kmalloc` returns.
unfoldable pub place : (start end low high size remote : ℕ) → Flags → Ptr × (ℕ × Flags)
place start end low high size remote f =
    if f.unmapped
      || (ltb (diff start low) (pool_bytes f)
          && (not f.integrate_hdr && ltb (diff end low) ((size * 2 ^ 5 + 24) % 2 ^ 32)))
    then (remote, (high, record f { remote_hdr = true }))
    else (if ltb (diff start low) (pool_bytes f)
        then (diff high (pool_bytes f), (diff high (pool_bytes f), f))
        else (start, (high, f)))

unfoldable pub mpool_create : (remote start end size align : ℕ) → Flags → Option (Ptr × Mpool)
unfolding round_down round_up min_alloc place new_pool
mpool_create remote start end size align f =
    let low = round_down start align in
    let high = round_up end align in
    let n = min_alloc size align f in
    let n' = if is_any f.allocation then align else n in
    let p = place start end low high n' remote f in
    if ltb (diff high low) n || (p.0 == null) then none else some (p.0, new_pool low p.1.0 n' p.1.1)

-- With no pool where the memory is too small: the pool stays as it is.
unfoldable pub mpool_init : (start end size align : ℕ) → Flags → Option Mpool
unfolding round_down round_up min_alloc new_pool
mpool_init start end size align f =
    let low = round_up start align in
    let high = round_down end align in
    let n = min_alloc size align f in
    if ltb (diff high low) n
    then none
    else some (new_pool low high (if is_any f.allocation then align else n) f)

-- With the memory behind `free`, where it is enough for an object.
abbrev pub from_end : (is_enough : Bool) → Mpool → Ptr × Mpool
from_end is_enough p =
    let free = if is_enough then (p.free + p.size) % 2 ^ 32 else p.free in
    (
      if is_enough then p.free else null,
      record p {
        free = free;
        is_free = p.is_free && not (p.end == free);
        is_full = p.is_full || (p.end == free);
      },
    )

-- The first object that has come back, if there is one.
abbrev pub get_object : List Block → Mpool → Ptr × Mpool
get_object [] p = from_end (not (ltb (diff p.end p.free) p.size)) p
get_object (b ∷ rest) p = (b.addr, record p { head = rest })

unfoldable pub mpool_memory_alloc : Mpool → Ptr × Mpool
mpool_memory_alloc p = if not (is_fixed p.flags.allocation) then (null, p) else get_object p.head p

-- The loop that takes back the objects at the end of the memory that was handed out, and whether it
-- has come to the end of the list.
unfoldable pub take_back : (size free : ℕ) → List Block → ℕ × (List Block × Bool)
take_back size free [] = (free, ([], true))
take_back size free (b ∷ rest) =
    let later = take_back size b.addr rest in
    if ((b.addr + size) % 2 ^ 32) == free then later else (free, (b ∷ rest, false))

unfoldable pub mpool_memory_free : Ptr → Mpool → Mpool
unfolding take_back list_insert
mpool_memory_free ptr p =
    let t = take_back p.size ptr p.head in
    if not (is_fixed p.flags.allocation) || (ltb ptr p.start || ltb p.end ptr)
    then p
    else (if ((ptr + p.size) % 2 ^ 32) == p.free
        then record p {
          free = t.0;
          head = t.1.0;
          is_free = not t.1.1 || p.is_free;
          is_full = t.1.1 && p.is_full;
        }
        else record p {
          head = list_insert (block_at ptr p.size) p.head;
          is_free = true;
          is_full = false;
        })

-- The size that `MemoryBlockAlloc` and `MemoryBlockFree` go on with.
unfoldable pub block_size : ℕ → Mpool → ℕ
unfolding round_up
block_size size p = round_up (if ltb size min_size then min_size else size) p.size

abbrev pub is_empty : List Block → Bool
is_empty [] = true
is_empty (b ∷ rest) = false

unfoldable pub memory_block_alloc : ℕ → Mpool → Ptr × Mpool
unfolding block_size pmm_get mpool_memory_alloc
memory_block_alloc size p =
    if not (is_any p.flags.allocation)
    then mpool_memory_alloc p
    else (if p.is_full then (null, p) else elim (pmm_get p.head (block_size size p)) [
      | none ↦ (null, p)
      | some r ↦ (
        r.0.addr,
        record p {
          head = r.1;
          is_free = p.is_free && not (is_empty r.1);
          is_full = p.is_full || is_empty r.1;
        },
      )
    ])

unfoldable pub memory_block_free : (ptr size : ℕ) → Mpool → Mpool
unfolding block_size round_down pmm_insert mpool_memory_free
memory_block_free ptr size p =
    if not (is_any p.flags.allocation) then mpool_memory_free ptr p else record p {
      head = pmm_insert p.head (round_down ptr p.size) (block_size size p);
      is_free = true;
      is_full = false;
    }

-- Whether it is `MPOOL_FREE`.
unfoldable pub mpool_state : Mpool → Bool
mpool_state p = p.is_free

-- The loop of `mPoolDestroy` ends where the list does: in a ring of two blocks or more it comes back
-- to the first one, which has been given back, and goes on for ever.
unfoldable pub mpool_destroy : Mpool → Option Mpool
mpool_destroy p = if not p.flags.unmapped then some p else elim p.head [
  | [] ↦ some p
  | (b ∷ rest) ↦
      if is_any p.flags.allocation && not (is_empty rest)
      then none
      else some (record p { head = [] })
]
