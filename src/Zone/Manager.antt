-- ===== src/Zone/Manager.antt =====
-- The functions of memory/memmgr.c over the list of zones. `KernelVirtualBase` is a parameter of the one
-- function that reads it.
use Prim.Native.Nat.{bit_and, bit_xor}
use ukernel_mp.Base.{
  ℕ, Bool, true, false, ◌+◌, ◌-◌, ◌*◌, ◌%◌, ◌^◌, ◌==◌, ◌&&◌, ◌||◌, leb, ltb, not, if◌then◌else◌,
  List, [], ◌∷◌, Option, none, some,
}
use ukernel_mp.Glist.Heap.{Ptr, null}
use ukernel_mp.Buddy.Order.{page_size}
use ukernel_mp.Buddy.Blocks.{Outcome, done, ◌>>=◌}
use ukernel_mp.Zone.Ops.{
  ZoneType, zone_direct, zone_indirect, is_direct, PoolOps, Zone, fit_address_space, zone_l2p,
  zone_p2l, store_get, store_free,
}

-- `memmgr`
pub record Memory (P : Type 0) : Type 0 where
  pub ram_total : ℕ
  pub ram_free : ℕ
  pub ram_used : ℕ
  pub zones : List (Zone P)

-- `ROUND_UP(m, a)`
unfoldable pub round_up : ℕ → ℕ → ℕ
round_up m a =
    bit_and ((m + (a + 2 ^ 32 - 1)) % 2 ^ 32) (bit_xor ((a + 2 ^ 32 - 1) % 2 ^ 32) (2 ^ 32 - 1))

abbrev pub same_type : ZoneType → ZoneType → Bool
same_type zone_direct t = is_direct t
same_type zone_indirect t = not (is_direct t)

-- `KERNEL_VIRTUAL_ADDRESS` is `kernel_base`; 1920 MiB behind it are mapped directly.
unfoldable pub memory_is_logical_addr : (kernel_base vaddr : ℕ) → Bool
memory_is_logical_addr kernel_base vaddr =
    leb kernel_base vaddr && leb vaddr ((kernel_base + 1920 * 0x100000) % 2 ^ 32)

module _ {P : Type 0} where
  unfoldable pub ram_alloc : ℕ → Memory P → Memory P
  ram_alloc size m = record m {
    ram_free = (m.ram_free + 2 ^ 32 - size) % 2 ^ 32;
    ram_used = (m.ram_used + size) % 2 ^ 32;
  }

  unfoldable pub ram_dealloc : ℕ → Memory P → Memory P
  ram_dealloc size m = record m {
    ram_free = (m.ram_free + size) % 2 ^ 32;
    ram_used = (m.ram_used + 2 ^ 32 - size) % 2 ^ 32;
  }

  unfoldable pub memory_l2p : List (Zone P) → Ptr → Ptr
  memory_l2p [] laddr = null
  memory_l2p (z ∷ zs) laddr =
      let rest = memory_l2p zs laddr in
      if fit_address_space z false laddr 0 then zone_l2p z laddr else rest

  unfoldable pub memory_p2l : List (Zone P) → Ptr → Ptr
  memory_p2l [] paddr = null
  memory_p2l (z ∷ zs) paddr =
      let rest = memory_p2l zs paddr in
      if fit_address_space z true paddr 0 then zone_p2l z paddr else rest

  module _ (ops : PoolOps P) (depth fuel : ℕ) where
    -- The zone after `memoryGet`, with `availableMemory` counted down where there is a result.
    abbrev pub got : Zone P → ℕ → Ptr → Zone P
    got z size addr =
        if addr == null
        then z
        else record z { available_memory = (z.available_memory + 2 ^ 32 - size) % 2 ^ 32 }

    -- The loop of `MemoryGet`; NULL where no zone has the memory.
    unfoldable pub get_in : ℕ → ZoneType → List (Zone P) → Outcome (Ptr × List (Zone P))
    get_in size t [] = done (null, [])
    get_in size t (z ∷ zs) =
        let rest = get_in size t zs in
        if same_type z.zone_type t && leb size z.available_memory
        then (store_get ops depth fuel size z.store >>= λ r.
            if r.0 == null
            then (rest >>= λ q. done (q.0, record z { store = r.1 } ∷ q.1))
            else done (r.0, got (record z { store = r.1 }) size r.0 ∷ zs))
        else (rest >>= λ q. done (q.0, z ∷ q.1))

    unfoldable pub memory_get_from : ℕ → ZoneType → Memory P → Outcome (Ptr × Memory P)
    unfolding get_in ram_alloc
    memory_get_from size t m = get_in size t m.zones >>= λ r.
        let g = record m { zones = r.1 } in done (r.0, if r.0 == null then g else ram_alloc size g)

    unfoldable pub memory_get : ℕ → ZoneType → Memory P → Outcome (Ptr × Memory P)
    unfolding memory_get_from memory_l2p round_up
    memory_get size t m =
        let n = round_up size page_size in
        memory_get_from n t m >>= λ r.
        if not (r.0 == null) || is_direct t
        then done r
        else (memory_get_from (round_up n page_size) zone_direct r.1 >>= λ q.
            done (memory_l2p q.1.zones q.0, q.1))

    -- The zone that `MemoryFree` finds, and the address that it goes on with.
    unfoldable pub free_addr : Zone P → (addr size : ℕ) → Option Ptr
    free_addr z addr size =
        if is_direct z.zone_type
        then (if fit_address_space z false addr size
            then some addr
            else (if fit_address_space z true addr size then some (zone_p2l z addr) else none))
        else (if fit_address_space z true addr size then some addr else none)

    -- The memory is given to the first zone that it fits; NONE where it is lost.
    unfoldable pub free_in :
        (rounds addr size : ℕ) → List (Zone P) → Outcome (Option (List (Zone P)))
    unfolding free_addr
    free_in rounds addr size [] = done none
    free_in rounds addr size (z ∷ zs) =
        let rest = free_in rounds addr size zs in
        elim (free_addr z addr size) [
          | some a ↦
              (store_free ops rounds depth fuel a size z.store >>= λ s. done (
                some (
                  record z { store = s; available_memory = (z.available_memory + size) % 2 ^ 32 }
                  ∷ zs)))
          | none ↦ (rest >>= λ r. done (elim r [ some ys ↦ some (z ∷ ys) | none ↦ none ]))
        ]

    unfoldable pub memory_free : (rounds addr size : ℕ) → Memory P → Outcome (Memory P)
    unfolding free_in ram_dealloc round_up
    memory_free rounds addr size m =
        let n = round_up size page_size in
        free_in rounds addr n m.zones >>= λ r.
        done (elim r [ some zs ↦ ram_dealloc n (record m { zones = zs }) | none ↦ m ])

    unfoldable pub memory_get_aligned :
        (rounds size align : ℕ) → ZoneType → Memory P → Outcome (Ptr × Memory P)
    unfolding memory_get memory_free round_up
    memory_get_aligned rounds size align t m =
        let n = round_up size page_size in
        let a = round_up align page_size in
        let block = if ltb n a then a else n in
        memory_get block t m >>= λ r.
        if (r.0 == null) || not (ltb n a)
        then done r
        else (memory_free rounds ((r.0 + (block + 2 ^ 32 - n)) % 2 ^ 32)
              ((block + 2 ^ 32 - n) % 2 ^ 32) r.1
            >>= λ g. done (r.0, g))
