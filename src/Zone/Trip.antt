-- ===== src/Zone/Trip.antt =====
-- `MemoryL2P` and `MemoryP2L` undo each other.
use ukernel_mp.Base.{
  ℕ, ◌≡◌, ◌<◌, ◌≤◌, ◌+◌, ◌-◌, ◌%◌, ◌^◌, arith, true, false, List, [], ◌∷◌, ◌++◌, Bool,
}
use ukernel_mp.Zone.Ops.{Zone, is_direct, in_range, fit_address_space, zone_l2p, zone_p2l}
use ukernel_mp.Zone.Manager.{memory_l2p, memory_p2l}

in_range-true :
    (base size addr : ℕ)
    → base ≤ addr
    → addr ≤ base + size
    → base + size < 2 ^ 32
    → in_range base size addr 0 ≡ true
unfolding in_range
in_range-true base size addr h k fits =
    let same : (base + size + 2 ^ 32 - 0) % 2 ^ 32 ≡ base + size = omega (arith, fits) in
    rw same (ground arith)

module _ {P : Type 0} where
  -- The address fits none of the zones.
  abbrev pub FitsNone : List (Zone P) → (is_paddr : Bool) → ℕ → Type 0
  FitsNone [] is_paddr addr = Unit
  FitsNone (z ∷ zs) is_paddr addr =
      (fit_address_space z is_paddr addr 0 ≡ false) × FitsNone zs is_paddr addr

  -- A direct zone that holds the address, both of whose ranges end in front of the last byte.
  pub record IsHeld (z : Zone P) (laddr : ℕ) : Type 0 where
    pub direct : is_direct z.zone_type ≡ true
    pub above : z.v_addr ≤ laddr
    pub below : laddr ≤ z.v_addr + z.size
    pub v_fits : z.v_addr + z.size < 2 ^ 32
    pub p_fits : z.p_addr + z.size < 2 ^ 32

  abbrev pub physical : Zone P → ℕ → ℕ
  physical z laddr = z.p_addr + (laddr - z.v_addr)

  l2p-before :
      (before : List (Zone P)) (z : Zone P) (after : List (Zone P)) (laddr : ℕ)
      → FitsNone before false laddr
      → IsHeld z laddr
      → memory_l2p (before ++ z ∷ after) laddr ≡ physical z laddr
  unfolding memory_l2p zone_l2p fit_address_space
  l2p-before [] z after laddr none_fits h =
      let fits = in_range-true z.v_addr z.size laddr h.above h.below h.v_fits in
      let sum : (z.p_addr + (laddr + 2 ^ 32 - z.v_addr)) % 2 ^ 32 ≡ z.p_addr + (laddr - z.v_addr) =
        omega (arith, h.above, h.below, h.p_fits) in
      rw (h.direct, fits) sum
  l2p-before (y ∷ ys) z after laddr (out, none_fits) h =
      rw out (l2p-before ys z after laddr none_fits h)

  p2l-before :
      (before : List (Zone P)) (z : Zone P) (after : List (Zone P)) (laddr : ℕ)
      → FitsNone before true (physical z laddr)
      → IsHeld z laddr
      → memory_p2l (before ++ z ∷ after) (physical z laddr) ≡ laddr
  unfolding memory_p2l zone_p2l fit_address_space
  p2l-before [] z after laddr none_fits h =
      let fits =
        in_range-true z.p_addr z.size (physical z laddr) (omega arith)
          (omega (arith, h.above, h.below)) h.p_fits in
      let sum : (z.v_addr + (physical z laddr + 2 ^ 32 - z.p_addr)) % 2 ^ 32 ≡ laddr =
        omega (arith, h.above, h.below, h.v_fits) in
      rw (h.direct, fits) sum
  p2l-before (y ∷ ys) z after laddr (out, none_fits) h =
      rw out (p2l-before ys z after laddr none_fits h)

  -- For an address between the start of a direct zone and its end, where neither range of the
  -- zone reaches the end of the addresses, and the zones in front of it fit neither the address
  -- nor the physical one, `MemoryP2L` of `MemoryL2P` of the address is the address.
  pub l2p-p2l :
      (before : List (Zone P)) (z : Zone P) (after : List (Zone P)) (laddr : ℕ)
      → FitsNone before false laddr
      → FitsNone before true (physical z laddr)
      → IsHeld z laddr
      → memory_p2l (before ++ z ∷ after) (memory_l2p (before ++ z ∷ after) laddr) ≡ laddr
  l2p-p2l before z after laddr logical physical_out h =
      rw (l2p-before before z after laddr logical h)
        (p2l-before before z after laddr physical_out h)
