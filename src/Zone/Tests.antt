-- ===== src/Zone/Tests.antt =====
-- The theorem on addresses at two zones, and runs of the functions.
use ukernel_mp.Base.{some, ℕ, ◌≡◌, refl, [], ◌∷◌, arith, false, true}
use ukernel_mp.Zone.Ops.{
  Zone, zone_direct, in_range, fit_address_space, zone_l2p, pool_store, zone_create_indirect,
}
use ukernel_mp.Zone.Manager.{memory_l2p, memory_p2l, round_up}
use ukernel_mp.Mpool.Ops.{round_down}
use ukernel_mp.Zone.Indirect.{
  IsFilled, zone_pool, zone_indirect_create, zone_indirect_create-IsFilled,
}
use ukernel_mp.Zone.Trip.{IsHeld, l2p-p2l}

-- Two banks, mapped one behind the other.
abbrev bank : (p_addr v_addr : ℕ) → Zone (Unit {0})
bank p_addr v_addr = record {
  zone_type = zone_direct;
  p_addr = p_addr;
  v_addr = v_addr;
  size = 0x1000;
  available_memory = 0x1000;
  store = pool_store tt;
}

held : IsHeld (bank 0x5000 0x9000) 0x9123
held = record {
  direct = refl;
  above = omega arith;
  below = omega arith;
  v_fits = omega arith;
  p_fits = omega arith;
}

outside :
    (fit_address_space (bank 0x1000 0x8000) false 0x9123 0 ≡ false)
    × (fit_address_space (bank 0x1000 0x8000) true 0x5123 0 ≡ false)
unfolding fit_address_space in_range
outside = (refl, refl)

l2p-p2l_example :
    memory_p2l
      (bank 0x1000 0x8000 ∷ bank 0x5000 0x9000 ∷ [])
      (memory_l2p (bank 0x1000 0x8000 ∷ bank 0x5000 0x9000 ∷ []) 0x9123)
    ≡ 0x9123
l2p-p2l_example =
    l2p-p2l (bank 0x1000 0x8000 ∷ []) (bank 0x5000 0x9000) [] 0x9123 (outside.0, tt) (outside.1, tt)
      held

-- The first address of the second bank is taken for the end of the first one.
first_of_second : memory_l2p (bank 0x1000 0x8000 ∷ bank 0x5000 0x9000 ∷ []) 0x9000 ≡ 0x2000
unfolding memory_l2p zone_l2p fit_address_space in_range
first_of_second = refl

pages : (round_up 1 0x1000 ≡ 0x1000) × (round_up 0x2000 0x1000 ≡ 0x2000)
unfolding round_up
pages = (refl, refl)

zone_indirect_create-IsFilled_example :
    (zone_indirect_create 0x9000 0x100000 0 0x40000 0
      ≡ some (zone_create_indirect (zone_pool 0x100000 0x40000) 0x100000 0 0x40000 0))
    × IsFilled 0x100000 0x40000 (zone_pool 0x100000 0x40000)
unfolding round_up round_down
zone_indirect_create-IsFilled_example =
    zone_indirect_create-IsFilled 0x100000 0x40000 (omega arith) (omega arith) (omega arith) 0x9000
      0 0 (omega arith) refl refl
