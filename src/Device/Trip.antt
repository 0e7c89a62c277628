-- ===== src/Device/Trip.antt =====
-- A device that is taken and given back.
use ukernel_mp.Base.{
  ℕ, ◌≡◌, ◌≢◌, ◌<◌, ◌+◌, ◌-◌, ◌%◌, ◌^◌, ◌==◌, true, false, refl, ◌∙◌, arith, update, if◌then◌else◌,
  Bool, update_self, update_same, update-update,
}
use ukernel_mp.Glist.Heap.{Ptr, null}
use ukernel_mp.Glist.Link.{e_ok}
use ukernel_mp.Device.Ops.{Devices, find_device, set_refs, device_get, device_free}

set_refs_back :
    (p : Ptr) (d : Devices)
    → (d.dev p).refs < 2 ^ 16 - 1
    → device_free p (set_refs p (((d.dev p).refs + 1) % 2 ^ 16) d) ≡ (e_ok, d)
unfolding device_free
set_refs_back p d few =
    let n : ((d.dev p).refs + 1) % 2 ^ 16 ≡ (d.dev p).refs + 1 = omega (arith, few) in
    let some_ref : ((d.dev p).refs + 1 == 0) ≡ false = ground arith in
    let back : ((d.dev p).refs + 1 + 2 ^ 16 - 1) % 2 ^ 16 ≡ (d.dev p).refs = omega (arith, few) in
    let more = record (d.dev p) { refs = (d.dev p).refs + 1 } in
    let at : update d.dev p more p ≡ more = update_self d.dev p more in
    let twice : update (update d.dev p more) p (d.dev p) ≡ d.dev =
      update-update d.dev p more (d.dev p) ∙ update_same d.dev p (d.dev p) refl in
    rw (n, at, some_ref, back, twice) refl

choice :
    (b : Bool) (p : Ptr) (d : Devices)
    → (d.dev p).refs < 2 ^ 16 - 1
    → let r : Ptr × Devices =
        if b then (p, set_refs p (((d.dev p).refs + 1) % 2 ^ 16) d) else (null, d) in
      r.0 ≢ null → device_free r.0 r.1 ≡ (e_ok, d)
choice true p d few got = set_refs_back p d few
choice false p d few got = elim (got refl) [ ]

-- `DeviceFree` of the device that `DeviceGet` has returned, where the first one at the address
-- had less than 2 ^ 16 - 1 references, succeeds and leaves the devices as they were before.
pub free-get :
    (addr size : ℕ) (d : Devices)
    → (d.dev (find_device addr d.devs d.dev)).refs < 2 ^ 16 - 1
    → (device_get addr size d).0 ≢ null
    → device_free ((device_get addr size d).0) ((device_get addr size d).1) ≡ (e_ok, d)
unfolding device_get
free-get addr size d few got = choice _ _ d few got
