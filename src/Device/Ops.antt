-- ===== src/Device/Ops.antt =====
-- The functions of memory/devices.c. The chain of devices is the list of their addresses.
use ukernel_mp.Base.{
  ℕ, zero, suc, Bool, true, false, ◌+◌, ◌-◌, ◌%◌, ◌^◌, ◌==◌, ◌&&◌, not, List, [], ◌∷◌, ◌++◌, length,
  if◌then◌else◌, update,
}
use ukernel_mp.Glist.Heap.{Ptr, null}
use ukernel_mp.Glist.Link.{e_ok, e_error}

-- `dev_t`; `name` holds `len` bytes.
pub record Device : Type 0 where
  pub addr : ℕ
  pub size : ℕ
  pub locked : Bool
  pub refs : ℕ
  pub len : ℕ
  pub name : List ℕ

pub record Devices : Type 0 where
  pub devs : List Ptr
  pub count : ℕ
  pub dev : ℕ → Device

abbrev pub first_bytes : ℕ → List ℕ → List ℕ
first_bytes zero cs = []
first_bytes (suc n) [] = []
first_bytes (suc n) (c ∷ cs) = c ∷ first_bytes n cs

-- `kmalloc` has returned `p`; `name` is without the NUL at its end.
unfoldable pub device_register : (p : Ptr) → (addr size : ℕ) → List ℕ → Devices → ℕ × Devices
device_register p addr size name d =
    let len = (length name + 1) % 2 ^ 16 in
    (
      e_ok,
      record {
        devs = p ∷ d.devs;
        count = (d.count + 1) % 2 ^ 32;
        dev = update d.dev p (record {
          addr = addr;
          size = size;
          locked = false;
          refs = 0;
          len = len;
          name = first_bytes len (name ++ (0 ∷ []));
        });
      },
    )

-- The loop of `DeviceGet`
unfoldable pub find_device : ℕ → List Ptr → (ℕ → Device) → Ptr
find_device addr [] dev = null
find_device addr (p ∷ ps) dev = if (dev p).addr == addr then p else find_device addr ps dev

abbrev pub set_refs : Ptr → ℕ → Devices → Devices
set_refs p n d = record d { dev = update d.dev p (record (d.dev p) { refs = n }) }

unfoldable pub device_get : (addr size : ℕ) → Devices → Ptr × Devices
unfolding find_device
device_get addr size d =
    let p = find_device addr d.devs d.dev in
    if (not (p == null) && not ((d.dev p).locked)) && ((d.dev p).size == size)
    then (p, set_refs p (((d.dev p).refs + 1) % 2 ^ 16) d)
    else (null, d)

unfoldable pub device_free : Ptr → Devices → ℕ × Devices
device_free p d =
    if (d.dev p).refs == 0
    then (e_error, d)
    else (e_ok, set_refs p (((d.dev p).refs + 2 ^ 16 - 1) % 2 ^ 16) d)

unfoldable pub device_lock : Ptr → Devices → ℕ × Devices
device_lock p d = (e_ok, record d { dev = update d.dev p (record (d.dev p) { locked = true }) })
