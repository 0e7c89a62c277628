-- ===== src/Device/Tests.antt =====
-- The theorem on memory/devices.c at two devices, the second of which is taken.
use ukernel_mp.Base.{◌≡◌, ◌≢◌, ◌<◌, ◌-◌, ◌^◌, arith, false, []}
use ukernel_mp.Glist.Heap.{null}
use ukernel_mp.Glist.Link.{e_ok}
use ukernel_mp.Device.Ops.{Devices, find_device, device_register, device_get, device_free}
use ukernel_mp.Device.Trip.{free-get}

abbrev none_yet : Devices
none_yet = record {
  devs = [];
  count = 0;
  dev = λ _. record { addr = 0; size = 0; locked = false; refs = 0; len = 0; name = [] };
}

abbrev two : Devices
unfolding device_register
two = (device_register 64 0x2000 16 [] (device_register 32 0x1000 16 [] none_yet).1).1

two_few : (two.dev (find_device 0x1000 two.devs two.dev)).refs < 2 ^ 16 - 1
unfolding find_device two
two_few = omega arith

two_got : (device_get 0x1000 16 two).0 ≢ null
unfolding device_get find_device two
two_got = omega arith

free-get_example :
    device_free ((device_get 0x1000 16 two).0) ((device_get 0x1000 16 two).1) ≡ (e_ok, two)
free-get_example = free-get 0x1000 16 two two_few two_got
