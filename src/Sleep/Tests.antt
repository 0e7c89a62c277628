-- ===== src/Sleep/Tests.antt =====
-- The theorems on the queue of sleepers at two nodes.
use ukernel_mp.Base.{◌≡◌, refl, [], ◌∷◌, arith, some, ◌+◌}
use ukernel_mp.Glist.Sorted.{insert_spec}
use ukernel_mp.Glist.Heap.{Mem, pure}
use ukernel_mp.Glist.Inv.{IsGlist, Returns}
use ukernel_mp.Glist.Object.{IsReady}
use ukernel_mp.Sched.State.{Kernel}
use ukernel_mp.Sched.Tests.{machine, two}
use ukernel_mp.Sleep.Queue.{armed_at, timer_set-due}
use ukernel_mp.Sleep.Ops.{pend, sleep_sort, timer_set}
use ukernel_mp.Sleep.Delta.{due, place, insert-due}

insert-due_example :
    due
      (insert_spec sleep_sort 24 (8 ∷ 16 ∷ []) machine).1
      0
      (insert_spec sleep_sort 24 (8 ∷ 16 ∷ []) machine).0
    ≡ place 24 (0 + pend machine 24) (due machine 0 (8 ∷ 16 ∷ []))
insert-due_example =
    insert-due 24 0 (8 ∷ 16 ∷ []) machine (refl, (refl, (refl, tt))) (λ a. omega arith)

-- Every node of the machine waits for 7 ticks: the new one is due with the first.
due_with_first : place 24 7 (due machine 0 (8 ∷ 16 ∷ [])) ≡ (8, 7) ∷ (24, 7) ∷ (16, 14) ∷ []
due_with_first = refl

-- The same nodes as a queue of sleepers.
abbrev asleep : Mem Kernel
asleep = record two { list = λ a. record (two.list a) { list_sort = some sleep_sort } }

asleep-IsReady : IsReady asleep 100 24 (8 ∷ 16 ∷ [])
asleep-IsReady = record {
  glist = record {
    linked = record {
      list = omega arith;
      first = refl;
      last = refl;
      nexts = (refl, (refl, tt));
      prevs = (refl, (refl, tt));
      distinct = (refl, (refl, tt));
      nonnull = refl;
    };
    count = refl;
    small = omega arith;
    owned = λ a h. refl;
  };
  free = refl;
  cpu = omega arith;
  is_node = omega arith;
  new = refl;
  room = omega arith;
}

timer_set-due_example :
    Returns
      (λ r g.
        IsGlist g 100 (insert_spec sleep_sort 24 (8 ∷ 16 ∷ []) (armed_at 24 0 0 machine)).0
        × (due g.objects 0 (insert_spec sleep_sort 24 (8 ∷ 16 ∷ []) (armed_at 24 0 0 machine)).0
            ≡ place 24 30 (due machine 0 (8 ∷ 16 ∷ []))))
      (timer_set 100 100 (λ t. t) (λ n. n) (λ _ _ _. pure tt) 24 0 0 asleep)
timer_set-due_example =
    timer_set-due 100 100 (λ t. t) (λ n. n) (λ _ _ _. pure tt) asleep 24 0 0 (8 ∷ 16 ∷ [])
      (record {
        kind = refl;
        by_time = refl;
        pending = λ a. omega arith;
        waiting = λ a. omega arith;
      })
      asleep-IsReady
