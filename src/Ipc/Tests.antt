-- ===== src/Ipc/Tests.antt =====
-- The theorems on kernel/ipc_2.c at a channel where two tasks and two notifications wait.
use ukernel_mp.Base.{
  ◌≢◌, sym, ◌∙◌, ℕ, ◌≡◌, ◌+◌, ◌*◌, ◌/◌, ◌^◌, ◌-◌, refl, some, none, false, [], ◌∷◌, arith, leb,
  ◌==◌, update, if◌then◌else◌,
}
use ukernel_mp.Glist.Heap.{Cmd, ok, pure, null, g_list, Glist, Mem}
use ukernel_mp.Glist.Lock.{lock_free}
use ukernel_mp.Glist.Inv.{IsGlist, Returns, with_objects}
use ukernel_mp.Glist.Remove.{IsOpen}
use ukernel_mp.Glist.Sorted.{insert_spec}
use ukernel_mp.Sched.State.{blocked, dead, Kernel}
use ukernel_mp.Sched.Ops.{ready_list_sort}
use ukernel_mp.Sched.Tests.{machine}
use ukernel_mp.Ipc.Copy.{buffer, msg_copy, msg_map_receiver_copy, msg_map_sender_copy}
use ukernel_mp.Ipc.Pages.{IsBuffer, phys, map_receiver_copy-bytes, map_sender_copy-bytes}
use ukernel_mp.Ipc.Queue.{Layout, set_ipc, msg_list_sort, notify_list_sort, msg_get, msgs_flush}
use ukernel_mp.Ipc.Order.{IsInOrder, IsSorted, msg_prio, notify_prio, insert-IsInOrder}
use ukernel_mp.Ipc.Pick.{IsPending, IsGot, IsHighest, pick, msg_get-IsHighest}
use ukernel_mp.Ipc.Send.{Header, rcvid_of, msg_id, msg_chid, msg_send}
use ukernel_mp.Vector.Ops.{vector_peek}
use ukernel_mp.Sched.Hold.{IsGlist-objects}
use ukernel_mp.Sem.Ops.{returned}
use ukernel_mp.Glist.Link.{e_ok, e_inval}
use ukernel_mp.Ipc.Unlink.{runs, unlink_all-refuses}
use ukernel_mp.Ipc.Close.{unlink_all}
use ukernel_mp.Ipc.Connect.{set_connections}
use ukernel_mp.Ipc.Ids.{msg_id-rcvid_of}
use ukernel_mp.Ipc.Flush.{IsWaiting, IsFlushed, flush-wakes}

-- The channel at 200, with its lists behind it.
abbrev at : Layout
at = record {
  receive = λ c. c + 8;
  send = λ c. c + 16;
  response = λ c. c + 24;
  notify = λ c. c + 32;
  clinks = λ c. c + 40;
  link_node = λ l. l + 4;
  link_of = λ n. n - 4;
}

-- The notifications have the priorities 7 and 2.
abbrev objects : Kernel
objects =
    set_ipc
      (λ s. record s { notify = λ n. record (s.notify n) { priority = if n == 40 then 7 else 2 } })
      machine

abbrev list_of : (count first last : ℕ) → Glist Kernel
list_of count first last = record {
  kind = g_list;
  count = count;
  list_sort = some ready_list_sort;
  list_cmp = none;
  first = first;
  last = last;
  lock = lock_free;
}

-- The tasks at 8 and 16 send, and the one at 24 is ready to run.
abbrev m : Mem Kernel
m = record {
  next = update (update (λ _. 0) 8 16) 40 48;
  prev = update (update (λ _. 0) 16 8) 48 40;
  owner = λ a. if leb a 16 then 216 else if leb 40 a then 232 else 100;
  list = update (update (λ _. list_of 1 24 24) 216 (list_of 2 8 16)) 232 (list_of 2 40 48);
  objects = objects;
  cpu = 0;
  masked = false;
}

senders : IsOpen m 216 (8 ∷ 16 ∷ [])
senders = record {
  glist = record {
    linked = record {
      list = omega arith;
      first = refl;
      last = refl;
      nexts = (refl, (refl, tt));
      prevs = (refl, (refl, tt));
      distinct = (refl, (refl, tt));
      nonnull = refl;
    };
    count = refl;
    small = omega arith;
    owned = λ a is. ground (arith, is);
  };
  free = refl;
  cpu = omega arith;
}

notices : IsOpen m 232 (40 ∷ 48 ∷ [])
notices = record {
  glist = record {
    linked = record {
      list = omega arith;
      first = refl;
      last = refl;
      nexts = (refl, (refl, tt));
      prevs = (refl, (refl, tt));
      distinct = (refl, (refl, tt));
      nonnull = refl;
    };
    count = refl;
    small = omega arith;
    owned = λ a is. ground (arith, is);
  };
  free = refl;
  cpu = omega arith;
}

ready : IsGlist m 100 (24 ∷ [])
ready = record {
  linked = record {
    list = omega arith;
    first = refl;
    last = refl;
    nexts = (refl, tt);
    prevs = (refl, tt);
    distinct = (refl, tt);
    nonnull = refl;
  };
  count = refl;
  small = omega arith;
  owned = λ a is. ground (arith, is);
}

senders-IsSorted : IsSorted (msg_prio objects) (8 ∷ 16 ∷ [])
senders-IsSorted = ((omega arith, tt), (tt, tt))

notices-IsSorted : IsSorted (notify_prio objects) (40 ∷ 48 ∷ [])
notices-IsSorted = ((omega arith, tt), (tt, tt))

pending : IsPending at m 200 56 (8 ∷ 16 ∷ []) (40 ∷ 48 ∷ [])
pending = record {
  send_kind = λ e. cc e;
  notify_kind = λ e. cc e;
  sends = senders;
  notes = notices;
  lists = omega arith;
  apart = λ a is. ground (arith, is);
  sends_sorted = senders-IsSorted;
  notes_sorted = notices-IsSorted;
}

msg_get-IsHighest_example :
    Returns
      (λ r g.
        IsGot at m 200 56
          (8 ∷ 16 ∷ [])
          (40 ∷ 48 ∷ [])
          (pick (8 ∷ 16 ∷ []) (40 ∷ 48 ∷ []) objects)
          r
          g
        × IsHighest objects
            (8 ∷ 16 ∷ [])
            (40 ∷ 48 ∷ [])
            (pick (8 ∷ 16 ∷ []) (40 ∷ 48 ∷ []) objects))
      (msg_get at 200 56 m)
msg_get-IsHighest_example = msg_get-IsHighest at m 200 56 (8 ∷ 16 ∷ []) (40 ∷ 48 ∷ []) pending

insert-IsInOrder_example :
    IsInOrder
      (msg_prio objects)
      24
      (8 ∷ 16 ∷ [])
      objects
      (insert_spec msg_list_sort 24 (8 ∷ 16 ∷ []) objects)
    × IsInOrder
        (notify_prio objects)
        60
        (40 ∷ 48 ∷ [])
        objects
        (insert_spec notify_list_sort 60 (40 ∷ 48 ∷ []) objects)
insert-IsInOrder_example =
    insert-IsInOrder objects 24 60 (8 ∷ 16 ∷ []) (40 ∷ 48 ∷ []) senders-IsSorted notices-IsSorted

blocked≢dead : blocked ≢ dead
blocked≢dead e = cc e

stopped : (a : ℕ) → (objects.task a).state ≡ blocked
stopped a = ground arith

waits : IsWaiting 100 216 m (8 ∷ 16 ∷ []) (24 ∷ [])
waits = record {
  waiting = senders;
  glist = ready;
  free = refl;
  ready_list = record { kind = refl; by_prio = refl; sorted = (tt, tt) };
  idle = record { count = refl; owner = refl; cpu = omega arith };
  lists = omega arith;
  apart = λ a is. ground (arith, is);
  alive = λ a is e. absurd (blocked≢dead (sym (stopped a) ∙ e));
  room = omega arith;
}

flush-wakes_example :
    Returns (λ _ g. IsFlushed 100 216 m (8 ∷ 16 ∷ []) (24 ∷ []) g) (msgs_flush 100 3 216 m)
flush-wakes_example = flush-wakes 100 216 3 m (8 ∷ 16 ∷ []) (24 ∷ []) waits (omega arith)

msg_id-rcvid_of_example : (msg_chid (rcvid_of 300 7) ≡ 300) × (msg_id (rcvid_of 300 7) ≡ 7)
msg_id-rcvid_of_example = msg_id-rcvid_of 300 7 (omega arith) (omega arith)

-- The connection at 176 has the links at 4 and 12, and the process at 7 has the second one under 1.
abbrev connected : Mem Kernel
connected =
    with_objects
      (set_connections 7
        (record {
          table = 64;
          free = null;
          nfree = 0;
          size = 2;
          word = λ w. if w == 68 then 12 else 4;
        })
        m.objects)
      m

connected-IsOpen : IsOpen connected 216 (8 ∷ 16 ∷ [])
connected-IsOpen = record {
  glist = IsGlist-objects connected.objects m 216 (8 ∷ 16 ∷ []) senders.glist;
  free = refl;
  cpu = senders.cpu;
}

abbrev hdr : Header
hdr = record { kind = 1; code = 2; sbytes = 16; rbytes = 32 }

-- A system that answers every message with success.
abbrev system_receive : Header → ℕ → ℕ → Cmd Kernel ℕ
system_receive h smsg rmsg = pure e_ok

unlink_all-refuses_example :
    Returns
      (λ _ g.
        IsGlist g 216 []
        × (msg_send at 100 system_receive 64 0x9000 1 hdr 0x1000 0x2000 (runs 7 g)
            ≡ ok (returned e_inval) (runs 7 g)))
      (unlink_all at 100 (λ _. pure tt) (λ _. pure tt) 3 176 connected)
unfolding vector_peek
unlink_all-refuses_example =
    unlink_all-refuses at 100 (λ _. pure tt) (λ _. pure tt) (λ l g. refl) 3 176 connected
      (8 ∷ 16 ∷ []) connected-IsOpen (omega arith) system_receive 16 7 64 0x9000 1 hdr 0x1000 0x2000
      refl (omega arith) refl

-- A table at 0 whose sections map every address to itself.
abbrev word : ℕ → ℕ
word a = a / 4 * 2 ^ 20 + 2

mapped_buffer : IsBuffer word (λ a. a) 0 0x12f00 0x40 5000
mapped_buffer = record {
  mapped = λ v le lt. ground arith;
  fits = record { room = omega arith; small = omega arith };
}

abbrev table : ℕ → ℕ
table = phys (λ v. v) word (λ a. a) 0 0x8000 0 0x12f00 0x40 5000 5001 (λ a. a)

map_receiver_copy-bytes_example :
    msg_map_receiver_copy 5001 (λ v. v) table 0x8000 0 0x12f00 0x40 5000 (λ a. a)
    ≡ some (msg_copy 5000 (buffer (λ v. v) 0x8000 0) (buffer table 0x12f00 0x40) 0 (λ a. a))
map_receiver_copy-bytes_example =
    map_receiver_copy-bytes (λ v. v) word (λ a. a) 0 0x8000 0 0x12f00 0x40 5000 5001 (λ a. a)
      mapped_buffer (omega arith)

map_sender_copy-bytes_example :
    msg_map_sender_copy 5001 (λ v. v) table 0x12f00 0x40 0x8000 0 5000 (λ a. a)
    ≡ some (msg_copy 5000 (buffer table 0x12f00 0x40) (buffer (λ v. v) 0x8000 0) 0 (λ a. a))
map_sender_copy-bytes_example =
    map_sender_copy-bytes (λ v. v) word (λ a. a) 0 0x12f00 0x40 0x8000 0 5000 5001 (λ a. a)
      mapped_buffer (omega arith)
