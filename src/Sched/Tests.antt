-- ===== src/Sched/Tests.antt =====
-- The theorems on the scheduler at a machine of two CPUs, with two tasks ready to run.
use ukernel_mp.Base.{
  ℕ, ◌≡◌, ◌==◌, refl, some, none, false, ◌^◌, ◌-◌, [], ◌∷◌, arith, if◌then◌else◌, update,
}
use ukernel_mp.Glist.Heap.{g_list, Mem}
use ukernel_mp.Glist.Lock.{lock_free}
use ukernel_mp.Glist.Inv.{IsGlist, Returns}
use ukernel_mp.Vector.Ops.{Vector}
use ukernel_mp.Ipc.State.{Ipc}
use ukernel_mp.Sched.State.{blocked, SubState, Task, Kernel}
use ukernel_mp.Sched.Ops.{ready_list_sort, sched_sort_low_priority, sched_add_task}
use ukernel_mp.Sched.Order.{IsSorted}
use ukernel_mp.Sched.Add.{IsAdded, add_task-queued}
use ukernel_mp.Sched.Hold.{IsReadyList}
use ukernel_mp.Sched.Lowest.{IsLowest, sort_low_priority-IsLowest}
use ukernel_mp.Sched.Switch.{take_next, tick_loop}
use ukernel_mp.Sched.Next.{IsDispatched, take_next-highest}

abbrev a_task : ℕ → Task
a_task p = record {
  parent = 0;
  tid = 1;
  state = blocked;
  sub_state = SubState.none;
  real_prio = p;
  active_prio = p;
  on_time = 0;
  ret = 0;
}

-- The tasks at 8 and 16 have the priorities 9 and 3, others 5; CPU 1 runs at the lower priority.
abbrev no_vector : Vector
no_vector = record { size = 0; nfree = 0; free = 0; table = 0; word = λ _. 0 }

abbrev pub no_ipc : Ipc
no_ipc = record {
  channel = λ _. record {
    pid = 0;
    chid = 0;
    server = 0;
    flags = 0;
    alive = false;
    priority = 0;
    connections = no_vector;
    messages = no_vector;
    lock = record { count = 0; owner = 2 ^ 32 - 1 };
  };
  connection = λ _. record { scoid = 0; channel = 0; flags = 0; invalid = false };
  link = λ _. record { pid = 0; coid = 0; connection = 0; link_dead = false; refs = 0 };
  notify = λ _. record { kind = 0; value = 0; scoid = 0; priority = 0 };
  msg_cmp = λ _. record { scoid = 0; pid = 0 };
  msg = λ _. record {
    rcvid = 0;
    scoid = 0;
    coid = 0;
    kind = 0;
    code = 0;
    smsg = 0;
    sbytes = 0;
    rmsg = 0;
    rbytes = 0;
    server = 0;
    read_off = 0;
    write_off = 0;
  };
  note = λ _. record { scoid = 0; kind = 0; value = 0; notification = 0 };
  client = λ _. 0;
  serving = λ _. 0;
  channels = λ _. no_vector;
  connections = λ _. no_vector;
  pid = λ _. 0;
  bytes = λ _. 0;
}

abbrev pub machine : Kernel
machine = record {
  lock = record { count = 0; owner = 2 ^ 32 - 1 };
  cpus = 2;
  lprio = 20;
  tslice = 10;
  lcpu = 0;
  cpu = λ c. record {
    prio = if c == 1 then 4 else 20;
    irqlevel = 0;
    tslice = if c == 1 then 1 else 7;
    task = 0;
    process = 0;
  };
  task = update (update (λ _. a_task 5) 8 (a_task 9)) 16 (a_task 3);
  timeout = λ _. record {
    set = false;
    auto_reload = false;
    wait_time = 30;
    pend_time = 7;
    handler = 0;
    arg = 0;
  };
  sem = λ _. record { magic = 0xaaaadead; counter = 1; locked = false };
  mutex = λ _. record { magic = 0xaaaadead; lock = 0; locked = false; owner = 0 };
  cond = λ _. record { magic = 0xaaaadead; mutex = 0 };
  ipc = no_ipc;
  tasks_running = λ _. 0;
  tls = λ _. 0;
  space = λ _. 0;
  raised = [];
}

abbrev pub two : Mem Kernel
two = record {
  next = update (λ _. 0) 8 16;
  prev = update (λ _. 0) 16 8;
  owner = λ _. 100;
  list = λ _. record {
    kind = g_list;
    count = 2;
    list_sort = some ready_list_sort;
    list_cmp = none;
    first = 8;
    last = 16;
    lock = lock_free;
  };
  objects = machine;
  cpu = 0;
  masked = false;
}

two-IsGlist : IsGlist two 100 (8 ∷ 16 ∷ [])
two-IsGlist = record {
  linked = record {
    list = omega arith;
    first = refl;
    last = refl;
    nexts = (refl, (refl, tt));
    prevs = (refl, (refl, tt));
    distinct = (refl, (refl, tt));
    nonnull = refl;
  };
  count = refl;
  small = omega arith;
  owned = λ a h. refl;
}

sorted : IsSorted machine (8 ∷ 16 ∷ [])
sorted = ((omega arith, tt), (tt, tt))

two-IsReadyList : IsReadyList two 100 (8 ∷ 16 ∷ [])
two-IsReadyList = record { kind = refl; by_prio = refl; sorted = sorted }

add_task-queued_example :
    Returns (λ _ g. IsAdded two 100 24 (8 ∷ 16 ∷ []) g) (sched_add_task 100 24 two)
add_task-queued_example =
    add_task-queued two 100 24 (8 ∷ 16 ∷ [])
      (record { count = refl; owner = refl; cpu = omega arith }) (λ e. cc e) two-IsReadyList
      (record {
        glist = two-IsGlist;
        free = refl;
        cpu = omega arith;
        is_node = omega arith;
        new = refl;
        room = omega arith;
      })

take_next-highest_example :
    Returns (λ r g. (r ≡ 8) × IsDispatched two 100 0 8 (16 ∷ []) g) (take_next 100 0 two)
take_next-highest_example =
    take_next-highest two 100 0 8 (16 ∷ [])
      (record { glist = two-IsGlist; free = refl; cpu = omega arith }) two-IsReadyList

sort_low_priority-IsLowest_example : IsLowest (sched_sort_low_priority 0 machine)
sort_low_priority-IsLowest_example =
    sort_low_priority-IsLowest 0 machine (omega arith) (omega arith) (omega arith)
      (λ ne. absurd (ne refl))

-- The slice of CPU 1 ends.
tick_ends : (tick_loop 2 0 machine).raised ≡ 1 ∷ []
unfolding tick_loop
tick_ends = refl
