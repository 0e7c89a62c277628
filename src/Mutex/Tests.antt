-- ===== src/Mutex/Tests.antt =====
-- The theorems on mutexes at the one at 40; the task 6 runs, and 8 waits.
use ukernel_mp.Base.{
  ℕ, ◌≡◌, ◌≢◌, ◌+◌, ◌-◌, refl, true, false, false≢true, has, ap, ◌∙◌, some, none, [], ◌∷◌, arith,
  update,
}
use ukernel_mp.Glist.Heap.{Ptr, g_list, Glist, Mem, ok, pure}
use ukernel_mp.Glist.Lock.{lock_free}
use ukernel_mp.Glist.Link.{e_ok, e_busy}
use ukernel_mp.Glist.Inv.{IsGlist, Returns}
use ukernel_mp.Sched.State.{Kernel}
use ukernel_mp.Sched.Ops.{ready_list_sort}
use ukernel_mp.Sched.Tests.{machine}
use ukernel_mp.Mutex.Handle.{Layout, mutex_trylock}
use ukernel_mp.Mutex.Ops.{grant}
use ukernel_mp.Mutex.Owned.{IsOurs}
use ukernel_mp.Mutex.Taken.{IsPure, IsOwner, trylock-excludes}
use ukernel_mp.Mutex.Guards.{IsRefused, trylock-IsRefused}
use ukernel_mp.Mutex.Grant.{IsWaited, IsGranted, grant-first}

abbrev layout : Layout
layout = record {
  node_of = λ t. t;
  task_of = λ n. n;
  lock_queue = λ s. s + 1;
  pnode = λ s. s + 2;
  tnode = λ s. s + 3;
  owned_mutexs = λ t. t + 4;
  mutexs = λ p. p + 5;
  process_of = λ l. l - 5;
  cond_queue = λ s. s + 1;
}

abbrev a_list : (count node : ℕ) → Glist Kernel
a_list count node = record {
  kind = g_list;
  count = count;
  list_sort = some ready_list_sort;
  list_cmp = none;
  first = node;
  last = node;
  lock = lock_free;
}

-- The mutex with this lock and owner; the lists are empty.
abbrev idle : (lock owner : ℕ) → Mem Kernel
idle lock owner = record {
  next = λ _. 0;
  prev = λ _. 0;
  owner = λ _. 100;
  list = λ _. a_list 0 0;
  objects = record machine {
    mutex = λ _. record { magic = 0xaaaadead; lock = lock; locked = false; owner = owner };
    cpu = λ c. record { prio = 20; irqlevel = 0; tslice = 7; task = 6; process = 95 };
  };
  cpu = 0;
  masked = false;
}

ours : (lock owner : ℕ) → IsOurs layout (idle lock owner) 40
ours lock owner = record {
  nonnull = omega arith;
  magic = refl;
  pnode = omega arith;
  process = refl;
  free = refl;
}

sort-IsPure : IsPure ready_list_sort
unfolding ready_list_sort
sort-IsPure a b k = refl

-- The list at `l` is empty, or has one node.
IsGlist-nil : (m : Mem Kernel) (l : Ptr) → l ≢ 0 → m.list l ≡ a_list 0 0 → IsGlist m l []
IsGlist-nil m l ne e = record {
  linked = record {
    list = ne;
    first = ap (λ g. g.first) e;
    last = ap (λ g. g.last) e;
    nexts = tt;
    prevs = tt;
    distinct = tt;
    nonnull = refl;
  };
  count = ap (λ g. g.count) e;
  small = omega arith;
  owned = λ a h. absurd (false≢true h);
}

IsGlist-one :
    (m : Mem Kernel) (l node : Ptr)
    → l ≢ 0
    → node ≢ 0
    → m.list l ≡ a_list 1 node
    → m.next node ≡ 0
    → m.prev node ≡ 0
    → m.owner node ≡ l
    → IsGlist m l (node ∷ [])
IsGlist-one m l node ne node_ne e next prev owner = record {
  linked = record {
    list = ne;
    first = ap (λ g. g.first) e;
    last = ap (λ g. g.last) e;
    nexts = (next, tt);
    prevs = (prev, tt);
    distinct = (refl, tt);
    nonnull = ground arith;
  };
  count = ap (λ g. g.count) e;
  small = omega arith;
  owned = λ a h. ap m.owner (only a node h) ∙ owner;
}
  where
    only : (a b : ℕ) → has a (b ∷ []) ≡ true → a ≡ b
    only a b h = ground arith

is_owner : IsOwner layout (idle 0 0) 40 ready_list_sort []
is_owner = record {
  kind = refl;
  sorted = refl;
  is_pure = sort-IsPure;
  ready = record {
    glist = IsGlist-nil (idle 0 0) 10 (omega arith) refl;
    free = refl;
    cpu = omega arith;
    is_node = omega arith;
    new = refl;
    room = omega arith;
  };
  other_node = omega arith;
  no_node = refl;
}

trylock-excludes_example :
    Returns
      (λ r g. (r ≡ e_ok) × (mutex_trylock layout 0 40 g ≡ ok e_busy g))
      (mutex_trylock layout 0 40 (idle 0 0))
trylock-excludes_example =
    trylock-excludes layout (idle 0 0) 40 ready_list_sort [] 0 0 (ours 0 0) (omega arith) is_owner

trylock-IsRefused_example :
    Returns
      (λ r g. (r ≡ e_ok) × IsRefused layout 200 100 (λ _ _ _. pure tt) (idle 0 0) 40 0 0 8 g)
      (mutex_trylock layout 0 40 (idle 0 0))
trylock-IsRefused_example =
    trylock-IsRefused layout 200 100 (λ _ _ _. pure tt) (idle 0 0) 40 0 0 8 ready_list_sort []
      (ours 0 0) (omega arith) is_owner (omega arith)

-- The task 6 owns the mutex, and 8 waits for it.
abbrev contended : Mem Kernel
contended = record (idle 1 6) {
  list = update (update (λ _. a_list 0 0) 10 (a_list 1 43)) 41 (a_list 1 8);
  owner = update (update (λ _. 100) 43 10) 8 41;
}

waited : IsWaited layout contended 40 8 10 ready_list_sort (43 ∷ []) [] []
waited = record {
  old_kind = λ e. cc e;
  old_owned = record {
    glist = IsGlist-one contended 10 43 (omega arith) (omega arith) refl refl refl refl;
    free = refl;
    cpu = omega arith;
  };
  inside = refl;
  waiters = record {
    glist = IsGlist-one contended 41 8 (omega arith) (omega arith) refl refl refl refl;
    free = refl;
    cpu = omega arith;
  };
  kind = refl;
  sorted = refl;
  is_pure = sort-IsPure;
  ready = record {
    glist = IsGlist-nil contended 12 (omega arith) refl;
    free = refl;
    cpu = omega arith;
    is_node = omega arith;
    new = refl;
    room = omega arith;
  };
  queue_ne_old = omega arith;
  queue_ne_new = omega arith;
  new_ne_old = omega arith;
  queue_apart = λ a h. ground arith;
  new_apart = λ a h. absurd (false≢true h);
  new_queue = λ a h. absurd (false≢true h);
  no_timeout = refl;
}

grant-first_example :
    Returns
      (λ r g. (r ≡ 8) × IsGranted layout contended 40 8 10 ready_list_sort (43 ∷ []) [] [] g)
      (grant layout 200 100 (λ _ _ _. pure tt) 40 contended)
grant-first_example =
    grant-first layout contended 40 8 10 ready_list_sort (43 ∷ []) [] [] waited 200 100
      (λ _ _ _. pure tt)
