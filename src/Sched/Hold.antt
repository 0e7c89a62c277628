-- ===== src/Sched/Hold.antt =====
-- What `SchedHoldTask` does to the ready list.
use ukernel_mp.Base.{ℕ, Bool, ◌≡◌, ◌≢◌, refl, ap, sym, ◌∙◌, subst, some, List, ◌∷◌, ◌++◌, arith}
use ukernel_mp.Glist.Heap.{Ptr, g_list, Mem, ok}
use ukernel_mp.Glist.Inv.{IsGlist, Returns, returns, Returns-bind, with_objects, IsLinked-objects}
use ukernel_mp.Glist.Sorted.{insert_spec}
use ukernel_mp.Glist.Object.{IsChanged, IsReady, insert_object-sorted}
use ukernel_mp.Sched.State.{TaskState, dead, running, ready, blocked, SubState, Kernel}
use ukernel_mp.Sched.Ops.{ready_list_sort, set_task, sched_hold_task, hold_in, hold_ready}
use ukernel_mp.Sched.Order.{
  prio, IsSorted, at_least, less_than, behind, insert-ready, insert-ready-IsSorted, IsSorted-same,
}

-- The task made READY.
abbrev pub readied : ℕ → Kernel → Kernel
readied t = set_task t (λ r. record r { state = ready; sub_state = SubState.none })

prio-readied : (t : ℕ) (k : Kernel) (a : ℕ) → prio k a ≡ prio (readied t k) a
prio-readied t k a = ground arith

-- The ready list at `tasks` holds `xs`, by priority.
pub record IsReadyList (m : Mem Kernel) (tasks : Ptr) (xs : List ℕ) : Type 0 where
  pub kind : (m.list tasks).kind ≡ g_list
  pub by_prio : (m.list tasks).list_sort ≡ some ready_list_sort
  pub sorted : IsSorted m.objects xs

pub IsGlist-objects :
    (k : Kernel) (m : Mem Kernel) (l : Ptr) (xs : List ℕ)
    → IsGlist m l xs
    → IsGlist (with_objects k m) l xs
IsGlist-objects k m l xs h = record {
  linked = IsLinked-objects k h.linked;
  count = h.count;
  small = h.small;
  owned = h.owned;
}

pub IsReady-objects :
    (k : Kernel) (m : Mem Kernel) (l node : Ptr) (xs : List ℕ)
    → IsReady m l node xs
    → IsReady (with_objects k m) l node xs
IsReady-objects k m l node xs h = record {
  glist = IsGlist-objects k m l xs h.glist;
  free = h.free;
  cpu = h.cpu;
  is_node = h.is_node;
  new = h.new;
  room = h.room;
}

-- With other objects and another mask.
pub IsGlist-status :
    {m : Mem Kernel} {l : Ptr} {xs : List ℕ} (k : Kernel) (b : Bool)
    → IsGlist m l xs
    → IsGlist (record m { objects = k; masked = b }) l xs
IsGlist-status k b h = record {
  linked = record {
    list = h.linked.list;
    first = h.linked.first;
    last = h.linked.last;
    nexts = h.linked.nexts;
    prevs = h.linked.prevs;
    distinct = h.linked.distinct;
    nonnull = h.linked.nonnull;
  };
  count = h.count;
  small = h.small;
  owned = h.owned;
}

pub IsReady-status :
    {m : Mem Kernel} {l node : Ptr} {xs : List ℕ} (k : Kernel) (b : Bool)
    → IsReady m l node xs
    → IsReady (record m { objects = k; masked = b }) l node xs
IsReady-status k b h = record {
  glist = IsGlist-status k b h.glist;
  free = h.free;
  cpu = h.cpu;
  is_node = h.is_node;
  new = h.new;
  room = h.room;
}

hold_in-alive :
    (tasks : Ptr) (t : ℕ) (s : TaskState) (m : Mem Kernel)
    → s ≢ dead
    → hold_in tasks s t m ≡ hold_ready tasks t m
unfolding hold_in
hold_in-alive tasks t dead m h = absurd (h refl)
hold_in-alive tasks t running m h = refl
hold_in-alive tasks t ready m h = refl
hold_in-alive tasks t blocked m h = refl

module _ (m : Mem Kernel) (tasks : Ptr) (t : ℕ) (xs : List ℕ) where
  abbrev pub queued : List ℕ
  queued =
      let k = readied t m.objects in
      at_least k (behind k (prio k t)) xs ++ t ∷ less_than k (behind k (prio k t)) xs

  -- The ready list of `g` is `ys`, in order, and the kernel's data are `s`.
  abbrev IsQueued : Kernel → Mem Kernel → List ℕ → Kernel → Type 0
  IsQueued k g ys s = IsChanged (with_objects k m) g tasks t ys s × IsReadyList g tasks ys

  -- On a sorted ready list with a free lock, `SchedHoldTask` makes a task that is not dead and
  -- is in no list ready, and puts it into the ready list at its place by priority; the list
  -- stays sorted.
  pub hold_task-queued :
      (m.objects.task t).state ≢ dead
      → IsReadyList m tasks xs
      → IsReady m tasks t xs
      → Returns
          (λ r g.
            IsChanged (with_objects (readied t m.objects) m) g tasks t queued (readied t m.objects)
            × IsReadyList g tasks queued)
          (sched_hold_task tasks t m)
  unfolding sched_hold_task hold_ready
  hold_task-queued alive list is_ready =
      let k = readied t m.objects in
      let sorted = IsSorted-same m.objects k xs (prio-readied t m.objects) list.sorted in
      rw (hold_in-alive tasks t (m.objects.task t).state m alive) (
        Returns-bind
          (insert_object-sorted (with_objects k m) tasks t xs ready_list_sort list.kind list.by_prio
            (IsReady-objects k m tasks t xs is_ready))
          λ r g (e, c). returns (
            subst (λ p. IsQueued k g p.0 p.1) (insert-ready k t xs sorted)
              (
                c,
                record {
                  kind = c.kind ∙ list.kind;
                  by_prio = c.list_sort ∙ list.by_prio;
                  sorted =
                      subst (λ s. IsSorted s (insert_spec ready_list_sort t xs k).0)
                        (sym (c.objects ∙ ap (λ p. p.1) (insert-ready k t xs sorted)))
                        (insert-ready-IsSorted k t xs sorted);
                },
              )))

  -- A dead task is left alone.
  pub hold_task-dead : (m.objects.task t).state ≡ dead → sched_hold_task tasks t m ≡ ok tt m
  unfolding sched_hold_task hold_in
  hold_task-dead e = rw e refl
