-- ===== src/Sleep/Queue.antt =====
-- `TimerSet` on the queue of sleepers.
use ukernel_mp.Base.{
  ℕ, ◌≡◌, ◌≢◌, ◌<◌, ◌+◌, ◌^◌, false, sym, ap, ◌∙◌, some, List, arith, has, ne_of_has, update_ne,
  update_self, ℕ_discrete,
}
use ukernel_mp.Glist.Heap.{Ptr, g_list, Mem, Cmd}
use ukernel_mp.Glist.Inv.{IsGlist, Returns, returns, Returns-bind, with_objects}
use ukernel_mp.Glist.Sorted.{insert_spec}
use ukernel_mp.Glist.Object.{IsReady, insert_object-sorted}
use ukernel_mp.Sched.State.{Kernel}
use ukernel_mp.Sched.Hold.{IsReady-objects}
use ukernel_mp.Sleep.Ops.{set_timeout, pend, sleep_sort, timer_set}
use ukernel_mp.Sleep.Delta.{due, place, due-same, insert-due}

-- The list at `sleepers` is a queue of sleepers, and no time is too large for its field.
pub record IsSleepers (m : Mem Kernel) (sleepers : Ptr) : Type 0 where
  pub kind : (m.list sleepers).kind ≡ g_list
  pub by_time : (m.list sleepers).list_sort ≡ some sleep_sort
  pub pending : (a : ℕ) → pend m.objects a < 2 ^ 32
  pub waiting : (a : ℕ) → (m.objects.timeout a).wait_time < 2 ^ 32

-- With the fields of the timeout at `node` set.
abbrev pub armed_at : (node handler arg : ℕ) → Kernel → Kernel
armed_at node handler arg =
    set_timeout node (λ t. record t { handler = handler; arg = arg; pend_time = t.wait_time })

module _ (sleepers tasks : Ptr) (node_of task_of : ℕ → ℕ)
    (call_handler : ℕ → ℕ → ℕ → Cmd Kernel (Unit {0})) (m : Mem Kernel) (task handler arg : ℕ)
    (xs : List ℕ) where
  abbrev armed : Kernel
  armed = armed_at (node_of task) handler arg m.objects

  armed-pend_self : pend armed (node_of task) ≡ (m.objects.timeout (node_of task)).wait_time
  armed-pend_self = ap (λ t. t.pend_time) (update_self m.objects.timeout (node_of task) _)

  armed-pend_ne : (a : ℕ) → a ≢ node_of task → pend armed a ≡ pend m.objects a
  armed-pend_ne a ne = ap (λ t. t.pend_time) (update_ne m.objects.timeout _ ne)

  armed-small : IsSleepers m sleepers → (a : ℕ) → pend armed a < 2 ^ 32
  armed-small up a = elim (ℕ_discrete a (node_of task)) [
    | yes e ↦ omega (arith, ap (λ b. pend armed b) e, armed-pend_self, up.waiting (node_of task))
    | no ne ↦ omega (arith, armed-pend_ne a ne, up.pending a)
  ]

  armed-due : has (node_of task) xs ≡ false → due armed 0 xs ≡ due m.objects 0 xs
  armed-due out =
      due-same m.objects armed 0 xs
        λ a is. armed-pend_ne a (λ e. ne_of_has (node_of task) a xs out is (sym e))

  -- On a queue of sleepers with a free lock, `TimerSet` of a task whose timeout node is in no
  -- list puts the node into the queue: it is due after `waitTime`, behind the nodes due by
  -- then, and the others are due when they were; the list stays well formed.
  pub timer_set-due :
      IsSleepers m sleepers
      → IsReady m sleepers (node_of task) xs
      → Returns
          (λ r g.
            IsGlist g sleepers
              (insert_spec sleep_sort
                (node_of task)
                xs
                (armed_at (node_of task) handler arg m.objects)).0
            × (due g.objects 0
                  (insert_spec sleep_sort
                    (node_of task)
                    xs
                    (armed_at (node_of task) handler arg m.objects)).0
                ≡ place
                    (node_of task)
                    (m.objects.timeout (node_of task)).wait_time
                    (due m.objects 0 xs)))
          (timer_set sleepers tasks node_of task_of call_handler task handler arg m)
  unfolding timer_set
  timer_set-due up ready =
      let n = node_of task in
      let ys = (insert_spec sleep_sort n xs armed).0 in
      let times =
        insert-due n 0 xs armed (ready.new, ready.glist.linked.distinct) (armed-small up) in
      let wait : 0 + pend armed n ≡ (m.objects.timeout n).wait_time =
        omega (arith, armed-pend_self) in
      Returns-bind
        (insert_object-sorted (with_objects armed m) sleepers n xs sleep_sort up.kind up.by_time
          (IsReady-objects armed m sleepers n xs ready))
        λ r g (e, c). returns (
          c.glist,
          ap (λ k. due k 0 ys) c.objects
              ∙ times
              ∙ ap (λ d. place n d (due armed 0 xs)) wait
              ∙ ap (λ ds. place n (m.objects.timeout n).wait_time ds) (armed-due ready.new),
        )
