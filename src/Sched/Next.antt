-- ===== src/Sched/Next.antt =====
-- What a CPU runs next: the first task of the ready list, which has the highest priority.
use ukernel_mp.Base.{
  ℕ, ◌≡◌, ◌≢◌, refl, ap, sym, ◌∙◌, subst, List, ◌∷◌, arith, update_self, ==_ne, ==_refl, erase,
  has-head, ne_of_has,
}
use ukernel_mp.Glist.Heap.{Ptr, null, Mem}
use ukernel_mp.Glist.Inv.{IsGlist, Returns, returns, with_objects, Returns-bind}
use ukernel_mp.Glist.Object.{IsChanged}
use ukernel_mp.Glist.Remove.{IsOpen, remove_first-erase}
use ukernel_mp.Sched.State.{running, Kernel}
use ukernel_mp.Sched.Ops.{set_task, sched_get_next2run}
use ukernel_mp.Sched.Switch.{take_next, dispatch}
use ukernel_mp.Sched.Order.{prio, IsBelow, IsBelow-same}
use ukernel_mp.Sched.Hold.{IsReadyList, IsGlist-objects}

prio-dispatch : (self t : ℕ) (k : Kernel) (a : ℕ) → prio k a ≡ prio (dispatch self t k) a
prio-dispatch self t k a = ground arith

module _ (m : Mem Kernel) (tasks : Ptr) (self x : ℕ) (xs : List ℕ) where
  -- In `g` the CPU runs `x`, at its priority and in its process, and the tasks left are `xs`.
  pub record IsDispatched (g : Mem Kernel) : Type 0 where
    pub left : IsGlist g tasks xs
    pub runs : (g.objects.cpu self).task ≡ x
    pub at_prio : (g.objects.cpu self).prio ≡ prio m.objects x
    pub in_process : (g.objects.cpu self).process ≡ (m.objects.task x).parent
    pub state : (g.objects.task x).state ≡ running
    pub highest : IsBelow g.objects (g.objects.cpu self).prio xs

  dispatched :
      (g : Mem Kernel)
      → IsBelow m.objects (prio m.objects x) xs
      → IsChanged m g tasks x xs m.objects
      → IsDispatched (with_objects (dispatch self x g.objects) g)
  dispatched g below c =
      let k = g.objects in
      let at = update_self (set_task x (λ r. record r { state = running }) k).cpu self _ in
      let same : prio k x ≡ prio m.objects x = ap (λ s. prio s x) c.objects in
      record {
        left = IsGlist-objects (dispatch self x k) g tasks xs c.glist;
        runs = ap (λ r. r.task) at;
        at_prio = ap (λ r. r.prio) at ∙ same;
        in_process = ap (λ r. r.process) at ∙ ap (λ s. (s.task x).parent) c.objects;
        state = ap (λ r. r.state) (update_self k.task x _);
        highest =
            subst (λ p. IsBelow (dispatch self x k) p xs) (sym (ap (λ r. r.prio) at ∙ same))
              (IsBelow-same m.objects (dispatch self x k) (prio m.objects x) xs
                (λ a. ap (λ s. prio s a) (sym c.objects) ∙ prio-dispatch self x k a) below);
      }

  -- From a sorted ready list with a free lock, of which `x` is the first, the CPU takes `x`,
  -- which it then runs at the priority and in the process of `x`; no task that is left has a
  -- higher priority.
  pub take_next-highest :
      IsOpen m tasks (x ∷ xs)
      → IsReadyList m tasks (x ∷ xs)
      → Returns (λ r g. (r ≡ x) × IsDispatched g) (take_next tasks self m)
  unfolding take_next sched_get_next2run
  take_next-highest up list =
      Returns-bind (remove_first-erase m tasks (x ∷ xs) up (omega arith)) λ r g (e, c).
        let c' : IsChanged m g tasks x xs m.objects =
          subst (λ r. IsChanged m g tasks r xs m.objects) e
            (subst (λ ys. IsChanged m g tasks r ys m.objects)
              (ap (λ r. erase r (x ∷ xs)) e ∙ rw (==_refl x) refl) c) in
        let ne : x ≢ null = λ z.
          ne_of_has null x (x ∷ xs) up.glist.linked.nonnull (has-head (x ∷ xs) (omega arith))
            (sym z) in
        rw (e, ==_ne ne) (returns (refl, dispatched g list.sorted.0 c'))
