-- ===== src/Ipc/Flush.antt =====
-- MsgsFlush of kernel/ipc_2.c wakes every task of a queue.
use ukernel_mp.Base.{
  Bool-cases, inl, inr, ℕ, zero, suc, ◌≡◌, ◌≢◌, ◌<◌, ◌+◌, ◌^◌, ◌==◌, ◌||◌, true, false, refl, sym,
  ap, ◌∙◌, subst, List, [], ◌∷◌, has, erase, length, arith, ==_ne, ==_refl, false≢true,
}
use ukernel_mp.Glist.Heap.{Ptr, Mem}
use ukernel_mp.Glist.Inv.{
  IsGlist, Returns, returns, Returns-bind, Returns-mono, with_objects, ne_null_of_linked,
}
use ukernel_mp.Glist.Lock.{lock_free}
use ukernel_mp.Glist.Object.{IsChanged, IsReady}
use ukernel_mp.Glist.Remove.{IsOpen, remove_first-erase}
use ukernel_mp.Glist.Frame.{IsDisjoint, IsDisjoint-sym, IsApart, IsGlist-kept, IsOpen-kept}
use ukernel_mp.Sched.State.{dead, ready, SubState, Task, Kernel}
use ukernel_mp.Sched.Order.{prio, behind, IsSorted-same}
use ukernel_mp.Sched.Hold.{IsReadyList, IsGlist-objects, IsGlist-status, readied, queued}
use ukernel_mp.Sched.Add.{
  IsIdle, IsAdded, add_task-queued, preempt-task, preempt-same_lock, has-placed, length-placed,
}
use ukernel_mp.Ipc.Queue.{set_ret, channel_dead, resume_with, msgs_flush}

-- What is left of a task that has been woken.
abbrev pub woken : Task → Task
woken t = record t { state = ready; sub_state = SubState.none; ret = channel_dead }

prio-ret : (t : ℕ) (k : Kernel) (a : ℕ) → prio (set_ret t channel_dead k) a ≡ prio k a
prio-ret t k a = ground arith

erase-head : (x : ℕ) (xs : List ℕ) → erase x (x ∷ xs) ≡ xs
erase-head x xs = rw (==_refl x) refl

state-ret : (t : ℕ) (k : Kernel) → ((set_ret t channel_dead k).task t).state ≡ (k.task t).state
state-ret t k = ground arith

module _ (tasks queue : Ptr) where
  -- The tasks `xs` wait in the queue and the tasks `ys` are ready to run.
  pub record IsWaiting (m : Mem Kernel) (xs ys : List ℕ) : Type 0 where
    pub waiting : IsOpen m queue xs
    pub glist : IsGlist m tasks ys
    pub free : (m.list tasks).lock ≡ lock_free
    pub ready_list : IsReadyList m tasks ys
    pub idle : IsIdle m tasks 0 ys
    pub lists : queue ≢ tasks
    pub apart : IsDisjoint xs ys
    pub alive : (a : ℕ) → has a xs ≡ true → (m.objects.task a).state ≢ dead
    pub room : length xs + length ys < 2 ^ 31

  -- All of them are ready to run.
  pub record IsFlushed (m : Mem Kernel) (xs ys : List ℕ) (g : Mem Kernel) : Type 0 where
    pub zs : List ℕ
    pub empty : IsGlist g queue []
    pub glist : IsGlist g tasks zs
    pub ready_list : IsReadyList g tasks zs
    pub members : (a : ℕ) → has a zs ≡ (has a xs || has a ys)
    pub size : length zs ≡ length xs + length ys
    pub changed : (a : ℕ) → has a xs ≡ true → g.objects.task a ≡ woken (m.objects.task a)
    pub same : (a : ℕ) → has a xs ≡ false → g.objects.task a ≡ m.objects.task a

  module _ (m : Mem Kernel) (x : ℕ) (xs ys : List ℕ) (up : IsWaiting m (x ∷ xs) ys) where
    -- With `x` taken out of the queue, and its result set.
    abbrev resumed : Mem Kernel → Mem Kernel
    resumed g = with_objects (set_ret x channel_dead g.objects) g

    head_out : (a : ℕ) → has a xs ≡ true → a ≢ x
    head_out a is e =
        let out = up.waiting.glist.linked.distinct.0 in
        false≢true (sym out ∙ ap (λ b. has b xs) (sym e) ∙ is)

    apart_x : has x ys ≡ false
    apart_x = up.apart x (ground arith)

    apart_xs : IsDisjoint xs ys
    apart_xs a is = up.apart a (ground (arith, is))

    alive_xs : (a : ℕ) → has a xs ≡ true → (m.objects.task a).state ≢ dead
    alive_xs a is = up.alive a (ground (arith, is))

    ys-IsApart : IsApart ys xs x
    ys-IsApart a is = (
      IsDisjoint-sym xs ys apart_xs a is,
      λ e. false≢true (sym apart_x ∙ ap (λ b. has b ys) (sym e) ∙ is),
    )

    module _ (g : Mem Kernel) (c : IsChanged m g queue x xs m.objects) where
      tasks_same : g.list tasks ≡ m.list tasks
      tasks_same = c.others tasks (λ e. up.lists (sym e))

      idle_lem : IsIdle (resumed g) tasks x ys
      idle_lem = record {
        count = ap (λ o. o.lock.count) c.objects ∙ up.idle.count;
        owner = ap (λ o. o.lock.owner) c.objects ∙ up.idle.owner;
        cpu = λ e. up.idle.cpu (sym c.cpu ∙ e);
      }

      same_prio : (a : ℕ) → prio m.objects a ≡ prio (set_ret x channel_dead g.objects) a
      same_prio a = ap (λ o. prio o a) (sym c.objects) ∙ sym (prio-ret x g.objects a)

      alive_lem : ((resumed g).objects.task x).state ≢ dead
      alive_lem e =
          up.alive x (ground arith)
            (ap (λ o. (o.task x).state) (sym c.objects) ∙ sym (state-ret x g.objects) ∙ e)

      ready_list_lem : IsReadyList (resumed g) tasks ys
      ready_list_lem = record {
        kind = ap (λ h. h.kind) tasks_same ∙ up.ready_list.kind;
        by_prio = ap (λ h. h.list_sort) tasks_same ∙ up.ready_list.by_prio;
        sorted =
            IsSorted-same m.objects (set_ret x channel_dead g.objects) ys same_prio
              up.ready_list.sorted;
      }

      is_ready_lem : IsReady (resumed g) tasks x ys
      is_ready_lem = record {
        glist =
            IsGlist-objects (set_ret x channel_dead g.objects) g tasks ys
              (IsGlist-kept c tasks (λ e. up.lists (sym e)) ys ys-IsApart up.glist);
        free = ap (λ h. h.lock) tasks_same ∙ up.free;
        cpu = λ e. up.waiting.cpu (sym c.cpu ∙ e);
        is_node = ne_null_of_linked [] x xs up.waiting.glist.linked;
        new = apart_x;
        room = ground (arith, up.room);
      }

      module _ (f : Mem Kernel) (h : IsAdded (resumed g) tasks x ys f) where
        abbrev more : List ℕ
        more = queued (resumed g) tasks x ys

        has-more : (a : ℕ) → has a more ≡ ((a == x) || has a ys)
        has-more a =
            let k = readied x (resumed g).objects in has-placed k (behind k (prio k x)) a x ys

        lock_same : f.objects.lock ≡ m.objects.lock
        lock_same =
            ap (λ o. o.lock) h.changed.objects
            ∙ preempt-same_lock tasks x (readied x (resumed g).objects)
            ∙ ap (λ o. o.lock) c.objects

        task_same : f.objects.task ≡ (readied x (set_ret x channel_dead m.objects)).task
        task_same =
            ap (λ o. o.task) h.changed.objects
            ∙ preempt-task tasks x (readied x (resumed g).objects)
            ∙ ap (λ o. (readied x (set_ret x channel_dead o)).task) c.objects

        woken_x : f.objects.task x ≡ woken (m.objects.task x)
        woken_x = ap (λ t. t x) task_same ∙ ground arith

        other_task : (a : ℕ) → a ≢ x → f.objects.task a ≡ m.objects.task a
        other_task a ne = ap (λ t. t a) task_same ∙ ground (arith, ne)

        xs-IsApart : IsApart xs more x
        xs-IsApart a is = (ground (arith, has-more a, apart_xs a is, head_out a is), head_out a is)

        queue_kept : IsOpen f queue xs
        queue_kept =
            let o : IsOpen (resumed g) queue xs = record {
              glist = IsGlist-objects (set_ret x channel_dead g.objects) g queue xs c.glist;
              free = c.lock;
              cpu = λ e. up.waiting.cpu (sym c.cpu ∙ e);
            } in
            let r = IsOpen-kept h.changed queue up.lists xs xs-IsApart o in
            record { glist = IsGlist-status f.objects f.masked r.glist; free = r.free; cpu = r.cpu }

        size_more : length more ≡ suc (length ys)
        size_more =
            let k = readied x (resumed g).objects in length-placed k (behind k (prio k x)) x ys

        step : IsWaiting f xs more
        step = record {
          waiting = queue_kept;
          glist = IsGlist-status f.objects f.masked h.changed.glist;
          free = h.changed.lock;
          ready_list = h.ready_list;
          idle = record {
            count = ap (λ l. l.count) lock_same ∙ up.idle.count;
            owner = ap (λ l. l.owner) lock_same ∙ up.idle.owner;
            cpu = λ e. up.idle.cpu (sym c.cpu ∙ sym h.changed.cpu ∙ e);
          };
          lists = up.lists;
          apart = λ a is. (xs-IsApart a is).0;
          alive =
              λ a is e. alive_xs a is (ap (λ t. t.state) (sym (other_task a (head_out a is))) ∙ e);
          room = ground (arith, size_more, up.room);
        }

        flushed : (q : Mem Kernel) → IsFlushed f xs more q → IsFlushed m (x ∷ xs) ys q
        flushed q r = record {
          zs = r.zs;
          empty = r.empty;
          glist = r.glist;
          ready_list = r.ready_list;
          members = λ a. r.members a ∙ ground (arith, has-more a);
          size = ground (arith, r.size, size_more);
          changed = λ a is. elim (Bool-cases (has a xs)) [
            | inl e ↦ r.changed a e ∙ ap woken (other_task a (head_out a e))
            | inr e ↦
                let here : x ≡ a = ground (arith, is, e) in
                r.same a e ∙ subst (λ b. f.objects.task b ≡ woken (m.objects.task b)) here woken_x
          ];
          same = λ a out.
              let rest : has a xs ≡ false = ground (arith, out) in
              let other : a ≢ x = ground (arith, out) in r.same a rest ∙ other_task a other;
        }

  -- With the queue and the ready list well formed and without a task in common, both their
  -- locks and the lock of the scheduler free, no dead task in the queue, room in the count of
  -- the ready list and fuel for every task, `MsgsFlush` ends with the queue empty: each of its
  -- tasks is in the ready list, once and by priority, READY with the result `IPC_CHANNEL_DEAD`;
  -- the tasks that were ready to run still are, and no other task is changed.
  pub flush-wakes :
      (fuel : ℕ) (m : Mem Kernel) (xs ys : List ℕ)
      → IsWaiting m xs ys
      → length xs < fuel
      → Returns (λ _ g. IsFlushed m xs ys g) (msgs_flush tasks fuel queue m)
  unfolding msgs_flush resume_with
  flush-wakes zero m xs ys up lt = absurd (omega arith)
  flush-wakes (suc fuel) m [] ys up lt =
      let none_left : ((m.list queue).count == 0) ≡ true = ground (arith, up.waiting.glist.count) in
      simp (==_ne up.waiting.glist.linked.list, none_left)
        (returns (record {
          zs = ys;
          empty = up.waiting.glist;
          glist = up.glist;
          ready_list = up.ready_list;
          members = λ a. refl;
          size = omega arith;
          changed = λ a is. absurd (false≢true is);
          same = λ a out. refl;
        }))
  flush-wakes (suc fuel) m (x ∷ xs) ys up lt =
      let full : ((m.list queue).count == 0) ≡ false = ground (arith, up.waiting.glist.count) in
      simp (==_ne up.waiting.glist.linked.list, full)
        (Returns-bind (remove_first-erase m queue (x ∷ xs) up.waiting (omega arith)) λ r g (e, c).
          let c : IsChanged m g queue x xs m.objects =
            subst (λ zs. IsChanged m g queue x zs m.objects) (erase-head x xs)
              (subst (λ a. IsChanged m g queue a (erase a (x ∷ xs)) m.objects) e c) in
          rw e (
            Returns-bind
              (add_task-queued (resumed m x xs ys up g) tasks x ys (idle_lem m x xs ys up g c)
                (alive_lem m x xs ys up g c) (ready_list_lem m x xs ys up g c)
                (is_ready_lem m x xs ys up g c))
              λ u f h.
                Returns-mono
                  (flush-wakes fuel f xs (more m x xs ys up g c f h) (step m x xs ys up g c f h)
                    (omega arith))
                  λ v q. flushed m x xs ys up g c f h q))
