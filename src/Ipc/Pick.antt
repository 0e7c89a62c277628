-- ===== src/Ipc/Pick.antt =====
-- What MsgGet of kernel/ipc_2.c takes from the queues of a channel.
use ukernel_mp.Base.{
  ℕ, ◌≡◌, ◌≢◌, refl, sym, true, List, [], ◌∷◌, ltb, arith, has, erase, ◌≤◌, ◌<◌, false≢true,
  if◌then◌else◌, Bool-cases, inl, inr, ==_ne,
}
use ukernel_mp.Glist.Heap.{Ptr, g_circular_list, Mem, pure, ◌>>=◌}
use ukernel_mp.Glist.Api.{glist_remove_specific}
use ukernel_mp.Glist.Inv.{
  IsGlist, Returns, returns, Returns-bind, Returns-mono, with_objects, ne_null_of_linked,
}
use ukernel_mp.Glist.Remove.{IsOpen, remove_specific-erase}
use ukernel_mp.Glist.Frame.{IsDisjoint, IsDisjoint-sym, IsApart-erase, IsGlist-kept}
use ukernel_mp.Sched.State.{Kernel}
use ukernel_mp.Sched.Hold.{IsGlist-objects}
use ukernel_mp.Ipc.Order.{IsSorted, msg_prio, notify_prio, le_of_IsBelow}
use ukernel_mp.Ipc.Queue.{Layout, set_client, set_note, invalid_rcvid, notify_rcvid, msg_get}

-- What a receiver gets.
pub data Pick : Type 0 where
  nothing : Pick
  message notice : ℕ → Pick

-- Of the first message and the first notification, the one with the higher priority; the
-- notification where they have the same.
unfoldable pub pick : (sends notes : List ℕ) → Kernel → Pick
pick [] [] k = nothing
pick (x ∷ xs) [] k = message x
pick [] (y ∷ ys) k = notice y
pick (x ∷ xs) (y ∷ ys) k =
    if ltb (k.ipc.notify y).priority (k.task x).active_prio then message x else notice y

module _ (at : Layout) (m : Mem Kernel) (channel rcv : Ptr) (xs ys : List ℕ) where
  -- The senders that wait are `xs`, the notifications `ys`.
  pub record IsPending : Type 0 where
    pub send_kind : (m.list (at.send channel)).kind ≢ g_circular_list
    pub notify_kind : (m.list (at.notify channel)).kind ≢ g_circular_list
    pub sends : IsOpen m (at.send channel) xs
    pub notes : IsOpen m (at.notify channel) ys
    pub lists : at.send channel ≢ at.notify channel
    pub apart : IsDisjoint xs ys
    pub sends_sorted : IsSorted (msg_prio m.objects) xs
    pub notes_sorted : IsSorted (notify_prio m.objects) ys

  -- What MsgGet has done with it.
  pub record IsTaken (g : Mem Kernel) (xs' ys' : List ℕ) (k : Kernel) : Type 0 where
    pub sends : IsGlist g (at.send channel) xs'
    pub notes : IsGlist g (at.notify channel) ys'
    pub objects : g.objects ≡ k

  abbrev pub IsGot : Pick → ℕ → Mem Kernel → Type 0
  IsGot nothing r g = (r ≡ invalid_rcvid) × (g ≡ m)
  IsGot (message x) r g =
      (r ≡ (m.objects.ipc.msg x).rcvid) × IsTaken g (erase x xs) ys (set_client rcv x m.objects)
  IsGot (notice y) r g =
      (r ≡ notify_rcvid)
      × IsTaken g xs (erase y ys) (set_note rcv (λ n. record n { notification = y }) m.objects)

  module _ (up : IsPending) where
    open_with :
        (k : Kernel) (l : Ptr) (zs : List ℕ) → IsOpen m l zs → IsOpen (with_objects k m) l zs
    open_with k l zs o = record {
      glist = IsGlist-objects k m l zs o.glist;
      free = o.free;
      cpu = o.cpu;
    }

    message_taken :
        (x : ℕ)
        → has x xs ≡ true
        → Returns (IsGot (message x)) (
            (glist_remove_specific x >>= λ _. pure (m.objects.ipc.msg x).rcvid)
              (with_objects (set_client rcv x m.objects) m))
    message_taken x is =
        let k = set_client rcv x m.objects in
        Returns-bind
          (remove_specific-erase (with_objects k m) (at.send channel) xs
            (open_with k (at.send channel) xs up.sends) x up.send_kind is)
          λ r g (e, c). returns (
            refl,
            record {
              sends = c.glist;
              notes =
                  IsGlist-kept c (at.notify channel) (λ e. up.lists (sym e)) ys
                    (IsApart-erase x xs ys (IsDisjoint-sym xs ys up.apart) is)
                    (open_with k (at.notify channel) ys up.notes).glist;
              objects = c.objects;
            },
          )

    notice_taken :
        (y : ℕ)
        → has y ys ≡ true
        → Returns (IsGot (notice y)) (
            (glist_remove_specific y >>= λ _. pure notify_rcvid)
              (with_objects (set_note rcv (λ n. record n { notification = y }) m.objects) m))
    notice_taken y is =
        let k = set_note rcv (λ n. record n { notification = y }) m.objects in
        Returns-bind
          (remove_specific-erase (with_objects k m) (at.notify channel) ys
            (open_with k (at.notify channel) ys up.notes) y up.notify_kind is)
          λ r g (e, c). returns (
            refl,
            record {
              sends =
                  IsGlist-kept c (at.send channel) up.lists xs (IsApart-erase y ys xs up.apart is)
                    (open_with k (at.send channel) xs up.sends).glist;
              notes = c.glist;
              objects = c.objects;
            },
          )

got :
    (at : Layout) (m : Mem Kernel) (channel rcv : Ptr) (xs ys : List ℕ)
    → IsPending at m channel rcv xs ys
    → Returns (IsGot at m channel rcv xs ys (pick xs ys m.objects)) (msg_get at channel rcv m)
unfolding msg_get pick
got at m channel rcv [] [] up =
    let s = up.sends.glist.linked in
    let n = up.notes.glist.linked in
    simp (==_ne s.list, ==_ne n.list, s.first, n.first) (returns (refl, refl))
got at m channel rcv (x ∷ xs) [] up =
    let s = up.sends.glist.linked in
    let n = up.notes.glist.linked in
    simp (==_ne s.list, ==_ne n.list, s.first, n.first, ==_ne (ne_null_of_linked [] x xs s))
      (message_taken at m channel rcv (x ∷ xs) [] up x (ground arith))
got at m channel rcv [] (y ∷ ys) up =
    let s = up.sends.glist.linked in
    let n = up.notes.glist.linked in
    simp (==_ne s.list, ==_ne n.list, s.first, n.first, ==_ne (ne_null_of_linked [] y ys n))
      (notice_taken at m channel rcv [] (y ∷ ys) up y (ground arith))
got at m channel rcv (x ∷ xs) (y ∷ ys) up =
    let s = up.sends.glist.linked in
    let n = up.notes.glist.linked in
    let x_ne = ne_null_of_linked [] x xs s in
    let y_ne = ne_null_of_linked [] y ys n in
    elim (Bool-cases (ltb (m.objects.ipc.notify y).priority (m.objects.task x).active_prio)) [
      | inl e ↦
          simp (==_ne s.list, ==_ne n.list, s.first, n.first, ==_ne x_ne, ==_ne y_ne, e)
            (message_taken at m channel rcv (x ∷ xs) (y ∷ ys) up x (ground arith))
      | inr e ↦
          simp (==_ne s.list, ==_ne n.list, s.first, n.first, ==_ne x_ne, ==_ne y_ne, e)
            (notice_taken at m channel rcv (x ∷ xs) (y ∷ ys) up y (ground arith))
    ]

-- No message and no notification has a higher priority than the pick.
abbrev pub IsHighest : Kernel → (xs ys : List ℕ) → Pick → Type 0
IsHighest k xs ys nothing = (xs ≡ []) × (ys ≡ [])
IsHighest k xs ys (message x) =
    ((a : ℕ) → has a xs ≡ true → msg_prio k a ≤ msg_prio k x)
    × ((b : ℕ) → has b ys ≡ true → notify_prio k b < msg_prio k x)
IsHighest k xs ys (notice y) =
    ((a : ℕ) → has a xs ≡ true → msg_prio k a ≤ notify_prio k y)
    × ((b : ℕ) → has b ys ≡ true → notify_prio k b ≤ notify_prio k y)

-- The first of a sorted queue has the highest priority.
le_first :
    (prio : ℕ → ℕ) (x a : ℕ) (xs : List ℕ)
    → IsSorted prio (x ∷ xs)
    → has a (x ∷ xs) ≡ true
    → prio a ≤ prio x
le_first prio x a xs (b, s) is = le_of_IsBelow prio (prio x) a (x ∷ xs) (omega arith, b) is

highest :
    (k : Kernel) (xs ys : List ℕ)
    → IsSorted (msg_prio k) xs
    → IsSorted (notify_prio k) ys
    → IsHighest k xs ys (pick xs ys k)
unfolding pick
highest k [] [] s n = (refl, refl)
highest k (x ∷ xs) [] s n =
    (λ a is. le_first (msg_prio k) x a xs s is, λ b is. absurd (false≢true is))
highest k [] (y ∷ ys) s n =
    (λ a is. absurd (false≢true is), λ b is. le_first (notify_prio k) y b ys n is)
highest k (x ∷ xs) (y ∷ ys) s n = elim (Bool-cases (ltb (notify_prio k y) (msg_prio k x))) [
  | inl e ↦
      let lt : notify_prio k y < msg_prio k x = ground arith in
      rw e (
        λ a is. le_first (msg_prio k) x a xs s is,
        λ b is. omega (arith, le_first (notify_prio k) y b ys n is),
      )
  | inr e ↦
      let le : msg_prio k x ≤ notify_prio k y = ground arith in
      rw e (
        λ a is. omega (arith, le_first (msg_prio k) x a xs s is),
        λ b is. le_first (notify_prio k) y b ys n is,
      )
]

-- With its queues well formed, sorted and without a node in common, MsgGet takes of what waits at
-- a channel the first message, with the sender as the client of the receiver, if it has a higher
-- priority than every notification, else the first notification, if there is one; nothing that
-- waits has a higher priority, the rest waits in its order, and with nothing there the result is
-- `INVALID_RCVID`.
pub msg_get-IsHighest :
    (at : Layout) (m : Mem Kernel) (channel rcv : Ptr) (xs ys : List ℕ)
    → IsPending at m channel rcv xs ys
    → Returns
        (λ r g.
          IsGot at m channel rcv xs ys (pick xs ys m.objects) r g
          × IsHighest m.objects xs ys (pick xs ys m.objects))
        (msg_get at channel rcv m)
msg_get-IsHighest at m channel rcv xs ys up =
    Returns-mono (got at m channel rcv xs ys up)
      λ r g h. (h, highest m.objects xs ys up.sends_sorted up.notes_sorted)
