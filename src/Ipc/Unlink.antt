-- ===== src/Ipc/Unlink.antt =====
-- What ker_ChannelDestroy of kernel/ipc_2.c does with the links of a connection, and what is left
-- of them for a sender.
use ukernel_mp.Base.{
  Bool-cases, inl, inr, ℕ, zero, suc, ◌≡◌, ◌≢◌, ◌<◌, ◌==◌, true, false, refl, sym, ap, ◌∙◌, subst,
  List, [], ◌∷◌, has, erase, length, arith, ==_ne, ==_refl, false≢true, update, update_self,
}
use ukernel_mp.Glist.Heap.{Ptr, null, Mem, Cmd, ok}
use ukernel_mp.Glist.Link.{e_inval}
use ukernel_mp.Glist.Inv.{IsGlist, Returns, returns, Returns-bind, Returns-mono, with_objects}
use ukernel_mp.Glist.Object.{IsChanged}
use ukernel_mp.Glist.Remove.{IsOpen, remove_first-erase}
use ukernel_mp.Sched.State.{Kernel}
use ukernel_mp.Sched.Hold.{IsGlist-objects}
use ukernel_mp.Sched.Switch.{sched_get_running_task, sched_get_running_process}
use ukernel_mp.Sem.Ops.{returned}
use ukernel_mp.Vector.Ops.{vector_peek}
use ukernel_mp.Ipc.State.{Link}
use ukernel_mp.Ipc.Queue.{Layout, set_ipc}
use ukernel_mp.Ipc.Connect.{set_link}
use ukernel_mp.Ipc.Send.{Header, is_broken, msg_send}
use ukernel_mp.Ipc.Close.{unlink_all}

-- A link that leads nowhere.
abbrev cut_off : Link → Link
cut_off l = record l { connection = null }

-- The CPU runs a task of the process `p`.
abbrev pub runs : Ptr → Mem Kernel → Mem Kernel
runs p g =
    with_objects
      (record g.objects {
        cpu = update g.objects.cpu g.cpu (record (g.objects.cpu g.cpu) { process = p });
      })
      g

erase-head : (x : ℕ) (xs : List ℕ) → erase x (x ∷ xs) ≡ xs
erase-head x xs = rw (==_refl x) refl

module _ (at : Layout) where
  -- The links of the nodes `xs`, cut off one by one.
  abbrev cut_all : List ℕ → (ℕ → Link) → (ℕ → Link)
  cut_all [] f = f
  cut_all (x ∷ xs) f = cut_all xs (update f (at.link_of x) (cut_off (f (at.link_of x))))

  still_cut :
      (xs : List ℕ) (f : ℕ → Link) (l : Ptr)
      → (f l).connection ≡ null
      → (cut_all xs f l).connection ≡ null
  still_cut [] f l e = e
  still_cut (x ∷ xs) f l e = still_cut xs _ l (ground (arith, e))

  cut_all-null :
      (xs : List ℕ) (f : ℕ → Link) (a : ℕ)
      → has a xs ≡ true
      → (cut_all xs f (at.link_of a)).connection ≡ null
  cut_all-null [] f a is = absurd (false≢true is)
  cut_all-null (x ∷ xs) f a is = elim (Bool-cases (has a xs)) [
    | inl e ↦ cut_all-null xs _ a e
    | inr e ↦
        let here : x ≡ a = ground (arith, is, e) in
        still_cut xs _ (at.link_of a) (
          subst
            (λ b.
              (update f (at.link_of x) (cut_off (f (at.link_of x))) (at.link_of b)).connection
              ≡ null)
            here (ap (λ l. l.connection) (update_self f (at.link_of x) _)))
  ]

  -- The links of the nodes `xs` of the list at `l` are cut off, and nothing else of the objects
  -- has changed.
  pub record IsUnlinked (m : Mem Kernel) (l : Ptr) (xs : List ℕ) (g : Mem Kernel) : Type 0 where
    pub empty : IsGlist g l []
    pub cpu : g.cpu ≡ m.cpu
    pub objects : g.objects ≡ set_ipc (λ s. record s { link = cut_all xs s.link }) m.objects

  module _ (tasks : Ptr) (drop_shared forget_mapping : Ptr → Cmd Kernel (Unit {0}))
      (elsewhere : (l : Ptr) (g : Mem Kernel) → forget_mapping l g ≡ ok tt g) where
    unlink_all-IsUnlinked :
        (fuel : ℕ) (connection : Ptr) (m : Mem Kernel) (xs : List ℕ)
        → IsOpen m (at.clinks connection) xs
        → length xs < fuel
        → Returns
            (λ _ g. IsUnlinked m (at.clinks connection) xs g)
            (unlink_all at tasks drop_shared forget_mapping fuel connection m)
    unfolding unlink_all
    unlink_all-IsUnlinked zero connection m xs up lt = absurd (omega arith)
    unlink_all-IsUnlinked (suc fuel) connection m [] up lt =
        let none_left : ((m.list (at.clinks connection)).count == 0) ≡ true =
          ground (arith, up.glist.count) in
        simp (==_ne up.glist.linked.list, none_left)
          (returns (record { empty = up.glist; cpu = refl; objects = refl }))
    unlink_all-IsUnlinked (suc fuel) connection m (x ∷ xs) up lt =
        let l = at.clinks connection in
        let full : ((m.list l).count == 0) ≡ false = ground (arith, up.glist.count) in
        simp (==_ne up.glist.linked.list, full)
          (Returns-bind (remove_first-erase m l (x ∷ xs) up (omega arith)) λ r g (e, c).
            let c : IsChanged m g l x xs m.objects =
              subst (λ zs. IsChanged m g l x zs m.objects) (erase-head x xs)
                (subst (λ a. IsChanged m g l a (erase a (x ∷ xs)) m.objects) e c) in
            let k = set_link (at.link_of x) cut_off g.objects in
            rw (e, elsewhere)
              (Returns-mono
                (unlink_all-IsUnlinked fuel connection (with_objects k g) xs
                  (record {
                    glist = IsGlist-objects k g l xs c.glist;
                    free = c.lock;
                    cpu = λ z. up.cpu (sym c.cpu ∙ z);
                  })
                  (omega arith))
                λ u f q. record {
                  empty = q.empty;
                  cpu = q.cpu ∙ c.cpu;
                  objects =
                      q.objects
                      ∙ ap
                          (λ o.
                            set_ipc (λ s. record s { link = cut_all xs s.link })
                              (set_link (at.link_of x) cut_off o))
                          c.objects;
                }))

    no_link :
        (system_receive : Header → ℕ → ℕ → Cmd Kernel ℕ)
        → (a p rounds base coid : ℕ) (hdr : Header) (smsg rmsg : ℕ) → coid ≢ 0
        → (g : Mem Kernel) → vector_peek coid (g.objects.ipc.connections p) ≡ at.link_of a
        → (g.objects.ipc.link (at.link_of a)).connection ≡ null
        → msg_send at tasks system_receive rounds base coid hdr smsg rmsg (runs p g)
          ≡ ok (returned e_inval) (runs p g)
    unfolding msg_send sched_get_running_task sched_get_running_process
    no_link system_receive a p rounds base coid hdr smsg rmsg other g there cut =
        let here : ((runs p g).objects.cpu g.cpu).process ≡ p =
          ap (λ c. c.process) (update_self g.objects.cpu g.cpu _) in
        let gone : is_broken (at.link_of a) g.objects ≡ true = ground (arith, cut) in
        rw (==_ne other, here, there, gone) refl

    -- For a connection whose list of links is well formed, with a free lock, and with fuel
    -- for every link, and where the write to the mapping of a link changes nothing of this
    -- state, the loop of `ker_ChannelDestroy` over the links ends with the list empty. After
    -- it, with a task of any process on the CPU, `MsgSend` through a coid other than 0 under
    -- which the process has one of those links returns `E_INVAL` and changes nothing.
    pub unlink_all-refuses :
        (fuel : ℕ) (connection : Ptr) (m : Mem Kernel) (xs : List ℕ)
        → IsOpen m (at.clinks connection) xs
        → length xs < fuel
        → (system_receive : Header → ℕ → ℕ → Cmd Kernel ℕ)
        → (a p rounds base coid : ℕ) (hdr : Header) (smsg rmsg : ℕ) → has a xs ≡ true
        → coid ≢ 0
        → vector_peek coid (m.objects.ipc.connections p) ≡ at.link_of a
        → Returns
            (λ _ g.
              IsGlist g (at.clinks connection) []
              × (msg_send at tasks system_receive rounds base coid hdr smsg rmsg (runs p g)
                  ≡ ok (returned e_inval) (runs p g)))
            (unlink_all at tasks drop_shared forget_mapping fuel connection m)
    unlink_all-refuses fuel connection m xs up lt system_receive a p rounds base coid hdr smsg rmsg
          is other there =
        Returns-mono (unlink_all-IsUnlinked fuel connection m xs up lt) λ u g q. (
          q.empty,
          no_link system_receive a p rounds base coid hdr smsg rmsg other g
              (ap (λ o. vector_peek coid (o.ipc.connections p)) q.objects ∙ there)
              (ap (λ o. (o.ipc.link (at.link_of a)).connection) q.objects
                ∙ cut_all-null xs m.objects.ipc.link a is),
        )
