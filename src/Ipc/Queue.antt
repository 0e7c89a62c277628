-- ===== src/Ipc/Queue.antt =====
-- The queues of a channel in kernel/ipc_2.c: their order, what a receiver takes from them, and how
-- they are emptied. The lock of a channel never waits here, as that of the scheduler.
use ukernel_mp.Base.{
  ℕ, zero, suc, Bool, true, false, ◌+◌, ◌-◌, ◌/◌, ◌%◌, ◌^◌, ◌==◌, ◌&&◌, ◌||◌, not, ltb,
  if◌then◌else◌, ℤ, pos, update,
}
use ukernel_mp.Klock.Steps.{klock_free}
use ukernel_mp.Glist.Heap.{Ptr, null, Cmd, hang, pure, ◌>>=◌, ◌>>◌, get_list}
use ukernel_mp.Glist.Lock.{cpu_id, critical_lock, critical_unlock}
use ukernel_mp.Glist.Api.{glist_remove_specific, glist_remove_object, glist_remove_first}
use ukernel_mp.Ipc.State.{Channel, Msg, Note, Ipc}
use ukernel_mp.Sched.State.{Kernel}
use ukernel_mp.Sched.Ops.{get, modify, set_task, sub_ℕ, sched_add_task}

abbrev pub invalid_rcvid : ℕ
invalid_rcvid = 2 ^ 32 - 1

abbrev pub notify_rcvid : ℕ
notify_rcvid = 0

abbrev pub ipc_error : ℕ
ipc_error = 2 ^ 32 - 1

abbrev pub channel_dead : ℕ
channel_dead = 2 ^ 32 - 2

abbrev pub connection_dead : ℕ
connection_dead = 2 ^ 32 - 3

-- Where the compiler puts the lists of a channel and of a connection, and the node of a link.
-- `link_of` is `GLISTNODE2TYPE` from that node.
pub record Layout : Type 0 where
  pub receive : ℕ → ℕ
  pub send : ℕ → ℕ
  pub response : ℕ → ℕ
  pub notify : ℕ → ℕ
  pub clinks : ℕ → ℕ
  pub link_node : ℕ → ℕ
  pub link_of : ℕ → ℕ

abbrev pub set_ipc : (Ipc → Ipc) → Kernel → Kernel
set_ipc f k = record k { ipc = f k.ipc }

abbrev pub set_channel : Ptr → (Channel → Channel) → Kernel → Kernel
set_channel c f = set_ipc (λ s. record s { channel = update s.channel c (f (s.channel c)) })

abbrev pub set_msg : Ptr → (Msg → Msg) → Kernel → Kernel
set_msg t f = set_ipc (λ s. record s { msg = update s.msg t (f (s.msg t)) })

abbrev pub set_note : Ptr → (Note → Note) → Kernel → Kernel
set_note t f = set_ipc (λ s. record s { note = update s.note t (f (s.note t)) })

abbrev pub set_client : Ptr → Ptr → Kernel → Kernel
set_client t c = set_ipc (λ s. record s { client = update s.client t c })

abbrev pub set_serving : Ptr → ℕ → Kernel → Kernel
set_serving t c = set_ipc (λ s. record s { serving = update s.serving t c })

abbrev pub set_prio : Ptr → ℕ → Kernel → Kernel
set_prio t prio = set_task t (λ r. record r { active_prio = prio })

abbrev pub set_ret : Ptr → ℕ → Kernel → Kernel
set_ret t ret = set_task t (λ r. record r { ret = ret })

-- `Klock` and `Kunlock` of the lock of a channel.
unfoldable pub channel_lock : Ptr → Cmd Kernel Bool
channel_lock c = do
  status ← critical_lock
  self ← cpu_id
  k ← get
  let lock = (k.ipc.channel c).lock
  (if (lock.owner == self) || (lock.owner == klock_free)
      then modify (
          set_channel c
            (λ r. record r { lock = record { count = (lock.count + 1) % 2 ^ 32; owner = self } }))
      else (λ _. hang))
  pure status

-- With the status NULL the mask stays; the result tells whether this CPU had the lock.
unfoldable pub channel_release : Ptr → Cmd Kernel Bool
channel_release c = do
  self ← cpu_id
  k ← get
  let lock = (k.ipc.channel c).lock
  let left = (lock.count + 2 ^ 32 - 1) % 2 ^ 32
  if lock.owner == self
      then (do
        modify (
            set_channel c (λ r. record r {
              lock = record { count = left; owner = if left == 0 then klock_free else self };
            }))
        pure true)
      else pure false

unfoldable pub channel_unlock : Ptr → Bool → Cmd Kernel (Unit {0})
unfolding channel_release
channel_unlock c status = do
  held ← channel_release c
  if held then critical_unlock status else pure tt

unfoldable pub msg_list_sort : Ptr → Ptr → Kernel → ℤ × Kernel
msg_list_sort current new_msg k =
    let a = (k.task current).active_prio in
    let b = (k.task new_msg).active_prio in (if a == b then pos 1 else sub_ℕ a b, k)

unfoldable pub notify_list_sort : Ptr → Ptr → Kernel → ℤ × Kernel
notify_list_sort current new_msg k =
    let a = (k.ipc.notify current).priority in
    let b = (k.ipc.notify new_msg).priority in (if a == b then pos 1 else sub_ℕ a b, k)

-- `cmp` is the address of a `msgCmp_t`.
unfoldable pub msg_list_match_scoid : Ptr → ℕ → Kernel → ℤ × Kernel
msg_list_match_scoid current cmp k =
    let c = k.ipc.msg_cmp cmp in
    (
      if ((k.ipc.msg current).scoid == c.scoid) && ((k.task current).tid / 2 ^ 16 == c.pid)
          then pos 0
          else pos 1,
      k,
    )

module _ (at : Layout) where
  unfoldable pub msg_get : (channel rcv : Ptr) → Cmd Kernel ℕ
  msg_get channel rcv = do
    s ← get_list (at.send channel)
    n ← get_list (at.notify channel)
    k ← get
    let send = s.first
    let notify = n.first
    let higher = ltb (k.ipc.notify notify).priority (k.task send).active_prio
    if not (send == null) && ((notify == null) || higher)
        then (do
          modify (set_client rcv send)
          glist_remove_specific send >>= λ _. pure (k.ipc.msg send).rcvid)
        else (if not (notify == null) && ((send == null) || not higher)
            then (do
              modify (set_note rcv (λ r. record r { notification = notify }))
              glist_remove_specific notify >>= λ _. pure notify_rcvid)
            else pure invalid_rcvid)

module _ (tasks : Ptr) where
  -- What the loops of `MsgsFlushByScoid`, `MsgsFlush` and `MsgsReceiverFlush` do with a task.
  unfoldable pub resume_with : (ret task : ℕ) → Cmd Kernel (Unit {0})
  resume_with ret task = do modify (set_ret task ret); sched_add_task tasks task

  -- The loop; with no fuel left it is a `hang`.
  unfoldable pub flush_scoid_loop : ℕ → (list cmp : ℕ) → Cmd Kernel (Unit {0})
  unfolding resume_with
  flush_scoid_loop zero list cmp = λ _. hang
  flush_scoid_loop (suc fuel) list cmp =
      let rest = flush_scoid_loop fuel list cmp in
      do
        msg ← glist_remove_object list cmp
        if msg == null then pure tt else (do resume_with connection_dead msg; rest)

  -- `cmp` is the address of the local variable.
  unfoldable pub msgs_flush_by_scoid : ℕ → (cmp list scoid process : ℕ) → Cmd Kernel (Unit {0})
  unfolding flush_scoid_loop
  msgs_flush_by_scoid fuel cmp list scoid process = do
    modify (
        set_ipc (λ s. record s {
          msg_cmp = update s.msg_cmp cmp (record { scoid = scoid; pid = s.pid process });
        }))
    flush_scoid_loop fuel list cmp

  -- `MsgsFlush` and `MsgsReceiverFlush`
  unfoldable pub msgs_flush : ℕ → (list : Ptr) → Cmd Kernel (Unit {0})
  unfolding resume_with
  msgs_flush zero list = λ _. hang
  msgs_flush (suc fuel) list =
      let rest = msgs_flush fuel list in
      do
        g ← get_list list
        if g.count == 0
            then pure tt
            else (do msg ← glist_remove_first list; resume_with channel_dead msg; rest)
