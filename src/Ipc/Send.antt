-- ===== src/Ipc/Send.antt =====
-- MsgSend, MsgNotify and the cancellations of kernel/ipc_2.c. A vector has its fuel and the address
-- that `kmalloc` returns as arguments; `system_receive` is SystemReceive of kernel/system.c.
use Prim.Native.Nat.{bit_and, bit_or}
use ukernel_mp.Base.{
  ℕ, Bool, ◌+◌, ◌-◌, ◌*◌, ◌/◌, ◌%◌, ◌^◌, ◌==◌, ◌||◌, not, ltb, none, some, if◌then◌else◌, update,
}
use ukernel_mp.Glist.Heap.{Ptr, null, Cmd, hang, pure, ◌>>=◌, ◌>>◌}
use ukernel_mp.Glist.Lock.{critical_unlock}
use ukernel_mp.Glist.Link.{e_ok, e_inval, e_error}
use ukernel_mp.Glist.Api.{glist_insert_object, glist_remove_specific, glist_remove_first}
use ukernel_mp.Vector.Ops.{vector_insert, vector_remove, vector_peek}
use ukernel_mp.Sched.State.{blocked, SubState, Kernel}
use ukernel_mp.Sched.Ops.{get, modify, sched_lock, sched_add_task}
use ukernel_mp.Sched.Switch.{
  checked, sched_get_running_task, sched_get_running_process, sched_stop_running_task,
  stopped_resumes,
}
use ukernel_mp.Sem.Ops.{Wait, returned, stopped}
use ukernel_mp.Ipc.Queue.{
  Layout, set_ipc, set_channel, set_msg, set_note, set_client, set_prio, set_ret, ipc_error,
  channel_dead, notify_rcvid, channel_lock, channel_release, channel_unlock,
}

-- `RCVID`, `MSGID`, `MSGCHID` and `CONNECTION_USCOID` of patterns of `int32_t`
unfoldable pub rcvid_of : (chid id : ℕ) → ℕ
rcvid_of chid id = bit_or (chid * 2 ^ 16 % 2 ^ 32) ((id + 1) % 2 ^ 32)

unfoldable pub msg_id : ℕ → ℕ
msg_id rcvid = (rcvid % 2 ^ 16 + 2 ^ 32 - 1) % 2 ^ 32

unfoldable pub msg_chid : ℕ → ℕ
msg_chid rcvid = if ltb rcvid (2 ^ 31) then rcvid / 2 ^ 16 else rcvid / 2 ^ 16 + (2 ^ 32 - 2 ^ 16)

unfoldable pub uscoid : (chid scoid : ℕ) → ℕ
uscoid chid scoid = bit_or (chid * 2 ^ 16 % 2 ^ 32) scoid

-- `io_hdr_t`
pub record Header : Type 0 where
  pub kind : ℕ
  pub code : ℕ
  pub sbytes : ℕ
  pub rbytes : ℕ

-- The message gets a place in the vector of the channel; -1 where there is none.
unfoldable pub message_insert : (fuel base : ℕ) → (channel task : Ptr) → Cmd Kernel ℕ
message_insert fuel base channel task = do
  k ← get
  elim (vector_insert fuel base task (k.ipc.channel channel).messages) [
    | none ↦ (λ _. hang)
    | some (r, v) ↦ (do
      modify (set_channel channel (λ c. record c { messages = v }))
      pure (elim r [ some i ↦ i | none ↦ 2 ^ 32 - 1 ]))
  ]

unfoldable pub message_remove : (channel : Ptr) → (id : ℕ) → Cmd Kernel (Unit {0})
message_remove channel id =
    modify (set_channel channel (λ c. record c { messages = (vector_remove id c.messages).1 }))

-- The link is of no use to a sender.
abbrev pub is_broken : Ptr → Kernel → Bool
is_broken l k = (l == null) || ((k.ipc.link l).link_dead || ((k.ipc.link l).connection == null))

module _ (at : Layout) (tasks : Ptr) where
  -- The first receiver that waits takes the message.
  unfoldable pub send_to : (channel task receiver : Ptr) → Bool → Cmd Kernel Bool
  send_to channel task receiver status = do
    glist_insert_object (at.response channel) task >>= λ _. pure tt
    channel_unlock channel status
    modify (λ k. set_prio receiver (k.task task).active_prio k)
    modify (set_client receiver task)
    modify (λ k. set_ret receiver (k.ipc.msg task).rcvid k)
    modify (set_msg task (λ r. record r { server = receiver }))
    sched_lock >>= λ _. pure tt
    modify (λ k. set_prio receiver (k.task task).active_prio k)
    sched_add_task tasks receiver
    sched_stop_running_task tasks blocked SubState.ipc_reply

  -- Nobody waits: the sender queues.
  unfoldable pub send_queued : (channel task : Ptr) → Cmd Kernel Bool
  send_queued channel task = do
    glist_insert_object (at.send channel) task >>= λ _. pure tt
    sched_lock >>= λ _. pure tt
    channel_release channel >>= λ _. pure tt
    sched_stop_running_task tasks blocked SubState.ipc_send

  -- From the message's place in the vector on.
  unfoldable pub send_message :
      (fuel base coid : ℕ) → Header → (smsg rmsg link channel task : ℕ) → Cmd Kernel Wait
  unfolding message_insert send_to send_queued
  send_message fuel base coid hdr smsg rmsg link channel task = do
    id ← message_insert fuel base channel task
    k ← get
    modify (
        set_msg task (λ r. record r {
          rcvid = rcvid_of (k.ipc.channel channel).chid id;
          coid = coid;
          scoid = (k.ipc.connection (k.ipc.link link).connection).scoid;
          kind = hdr.kind;
          code = hdr.code;
          smsg = smsg;
          sbytes = hdr.sbytes;
          rmsg = rmsg;
          rbytes = hdr.rbytes;
          read_off = 0;
          write_off = 0;
        }))
    modify (set_ret task ipc_error)
    status ← channel_lock channel
    receiver ← glist_remove_first (at.receive channel)
    inner ←
        (if receiver == null
          then send_queued channel task
          else send_to channel task receiver status)
    pure (stopped task status inner)

  -- Up to the switch to another task.
  unfoldable pub msg_send :
      (system_receive : Header → ℕ → ℕ → Cmd Kernel ℕ)
      → (fuel base coid : ℕ) → Header
      → (smsg rmsg : ℕ) → Cmd Kernel Wait
  unfolding send_message
  msg_send system_receive fuel base coid hdr smsg rmsg =
      if coid == 0 then (system_receive hdr smsg rmsg >>= λ r. pure (returned r)) else (do
        process ← sched_get_running_process
        task ← sched_get_running_task
        k ← get
        let link = vector_peek coid (k.ipc.connections process)
        let channel = (k.ipc.connection (k.ipc.link link).connection).channel
        if is_broken link k
            then pure (returned e_inval)
            else (if (channel == null) || not (k.ipc.channel channel).alive
                then pure (returned channel_dead)
                else send_message fuel base coid hdr smsg rmsg link channel task))

  -- What the sender does when it runs again; the results are that of MsgSend and `*offset`.
  unfoldable pub send_resumes : (channel task : Ptr) → (status inner : Bool) → Cmd Kernel (ℕ × ℕ)
  unfolding message_remove
  send_resumes channel task status inner = do
    ret ← stopped_resumes tasks inner task
    critical_unlock status
    k ← get
    (if ret == channel_dead
        then pure tt
        else message_remove channel (msg_id (k.ipc.msg task).rcvid))
    pure (ret, (k.ipc.msg task).write_off)

  -- A receiver that waits takes the notification.
  unfoldable pub notify_to :
      (connection receiver : Ptr) → (prio kind value : ℕ) → Cmd Kernel (Unit {0})
  notify_to connection receiver prio kind value = do
    modify (set_prio receiver (prio % 2 ^ 16))
    modify (λ k.
        set_note receiver
          (λ _. record {
            scoid = (k.ipc.connection connection).scoid;
            kind = kind;
            value = value;
            notification = null;
          })
          k)
    modify (set_ret receiver notify_rcvid)
    sched_add_task tasks receiver

  -- `&` of the flag `CONNECTION_INVALID` with the value of a comparison.
  abbrev pub notify_refused : (invalid : Bool) → (kind : ℕ) → Bool
  notify_refused invalid kind =
      not (bit_and (if invalid then 2 ^ 16 else 0) (if kind == 2 then 0 else 1) == 0)

  -- `kmalloc` has returned `notify`; it is given back where a receiver waits.
  unfoldable pub ker_msg_notify : (notify connection : Ptr) → (prio kind value : ℕ) → Cmd Kernel ℕ
  unfolding notify_to
  ker_msg_notify notify connection prio kind value = do
    k ← get
    let c = k.ipc.connection connection
    if (connection == null) || notify_refused c.invalid kind
        then pure e_inval
        else (if notify == null then pure e_error else (do
          modify (
              set_ipc (λ s. record s {
                notify = update s.notify notify (record {
                  kind = kind;
                  value = value;
                  scoid = c.scoid;
                  priority = prio % 2 ^ 16;
                });
              }))
          status ← channel_lock c.channel
          receiver ← glist_remove_first (at.receive c.channel)
          (if receiver == null
              then (do
                glist_insert_object (at.notify c.channel) notify >>= λ _. pure tt
                channel_unlock c.channel status)
              else (do
                channel_unlock c.channel status
                notify_to connection receiver prio kind value))
          pure e_ok))

  unfoldable pub msg_notify : (notify coid prio kind value : ℕ) → Cmd Kernel ℕ
  unfolding ker_msg_notify
  msg_notify notify coid prio kind value = do
    process ← sched_get_running_process
    k ← get
    let link = vector_peek coid (k.ipc.connections process)
    if is_broken link k
        then pure e_inval
        else ker_msg_notify notify (k.ipc.link link).connection prio kind value

  -- The channel that the task has sent to.
  unfoldable pub channel_of : Ptr → Cmd Kernel Ptr
  channel_of task = do
    k ← get
    let link = vector_peek (k.ipc.msg task).coid (k.ipc.connections (k.task task).parent)
    checked link
    let connection = (k.ipc.link link).connection
    checked connection
    let channel = (k.ipc.connection connection).channel
    checked channel
    pure channel

  unfoldable pub ipc_send_cancel : Ptr → Cmd Kernel (Unit {0})
  unfolding channel_of
  ipc_send_cancel task = do
    channel ← channel_of task
    status ← channel_lock channel
    glist_remove_specific task >>= λ _. pure tt
    channel_unlock channel status

  unfoldable pub ipc_receive_cancel : Ptr → Cmd Kernel (Unit {0})
  ipc_receive_cancel task = do
    k ← get
    let channel = vector_peek (k.ipc.serving task) (k.ipc.channels (k.task task).parent)
    checked channel
    status ← channel_lock channel
    glist_remove_specific task >>= λ _. pure tt
    channel_unlock channel status

  unfoldable pub ipc_reply_cancel : Ptr → Cmd Kernel (Unit {0})
  unfolding channel_of
  ipc_reply_cancel task = do
    channel ← channel_of task
    status ← channel_lock channel
    modify (λ k.
        let server = (k.ipc.msg task).server in
        if server == null then k else set_client server null k)
    glist_remove_specific task >>= λ _. pure tt
    channel_unlock channel status
