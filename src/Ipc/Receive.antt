-- ===== src/Ipc/Receive.antt =====
-- MsgReceive of kernel/ipc_2.c. `space` has the translation of the addresses of each process.
use ukernel_mp.Base.{ℕ, Bool, ◌/◌, ◌^◌, ◌==◌, ◌||◌, not, if◌then◌else◌}
use ukernel_mp.Glist.Heap.{Ptr, null, Cmd, pure, ◌>>=◌, ◌>>◌}
use ukernel_mp.Glist.Lock.{critical_unlock}
use ukernel_mp.Glist.Api.{glist_insert_object}
use ukernel_mp.Vector.Ops.{vector_peek}
use ukernel_mp.Sched.State.{blocked, SubState, Kernel}
use ukernel_mp.Sched.Ops.{get, modify, set_task, sched_lock}
use ukernel_mp.Sched.Switch.{
  sched_get_running_task, sched_get_running_process, sched_stop_running_task, stopped_resumes,
}
use ukernel_mp.Ipc.Queue.{
  Layout, set_msg, set_note, set_serving, set_prio, set_ret, invalid_rcvid, notify_rcvid,
  channel_dead, channel_lock, channel_release, channel_unlock, msg_get,
}
use ukernel_mp.Ipc.Send.{Header, uscoid}
use ukernel_mp.Ipc.Transfer.{msg_copy_from_sender}

-- `msg_info_t`
pub record MsgInfo : Type 0 where
  pub pid : ℕ
  pub tid : ℕ
  pub chid : ℕ
  pub coid : ℕ
  pub scoid : ℕ

-- What MsgReceive gives back: its result, and what it stores where its arguments point.
pub data Received : Type 0 where
  failed : ℕ → Received
  notified : Header → Received
  message : (rcvid : ℕ) → Header → MsgInfo → (offset : ℕ) → Received

-- MsgReceive up to the switch to another task, where there is one.
pub data Receive : Type 0 where
  received : Received → Receive
  waiting : (channel task : ℕ) → (status inner : Bool) → Receive

module _ (fuel : ℕ) (space : ℕ → ℕ → ℕ) where
  -- The result is a notification. Where it has queued, `kfree` gives its memory back.
  unfoldable pub receive_notify : (channel task : Ptr) → Cmd Kernel Received
  unfolding uscoid
  receive_notify channel task = do
    k ← get
    let note = k.ipc.note task
    let queued = k.ipc.notify note.notification
    let chid = (k.ipc.channel channel).chid
    modify (set_note task (λ r. record r { notification = null }))
    pure (
        notified (
          if note.notification == null
          then record {
            kind = note.kind;
            code = note.value;
            rbytes = 0;
            sbytes = uscoid chid note.scoid;
          }
          else record {
            kind = queued.kind;
            code = queued.value;
            rbytes = 0;
            sbytes = uscoid chid queued.scoid;
          }))

  -- The result is a message.
  unfoldable pub receive_message : (channel task msg size rcvid : ℕ) → Cmd Kernel Received
  unfolding msg_copy_from_sender uscoid
  receive_message channel task msg size rcvid = do
    k ← get
    let sender = k.ipc.client task
    n ← msg_copy_from_sender fuel space sender msg size 0
    modify (set_msg sender (λ r. record r { read_off = n }))
    k' ← get
    let m = k'.ipc.msg sender
    let tid = (k'.task sender).tid
    let chid = (k'.ipc.channel channel).chid
    pure (
        message rcvid
          (record { kind = m.kind; code = m.code; rbytes = m.rbytes; sbytes = m.sbytes })
          (record {
            pid = tid / 2 ^ 16;
            tid = tid;
            chid = chid;
            coid = m.coid;
            scoid = uscoid chid m.scoid;
          })
          m.read_off)

  unfoldable pub receive_end : (channel task msg size rcvid : ℕ) → Cmd Kernel Received
  unfolding receive_notify receive_message
  receive_end channel task msg size rcvid =
      if rcvid == notify_rcvid
      then receive_notify channel task
      else receive_message channel task msg size rcvid

  module _ (at : Layout) (tasks : Ptr) where
    -- Something is there: the sender waits for the reply from now on.
    unfoldable pub receive_taken : (channel task rcvid : ℕ) → Bool → Cmd Kernel (Unit {0})
    receive_taken channel task rcvid status = do
      k ← get
      let client = k.ipc.client task
      (if rcvid == notify_rcvid
          then modify (set_prio task (k.ipc.notify (k.ipc.note task).notification).priority)
          else (do
            modify (set_task client (λ t. record t { sub_state = SubState.ipc_reply }))
            glist_insert_object (at.response channel) client >>= λ _. pure tt
            modify (λ k. set_prio task (k.task client).active_prio k)))
      channel_unlock channel status

    -- Nothing is there: the task waits.
    unfoldable pub receive_wait : (channel task : ℕ) → Bool → Cmd Kernel Receive
    receive_wait channel task status = do
      modify (set_ret task invalid_rcvid)
      glist_insert_object (at.receive channel) task >>= λ _. pure tt
      sched_lock >>= λ _. pure tt
      channel_release channel >>= λ _. pure tt
      inner ← sched_stop_running_task tasks blocked SubState.ipc_receive
      pure (waiting channel task status inner)

    -- `hdr` is whether there is a place for the header.
    unfoldable pub msg_receive : (chid : ℕ) → (hdr : Bool) → (msg size : ℕ) → Cmd Kernel Receive
    unfolding msg_get receive_taken receive_wait receive_end
    msg_receive chid hdr msg size = if not hdr then pure (received (failed invalid_rcvid)) else (do
      process ← sched_get_running_process
      task ← sched_get_running_task
      k ← get
      let channel = vector_peek chid (k.ipc.channels process)
      if (channel == null) || not (k.ipc.channel channel).alive
          then pure (received (failed channel_dead))
          else (do
            modify (set_serving task chid)
            status ← channel_lock channel
            rcvid ← msg_get at channel task
            if rcvid == invalid_rcvid then receive_wait channel task status else (do
              receive_taken channel task rcvid status
              r ← receive_end channel task msg size rcvid
              pure (received r))))

    -- What the receiver does when it runs again.
    unfoldable pub receive_resumes :
        (channel task msg size : ℕ) → (status inner : Bool) → Cmd Kernel Received
    unfolding receive_end
    receive_resumes channel task msg size status inner = do
      rcvid ← stopped_resumes tasks inner task
      critical_unlock status
      if rcvid == invalid_rcvid
          then pure (failed invalid_rcvid)
          else receive_end channel task msg size rcvid
