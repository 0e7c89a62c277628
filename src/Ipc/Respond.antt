-- ===== src/Ipc/Respond.antt =====
-- MsgRespond, MsgWrite and MsgRead of kernel/ipc_2.c.
use ukernel_mp.Base.{ℕ, ◌^◌, ◌-◌, ◌==◌, ◌||◌, not, if◌then◌else◌}
use ukernel_mp.Glist.Heap.{Ptr, null, Cmd, pure, ◌>>=◌, ◌>>◌}
use ukernel_mp.Glist.Link.{e_ok, e_error}
use ukernel_mp.Glist.Api.{glist_remove_specific}
use ukernel_mp.Vector.Ops.{vector_peek}
use ukernel_mp.Sched.State.{Kernel}
use ukernel_mp.Sched.Ops.{get, modify, sched_add_task}
use ukernel_mp.Sched.Switch.{sched_get_running_task, sched_get_running_process, sched_yield}
use ukernel_mp.Ipc.Queue.{
  set_msg, set_client, set_serving, set_prio, set_ret, channel_lock, channel_unlock,
}
use ukernel_mp.Ipc.Send.{msg_id, msg_chid, message_remove}
use ukernel_mp.Ipc.Transfer.{msg_copy_from_sender, msg_copy_to_sender}

module _ (fuel : ℕ) (space : ℕ → ℕ → ℕ) where
  module _ (tasks : Ptr) where
    -- The task goes back to its own priority. Up to the switch of `SchedYield`, where there is one.
    unfoldable pub end_serving : Ptr → Cmd Kernel (Unit {0})
    end_serving task = do
      modify (set_serving task (2 ^ 32 - 1))
      modify (λ k. set_prio task (k.task task).real_prio k)
      sched_yield tasks >>= λ _. pure tt

    -- The checks that `MsgRespond`, `MsgWrite` and `MsgRead` share; `served` goes on with the channel,
    -- the task and its client.
    unfoldable pub with_client :
        (rcvid : ℕ) → (served : (channel task sender : Ptr) → Cmd Kernel ℕ) → Cmd Kernel ℕ
    unfolding end_serving msg_chid msg_id message_remove
    with_client rcvid served = do
      process ← sched_get_running_process
      task ← sched_get_running_task
      k ← get
      let channel = vector_peek (msg_chid rcvid) (k.ipc.channels process)
      if (channel == null) || not (k.ipc.channel channel).alive
          then (do modify (set_client task null); end_serving task; pure e_error)
          else (if k.ipc.client task == null
              then (do message_remove channel (msg_id rcvid); end_serving task; pure e_error)
              else served channel task (k.ipc.client task))

    -- What `MsgRespond` does with the client.
    unfoldable pub respond : (status msg size channel task sender : ℕ) → Cmd Kernel ℕ
    unfolding msg_copy_to_sender
    respond status msg size channel task sender = do
      n ← msg_copy_to_sender fuel space sender msg size 0
      modify (set_msg sender (λ r. record r { write_off = n }))
      stat ← channel_lock channel
      glist_remove_specific sender >>= λ _. pure tt
      channel_unlock channel stat
      modify (set_client task null)
      modify (set_serving task (2 ^ 32 - 1))
      modify (set_ret sender status)
      sched_add_task tasks sender
      modify (λ k. set_prio task (k.task task).real_prio k)
      sched_yield tasks >>= λ _. pure e_ok

    unfoldable pub msg_respond : (rcvid status msg size : ℕ) → Cmd Kernel ℕ
    unfolding with_client respond
    msg_respond rcvid status msg size = with_client rcvid (respond status msg size)

    unfoldable pub msg_write : (rcvid msg size offset : ℕ) → Cmd Kernel ℕ
    unfolding with_client msg_copy_to_sender
    msg_write rcvid msg size offset = with_client rcvid λ channel task sender. do
      n ← msg_copy_to_sender fuel space sender msg size offset
      modify (set_msg sender (λ r. record r { write_off = n }))
      pure n

    unfoldable pub msg_read : (rcvid msg size offset : ℕ) → Cmd Kernel ℕ
    unfolding with_client msg_copy_from_sender
    msg_read rcvid msg size offset =
        with_client rcvid
          λ channel task sender. msg_copy_from_sender fuel space sender msg size offset
