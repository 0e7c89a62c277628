-- ===== src/Ipc/Transfer.antt =====
-- MsgCopyFromSender and MsgCopyToSender of kernel/ipc_2.c. `space` has the translation of the
-- addresses of each process.
use ukernel_mp.Base.{ℕ, ◌==◌, ◌||◌, Option, none, some, if◌then◌else◌}
use ukernel_mp.Glist.Heap.{Cmd, hang, pure, ◌>>=◌, ◌>>◌}
use ukernel_mp.Sched.State.{Kernel}
use ukernel_mp.Sched.Ops.{get, modify}
use ukernel_mp.Sched.Switch.{sched_get_running_process}
use ukernel_mp.Ipc.Copy.{msg_copy_size, msg_direct_copy, msg_map_receiver_copy, msg_map_sender_copy}
use ukernel_mp.Ipc.Queue.{set_ipc, set_msg}

abbrev pub set_bytes : (ℕ → ℕ) → Kernel → Kernel
set_bytes b = set_ipc (λ s. record s { bytes = b })

-- Bytes that a loop has copied, if it has ended.
abbrev pub copied : Option (ℕ → ℕ) → ℕ → Cmd Kernel ℕ
copied none size = λ _. hang
copied (some b) size = do modify (set_bytes b); pure size

-- With the running process and its bytes at hand, the number of bytes that are copied.
module _ (fuel : ℕ) (space : ℕ → ℕ → ℕ) where
  unfoldable pub msg_copy_from_sender : (sender buffer size read_off : ℕ) → Cmd Kernel ℕ
  unfolding msg_direct_copy msg_map_sender_copy msg_copy_size
  msg_copy_from_sender sender buffer size read_off = do
    k ← get
    let m = k.ipc.msg sender
    let parent = (k.task sender).parent
    if (m.sbytes == 0) || (size == 0) then pure 0 else (do
      process ← sched_get_running_process
      n ←
          (if process == parent
            then (let r =
                  msg_direct_copy (space process) m.smsg m.sbytes read_off buffer size 0
                    k.ipc.bytes in
                copied (some r.1) r.0)
            else (let n = msg_copy_size m.sbytes 0 size 0 in
                copied
                  (msg_map_sender_copy fuel (space process) (space parent) m.smsg read_off buffer 0
                    n k.ipc.bytes)
                  n))
      modify (set_msg sender (λ r. record r { read_off = n }))
      pure n)

  unfoldable pub msg_copy_to_sender : (sender buffer size write_off : ℕ) → Cmd Kernel ℕ
  unfolding msg_direct_copy msg_map_receiver_copy msg_copy_size
  msg_copy_to_sender sender buffer size write_off = do
    k ← get
    let m = k.ipc.msg sender
    let parent = (k.task sender).parent
    if (m.rbytes == 0) || (size == 0) then pure 0 else (do
      process ← sched_get_running_process
      n ←
          (if process == parent
            then (let r =
                  msg_direct_copy (space process) buffer size 0 m.rmsg m.rbytes write_off
                    k.ipc.bytes in
                copied (some r.1) r.0)
            else (let n = msg_copy_size size 0 m.rbytes write_off in
                copied
                  (msg_map_receiver_copy fuel (space process) (space parent) buffer 0 m.rmsg
                    write_off n k.ipc.bytes)
                  n))
      modify (set_msg sender (λ r. record r { write_off = n }))
      pure n)
