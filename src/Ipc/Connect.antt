-- ===== src/Ipc/Connect.antt =====
-- ChannelCreate and ConnectAttach of kernel/ipc_2.c. The addresses that `kmalloc` returns are
-- arguments; `processes` is the vector of kernel/procmgr.c.
use ukernel_mp.Base.{
  ℕ, zero, suc, Bool, true, false, ◌+◌, ◌-◌, ◌/◌, ◌%◌, ◌^◌, ◌==◌, ◌||◌, not, ltb, Option, none,
  some, if◌then◌else◌, update,
}
use ukernel_mp.Klock.Steps.{klock_init}
use ukernel_mp.Glist.Heap.{Ptr, null, g_list, g_fifo, Cmd, hang, pure, ◌>>=◌, ◌>>◌}
use ukernel_mp.Glist.Api.{glist_initialize, glist_set_sort, glist_set_cmp, glist_insert_object}
use ukernel_mp.Vector.Ops.{
  Vector, vector_init, vector_insert, vector_insert_at, vector_peek, vector_usage,
}
use ukernel_mp.Ipc.State.{Link}
use ukernel_mp.Sched.State.{Kernel}
use ukernel_mp.Sched.Ops.{get, modify}
use ukernel_mp.Sched.Switch.{checked, sched_get_running_task, sched_get_running_process}
use ukernel_mp.Ipc.Queue.{
  Layout, set_ipc, set_channel, msg_list_sort, notify_list_sort, msg_list_match_scoid,
}
use ukernel_mp.Ipc.Send.{ker_msg_notify}

-- `INVALID_CHID` and `INVALID_COID`
abbrev pub invalid_id : ℕ
invalid_id = 2 ^ 32 - 1

-- `CHANNEL_FLAGS_VALID`
abbrev pub flags_valid : ℕ → Bool
flags_valid flags = ltb flags (2 ^ 5)

abbrev pub flag : (flags n : ℕ) → Bool
flag flags n = flags / 2 ^ n % 2 == 1

abbrev pub set_link : Ptr → (Link → Link) → Kernel → Kernel
set_link l f = set_ipc (λ s. record s { link = update s.link l (f (s.link l)) })

abbrev pub set_connections : Ptr → Vector → Kernel → Kernel
set_connections p v = set_ipc (λ s. record s { connections = update s.connections p v })

-- The result of an insertion into a vector, as an `int32_t`.
abbrev pub index_or : Option ℕ → ℕ
index_or none = 2 ^ 32 - 1
index_or (some i) = i

unfoldable pub proc_get_process : Vector → ℕ → Ptr
proc_get_process processes pid = vector_peek pid processes

module _ (at : Layout) (tasks : Ptr) where
  -- The queues of a channel.
  unfoldable pub init_queues : Ptr → Cmd Kernel (Unit {0})
  init_queues c = do
    glist_initialize (at.receive c) g_fifo >>= λ _. pure tt
    glist_initialize (at.send c) g_list >>= λ _. pure tt
    glist_set_sort (at.send c) (some msg_list_sort) >>= λ _. pure tt
    glist_set_cmp (at.send c) (some msg_list_match_scoid) >>= λ _. pure tt
    glist_initialize (at.notify c) g_list >>= λ _. pure tt
    glist_set_sort (at.notify c) (some notify_list_sort) >>= λ _. pure tt
    glist_set_cmp (at.notify c) (some msg_list_match_scoid) >>= λ _. pure tt
    glist_initialize (at.response c) g_list >>= λ _. pure tt
    glist_set_sort (at.response c) (some msg_list_sort) >>= λ _. pure tt
    glist_set_cmp (at.response c) (some msg_list_match_scoid) >>= λ _. pure tt

  -- `kmalloc` has returned `c`, and the tables of the vectors, where `word` holds what was there.
  unfoldable pub channel_create :
      (fuel base c connections messages : ℕ) → (word : ℕ → ℕ) → (flags : ℕ) → Cmd Kernel ℕ
  unfolding init_queues vector_init klock_init
  channel_create fuel base c connections messages word flags =
      if not (flags_valid flags) then pure invalid_id else (do
        process ← sched_get_running_process
        if c == null then pure invalid_id else (do
          init_queues c
          k ← get
          elim (vector_insert fuel base c (k.ipc.channels process)) [
            | none ↦ (λ _. hang)
            | some (r, v) ↦ (do
              modify (set_ipc (λ s. record s { channels = update s.channels process v }))
              modify (
                  set_channel c (λ _. record {
                    pid = k.ipc.pid process;
                    chid = index_or r;
                    server = null;
                    flags = flags;
                    alive = true;
                    priority = 0;
                    connections = vector_init connections 4 word;
                    messages = vector_init messages 8 word;
                    lock = klock_init;
                  }))
              pure (index_or r))
          ]))

  -- The loop of `ConnectAttach` over the links of the process, or NULL.
  unfoldable pub find_link : (count index : ℕ) → (process channel : Ptr) → Cmd Kernel Ptr
  find_link zero index process channel = pure null
  find_link (suc count) index process channel =
      let rest = find_link count (index + 1) process channel in
      do
        k ← get
        let v = k.ipc.connections process
        let l = vector_peek index v
        let connection = (k.ipc.link l).connection
        if not (ltb index v.size)
            then pure null
            else (if l == null then rest else (do
              checked connection
              if (k.ipc.connection connection).channel == channel then pure l else rest))

  -- The notification of a connection that is made or ended, where the channel asks for it.
  unfoldable pub tell : (wanted : Bool) → (notify connection kind value : ℕ) → Cmd Kernel (Unit {0})
  unfolding ker_msg_notify
  tell wanted notify connection kind value = if not wanted then pure tt else (do
    task ← sched_get_running_task
    k ← get
    ker_msg_notify at tasks notify connection (k.task task).active_prio kind value >>= λ _. pure tt)

  -- A new connection with a link.
  unfoldable pub connect_new :
      (fuel base : ℕ)
      → (bases : ℕ → Ptr) → (notify connection link : Ptr) → (index flags process channel : ℕ)
      → Cmd Kernel ℕ
  unfolding tell
  connect_new fuel base bases notify connection link index flags process channel = do
    k ← get
    let pid = k.ipc.pid process
    modify (
        set_ipc (λ s. record s {
          connection =
              update s.connection connection
                (record { scoid = 0; channel = channel; flags = flags; invalid = false });
        }))
    glist_initialize (at.clinks connection) g_fifo >>= λ _. pure tt
    modify (
        set_link link (λ _. record {
          pid = pid;
          coid = 0;
          connection = connection;
          link_dead = false;
          refs = 1;
        }))
    glist_insert_object (at.clinks connection) (at.link_node link) >>= λ _. pure tt
    elim (vector_insert_at fuel bases link index (k.ipc.connections process)) [
      | none ↦ (λ _. hang)
      | some (coid, v) ↦
          elim (vector_insert fuel base connection (k.ipc.channel channel).connections) [
            | none ↦ (λ _. hang)
            | some (scoid, w) ↦ (do
              modify (set_connections process v)
              modify (set_link link (λ l. record l { coid = index_or coid }))
              modify (set_channel channel (λ c. record c { connections = w }))
              modify (
                  set_ipc (λ s. record s {
                    connection =
                        update s.connection connection
                          (record (s.connection connection) { scoid = index_or scoid });
                  }))
              tell (flag (k.ipc.channel channel).flags 1) notify connection 1 pid
              pure (index_or coid))
          ]
    ]

  unfoldable pub connect_attach :
      (processes : Vector)
      → (fuel base : ℕ) → (bases : ℕ → Ptr) → (notify connection link : Ptr)
      → (pid chid index flags : ℕ) → Cmd Kernel ℕ
  unfolding find_link connect_new proc_get_process
  connect_attach processes fuel base bases notify connection link pid chid index flags =
      if not (flags_valid flags) then pure invalid_id else (do
        process ← sched_get_running_process
        checked (proc_get_process processes pid)
        k ← get
        let channel = vector_peek chid (k.ipc.channels (proc_get_process processes pid))
        let count = (vector_usage (k.ipc.connections process) + 2 ^ 32 - 1) % 2 ^ 32
        if (channel == null) || not (k.ipc.channel channel).alive then pure invalid_id else (do
          l ← (if flag flags 0 then pure null else find_link count 1 process channel)
          if not (l == null)
              then (do
                modify (set_link l (λ r. record r { refs = (r.refs + 1) % 2 ^ 16 }))
                pure (k.ipc.link l).coid)
              else (if (connection == null) || (link == null)
                  then pure invalid_id
                  else connect_new fuel base bases notify connection link index flags process
                      channel)))
