-- ===== src/Ipc/Close.antt =====
-- ConnectDetach and ChannelDestroy of kernel/ipc_2.c. `drop_mapping` and `drop_shared` are what they
-- do with the shared memory of a link and of a connection that have some, `forget_mapping` is the
-- write to `link->privMap->shared`, and `server_terminate` is ker_ServerTerminate of kernel/system.c.
use ukernel_mp.Base.{
  ℕ, zero, suc, Bool, true, false, ◌+◌, ◌-◌, ◌%◌, ◌^◌, ◌==◌, ◌&&◌, not, ltb, if◌then◌else◌, update,
}
use ukernel_mp.Glist.Heap.{Ptr, null, Cmd, hang, pure, ◌>>=◌, ◌>>◌, get_list}
use ukernel_mp.Glist.Link.{e_ok, e_inval, e_busy}
use ukernel_mp.Glist.Api.{glist_remove_specific, glist_remove_first}
use ukernel_mp.Vector.Ops.{vector_remove, vector_peek, vector_usage, vector_free}
use ukernel_mp.Sched.State.{Kernel}
use ukernel_mp.Sched.Ops.{get, modify}
use ukernel_mp.Sched.Switch.{checked, sched_get_running_process}
use ukernel_mp.Ipc.Queue.{Layout, set_ipc, set_channel, msgs_flush_by_scoid, msgs_flush}
use ukernel_mp.Ipc.Connect.{flag, set_link, set_connections, tell}

module _ (at : Layout) (tasks : Ptr) where
  -- The last link has gone: the connection ends.
  unfoldable pub connection_end :
      (drop_shared : Ptr → Cmd Kernel (Unit {0}))
      → (notify connection channel pid : ℕ) → Cmd Kernel (Unit {0})
  unfolding tell
  connection_end drop_shared notify connection channel pid = do
    drop_shared connection
    k ← get
    let c = k.ipc.channel channel
    tell at tasks (flag c.flags 0 && c.alive) notify connection 2 pid
    modify (
        set_channel channel (λ r. record r {
          connections = (vector_remove (k.ipc.connection connection).scoid r.connections).1;
        }))

  -- `cmp` is the address of the local variable of `MsgsFlushByScoid`; the notifications get the
  -- addresses `told` and `ended`.
  unfoldable pub ker_connect_detach :
      (drop_mapping : (process link : Ptr) → Cmd Kernel (Unit {0}))
      → (drop_shared : Ptr → Cmd Kernel (Unit {0})) → (fuel cmp told ended process link : ℕ)
      → (force : Bool) → Cmd Kernel ℕ
  unfolding tell connection_end msgs_flush_by_scoid
  ker_connect_detach drop_mapping drop_shared fuel cmp told ended process link force = do
    modify (set_link link (λ l. record l { refs = (l.refs + 2 ^ 16 - 1) % 2 ^ 16 }))
    k ← get
    let l = k.ipc.link link
    let connection = l.connection
    let channel = (k.ipc.connection connection).channel
    let scoid = (k.ipc.connection connection).scoid
    let c = k.ipc.channel channel
    if (ltb 0 l.refs && ltb l.refs (2 ^ 15)) && not force then pure e_busy else (do
      modify (set_link link (λ l. record l { link_dead = true }))
      checked connection
      drop_mapping process link
      msgs_flush_by_scoid tasks fuel cmp (at.send channel) scoid process
      msgs_flush_by_scoid tasks fuel cmp (at.notify channel) scoid process
      msgs_flush_by_scoid tasks fuel cmp (at.response channel) scoid process
      tell at tasks (flag c.flags 4 && c.alive) told connection 4 l.coid
      glist_remove_specific (at.link_node link) >>= λ _. pure tt
      g ← get_list (at.clinks connection)
      (if g.count == 0 then connection_end drop_shared ended connection channel l.pid else pure tt)
      modify (λ k. set_connections process (vector_remove l.coid (k.ipc.connections process)).1 k)
      pure e_ok)

  unfoldable pub connect_detach :
      (drop_mapping : (process link : Ptr) → Cmd Kernel (Unit {0}))
      → (drop_shared : Ptr → Cmd Kernel (Unit {0})) → (fuel cmp told ended coid : ℕ) → Cmd Kernel ℕ
  unfolding ker_connect_detach
  connect_detach drop_mapping drop_shared fuel cmp told ended coid = do
    process ← sched_get_running_process
    k ← get
    let link = vector_peek coid (k.ipc.connections process)
    if link == null
        then pure e_inval
        else ker_connect_detach drop_mapping drop_shared fuel cmp told ended process link false

  module _ (drop_shared forget_mapping : Ptr → Cmd Kernel (Unit {0})) where
    -- The links of a connection go.
    unfoldable pub unlink_all : ℕ → (connection : Ptr) → Cmd Kernel (Unit {0})
    unlink_all zero connection = λ _. hang
    unlink_all (suc fuel) connection =
        let rest = unlink_all fuel connection in
        do
          g ← get_list (at.clinks connection)
          if g.count == 0 then pure tt else (do
            node ← glist_remove_first (at.clinks connection)
            let link = at.link_of node
            modify (set_link link (λ l. record l { connection = null }))
            forget_mapping link
            rest)

    -- The loop over the connections of a channel, with `left` slots from `index` on and `count`
    -- connections to go.
    unfoldable pub close_loop :
        (fuel left count index : ℕ) → (channel : Ptr) → Cmd Kernel (Unit {0})
    unfolding unlink_all
    close_loop fuel zero count index channel = pure tt
    close_loop fuel (suc left) count index channel =
        let next : ℕ → Cmd Kernel (Unit {0}) = λ n. close_loop fuel left n (index + 1) channel in
        do
          k ← get
          let r = vector_remove index (k.ipc.channel channel).connections
          let connection = r.0
          if count == 0 then pure tt else (do
            modify (set_channel channel (λ c. record c { connections = r.1 }))
            if connection == null then next count else (do
              modify (
                  set_ipc (λ s. record s {
                    connection =
                        update s.connection connection
                          (record (s.connection connection) { invalid = true });
                  }))
              unlink_all fuel connection
              drop_shared connection
              next (count - 1)))

    unfoldable pub ker_channel_destroy :
        (server_terminate : (process chid : ℕ) → Cmd Kernel (Unit {0}))
        → (fuel : ℕ) → (process channel : Ptr) → Cmd Kernel ℕ
    unfolding close_loop msgs_flush
    ker_channel_destroy server_terminate fuel process channel = do
      checked channel
      modify (set_channel channel (λ c. record c { alive = false }))
      k ← get
      let c = k.ipc.channel channel
      (if c.server == null then pure tt else server_terminate process c.chid)
      g ← get
      let v = (g.ipc.channel channel).connections
      close_loop fuel v.size (vector_usage v) 0 channel
      msgs_flush tasks fuel (at.send channel)
      msgs_flush tasks fuel (at.notify channel)
      msgs_flush tasks fuel (at.response channel)
      msgs_flush tasks fuel (at.receive channel)
      modify (set_channel channel (λ c. record c { messages = vector_free c.messages }))
      modify (
          set_ipc (λ s. record s {
            channels = update s.channels process (vector_remove c.chid (s.channels process)).1;
          }))
      pure e_ok

    unfoldable pub channel_destroy :
        (server_terminate : (process chid : ℕ) → Cmd Kernel (Unit {0}))
        → (fuel chid : ℕ) → Cmd Kernel ℕ
    unfolding ker_channel_destroy
    channel_destroy server_terminate fuel chid = do
      process ← sched_get_running_process
      k ← get
      ker_channel_destroy server_terminate fuel process (vector_peek chid (k.ipc.channels process))
