-- ===== src/Ipc/State.antt =====
-- kernel/include/ipc_2.h: channels, connections, links and notifications by their addresses, and
-- what kernel/include/proctypes.h has for messages. A notification is named by its `node`, as a task
-- is; the lists of a channel and of a connection are at addresses that the compiler sets.
use ukernel_mp.Base.{ℕ, Bool}
use ukernel_mp.Klock.Steps.{Klock}
use ukernel_mp.Vector.Ops.{Vector}

-- `channel_t` without its lists. `alive` is the flag `CHANNEL_ALIVE`, the others are in `flags`.
pub record Channel : Type 0 where
  pub pid : ℕ
  pub chid : ℕ
  pub server : ℕ
  pub flags : ℕ
  pub alive : Bool
  pub priority : ℕ
  pub connections : Vector
  pub messages : Vector
  pub lock : Klock

-- `connection_t` without its links and its shared memory. `invalid` is the flag
-- `CONNECTION_INVALID`.
pub record Connection : Type 0 where
  pub scoid : ℕ
  pub channel : ℕ
  pub flags : ℕ
  pub invalid : Bool

-- `clink_t` without its node and its mapping. `link_dead` is the flag `CLINK_DEAD`, `refs` the pattern of an
-- `int16_t`.
pub record Link : Type 0 where
  pub pid : ℕ
  pub coid : ℕ
  pub connection : ℕ
  pub link_dead : Bool
  pub refs : ℕ

pub record Notify : Type 0 where
  pub kind : ℕ
  pub value : ℕ
  pub scoid : ℕ
  pub priority : ℕ

-- `data.msg` of a task
pub record Msg : Type 0 where
  pub rcvid : ℕ
  pub scoid : ℕ
  pub coid : ℕ
  pub kind : ℕ
  pub code : ℕ
  pub smsg : ℕ
  pub sbytes : ℕ
  pub rmsg : ℕ
  pub rbytes : ℕ
  pub server : ℕ
  pub read_off : ℕ
  pub write_off : ℕ

-- `data.notify` of a task. It shares its memory with `data.msg`: a task is not in both uses at once.
pub record Note : Type 0 where
  pub scoid : ℕ
  pub kind : ℕ
  pub value : ℕ
  pub notification : ℕ

-- `msgCmp_t`
pub record MsgCmp : Type 0 where
  pub scoid : ℕ
  pub pid : ℕ

-- `msg`, `note`, `client` and `serving` (the field `chid`) are those of a task, `channels`,
-- `connections` and `pid` those of a process; `bytes` is the memory by physical addresses.
pub record Ipc : Type 0 where
  pub channel : ℕ → Channel
  pub connection : ℕ → Connection
  pub link : ℕ → Link
  pub notify : ℕ → Notify
  pub msg_cmp : ℕ → MsgCmp
  pub msg : ℕ → Msg
  pub note : ℕ → Note
  pub client : ℕ → ℕ
  pub serving : ℕ → ℕ
  pub channels : ℕ → Vector
  pub connections : ℕ → Vector
  pub pid : ℕ → ℕ
  pub bytes : ℕ → ℕ
