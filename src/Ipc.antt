-- ===== src/Ipc.antt =====
-- kernel/ipc_2.c: messages and notifications between tasks.
pub mod State
pub mod Copy
pub mod Pages
pub mod Queue
pub mod Send
pub mod Transfer
pub mod Receive
pub mod Respond
pub mod Connect
pub mod Close
pub mod Order
pub mod Pick
pub mod Ids
pub mod Flush
pub mod Tests
pub mod Unlink
