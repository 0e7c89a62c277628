-- ===== src/Glist.antt =====
-- lib/glist.c and kernel/rwlock.c as one CPU runs them: the generic intrusive list on a heap of
-- nodes. `Heap` has the state and the accesses, `Lock` the read/write lock, `Link` and
-- `Unlink` the handlers of glist.c, and `Api` its exported functions; the others prove.
pub mod Heap
pub mod Lock
pub mod Link
pub mod Unlink
pub mod Api
pub mod Chain
pub mod Inserted
pub mod Inv
pub mod Relink
pub mod Splice
pub mod Lookup
pub mod Frame
pub mod Object
pub mod Queue
pub mod Remove
pub mod Removed
pub mod Search
pub mod Sorted
mod Tests
pub mod Unlocked
