-- ===== src/Glist/Lock.antt =====
-- kernel/rwlock.c as one CPU runs it between two steps of the others, with `critical_lock` and
-- `critical_unlock` of arch/arm/spinlock.S: the mask that was set is saved, and restored.
use ukernel_mp.Base.{ℕ, Bool, true, ◌+◌, ◌-◌, ◌%◌, ◌^◌, ◌&&◌, ◌==◌, ltb, if◌then◌else◌}
use ukernel_mp.Glist.Heap.{
  Ptr, no_writer, RwLock, Cmd, ok, hang, pure, ◌>>=◌, ◌>>◌, get_list, set_list,
}

abbrev pub lock_free : RwLock
lock_free = record { readers = 0; writer = no_writer }

-- `lock->readers > 0` of an `int32_t`
abbrev pub has_readers : RwLock → Bool
has_readers k = ltb 0 k.readers && ltb k.readers (2 ^ 31)

module _ {S : Type 0} where
  abbrev pub set_lock : Ptr → RwLock → Cmd S (Unit {0})
  set_lock l k = set_list l (λ g. record g { lock = k })

  abbrev pub critical_lock : Cmd S Bool
  critical_lock m = ok m.masked (record m { masked = true })

  abbrev pub critical_unlock : Bool → Cmd S (Unit {0})
  critical_unlock status m = ok tt (record m { masked = status })

  abbrev pub cpu_id : Cmd S ℕ
  cpu_id m = ok m.cpu m

  unfoldable pub read_lock : Ptr → Cmd S (Unit {0})
  read_lock l = do
    g ← get_list l
    set_lock l (record g.lock { readers = (g.lock.readers + 1) % 2 ^ 32 })
    if g.lock.writer == no_writer then pure tt else (λ _. hang)

  unfoldable pub read_unlock : Ptr → Cmd S (Unit {0})
  read_unlock l = do
    g ← get_list l
    set_lock l (record g.lock { readers = (g.lock.readers + 2 ^ 32 - 1) % 2 ^ 32 })

  -- The result is `*status`. The loop is left at once unless there are readers, and then it takes
  -- a free lock.
  unfoldable pub write_lock : Ptr → Cmd S Bool
  write_lock l = do
    status ← critical_lock
    g ← get_list l
    cpu ← cpu_id
    if has_readers g.lock
        then (if g.lock.writer == no_writer
            then (do set_lock l (record g.lock { writer = cpu }); pure status)
            else (λ _. hang))
        else pure status

  unfoldable pub write_unlock : Ptr → Bool → Cmd S (Unit {0})
  write_unlock l status = do
    g ← get_list l
    cpu ← cpu_id
    if g.lock.writer == cpu
        then (do set_lock l (record g.lock { writer = no_writer }); critical_unlock status)
        else pure tt
