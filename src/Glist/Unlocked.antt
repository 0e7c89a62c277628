-- ===== src/Glist/Unlocked.antt =====
-- The read/write lock of a list as one CPU finds it free: readers pass through, a writer leaves the
-- lock as it was and never restores the interrupt mask.
use ukernel_mp.Base.{
  ◌≡◌, ◌≢◌, Bool, true, sym, ap, update, update-update, update_same, ==_refl, ==_ne,
}
use ukernel_mp.Glist.Heap.{Ptr, null, no_writer, Mem, ok}
use ukernel_mp.Glist.Lock.{lock_free, read_lock, read_unlock, write_lock, write_unlock}
use ukernel_mp.Glist.Api.{glist_get_first, glist_get_last}

module _ {S : Type 0} (m : Mem S) (l : Ptr) (ne : l ≢ null)
    (free : (m.list l).lock ≡ lock_free) where
  -- No reader: the loop is not entered, and nothing is written to the lock.
  pub write_lock_free : write_lock l m ≡ ok m.masked (record m { masked = true })
  unfolding write_lock
  write_lock_free = simp (==_ne ne, free)

  -- The lock that `WriteLock` did not take is not given back, and the mask stays.
  pub write_unlock_free : (status : Bool) → m.cpu ≢ no_writer → write_unlock l status m ≡ ok tt m
  unfolding write_unlock
  write_unlock_free status cpu = simp (==_ne ne, free, ==_ne (λ e. cpu (sym e)))

  unread : update m.list l (record (m.list l) { lock = lock_free }) ≡ m.list
  unread = update_same m.list l _ (ap (λ k. record (m.list l) { lock = k }) (sym free))

  -- A reader leaves the state as it found it.
  pub get_first_free : glist_get_first l m ≡ ok (m.list l).first m
  unfolding glist_get_first read_lock read_unlock
  get_first_free =
      simp (==_ne ne, free, ==_refl l, update-update)
        (ap (λ t. ok (m.list l).first (record m { list = t })) unread)

  pub get_last_free : glist_get_last l m ≡ ok (m.list l).last m
  unfolding glist_get_last read_lock read_unlock
  get_last_free =
      simp (==_ne ne, free, ==_refl l, update-update)
        (ap (λ t. ok (m.list l).last (record m { list = t })) unread)
