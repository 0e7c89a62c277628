-- ===== src/Glist/Queue.antt =====
-- `GqueueInsert` appends: it does what the end of `GlistInsert` does.
use ukernel_mp.Base.{◌≡◌, ◌≢◌, false, List, [], ◌∷◌, ◌++◌, ==_refl, ==_ne, update-update, has}
use mathlib.Core.List.{append-nil}
use ukernel_mp.Glist.Heap.{Ptr, null, Mem, pure, ◌>>◌}
use ukernel_mp.Glist.Link.{gqueue_insert, link_back, count_up, e_ok}
use ukernel_mp.Glist.Inv.{IsLinked, last-ne-null, ne_null_of_linked, Returns}
use ukernel_mp.Glist.Inserted.{Inserted, link-Inserted}

module _ {S : Type 0} (node : Ptr) (m : Mem S) (l : Ptr) where
  gqueue_insert-link_back :
      (xs : List Ptr)
      → IsLinked m l xs
      → node ≢ null
      → gqueue_insert l node m ≡ (do link_back l node; count_up l; pure e_ok) m
  unfolding gqueue_insert link_back
  gqueue_insert-link_back [] k ne =
      simp (==_ne k.list, ==_ne ne, k.first, k.last, ==_refl l, update-update)
  gqueue_insert-link_back (x ∷ xs) k ne = simp (
    ==_ne k.list,
    ==_ne ne,
    k.first,
    k.last,
    ==_ne (last-ne-null k),
    ==_ne (ne_null_of_linked [] x xs k),
  )

  -- The node goes behind all others.
  pub gqueue_insert_lem :
      (xs : List Ptr)
      → IsLinked m l xs
      → node ≢ null
      → has node xs ≡ false
      → Returns (Inserted m l (xs ++ node ∷ [], m.objects)) (gqueue_insert l node m)
  gqueue_insert_lem xs k ne out =
      rw (gqueue_insert-link_back xs k ne)
        (link-Inserted node m l xs [] (rw append-nil k) ne (rw append-nil out))
