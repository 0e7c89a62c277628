-- ===== src/Glist/Unlink.antt =====
-- The remove handlers and the search of lib/glist.c. The search counts down `list->count`, an
-- `int` there: from 2 ^ 31 on it is negative, and the loop is not entered.
use ukernel_mp.Base.{ℕ, zero, suc, none, some, ℤ, ◌^◌, ◌==◌, ltb, if◌then◌else◌, nonzero}
use ukernel_mp.Glist.Heap.{
  Ptr, null, Cmd, pure, ◌>>=◌, ◌>>◌, get_next, get_prev, set_next, set_prev, get_list, call,
}
use ukernel_mp.Glist.Link.{set_first, set_last, count_down}

module _ {S : Type 0} where
  -- The loop of `GlistSearch`, with `iterator` and `count` at its end.
  unfoldable pub search_walk : ℕ → (Ptr → ℕ → S → ℤ × S) → Ptr → ℕ → Cmd S (Ptr × ℕ)
  search_walk zero cmp it v = pure (it, 0)
  search_walk (suc k) cmp it v = do
    r ← call (cmp it v)
    if nonzero r then (do n ← get_next it; search_walk k cmp n v) else pure (it, suc k)

  unfoldable pub glist_search : Ptr → ℕ → Cmd S Ptr
  unfolding search_walk
  glist_search l v = do
    g ← get_list l
    elim g.list_cmp [
      | none ↦ pure null
      | some cmp ↦
          if ltb g.count (2 ^ 31)
          then (do
            (it, count) ← search_walk g.count cmp g.first v
            pure (if count == 0 then null else it))
          else pure g.first
    ]

  -- The two writes of `GlistRemoveNode` in front of the count.
  unfoldable pub unlink_node : (l node : Ptr) → Cmd S (Unit {0})
  unlink_node l node = do
    p ← get_prev node
    n ← get_next node
    if p == null then set_first l n else set_next p n
    if n == null then set_last l p else set_prev n p

  unfoldable pub glist_remove_node : (l node : Ptr) → Cmd S (Unit {0})
  glist_remove_node l node = do unlink_node l node; count_down l

  unfoldable pub circular_remove_node : (l node : Ptr) → Cmd S (Unit {0})
  circular_remove_node l node = do
    n ← get_next node
    if node == n then (do set_first l null; set_last l null) else (do
      p ← get_prev node
      set_prev n p
      set_next p n
      g ← get_list l
      if g.first == node then (do n' ← get_next node; set_first l n') else pure tt
      if g.last == node then (do p' ← get_prev node; set_last l p') else pure tt)
    count_down l
