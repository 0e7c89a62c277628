-- ===== src/Glist/Api.antt =====
-- The exported functions of lib/glist.c, over the handlers that its dispatch tables name.
use ukernel_mp.Base.{ℕ, Option, none, ℤ, ◌||◌, ◌==◌, ltb, if◌then◌else◌}
use ukernel_mp.Glist.Heap.{
  Ptr, null, GlistType, g_list, g_circular_list, g_fifo, g_lifo, Cmd, pure, ◌>>=◌, ◌>>◌, get_owner,
  set_next, set_prev, set_owner, get_list, set_list,
}
use ukernel_mp.Glist.Lock.{lock_free, set_lock, read_lock, read_unlock, write_lock, write_unlock}
use ukernel_mp.Glist.Link.{e_ok, e_inval, e_srch, glist_insert, circular_insert, gqueue_insert}
use ukernel_mp.Glist.Unlink.{glist_search, glist_remove_node, circular_remove_node}

module _ {S : Type 0} where
  unfoldable pub insert_handler : GlistType → (l node : Ptr) → Cmd S ℕ
  insert_handler g_list = glist_insert
  insert_handler g_circular_list = circular_insert
  insert_handler g_fifo = gqueue_insert
  insert_handler g_lifo = gqueue_insert

  unfoldable pub remove_handler : GlistType → (l node : Ptr) → Cmd S (Unit {0})
  remove_handler g_list = glist_remove_node
  remove_handler g_circular_list = circular_remove_node
  remove_handler g_fifo = glist_remove_node
  remove_handler g_lifo = glist_remove_node

  unfoldable pub glist_initialize : Ptr → GlistType → Cmd S ℕ
  glist_initialize l kind = if l == null then pure e_inval else do
    set_list l (λ g. record g {
      first = null;
      last = null;
      count = 0;
      list_cmp = none;
      list_sort = none;
      kind = kind;
    })
    set_lock l lock_free
    pure e_ok

  unfoldable pub glist_set_sort : Ptr → Option (Ptr → Ptr → S → ℤ × S) → Cmd S ℕ
  glist_set_sort l sort = if l == null then pure e_inval else do
    g ← get_list l
    elim g.kind [
      | g_fifo ↦ pure e_ok
      | g_lifo ↦ pure e_ok
      | _ ↦ (do set_list l (λ g. record g { list_sort = sort }); pure e_ok)
    ]

  unfoldable pub glist_set_cmp : Ptr → Option (Ptr → ℕ → S → ℤ × S) → Cmd S ℕ
  glist_set_cmp l cmp = if l == null then pure e_inval else do
    g ← get_list l
    elim g.kind [
      | g_fifo ↦ pure e_ok
      | g_lifo ↦ pure e_ok
      | _ ↦ (do set_list l (λ g. record g { list_cmp = cmp }); pure e_ok)
    ]

  -- `node->owner = o; node->next = NULL; node->prev = NULL;`
  abbrev pub detach : (node o : Ptr) → Cmd S (Unit {0})
  detach node o = do set_owner node o; set_next node null; set_prev node null

  unfoldable pub glist_insert_object : (l node : Ptr) → Cmd S ℕ
  glist_insert_object l node = if (l == null) || (node == null) then pure e_inval else do
    detach node l
    status ← write_lock l
    g ← get_list l
    ret ← insert_handler g.kind l node
    write_unlock l status
    pure ret

  unfoldable pub glist_get_first : Ptr → Cmd S Ptr
  glist_get_first l =
      if l == null then pure null else do read_lock l; g ← get_list l; read_unlock l; pure g.first

  unfoldable pub glist_get_last : Ptr → Cmd S Ptr
  glist_get_last l =
      if l == null then pure null else do read_lock l; g ← get_list l; read_unlock l; pure g.last

  -- The choice by type that `GlistGetObject` and `GlistRemoveObject` make.
  unfoldable pub pick_by : GlistType → Ptr → ℕ → Cmd S Ptr
  pick_by g_fifo l v = glist_get_first l
  pick_by g_lifo l v = glist_get_last l
  pick_by _ l v = glist_search l v

  unfoldable pub glist_pick : Ptr → ℕ → Cmd S Ptr
  unfolding pick_by
  glist_pick l v = do g ← get_list l; pick_by g.kind l v

  unfoldable pub glist_get_object : Ptr → ℕ → Cmd S Ptr
  glist_get_object l v =
      if l == null
      then pure null
      else do read_lock l; node ← glist_pick l v; read_unlock l; pure node

  unfoldable pub glist_remove_specific : Ptr → Cmd S ℕ
  glist_remove_specific node = if node == null then pure e_inval else do
    l ← get_owner node
    if l == null then pure e_inval else (do
      status ← write_lock l
      g ← get_list l
      remove_handler g.kind l node
      write_unlock l status
      detach node null
      g' ← get_list l
      pure (if ltb g'.count g.count then e_ok else e_srch))

  -- Where nothing is found the function returns with the lock held as `WriteLock` left it.
  unfoldable pub glist_remove_object : Ptr → ℕ → Cmd S Ptr
  glist_remove_object l v = if l == null then pure null else do
    status ← write_lock l
    node ← glist_pick l v
    if node == null then pure null else (do
      g ← get_list l
      remove_handler g.kind l node
      write_unlock l status
      detach node null
      pure node)

  -- The unlinking is that of a linear list whatever the type.
  unfoldable pub glist_remove_first : Ptr → Cmd S Ptr
  glist_remove_first l = if l == null then pure null else do
    g ← get_list l
    if g.count == 0 then pure null else (do
      status ← write_lock l
      node ← glist_get_first l
      glist_remove_node l node
      write_unlock l status
      detach node null
      pure node)
