-- ===== src/Glist/Link.antt =====
-- The insert handlers of lib/glist.c. The loop of `GlistInsert` runs on fuel, one round more than
-- the list counts nodes; that of `GcircularListInsert` counts down `list->count`.
use ukernel_mp.Base.{
  ℕ, zero, suc, none, some, ℤ, ◌+◌, ◌-◌, ◌%◌, ◌^◌, ◌&&◌, ◌==◌, ltb, if◌then◌else◌, positive,
}
use ukernel_mp.Glist.Heap.{
  Ptr, null, Cmd, hang, pure, ◌>>=◌, ◌>>◌, get_next, get_prev, set_next, set_prev, get_list,
  set_list, call,
}

abbrev pub e_ok : ℕ
e_ok = 0

abbrev pub e_inval : ℕ
e_inval = 1

abbrev pub e_busy : ℕ
e_busy = 2

abbrev pub e_srch : ℕ
e_srch = 4

abbrev pub e_fault : ℕ
e_fault = 6

abbrev pub e_error : ℕ
e_error = 10

abbrev pub inc32 : ℕ → ℕ
inc32 n = (n + 1) % 2 ^ 32

abbrev pub dec32 : ℕ → ℕ
dec32 n = (n + 2 ^ 32 - 1) % 2 ^ 32

module _ {S : Type 0} where
  abbrev pub set_first : Ptr → Ptr → Cmd S (Unit {0})
  set_first l p = set_list l (λ g. record g { first = p })

  abbrev pub set_last : Ptr → Ptr → Cmd S (Unit {0})
  set_last l p = set_list l (λ g. record g { last = p })

  abbrev pub count_up : Ptr → Cmd S (Unit {0})
  count_up l = set_list l (λ g. record g { count = inc32 g.count })

  abbrev pub count_down : Ptr → Cmd S (Unit {0})
  count_down l = set_list l (λ g. record g { count = dec32 g.count })

  -- The loop of `GlistInsert`: the first node, from `it` on, that does not compare as positive.
  unfoldable pub insert_walk : ℕ → (Ptr → Ptr → S → ℤ × S) → (it node : Ptr) → Cmd S Ptr
  insert_walk zero sort it node = λ _. hang
  insert_walk (suc k) sort it node = if it == null then pure it else do
    r ← call (sort it node)
    if positive r then (do n ← get_next it; insert_walk k sort n node) else pure it

  -- The two branches behind the loop.
  unfoldable pub link_back : (l node : Ptr) → Cmd S (Unit {0})
  link_back l node = do
    g ← get_list l
    set_next node null
    set_prev node g.last
    if g.last == null then set_first l node else set_next g.last node
    set_last l node

  unfoldable pub link_before : (l node it : Ptr) → Cmd S (Unit {0})
  link_before l node it = do
    set_next node it
    p ← get_prev it
    set_prev node p
    set_prev it node
    if p == null then set_first l node else set_next p node

  unfoldable pub glist_insert : (l node : Ptr) → Cmd S ℕ
  unfolding insert_walk link_back link_before
  glist_insert l node = do
    g ← get_list l
    elim g.list_sort [
      | none ↦ pure e_fault
      | some sort ↦ do
        it ← insert_walk (g.count + 1) sort g.first node
        if it == null then link_back l node else link_before l node it
        count_up l
        pure e_ok
    ]

  -- The loop of `GcircularListInsert`, with `iterator` and `count` at its end.
  unfoldable pub circular_walk : ℕ → (Ptr → Ptr → S → ℤ × S) → (it node : Ptr) → Cmd S (Ptr × ℕ)
  circular_walk zero sort it node = pure (it, 0)
  circular_walk (suc k) sort it node = do
    r ← call (sort it node)
    if positive r then (do n ← get_next it; circular_walk k sort n node) else pure (it, suc k)

  unfoldable pub circular_first : (l node : Ptr) → Cmd S ℕ
  circular_first l node = do
    set_first l node
    set_last l node
    count_up l
    set_next node node
    set_prev node node
    pure e_ok

  unfoldable pub circular_link : (l node it : Ptr) → ℕ → Cmd S ℕ
  circular_link l node it count = do
    set_next node it
    p ← get_prev it
    set_prev node p
    set_next p node
    set_prev it node
    g ← get_list l
    if (g.first == it) && ltb 0 count
        then set_first l node
        else (if count == 0 then set_last l node else pure tt)
    count_up l
    pure e_ok

  unfoldable pub circular_insert : (l node : Ptr) → Cmd S ℕ
  unfolding circular_walk circular_first circular_link
  circular_insert l node = do
    g ← get_list l
    elim g.list_sort [
      | none ↦ pure e_fault
      | some sort ↦ if g.count == 0 then circular_first l node else (do
        (it, count) ← circular_walk g.count sort g.first node
        circular_link l node it count)
    ]

  unfoldable pub gqueue_insert : (l node : Ptr) → Cmd S ℕ
  gqueue_insert l node = do
    g ← get_list l
    set_prev node g.last
    set_next node null
    if g.last == null then pure tt else set_next g.last node
    set_last l node
    if g.first == null then set_first l node else pure tt
    count_up l
    pure e_ok
