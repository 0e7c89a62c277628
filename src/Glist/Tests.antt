-- ===== src/Glist/Tests.antt =====
-- The theorems on lib/glist.c at a list of two nodes, sorted by the priorities that the objects
-- hold, and runs of the functions on it.
use ukernel_mp.Base.{
  ℕ, ◌≡◌, ◌≢◌, refl, false, some, ℤ, pos, [], ◌∷◌, arith, leb, if◌then◌else◌, update,
}
use ukernel_mp.Glist.Heap.{Ptr, null, GlistType, g_list, Mem}
use ukernel_mp.Glist.Lock.{lock_free}
use ukernel_mp.Glist.Link.{e_ok}
use ukernel_mp.Glist.Api.{glist_insert_object, glist_remove_specific}
use ukernel_mp.Glist.Inv.{IsGlist, Returns}
use ukernel_mp.Glist.Sorted.{insert_spec}
use ukernel_mp.Glist.Search.{search_spec}
use ukernel_mp.Glist.Object.{IsChanged, IsReady, masked, insert_object-sorted}
use ukernel_mp.Glist.Remove.{IsOpen, remove_specific-erase}

-- The objects hold a priority for each node; the address 100 is that of the list.
abbrev prios : ℕ → ℕ
prios = update (update (λ _. 5) 8 9) 16 3

abbrev by_prio : Ptr → Ptr → (ℕ → ℕ) → ℤ × (ℕ → ℕ)
by_prio c n s = (if leb (s n) (s c) then pos 1 else pos 0, s)

abbrev by_address : Ptr → ℕ → (ℕ → ℕ) → ℤ × (ℕ → ℕ)
by_address c v s = (if leb c v then (if leb v c then pos 0 else pos 1) else pos 1, s)

abbrev two : GlistType → Mem (ℕ → ℕ)
two kind = record {
  next = update (λ _. 0) 8 16;
  prev = update (λ _. 0) 16 8;
  owner = λ _. 100;
  list = λ _. record {
    kind = kind;
    count = 2;
    list_sort = some by_prio;
    list_cmp = some by_address;
    first = 8;
    last = 16;
    lock = lock_free;
  };
  objects = prios;
  cpu = 0;
  masked = false;
}

two-IsGlist : (kind : GlistType) → IsGlist (two kind) 100 (8 ∷ 16 ∷ [])
two-IsGlist kind = record {
  linked = record {
    list = omega arith;
    first = refl;
    last = refl;
    nexts = (refl, (refl, tt));
    prevs = (refl, (refl, tt));
    distinct = (refl, (refl, tt));
    nonnull = refl;
  };
  count = refl;
  small = omega arith;
  owned = λ a h. refl;
}

ready : (kind : GlistType) → IsReady (two kind) 100 24 (8 ∷ 16 ∷ [])
ready kind = record {
  glist = two-IsGlist kind;
  free = refl;
  cpu = omega arith;
  is_node = omega arith;
  new = refl;
  room = omega arith;
}

opened : (kind : GlistType) → IsOpen (two kind) 100 (8 ∷ 16 ∷ [])
opened kind = record { glist = two-IsGlist kind; free = refl; cpu = omega arith }

insert_object-sorted_example :
    Returns
      (λ r g.
        (r ≡ e_ok)
        × IsChanged
            (two g_list)
            g
            100
            24
            (insert_spec by_prio 24 (8 ∷ 16 ∷ []) prios).0
            (insert_spec by_prio 24 (8 ∷ 16 ∷ []) prios).1)
      (glist_insert_object 100 24 (two g_list))
insert_object-sorted_example =
    insert_object-sorted (two g_list) 100 24 (8 ∷ 16 ∷ []) by_prio refl refl (ready g_list)

-- Priority 5 goes between 9 and 3.
insert_spec_between : (insert_spec by_prio 24 (8 ∷ 16 ∷ []) prios).0 ≡ 8 ∷ 24 ∷ 16 ∷ []
unfolding insert_spec
insert_spec_between = refl

remove_specific-erase_example :
    Returns
      (λ r g. (r ≡ e_ok) × IsChanged (two g_list) g 100 16 (8 ∷ []) prios)
      (glist_remove_specific 16 (two g_list))
remove_specific-erase_example =
    remove_specific-erase (two g_list) 100 (8 ∷ 16 ∷ []) (opened g_list) 16 (λ e. cc e) refl

found_16 : (search_spec by_address 16 (8 ∷ 16 ∷ []) prios).0 ≢ null
unfolding search_spec
found_16 = omega arith
