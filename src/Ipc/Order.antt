-- ===== src/Ipc/Order.antt =====
-- The order of the queues of a channel of kernel/ipc_2.c: MsgListSort and NotifyListSort.
use ukernel_mp.Base.{
  ℕ, ◌≡◌, ◌≤◌, ◌<◌, refl, true, false, List, [], ◌∷◌, ◌++◌, leb, ◌==◌, false≢true, positive, arith,
  ℤ, has, if◌then◌else◌, Bool-cases, inl, inr,
}
use ukernel_mp.Glist.Heap.{Ptr}
use ukernel_mp.Glist.Sorted.{insert_spec}
use ukernel_mp.Sched.State.{Kernel}
use ukernel_mp.Ipc.Queue.{msg_list_sort, notify_list_sort}

-- Queues by a priority.
module _ (prio : ℕ → ℕ) where
  abbrev pub IsBelow : ℕ → List ℕ → Type 0
  IsBelow p [] = Unit
  IsBelow p (x ∷ xs) = (prio x ≤ p) × IsBelow p xs

  abbrev pub IsSorted : List ℕ → Type 0
  IsSorted [] = Unit
  IsSorted (x ∷ xs) = IsBelow (prio x) xs × IsSorted xs

  -- Those of priority `p` or more, and those of less, in order.
  abbrev pub at_least : ℕ → List ℕ → List ℕ
  at_least p [] = []
  at_least p (x ∷ xs) = if leb p (prio x) then x ∷ at_least p xs else at_least p xs

  abbrev pub less_than : ℕ → List ℕ → List ℕ
  less_than p [] = []
  less_than p (x ∷ xs) = if leb p (prio x) then less_than p xs else x ∷ less_than p xs

  -- Behind all of its priority or more.
  abbrev pub placed : ℕ → List ℕ → List ℕ
  placed t xs = at_least (prio t) xs ++ t ∷ less_than (prio t) xs

  at_least-IsBelow : (p q : ℕ) (xs : List ℕ) → q < p → IsBelow q xs → at_least p xs ≡ []
  at_least-IsBelow p q [] h b = refl
  at_least-IsBelow p q (x ∷ xs) h (b, bs) = ground (arith, at_least-IsBelow p q xs h bs)

  less_than-IsBelow : (p q : ℕ) (xs : List ℕ) → q < p → IsBelow q xs → less_than p xs ≡ xs
  less_than-IsBelow p q [] h b = refl
  less_than-IsBelow p q (x ∷ xs) h (b, bs) = ground (arith, less_than-IsBelow p q xs h bs)

  IsBelow-mono : (p q : ℕ) (xs : List ℕ) → p ≤ q → IsBelow p xs → IsBelow q xs
  IsBelow-mono p q [] h b = tt
  IsBelow-mono p q (x ∷ xs) h (b, bs) = (omega arith, IsBelow-mono p q xs h bs)

  -- In front of tasks of less priority only.
  placed-low :
      (t x : ℕ) (xs : List ℕ)
      → prio x < prio t
      → IsBelow (prio x) xs
      → placed t (x ∷ xs) ≡ t ∷ x ∷ xs
  placed-low t x xs low b =
      let e : leb (prio t) (prio x) ≡ false = ground arith in
      rw
        (
          e,
          at_least-IsBelow (prio t) (prio x) xs low b,
          less_than-IsBelow (prio t) (prio x) xs low b,
        )
        refl

  IsBelow-placed :
      (q t : ℕ) (xs : List ℕ) → prio t ≤ q → IsBelow q xs → IsSorted xs → IsBelow q (placed t xs)
  IsBelow-placed q t [] h b s = (h, tt)
  IsBelow-placed q t (x ∷ xs) h (b, bs) (c, s) = elim (Bool-cases (leb (prio t) (prio x))) [
    | inl e ↦ rw e (b, IsBelow-placed q t xs h bs s)
    | inr e ↦ rw (placed-low t x xs (ground arith) c) (h, (b, bs))
  ]

  placed-IsSorted : (t : ℕ) (xs : List ℕ) → IsSorted xs → IsSorted (placed t xs)
  placed-IsSorted t [] s = (tt, tt)
  placed-IsSorted t (x ∷ xs) (b, s) = elim (Bool-cases (leb (prio t) (prio x))) [
    | inl e ↦
        let h : prio t ≤ prio x = ground arith in
        rw e (IsBelow-placed (prio x) t xs h b s, placed-IsSorted t xs s)
    | inr e ↦
        let low : prio x < prio t = ground arith in
        rw (placed-low t x xs low b)
          ((omega arith, IsBelow-mono (prio x) (prio t) xs (omega arith) b), (b, s))
  ]

  pub le_of_IsBelow : (p a : ℕ) (xs : List ℕ) → IsBelow p xs → has a xs ≡ true → prio a ≤ p
  le_of_IsBelow p a [] b is = absurd (false≢true is)
  le_of_IsBelow p a (x ∷ xs) (b, bs) is = elim (Bool-cases (a == x)) [
    | inl e ↦ let same : a ≡ x = ground arith in rw same b
    | inr e ↦ le_of_IsBelow p a xs bs (ground (arith, is, e))
  ]

  module _ (sort : Ptr → Ptr → Kernel → ℤ × Kernel) (k : Kernel)
      (by_prio : (x t : ℕ) → positive (sort x t k).0 ≡ leb (prio t) (prio x))
      (same : (x t : ℕ) → (sort x t k).1 ≡ k) where
    insert-placed : (t : ℕ) (xs : List ℕ) → IsSorted xs → insert_spec sort t xs k ≡ (placed t xs, k)
    unfolding insert_spec
    insert-placed t [] s = refl
    insert-placed t (x ∷ xs) (b, s) = elim (Bool-cases (leb (prio t) (prio x))) [
      | inl e ↦ rw (by_prio x t, same x t, e, insert-placed t xs s) refl
      | inr e ↦ rw (placed-low t x xs (ground arith) b, by_prio x t, same x t, e) refl
    ]

abbrev pub msg_prio : Kernel → ℕ → ℕ
msg_prio k t = (k.task t).active_prio

abbrev pub notify_prio : Kernel → ℕ → ℕ
notify_prio k n = (k.ipc.notify n).priority

msg_list_sort-positive :
    (k : Kernel) (x t : ℕ) → positive (msg_list_sort x t k).0 ≡ leb (msg_prio k t) (msg_prio k x)
unfolding msg_list_sort
msg_list_sort-positive k x t = ground arith

msg_list_sort-same : (k : Kernel) (x t : ℕ) → (msg_list_sort x t k).1 ≡ k
unfolding msg_list_sort
msg_list_sort-same k x t = refl

notify_list_sort-positive :
    (k : Kernel) (x t : ℕ)
    → positive (notify_list_sort x t k).0 ≡ leb (notify_prio k t) (notify_prio k x)
unfolding notify_list_sort
notify_list_sort-positive k x t = ground arith

notify_list_sort-same : (k : Kernel) (x t : ℕ) → (notify_list_sort x t k).1 ≡ k
unfolding notify_list_sort
notify_list_sort-same k x t = refl

-- What an insertion makes of a queue `xs`.
abbrev pub IsInOrder : (prio : ℕ → ℕ) → ℕ → List ℕ → Kernel → List ℕ × Kernel → Type 0
IsInOrder prio t xs k r = (r ≡ (placed prio t xs, k)) × IsSorted prio (placed prio t xs)

-- MsgListSort puts a message into a sorted queue behind all messages of its priority or a higher
-- one, and in front of all others, each in the order that they had; the queue stays sorted, and
-- NotifyListSort does the same with a notification.
pub insert-IsInOrder :
    (k : Kernel) (t n : ℕ) (xs ys : List ℕ)
    → IsSorted (msg_prio k) xs
    → IsSorted (notify_prio k) ys
    → IsInOrder (msg_prio k) t xs k (insert_spec msg_list_sort t xs k)
      × IsInOrder (notify_prio k) n ys k (insert_spec notify_list_sort n ys k)
insert-IsInOrder k t n xs ys s u = (
  (
    insert-placed (msg_prio k) msg_list_sort k (msg_list_sort-positive k) (msg_list_sort-same k) t
        xs s,
    placed-IsSorted (msg_prio k) t xs s,
  ),
  (
    insert-placed (notify_prio k) notify_list_sort k (notify_list_sort-positive k)
        (notify_list_sort-same k) n ys u,
    placed-IsSorted (notify_prio k) n ys u,
  ),
)
