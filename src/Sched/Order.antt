-- ===== src/Sched/Order.antt =====
-- The order of the ready list under `ReadyListSort`: priorities fall from the front to the back,
-- a task of priority 2 or more goes behind its equals, one of less in front of them.
use ukernel_mp.Base.{
  ℕ, suc, ◌≡◌, positive, ◌<◌, ◌≤◌, refl, true, false, Bool-cases, inl, inr, List, [], ◌∷◌, ◌++◌,
  arith, ltb, leb, if◌then◌else◌, subst,
}
use ukernel_mp.Glist.Sorted.{insert_spec}
use ukernel_mp.Sched.State.{Kernel}
use ukernel_mp.Sched.Ops.{ready_list_sort}

module _ (k : Kernel) where
  abbrev pub prio : ℕ → ℕ
  prio t = (k.task t).active_prio

  -- Every priority in the list is at most `p`.
  abbrev pub IsBelow : ℕ → List ℕ → Type 0
  IsBelow p [] = Unit
  IsBelow p (x ∷ xs) = (prio x ≤ p) × IsBelow p xs

  abbrev pub IsSorted : List ℕ → Type 0
  IsSorted [] = Unit
  IsSorted (x ∷ xs) = IsBelow (prio x) xs × IsSorted xs

  -- The tasks of priority `p` or more, and those of less, in order.
  abbrev pub at_least : ℕ → List ℕ → List ℕ
  at_least p [] = []
  at_least p (x ∷ xs) = if leb p (prio x) then x ∷ at_least p xs else at_least p xs

  abbrev pub less_than : ℕ → List ℕ → List ℕ
  less_than p [] = []
  less_than p (x ∷ xs) = if leb p (prio x) then less_than p xs else x ∷ less_than p xs

  at_least-IsBelow : (p q : ℕ) (xs : List ℕ) → q < p → IsBelow q xs → at_least p xs ≡ []
  at_least-IsBelow p q [] h b = refl
  at_least-IsBelow p q (x ∷ xs) h (b, bs) = ground (arith, at_least-IsBelow p q xs h bs)

  less_than-IsBelow : (p q : ℕ) (xs : List ℕ) → q < p → IsBelow q xs → less_than p xs ≡ xs
  less_than-IsBelow p q [] h b = refl
  less_than-IsBelow p q (x ∷ xs) h (b, bs) = ground (arith, less_than-IsBelow p q xs h bs)

  -- The least priority that the new task goes behind.
  abbrev pub behind : ℕ → ℕ
  behind a = if ltb 1 a then a else suc a

  ready_list_sort-positive :
      (x t : ℕ) → positive (ready_list_sort x t k).0 ≡ leb (behind (prio t)) (prio x)
  unfolding ready_list_sort
  ready_list_sort-positive x t = ground arith

  ready_list_sort-same : (x t : ℕ) → (ready_list_sort x t k).1 ≡ k
  unfolding ready_list_sort
  ready_list_sort-same x t = refl

  -- The place of a new task in a sorted ready list: behind the tasks of at least its priority when
  -- that is 2 or more, else behind those of a higher priority only; no task is changed.
  pub insert-ready :
      (t : ℕ) (xs : List ℕ)
      → IsSorted xs
      → insert_spec ready_list_sort t xs k
        ≡ (at_least (behind (prio t)) xs ++ t ∷ less_than (behind (prio t)) xs, k)
  unfolding insert_spec
  insert-ready t [] s = refl
  insert-ready t (x ∷ xs) (b, s) =
      let p = behind (prio t) in
      elim (Bool-cases (leb p (prio x))) [
        | inl e ↦
            rw (ready_list_sort-positive x t, ready_list_sort-same x t, e, insert-ready t xs s) refl
        | inr e ↦
            let low : prio x < p = ground arith in
            rw
              (
                ready_list_sort-positive x t,
                ready_list_sort-same x t,
                e,
                at_least-IsBelow p (prio x) xs low b,
                less_than-IsBelow p (prio x) xs low b,
              )
              refl
      ]

  IsBelow-mono : (p q : ℕ) (xs : List ℕ) → p ≤ q → IsBelow p xs → IsBelow q xs
  IsBelow-mono p q [] h b = tt
  IsBelow-mono p q (x ∷ xs) h (b, bs) = (omega arith, IsBelow-mono p q xs h bs)

  IsBelow-insert :
      (q t : ℕ) (xs : List ℕ)
      → prio t ≤ q
      → IsBelow q xs
      → IsBelow q (insert_spec ready_list_sort t xs k).0
  unfolding insert_spec
  IsBelow-insert q t [] h b = (h, tt)
  IsBelow-insert q t (x ∷ xs) h (b, bs) = elim (Bool-cases (leb (behind (prio t)) (prio x))) [
    | inl e ↦
        rw (ready_list_sort-positive x t, ready_list_sort-same x t, e)
          (b, IsBelow-insert q t xs h bs)
    | inr e ↦ rw (ready_list_sort-positive x t, e) (h, (b, bs))
  ]

  behind-leb : (t x : ℕ) → leb (behind (prio t)) (prio x) ≡ true → prio t ≤ prio x
  behind-leb t x e = ground arith

  behind-lt : (t x : ℕ) → leb (behind (prio t)) (prio x) ≡ false → prio x ≤ prio t
  behind-lt t x e = ground arith

  -- The insertion of a task by `ReadyListSort` keeps a ready list sorted by priority, the
  -- highest first.
  pub insert-ready-IsSorted :
      (t : ℕ) (xs : List ℕ) → IsSorted xs → IsSorted (insert_spec ready_list_sort t xs k).0
  unfolding insert_spec
  insert-ready-IsSorted t [] s = (tt, tt)
  insert-ready-IsSorted t (x ∷ xs) (b, s) = elim (Bool-cases (leb (behind (prio t)) (prio x))) [
    | inl e ↦
        rw (ready_list_sort-positive x t, ready_list_sort-same x t, e)
          (IsBelow-insert (prio x) t xs (behind-leb t x e) b, insert-ready-IsSorted t xs s)
    | inr e ↦
        let h = behind-lt t x e in
        rw (ready_list_sort-positive x t, e) ((h, IsBelow-mono (prio x) (prio t) xs h b), (b, s))
  ]

-- Only the priorities count.
pub IsBelow-same :
    (k g : Kernel) (q : ℕ) (xs : List ℕ)
    → ((a : ℕ) → prio k a ≡ prio g a)
    → IsBelow k q xs
    → IsBelow g q xs
IsBelow-same k g q [] e b = tt
IsBelow-same k g q (x ∷ xs) e (b, bs) = (omega (arith, e x), IsBelow-same k g q xs e bs)

pub IsSorted-same :
    (k g : Kernel) (xs : List ℕ) → ((a : ℕ) → prio k a ≡ prio g a) → IsSorted k xs → IsSorted g xs
IsSorted-same k g [] e s = tt
IsSorted-same k g (x ∷ xs) e (b, s) = (
  subst (λ q. IsBelow g q xs) (e x) (IsBelow-same k g (prio k x) xs e b),
  IsSorted-same k g xs e s,
)
