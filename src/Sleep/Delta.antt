-- ===== src/Sleep/Delta.antt =====
-- The queue of sleepers is a delta queue: a task waits for the sum of the times up to its own.
use ukernel_mp.Base.{
  ℕ, ◌≡◌, ◌≢◌, ◌<◌, ◌≤◌, ◌+◌, ◌-◌, ◌^◌, refl, sym, ap, ◌∙◌, List, [], ◌∷◌, arith, leb, Bool-cases,
  true, false, inl, inr, has, IsDistinct, ne_of_head, ne_of_has, has-append_false, ℕ_discrete,
  update_ne, update_self, if◌then◌else◌,
}
use ukernel_mp.Glist.Sorted.{insert_spec}
use ukernel_mp.Sched.State.{Kernel}
use ukernel_mp.Sleep.Ops.{pend, sooner, sleep_sort}

-- The nodes of the queue, with the number of ticks until each is due, `s` ticks from now.
abbrev pub due : Kernel → ℕ → List ℕ → List (ℕ × ℕ)
due k s [] = []
due k s (x ∷ xs) = (x, s + pend k x) ∷ due k (s + pend k x) xs

-- A node that is due in `d` ticks goes behind those that are due by then.
abbrev pub place : ℕ → ℕ → List (ℕ × ℕ) → List (ℕ × ℕ)
place t d [] = (t, d) ∷ []
place t d ((x, e) ∷ r) = if leb e d then (x, e) ∷ place t d r else (t, d) ∷ (x, e) ∷ r

pub due-same :
    (k g : Kernel) (s : ℕ) (xs : List ℕ)
    → ((a : ℕ) → has a xs ≡ true → pend g a ≡ pend k a)
    → due g s xs ≡ due k s xs
due-same k g s [] h = refl
due-same k g s (x ∷ xs) h =
    rw (h x (ground arith))
      (ap (λ r. (x, s + pend k x) ∷ r) (due-same k g (s + pend k x) xs (λ a i. h a (ground arith))))

pend-sooner : (a n d : ℕ) (k : Kernel) → a ≢ n → pend (sooner n d k) a ≡ pend k a
pend-sooner a n d k ne = ap (λ t. t.pend_time) (update_ne k.timeout _ ne)

pend-sooner_self :
    (n d : ℕ) (k : Kernel) → d ≤ pend k n → pend k n < 2 ^ 32 → pend (sooner n d k) n ≡ pend k n - d
pend-sooner_self n d k h small = ap (λ t. t.pend_time) (update_self k.timeout n _) ∙ omega arith

-- The insertion changes only the times of the node and of the queue.
insert-pend :
    (t a : ℕ) (xs : List ℕ) (k : Kernel)
    → a ≢ t
    → has a xs ≡ false
    → pend (insert_spec sleep_sort t xs k).1 a ≡ pend k a
unfolding insert_spec sleep_sort
insert-pend t a [] k ne out = refl
insert-pend t a (x ∷ xs) k ne out = elim (Bool-cases (leb (pend k x) (pend k t))) [
  | inl e ↦ rw e (insert-pend t a xs _ ne (ground arith) ∙ pend-sooner a t (pend k x) k ne)
  | inr e ↦ rw e (pend-sooner a x (pend k t) k (ne_of_head a x xs out))
]

sooner-small :
    (n d : ℕ) (k : Kernel)
    → ((a : ℕ) → pend k a < 2 ^ 32)
    → (a : ℕ) → pend (sooner n d k) a < 2 ^ 32
sooner-small n d k small a = elim (ℕ_discrete a n) [
  | yes e ↦
      let at =
        ap (λ b. pend (sooner n d k) b) e ∙ ap (λ t. t.pend_time) (update_self k.timeout n _) in
      omega (arith, at)
  | no ne ↦ omega (arith, pend-sooner a n d k ne, small a)
]

due-sooner :
    (n d s : ℕ) (xs : List ℕ) (k : Kernel) → has n xs ≡ false → due (sooner n d k) s xs ≡ due k s xs
due-sooner n d s xs k out =
    due-same k (sooner n d k) s xs
      λ a is. pend-sooner a n d k (λ e. ne_of_has n a xs out is (sym e))

-- A node that is not in the queue and waits for `pend k t` ticks, inserted by `SleepStort`, is
-- due then, and the other nodes are due when they were; the order is by the ticks, behind those
-- due at the same one.
pub insert-due :
    (t s : ℕ) (xs : List ℕ) (k : Kernel)
    → IsDistinct (t ∷ xs)
    → ((a : ℕ) → pend k a < 2 ^ 32)
    → due (insert_spec sleep_sort t xs k).1 s (insert_spec sleep_sort t xs k).0
      ≡ place t (s + pend k t) (due k s xs)
unfolding insert_spec sleep_sort
insert-due t s [] k d small = refl
insert-due t s (x ∷ xs) k (out, (x_out, d)) small = elim (Bool-cases (leb (pend k x) (pend k t))) [
  | inl e ↦
      let ne : x ≢ t = λ z. ne_of_head t x xs out (sym z) in
      let k' = sooner t (pend k x) k in
      let t_out = (has-append_false t (x ∷ []) xs out).1 in
      let px : pend (insert_spec sleep_sort t xs k').1 x ≡ pend k x =
        insert-pend t x xs k' ne x_out ∙ pend-sooner x t (pend k x) k ne in
      let le : pend k x ≤ pend k t = ground arith in
      let pt : s + pend k x + pend k' t ≡ s + pend k t =
        omega (arith, pend-sooner_self t (pend k x) k le (small t)) in
      let test : leb (s + pend k x) (s + pend k t) ≡ true = ground arith in
      let rest = insert-due t (s + pend k x) xs k' (t_out, d) (sooner-small t (pend k x) k small) in
      rw (e, px, test)
        (ap (λ r. (x, s + pend k x) ∷ r)
          (rest ∙ rw (pt, due-sooner t (pend k x) (s + pend k x) xs k t_out) refl))
  | inr e ↦
      let ne = ne_of_head t x xs out in
      let pt = pend-sooner t x (pend k t) k ne in
      let px = pend-sooner_self x (pend k t) k (ground arith) (small x) in
      let sum : s + pend k t + (pend k x - pend k t) ≡ s + pend k x = ground arith in
      let test : leb (s + pend k x) (s + pend k t) ≡ false = ground arith in
      rw (e, pt, px, sum, test, due-sooner x (pend k t) (s + pend k x) xs k x_out) refl
]
