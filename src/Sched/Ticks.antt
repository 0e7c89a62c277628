-- ===== src/Sched/Ticks.antt =====
-- The tick of the system timer on the time slices.
use ukernel_mp.Base.{
  ℕ, zero, suc, ◌≡◌, ◌≢◌, ◌<◌, ◌≤◌, ◌+◌, ◌-◌, ◌%◌, ◌^◌, ◌==◌, ◌||◌, refl, ap, sym, ◌∙◌, arith, has,
  ℕ_discrete, update_ne, update_self, subst, ==_ne, ==_refl, Bool-cases, inl, inr,
}
use ukernel_mp.Sched.State.{Kernel}
use ukernel_mp.Sched.Switch.{tick_one, tick_loop}

-- `--tslice`
abbrev pub less : ℕ → ℕ
less n = (n + 2 ^ 32 - 1) % 2 ^ 32

-- From `k` to `g` the slice of CPU `c` has gone down by one, and has ended if it was the last.
abbrev pub IsTicked : Kernel → ℕ → Kernel → Type 0
IsTicked k c g =
    ((g.cpu c).tslice ≡ less (k.cpu c).tslice)
    × (has c g.raised ≡ ((less (k.cpu c).tslice == 0) || has c k.raised))

tick_one-ne :
    (c d : ℕ) (k : Kernel)
    → d ≢ c
    → ((tick_one c k).cpu d ≡ k.cpu d) × (has d (tick_one c k).raised ≡ has d k.raised)
unfolding tick_one
tick_one-ne c d k ne = elim (Bool-cases (less (k.cpu c).tslice == 0)) [
  | inl e ↦ rw (e, ==_ne ne) (refl, refl)
  | inr e ↦ rw e (update_ne k.cpu _ ne, refl)
]

tick_one_self : (c : ℕ) (k : Kernel) → IsTicked k c (tick_one c k)
unfolding tick_one
tick_one_self c k = elim (Bool-cases (less (k.cpu c).tslice == 0)) [
  | inl e ↦ rw (e, ==_refl c) (refl, refl)
  | inr e ↦ rw e (ap (λ r. r.tslice) (update_self k.cpu c _), refl)
]

tick_loop-below :
    (left c d : ℕ) (k : Kernel)
    → d < c
    → ((tick_loop left c k).cpu d ≡ k.cpu d) × (has d (tick_loop left c k).raised ≡ has d k.raised)
unfolding tick_loop
tick_loop-below zero c d k h = (refl, refl)
tick_loop-below (suc left) c d k h =
    let (e, r) = tick_loop-below left (c + 1) d (tick_one c k) (omega arith) in
    let (e', r') = tick_one-ne c d k (omega arith) in (e ∙ e', r ∙ r')

tick_loop-in :
    (left c d : ℕ) (k : Kernel) → c ≤ d → d < c + left → IsTicked k d (tick_loop left c k)
unfolding tick_loop
tick_loop-in zero c d k h lt = absurd (omega arith)
tick_loop-in (suc left) c d k h lt = elim (ℕ_discrete d c) [
  | yes e ↦
      let (e1, r1) = tick_loop-below left (c + 1) c (tick_one c k) (omega arith) in
      let (e2, r2) = tick_one_self c k in
      subst (λ x. IsTicked k x (tick_loop left (c + 1) (tick_one c k))) (sym e)
        (ap (λ r. r.tslice) e1 ∙ e2, r1 ∙ r2)
  | no ne ↦
      let (e1, r1) = tick_loop-in left (c + 1) d (tick_one c k) (omega arith) (omega arith) in
      let (e2, r2) = tick_one-ne c d k ne in
      (e1 ∙ ap (λ r. less r.tslice) e2, r1 ∙ rw (e2, r2) refl)
]

-- On a tick the time slice of every CPU goes down by one, and a scheduler interrupt is raised for
-- it if and only if its slice ends, besides those raised before.
pub tick_loop-slices : (k : Kernel) (c : ℕ) → c < k.cpus → IsTicked k c (tick_loop k.cpus 0 k)
tick_loop-slices k c h = tick_loop-in k.cpus 0 c k (omega arith) (omega arith)
