-- ===== src/Sched/Lowest.antt =====
-- `SchedSortLowPriority` finds the CPU that runs at the lowest priority.
use ukernel_mp.Base.{
  ℕ, zero, suc, ◌≡◌, ◌≢◌, ◌<◌, ◌≤◌, ◌+◌, ◌^◌, ◌==◌, ◌⊎◌, inl, inr, refl, ap, sym, ◌∙◌, subst, arith,
  ltb, Bool-cases, ==_ne, ==_refl, ℕ_discrete,
}
use ukernel_mp.Sched.State.{Kernel}
use ukernel_mp.Sched.Ops.{low_loop, sched_sort_low_priority}

-- `lcpu` and `lprio` name a CPU of the lowest priority, and that priority.
pub record IsLowest (k : Kernel) : Type 0 where
  pub in_range : k.lcpu < k.cpus
  pub attained : k.lprio ≡ (k.cpu k.lcpu).prio
  pub least : (c : ℕ) → c < k.cpus → k.lprio ≤ (k.cpu c).prio

module _ (self : ℕ) (old : Kernel) where
  -- In the loop, at CPU `c`.
  record IsSeen (c : ℕ) (k : Kernel) : Type 0 where
    cpus : k.cpus ≡ old.cpus
    cpu : k.cpu ≡ old.cpu
    in_range : k.lcpu < old.cpus
    source : (k.lprio ≡ (old.cpu k.lcpu).prio) ⊎ ((k.lprio ≡ 0xffff) × (k.lcpu ≡ self))
    least : (d : ℕ) → d < c → k.lprio ≤ (old.cpu d).prio

  IsSeen-lower :
      (c : ℕ) (k : Kernel)
      → c < old.cpus
      → (k.cpu c).prio < k.lprio
      → IsSeen c k
      → IsSeen (c + 1) (record k { lprio = (k.cpu c).prio; lcpu = c })
  IsSeen-lower c k h lt s = record {
    cpus = s.cpus;
    cpu = s.cpu;
    in_range = h;
    source = inl (ap (λ t. (t c).prio) s.cpu);
    least = λ d d_lt. elim (ℕ_discrete d c) [
      | yes e ↦ omega (arith, ap (λ f. (f c).prio) s.cpu, ap (λ x. (old.cpu x).prio) e)
      | no ne ↦ omega (arith, ap (λ f. (f c).prio) s.cpu, s.least d (omega arith))
    ];
  }

  IsSeen-keep : (c : ℕ) (k : Kernel) → k.lprio ≤ (k.cpu c).prio → IsSeen c k → IsSeen (c + 1) k
  IsSeen-keep c k h s = record {
    cpus = s.cpus;
    cpu = s.cpu;
    in_range = s.in_range;
    source = s.source;
    least = λ d d_lt. elim (ℕ_discrete d c) [
      | yes e ↦ omega (arith, ap (λ f. (f c).prio) s.cpu, ap (λ x. (old.cpu x).prio) e)
      | no ne ↦ s.least d (omega arith)
    ];
  }

  low_loop-IsSeen :
      (left c : ℕ) (k : Kernel)
      → left + c ≡ old.cpus
      → IsSeen c k
      → IsSeen old.cpus (low_loop left c k)
  unfolding low_loop
  low_loop-IsSeen zero c k e s = subst (λ n. IsSeen n k) (omega (arith, e)) s
  low_loop-IsSeen (suc left) c k e s = elim (Bool-cases (ltb (k.cpu c).prio k.lprio)) [
    | inl lt ↦ rw lt (
        low_loop-IsSeen left (c + 1) _ (omega arith)
          (IsSeen-lower c k (omega arith) (ground arith) s))
    | inr ge ↦
        rw ge (low_loop-IsSeen left (c + 1) k (omega arith) (IsSeen-keep c k (ground arith) s))
  ]

  IsSeen-IsLowest :
      (k : Kernel) → self < old.cpus → (old.cpu self).prio < 2 ^ 16 → IsSeen old.cpus k → IsLowest k
  IsSeen-IsLowest k h small s = record {
    in_range = omega (arith, s.cpus, s.in_range);
    attained = elim s.source [
      | inl e ↦ e ∙ sym (ap (λ f. (f k.lcpu).prio) s.cpu)
      | inr (e, me) ↦ omega (
        arith,
        e,
        small,
        s.least self h,
        ap (λ c. (old.cpu c).prio) me,
        ap (λ f. (f k.lcpu).prio) s.cpu,
      )
    ];
    least =
        λ c lt. omega (arith, s.least c (omega (arith, lt, s.cpus)), ap (λ f. (f c).prio) s.cpu);
  }

  -- On CPU `self`, with what was recorded in range and, where it is another CPU's, true of that
  -- CPU, `lcpu` and `lprio` are afterwards a CPU of the lowest priority and that priority.
  pub sort_low_priority-IsLowest :
      self < old.cpus
      → old.lcpu < old.cpus
      → (old.cpu self).prio < 2 ^ 16
      → (old.lcpu ≢ self → old.lprio ≡ (old.cpu old.lcpu).prio)
      → IsLowest (sched_sort_low_priority self old)
  unfolding sched_sort_low_priority
  sort_low_priority-IsLowest h range small known = elim (ℕ_discrete old.lcpu self) [
    | yes e ↦ rw (ap (λ x. x == self) e ∙ ==_refl self) (
        IsSeen-IsLowest _ h small (
          low_loop-IsSeen old.cpus 0 (record old { lprio = 0xffff }) (omega arith)
            (record {
              cpus = refl;
              cpu = refl;
              in_range = range;
              source = inr (refl, e);
              least = λ d lt. absurd (omega arith);
            })))
    | no ne ↦ rw (==_ne ne) (
        IsSeen-IsLowest _ h small (
          low_loop-IsSeen old.cpus 0 old (omega arith) (record {
            cpus = refl;
            cpu = refl;
            in_range = range;
            source = inl (known ne);
            least = λ d lt. absurd (omega arith);
          })))
  ]
