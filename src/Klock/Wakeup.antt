-- ===== src/Klock/Wakeup.antt =====
-- No wake-up of `_cpu_hold` is lost: a CPU that sleeps for the lock of kernel/klock.c sleeps only
-- while the lock is taken, or while a CPU that has given it back is about to signal.
use ukernel_mp.Base.{
  ℕ, ◌≡◌, ◌≢◌, ◌⊎◌, inl, inr, ◌<◌, ◌≤◌, refl, sym, ◌∙◌, Bool, true, false, arith, if◌then◌else◌,
  update, Bool-cases, update_ne, update_self, ℕ_discrete, false≢true, subst, ap,
}
use ukernel_mp.Klock.Steps.{
  Klock, klock_free, Op, lock, ensure, unlock, Pc, run, spin, bump, bumped, drop, dropped, release,
  hold, signal, klock_step, call,
}
use ukernel_mp.Klock.System.{System, asleep, events, advance, Step, pick, Reach, here, next}
use ukernel_mp.Klock.Safety.{holds, holds_iff_owner, Reach-Inv}

abbrev pub waits : Pc → Bool
waits hold = true
waits _ = false

abbrev pub signals : Pc → Bool
signals signal = true
signals _ = false

-- What keeps a CPU asleep rightly.
data Reason (n : ℕ) (k : Klock) (pc : ℕ → Pc) : Type 0 where
  taken : k.owner ≢ klock_free → Reason n k pc
  soon : (j : ℕ) → j < n → signals (pc j) ≡ true → Reason n k pc

abbrev IsWoken : ℕ → System → Type 0
IsWoken n s = (i : ℕ) → i < n → waits (s.pc i) ≡ true → s.event i ≡ false → Reason n s.lock s.pc

waits-call : (op : Op) (i : ℕ) (k : Klock) (d : ℕ) → waits (call op i k d) ≡ false
unfolding call
waits-call lock i k d = ground arith
waits-call ensure i k d = ground arith
waits-call unlock i k d = ground arith

module _ (op : Op) (i : ℕ) (k : Klock) where
  -- A CPU goes to sleep only where another has the lock.
  sleeps_taken :
      (p : Pc) → waits (klock_step op i k p).1 ≡ true → (klock_step op i k p).0.owner ≢ klock_free
  unfolding klock_step
  sleeps_taken (run d) h = absurd (false≢true (sym (waits-call op i k d) ∙ h))
  sleeps_taken spin h = ground arith
  sleeps_taken (bump d) h = absurd (false≢true h)
  sleeps_taken (bumped d c) h = absurd (false≢true h)
  sleeps_taken (drop d) h = absurd (false≢true h)
  sleeps_taken (dropped d c) h = ground arith
  sleeps_taken release h = ground arith
  sleeps_taken hold h = absurd (false≢true h)
  sleeps_taken signal h = absurd (false≢true h)

  -- A CPU that gives the lock back is about to signal.
  frees_signals :
      (p : Pc)
      → k.owner ≢ klock_free
      → i ≢ klock_free
      → ((klock_step op i k p).0.owner ≢ klock_free) ⊎ (signals (klock_step op i k p).1 ≡ true)
  unfolding klock_step
  frees_signals (run d) h ne = inl h
  frees_signals spin h ne = ground arith
  frees_signals (bump d) h ne = inl h
  frees_signals (bumped d c) h ne = inl h
  frees_signals (drop d) h ne = inl h
  frees_signals (dropped d c) h ne = inl h
  frees_signals release h ne = ground arith
  frees_signals hold h ne = inl h
  frees_signals signal h ne = inl h

-- The event of another CPU that is not set after a step was not set before, and the step was not
-- one of `_cpus_signal`.
events_other :
    (p : Pc) (i j : ℕ) (e : ℕ → Bool)
    → j ≢ i
    → events p i e j ≡ false
    → (e j ≡ false) × (signals p ≡ false)
unfolding events
events_other hold i j e ne h = (sym (update_ne e false ne) ∙ h, refl)
events_other signal i j e ne h = absurd (false≢true (sym h))
events_other (run d) i j e ne h = (h, refl)
events_other spin i j e ne h = (h, refl)
events_other (bump d) i j e ne h = (h, refl)
events_other (bumped d c) i j e ne h = (h, refl)
events_other (drop d) i j e ne h = (h, refl)
events_other (dropped d c) i j e ne h = (h, refl)
events_other release i j e ne h = (h, refl)

module _ {n : ℕ} (few : n ≤ klock_free) (op : Op) (i : ℕ) (li : i < n) (s : System) where
  abbrev moved : System
  moved = record {
    lock = (klock_step op i s.lock (s.pc i)).0;
    event = events (s.pc i) i s.event;
    pc = update s.pc i (klock_step op i s.lock (s.pc i)).1;
  }

  Reason-moved : signals (s.pc i) ≡ false → Reason n s.lock s.pc → Reason n moved.lock moved.pc
  Reason-moved quiet (taken o) = elim (frees_signals op i s.lock (s.pc i) o (λ e. omega arith)) [
    | inl o' ↦ taken o'
    | inr g ↦ soon i li (rw (update_self s.pc i (klock_step op i s.lock (s.pc i)).1) g)
  ]
  Reason-moved quiet (soon j lj g) = elim (ℕ_discrete j i) [
    | yes e ↦ absurd (false≢true (sym quiet ∙ subst (λ a. signals (s.pc a) ≡ true) e g))
    | no ne ↦ soon j lj (rw (update_ne s.pc (klock_step op i s.lock (s.pc i)).1 ne) g)
  ]

  moved-IsWoken : IsWoken n s → IsWoken n moved
  moved-IsWoken w j lj at off = elim (ℕ_discrete j i) [
    | yes e ↦ taken (
        sleeps_taken op i s.lock (s.pc i) (
          sym (ap waits (update_self s.pc i (klock_step op i s.lock (s.pc i)).1))
          ∙ subst (λ a. waits (moved.pc a) ≡ true) e at))
    | no ne ↦
        let o = events_other (s.pc i) i j s.event ne off in
        let at' = sym (ap waits (update_ne s.pc (klock_step op i s.lock (s.pc i)).1 ne)) ∙ at in
        Reason-moved o.1 (w j lj at' o.0)
  ]

Step-IsWoken : {n : ℕ} {s t : System} → n ≤ klock_free → Step n s t → IsWoken n s → IsWoken n t
unfolding advance
Step-IsWoken {n} {s} few (pick op i li small) w = elim (Bool-cases (asleep (s.pc i) (s.event i))) [
  | inl e ↦ rw e w
  | inr e ↦ rw e (moved-IsWoken few op i li s w)
]

Reach-IsWoken : {n : ℕ} {s : System} → n ≤ klock_free → Reach n s → IsWoken n s
Reach-IsWoken few here = λ i li at off. absurd (false≢true at)
Reach-IsWoken few (next r st) = Step-IsWoken few st (Reach-IsWoken few r)

-- The CPU has the lock, and is about to count.
pub record HasEntered (i : ℕ) (s : System) : Type 0 where
  pub at : s.pc i ≡ bump 0
  pub owner : s.lock.owner ≡ i

spin_enters :
    (op : Op) (i : ℕ) (s : System)
    → s.lock.owner ≡ klock_free
    → s.pc i ≡ spin
    → HasEntered i (advance op i s)
unfolding advance klock_step asleep
spin_enters op i s free at = record {
  at = rw (at, free) (update_self s.pc i _);
  owner = rw (at, free) refl;
}

hold_spins :
    (op : Op) (i : ℕ) (s : System)
    → s.event i ≡ true
    → s.pc i ≡ hold
    → ((advance op i s).pc i ≡ spin) × ((advance op i s).lock ≡ s.lock)
unfolding advance klock_step asleep
hold_spins op i s on at = (rw (at, on) (update_self s.pc i _), rw (at, on) refl)

-- A CPU that sleeps wakes first.
abbrev pub after_wake : Op → ℕ → System → System
after_wake op i s = if waits (s.pc i) then advance op i s else s

-- In a state that some interleaving of fewer than 2 ^ 32 CPUs reaches from a free lock, while
-- none is between acquisition and release or about to signal, a CPU that spins has the lock after
-- its next step, and one that sleeps in `_cpu_hold` wakes with its next step and has the lock
-- after the one that follows.
pub wait_enters :
    {n : ℕ} {s : System}
    → n ≤ klock_free
    → Reach n s
    → ((j : ℕ) → j < n → holds (s.pc j) ≡ false)
    → ((j : ℕ) → j < n → signals (s.pc j) ≡ false)
    → (op : Op) (i : ℕ) → i < n
    → (s.pc i ≡ spin) ⊎ (s.pc i ≡ hold)
    → HasEntered i (advance op i (after_wake op i s))
wait_enters {n} {s} few r idle quiet op i li at =
    let free : s.lock.owner ≡ klock_free = elim (Reach-Inv few r).owned [
      | inl e ↦ e
      | inr lt ↦ absurd (false≢true (sym (idle _ lt) ∙ (holds_iff_owner few r _ lt).1 refl))
    ] in
    elim at [
      | inl at ↦ rw at (spin_enters op i s free at)
      | inr at ↦
          let on : s.event i ≡ true = elim (Bool-cases (s.event i)) [
            | inl e ↦ e
            | inr e ↦ elim (Reach-IsWoken few r i li (ap waits at) e) [
              | taken o ↦ absurd (o free)
              | soon j lj g ↦ absurd (false≢true (sym (quiet j lj) ∙ g))
            ]
          ] in
          let woken = hold_spins op i s on at in
          rw at (spin_enters op i (advance op i s) (ap (λ k. k.owner) woken.1 ∙ free) woken.0)
    ]
