-- ===== src/Klock/Safety.antt =====
-- In every reachable state the lock of kernel/klock.c is held by at most one CPU, and its count is
-- the depth to which that CPU has nested its acquisitions.
use ukernel_mp.Base.{
  ℕ, zero, suc, ◌≡◌, ◌≢◌, ◌⊎◌, inl, inr, ◌<◌, ◌≤◌, ◌^◌, refl, sym, ◌∙◌, Bool, true, false, arith,
  update, Bool-cases, update_ne, update_self, ℕ_discrete, false≢true, subst, ◌↔◌,
}
use ukernel_mp.Klock.Steps.{
  Klock, klock_free, klock_init, Op, lock, ensure, unlock, Pc, run, spin, bump, bumped, drop,
  dropped, release, hold, signal, klock_step, call,
}
use ukernel_mp.Klock.System.{System, depth, asleep, events, advance, Step, pick, Reach, here, next}

-- The CPU is between the acquisition of the lock and its release.
abbrev pub holds : Pc → Bool
holds (run zero) = false
holds (run (suc d)) = true
holds spin = false
holds hold = false
holds signal = false
holds _ = true

-- What the lock is when the CPU `i` stands at `p`.
abbrev pub Agrees : Klock → ℕ → Pc → Type 0
Agrees k i (run zero) = k.owner ≢ i
Agrees k i (run (suc d)) = (k.owner ≡ i) × (k.count ≡ suc d)
Agrees k i spin = k.owner ≢ i
Agrees k i hold = k.owner ≢ i
Agrees k i signal = k.owner ≢ i
Agrees k i (bump d) = (k.owner ≡ i) × (k.count ≡ d)
Agrees k i (bumped d c) = (k.owner ≡ i) × (k.count ≡ d) × (c ≡ d)
Agrees k i (drop d) = (k.owner ≡ i) × (k.count ≡ d) × (d ≢ 0)
Agrees k i (dropped d c) = (k.owner ≡ i) × (k.count ≡ d) × (c ≡ d) × (d ≢ 0)
Agrees k i release = (k.owner ≡ i) × (k.count ≡ 0)

Agrees-call :
    (op : Op) (i : ℕ) (k : Klock) (d : ℕ) → Agrees k i (run d) → Agrees k i (call op i k d)
unfolding call
Agrees-call lock i k zero a = ground arith
Agrees-call lock i k (suc d) a = ground arith
Agrees-call ensure i k zero a = ground arith
Agrees-call ensure i k (suc d) a = ground arith
Agrees-call unlock i k zero a = ground arith
Agrees-call unlock i k (suc d) a = ground arith

-- A free lock counts nothing.
abbrev pub IsQuiet : Klock → Type 0
IsQuiet k = k.owner ≡ klock_free → k.count ≡ 0

module _ (op : Op) (i : ℕ) (k : Klock) (lt : i < klock_free) (quiet : IsQuiet k) where
  -- The CPU that moves.
  Agrees-klock_step :
      (p : Pc)
      → suc (depth p) < 2 ^ 32
      → Agrees k i p
      → Agrees (klock_step op i k p).0 i (klock_step op i k p).1
  unfolding klock_step
  Agrees-klock_step (run d) small a = Agrees-call op i k d a
  Agrees-klock_step spin small a = ground arith
  Agrees-klock_step (bump d) small a = ground arith
  Agrees-klock_step (bumped d c) small a = ground arith
  Agrees-klock_step (drop d) small a = ground arith
  Agrees-klock_step (dropped zero c) small a = absurd (a.3 refl)
  Agrees-klock_step (dropped (suc zero) c) small a = ground arith
  Agrees-klock_step (dropped (suc (suc d)) c) small a = ground arith
  Agrees-klock_step release small a = ground arith
  Agrees-klock_step hold small a = a
  Agrees-klock_step signal small a = a

  IsQuiet-klock_step : (p : Pc) → Agrees k i p → IsQuiet (klock_step op i k p).0
  unfolding klock_step
  IsQuiet-klock_step (run d) a = quiet
  IsQuiet-klock_step spin a = ground arith
  IsQuiet-klock_step (bump d) a = quiet
  IsQuiet-klock_step (bumped d c) a = ground arith
  IsQuiet-klock_step (drop d) a = quiet
  IsQuiet-klock_step (dropped d c) a = ground arith
  IsQuiet-klock_step release a = ground arith
  IsQuiet-klock_step hold a = quiet
  IsQuiet-klock_step signal a = quiet

  -- A CPU that holds nothing keeps another's lock from nobody: the step writes to a lock that is
  -- free or its own.
  other-klock_step :
      (p : Pc)
      → Agrees k i p
      → (j : ℕ) → j < klock_free
      → i ≢ j
      → ((klock_step op i k p).0 ≡ k) ⊎ ((k.owner ≢ j) × ((klock_step op i k p).0.owner ≢ j))
  unfolding klock_step
  other-klock_step (run d) a j lj ne = inl refl
  other-klock_step spin a j lj ne = ground arith
  other-klock_step (bump d) a j lj ne = inl refl
  other-klock_step (bumped d c) a j lj ne = inr (ground arith, ground arith)
  other-klock_step (drop d) a j lj ne = inl refl
  other-klock_step (dropped d c) a j lj ne = inr (ground arith, ground arith)
  other-klock_step release a j lj ne = ground arith
  other-klock_step hold a j lj ne = inl refl
  other-klock_step signal a j lj ne = inl refl

  IsOwner-klock_step :
      (p : Pc) (n : ℕ)
      → i < n
      → (k.owner ≡ klock_free) ⊎ (k.owner < n)
      → ((klock_step op i k p).0.owner ≡ klock_free) ⊎ ((klock_step op i k p).0.owner < n)
  unfolding klock_step
  IsOwner-klock_step (run d) n li o = o
  IsOwner-klock_step spin n li o = ground arith
  IsOwner-klock_step (bump d) n li o = o
  IsOwner-klock_step (bumped d c) n li o = o
  IsOwner-klock_step (drop d) n li o = o
  IsOwner-klock_step (dropped d c) n li o = o
  IsOwner-klock_step release n li o = ground arith
  IsOwner-klock_step hold n li o = o
  IsOwner-klock_step signal n li o = o

-- Where the owner is another CPU, the one that stands at `p` holds nothing; and the other way round.
Agrees-move :
    (k k' : Klock) (j : ℕ) (p : Pc) → k.owner ≢ j → k'.owner ≢ j → Agrees k j p → Agrees k' j p
Agrees-move k k' j (run zero) o o' a = o'
Agrees-move k k' j (run (suc d)) o o' a = absurd (o a.0)
Agrees-move k k' j spin o o' a = o'
Agrees-move k k' j hold o o' a = o'
Agrees-move k k' j signal o o' a = o'
Agrees-move k k' j (bump d) o o' a = absurd (o a.0)
Agrees-move k k' j (bumped d c) o o' a = absurd (o a.0)
Agrees-move k k' j (drop d) o o' a = absurd (o a.0)
Agrees-move k k' j (dropped d c) o o' a = absurd (o a.0)
Agrees-move k k' j release o o' a = absurd (o a.0)

owner_of_holds : (k : Klock) (j : ℕ) (p : Pc) → Agrees k j p → holds p ≡ true → k.owner ≡ j
owner_of_holds k j (run zero) a h = absurd (false≢true h)
owner_of_holds k j (run (suc d)) a h = a.0
owner_of_holds k j spin a h = absurd (false≢true h)
owner_of_holds k j hold a h = absurd (false≢true h)
owner_of_holds k j signal a h = absurd (false≢true h)
owner_of_holds k j (bump d) a h = a.0
owner_of_holds k j (bumped d c) a h = a.0
owner_of_holds k j (drop d) a h = a.0
owner_of_holds k j (dropped d c) a h = a.0
owner_of_holds k j release a h = a.0

holds_of_owner : (k : Klock) (j : ℕ) (p : Pc) → Agrees k j p → k.owner ≡ j → holds p ≡ true
holds_of_owner k j (run zero) a h = absurd (a h)
holds_of_owner k j spin a h = absurd (a h)
holds_of_owner k j hold a h = absurd (a h)
holds_of_owner k j signal a h = absurd (a h)
holds_of_owner k j _ a h = refl

-- The invariant of `n` CPUs.
pub record Inv (n : ℕ) (s : System) : Type 0 where
  pub quiet : IsQuiet s.lock
  pub owned : (s.lock.owner ≡ klock_free) ⊎ (s.lock.owner < n)
  pub agrees : (i : ℕ) → i < n → Agrees s.lock i (s.pc i)

-- Where the CPU that moves does not sleep.
moved-Inv :
    {n : ℕ} (op : Op) (i : ℕ) (s : System) (e : ℕ → Bool)
    → n ≤ klock_free
    → i < n
    → suc (depth (s.pc i)) < 2 ^ 32
    → Inv n s
    → Inv n (record {
      lock = (klock_step op i s.lock (s.pc i)).0;
      event = e;
      pc = update s.pc i (klock_step op i s.lock (s.pc i)).1;
    })
moved-Inv {n} op i s e few li small inv = record {
  quiet = IsQuiet-klock_step op i s.lock (omega arith) inv.quiet (s.pc i) (inv.agrees i li);
  owned = IsOwner-klock_step op i s.lock (omega arith) inv.quiet (s.pc i) n li inv.owned;
  agrees = λ j lj. elim (ℕ_discrete j i) [
    | yes e ↦
        rw (e, update_self s.pc i (klock_step op i s.lock (s.pc i)).1)
          (Agrees-klock_step op i s.lock (omega arith) inv.quiet (s.pc i) small (inv.agrees i li))
    | no ne ↦
        rw (update_ne s.pc (klock_step op i s.lock (s.pc i)).1 ne)
          (elim (other-klock_step op i s.lock (omega arith) inv.quiet (s.pc i) (inv.agrees i li) j
            (omega arith) (λ e. ne (sym e))) [
              | inl same ↦ rw same (inv.agrees j lj)
              | inr (o, o') ↦ Agrees-move s.lock _ j (s.pc j) o o' (inv.agrees j lj)
            ])
  ];
}

pub Step-Inv : {n : ℕ} {s t : System} → n ≤ klock_free → Step n s t → Inv n s → Inv n t
unfolding advance
Step-Inv {n} {s} few (pick op i li small) inv = elim (Bool-cases (asleep (s.pc i) (s.event i))) [
  | inl e ↦ rw e inv
  | inr e ↦ rw e (moved-Inv op i s (events (s.pc i) i s.event) few li small inv)
]

pub Reach-Inv : {n : ℕ} {s : System} → n ≤ klock_free → Reach n s → Inv n s
unfolding klock_init
Reach-Inv few here = record { quiet = λ _. refl; owned = inl refl; agrees = λ i li. omega arith }
Reach-Inv few (next r st) = Step-Inv few st (Reach-Inv few r)

-- In a state that some interleaving of fewer than 2 ^ 32 CPUs reaches from a free lock, a CPU is
-- between acquisition and release exactly when the lock names it as the owner.
pub holds_iff_owner :
    {n : ℕ} {s : System}
    → n ≤ klock_free
    → Reach n s
    → (i : ℕ) → i < n
    → (holds (s.pc i) ≡ true) ↔ (s.lock.owner ≡ i)
holds_iff_owner {s} few r i li =
    let a = (Reach-Inv few r).agrees i li in
    (owner_of_holds s.lock i (s.pc i) a, holds_of_owner s.lock i (s.pc i) a)

-- In a state that some interleaving of fewer than 2 ^ 32 CPUs reaches from a free lock, two CPUs
-- are never both between acquisition and release.
pub mutual_exclusion :
    {n : ℕ} {s : System}
    → n ≤ klock_free
    → Reach n s
    → (i j : ℕ) → i < n
    → j < n
    → holds (s.pc i) ≡ true
    → holds (s.pc j) ≡ true
    → i ≡ j
mutual_exclusion few r i j li lj hi hj =
    sym ((holds_iff_owner few r i li).0 hi) ∙ (holds_iff_owner few r j lj).0 hj

-- In a state that some interleaving of fewer than 2 ^ 32 CPUs reaches from a free lock, the count
-- of the lock is the depth to which the CPU that has it, standing outside the functions, has
-- nested its calls.
pub count-eq-depth :
    {n : ℕ} {s : System}
    → n ≤ klock_free
    → Reach n s
    → (i d : ℕ) → i < n
    → s.pc i ≡ run (suc d)
    → s.lock.count ≡ suc d
count-eq-depth {s} few r i d li at = (subst (Agrees s.lock i) at ((Reach-Inv few r).agrees i li)).1
