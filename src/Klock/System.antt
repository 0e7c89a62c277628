-- ===== src/Klock/System.antt =====
-- The CPUs of a board over one lock of kernel/klock.c, interleaved in any order. An interrupt, which
-- ends `wfe` too, is left out.
use ukernel_mp.Base.{ℕ, suc, ◌<◌, ◌^◌, Bool, true, false, not, if◌then◌else◌, update}
use ukernel_mp.Klock.Steps.{
  Klock, klock_init, Op, Pc, run, bump, bumped, drop, dropped, hold, signal, klock_step,
}

-- `event` has the event register of each CPU.
pub record System : Type 0 where
  pub lock : Klock
  pub event : ℕ → Bool
  pub pc : ℕ → Pc

-- `_cpu_hold`: `wfe` sleeps until the event register is set.
unfoldable pub asleep : Pc → Bool → Bool
asleep hold e = not e
asleep _ e = false

-- What a step does to the event registers: the end of `wfe` clears that of its CPU, and `sev` of
-- `_cpus_signal` sets them all.
unfoldable pub events : Pc → ℕ → (ℕ → Bool) → (ℕ → Bool)
events hold i e = update e i false
events signal i e = λ _. true
events _ i e = e

abbrev pub depth : Pc → ℕ
depth (run d) = d
depth (bump d) = d
depth (bumped d c) = d
depth (drop d) = d
depth (dropped d c) = d
depth _ = 0

-- A CPU that sleeps stays where it is.
unfoldable pub advance : Op → ℕ → System → System
unfolding klock_step asleep events
advance op i s =
    let r = klock_step op i s.lock (s.pc i) in
    if asleep (s.pc i) (s.event i)
    then s
    else record { lock = r.0; event = events (s.pc i) i s.event; pc = update s.pc i r.1 }

-- No CPU nests its acquisitions so deep that the 32-bit count wraps.
pub data Step (n : ℕ) (s : System) : System → Type 0 where
  pick : (op : Op) (i : ℕ) → i < n → suc (depth (s.pc i)) < 2 ^ 32 → Step n s (advance op i s)

abbrev pub start : System
start = record { lock = klock_init; event = λ _. false; pc = λ _. run 0 }

pub data Reach (n : ℕ) : System → Type 0 where
  here : Reach n start
  next : {s t : System} → Reach n s → Step n s t → Reach n t
