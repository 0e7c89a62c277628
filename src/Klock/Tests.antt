-- ===== src/Klock/Tests.antt =====
-- The theorems on kernel/klock.c in states that two CPUs reach.
use ukernel_mp.Base.{inr, ℕ, zero, suc, ◌≡◌, ◌<◌, refl, true, false, arith}
use ukernel_mp.Klock.Steps.{klock_init, lock, unlock, run, hold}
use ukernel_mp.Klock.System.{System, advance, pick, start, Reach, here, next}
use ukernel_mp.Klock.Safety.{holds, mutual_exclusion, count-eq-depth}
use ukernel_mp.Klock.Wakeup.{signals, after_wake, HasEntered, wait_enters}

-- One step from the start: the lock is free, so the CPU 0 goes to the loop.
abbrev called : System
called = advance lock 0 start

called-Reach : Reach 2 called
unfolding advance
called-Reach = next here (pick lock 0 (omega arith) (omega arith))

-- CPU 0 has the lock, and waits to count.
abbrev entered : System
entered = advance lock 0 called

entered-Reach : Reach 2 entered
unfolding advance klock_init
entered-Reach = next called-Reach (pick lock 0 (omega arith) (omega arith))

abbrev counted : System
counted = advance lock 0 (advance lock 0 entered)

counted-Reach : Reach 2 counted
unfolding advance klock_init
counted-Reach =
    next (next entered-Reach (pick lock 0 (omega arith) (omega arith)))
      (pick lock 0 (omega arith) (omega arith))

entered_holds : holds (entered.pc 0) ≡ true
unfolding advance klock_init
entered_holds = refl

counted_runs : counted.pc 0 ≡ run 1
unfolding advance klock_init
counted_runs = refl

mutual_exclusion_example : ◌≡◌ {A = ℕ} 0 0
mutual_exclusion_example =
    mutual_exclusion (omega arith) entered-Reach 0 0 (omega arith) (omega arith) entered_holds
      entered_holds

count-eq-depth_example : counted.lock.count ≡ 1
count-eq-depth_example = count-eq-depth (omega arith) counted-Reach 0 0 (omega arith) counted_runs

-- CPU 1 has found the lock taken, and sleeps.
abbrev waiting : System
waiting = advance lock 1 (advance lock 1 counted)

waiting-Reach : Reach 2 waiting
unfolding advance klock_init
waiting-Reach =
    next (next counted-Reach (pick lock 1 (omega arith) (omega arith)))
      (pick lock 1 (omega arith) (omega arith))

waiting_sleeps : (waiting.pc 1 ≡ hold) × ((advance lock 1 waiting).pc 1 ≡ hold)
unfolding advance klock_init
waiting_sleeps = (refl, refl)

-- CPU 0 gives the lock back.
abbrev given_back : System
given_back = advance unlock 0 (advance unlock 0 (advance unlock 0 (advance unlock 0 waiting)))

given_back-Reach : Reach 2 given_back
unfolding advance klock_init
given_back-Reach =
    next
      (next
        (next (next waiting-Reach (pick unlock 0 (omega arith) (omega arith)))
          (pick unlock 0 (omega arith) (omega arith)))
        (pick unlock 0 (omega arith) (omega arith)))
      (pick unlock 0 (omega arith) (omega arith))

-- And signals.
abbrev signalled : System
signalled = advance unlock 0 given_back

signalled-Reach : Reach 2 signalled
unfolding advance klock_init
signalled-Reach = next given_back-Reach (pick unlock 0 (omega arith) (omega arith))

signalled_sleeps : signalled.pc 1 ≡ hold
unfolding advance klock_init
signalled_sleeps = refl

signalled_idle : (j : ℕ) → j < 2 → holds (signalled.pc j) ≡ false
unfolding advance klock_init
signalled_idle zero h = refl
signalled_idle (suc zero) h = refl
signalled_idle (suc (suc j)) h = absurd (omega arith)

signalled_quiet : (j : ℕ) → j < 2 → signals (signalled.pc j) ≡ false
unfolding advance klock_init
signalled_quiet zero h = refl
signalled_quiet (suc zero) h = refl
signalled_quiet (suc (suc j)) h = absurd (omega arith)

wait_enters_example : HasEntered 1 (advance lock 1 (after_wake lock 1 signalled))
wait_enters_example =
    wait_enters (omega arith) signalled-Reach signalled_idle signalled_quiet lock 1 (omega arith)
      (inr signalled_sleeps)
