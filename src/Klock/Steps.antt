-- ===== src/Klock/Steps.antt =====
-- kernel/klock.c, one access to the shared lock at a time, with `_cpu_hold` and `_cpus_signal` of
-- arch/arm/arch.c as steps of their own. `critical_lock` and `critical_unlock`
-- touch only the interrupt mask of the CPU that runs them, and are left out.
use ukernel_mp.Base.{ℕ, suc, ◌+◌, ◌-◌, ◌%◌, ◌^◌, ◌==◌, if◌then◌else◌}

-- `KLOCK_FREE`
abbrev pub klock_free : ℕ
klock_free = 2 ^ 32 - 1

pub record Klock : Type 0 where
  pub count : ℕ
  pub owner : ℕ

unfoldable pub klock_init : Klock
klock_init = record { count = 0; owner = klock_free }

-- What a CPU calls next.
pub data Op : Type 0 where
  lock ensure unlock : Op

-- Where a CPU stands. `depth` is the number of its acquisitions that it has not given back.
pub data Pc : Type 0 where
  run : (depth : ℕ) → Pc  -- outside of klock.c
  spin : Pc  -- the loops of `Klock` and `KlockEnsure`
  bump : (depth : ℕ) → Pc  -- before `lock->count++`
  bumped : (depth c : ℕ) → Pc  -- with the old count read
  drop : (depth : ℕ) → Pc  -- before `--lock->count`
  dropped : (depth c : ℕ) → Pc  -- with the old count read
  release : Pc  -- the loop of `Kunlock`
  hold : Pc  -- in `_cpu_hold`
  signal : Pc  -- before `_cpus_signal`

-- `Klock`, `Kunlock` and `KlockEnsure` up to their first access.
unfoldable pub call : Op → ℕ → Klock → ℕ → Pc
call lock cpu k depth = if k.owner == cpu then bump depth else spin
call ensure cpu k depth = if k.owner == cpu then run depth else spin
call unlock cpu k depth = if k.owner == cpu then drop depth else run depth

-- One step of the CPU `cpu`, which calls `op` if it stands outside. A CPU in `_cpu_hold` makes its
-- step only when `System` lets it wake.
unfoldable pub klock_step : Op → ℕ → Klock → Pc → Klock × Pc
unfolding call
klock_step op cpu k (run depth) = (k, call op cpu k depth)
klock_step op cpu k spin =
    if k.owner == klock_free then (record k { owner = cpu }, bump 0) else (k, hold)
klock_step op cpu k (bump depth) = (k, bumped depth k.count)
klock_step op cpu k (bumped depth c) = (record k { count = (c + 1) % 2 ^ 32 }, run (suc depth))
klock_step op cpu k (drop depth) = (k, dropped depth k.count)
klock_step op cpu k (dropped depth c) =
    let left = (c + 2 ^ 32 - 1) % 2 ^ 32 in
    (record k { count = left }, if left == 0 then release else run (depth - 1))
klock_step op cpu k release =
    if k.owner == cpu then (record k { owner = klock_free }, signal) else (k, release)
klock_step op cpu k hold = (k, spin)
klock_step op cpu k signal = (k, run 0)
