-- ===== src/Ufs/Uic/Waits.antt =====
-- The time-out of the waits for a lock in src/ufs/ufs-cal-9810.c.
use galaxy_s9plus_mainline_l.Common.{
  ℕ, suc, ◌+◌, ◌%◌, ◌^◌, ◌≤◌, ◌<◌, ◌≡◌, refl, false, Bool-cases, ◌==◌, some, inl, inr, arith,
  bit_and, if◌then◌else◌,
}
use galaxy_s9plus_mainline_l.Ufs.{Host, S, no_error, failed, pma_read, usleep}
use galaxy_s9plus_mainline_l.Ufs.Uic.{lock_rounds, wait_pll_lock, time_left}

-- Before the end of the wait the test for going on does not hold.
early_lem :
    (t0 t1 wait : ℕ)
    → t0 ≤ t1
    → t1 < t0 + wait
    → wait ≤ 9223372036854775808
    → t0 + wait < 18446744073709551616
    → time_left t1 ((t0 + wait) % 2 ^ 64) ≡ false
early_lem t0 t1 wait h0 h1 h2 h3 = ground arith

module _ {World : Type 0} (host : Host World) where
  -- While the lock time-out is not over, the wait for the PLL does not go on: it reads the register
  -- once, and takes a lock that does not show at once for a failure. The hypotheses keep the
  -- jiffies from wrapping and put the first look at the clock before the time-out.
  pub wait_pll_lock_once :
      (fuel addr mask : ℕ) (s : S host)
      → let (reg, t) = pma_read host addr s in
        let u = (usleep host 1 t).1 in
        host.jiffies s.world ≤ host.jiffies u.world
        → host.jiffies u.world < host.jiffies s.world + s.lock_timeout
        → s.lock_timeout ≤ 9223372036854775808
        → host.jiffies s.world + s.lock_timeout < 18446744073709551616
        → wait_pll_lock host (suc fuel) addr mask s
          ≡ some (if mask == bit_and reg mask then (no_error, t) else (failed, u))
  unfolding wait_pll_lock lock_rounds
  wait_pll_lock_once fuel addr mask s h0 h1 h2 h3 =
      let (reg, t) = pma_read host addr s in
      let u = (usleep host 1 t).1 in
      let over =
        early_lem (host.jiffies s.world) (host.jiffies u.world) s.lock_timeout h0 h1 h2 h3 in
      elim (Bool-cases (mask == bit_and reg mask)) [
        | inl locked ↦ rw (wait_pll_lock, lock_rounds, locked) refl
        | inr not_yet ↦ rw (wait_pll_lock, lock_rounds, not_yet, over) refl
      ]
