-- ===== src/Ufs/Calib.antt =====
-- The entry points of src/ufs/ufs-cal-9810.c, and exynos_ufs_cal of src/ufs/ufs-exynos9810.c that
-- calls them.
pub mod Steps
pub mod Series
pub mod Calm
use galaxy_s9plus_mainline_l.Common.{
  ℕ, zero, suc, ◌+◌, ◌%◌, ◌^◌, ◌||◌, ◌&&◌, List, [], ◌∷◌, Option, none, some, ◌==◌, leb,
  if◌then◌else◌, Ret, eio,
}
use galaxy_s9plus_mainline_l.Platform.{M, ◌>>=◌, ◌>>◌, pure}
use galaxy_s9plus_mainline_l.Platform.Monad.Loop.{Loop}
use galaxy_s9plus_mainline_l.Ufs.{
  Host, S, PwrMode, CalParam, CalErrno, no_error, timeout, failed, inv_arg, dme_set, dme_get,
  dme_peer_set, calc_timeout,
}
use galaxy_s9plus_mainline_l.Ufs.Tables.{
  PhyCfg, init_cfg, post_init_cfg, calib_of_pwm, post_calib_of_pwm, calib_of_hs_rate_a,
  calib_of_hs_rate_b, post_calib_of_hs_rate_a, post_calib_of_hs_rate_b, lane1_sq_off, post_h8_enter,
  pre_h8_exit,
}
use galaxy_s9plus_mainline_l.Ufs.Match.{slow_mode, slowauto_mode}
use galaxy_s9plus_mainline_l.Ufs.Uic.{uic_arg_mib, uic_arg_mib_sel, rx_lane_0, config_uic}

abbrev pub pa_hs_mode_a : ℕ
pa_hs_mode_a = 1

abbrev pub pa_hs_mode_b : ℕ
pa_hs_mode_b = 2

abbrev pub num_of_ufs_host : ℕ
num_of_ufs_host = 2

-- The table for the mode that is asked for.
unfoldable pub pmc_table : PwrMode → Option (List PhyCfg)
pmc_table pmd =
    if pmd.mode == slow_mode || pmd.mode == slowauto_mode
    then some calib_of_pwm
    else if pmd.hs_series == pa_hs_mode_b
    then some calib_of_hs_rate_b
    else if pmd.hs_series == pa_hs_mode_a
    then some calib_of_hs_rate_a
    else none

unfoldable pub post_pmc_table : PwrMode → Option (List PhyCfg)
post_pmc_table pmd =
    if pmd.mode == slowauto_mode || pmd.mode == slow_mode
    then some post_calib_of_pwm
    else if pmd.hs_series == pa_hs_mode_b
    then some post_calib_of_hs_rate_b
    else if pmd.hs_series == pa_hs_mode_a
    then some post_calib_of_hs_rate_a
    else none

-- `ufs_cal[idx] = p` for an index inside the array.
abbrev pub put_at : List (Option CalParam) → ℕ → CalParam → List (Option CalParam)
put_at [] idx p = []
put_at (x ∷ xs) zero p = some p ∷ xs
put_at (x ∷ xs) (suc idx) p = x ∷ put_at xs idx p

pub data Step : Type 0 where
  at_pre_link at_post_link at_pre_pmc at_post_pmc at_pre_h8_exit at_post_h8_enter : Step

module _ {World : Type 0} (host : Host World) where
  abbrev pub set_peer_time : ℕ → ℕ → M (S host) (Unit {0})
  set_peer_time peer_cap hw_cap s =
      if leb hw_cap peer_cap
      then dme_peer_set host (uic_arg_mib 0x15a8) ((peer_cap + 1) % 2 ^ 32) s
      else (tt, s)

  unfoldable pub calib_hibern8_values : M (S host) (Unit {0})
  calib_hibern8_values = dme_get host (uic_arg_mib_sel 0x8f rx_lane_0) >>= λ hw_cap_min_tactivate.
      dme_get host (uic_arg_mib 0x15a8) >>= λ peer_rx_min_actv_time_cap.
      dme_get host (uic_arg_mib 0x15a7) >>= λ max_rx_hibern8_time_cap.
      set_peer_time peer_rx_min_actv_time_cap hw_cap_min_tactivate
      >> dme_set host (uic_arg_mib 0x15a7) ((max_rx_hibern8_time_cap + 1) % 2 ^ 32)

  unfoldable pub cal_post_h8_enter : ℕ → CalParam → Loop (S host) CalErrno
  cal_post_h8_enter fuel p = config_uic host fuel p (some post_h8_enter) (some p.pmd)

  unfoldable pub cal_pre_h8_exit : ℕ → CalParam → Loop (S host) CalErrno
  cal_pre_h8_exit fuel p = config_uic host fuel p (some pre_h8_exit) (some p.pmd)

  -- The result of the table for lane 1 is dropped.
  abbrev pub after_sq_off :
      Option (CalErrno × S host) → Loop (S host) CalErrno → Option (CalErrno × S host)
  after_sq_off none next = none
  after_sq_off (some (ret, s)) next = next s

  abbrev pub sq_off : ℕ → CalParam → Loop (S host) CalErrno
  sq_off fuel p s =
      if p.available_lane == 2 && p.target_lane == 1
      then config_uic host fuel p (some lane1_sq_off) none s
      else some (no_error, s)

  abbrev pub with_table :
      Option (List PhyCfg) → (List PhyCfg → Loop (S host) CalErrno) → Loop (S host) CalErrno
  with_table none run s = some (inv_arg, s)
  with_table (some table) run s = run table s

  unfoldable pub cal_pre_pmc : ℕ → CalParam → Loop (S host) CalErrno
  cal_pre_pmc fuel p =
      with_table (pmc_table p.pmd)
        λ table s. after_sq_off (sq_off fuel p s) (config_uic host fuel p (some table) (some p.pmd))

  unfoldable pub cal_post_pmc : ℕ → CalParam → Loop (S host) CalErrno
  cal_post_pmc fuel p =
      with_table (post_pmc_table p.pmd) λ table. config_uic host fuel p (some table) (some p.pmd)

  unfoldable pub cal_post_link : ℕ → CalParam → Loop (S host) CalErrno
  cal_post_link fuel p s =
      config_uic host fuel p (some post_init_cfg) none (calib_hibern8_values s).1

  unfoldable pub cal_pre_link : ℕ → CalParam → Loop (S host) CalErrno
  cal_pre_link fuel p = config_uic host fuel p (some init_cfg) none

  unfoldable pub cal_init : CalParam → ℕ → M (S host) CalErrno
  cal_init p idx s = if leb num_of_ufs_host idx then (inv_arg, s) else (
    no_error,
    record s { hosts = put_at s.hosts idx p; lock_timeout = calc_timeout host 100 },
  )

  -- The steps that the driver hands to exynos_ufs_cal.
  unfoldable pub step_fn : Step → ℕ → CalParam → Loop (S host) CalErrno
  step_fn at_pre_link = cal_pre_link
  step_fn at_post_link = cal_post_link
  step_fn at_pre_pmc = cal_pre_pmc
  step_fn at_post_pmc = cal_post_pmc
  step_fn at_pre_h8_exit = cal_pre_h8_exit
  step_fn at_post_h8_enter = cal_post_h8_enter

  -- The driver's view of a calibration step: what it sets up, and the error it returns.
  abbrev pub set_up : ℕ → ℕ → PwrMode → CalParam → CalParam
  set_up mclk_rate num_rx_lanes act_pmd p = record p {
    mclk_rate = mclk_rate;
    target_lane = num_rx_lanes % 2 ^ 8;
    available_lane = num_rx_lanes % 2 ^ 8;
    pmd = act_pmd;
  }

  abbrev pub to_ret : Option (CalErrno × S host) → Option (Ret × S host)
  to_ret none = none
  to_ret (some (no_error, s)) = some (none, s)
  to_ret (some (timeout, s)) = some (some eio, s)
  to_ret (some (failed, s)) = some (some eio, s)
  to_ret (some (inv_arg, s)) = some (some eio, s)

  unfoldable pub exynos_ufs_cal :
      (CalParam → Loop (S host) CalErrno) → ℕ → ℕ → PwrMode → CalParam → Loop (S host) Ret
  exynos_ufs_cal fn mclk_rate num_rx_lanes act_pmd p s =
      to_ret (fn (set_up mclk_rate num_rx_lanes act_pmd p) s)
