-- ===== src/Ufs/Calib/Calm.antt =====
-- The calibration steps of src/ufs/ufs-cal-9810.c that cannot fail: those whose tables do not wait for
-- the CDR.
use galaxy_s9plus_mainline_l.Common.{
  ℕ, ◌≡◌, ◌⊎◌, refl, ap, ◌∙◌, true, false, Bool-cases, ◌||◌, List, Option, none, some, ◌==◌, inl,
  inr, arith,
}
use galaxy_s9plus_mainline_l.Platform.Monad.Loop.{Loop}
use galaxy_s9plus_mainline_l.Ufs.{Host, S, PwrMode, CalParam, CalErrno, no_error}
use galaxy_s9plus_mainline_l.Ufs.Tables.{PhyCfg, init_cfg, post_init_cfg, post_h8_enter}
use galaxy_s9plus_mainline_l.Ufs.Match.{slow_mode, slowauto_mode}
use galaxy_s9plus_mainline_l.Ufs.Uic.{config_uic}
use galaxy_s9plus_mainline_l.Ufs.Uic.Brackets.{all_lock_free, any_may_fail, config_uic-Orderly}
use galaxy_s9plus_mainline_l.Ufs.Calib.{
  Step, at_pre_link, at_post_link, at_pre_pmc, at_post_pmc, at_pre_h8_exit, at_post_h8_enter,
  cal_pre_link, cal_post_link, cal_post_h8_enter, step_fn, exynos_ufs_cal, set_up, to_ret,
  pmc_table, calib_hibern8_values, pa_hs_mode_a, pa_hs_mode_b, with_table,
}
use galaxy_s9plus_mainline_l.Ufs.Calib.Series.{cal_pre_pmc_table}

-- A power mode that the calibration has a table for: PWM, or one of the two high-speed series.
abbrev pub HasTable : PwrMode → Type 0
HasTable m = (m.mode ≡ 2) ⊎ ((m.mode ≡ 5) ⊎ ((m.hs_series ≡ 1) ⊎ (m.hs_series ≡ 2)))

-- The steps that cannot fail, and for which power mode.
abbrev pub IsCalm : Step → PwrMode → Type 0
IsCalm at_pre_link m = Unit
IsCalm at_post_link m = Unit
IsCalm at_post_h8_enter m = Unit
IsCalm at_pre_pmc m = HasTable m
IsCalm at_post_pmc m = ⊥
IsCalm at_pre_h8_exit m = ⊥

CalmTable : Option (List PhyCfg) → Type 0
CalmTable none = ⊥
CalmTable (some table) = (all_lock_free table ≡ true) × (any_may_fail table ≡ false)

pmc_table-CalmTable : (m : PwrMode) → HasTable m → CalmTable (pmc_table m)
unfolding pmc_table CalmTable
pmc_table-CalmTable m h = elim (Bool-cases (m.mode == slow_mode || m.mode == slowauto_mode)) [
  | inl slow ↦ rw slow (refl, refl)
  | inr fast ↦ elim (Bool-cases (m.hs_series == pa_hs_mode_b)) [
    | inl b ↦ rw (fast, b) (refl, refl)
    | inr not_b ↦
        let a : (m.hs_series == pa_hs_mode_a) ≡ true = ground arith in
        rw (fast, not_b, a) (refl, refl)
  ]
]

module _ {World : Type 0} (host : Host World) where
  abbrev Fine : Loop (S host) CalErrno → S host → Type 0
  Fine m s = (t : S host) × (m s ≡ some (no_error, t))

  config_uic-Fine :
      (fuel : ℕ) (p : CalParam) (pmd : Option PwrMode) (table : List PhyCfg) (s : S host)
      → all_lock_free table ≡ true
      → any_may_fail table ≡ false
      → Fine (config_uic host fuel p (some table) pmd) s
  config_uic-Fine fuel p pmd table s free calm =
      let (r, run, keeps, ends) = config_uic-Orderly host fuel p pmd table s free in
      let good : r.0 ≡ no_error = rw calm at ends in (r.1, run ∙ ap (λ e. some (e, r.1)) good)

  with_table-Fine :
      (fuel : ℕ) (p : CalParam) (table : Option (List PhyCfg)) (s : S host)
      → CalmTable table
      → Fine (with_table host table λ t. config_uic host fuel p (some t) (some p.pmd)) s
  unfolding CalmTable
  with_table-Fine fuel p none s h = absurd h
  with_table-Fine fuel p (some t) s (free, calm) = config_uic-Fine fuel p (some p.pmd) t s free calm

  step_fn-Fine :
      (step : Step) (fuel : ℕ) (p : CalParam) (s : S host)
      → IsCalm step p.pmd
      → Fine (step_fn host step fuel p) s
  unfolding step_fn cal_pre_link cal_post_link cal_post_h8_enter
  step_fn-Fine at_pre_link fuel p s h = config_uic-Fine fuel p none init_cfg s refl refl
  step_fn-Fine at_post_link fuel p s h =
      config_uic-Fine fuel p none post_init_cfg (calib_hibern8_values host s).1 refl refl
  step_fn-Fine at_post_h8_enter fuel p s h =
      config_uic-Fine fuel p (some p.pmd) post_h8_enter s refl refl
  step_fn-Fine at_pre_pmc fuel p s h =
      let (t, run) = with_table-Fine fuel p (pmc_table p.pmd) s (pmc_table-CalmTable p.pmd h) in
      (t, cal_pre_pmc_table host fuel p s ∙ run)
  step_fn-Fine at_post_pmc fuel p s h = absurd h
  step_fn-Fine at_pre_h8_exit fuel p s h = absurd h

  -- A calm step returns 0 to the driver.
  pub exynos_ufs_cal-Fine :
      (step : Step) (fuel mclk_rate num_rx_lanes : ℕ) (act_pmd : PwrMode) (p : CalParam)
      (s : S host)
      → IsCalm step act_pmd
      → (t : S host) × (exynos_ufs_cal host
            (step_fn host step fuel)
            mclk_rate
            num_rx_lanes
            act_pmd
            p
            s
          ≡ some (none, t))
  unfolding exynos_ufs_cal
  exynos_ufs_cal-Fine step fuel mclk_rate num_rx_lanes act_pmd p s h =
      let (t, run) = step_fn-Fine step fuel (set_up host mclk_rate num_rx_lanes act_pmd p) s h in
      (t, ap (to_ret host) run)
