-- ===== src/Ufs/Calib/Steps.antt =====
-- The calibration steps that src/ufs/ufs-exynos9810.c asks for: they come back, and leave the APB
-- clock of the PHY gated.
use galaxy_s9plus_mainline_l.Common.{
  ℕ, ◌≡◌, refl, true, Bool-cases, ◌&&◌, ◌||◌, List, Option, none, some, ◌==◌, leb, inl, inr, Ret,
  eio,
}
use galaxy_s9plus_mainline_l.Platform.Monad.Loop.{Loop}
use galaxy_s9plus_mainline_l.Ufs.{
  Host, S, PwrMode, CalParam, CalErrno, no_error, timeout, failed, inv_arg, dme_get,
}
use galaxy_s9plus_mainline_l.Ufs.Tables.{
  PhyCfg, init_cfg, post_init_cfg, lane1_sq_off, post_h8_enter, pre_h8_exit,
}
use galaxy_s9plus_mainline_l.Ufs.Match.{slow_mode, slowauto_mode}
use galaxy_s9plus_mainline_l.Ufs.Uic.{config_uic, uic_arg_mib, uic_arg_mib_sel, rx_lane_0}
use galaxy_s9plus_mainline_l.Ufs.Uic.Brackets.{Bracketed, free, all_lock_free, config_uic-Orderly}
use galaxy_s9plus_mainline_l.Ufs.Calib.{
  Step, at_pre_link, at_post_link, at_pre_pmc, at_post_pmc, at_pre_h8_exit, at_post_h8_enter,
  cal_pre_link, cal_post_link, cal_pre_pmc, cal_post_pmc, cal_pre_h8_exit, cal_post_h8_enter,
  step_fn, exynos_ufs_cal, set_up, to_ret, pmc_table, post_pmc_table, calib_hibern8_values,
  pa_hs_mode_a, pa_hs_mode_b, with_table, sq_off, after_sq_off,
}

-- No table of either choice waits for a lock.
abbrev IsLockFree : Option (List PhyCfg) → Type 0
IsLockFree none = Unit
IsLockFree (some table) = all_lock_free table ≡ true

pmc_table-IsLockFree : (pmd : PwrMode) → IsLockFree (pmc_table pmd)
unfolding pmc_table
pmc_table-IsLockFree pmd = elim (Bool-cases (pmd.mode == slow_mode || pmd.mode == slowauto_mode)) [
  | inl slow ↦ rw slow refl
  | inr fast ↦ elim (Bool-cases (pmd.hs_series == pa_hs_mode_b)) [
    | inl b ↦ rw (fast, b) refl
    | inr not_b ↦ elim (Bool-cases (pmd.hs_series == pa_hs_mode_a)) [
      | inl a ↦ rw (fast, not_b, a) refl
      | inr not_a ↦ rw (fast, not_b, not_a) tt
    ]
  ]
]

post_pmc_table-IsLockFree : (pmd : PwrMode) → IsLockFree (post_pmc_table pmd)
unfolding post_pmc_table
post_pmc_table-IsLockFree pmd =
    elim (Bool-cases (pmd.mode == slowauto_mode || pmd.mode == slow_mode)) [
      | inl slow ↦ rw slow refl
      | inr fast ↦ elim (Bool-cases (pmd.hs_series == pa_hs_mode_b)) [
        | inl b ↦ rw (fast, b) refl
        | inr not_b ↦ elim (Bool-cases (pmd.hs_series == pa_hs_mode_a)) [
          | inl a ↦ rw (fast, not_b, a) refl
          | inr not_a ↦ rw (fast, not_b, not_a) tt
        ]
      ]
    ]

module _ {World : Type 0} (host : Host World) where
  -- The run comes back, with the log bracketed if it was.
  abbrev Comes : Loop (S host) CalErrno → S host → Type 0
  Comes m s = (r : CalErrno × S host) × (m s ≡ some r) × (Bracketed s.log → Bracketed r.1.log)

  config_uic-Comes :
      (fuel : ℕ) (p : CalParam) (pmd : Option PwrMode) (table : List PhyCfg) (s : S host)
      → all_lock_free table ≡ true
      → Comes (config_uic host fuel p (some table) pmd) s
  config_uic-Comes fuel p pmd table s h =
      let (r, run, keeps, ends) = config_uic-Orderly host fuel p pmd table s h in (r, run, keeps)

  with_table-Comes :
      (table : Option (List PhyCfg)) (run : List PhyCfg → Loop (S host) CalErrno) (s : S host)
      → IsLockFree table
      → ((t : List PhyCfg) → all_lock_free t ≡ true → Comes (run t) s)
      → Comes (with_table host table run) s
  with_table-Comes none run s h each = (_, refl, λ l. l)
  with_table-Comes (some t) run s h each = each t h

  sq_off-Comes : (fuel : ℕ) (p : CalParam) (s : S host) → Comes (sq_off host fuel p) s
  sq_off-Comes fuel p s = elim (Bool-cases (p.available_lane == 2 && p.target_lane == 1)) [
    | inl one ↦ rw one (config_uic-Comes fuel p none lane1_sq_off s refl)
    | inr all ↦ rw all (_, refl, λ l. l)
  ]

  after_sq_off-Comes :
      (m next : Loop (S host) CalErrno) (s : S host)
      → Comes m s
      → ((t : S host) → Comes next t)
      → Comes (λ t. after_sq_off host (m t) next) s
  after_sq_off-Comes m next s ((e, t), run, keeps) h =
      let (r, go, k) = h t in (r, rw run go, λ b. k (keeps b))

  calib_hibern8_values-Bracketed :
      (s : S host) → Bracketed s.log → Bracketed (calib_hibern8_values host s).1.log
  unfolding calib_hibern8_values
  calib_hibern8_values-Bracketed s b =
      let (hw_cap, t) = dme_get host (uic_arg_mib_sel 0x8f rx_lane_0) s in
      let (peer_cap, u) = dme_get host (uic_arg_mib 0x15a8) t in
      let seen = free tt (free tt (free tt b)) in
      elim (Bool-cases (leb hw_cap peer_cap)) [
        | inl longer ↦ rw longer (free tt (free tt seen))
        | inr shorter ↦ rw shorter (free tt seen)
      ]

  step_fn-Comes :
      (step : Step) (fuel : ℕ) (p : CalParam) (s : S host) → Comes (step_fn host step fuel p) s
  unfolding step_fn cal_pre_link cal_post_link cal_pre_pmc cal_post_pmc cal_pre_h8_exit
      cal_post_h8_enter
  step_fn-Comes at_pre_link fuel p s = config_uic-Comes fuel p none init_cfg s refl
  step_fn-Comes at_post_link fuel p s =
      let t = (calib_hibern8_values host s).1 in
      let (r, run, keeps) = config_uic-Comes fuel p none post_init_cfg t refl in
      (r, run, λ b. keeps (calib_hibern8_values-Bracketed s b))
  step_fn-Comes at_pre_pmc fuel p s =
      with_table-Comes (pmc_table p.pmd)
        (λ table t.
          after_sq_off host (sq_off host fuel p t)
            (config_uic host fuel p (some table) (some p.pmd)))
        s (pmc_table-IsLockFree p.pmd)
        (λ table h.
          after_sq_off-Comes (sq_off host fuel p) (config_uic host fuel p (some table) (some p.pmd))
            s (sq_off-Comes fuel p s) (λ t. config_uic-Comes fuel p (some p.pmd) table t h))
  step_fn-Comes at_post_pmc fuel p s =
      with_table-Comes (post_pmc_table p.pmd)
        (λ table. config_uic host fuel p (some table) (some p.pmd)) s
        (post_pmc_table-IsLockFree p.pmd)
        (λ table h. config_uic-Comes fuel p (some p.pmd) table s h)
  step_fn-Comes at_pre_h8_exit fuel p s = config_uic-Comes fuel p (some p.pmd) pre_h8_exit s refl
  step_fn-Comes at_post_h8_enter fuel p s =
      config_uic-Comes fuel p (some p.pmd) post_h8_enter s refl

  -- Every calibration step that the driver asks for comes back, whatever the host answers and with
  -- any fuel, since no table waits for a lock; and if before it each access to the PHY stood
  -- between starting the APB clock and stopping it, and nothing else wrote to the HCI, that is so
  -- after it, error or not.
  pub exynos_ufs_cal-Bracketed :
      (step : Step) (fuel mclk_rate num_rx_lanes : ℕ) (act_pmd : PwrMode) (p : CalParam)
      (s : S host)
      → (r : Ret × S host) × (exynos_ufs_cal host
            (step_fn host step fuel)
            mclk_rate
            num_rx_lanes
            act_pmd
            p
            s
          ≡ some r)
        × (Bracketed s.log → Bracketed r.1.log)
  unfolding exynos_ufs_cal
  exynos_ufs_cal-Bracketed step fuel mclk_rate num_rx_lanes act_pmd p s =
      to_ret_lem (step_fn host step fuel (set_up host mclk_rate num_rx_lanes act_pmd p)) s
        (step_fn-Comes step fuel (set_up host mclk_rate num_rx_lanes act_pmd p) s)
    where
      to_ret_lem :
          (m : Loop (S host) CalErrno) (t : S host)
          → Comes m t
          → (r : Ret × S host) × (to_ret host (m t) ≡ some r)
            × (Bracketed t.log → Bracketed r.1.log)
      to_ret_lem m t ((no_error, u), run, keeps) = ((none, u), rw run refl, keeps)
      to_ret_lem m t ((timeout, u), run, keeps) = ((some eio, u), rw run refl, keeps)
      to_ret_lem m t ((failed, u), run, keeps) = ((some eio, u), rw run refl, keeps)
      to_ret_lem m t ((inv_arg, u), run, keeps) = ((some eio, u), rw run refl, keeps)
