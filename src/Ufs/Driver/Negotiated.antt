-- ===== src/Ufs/Driver/Negotiated.antt =====
-- The power mode that src/ufs/ufs-exynos9810.c settles on, and the calibration steps that follow from
-- it without fail.
use galaxy_s9plus_mainline_l.Common.{ℕ, ◌%◌, ◌^◌, ◌≤◌, ◌≡◌, refl, ap, none, some, arith}
use galaxy_s9plus_mainline_l.Ufs.{Host}
use galaxy_s9plus_mainline_l.Ufs.Calib.{Step, at_pre_link, at_post_link, at_pre_pmc}
use galaxy_s9plus_mainline_l.Ufs.Calib.Calm.{HasTable, IsCalm, exynos_ufs_cal-Fine}
use galaxy_s9plus_mainline_l.Ufs.Driver.{Headers, PaLayerAttr, pre_change, post_change, D}
use galaxy_s9plus_mainline_l.Ufs.Driver.Hooks.{
  calibrate, calibrated, before_link, link_startup_notify, negotiate_pwr_mode, pwr_change_notify,
  min_u8,
}

min_u8_le : (a b : ℕ) → (min_u8 a b ≤ a) × (min_u8 a b ≤ b) × (min_u8 a b % 2 ^ 8 ≡ min_u8 a b)
min_u8_le a b = ground arith

module _ {World : Type 0} (host : Host World) where
  -- The power mode that the driver settles on is within what ufshcd asks for and within what the
  -- board asks for, in gear and lanes and in both directions, and has the mode and the series of the
  -- board. The driver remembers the same mode for its calibration, but as the numbers of its lanes
  -- those that ufshcd asked for.
  pub negotiate_pwr_mode_lem :
      (desired : PaLayerAttr) (d : D host)
      → let (final, e) = negotiate_pwr_mode host desired d in
        (final.gear_rx ≤ desired.gear_rx)
        × (final.gear_rx ≤ d.req_pmd.gear)
        × (final.lane_rx ≤ desired.lane_rx)
        × (final.lane_rx ≤ d.req_pmd.lane)
        × (final.gear_tx ≤ desired.gear_tx)
        × (final.gear_tx ≤ d.req_pmd.gear)
        × (final.lane_tx ≤ desired.lane_tx)
        × (final.lane_tx ≤ d.req_pmd.lane)
        × (final.pwr_rx ≡ d.req_pmd.mode)
        × (final.pwr_tx ≡ d.req_pmd.mode)
        × (final.hs_rate ≡ d.req_pmd.hs_series)
        × (e.act_pmd.gear ≡ final.gear_rx)
        × (e.act_pmd.lane ≡ final.lane_rx)
        × (e.act_pmd.mode ≡ final.pwr_rx)
        × (e.act_pmd.hs_series ≡ final.hs_rate)
        × (e.num_rx_lanes ≡ desired.lane_rx)
        × (e.num_tx_lanes ≡ desired.lane_tx)
  unfolding negotiate_pwr_mode
  negotiate_pwr_mode_lem desired d =
      let (g1, g2, g3) = min_u8_le desired.gear_rx d.req_pmd.gear in
      let (l1, l2, l3) = min_u8_le desired.lane_rx d.req_pmd.lane in
      let (h1, h2, h3) = min_u8_le desired.gear_tx d.req_pmd.gear in
      let (m1, m2, m3) = min_u8_le desired.lane_tx d.req_pmd.lane in
      (g1, g2, l1, l2, h1, h2, m1, m2, refl, refl, refl, g3, l3, refl, refl, refl, refl)

  calibrate-Fine :
      (step : Step) (fuel : ℕ) (d : D host)
      → IsCalm step d.act_pmd
      → (e : D host) × (calibrate host step fuel d ≡ some (none, e))
  unfolding calibrate
  calibrate-Fine step fuel d h =
      let (t, run) =
        exynos_ufs_cal-Fine host step fuel d.mclk_rate d.num_rx_lanes d.act_pmd d.param d.cal h in
      (_, ap (calibrated host d) run)

  -- Both notifications of the link start-up return 0, and so does the preparation of the power mode
  -- that was settled on, whatever the registers hold, where the board asks for a PWM mode or for one of
  -- the two high-speed series: of the calibration steps, only the end of a power mode change and the
  -- exit from hibernation can fail.
  pub link_and_mode_succeed :
      (h : Headers) (fuel : ℕ) (desired : PaLayerAttr) (d : D host)
      → HasTable d.req_pmd
      → ((e : D host) × (link_startup_notify host h fuel pre_change d ≡ some (none, e)))
        × ((e : D host) × (link_startup_notify host h fuel post_change d ≡ some (none, e)))
        × ((e : D host) × (pwr_change_notify host fuel pre_change
                (negotiate_pwr_mode host desired d).1
              ≡ some (none, e)))
  unfolding link_startup_notify negotiate_pwr_mode pwr_change_notify
  link_and_mode_succeed h fuel desired d table = (
    calibrate-Fine at_pre_link fuel (before_link host h d).1 tt,
    calibrate-Fine at_post_link fuel d tt,
    calibrate-Fine at_pre_pmc fuel (negotiate_pwr_mode host desired d).1 table,
  )
