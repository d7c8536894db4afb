-- ===== src/Examples/Storage.antt =====
-- The UFS calibration of src/ufs/ufs-cal-9810.c and its driver src/ufs/ufs-exynos9810.c on a host whose registers read as all ones.
use galaxy_s9plus_mainline_l.Common.{
  ℕ, ◌+◌, ◌*◌, List, pos, negsuc, ◌≡◌, ◌⊎◌, [], ◌∷◌, some, none, refl, arith, true, false, ◌≤◌, inr,
  Ret, etimedout,
}
use galaxy_s9plus_mainline_l.Ufs.{Host, hci, S, PwrMode, CalParam, no_error}
use galaxy_s9plus_mainline_l.Ufs.Tables.{pmd_hs, pre_h8_exit}
use galaxy_s9plus_mainline_l.Ufs.Match.{match_mode}
use galaxy_s9plus_mainline_l.Ufs.Uic.{config_uic}
use galaxy_s9plus_mainline_l.Ufs.Uic.Brackets.{Bracketed}
use galaxy_s9plus_mainline_l.Ufs.Plan.{plan, carry_out}
use galaxy_s9plus_mainline_l.Ufs.Plan.Walk.{config_uic-plan}
use galaxy_s9plus_mainline_l.Ufs.Calib.{
  at_pre_pmc, step_fn, exynos_ufs_cal, cal_pre_pmc, cal_init, cal_post_pmc,
}
use galaxy_s9plus_mainline_l.Ufs.Calib.Steps.{exynos_ufs_cal-Bracketed}
use galaxy_s9plus_mainline_l.Ufs.Driver.{
  Headers, PaLayerAttr, D, pre_change, post_change, host_reset, sw_rst, force_hcs,
}
use galaxy_s9plus_mainline_l.Ufs.Driver.Hooks.{
  negotiate_pwr_mode, link_startup_notify, pwr_change_notify,
}
use galaxy_s9plus_mainline_l.Ufs.Driver.Setup.{
  gate_ufs_embd, ufs_embd, no_clks, find_clks, get_clks, parse_dt,
}
use galaxy_s9plus_mainline_l.Ufs.Driver.Init.{Params, Given, I, init, run_steps, power_phy}
use galaxy_s9plus_mainline_l.Ufs.Driver.Started.{Outcome, init-Outcome}
use galaxy_s9plus_mainline_l.Ufs.Driver.Negotiated.{negotiate_pwr_mode_lem, link_and_mode_succeed}
use galaxy_s9plus_mainline_l.Ufs.Driver.Events.{
  Standard, fatal_err, event_notify, Notified, event_notify-Notified,
}
use galaxy_s9plus_mainline_l.Ufs.Driver.Reset.{Counts, WasReset, host_reset_end}
use galaxy_s9plus_mainline_l.Ufs.Calib.Series.{with_series, cal_pmc_series}

-- The world is the time in microseconds, and a jiffy is 4 ms. Nothing shows a lock.
abbrev storage : Host ℕ
storage = record {
  read_hci = λ a w. (0xffffffff, w);
  write_hci = λ a v w. w;
  read_pma = λ a w. (0, w);
  write_pma = λ a v w. w;
  write_unipro = λ a v w. w;
  set_attr = λ a v w. w;
  set_peer = λ a v w. w;
  get_attr = λ a w. (1, w);
  read_ufsp = λ a w. (0, w);
  write_ufsp = λ a v w. w;
  update_pmu = λ on w. w;
  update_sysreg = λ w. w;
  vcc_enabled = λ w. true;
  map_screen = λ w. (true, w);
  write_screen = λ a v w. w;
  switch_vcc = λ on w. w;
  clk_get_rate = λ w. 166000000;
  elapse = λ us w. w + us;
  jiffies = λ w. w;
  msecs_to_jiffies = λ ms. ms * 1000;
}

-- High speed, gear 3, two lanes, series B; and PWM gear 4.
abbrev fast : PwrMode
fast = record { lane = 2; gear = 3; mode = 1; hs_series = 2 }

abbrev slow : PwrMode
slow = record { lane = 2; gear = 4; mode = 2; hs_series = 0 }

abbrev link : CalParam
link = record { available_lane = 2; target_lane = 2; mclk_rate = 166000000; board = 0; pmd = fast }

abbrev idle : S storage
idle = record { world = 0; log = []; hosts = none ∷ none ∷ []; lock_timeout = 100000 }

-- An entry for the high-speed modes on a link in PWM gear 4.
hs_in_pwm_gear_4 : match_mode slow pmd_hs ≡ no_error
unfolding match_mode
hs_in_pwm_gear_4 = refl

config_uic-plan_example :
    config_uic storage 0 link (some pre_h8_exit) (some fast) idle
    ≡ carry_out storage 0 (plan link (some fast) pre_h8_exit) idle
config_uic-plan_example = config_uic-plan storage 0 link (some fast) pre_h8_exit idle

exynos_ufs_cal-Bracketed_example :
    (r : Ret × S storage) × (exynos_ufs_cal storage
        (step_fn storage at_pre_pmc 0)
        166000000
        2
        fast
        link
        idle
      ≡ some r)
    × (Bracketed [] → Bracketed r.1.log)
exynos_ufs_cal-Bracketed_example =
    exynos_ufs_cal-Bracketed storage at_pre_pmc 0 166000000 2 fast link idle

cal_pmc_series_example :
    (cal_pre_pmc storage 0 (with_series link 1) idle
      ≡ cal_pre_pmc storage 0 (with_series link 2) idle)
    × (cal_post_pmc storage 0 (with_series link 1) idle
        ≡ cal_post_pmc storage 0 (with_series link 2) idle)
cal_pmc_series_example = cal_pmc_series storage 0 link idle

abbrev driver : D storage
driver = record {
  cal = idle;
  param = link;
  hw_rev = 5;
  has_sysreg = true;
  smu_direct = false;
  mclk_rate = 0;
  num_rx_lanes = 2;
  num_tx_lanes = 2;
  req_pmd = fast;
  act_pmd = slow;
}

abbrev wanted : PaLayerAttr
wanted = record {
  gear_rx = 4;
  gear_tx = 4;
  lane_rx = 2;
  lane_tx = 2;
  pwr_rx = 1;
  pwr_tx = 1;
  hs_rate = 2;
}

abbrev headers : Headers
headers = record {
  dl_errs = 0x2020;
  n_errs = 0x7;
  t_errs = 0x17;
  pa_availrxdatalanes = 0x1540;
  pa_availtxdatalanes = 0x1520;
}

negotiate_pwr_mode_lem_example :
    let (final, e) = negotiate_pwr_mode storage wanted driver in
    (final.gear_rx ≤ wanted.gear_rx)
    × (final.gear_rx ≤ driver.req_pmd.gear)
    × (final.lane_rx ≤ wanted.lane_rx)
    × (final.lane_rx ≤ driver.req_pmd.lane)
    × (final.gear_tx ≤ wanted.gear_tx)
    × (final.gear_tx ≤ driver.req_pmd.gear)
    × (final.lane_tx ≤ wanted.lane_tx)
    × (final.lane_tx ≤ driver.req_pmd.lane)
    × (final.pwr_rx ≡ driver.req_pmd.mode)
    × (final.pwr_tx ≡ driver.req_pmd.mode)
    × (final.hs_rate ≡ driver.req_pmd.hs_series)
    × (e.act_pmd.gear ≡ final.gear_rx)
    × (e.act_pmd.lane ≡ final.lane_rx)
    × (e.act_pmd.mode ≡ final.pwr_rx)
    × (e.act_pmd.hs_series ≡ final.hs_rate)
    × (e.num_rx_lanes ≡ wanted.lane_rx)
    × (e.num_tx_lanes ≡ wanted.lane_tx)
negotiate_pwr_mode_lem_example = negotiate_pwr_mode_lem storage wanted driver

link_and_mode_succeed_example :
    ((e : D storage) × (link_startup_notify storage headers 0 pre_change driver ≡ some (none, e)))
    × ((e : D storage) × (link_startup_notify storage headers 0 post_change driver
          ≡ some (none, e)))
    × ((e : D storage) × (pwr_change_notify storage 0 pre_change
            (negotiate_pwr_mode storage wanted driver).1
          ≡ some (none, e)))
link_and_mode_succeed_example =
    link_and_mode_succeed storage headers 0 wanted driver (inr (inr (inr refl)))

-- A host on which each read takes a microsecond and a jiffy is one.
abbrev ticking : Host ℕ
ticking = record storage { read_hci = λ a w. (0xffffffff, w + 1) }

abbrev clock : Counts ticking (λ w. w) 1
clock = record {
  positive = omega arith;
  counts = λ w. omega arith;
  reads = λ a w. omega arith;
  writes = λ a v w. omega arith;
  reads_soon = λ a w. omega arith;
  writes_soon = λ a v w. omega arith;
}

host_reset_end_example :
    (r : Ret × D ticking) × (host_reset ticking 10001 driver ≡ some r)
    × (((r.0 ≡ none) × WasReset ticking (λ w. w) 1 clock r.1)
        ⊎ ((r.0 ≡ some etimedout) × (r.1.cal.log ≡ hci sw_rst 3 ∷ hci force_hcs 0xffffffef ∷ [])))
host_reset_end_example =
    host_reset_end ticking (λ w. w) 1 clock 10000 driver (omega arith) (omega arith)

-- Firmware that accepts every call.
abbrev firmware : ℕ → List ℕ → ℕ → ℕ × ℕ
firmware f args w = (0, w)

abbrev params : Params
params = record {
  fmp_desctype = pos 0;
  smu_direct = false;
  clk_gating = false;
  max_seg_size = 4096;
  max_segments = 0;
  max_sectors = 0;
}

abbrev board : Given
board = record {
  has_ufs = true;
  has_cal = true;
  vs_hci = none;
  unipro = none;
  ufsp = none;
  pma = none;
  dt = record {
    dt_hw_rev = some 5;
    pmu_syscon = none;
    sysreg = some none;
    pmd_attr_lane = some 2;
    pmd_attr_gear = some 3;
  };
  clk_infos =
      record { name = gate_ufs_embd; clk = some 0 } ∷ record { name = ufs_embd; clk = some 1 } ∷ [];
}

abbrev before_init : I storage firmware
before_init = record {
  driver = driver;
  clks = no_clks;
  hba = record {
    has_variant = false;
    gating_caps = false;
    quirks_set = false;
    sg_entry_size = 16;
    max_segment_size = 0;
    dma_seg_size = 0;
    sg_tablesize = 128;
    host_max_sectors = 0;
  };
  fmp_result = negsuc 0;
  sg_entry = 0;
}

-- The start succeeds on this board.
board_starts : (init storage firmware params board before_init).0 ≡ none
unfolding init run_steps parse_dt get_clks find_clks cal_init power_phy
board_starts = refl

init-Outcome_example :
    Outcome storage firmware before_init (init storage firmware params board before_init)
init-Outcome_example = init-Outcome storage firmware params board before_init

abbrev hosted : Standard ℕ
hosted = record {
  registers = 0x34 ∷ 0x30 ∷ [];
  read_standard = λ a w. (0, w);
  read_phy_control = λ w. (0, w);
  has_vcc = true;
  ask_vcc = λ w. w;
}

event_notify-Notified_example :
    Notified storage hosted true fatal_err driver
      (event_notify storage hosted headers true fatal_err (some driver))
event_notify-Notified_example = event_notify-Notified storage hosted headers true fatal_err driver
