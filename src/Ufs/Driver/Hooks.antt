-- ===== src/Ufs/Driver/Hooks.antt =====
-- The operations of src/ufs/ufs-exynos9810.c that ufshcd calls. The fuel is that of the reset and
-- calibration loops. The driver's own structure is there: before it is, setup_clocks does nothing.
use galaxy_s9plus_mainline_l.Common.{
  ℕ, ◌-◌, ◌%◌, ◌^◌, min, Bool, true, false, ◌&&◌, ◌||◌, Option, none, some, ◌==◌, if◌then◌else◌,
  bit_and, bit_or, Ret,
}
use galaxy_s9plus_mainline_l.Platform.{M, ◌>>=◌, ◌>>◌, pure}
use galaxy_s9plus_mainline_l.Platform.Monad.Loop.{Loop}
use galaxy_s9plus_mainline_l.Ufs.{Host, CalState, PwrMode, vcc, hci_readl, usleep, dme_get}
use galaxy_s9plus_mainline_l.Ufs.Uic.{uic_arg_mib}
use galaxy_s9plus_mainline_l.Ufs.Calib.{
  Step, at_pre_link, at_post_link, at_pre_pmc, at_post_pmc, at_pre_h8_exit, at_post_h8_enter,
  step_fn, set_up, exynos_ufs_cal,
}
use galaxy_s9plus_mainline_l.Ufs.Driver.{
  paint, Headers, PaLayerAttr, Change, pre_change, post_change, Hiber, hiber_enter, hiber_exit,
  Driver, D, on_cal, act, write_hci, ctrl_phy_pwr, ctrl_auto_hci_clk, ctrl_clk, gate_clk,
  set_hwacg_control, select_refclk, set_mclk_rate, dev_hw_reset, host_reset, config_sysreg,
  config_smu, gpio_out, utrl_nexus_type, utmrl_nexus_type,
}

-- The task management functions that the driver knows, and any other.
pub data TaskFunction : Type 0 where
  abort_task query_task abort_task_set clear_task_set logical_reset query_task_set : TaskFunction
  other_function : ℕ → TaskFunction

-- min_t(u8, a, b).
abbrev pub min_u8 : ℕ → ℕ → ℕ
min_u8 a b = min (a % 2 ^ 8) (b % 2 ^ 8)

-- `final` of exynos_ufs_negotiate_pwr_mode.
abbrev pub final_attr : PaLayerAttr → PwrMode → PaLayerAttr
final_attr desired req = record {
  gear_rx = min_u8 desired.gear_rx req.gear;
  gear_tx = min_u8 desired.gear_tx req.gear;
  lane_rx = min_u8 desired.lane_rx req.lane;
  lane_tx = min_u8 desired.lane_tx req.lane;
  pwr_rx = req.mode;
  pwr_tx = req.mode;
  hs_rate = req.hs_series;
}

-- `ufs->act_pmd` after it.
abbrev pub act_of : PaLayerAttr → PwrMode → PwrMode
act_of final req = record {
  lane = final.lane_rx % 2 ^ 8;
  gear = final.gear_rx % 2 ^ 8;
  mode = req.mode;
  hs_series = req.hs_series;
}

abbrev s9p_magenta : ℕ
s9p_magenta = 0xffff00ff

abbrev s9p_blue : ℕ
s9p_blue = 0xff0000ff

module _ {World : Type 0} (host : Host World) where
  abbrev pub calibrated : Driver World → Option (Ret × CalState World) → Option (Ret × Driver World)
  calibrated d none = none
  calibrated d (some (ret, s)) =
      some (
        ret,
        record d { cal = s; param = set_up host d.mclk_rate d.num_rx_lanes d.act_pmd d.param },
      )

  -- exynos_ufs_cal with the fields of the driver.
  unfoldable pub calibrate : Step → ℕ → Loop (D host) Ret
  calibrate step fuel d = calibrated d (
      exynos_ufs_cal host (step_fn host step fuel) d.mclk_rate d.num_rx_lanes d.act_pmd d.param
        d.cal)

  unfoldable pub hce_enable_notify : ℕ → Change → Loop (D host) Ret
  hce_enable_notify fuel pre_change d = host_reset host fuel (paint host s9p_magenta d).1
  hce_enable_notify fuel post_change d = some (none, (paint host s9p_blue d).1)

  abbrev set_lanes : ℕ → ℕ → M (D host) (Unit {0})
  set_lanes rx tx d = (tt, record d { num_rx_lanes = rx; num_tx_lanes = tx })

  -- The lanes are asked for where they are not known yet.
  abbrev pub find_lanes : Headers → M (D host) (Unit {0})
  find_lanes h d =
      if d.num_rx_lanes == 0 || d.num_tx_lanes == 0
      then ((do
        rx ← on_cal host (dme_get host (uic_arg_mib h.pa_availrxdatalanes))
        tx ← on_cal host (dme_get host (uic_arg_mib h.pa_availtxdatalanes))
        set_lanes rx tx)
          d)
      else (tt, d)

  abbrev pub config_intr : ℕ → ℕ → M (D host) (Unit {0})
  config_intr errs reg = write_hci host (bit_or (2 ^ 31) errs) reg

  -- exynos_ufs_link_startup_notify up to the calibration.
  unfoldable pub before_link : Headers → M (D host) (Unit {0})
  before_link h = do
    config_intr h.dl_errs 0x7c
    config_intr h.n_errs 0x80
    config_intr h.t_errs 0x84
    ctrl_clk host true
    select_refclk host true
    gate_clk host false
    set_hwacg_control host false
    find_lanes h
    set_mclk_rate host

  unfoldable pub link_startup_notify : Headers → ℕ → Change → Loop (D host) Ret
  unfolding before_link calibrate
  link_startup_notify h fuel pre_change d = calibrate at_pre_link fuel (before_link h d).1
  link_startup_notify h fuel post_change d = calibrate at_post_link fuel d

  unfoldable pub negotiate_pwr_mode : PaLayerAttr → M (D host) PaLayerAttr
  negotiate_pwr_mode desired d =
      let final = final_attr desired d.req_pmd in
      (
        final,
        record d {
          num_rx_lanes = desired.lane_rx;
          num_tx_lanes = desired.lane_tx;
          act_pmd = act_of final d.req_pmd;
        },
      )

  unfoldable pub pwr_change_notify : ℕ → Change → Loop (D host) Ret
  unfolding calibrate
  pwr_change_notify fuel pre_change d = calibrate at_pre_pmc fuel d
  pwr_change_notify fuel post_change d = calibrate at_post_pmc fuel d

  unfoldable pub setup_clocks : Bool → Change → M (D host) (Unit {0})
  setup_clocks true pre_change = do
    ctrl_auto_hci_clk host false
    gate_clk host false
    set_hwacg_control host false
  setup_clocks true post_change = pure tt
  setup_clocks false pre_change = pure tt
  setup_clocks false post_change = do
    gate_clk host true
    ctrl_auto_hci_clk host true
    set_hwacg_control host true

  abbrev set_tag : Bool → ℕ → ℕ → ℕ
  set_tag true tag type = bit_or type (2 ^ tag)
  set_tag false tag type = bit_and type (2 ^ 32 - 1 - 2 ^ tag)

  -- The statistics it keeps of the segments are left out.
  unfoldable pub setup_xfer_req : ℕ → Bool → M (D host) (Unit {0})
  setup_xfer_req tag is_scsi_cmd = on_cal host (hci_readl host utrl_nexus_type) >>= λ type.
      write_hci host (set_tag is_scsi_cmd tag type) utrl_nexus_type

  abbrev task_type : TaskFunction → ℕ → ℕ → ℕ
  task_type abort_task tag type = set_tag true tag type
  task_type query_task tag type = set_tag true tag type
  task_type abort_task_set tag type = set_tag false tag type
  task_type clear_task_set tag type = set_tag false tag type
  task_type logical_reset tag type = set_tag false tag type
  task_type query_task_set tag type = set_tag false tag type
  task_type (other_function n) tag type = type

  unfoldable pub setup_task_mgmt : ℕ → TaskFunction → M (D host) (Unit {0})
  setup_task_mgmt tag tm_func = on_cal host (hci_readl host utmrl_nexus_type) >>= λ type.
      write_hci host (task_type tm_func tag type) utmrl_nexus_type

  abbrev pub drop_ret : Option (Ret × Driver World) → Option (Unit {0} × Driver World)
  drop_ret none = none
  drop_ret (some (ret, d)) = some (tt, d)

  unfoldable pub hibern8_notify : ℕ → Hiber → Change → Loop (D host) (Unit {0})
  unfolding calibrate
  hibern8_notify fuel hiber_exit pre_change d = drop_ret (calibrate at_pre_h8_exit fuel d)
  hibern8_notify fuel hiber_enter post_change d = drop_ret (calibrate at_post_h8_enter fuel d)
  hibern8_notify fuel hiber_enter pre_change d = some (tt, d)
  hibern8_notify fuel hiber_exit post_change d = some (tt, d)

  unfoldable pub suspend : Change → M (D host) (Unit {0})
  suspend pre_change = pure tt
  suspend post_change = write_hci host 0 gpio_out >> ctrl_phy_pwr host false

  unfoldable pub resume : M (D host) (Unit {0})
  unfolding config_smu
  resume = do
    ctrl_phy_pwr host true
    config_sysreg host
    config_smu host
    ctrl_auto_hci_clk host false

  abbrev cycle_vcc : M (D host) (Unit {0})
  cycle_vcc = do
    act host (vcc false) (host.switch_vcc false)
    on_cal host (usleep host 20000)
    act host (vcc true) (host.switch_vcc true)
    on_cal host (usleep host 20000)

  -- `owned` says that the host has a regulator for VCC.
  unfoldable pub device_reset : Bool → M (D host) (Unit {0})
  unfolding dev_hw_reset
  device_reset owned d =
      if owned && host.vcc_enabled d.cal.world
      then (cycle_vcc >> dev_hw_reset host) d
      else dev_hw_reset host d

  unfoldable pub exit : M (D host) (Unit {0})
  exit = ctrl_phy_pwr host false
