-- ===== src/Ufs/Driver.antt =====
-- The host driver of src/ufs/ufs-exynos9810.c around the calibration: the reset of the controller and
-- of the device, the clocks, the link start-up, the power mode, hibernation and suspend. The state
-- holds that of the calibration code. What the driver prints is left out.
pub mod Hooks
pub mod Negotiated
pub mod Reset
pub mod Setup
pub mod Init
pub mod Started
pub mod Events
use galaxy_s9plus_mainline_l.Common.{
  ℕ, zero, suc, ◌+◌, ◌-◌, ◌*◌, ◌/◌, ◌%◌, ◌^◌, min, Bool, true, false, not, ◌&&◌, ◌||◌, List, ◌∷◌,
  Option, none, some, ◌==◌, ltb, if◌then◌else◌, bit_and, bit_or, Ret, etimedout,
}
use galaxy_s9plus_mainline_l.Platform.{M, ◌>>=◌, ◌>>◌, pure}
use galaxy_s9plus_mainline_l.Platform.Monad.Loop.{Loop}
use galaxy_s9plus_mainline_l.Ufs.{
  Host, CalState, PwrMode, CalParam, Access, ufsp, phy_power, coherency, vcc, pixel, hci_readl,
  hci_writel, usleep, dme_get, clkstop_ctrl,
}
use galaxy_s9plus_mainline_l.Ufs.Uic.{uic_arg_mib, time_left}
use galaxy_s9plus_mainline_l.Ufs.Calib.{
  Step, at_pre_link, at_post_link, at_pre_pmc, at_post_pmc, at_pre_h8_exit, at_post_h8_enter,
  step_fn, exynos_ufs_cal,
}

abbrev pub force_hcs : ℕ
force_hcs = 0xb4

abbrev pub gpio_out : ℕ
gpio_out = 0x70

abbrev pub sw_rst : ℕ
sw_rst = 0x50

abbrev pub utrl_nexus_type : ℕ
utrl_nexus_type = 0x40

abbrev pub utmrl_nexus_type : ℕ
utmrl_nexus_type = 0x44

-- The constants of the kernel's UFS headers that the driver uses.
pub record Headers : Type 0 where
  pub dl_errs : ℕ
  pub n_errs : ℕ
  pub t_errs : ℕ
  pub pa_availrxdatalanes : ℕ
  pub pa_availtxdatalanes : ℕ

-- struct ufs_pa_layer_attr.
pub record PaLayerAttr : Type 0 where
  pub gear_rx : ℕ
  pub gear_tx : ℕ
  pub lane_rx : ℕ
  pub lane_tx : ℕ
  pub pwr_rx : ℕ
  pub pwr_tx : ℕ
  pub hs_rate : ℕ

pub data Change : Type 0 where
  pre_change post_change : Change

-- UIC_CMD_DME_HIBER_ENTER and UIC_CMD_DME_HIBER_EXIT.
pub data Hiber : Type 0 where
  hiber_enter hiber_exit : Hiber

-- The fields of struct exynos9810_ufs that change or are looked at, and the module parameter `smu`;
-- `cal` is the state that the calibration code works on, `param` what `ufs->cal` points to.
pub record Driver (World : Type 0) : Type 0 where
  pub cal : CalState World
  pub param : CalParam
  pub hw_rev : ℕ
  pub has_sysreg : Bool
  pub smu_direct : Bool
  pub mclk_rate : ℕ
  pub num_rx_lanes : ℕ
  pub num_tx_lanes : ℕ
  pub req_pmd : PwrMode
  pub act_pmd : PwrMode

module _ {World : Type 0} (host : Host World) where
  abbrev pub D : Type 0
  D = Driver World

  -- What the driver does to the machine.
  abbrev pub on_cal : {A : Type 0} → M (CalState World) A → M D A
  on_cal m d = let (a, s) = m d.cal in (a, record d { cal = s })

  abbrev act : Access → (World → World) → M D (Unit {0})
  act a f d = (tt, record d { cal = record (d.cal) { world = f d.cal.world; log = a ∷ d.cal.log } })

  -- The loop of s9p_step, for the pixels that are left.
  unfoldable pub paint_from : ℕ → ℕ → ℕ → M D (Unit {0})
  paint_from colour off zero d = (tt, d)
  paint_from colour off (suc n) d =
      paint_from colour (off + 4) n (act (pixel off colour) (host.write_screen off colour) d).1

  unfoldable pub paint_block : Bool → ℕ → ℕ → M D (Unit {0})
  unfolding paint_from
  paint_block true colour n d = paint_from colour 0 n d
  paint_block false colour n d = (tt, d)

  -- s9p_step paints 60 rows of 1440 pixels, if they can be mapped.
  unfoldable pub paint : ℕ → M D (Unit {0})
  unfolding paint_block
  paint colour d =
      let (there, w) = host.map_screen d.cal.world in
      let t = record d { cal = record (d.cal) { world = w } } in
      paint_block there colour (60 * 1440) t

  -- `reg | mask` with `en`, `reg & ~mask` without.
  abbrev with_bits : Bool → ℕ → ℕ → ℕ
  with_bits en mask reg = if en then bit_or reg mask else bit_and reg (2 ^ 32 - 1 - mask)

  abbrev pub update_hci : ℕ → Bool → ℕ → M D (Unit {0})
  update_hci a en mask =
      on_cal (hci_readl host a) >>= λ reg. on_cal (hci_writel host (with_bits en mask reg) a)

  abbrev pub write_hci : ℕ → ℕ → M D (Unit {0})
  write_hci v a = on_cal (hci_writel host v a)

  abbrev pub ctrl_phy_pwr : Bool → M D (Unit {0})
  ctrl_phy_pwr en = act (phy_power en) (host.update_pmu en)

  abbrev pub ctrl_auto_hci_clk : Bool → M D (Unit {0})
  ctrl_auto_hci_clk en = update_hci force_hcs en (2 ^ 4)

  abbrev pub ctrl_clk : Bool → M D (Unit {0})
  ctrl_clk en = update_hci force_hcs en (2 ^ 8 + 2 ^ 10 + 2 ^ 11 + 2 ^ 7 + 2 ^ 6 + 2 ^ 5)

  abbrev pub gate_clk : Bool → M D (Unit {0})
  gate_clk en = update_hci clkstop_ctrl en (2 ^ 4 + 2 ^ 2 + 2 ^ 1 + 2 ^ 0)

  abbrev pub set_hwacg_control : Bool → M D (Unit {0})
  set_hwacg_control en d =
      if d.hw_rev == 4 || d.hw_rev == 5 then update_hci 0xfc (not en) (2 ^ 0) d else (tt, d)

  abbrev pub select_refclk : Bool → M D (Unit {0})
  select_refclk en d = if d.hw_rev == 4 then update_hci 0x108 en (2 ^ 0) d else (tt, d)

  abbrev pub set_mclk_rate : M D (Unit {0})
  set_mclk_rate d = (tt, record d { mclk_rate = host.clk_get_rate d.cal.world % 2 ^ 32 })

  abbrev pub fit_aggr_timeout : M D (Unit {0})
  fit_aggr_timeout =
      update_hci 0x8c true (2 ^ 16)
      >> (λ d. write_hci (bit_and (d.mclk_rate / 1000000) 0x3ff) 0x0c d)

  unfoldable pub init_host : M D (Unit {0})
  init_host = do
    ctrl_auto_hci_clk false
    set_mclk_rate
    fit_aggr_timeout
    write_hci 0xa 0x60
    write_hci (2 ^ 31 + 12) 0x00
    write_hci 12 0x04
    write_hci 0xffffffff utrl_nexus_type
    write_hci 0xffffffff utmrl_nexus_type
    write_hci (2 ^ 31 + 3 * 2 ^ 27 + 3) 0x6c
    update_hci 0x100 false (2 ^ 0)

  unfoldable pub dev_hw_reset : M D (Unit {0})
  dev_hw_reset = do
    write_hci 0 gpio_out
    on_cal (usleep host 10000)
    write_hci 1 gpio_out
    on_cal (usleep host 20000)

  abbrev pub done : M D (Unit {0}) → Loop D Ret
  done m d = some (none, (m d).1)

  -- The loop of exynos_ufs_host_reset, with `none` once the fuel is out.
  unfoldable pub reset_rounds : ℕ → ℕ → Loop D Ret
  unfolding init_host dev_hw_reset
  reset_rounds zero end d = none
  reset_rounds (suc fuel) end d =
      let (reg, e) = on_cal (hci_readl host sw_rst) d in
      let rest = reset_rounds fuel end e in
      if bit_and reg 3 == 0
      then done (init_host >> dev_hw_reset) e
      else if time_left (host.jiffies e.cal.world) end
      then some (some etimedout, e)
      else rest

  unfoldable pub host_reset : ℕ → Loop D Ret
  unfolding reset_rounds
  host_reset fuel d =
      let end = (host.jiffies d.cal.world + host.msecs_to_jiffies 10) % 2 ^ 64 in
      reset_rounds fuel end ((ctrl_auto_hci_clk false >> write_hci 3 sw_rst) d).1

  abbrev pub config_sysreg : M D (Unit {0})
  config_sysreg d = if d.has_sysreg then act coherency host.update_sysreg d else (tt, d)

  abbrev ufsp_writel : ℕ → ℕ → M D (Unit {0})
  ufsp_writel v a = act (ufsp a v) (host.write_ufsp a v)

  abbrev ufsp_readl : ℕ → M D ℕ
  ufsp_readl a d =
      let (v, w) = host.read_ufsp a d.cal.world in
      (v, record d { cal = record (d.cal) { world = w } })

  unfoldable pub config_smu : M D (Unit {0})
  config_smu d =
      if d.smu_direct
      then ((do
        reg ← ufsp_readl 0x010
        ctrl_auto_hci_clk false
        ufsp_writel (bit_or reg (2 ^ 14)) 0x010
        ufsp_writel 0x0 0x200
        ufsp_writel 0xffffffff 0x204
        ufsp_writel 0xff 0x208
        ufsp_writel 0xf1 0x20c)
          d)
      else (tt, d)
