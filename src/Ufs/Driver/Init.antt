-- ===== src/Ufs/Driver/Init.antt =====
-- exynos_ufs_init and exynos_ufs_fmp_init of src/ufs/ufs-exynos9810.c. The firmware's SMC calls and
-- what the kernel finds are parameters.
use galaxy_s9plus_mainline_l.Common.{
  ℕ, ◌+◌, ◌-◌, ◌*◌, ◌%◌, ◌^◌, Bool, true, false, ◌||◌, List, [], ◌∷◌, none, some, ◌==◌, leb,
  if◌then◌else◌, ℤ, pos, negsuc, Ret, einval, enomem,
}
use galaxy_s9plus_mainline_l.Platform.{M}
use galaxy_s9plus_mainline_l.Ufs.{Host, CalState, CalErrno, no_error, hci_readl, secure_call}
use galaxy_s9plus_mainline_l.Ufs.Calib.{cal_init}
use galaxy_s9plus_mainline_l.Ufs.Driver.{
  Driver, D, on_cal, paint, ctrl_phy_pwr, config_sysreg, config_smu, clkstop_ctrl, force_hcs,
}
use galaxy_s9plus_mainline_l.Ufs.Driver.Setup.{
  Clks, ClkInfo, no_clks, get_clks, DeviceTree, parse_dt,
}

-- The module parameters.
pub record Params : Type 0 where
  pub fmp_desctype : ℤ
  pub smu_direct : Bool
  pub clk_gating : Bool
  pub max_seg_size : ℕ
  pub max_segments : ℕ
  pub max_sectors : ℕ

-- The fields of struct ufs_hba and of its SCSI host that the driver sets, the two capabilities and
-- the five quirks as one flag each.
pub record Hba : Type 0 where
  pub has_variant : Bool
  pub gating_caps : Bool
  pub quirks_set : Bool
  pub sg_entry_size : ℕ
  pub max_segment_size : ℕ
  pub dma_seg_size : ℕ
  pub sg_tablesize : ℕ
  pub host_max_sectors : ℕ

-- The driver's structure, the host, and the readable parameters `fmp_result` and `sg_entry`.
pub record Start (World : Type 0) : Type 0 where
  pub driver : Driver World
  pub clks : Clks
  pub hba : Hba
  pub fmp_result : ℤ
  pub sg_entry : ℕ

-- What the kernel gives: the two allocations, the four register windows, the device tree, and the
-- clocks of ufshcd.
pub record Given : Type 0 where
  pub has_ufs : Bool
  pub has_cal : Bool
  pub vs_hci : Ret
  pub unipro : Ret
  pub ufsp : Ret
  pub pma : Ret
  pub dt : DeviceTree
  pub clk_infos : List ClkInfo

-- SMC_CMD_FMP_SECURITY and SMC_CMD_SMU: a fast call with 64 bits of the silicon partner.
abbrev pub smc_fmp_security : ℕ
smc_fmp_security = 2 ^ 31 + 2 ^ 30 + 2 * 2 ^ 24 + 0x1810

abbrev pub smc_smu : ℕ
smc_smu = 2 ^ 31 + 2 ^ 30 + 2 * 2 ^ 24 + 0x1850

abbrev s9p_yellow : ℕ
s9p_yellow = 0xffffff00

abbrev s9p_green : ℕ
s9p_green = 0xff00ff00

abbrev s9p_cyan : ℕ
s9p_cyan = 0xff00ffff

-- A `long` that is stored in an `int`.
abbrev int_of : ℕ → ℤ
int_of v = let w = v % 2 ^ 32 in if leb (2 ^ 31) w then negsuc (2 ^ 32 - 1 - w) else pos w

module _ {World : Type 0} (host : Host World) (smc : ℕ → List ℕ → World → ℕ × World) where
  abbrev pub I : Type 0
  I = Start World

  abbrev pub on_driver : {A : Type 0} → M (D host) A → M I A
  on_driver m s = let (a, d) = m s.driver in (a, record s { driver = d })

  abbrev call_smc : ℕ → List ℕ → M (D host) ℕ
  call_smc f args d =
      let (a0, w) = smc f args d.cal.world in
      (a0, record d { cal = record (d.cal) { world = w; log = secure_call f ∷ d.cal.log } })

  abbrev fmp_out : I → I
  fmp_out s = record s { sg_entry = s.hba.sg_entry_size }

  abbrev size_entries : ℕ → I → I
  size_entries t s = if t == 3 then record s { hba = record (s.hba) { sg_entry_size = 128 } } else s

  abbrev fmp_typed : ℕ → I → I
  fmp_typed t s =
      let (a0, u) = on_driver (call_smc smc_fmp_security (0 ∷ 0 ∷ t ∷ [])) s in
      let v = record u { fmp_result = int_of a0 } in
      if a0 == 0
      then fmp_out (on_driver (call_smc smc_smu (0 ∷ 0 ∷ 0 ∷ [])) (size_entries t v)).1
      else fmp_out v

  unfoldable pub fmp_init : ℤ → I → I
  fmp_init (negsuc n) s = fmp_out s
  fmp_init (pos t) s = fmp_typed t s

  abbrev pub continue : M I Ret → Ret × I → Ret × I
  continue next (none, s) = next s
  continue next (some e, s) = (some e, s)

  abbrev pub and_then : M I Ret → M I Ret → M I Ret
  and_then first next s = continue next (first s)

  abbrev pub allocated : Bool → M I Ret
  allocated has s = (if has then none else some enomem, s)

  -- A structure fresh from devm_kzalloc is all zeros. The calibration code's own state stays.
  abbrev zeroed : Params → CalState World → Driver World
  zeroed params cal = record {
    cal = cal;
    param = record {
      available_lane = 0;
      target_lane = 0;
      mclk_rate = 0;
      board = 0;
      pmd = record { lane = 0; gear = 0; mode = 0; hs_series = 0 };
    };
    hw_rev = 0;
    has_sysreg = false;
    smu_direct = params.smu_direct;
    mclk_rate = 0;
    num_rx_lanes = 0;
    num_tx_lanes = 0;
    req_pmd = record { lane = 0; gear = 0; mode = 0; hs_series = 0 };
    act_pmd = record { lane = 0; gear = 0; mode = 0; hs_series = 0 };
  }

  abbrev pub set_variant : Params → M I Ret
  set_variant params s = (
    none,
    record s {
      driver = zeroed params s.driver.cal;
      clks = no_clks;
      hba = record (s.hba) { has_variant = true };
    },
  )

  abbrev pub window : Ret → M I Ret
  window ret s = (ret, s)

  abbrev pub resolve_clks : List ClkInfo → M I Ret
  resolve_clks infos s =
      let ((ret, rate), clks) =
        get_clks (λ c. host.clk_get_rate s.driver.cal.world) infos s.driver.mclk_rate s.clks in
      (ret, record s { clks = clks; driver = record (s.driver) { mclk_rate = rate } })

  -- The registers that the messages read.
  abbrev printed : D host → D host
  printed d =
      let first = (on_cal host (hci_readl host 0x108) d).1 in
      let second = (on_cal host (hci_readl host 0x0c) first).1 in
      let third = (on_cal host (hci_readl host clkstop_ctrl) second).1 in
      (on_cal host (hci_readl host force_hcs) third).1

  abbrev ret_of : CalErrno → Ret
  ret_of no_error = none
  ret_of other = some einval

  abbrev pub start_cal : M I Ret
  start_cal s =
      let d = printed s.driver in
      let (e, t) = cal_init host d.param 0 d.cal in
      (ret_of e, record s { driver = record d { cal = t } })

  abbrev set_limits : Params → Hba → Hba
  set_limits params hba = record hba {
    max_segment_size =
        if params.max_seg_size == 0 then hba.max_segment_size else params.max_seg_size;
    dma_seg_size = if params.max_seg_size == 0 then hba.dma_seg_size else params.max_seg_size;
    sg_tablesize =
        if params.max_segments == 0 then hba.sg_tablesize else params.max_segments % 2 ^ 16;
    host_max_sectors = if params.max_sectors == 0 then hba.host_max_sectors else params.max_sectors;
  }

  abbrev set_flags : Params → Hba → Hba
  set_flags params hba = record hba {
    gating_caps = hba.gating_caps || params.clk_gating;
    quirks_set = true;
  }

  abbrev pub show : ℕ → M I Ret
  show colour s = (none, (on_driver (paint host colour) s).1)

  -- From here on nothing fails.
  unfoldable pub power_phy : Params → I → I
  unfolding fmp_init
  power_phy params s =
      let t = record s { hba = set_flags params s.hba } in
      let u = (on_driver (ctrl_phy_pwr host true) t).1 in
      let v = (on_driver (config_smu host) (on_driver (config_sysreg host) u).1).1 in
      let w = fmp_init params.fmp_desctype v in record w { hba = set_limits params w.hba }

  abbrev pub finish : Params → M I Ret
  finish params s = (none, power_phy params s)

  -- One after the other up to the first error.
  unfoldable pub run_steps : List (M I Ret) → M I Ret → M I Ret
  run_steps [] last = last
  run_steps (step ∷ steps) last = and_then step (run_steps steps last)

  abbrev pub steps_of : Params → Given → List (M I Ret)
  steps_of params given =
      allocated given.has_ufs
      ∷ allocated given.has_cal
      ∷ set_variant params
      ∷ window given.vs_hci
      ∷ window given.unipro
      ∷ window given.ufsp
      ∷ window given.pma
      ∷ show s9p_yellow
      ∷ on_driver (parse_dt host given.dt)
      ∷ resolve_clks given.clk_infos
      ∷ show s9p_green
      ∷ start_cal
      ∷ show s9p_cyan
      ∷ []

  unfoldable pub init : Params → Given → M I Ret
  unfolding power_phy run_steps
  init params given = run_steps (steps_of params given) (finish params)
