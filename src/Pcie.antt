-- ===== src/Pcie.antt =====
-- The PCIe host driver, src/pci/pcie-exynos9810.c: the bring-up of the PHY and the controller, the
-- link, and the interrupts.
pub mod Tables
pub mod Link
pub mod Probe
pub mod Order
pub mod Irq
use galaxy_s9plus_mainline_l.Common.{
  ℕ, ◌+◌, ◌-◌, ◌*◌, ◌^◌, Bool, true, false, List, [], ◌∷◌, Ret, bit_or, if◌then◌else◌,
}
use galaxy_s9plus_mainline_l.Platform.{M, ◌>>=◌, ◌>>◌, pure}
use galaxy_s9plus_mainline_l.Bus.{Bus, Run, readl, writel, update_reg, delay, notify, clear_bits}
use galaxy_s9plus_mainline_l.Pcie.Tables.{cmn_config_val, trsv_config_val}

-- The ELBI, PMA and PCS windows, the two system controllers, the clock gates, and the DBI of the
-- DesignWare core.
pub data Win : Type 0 where
  elbi phy pcs pmu sysreg cmu_top gates dbi : Win

pub data Call : Type 0 where
  -- gpiod_set_value_cansleep on PERST# and on WL_REG_ON, or the state they are requested in
  perst wl_reg_on : Bool → Call
  -- chained_irq_enter, chained_irq_exit, generic_handle_domain_irq
  irq_enter irq_exit : Call
  handle_intx : ℕ → Call
  -- irq_set_chained_handler_and_data
  install_handler : Call

-- The driver keeps nothing between its calls but the handles of its resources.
pub record Port : Type 0 where
  pub has_wl_reg_on : Bool

abbrev pub irq_pulse : ℕ
irq_pulse = 0x000

abbrev pub irq_level : ℕ
irq_level = 0x004

abbrev pub irq_special : ℕ
irq_special = 0x008

abbrev pub app_ltssm_enable : ℕ
app_ltssm_enable = 0x02c

abbrev pub soft_core_reset : ℕ
soft_core_reset = 0x1d0

abbrev pub qch_sel : ℕ
qch_sel = 0x2c8

abbrev pub irq_intx_assert_all : ℕ
irq_intx_assert_all = 2 ^ 0 + 2 ^ 2 + 2 ^ 4 + 2 ^ 6

abbrev pub pcie_phy_control : ℕ
pcie_phy_control = 0x71c

abbrev pub snoop_ctrl : ℕ
snoop_ctrl = 0x700

abbrev pub lane_ctrl : ℕ
lane_ctrl = 0x1050

abbrev pub refclk_out_ctrl : ℕ
refclk_out_ctrl = 0x100

abbrev pub cdr_reset : ℕ
cdr_reset = 0xd0

abbrev pub fsys1_gates : List ℕ
fsys1_gates = 0x000 ∷ 0x038 ∷ 0x03c ∷ 0x040 ∷ 0x044 ∷ 0x048 ∷ 0x04c ∷ 0x0b0 ∷ 0x0b4 ∷ []

module _ {World : Type 0} (bus : Bus Win Call World) where
  abbrev pub P : Type 0
  P = Run Win Call World Port

  -- A read, the bits of `clear` cleared and those of `bits` set, and the write.
  abbrev pub modify : Win → ℕ → ℕ → ℕ → M P (Unit {0})
  modify w a clear bits = do v ← readl bus w a; writel bus (bit_or (clear_bits v clear) bits) w a

  unfoldable pub reset_pulse : ℕ → ℕ → M P (Unit {0})
  reset_pulse reg last_us = do
    writel bus 0x1 elbi reg
    delay bus 10
    writel bus 0x0 elbi reg
    delay bus 10
    writel bus 0x1 elbi reg
    delay bus last_us

  unfoldable pub all_pwrdn_clear : M P (Unit {0})
  all_pwrdn_clear = do
    modify pcs refclk_out_ctrl (2 ^ 6) 0
    modify pcs 0x104 (2 ^ 7) 0
    writel bus 0xc0 phy (0x20 * 4)
    writel bus 0x7e phy (0x57 * 4)

  -- The values from the register with number `i` on.
  unfoldable pub write_table : ℕ → List ℕ → M P (Unit {0})
  write_table i [] s = (tt, s)
  write_table i (v ∷ rest) s = write_table (i + 1) rest (writel bus v phy (4 * i) s).1

  unfoldable pub reset_cdr : M P (Unit {0})
  reset_cdr = do
    v ← readl bus pcs cdr_reset
    writel bus (bit_or v (0x3 * 2 ^ 6)) pcs cdr_reset
    delay bus 20
    w ← readl bus pcs cdr_reset
    writel bus (bit_or (clear_bits w (0x3 * 2 ^ 6)) (0x2 * 2 ^ 6)) pcs cdr_reset
    writel bus (clear_bits (bit_or (clear_bits w (0x3 * 2 ^ 6)) (0x2 * 2 ^ 6)) (0x3 * 2 ^ 6)) pcs
        cdr_reset

  -- exynos9810_phy_config up to the tables, and after them.
  unfoldable pub select_lane : M P (Unit {0})
  select_lane = do
    update_reg bus sysreg 0x1044 (2 ^ 1) (2 ^ 1)
    update_reg bus sysreg lane_ctrl (bit_or (0xf * 2 ^ 4) (bit_or (0xf * 2 ^ 2) (2 ^ 1)))
        (0x3 * 2 ^ 2)
    update_reg bus sysreg lane_ctrl (2 ^ 12) (2 ^ 12)
    reset_pulse 0x288 10

  unfoldable pub tune_pcs : M P (Unit {0})
  tune_pcs = do
    writel bus 0x70 pcs 0xf8
    writel bus 0x87 pcs refclk_out_ctrl
    writel bus 0x50 pcs 0x104
    modify pcs 0x0c (2 ^ 1) (2 ^ 4)

  unfoldable pub phy_config : M P (Unit {0})
  phy_config = do
    select_lane
    write_table 0 cmn_config_val
    write_table 0x30 trsv_config_val
    tune_pcs
    reset_pulse 0x290 10
    reset_pulse 0x28c 100
    reset_cdr

  unfoldable pub rx_elecidle : Bool → M P (Unit {0})
  rx_elecidle ignore = modify pcs 0xec (2 ^ 3) (if ignore then 2 ^ 3 else 0)

  unfoldable pub open_each : List ℕ → M P (Unit {0})
  open_each [] s = (tt, s)
  open_each (a ∷ rest) s =
      let (g, t) = readl bus gates a s in
      open_each rest (writel bus (bit_or g 0x300000) gates a t).1

  unfoldable pub open_gates : M P (Unit {0})
  open_gates = do writel bus 0x300000 cmu_top 0x2074; open_each fsys1_gates

  unfoldable pub leave_reset : M P (Unit {0})
  leave_reset = do
    writel bus 0x0 elbi soft_core_reset
    delay bus 20
    writel bus 0x1 elbi soft_core_reset
    notify bus (perst false)
    delay bus 18000

  -- The settings of the ELBI between the resets and the PHY.
  unfoldable pub set_up_elbi : M P (Unit {0})
  set_up_elbi = do
    modify elbi 0x0f4 0 (2 ^ 0 + 2 ^ 4)
    writel bus (2 ^ 1) elbi 0x1b8
    modify elbi qch_sel (0xf * 2 ^ 8 + 0xf * 2 ^ 4 + 0xf) 0
    writel bus 0x0 elbi 0x274
    writel bus 0x3 elbi 0x274
    writel bus 0x200000 elbi 0x2bc
    writel bus 0xffffffff elbi 0x2c0

  -- A status register is cleared by writing what it reads.
  abbrev pub clear_status : ℕ → M P (Unit {0})
  clear_status reg = do v ← readl bus elbi reg; writel bus v elbi reg

  unfoldable pub enable_intx : M P (Unit {0})
  enable_intx = do
    clear_status irq_pulse
    clear_status irq_level
    clear_status irq_special
    writel bus irq_intx_assert_all elbi 0x00c
    writel bus 0x0 elbi 0x010
    writel bus 0x0 elbi 0x014

  -- exynos9810_pcie_host_init after the isolation of the PHY is off.
  unfoldable pub after_isolation : M P (Unit {0})
  after_isolation = do
    open_gates
    update_reg bus sysreg snoop_ctrl (0x3 * 2 ^ 8) (0x3 * 2 ^ 8)
    all_pwrdn_clear
    rx_elecidle true
    leave_reset
    set_up_elbi
    phy_config
    modify elbi 0x018 (2 ^ 1) 0
    writel bus 0x1a dbi 0xb40
    enable_intx

  unfoldable pub host_init : M P (Unit {0})
  host_init = do update_reg bus pmu pcie_phy_control (2 ^ 0) (2 ^ 0); after_isolation
