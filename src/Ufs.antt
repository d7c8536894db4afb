-- ===== src/Ufs.antt =====
-- What the UFS calibration code reaches of the host: the hooks of src/ufs/ufs-exynos9810.c and the
-- data of src/ufs/ufs-cal-9810.h. The register windows, the clock and ufshcd are a parameter, an
-- arbitrary `Host World`.
pub mod Tables
pub mod Match
pub mod Uic
pub mod Calib
pub mod Plan
pub mod Driver
use galaxy_s9plus_mainline_l.Common.{
  ℕ, ◌+◌, ◌-◌, ◌*◌, ◌%◌, ◌^◌, Bool, List, ◌∷◌, Option, bit_and, bit_or,
}
use galaxy_s9plus_mainline_l.Platform.{M, ◌>>=◌, ◌>>◌, pure}

-- One access of the driver to the host.
pub data Access : Type 0 where
  -- writel into the HCI, PMA and UniPro windows: the offset and the value
  hci pma unipro : ℕ → ℕ → Access
  -- readl from the PMA window: the offset
  pma_seen : ℕ → Access
  -- ufshcd_dme_set_attr on this host and on the device, ufshcd_dme_get_attr
  attr peer : ℕ → ℕ → Access
  attr_seen : ℕ → Access
  -- writel into the protector's window; the PMU's bit of the PHY, the system register for coherency,
  -- and the regulator of VCC
  ufsp : ℕ → ℕ → Access
  phy_power : Bool → Access
  coherency : Access
  vcc : Bool → Access
  -- regmap_read of the PMU, and regulator_is_enabled where the code's place matters: both may sleep
  pmu_seen vcc_seen : Access
  -- writel into the boot loader's frame buffer: the offset in the painted block and the colour
  pixel : ℕ → ℕ → Access
  -- arm_smccc_smc: the function
  secure_call : ℕ → Access
  -- udelay or usleep_range, in microseconds
  pause : ℕ → Access

pub record Host (World : Type 0) : Type 0 where
  pub read_hci : ℕ → World → ℕ × World
  pub write_hci : ℕ → ℕ → World → World
  pub read_pma : ℕ → World → ℕ × World
  pub write_pma : ℕ → ℕ → World → World
  pub write_unipro : ℕ → ℕ → World → World
  -- ufshcd_dme_set_attr, whose result the hooks drop
  pub set_attr : ℕ → ℕ → World → World
  pub set_peer : ℕ → ℕ → World → World
  -- what the caller's u32 holds after ufshcd_dme_get_attr, whose result the hook drops
  pub get_attr : ℕ → World → ℕ × World
  pub read_ufsp : ℕ → World → ℕ × World
  pub write_ufsp : ℕ → ℕ → World → World
  -- regmap_update_bits on the PMU and on the system register
  pub update_pmu : Bool → World → World
  pub update_sysreg : World → World
  -- regulator_is_enabled, regulator_enable and regulator_disable on VCC
  pub vcc_enabled : World → Bool
  -- ioremap_wc of the painted block, and whether it succeeds
  pub map_screen : World → Bool × World
  pub write_screen : ℕ → ℕ → World → World
  pub switch_vcc : Bool → World → World
  pub clk_get_rate : World → ℕ
  pub elapse : ℕ → World → World
  pub jiffies : World → ℕ
  pub msecs_to_jiffies : ℕ → ℕ

pub record PwrMode : Type 0 where
  pub lane : ℕ
  pub gear : ℕ
  pub mode : ℕ
  pub hs_series : ℕ

pub record CalParam : Type 0 where
  pub available_lane : ℕ
  pub target_lane : ℕ
  pub mclk_rate : ℕ
  pub board : ℕ
  pub pmd : PwrMode

pub data CalErrno : Type 0 where
  no_error timeout failed inv_arg : CalErrno

-- The static variables of the calibration code, beside the world and the log, newest first.
pub record CalState (World : Type 0) : Type 0 where
  pub world : World
  pub log : List Access
  pub hosts : List (Option CalParam)
  pub lock_timeout : ℕ

abbrev pub clkstop_ctrl : ℕ
clkstop_ctrl = 0xb0

abbrev pub apbclk_stop : ℕ
apbclk_stop = 2 ^ 3

module _ {World : Type 0} (host : Host World) where
  abbrev pub S : Type 0
  S = CalState World

  abbrev pub hci_readl : ℕ → M S ℕ
  hci_readl a s = let (v, w) = host.read_hci a s.world in (v, record s { world = w })

  abbrev pub hci_writel : ℕ → ℕ → M S (Unit {0})
  hci_writel v a s = (tt, record s { world = host.write_hci a v s.world; log = hci a v ∷ s.log })

  abbrev pub pma_writel : ℕ → ℕ → M S (Unit {0})
  pma_writel v a s = (tt, record s { world = host.write_pma a v s.world; log = pma a v ∷ s.log })

  abbrev pub pma_readl : ℕ → M S ℕ
  pma_readl a s =
      let (v, w) = host.read_pma a s.world in (v, record s { world = w; log = pma_seen a ∷ s.log })

  abbrev pub dme_set : ℕ → ℕ → M S (Unit {0})
  dme_set a v s = (tt, record s { world = host.set_attr a v s.world; log = attr a v ∷ s.log })

  abbrev pub dme_get : ℕ → M S ℕ
  dme_get a s =
      let (v, w) = host.get_attr a s.world in (v, record s { world = w; log = attr_seen a ∷ s.log })

  abbrev pub dme_peer_set : ℕ → ℕ → M S (Unit {0})
  dme_peer_set a v s = (tt, record s { world = host.set_peer a v s.world; log = peer a v ∷ s.log })

  -- The APB clock of the PHY runs for the one access only.
  abbrev pub ungate : ℕ → M S (Unit {0})
  ungate clkstop = hci_writel (bit_and clkstop (2 ^ 32 - 1 - apbclk_stop)) clkstop_ctrl

  abbrev pub gate : ℕ → M S (Unit {0})
  gate clkstop = hci_writel (bit_or clkstop apbclk_stop) clkstop_ctrl

  abbrev pub pma_write : ℕ → ℕ → M S (Unit {0})
  pma_write v a =
      hci_readl clkstop_ctrl >>= λ clkstop. ungate clkstop >> (pma_writel v a >> gate clkstop)

  abbrev pub pma_read : ℕ → M S ℕ
  pma_read a = hci_readl clkstop_ctrl >>= λ clkstop.
      ungate clkstop >> (pma_readl a >>= λ v. gate clkstop >> pure v)

  abbrev pub unipro_write : ℕ → ℕ → M S (Unit {0})
  unipro_write v a s =
      (tt, record s { world = host.write_unipro a v s.world; log = unipro a v ∷ s.log })

  abbrev pub usleep : ℕ → M S (Unit {0})
  usleep us s = (tt, record s { world = host.elapse us s.world; log = pause us ∷ s.log })

  -- ufs_lld_get_time_count, which does not look at its argument.
  abbrev pub get_time_count : ℕ → S → ℕ
  get_time_count offset s = host.jiffies s.world

  abbrev pub calc_timeout : ℕ → ℕ
  calc_timeout ms = host.msecs_to_jiffies ms
