-- ===== src/Pcie/Probe.antt =====
-- The probe of src/pci/pcie-exynos9810.c. What the kernel's calls give is an argument, and so is
-- dw_pcie_host_init of the DesignWare core, an arbitrary run.
use galaxy_s9plus_mainline_l.Common.{
  Bool, true, false, ◌&&◌, Ret, none, some, Errno, einval, enomem, if◌then◌else◌,
}
use galaxy_s9plus_mainline_l.Platform.{M, ◌>>◌, pure}
use galaxy_s9plus_mainline_l.Bus.{Bus, delay, notify, when}
use galaxy_s9plus_mainline_l.Pcie.{Win, Call, perst, wl_reg_on, install_handler, P}

-- The results of the calls, and `false` where a pointer is NULL.
pub record Given : Type 0 where
  pub alloc : Bool
  pub phy_window : Ret
  pub pcs_window : Ret
  pub pmu_syscon : Ret
  pub sysreg_syscon : Ret
  pub perst_gpio : Ret
  -- the optional GPIO: an error, or whether there is one
  pub enable_gpio : Ret
  pub has_enable : Bool
  pub cmu_mapped : Bool
  pub gates_mapped : Bool
  pub irq : Ret
  pub has_intc : Bool
  pub intx_domain : Bool

module _ {World : Type 0} (bus : Bus Win Call World) where
  abbrev pub unless : Ret → M (P bus) Ret → M (P bus) Ret
  unless none next s = next s
  unless (some e) next s = (some e, s)

  abbrev null : Errno → Bool → Ret
  null e there = if there then none else some e

  unfoldable pub init_irq : Given → M (P bus) Ret
  init_irq given = unless given.irq (
      unless (null einval given.has_intc)
        (unless (null enomem given.intx_domain) (do notify bus install_handler; pure none)))

  -- The Wi-Fi module is switched off and on again.
  unfoldable pub power_module : Bool → M (P bus) (Unit {0})
  power_module has = when has (do
    notify bus (wl_reg_on false)
    delay bus 50000
    notify bus (wl_reg_on true)
    delay bus 200000)

  abbrev both_mapped : Given → Ret
  both_mapped given = null enomem (given.cmu_mapped && given.gates_mapped)

  abbrev request_perst : M (P bus) (Unit {0})
  request_perst = notify bus (perst true)

  abbrev then_run : M (P bus) (Unit {0}) → M (P bus) Ret → M (P bus) Ret
  then_run m next s = next (m s).1

  unfoldable pub probe : Given → M (P bus) Ret → M (P bus) Ret
  unfolding init_irq power_module
  probe given dw_pcie_host_init = unless (null enomem given.alloc) (
      unless given.phy_window (
        unless given.pcs_window (
          unless given.pmu_syscon (
            unless given.sysreg_syscon (
              unless given.perst_gpio (
                then_run request_perst (
                  unless given.enable_gpio (
                    then_run (power_module given.has_enable) (
                      unless (both_mapped given) (λ s.
                        let (ret, t) = init_irq given s in unless ret dw_pcie_host_init t))))))))))
