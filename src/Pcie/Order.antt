-- ===== src/Pcie/Order.antt =====
-- The order of exynos9810_pcie_host_init in src/pci/pcie-exynos9810.c.
use galaxy_s9plus_mainline_l.Common.{
  ℕ, ◌+◌, ◌*◌, ◌^◌, ◌≡◌, refl, Ret, true, false, List, [], ◌∷◌, Since, nothing, more, Since-trans,
}
use galaxy_s9plus_mainline_l.Bus.{
  Bus, Access, write, seen, called, pause, update, update_reg, writel,
}
use galaxy_s9plus_mainline_l.Pcie.{
  Win, phy, pmu, elbi, sysreg, dbi, snoop_ctrl, irq_pulse, irq_level, irq_special,
  irq_intx_assert_all, Call, perst, P, pcie_phy_control, soft_core_reset, modify, reset_pulse,
  write_table, open_each, all_pwrdn_clear, reset_cdr, select_lane, tune_pcs, phy_config,
  rx_elecidle, open_gates, leave_reset, set_up_elbi, enable_intx, after_isolation, host_init,
  fsys1_gates,
}
use galaxy_s9plus_mainline_l.Pcie.Tables.{cmn_config_val, trsv_config_val}

-- A status register of the ELBI was read, and cleared by writing back what it read.
abbrev Cleared : ℕ → List (Access Win Call) → List (Access Win Call) → Type 0
Cleared reg before after = (v : ℕ) × (after ≡ write elbi reg v ∷ seen elbi reg v ∷ before)

-- The accesses of a bring-up from the log `before` to the log `after`.
pub record InOrder (before after : List (Access Win Call)) : Type 0 where
  pub early : List (Access Win Call)
  pub released : Ret
  pub late : List (Access Win Call)
  pub no_pulse : List (Access Win Call)
  pub no_level : List (Access Win Call)
  pub no_special : List (Access Win Call)
  pub isolation_first : Since (update pmu pcie_phy_control 1 1 ∷ before) early
  pub reset_then_endpoint :
      Since
        (pause 18000
          ∷ called (perst false) released
          ∷ write elbi soft_core_reset 1
          ∷ pause 20
          ∷ write elbi soft_core_reset 0
          ∷ early)
        late
  pub pulse_cleared : Cleared irq_pulse late no_pulse
  pub level_cleared : Cleared irq_level no_pulse no_level
  pub special_cleared : Cleared irq_special no_level no_special
  pub enabled_last :
      after
      ≡ write elbi 0x014 0 ∷ write elbi 0x010 0 ∷ write elbi 0x00c irq_intx_assert_all ∷ no_special

module _ {World : Type 0} (bus : Bus Win Call World) where
  write_table_lem : (i : ℕ) (vs : List ℕ) (s : P bus) → Since s.log (write_table bus i vs s).1.log
  unfolding write_table
  write_table_lem i [] s = nothing
  write_table_lem i (v ∷ vs) s =
      Since-trans (more nothing) (write_table_lem (i + 1) vs (writel bus v phy (4 * i) s).1)

  open_each_lem : (is : List ℕ) (s : P bus) → Since s.log (open_each bus is s).1.log
  unfolding open_each
  open_each_lem [] s = nothing
  open_each_lem (a ∷ is) s = Since-trans (more (more nothing)) (open_each_lem is _)

  select_lane_lem : (s : P bus) → Since s.log (select_lane bus s).1.log
  unfolding select_lane reset_pulse
  select_lane_lem s = more (more (more (more (more (more (more (more (more nothing))))))))

  tune_pcs_lem : (s : P bus) → Since s.log (tune_pcs bus s).1.log
  unfolding tune_pcs
  tune_pcs_lem s = more (more (more (more (more nothing))))

  reset_pulse_lem : (reg us : ℕ) (s : P bus) → Since s.log (reset_pulse bus reg us s).1.log
  unfolding reset_pulse
  reset_pulse_lem reg us s = more (more (more (more (more (more nothing)))))

  reset_cdr_lem : (s : P bus) → Since s.log (reset_cdr bus s).1.log
  unfolding reset_cdr
  reset_cdr_lem s = more (more (more (more (more (more nothing)))))

  phy_config_lem : (s : P bus) → Since s.log (phy_config bus s).1.log
  unfolding phy_config
  phy_config_lem s =
      let a = (select_lane bus s).1 in
      let b = (write_table bus 0 cmn_config_val a).1 in
      let c = (write_table bus 0x30 trsv_config_val b).1 in
      let d = (tune_pcs bus c).1 in
      let e = (reset_pulse bus 0x290 10 d).1 in
      let f = (reset_pulse bus 0x28c 100 e).1 in
      let tables =
        Since-trans (write_table_lem 0 cmn_config_val a) (write_table_lem 0x30 trsv_config_val b) in
      let resets = Since-trans (reset_pulse_lem 0x290 10 d) (reset_pulse_lem 0x28c 100 e) in
      Since-trans (select_lane_lem s)
        (Since-trans tables (Since-trans (tune_pcs_lem c) (Since-trans resets (reset_cdr_lem f))))

  open_gates_lem : (s : P bus) → Since s.log (open_gates bus s).1.log
  unfolding open_gates
  open_gates_lem s = Since-trans (more nothing) (open_each_lem fsys1_gates _)

  all_pwrdn_clear_lem : (s : P bus) → Since s.log (all_pwrdn_clear bus s).1.log
  unfolding all_pwrdn_clear
  all_pwrdn_clear_lem s = more (more (more (more (more (more nothing)))))

  set_up_elbi_lem : (s : P bus) → Since s.log (set_up_elbi bus s).1.log
  unfolding set_up_elbi
  set_up_elbi_lem s = more (more (more (more (more (more (more (more (more nothing))))))))

  -- The states after the part up to the resets of the core, and up to the interrupts.
  abbrev clocked : P bus → P bus
  clocked s =
      let t = (open_gates bus (update_reg bus pmu pcie_phy_control (2 ^ 0) (2 ^ 0) s).1).1 in
      let u = (update_reg bus sysreg snoop_ctrl (0x3 * 2 ^ 8) (0x3 * 2 ^ 8) t).1 in
      (rx_elecidle bus true (all_pwrdn_clear bus u).1).1

  abbrev configured : P bus → P bus
  configured s =
      let t = (phy_config bus (set_up_elbi bus (leave_reset bus (clocked s)).1).1).1 in
      (writel bus 0x1a dbi 0xb40 (modify bus elbi 0x018 (2 ^ 1) 0 t).1).1

  clocked_lem : (s : P bus) → Since (update pmu pcie_phy_control 1 1 ∷ s.log) (clocked s).log
  unfolding rx_elecidle
  clocked_lem s =
      let t = (update_reg bus pmu pcie_phy_control (2 ^ 0) (2 ^ 0) s).1 in
      let u = (open_gates bus t).1 in
      let v = (update_reg bus sysreg snoop_ctrl (0x3 * 2 ^ 8) (0x3 * 2 ^ 8) u).1 in
      Since-trans (open_gates_lem t)
        (Since-trans (more nothing) (Since-trans (all_pwrdn_clear_lem v) (more (more nothing))))

  configured_lem : (s : P bus) → Since (leave_reset bus (clocked s)).1.log (configured s).log
  configured_lem s =
      let t = (leave_reset bus (clocked s)).1 in
      let u = (set_up_elbi bus t).1 in
      Since-trans (set_up_elbi_lem t) (Since-trans (phy_config_lem u) (more (more (more nothing))))

  -- The bring-up lifts the isolation of the PHY before anything else, holds the core in reset before
  -- it lets the endpoint go and waits, and enables the INTx interrupts last, with the three status
  -- registers cleared right before.
  pub host_init-InOrder : (s : P bus) → InOrder s.log (host_init bus s).1.log
  unfolding host_init after_isolation leave_reset enable_intx
  host_init-InOrder s = record {
    early = (clocked s).log;
    released = _;
    late = (configured s).log;
    no_pulse = _;
    no_level = _;
    no_special = _;
    isolation_first = clocked_lem s;
    reset_then_endpoint = configured_lem s;
    pulse_cleared = (_, refl);
    level_cleared = (_, refl);
    special_cleared = (_, refl);
    enabled_last = refl;
  }
