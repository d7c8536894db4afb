-- ===== src/Usb/Powered.antt =====
-- What s9p_usbphy_init of src/usb/phy-exynos9810-usbdrd.c does to the isolation of the PHY in the PMU.
use galaxy_s9plus_mainline_l.Common.{ℕ, ◌≡◌, refl, ap, ◌∙◌, Bool, true, false, List, [], ◌∷◌}
use galaxy_s9plus_mainline_l.Platform.{M, ◌>>=◌, ◌>>◌, pure}
use galaxy_s9plus_mainline_l.Bus.{Bus, readl, when}
use galaxy_s9plus_mainline_l.Usb.{
  Win, Phy, Call, usbcon, pmu, U, rmw, read_all, dump, dumped, isolate, q_ch, enable, rewa_ready,
  pipe_ovrd, bring_up, hsp_tune, hsp_tune_mask, hsp_tune_val, usb20_phy_ctrl, usb3dp_phy_ctrl,
}
use galaxy_s9plus_mainline_l.Usb.Memory.{Memory}

module _ {World : Type 0} {bus : Bus Win Call World} (mem : Memory bus) where
  open mem use {powered, powered_read, powered_write, powered_update, powered_elapse}

  -- A step that leaves the isolation alone.
  Spares : M (U bus) (Unit {0}) → Type 0
  Spares m = (b : ℕ) (s : U bus) → powered (m s).1.world b ≡ powered s.world b

  when-Spares : (c : Bool) (m : M (U bus) (Unit {0})) → Spares m → Spares (when c m)
  unfolding Spares
  when-Spares true m h b s = h b s
  when-Spares false m h b s = refl

  then-Spares : (m n : M (U bus) (Unit {0})) → Spares m → Spares n → Spares (m >> n)
  unfolding Spares
  then-Spares m n first second b s = second b (m s).1 ∙ first b s

  rmw-Spares : (reg clear bits : ℕ) → Spares (rmw bus reg clear bits)
  unfolding rmw Spares
  rmw-Spares reg clear bits b s = powered_write _ _ b _ ∙ powered_read usbcon reg b s.world

  read_all-Spares : (l : List ℕ) → Spares (read_all bus l)
  unfolding read_all Spares
  read_all-Spares [] b s = refl
  read_all-Spares (a ∷ rest) b s =
      read_all-Spares rest b (readl bus usbcon a s).1 ∙ powered_read usbcon a b s.world

  dump-Spares : Spares (dump bus)
  unfolding dump Spares
  dump-Spares b s =
      let t = (read_all bus dumped s).1 in
      when-Spares t.vars.has_pmu
        (readl bus pmu usb20_phy_ctrl >>= λ u. readl bus pmu usb3dp_phy_ctrl >>= λ v. pure tt)
        (λ c u. powered_read pmu usb3dp_phy_ctrl c _ ∙ powered_read pmu usb20_phy_ctrl c u.world) b
        t
      ∙ read_all-Spares dumped b s

  q_ch-Spares : Spares (q_ch bus true)
  unfolding q_ch Spares
  q_ch-Spares b s = simp (powered_read, powered_write, powered_elapse) refl

  enable-Spares : Spares (enable bus)
  unfolding enable Spares
  enable-Spares b s = simp (rmw-Spares, q_ch-Spares, powered_elapse) refl

  rewa_ready-Spares : Spares (rewa_ready bus)
  unfolding rewa_ready Spares
  rewa_ready-Spares b s = simp (rmw-Spares, powered_write) refl

  pipe_ovrd-Spares : Spares (pipe_ovrd bus)
  unfolding pipe_ovrd Spares
  pipe_ovrd-Spares b s = simp rmw-Spares refl

  read_all-vars : (l : List ℕ) (s : U bus) → (read_all bus l s).1.vars ≡ s.vars
  unfolding read_all
  read_all-vars [] s = refl
  read_all-vars (a ∷ rest) s = read_all-vars rest (readl bus usbcon a s).1

  -- Both halves of the PHY are out of isolation.
  abbrev pub Powered : U bus → Type 0
  Powered t = (powered t.world usb20_phy_ctrl ≡ true) × (powered t.world usb3dp_phy_ctrl ≡ true)

  isolate-Powered : (s : U bus) → s.vars.has_pmu ≡ true → Powered (isolate bus true s).1
  unfolding isolate
  isolate-Powered s h = simp (h, powered_update) (refl, refl)

  dump-vars : (s : U bus) → (dump bus s).1.vars ≡ s.vars
  unfolding dump
  dump-vars s =
      when-vars (read_all bus dumped s).1.vars.has_pmu (read_all bus dumped s).1
      ∙ read_all-vars dumped s
    where
      when-vars :
          (c : Bool) (t : U bus)
          → (when c
              (readl bus pmu usb20_phy_ctrl >>= λ u. readl bus pmu usb3dp_phy_ctrl >>= λ v. pure tt)
              t).1.vars
            ≡ t.vars
      when-vars true t = refl
      when-vars false t = refl

  bring_up-Spares :
      (b : ℕ) (s : U bus)
      → powered (bring_up bus s).1.world b ≡ powered (isolate bus true (dump bus s).1).1.world b
  unfolding bring_up Spares
  bring_up-Spares b s =
      let off = (isolate bus true (dump bus s).1).1 in
      let t = (enable bus off).1 in
      let u = (when t.vars.rewa (rewa_ready bus) t).1 in
      let v = (pipe_ovrd bus u).1 in
      let tuned = rmw bus hsp_tune hsp_tune_mask hsp_tune_val in
      dump-Spares b (when v.vars.tune tuned v).1
      ∙ when-Spares v.vars.tune tuned (rmw-Spares hsp_tune hsp_tune_mask hsp_tune_val) b v
      ∙ pipe_ovrd-Spares b u
      ∙ when-Spares t.vars.rewa (rewa_ready bus) rewa_ready-Spares b t
      ∙ enable-Spares b off

  pub bring_up-Powered : (s : U bus) → s.vars.has_pmu ≡ true → Powered (bring_up bus s).1
  bring_up-Powered s h =
      let (usb2, usb3) =
        isolate-Powered (dump bus s).1 (ap (λ (p : Phy). p.has_pmu) (dump-vars s) ∙ h) in
      (bring_up-Spares usb20_phy_ctrl s ∙ usb2, bring_up-Spares usb3dp_phy_ctrl s ∙ usb3)
