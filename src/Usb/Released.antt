-- ===== src/Usb/Released.antt =====
-- What s9p_usbphy_init of src/usb/phy-exynos9810-usbdrd.c leaves in the registers, on hardware that
-- holds what is written.
use galaxy_s9plus_mainline_l.Common.{
  ℕ, ◌+◌, ◌^◌, ◌≡◌, refl, ap, ◌∙◌, true, false, List, [], ◌∷◌, All, none, some, Ret, ◌==◌, ◌<◌,
  if◌then◌else◌, arith,
}
use galaxy_s9plus_mainline_l.Bus.{Bus, call, when}
use galaxy_s9plus_mainline_l.Usb.{
  Win, Call, enable_clocks, U, link_ctrl, clkrst, combo_pma_ctrl, utmi, hsp, hsp_tune,
  hsp_tune_mask, hsp_tune_val, hsp_test, rmw, dump, isolate, enable, rewa_ready, pipe_ovrd,
  bring_up, if_clocked, init,
}
use galaxy_s9plus_mainline_l.Usb.Powered.{Powered, bring_up-Powered}
use galaxy_s9plus_mainline_l.Usb.Memory.{
  Memory, bit_of, changed, rmw_bits, delay_bits, dump_bits, q_ch_bits, rewa_bits, tune_bits,
}

All-map : {P Q : ℕ → Type 0} (l : List ℕ) → ((k : ℕ) → P k → Q k) → All P l → All Q l
All-map [] f h = h
All-map (k ∷ l) f h = (f k h.0, All-map l f h.1)

module _ {World : Type 0} {bus : Bus Win Call World} (mem : Memory bus) where
  -- The bits of a register that are 1, and those that are 0.
  abbrev pub Bits : U bus → ℕ → List ℕ → List ℕ → Type 0
  Bits s a ones zeros =
      All (λ k. bit_of mem s a k ≡ true) ones × All (λ k. bit_of mem s a k ≡ false) zeros

  -- The states before and after the part that enables the block, and after the ReWA block.
  abbrev before : U bus → U bus
  before s = (isolate bus true (dump bus s).1).1

  abbrev enabled : U bus → U bus
  enabled s = (enable bus (before s)).1

  abbrev parked : U bus → U bus
  parked s = let t = enabled s in (when t.vars.rewa (rewa_ready bus) t).1

  bring_up_bits :
      (a k : ℕ) (s : U bus)
      → a < 0x100
      → (hsp_tune == a) ≡ false
      → bit_of mem (bring_up bus s).1 a k ≡ bit_of mem (pipe_ovrd bus (parked s)).1 a k
  unfolding bring_up
  bring_up_bits a k s low other =
      let t = (pipe_ovrd bus (parked s)).1 in
      dump_bits mem a k (when t.vars.tune (rmw bus hsp_tune hsp_tune_mask hsp_tune_val) t).1
      ∙ tune_bits mem t.vars.tune a k t other

  pipe_ovrd_bits :
      (a k : ℕ) (s : U bus)
      → (combo_pma_ctrl == a) ≡ false
      → bit_of mem (pipe_ovrd bus s).1 a k ≡ (
          if link_ctrl == a
          then changed k (2 ^ 17) (2 ^ 16 + 2 ^ 18) (bit_of mem s a k)
          else bit_of mem s a k)
  unfolding pipe_ovrd
  pipe_ovrd_bits a k s other =
      rmw_bits mem combo_pma_ctrl 0 (2 ^ 4) a k (rmw bus link_ctrl (2 ^ 17) (2 ^ 16 + 2 ^ 18) s).1
      ∙ rw other (rmw_bits mem link_ctrl (2 ^ 17) (2 ^ 16 + 2 ^ 18) a k s)

  -- What enabling leaves in a register other than the ones that the later steps write stays.
  stays :
      (a : ℕ) (s : U bus) (ones zeros : List ℕ)
      → a < 0x100
      → (hsp_tune == a) ≡ false
      → (combo_pma_ctrl == a) ≡ false
      → (link_ctrl == a) ≡ false
      → Bits (enabled s) a ones zeros
      → Bits (bring_up bus s).1 a ones zeros
  stays a s ones zeros low not_tune not_pma not_link (on, off) =
      (All-map ones (λ k h. kept k ∙ h) on, All-map zeros (λ k h. kept k ∙ h) off)
    where
      kept : (k : ℕ) → bit_of mem (bring_up bus s).1 a k ≡ bit_of mem (enabled s) a k
      kept k =
          bring_up_bits a k s low not_tune
          ∙ pipe_ovrd_bits a k (parked s) not_pma
          ∙ rw not_link (rewa_bits mem (enabled s).vars.rewa a k (enabled s) low)

  enable-clkrst : (s : U bus) → Bits (enable bus s).1 clkrst (2 ∷ []) (0 ∷ 1 ∷ 3 ∷ [])
  unfolding enable
  enable-clkrst s = simp (rmw_bits mem, delay_bits mem) ((refl, tt), (refl, (refl, (refl, tt))))

  enable-hsp_test : (s : U bus) → Bits (enable bus s).1 hsp_test [] (24 ∷ [])
  unfolding enable
  enable-hsp_test s = simp (rmw_bits mem, delay_bits mem) (tt, (refl, tt))

  enable-utmi : (s : U bus) → Bits (enable bus s).1 utmi (4 ∷ 5 ∷ []) (0 ∷ 1 ∷ 2 ∷ 3 ∷ [])
  unfolding enable
  enable-utmi s =
      simp (rmw_bits mem, delay_bits mem) ((refl, (refl, tt)), (refl, (refl, (refl, (refl, tt)))))

  enable-hsp : (s : U bus) → Bits (enable bus s).1 hsp (8 ∷ 9 ∷ 12 ∷ 13 ∷ []) []
  unfolding enable
  enable-hsp s = simp (rmw_bits mem, delay_bits mem) ((refl, (refl, (refl, (refl, tt)))), tt)

  enable-link_ctrl :
      (s : U bus) → Bits (enable bus s).1 link_ctrl (4 ∷ 5 ∷ 6 ∷ 7 ∷ 8 ∷ 9 ∷ 10 ∷ 11 ∷ 12 ∷ []) []
  unfolding enable
  enable-link_ctrl s =
      simp (rmw_bits mem, delay_bits mem, q_ch_bits mem)
        ((refl, (refl, (refl, (refl, (refl, (refl, (refl, (refl, (refl, tt))))))))), tt)

  -- The link control register through the step that holds the USB 3 side idle.
  link_ctrl_bits :
      (k : ℕ) (s : U bus)
      → bit_of mem (bring_up bus s).1 link_ctrl k
        ≡ changed k (2 ^ 17) (2 ^ 16 + 2 ^ 18) (bit_of mem (enabled s) link_ctrl k)
  link_ctrl_bits k s =
      bring_up_bits link_ctrl k s (omega arith) refl
      ∙ pipe_ovrd_bits link_ctrl k (parked s) refl
      ∙ ap (changed k (2 ^ 17) (2 ^ 16 + 2 ^ 18))
          (rewa_bits mem (enabled s).vars.rewa link_ctrl k (enabled s) (omega arith))

  bring_up-link_ctrl :
      (s : U bus)
      → Bits
          (bring_up bus s).1
          link_ctrl
          (16 ∷ 18 ∷ 4 ∷ 5 ∷ 6 ∷ 7 ∷ 8 ∷ 9 ∷ 10 ∷ 11 ∷ 12 ∷ [])
          (17 ∷ [])
  bring_up-link_ctrl s =
      let (on, off) = enable-link_ctrl (before s) in
      let kept =
        All-map {P = λ k. bit_of mem (enabled s) link_ctrl k ≡ true}
          {Q = λ k.
            bit_of mem (bring_up bus s).1 link_ctrl k ≡ changed k (2 ^ 17) (2 ^ 16 + 2 ^ 18) true}
          (4 ∷ 5 ∷ 6 ∷ 7 ∷ 8 ∷ 9 ∷ 10 ∷ 11 ∷ 12 ∷ [])
          (λ k h. link_ctrl_bits k s ∙ ap (changed k (2 ^ 17) (2 ^ 16 + 2 ^ 18)) h) on in
      ((link_ctrl_bits 16 s, (link_ctrl_bits 18 s, kept)), (link_ctrl_bits 17 s, tt))

  -- PMA_LOW_PWRN, which nothing after the pipe override touches.
  bring_up-combo_pma_ctrl : (s : U bus) → Bits (bring_up bus s).1 combo_pma_ctrl (4 ∷ []) []
  unfolding pipe_ovrd
  bring_up-combo_pma_ctrl s =
      let t = (rmw bus link_ctrl (2 ^ 17) (2 ^ 16 + 2 ^ 18) (parked s)).1 in
      (
        (
          bring_up_bits combo_pma_ctrl 4 s (omega arith) refl
              ∙ rmw_bits mem combo_pma_ctrl 0 (2 ^ 4) combo_pma_ctrl 4 t,
          tt,
        ),
        tt,
      )

  abbrev pub Released : U bus → Type 0
  Released t =
      Bits t clkrst (2 ∷ []) (0 ∷ 1 ∷ 3 ∷ [])
      × Bits t hsp_test [] (24 ∷ [])
      × Bits t utmi (4 ∷ 5 ∷ []) (0 ∷ 1 ∷ 2 ∷ 3 ∷ [])
      × Bits t hsp (8 ∷ 9 ∷ 12 ∷ 13 ∷ []) []
      × Bits t link_ctrl (16 ∷ 18 ∷ 4 ∷ 5 ∷ 6 ∷ 7 ∷ 8 ∷ 9 ∷ 10 ∷ 11 ∷ 12 ∷ []) (17 ∷ [])
      × Bits t combo_pma_ctrl (4 ∷ []) []

  bring_up-Released : (s : U bus) → Released (bring_up bus s).1
  bring_up-Released s = (
    stays clkrst s (2 ∷ []) (0 ∷ 1 ∷ 3 ∷ []) (omega arith) refl refl refl
        (enable-clkrst (before s)),
    stays hsp_test s [] (24 ∷ []) (omega arith) refl refl refl (enable-hsp_test (before s)),
    stays utmi s (4 ∷ 5 ∷ []) (0 ∷ 1 ∷ 2 ∷ 3 ∷ []) (omega arith) refl refl refl
        (enable-utmi (before s)),
    stays hsp s (8 ∷ 9 ∷ 12 ∷ 13 ∷ []) [] (omega arith) refl refl refl (enable-hsp (before s)),
    bring_up-link_ctrl s,
    bring_up-combo_pma_ctrl s,
  )

  if_clocked-Released :
      (ret : Ret) (s : U bus)
      → ret ≡ none
      → let (r, t) = if_clocked bus ret s in
        (r ≡ none) × Released t × (s.vars.has_pmu ≡ true → Powered mem t)
  if_clocked-Released none s h = (refl, bring_up-Released s, bring_up-Powered mem s)
  if_clocked-Released (some e) s h = cc

  -- Once the clocks run, s9p_usbphy_init succeeds, and leaves the PHY so: its resets and those of the
  -- link and the port are released and the driver's reset selected, its power-down bit SIDDQ is
  -- clear, it is out of forced suspend and sleep with the pull-downs off and VBUS forced valid,
  -- COMMONONN and the suspend through UTMI are set, the Q-channel is held active past the bus filter,
  -- the pipe of the USB 3 side is forced to its idle state with PMA_LOW_PWRN set, and, where the
  -- driver has the PMU, both halves are out of isolation.
  pub init-Released :
      (s : U bus)
      → (call bus enable_clocks s).0 ≡ none
      → let (ret, t) = init bus s in
        (ret ≡ none) × Released t × (s.vars.has_pmu ≡ true → Powered mem t)
  unfolding init
  init-Released s clocked =
      let (ret, t) = call bus enable_clocks s in if_clocked-Released ret t clocked
