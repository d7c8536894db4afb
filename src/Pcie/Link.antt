-- ===== src/Pcie/Link.antt =====
-- The link and the interrupt handler of src/pci/pcie-exynos9810.c.
use galaxy_s9plus_mainline_l.Common.{
  ℕ, ◌*◌, ◌≡◌, ◌⊎◌, refl, inl, inr, Bool, true, false, List, [], ◌∷◌, Ret, none, some, etimedout,
  bit, Bool-cases,
}
use galaxy_s9plus_mainline_l.Platform.{M, ◌>>=◌, ◌>>◌, pure}
use galaxy_s9plus_mainline_l.Bus.{Bus, readl, writel, poll, notify, when, timed}
use galaxy_s9plus_mainline_l.Pcie.{
  Win, elbi, Call, perst, irq_enter, irq_exit, handle_intx, P, app_ltssm_enable, irq_pulse,
  irq_level, irq_special, clear_status, rx_elecidle,
}

abbrev pub rdlh_linkup : ℕ
rdlh_linkup = 0x074

module _ {World : Type 0} (bus : Bus Win Call World) where
  unfoldable pub link_up : M (P bus) Bool
  link_up = do v ← readl bus elbi rdlh_linkup; pure (bit 4 v)

  unfoldable pub stop_link : M (P bus) (Unit {0})
  stop_link = do writel bus 0x0 elbi app_ltssm_enable; notify bus (perst true)

  -- start_link up to the end of its wait, with the value read last.
  unfoldable pub try_link : M (P bus) ℕ
  try_link = do
    rx_elecidle bus false
    writel bus 0x1 elbi app_ltssm_enable
    poll bus elbi rdlh_linkup (bit 4) 500000

  abbrev give_up : Ret → M (P bus) Ret
  give_up none = pure none
  give_up (some e) = do writel bus 0x0 elbi app_ltssm_enable; notify bus (perst true); pure (some e)

  unfoldable pub start_link : M (P bus) Ret
  unfolding try_link
  start_link = do v ← try_link; give_up (timed (bit 4 v))

  -- The loop over the INTx lines.
  unfoldable pub dispatch : ℕ → List ℕ → M (P bus) (Unit {0})
  dispatch v [] s = (tt, s)
  dispatch v (i ∷ is) s = dispatch v is (when (bit (2 * i) v) (notify bus (handle_intx i)) s).1

  unfoldable pub irq_handler : M (P bus) (Unit {0})
  irq_handler = do
    notify bus irq_enter
    v ← readl bus elbi irq_pulse
    writel bus v elbi irq_pulse
    dispatch v (0 ∷ 1 ∷ 2 ∷ 3 ∷ [])
    clear_status bus irq_level
    clear_status bus irq_special
    notify bus irq_exit

  -- What start_link has done when it comes back, given the value that its wait read last.
  abbrev pub Ended : ℕ → P bus → Ret × P bus → Type 0
  Ended v u (ret, t) =
      ((bit 4 v ≡ true) × (ret ≡ none) × (t ≡ u))
      ⊎ ((bit 4 v ≡ false) × (ret ≡ some etimedout) × (t ≡ (stop_link u).1))

  -- A link that comes up in time is left alone, and 0 returned. Otherwise the error is returned, and
  -- the port is as stop_link leaves it: training off, and the endpoint in reset.
  pub start_link-stop_link : (s : P bus) → let (v, u) = try_link s in Ended v u (start_link s)
  unfolding start_link stop_link
  start_link-stop_link s =
      let (v, u) = try_link s in
      elim (Bool-cases (bit 4 v)) [
        | inl up ↦ inl (up, rw up refl, rw up refl)
        | inr down ↦ inr (down, rw down refl, rw down refl)
      ]
