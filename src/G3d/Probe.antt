-- ===== src/G3d/Probe.antt =====
-- s9p_g3d_probe of src/soc/s9p-g3d.c over several probes: the mapping, the retries of the rail.
use galaxy_s9plus_mainline_l.Common.{
  ℕ, zero, suc, ◌+◌, ◌≡◌, ◌≢◌, refl, ap, ◌∙◌, Bool, true, false, none, some, Ret, inl, inr,
  Bool-cases, Option-cases, ltb, etimedout,
}
use galaxy_s9plus_mainline_l.Platform.{Hardware}
use galaxy_s9plus_mainline_l.Platform
use galaxy_s9plus_mainline_l.G3d.{
  G3dStep, G3dVars, S, pll_is, move_to, apply, buck6_reg, vsel_950mv,
}
use galaxy_s9plus_mainline_l.G3d.Pll.{set_pll-Settled}
use galaxy_s9plus_mainline_l.G3d.Driver.{
  map_registers, rail_polls, after_polls, rail_up, probe, try_probe, released, rail_attempts,
}

-- The mapping is as it was.
abbrev SameMap : G3dVars → G3dVars → Type 0
SameMap v w = (w.live ≡ v.live) × (w.mapped ≡ v.mapped)

module _ {World : Type 0} (hw : Hardware World) where
  move_to-SameMap :
      (there : Bool) (st : G3dStep) (s : S hw) → SameMap s.vars (move_to hw there st s).1.vars
  unfolding move_to
  move_to-SameMap true st s = (refl, refl)
  move_to-SameMap false st s =
      let o = (set_pll-Settled hw st s).0 in
      (ap (λ (v : G3dVars). v.live) o, ap (λ (v : G3dVars). v.mapped) o)

  apply-SameMap : (s : S hw) → SameMap s.vars (apply hw s).1.vars
  unfolding apply pll_is
  apply-SameMap s = elim (Bool-cases s.vars.domain_powered) [
    | inl on ↦ simp on (move_to-SameMap _ _ _)
    | inr off ↦ simp off (refl, refl)
  ]

  rail_polls-SameMap : (n : ℕ) (r : Ret) (s : S hw) → SameMap s.vars (rail_polls hw n r s).1.vars
  unfolding rail_polls
  rail_polls-SameMap zero r s = (refl, refl)
  rail_polls-SameMap (suc n) r s =
      elim (Option-cases (hw.pmic_put buck6_reg vsel_950mv s.world).0) [
        | inl e ↦ rw (e, rail_polls) (refl, refl)
        | inr (x, e) ↦ rw (e, rail_polls) (rail_polls-SameMap n (some x) _)
      ]

  after_polls-SameMap : (r : Ret) (s : S hw) → SameMap s.vars (after_polls hw r s).1.vars
  unfolding after_polls
  after_polls-SameMap none s =
      apply-SameMap
        (record ((Platform.delay hw 200 s).1) { vars = record (s.vars) { rail_set = true } })
  after_polls-SameMap (some e) s = elim (Bool-cases (ltb (s.vars.attempts + 1) rail_attempts)) [
    | inl more ↦ rw more (refl, refl)
    | inr last ↦ rw last (refl, refl)
  ]

  rail_up-SameMap : (s : S hw) → SameMap s.vars (rail_up hw s).1.vars
  unfolding rail_up
  rail_up-SameMap s =
      let t : S hw = (rail_polls hw 25 (some etimedout) s).1 in
      let (l1, m1) = rail_polls-SameMap 25 (some etimedout) s in
      let (l2, m2) = after_polls-SameMap (rail_polls hw 25 (some etimedout) s).0 t in
      (l2 ∙ l1, m2 ∙ m1)

  map_registers-mapped :
      (c d : Bool) (s : S hw) → s.vars.mapped ≡ true → map_registers hw c d s ≡ (none, s)
  unfolding map_registers
  map_registers-mapped c d s m = simp m

  -- A probe of registers that are mapped already maps nothing.
  probe-SameMap :
      (c d : Bool) (s : S hw) → s.vars.mapped ≡ true → SameMap s.vars (probe hw c d s).1.vars
  unfolding probe
  probe-SameMap c d s m =
      let e = map_registers-mapped c d s m in rw (e, probe, e) (rail_up-SameMap s)

  released-live :
      (r : Ret) (s : S hw)
      → let t = (released hw r s).1 in
        (r ≢ none → t.vars.live ≡ false)
        × (s.vars.live ≡ false → t.vars.live ≡ false)
        × ((released hw r s).0 ≡ r)
  unfolding released
  released-live none s = ((λ n. absurd (n refl)), (λ e. e), refl)
  released-live (some x) s = ((λ n. refl), (λ e. refl), refl)

  -- A probe that fails with `g3d_con0` set leaves it set, while devres unmaps the registers. The
  -- next probe, whatever it is offered, maps nothing: whether it fails or returns 0, the registers
  -- behind `g3d_con0` are not mapped.
  pub failed_probe_stale :
      (a b c d : Bool) (s : S hw)
      → (try_probe hw a b s).0 ≢ none
      → (try_probe hw a b s).1.vars.mapped ≡ true
      → (try_probe hw c d (try_probe hw a b s).1).1.vars.live ≡ false
  unfolding try_probe
  failed_probe_stale a b c d s bad m =
      let (r, u) = probe hw a b s in
      let t : S hw = (released hw r u).1 in
      let (gone, _, same) = released-live r u in
      let off : t.vars.live ≡ false = gone (λ e. bad (same ∙ e)) in
      let (l, _) = probe-SameMap c d t m in
      (released-live (probe hw c d t).0 (probe hw c d t).1).1 (l ∙ off)
