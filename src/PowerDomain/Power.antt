-- ===== src/PowerDomain/Power.antt =====
-- The outcomes of s9p_g3d_power_on and s9p_g3d_power_off of src/soc/s9p-g3d-pd.c, and what the clock
-- driver is told.
use galaxy_s9plus_mainline_l.Common.{
  ℕ, ◌≡◌, refl, ap, ◌∙◌, Bool, true, false, not, ◌&&◌, Bool-cases, none, some, Ret, is_ok,
  etimedout, Errno, inl, inr, arith,
}
use galaxy_s9plus_mainline_l.Platform.{Hardware, Machine}
use galaxy_s9plus_mainline_l.Platform
use galaxy_s9plus_mainline_l.G3d.{G3dVars, apply, pll_is, move_to, G3dStep}
use galaxy_s9plus_mainline_l.G3d
use galaxy_s9plus_mainline_l.G3d.Pll.{set_pll-Settled}
use galaxy_s9plus_mainline_l.G3d.Driver.{domain_unlock, ready}
use galaxy_s9plus_mainline_l.PowerDomain.{
  Domain, S, rmw, unlock, low_power_init, secure, brought_up, power_on, undo, undone, cut, saved,
  power_off, poll_ret, is_on, status, save, wakeup, local_pwr_cfg, configuration,
}

module _ {World : Type 0} (hw : Hardware World) where
  move_to-powered :
      (there : Bool) (st : G3dStep) (s : G3d.S hw)
      → (move_to hw there st s).1.vars.domain_powered ≡ s.vars.domain_powered
  unfolding move_to
  move_to-powered true st s = refl
  move_to-powered false st s = ap (λ (v : G3dVars). v.domain_powered) (set_pll-Settled hw st s).0

  apply-powered : (s : G3d.S hw) → (apply hw s).1.vars.domain_powered ≡ s.vars.domain_powered
  unfolding apply pll_is
  apply-powered s = elim (Bool-cases s.vars.domain_powered) [
    | inl on ↦ simp on (let e = move_to-powered _ _ _ in e ∙ on)
    | inr off ↦ simp off refl
  ]

  domain_unlock-powered :
      (b : Bool) (s : G3d.S hw) → (domain_unlock hw b s).1.vars.domain_powered ≡ b
  unfolding domain_unlock
  domain_unlock-powered false s = refl
  domain_unlock-powered true s = elim (Bool-cases (ready s.vars)) [
    | inl up ↦ rw (domain_unlock, up) (apply-powered _)
    | inr down ↦ rw (domain_unlock, down) refl
  ]

  brought_up-powered :
      (r : Ret) (s : S hw)
      → let (ret, t) = brought_up hw r s in t.vars.gpu.domain_powered ≡ is_ok ret
  unfolding brought_up unlock
  brought_up-powered none s = domain_unlock-powered true _
  brought_up-powered (some e) s = domain_unlock-powered false _

  -- The clock driver takes the GPU's registers for accessible after a power-up exactly if it
  -- succeeded, whichever of its steps failed.
  pub power_on-powered :
      (s : S hw) → (power_on hw s).1.vars.gpu.domain_powered ≡ is_ok (power_on hw s).0
  unfolding power_on
  power_on-powered s = brought_up-powered _ _

  -- What a power-down leaves: the clock driver may touch the registers exactly if it failed and the
  -- kernel goes on, and a power-down that timed out is not tried again.
  abbrev pub Down : Ret → Domain → Type 0
  Down ret d =
      (d.gpu.domain_powered ≡ not (is_ok ret) && not d.panicked)
      × (ret ≡ some etimedout → d.always_on ≡ true)

  low_power_init-panicked : (s : S hw) → (low_power_init hw s).1.vars.panicked ≡ s.vars.panicked
  unfolding low_power_init rmw
  low_power_init-panicked s = ground arith

  secure-panicked : (d : ℕ) (s : S hw) → (secure hw d s).1.vars.panicked ≡ s.vars.panicked
  unfolding secure
  secure-panicked d s = ground arith

  after_poll-panicked :
      (r : Ret) (s : S hw)
      → (elim r as (λ _. Ret × S hw) [
        | none ↦ secure hw wakeup s
        | some e ↦ (some e, s)
      ]).1.vars.panicked
        ≡ s.vars.panicked
  after_poll-panicked none s = secure-panicked wakeup s
  after_poll-panicked (some e) s = refl

  undo-panicked : (s : S hw) → (undo hw s).1.vars.panicked ≡ s.vars.panicked
  unfolding undo
  undo-panicked s =
      let (r, t) =
        poll_ret hw status is_on 10000 (Platform.writel hw configuration local_pwr_cfg s).1 in
      after_poll-panicked r t

  undone-Down :
      (e : Errno) (r : Ret) (s : S hw)
      → s.vars.panicked ≡ false
      → Down (undone hw e r s).0 (undone hw e r s).1.vars
  unfolding undone unlock
  undone-Down e none s p = (simp p (domain_unlock-powered true _), λ x. refl)
  undone-Down e (some x) s p = (domain_unlock-powered false _, λ x. refl)

  cut-Down :
      (r : Ret) (s : S hw) → s.vars.panicked ≡ false → Down (cut hw r s).0 (cut hw r s).1.vars
  unfolding cut unlock
  cut-Down (some e) s p = undone-Down e (undo hw s).0 (undo hw s).1 (undo-panicked s ∙ p)
  cut-Down none s p = (domain_unlock-powered false _, λ x. absurd (cc))

  saved-Down :
      (r : Ret) (s : S hw) → s.vars.panicked ≡ false → Down (saved hw r s).0 (saved hw r s).1.vars
  unfolding saved unlock
  saved-Down (some e) s p = (simp p (domain_unlock-powered true _), λ x. absurd (cc))
  saved-Down none s p = cut-Down _ _ p

  -- A power-down that no recovery override forbids: whichever of its steps fails, and whether the
  -- roll-back works, the clock driver takes the registers for accessible exactly if the power-down
  -- failed and the kernel did not stop, and a power-down that timed out sets the override.
  pub power_off-Down :
      (s : S hw)
      → s.vars.always_on ≡ false
      → s.vars.panicked ≡ false
      → Down (power_off hw s).0 (power_off hw s).1.vars
  unfolding power_off
  power_off-Down s a p =
      let t = (low_power_init hw s).1 in
      let q = secure-panicked save t ∙ low_power_init-panicked s ∙ p in
      simp a (saved-Down (secure hw save t).0 (secure hw save t).1 q)
