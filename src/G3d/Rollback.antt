-- ===== src/G3d/Rollback.antt =====
-- The `restore` label of s9p_g3d_set_pll of src/soc/s9p-g3d.c: what the way back from a failed rate
-- change does and what it makes of the rate.
use galaxy_s9plus_mainline_l.Common.{
  ℕ, ◌≡◌, refl, Bool, true, false, ◌∷◌, some, Errno, inl, inr, Bool-cases, bit, not, ◌&&◌,
}
use galaxy_s9plus_mainline_l.Platform.{Hardware, write}
use galaxy_s9plus_mainline_l.G3d.{
  S, con0_addr, locktime_addr, unselect, disable, rollback_mux, rollback_pll, give_up, restore,
}

module _ {World : Type 0} (hw : Hardware World) (old_con0 old_locktime : ℕ) where
  -- What the three waits of the way back read last: for the oscillator, for the lock of the PLL on
  -- its old word, and for the old selection.
  abbrev pub now : S hw → ℕ × World
  now s = hw.read_reg con0_addr s.world

  abbrev pub on_oscillator : S hw → ℕ × World
  on_oscillator s =
      hw.poll_reg con0_addr (λ x. not (bit 7 x)) 1000
        (hw.write_reg con0_addr (unselect (now s).0) (now s).1)

  abbrev on_lock : S hw → ℕ × World
  on_lock s =
      let (v, w) = on_oscillator s in
      let stopped =
        hw.write_reg locktime_addr old_locktime (hw.write_reg con0_addr (disable v) w) in
      hw.poll_reg con0_addr (bit 29) 20000 (hw.write_reg con0_addr (unselect old_con0) stopped)

  abbrev on_old : S hw → ℕ × World
  on_old s =
      hw.poll_reg con0_addr (λ x. not (bit 7 x)) 1000
        (hw.write_reg con0_addr old_con0 (on_lock s).1)

  abbrev pub came_back : S hw → Bool
  came_back s =
      not (bit 7 (on_oscillator s).0) && (bit 29 (on_lock s).0 && not (bit 7 (on_old s).0))

  -- The way back from a failed rate change returns the error of the change. Where the multiplexer
  -- settles on the oscillator, the PLL locks again and the multiplexer settles on the old selection,
  -- the rate stays, and the old lock time and the old word have been written back in five writes,
  -- with the PLL stopped in between and the old selection last. Where one of these waits runs out, the rate is
  -- 26 MHz and no other variable has changed.
  pub restore_lem :
      (e : Errno) (s : S hw)
      → let (ret, t) = restore hw old_con0 old_locktime e s in
        (ret ≡ some e)
        × (came_back s ≡ true
            → (t.vars ≡ s.vars)
              × (t.log
                  ≡ write con0_addr old_con0
                    ∷ write con0_addr (unselect old_con0)
                    ∷ write locktime_addr old_locktime
                    ∷ write con0_addr (disable (on_oscillator s).0)
                    ∷ write con0_addr (unselect (now s).0)
                    ∷ s.log))
        × (came_back s ≡ false → t.vars ≡ record (s.vars) { cur_khz = 26000 })
  unfolding restore rollback_pll rollback_mux give_up
  restore_lem e s = elim (Bool-cases (bit 7 (on_oscillator s).0)) [
    | inl stuck ↦ simp stuck (refl, λ h. absurd cc, λ h. refl)
    | inr moved ↦ elim (Bool-cases (bit 29 (on_lock s).0)) [
      | inr unlocked ↦ simp (moved, unlocked) (refl, λ h. absurd cc, λ h. refl)
      | inl locked ↦ elim (Bool-cases (bit 7 (on_old s).0)) [
        | inl off ↦ simp (moved, locked, off) (refl, λ h. absurd cc, λ h. refl)
        | inr back ↦ simp (moved, locked, back) (refl, λ h. (refl, refl), λ h. absurd cc)
      ]
    ]
  ]
