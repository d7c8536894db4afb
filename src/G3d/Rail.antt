-- ===== src/G3d/Rail.antt =====
-- The GPU's rail of src/soc/s9p-g3d.c covers its rate: no rate change, successful or not, leaves the
-- GPU on a clock for which the rail was last set too low.
use galaxy_s9plus_mainline_l.Common.{
  ℕ, ◌<◌, ◌≤◌, ◌≡◌, refl, ap, Bool, true, false, ◌∷◌, none, some, Ret, arith, ◌⊎◌, inl, inr,
  Bool-cases, Option-cases, if◌then◌else◌, ltb, ◌&&◌, ◌==◌,
}
use galaxy_s9plus_mainline_l.Platform.{Hardware, Machine, M, Event, rail, pause}
use galaxy_s9plus_mainline_l.Platform
use galaxy_s9plus_mainline_l.G3d.{
  G3dStep, G3dVars, S, set_pll, settle, after_rail, move_clock, buck6_reg, vsel_950mv,
}
use galaxy_s9plus_mainline_l.G3d.Pll.{last_rail, Outcome, OnlyRate, move_clock-Outcome}

-- The voltage selection that a rate needs: the table's, and none for the 26 MHz oscillator.
abbrev pub vsel_for : ℕ → ℕ
vsel_for khz =
    if khz == 572000
    then 0x68
    else if khz == 455000
    then 0x60
    else if khz == 260000
    then 0x58
    else 0

abbrev pub needed_vsel : G3dVars → ℕ
needed_vsel v = if v.rail_set then (if v.step_volt then vsel_for v.cur_khz else vsel_950mv) else 0

-- One of the three steps.
abbrev pub IsStep : G3dStep → Type 0
IsStep st =
    ((st.khz ≡ 572000) × (st.vsel ≡ 0x68))
    ⊎ ((st.khz ≡ 455000) × (st.vsel ≡ 0x60))
    ⊎ ((st.khz ≡ 260000) × (st.vsel ≡ 0x58))

-- A step's rate, or one below all steps.
abbrev pub IsRate : ℕ → Type 0
IsRate khz = (khz ≡ 572000) ⊎ (khz ≡ 455000) ⊎ (khz ≡ 260000) ⊎ (khz ≤ 26000)

pub record RailCovers (v : G3dVars) (selected : ℕ) : Type 0 where
  pub known : IsRate v.cur_khz
  pub covered : needed_vsel v ≤ selected

same_flags :
    (v w : G3dVars) → OnlyRate v w → (w.rail_set ≡ v.rail_set) × (w.step_volt ≡ v.step_volt)
same_flags v w o = (ap (λ (x : G3dVars). x.rail_set) o, ap (λ (x : G3dVars). x.step_volt) o)

module _ {v w : G3dVars} {st : G3dStep} {before after : ℕ} {ret : Ret} where
  -- The end of a rate change, by the way that it took: down with the rail lowered last, up with
  -- the rail raised before, and with the rail held.
  IsRate-after :
      {lower : Bool}
      → IsStep st
      → IsRate v.cur_khz
      → Outcome lower st v before ret w after
      → IsRate w.cur_khz
  IsRate-after is known o = elim (Option-cases ret) [
    | inl e ↦ let r : w.cur_khz ≡ st.khz = o.reached e in ground arith
    | inr (x, e) ↦
        let r : (w.cur_khz ≡ v.cur_khz) ⊎ (w.cur_khz ≡ 26000) = o.kept (λ n. cc) in ground arith
  ]

  covers_down :
      IsStep st
      → RailCovers v before
      → st.khz ≤ v.cur_khz
      → v.step_volt ≡ true
      → Outcome true st v before ret w after
      → needed_vsel w ≤ after
  covers_down is h le volt o =
      let (e1, e2) = same_flags v w o.others in
      elim (Option-cases ret) [
        | inl e ↦ let r : w.cur_khz ≡ st.khz = o.reached e in ground arith
        | inr (x, e) ↦
            let r : (w.cur_khz ≡ v.cur_khz) ⊎ (w.cur_khz ≡ 26000) = o.kept (λ n. cc) in ground arith
      ]

  covers_up :
      IsStep st
      → IsRate v.cur_khz
      → v.cur_khz < st.khz
      → before ≡ st.vsel
      → v.step_volt ≡ true
      → Outcome false st v before ret w after
      → needed_vsel w ≤ after
  covers_up is known lt sel volt o =
      let (e1, e2) = same_flags v w o.others in
      elim (Option-cases ret) [
        | inl e ↦ let r : w.cur_khz ≡ st.khz = o.reached e in ground arith
        | inr (x, e) ↦
            let r : (w.cur_khz ≡ v.cur_khz) ⊎ (w.cur_khz ≡ 26000) = o.kept (λ n. cc) in ground arith
      ]

  covers_held :
      RailCovers v before
      → v.step_volt && v.rail_set ≡ false
      → Outcome false st v before ret w after
      → needed_vsel w ≤ after
  covers_held h held o = let (e1, e2) = same_flags v w o.others in ground arith

module _ {World : Type 0} (hw : Hardware World) where
  abbrev pub Covers : S hw → Type 0
  Covers s = RailCovers s.vars (last_rail s.log)

  held-Covers :
      (old_con0 old_locktime : ℕ) (st : G3dStep) (s : S hw)
      → IsStep st
      → Covers s
      → s.vars.step_volt && s.vars.rail_set ≡ false
      → Covers (move_clock hw old_con0 old_locktime false st s).1
  held-Covers old_con0 old_locktime st s is h held =
      let o = move_clock-Outcome hw old_con0 old_locktime false st s in
      record { known = IsRate-after is h.known o; covered = covers_held h held o }

  down-Covers :
      (old_con0 old_locktime : ℕ) (st : G3dStep) (s : S hw)
      → IsStep st
      → Covers s
      → st.khz ≤ s.vars.cur_khz
      → s.vars.step_volt ≡ true
      → Covers (move_clock hw old_con0 old_locktime true st s).1
  down-Covers old_con0 old_locktime st s is h le volt =
      let o = move_clock-Outcome hw old_con0 old_locktime true st s in
      record { known = IsRate-after is h.known o; covered = covers_down is h le volt o }

  up-Covers :
      (old_con0 old_locktime : ℕ) (st : G3dStep) (r : Ret) (s t : S hw)
      → IsStep st
      → Covers s
      → s.vars.cur_khz < st.khz
      → s.vars.step_volt ≡ true
      → t.vars ≡ s.vars
      → t.log ≡ rail buck6_reg st.vsel r ∷ s.log
      → let (r', t') = settle hw r t in
        Covers (after_rail hw old_con0 old_locktime false st r' t').1
  unfolding settle after_rail
  up-Covers old_con0 old_locktime st (some e) s t is h lt volt ev el = rw (ev, el) h
  up-Covers old_con0 old_locktime st none s t is h lt volt ev el =
      let t' : S hw = (Platform.delay hw 200 t).1 in
      let raised : last_rail t'.log ≡ st.vsel = rw el refl in
      let known : IsRate t.vars.cur_khz = rw ev h.known in
      let lt' : t.vars.cur_khz < st.khz = rw ev lt in
      let volt' : t.vars.step_volt ≡ true = rw ev volt in
      let o = move_clock-Outcome hw old_con0 old_locktime false st t' in
      record { known = IsRate-after is known o; covered = covers_up is known lt' raised volt' o }

  -- A rate change to a step, whatever the registers and the PMIC answer, and on every path through
  -- its errors and its rollback: where the rail was last set high enough for the rate, it is so
  -- again.
  pub set_pll-Covers : (st : G3dStep) (s : S hw) → IsStep st → Covers s → Covers (set_pll hw st s).1
  unfolding set_pll after_rail
  set_pll-Covers st s is h = elim (Bool-cases (s.vars.step_volt && s.vars.rail_set)) [
    | inr held ↦ rw held (held-Covers _ _ st _ is h held)
    | inl scaled ↦ elim (Bool-cases (ltb s.vars.cur_khz st.khz)) [
      | inl up ↦
          rw (scaled, up) (up-Covers _ _ st _ s _ is h (ground arith) (ground arith) refl refl)
      | inr down ↦ rw (scaled, down) (down-Covers _ _ st _ is h (ground arith) (ground arith))
    ]
  ]
