-- ===== src/G3d/Driver.antt =====
-- The entry points of src/soc/s9p-g3d.c: module parameters, the power domain's lock, the thermal
-- cap, the clock provider, and probe. The mutex is held from the first access to the variables to
-- the last in each of them, so each is one step.
use galaxy_s9plus_mainline_l.Common.{
  ℕ, zero, suc, ◌+◌, ◌*◌, ◌/◌, Bool, true, false, not, ◌&&◌, Option, none, some, ◌⊎◌, inl, inr, ltb,
  if◌then◌else◌, Errno, einval, eagain, eio, enomem, etimedout, eprobe_defer, Ret,
}
use galaxy_s9plus_mainline_l.Platform.{Hardware, Machine, M, ◌>>=◌, ◌>>◌, pure, get_vars, set_vars}
use galaxy_s9plus_mainline_l.Platform
use galaxy_s9plus_mainline_l.G3d.{
  G3dStep, G3dVars, S, find, step_below, step_572, step_260, buck6_reg, vsel_950mv, pll_is, apply,
}

abbrev pub is_some_step : Option G3dStep → Bool
is_some_step none = false
is_some_step (some st) = true

abbrev pub same : Bool → Bool → Bool
same true b = b
same false b = not b

abbrev pub ready : G3dVars → Bool
ready v = v.mapped && v.rail_set

abbrev pub rail_attempts : ℕ
rail_attempts = 40

module _ {World : Type 0} (hw : Hardware World) where
  -- The write of s9p_g3d_step_volt_set, and the flag where it went well.
  unfoldable pub rail_for_flag : Bool → Option G3dStep → M (S hw) Ret
  rail_for_flag enable none s = (some eio, s)
  rail_for_flag enable (some st) s =
      let (ret, t) = Platform.pmic_write hw buck6_reg (if enable then st.vsel else vsel_950mv) s in
      elim ret [
        | none ↦
            let u = (Platform.delay hw 200 t).1 in
            (none, record u { vars = record (u.vars) { step_volt = enable } })
        | some e ↦ (some e, t)
      ]

  -- `parsed` is what kstrtobool made of the text.
  unfoldable pub step_volt_set : Errno ⊎ Bool → M (S hw) Ret
  unfolding rail_for_flag
  step_volt_set (inl e) s = (some e, s)
  step_volt_set (inr enable) s =
      if not (same enable s.vars.step_volt) && s.vars.rail_set
      then rail_for_flag enable (find s.vars.cur_khz) s
      else (none, record s { vars = record (s.vars) { step_volt = enable } })

  -- The microvolts behind a PMIC read, which rail_uv shows.
  unfoldable pub rail_uv_get : M (S hw) (Errno ⊎ ℕ)
  rail_uv_get s =
      let ((ret, value), t) = Platform.pmic_read hw buck6_reg s in
      (elim ret [ none ↦ inr (300000 + value * 6250) | some e ↦ inl e ], t)

  unfoldable pub domain_unlock : Bool → M (S hw) (Unit {0})
  domain_unlock powered s =
      let t = record s { vars = record (s.vars) { domain_powered = powered } } in
      if powered && ready s.vars then (tt, (apply hw t).1) else (tt, t)

  -- s9p_g3d_set_khz, the thermal cap.
  unfoldable pub set_khz : ℕ → M (S hw) Ret
  set_khz khz s =
      if not (is_some_step (find khz))
      then (some einval, s)
      else if not (ready s.vars)
      then (some eagain, s)
      else apply hw (record s { vars = record (s.vars) { thermal_khz = khz } })

  -- s9p_g3d_max_set; `parsed` is what kstrtouint made of the text.
  unfoldable pub max_set : Errno ⊎ ℕ → M (S hw) Ret
  max_set (inl e) s = (some e, s)
  max_set (inr khz) s =
      let t = record s { vars = record (s.vars) { max_khz = (step_below khz).khz } } in
      if ready s.vars then apply hw t else (none, t)

  unfoldable pub clk_recalc : S hw → ℕ
  clk_recalc s = s.vars.cur_khz * 1000

  -- s9p_g3d_clk_set.
  unfoldable pub clk_set : ℕ → M (S hw) Ret
  clk_set rate s =
      if not (ready s.vars)
      then (some eagain, s)
      else apply hw
          (record s { vars = record (s.vars) { req_khz = (step_below (rate / 1000)).khz } })

  -- The loop of s9p_g3d_rail_up: `polls` writes at most, 20 ms apart.
  unfoldable pub rail_polls : ℕ → Ret → M (S hw) Ret
  rail_polls zero ret s = (ret, s)
  rail_polls (suc polls) ret s =
      let (r, t) = Platform.pmic_write hw buck6_reg vsel_950mv s in
      elim r [
        | none ↦ (none, t)
        | some e ↦ rail_polls polls (some e) ((Platform.delay hw 20000 t).1)
      ]

  unfoldable pub after_polls : Ret → M (S hw) Ret
  after_polls none s =
      let t = (Platform.delay hw 200 s).1 in
      apply hw (record t { vars = record (t.vars) { rail_set = true } })
  after_polls (some e) s =
      let n = s.vars.attempts + 1 in
      let t = record s { vars = record (s.vars) { attempts = n } } in
      if ltb n rail_attempts then (some eprobe_defer, t) else (some e, t)

  unfoldable pub rail_up : M (S hw) Ret
  unfolding rail_polls after_polls
  rail_up s = let (ret, t) = rail_polls 25 (some etimedout) s in after_polls ret t

  -- The mapping of s9p_g3d_probe and the rate that it finds; `mapped` says whether the three
  -- devm_ioremap calls gave an address. As in the source, a failed mapping leaves `g3d_con0` set
  -- where only that call went well.
  unfoldable pub map_registers : Bool → Bool → M (S hw) Ret
  map_registers con0_ok others_ok s =
      if s.vars.mapped
      then (none, s)
      else if con0_ok && others_ok
      then (let (there, t) = pll_is hw step_572 s in
          (
            none,
            record t {
              vars = record (t.vars) {
                mapped = true;
                live = true;
                cur_khz = if there then step_572.khz else step_260.khz;
              };
            },
          ))
      else (some enomem, record s { vars = record (s.vars) { mapped = con0_ok } })

  -- s9p_g3d_probe up to the registration of the clock, which is the clock framework's.
  unfoldable pub probe : Bool → Bool → M (S hw) Ret
  unfolding map_registers rail_up
  probe con0_ok others_ok s =
      let (ret, t) = map_registers con0_ok others_ok s in
      elim ret [ none ↦ rail_up t | some e ↦ (some e, t) ]

  -- The driver core's probe: where probe fails, devres unmaps what devm_ioremap mapped.
  unfoldable pub released : Ret → M (S hw) Ret
  released none s = (none, s)
  released (some e) s = (some e, record s { vars = record (s.vars) { live = false } })

  unfoldable pub try_probe : Bool → Bool → M (S hw) Ret
  unfolding released
  try_probe con0_ok others_ok s = let (ret, t) = probe con0_ok others_ok s in released ret t

-- s9p_g3d_clk_determine: the rate that will really be used.
unfoldable pub clk_determine : ℕ → ℕ
clk_determine rate = (step_below (rate / 1000)).khz * 1000
