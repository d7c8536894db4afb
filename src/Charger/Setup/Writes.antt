-- ===== src/Charger/Setup/Writes.antt =====
-- What max77705_charger_initialize of src/soc/max77705_charger.c has written when it succeeds.
use galaxy_s9plus_mainline_l.Common.{
  ℕ, List, [], ◌∷◌, none, some, ℤ, Ret, ◌≡◌, refl, sym, ap, ap₂, ◌∙◌, mul_div,
}
use galaxy_s9plus_mainline_l.Platform.{M}
use galaxy_s9plus_mainline_l.Charger.{
  Regmap, Constants, Event, field, bits, Field, cnfg_00, chg_cv_prm, S, regmap_field_write,
  regmap_update_bits,
}
use galaxy_s9plus_mainline_l.Charger.Properties.{set_float_voltage, float_reg}
use galaxy_s9plus_mainline_l.Charger.Setup.{
  Settings, first_fields, input_fields, last_fields, float_voltage, on_success, write_all,
  set_battery, after_first, initialize,
}

-- The log of field writes that all succeed, newest first, on top of `log`.
abbrev pub written : List (Field × ℕ) → List Event → List Event
written [] log = log
written ((f, v) ∷ rest) log = written rest (field f v none ∷ log)

-- The log of the whole configuration on top of `log`, with the results of the float voltage and of the
-- watchdog and the battery's design voltage.
abbrev pub finished : Settings → Ret → Ret → ℤ → List Event → List Event
finished c float watchdog uv log = written (last_fields c) (
    bits cnfg_00 c.wdten_mask 0 watchdog
    ∷ written (input_fields c)
        (field chg_cv_prm (float_reg (mul_div (float_voltage uv) 1 1000)) float ∷ log))

module _ {World : Type 0} (regs : Regmap World) (k : Constants) (c : Settings) where
  pub on_success_done :
      (r : Ret × S regs) (next : M (S regs) Ret)
      → (on_success regs k c r next).0 ≡ none
      → (r.0 ≡ none) × (on_success regs k c r next ≡ next r.1)
  on_success_done (none, t) next h = (refl, refl)
  on_success_done (some e, t) next h = absurd cc

  write_all_done :
      (fields : List (Field × ℕ)) (s : S regs)
      → (write_all regs k c fields s).0 ≡ none
      → (write_all regs k c fields s).1.log ≡ written fields s.log
  unfolding write_all
  write_all_done [] s h = refl
  write_all_done ((f, v) ∷ rest) s h =
      let r = regmap_field_write regs f v s in
      let (ok, e) = on_success_done r (write_all regs k c rest) h in
      ap (λ q. q.1.log) e
      ∙ write_all_done rest r.1 (ap (λ q. q.0) (sym e) ∙ h)
      ∙ ap (λ ret. written rest (field f v ret ∷ s.log)) ok

  write_all_battery :
      (fields : List (Field × ℕ)) (s : S regs)
      → (write_all regs k c fields s).0 ≡ none
      → (write_all regs k c fields s).1.voltage_max_design_uv ≡ s.voltage_max_design_uv
  unfolding write_all
  write_all_battery [] s h = refl
  write_all_battery ((f, v) ∷ rest) s h =
      let r = regmap_field_write regs f v s in
      let (ok, e) = on_success_done r (write_all regs k c rest) h in
      ap (λ q. q.1.voltage_max_design_uv) e ∙ write_all_battery rest r.1 (ap (λ q. q.0) (sym e) ∙ h)

  after_first_done :
      (s : S regs)
      → (after_first regs k c s).0 ≡ none
      → (float watchdog : Ret) × ((after_first regs k c s).1.log
          ≡ finished c float watchdog s.voltage_max_design_uv s.log)
  unfolding after_first set_float_voltage
  after_first_done s h =
      let (float, t) = set_float_voltage regs k (float_voltage s.voltage_max_design_uv) s in
      let inputs = write_all regs k c (input_fields c) t in
      let (ok, e) =
        on_success_done inputs
          (λ u.
            write_all regs k c (last_fields c) (regmap_update_bits regs cnfg_00 c.wdten_mask 0 u).1)
          h in
      let (watchdog, v) = regmap_update_bits regs cnfg_00 c.wdten_mask 0 inputs.1 in
      (
        float,
        watchdog,
        ap (λ q. q.1.log) e
            ∙ write_all_done (last_fields c) v (ap (λ q. q.0) (sym e) ∙ h)
            ∙ ap (λ l. written (last_fields c) (bits cnfg_00 c.wdten_mask 0 watchdog ∷ l))
                (write_all_done (input_fields c) t ok),
      )

  -- When the configuration of the charger succeeds it has made all its writes, in the order of the
  -- code and each with success, but for the two whose result is dropped: the float voltage, which is
  -- that of the battery node, and the watchdog.
  pub initialize_writes :
      (info : Ret) (uv : ℤ) (s : S regs)
      → (initialize regs k c info uv s).0 ≡ none
      → (float watchdog : Ret) × ((initialize regs k c info uv s).1.log
          ≡ finished c float watchdog uv (written (first_fields c) s.log))
  unfolding initialize
  initialize_writes (some e) uv s h = absurd cc
  initialize_writes none uv s h =
      let fields = first_fields c in
      let start = set_battery regs k c uv s in
      let first = write_all regs k c fields start in
      let (ok, e) = on_success_done first (after_first regs k c) h in
      let (float, watchdog, log) = after_first_done first.1 (ap (λ q. q.0) (sym e) ∙ h) in
      (
        float,
        watchdog,
        ap (λ q. q.1.log) e
            ∙ log
            ∙ ap₂ (finished c float watchdog) (write_all_battery fields start ok)
                (write_all_done fields start ok),
      )
