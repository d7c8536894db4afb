-- ===== src/Charger/Properties/RoundTrip.antt =====
-- What src/soc/max77705_charger.c reads back of a property it set.
use galaxy_s9plus_mainline_l.Common.{
  ℕ, ◌+◌, ◌*◌, ◌/◌, ◌%◌, ◌^◌, ◌≤◌, ◌<◌, ◌≡◌, ◌≢◌, ◌⊎◌, refl, ap, ◌∙◌, true, false, ◌==◌, leb, ltb,
  if◌then◌else◌, none, arith, pos,
}
use native.Mathlib.Nat.{le-div_iff_mul-le, div-mul-le_self, lt-div-mul-add, mod-eq_of_lt}
use galaxy_s9plus_mainline_l.Charger.{
  Regmap, Constants, S, chg_chgin_lim, chg_cv_prm, chg_en, clamp_val, set_integer,
  regmap_field_write,
}
use galaxy_s9plus_mainline_l.Charger.Memory.{Memory}
use galaxy_s9plus_mainline_l.Charger.Properties.{
  int_val, charge_behaviour, input_current_limit, constant_charge_voltage, status, set_property,
  get_property, float_reg, float_mv, set_float_voltage, get_input_current, get_float_voltage,
  get_status, get_behaviour, set_behaviour, input_current, decoded, as_value, details_unless_off,
}

add_mul_one : (q step : ℕ) → (q + 1) * step ≡ q * step + step
add_mul_one q step = ground arith

-- The current that the input limit field stands for after the setter lies above the asked one, by
-- at most one step.
input_current_step :
    {World : Type 0} (regs : Regmap World) (k : Constants) (v : ℕ)
    → 0 < k.current_chgin_step
    → 4 * k.current_chgin_step ≤ v
    → (v < input_current regs k (v / k.current_chgin_step))
      × (input_current regs k (v / k.current_chgin_step) ≤ v + k.current_chgin_step)
unfolding input_current
input_current_step regs k v positive enough =
    let step = k.current_chgin_step in
    let many : 4 ≤ v / step = (le-div_iff_mul-le positive).1 enough in
    let below : v / step * step ≤ v = div-mul-le_self v step in
    let above : v < v / step * step + step = lt-div-mul-add positive in
    let few : leb (v / step) 3 ≡ false = ground arith in
    let next : (v / step + 1) * step ≡ v / step * step + step = add_mul_one (v / step) step in
    rw (few, next) (above, omega arith)

float_reg_small : (mv : ℕ) → float_reg (pos mv) ≤ 0x23
unfolding float_reg
float_reg_small mv = ground arith

float_uv :
    (uv : ℕ)
    → 4000000 ≤ uv
    → let got = float_mv (float_reg (pos (uv * 1 / 1000))) * 1000 in
      ((uv < 4500000) × (got ≤ uv) × (uv < got + (if ltb uv 4200000 then 50000 else 10000)))
      ⊎ ((4500000 ≤ uv) × (got ≡ 4510000))
unfolding float_reg float_mv
float_uv uv lo = ground arith

module _ {World : Type 0} (regs : Regmap World) (mem : Memory regs) (k : Constants) where
  -- The input current limit that is read back after setting it, where both calls of the regmap
  -- succeed, lies above the one that was asked for, by at most one step: the setter stores the
  -- number of steps, the getter takes the field for one step less. The asked limit lies in the range
  -- of the clamp and is at least four steps, and the field holds every limit in that range.
  pub input_current_limit_read_back :
      (s : S regs) (v : ℕ)
      → 0 < k.current_chgin_step
      → 4 * k.current_chgin_step ≤ v
      → k.current_chgin_min ≤ v
      → v ≤ k.current_chgin_max
      → v / k.current_chgin_step < 2 ^ mem.width chg_chgin_lim
      → let (ret, t) = set_property regs k input_current_limit (pos v) s in
        ret ≡ none
        → (regs.field_read chg_chgin_lim t.world).0.0 ≡ none
        → (got : ℕ) × ((get_property regs k input_current_limit (pos 0) t).0
            ≡ (none, int_val (pos got)))
          × (v < got)
          × (got ≤ v + k.current_chgin_step)
  unfolding set_property get_property set_integer as_value get_input_current decoded
  input_current_limit_read_back s v positive enough lo hi fits wrote seen =
      let (ret, t) = set_property regs k input_current_limit (pos v) s in
      let above : ltb v k.current_chgin_min ≡ false = ground arith in
      let below : ltb k.current_chgin_max v ≡ false = ground arith in
      let clamped : clamp_val regs (pos v) k.current_chgin_min k.current_chgin_max ≡ v =
        rw (above, below) refl in
      let same : (regs.field_read chg_chgin_lim t.world).0.1 ≡ v / k.current_chgin_step =
        mem.read_back _ _ seen ∙ mem.write_takes _ _ _ wrote ∙ rw clamped (mod-eq_of_lt fits) in
      let (more, most) = input_current_step regs k v positive enough in
      (
        input_current regs k (v / k.current_chgin_step),
        ap (λ r. (none, int_val (pos (input_current regs k r)))) same,
        more,
        most,
      )

  -- The charge voltage that is read back after setting it, where both calls of the regmap succeed:
  -- from 4.0 V to just under 4.5 V it is the asked one rounded down, by less than 50 mV below 4.2 V
  -- and less than 10 mV above; from 4.5 V on it is 4.51 V. The field holds the values up to 0x23.
  pub float_voltage_read_back :
      (s : S regs) (uv : ℕ)
      → 4000000 ≤ uv
      → 0x23 < 2 ^ mem.width chg_cv_prm
      → let (ret, t) = set_float_voltage regs k (pos uv) s in
        ret ≡ none
        → (regs.field_read chg_cv_prm t.world).0.0 ≡ none
        → (got : ℕ) × ((get_property regs k constant_charge_voltage (pos 0) t).0
            ≡ (none, int_val (pos got)))
          × (((uv < 4500000) × (got ≤ uv) × (uv < got + (if ltb uv 4200000 then 50000 else 10000)))
              ⊎ ((4500000 ≤ uv) × (got ≡ 4510000)))
  unfolding set_float_voltage get_property as_value get_float_voltage decoded
  float_voltage_read_back s uv lo fits wrote seen =
      let (ret, t) = set_float_voltage regs k (pos uv) s in
      let code = float_reg (pos (uv * 1 / 1000)) in
      let same : (regs.field_read chg_cv_prm t.world).0.1 ≡ code =
        mem.read_back _ _ seen
        ∙ mem.write_takes _ _ _ wrote
        ∙ mod-eq_of_lt (let small = float_reg_small (uv * 1 / 1000) in omega arith) in
      (
        float_mv code * 1000,
        ap (λ r. (none, int_val (pos (float_mv r * 1000)))) same,
        float_uv uv lo,
      )

  set_behaviour_inhibit :
      (s : S regs)
      → k.behaviour_inhibit_charge ≢ k.behaviour_auto
      → set_behaviour regs k k.behaviour_inhibit_charge s
        ≡ regmap_field_write regs chg_en k.chg_disable s
  unfolding set_behaviour
  set_behaviour_inhibit s differ =
      let no_auto : (k.behaviour_inhibit_charge == k.behaviour_auto) ≡ false = ground arith in
      let is_it : (k.behaviour_inhibit_charge == k.behaviour_inhibit_charge) ≡ true =
        ground arith in
      rw (no_auto, is_it) refl

  behaviour_off :
      (t : S regs)
      → (regs.field_read chg_en t.world).0.1 ≡ 0
      → (get_behaviour regs k t).0 ≡ (none, pos k.behaviour_inhibit_charge)
  unfolding get_behaviour
  behaviour_off t off = rw off refl

  status_off :
      (t : S regs)
      → (regs.field_read chg_en t.world).0.1 ≡ 0
      → (get_status regs k t).0 ≡ (none, pos k.charge_type_none)
  unfolding get_status details_unless_off
  status_off t off = rw off refl

  -- After userspace inhibits charging with success the driver says so as the charge behaviour, and
  -- at once reports the status "charging": for a disabled charger the status getter answers with
  -- CHARGE_TYPE_NONE, the same number as STATUS_CHARGING in the header of the power supply class. The
  -- value that disables the charger leaves CHG_EN 0, and its reads succeed.
  pub inhibited_status :
      (s : S regs)
      → k.behaviour_inhibit_charge ≢ k.behaviour_auto
      → k.chg_disable % 2 ^ mem.width chg_en ≡ 0
      → k.charge_type_none ≡ k.status_charging
      → let (ret, t) = set_property regs k charge_behaviour (pos k.behaviour_inhibit_charge) s in
        ret ≡ none
        → (regs.field_read chg_en t.world).0.0 ≡ none
        → ((get_property regs k charge_behaviour (pos 0) t).0
            ≡ (none, int_val (pos k.behaviour_inhibit_charge)))
          × ((get_property regs k status (pos 0) t).0 ≡ (none, int_val (pos k.status_charging)))
  unfolding set_property get_property as_value
  inhibited_status s differ off same_number wrote seen =
      let act = set_behaviour_inhibit s differ in
      let t = (set_property regs k charge_behaviour (pos k.behaviour_inhibit_charge) s).1 in
      let done : mem.held t.world chg_en ≡ 0 =
        rw act (mem.write_takes chg_en k.chg_disable s.world (rw act at wrote) ∙ off) in
      let zero_read : (regs.field_read chg_en t.world).0.1 ≡ 0 = mem.read_back _ _ seen ∙ done in
      (
        ap (λ g. (g.0, int_val g.1)) (behaviour_off t zero_read),
        ap (λ g. (g.0, int_val g.1)) (status_off t zero_read)
            ∙ ap (λ n. (none, int_val (pos n))) same_number,
      )
