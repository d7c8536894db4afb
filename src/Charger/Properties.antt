-- ===== src/Charger/Properties.antt =====
-- The power supply properties of src/soc/max77705_charger.c. A getter takes what `*val` holds and
-- gives what it holds afterwards.
pub mod RoundTrip
use galaxy_s9plus_mainline_l.Common.{
  ℕ, ◌+◌, ◌-◌, ◌*◌, ◌/◌, ◌%◌, ◌^◌, Bool, true, false, not, ◌&&◌, ◌||◌, Option, none, some, ◌==◌,
  leb, bit_and, if◌then◌else◌, ℤ, pos, negsuc, mul_div, Ret, is_ok, einval,
}
use galaxy_s9plus_mainline_l.Platform.{M, ◌>>=◌, ◌>>◌, pure}
use galaxy_s9plus_mainline_l.Charger.{
  Regmap, Constants, S, Field, chg_chgin_lim, chg_cc_lim, chg_cv_prm, chg_en, int_ok, details_00,
  details_01, regmap_read, regmap_field_read, regmap_field_write, charger_enable, set_integer,
}

pub data Property : Type 0 where
  online present status charge_type charge_behaviour health voltage_max_design : Property
  constant_charge_voltage constant_charge_current input_current_limit : Property
  model_name manufacturer : Property
  -- any other property of the power supply class
  another : ℕ → Property

-- The union power_supply_propval: a number, or one of the two names.
pub data Value : Type 0 where
  int_val : ℤ → Value
  max77705 maxim_integrated : Value

abbrev has : ℕ → ℕ → Bool
has data_word mask = not (bit_and data_word mask == 0)

-- The register value for a voltage in mV, an `int`.
unfoldable pub float_reg : ℤ → ℕ
float_reg (negsuc n) = 0
float_reg (pos mv) =
    if leb mv 4000
    then 0
    else if leb 4500 mv
    then 0x23
    else if leb mv 4200
    then (mv - 4000) / 50
    else (mv - 4200) / 10 + 0x04

unfoldable pub float_mv : ℕ → ℕ
float_mv reg_data = if leb reg_data 0x04 then reg_data * 50 + 4000 else (reg_data - 4) * 10 + 4200

unfoldable pub property_is_writeable : Property → Bool
property_is_writeable constant_charge_current = true
property_is_writeable input_current_limit = true
property_is_writeable charge_behaviour = true
property_is_writeable _ = false

module _ {World : Type 0} (regs : Regmap World) (k : Constants) where
  -- What the getter returns and leaves in `*val`.
  abbrev pub Got : Type 0
  Got = Ret × ℤ

  unless_error : Ret × ℕ → ℤ → ℤ → Got
  unless_error (some e, w) val new = (some e, val)
  unless_error (none, w) val new = (none, new)

  unfoldable pub get_online : ℤ → M (S regs) Got
  unfolding unless_error
  get_online val s =
      let (out, t) = regmap_read regs int_ok s in
      (unless_error out val (if has out.1 k.chgin_ok then pos 1 else pos 0), t)

  unfoldable pub check_battery : M (S regs) Got
  check_battery = regmap_read regs int_ok >>= λ out. regmap_read regs details_00 >>= λ out2.
      pure (none, if has out.1 k.batp_ok || not (has out2.1 k.batp_dtls) then pos 1 else pos 0)

  unfoldable pub charge_type_of : ℕ → ℕ
  charge_type_of dtls =
      if dtls == 0 || dtls == k.charger_constant_current || dtls == k.charger_constant_voltage
      then k.charge_type_fast
      else k.charge_type_none

  unfoldable pub status_of : ℕ → ℕ
  status_of dtls =
      if dtls == 0 || dtls == k.charger_constant_current || dtls == k.charger_constant_voltage
      then k.status_charging
      else if dtls == k.charger_end_of_charge || dtls == k.charger_done
      then k.status_full
      else if dtls == 5 || dtls == 6 || dtls == 7
      then k.status_not_charging
      else if dtls == 8 || dtls == 0xa || dtls == 0xb
      then k.status_discharging
      else k.status_unknown

  -- With charging inhibited both getters stop at the first read.
  details_unless_off : (ℕ → ℕ) → M (S regs) Got
  details_unless_off f s =
      let (out, t) = regmap_field_read regs chg_en s in
      let (out2, u) = regmap_read regs details_01 t in
      if out.1 == 0
      then ((none, pos k.charge_type_none), t)
      else ((none, pos (f (bit_and out2.1 k.chg_dtls))), u)

  unfoldable pub get_charge_type : M (S regs) Got
  unfolding details_unless_off charge_type_of
  get_charge_type = details_unless_off charge_type_of

  unfoldable pub get_status : M (S regs) Got
  unfolding details_unless_off status_of
  get_status = details_unless_off status_of

  unfoldable pub vbus_health : ℕ → ℤ → ℤ
  vbus_health dtls val =
      if dtls == 0 || dtls == 1
      then pos k.health_undervoltage
      else if dtls == 2
      then pos k.health_overvoltage
      else if dtls == 3
      then pos k.health_good
      else val

  unfoldable pub get_vbus_state : ℤ → M (S regs) Got
  unfolding vbus_health unless_error
  get_vbus_state val s =
      let (out, t) = regmap_read regs details_00 s in
      let dtls = bit_and out.1 k.chgin_dtls / 2 ^ k.chgin_dtls_shift in
      (unless_error out val (vbus_health dtls val), t)

  unfoldable pub battery_health : ℕ → ℤ → ℤ
  battery_health dtls val =
      if dtls == k.battery_nobat
      then pos k.health_no_battery
      else if dtls == k.battery_prequalification
      then val
      else if dtls == k.battery_dead
      then pos k.health_dead
      else if dtls == k.battery_good || dtls == k.battery_lowvoltage
      then pos k.health_good
      else if dtls == k.battery_overvoltage
      then pos k.health_overvoltage
      else pos k.health_unspec_failure

  unfoldable pub get_battery_health : ℤ → M (S regs) Got
  unfolding battery_health
  get_battery_health val s =
      let (out, t) = regmap_read regs details_01 s in
      ((none, battery_health (bit_and out.1 k.bat_dtls / 2 ^ k.bat_dtls_shift) val), t)

  is_health_good : ℤ → Bool
  is_health_good (pos n) = n == k.health_good
  is_health_good (negsuc n) = false

  after_vbus : Got × S regs → Got × S regs
  unfolding get_battery_health is_health_good
  after_vbus ((some e, val), s) = ((some e, val), s)
  after_vbus ((none, val), s) =
      if is_health_good val then get_battery_health val s else ((none, val), s)

  is_zero : ℤ → Bool
  is_zero (pos n) = n == 0
  is_zero (negsuc n) = false

  after_online : ℤ → Got × S regs → Got × S regs
  unfolding get_vbus_state after_vbus get_battery_health is_zero
  after_online val ((some e, is_online), s) = ((some e, val), s)
  after_online val ((none, is_online), s) =
      if is_zero is_online then get_battery_health val s else after_vbus (get_vbus_state val s)

  unfoldable pub get_health : ℤ → M (S regs) Got
  unfolding get_online after_online
  get_health val s = after_online val (get_online (pos 0) s)

  unfoldable pub input_current : ℕ → ℕ
  input_current reg_data =
      if leb reg_data 3 then k.current_chgin_min else (reg_data + 1) * k.current_chgin_step

  unfoldable pub charge_current : ℕ → ℕ
  charge_current reg_data =
      if leb reg_data 2 then k.current_chgin_min else reg_data * k.current_chg_step

  -- A getter that decodes one field.
  decoded : Field → (ℕ → ℕ) → M (S regs) Got
  decoded f decode = regmap_field_read regs f >>= λ out. pure (none, pos (decode out.1))

  unfoldable pub get_input_current : M (S regs) Got
  unfolding decoded input_current
  get_input_current = decoded chg_chgin_lim input_current

  unfoldable pub get_charge_current : M (S regs) Got
  unfolding decoded charge_current
  get_charge_current = decoded chg_cc_lim charge_current

  unfoldable pub get_float_voltage : M (S regs) Got
  unfolding decoded float_mv
  get_float_voltage = decoded chg_cv_prm λ r. float_mv r * 1000

  unfoldable pub set_float_voltage : ℤ → M (S regs) Ret
  unfolding float_reg
  set_float_voltage uv = regmap_field_write regs chg_cv_prm (float_reg (mul_div uv 1 1000))

  unfoldable pub set_behaviour : ℕ → M (S regs) Ret
  unfolding charger_enable
  set_behaviour n s =
      if n == k.behaviour_auto
      then charger_enable regs k s
      else if n == k.behaviour_inhibit_charge
      then regmap_field_write regs chg_en k.chg_disable s
      else (some einval, s)

  unfoldable pub set_property : Property → ℤ → M (S regs) Ret
  unfolding set_integer set_behaviour
  set_property constant_charge_current val s =
      set_integer regs chg_cc_lim k.current_chgin_min k.current_chgin_max k.current_chg_step val s
  set_property input_current_limit val s =
      set_integer regs chg_chgin_lim k.current_chgin_min k.current_chgin_max k.current_chgin_step
        val s
  set_property charge_behaviour (pos n) s = set_behaviour n s
  set_property charge_behaviour (negsuc n) s = (some einval, s)
  set_property _ val s = (some einval, s)

  as_value : Got × S regs → (Ret × Value) × S regs
  as_value ((ret, val), s) = ((ret, int_val val), s)

  unfoldable pub get_behaviour : M (S regs) Got
  get_behaviour s =
      let (out, t) = regmap_field_read regs chg_en s in
      ((none, pos (if out.1 == 0 then k.behaviour_inhibit_charge else k.behaviour_auto)), t)

  unfoldable pub get_property : Property → ℤ → M (S regs) (Ret × Value)
  unfolding as_value get_online check_battery get_status get_charge_type get_behaviour get_health
      get_input_current get_charge_current get_float_voltage
  get_property online val s = as_value (get_online val s)
  get_property present val s = as_value (check_battery s)
  get_property status val s = as_value (get_status s)
  get_property charge_type val s = as_value (get_charge_type s)
  get_property charge_behaviour val s = as_value (get_behaviour s)
  get_property health val s = as_value (get_health val s)
  get_property input_current_limit val s = as_value (get_input_current s)
  get_property constant_charge_current val s = as_value (get_charge_current s)
  get_property constant_charge_voltage val s = as_value (get_float_voltage s)
  get_property voltage_max_design val s = ((none, int_val s.voltage_max_design_uv), s)
  get_property model_name val s = ((none, max77705), s)
  get_property manufacturer val s = ((none, maxim_integrated), s)
  get_property (another n) val s = ((some einval, int_val val), s)
