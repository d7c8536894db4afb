-- ===== src/Examples/Charging.antt =====
-- The charger of src/soc/max77705_charger.c on a regmap that holds three of its fields.
use galaxy_s9plus_mainline_l.Common.{
  ℕ, bit_or, ◌+◌, ◌%◌, ◌^◌, ◌≤◌, ◌<◌, ◌≡◌, ◌⊎◌, ◌==◌, [], ◌∷◌, some, none, refl, arith, Ret, pos,
  if◌then◌else◌,
}
use galaxy_s9plus_mainline_l.Charger.{
  Regmap, Constants, S, Field, field, sleep, chg_chgin_lim, bits, chgprot, lx_slope, fchgtime,
  chg_rstrt, chg_pqen, mode, otg_ilim, reg_b2sovrc, to, to_time, sys_track, vchgin, wcin, vbypset,
  reg_fsw, reg_diskip, cnfg_00, chg_cv_prm, chg_en, aicl_irq, charger_enable, aicl_rounds,
  regmap_read, int_ok,
}
use galaxy_s9plus_mainline_l.Charger.Memory.{Memory}
use galaxy_s9plus_mainline_l.Charger.Limit.{Lowered, Due, aicl_irq_lowers}
use galaxy_s9plus_mainline_l.Charger.Properties.{
  input_current_limit, constant_charge_voltage, int_val, set_property, get_property,
  set_float_voltage,
}
use galaxy_s9plus_mainline_l.Charger.Properties.RoundTrip.{
  input_current_limit_read_back, float_voltage_read_back,
}
use galaxy_s9plus_mainline_l.Charger.Setup.{Settings, Early, probe}
use galaxy_s9plus_mainline_l.Charger.Setup.Enabled.{FloatCode, probe_writes}

data Slot : Type 0 where
  lim cv en rest : Slot

abbrev slot : Field → Slot
slot chg_chgin_lim = lim
slot chg_cv_prm = cv
slot chg_en = en
slot _ = rest

record Bank : Type 0 where
  limit_field : ℕ
  voltage_field : ℕ
  enable_field : ℕ

abbrev size : Slot → ℕ
size lim = 7
size cv = 6
size en = 1
size rest = 0

abbrev look : Slot → Bank → ℕ
look lim b = b.limit_field
look cv b = b.voltage_field
look en b = b.enable_field
look rest b = 0

abbrev put : Slot → ℕ → Bank → Bank
put lim v b = record b { limit_field = v % 2 ^ 7 }
put cv v b = record b { voltage_field = v % 2 ^ 6 }
put en v b = record b { enable_field = v % 2 }
put rest v b = b

-- AICL shows for the highest limit only.
abbrev bank : Regmap Bank
bank = record {
  field_read = λ f b. ((none, look (slot f) b), b);
  reg_read = λ r b. ((none, if b.limit_field == 127 then 2 ^ 7 else 0), b);
  field_write = λ f v b. (none, put (slot f) v b);
  update_bits = λ r mask v b. (none, b);
  msleep = λ ms b. b;
}

look-put : (s : Slot) (v : ℕ) (b : Bank) → look s (put s v b) ≡ v % 2 ^ size s
look-put lim v b = refl
look-put cv v b = refl
look-put en v b = refl
look-put rest v b = omega arith

abbrev memory : Memory bank
memory = record {
  held = λ b f. look (slot f) b;
  width = λ f. size (slot f);
  read_back = λ f b ok. refl;
  write_takes = λ f v b ok. look-put (slot f) v b;
  field_read_keeps = λ f g b. refl;
  reg_read_keeps = λ r g b. refl;
  sleep_keeps = λ ms g b. refl;
}

abbrev values : Constants
values = record {
  aicl_i = 7;
  aicl_work_delay_ms = 100;
  chg_disable = 0;
  chgin_ok = 0x40;
  batp_ok = 0x4;
  batp_dtls = 0x1;
  chg_dtls = 0xf;
  charger_constant_current = 1;
  charger_constant_voltage = 2;
  charger_end_of_charge = 3;
  charger_done = 4;
  chgin_dtls = 0x60;
  chgin_dtls_shift = 5;
  bat_dtls = 0x70;
  bat_dtls_shift = 4;
  battery_nobat = 0;
  battery_prequalification = 1;
  battery_dead = 2;
  battery_good = 3;
  battery_lowvoltage = 4;
  battery_overvoltage = 5;
  current_chgin_min = 100000;
  current_chgin_max = 3200000;
  current_chgin_step = 25000;
  current_chg_step = 50000;
  status_unknown = 0;
  status_charging = 1;
  status_discharging = 2;
  status_not_charging = 3;
  status_full = 4;
  charge_type_none = 1;
  charge_type_fast = 3;
  health_good = 1;
  health_dead = 3;
  health_overvoltage = 4;
  health_undervoltage = 5;
  health_unspec_failure = 6;
  health_no_battery = 14;
  behaviour_auto = 0;
  behaviour_inhibit_charge = 1;
}

abbrev charger : S bank
charger = record {
  world = record { limit_field = 2; voltage_field = 0; enable_field = 1 };
  log = [];
  voltage_max_design_uv = pos 0;
}

input_current_limit_read_back_example :
    (got : ℕ) × ((get_property bank values input_current_limit
        (pos 0)
        (set_property bank values input_current_limit (pos 500000) charger).1).0
      ≡ (none, int_val (pos got)))
    × (500000 < got)
    × (got ≤ 525000)
unfolding set_property
input_current_limit_read_back_example =
    input_current_limit_read_back bank memory values charger 500000 (omega arith) (omega arith)
      (omega arith) (omega arith) (omega arith) refl refl

float_voltage_read_back_example :
    (got : ℕ) × ((get_property bank values constant_charge_voltage
        (pos 0)
        (set_float_voltage bank values (pos 4355000) charger).1).0
      ≡ (none, int_val (pos got)))
    × (((4355000 < 4500000) × (got ≤ 4355000) × (4355000 < got + 10000))
        ⊎ ((4500000 ≤ 4355000) × (got ≡ 4510000)))
unfolding set_float_voltage
float_voltage_read_back_example =
    float_voltage_read_back bank memory values charger 4355000 (omega arith) (omega arith) refl refl

-- Three rounds from a limit of 2, the last of which sets the highest one.
abbrev highest : S bank
highest = record {
  world = record { limit_field = 127; voltage_field = 0; enable_field = 1 };
  log =
      sleep 100
      ∷ field chg_chgin_lim 4294967295 none
      ∷ sleep 100
      ∷ field chg_chgin_lim 0 none
      ∷ sleep 100
      ∷ field chg_chgin_lim 1 none
      ∷ [];
  voltage_max_design_uv = pos 0;
}

wraps : aicl_irq bank values 4 charger ≡ some (tt, highest)
unfolding aicl_irq aicl_rounds
wraps = refl

aicl_irq_lowers_example :
    let (first, t) = regmap_read bank int_ok charger in
    (n : ℕ) × (n ≤ 4)
    × Lowered bank memory values n charger highest
    × (Due bank memory values first t → 1 ≤ n)
aicl_irq_lowers_example =
    aicl_irq_lowers bank memory values refl (λ f v b. refl) 4 charger (tt, highest) (omega arith)
      wraps

abbrev settings : Settings
settings = record {
  chgprot_unlocked = 3;
  slowest_lx_slope = 3;
  fchgtime_disable = 0;
  chg_rstrt_disable = 3;
  chg_pqen_disable = 0;
  chg_mask = 1;
  buck_mask = 4;
  otg_ilim_900 = 1;
  b2sovrc_4_8a = 7;
  to_ith_150ma = 0;
  to_time_30m = 3;
  sys_track_disable = 1;
  vchgin_4_5 = 0;
  wcin_4_5 = 0;
  wdten_mask = 1;
  chg_fsw_1_5mhz = 2;
  auto_skip = 0;
}

abbrev all_there : Early
all_there = record {
  alloc = none;
  chip_desc = none;
  regmap = none;
  fields = none ∷ none ∷ [];
  power_supply = none;
  irq_chip = none;
  work_queue = none;
  work = none;
}

probe_writes_example :
    (float watchdog : Ret) × (code : ℕ) × FloatCode (pos 4350000) code
    × ((probe bank values settings all_there none (pos 4350000) none none none charger).1.log
        ≡ field chg_en 1 none
          ∷ field reg_diskip settings.auto_skip none
          ∷ field reg_fsw settings.chg_fsw_1_5mhz none
          ∷ field vbypset 0 none
          ∷ bits cnfg_00 settings.wdten_mask 0 watchdog
          ∷ field wcin settings.wcin_4_5 none
          ∷ field vchgin settings.vchgin_4_5 none
          ∷ field chg_cv_prm code float
          ∷ field sys_track settings.sys_track_disable none
          ∷ field to_time settings.to_time_30m none
          ∷ field to settings.to_ith_150ma none
          ∷ field reg_b2sovrc settings.b2sovrc_4_8a none
          ∷ field otg_ilim settings.otg_ilim_900 none
          ∷ field mode (bit_or settings.chg_mask settings.buck_mask) none
          ∷ field chg_pqen settings.chg_pqen_disable none
          ∷ field chg_rstrt settings.chg_rstrt_disable none
          ∷ field fchgtime settings.fchgtime_disable none
          ∷ field lx_slope settings.slowest_lx_slope none
          ∷ field chgprot settings.chgprot_unlocked none
          ∷ [])
unfolding probe charger_enable
probe_writes_example =
    probe_writes bank values settings all_there none (pos 4350000) none none none charger refl
