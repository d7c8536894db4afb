-- ===== src/Charger/Setup.antt =====
-- max77705_charger_initialize and the probe of src/soc/max77705_charger.c.
pub mod Writes
pub mod Enabled
use galaxy_s9plus_mainline_l.Common.{
  ℕ, List, [], ◌∷◌, ◌++◌, Option, none, some, ℤ, pos, negsuc, Ret, bit_or, ◌≡◌, refl, sym, ap, ◌∙◌,
}
use galaxy_s9plus_mainline_l.Platform.{M}
use galaxy_s9plus_mainline_l.Charger.{
  Regmap, Constants, Event, field, bits, Field, chgprot, lx_slope, fchgtime, chg_rstrt, chg_pqen,
  mode, otg_ilim, reg_b2sovrc, to, to_time, sys_track, vchgin, wcin, vbypset, reg_fsw, reg_diskip,
  cnfg_00, S, regmap_field_write, regmap_update_bits, charger_enable, charger_disable,
}
use galaxy_s9plus_mainline_l.Charger.Properties.{set_float_voltage}

-- The values of the headers that the configuration writes.
pub record Settings : Type 0 where
  pub chgprot_unlocked : ℕ
  pub slowest_lx_slope : ℕ
  pub fchgtime_disable : ℕ
  pub chg_rstrt_disable : ℕ
  pub chg_pqen_disable : ℕ
  pub chg_mask : ℕ
  pub buck_mask : ℕ
  pub otg_ilim_900 : ℕ
  pub b2sovrc_4_8a : ℕ
  pub to_ith_150ma : ℕ
  pub to_time_30m : ℕ
  pub sys_track_disable : ℕ
  pub vchgin_4_5 : ℕ
  pub wcin_4_5 : ℕ
  pub wdten_mask : ℕ
  pub chg_fsw_1_5mhz : ℕ
  pub auto_skip : ℕ

-- The fields written before the float voltage, between it and the watchdog, and after that.
abbrev pub first_fields : Settings → List (Field × ℕ)
first_fields c =
    (chgprot, c.chgprot_unlocked)
    ∷ (lx_slope, c.slowest_lx_slope)
    ∷ (fchgtime, c.fchgtime_disable)
    ∷ (chg_rstrt, c.chg_rstrt_disable)
    ∷ (chg_pqen, c.chg_pqen_disable)
    ∷ (mode, bit_or c.chg_mask c.buck_mask)
    ∷ (otg_ilim, c.otg_ilim_900)
    ∷ (reg_b2sovrc, c.b2sovrc_4_8a)
    ∷ (to, c.to_ith_150ma)
    ∷ (to_time, c.to_time_30m)
    ∷ (sys_track, c.sys_track_disable)
    ∷ []

abbrev pub input_fields : Settings → List (Field × ℕ)
input_fields c = (vchgin, c.vchgin_4_5) ∷ (wcin, c.wcin_4_5) ∷ []

abbrev pub last_fields : Settings → List (Field × ℕ)
last_fields c = (vbypset, 0) ∷ (reg_fsw, c.chg_fsw_1_5mhz) ∷ (reg_diskip, c.auto_skip) ∷ []

-- The float voltage for what the battery node says; a negative number is a missing property.
abbrev pub float_voltage : ℤ → ℤ
float_voltage (pos uv) = pos uv
float_voltage (negsuc n) = pos 4200000

-- What the calls of the kernel at the start of the probe return; there is one allocation for each
-- regmap field.
pub record Early : Type 0 where
  pub alloc : Ret
  pub chip_desc : Ret
  pub regmap : Ret
  pub fields : List Ret
  pub power_supply : Ret
  pub irq_chip : Ret
  pub work_queue : Ret
  pub work : Ret

abbrev pub calls : Early → List Ret
calls e =
    e.alloc
    ∷ e.chip_desc
    ∷ e.regmap
    ∷ (e.fields ++ (e.power_supply ∷ e.irq_chip ∷ e.work_queue ∷ e.work ∷ []))

module _ {World : Type 0} (regs : Regmap World) (k : Constants) (c : Settings) where
  abbrev pub on_success : Ret × S regs → M (S regs) Ret → Ret × S regs
  on_success (some e, s) next = (some e, s)
  on_success (none, s) next = next s

  -- Field writes up to the first that fails.
  unfoldable pub write_all : List (Field × ℕ) → M (S regs) Ret
  write_all [] s = (none, s)
  write_all ((f, v) ∷ rest) s = on_success (regmap_field_write regs f v s) (write_all rest)

  abbrev pub set_battery : ℤ → S regs → S regs
  set_battery uv s = record s { voltage_max_design_uv = uv }

  -- The results of the float voltage and of the watchdog are dropped.
  unfoldable pub after_first : M (S regs) Ret
  unfolding write_all
  after_first s =
      let t = (set_float_voltage regs k (float_voltage s.voltage_max_design_uv) s).1 in
      on_success (write_all (input_fields c) t)
        λ u. write_all (last_fields c) (regmap_update_bits regs cnfg_00 c.wdten_mask 0 u).1

  -- `info` is what power_supply_get_battery_info gives: an error, or the battery's design voltage.
  unfoldable pub initialize : Ret → ℤ → M (S regs) Ret
  unfolding after_first write_all
  initialize (some e) uv s = (some e, s)
  initialize none uv s = on_success (write_all (first_fields c) (set_battery uv s)) after_first

  abbrev pub stop_or : Ret → M (S regs) Ret → M (S regs) Ret
  stop_or (some e) next s = (some e, s)
  stop_or none next s = next s

  -- devm_add_action_or_reset runs the action at once if it cannot be added.
  abbrev pub add_disable : Ret → M (S regs) Ret
  add_disable none s = (none, s)
  add_disable (some e) s = (some e, (charger_disable regs k s).1)

  -- The probe once the regmap, the fields, the power supply, the interrupt chip and the work queue
  -- are there; the arguments are what the kernel's calls return.
  unfoldable pub finish_probe : Ret → ℤ → Ret → Ret → Ret → M (S regs) Ret
  unfolding initialize
  finish_probe info uv chgin_irq aicl_irq action s = on_success (initialize info uv s) (
      stop_or chgin_irq
        (stop_or aicl_irq λ t. on_success (charger_enable regs k t) (add_disable action)))

  unfoldable pub stop_each : List Ret → M (S regs) Ret → M (S regs) Ret
  stop_each [] next s = next s
  stop_each (r ∷ rest) next s = stop_or r (stop_each rest next) s

  unfoldable pub probe : Early → Ret → ℤ → Ret → Ret → Ret → M (S regs) Ret
  unfolding stop_each finish_probe
  probe early info uv chgin_irq aicl_irq action =
      stop_each (calls early) (finish_probe info uv chgin_irq aicl_irq action)
