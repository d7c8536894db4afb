-- ===== src/Charger.antt =====
-- src/soc/max77705_charger.c: what the driver reads and sets through its regmap, its state, and the
-- interrupt of the input current limit. The regmap, and the constants of the kernel's headers, are
-- parameters.
pub mod Properties
pub mod Memory
pub mod Limit
pub mod Setup
use galaxy_s9plus_mainline_l.Common.{
  ℕ, zero, suc, ◌+◌, ◌-◌, ◌*◌, ◌/◌, ◌%◌, ◌^◌, Bool, true, false, not, ◌&&◌, ◌||◌, List, ◌∷◌, Option,
  none, some, ◌==◌, leb, ltb, bit, bit_and, if◌then◌else◌, ℤ, pos, negsuc, Ret, is_ok,
}
use galaxy_s9plus_mainline_l.Platform.{M, ◌>>=◌, ◌>>◌, pure}
use galaxy_s9plus_mainline_l.Platform.Monad.Loop.{Loop}

-- The regmap fields the driver uses, MAX77705_ left out.
pub data Field : Type 0 where
  chg_chgin_lim chg_cc_lim chg_cv_prm chg_en chgprot lx_slope fchgtime chg_rstrt chg_pqen : Field
  mode otg_ilim reg_b2sovrc to to_time sys_track vchgin wcin vbypset reg_fsw reg_diskip : Field

-- The registers it reads whole, and the one with the watchdog bit.
pub data Reg : Type 0 where
  int_ok details_00 details_01 cnfg_00 : Reg

pub data Event : Type 0 where
  -- regmap_field_write and regmap_update_bits: what was written and what the call returned
  field : Field → ℕ → Ret → Event
  bits : Reg → ℕ → ℕ → Ret → Event
  -- msleep, in milliseconds
  sleep : ℕ → Event

pub record Regmap (World : Type 0) : Type 0 where
  -- A read: its result, and what the caller's variable holds after it.
  pub field_read : Field → World → (Ret × ℕ) × World
  pub reg_read : Reg → World → (Ret × ℕ) × World
  pub field_write : Field → ℕ → World → Ret × World
  pub update_bits : Reg → ℕ → ℕ → World → Ret × World
  pub msleep : ℕ → World → World

-- The constants of linux/power/max77705_charger.h, linux/mfd/max77705-private.h and
-- linux/power_supply.h that the driver uses.
pub record Constants : Type 0 where
  pub aicl_i : ℕ
  pub aicl_work_delay_ms : ℕ
  pub chg_disable : ℕ
  pub chgin_ok : ℕ
  pub batp_ok : ℕ
  pub batp_dtls : ℕ
  pub chg_dtls : ℕ
  pub charger_constant_current : ℕ
  pub charger_constant_voltage : ℕ
  pub charger_end_of_charge : ℕ
  pub charger_done : ℕ
  pub chgin_dtls : ℕ
  pub chgin_dtls_shift : ℕ
  pub bat_dtls : ℕ
  pub bat_dtls_shift : ℕ
  pub battery_nobat : ℕ
  pub battery_prequalification : ℕ
  pub battery_dead : ℕ
  pub battery_good : ℕ
  pub battery_lowvoltage : ℕ
  pub battery_overvoltage : ℕ
  pub current_chgin_min : ℕ
  pub current_chgin_max : ℕ
  pub current_chgin_step : ℕ
  pub current_chg_step : ℕ
  pub status_unknown : ℕ
  pub status_charging : ℕ
  pub status_discharging : ℕ
  pub status_not_charging : ℕ
  pub status_full : ℕ
  pub charge_type_none : ℕ
  pub charge_type_fast : ℕ
  pub health_good : ℕ
  pub health_dead : ℕ
  pub health_overvoltage : ℕ
  pub health_undervoltage : ℕ
  pub health_unspec_failure : ℕ
  pub health_no_battery : ℕ
  pub behaviour_auto : ℕ
  pub behaviour_inhibit_charge : ℕ

pub record Charger (World : Type 0) : Type 0 where
  pub world : World
  pub log : List Event
  -- bat_info->voltage_max_design_uv
  pub voltage_max_design_uv : ℤ

module _ {World : Type 0} (regs : Regmap World) where
  abbrev pub S : Type 0
  S = Charger World

  abbrev pub regmap_read : Reg → M S (Ret × ℕ)
  regmap_read r s = let (out, w) = regs.reg_read r s.world in (out, record s { world = w })

  abbrev pub regmap_field_read : Field → M S (Ret × ℕ)
  regmap_field_read f s = let (out, w) = regs.field_read f s.world in (out, record s { world = w })

  abbrev pub regmap_field_write : Field → ℕ → M S Ret
  regmap_field_write f v s =
      let (ret, w) = regs.field_write f v s.world in
      (ret, record s { world = w; log = field f v ret ∷ s.log })

  abbrev pub regmap_update_bits : Reg → ℕ → ℕ → M S Ret
  regmap_update_bits r mask v s =
      let (ret, w) = regs.update_bits r mask v s.world in
      (ret, record s { world = w; log = bits r mask v ret ∷ s.log })

  abbrev pub msleep : ℕ → M S (Unit {0})
  msleep ms s = (tt, record s { world = regs.msleep ms s.world; log = sleep ms ∷ s.log })

  module _ (k : Constants) where
    -- The loop of max77705_aicl_irq, with `none` once the fuel is out. It ends at the first error, or
    -- when AICL_I shows; the status was read before.
    unfoldable pub aicl_rounds : ℕ → Ret × ℕ → Loop S (Unit {0})
    aicl_rounds fuel (some e, status) s = some (tt, s)
    aicl_rounds zero (none, status) s = none
    aicl_rounds (suc fuel) (none, status) s =
        let ((err, regval), t) = regmap_field_read chg_chgin_lim s in
        let (err2, u) = regmap_field_write chg_chgin_lim ((regval + 2 ^ 32 - 1) % 2 ^ 32) t in
        let (next, v) = regmap_read int_ok (msleep k.aicl_work_delay_ms u).1 in
        let rest = aicl_rounds fuel next v in
        if bit k.aicl_i status
        then some (tt, s)
        else if not (is_ok err)
        then some (tt, t)
        else if not (is_ok err2)
        then some (tt, u)
        else rest

    unfoldable pub aicl_irq : ℕ → Loop S (Unit {0})
    aicl_irq fuel s = let (first, t) = regmap_read int_ok s in aicl_rounds fuel first t

    unfoldable pub charger_enable : M S Ret
    charger_enable = regmap_field_write chg_en 1

    unfoldable pub charger_disable : M S (Unit {0})
    charger_disable s = (tt, (regmap_field_write chg_en k.chg_disable s).1)

  -- clamp_val on an `int`, and the quotient as an `unsigned int`.
  abbrev pub clamp_val : ℤ → ℕ → ℕ → ℕ
  clamp_val (negsuc n) lo hi = lo
  clamp_val (pos n) lo hi = if ltb n lo then lo else if ltb hi n then hi else n

  unfoldable pub set_integer : Field → ℕ → ℕ → ℕ → ℤ → M S Ret
  set_integer fidx lo hi div val = regmap_field_write fidx (clamp_val val lo hi / div)
