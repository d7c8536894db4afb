-- ===== src/Charger/Memory.antt =====
-- What the driver of src/soc/max77705_charger.c relies on in the regmap: a field that was written
-- holds the value, cut to the field's width, and reading or waiting changes no field.
use galaxy_s9plus_mainline_l.Common.{ℕ, ◌%◌, ◌^◌, ◌≡◌, none}
use galaxy_s9plus_mainline_l.Charger.{Regmap, Field, Reg}

pub record Memory {World : Type 0} (regs : Regmap World) : Type 0 where
  pub held : World → Field → ℕ
  pub width : Field → ℕ
  pub read_back :
      (f : Field) (w : World)
      → (regs.field_read f w).0.0 ≡ none
      → (regs.field_read f w).0.1 ≡ held w f
  pub write_takes :
      (f : Field) (v : ℕ) (w : World)
      → (regs.field_write f v w).0 ≡ none
      → held (regs.field_write f v w).1 f ≡ v % 2 ^ width f
  pub field_read_keeps : (f g : Field) (w : World) → held (regs.field_read f w).1 g ≡ held w g
  pub reg_read_keeps : (r : Reg) (g : Field) (w : World) → held (regs.reg_read r w).1 g ≡ held w g
  pub sleep_keeps : (ms : ℕ) (g : Field) (w : World) → held (regs.msleep ms w) g ≡ held w g
