-- ===== src/Platform.antt =====
-- What the clock and power drivers see of the machine: memory-mapped registers, delays, and the
-- PMIC behind the ACPM driver. The hardware is a parameter, an arbitrary `World` that every access
-- may change, so nothing is assumed of what a register reads back. Beside the world a run keeps
-- the log of what the driver did to the machine, newest first.
pub mod Monad
pub use Monad.*
use galaxy_s9plus_mainline_l.Common.{ℕ, Bool, List, ◌∷◌, Ret}

pub data Event : Type 0 where
  -- writel: the address and the value
  write : ℕ → ℕ → Event
  -- s9p_acpm_pmic_write: the PMIC register, the value and what the call returned
  rail : ℕ → ℕ → Ret → Event
  -- udelay, usleep_range or msleep, in microseconds
  pause : ℕ → Event
  -- arm_smccc_smc: the function, its first argument and the `a0` it returned
  smc : ℕ → ℕ → ℕ → Event

pub record Hardware (World : Type 0) : Type 0 where
  -- readl
  pub read_reg : ℕ → World → ℕ × World
  -- writel
  pub write_reg : ℕ → ℕ → World → World
  -- readl_poll_timeout: reads until the condition holds or the time in microseconds is over, and
  -- gives the last value read. The macro's result is 0 exactly if that value meets the condition.
  pub poll_reg : ℕ → (ℕ → Bool) → ℕ → World → ℕ × World
  pub elapse : ℕ → World → World
  pub pmic_put : ℕ → ℕ → World → Ret × World
  pub pmic_get : ℕ → World → (Ret × ℕ) × World
  -- arm_smccc_smc with its function and first argument: the `a0` that EL3 returns
  pub monitor_call : ℕ → ℕ → World → ℕ × World

-- `vars` holds the static variables of the driver.
pub record Machine (World Vars : Type 0) : Type 0 where
  pub world : World
  pub log : List Event
  pub vars : Vars

module _ {World Vars : Type 0} (hw : Hardware World) where
  abbrev pub readl : ℕ → M (Machine World Vars) ℕ
  readl a s = let (v, w) = hw.read_reg a s.world in (v, record s { world = w })

  abbrev pub writel : ℕ → ℕ → M (Machine World Vars) (Unit {0})
  writel a v s = (tt, record s { world = hw.write_reg a v s.world; log = write a v ∷ s.log })

  abbrev pub poll : ℕ → (ℕ → Bool) → ℕ → M (Machine World Vars) ℕ
  poll a cond us s = let (v, w) = hw.poll_reg a cond us s.world in (v, record s { world = w })

  abbrev pub delay : ℕ → M (Machine World Vars) (Unit {0})
  delay us s = (tt, record s { world = hw.elapse us s.world; log = pause us ∷ s.log })

  abbrev pub pmic_write : ℕ → ℕ → M (Machine World Vars) Ret
  pmic_write r v s =
      let (ret, w) = hw.pmic_put r v s.world in
      (ret, record s { world = w; log = rail r v ret ∷ s.log })

  abbrev pub pmic_read : ℕ → M (Machine World Vars) (Ret × ℕ)
  pmic_read r s = let (out, w) = hw.pmic_get r s.world in (out, record s { world = w })

  abbrev pub smc_call : ℕ → ℕ → M (Machine World Vars) ℕ
  smc_call f a s =
      let (a0, w) = hw.monitor_call f a s.world in
      (a0, record s { world = w; log = smc f a a0 ∷ s.log })

abbrev pub get_vars : {World Vars : Type 0} → M (Machine World Vars) Vars
get_vars s = (s.vars, s)

abbrev pub set_vars : {World Vars : Type 0} → Vars → M (Machine World Vars) (Unit {0})
set_vars v s = (tt, record s { vars = v })
