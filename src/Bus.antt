-- ===== src/Bus.antt =====
-- Register windows, system controllers and kernel calls, as the drivers of the PCIe host, the USB PHY
-- and the display controller reach them. All of it is a parameter, an arbitrary `World` that every
-- access may change. A run keeps the log of its accesses, newest first, with the values that were
-- read.
use galaxy_s9plus_mainline_l.Common.{
  ℕ, Bool, true, false, List, ◌∷◌, Ret, none, some, etimedout, bit_and, ◌-◌, ◌^◌,
}
use galaxy_s9plus_mainline_l.Platform.{M, pure}

-- `Win` names the windows of a driver, `Call` the kernel calls that it makes.
pub data Access (Win Call : Type 0) : Type 0 where
  -- readl and writel: the offset and the value
  seen write : Win → ℕ → ℕ → Access Win Call
  -- readl_poll_timeout: the offset and the last value read
  polled : Win → ℕ → ℕ → Access Win Call
  -- regmap_update_bits: the offset, the mask and the value
  update : Win → ℕ → ℕ → ℕ → Access Win Call
  -- udelay, usleep_range by its lower bound, or msleep, in microseconds
  pause : ℕ → Access Win Call
  called : Call → Ret → Access Win Call

pub record Bus (Win Call World : Type 0) : Type 0 where
  pub read_reg : Win → ℕ → World → ℕ × World
  pub write_reg : Win → ℕ → ℕ → World → World
  -- reads until the condition holds or the time in microseconds is over, and gives the last value
  pub poll_reg : Win → ℕ → (ℕ → Bool) → ℕ → World → ℕ × World
  pub update_bits : Win → ℕ → ℕ → ℕ → World → World
  pub elapse : ℕ → World → World
  pub kernel : Call → World → Ret × World

pub record Run (Win Call World Vars : Type 0) : Type 0 where
  pub world : World
  pub log : List (Access Win Call)
  pub vars : Vars

module _ {Win Call World Vars : Type 0} (bus : Bus Win Call World) where
  abbrev pub readl : Win → ℕ → M (Run Win Call World Vars) ℕ
  readl w a s =
      let (v, u) = bus.read_reg w a s.world in (v, record s { world = u; log = seen w a v ∷ s.log })

  abbrev pub writel : ℕ → Win → ℕ → M (Run Win Call World Vars) (Unit {0})
  writel v w a s = (tt, record s { world = bus.write_reg w a v s.world; log = write w a v ∷ s.log })

  abbrev pub poll : Win → ℕ → (ℕ → Bool) → ℕ → M (Run Win Call World Vars) ℕ
  poll w a cond us s =
      let (v, u) = bus.poll_reg w a cond us s.world in
      (v, record s { world = u; log = polled w a v ∷ s.log })

  abbrev pub update_reg : Win → ℕ → ℕ → ℕ → M (Run Win Call World Vars) (Unit {0})
  update_reg w a mask bits s = (
    tt,
    record s { world = bus.update_bits w a mask bits s.world; log = update w a mask bits ∷ s.log },
  )

  abbrev pub delay : ℕ → M (Run Win Call World Vars) (Unit {0})
  delay us s = (tt, record s { world = bus.elapse us s.world; log = pause us ∷ s.log })

  abbrev pub call : Call → M (Run Win Call World Vars) Ret
  call c s =
      let (r, u) = bus.kernel c s.world in (r, record s { world = u; log = called c r ∷ s.log })

  -- A kernel call without a result.
  abbrev pub notify : Call → M (Run Win Call World Vars) (Unit {0})
  notify c s = (tt, (call c s).1)

-- `v & ~mask` on 32 bits.
abbrev pub clear_bits : ℕ → ℕ → ℕ
clear_bits v mask = bit_and v (2 ^ 32 - 1 - mask)

abbrev pub when : {S : Type 0} → Bool → M S (Unit {0}) → M S (Unit {0})
when true m = m
when false m = pure tt

-- The result of readl_poll_timeout for its condition at the last value.
abbrev pub timed : Bool → Ret
timed true = none
timed false = some etimedout
