-- ===== src/Acpm/Touch.antt =====
-- The touch rails of src/soc/s9p-acpm.c: s9p_touch_ldo_power_cycle and the delayed work around it.
-- The device and driver core is a parameter: whether the touch controller's device exists and has a
-- driver, and what a reprobe does to the machine.
pub mod Bounds
use galaxy_s9plus_mainline_l.Common.{
  ℕ, ◌+◌, Bool, true, false, ◌||◌, Option, none, some, Ret, Errno, ltb, leb, ◌==◌, if◌then◌else◌,
}
use galaxy_s9plus_mainline_l.Platform.{Hardware, M, pure}
use galaxy_s9plus_mainline_l.Platform
use galaxy_s9plus_mainline_l.Platform.Monad.Loop.{Loop, lift, ◌>>=◌, ◌>>◌}
use galaxy_s9plus_mainline_l.Acpm.{AcpmVars, S}
use galaxy_s9plus_mainline_l.Acpm.Transfer.{pmic_update, pmic_read}

pub record DriverCore (World : Type 0) : Type 0 where
  -- bus_find_device, and whether the device has a driver
  pub touch_bound : World → Option Bool
  -- device_reprobe of it
  pub reprobe : World → World

module _ {World : Type 0} (hw : Hardware World) (now : World → ℕ) (fuel : ℕ) where
  -- One of the updates of the power cycle: an error ends the sequence.
  unfoldable pub then_ok : Ret → Loop (S hw) Ret → Loop (S hw) Ret
  then_ok none rest = rest
  then_ok (some e) rest = lift (pure (some e))

  unfoldable pub ldo_on : Loop (S hw) Ret
  unfolding then_ok
  ldo_on = pmic_update hw now fuel 0x6c 0xc0 0xc0 >>= (λ r. then_ok r (
      pmic_update hw now fuel 0x74 0xc0 0xc0
      >>= (λ r'. then_ok r' (pmic_read hw now fuel 0x6c >>= (λ _. lift (pure none))))))

  unfoldable pub touch_ldo_power_cycle : Loop (S hw) Ret
  unfolding then_ok ldo_on
  touch_ldo_power_cycle = pmic_update hw now fuel 0x6c 0 0xc0 >>= (λ r. then_ok r (
      pmic_update hw now fuel 0x74 0 0xc0
      >>= (λ r'. then_ok r' (lift (Platform.delay hw 2000000) >>= (λ _. ldo_on)))))

  -- Whether the work is scheduled again, after a power cycle that ended with `ret`.
  unfoldable pub after_cycle : Ret → M (S hw) Bool
  after_cycle none s =
      (true, record s { vars = record (s.vars) { cycles = s.vars.cycles + 1; probes = 0 } })
  after_cycle (some e) s =
      let n = s.vars.apm_tries + 1 in
      (ltb n 30, record s { vars = record (s.vars) { apm_tries = n } })

  unfoldable pub give_up_or_cycle : Bool → Loop (S hw) Bool
  unfolding after_cycle
  give_up_or_cycle true = lift (pure false)
  give_up_or_cycle false = touch_ldo_power_cycle >>= (λ r. lift (after_cycle r))

  unfoldable pub reprobe_once : (dc : DriverCore World) → Bool → M (S hw) Bool
  reprobe_once dc found s =
      let w = if found then dc.reprobe s.world else s.world in
      (true, record s { world = w; vars = record (s.vars) { probes = s.vars.probes + 1 } })

  unfoldable pub not_alive : (dc : DriverCore World) → Bool → Loop (S hw) Bool
  unfolding give_up_or_cycle reprobe_once
  not_alive dc found s =
      if s.vars.cycles == 0 || leb 12 s.vars.probes
      then give_up_or_cycle (leb 3 s.vars.cycles) s
      else lift (reprobe_once dc found) s

  unfoldable pub with_device : (dc : DriverCore World) → Option Bool → Loop (S hw) Bool
  unfolding not_alive
  with_device dc none = not_alive dc false
  with_device dc (some true) = lift (pure false)
  with_device dc (some false) = not_alive dc true

  -- s9p_touch_work, with whether it ends by scheduling itself again.
  unfoldable pub touch_work : DriverCore World → Loop (S hw) Bool
  unfolding with_device
  touch_work dc s = with_device dc (dc.touch_bound s.world) s
