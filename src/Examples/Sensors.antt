-- ===== src/Examples/Sensors.antt =====
-- The thermal sensors and levels of src/cpufreq/s9p-cpufreq.c.
use galaxy_s9plus_mainline_l.Common.{
  ◌+◌, ◌<◌, ◌≤◌, ◌≡◌, false, length, pos, ◌<ℤ◌, ◌-ℤ◌, is_int_min, arith,
}
use galaxy_s9plus_mainline_l.Thermal.{
  thermal_next, level_wanted, up_at_of, thermal_big, thermal_hyst, thermal_hold_ms,
}
use galaxy_s9plus_mainline_l.Thermal.Level.{thermal_next_lem}

thermal_next_lem_example :
    let (next, changed') = thermal_next 2 (pos 60) thermal_big 5000 1000 in
    (next < length thermal_big)
    × (2 ≤ next + 1)
    × (is_int_min (pos 60) ≡ false → level_wanted (pos 60) thermal_big ≤ next)
    × (next < 2
        → (pos 60 <ℤ pos (up_at_of thermal_big 2) -ℤ pos thermal_hyst)
          × (1000 + thermal_hold_ms ≤ 5000)
          × (changed' ≡ 5000))
    × (2 < next → (next ≡ level_wanted (pos 60) thermal_big) × (changed' ≡ 5000))
thermal_next_lem_example = thermal_next_lem 2 (pos 60) thermal_big 5000 1000 (omega arith)
