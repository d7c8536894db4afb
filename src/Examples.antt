-- ===== src/Examples.antt =====
-- Concrete machines and states for the examples of the modules below, each of which runs the theorems
-- of one part on them.
pub mod Clocks
pub mod Gpu
pub mod Firmware
pub mod Sensors
pub mod Governor
pub mod Boards
pub mod Storage
pub mod Charging
pub mod Display
pub mod Ports
use galaxy_s9plus_mainline_l.Common.{
  ℕ, ◌+◌, ◌*◌, ◌^◌, Bool, true, false, List, [], ◌∷◌, Option, none, some, Ret, if◌then◌else◌, ◌==◌,
}
use galaxy_s9plus_mainline_l.Platform.{Hardware, Machine, Event, rail}
use galaxy_s9plus_mainline_l.Cpufreq.{Cluster, big}
use galaxy_s9plus_mainline_l.G3d.{G3dVars, buck6_reg, vsel_950mv}
use galaxy_s9plus_mainline_l.G3d

-- A machine whose registers read 0, whose polls succeed and whose PMIC accepts everything; its world
-- is the time in nanoseconds.
abbrev pub bench : Hardware ℕ
bench = record {
  read_reg = λ a w. (0, w);
  write_reg = λ a v w. w;
  poll_reg = λ a cond us w. (if cond 0xffffffff then 0xffffffff else 0, w);
  elapse = λ us w. w + us * 1000;
  pmic_put = λ r v w. (none, w);
  pmic_get = λ r w. ((none, 0x68), w);
  monitor_call = λ f a w. (0, w);
}

-- The GPU's clock driver after its probe, at 260 MHz with the rail at 950 mV.
abbrev pub gpu_vars : G3dVars
gpu_vars = record (G3d.initial_vars) {
  mapped = true;
  live = true;
  rail_set = true;
  cur_khz = 260000;
}

abbrev pub gpu : G3d.S bench
gpu = record { world = 0; log = rail buck6_reg vsel_950mv none ∷ []; vars = gpu_vars }

-- The M3 cluster under its policy, without a limit.
abbrev pub running : Cluster
running = record big {
  mapped = true;
  qos_thermal = some 2147483647;
  qos_busy = some 2147483647;
  qos_boost = some 2327000;
  qos_idle = some 2147483647;
  qos_added = true;
  first_cpu = 4;
}
