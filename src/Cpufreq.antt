-- ===== src/Cpufreq.antt =====
-- src/cpufreq/s9p-cpufreq.c: the clusters with their clock steps, the QoS constraints, the policy
-- that runs every 100 ms. `Clock` has the register sequence of a frequency change.
pub mod Clock
pub mod Policy
pub mod Probe
use galaxy_s9plus_mainline_l.Common.{
  ℕ, zero, suc, ◌+◌, ◌-◌, ◌*◌, ◌/◌, ◌%◌, ◌^◌, min, Bool, true, false, not, ◌&&◌, ◌||◌, List, [],
  ◌∷◌, Option, none, some, get_or, length, ltb, leb, ◌==◌, if◌then◌else◌, Errno, einval, eagain,
  eprobe_defer, Ret, ℤ, int_min,
}
use galaxy_s9plus_mainline_l.Thermal.{
  ThermalLevel, thermal_big, thermal_little, thermal_gpu, thermal_next, TmuFilter,
}

-- struct s9p_pll_step
pub record PllStep : Type 0 where
  pub freq_khz : ℕ
  pub m : ℕ
  pub p : ℕ
  pub s : ℕ
  pub vsel : ℕ

abbrev step : ℕ → ℕ → ℕ → ℕ → ℕ → PllStep
step khz m p s vsel = record { freq_khz = khz; m = m; p = p; s = s; vsel = vsel }

abbrev pub steps_little : List PllStep
steps_little =
    step 1794000 138 2 0 0x70
    ∷ step 1499333 173 3 0 0x60
    ∷ step 1150500 354 4 1 0x58
    ∷ step 650000 200 4 1 0x50
    ∷ step 349916 323 6 2 0x4b
    ∷ []

abbrev pub steps_big : List PllStep
steps_big =
    step 2704000 208 2 0 0x88
    ∷ step 2327000 358 4 0 0x7c
    ∷ step 1794000 138 2 0 0x60
    ∷ step 1469000 452 4 1 0x58
    ∷ step 1066000 246 3 1 0x48
    ∷ step 400000 200 13 0 0x40
    ∷ []

-- The tables that the cpufreq core sees, without the end mark.
abbrev pub ftab_little : List ℕ
ftab_little = 1794000 ∷ 1499333 ∷ 1150500 ∷ 650000 ∷ 349916 ∷ []

abbrev pub ftab_big : List ℕ
ftab_big = 2704000 ∷ 2327000 ∷ 1794000 ∷ 1469000 ∷ 1066000 ∷ 400000 ∷ []

-- struct s9p_cluster. `mapped` is `pll_con0 != NULL`. A QoS request is `none` until it is added,
-- and then holds the maximum that it puts on the policy.
pub record Cluster : Type 0 where
  pub mapped : Bool
  pub pll_con0 : ℕ
  pub mux : ℕ
  pub locktime : ℕ
  pub buck_reg : ℕ
  pub freq_table : List ℕ
  pub steps : List PllStep
  pub thermal : List ThermalLevel
  pub thermal_lvl : ℕ
  pub thermal_changed : ℕ
  pub busy_cap : ℕ
  pub safe_max : ℕ
  pub qos_thermal : Option ℕ
  pub qos_busy : Option ℕ
  pub qos_boost : Option ℕ
  pub qos_idle : Option ℕ
  pub idle_polls : ℕ
  pub idle_capped : Bool
  pub qos_added : Bool
  pub first_cpu : ℕ

abbrev pub little : Cluster
little = record {
  mapped = false;
  pll_con0 = 0x1d000140;
  mux = 0x1d00100c;
  locktime = 0x1d000000;
  buck_reg = 0x23;
  freq_table = ftab_little;
  steps = steps_little;
  thermal = thermal_little;
  thermal_lvl = 0;
  thermal_changed = 0;
  busy_cap = 0;
  safe_max = 1499333;
  qos_thermal = none;
  qos_busy = none;
  qos_boost = none;
  qos_idle = none;
  idle_polls = 0;
  idle_capped = false;
  qos_added = false;
  first_cpu = 0;
}

abbrev pub big : Cluster
big = record little {
  pll_con0 = 0x1d100120;
  mux = 0x1d101000;
  locktime = 0x1d100000;
  buck_reg = 0x20;
  freq_table = ftab_big;
  steps = steps_big;
  thermal = thermal_big;
  safe_max = 2327000;
}

find_step_in : List PllStep → ℕ → Option PllStep
find_step_in [] khz = none
find_step_in (st ∷ sts) khz = if st.freq_khz == khz then some st else find_step_in sts khz

unfoldable pub find_step : Cluster → ℕ → Option PllStep
unfolding find_step_in
find_step c khz = find_step_in c.steps khz

-- The rate that PLL_CON0 stands for; `mux_word` is the external mux register.
unfoldable pub khz_of : ℕ → ℕ → ℕ
khz_of con0 mux_word =
    let m = con0 / 2 ^ 16 % 2 ^ 10 in
    let p = con0 / 2 ^ 8 % 2 ^ 6 in
    let s = con0 % 2 ^ 3 in
    if mux_word % 2 == 1
    then 0
    else if not (con0 / 2 ^ 4 % 2 == 1)
    then 26000
    else if p == 0
    then 0
    else 26000 * m / p / 2 ^ s

-- An online CPU as the scheduler shows it: MPIDR affinity level 1, and idle_cpu().
pub record Cpu : Type 0 where
  pub affinity_1 : ℕ
  pub idle : Bool

abbrev pub cluster_of : Cpu → ℕ
cluster_of cpu = if cpu.affinity_1 == 1 then 1 else 0

unfoldable pub big_busy_cores : List Cpu → ℕ
big_busy_cores [] = 0
big_busy_cores (cpu ∷ cpus) =
    let busy = big_busy_cores cpus in if cluster_of cpu == 1 && not cpu.idle then busy + 1 else busy

unfoldable pub big_cap_for : ℕ → ℕ
big_cap_for busy = if leb 3 busy then 1794000 else if busy == 2 then 2327000 else 2704000

unfoldable pub cluster_is_idle : ℕ → List Cpu → Bool
cluster_is_idle index [] = true
cluster_is_idle index (cpu ∷ cpus) =
    if cluster_of cpu == index && not cpu.idle then false else cluster_is_idle index cpus
