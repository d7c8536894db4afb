-- ===== src/Cpufreq/Policy.antt =====
-- The QoS requests and the 100 ms policy of src/cpufreq/s9p-cpufreq.c: boost, init and exit of a
-- policy, the idle floor, and s9p_policy_work. A QoS request of a cluster is a maximum that the
-- cpufreq core honours; `unlimited` is its FREQ_QOS_MAX_DEFAULT_VALUE.
pub mod Requests
pub mod Idle
pub mod Caps
use galaxy_s9plus_mainline_l.Common.{
  ℕ, zero, suc, ◌+◌, ◌-◌, ◌*◌, ◌/◌, Bool, true, false, not, ◌&&◌, ◌||◌, List, [], ◌∷◌, Option, none,
  some, get_or, length, ltb, leb, ◌==◌, if◌then◌else◌, eprobe_defer, Ret, is_ok, ℤ, int_min,
}
use galaxy_s9plus_mainline_l.Thermal.{
  ThermalLevel, thermal_gpu, thermal_next, TmuFilter, tmu_filtered, tmu_max, tmu_big, tmu_little,
  tmu_gpu,
}
use galaxy_s9plus_mainline_l.Cpufreq.{
  PllStep, Cluster, Cpu, cluster_of, big_busy_cores, big_cap_for, cluster_is_idle, little, big,
}

-- freq_qos_update_request on a request that may not be there.
abbrev pub update_request : Option ℕ → ℕ → Option ℕ
update_request none v = none
update_request (some old) v = some v

abbrev pub max_khz_of : List ThermalLevel → ℕ → ℕ
max_khz_of lv i = (get_or lv i (record { max_khz = 0; up_at = 0 })).max_khz

abbrev pub last_khz : List PllStep → ℕ
last_khz [] = 0
last_khz (st ∷ []) = st.freq_khz
last_khz (st ∷ st' ∷ sts) = last_khz (st' ∷ sts)

abbrev pub idle_enter_polls : ℕ
idle_enter_polls = 5

abbrev pub not_eq : Bool → Bool → Bool
not_eq true b = not b
not_eq false b = b

unfoldable pub exit : Cluster → Cluster
exit c =
    if c.qos_added
    then record c {
      qos_added = false;
      qos_idle = none;
      qos_boost = none;
      qos_busy = none;
      qos_thermal = none;
    }
    else c

-- The part of a cluster's turn that asks s9p_thermal_next.
unfoldable pub thermal_turn : ℤ → ℕ → Cluster → Cluster
thermal_turn t now c =
    let (lvl, changed) = thermal_next c.thermal_lvl t c.thermal now c.thermal_changed in
    let d = record c { thermal_changed = changed } in
    if lvl == c.thermal_lvl then d else record d {
      thermal_lvl = lvl;
      qos_thermal = update_request c.qos_thermal (max_khz_of c.thermal lvl);
    }

unfoldable pub busy_turn : List Cpu → Cluster → Cluster
busy_turn cpus c =
    let cap = big_cap_for (big_busy_cores cpus) in
    if cap == c.busy_cap
    then c
    else record c { busy_cap = cap; qos_busy = update_request c.qos_busy cap }

module _ (unlimited : ℕ) where
  unfoldable pub apply_boost : Bool → Cluster → Cluster
  apply_boost boost c =
      if c.qos_added
      then record c {
        qos_boost = update_request c.qos_boost (if boost then unlimited else c.safe_max);
      }
      else c

  abbrev added : Cluster → Cluster
  added c = record c { idle_polls = 0; idle_capped = false; qos_added = true }

  abbrev drop_thermal : Cluster → Cluster
  drop_thermal c = record c { qos_thermal = none }

  abbrev drop_busy : Cluster → Cluster
  drop_busy c = record c { qos_busy = none }

  abbrev drop_boost : Cluster → Cluster
  drop_boost c = record c { qos_boost = none }

  -- s9p_init from the fourth freq_qos_add_request on. `adds i` is what the i-th of the four calls
  -- returns; a call that fails adds nothing.
  init_idle : (ℕ → Ret) → Cluster → Ret × Cluster
  init_idle adds c = elim (adds 3) [
    | some e ↦ (some e, drop_thermal (drop_busy (drop_boost c)))
    | none ↦ (none, added (record c { qos_idle = some unlimited }))
  ]

  init_boost : (ℕ → Ret) → Bool → Cluster → Ret × Cluster
  unfolding init_idle
  init_boost adds boost c = elim (adds 2) [
    | some e ↦ (some e, drop_thermal (drop_busy c))
    | none ↦
        init_idle adds (record c { qos_boost = some (if boost then unlimited else c.safe_max) })
  ]

  init_busy : (ℕ → Ret) → Bool → Cluster → Ret × Cluster
  unfolding init_boost
  init_busy adds boost c = elim (adds 1) [
    | some e ↦ (some e, drop_thermal c)
    | none ↦ init_boost adds boost (record c { qos_busy = some unlimited })
  ]

  -- s9p_init; `first` is cpumask_first of the policy's CPUs.
  unfoldable pub init : (ℕ → Ret) → Bool → ℕ → Cluster → Ret × Cluster
  unfolding init_busy
  init adds boost first c =
      let c1 = record c { first_cpu = first } in
      if c.mapped
      then elim (adds 0) [
        | some e ↦ (some e, c1)
        | none ↦ init_busy adds boost (record c1 { qos_thermal = some unlimited })
      ]
      else (some eprobe_defer, c)

  abbrev count_idle : Bool → Cluster → ℕ
  count_idle quiet c =
      if quiet
      then (if ltb c.idle_polls idle_enter_polls then c.idle_polls + 1 else c.idle_polls)
      else 0

  unfoldable pub idle_floor : Bool → ℕ → List Cpu → Cluster → Cluster
  idle_floor floor_on index cpus c =
      let polls = count_idle (floor_on && cluster_is_idle index cpus) c in
      let want = leb idle_enter_polls polls in
      let d = record c { idle_polls = polls } in
      if c.qos_added
      then (if not_eq want c.idle_capped
          then record d {
            idle_capped = want;
            qos_idle = update_request c.qos_idle (if want then last_khz c.steps else unlimited);
          }
          else d)
      else c

  -- One turn of the loop of s9p_policy_work.
  unfoldable pub cluster_turn : Bool → ℕ → List Cpu → ℤ → ℕ → Cluster → Cluster
  cluster_turn floor_on index cpus t now c =
      if c.qos_added
      then (let d = thermal_turn t now c in
          idle_floor floor_on index cpus (if index == 1 then busy_turn cpus d else d))
      else c

-- The static state of the policy; `gpu` is the state behind s9p_g3d_set_khz.
pub record PolicyState (Gpu : Type 0) : Type 0 where
  pub cluster_little : Cluster
  pub cluster_big : Cluster
  pub filter_big : TmuFilter
  pub filter_little : TmuFilter
  pub filter_gpu : TmuFilter
  pub temp_big : ℤ
  pub temp_little : ℤ
  pub temp_gpu : ℤ
  pub gpu_lvl : ℕ
  pub gpu_changed : ℕ
  pub gpu : Gpu

-- What one run sees: the register blocks if they are mapped, the CPUs, the time in milliseconds.
pub record Sight : Type 0 where
  pub tmu_cpu : Option (ℕ → ℕ)
  pub tmu_g3d : Option (ℕ → ℕ)
  pub cpus : List Cpu
  pub now : ℕ
  pub floor_on : Bool

-- A filtered reading, where the block is mapped.
abbrev pub sense : Option (ℕ → ℕ) → List ℕ → TmuFilter → TmuFilter × ℤ
sense none sensors f = (f, int_min)
sense (some regs) sensors f = tmu_filtered f (tmu_max regs sensors)

abbrev pub poll_ms : Bool → ℕ
poll_ms capped = if capped then 25 else 100

module _ {Gpu : Type 0} (set_khz : ℕ → Gpu → Ret × Gpu) where
  -- The GPU's level follows only where the clock driver takes the cap.
  unfoldable pub gpu_turn : ℤ → ℕ → PolicyState Gpu → PolicyState Gpu
  gpu_turn t now p =
      let (lvl, changed) = thermal_next p.gpu_lvl t thermal_gpu now p.gpu_changed in
      let q = record p { gpu_changed = changed } in
      if lvl == p.gpu_lvl
      then q
      else (let (ret, g) = set_khz (max_khz_of thermal_gpu lvl) p.gpu in
          if is_ok ret then record q { gpu_lvl = lvl; gpu = g } else record q { gpu = g })

  unfoldable pub policy_work : ℕ → Sight → PolicyState Gpu → PolicyState Gpu × ℕ
  policy_work unlimited see p =
      let (f_big, t_big) = sense see.tmu_cpu tmu_big p.filter_big in
      let (f_little, t_little) = sense see.tmu_cpu tmu_little p.filter_little in
      let (f_gpu, t_gpu) = sense see.tmu_g3d tmu_gpu p.filter_gpu in
      let c0 = cluster_turn unlimited see.floor_on 0 see.cpus t_little see.now p.cluster_little in
      let c1 = cluster_turn unlimited see.floor_on 1 see.cpus t_big see.now p.cluster_big in
      let q = record p {
        filter_big = f_big;
        filter_little = f_little;
        filter_gpu = f_gpu;
        temp_big = t_big;
        temp_little = t_little;
        temp_gpu = t_gpu;
        cluster_little = c0;
        cluster_big = c1;
      } in
      (gpu_turn t_gpu see.now q, poll_ms (c0.idle_capped || c1.idle_capped))
