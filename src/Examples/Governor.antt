-- ===== src/Examples/Governor.antt =====
-- The policy of src/cpufreq/s9p-cpufreq.c on the M3 cluster.
use galaxy_s9plus_mainline_l.Common.{
  ℕ, ◌≤◌, ◌≡◌, ◌≢◌, refl, true, false, ◌&&◌, List, [], ◌∷◌, Option, none, some, Ret, einval, pos,
  inl, inr, ◌⊎◌, arith, if◌then◌else◌, Bool-cases, get_elem?, leb, zero, suc,
}
use galaxy_s9plus_mainline_l.Thermal.{thermal_next, level_wanted}
use galaxy_s9plus_mainline_l.Cpufreq.{
  Cluster, Cpu, big, find_step, khz_of, big_cap_for, big_busy_cores, cluster_is_idle,
}
use galaxy_s9plus_mainline_l.Cpufreq.Clock.{S, Policy, Transition, target, target_maximum}
use galaxy_s9plus_mainline_l.Cpufreq.Policy.{init, cluster_turn}
use galaxy_s9plus_mainline_l.Cpufreq.Policy.Requests.{
  NoRequests, IsGoverned, IsCapped, Follows, init_all_or_nothing, cluster_turn-IsCapped,
  init_loses_cap,
}
use galaxy_s9plus_mainline_l.Cpufreq.Policy.Caps.{IsTableTarget, target_capped}
use galaxy_s9plus_mainline_l.Cpufreq.Probe.{
  Blocks, Statics, Given, Probed, probe, null, probe-Probed,
}
use galaxy_s9plus_mainline_l.Acpm.{AcpmVars, initial_vars}
use galaxy_s9plus_mainline_l.Examples.{bench, running}

abbrev no_limit : ℕ
no_limit = 2147483647

running-IsGoverned : IsGoverned no_limit false running
running-IsGoverned = record {
  running = refl;
  boosted = refl;
  floored = refl;
  has_thermal = λ e. cc;
  has_busy = λ e. cc;
  polls = omega arith;
  capped = refl;
}

abbrev cores : List Cpu
cores = record { affinity_1 = 1; idle = false } ∷ record { affinity_1 = 1; idle = true } ∷ []

abbrev sleeping : List Cpu
sleeping = record { affinity_1 = 1; idle = true } ∷ []

running-IsCapped : IsCapped no_limit running
running-IsCapped = inr (refl, refl)

cluster_turn-IsCapped_example :
    let d = cluster_turn no_limit true 1 cores (pos 75) 100 running in
    IsCapped no_limit d × Follows running d
cluster_turn-IsCapped_example =
    cluster_turn-IsCapped no_limit false true 1 cores (pos 75) 100 running running-IsGoverned
      running-IsCapped

abbrev accept : ℕ → Ret
accept i = none

abbrev third_fails : ℕ → Ret
third_fails i = if leb 2 i then some einval else none

init_all_or_nothing_example :
    let (ret, d) = init no_limit third_fails false 4 big in
    ((ret ≡ none)
      × IsGoverned no_limit false d
      × (d.qos_thermal ≡ some no_limit)
      × (d.qos_busy ≡ some no_limit))
    ⊎ ((ret ≢ none) × NoRequests d × (d.qos_added ≡ big.qos_added))
init_all_or_nothing_example =
    init_all_or_nothing no_limit third_fails false 4 big (refl, refl, refl, refl)

-- Level 3 of an earlier policy, at 85 degrees.
abbrev hot : Cluster
hot = record big { mapped = true; thermal_lvl = 3 }

hot_ready : (init no_limit accept false 4 hot).0 ≡ none
unfolding init
hot_ready = refl

hot_stays :
    (thermal_next hot.thermal_lvl (pos 85) hot.thermal 100 hot.thermal_changed).0 ≡ hot.thermal_lvl
unfolding thermal_next level_wanted
hot_stays = refl

init_loses_cap_example :
    let d = cluster_turn no_limit true 1 cores (pos 85) 100 (init no_limit accept false 4 hot).1 in
    (d.thermal_lvl ≡ hot.thermal_lvl) × (d.qos_thermal ≡ some no_limit)
init_loses_cap_example =
    init_loses_cap no_limit accept false true 4 1 cores (pos 85) 100 hot hot_ready hot_stays

busy_now : true && cluster_is_idle 1 cores ≡ false
unfolding cluster_is_idle
busy_now = refl

idle_now : cluster_is_idle 1 sleeping ≡ true
unfolding cluster_is_idle
idle_now = refl

abbrev policy : Policy
policy = record { cur = 400000; min_khz = 400000; max_khz = 2704000 }

abbrev start : S bench
start = record { world = 0; log = []; vars = 0 }

-- Three of the M3 frequencies, and the first that reaches a target.
abbrev short : Cluster
short = record big { freq_table = 650000 ∷ 1469000 ∷ 2704000 ∷ [] }

abbrev first_of : ℕ → ℕ → ℕ → Option ℕ
first_of w lo hi =
    if leb w 650000
    then some 0
    else if leb w 1469000
    then some 1
    else if leb w 2704000
    then some 2
    else none

entry_values :
    (j f : ℕ) → get_elem? short.freq_table j ≡ some f → (f ≡ 650000) ⊎ (f ≡ 1469000) ⊎ (f ≡ 2704000)
entry_values zero f e = inl cc
entry_values (suc zero) f e = inr (inl cc)
entry_values (suc (suc zero)) f e = inr (inr cc)
entry_values (suc (suc (suc j))) f e = absurd cc

first_of-IsTableTarget : IsTableTarget short first_of
first_of-IsTableTarget w lo hi i j f found entry reached low high =
    let values = entry_values j f entry in
    elim (Bool-cases (leb w 650000)) [
      | inl a ↦ let h = rw a at found in let k : i ≡ 0 = cc in rw k (ground arith)
      | inr a ↦ elim (Bool-cases (leb w 1469000)) [
        | inl b ↦ let h = rw (a, b) at found in let k : i ≡ 1 = cc in rw k (ground arith)
        | inr b ↦ elim (Bool-cases (leb w 2704000)) [
          | inl d ↦ let h = rw (a, b, d) at found in let k : i ≡ 2 = cc in rw k (ground arith)
          | inr d ↦ absurd (ground arith)
        ]
      ]
    ]

abbrev end_of {ℓ} : {A : Type ℓ} → A → Option A → A
end_of d none = d
end_of d (some a) = a

abbrev moved : Transition
moved = record { old = 400000; new = 1469000; failed = false }

abbrev ended : (Ret × Option Transition) × S bench
ended =
    end_of ((none, none), start)
      (target bench first_of einval 2 true cores short policy 1400000 start)

target_run :
    target bench first_of einval 2 true cores short policy 1400000 start
    ≡ some ((ended.0.0, some moved), ended.1)
unfolding target target_maximum find_step khz_of
target_run = refl

target_capped_example :
    (moved.new ≤ policy.max_khz) × (true ≡ true → moved.new ≤ big_cap_for (big_busy_cores cores))
unfolding target_maximum
target_capped_example =
    target_capped bench first_of einval 2 true cores short policy 1400000 start 2
      first_of-IsTableTarget refl target_run

abbrev untouched : Blocks
untouched = record { pll_con0 = null; mux = null; locktime = null }

abbrev unprobed : Statics
unprobed = record {
  of_little = untouched;
  of_big = untouched;
  tmu_cpu = false;
  tmu_g3d = false;
  scheduled = false;
}

abbrev granted : Given
granted = record { resource = λ i. none; tmu_cpu = true; tmu_g3d = true; register_driver = none }

abbrev answered : AcpmVars
answered = record initial_vars { acpm_ready = true }

probe-Probed_example : Probed answered granted unprobed (probe answered granted unprobed)
probe-Probed_example = probe-Probed answered granted unprobed
