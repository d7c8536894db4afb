-- ===== src/Cpufreq/Policy/Idle.antt =====
-- s9p_idle_floor of src/cpufreq/s9p-cpufreq.c: entered after five idle polls, released at once.
use galaxy_s9plus_mainline_l.Common.{
  ℕ, zero, suc, ◌+◌, ◌≡◌, refl, ap, ◌∙◌, Bool, true, false, ◌&&◌, List, some, arith, leb, min,
  if◌then◌else◌,
}
use galaxy_s9plus_mainline_l.Cpufreq.{Cluster, Cpu, cluster_is_idle}
use galaxy_s9plus_mainline_l.Cpufreq.Policy.{idle_floor, idle_enter_polls, last_khz}
use galaxy_s9plus_mainline_l.Cpufreq.Policy.Requests.{IsGoverned}

-- The same idle CPUs, poll after poll.
abbrev pub idle_rounds : ℕ → Bool → ℕ → List Cpu → ℕ → Cluster → Cluster
idle_rounds unlimited floor_on index cpus zero c = c
idle_rounds unlimited floor_on index cpus (suc n) c =
    idle_rounds unlimited floor_on index cpus n (idle_floor unlimited floor_on index cpus c)

module _ (unlimited : ℕ) (boost : Bool) (index : ℕ) (cpus : List Cpu) where
  -- With the switch off, or a core of the cluster at work, one poll takes the floor away: the idle
  -- request is unlimited and the count starts again.
  pub idle_floor_releases :
      (floor_on : Bool) (c : Cluster)
      → IsGoverned unlimited boost c
      → floor_on && cluster_is_idle index cpus ≡ false
      → let d = idle_floor unlimited floor_on index cpus c in
        (d.idle_polls ≡ 0) × (d.idle_capped ≡ false) × (d.qos_idle ≡ some unlimited)
  unfolding idle_floor
  idle_floor_releases floor_on c g quiet = ground arith

  idle_floor_counts :
      (c : Cluster)
      → IsGoverned unlimited boost c
      → cluster_is_idle index cpus ≡ true
      → let d = idle_floor unlimited true index cpus c in
        IsGoverned unlimited boost d
        × (d.idle_polls ≡ min idle_enter_polls (c.idle_polls + 1))
        × (d.steps ≡ c.steps)
  unfolding idle_floor
  idle_floor_counts c g quiet = ground arith

  idle_rounds-polls :
      (n : ℕ) (c : Cluster)
      → IsGoverned unlimited boost c
      → cluster_is_idle index cpus ≡ true
      → let d = idle_rounds unlimited true index cpus n c in
        IsGoverned unlimited boost d
        × (d.idle_polls ≡ min idle_enter_polls (c.idle_polls + n))
        × (d.steps ≡ c.steps)
  idle_rounds-polls zero c g quiet = (g, omega arith, refl)
  idle_rounds-polls (suc n) c g quiet =
      let (g', e, st) = idle_floor_counts c g quiet in
      let (g'', e', st') = idle_rounds-polls n (idle_floor unlimited true index cpus c) g' quiet in
      (g'', omega arith, st' ∙ st)

  -- From a fresh count, a cluster that stays idle is held at its lowest step exactly from the fifth
  -- poll on, and is unlimited before.
  pub idle_rounds_lem :
      (n : ℕ) (c : Cluster)
      → IsGoverned unlimited boost c
      → cluster_is_idle index cpus ≡ true
      → c.idle_polls ≡ 0
      → (idle_rounds unlimited true index cpus n c).qos_idle
        ≡ some (if leb idle_enter_polls n then last_khz c.steps else unlimited)
  idle_rounds_lem n c g quiet zero_polls =
      let (g', e, st) = idle_rounds-polls n c g quiet in ground (arith, ap last_khz st)
