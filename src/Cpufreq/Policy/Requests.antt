-- ===== src/Cpufreq/Policy/Requests.antt =====
-- The four QoS requests of a cluster of src/cpufreq/s9p-cpufreq.c: added together or not at all,
-- and kept in step with the state that they stand for.
use galaxy_s9plus_mainline_l.Common.{
  ℕ, ◌≤◌, ◌≡◌, ◌≢◌, ◌==◌, ◌⊎◌, Bool, true, false, List, none, some, Ret, arith, ℤ, if◌then◌else◌,
  leb,
}
use galaxy_s9plus_mainline_l.Thermal.{thermal_next}
use galaxy_s9plus_mainline_l.Cpufreq.{Cluster, Cpu}
use galaxy_s9plus_mainline_l.Cpufreq.Policy.{
  init, exit, apply_boost, idle_floor, thermal_turn, busy_turn, cluster_turn, idle_enter_polls,
  last_khz, max_khz_of,
}

abbrev pub NoRequests : Cluster → Type 0
NoRequests c =
    (c.qos_thermal ≡ none) × (c.qos_busy ≡ none) × (c.qos_boost ≡ none) × (c.qos_idle ≡ none)

-- The requests of a running policy, and the counter behind the idle floor.
pub record IsGoverned (unlimited : ℕ) (boost : Bool) (c : Cluster) : Type 0 where
  pub running : c.qos_added ≡ true
  pub boosted : c.qos_boost ≡ some (if boost then unlimited else c.safe_max)
  pub floored : c.qos_idle ≡ some (if c.idle_capped then last_khz c.steps else unlimited)
  pub has_thermal : c.qos_thermal ≢ none
  pub has_busy : c.qos_busy ≢ none
  pub polls : c.idle_polls ≤ idle_enter_polls
  pub capped : c.idle_capped ≡ leb idle_enter_polls c.idle_polls

module _ (unlimited : ℕ) where
  -- s9p_init of a cluster without requests either adds all four, with the limits that boost asks
  -- for, or returns an error and leaves none behind.
  pub init_all_or_nothing :
      (adds : ℕ → Ret) (boost : Bool) (first : ℕ) (c : Cluster)
      → NoRequests c
      → let (ret, d) = init unlimited adds boost first c in
        ((ret ≡ none)
          × IsGoverned unlimited boost d
          × (d.qos_thermal ≡ some unlimited)
          × (d.qos_busy ≡ some unlimited))
        ⊎ ((ret ≢ none) × NoRequests d × (d.qos_added ≡ c.qos_added))
  unfolding init
  init_all_or_nothing adds boost first c h = ground arith

  -- s9p_exit takes every request of a running policy away.
  pub exit-NoRequests :
      (boost : Bool) (c : Cluster)
      → IsGoverned unlimited boost c
      → NoRequests (exit c) × ((exit c).qos_added ≡ false)
  unfolding exit
  exit-NoRequests boost c g = ground arith

  apply_boost-IsGoverned :
      (boost boost' : Bool) (c : Cluster)
      → IsGoverned unlimited boost c
      → IsGoverned unlimited boost' (apply_boost unlimited boost' c)
  unfolding apply_boost
  apply_boost-IsGoverned boost boost' c g = ground arith

  thermal_turn-IsGoverned :
      (boost : Bool) (t : ℤ) (now : ℕ) (c : Cluster)
      → IsGoverned unlimited boost c
      → IsGoverned unlimited boost (thermal_turn t now c)
  unfolding thermal_turn
  thermal_turn-IsGoverned boost t now c g = ground arith

  busy_turn-IsGoverned :
      (boost : Bool) (cpus : List Cpu) (c : Cluster)
      → IsGoverned unlimited boost c
      → IsGoverned unlimited boost (busy_turn cpus c)
  unfolding busy_turn
  busy_turn-IsGoverned boost cpus c g = ground arith

  idle_floor-IsGoverned :
      (boost floor_on : Bool) (index : ℕ) (cpus : List Cpu) (c : Cluster)
      → IsGoverned unlimited boost c
      → IsGoverned unlimited boost (idle_floor unlimited floor_on index cpus c)
  unfolding idle_floor
  idle_floor-IsGoverned boost floor_on index cpus c g = ground arith

  cluster_turn-running :
      (floor_on : Bool) (index : ℕ) (cpus : List Cpu) (t : ℤ) (now : ℕ) (c : Cluster)
      → c.qos_added ≡ true
      → cluster_turn unlimited floor_on index cpus t now c ≡ (
          let d = thermal_turn t now c in
          idle_floor unlimited floor_on index cpus (if index == 1 then busy_turn cpus d else d))
  unfolding cluster_turn
  cluster_turn-running floor_on index cpus t now c e = simp e

  middle-IsGoverned :
      (boost b : Bool) (cpus : List Cpu) (d : Cluster)
      → IsGoverned unlimited boost d
      → IsGoverned unlimited boost (if b then busy_turn cpus d else d)
  middle-IsGoverned boost true cpus d g = busy_turn-IsGoverned boost cpus d g
  middle-IsGoverned boost false cpus d g = g

  -- A turn of the policy keeps the requests: the boost limit and the floor are what the state says,
  -- and none of the four is lost, whatever the temperature and the CPUs do.
  pub cluster_turn-IsGoverned :
      (boost floor_on : Bool) (index : ℕ) (cpus : List Cpu) (t : ℤ) (now : ℕ) (c : Cluster)
      → IsGoverned unlimited boost c
      → IsGoverned unlimited boost (cluster_turn unlimited floor_on index cpus t now c)
  cluster_turn-IsGoverned boost floor_on index cpus t now c g =
      rw (cluster_turn-running floor_on index cpus t now c g.running) (
        idle_floor-IsGoverned boost floor_on index cpus _
          (middle-IsGoverned boost (index == 1) cpus _ (thermal_turn-IsGoverned boost t now c g)))

-- The thermal request is the cap of the level; at level 0, where s9p_init leaves it, it may also be
-- without a limit.
abbrev pub IsCapped : ℕ → Cluster → Type 0
IsCapped unlimited c =
    (c.qos_thermal ≡ some (max_khz_of c.thermal c.thermal_lvl))
    ⊎ ((c.thermal_lvl ≡ 0) × (c.qos_thermal ≡ some unlimited))

-- A turn that changes the level asks for the cap of the new one.
abbrev pub Follows : Cluster → Cluster → Type 0
Follows c d =
    d.thermal_lvl ≢ c.thermal_lvl → d.qos_thermal ≡ some (max_khz_of d.thermal d.thermal_lvl)

thermal_turn-IsCapped :
    (unlimited : ℕ) (t : ℤ) (now : ℕ) (c : Cluster)
    → c.qos_thermal ≢ none
    → IsCapped unlimited c
    → IsCapped unlimited (thermal_turn t now c) × Follows c (thermal_turn t now c)
unfolding thermal_turn
thermal_turn-IsCapped unlimited t now c q h = ground arith

-- The other parts of a turn leave the level and the thermal request alone.
abbrev SameThermal : Cluster → Cluster → Type 0
SameThermal c d =
    (d.thermal_lvl ≡ c.thermal_lvl) × (d.qos_thermal ≡ c.qos_thermal) × (d.thermal ≡ c.thermal)

rest-SameThermal :
    (unlimited : ℕ) (floor_on : Bool) (index : ℕ) (cpus : List Cpu) (d : Cluster)
    → SameThermal d
        (idle_floor unlimited floor_on index cpus (if index == 1 then busy_turn cpus d else d))
unfolding idle_floor busy_turn
rest-SameThermal unlimited floor_on index cpus d = ground arith

SameThermal-IsCapped :
    (unlimited : ℕ) (c d e : Cluster)
    → SameThermal d e
    → IsCapped unlimited d × Follows c d
    → IsCapped unlimited e × Follows c e
SameThermal-IsCapped unlimited c d e (lvl, qos, table) h = rw (lvl, qos, table) h

-- A turn of the policy on a running cluster whose thermal request is the cap of its level leaves it
-- so at the new level. At level 0 the request may be without a limit, as s9p_init leaves it, but not
-- after a turn that changed the level.
pub cluster_turn-IsCapped :
    (unlimited : ℕ) (boost floor_on : Bool) (index : ℕ) (cpus : List Cpu) (t : ℤ) (now : ℕ)
    (c : Cluster)
    → IsGoverned unlimited boost c
    → IsCapped unlimited c
    → let d = cluster_turn unlimited floor_on index cpus t now c in
      IsCapped unlimited d × Follows c d
cluster_turn-IsCapped unlimited boost floor_on index cpus t now c g h =
    let d = thermal_turn t now c in
    let e = idle_floor unlimited floor_on index cpus (if index == 1 then busy_turn cpus d else d) in
    rw (cluster_turn-running unlimited floor_on index cpus t now c g.running) (
      SameThermal-IsCapped unlimited c d e
        (rest-SameThermal unlimited floor_on index cpus (thermal_turn t now c))
        (thermal_turn-IsCapped unlimited t now c g.has_thermal h))

-- A successful s9p_init touches none of the thermal state.
init_ok :
    (unlimited : ℕ) (adds : ℕ → Ret) (boost : Bool) (first : ℕ) (c : Cluster)
    → let (ret, d) = init unlimited adds boost first c in
      ret ≡ none
      → (d.qos_added ≡ true)
        × (d.qos_thermal ≡ some unlimited)
        × (d.thermal_lvl ≡ c.thermal_lvl)
        × (d.thermal ≡ c.thermal)
        × (d.thermal_changed ≡ c.thermal_changed)
unfolding init
init_ok unlimited adds boost first c = ground arith

thermal_turn_same :
    (t : ℤ) (now : ℕ) (c : Cluster)
    → (thermal_next c.thermal_lvl t c.thermal now c.thermal_changed).0 ≡ c.thermal_lvl
    → ((thermal_turn t now c).thermal_lvl ≡ c.thermal_lvl)
      × ((thermal_turn t now c).qos_thermal ≡ c.qos_thermal)
unfolding thermal_turn
thermal_turn_same t now c e = ground arith

-- s9p_init keeps the thermal level of an earlier policy but adds the thermal request unlimited.
-- Where the temperature demands the level that was kept, the next turn does not lower the request:
-- a cluster that is hot when its policy comes back runs without its thermal cap.
pub init_loses_cap :
    (unlimited : ℕ) (adds : ℕ → Ret) (boost floor_on : Bool) (first index : ℕ) (cpus : List Cpu)
    (t : ℤ) (now : ℕ) (c : Cluster)
    → (init unlimited adds boost first c).0 ≡ none
    → (thermal_next c.thermal_lvl t c.thermal now c.thermal_changed).0 ≡ c.thermal_lvl
    → let d =
        cluster_turn unlimited floor_on index cpus t now (init unlimited adds boost first c).1 in
      (d.thermal_lvl ≡ c.thermal_lvl) × (d.qos_thermal ≡ some unlimited)
init_loses_cap unlimited adds boost floor_on first index cpus t now c ok same =
    let d : Cluster = (init unlimited adds boost first c).1 in
    let (running, request, lvl, table, since) = init_ok unlimited adds boost first c ok in
    rw (cluster_turn-running unlimited floor_on index cpus t now d running) (
      ground (
        arith,
        rest-SameThermal unlimited floor_on index cpus (thermal_turn t now d),
        thermal_turn_same t now d (rw (lvl, table, since) same),
      ))
