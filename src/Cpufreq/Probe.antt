-- ===== src/Cpufreq/Probe.antt =====
-- s9p_cpufreq_probe, s9p_cpufreq_modinit and s9p_boost_set of src/cpufreq/s9p-cpufreq.c. What the
-- kernel's calls give is an argument.
use galaxy_s9plus_mainline_l.Common.{
  ℕ, ◌==◌, Bool, true, false, not, ◌⊎◌, inl, inr, List, [], ◌∷◌, none, some, Ret, Errno,
  eprobe_defer, enodev, ◌≡◌, refl, ◌∙◌, All, map,
}
use galaxy_s9plus_mainline_l.Acpm.{AcpmVars, is_ready}
use galaxy_s9plus_mainline_l.Cpufreq.{Cluster}
use galaxy_s9plus_mainline_l.Cpufreq.Policy.{apply_boost}

-- A static pointer to registers: NULL, an error pointer, or a valid one.
pub data Pointer : Type 0 where
  null valid : Pointer
  error_pointer : Errno → Pointer

abbrev pub pointer_of : Ret → Pointer
pointer_of none = valid
pointer_of (some e) = error_pointer e

pub record Blocks : Type 0 where
  pub pll_con0 : Pointer
  pub mux : Pointer
  pub locktime : Pointer

-- The static variables that the probe sets: the registers of the A55 and of the M3 cluster,
-- the two sensor blocks, and whether the policy work is scheduled.
pub record Statics : Type 0 where
  pub of_little : Blocks
  pub of_big : Blocks
  pub tmu_cpu : Bool
  pub tmu_g3d : Bool
  pub scheduled : Bool

-- What devm_platform_ioremap_resource gives for the resources 0 to 5, whether the sensors could be
-- mapped, and the result of cpufreq_register_driver.
pub record Given : Type 0 where
  pub resource : ℕ → Ret
  pub tmu_cpu : Bool
  pub tmu_g3d : Bool
  pub register_driver : Ret

abbrev pub Put : Type 0
Put = Pointer → Statics → Statics

abbrev put_con0 : Bool → Put
put_con0 false p d = record d { of_little = record (d.of_little) { pll_con0 = p } }
put_con0 true p d = record d { of_big = record (d.of_big) { pll_con0 = p } }

abbrev put_mux : Bool → Put
put_mux false p d = record d { of_little = record (d.of_little) { mux = p } }
put_mux true p d = record d { of_big = record (d.of_big) { mux = p } }

abbrev put_locktime : Bool → Put
put_locktime false p d = record d { of_little = record (d.of_little) { locktime = p } }
put_locktime true p d = record d { of_big = record (d.of_big) { locktime = p } }

-- The resources in the order of the probe, each with the pointer that it fills.
abbrev resources : List (ℕ × Put)
resources =
    (0, put_con0 false)
    ∷ (1, put_mux false)
    ∷ (2, put_con0 true)
    ∷ (3, put_mux true)
    ∷ (4, put_locktime false)
    ∷ (5, put_locktime true)
    ∷ []

-- The pointer is set before its error is looked at.
abbrev stop_at : Ret → Ret × Statics → Statics → Ret × Statics
stop_at none rest d = rest
stop_at (some e) rest d = (some e, d)

unfoldable pub map_each : (ℕ → Ret) → List (ℕ × Put) → Statics → Ret × Statics
map_each resource [] d = (none, d)
map_each resource ((i, put) ∷ rest) d =
    let d' = put (pointer_of (resource i)) d in
    let after = map_each resource rest d' in stop_at (resource i) after d'

abbrev schedule : Ret → Statics → Ret × Statics
schedule none d = (none, record d { scheduled = true })
schedule (some e) d = (some e, d)

-- From the sensors on.
abbrev after_map : Given → Ret × Statics → Ret × Statics
after_map given (some e, d) = (some e, d)
after_map given (none, d) =
    schedule given.register_driver (record d { tmu_cpu = given.tmu_cpu; tmu_g3d = given.tmu_g3d })

abbrev if_ready : Bool → Given → Statics → Ret × Statics
if_ready true given d = after_map given (map_each given.resource resources d)
if_ready false given d = (some eprobe_defer, d)

unfoldable pub probe : AcpmVars → Given → Statics → Ret × Statics
unfolding map_each
probe acpm given d = if_ready (is_ready acpm) given d

-- s9p_boost_set: what param_set_uint returns, and the value that it stored.
abbrev pub boost_set : ℕ → Ret → ℕ → Bool × List Cluster → Ret × (Bool × List Cluster)
boost_set unlimited (some e) v old = (some e, old)
boost_set unlimited none v (boost, clusters) =
    let on = not (v == 0) in (none, (on, map (apply_boost unlimited on) clusters))

-- s9p_cpufreq_modinit: the device, and whether the platform driver is registered.
pub record Module : Type 0 where
  pub device : Pointer
  pub registered : Bool

abbrev add_device : Ret → Module → Ret × Module
add_device none m = (none, record m { device = valid })
add_device (some e) m = (some e, record { device = error_pointer e; registered = false })

abbrev add_driver : Ret → Ret → Module → Ret × Module
add_driver (some e) device m = (some e, m)
add_driver none device m = add_device device (record m { registered = true })

abbrev unless_there : Pointer → Ret → Ret → Module → Ret × Module
unless_there null driver device m = add_driver driver device m
unless_there valid driver device m = (none, m)
unless_there (error_pointer e) driver device m = (none, m)

unfoldable pub modinit : Bool → Ret → Ret → Module → Ret × Module
modinit false driver device m = (some enodev, m)
modinit true driver device m = unless_there m.device driver device m

abbrev pub IsMapped : Blocks → Type 0
IsMapped b = (b.pll_con0 ≡ valid) × (b.mux ≡ valid) × (b.locktime ≡ valid)

-- The two ends of a probe from `d`.
abbrev pub Probed : AcpmVars → Given → Statics → Ret × Statics → Type 0
Probed acpm given d (ret, t) =
    ((ret ≡ none)
      × (acpm.acpm_ready ≡ true)
      × (given.register_driver ≡ none)
      × IsMapped t.of_little
      × IsMapped t.of_big
      × (t.scheduled ≡ true))
    ⊎ ((e : Errno) × (ret ≡ some e) × (t.scheduled ≡ d.scheduled))

-- What a pointer that is filled leaves alone.
abbrev Quiet : ℕ × Put → Type 0
Quiet (i, put) = (p : Pointer) (d : Statics) → (put p d).scheduled ≡ d.scheduled

abbrev fill : List (ℕ × Put) → Statics → Statics
fill [] d = d
fill ((i, put) ∷ rest) d = fill rest (put valid d)

abbrev Walked : List (ℕ × Put) → Statics → Ret × Statics → Type 0
Walked rs d (ret, t) =
    ((ret ≡ none) × (t ≡ fill rs d)) ⊎ ((e : Errno) × (ret ≡ some e) × (t.scheduled ≡ d.scheduled))

Walked-later :
    (i : ℕ) (put : Put) (rs : List (ℕ × Put)) (d : Statics) (out : Ret × Statics)
    → Quiet (i, put)
    → Walked rs (put valid d) out
    → Walked ((i, put) ∷ rs) d out
Walked-later i put rs d out quiet (inl done) = inl done
Walked-later i put rs d out quiet (inr (e, failed, same)) = inr (e, failed, same ∙ quiet valid d)

stop_at-Walked :
    (r : Ret) (i : ℕ) (put : Put) (rs : List (ℕ × Put)) (d : Statics)
    (next : Statics → Ret × Statics)
    → Quiet (i, put)
    → ((t : Statics) → Walked rs t (next t))
    → let d' = put (pointer_of r) d in Walked ((i, put) ∷ rs) d (stop_at r (next d') d')
stop_at-Walked none i put rs d next quiet later =
    Walked-later i put rs d (next (put valid d)) quiet (later (put valid d))
stop_at-Walked (some e) i put rs d next quiet later = inr (e, refl, quiet (error_pointer e) d)

map_each-Walked :
    (resource : ℕ → Ret) (rs : List (ℕ × Put)) (d : Statics)
    → All Quiet rs
    → Walked rs d (map_each resource rs d)
unfolding map_each
map_each-Walked resource [] d quiet = inl (refl, refl)
map_each-Walked resource ((i, put) ∷ rs) d (quiet, rest) =
    stop_at-Walked (resource i) i put rs d (map_each resource rs) quiet
      (λ t. map_each-Walked resource rs t rest)

resources-Quiet : All Quiet resources
resources-Quiet =
    let q : (p : Pointer) (d : Statics) → d.scheduled ≡ d.scheduled = λ p d. refl in
    (q, (q, (q, (q, (q, (q, tt))))))

if_ready-Probed :
    (ready : Bool) (acpm : AcpmVars) (given : Given) (d : Statics)
    → acpm.acpm_ready ≡ ready
    → Probed acpm given d (if_ready ready given d)
if_ready-Probed false acpm given d e = inr (eprobe_defer, refl, refl)
if_ready-Probed true acpm given d e =
    mapped given.register_driver refl (map_each given.resource resources d)
      (map_each-Walked given.resource resources d resources-Quiet)
  where
    mapped :
        (r : Ret)
        → given.register_driver ≡ r
        → (out : Ret × Statics) → Walked resources d out
        → Probed acpm given d (after_map given out)
    mapped r h (none, t) (inr (x, failed, same)) = cc
    mapped r h (some x, t) (inl (fine, same)) = cc
    mapped r h (some x, t) (inr (y, failed, same)) = inr (x, refl, same)
    mapped none h (none, t) (inl (fine, same)) =
        rw (h, same) (inl (refl, e, refl, (refl, refl, refl), (refl, refl, refl), refl))
    mapped (some x) h (none, t) (inl (fine, same)) = rw (h, same) (inr (x, refl, refl))

-- The probe returns 0 only once the firmware has answered a transfer, with the registers of both
-- clusters mapped, the driver registered and the policy work scheduled. Otherwise it returns an
-- error and schedules nothing.
pub probe-Probed :
    (acpm : AcpmVars) (given : Given) (d : Statics) → Probed acpm given d (probe acpm given d)
unfolding probe
probe-Probed acpm given d = if_ready-Probed acpm.acpm_ready acpm given d refl
