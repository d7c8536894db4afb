-- ===== src/Examples/Gpu.antt =====
-- The GPU's clock driver and its power domain, src/soc/s9p-g3d.c and src/soc/s9p-g3d-pd.c.
use galaxy_s9plus_mainline_l.Common.{
  ℕ, ◌∷◌, ◌≡◌, ◌≢◌, refl, true, false, [], none, some, etimedout, eprobe_defer, inl, inr, arith,
}
use galaxy_s9plus_mainline_l.Platform.{Hardware, write}
use galaxy_s9plus_mainline_l.G3d.{
  restore, unselect, disable, G3dStep, G3dVars, step_572, step_below, set_pll, initial_vars,
}
use galaxy_s9plus_mainline_l.G3d
use galaxy_s9plus_mainline_l.G3d.Rollback.{restore_lem, came_back, now, on_oscillator}
use galaxy_s9plus_mainline_l.G3d.Rail.{Covers, set_pll-Covers}
use galaxy_s9plus_mainline_l.G3d.Driver.{try_probe, probe}
use galaxy_s9plus_mainline_l.G3d.Probe.{failed_probe_stale}
use galaxy_s9plus_mainline_l.PowerDomain.{Domain, power_on, power_off}
use galaxy_s9plus_mainline_l.PowerDomain
use galaxy_s9plus_mainline_l.PowerDomain.Power.{power_off-Down, Down}
use galaxy_s9plus_mainline_l.Examples.{bench, gpu_vars, gpu}

gpu-Covers : Covers bench gpu
gpu-Covers = record { known = inr (inr (inl refl)); covered = omega arith }

set_pll-Covers_example : Covers bench (set_pll bench step_572 gpu).1
set_pll-Covers_example = set_pll-Covers bench step_572 gpu (inl (refl, refl)) gpu-Covers

restore_lem_example :
    let (ret, t) = restore bench 0x91430001 300 etimedout gpu in
    (ret ≡ some etimedout)
    × (came_back bench 0x91430001 300 gpu ≡ true
        → (t.vars ≡ gpu.vars)
          × (t.log
              ≡ write G3d.con0_addr 0x91430001
                ∷ write G3d.con0_addr (unselect 0x91430001)
                ∷ write G3d.locktime_addr 300
                ∷ write G3d.con0_addr (disable (on_oscillator bench 0x91430001 300 gpu).0)
                ∷ write G3d.con0_addr (unselect (now bench 0x91430001 300 gpu).0)
                ∷ gpu.log))
    × (came_back bench 0x91430001 300 gpu ≡ false → t.vars ≡ record (gpu.vars) { cur_khz = 26000 })
restore_lem_example = restore_lem bench 0x91430001 300 etimedout gpu

-- The PMIC does not answer.
abbrev no_pmic : Hardware ℕ
no_pmic = record bench { pmic_put = λ r v w. (some etimedout, w) }

abbrev fresh : G3d.S no_pmic
fresh = record { world = 0; log = []; vars = initial_vars }

deferred : (try_probe no_pmic true true fresh).0 ≡ some eprobe_defer
unfolding try_probe probe G3d.pll_is
deferred = refl

deferred_error : (try_probe no_pmic true true fresh).0 ≢ none
deferred_error e = let d = deferred in cc

left_set : (try_probe no_pmic true true fresh).1.vars.mapped ≡ true
unfolding try_probe probe G3d.pll_is
left_set = refl

failed_probe_stale_example :
    (try_probe no_pmic true true (try_probe no_pmic true true fresh).1).1.vars.live ≡ false
failed_probe_stale_example =
    failed_probe_stale no_pmic true true true true fresh deferred_error left_set

abbrev domain : PowerDomain.S bench
domain = record {
  world = 0;
  log = [];
  vars = record {
    gpu = gpu_vars;
    initialized = true;
    low_power_initialized = false;
    always_on = false;
    use_smc = true;
    pll_m = 400;
    pll_p = 10;
    pll_s = 2;
    power_ons = 0;
    power_offs = 0;
    panicked = false;
  };
}

power_off-Down_example : Down bench (power_off bench domain).0 (power_off bench domain).1.vars
power_off-Down_example = power_off-Down bench domain refl refl
