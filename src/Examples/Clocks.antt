-- ===== src/Examples/Clocks.antt =====
-- The frequency change of src/cpufreq/s9p-cpufreq.c on a machine that is off the PLL.
use galaxy_s9plus_mainline_l.Common.{◌≡◌, refl, [], Option, none, some, Ret, inr}
use galaxy_s9plus_mainline_l.Cpufreq.{PllStep, big, khz_of}
use galaxy_s9plus_mainline_l.Cpufreq.Clock.{S, set_step}
use galaxy_s9plus_mainline_l.Cpufreq.Clock.Tables.{IsTabled}
use galaxy_s9plus_mainline_l.Cpufreq.Clock.Order.{Changed, rate_before, set_step_order}
use galaxy_s9plus_mainline_l.Examples.{bench}

abbrev fast : PllStep
fast = record { freq_khz = 2704000; m = 208; p = 2; s = 0; vsel = 0x88 }

abbrev start : S bench
start = record { world = 0; log = []; vars = 0 }

abbrev end_of {ℓ} : {A : Type ℓ} → A → Option A → A
end_of d none = d
end_of d (some a) = a

abbrev fast_end : Ret × S bench
fast_end = end_of (none, start) (set_step bench 1 big fast start)

fast_run : set_step bench 1 big fast start ≡ some (fast_end.0, fast_end.1)
unfolding set_step khz_of
fast_run = refl

set_step_order_example :
    Changed bench big fast (rate_before bench big start) start.log fast_end.0 fast_end.1.log
set_step_order_example = set_step_order bench 1 big fast start fast_run

fast-IsTabled : IsTabled fast
fast-IsTabled = (0, inr refl)
