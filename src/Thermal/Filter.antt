-- ===== src/Thermal/Filter.antt =====
-- s9p_tmu_filtered of src/cpufreq/s9p-cpufreq.c: the median over the last three readings.
use galaxy_s9plus_mainline_l.Common.{
  ℕ, zero, suc, ◌≡◌, refl, true, false, arith, ℤ, ◌≤ℤ◌, is_int_min,
}
use galaxy_s9plus_mainline_l.Thermal.{TmuFilter, median, tmu_filtered}

-- Within lo..hi.
abbrev pub Between : ℤ → ℤ → ℤ → Type 0
Between lo hi t = (lo ≤ℤ t) × (t ≤ℤ hi)

module _ (lo hi a b c : ℤ) where
  median-bc : Between lo hi b → Between lo hi c → Between lo hi (median a b c)
  median-bc hb hc = ground arith

  median-ac : Between lo hi a → Between lo hi c → Between lo hi (median a b c)
  median-ac ha hc = ground arith

  median-ab : Between lo hi a → Between lo hi b → Between lo hi (median a b c)
  median-ab ha hb = ground arith

-- Every sample but the one that the next reading replaces is within lo..hi.
abbrev pub KeptBetween : ℤ → ℤ → TmuFilter → ℕ → Type 0
KeptBetween lo hi f zero = Between lo hi f.sample_1 × Between lo hi f.sample_2
KeptBetween lo hi f (suc zero) = Between lo hi f.sample_0 × Between lo hi f.sample_2
KeptBetween lo hi f (suc (suc n)) = Between lo hi f.sample_0 × Between lo hi f.sample_1

outlier_at :
    (lo hi v : ℤ) (f : TmuFilter) (n : ℕ)
    → f.next ≡ n
    → f.primed ≡ true
    → is_int_min v ≡ false
    → KeptBetween lo hi f n
    → Between lo hi (tmu_filtered f v).1
unfolding tmu_filtered
outlier_at lo hi v f zero e p g k = ground (arith, median-bc lo hi v f.sample_1 f.sample_2)
outlier_at lo hi v f (suc zero) e p g k = ground (arith, median-ac lo hi f.sample_0 v f.sample_2)
outlier_at lo hi v f (suc (suc n)) e p g k = ground (arith, median-ab lo hi f.sample_0 f.sample_1 v)

-- One wild reading never shows: where the two samples that stay are within lo..hi, the filtered
-- value of a primed filter is within lo..hi for every new reading that is not INT_MIN.
pub tmu_filtered_outlier :
    (lo hi v : ℤ) (f : TmuFilter)
    → f.primed ≡ true
    → is_int_min v ≡ false
    → KeptBetween lo hi f f.next
    → Between lo hi (tmu_filtered f v).1
tmu_filtered_outlier lo hi v f p g k = outlier_at lo hi v f f.next refl p g k
