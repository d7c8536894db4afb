-- ===== src/Thermal/Tmu.antt =====
-- s9p_tmu_read and s9p_tmu_max of src/cpufreq/s9p-cpufreq.c.
use galaxy_s9plus_mainline_l.Common.{
  ℕ, ◌≡◌, ap, ◌≤◌, refl, ◌⊎◌, inl, inr, All, Bool-cases, ltb_ℤ, ◌-◌, arith, ℤ, pos, negsuc, ◌≤ℤ◌,
  int_min, List, [], ◌∷◌, max_ℤ, ◌*◌, ◌/◌, ◌<◌,
}
use galaxy_s9plus_mainline_l.Thermal.{tmu_read, tmu_max, tmu_max_from, degrees}

-- A reading is the value for "no reading" or lies between -20 and 150 degrees.
pub tmu_read_range :
    (regs : ℕ → ℕ) (s : ℕ)
    → (tmu_read regs s ≡ int_min) ⊎ ((negsuc 19 ≤ℤ tmu_read regs s) × (tmu_read regs s ≤ℤ pos 150))
unfolding tmu_read
tmu_read_range regs s = ground arith

tmu_max_from-ge : (regs : ℕ → ℕ) (best : ℤ) (ss : List ℕ) → best ≤ℤ tmu_max_from regs best ss
unfolding tmu_max_from
tmu_max_from-ge regs best [] = omega arith
tmu_max_from-ge regs best (s ∷ ss) =
    ground (arith, tmu_max_from-ge regs (max_ℤ best (tmu_read regs s)) ss)

abbrev pub NoneAbove : (ℕ → ℕ) → ℤ → List ℕ → Type 0
NoneAbove regs t = All (λ s. tmu_read regs s ≤ℤ t)

tmu_max_from-NoneAbove :
    (regs : ℕ → ℕ) (best : ℤ) (ss : List ℕ) → NoneAbove regs (tmu_max_from regs best ss) ss
unfolding tmu_max_from
tmu_max_from-NoneAbove regs best [] = tt
tmu_max_from-NoneAbove regs best (s ∷ ss) =
    let best' : ℤ = max_ℤ best (tmu_read regs s) in
    (ground (arith, tmu_max_from-ge regs best' ss), tmu_max_from-NoneAbove regs best' ss)

-- The starting value, or the reading of one of the sensors.
abbrev pub IsReading : (ℕ → ℕ) → ℤ → List ℕ → ℤ → Type 0
IsReading regs best [] t = t ≡ best
IsReading regs best (s ∷ ss) t = (t ≡ tmu_read regs s) ⊎ IsReading regs best ss t

IsReading-weaken :
    (regs : ℕ → ℕ) (best best' t : ℤ) (ss : List ℕ)
    → IsReading regs best' ss t
    → IsReading regs best ss t ⊎ (t ≡ best')
IsReading-weaken regs best best' t [] h = inr h
IsReading-weaken regs best best' t (s ∷ ss) (inl e) = inl (inl e)
IsReading-weaken regs best best' t (s ∷ ss) (inr h) =
    ground (arith, IsReading-weaken regs best best' t ss h)

IsReading-start : (regs : ℕ → ℕ) (best : ℤ) (ss : List ℕ) → IsReading regs best ss best
IsReading-start regs best [] = refl
IsReading-start regs best (s ∷ ss) = inr (IsReading-start regs best ss)

tmu_max_from-IsReading :
    (regs : ℕ → ℕ) (best : ℤ) (ss : List ℕ) → IsReading regs best ss (tmu_max_from regs best ss)
unfolding tmu_max_from
tmu_max_from-IsReading regs best [] = refl
tmu_max_from-IsReading regs best (s ∷ ss) = elim (Bool-cases (ltb_ℤ best (tmu_read regs s))) [
  | inl e ↦ rw e (
      hotter (IsReading-weaken regs best _ _ ss (tmu_max_from-IsReading regs (tmu_read regs s) ss)))
  | inr e ↦ rw e (inr (tmu_max_from-IsReading regs best ss))
]
  where
    hotter :
        {t : ℤ}
        → IsReading regs best ss t ⊎ (t ≡ tmu_read regs s)
        → (t ≡ tmu_read regs s) ⊎ IsReading regs best ss t
    hotter (inl h) = inr h
    hotter (inr h) = inl h

-- The maximum over a sensor list is a sensor's reading, or INT_MIN, and no sensor reads more.
pub tmu_max_lem :
    (regs : ℕ → ℕ) (ss : List ℕ)
    → NoneAbove regs (tmu_max regs ss) ss × IsReading regs int_min ss (tmu_max regs ss)
unfolding tmu_max
tmu_max_lem regs ss =
    (tmu_max_from-NoneAbove regs int_min ss, tmu_max_from-IsReading regs int_min ss)

div-le : (x d : ℕ) → x ≤ d → 0 < d → x * 60 / d ≤ 60
div-le x d h p = grind arith

div_self : (d : ℕ) → 0 < d → d * 60 / d ≡ 60
div_self d p = grind arith

-- A code between the two calibration codes is 25 to 85 degrees, the ends exactly those.
pub degrees_calibrated :
    (e1 e2 code : ℕ)
    → e1 < e2
    → e1 ≤ code
    → code ≤ e2
    → (pos 25 ≤ℤ degrees e1 e2 code)
      × (degrees e1 e2 code ≤ℤ pos 85)
      × (code ≡ e1 → degrees e1 e2 code ≡ pos 25)
      × (code ≡ e2 → degrees e1 e2 code ≡ pos 85)
unfolding degrees
degrees_calibrated e1 e2 code lt lo hi = ground (
  arith,
  div-le (code - e1) (e2 - e1),
  div_self (e2 - e1),
  ap (λ x. x * 60 / (e2 - e1)) (let e : e1 - e1 ≡ 0 = omega arith in e),
)
