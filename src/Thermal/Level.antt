-- ===== src/Thermal/Level.antt =====
-- s9p_thermal_next of src/cpufreq/s9p-cpufreq.c.
use galaxy_s9plus_mainline_l.Common.{
  ℕ, zero, suc, ◌+◌, ◌-◌, ◌<ℤ◌, ◌-ℤ◌, ap, if◌then◌else◌, ◌≤◌, ◌<◌, ◌≡◌, refl, ◌⊎◌, inl, inr,
  Bool-cases, true, false, arith, ℤ, pos, ◌≤ℤ◌, ltb_ℤ, List, [], ◌∷◌, length, is_int_min, leb_ℤ,
}
use galaxy_s9plus_mainline_l.Thermal.{
  ThermalLevel, want_from, level_wanted, up_at_of, thermal_next, thermal_hyst, thermal_hold_ms,
}

want_from-lt :
    (temp : ℤ) (want i : ℕ) (ls : List ThermalLevel)
    → want < i
    → want_from temp want i ls < i + length ls
unfolding want_from
want_from-lt temp want i [] h = omega arith
want_from-lt temp want i (l ∷ ls) h = elim (Bool-cases (leb_ℤ (pos l.up_at) temp)) [
  | inl e ↦ rw e (omega (arith, want_from-lt temp i (i + 1) ls (omega arith)))
  | inr e ↦ rw e (omega (arith, want_from-lt temp want (i + 1) ls (omega arith)))
]

pub level_wanted-lt :
    (temp : ℤ) (lv : List ThermalLevel) → 0 < length lv → level_wanted temp lv < length lv
unfolding level_wanted
level_wanted-lt temp [] h = omega arith
level_wanted-lt temp (l ∷ ls) h = omega (arith, want_from-lt temp 0 1 ls (omega arith))

-- The temperature reaches entry `n - i` of the list.
abbrev ReachedAt : ℤ → List ThermalLevel → ℕ → ℕ → Type 0
ReachedAt temp ls i n = (i ≤ n) × (pos (up_at_of ls (n - i)) ≤ℤ temp)

up_at_of-cons :
    (l : ThermalLevel) (ls : List ThermalLevel) (k : ℕ)
    → 0 < k
    → up_at_of (l ∷ ls) k ≡ up_at_of ls (k - 1)
up_at_of-cons l ls zero h = absurd (omega arith)
up_at_of-cons l ls (suc k) h = ap (up_at_of ls) (omega arith)

-- What the loop answers: its start value, or a level that the temperature reaches.
want_from-reached :
    (temp : ℤ) (want i : ℕ) (ls : List ThermalLevel)
    → (want_from temp want i ls ≡ want) ⊎ ReachedAt temp ls i (want_from temp want i ls)
unfolding want_from
want_from-reached temp want i [] = inl refl
want_from-reached temp want i (l ∷ ls) =
    let want' : ℕ = if leb_ℤ (pos l.up_at) temp then i else want in
    let n : ℕ = want_from temp want' (i + 1) ls in
    ground (
      arith,
      want_from-reached temp want' (i + 1) ls,
      up_at_of-cons l ls (n - i),
      ap (up_at_of ls) (let e : n - i - 1 ≡ n - (i + 1) = omega arith in e),
      ap (up_at_of (l ∷ ls)) (let e : i - i ≡ 0 = omega arith in e),
    )

want_from-ge :
    (temp : ℤ) (want i : ℕ) (ls : List ThermalLevel) → want ≤ i → want ≤ want_from temp want i ls
unfolding want_from
want_from-ge temp want i [] h = omega arith
want_from-ge temp want i (l ∷ ls) h =
    ground (arith, want_from-ge temp (if leb_ℤ (pos l.up_at) temp then i else want) (i + 1) ls)

-- Every level after the answer starts above the temperature.
want_from-above :
    (temp : ℤ) (want i k : ℕ) (ls : List ThermalLevel)
    → k < length ls
    → want_from temp want i ls < i + k
    → ltb_ℤ temp (pos (up_at_of ls k)) ≡ true
unfolding want_from
want_from-above temp want i k [] h lt = absurd (omega arith)
want_from-above temp want i zero (l ∷ ls) h lt =
    ground (arith, want_from-ge temp (if leb_ℤ (pos l.up_at) temp then i else want) (i + 1) ls)
want_from-above temp want i (suc k) (l ∷ ls) h lt =
    want_from-above temp (if leb_ℤ (pos l.up_at) temp then i else want) (i + 1) k ls (omega arith)
      (omega arith)

-- The level demanded is 0 or one that the temperature reaches, and no later level is reached.
pub level_wanted-reached :
    (temp : ℤ) (lv : List ThermalLevel)
    → (level_wanted temp lv ≡ 0) ⊎ (pos (up_at_of lv (level_wanted temp lv)) ≤ℤ temp)
unfolding level_wanted
level_wanted-reached temp [] = inl refl
level_wanted-reached temp (l ∷ ls) =
    let n : ℕ = want_from temp 0 1 ls in
    ground (arith, want_from-reached temp 0 1 ls, up_at_of-cons l ls n)

pub level_wanted-above :
    (temp : ℤ) (lv : List ThermalLevel) (j : ℕ)
    → level_wanted temp lv < j
    → j < length lv
    → ltb_ℤ temp (pos (up_at_of lv j)) ≡ true
unfolding level_wanted
level_wanted-above temp [] j h k = absurd (omega arith)
level_wanted-above temp (l ∷ ls) zero h k = absurd (omega arith)
level_wanted-above temp (l ∷ ls) (suc j) h k =
    want_from-above temp 0 1 j ls (omega arith) (omega arith)

-- From a level in the table, the new level is in the table, no lower than a valid temperature
-- demands, and at most one step below the current level. It is one step below only where the
-- temperature is more than 8 degrees under the current level's threshold and 2000 ms have passed
-- since the last change; a rise goes to the level demanded. Either change is dated now.
pub thermal_next_lem :
    (cur : ℕ) (temp : ℤ) (lv : List ThermalLevel) (now changed : ℕ)
    → cur < length lv
    → let (next, changed') = thermal_next cur temp lv now changed in
      (next < length lv)
      × (cur ≤ next + 1)
      × (is_int_min temp ≡ false → level_wanted temp lv ≤ next)
      × (next < cur
          → (temp <ℤ pos (up_at_of lv cur) -ℤ pos thermal_hyst)
            × (changed + thermal_hold_ms ≤ now)
            × (changed' ≡ now))
      × (cur < next → (next ≡ level_wanted temp lv) × (changed' ≡ now))
unfolding thermal_next
thermal_next_lem cur temp lv now changed h =
    ground (arith, level_wanted-lt temp lv (omega arith), level_wanted-reached temp lv)
