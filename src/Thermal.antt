-- ===== src/Thermal.antt =====
-- The thermal policy of src/cpufreq/s9p-cpufreq.c: the TMU sensors, the median filter over their
-- readings, and the levels with their hysteresis.
pub mod Filter
pub mod Tmu
pub mod Level
use galaxy_s9plus_mainline_l.Common.{
  ℕ, zero, suc, ◌+◌, ◌-◌, ◌*◌, ◌/◌, ◌%◌, ◌^◌, Bool, true, false, ◌&&◌, ◌||◌, List, [], ◌∷◌, get_or,
  ltb, leb, ◌==◌, if◌then◌else◌, ℤ, pos, negsuc, ◌+ℤ◌, ◌-ℤ◌, ltb_ℤ, leb_ℤ, min_ℤ, max_ℤ, mul_div,
  int_min, is_int_min,
}

-- Which register holds a sensor, and the number of the first sensor in it.
abbrev pub temp_register : ℕ → ℕ × ℕ
temp_register s = if ltb s 2 then (0x40, 0) else if ltb s 5 then (0x44, 2) else (0x48, 5)

-- `regs` is the register block as `readl_relaxed(base + off)` sees it during one reading, which
-- reads each register once. The two calibration codes, and the code measured now.
abbrev pub trim_25 : (ℕ → ℕ) → ℕ → ℕ
trim_25 regs s = regs (s * 4) % 2 ^ 9

abbrev pub trim_85 : (ℕ → ℕ) → ℕ → ℕ
trim_85 regs s = regs (s * 4) / 2 ^ 9 % 2 ^ 9

abbrev pub temp_code : (ℕ → ℕ) → ℕ → ℕ
temp_code regs s = let (off, first) = temp_register s in regs off / 2 ^ (9 * (s - first)) % 2 ^ 9

-- `e2 > e1` holds where the quotient is formed, so the truncated `-` is exact.
unfoldable pub degrees : ℕ → ℕ → ℕ → ℤ
degrees e1 e2 code =
    let above = pos code -ℤ pos e1 in
    if ltb e1 e2 then mul_div above 60 (e2 - e1) +ℤ pos 25 else above +ℤ pos 25

unfoldable pub tmu_read : (ℕ → ℕ) → ℕ → ℤ
tmu_read regs s =
    let t = degrees (trim_25 regs s) (trim_85 regs s) (temp_code regs s) in
    if ltb_ℤ t (negsuc 19) || ltb_ℤ (pos 150) t then int_min else t

unfoldable pub tmu_max_from : (ℕ → ℕ) → ℤ → List ℕ → ℤ
tmu_max_from regs best [] = best
tmu_max_from regs best (s ∷ ss) = tmu_max_from regs (max_ℤ best (tmu_read regs s)) ss

unfoldable pub tmu_max : (ℕ → ℕ) → List ℕ → ℤ
unfolding tmu_max_from
tmu_max regs sensors = tmu_max_from regs int_min sensors

abbrev pub tmu_big : List ℕ
tmu_big = 1 ∷ 2 ∷ 3 ∷ 4 ∷ 6 ∷ []

abbrev pub tmu_little : List ℕ
tmu_little = 5 ∷ []

abbrev pub tmu_gpu : List ℕ
tmu_gpu = 1 ∷ []

-- struct s9p_tmu_filter: the three samples are fields of their own.
pub record TmuFilter : Type 0 where
  pub sample_0 : ℤ
  pub sample_1 : ℤ
  pub sample_2 : ℤ
  pub next : ℕ
  pub primed : Bool

-- `f->sample[f->next] = value`; `next` is 0, 1 or 2.
abbrev pub put_sample : TmuFilter → ℕ → ℤ → TmuFilter
put_sample f zero v = record f { sample_0 = v }
put_sample f (suc zero) v = record f { sample_1 = v }
put_sample f (suc (suc n)) v = record f { sample_2 = v }

abbrev pub median : ℤ → ℤ → ℤ → ℤ
median a b c = max_ℤ (min_ℤ a b) (min_ℤ (max_ℤ a b) c)

abbrev pub store_sample : TmuFilter → ℤ → TmuFilter
store_sample f value =
    if f.primed
    then record (put_sample f f.next value) { next = (f.next + 1) % 3 }
    else record f { sample_0 = value; sample_1 = value; sample_2 = value; primed = true }

unfoldable pub tmu_filtered : TmuFilter → ℤ → TmuFilter × ℤ
tmu_filtered f value =
    if is_int_min value
    then (f, int_min)
    else let g = store_sample f value in (g, median g.sample_0 g.sample_1 g.sample_2)

-- struct s9p_thermal_level
pub record ThermalLevel : Type 0 where
  pub max_khz : ℕ
  pub up_at : ℕ

abbrev pub thermal_hyst : ℕ
thermal_hyst = 8

abbrev pub thermal_hold_ms : ℕ
thermal_hold_ms = 2000

abbrev level : ℕ → ℕ → ThermalLevel
level khz at = record { max_khz = khz; up_at = at }

abbrev pub thermal_big : List ThermalLevel
thermal_big =
    level 2704000 0 ∷ level 2327000 72 ∷ level 1794000 80 ∷ level 1469000 84 ∷ level 1066000 88 ∷ []

abbrev pub thermal_little : List ThermalLevel
thermal_little = level 1794000 0 ∷ level 1499333 76 ∷ level 1150500 86 ∷ []

abbrev pub thermal_gpu : List ThermalLevel
thermal_gpu = level 572000 0 ∷ level 455000 80 ∷ level 260000 90 ∷ []

-- The loop `for (i = 1; i < n; i++)` over the levels from number i on.
unfoldable pub want_from : ℤ → ℕ → ℕ → List ThermalLevel → ℕ
want_from temp want i [] = want
want_from temp want i (l ∷ ls) =
    want_from temp (if leb_ℤ (pos l.up_at) temp then i else want) (i + 1) ls

unfoldable pub level_wanted : ℤ → List ThermalLevel → ℕ
unfolding want_from
level_wanted temp [] = 0
level_wanted temp (l ∷ ls) = want_from temp 0 1 ls

abbrev pub up_at_of : List ThermalLevel → ℕ → ℕ
up_at_of lv i = (get_or lv i (level 0 0)).up_at

-- `now` is `ktime_get()` in milliseconds; the result is the level and the new `*changed`.
unfoldable pub thermal_next : ℕ → ℤ → List ThermalLevel → ℕ → ℕ → ℕ × ℕ
thermal_next cur temp lv now changed =
    let want = level_wanted temp lv in
    if is_int_min temp
    then (cur, changed)
    else if ltb cur want
    then (want, now)
    else if ltb 0 cur
        && ltb_ℤ temp (pos (up_at_of lv cur) -ℤ pos thermal_hyst)
        && leb thermal_hold_ms (now - changed)
    then (cur - 1, now)
    else (cur, changed)
