-- ===== src/Ufs/Match/Gears.antt =====
-- Which link modes the entries marked PMD_HS and PMD_PWM of src/ufs/ufs-cal-9810.c are for.
use galaxy_s9plus_mainline_l.Common.{ℕ, ◌≡◌, ◌⊎◌, ◌↔◌, arith}
use galaxy_s9plus_mainline_l.Ufs.{PwrMode, no_error}
use galaxy_s9plus_mainline_l.Ufs.Tables.{pmd_hs, pmd_pwm}
use galaxy_s9plus_mainline_l.Ufs.Match.{match_mode}

abbrev pub IsOne : ℕ → ℕ → ℕ → Type 0
IsOne m a b = (m ≡ a) ⊎ (m ≡ b)

-- Entries marked PMD_HS are for the high-speed modes, and beside them for the PWM modes of gear 4
-- and gear 5 on one or two lanes.
pub match_mode_hs :
    (m : PwrMode)
    → (match_mode m pmd_hs ≡ no_error)
      ↔ (IsOne m.mode 1 4 ⊎ (IsOne m.mode 2 5 × IsOne m.gear 4 5 × IsOne m.lane 1 2))
unfolding match_mode
match_mode_hs m = ground arith

-- Entries marked PMD_PWM are for the PWM modes only.
pub match_mode_pwm : (m : PwrMode) → (match_mode m pmd_pwm ≡ no_error) ↔ IsOne m.mode 2 5
unfolding match_mode
match_mode_pwm m = ground arith
