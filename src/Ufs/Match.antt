-- ===== src/Ufs/Match.antt =====
-- Which entries of a table of src/ufs/ufs-cal-9810.c are for this board and this link mode.
pub mod Gears
use galaxy_s9plus_mainline_l.Common.{
  ℕ, Bool, true, false, not, ◌&&◌, ◌||◌, ◌==◌, if◌then◌else◌, bit_and, bit_or,
}
use galaxy_s9plus_mainline_l.Ufs.{PwrMode, CalErrno, no_error, failed}
use galaxy_s9plus_mainline_l.Ufs.Tables.{
  pmd_all, pmd_hs, pmd_pwm, pmd_pwm_g1_l1, pmd_pwm_g1_l2, pmd_pwm_g2_l1, pmd_pwm_g2_l2,
  pmd_pwm_g3_l1, pmd_pwm_g3_l2, pmd_pwm_g4_l1, pmd_pwm_g4_l2, pmd_pwm_g5_l1, pmd_pwm_g5_l2,
  pmd_hs_g1_l1, pmd_hs_g1_l2, pmd_hs_g2_l1, pmd_hs_g2_l2, pmd_hs_g3_l1, pmd_hs_g3_l2,
}

abbrev pub fast_mode : ℕ
fast_mode = 1

abbrev pub slow_mode : ℕ
slow_mode = 2

abbrev pub fastauto_mode : ℕ
fastauto_mode = 4

abbrev pub slowauto_mode : ℕ
slowauto_mode = 5

abbrev pub is_pwr_mode_hs : ℕ → Bool
is_pwr_mode_hs m = m == fast_mode || m == fastauto_mode

abbrev pub is_pwr_mode_pwm : ℕ → Bool
is_pwr_mode_pwm m = m == slow_mode || m == slowauto_mode

unfoldable pub match_board : ℕ → ℕ → CalErrno
match_board board cfg_board =
    if cfg_board == 0 then no_error else if board == cfg_board then no_error else failed

-- One gear of the chain: lane 1 or lane 2, with either bit of the gear.
abbrev at_gear : Bool → PwrMode → ℕ → ℕ → ℕ → Bool
at_gear kind pmd gear bits flag =
    kind && pmd.gear == gear && pmd.lane == 1 && not (bit_and flag bits == 0)
    || kind && pmd.gear == gear && pmd.lane == 2 && not (bit_and flag bits == 0)

unfoldable pub match_mode : PwrMode → ℕ → CalErrno
match_mode pmd flag =
    let hs = is_pwr_mode_hs pmd.mode in
    let pwm = is_pwr_mode_pwm pmd.mode in
    if flag == pmd_all
      || hs && flag == pmd_hs
      || pwm && flag == pmd_pwm
      || at_gear hs pmd 1 (bit_or pmd_hs_g1_l1 pmd_hs_g1_l2) flag
      || at_gear hs pmd 2 (bit_or pmd_hs_g2_l1 pmd_hs_g2_l2) flag
      || at_gear hs pmd 3 (bit_or pmd_hs_g3_l1 pmd_hs_g3_l2) flag
      || at_gear pwm pmd 1 (bit_or pmd_pwm_g1_l1 pmd_pwm_g1_l2) flag
      || at_gear pwm pmd 2 (bit_or pmd_pwm_g2_l1 pmd_pwm_g2_l2) flag
      || at_gear pwm pmd 3 (bit_or pmd_pwm_g3_l1 pmd_pwm_g3_l2) flag
      || at_gear pwm pmd 4 (bit_or pmd_pwm_g4_l1 pmd_pwm_g4_l2) flag
      || at_gear pwm pmd 5 (bit_or pmd_pwm_g5_l1 pmd_pwm_g5_l2) flag
    then no_error
    else failed
