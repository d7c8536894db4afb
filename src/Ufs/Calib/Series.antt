-- ===== src/Ufs/Calib/Series.antt =====
-- The power mode changes of src/ufs/ufs-cal-9810.c: the two high-speed series, and the table that
-- is to turn lane 1 off.
use galaxy_s9plus_mainline_l.Common.{
  ℕ, ◌≡◌, refl, sym, ap, ap₂, ◌∙◌, Bool-cases, ◌&&◌, ◌||◌, List, [], ◌∷◌, ◌++◌, Option, none, some,
  ◌==◌, inl, inr, if◌then◌else◌, arith,
}
use galaxy_s9plus_mainline_l.Platform.Monad.Loop.{Loop}
use galaxy_s9plus_mainline_l.Ufs.{Host, S, CalParam, CalErrno, no_error}
use galaxy_s9plus_mainline_l.Ufs.Tables.{PhyCfg, lane1_sq_off}
use galaxy_s9plus_mainline_l.Ufs.Match.{match_mode, match_board, slow_mode, slowauto_mode}
use galaxy_s9plus_mainline_l.Ufs.Uic.{config_uic, unipro_mclk_period}
use galaxy_s9plus_mainline_l.Ufs.Plan.{applies, lanes_plan, plan, carry_out}
use galaxy_s9plus_mainline_l.Ufs.Plan.Walk.{config_uic-plan}
use galaxy_s9plus_mainline_l.Ufs.Calib.{
  cal_pre_pmc, cal_post_pmc, pmc_table, post_pmc_table, with_table, sq_off, after_sq_off,
}

-- A link with the series `x` in place of its own.
abbrev pub with_series : CalParam → ℕ → CalParam
with_series p x = record p { pmd = record p.pmd { hs_series = x } }

applies_series :
    (p : CalParam) (x y : ℕ) (c : PhyCfg)
    → applies (with_series p x) (some (with_series p x).pmd) c
      ≡ applies (with_series p y) (some (with_series p y).pmd) c
unfolding match_mode
applies_series p x y c = refl

plan_series :
    (p : CalParam) (x y : ℕ) (table : List PhyCfg)
    → plan (with_series p x) (some (with_series p x).pmd) table
      ≡ plan (with_series p y) (some (with_series p y).pmd) table
plan_series p x y [] = refl
plan_series p x y (c ∷ rest) =
    ap₂ ◌++◌
      (ap (λ b. if b then lanes_plan (unipro_mclk_period p) c p.target_lane 0 else [])
        (applies_series p x y c))
      (plan_series p x y rest)

pmc_table_series :
    (p : CalParam) → pmc_table (with_series p 1).pmd ≡ pmc_table (with_series p 2).pmd
unfolding pmc_table
pmc_table_series p = elim (Bool-cases (p.pmd.mode == slow_mode || p.pmd.mode == slowauto_mode)) [
  | inl slow ↦ rw slow refl
  | inr fast ↦ rw fast refl
]

post_pmc_table_series :
    (p : CalParam) → post_pmc_table (with_series p 1).pmd ≡ post_pmc_table (with_series p 2).pmd
unfolding post_pmc_table
post_pmc_table_series p =
    elim (Bool-cases (p.pmd.mode == slowauto_mode || p.pmd.mode == slow_mode)) [
      | inl slow ↦ rw slow refl
      | inr fast ↦ rw fast refl
    ]

module _ {World : Type 0} (host : Host World) (fuel : ℕ) where
  config_uic_series :
      (p : CalParam) (x y : ℕ) (table : List PhyCfg) (s : S host)
      → config_uic host fuel (with_series p x) (some table) (some (with_series p x).pmd) s
        ≡ config_uic host fuel (with_series p y) (some table) (some (with_series p y).pmd) s
  config_uic_series p x y table s =
      config_uic-plan host fuel (with_series p x) (some (with_series p x).pmd) table s
      ∙ ap (λ l. carry_out host fuel l s) (plan_series p x y table)
      ∙ sym (config_uic-plan host fuel (with_series p y) (some (with_series p y).pmd) table s)

  sq_off_does_nothing : (p : CalParam) (s : S host) → sq_off host fuel p s ≡ some (no_error, s)
  unfolding match_board carry_out
  sq_off_does_nothing p s = elim (Bool-cases (p.available_lane == 2 && p.target_lane == 1)) [
    | inl one ↦
        let single : p.target_lane ≡ 1 = ground arith in
        rw one (config_uic-plan host fuel p none lane1_sq_off s ∙ rw single refl)
    | inr all ↦ rw all refl
  ]

  skip_sq_off :
      (p : CalParam) (table : Option (List PhyCfg)) (run : List PhyCfg → Loop (S host) CalErrno)
      (s : S host)
      → with_table host table (λ t u. after_sq_off host (sq_off host fuel p u) (run t)) s
        ≡ with_table host table run s
  skip_sq_off p none run s = refl
  skip_sq_off p (some t) run s = ap (λ o. after_sq_off host o (run t)) (sq_off_does_nothing p s)

  with_table_series :
      (p : CalParam) (x y : ℕ) (table : Option (List PhyCfg)) (s : S host)
      → with_table host table
          (λ t. config_uic host fuel (with_series p x) (some t) (some (with_series p x).pmd))
          s
        ≡ with_table host table
            (λ t. config_uic host fuel (with_series p y) (some t) (some (with_series p y).pmd))
            s
  with_table_series p x y none s = refl
  with_table_series p x y (some t) s = config_uic_series p x y t s

  -- The table that is to turn lane 1 off, when one lane of two is used, never does anything: it is
  -- walked for the target lanes only, which lane 1 is not among. So a power mode change starts with
  -- the table of the mode, whatever the lanes.
  pub cal_pre_pmc_table :
      (p : CalParam) (s : S host)
      → cal_pre_pmc host fuel p s
        ≡ with_table host
            (pmc_table p.pmd)
            (λ table. config_uic host fuel p (some table) (some p.pmd))
            s
  unfolding cal_pre_pmc
  cal_pre_pmc_table p s =
      skip_sq_off p (pmc_table p.pmd) (λ table. config_uic host fuel p (some table) (some p.pmd)) s

  -- A change to a high-speed mode does the same to the host for series A and for series B.
  pub cal_pmc_series :
      (p : CalParam) (s : S host)
      → (cal_pre_pmc host fuel (with_series p 1) s ≡ cal_pre_pmc host fuel (with_series p 2) s)
        × (cal_post_pmc host fuel (with_series p 1) s ≡ cal_post_pmc host fuel (with_series p 2) s)
  unfolding cal_post_pmc
  cal_pmc_series p s = (
    cal_pre_pmc_table (with_series p 1) s
        ∙ with_table_series p 1 2 (pmc_table (with_series p 1).pmd) s
        ∙ ap
            (λ o.
              with_table host o
                (λ t. config_uic host fuel (with_series p 2) (some t) (some (with_series p 2).pmd))
                s)
            (pmc_table_series p)
        ∙ sym (cal_pre_pmc_table (with_series p 2) s),
    with_table_series p 1 2 (post_pmc_table (with_series p 1).pmd) s
        ∙ ap
            (λ o.
              with_table host o
                (λ t. config_uic host fuel (with_series p 2) (some t) (some (with_series p 2).pmd))
                s)
            (post_pmc_table_series p),
  )
