-- ===== src/Ufs/Driver/Started.antt =====
-- What exynos_ufs_init of src/ufs/ufs-exynos9810.c has done to the host when it comes back.
use galaxy_s9plus_mainline_l.Common.{
  ℕ, zero, suc, ◌+◌, ◌*◌, ◌==◌, Bool, true, false, Bool-cases, List, [], ◌∷◌, none, some, ℤ, pos,
  negsuc, Ret, Errno, ◌≡◌, ◌⊎◌, inl, inr, refl, ap,
}
use galaxy_s9plus_mainline_l.Platform.{M}
use galaxy_s9plus_mainline_l.Ufs.{Host, CalState, Access, phy_power, pixel}
use galaxy_s9plus_mainline_l.Ufs.Calib.{cal_init}
use galaxy_s9plus_mainline_l.Ufs.Driver.{
  D, paint, paint_from, paint_block, ctrl_phy_pwr, config_sysreg, config_smu,
}
use galaxy_s9plus_mainline_l.Ufs.Driver.Setup.{parse_dt, parse_dt-ReadIn}
use galaxy_s9plus_mainline_l.Ufs.Driver.Init.{
  Params, Given, I, fmp_init, power_phy, finish, init, continue, run_steps, steps_of, on_driver,
  start_cal, show, smc_fmp_security,
}

-- The log `after` is `before` and what the driver did since.
pub data Since (before : List Access) : List Access → Type 0 where
  nothing : Since before before
  more : {a : Access} {after : List Access} → Since before after → Since before (a ∷ after)

Since-trans :
    {before mid after : List Access} → Since before mid → Since mid after → Since before after
Since-trans early nothing = early
Since-trans early (more late) = more (Since-trans early late)

-- The log `after` is `before` and the pixels of s9p_step that were painted since.
pub data Painted (before : List Access) : List Access → Type 0 where
  blank : Painted before before
  dot :
      {after : List Access} (off colour : ℕ)
      → Painted before after
      → Painted before (pixel off colour ∷ after)

Painted-trans :
    {before mid after : List Access} → Painted before mid → Painted mid after → Painted before after
Painted-trans early blank = early
Painted-trans early (dot off colour late) = dot off colour (Painted-trans early late)

module _ {World : Type 0} (host : Host World) (smc : ℕ → List ℕ → World → ℕ × World) where
  fmp_init-Since :
      (t : ℤ) (s : I host smc) → Since s.driver.cal.log (fmp_init host smc t s).driver.cal.log
  unfolding fmp_init
  fmp_init-Since (negsuc n) s = nothing
  fmp_init-Since (pos t) s =
      let (a0, w) = smc smc_fmp_security (0 ∷ 0 ∷ t ∷ []) s.driver.cal.world in
      elim (Bool-cases (a0 == 0)) [
        | inl fine ↦ elim (Bool-cases (t == 3)) [
          | inl three ↦ rw (fine, three) (more (more nothing))
          | inr two ↦ rw (fine, two) (more (more nothing))
        ]
        | inr refused ↦ rw refused (more nothing)
      ]

  config_smu-Since : (d : D host) → Since d.cal.log (config_smu host d).1.cal.log
  unfolding config_smu
  config_smu-Since d = elim (Bool-cases d.smu_direct) [
    | inl direct ↦ rw direct (more (more (more (more (more (more nothing))))))
    | inr off ↦ rw off nothing
  ]

  config_sysreg-Since : (d : D host) → Since d.cal.log (config_sysreg host d).1.cal.log
  config_sysreg-Since d = elim (Bool-cases d.has_sysreg) [
    | inl has ↦ rw has (more nothing)
    | inr without ↦ rw without nothing
  ]

  power_phy-Since :
      (params : Params) (s : I host smc)
      → Since (phy_power true ∷ s.driver.cal.log) (power_phy host smc params s).driver.cal.log
  unfolding power_phy
  power_phy-Since params s =
      let u = (ctrl_phy_pwr host true s.driver).1 in
      Since-trans (Since-trans (config_sysreg-Since u) (config_smu-Since (config_sysreg host u).1))
        (fmp_init-Since params.fmp_desctype _)

  paint_from-Painted :
      (colour off n : ℕ) (d : D host) → Painted d.cal.log (paint_from host colour off n d).1.cal.log
  unfolding paint_from
  paint_from-Painted colour off zero d = blank
  paint_from-Painted colour off (suc n) d =
      Painted-trans (dot off colour blank) (paint_from-Painted colour (off + 4) n _)

  paint_block-Painted :
      (there : Bool) (colour n : ℕ) (d : D host)
      → Painted d.cal.log (paint_block host there colour n d).1.cal.log
  unfolding paint_block
  paint_block-Painted true colour n d = paint_from-Painted colour 0 n d
  paint_block-Painted false colour n d = blank

  paint-Painted : (colour : ℕ) (d : D host) → Painted d.cal.log (paint host colour d).1.cal.log
  unfolding paint
  paint-Painted colour d =
      let (there, w) = host.map_screen d.cal.world in
      paint_block-Painted there colour (60 * 1440) (record d { cal = record (d.cal) { world = w } })

  -- What a run that ends with `ret` in the state `t` has done since `s`: `quiet` is the log after the
  -- painting.
  abbrev pub Outcome : I host smc → Ret × I host smc → Type 0
  Outcome s (ret, t) =
      (quiet : List Access) × Painted s.driver.cal.log quiet
      × (((ret ≡ none) × Since (phy_power true ∷ quiet) t.driver.cal.log)
          ⊎ ((e : Errno) × (ret ≡ some e) × (t.driver.cal.log ≡ quiet)))

  -- A step that has only painted in any case.
  abbrev Passive : I host smc → Ret × I host smc → Type 0
  Passive s (ret, t) = Painted s.driver.cal.log t.driver.cal.log

  continue-Outcome :
      (next : M (I host smc) Ret) (s : I host smc) (r : Ret × I host smc)
      → Passive s r
      → ((t : I host smc) → Outcome t (next t))
      → Outcome s (continue host smc next r)
  continue-Outcome next s (some e, t) painted later =
      (t.driver.cal.log, painted, inr (e, refl, refl))
  continue-Outcome next s (none, t) painted later =
      let (quiet, after, ending) = later t in (quiet, Painted-trans painted after, ending)

  data AllPassive : List (M (I host smc) Ret) → Type 0 where
    nil : AllPassive []
    cons :
        {step : M (I host smc) Ret} {steps : List (M (I host smc) Ret)}
        → ((s : I host smc) → Passive s (step s))
        → AllPassive steps
        → AllPassive (step ∷ steps)

  run_steps-Outcome :
      {steps : List (M (I host smc) Ret)} (last : M (I host smc) Ret)
      → AllPassive steps
      → ((s : I host smc) → Outcome s (last s))
      → (s : I host smc) → Outcome s (run_steps host smc steps last s)
  unfolding run_steps
  run_steps-Outcome last nil quiet s = quiet s
  run_steps-Outcome {steps = step ∷ steps} last (cons same all) quiet s =
      continue-Outcome (run_steps host smc steps last) s (step s) (same s)
        (run_steps-Outcome last all quiet)

  start_cal-Passive : (s : I host smc) → Passive s (start_cal host smc s)
  unfolding cal_init
  start_cal-Passive s = blank

  parse_dt-Passive :
      (given : Given) (s : I host smc) → Passive s (on_driver host smc (parse_dt host given.dt) s)
  parse_dt-Passive given s =
      rw (ap (λ (c : CalState World). c.log) (parse_dt-ReadIn host given.dt s.driver).0) blank

  steps_of-AllPassive :
      (params : Params) (given : Given) → AllPassive (steps_of host smc params given)
  steps_of-AllPassive params given =
      let shown : (colour : ℕ) (s : I host smc) → Passive s (show host smc colour s) =
        λ colour s. paint-Painted colour s.driver in
      let from_cal = cons start_cal-Passive (cons (shown _) nil) in
      let from_dt = cons (parse_dt-Passive given) (cons (λ s. blank) (cons (shown _) from_cal)) in
      let from_windows =
        cons (λ s. blank)
          (cons (λ s. blank) (cons (λ s. blank) (cons (λ s. blank) (cons (shown _) from_dt)))) in
      cons (λ s. blank) (cons (λ s. blank) (cons (λ s. blank) from_windows))

  -- Apart from the pixels that it paints on the boot loader's screen to show how far it is,
  -- exynos_ufs_init either succeeds, and then the first write or secure call of the whole start is the
  -- one that lets the PHY out of its isolation, or fails having written nothing. Painting is over by
  -- then.
  pub init-Outcome :
      (params : Params) (given : Given) (s : I host smc) → Outcome s (init host smc params given s)
  unfolding init
  init-Outcome params given =
      run_steps-Outcome (finish host smc params) (steps_of-AllPassive params given)
        (λ s. (s.driver.cal.log, blank, inl (refl, power_phy-Since params s)))
