-- ===== src/Charger/Setup/Enabled.antt =====
-- What the probe of src/soc/max77705_charger.c has written when it succeeds.
use galaxy_s9plus_mainline_l.Common.{
  List, [], ◌∷◌, none, some, ℤ, Ret, ◌≡◌, refl, sym, ap, ◌∙◌, ℕ, ◌*◌, ◌+◌, ◌<◌, ◌≤◌, pos, negsuc,
  bit_or, mul_div, arith,
}
use galaxy_s9plus_mainline_l.Platform.{M}
use galaxy_s9plus_mainline_l.Charger.{
  Regmap, Constants, field, chg_en, bits, chgprot, lx_slope, fchgtime, chg_rstrt, chg_pqen, mode,
  otg_ilim, reg_b2sovrc, to, to_time, sys_track, vchgin, wcin, vbypset, reg_fsw, reg_diskip,
  cnfg_00, chg_cv_prm, S, charger_enable,
}
use galaxy_s9plus_mainline_l.Charger.Properties.{float_reg}
use galaxy_s9plus_mainline_l.Charger.Setup.{
  float_voltage, Settings, Early, calls, on_success, initialize, stop_or, add_disable, finish_probe,
  stop_each, probe,
}
use galaxy_s9plus_mainline_l.Charger.Setup.Writes.{on_success_done, initialize_writes}

-- What the twelfth write says of a design voltage in microvolts, a negative number where there is
-- none: steps of 50 mV from 4 V, of 10 mV from 4.2 V, and the last code from 4.5 V.
abbrev pub FloatCode : ℤ → ℕ → Type 0
FloatCode (negsuc n) code = code ≡ 4
FloatCode (pos uv) code =
    (uv < 4001000 → code ≡ 0)
    × (4000000 ≤ uv → uv < 4200000 → (4000000 + 50000 * code ≤ uv) × (uv < 4050000 + 50000 * code))
    × (4200000 ≤ uv → uv < 4500000 → (4160000 + 10000 * code ≤ uv) × (uv < 4170000 + 10000 * code))
    × (4500000 ≤ uv → code ≡ 35)

float_code : (uv : ℤ) → FloatCode uv (float_reg (mul_div (float_voltage uv) 1 1000))
unfolding float_reg
float_code (negsuc n) = refl
float_code (pos uv) =
    (λ a. ground arith, λ a b. ground arith, λ a b. ground arith, λ a. ground arith)

module _ {World : Type 0} (regs : Regmap World) (k : Constants) (c : Settings) where
  stop_or_done :
      (r : Ret) (next : M (S regs) Ret) (s : S regs)
      → (stop_or regs k c r next s).0 ≡ none
      → (stop_or regs k c r next s ≡ next s)
  stop_or_done none next s h = refl
  stop_or_done (some e) next s h = absurd cc

  stop_each_done :
      (rs : List Ret) (next : M (S regs) Ret) (s : S regs)
      → (stop_each regs k c rs next s).0 ≡ none
      → stop_each regs k c rs next s ≡ next s
  unfolding stop_each
  stop_each_done [] next s h = refl
  stop_each_done (r ∷ rs) next s h =
      let e = stop_or_done r (stop_each regs k c rs next) s h in
      e ∙ stop_each_done rs next s (ap (λ q. q.0) (sym e) ∙ h)

  add_disable_done :
      (action : Ret) (s : S regs)
      → (add_disable regs k c action s).0 ≡ none
      → (add_disable regs k c action s).1 ≡ s
  add_disable_done none s h = refl
  add_disable_done (some e) s h = absurd cc

  enable_done :
      (action : Ret) (s : S regs)
      → (on_success regs k c (charger_enable regs k s) (add_disable regs k c action)).0 ≡ none
      → (on_success regs k c (charger_enable regs k s) (add_disable regs k c action)).1.log
        ≡ field chg_en 1 none ∷ s.log
  unfolding charger_enable
  enable_done action s h =
      let (ret, t) = charger_enable regs k s in
      let (ok, e) = on_success_done regs k c (ret, t) (add_disable regs k c action) h in
      ap (λ q. q.1.log) e
      ∙ ap (λ q. q.log) (add_disable_done action t (ap (λ q. q.0) (sym e) ∙ h))
      ∙ ap (λ r. field chg_en 1 r ∷ s.log) ok

  -- A probe that returns 0 has logged, in this order, exactly these writes on top of what was there:
  -- the eleven fields from the write protection to the system tracking, the float voltage, the two
  -- input thresholds, the bit of the watchdog, the bypass voltage, the switching frequency and the
  -- skip mode, and last the one that enables charging. All went through but for the float voltage and
  -- the watchdog, whose results may be errors. The float voltage is the code of the battery's design
  -- voltage, or of 4.2 V if there is none.
  pub probe_writes :
      (early : Early) (info : Ret) (uv : ℤ) (chgin_irq aicl_irq action : Ret) (s : S regs)
      → (probe regs k c early info uv chgin_irq aicl_irq action s).0 ≡ none
      → (float watchdog : Ret) × (code : ℕ) × FloatCode uv code
        × ((probe regs k c early info uv chgin_irq aicl_irq action s).1.log
            ≡ field chg_en 1 none
              ∷ field reg_diskip c.auto_skip none
              ∷ field reg_fsw c.chg_fsw_1_5mhz none
              ∷ field vbypset 0 none
              ∷ bits cnfg_00 c.wdten_mask 0 watchdog
              ∷ field wcin c.wcin_4_5 none
              ∷ field vchgin c.vchgin_4_5 none
              ∷ field chg_cv_prm code float
              ∷ field sys_track c.sys_track_disable none
              ∷ field to_time c.to_time_30m none
              ∷ field to c.to_ith_150ma none
              ∷ field reg_b2sovrc c.b2sovrc_4_8a none
              ∷ field otg_ilim c.otg_ilim_900 none
              ∷ field mode (bit_or c.chg_mask c.buck_mask) none
              ∷ field chg_pqen c.chg_pqen_disable none
              ∷ field chg_rstrt c.chg_rstrt_disable none
              ∷ field fchgtime c.fchgtime_disable none
              ∷ field lx_slope c.slowest_lx_slope none
              ∷ field chgprot c.chgprot_unlocked none
              ∷ s.log)
  unfolding probe finish_probe
  probe_writes early info uv chgin_irq aicl_irq action s h =
      let enabling : M (S regs) Ret =
        λ t. on_success regs k c (charger_enable regs k t) (add_disable regs k c action) in
      let last : M (S regs) Ret = stop_or regs k c aicl_irq enabling in
      let tail : M (S regs) Ret = stop_or regs k c chgin_irq last in
      let started =
        stop_each_done (calls early) (finish_probe regs k c info uv chgin_irq aicl_irq action) s
          h in
      let h1 = ap (λ q. q.0) (sym started) ∙ h in
      let (ret, t) = initialize regs k c info uv s in
      let (ok, e) = on_success_done regs k c (ret, t) tail h1 in
      let h2 = ap (λ q. q.0) (sym e) ∙ h1 in
      let e2 = stop_or_done chgin_irq last t h2 in
      let h3 = ap (λ q. q.0) (sym e2) ∙ h2 in
      let e3 = stop_or_done aicl_irq enabling t h3 in
      let (float, watchdog, log) = initialize_writes regs k c info uv s ok in
      (
        float,
        watchdog,
        float_reg (mul_div (float_voltage uv) 1 1000),
        float_code uv,
        ap (λ q. q.1.log) (started ∙ e ∙ e2 ∙ e3)
            ∙ enable_done action t (ap (λ q. q.0) (sym e3) ∙ h3)
            ∙ ap (λ l. field chg_en 1 none ∷ l) log,
      )
