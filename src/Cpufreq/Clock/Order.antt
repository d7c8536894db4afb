-- ===== src/Cpufreq/Clock/Order.antt =====
-- s9p_set_step of src/cpufreq/s9p-cpufreq.c: the rail before the clock on the way up, the clock
-- before the rail on the way down, and the loop over MUX_BUSY.
use galaxy_s9plus_mainline_l.Common.{
  ℕ, zero, suc, ◌*◌, ◌<◌, ◌≤◌, ◌≡◌, refl, inl, inr, Bool, true, false, Bool-cases, bit, List, [],
  ◌∷◌, ◌++◌, none, some, Ret, Errno, ltb, arith, bit_or, bit_and,
}
use galaxy_s9plus_mainline_l.Platform.{Hardware, Machine, Event, write, rail, pause}
use galaxy_s9plus_mainline_l.Platform
use galaxy_s9plus_mainline_l.Platform.Monad.Loop.{>>=-eq-some, ◌>>=◌}
use galaxy_s9plus_mainline_l.Cpufreq.{PllStep, Cluster, khz_of}
use galaxy_s9plus_mainline_l.Cpufreq.Clock.{
  S, program_pll, wait_mux, relock, settle, after_raise, set_step, check_lock, keep_mask, pms_word,
  pll_enable,
}

module _ {World : Type 0} (hw : Hardware World) where
  -- Waiting for the mux writes nothing.
  wait_mux-log :
      (fuel a : ℕ) (s : S hw) {u : Unit {0}} {s' : S hw}
      → wait_mux hw fuel a s ≡ some (u, s')
      → s'.log ≡ s.log
  unfolding wait_mux
  wait_mux-log zero a s h = cc
  wait_mux-log (suc fuel) a s {s'} h =
      ground (arith, wait_mux-log fuel a (Platform.readl hw a s).1 {s' = s'})

  -- A PLL that does not report STABLE only adds a pause.
  abbrev pub unlocked_pause : Bool → List Event
  unlocked_pause true = []
  unlocked_pause false = pause 300 ∷ []

  -- What programming the PLL does, newest first, given what PLL_CON0 read.
  abbrev pub program_events : Cluster → PllStep → ℕ → Bool → List Event
  program_events c st con0 locked =
      let v = bit_and con0 keep_mask in
      write c.mux 0
      ∷ (unlocked_pause locked
          ++ (write c.pll_con0 (pms_word (bit_or v pll_enable) st)
              ∷ write c.pll_con0 (pms_word v st)
              ∷ write c.pll_con0 v
              ∷ []))

  check_lock-log :
      (b : Bool) (s : S hw) {u : Unit {0}} {s' : S hw}
      → check_lock hw b s ≡ some (u, s')
      → s'.log ≡ unlocked_pause b ++ s.log
  unfolding check_lock
  check_lock-log true s h = ground arith
  check_lock-log false s h = ground arith

  program_pll-log :
      (fuel : ℕ) (c : Cluster) (st : PllStep) (s : S hw) {u : Unit {0}} {s' : S hw}
      → program_pll hw fuel c st s ≡ some (u, s')
      → (con0 : ℕ) × (locked : Bool) × (s'.log ≡ program_events c st con0 locked ++ s.log)
  unfolding program_pll
  program_pll-log fuel c st s {s'} h =
      let con0 : ℕ = (Platform.readl hw c.pll_con0 s).0 in
      let v : ℕ = bit_and con0 keep_mask in
      let s1 : S hw = (Platform.readl hw c.pll_con0 s).1 in
      let s2 : S hw = (Platform.writel hw c.pll_con0 v s1).1 in
      let s3 : S hw = (Platform.writel hw c.pll_con0 (pms_word v st) s2).1 in
      let s4 : S hw = (Platform.writel hw c.pll_con0 (pms_word (bit_or v pll_enable) st) s3).1 in
      let (locked, s5) = Platform.poll hw c.pll_con0 (bit 29) 3000 s4 in
      let (_, s6, checked, rest) =
        >>=-eq-some (check_lock hw (bit 29 locked))
          (λ _ t. wait_mux hw fuel c.mux (Platform.writel hw c.mux 0 t).1) s5 h in
      (
        con0,
        bit 29 locked,
        ground (arith, check_lock-log (bit 29 locked) s5 checked, wait_mux-log fuel c.mux _ rest),
      )

  relock-log :
      (fuel : ℕ) (c : Cluster) (st : PllStep) (s : S hw) {u : Unit {0}} {s' : S hw}
      → relock hw fuel c st s ≡ some (u, s')
      → (con0 : ℕ) × (locked : Bool) × (s'.log
          ≡ program_events c st con0 locked
            ++ (write c.mux 1 ∷ write c.locktime (150 * st.p) ∷ s.log))
  unfolding relock
  relock-log fuel c st s {s'} h =
      let s1 : S hw = (Platform.writel hw c.locktime (150 * st.p) s).1 in
      let s2 : S hw = (Platform.writel hw c.mux 1 s1).1 in
      let (_, s3, waited, rest) =
        >>=-eq-some (wait_mux hw fuel c.mux) (λ _. program_pll hw fuel c st) s2 h in
      let (con0, locked, e) = program_pll-log fuel c st s3 rest in
      (con0, locked, rw (← wait_mux-log fuel c.mux s2 waited) e)

  -- The clock writes of a frequency change that started with the log `before`.
  abbrev pub clock_events : Cluster → PllStep → ℕ → Bool → List Event → List Event
  clock_events c st con0 locked before =
      program_events c st con0 locked ++ (write c.mux 1 ∷ write c.locktime (150 * st.p) ∷ before)

  module _ (fuel : ℕ) (c : Cluster) (st : PllStep) (s : S hw) {ret : Ret} {s' : S hw} where
    -- Where the rail is already high the clock writes are all.
    after_raise-up :
        after_raise hw fuel true c st none s ≡ some (ret, s')
        → (con0 : ℕ) × (locked : Bool) × (ret ≡ none)
          × (s'.log ≡ clock_events c st con0 locked s.log)
    unfolding after_raise
    after_raise-up h =
        let (_, s1, done, rest) = >>=-eq-some (relock hw fuel c st) (λ _ t. some (none, t)) s h in
        let (con0, locked, e) = relock-log fuel c st s done in
        (con0, locked, ground arith, ground arith)

    -- On the way down the rail write comes last, and its result is not returned.
    after_raise-down :
        after_raise hw fuel false c st none s ≡ some (ret, s')
        → (con0 : ℕ) × (locked : Bool) × (lowered : Ret) × (ret ≡ none)
          × (s'.log ≡ rail c.buck_reg st.vsel lowered ∷ clock_events c st con0 locked s.log)
    unfolding after_raise
    after_raise-down h =
        let (_, s1, done, rest) =
          >>=-eq-some (relock hw fuel c st)
            (λ _ t. some (none, (Platform.pmic_write hw c.buck_reg st.vsel t).1)) s h in
        let (con0, locked, e) = relock-log fuel c st s done in
        (con0, locked, (Platform.pmic_write hw c.buck_reg st.vsel s1).0, ground arith, ground arith)

  after_raise-error :
      (fuel : ℕ) (c : Cluster) (st : PllStep) (e : Errno) (s : S hw) {ret : Ret} {s' : S hw}
      → after_raise hw fuel true c st (some e) s ≡ some (ret, s')
      → (ret ≡ some e) × (s'.log ≡ s.log)
  unfolding after_raise
  after_raise-error fuel c st e s h = ground arith

  -- The rate that s9p_set_step finds, and the machine after it has looked.
  abbrev pub rate_before : Cluster → S hw → ℕ
  rate_before c s =
      let (con0, w) = hw.read_reg c.pll_con0 s.world in khz_of con0 (hw.read_reg c.mux w).0

  abbrev pub after_look : Cluster → S hw → S hw
  after_look c s = (Platform.readl hw c.mux (Platform.readl hw c.pll_con0 s).1).1

  -- The three ways a frequency change can go.
  pub data Changed (c : Cluster) (st : PllStep) (khz : ℕ) (before : List Event)
      : Ret → List Event → Type 0 where
    -- upwards, but the rail was not raised: nothing else was done, and the error is returned
    refused :
        (e : Errno)
        → khz < st.freq_khz
        → Changed c st khz before (some e) (rail c.buck_reg st.vsel (some e) ∷ before)
    -- upwards: the rail is raised, and has 200 µs, before the first clock write
    raised :
        (con0 : ℕ) (locked : Bool)
        → khz < st.freq_khz
        → Changed c st khz before none
            (clock_events c st con0 locked (pause 200 ∷ rail c.buck_reg st.vsel none ∷ before))
    -- downwards: the rail write follows the last clock write, and its failure is no error
    lowered :
        (con0 : ℕ) (locked : Bool) (ret : Ret)
        → st.freq_khz ≤ khz
        → Changed c st khz before none
            (rail c.buck_reg st.vsel ret ∷ clock_events c st con0 locked before)

  set_step_down :
      (fuel : ℕ) (c : Cluster) (st : PllStep) (s : S hw) {ret : Ret} {s' : S hw}
      → ltb (rate_before c s) st.freq_khz ≡ false
      → set_step hw fuel c st s ≡ some (ret, s')
      → Changed c st (rate_before c s) s.log ret s'.log
  unfolding set_step
  set_step_down fuel c st s {ret} {s'} d h =
      let (con0, locked, r, e1, e2) =
        after_raise-down fuel c st (after_look c s) {ret = ret} {s' = s'} (rw (d) at h) in
      rw (e1, e2) (lowered con0 locked r (ground arith))

  set_step_up :
      (fuel khz : ℕ) (c : Cluster) (st : PllStep) (before : List Event) (r : Ret) (t : S hw)
      {ret : Ret} {s' : S hw}
      → khz < st.freq_khz
      → t.log ≡ rail c.buck_reg st.vsel r ∷ before
      → (settle hw r >>= after_raise hw fuel true c st) t ≡ some (ret, s')
      → Changed c st khz before ret s'.log
  unfolding settle
  set_step_up fuel khz c st before none t {ret} {s'} lt e h =
      let t' : S hw = (Platform.delay hw 200 t).1 in
      let (con0, locked, e1, e2) = after_raise-up fuel c st t' {ret = ret} {s' = s'} h in
      rw (e1, e2, e) (raised con0 locked lt)
  set_step_up fuel khz c st before (some x) t {ret} {s'} lt e h =
      let (e1, e2) = after_raise-error fuel c st x t {ret = ret} {s' = s'} h in
      rw (e1, e2, e) (refused x lt)

  -- Every run of s9p_set_step that comes back went one of three ways. Upwards, a refused rail write
  -- is its error and the only thing done, and an accepted one is followed by 200 µs and then by the
  -- whole clock sequence; downwards, the rail write follows the last clock write, and its failure is
  -- no error. `rate_before` is the rate that the registers showed first.
  pub set_step_order :
      (fuel : ℕ) (c : Cluster) (st : PllStep) (s : S hw) {ret : Ret} {s' : S hw}
      → set_step hw fuel c st s ≡ some (ret, s')
      → Changed c st (rate_before c s) s.log ret s'.log
  unfolding set_step
  set_step_order fuel c st s {ret} {s'} h = elim (Bool-cases (ltb (rate_before c s) st.freq_khz)) [
    | inl up ↦
        let (r, t) = Platform.pmic_write hw c.buck_reg st.vsel (after_look c s) in
        set_step_up fuel (rate_before c s) c st s.log r t (ground arith) refl (rw up at h)
    | inr down ↦ set_step_down fuel c st s down h
  ]
