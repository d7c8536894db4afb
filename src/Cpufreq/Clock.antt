-- ===== src/Cpufreq/Clock.antt =====
-- s9p_current_khz, s9p_set_step and s9p_target of src/cpufreq/s9p-cpufreq.c.
pub mod Order
pub mod Tables
use galaxy_s9plus_mainline_l.Common.{
  ℕ, zero, suc, ◌+◌, ◌*◌, ◌/◌, ◌%◌, ◌^◌, min, bit_and, bit_or, Bool, true, false, not, ◌&&◌, ◌||◌,
  List, [], ◌∷◌, Option, none, some, get_or, ltb, ◌==◌, if◌then◌else◌, bit, Errno, einval, eagain,
  etimedout, Ret, is_ok,
}
use galaxy_s9plus_mainline_l.Platform.{Hardware, Machine, M, pure}
use galaxy_s9plus_mainline_l.Platform
use galaxy_s9plus_mainline_l.Platform.Monad.Loop.{Loop, lift, ◌>>=◌, ◌>>◌}
use galaxy_s9plus_mainline_l.Cpufreq.{
  PllStep, Cluster, find_step, khz_of, Cpu, big_busy_cores, big_cap_for,
}

-- The static counter `pll_lock_timeouts`, a u32.
abbrev pub Statics : Type 0
Statics = ℕ

-- ~(PLL_CON0_ENABLE | PLL_CON0_PMS_MASK)
abbrev pub keep_mask : ℕ
keep_mask = 0x7c00c0f8

abbrev pub pms_word : ℕ → PllStep → ℕ
pms_word v st = bit_or (bit_or (bit_or v (st.m * 2 ^ 16)) (st.p * 2 ^ 8)) st.s

abbrev pub pll_enable : ℕ
pll_enable = 0x80000000

module _ {World : Type 0} (hw : Hardware World) where
  abbrev pub S : Type 0
  S = Machine World Statics

  abbrev readl : ℕ → Loop S ℕ
  readl a = lift (Platform.readl hw a)

  abbrev writel : ℕ → ℕ → Loop S (Unit {0})
  writel a v = lift (Platform.writel hw a v)

  abbrev delay : ℕ → Loop S (Unit {0})
  delay us = lift (Platform.delay hw us)

  abbrev done : {A : Type 0} → A → Loop S A
  done a = lift (pure a)

  unfoldable pub current_khz : Cluster → Loop S ℕ
  current_khz c = do con0 ← readl c.pll_con0; mux_word ← readl c.mux; done (khz_of con0 mux_word)

  -- `while (readl_relaxed(c->mux) & MUX_BUSY) cpu_relax();`
  unfoldable pub wait_mux : ℕ → ℕ → Loop S (Unit {0})
  wait_mux zero a s = none
  wait_mux (suc fuel) a s =
      let (v, s') = Platform.readl hw a s in
      let again = wait_mux fuel a s' in if bit 16 v then again else some (tt, s')

  unfoldable pub count_timeout : Loop S (Unit {0})
  count_timeout s = some (tt, record s { vars = (s.vars + 1) % 2 ^ 32 })

  -- Way up: the rail first, with 200 µs to settle.
  unfoldable pub settle : Ret → Loop S Ret
  settle none = do delay 200; done none
  settle (some e) = done (some e)

  unfoldable pub raise_rail : Cluster → PllStep → Loop S Ret
  unfolding settle
  raise_rail c st = do ret ← lift (Platform.pmic_write hw c.buck_reg st.vsel); settle ret

  -- The check of STABLE is advisory: the sequence goes on.
  unfoldable pub check_lock : Bool → Loop S (Unit {0})
  unfolding count_timeout
  check_lock true = done tt
  check_lock false = do count_timeout; delay 300

  -- The PLL is written and awaited while the cluster runs on the switch clock, and the clock goes
  -- back to it.
  unfoldable pub program_pll : ℕ → Cluster → PllStep → Loop S (Unit {0})
  unfolding wait_mux check_lock
  program_pll fuel c st = do
    con0 ← readl c.pll_con0
    let v = bit_and con0 keep_mask
    writel c.pll_con0 v
    writel c.pll_con0 (pms_word v st)
    writel c.pll_con0 (pms_word (bit_or v pll_enable) st)
    locked ← lift (Platform.poll hw c.pll_con0 (bit 29) 3000)
    check_lock (bit 29 locked)
    writel c.mux 0
    wait_mux fuel c.mux

  unfoldable pub relock : ℕ → Cluster → PllStep → Loop S (Unit {0})
  unfolding program_pll
  relock fuel c st = do
    writel c.locktime (150 * st.p)
    writel c.mux 1
    wait_mux fuel c.mux
    program_pll fuel c st

  -- A failed voltage reduction leaves the higher rail, and is not an error.
  unfoldable pub lower_rail : Bool → Cluster → PllStep → Loop S (Unit {0})
  lower_rail true c st = done tt
  lower_rail false c st = do lowered ← lift (Platform.pmic_write hw c.buck_reg st.vsel); done tt

  unfoldable pub after_raise : ℕ → Bool → Cluster → PllStep → Ret → Loop S Ret
  unfolding relock lower_rail
  after_raise fuel up c st none = do relock fuel c st; lower_rail up c st; done none
  after_raise fuel up c st (some e) = done (some e)

  unfoldable pub set_step : ℕ → Cluster → PllStep → Loop S Ret
  unfolding current_khz raise_rail after_raise
  set_step fuel c st = do
    khz ← current_khz c
    let up = ltb khz st.freq_khz
    ret ← (if up then raise_rail c st else done none)
    after_raise fuel up c st ret

-- The part of struct cpufreq_policy that the target callback reads.
pub record Policy : Type 0 where
  pub cur : ℕ
  pub min_khz : ℕ
  pub max_khz : ℕ

-- What cpufreq_freq_transition_begin and _end are told.
pub record Transition : Type 0 where
  pub old : ℕ
  pub new : ℕ
  pub failed : Bool

-- The last-moment maximum: the policy's, and for the M3 cluster the busy-core cap.
unfoldable pub target_maximum : Bool → List Cpu → Policy → ℕ
unfolding big_busy_cores big_cap_for
target_maximum is_big cpus pol =
    if is_big then min pol.max_khz (big_cap_for (big_busy_cores cpus)) else pol.max_khz

module _ {World : Type 0} (hw : Hardware World) where
  abbrev outcome : Ret → Option Transition → Loop (Machine World Statics) (Ret × Option Transition)
  outcome r t = lift (pure (r, t))

  unfoldable pub change_clock :
      ℕ → Cluster → Policy → ℕ → PllStep → Loop (Machine World Statics) (Ret × Option Transition)
  unfolding set_step
  change_clock fuel c pol new st = do
    ret ← set_step hw fuel c st
    outcome ret (some (record { old = pol.cur; new = new; failed = not (is_ok ret) }))

  unfoldable pub reach :
      ℕ → Cluster → Policy → ℕ → PllStep → Loop (Machine World Statics) (Ret × Option Transition)
  unfolding current_khz change_clock
  reach fuel c pol new st = do
    khz ← current_khz hw c
    (if khz == new && pol.cur == new then outcome none none else change_clock fuel c pol new st)

  unfoldable pub to_step :
      ℕ
      → Cluster
      → Policy
      → ℕ
      → Option PllStep
      → Loop (Machine World Statics) (Ret × Option Transition)
  unfolding reach
  to_step fuel c pol new none = outcome (some einval) none
  to_step fuel c pol new (some st) = reach fuel c pol new st

  unfoldable pub to_entry :
      ℕ
      → Cluster
      → Policy
      → Errno
      → Option ℕ
      → Loop (Machine World Statics) (Ret × Option Transition)
  unfolding to_step
  to_entry fuel c pol bad none = outcome (some bad) none
  to_entry fuel c pol bad (some i) =
      let new = get_or c.freq_table i 0 in to_step fuel c pol new (find_step c new)

  -- `table_target` is cpufreq_frequency_table_target: it gets the wanted frequency, the minimum and
  -- the maximum, and gives an index of the table (`none` for a negative result).
  unfoldable pub target :
      (ℕ → ℕ → ℕ → Option ℕ)
      → Errno
      → ℕ
      → Bool
      → List Cpu
      → Cluster
      → Policy
      → ℕ
      → Loop (Machine World Statics) (Ret × Option Transition)
  unfolding to_entry
  target table_target bad fuel is_big cpus c pol wanted =
      let maximum = target_maximum is_big cpus pol in
      if ltb maximum pol.min_khz
      then outcome (some eagain) none
      else to_entry fuel c pol bad (table_target (min wanted maximum) pol.min_khz maximum)
