-- ===== src/G3d.antt =====
-- src/soc/s9p-g3d.c: the GPU clock, its three requests and its rail.
pub mod Rollback
pub mod Pll
pub mod Rail
pub mod Driver
pub mod Requests
pub mod Probe
use galaxy_s9plus_mainline_l.Common.{
  ℕ, zero, suc, ◌+◌, ◌-◌, ◌*◌, ◌/◌, ◌%◌, ◌^◌, min, bit_and, bit_or, Bool, true, false, not, ◌&&◌,
  ◌||◌, List, [], ◌∷◌, Option, none, some, ◌⊎◌, inl, inr, ltb, leb, ◌==◌, if◌then◌else◌, bit, Errno,
  einval, eagain, eio, etimedout, eprobe_defer, Ret,
}
use galaxy_s9plus_mainline_l.Platform.{Hardware, Machine, M, ◌>>=◌, ◌>>◌, pure, get_vars, set_vars}
use galaxy_s9plus_mainline_l.Platform

-- struct s9p_g3d_step
pub record G3dStep : Type 0 where
  pub khz : ℕ
  pub m : ℕ
  pub p : ℕ
  pub s : ℕ
  pub vsel : ℕ

abbrev pub step_572 : G3dStep
step_572 = record { khz = 572000; m = 286; p = 13; s = 0; vsel = 0x68 }

abbrev pub step_455 : G3dStep
step_455 = record { khz = 455000; m = 455; p = 26; s = 0; vsel = 0x60 }

abbrev pub step_260 : G3dStep
step_260 = record { khz = 260000; m = 160; p = 4; s = 2; vsel = 0x58 }

abbrev pub g3d_steps : List G3dStep
g3d_steps = step_572 ∷ step_455 ∷ step_260 ∷ []

find_in : List G3dStep → ℕ → Option G3dStep
find_in [] khz = none
find_in (st ∷ sts) khz = if st.khz == khz then some st else find_in sts khz

unfoldable pub find : ℕ → Option G3dStep
unfolding find_in
find khz = find_in g3d_steps khz

below_in : List G3dStep → ℕ → G3dStep
below_in [] khz = step_260
below_in (st ∷ sts) khz = if leb st.khz khz then st else below_in sts khz

-- The highest step at or below a rate, and the lowest step below that.
unfoldable pub step_below : ℕ → G3dStep
unfolding below_in
step_below khz = below_in g3d_steps khz

-- The static variables. `mapped` is `g3d_con0 != NULL`; `live` says whether the mapping that it
-- points to still exists, since devres takes it away when a probe fails.
pub record G3dVars : Type 0 where
  pub mapped : Bool
  pub live : Bool
  pub rail_set : Bool
  pub domain_powered : Bool
  pub cur_khz : ℕ
  pub req_khz : ℕ
  pub thermal_khz : ℕ
  pub max_khz : ℕ
  pub step_volt : Bool
  pub attempts : ℕ

abbrev pub initial_vars : G3dVars
initial_vars = record {
  mapped = false;
  live = false;
  rail_set = false;
  domain_powered = true;
  cur_khz = 0;
  req_khz = 572000;
  thermal_khz = 572000;
  max_khz = 572000;
  step_volt = false;
  attempts = 0;
}

abbrev pub con0_addr : ℕ
con0_addr = 0x17400140

abbrev pub con2_addr : ℕ
con2_addr = 0x17400148

abbrev pub locktime_addr : ℕ
locktime_addr = 0x17400000

abbrev pub buck6_reg : ℕ
buck6_reg = 0x2b

abbrev pub vsel_950mv : ℕ
vsel_950mv = 0x68

-- ~PLL_CON0_MUX_SEL, ~PLL_CON0_ENABLE and ~(PLL_CON0_ENABLE | PLL_CON0_PMS_MASK)
abbrev pub unselect : ℕ → ℕ
unselect v = bit_and v 0xffffffef

abbrev pub disable : ℕ → ℕ
disable v = bit_and v 0x7fffffff

abbrev pub clear_pms : ℕ → ℕ
clear_pms v = bit_and v 0x7c00c0f8

abbrev pub pms_word : ℕ → G3dStep → ℕ
pms_word v st = bit_or (bit_or (bit_or v (st.m * 2 ^ 16)) (st.p * 2 ^ 8)) st.s

abbrev pub lowest : ℕ → ℕ → ℕ → ℕ
lowest a b c = min (min a b) c

-- A word of PLL_CON0 with a step's dividers and the output selected.
unfoldable pub shows : ℕ → G3dStep → Bool
shows v st =
    v / 2 ^ 16 % 2 ^ 10 == st.m && v / 2 ^ 8 % 2 ^ 6 == st.p && v % 2 ^ 3 == st.s && bit 4 v

module _ {World : Type 0} (hw : Hardware World) where
  abbrev pub S : Type 0
  S = Machine World G3dVars

  abbrev pub readl : ℕ → M S ℕ
  readl a = Platform.readl hw a

  abbrev pub writel : ℕ → ℕ → M S (Unit {0})
  writel a v = Platform.writel hw a v

  abbrev pub set_cur : ℕ → M S (Unit {0})
  set_cur khz s = (tt, record s { vars = record (s.vars) { cur_khz = khz } })

  unfoldable pub pll_is : G3dStep → M S Bool
  pll_is st = do v ← readl con0_addr; pure (shows v st)

  -- The `restore:` label in its three stages; each is reached where the one before went well.
  unfoldable pub rollback_mux : ℕ → ℕ → M S Ret
  rollback_mux old_con0 v =
      if bit 29 v
      then (do
        writel con0_addr old_con0
        w ← Platform.poll hw con0_addr (λ x. not (bit 7 x)) 1000
        pure (if bit 7 w then some etimedout else none))
      else pure (some etimedout)

  unfoldable pub rollback_pll : ℕ → ℕ → ℕ → M S Ret
  rollback_pll old_con0 old_locktime v = if bit 7 v then pure (some etimedout) else (do
    writel con0_addr (disable v)
    writel locktime_addr old_locktime
    writel con0_addr (unselect old_con0)
    w ← Platform.poll hw con0_addr (bit 29) 20000
    rollback_mux old_con0 w)

  unfoldable pub give_up : Ret → M S (Unit {0})
  give_up none = pure tt
  give_up (some e) = set_cur 26000

  unfoldable pub restore : ℕ → ℕ → Errno → M S Ret
  restore old_con0 old_locktime e = do
    now ← readl con0_addr
    writel con0_addr (unselect now)
    v ← Platform.poll hw con0_addr (λ x. not (bit 7 x)) 1000
    rollback ← rollback_pll old_con0 old_locktime v
    give_up rollback
    pure (some e)

  -- Down: the rail follows the clock; a failure is only logged.
  unfoldable pub finish : Bool → G3dStep → M S Ret
  finish lower st = do
    set_cur st.khz
    (if lower then (do ret ← Platform.pmic_write hw buck6_reg st.vsel; pure none) else pure none)

  -- Back onto the PLL.
  unfoldable pub select_pll : ℕ → ℕ → Bool → G3dStep → M S Ret
  select_pll old_con0 old_locktime lower st = do
    now ← readl con0_addr
    writel con0_addr (bit_or now 0x10)
    v ← Platform.poll hw con0_addr (λ x. not (bit 7 x)) 1000
    (if bit 7 v then restore old_con0 old_locktime etimedout else (do
      there ← pll_is st
      (if there then finish lower st else restore old_con0 old_locktime eio)))

  unfoldable pub reprogram : ℕ → ℕ → Bool → G3dStep → M S Ret
  reprogram old_con0 old_locktime lower st = do
    now ← readl con0_addr
    let v = clear_pms now
    writel con0_addr v
    writel con0_addr (pms_word v st)
    writel con0_addr (pms_word (bit_or v 0x80000000) st)
    w ← Platform.poll hw con0_addr (bit 29) 20000
    (if bit 29 w
        then select_pll old_con0 old_locktime lower st
        else restore old_con0 old_locktime etimedout)

  -- Onto the oscillator before the PLL stops.
  unfoldable pub move_clock : ℕ → ℕ → Bool → G3dStep → M S Ret
  move_clock old_con0 old_locktime lower st = do
    writel con2_addr 0x30000003
    writel locktime_addr (st.p * 150)
    now ← readl con0_addr
    writel con0_addr (unselect now)
    v ← Platform.poll hw con0_addr (λ x. not (bit 7 x)) 1000
    (if bit 7 v
        then restore old_con0 old_locktime etimedout
        else reprogram old_con0 old_locktime lower st)

  unfoldable pub after_rail : ℕ → ℕ → Bool → G3dStep → Ret → M S Ret
  after_rail old_con0 old_locktime lower st none = move_clock old_con0 old_locktime lower st
  after_rail old_con0 old_locktime lower st (some e) = pure (some e)

  unfoldable pub settle : Ret → M S Ret
  settle none = do Platform.delay hw 200; pure none
  settle (some e) = pure (some e)

  unfoldable pub set_pll : G3dStep → M S Ret
  set_pll st = do
    old_con0 ← readl con0_addr
    old_locktime ← readl locktime_addr
    vars ← get_vars
    let up = ltb vars.cur_khz st.khz
    let scaled = vars.step_volt && vars.rail_set
    ret ←
        (if scaled && up
          then (do ret ← Platform.pmic_write hw buck6_reg st.vsel; settle ret)
          else pure none)
    after_rail old_con0 old_locktime (scaled && not up) st ret

  unfoldable pub move_to : Bool → G3dStep → M S Ret
  move_to true st = do set_cur st.khz; pure none
  move_to false st = set_pll st

  -- A domain without power keeps the requests for later.
  unfoldable pub apply : M S Ret
  apply s =
      let st = step_below (lowest s.vars.req_khz s.vars.thermal_khz s.vars.max_khz) in
      if not s.vars.domain_powered
      then (none, s)
      else (let (there, s') = pll_is st s in move_to there st s')
