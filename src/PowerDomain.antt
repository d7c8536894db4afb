-- ===== src/PowerDomain.antt =====
-- src/soc/s9p-g3d-pd.c: the power domain of the GPU. Its lock is that of src/soc/s9p-g3d.c, whose
-- variables it changes by s9p_g3d_domain_unlock, so a state here holds those variables too.

pub mod Power
pub mod Probe
use galaxy_s9plus_mainline_l.Common.{
  ℕ, ◌+◌, ◌-◌, ◌*◌, ◌/◌, ◌%◌, ◌^◌, Bool, true, false, not, ◌&&◌, ◌⊎◌, inl, inr, Option, none, some,
  Ret, Errno, ebusy, eio, etimedout, bit, ◌==◌, if◌then◌else◌, bit_and, bit_or,
}
use galaxy_s9plus_mainline_l.Platform.{Hardware, Machine, M, ◌>>=◌, ◌>>◌, pure}
use galaxy_s9plus_mainline_l.Platform
use galaxy_s9plus_mainline_l.G3d.{G3dVars}
use galaxy_s9plus_mainline_l.G3d.Driver.{domain_unlock}

abbrev pub configuration : ℕ
configuration = 0x14064040

abbrev pub status : ℕ
status = 0x14064044

abbrev pmu_global : ℕ
pmu_global = 0x14060000

abbrev cmu : ℕ
cmu = 0x17400000

abbrev pub pll_con0 : ℕ
pll_con0 = cmu + 0x0140

abbrev pub user_mux : ℕ
user_mux = cmu + 0x0100

abbrev pll_con2 : ℕ
pll_con2 = cmu + 0x0148

abbrev divider_busp : ℕ
divider_busp = cmu + 0x1804

abbrev pub local_pwr_cfg : ℕ
local_pwr_cfg = 0xf

abbrev pub prepare_pd : ℕ
prepare_pd = 0x82000410

-- EXYNOS_GET_IN_PD_DOWN and EXYNOS_WAKEUP_PD_DOWN.
abbrev pub save : ℕ
save = 0

abbrev pub wakeup : ℕ
wakeup = 1

abbrev pub is_on : ℕ → Bool
is_on v = v % 2 ^ 4 == local_pwr_cfg

abbrev pub is_off : ℕ → Bool
is_off v = v % 2 ^ 4 == 0

-- The fields of struct s9p_g3d_pd and the static variables; `panicked` says that the kernel
-- stopped. `gpu` holds the variables of src/soc/s9p-g3d.c.
pub record Domain : Type 0 where
  pub gpu : G3dVars
  pub initialized : Bool
  pub low_power_initialized : Bool
  pub always_on : Bool
  pub use_smc : Bool
  pub pll_m : ℕ
  pub pll_p : ℕ
  pub pll_s : ℕ
  pub power_ons : ℕ
  pub power_offs : ℕ
  pub panicked : Bool

module _ {World : Type 0} (hw : Hardware World) where
  abbrev pub S : Type 0
  S = Machine World Domain

  abbrev pub set : (Domain → Domain) → M S (Unit {0})
  set f s = (tt, record s { vars = f s.vars })

  -- `(readl(reg) & ~clear) | set` on 32 bits.
  unfoldable pub rmw : ℕ → ℕ → ℕ → M S (Unit {0})
  rmw a clear bits = do
    v ← Platform.readl hw a
    Platform.writel hw a (bit_or (bit_and v (2 ^ 32 - 1 - clear)) bits)

  -- s9p_g3d_domain_unlock on the part of the state that is the clock driver's.
  unfoldable pub unlock : Bool → M S (Unit {0})
  unlock powered s =
      let t =
        (domain_unlock hw powered (record { world = s.world; log = s.log; vars = s.vars.gpu })).1 in
      (tt, record s { world = t.world; log = t.log; vars = record (s.vars) { gpu = t.vars } })

  unfoldable pub low_power_init : M S (Unit {0})
  unfolding rmw
  low_power_init s =
      if s.vars.low_power_initialized
      then (tt, s)
      else ((do
        rmw (pmu_global + 0x4690) 0x3 0x2
        rmw (pmu_global + 0x4680) 2 0
        rmw (pmu_global + 0x4684) 0xfff 0x363
        rmw (pmu_global + 0x15a8) 0 1
        rmw (pmu_global + 0x15ac) 0 1
        set (λ d. record d { low_power_initialized = true }))
          s)

  -- A readl_poll_timeout as the return code that it gives.
  abbrev pub poll_ret : ℕ → (ℕ → Bool) → ℕ → M S Ret
  poll_ret a cond us s =
      let (v, t) = Platform.poll hw a cond us s in (if cond v then none else some etimedout, t)

  unfoldable pub pll_setup : M S Ret
  unfolding rmw
  pll_setup s =
      let d = s.vars in
      (do
        rmw pll_con0 (2 ^ 4) 0
        Platform.writel hw cmu (150 * d.pll_p % 2 ^ 32)
        v ← Platform.readl hw pll_con0
        Platform.writel hw pll_con0 (
            bit_or (bit_and v (2 ^ 32 - 1 - (1023 * 2 ^ 16 + 63 * 2 ^ 8 + 7)))
              (2 ^ 31 + d.pll_m % 2 ^ 10 * 2 ^ 16 + d.pll_p % 2 ^ 6 * 2 ^ 8 + d.pll_s % 2 ^ 3))
        poll_ret pll_con0 (bit 29) 20000)
        s

  -- The SMC, with the error where EL3 refuses it.
  unfoldable pub secure : ℕ → M S Ret
  secure direction s =
      if s.vars.use_smc
      then (let (a0, t) = Platform.smc_call hw prepare_pd direction s in
          (if a0 == 0 then none else some eio, t))
      else (none, s)

  -- One step after another; an error ends the sequence.
  abbrev pub and_then : M S Ret → M S Ret → M S Ret
  and_then m k s = let (r, t) = m s in elim r [ none ↦ k t | some e ↦ (some e, t) ]

  unfoldable pub bootstrap : M S Ret → M S Ret
  bootstrap m s = if s.vars.initialized then (none, s) else m s

  unfoldable pub switch_on : M S Ret
  unfolding rmw
  switch_on = do
    rmw pll_con0 0 (2 ^ 4)
    rmw user_mux 0 (2 ^ 4)
    Platform.writel hw configuration local_pwr_cfg
    poll_ret status is_on 10000

  unfoldable pub set_dividers : M S Ret
  set_dividers = do
    Platform.writel hw (cmu + 0x1000) 0
    Platform.writel hw (cmu + 0x1800) 0
    Platform.writel hw divider_busp 3
    poll_ret divider_busp (λ v. not (bit 16 v)) 1000

  -- power_on between the lock and its two exits.
  unfoldable pub bring_up : M S Ret
  unfolding bootstrap pll_setup switch_on secure set_dividers
  bring_up s =
      and_then (bootstrap pll_setup)
        (and_then switch_on (and_then (secure wakeup) (bootstrap set_dividers)))
        ((Platform.writel hw pll_con2 0x30000003 s).1)

  unfoldable pub brought_up : Ret → M S Ret
  unfolding unlock
  brought_up none = do
    set (λ d. record d { initialized = true; power_ons = (d.power_ons + 1) % 2 ^ 32 })
    unlock true
    pure none
  brought_up (some e) = do unlock false; pure (some e)

  -- s9p_g3d_power_on.
  unfoldable pub power_on : M S Ret
  unfolding bring_up brought_up
  power_on s = let (ret, t) = bring_up s in brought_up ret t

  unfoldable pub undo : M S Ret
  unfolding secure
  undo s =
      let t = (Platform.writel hw configuration local_pwr_cfg s).1 in
      and_then (poll_ret status is_on 10000) (secure wakeup) t

  -- A failed power-off: the error where the power came back, the panic where it did not.
  unfoldable pub undone : Errno → Ret → M S Ret
  unfolding unlock
  undone e none = do set (λ d. record d { always_on = true }); unlock true; pure (some e)
  undone e (some e') = do
    set (λ d. record d { always_on = true })
    unlock false
    set (λ d. record d { panicked = true })
    pure (some e)

  unfoldable pub cut : Ret → M S Ret
  unfolding undo undone unlock rmw
  cut (some e) s = let (r, t) = undo s in undone e r t
  cut none s =
      (do
        rmw user_mux (2 ^ 4) 0
        rmw pll_con0 (2 ^ 4) 0
        Platform.writel hw pll_con2 0x10000001
        set (λ d. record d { power_offs = (d.power_offs + 1) % 2 ^ 32 })
        unlock false
        pure none)
        s

  -- The secure state is saved, or the domain stays on.
  unfoldable pub saved : Ret → M S Ret
  unfolding cut unlock
  saved (some e) s = (some eio, (unlock true s).1)
  saved none s =
      let t = (Platform.writel hw configuration 0 s).1 in
      let (r, u) = poll_ret status is_off 10000 t in cut r u

  -- s9p_g3d_power_off.
  unfoldable pub power_off : M S Ret
  power_off s =
      if s.vars.always_on
      then (some ebusy, s)
      else (let (r, t) = secure save (low_power_init s).1 in saved r t)
