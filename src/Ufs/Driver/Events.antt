-- ===== src/Ufs/Driver/Events.antt =====
-- exynos_ufs_event_notify of src/ufs/ufs-exynos9810.c, which ufshcd calls from its interrupt handler,
-- with the register dump that it makes. What the dump prints is left out, but not what it reads.
use galaxy_s9plus_mainline_l.Common.{
  ◌&&◌, ℕ, ◌-◌, ◌^◌, ◌≡◌, ◌↔◌, refl, Bool, true, false, List, [], ◌∷◌, Option, none, some, bit_and,
  bit_or,
}
use galaxy_s9plus_mainline_l.Platform.{M, ◌>>=◌, ◌>>◌, pure}
use galaxy_s9plus_mainline_l.Ufs.{
  Host, pmu_seen, vcc_seen, Access, hci, pma_seen, pma_read, dme_get, clkstop_ctrl, apbclk_stop,
}
use galaxy_s9plus_mainline_l.Ufs.Uic.{uic_arg_mib}
use galaxy_s9plus_mainline_l.Ufs.Driver.{Headers, D, on_cal, force_hcs, gpio_out}

-- enum ufs_event_type, as far as the driver tells the events apart.
pub data UfsEvent : Type 0 where
  link_startup_fail fatal_err host_reset abort other : UfsEvent

-- A call comes back, or panic() stops the kernel.
pub data Ending : Type 0 where
  returned panicked : Ending

-- What the dump reaches beside the host: ufshcd_readl with the offsets of the standard registers in
-- its order, regmap_read of the PHY's control register in the PMU, and whether there is a VCC.
pub record Standard (World : Type 0) : Type 0 where
  pub registers : List ℕ
  pub read_standard : ℕ → World → ℕ × World
  pub read_phy_control : World → ℕ × World
  pub has_vcc : Bool
  pub ask_vcc : World → World

module _ {World : Type 0} (host : Host World) (standard : Standard World) where
  abbrev look : (World → ℕ × World) → M (D host) (Unit {0})
  look read d = (tt, record d { cal = record (d.cal) { world = (read d.cal.world).1 } })

  abbrev phy_control : M (D host) (Unit {0})
  phy_control d = (
    tt,
    record d {
      cal = record (d.cal) {
        world = (standard.read_phy_control d.cal.world).1;
        log = pmu_seen ∷ d.cal.log;
      };
    },
  )

  -- regulator_is_enabled.
  abbrev vcc_state : M (D host) (Unit {0})
  vcc_state d = (
    tt,
    record d {
      cal = record (d.cal) { world = standard.ask_vcc d.cal.world; log = vcc_seen ∷ d.cal.log };
    },
  )

  unfoldable pub look_each : (ℕ → World → ℕ × World) → List ℕ → M (D host) (Unit {0})
  look_each read [] d = (tt, d)
  look_each read (a ∷ rest) d = look_each read rest (look (read a) d).1

  unfoldable pub pma_each : List ℕ → M (D host) (Unit {0})
  pma_each [] d = (tt, d)
  pma_each (a ∷ rest) d = pma_each rest (on_cal host (pma_read host a) d).1

  abbrev lanes : Headers → M (D host) (Unit {0})
  lanes h = on_cal host (dme_get host (uic_arg_mib h.pa_availrxdatalanes)) >>= λ v. pure tt

  abbrev link_registers : List ℕ
  link_registers = clkstop_ctrl ∷ force_hcs ∷ 0x108 ∷ gpio_out ∷ []

  abbrev last_registers : List ℕ
  last_registers = 0xc0 ∷ 0xfc ∷ 0xac ∷ []

  abbrev if_sleepable : Bool → M (D host) (Unit {0}) → M (D host) (Unit {0})
  if_sleepable true m = m
  if_sleepable false m = pure tt

  -- exynos_ufs_dump_state; `sleepable` says that the reason is "pre-link".
  unfoldable pub dump_state : Headers → Bool → M (D host) (Unit {0})
  unfolding look_each pma_each
  dump_state h sleepable = do
    if_sleepable sleepable phy_control
    look_each standard.read_standard standard.registers
    look_each host.read_hci link_registers
    if_sleepable (sleepable && standard.has_vcc) vcc_state
    pma_each (0x74 ∷ 0x8c ∷ 0x134 ∷ 0x274 ∷ [])
    look_each host.read_hci last_registers
    if_sleepable sleepable (lanes h)

  abbrev ending : Bool → Ending
  ending true = panicked
  ending false = returned

  abbrev on_event : Headers → Bool → UfsEvent → M (D host) Ending
  on_event h panic_on_fatal link_startup_fail = dump_state h false >> pure returned
  on_event h panic_on_fatal fatal_err = dump_state h false >> pure (ending panic_on_fatal)
  on_event h panic_on_fatal host_reset = pure returned
  on_event h panic_on_fatal abort = pure returned
  on_event h panic_on_fatal other = pure returned

  -- The driver's structure may not be there yet.
  unfoldable pub event_notify : Headers → Bool → UfsEvent → M (Option (D host)) Ending
  unfolding dump_state
  event_notify h panic_on_fatal event none = (returned, none)
  event_notify h panic_on_fatal event (some d) =
      let (end, t) = on_event h panic_on_fatal event d in (end, some t)

-- A log, newest first, on which only reads of the PHY came, each between the start and the stop of its
-- APB clock: no command on the link, no regulator, no regmap, no delay.
pub data Atomic (before : List Access) : List Access → Type 0 where
  nothing : Atomic before before
  phy_read :
      {after : List Access} (c a : ℕ)
      → Atomic before after
      → Atomic before (
          hci clkstop_ctrl (bit_or c apbclk_stop)
          ∷ pma_seen a
          ∷ hci clkstop_ctrl (bit_and c (2 ^ 32 - 1 - apbclk_stop))
          ∷ after)

module _ {World : Type 0} (host : Host World) (standard : Standard World) where
  look_each_log :
      (read : ℕ → World → ℕ × World) (l : List ℕ) (d : D host) {before : List Access}
      → Atomic before d.cal.log
      → Atomic before (look_each host standard read l d).1.cal.log
  unfolding look_each
  look_each_log read [] d a = a
  look_each_log read (x ∷ l) d a =
      look_each_log read l (record d { cal = record (d.cal) { world = (read x d.cal.world).1 } }) a

  pma_each_log :
      (l : List ℕ) (d : D host) {before : List Access}
      → Atomic before d.cal.log
      → Atomic before (pma_each host standard l d).1.cal.log
  unfolding pma_each
  pma_each_log [] d a = a
  pma_each_log (x ∷ l) d a = pma_each_log l (on_cal host (pma_read host x) d).1 (phy_read _ x a)

  dump_state-Atomic :
      (h : Headers) (d : D host) → Atomic d.cal.log (dump_state host standard h false d).1.cal.log
  unfolding dump_state
  dump_state-Atomic h d =
      let t = (look_each host standard standard.read_standard standard.registers d).1 in
      let u =
        (look_each host standard host.read_hci (clkstop_ctrl ∷ force_hcs ∷ 0x108 ∷ gpio_out ∷ [])
          t).1 in
      let v = (pma_each host standard (0x74 ∷ 0x8c ∷ 0x134 ∷ 0x274 ∷ []) u).1 in
      look_each_log host.read_hci (0xc0 ∷ 0xfc ∷ 0xac ∷ []) v (
        pma_each_log (0x74 ∷ 0x8c ∷ 0x134 ∷ 0x274 ∷ []) u (
          look_each_log host.read_hci (clkstop_ctrl ∷ force_hcs ∷ 0x108 ∷ gpio_out ∷ []) t
            (look_each_log standard.read_standard standard.registers d nothing)))

  abbrev pub is_fatal : UfsEvent → Bool
  is_fatal fatal_err = true
  is_fatal link_startup_fail = false
  is_fatal host_reset = false
  is_fatal abort = false
  is_fatal other = false

  abbrev pub Notified : Bool → UfsEvent → D host → Ending × Option (D host) → Type 0
  Notified panic_on_fatal event d (end, t) =
      (u : D host) × (t ≡ some u)
      × Atomic d.cal.log u.cal.log
      × ((end ≡ panicked) ↔ ((is_fatal event ≡ true) × (panic_on_fatal ≡ true)))

  -- An event never makes the driver sleep, whatever the event: it sends no command on the link, does
  -- not read through the PMU's regmap and asks no regulator; it only reads registers, those of the
  -- PHY each with its clock started and stopped around the read; and it stops the kernel exactly on a
  -- fatal error with the module parameter set.
  pub event_notify-Notified :
      (h : Headers) (panic_on_fatal : Bool) (event : UfsEvent) (d : D host)
      → Notified panic_on_fatal event d (event_notify host standard h panic_on_fatal event (some d))
  unfolding event_notify
  event_notify-Notified h p link_startup_fail d =
      (_, refl, dump_state-Atomic h d, (λ e. cc, λ e. cc))
  event_notify-Notified h true fatal_err d =
      (_, refl, dump_state-Atomic h d, (λ e. (refl, refl), λ e. refl))
  event_notify-Notified h false fatal_err d = (_, refl, dump_state-Atomic h d, (λ e. cc, λ e. cc))
  event_notify-Notified h p host_reset d = (d, refl, nothing, (λ e. cc, λ e. cc))
  event_notify-Notified h p abort d = (d, refl, nothing, (λ e. cc, λ e. cc))
  event_notify-Notified h p other d = (d, refl, nothing, (λ e. cc, λ e. cc))
