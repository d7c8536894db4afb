-- ===== src/PowerDomain/Probe.antt =====
-- s9p_g3d_pd_probe of src/soc/s9p-g3d-pd.c. What the kernel's calls give are arguments: whether the
-- allocation succeeded, the three windows, and the results of pm_genpd_init and of the provider's
-- registration.
use galaxy_s9plus_mainline_l.Common.{
  Bool, true, false, not, ◌&&◌, Option, none, some, Ret, einval, enomem, ◌≡◌, ◌⊎◌, inl, inr, refl,
  ap, Bool-cases, Option-cases, if◌then◌else◌,
}
use galaxy_s9plus_mainline_l.Platform.{Hardware, M}
use galaxy_s9plus_mainline_l.Platform
use galaxy_s9plus_mainline_l.PowerDomain.{S, status, is_on, set, power_on, pll_con0, user_mux}

-- One of the three register windows: not in the device tree, not mappable, or mapped.
pub data Window : Type 0 where
  absent unmappable mapped : Window

abbrev after_window : Window → Ret → Ret
after_window absent rest = some einval
after_window unmappable rest = some enomem
after_window mapped rest = rest

-- The error of the loop over the windows.
unfoldable pub map_windows : Window → Window → Window → Ret
map_windows pmu cmu pmu_global = after_window pmu (after_window cmu (after_window pmu_global none))

-- What the probe leaves: its result, and the `is_off` that a domain still registered has.
abbrev pub Probed : Type 0
Probed = Ret × Option Bool

abbrev register_domain : Ret → Ret → Bool → Probed
register_domain (some e) provider off = (some e, none)
register_domain none (some e) off = (some e, none)
register_domain none none off = (none, some off)

module _ {World : Type 0} (hw : Hardware World) where
  abbrev powered_up : Ret → Ret → Ret × S hw → Probed × S hw
  powered_up genpd provider (some e, s) = ((some e, none), s)
  powered_up genpd provider (none, s) = (register_domain genpd provider false, s)

  -- The registers that the message on the domain's state reads.
  unfoldable pub printed : S hw → S hw
  printed s =
      (Platform.readl hw user_mux (Platform.readl hw pll_con0 (Platform.readl hw status s).1).1).1

  -- The probe with its windows mapped.
  unfoldable pub after_map : Ret → Ret → M (S hw) Probed
  after_map genpd provider s =
      let (v, t) = Platform.readl hw status s in
      let on = is_on v in
      let u = printed (set hw (λ d. record d { initialized = on }) t).1 in
      if not on && s.vars.always_on
      then powered_up genpd provider (power_on hw u)
      else (register_domain genpd provider (not on), u)

  abbrev if_mapped : Ret → M (S hw) Probed → M (S hw) Probed
  if_mapped (some e) next s = ((some e, none), s)
  if_mapped none next s = next s

  unfoldable pub probe : Bool → Window → Window → Window → Ret → Ret → M (S hw) Probed
  unfolding map_windows after_map
  probe false pmu cmu pmu_global genpd provider s = ((some enomem, none), s)
  probe true pmu cmu pmu_global genpd provider s =
      if_mapped (map_windows pmu cmu pmu_global) (after_map genpd provider) s

  -- What the kernel is told of a domain that is kept on.
  abbrev NotOff : Option Bool → Type 0
  NotOff kept = (kept ≡ none) ⊎ (kept ≡ some false)

  register_domain-NotOff :
      (genpd provider : Ret) (off : Bool)
      → off ≡ false
      → NotOff (register_domain genpd provider off).1
  register_domain-NotOff (some e) provider off up = inl refl
  register_domain-NotOff none (some e) off up = inl refl
  register_domain-NotOff none none off up = inr (ap some up)

  powered_up-NotOff :
      (genpd provider : Ret) (r : Ret × S hw) → NotOff (powered_up genpd provider r).0.1
  powered_up-NotOff genpd provider (some e, s) = inl refl
  powered_up-NotOff genpd provider (none, s) = register_domain-NotOff genpd provider false refl

  after_map-NotOff :
      (genpd provider : Ret) (s : S hw)
      → s.vars.always_on ≡ true
      → NotOff (after_map genpd provider s).0.1
  unfolding after_map printed
  after_map-NotOff genpd provider s kept =
      elim (Bool-cases (is_on (Platform.readl hw status s).0)) [
        | inl up ↦ simp (up, kept) (register_domain-NotOff genpd provider false refl)
        | inr down ↦ simp (down, kept) (powered_up-NotOff genpd provider _)
      ]

  -- A domain that is always on is never registered as off: the probe powers it up first, and fails
  -- when that fails.
  probe-NotOff :
      (alloc : Bool) (pmu cmu pmu_global : Window) (genpd provider : Ret) (s : S hw)
      → s.vars.always_on ≡ true
      → NotOff (probe alloc pmu cmu pmu_global genpd provider s).0.1
  unfolding probe
  probe-NotOff false pmu cmu pmu_global genpd provider s kept = inl refl
  probe-NotOff true pmu cmu pmu_global genpd provider s kept =
      elim (Option-cases (map_windows pmu cmu pmu_global)) [
        | inl e ↦ simp e (after_map-NotOff genpd provider s kept)
        | inr (e, failed) ↦ simp failed (inl refl)
      ]
