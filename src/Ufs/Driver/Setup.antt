-- ===== src/Ufs/Driver/Setup.antt =====
-- The start of the driver of src/ufs/ufs-exynos9810.c: exynos_ufs_parse_dt and exynos_ufs_get_clks.
-- What the device tree, the syscon driver and the clock framework give are arguments.
use mathlib.Core.List.{Memᴰ}
use mathlib.Core.List.Memᴰ
use galaxy_s9plus_mainline_l.Common.{
  ℕ, ◌%◌, ◌^◌, ◌<◌, true, List, [], ◌∷◌, Option, none, some, ◌==◌, if◌then◌else◌, Ret, Errno,
  einval, ◌≡◌, ◌⊎◌, inl, inr, refl, ap, Bool-cases, arith,
}
use galaxy_s9plus_mainline_l.Platform.{M}
use galaxy_s9plus_mainline_l.Ufs.{Host, PwrMode}
use galaxy_s9plus_mainline_l.Ufs.Match.{fast_mode}
use galaxy_s9plus_mainline_l.Ufs.Calib.{pa_hs_mode_b}
use galaxy_s9plus_mainline_l.Ufs.Driver.{D}

-- The names that the driver looks for, "GATE_UFS_EMBD" and "UFS_EMBD", and any other.
pub data ClkName : Type 0 where
  gate_ufs_embd ufs_embd other_clk : ClkName

-- An entry of the list of ufshcd, with `none` for a clock that IS_ERR_OR_NULL.
pub record ClkInfo : Type 0 where
  pub name : ClkName
  pub clk : Option ℕ

-- The clock handles of the driver, NULL before.
pub record Clks : Type 0 where
  pub clk_hci : Option ℕ
  pub clk_unipro : Option ℕ

abbrev pub no_clks : Clks
no_clks = record { clk_hci = none; clk_unipro = none }

abbrev put_clk : ClkName → Option ℕ → Clks → Clks
put_clk name none clks = clks
put_clk gate_ufs_embd (some c) clks = record clks { clk_hci = some c }
put_clk ufs_embd (some c) clks = record clks { clk_unipro = some c }
put_clk other_clk (some c) clks = clks

unfoldable pub find_clks : List ClkInfo → Clks → Clks
find_clks [] clks = clks
find_clks (info ∷ rest) clks = find_clks rest (put_clk info.name info.clk clks)

abbrev nonzero : ℕ → Ret
nonzero rate = if rate == 0 then some einval else none

-- `mclk_rate` is the old one where a handle is missing.
abbrev rate_of : (ℕ → ℕ) → ℕ → Option ℕ → Option ℕ → Ret × ℕ
rate_of clk_get_rate old none unipro = (some einval, old)
rate_of clk_get_rate old (some hci) none = (some einval, old)
rate_of clk_get_rate old (some hci) (some unipro) =
    let rate = clk_get_rate unipro % 2 ^ 32 in (nonzero rate, rate)

-- exynos_ufs_get_clks: its result with `mclk_rate`, and the handles.
unfoldable pub get_clks : (ℕ → ℕ) → List ClkInfo → ℕ → Clks → (Ret × ℕ) × Clks
unfolding find_clks
get_clks clk_get_rate infos old clks =
    let found = find_clks infos clks in
    (rate_of clk_get_rate old found.clk_hci found.clk_unipro, found)

-- An entry of the list under this name with this clock.
abbrev Listed : ClkName → ℕ → List ClkInfo → Type 0
Listed name c infos = Memᴰ (record { name = name; clk = some c }) infos

-- A handle that the driver holds after the walk is the one from before or an entry of the list.
abbrev Known : ClkName → Option ℕ → Option ℕ → List ClkInfo → Type 0
Known name before after infos =
    (after ≡ before) ⊎ ((c : ℕ) × (after ≡ some c) × Listed name c infos)

Known-later :
    {name : ClkName} {before after : Option ℕ} {rest : List ClkInfo} (info : ClkInfo)
    → Known name before after rest
    → Known name before after (info ∷ rest)
Known-later info (inl e) = inl e
Known-later info (inr (c, e, m)) = inr (c, e, Memᴰ.tail m)

Known-here :
    {name : ClkName} {before after : Option ℕ} {rest : List ClkInfo} (c : ℕ)
    → Known name (some c) after rest
    → Known name before after (record { name = name; clk = some c } ∷ rest)
Known-here c (inl e) = inr (c, e, Memᴰ.head refl)
Known-here c (inr (b, e, m)) = inr (b, e, Memᴰ.tail m)

-- Both handles that the driver holds after the walk, against those it held before.
abbrev BothKnown : Clks → Clks → List ClkInfo → Type 0
BothKnown before after infos =
    Known gate_ufs_embd before.clk_hci after.clk_hci infos
    × Known ufs_embd before.clk_unipro after.clk_unipro infos

put_clk-BothKnown :
    (name : ClkName) (clk : Option ℕ) {rest : List ClkInfo} {clks after : Clks}
    → BothKnown (put_clk name clk clks) after rest
    → BothKnown clks after (record { name = name; clk = clk } ∷ rest)
put_clk-BothKnown name none (h, u) = (Known-later _ h, Known-later _ u)
put_clk-BothKnown gate_ufs_embd (some c) (h, u) = (Known-here c h, Known-later _ u)
put_clk-BothKnown ufs_embd (some c) (h, u) = (Known-later _ h, Known-here c u)
put_clk-BothKnown other_clk (some c) (h, u) = (Known-later _ h, Known-later _ u)

find_clks-BothKnown :
    (infos : List ClkInfo) (clks : Clks) → BothKnown clks (find_clks infos clks) infos
unfolding find_clks
find_clks-BothKnown [] clks = (inl refl, inl refl)
find_clks-BothKnown (info ∷ rest) clks =
    put_clk-BothKnown info.name info.clk
      (find_clks-BothKnown rest (put_clk info.name info.clk clks))

-- The look-up succeeds with a rate that is not 0 and handles that are clocks of entries with their
-- names, and fails with -EINVAL where a handle is missing or the rate is 0.
abbrev Resolved : (ℕ → ℕ) → List ClkInfo → Ret → ℕ → Option ℕ → Option ℕ → Type 0
Resolved clk_get_rate infos ret rate hci unipro =
    ((c u : ℕ) × ((ret ≡ none) × (0 < rate) × (rate ≡ clk_get_rate u % 2 ^ 32))
      × ((hci ≡ some c) × Listed gate_ufs_embd c infos)
      × ((unipro ≡ some u) × Listed ufs_embd u infos))
    ⊎ ((ret ≡ some einval) × ((hci ≡ none) ⊎ (unipro ≡ none) ⊎ (rate ≡ 0)))

Listed-of_Known :
    {name : ClkName} {c : ℕ} {infos : List ClkInfo}
    → Known name none (some c) infos
    → Listed name c infos
Listed-of_Known (inl e) = cc
Listed-of_Known {name} (inr (b, e, m)) = Memᴰ.cast (ap (λ o. record { name = name; clk = o }) e) m

rate_of-Resolved :
    (clk_get_rate : ℕ → ℕ) (infos : List ClkInfo) (old : ℕ) (hci unipro : Option ℕ)
    → Known gate_ufs_embd none hci infos
    → Known ufs_embd none unipro infos
    → let (ret, rate) = rate_of clk_get_rate old hci unipro in
      Resolved clk_get_rate infos ret rate hci unipro
rate_of-Resolved clk_get_rate infos old none unipro h u = inr (refl, inl refl)
rate_of-Resolved clk_get_rate infos old (some c) none h u = inr (refl, inr (inl refl))
rate_of-Resolved clk_get_rate infos old (some c) (some d) h u =
    elim (Bool-cases (clk_get_rate d % 2 ^ 32 == 0)) [
      | inl zeroed ↦
          inr (ap (λ b. if b then some einval else none) zeroed, inr (inr (ground arith)))
      | inr up ↦ inl (
        c,
        d,
        (ap (λ b. if b then some einval else none) up, ground arith, refl),
        (refl, Listed-of_Known h),
        (refl, Listed-of_Known u),
      )
    ]

pub get_clks-Resolved :
    (clk_get_rate : ℕ → ℕ) (infos : List ClkInfo) (old : ℕ)
    → let ((ret, rate), clks) = get_clks clk_get_rate infos old no_clks in
      Resolved clk_get_rate infos ret rate clks.clk_hci clks.clk_unipro
unfolding get_clks
get_clks-Resolved clk_get_rate infos old =
    let (h, u) = find_clks-BothKnown infos no_clks in
    rate_of-Resolved clk_get_rate infos old _ _ h u

-- What the device tree of the host says: missing numbers are `none`. `pmu_syscon` is the error of
-- the look-up of the PMU, `sysreg` is `none` without that phandle, and otherwise the error of its
-- syscon.
pub record DeviceTree : Type 0 where
  pub dt_hw_rev : Option ℕ
  pub pmu_syscon : Ret
  pub sysreg : Option Ret
  pub pmd_attr_lane : Option ℕ
  pub pmd_attr_gear : Option ℕ

abbrev or_default : ℕ → Option ℕ → ℕ
or_default d none = d
or_default d (some v) = v

-- The mode that the board asks for.
abbrev requested : DeviceTree → PwrMode
requested dt = record {
  lane = or_default 1 dt.pmd_attr_lane;
  gear = or_default 1 dt.pmd_attr_gear;
  mode = fast_mode;
  hs_series = pa_hs_mode_b;
}

module _ {World : Type 0} (host : Host World) where
  abbrev set_request : DeviceTree → M (D host) Ret
  set_request dt d = (none, record d { req_pmd = requested dt })

  -- A pointer that holds an error is not NULL either.
  abbrev with_sysreg : Option Ret → M (D host) Ret → M (D host) Ret
  with_sysreg none next d = next d
  with_sysreg (some none) next d = next (record d { has_sysreg = true })
  with_sysreg (some (some e)) next d = (some e, record d { has_sysreg = true })

  abbrev with_pmu : Ret → M (D host) Ret → M (D host) Ret
  with_pmu none next d = next d
  with_pmu (some e) next d = (some e, d)

  unfoldable pub parse_dt : DeviceTree → M (D host) Ret
  parse_dt dt d =
      with_pmu dt.pmu_syscon (with_sysreg dt.sysreg (set_request dt))
        (record d { hw_rev = or_default 4 dt.dt_hw_rev })

  -- A reading that succeeds leaves the requested mode, one that fails the mode from before; neither
  -- touches the host.
  abbrev ReadIn : DeviceTree → D host → Ret × D host → Type 0
  ReadIn dt d (ret, e) =
      (e.cal ≡ d.cal)
      × (((ret ≡ none) × (e.req_pmd ≡ requested dt))
          ⊎ ((x : Errno) × (ret ≡ some x) × (e.req_pmd ≡ d.req_pmd)))

  with_sysreg-ReadIn :
      (dt : DeviceTree) (sysreg : Option Ret) (d : D host)
      → ReadIn dt d (with_sysreg sysreg (set_request dt) d)
  with_sysreg-ReadIn dt none d = (refl, inl (refl, refl))
  with_sysreg-ReadIn dt (some none) d = (refl, inl (refl, refl))
  with_sysreg-ReadIn dt (some (some x)) d = (refl, inr (x, refl, refl))

  with_pmu-ReadIn :
      (dt : DeviceTree) (pmu : Ret) (d : D host)
      → ReadIn dt d (with_pmu pmu (with_sysreg dt.sysreg (set_request dt)) d)
  with_pmu-ReadIn dt none d = with_sysreg-ReadIn dt dt.sysreg d
  with_pmu-ReadIn dt (some x) d = (refl, inr (x, refl, refl))

  pub parse_dt-ReadIn : (dt : DeviceTree) (d : D host) → ReadIn dt d (parse_dt dt d)
  unfolding parse_dt
  parse_dt-ReadIn dt d =
      with_pmu-ReadIn dt dt.pmu_syscon (record d { hw_rev = or_default 4 dt.dt_hw_rev })
