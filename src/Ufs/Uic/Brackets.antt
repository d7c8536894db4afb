-- ===== src/Ufs/Uic/Brackets.antt =====
-- A walk over a table of src/ufs/ufs-cal-9810.c that has no wait for a lock: it comes back, and
-- the APB clock of the PHY runs for the accesses to the PHY only.
use galaxy_s9plus_mainline_l.Common.{
  ℕ, zero, suc, ◌-◌, ◌^◌, ◌≡◌, refl, sym, Bool, true, false, Bool-cases, ◌&&◌, ◌||◌, ◌⊎◌, List, [],
  ◌∷◌, Option, some, ◌==◌, inl, inr, arith, bit_and, bit_or,
}
use galaxy_s9plus_mainline_l.Platform.Monad.Loop.{Loop}
use galaxy_s9plus_mainline_l.Ufs.{
  Access, ufsp, phy_power, coherency, vcc, pmu_seen, vcc_seen, pixel, secure_call, hci, pma, unipro,
  pma_seen, attr, peer, attr_seen, pause, Host, S, PwrMode, CalParam, CalErrno, no_error, timeout,
  failed, inv_arg, clkstop_ctrl, apbclk_stop, pma_write, pma_read, usleep, dme_set,
}
use galaxy_s9plus_mainline_l.Ufs.Tables.{
  PhyCfg, Layer, cfg_none, pcs_comn, pcs_rxtx, pma_comn, pma_trsv, unipro_std_mib, unipro_dbg_mib,
  unipro_dbg_apb, pcs_rx, pcs_tx, pcs_rx_prd, pcs_tx_prd, unipro_dbg_prd, pma_trsv_lane1_sq_off,
  common_wait, pll_wait, cdr_wait, cdr_afc_wait,
}
use galaxy_s9plus_mainline_l.Ufs.Match.{match_board}
use galaxy_s9plus_mainline_l.Ufs.Uic.{
  uic_arg_mib, unipro_mclk_period, trsv_addr, then_fine, by_layer, on_lane, afc_rounds,
  wait_cdr_afc_check, entry, and_go_on, lanes, entries, config_uic, unless_failed, mode_fits,
}

-- An access that needs no PHY clock, and that is no write to the HCI either.
abbrev pub IsFree : Access → Type 0
IsFree (hci a v) = ⊥
IsFree (pma a v) = ⊥
IsFree (pma_seen a) = ⊥
IsFree (unipro a v) = Unit
IsFree (attr a v) = Unit
IsFree (peer a v) = Unit
IsFree (attr_seen a) = Unit
IsFree (pause us) = Unit
IsFree (ufsp a v) = Unit
IsFree (phy_power on) = Unit
IsFree coherency = Unit
IsFree (vcc on) = Unit
IsFree pmu_seen = Unit
IsFree vcc_seen = Unit
IsFree (pixel a v) = Unit
IsFree (secure_call f) = Unit

abbrev pub IsPma : Access → Type 0
IsPma (pma a v) = Unit
IsPma (pma_seen a) = Unit
IsPma (hci a v) = ⊥
IsPma (unipro a v) = ⊥
IsPma (attr a v) = ⊥
IsPma (peer a v) = ⊥
IsPma (attr_seen a) = ⊥
IsPma (pause us) = ⊥
IsPma (ufsp a v) = ⊥
IsPma (phy_power on) = ⊥
IsPma coherency = ⊥
IsPma (vcc on) = ⊥
IsPma pmu_seen = ⊥
IsPma vcc_seen = ⊥
IsPma (pixel a v) = ⊥
IsPma (secure_call f) = ⊥

-- Logs, newest first, in which the PHY clock runs for each PMA access and is stopped right after.
pub data Bracketed : List Access → Type 0 where
  nothing : Bracketed []
  free : {a : Access} {l : List Access} → IsFree a → Bracketed l → Bracketed (a ∷ l)
  bracket :
      {a : Access} {l : List Access} (c : ℕ)
      → IsPma a
      → Bracketed l
      → Bracketed (
          hci clkstop_ctrl (bit_or c apbclk_stop)
          ∷ a
          ∷ hci clkstop_ctrl (bit_and c (2 ^ 32 - 1 - apbclk_stop))
          ∷ l)

abbrev lock_free : Layer → Bool
lock_free pll_wait = false
lock_free cdr_wait = false
lock_free cdr_afc_wait = true
lock_free l = true

-- The layer that may fail: the wait for the CDR.
abbrev may_fail : Layer → Bool
may_fail pll_wait = true
may_fail cdr_wait = true
may_fail cdr_afc_wait = true
may_fail l = false

abbrev pub any_may_fail : List PhyCfg → Bool
any_may_fail [] = false
any_may_fail (c ∷ rest) = may_fail c.lyr || any_may_fail rest

-- How a run ends that fails only if `b` says that it may.
abbrev pub Ends : Bool → CalErrno → Type 0
Ends true e = Unit
Ends false e = e ≡ no_error

Ends-no_error : (b : Bool) → Ends b no_error
Ends-no_error true = tt
Ends-no_error false = refl

Ends-left : (b c : Bool) (e : CalErrno) → Ends b e → Ends (b || c) e
Ends-left true c e h = tt
Ends-left false c e h = rw h (Ends-no_error c)

Ends-right : (b c : Bool) (e : CalErrno) → Ends c e → Ends (b || c) e
Ends-right true c e h = tt
Ends-right false c e h = h

abbrev pub all_lock_free : List PhyCfg → Bool
all_lock_free [] = true
all_lock_free (c ∷ rest) = lock_free c.lyr && all_lock_free rest

true≢false : (true ≡ false) → ⊥
true≢false e = cc

&&_both : (a b : Bool) → a && b ≡ true → (a ≡ true) × (b ≡ true)
&&_both a b h = ground arith

module _ {World : Type 0} (host : Host World) where
  -- The run comes back, with the log bracketed if it was, and fails only if `b` says that it may.
  abbrev pub Orderly : Bool → Loop (S host) CalErrno → S host → Type 0
  Orderly b m s =
      (r : CalErrno × S host) × (m s ≡ some r) × (Bracketed s.log → Bracketed r.1.log) × Ends b r.0

  Orderly-|| :
      (b c : Bool) (m : Loop (S host) CalErrno) (s : S host)
      → Orderly b m s ⊎ Orderly c m s
      → Orderly (b || c) m s
  Orderly-|| b c m s (inl (r, run, keeps, ends)) = (r, run, keeps, Ends-left b c r.0 ends)
  Orderly-|| b c m s (inr (r, run, keeps, ends)) = (r, run, keeps, Ends-right b c r.0 ends)

  afc_rounds-Bracketed :
      (n addr mask lane : ℕ) (s : S host)
      → Bracketed s.log
      → Bracketed (afc_rounds host n addr mask lane s).1.log
  unfolding afc_rounds
  afc_rounds-Bracketed zero addr mask lane s b = b
  afc_rounds-Bracketed (suc n) addr mask lane s b =
      let (reg, t) = pma_read host (trsv_addr addr lane) (usleep host 40 s).1 in
      let u = (usleep host 1 t).1 in
      let v = (pma_write host 0x7f (trsv_addr 0xf0 lane) u).1 in
      let w = (pma_write host 0xff (trsv_addr 0xf0 lane) v).1 in
      let bt : Bracketed t.log = bracket _ tt (free tt b) in
      elim (Bool-cases (mask == bit_and reg mask)) [
        | inl ok ↦ rw ok bt
        | inr again ↦
            rw again
              (afc_rounds-Bracketed n addr mask lane w (bracket _ tt (bracket _ tt (free tt bt))))
      ]

  wait_cdr_afc_check-Bracketed :
      (addr mask lane : ℕ) (s : S host)
      → Bracketed s.log
      → Bracketed (wait_cdr_afc_check host addr mask lane s).1.log
  unfolding wait_cdr_afc_check
  wait_cdr_afc_check-Bracketed = afc_rounds-Bracketed 100

  on_lane-Orderly :
      (b : Bool) (n i : ℕ) (act : Loop (S host) CalErrno) (s : S host)
      → Orderly b act s
      → Orderly b (on_lane host n i act) s
  on_lane-Orderly b n i act s h = elim (Bool-cases (i == n)) [
    | inl here ↦ rw here h
    | inr not_here ↦ rw not_here (_, refl, λ l. l, Ends-no_error b)
  ]

  by_layer-Orderly :
      (fuel : ℕ) (p : CalParam) (l : Layer) (c : PhyCfg) (i : ℕ) (s : S host)
      → lock_free l ≡ true
      → Orderly (may_fail l) (by_layer host fuel p l c i) s
  unfolding by_layer
  by_layer-Orderly fuel p pcs_comn c i s h =
      on_lane-Orderly false 0 i (λ t. then_fine host (dme_set host (uic_arg_mib c.addr) c.val t)) s
        (_, refl, free tt, refl)
  by_layer-Orderly fuel p unipro_std_mib c i s h =
      on_lane-Orderly false 0 i (λ t. then_fine host (dme_set host (uic_arg_mib c.addr) c.val t)) s
        (_, refl, free tt, refl)
  by_layer-Orderly fuel p unipro_dbg_mib c i s h =
      on_lane-Orderly false 0 i (λ t. then_fine host (dme_set host (uic_arg_mib c.addr) c.val t)) s
        (_, refl, free tt, refl)
  by_layer-Orderly fuel p unipro_dbg_prd c i s h =
      on_lane-Orderly false 0 i
        (λ t. then_fine host (dme_set host (uic_arg_mib c.addr) (unipro_mclk_period p) t)) s
        (_, refl, free tt, refl)
  by_layer-Orderly fuel p common_wait c i s h =
      on_lane-Orderly false 0 i (λ t. then_fine host (usleep host c.val t)) s
        (_, refl, free tt, refl)
  by_layer-Orderly fuel p pma_comn c i s h =
      on_lane-Orderly false 0 i (λ t. then_fine host (pma_write host c.val c.addr t)) s
        (_, refl, bracket _ tt, refl)
  by_layer-Orderly fuel p pma_trsv_lane1_sq_off c i s h =
      on_lane-Orderly false 1 i (λ t. then_fine host (pma_write host c.val (trsv_addr c.addr i) t))
        s (_, refl, bracket _ tt, refl)
  by_layer-Orderly fuel p pcs_rxtx c i s h = (_, refl, free tt, refl)
  by_layer-Orderly fuel p pcs_rx c i s h = (_, refl, free tt, refl)
  by_layer-Orderly fuel p pcs_tx c i s h = (_, refl, free tt, refl)
  by_layer-Orderly fuel p pcs_rx_prd c i s h = (_, refl, free tt, refl)
  by_layer-Orderly fuel p pcs_tx_prd c i s h = (_, refl, free tt, refl)
  by_layer-Orderly fuel p unipro_dbg_apb c i s h = (_, refl, free tt, refl)
  by_layer-Orderly fuel p pma_trsv c i s h = (_, refl, bracket _ tt, refl)
  by_layer-Orderly fuel p cdr_afc_wait c i s h =
      (_, refl, wait_cdr_afc_check-Bracketed c.addr c.val i s, tt)
  by_layer-Orderly fuel p cfg_none c i s h = (_, refl, λ l. l, refl)
  by_layer-Orderly fuel p pll_wait c i s h = absurd (true≢false (sym h))
  by_layer-Orderly fuel p cdr_wait c i s h = absurd (true≢false (sym h))

  unless_failed-Orderly :
      (b : Bool) (e : CalErrno) (act : Loop (S host) CalErrno) (s : S host)
      → Orderly b act s
      → Orderly b (unless_failed host e act) s
  unless_failed-Orderly b no_error act s h = h
  unless_failed-Orderly b timeout act s h = h
  unless_failed-Orderly b inv_arg act s h = h
  unless_failed-Orderly b failed act s h = (_, refl, λ l. l, Ends-no_error b)

  and_go_on-Orderly :
      (b : Bool) (m rest : Loop (S host) CalErrno) (s : S host)
      → Orderly b m s
      → ((t : S host) → Orderly b rest t)
      → Orderly b (λ t. and_go_on host (m t) rest) s
  and_go_on-Orderly b m rest s ((no_error, t), run, keeps, ends) h =
      let (r, e, k, last) = h t in (r, rw run e, λ l. k (keeps l), last)
  and_go_on-Orderly b m rest s ((timeout, t), run, keeps, ends) h =
      ((timeout, t), rw run refl, keeps, ends)
  and_go_on-Orderly b m rest s ((failed, t), run, keeps, ends) h =
      ((failed, t), rw run refl, keeps, ends)
  and_go_on-Orderly b m rest s ((inv_arg, t), run, keeps, ends) h =
      ((inv_arg, t), rw run refl, keeps, ends)

  lanes-Orderly :
      (fuel : ℕ) (p : CalParam) (pmd : Option PwrMode) (c : PhyCfg) (n i : ℕ) (s : S host)
      → lock_free c.lyr ≡ true
      → Orderly (may_fail c.lyr) (lanes host fuel p pmd c n i) s
  unfolding lanes entry
  lanes-Orderly fuel p pmd c zero i s h = (_, refl, λ l. l, Ends-no_error (may_fail c.lyr))
  lanes-Orderly fuel p pmd c (suc n) i s h =
      let b = may_fail c.lyr in
      let act = by_layer host fuel p c.lyr c i in
      and_go_on-Orderly b (entry host fuel p pmd c i) (lanes host fuel p pmd c n (suc i)) s
        (unless_failed-Orderly b (match_board p.board c.board)
          (unless_failed host (mode_fits host pmd c) act) s
          (unless_failed-Orderly b (mode_fits host pmd c) act s
            (by_layer-Orderly fuel p c.lyr c i s h)))
        (λ t. lanes-Orderly fuel p pmd c n (suc i) t h)

  entries-Orderly :
      (fuel : ℕ) (p : CalParam) (pmd : Option PwrMode) (table : List PhyCfg) (s : S host)
      → all_lock_free table ≡ true
      → Orderly (any_may_fail table) (entries host fuel p pmd table) s
  unfolding entries
  entries-Orderly fuel p pmd [] s h = (_, refl, λ l. l, refl)
  entries-Orderly fuel p pmd (c ∷ rest) s h =
      let (first, others) = &&_both (lock_free c.lyr) (all_lock_free rest) h in
      let b = may_fail c.lyr in
      let walk = lanes host fuel p pmd c p.target_lane 0 in
      let next = entries host fuel p pmd rest in
      and_go_on-Orderly (b || any_may_fail rest) walk next s
        (Orderly-|| b (any_may_fail rest) walk s
          (inl (lanes-Orderly fuel p pmd c p.target_lane 0 s first)))
        (λ t.
          Orderly-|| b (any_may_fail rest) next t (inr (entries-Orderly fuel p pmd rest t others)))

  pub config_uic-Orderly :
      (fuel : ℕ) (p : CalParam) (pmd : Option PwrMode) (table : List PhyCfg) (s : S host)
      → all_lock_free table ≡ true
      → Orderly (any_may_fail table) (config_uic host fuel p (some table) pmd) s
  unfolding config_uic
  config_uic-Orderly fuel p pmd table s h = entries-Orderly fuel p pmd table s h
