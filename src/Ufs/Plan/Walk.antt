-- ===== src/Ufs/Plan/Walk.antt =====
-- How ufs_cal_config_uic of src/ufs/ufs-cal-9810.c carries out the plan of a table.
use galaxy_s9plus_mainline_l.Common.{
  ℕ, zero, suc, ◌+◌, ◌≡◌, refl, sym, ap, ◌∙◌, Bool, true, false, Bool-cases, ◌&&◌, List, [], ◌∷◌,
  ◌++◌, Option, none, some, ◌==◌, inl, inr, if◌then◌else◌,
}
use galaxy_s9plus_mainline_l.Platform.Monad.Loop.{Loop}
use galaxy_s9plus_mainline_l.Ufs.{
  Host, S, PwrMode, CalParam, CalErrno, no_error, timeout, failed, inv_arg,
}
use galaxy_s9plus_mainline_l.Ufs.Tables.{
  PhyCfg, Layer, cfg_none, pcs_comn, pcs_rxtx, pma_comn, pma_trsv, pll_wait, cdr_wait, cdr_afc_wait,
  unipro_std_mib, unipro_dbg_mib, unipro_dbg_apb, pcs_rx, pcs_tx, pcs_rx_prd, pcs_tx_prd,
  unipro_dbg_prd, pma_trsv_lane1_sq_off, common_wait,
}
use galaxy_s9plus_mainline_l.Ufs.Match.{match_board, match_mode}
use galaxy_s9plus_mainline_l.Ufs.Uic.{
  uic_arg_mib, uic_arg_mib_sel, unipro_mclk_period, trsv_addr, tx_lane_0, rx_lane_0, by_layer,
  entry, and_go_on, unless_failed, lanes, entries, config_uic,
}
use galaxy_s9plus_mainline_l.Ufs.Plan.{
  Command, set_mib, set_phy, set_apb, sleep, await_pll, await_cdr, await_afc, only, lane_plan, fine,
  applies, lanes_plan, entry_plan, plan, perform, carry_out,
}

module _ {World : Type 0} (host : Host World) (fuel : ℕ) where
  and_go_on_assoc :
      (o : Option (CalErrno × S host)) (f g : Loop (S host) CalErrno)
      → and_go_on host (and_go_on host o f) g ≡ and_go_on host o (λ s. and_go_on host (f s) g)
  and_go_on_assoc none f g = refl
  and_go_on_assoc (some (no_error, s)) f g = refl
  and_go_on_assoc (some (timeout, s)) f g = refl
  and_go_on_assoc (some (failed, s)) f g = refl
  and_go_on_assoc (some (inv_arg, s)) f g = refl

  and_go_on_end : (o : Option (CalErrno × S host)) → and_go_on host o (λ s. some (no_error, s)) ≡ o
  and_go_on_end none = refl
  and_go_on_end (some (no_error, s)) = refl
  and_go_on_end (some (timeout, s)) = refl
  and_go_on_end (some (failed, s)) = refl
  and_go_on_end (some (inv_arg, s)) = refl

  carry_out-++ :
      (xs ys : List Command) (s : S host)
      → carry_out host fuel (xs ++ ys) s
        ≡ and_go_on host (carry_out host fuel xs s) (carry_out host fuel ys)
  unfolding carry_out
  carry_out-++ [] ys s = refl
  carry_out-++ (c ∷ xs) ys s =
      ap (and_go_on host (perform host fuel c s)) (λ i t. carry_out-++ xs ys t i)
      ∙ sym (
          and_go_on_assoc (perform host fuel c s) (carry_out host fuel xs) (carry_out host fuel ys))

  carry_out-only :
      (b : Bool) (c : Command) (s : S host)
      → (if b then perform host fuel c s else some (no_error, s)) ≡ carry_out host fuel (only b c) s
  unfolding carry_out
  carry_out-only true c s = sym (and_go_on_end (perform host fuel c s))
  carry_out-only false c s = refl

  carry_out_nothing : (s : S host) → carry_out host fuel [] s ≡ some (no_error, s)
  unfolding carry_out
  carry_out_nothing s = refl

  unless_failed-fine :
      (a : CalErrno) (act : Loop (S host) CalErrno) (s : S host)
      → unless_failed host a act s ≡ (if fine a then act s else some (no_error, s))
  unless_failed-fine no_error act s = refl
  unless_failed-fine timeout act s = refl
  unless_failed-fine failed act s = refl
  unless_failed-fine inv_arg act s = refl

  if_both :
      (a b : Bool) (x y : Option (CalErrno × S host))
      → (if a then (if b then x else y) else y) ≡ (if a && b then x else y)
  if_both true b x y = refl
  if_both false b x y = refl

  entry_lem :
      (p : CalParam) (pmd : Option PwrMode) (c : PhyCfg) (i : ℕ) (s : S host)
      → entry host fuel p pmd c i s
        ≡ (if applies p pmd c then by_layer host fuel p c.lyr c i s else some (no_error, s))
  unfolding entry
  entry_lem p none c i s =
      unless_failed-fine (match_board p.board c.board) (by_layer host fuel p c.lyr c i) s
      ∙ if_both (fine (match_board p.board c.board)) true _ _
  entry_lem p (some m) c i s =
      let act = by_layer host fuel p c.lyr c i in
      unless_failed-fine (match_board p.board c.board) (unless_failed host (match_mode m c.flg) act)
        s
      ∙ ap (λ o. if fine (match_board p.board c.board) then o else some (no_error, s))
          (unless_failed-fine (match_mode m c.flg) act s)
      ∙ if_both (fine (match_board p.board c.board)) (fine (match_mode m c.flg)) _ _

  skipped_entry :
      (p : CalParam) (pmd : Option PwrMode) (c : PhyCfg) (i : ℕ) (s : S host)
      → applies p pmd c ≡ false
      → entry host fuel p pmd c i s ≡ some (no_error, s)
  skipped_entry p pmd c i s no_match = entry_lem p pmd c i s ∙ rw no_match refl

  taken_entry :
      (p : CalParam) (pmd : Option PwrMode) (c : PhyCfg) (i : ℕ) (s : S host)
      → applies p pmd c ≡ true
      → entry host fuel p pmd c i s ≡ by_layer host fuel p c.lyr c i s
  taken_entry p pmd c i s fits = entry_lem p pmd c i s ∙ rw fits refl

  by_layer_lem :
      (p : CalParam) (l : Layer) (c : PhyCfg) (i : ℕ) (s : S host)
      → by_layer host fuel p l c i s
        ≡ carry_out host fuel (lane_plan (unipro_mclk_period p) l c i) s
  unfolding by_layer perform carry_out
  by_layer_lem p pcs_comn c i s = carry_out-only (i == 0) (set_mib (uic_arg_mib c.addr) c.val) s
  by_layer_lem p unipro_std_mib c i s =
      carry_out-only (i == 0) (set_mib (uic_arg_mib c.addr) c.val) s
  by_layer_lem p unipro_dbg_mib c i s =
      carry_out-only (i == 0) (set_mib (uic_arg_mib c.addr) c.val) s
  by_layer_lem p unipro_dbg_prd c i s =
      carry_out-only (i == 0) (set_mib (uic_arg_mib c.addr) (unipro_mclk_period p)) s
  by_layer_lem p pma_comn c i s = carry_out-only (i == 0) (set_phy c.addr c.val) s
  by_layer_lem p common_wait c i s = carry_out-only (i == 0) (sleep c.val) s
  by_layer_lem p pll_wait c i s = carry_out-only (i == 0) (await_pll c.addr c.val) s
  by_layer_lem p pma_trsv_lane1_sq_off c i s =
      carry_out-only (i == 1) (set_phy (trsv_addr c.addr i) c.val) s
  by_layer_lem p pcs_rxtx c i s = carry_out-only true (set_mib (uic_arg_mib_sel c.addr i) c.val) s
  by_layer_lem p pcs_rx c i s =
      carry_out-only true (set_mib (uic_arg_mib_sel c.addr (rx_lane_0 + i)) c.val) s
  by_layer_lem p pcs_tx c i s =
      carry_out-only true (set_mib (uic_arg_mib_sel c.addr (tx_lane_0 + i)) c.val) s
  by_layer_lem p pcs_rx_prd c i s =
      carry_out-only true (set_mib (uic_arg_mib_sel c.addr (rx_lane_0 + i)) (unipro_mclk_period p))
        s
  by_layer_lem p pcs_tx_prd c i s =
      carry_out-only true (set_mib (uic_arg_mib_sel c.addr (tx_lane_0 + i)) (unipro_mclk_period p))
        s
  by_layer_lem p pma_trsv c i s = carry_out-only true (set_phy (trsv_addr c.addr i) c.val) s
  by_layer_lem p unipro_dbg_apb c i s = carry_out-only true (set_apb c.addr c.val) s
  by_layer_lem p cdr_wait c i s = carry_out-only true (await_cdr c.addr c.val i) s
  by_layer_lem p cdr_afc_wait c i s = carry_out-only true (await_afc c.addr c.val i) s
  by_layer_lem p cfg_none c i s = carry_out_nothing s

  skipped_lanes :
      (p : CalParam) (pmd : Option PwrMode) (c : PhyCfg) (n i : ℕ) (s : S host)
      → applies p pmd c ≡ false
      → lanes host fuel p pmd c n i s ≡ some (no_error, s)
  unfolding lanes
  skipped_lanes p pmd c zero i s no_match = refl
  skipped_lanes p pmd c (suc n) i s no_match =
      ap (λ o. and_go_on host o (lanes host fuel p pmd c n (suc i)))
        (skipped_entry p pmd c i s no_match)
      ∙ skipped_lanes p pmd c n (suc i) s no_match

  taken_lanes :
      (p : CalParam) (pmd : Option PwrMode) (c : PhyCfg) (n i : ℕ) (s : S host)
      → applies p pmd c ≡ true
      → lanes host fuel p pmd c n i s
        ≡ carry_out host fuel (lanes_plan (unipro_mclk_period p) c n i) s
  unfolding lanes carry_out
  taken_lanes p pmd c zero i s fits = refl
  taken_lanes p pmd c (suc n) i s fits =
      ap (λ o. and_go_on host o (lanes host fuel p pmd c n (suc i)))
        (taken_entry p pmd c i s fits ∙ by_layer_lem p c.lyr c i s)
      ∙ ap (and_go_on host (carry_out host fuel (lane_plan (unipro_mclk_period p) c.lyr c i) s))
          (λ k t. taken_lanes p pmd c n (suc i) t fits k)
      ∙ sym (
          carry_out-++ (lane_plan (unipro_mclk_period p) c.lyr c i)
            (lanes_plan (unipro_mclk_period p) c n (suc i)) s)

  lanes_lem :
      (p : CalParam) (pmd : Option PwrMode) (c : PhyCfg) (s : S host)
      → lanes host fuel p pmd c p.target_lane 0 s ≡ carry_out host fuel (entry_plan p pmd c) s
  lanes_lem p pmd c s = elim (Bool-cases (applies p pmd c)) [
    | inl fits ↦ rw fits (taken_lanes p pmd c p.target_lane 0 s fits)
    | inr no_match ↦
        rw no_match (skipped_lanes p pmd c p.target_lane 0 s no_match ∙ sym (carry_out_nothing s))
  ]

  entries_lem :
      (p : CalParam) (pmd : Option PwrMode) (table : List PhyCfg) (s : S host)
      → entries host fuel p pmd table s ≡ carry_out host fuel (plan p pmd table) s
  unfolding entries carry_out
  entries_lem p pmd [] s = refl
  entries_lem p pmd (c ∷ rest) s =
      ap (λ o. and_go_on host o (entries host fuel p pmd rest)) (lanes_lem p pmd c s)
      ∙ ap (and_go_on host (carry_out host fuel (entry_plan p pmd c) s))
          (λ k t. entries_lem p pmd rest t k)
      ∙ sym (carry_out-++ (entry_plan p pmd c) (plan p pmd rest) s)

  -- Walking a table does what the table's plan says, in the plan's order: entries that are not for
  -- this board or link mode are left out, the others are done once for each lane, and the walk
  -- stops at the first wait that fails.
  pub config_uic-plan :
      (p : CalParam) (pmd : Option PwrMode) (table : List PhyCfg) (s : S host)
      → config_uic host fuel p (some table) pmd s ≡ carry_out host fuel (plan p pmd table) s
  unfolding config_uic
  config_uic-plan p pmd table s = entries_lem p pmd table s
