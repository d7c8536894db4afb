-- ===== src/Ufs/Plan.antt =====
-- What a table of src/ufs/ufs-cal-9810.c asks of the host, as a list of commands, and what it
-- is to carry them out.
pub mod Walk
use galaxy_s9plus_mainline_l.Common.{
  ℕ, zero, suc, ◌+◌, ◌/◌, ◌≡◌, refl, sym, ap, ◌∙◌, Bool, true, false, Bool-cases, ◌&&◌, ◌||◌, List,
  [], ◌∷◌, ◌++◌, Option, none, some, ◌==◌, inl, inr, if◌then◌else◌,
}
use galaxy_s9plus_mainline_l.Platform.Monad.Loop.{Loop}
use galaxy_s9plus_mainline_l.Ufs.{
  Host, S, PwrMode, CalParam, CalErrno, no_error, timeout, failed, inv_arg, dme_set, pma_write,
  unipro_write, usleep,
}
use galaxy_s9plus_mainline_l.Ufs.Tables.{
  PhyCfg, Layer, cfg_none, pcs_comn, pcs_rxtx, pma_comn, pma_trsv, pll_wait, cdr_wait, cdr_afc_wait,
  unipro_std_mib, unipro_dbg_mib, unipro_dbg_apb, pcs_rx, pcs_tx, pcs_rx_prd, pcs_tx_prd,
  unipro_dbg_prd, pma_trsv_lane1_sq_off, common_wait,
}
use galaxy_s9plus_mainline_l.Ufs.Match.{match_board, match_mode}
use galaxy_s9plus_mainline_l.Ufs.Uic.{
  uic_arg_mib, uic_arg_mib_sel, unipro_mclk_period, trsv_addr, tx_lane_0, rx_lane_0,
  wait_cdr_afc_check, wait_pll_lock, wait_cdr_lock, wait_result, on_loop, then_fine, by_layer,
  mode_fits, entry, and_go_on, unless_failed, lanes, entries, config_uic,
}

pub data Command : Type 0 where
  set_mib : ℕ → ℕ → Command
  set_phy : ℕ → ℕ → Command
  set_apb : ℕ → ℕ → Command
  sleep : ℕ → Command
  await_pll : ℕ → ℕ → Command
  await_cdr : ℕ → ℕ → ℕ → Command
  await_afc : ℕ → ℕ → ℕ → Command

abbrev pub only : Bool → Command → List Command
only true c = c ∷ []
only false c = []

-- `period` is the UniPro clock period of the host.
abbrev pub lane_plan : ℕ → Layer → PhyCfg → ℕ → List Command
lane_plan period pcs_comn c i = only (i == 0) (set_mib (uic_arg_mib c.addr) c.val)
lane_plan period unipro_std_mib c i = only (i == 0) (set_mib (uic_arg_mib c.addr) c.val)
lane_plan period unipro_dbg_mib c i = only (i == 0) (set_mib (uic_arg_mib c.addr) c.val)
lane_plan period unipro_dbg_prd c i = only (i == 0) (set_mib (uic_arg_mib c.addr) period)
lane_plan period pcs_rxtx c i = set_mib (uic_arg_mib_sel c.addr i) c.val ∷ []
lane_plan period pcs_rx c i = set_mib (uic_arg_mib_sel c.addr (rx_lane_0 + i)) c.val ∷ []
lane_plan period pcs_tx c i = set_mib (uic_arg_mib_sel c.addr (tx_lane_0 + i)) c.val ∷ []
lane_plan period pcs_rx_prd c i = set_mib (uic_arg_mib_sel c.addr (rx_lane_0 + i)) period ∷ []
lane_plan period pcs_tx_prd c i = set_mib (uic_arg_mib_sel c.addr (tx_lane_0 + i)) period ∷ []
lane_plan period pma_comn c i = only (i == 0) (set_phy c.addr c.val)
lane_plan period pma_trsv c i = set_phy (trsv_addr c.addr i) c.val ∷ []
lane_plan period pma_trsv_lane1_sq_off c i = only (i == 1) (set_phy (trsv_addr c.addr i) c.val)
lane_plan period unipro_dbg_apb c i = set_apb c.addr c.val ∷ []
lane_plan period common_wait c i = only (i == 0) (sleep c.val)
lane_plan period pll_wait c i = only (i == 0) (await_pll c.addr c.val)
lane_plan period cdr_wait c i = await_cdr c.addr c.val i ∷ []
lane_plan period cdr_afc_wait c i = await_afc c.addr c.val i ∷ []
lane_plan period cfg_none c i = []

abbrev pub fine : CalErrno → Bool
fine failed = false
fine no_error = true
fine timeout = true
fine inv_arg = true

abbrev pub applies : CalParam → Option PwrMode → PhyCfg → Bool
applies p pmd c =
    fine (match_board p.board c.board)
    && elim pmd [ none ↦ true | some m ↦ fine (match_mode m c.flg) ]

abbrev pub lanes_plan : ℕ → PhyCfg → ℕ → ℕ → List Command
lanes_plan period c zero i = []
lanes_plan period c (suc n) i = lane_plan period c.lyr c i ++ lanes_plan period c n (suc i)

abbrev pub entry_plan : CalParam → Option PwrMode → PhyCfg → List Command
entry_plan p pmd c =
    if applies p pmd c then lanes_plan (unipro_mclk_period p) c p.target_lane 0 else []

abbrev pub plan : CalParam → Option PwrMode → List PhyCfg → List Command
plan p pmd [] = []
plan p pmd (c ∷ rest) = entry_plan p pmd c ++ plan p pmd rest

module _ {World : Type 0} (host : Host World) (fuel : ℕ) where
  unfoldable pub perform : Command → Loop (S host) CalErrno
  perform (set_mib a v) s = some (no_error, (dme_set host a v s).1)
  perform (set_phy a v) s = some (no_error, (pma_write host v a s).1)
  perform (set_apb a v) s = some (no_error, (unipro_write host v a s).1)
  perform (sleep us) s = some (no_error, (usleep host us s).1)
  perform (await_pll a v) s = on_loop host (wait_pll_lock host fuel a v s)
  perform (await_cdr a v i) s = on_loop host (wait_cdr_lock host fuel a v i s)
  perform (await_afc a v i) s = on_loop host (some (wait_cdr_afc_check host a v i s))

  -- The commands in order, up to the first that does not succeed.
  unfoldable pub carry_out : List Command → Loop (S host) CalErrno
  carry_out [] s = some (no_error, s)
  carry_out (c ∷ rest) s = and_go_on host (perform c s) (carry_out rest)
