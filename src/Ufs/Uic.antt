-- ===== src/Ufs/Uic.antt =====
-- The busy waits of src/ufs/ufs-cal-9810.c and the walk over a table. The waits for a lock have no
-- bound of their own, so each takes fuel; `none` means that it ran out.
pub mod Waits
pub mod Brackets
use galaxy_s9plus_mainline_l.Common.{
  ℕ, zero, suc, ◌+◌, ◌-◌, ◌*◌, ◌/◌, ◌%◌, ◌^◌, Bool, List, [], ◌∷◌, Option, none, some, ◌==◌, ltb,
  if◌then◌else◌, bit_and,
}
use galaxy_s9plus_mainline_l.Platform.{M, ◌>>=◌, ◌>>◌, pure}
use galaxy_s9plus_mainline_l.Platform.Monad.Loop.{Loop, lift}
use galaxy_s9plus_mainline_l.Ufs.{
  Host, S, PwrMode, CalParam, CalErrno, no_error, timeout, failed, inv_arg, dme_set, pma_write,
  pma_read, unipro_write, usleep, get_time_count,
}
use galaxy_s9plus_mainline_l.Ufs.Tables.{
  PhyCfg, Layer, cfg_none, pcs_comn, pcs_rxtx, pma_comn, pma_trsv, pll_wait, cdr_wait, cdr_afc_wait,
  unipro_std_mib, unipro_dbg_mib, unipro_dbg_apb, pcs_rx, pcs_tx, pcs_rx_prd, pcs_tx_prd,
  unipro_dbg_prd, pma_trsv_lane1_sq_off, common_wait,
}
use galaxy_s9plus_mainline_l.Ufs.Match.{match_board, match_mode}

abbrev pub uic_arg_mib_sel : ℕ → ℕ → ℕ
uic_arg_mib_sel attr sel = attr % 2 ^ 16 * 2 ^ 16 + sel % 2 ^ 16

abbrev pub uic_arg_mib : ℕ → ℕ
uic_arg_mib attr = uic_arg_mib_sel attr 0

abbrev pub unipro_mclk_period : CalParam → ℕ
unipro_mclk_period p = 1000000000 / p.mclk_rate

abbrev pub trsv_addr : ℕ → ℕ → ℕ
trsv_addr reg lane = (reg + 0x140 * lane) % 2 ^ 32

abbrev pub tx_lane_0 : ℕ
tx_lane_0 = 0

abbrev pub rx_lane_0 : ℕ
rx_lane_0 = 4

-- `(long)(time - timeout) >= 0` on 64-bit words.
abbrev pub time_left : ℕ → ℕ → Bool
time_left time end = ltb ((time % 2 ^ 64 + 2 ^ 64 - end % 2 ^ 64) % 2 ^ 64) (2 ^ 63)

module _ {World : Type 0} (host : Host World) where
  -- The rest of ufs_cal_wait_cdr_afc_check with `n` rounds to go.
  unfoldable pub afc_rounds : ℕ → ℕ → ℕ → ℕ → M (S host) CalErrno
  afc_rounds zero addr mask lane s = (failed, s)
  afc_rounds (suc n) addr mask lane s =
      let (reg, t) = pma_read host (trsv_addr addr lane) (usleep host 40 s).1 in
      let u = (usleep host 1 t).1 in
      let v = (pma_write host 0x7f (trsv_addr 0xf0 lane) u).1 in
      let w = (pma_write host 0xff (trsv_addr 0xf0 lane) v).1 in
      let rest = afc_rounds n addr mask lane w in
      if mask == bit_and reg mask then (no_error, t) else rest

  unfoldable pub wait_cdr_afc_check : ℕ → ℕ → ℕ → M (S host) CalErrno
  wait_cdr_afc_check = afc_rounds 100

  -- The do-while loop of ufs_cal_wait_pll_lock and ufs_cal_wait_cdr_lock at the address `addr`.
  unfoldable pub lock_rounds : ℕ → ℕ → ℕ → ℕ → Loop (S host) CalErrno
  lock_rounds zero addr mask end s = none
  lock_rounds (suc fuel) addr mask end s =
      let (reg, t) = pma_read host addr s in
      let u = (usleep host 1 t).1 in
      let rest = lock_rounds fuel addr mask end u in
      if mask == bit_and reg mask
      then some (no_error, t)
      else if time_left (get_time_count host 1 u) end
      then rest
      else some (failed, u)

  unfoldable pub wait_pll_lock : ℕ → ℕ → ℕ → Loop (S host) CalErrno
  wait_pll_lock fuel addr mask s =
      lock_rounds fuel addr mask ((get_time_count host 0 s + s.lock_timeout) % 2 ^ 64) s

  unfoldable pub wait_cdr_lock : ℕ → ℕ → ℕ → ℕ → Loop (S host) CalErrno
  wait_cdr_lock fuel addr mask lane s =
      lock_rounds fuel (trsv_addr addr lane) mask
        ((get_time_count host 0 s + s.lock_timeout) % 2 ^ 64) s

  -- A wait that fails is a time-out of the walk.
  abbrev pub wait_result : CalErrno → CalErrno
  wait_result no_error = no_error
  wait_result timeout = no_error
  wait_result failed = timeout
  wait_result inv_arg = no_error

  abbrev pub on_loop : Option (CalErrno × S host) → Option (CalErrno × S host)
  on_loop none = none
  on_loop (some (e, s)) = some (wait_result e, s)

  abbrev pub then_fine : Unit {0} × S host → Option (CalErrno × S host)
  then_fine (x, s) = some (no_error, s)

  abbrev pub on_lane : ℕ → ℕ → Loop (S host) CalErrno → Loop (S host) CalErrno
  on_lane n i act s = if i == n then act s else some (no_error, s)

  -- The switch on the layer, for the lane `i`.
  unfoldable pub by_layer : ℕ → CalParam → Layer → PhyCfg → ℕ → Loop (S host) CalErrno
  by_layer fuel p pcs_comn c i s =
      on_lane 0 i (λ t. then_fine (dme_set host (uic_arg_mib c.addr) c.val t)) s
  by_layer fuel p unipro_std_mib c i s =
      on_lane 0 i (λ t. then_fine (dme_set host (uic_arg_mib c.addr) c.val t)) s
  by_layer fuel p unipro_dbg_mib c i s =
      on_lane 0 i (λ t. then_fine (dme_set host (uic_arg_mib c.addr) c.val t)) s
  by_layer fuel p pcs_rxtx c i s = then_fine (dme_set host (uic_arg_mib_sel c.addr i) c.val s)
  by_layer fuel p unipro_dbg_prd c i s =
      on_lane 0 i (λ t. then_fine (dme_set host (uic_arg_mib c.addr) (unipro_mclk_period p) t)) s
  by_layer fuel p pcs_rx c i s =
      then_fine (dme_set host (uic_arg_mib_sel c.addr (rx_lane_0 + i)) c.val s)
  by_layer fuel p pcs_tx c i s =
      then_fine (dme_set host (uic_arg_mib_sel c.addr (tx_lane_0 + i)) c.val s)
  by_layer fuel p pcs_rx_prd c i s =
      then_fine (dme_set host (uic_arg_mib_sel c.addr (rx_lane_0 + i)) (unipro_mclk_period p) s)
  by_layer fuel p pcs_tx_prd c i s =
      then_fine (dme_set host (uic_arg_mib_sel c.addr (tx_lane_0 + i)) (unipro_mclk_period p) s)
  by_layer fuel p pma_comn c i s = on_lane 0 i (λ t. then_fine (pma_write host c.val c.addr t)) s
  by_layer fuel p pma_trsv c i s = then_fine (pma_write host c.val (trsv_addr c.addr i) s)
  by_layer fuel p pma_trsv_lane1_sq_off c i s =
      on_lane 1 i (λ t. then_fine (pma_write host c.val (trsv_addr c.addr i) t)) s
  by_layer fuel p unipro_dbg_apb c i s = then_fine (unipro_write host c.val c.addr s)
  by_layer fuel p pll_wait c i s = on_lane 0 i (λ t. on_loop (wait_pll_lock fuel c.addr c.val t)) s
  by_layer fuel p cdr_wait c i s = on_loop (wait_cdr_lock fuel c.addr c.val i s)
  by_layer fuel p cdr_afc_wait c i s = on_loop (some (wait_cdr_afc_check c.addr c.val i s))
  by_layer fuel p common_wait c i s = on_lane 0 i (λ t. then_fine (usleep host c.val t)) s
  by_layer fuel p cfg_none c i s = some (no_error, s)

  -- `pmd && UFS_CAL_ERROR == __match_mode_by_cfg(pmd, cfg->flg)` does not hold.
  abbrev pub mode_fits : Option PwrMode → PhyCfg → CalErrno
  mode_fits none c = no_error
  mode_fits (some pmd) c = match_mode pmd c.flg

  abbrev pub unless_failed : CalErrno → Loop (S host) CalErrno → Loop (S host) CalErrno
  unless_failed failed act s = some (no_error, s)
  unless_failed no_error act s = act s
  unless_failed timeout act s = act s
  unless_failed inv_arg act s = act s

  -- One entry on one lane.
  unfoldable pub entry : ℕ → CalParam → Option PwrMode → PhyCfg → ℕ → Loop (S host) CalErrno
  entry fuel p pmd c i =
      unless_failed (match_board p.board c.board)
        (unless_failed (mode_fits pmd c) (by_layer fuel p c.lyr c i))

  -- What follows in the two loops, unless the wait before it timed out.
  abbrev pub and_go_on :
      Option (CalErrno × S host) → Loop (S host) CalErrno → Option (CalErrno × S host)
  and_go_on none rest = none
  and_go_on (some (no_error, s)) rest = rest s
  and_go_on (some (timeout, s)) rest = some (timeout, s)
  and_go_on (some (failed, s)) rest = some (failed, s)
  and_go_on (some (inv_arg, s)) rest = some (inv_arg, s)

  -- The lanes from `i` on, `n` of them.
  unfoldable pub lanes : ℕ → CalParam → Option PwrMode → PhyCfg → ℕ → ℕ → Loop (S host) CalErrno
  lanes fuel p pmd c zero i s = some (no_error, s)
  lanes fuel p pmd c (suc n) i s =
      let rest = lanes fuel p pmd c n (suc i) in and_go_on (entry fuel p pmd c i s) rest

  unfoldable pub entries : ℕ → CalParam → Option PwrMode → List PhyCfg → Loop (S host) CalErrno
  entries fuel p pmd [] s = some (no_error, s)
  entries fuel p pmd (c ∷ rest) s =
      and_go_on (lanes fuel p pmd c p.target_lane 0 s) (entries fuel p pmd rest)

  unfoldable pub config_uic :
      ℕ → CalParam → Option (List PhyCfg) → Option PwrMode → Loop (S host) CalErrno
  config_uic fuel p none pmd s = some (inv_arg, s)
  config_uic fuel p (some table) pmd s = entries fuel p pmd table s
