-- ===== src/Ufs/Tables.antt =====
-- The tables of src/ufs/ufs-cal-9810.c, without the empty entry that ends each, the link modes an
-- entry is for, and the layer it goes to.
use galaxy_s9plus_mainline_l.Common.{ℕ, ◌-◌, ◌^◌, List, [], ◌∷◌}
use Prim.Native.Nat.{bit_xor}

abbrev pub pmd_pwm_g1_l1 : ℕ
pmd_pwm_g1_l1 = 2 ^ 0

abbrev pub pmd_pwm_g1_l2 : ℕ
pmd_pwm_g1_l2 = 2 ^ 1

abbrev pub pmd_pwm_g2_l1 : ℕ
pmd_pwm_g2_l1 = 2 ^ 2

abbrev pub pmd_pwm_g2_l2 : ℕ
pmd_pwm_g2_l2 = 2 ^ 3

abbrev pub pmd_pwm_g3_l1 : ℕ
pmd_pwm_g3_l1 = 2 ^ 4

abbrev pub pmd_pwm_g3_l2 : ℕ
pmd_pwm_g3_l2 = 2 ^ 5

abbrev pub pmd_pwm_g4_l1 : ℕ
pmd_pwm_g4_l1 = 2 ^ 6

abbrev pub pmd_pwm_g4_l2 : ℕ
pmd_pwm_g4_l2 = 2 ^ 7

abbrev pub pmd_pwm_g5_l1 : ℕ
pmd_pwm_g5_l1 = 2 ^ 8

abbrev pub pmd_pwm_g5_l2 : ℕ
pmd_pwm_g5_l2 = 2 ^ 9

abbrev pub pmd_hs_g1_l1 : ℕ
pmd_hs_g1_l1 = 2 ^ 10

abbrev pub pmd_hs_g1_l2 : ℕ
pmd_hs_g1_l2 = 2 ^ 11

abbrev pub pmd_hs_g2_l1 : ℕ
pmd_hs_g2_l1 = 2 ^ 12

abbrev pub pmd_hs_g2_l2 : ℕ
pmd_hs_g2_l2 = 2 ^ 13

abbrev pub pmd_hs_g3_l1 : ℕ
pmd_hs_g3_l1 = 2 ^ 14

abbrev pub pmd_hs_g3_l2 : ℕ
pmd_hs_g3_l2 = 2 ^ 15

abbrev pub pmd_all : ℕ
pmd_all = pmd_hs_g3_l2 - 1

abbrev pub pmd_pwm : ℕ
pmd_pwm = pmd_pwm_g4_l2 - 1

abbrev pub pmd_hs : ℕ
pmd_hs = bit_xor pmd_all pmd_pwm

pub data Layer : Type 0 where
  cfg_none pcs_comn pcs_rxtx pma_comn pma_trsv pll_wait cdr_wait cdr_afc_wait : Layer
  unipro_std_mib unipro_dbg_mib unipro_dbg_apb : Layer
  pcs_rx pcs_tx pcs_rx_prd pcs_tx_prd unipro_dbg_prd pma_trsv_lane1_sq_off common_wait : Layer

pub record PhyCfg : Type 0 where
  pub addr : ℕ
  pub val : ℕ
  pub flg : ℕ
  pub lyr : Layer
  pub board : ℕ

abbrev cfg : ℕ → ℕ → ℕ → Layer → ℕ → PhyCfg
cfg a v f l b = record { addr = a; val = v; flg = f; lyr = l; board = b }

abbrev pub init_cfg : List PhyCfg
init_cfg =
    cfg 0x9514 0x00 pmd_all unipro_dbg_prd 0
    ∷ cfg 0x200 0x40 pmd_all pcs_comn 0
    ∷ cfg 0x12 0x00 pmd_all pcs_rx_prd 0
    ∷ cfg 0xaa 0x00 pmd_all pcs_tx_prd 0
    ∷ cfg 0x5c 0x38 pmd_all pcs_rx 0
    ∷ cfg 0x0f 0x0 pmd_all pcs_rx 0
    ∷ cfg 0x65 0x01 pmd_all pcs_rx 0
    ∷ cfg 0x69 0x01 pmd_all pcs_rx 0
    ∷ cfg 0x21 0x00 pmd_all pcs_rx 0
    ∷ cfg 0x22 0x00 pmd_all pcs_rx 0
    ∷ cfg 0x84 0x01 pmd_all pcs_rx 0
    ∷ cfg 0x04 0x01 pmd_all pcs_tx 0
    ∷ cfg 0x8f 0x3e pmd_all pcs_tx 0
    ∷ cfg 0x200 0x0 pmd_all pcs_comn 0
    ∷ cfg 0x9536 0x4e20 pmd_all unipro_dbg_mib 0
    ∷ cfg 0x9564 0x2e820183 pmd_all unipro_dbg_mib 0
    ∷ cfg 0x155e 0x0 pmd_all unipro_std_mib 0
    ∷ cfg 0x3000 0x0 pmd_all unipro_std_mib 0
    ∷ cfg 0x3001 0x1 pmd_all unipro_std_mib 0
    ∷ cfg 0x4021 0x1 pmd_all unipro_std_mib 0
    ∷ cfg 0x4020 0x1 pmd_all unipro_std_mib 0
    ∷ cfg 0x8c 0x80 pmd_all pma_comn 0
    ∷ cfg 0x74 0x10 pmd_all pma_comn 0
    ∷ cfg 0x110 0xb5 pmd_all pma_trsv 0
    ∷ cfg 0x134 0x43 pmd_all pma_trsv 0
    ∷ cfg 0x16c 0x20 pmd_all pma_trsv 0
    ∷ cfg 0x178 0xc0 pmd_all pma_trsv 0
    ∷ cfg 0xe0 0x12 pmd_all pma_trsv 0
    ∷ cfg 0x164 0x58 pmd_all pma_trsv 0
    ∷ cfg 0x1b0 0x18 pmd_all pma_trsv 0
    ∷ cfg 0x8c 0xc0 pmd_all pma_comn 0
    ∷ cfg 0x8c 0x00 pmd_all pma_comn 0
    ∷ cfg 0x00 0xc8 pmd_all common_wait 0
    ∷ []

abbrev pub post_init_cfg : List PhyCfg
post_init_cfg =
    cfg 0x9529 0x01 pmd_all unipro_dbg_mib 0
    ∷ cfg 0x15a4 0xfa pmd_all unipro_std_mib 0
    ∷ cfg 0x9529 0x00 pmd_all unipro_dbg_mib 0
    ∷ cfg 0x200 0x40 pmd_all pcs_comn 0
    ∷ cfg 0x35 0x05 pmd_all pcs_rx 0
    ∷ cfg 0x73 0x01 pmd_all pcs_rx 0
    ∷ cfg 0x41 0x02 pmd_all pcs_rx 0
    ∷ cfg 0x42 0xac pmd_all pcs_rx 0
    ∷ cfg 0x200 0x00 pmd_all pcs_comn 0
    ∷ []

abbrev pub calib_of_pwm : List PhyCfg
calib_of_pwm =
    cfg 0x2041 8064 pmd_pwm unipro_std_mib 0
    ∷ cfg 0x2042 28224 pmd_pwm unipro_std_mib 0
    ∷ cfg 0x2043 20160 pmd_pwm unipro_std_mib 0
    ∷ cfg 0x15b0 12000 pmd_pwm unipro_std_mib 0
    ∷ cfg 0x15b1 32000 pmd_pwm unipro_std_mib 0
    ∷ cfg 0x15b2 16000 pmd_pwm unipro_std_mib 0
    ∷ cfg 0x7888 8064 pmd_pwm unipro_dbg_apb 0
    ∷ cfg 0x788c 28224 pmd_pwm unipro_dbg_apb 0
    ∷ cfg 0x7890 20160 pmd_pwm unipro_dbg_apb 0
    ∷ cfg 0x78b8 12000 pmd_pwm unipro_dbg_apb 0
    ∷ cfg 0x78bc 32000 pmd_pwm unipro_dbg_apb 0
    ∷ cfg 0x78c0 16000 pmd_pwm unipro_dbg_apb 0
    ∷ cfg 0xc8 0x40 pmd_pwm pma_trsv 0
    ∷ cfg 0xf0 0x77 pmd_pwm pma_trsv 0
    ∷ cfg 0x120 0x80 pmd_pwm pma_trsv 0
    ∷ cfg 0x128 0x00 pmd_pwm pma_trsv 0
    ∷ cfg 0x12c 0x00 pmd_pwm pma_trsv 0
    ∷ cfg 0x134 0x43 pmd_pwm pma_trsv 0
    ∷ []

abbrev pub post_calib_of_pwm : List PhyCfg
post_calib_of_pwm = []

abbrev pub calib_of_hs_rate_a : List PhyCfg
calib_of_hs_rate_a =
    cfg 0x2041 8064 pmd_hs unipro_std_mib 0
    ∷ cfg 0x2042 28224 pmd_hs unipro_std_mib 0
    ∷ cfg 0x2043 20160 pmd_hs unipro_std_mib 0
    ∷ cfg 0x15b0 12000 pmd_hs unipro_std_mib 0
    ∷ cfg 0x15b1 32000 pmd_hs unipro_std_mib 0
    ∷ cfg 0x15b2 16000 pmd_hs unipro_std_mib 0
    ∷ cfg 0x7888 8064 pmd_hs unipro_dbg_apb 0
    ∷ cfg 0x788c 28224 pmd_hs unipro_dbg_apb 0
    ∷ cfg 0x7890 20160 pmd_hs unipro_dbg_apb 0
    ∷ cfg 0x78b8 12000 pmd_hs unipro_dbg_apb 0
    ∷ cfg 0x78bc 32000 pmd_hs unipro_dbg_apb 0
    ∷ cfg 0x78c0 16000 pmd_hs unipro_dbg_apb 0
    ∷ cfg 0xc8 0xbc pmd_hs pma_trsv 0
    ∷ cfg 0xf0 0x7f pmd_hs pma_trsv 0
    ∷ cfg 0x120 0xc0 pmd_hs pma_trsv 0
    ∷ cfg 0x128 0x08 pmd_hs_g1_l2 pma_trsv 0
    ∷ cfg 0x128 0x02 pmd_hs_g2_l2 pma_trsv 0
    ∷ cfg 0x128 0x00 pmd_hs_g3_l2 pma_trsv 0
    ∷ cfg 0x12c 0x00 pmd_hs_g2_l2 pma_trsv 0
    ∷ cfg 0x134 0xd3 pmd_hs_g1_l2 pma_trsv 0
    ∷ cfg 0x134 0x73 pmd_hs_g2_l2 pma_trsv 0
    ∷ cfg 0x134 0x63 pmd_hs_g3_l2 pma_trsv 0
    ∷ []

abbrev pub post_calib_of_hs_rate_a : List PhyCfg
post_calib_of_hs_rate_a = cfg 0x1fc 0x40 pmd_hs cdr_afc_wait 0 ∷ []

abbrev pub calib_of_hs_rate_b : List PhyCfg
calib_of_hs_rate_b =
    cfg 0x2041 8064 pmd_hs unipro_std_mib 0
    ∷ cfg 0x2042 28224 pmd_hs unipro_std_mib 0
    ∷ cfg 0x2043 20160 pmd_hs unipro_std_mib 0
    ∷ cfg 0x15b0 12000 pmd_hs unipro_std_mib 0
    ∷ cfg 0x15b1 32000 pmd_hs unipro_std_mib 0
    ∷ cfg 0x15b2 16000 pmd_hs unipro_std_mib 0
    ∷ cfg 0x7888 8064 pmd_hs unipro_dbg_apb 0
    ∷ cfg 0x788c 28224 pmd_hs unipro_dbg_apb 0
    ∷ cfg 0x7890 20160 pmd_hs unipro_dbg_apb 0
    ∷ cfg 0x78b8 12000 pmd_hs unipro_dbg_apb 0
    ∷ cfg 0x78bc 32000 pmd_hs unipro_dbg_apb 0
    ∷ cfg 0x78c0 16000 pmd_hs unipro_dbg_apb 0
    ∷ cfg 0xc8 0xbc pmd_hs pma_trsv 0
    ∷ cfg 0xf0 0x7f pmd_hs pma_trsv 0
    ∷ cfg 0x120 0xc0 pmd_hs pma_trsv 0
    ∷ cfg 0x128 0x08 pmd_hs_g1_l2 pma_trsv 0
    ∷ cfg 0x128 0x02 pmd_hs_g2_l2 pma_trsv 0
    ∷ cfg 0x128 0x00 pmd_hs_g3_l2 pma_trsv 0
    ∷ cfg 0x12c 0x00 pmd_hs_g2_l2 pma_trsv 0
    ∷ cfg 0x134 0xd3 pmd_hs_g1_l2 pma_trsv 0
    ∷ cfg 0x134 0x73 pmd_hs_g2_l2 pma_trsv 0
    ∷ cfg 0x134 0x63 pmd_hs_g3_l2 pma_trsv 0
    ∷ []

abbrev pub post_calib_of_hs_rate_b : List PhyCfg
post_calib_of_hs_rate_b = cfg 0x1fc 0x40 pmd_hs cdr_afc_wait 0 ∷ []

abbrev pub lane1_sq_off : List PhyCfg
lane1_sq_off =
    cfg 0x0c4 0x19 pmd_all pma_trsv_lane1_sq_off 0
    ∷ cfg 0x0e8 0xff pmd_all pma_trsv_lane1_sq_off 0
    ∷ []

abbrev pub post_h8_enter : List PhyCfg
post_h8_enter =
    cfg 0x0c4 0x99 pmd_all pma_trsv 0
    ∷ cfg 0x0e8 0x7f pmd_all pma_trsv 0
    ∷ cfg 0x0f0 0x7f pmd_all pma_trsv 0
    ∷ cfg 0x004 0x02 pmd_all pma_comn 0
    ∷ []

abbrev pub pre_h8_exit : List PhyCfg
pre_h8_exit =
    cfg 0x004 0x3f pmd_hs pma_comn 0
    ∷ cfg 0x0c4 0xd9 pmd_all pma_trsv 0
    ∷ cfg 0x0e8 0x77 pmd_all pma_trsv 0
    ∷ cfg 0x00 0x0a pmd_hs common_wait 0
    ∷ cfg 0x0f0 0xff pmd_hs pma_trsv 0
    ∷ cfg 0x1fc 0x01 pmd_hs cdr_afc_wait 0
    ∷ []
