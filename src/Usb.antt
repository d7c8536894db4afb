-- ===== src/Usb.antt =====
-- The driver of the USB 2.0 PHY, src/usb/phy-exynos9810-usbdrd.c: its four operations and the probe.
-- The calls of the clock framework are kernel calls of the bus. What a dump prints is left out, but
-- not that it reads the registers.
pub mod Memory
pub mod Powered
pub mod Released
use galaxy_s9plus_mainline_l.Common.{
  ℕ, ◌+◌, ◌*◌, ◌^◌, Bool, true, false, not, ◌&&◌, List, [], ◌∷◌, Option, none, some, Ret, Errno,
  enodev, enomem, ◌==◌, bit_or, is_ok, if◌then◌else◌,
}
use galaxy_s9plus_mainline_l.Platform.{M, ◌>>=◌, ◌>>◌, pure}
use galaxy_s9plus_mainline_l.Bus.{
  Bus, Run, readl, writel, update_reg, delay, call, notify, clear_bits, when,
}

pub data Win : Type 0 where
  usbcon pmu : Win

pub data Call : Type 0 where
  -- clk_bulk_prepare_enable and clk_bulk_disable_unprepare
  enable_clocks disable_clocks : Call

-- What the operations look at of struct s9p_usbphy, and the two module parameters.
pub record Phy : Type 0 where
  pub has_pmu : Bool
  pub tune : Bool
  pub rewa : Bool

abbrev pub link_ctrl : ℕ
link_ctrl = 0x04

abbrev pub link_port : ℕ
link_port = 0x08

abbrev pub clkrst : ℕ
clkrst = 0x20

abbrev pub combo_pma_ctrl : ℕ
combo_pma_ctrl = 0x48

abbrev pub utmi : ℕ
utmi = 0x50

abbrev pub hsp : ℕ
hsp = 0x54

abbrev pub hsp_tune : ℕ
hsp_tune = 0x58

abbrev pub hsp_test : ℕ
hsp_test = 0x5c

abbrev pub rewa_enable : ℕ
rewa_enable = 0x100

abbrev pub usb20_phy_ctrl : ℕ
usb20_phy_ctrl = 0x72c

abbrev pub usb3dp_phy_ctrl : ℕ
usb3dp_phy_ctrl = 0x704

abbrev pub force_qact : ℕ
force_qact = 2 ^ 8

-- The four bits that keep the Q-channel from going idle.
abbrev pub dis_qact : ℕ
dis_qact = 2 ^ 11 + 2 ^ 10 + 2 ^ 9 + 2 ^ 12

abbrev pub hsp_tune_mask : ℕ
hsp_tune_mask = 0xf * 2 ^ 28 + 0x3 * 2 ^ 24 + 0x3 * 2 ^ 21 + 0x3 * 2 ^ 18 + 0x7 * 2 ^ 8 + 0x7

abbrev pub hsp_tune_val : ℕ
hsp_tune_val = 0xd * 2 ^ 28 + 1 * 2 ^ 24 + 3 * 2 ^ 21 + 3 * 2 ^ 18 + 4 * 2 ^ 8 + 3

abbrev pub hsrewa_int1_all : ℕ
hsrewa_int1_all = 2 ^ 18 + 2 ^ 17 + 2 ^ 16 + 2 ^ 2 + 2 ^ 1 + 2 ^ 0

abbrev pub dumped : List ℕ
dumped =
    0x00 ∷ link_ctrl ∷ link_port ∷ clkrst ∷ 0x24 ∷ 0x30 ∷ combo_pma_ctrl ∷ utmi ∷ hsp ∷ hsp_tune
    ∷ hsp_test ∷ 0x60 ∷ rewa_enable ∷ []

module _ {World : Type 0} (bus : Bus Win Call World) where
  abbrev pub U : Type 0
  U = Run Win Call World Phy

  unfoldable pub rmw : ℕ → ℕ → ℕ → M U (Unit {0})
  rmw reg clear bits = do
    v ← readl bus usbcon reg
    writel bus (bit_or (clear_bits v clear) bits) usbcon reg

  unfoldable pub read_all : List ℕ → M U (Unit {0})
  read_all [] s = (tt, s)
  read_all (a ∷ rest) s = read_all rest (readl bus usbcon a s).1

  unfoldable pub dump : M U (Unit {0})
  unfolding read_all
  dump s =
      let t = (read_all dumped s).1 in
      when t.vars.has_pmu
        (do pmu20 ← readl bus pmu usb20_phy_ctrl; pmu3 ← readl bus pmu usb3dp_phy_ctrl; pure tt) t

  unfoldable pub isolate : Bool → M U (Unit {0})
  isolate on s =
      when s.vars.has_pmu
        (do
          update_reg bus pmu usb20_phy_ctrl (2 ^ 0) (if on then 2 ^ 0 else 0)
          update_reg bus pmu usb3dp_phy_ctrl (2 ^ 0) (if on then 2 ^ 0 else 0))
        s

  unfoldable pub q_ch : Bool → M U (Unit {0})
  q_ch true = do
    v ← readl bus usbcon link_ctrl
    delay bus 500
    writel bus (clear_bits (bit_or v dis_qact) force_qact) usbcon link_ctrl
    delay bus 500
    w ← readl bus usbcon link_ctrl
    delay bus 500
    writel bus (bit_or w force_qact) usbcon link_ctrl
  q_ch false = do
    v ← readl bus usbcon link_ctrl
    writel bus (bit_or (clear_bits v force_qact) dis_qact) usbcon link_ctrl

  unfoldable pub rewa_ready : M U (Unit {0})
  rewa_ready = do
    rmw rewa_enable (2 ^ 0) 0
    rmw 0x108 (2 ^ 24) (2 ^ 28)
    writel bus 0x1 usbcon 0x110
    writel bus 0xff00 usbcon 0x10c
    rmw 0x11c 0 hsrewa_int1_all

  -- s9p_usbphy_init from the Q-channel up to the ReWA block.
  unfoldable pub enable : M U (Unit {0})
  enable = do
    q_ch true
    rmw clkrst 0 (2 ^ 0)
    delay bus 10
    rmw clkrst (2 ^ 0) 0
    rmw clkrst 0 (2 ^ 3 + 2 ^ 2)
    rmw hsp_test (2 ^ 24) 0
    rmw utmi (2 ^ 1 + 2 ^ 0 + 2 ^ 3 + 2 ^ 2) 0
    rmw hsp 0 (2 ^ 9 + 2 ^ 8)
    delay bus 100
    rmw clkrst (2 ^ 3 + 2 ^ 1) (2 ^ 2)
    rmw link_ctrl 0 (0xf * 2 ^ 4)
    rmw utmi 0 (2 ^ 4 + 2 ^ 5)
    rmw hsp 0 (2 ^ 13 + 2 ^ 12)
    rmw link_port 0 (2 ^ 3 + 2 ^ 2)

  unfoldable pub pipe_ovrd : M U (Unit {0})
  pipe_ovrd = do rmw link_ctrl (2 ^ 17) (2 ^ 16 + 2 ^ 18); rmw combo_pma_ctrl 0 (2 ^ 4)

  unfoldable pub bring_up : M U (Unit {0})
  bring_up s =
      let t = (enable (isolate true (dump s).1).1).1 in
      let u = (pipe_ovrd (when t.vars.rewa rewa_ready t).1).1 in
      dump (when u.vars.tune (rmw hsp_tune hsp_tune_mask hsp_tune_val) u).1

  abbrev pub if_clocked : Ret → U → Ret × U
  if_clocked none s = (none, (bring_up s).1)
  if_clocked (some e) s = (some e, s)

  -- s9p_usbphy_init.
  unfoldable pub init : M U Ret
  unfolding bring_up
  init s = let (ret, t) = call bus enable_clocks s in if_clocked ret t

  -- s9p_usbphy_exit.
  unfoldable pub exit : M U Ret
  unfolding q_ch
  exit = do
    rmw utmi 0 (2 ^ 1 + 2 ^ 0)
    rmw hsp_test 0 (2 ^ 24)
    q_ch false
    notify bus disable_clocks
    pure none

  unfoldable pub power_on : M U Ret
  unfolding isolate dump
  power_on = do isolate true; dump; pure none

  unfoldable pub power_off : M U Ret
  unfolding isolate
  power_off = do isolate false; pure none

  -- What the kernel gives the probe: the allocation, the registers, the PMU, the clocks, the PHY and
  -- the provider. Without the PMU the probe goes on, and leaves the isolation alone.
  abbrev first_error : List Ret → Ret
  first_error [] = none
  first_error (none ∷ rest) = first_error rest
  first_error (some e ∷ rest) = some e

  -- The version register is read for the message at the end.
  abbrev if_fine : Ret → U → Ret × U
  if_fine none s = (none, (readl bus usbcon 0x00 s).1)
  if_fine (some e) s = (some e, s)

  abbrev if_mapped : Ret → Ret → List Ret → U → Ret × U
  if_mapped none syscon rest s =
      if_fine (first_error rest) (record s { vars = record (s.vars) { has_pmu = is_ok syscon } })
  if_mapped (some e) syscon rest s = (some e, s)

  unfoldable pub probe : Ret → Ret → Ret → Ret → Ret → Ret → M U Ret
  probe alloc regs syscon clks phy provider =
      if_mapped (first_error (alloc ∷ regs ∷ [])) syscon (clks ∷ phy ∷ provider ∷ [])

-- s9p_usbphy_xlate: whether the PHY is the one that the arguments ask for.
unfoldable pub xlate : List ℕ → Ret
xlate [] = none
xlate (index ∷ rest) = if index == 0 then none else some enodev
