-- ===== src/Decon.antt =====
-- The display controller's driver, src/gpu/drm/s9p/s9p-decon.c: scanout, the interrupt, the panel,
-- and the display pipe. What it calls of DRM is a kernel call of the bus. What it prints, and the
-- first-interrupt messages with their table, are left out.
pub mod Probe
pub mod Live
pub mod Keeps
pub mod Adopts
pub mod Flip
pub mod Panel
pub mod Lit
pub mod Reached
use galaxy_s9plus_mainline_l.Common.{
  ℕ, ◌+◌, ◌-◌, ◌*◌, ◌/◌, ◌%◌, ◌^◌, Bool, true, false, not, ◌&&◌, ◌||◌, List, Option, none, some,
  Ret, ◌==◌, bit, bit_and, bit_or, is_ok, if◌then◌else◌,
}
use galaxy_s9plus_mainline_l.Platform.{M, ◌>>=◌, ◌>>◌, pure}
use galaxy_s9plus_mainline_l.Bus.{
  Bus, Run, readl, writel, poll, delay, call, notify, clear_bits, when, timed,
}
use galaxy_s9plus_mainline_l.Bus

pub data Win : Type 0 where
  decon dpp dsim : Win

pub data Call : Type 0 where
  -- drm_crtc_vblank_on, drm_crtc_vblank_off, drm_crtc_handle_vblank, drm_crtc_vblank_get
  vblank_on vblank_off handle_vblank vblank_get : Call
  -- drm_crtc_arm_vblank_event, drm_crtc_send_vblank_event
  arm_event send_event : Call
  -- aperture_remove_conflicting_devices, drm_mode_config_cleanup
  remove_conflicting config_cleanup : Call

abbrev pub interrupt_enable : ℕ
interrupt_enable = 0x40

abbrev pub frame_start_int_en : ℕ
frame_start_int_en = 2 ^ 12 + 2 ^ 0

abbrev pub interrupt_pending : ℕ
interrupt_pending = 0x4c

abbrev pub extra_interrupt_pending : ℕ
extra_interrupt_pending = 0x50

abbrev pub shadow_reg_update_req : ℕ
shadow_reg_update_req = 0x60

abbrev pub hw_sw_trig_control : ℕ
hw_sw_trig_control = 0x70

abbrev pub idma_in_base_addr_y : ℕ
idma_in_base_addr_y = 0x40

abbrev pub dsim_intsrc : ℕ
dsim_intsrc = 0x50

abbrev pub dsim_pkthdr : ℕ
dsim_pkthdr = 0x58

-- struct s9p_decon with the two module parameters, and what the driver reads of the state of DRM:
-- the address of the plane's frame buffer, whether the CRTC is active, and whether an event waits.
pub record Decon : Type 0 where
  pub win : ℕ
  pub chan : ℕ
  pub command_mode : Bool
  pub hw_trigger : Bool
  pub enabled : Bool
  pub inherited_trig_ctrl : ℕ
  pub irq_frame_start : ℕ
  pub has_dsim : Bool
  pub black_dma : ℕ
  pub panel_dcs : Bool
  pub panel_sleep : Bool
  pub fb : Option ℕ
  pub active : Bool
  pub has_event : Bool

-- `chan_regs` of a channel within the DPU_DMA region.
abbrev pub chan_regs : ℕ → ℕ
chan_regs ch = 0x1000 + 0x1000 * ch

abbrev pub shadow_mask : Decon → ℕ
shadow_mask d = 2 ^ d.win

module _ {World : Type 0} (bus : Bus Win Call World) where
  abbrev pub D : Type 0
  D = Run Win Call World Decon

  abbrev pub idle_in : Decon → ℕ → Bool
  idle_in d v = bit_and v (shadow_mask d) == 0

  unfoldable pub wait_shadow_idle : M D Ret
  wait_shadow_idle s =
      let (v, t) = poll bus decon shadow_reg_update_req (idle_in s.vars) 50000 s in
      (timed (idle_in s.vars v), t)

  unfoldable pub hw_trigger_unmask : M D (Unit {0})
  hw_trigger_unmask s =
      when (s.vars.command_mode && s.vars.hw_trigger)
        (do
          v ← readl bus decon hw_sw_trig_control
          writel bus (clear_bits (bit_or v (2 ^ 0)) (2 ^ 4)) decon hw_sw_trig_control)
        s

  unfoldable pub program_address : ℕ → M D (Unit {0})
  unfolding hw_trigger_unmask
  program_address addr s =
      let ch = chan_regs s.vars.chan in
      ((do
        writel bus (addr % 2 ^ 32) dpp (ch + idma_in_base_addr_y)
        writel bus (addr % 2 ^ 32) dpp (ch + idma_in_base_addr_y + 4)
        writel bus (shadow_mask s.vars) decon shadow_reg_update_req
        hw_trigger_unmask)
        s)

  -- The part of the interrupt for one source: it is acknowledged, then `next`.
  abbrev pub acknowledge : ℕ → ℕ → M D (Unit {0}) → M D (Unit {0})
  acknowledge pend k next = when (bit k pend) (writel bus (2 ^ k) decon interrupt_pending >> next)

  abbrev pub extra : ℕ → M D (Unit {0})
  extra pend = when (bit 4 pend) (do
    ext ← readl bus decon extra_interrupt_pending
    writel bus (2 ^ 4) decon interrupt_pending
    writel bus ext decon extra_interrupt_pending)

  unfoldable pub irq : M D (Unit {0})
  irq = do
    pend ← readl bus decon interrupt_pending
    acknowledge pend 12 (notify bus handle_vblank)
    acknowledge pend 13 (pure tt)
    extra pend

  unfoldable pub frame_start_irq_set : Bool → M D (Unit {0})
  frame_start_irq_set on = do
    v ← readl bus decon interrupt_enable
    writel bus (if on then bit_or v frame_start_int_en else clear_bits v frame_start_int_en) decon
        interrupt_enable

  unfoldable pub dcs : ℕ → M D (Unit {0})
  dcs command s =
      when (s.vars.has_dsim && s.vars.panel_dcs)
        (do
          writel bus (2 ^ 28) dsim dsim_intsrc
          writel bus (0x05 + command * 2 ^ 8) dsim dsim_pkthdr
          taken ← poll bus dsim dsim_intsrc (bit 28) 20000
          pure tt)
        s

  unfoldable pub panel_down : M D (Unit {0})
  unfolding dcs
  panel_down s =
      let t = (dcs 0x28 s).1 in
      when t.vars.panel_sleep (do delay bus 20000; dcs 0x10; delay bus 120000) t

  unfoldable pub panel_up : M D (Unit {0})
  unfolding dcs
  panel_up s = let t = (when s.vars.panel_sleep (do dcs 0x11; delay bus 120000) s).1 in dcs 0x29 t

  abbrev pub set_enabled : Bool → M D (Unit {0})
  set_enabled on s = (tt, record s { vars = record (s.vars) { enabled = on } })

  -- s9p_decon_pipe_enable with the address of the plane's buffer. What the wait returns is dropped.
  unfoldable pub pipe_enable : ℕ → M D (Unit {0})
  unfolding panel_up wait_shadow_idle program_address frame_start_irq_set
  pipe_enable addr = do
    panel_up
    ret ← wait_shadow_idle
    program_address addr
    frame_start_irq_set true
    set_enabled true
    notify bus vblank_on

  abbrev pub write_base : Ret → ℕ → M D (Unit {0})
  write_base none addr s =
      writel bus (addr % 2 ^ 32) dpp (chan_regs s.vars.chan + idma_in_base_addr_y) s
  write_base (some e) addr s = (tt, s)

  -- The end of s9p_decon_blank: the plane's own buffer is the source again.
  abbrev pub restore_base : Option ℕ → M D (Unit {0})
  restore_base none = pure tt
  restore_base (some addr) = do ret ← wait_shadow_idle; write_base ret addr

  abbrev pub go_black : Option ℕ → Ret → M D (Unit {0})
  go_black fb (some e) s = (tt, s)
  go_black fb none s =
      let t = (program_address s.vars.black_dma s).1 in
      ((do delay bus 50000; panel_down; restore_base fb) t)

  unfoldable pub blank : M D (Unit {0})
  unfolding panel_down wait_shadow_idle program_address
  blank s = when (not (s.vars.black_dma == 0)) (do ret ← wait_shadow_idle; go_black s.vars.fb ret) s

  unfoldable pub pipe_disable : M D (Unit {0})
  unfolding blank frame_start_irq_set
  pipe_disable = do notify bus vblank_off; blank; frame_start_irq_set false; set_enabled false

  abbrev pub flip : ℕ → Ret → M D (Unit {0})
  flip addr (some e) = pure tt
  flip addr none = do program_address addr; latched ← wait_shadow_idle; pure tt

  abbrev pub flip_to : Bool → Option ℕ → M D (Unit {0})
  flip_to true (some addr) = do ret ← wait_shadow_idle; flip addr ret
  flip_to true none = pure tt
  flip_to false fb = pure tt

  abbrev pub clear_event : M D (Unit {0})
  clear_event s = (tt, record s { vars = record (s.vars) { has_event = false } })

  abbrev pub hand_over : Ret → M D (Unit {0})
  hand_over none = notify bus arm_event
  hand_over (some e) = notify bus send_event

  abbrev pub pass_event : Bool → M D (Unit {0})
  pass_event true = do ret ← call bus vblank_get; hand_over ret
  pass_event false = notify bus send_event

  unfoldable pub complete : M D (Unit {0})
  complete s = when s.vars.has_event (pass_event s.vars.active >> clear_event) s

  unfoldable pub pipe_update : M D (Unit {0})
  unfolding wait_shadow_idle program_address complete
  pipe_update s = ((flip_to s.vars.enabled s.vars.fb >> complete) s)
