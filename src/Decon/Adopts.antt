-- ===== src/Decon/Adopts.antt =====
-- What the driver of src/gpu/drm/s9p/s9p-decon.c may do to the pipeline that the boot loader left
-- running: an invariant of its log.
use galaxy_s9plus_mainline_l.Common.{ℕ, ◌≡◌, ◌⊎◌, ◌*◌, ◌+◌, ◌^◌, List, [], ◌∷◌, Ret, bit_or, ◌&&◌}
use galaxy_s9plus_mainline_l.Platform.{M, ◌>>◌}
use galaxy_s9plus_mainline_l.Bus.{
  Access, seen, write, polled, pause, called, Bus, clear_bits, when, delay,
}
use galaxy_s9plus_mainline_l.Decon.{
  Win, decon, dpp, dsim, Call, chan_regs, shadow_reg_update_req, interrupt_pending,
  extra_interrupt_pending, interrupt_enable, hw_sw_trig_control, frame_start_int_en,
  idma_in_base_addr_y, D, dsim_intsrc, dsim_pkthdr, dcs, panel_down, panel_up,
}
use galaxy_s9plus_mainline_l.Decon.Keeps.{Laws, Keeps, when-Keeps}

-- The four commands for the panel: display off, sleep, wake and display on.
pub data IsDcs : ℕ → Type 0 where
  display_off : IsDcs 0x28
  enter_sleep : IsDcs 0x10
  exit_sleep : IsDcs 0x11
  display_on : IsDcs 0x29

-- The accesses that need no care: reads, delays and kernel calls, the first half of the base address
-- of the one channel, and the acknowledgement of one of the two frame interrupts.
pub data Allowed (win chan : ℕ) : Access Win Call → Type 0 where
  look : {w : Win} {a v : ℕ} → Allowed win chan (seen w a v)
  wait_for : {w : Win} {a v : ℕ} → Allowed win chan (polled w a v)
  rest : {us : ℕ} → Allowed win chan (pause us)
  ask : {c : Call} {r : Ret} → Allowed win chan (called c r)
  base_y : {v : ℕ} → Allowed win chan (write dpp (chan_regs chan + idma_in_base_addr_y) v)
  acknowledged :
      {k : ℕ} → (k ≡ 12) ⊎ (k ≡ 13) → Allowed win chan (write decon interrupt_pending (2 ^ k))

-- Logs, newest first, in which everything else is a read of the trigger or of the interrupt enable
-- register, followed by the write of that value with the driver's own bits changed, or a frame: both
-- halves of the base address, the same, and the update request of the one window, or the
-- acknowledgement of the extra interrupts that were read, or one of the four commands for the panel.
pub data Adopts (win chan : ℕ) : List (Access Win Call) → Type 0 where
  nothing : Adopts win chan []
  allow :
      {a : Access Win Call} {l : List (Access Win Call)}
      → Allowed win chan a
      → Adopts win chan l
      → Adopts win chan (a ∷ l)
  point :
      {l : List (Access Win Call)} {v : ℕ}
      → Adopts win chan l
      → Adopts win chan (
          write decon shadow_reg_update_req (2 ^ win)
          ∷ write dpp (chan_regs chan + idma_in_base_addr_y + 4) v
          ∷ write dpp (chan_regs chan + idma_in_base_addr_y) v
          ∷ l)
  trigger :
      {l : List (Access Win Call)} (v : ℕ)
      → Adopts win chan l
      → Adopts win chan (
          write decon hw_sw_trig_control (clear_bits (bit_or v (2 ^ 0)) (2 ^ 4))
          ∷ seen decon hw_sw_trig_control v
          ∷ l)
  irq_on :
      {l : List (Access Win Call)} (v : ℕ)
      → Adopts win chan l
      → Adopts win chan (
          write decon interrupt_enable (bit_or v frame_start_int_en)
          ∷ seen decon interrupt_enable v
          ∷ l)
  irq_off :
      {l : List (Access Win Call)} (v : ℕ)
      → Adopts win chan l
      → Adopts win chan (
          write decon interrupt_enable (clear_bits v frame_start_int_en)
          ∷ seen decon interrupt_enable v
          ∷ l)
  extra :
      {l : List (Access Win Call)} (v : ℕ)
      → Adopts win chan l
      → Adopts win chan (
          write decon extra_interrupt_pending v
          ∷ write decon interrupt_pending (2 ^ 4)
          ∷ seen decon extra_interrupt_pending v
          ∷ l)
  packet :
      {l : List (Access Win Call)} {c v : ℕ}
      → IsDcs c
      → Adopts win chan l
      → Adopts win chan (
          polled dsim dsim_intsrc v
          ∷ write dsim dsim_pkthdr (0x05 + c * 2 ^ 8)
          ∷ write dsim dsim_intsrc (2 ^ 28)
          ∷ l)

pub Adopts-Laws : Laws (λ d l. Adopts d.win d.chan l)
Adopts-Laws = record {
  look = allow look;
  wait_for = allow wait_for;
  rest = allow rest;
  ask = allow ask;
  base_y = allow base_y;
  point = point;
  trigger = trigger;
  irq_on = irq_on;
  irq_off = irq_off;
  acknowledged = λ own. allow (acknowledged own);
  acknowledged_extra = extra _;
  event = λ a. a;
}

module _ {World : Type 0} (bus : Bus Win Call World) where
  abbrev Steady : M (D bus) (Unit {0}) → Type 0
  Steady = Keeps bus Adopts-Laws

  dcs-Adopts : {command : ℕ} → IsDcs command → Steady (dcs bus command)
  unfolding dcs
  dcs-Adopts dcs_command s o =
      when-Keeps bus Adopts-Laws (s.vars.has_dsim && s.vars.panel_dcs) _
        (λ t p. packet dcs_command p) s o

  pub panel_down-Adopts : Steady (panel_down bus)
  unfolding panel_down
  panel_down-Adopts s o =
      let t = (dcs bus 0x28 s).1 in
      let last = dcs bus 0x10 >> delay bus 120000 in
      when-Keeps bus Adopts-Laws t.vars.panel_sleep (delay bus 20000 >> last)
        (λ u p. allow rest (dcs-Adopts enter_sleep (delay bus 20000 u).1 (allow rest p))) t
        (dcs-Adopts display_off s o)

  pub panel_up-Adopts : Steady (panel_up bus)
  unfolding panel_up
  panel_up-Adopts s o =
      let wake = dcs bus 0x11 >> delay bus 120000 in
      dcs-Adopts display_on (when s.vars.panel_sleep wake s).1 (
        when-Keeps bus Adopts-Laws s.vars.panel_sleep wake
          (λ u p. allow rest (dcs-Adopts exit_sleep u p)) s o)
