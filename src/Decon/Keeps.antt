-- ===== src/Decon/Keeps.antt =====
-- The operations of src/gpu/drm/s9p/s9p-decon.c that do not reach the panel, and the properties that
-- they keep.
use galaxy_s9plus_mainline_l.Common.{
  ℕ, ◌≡◌, ◌⊎◌, inl, inr, refl, ◌+◌, ◌^◌, Bool, true, false, List, ◌∷◌, Option, none, some, Ret,
  bit_or, bit, not, ◌==◌, ◌&&◌,
}
use galaxy_s9plus_mainline_l.Platform.{M, ◌>>◌, pure}
use galaxy_s9plus_mainline_l.Bus.{
  Access, seen, write, polled, pause, called, Bus, clear_bits, when, delay, readl, writel, notify,
  call,
}
use galaxy_s9plus_mainline_l.Decon.{
  Decon, Win, decon, dpp, Call, chan_regs, shadow_reg_update_req, interrupt_pending,
  extra_interrupt_pending, interrupt_enable, hw_sw_trig_control, frame_start_int_en,
  idma_in_base_addr_y, D, wait_shadow_idle, program_address, irq, frame_start_irq_set, panel_down,
  blank, complete, pipe_update, flip_to, pass_event, write_base, restore_base, go_black, flip,
  hand_over, acknowledge, clear_event, handle_vblank, vblank_off, vblank_get,
}

-- What a property of the driver's variables and log needs, so that the operations that do not reach
-- the panel keep it: it survives each access, or group of accesses, that they make.
pub record Laws (P : Decon → List (Access Win Call) → Type 0) : Type 0 where
  pub look :
      {d : Decon} {l : List (Access Win Call)} {w : Win} {a v : ℕ} → P d l → P d (seen w a v ∷ l)
  pub wait_for :
      {d : Decon} {l : List (Access Win Call)} {w : Win} {a v : ℕ} → P d l → P d (polled w a v ∷ l)
  pub rest : {d : Decon} {l : List (Access Win Call)} {us : ℕ} → P d l → P d (pause us ∷ l)
  pub ask :
      {d : Decon} {l : List (Access Win Call)} {c : Call} {r : Ret} → P d l → P d (called c r ∷ l)
  pub base_y :
      {d : Decon} {l : List (Access Win Call)} {v : ℕ}
      → P d l
      → P d (write dpp (chan_regs d.chan + idma_in_base_addr_y) v ∷ l)
  pub point :
      {d : Decon} {l : List (Access Win Call)} {v : ℕ}
      → P d l
      → P d (
          write decon shadow_reg_update_req (2 ^ d.win)
          ∷ write dpp (chan_regs d.chan + idma_in_base_addr_y + 4) v
          ∷ write dpp (chan_regs d.chan + idma_in_base_addr_y) v
          ∷ l)
  pub trigger :
      {d : Decon} {l : List (Access Win Call)} (v : ℕ)
      → P d l
      → P d (
          write decon hw_sw_trig_control (clear_bits (bit_or v (2 ^ 0)) (2 ^ 4))
          ∷ seen decon hw_sw_trig_control v
          ∷ l)
  pub irq_on :
      {d : Decon} {l : List (Access Win Call)} (v : ℕ)
      → P d l
      → P d (
          write decon interrupt_enable (bit_or v frame_start_int_en)
          ∷ seen decon interrupt_enable v
          ∷ l)
  pub irq_off :
      {d : Decon} {l : List (Access Win Call)} (v : ℕ)
      → P d l
      → P d (
          write decon interrupt_enable (clear_bits v frame_start_int_en)
          ∷ seen decon interrupt_enable v
          ∷ l)
  pub acknowledged :
      {d : Decon} {l : List (Access Win Call)} {k : ℕ}
      → (k ≡ 12) ⊎ (k ≡ 13)
      → P d l
      → P d (write decon interrupt_pending (2 ^ k) ∷ l)
  pub acknowledged_extra :
      {d : Decon} {l : List (Access Win Call)} {v : ℕ}
      → P d l
      → P d (
          write decon extra_interrupt_pending v
          ∷ write decon interrupt_pending (2 ^ 4)
          ∷ seen decon extra_interrupt_pending v
          ∷ l)
  pub event :
      {d : Decon} {l : List (Access Win Call)} → P d l → P (record d { has_event = false }) l

module _ {World : Type 0} (bus : Bus Win Call World) {P : Decon → List (Access Win Call) → Type 0}
    (laws : Laws P) where
  open laws use {
    look, wait_for, rest, ask, base_y, point, trigger, irq_on, irq_off, acknowledged,
    acknowledged_extra, event,
  }

  abbrev pub Own : D bus → Type 0
  Own s = P s.vars s.log

  abbrev pub Keeps : {A : Type 0} → M (D bus) A → Type 0
  Keeps m = (s : D bus) → Own s → Own (m s).1

  pub when-Keeps : (b : Bool) (m : M (D bus) (Unit {0})) → Keeps m → Keeps (when b m)
  when-Keeps true m keeps s o = keeps s o
  when-Keeps false m keeps s o = o

  then-Keeps :
      {A : Type 0} (m : M (D bus) (Unit {0})) (k : M (D bus) A) → Keeps m → Keeps k → Keeps (m >> k)
  then-Keeps m k first second s o = second (m s).1 (first s o)

  delay-Keeps : (us : ℕ) → Keeps (delay bus us)
  delay-Keeps us s o = rest o

  wait_shadow_idle-Keeps : Keeps (wait_shadow_idle bus)
  unfolding wait_shadow_idle
  wait_shadow_idle-Keeps s o = wait_for o

  program_address-Keeps : (addr : ℕ) → Keeps (program_address bus addr)
  unfolding program_address
  program_address-Keeps addr s o =
      when-Keeps (s.vars.command_mode && s.vars.hw_trigger) _ (λ t p. trigger _ p) _ (point o)

  pub frame_start_irq_set-Keeps : (on : Bool) → Keeps (frame_start_irq_set bus on)
  unfolding frame_start_irq_set
  frame_start_irq_set-Keeps true s o = irq_on _ o
  frame_start_irq_set-Keeps false s o = irq_off _ o

  write_base-Keeps : (ret : Ret) (addr : ℕ) → Keeps (write_base bus ret addr)
  write_base-Keeps none addr s o = base_y o
  write_base-Keeps (some e) addr s o = o

  restore_base-Keeps : (fb : Option ℕ) → Keeps (restore_base bus fb)
  restore_base-Keeps none s o = o
  restore_base-Keeps (some addr) s o =
      let (ret, t) = wait_shadow_idle bus s in
      write_base-Keeps ret addr t (wait_shadow_idle-Keeps s o)

  go_black-Keeps :
      Keeps (panel_down bus) → (fb : Option ℕ) (ret : Ret) → Keeps (go_black bus fb ret)
  go_black-Keeps down fb (some e) s o = o
  go_black-Keeps down fb none s o =
      let t = (program_address bus s.vars.black_dma s).1 in
      then-Keeps (delay bus 50000) (panel_down bus >> restore_base bus fb) (delay-Keeps 50000)
        (then-Keeps (panel_down bus) (restore_base bus fb) down (restore_base-Keeps fb)) t
        (program_address-Keeps s.vars.black_dma s o)

  blank-Keeps : Keeps (panel_down bus) → Keeps (blank bus)
  unfolding blank
  blank-Keeps down s o =
      when-Keeps (not (s.vars.black_dma == 0))
        (λ t. let (ret, u) = wait_shadow_idle bus t in go_black bus s.vars.fb ret u)
        (λ t p.
          let (ret, u) = wait_shadow_idle bus t in
          go_black-Keeps down s.vars.fb ret u (wait_shadow_idle-Keeps t p))
        s o

  -- Up to the flag that pipe_disable clears last.
  pub disabling-Keeps :
      Keeps (panel_down bus)
      → Keeps (notify bus vblank_off >> (blank bus >> frame_start_irq_set bus false))
  disabling-Keeps down s o =
      frame_start_irq_set-Keeps false (blank bus (notify bus vblank_off s).1).1
        (blank-Keeps down (notify bus vblank_off s).1 (ask o))

  flip-Keeps : (addr : ℕ) (ret : Ret) → Keeps (flip bus addr ret)
  flip-Keeps addr (some e) s o = o
  flip-Keeps addr none s o =
      wait_shadow_idle-Keeps (program_address bus addr s).1 (program_address-Keeps addr s o)

  flip_to-Keeps : (enabled : Bool) (fb : Option ℕ) → Keeps (flip_to bus enabled fb)
  flip_to-Keeps true none s o = o
  flip_to-Keeps false fb s o = o
  flip_to-Keeps true (some addr) s o =
      let (ret, t) = wait_shadow_idle bus s in flip-Keeps addr ret t (wait_shadow_idle-Keeps s o)

  hand_over-Keeps : (ret : Ret) → Keeps (hand_over bus ret)
  hand_over-Keeps none s o = ask o
  hand_over-Keeps (some e) s o = ask o

  pass_event-Keeps : (active : Bool) → Keeps (pass_event bus active)
  pass_event-Keeps false s o = ask o
  pass_event-Keeps true s o = let (ret, t) = call bus vblank_get s in hand_over-Keeps ret t (ask o)

  complete-Keeps : Keeps (complete bus)
  unfolding complete
  complete-Keeps s o =
      when-Keeps s.vars.has_event (pass_event bus s.vars.active >> clear_event bus)
        (λ t p. event (pass_event-Keeps s.vars.active t p)) s o

  pub pipe_update-Keeps : Keeps (pipe_update bus)
  unfolding pipe_update
  pipe_update-Keeps s o =
      complete-Keeps (flip_to bus s.vars.enabled s.vars.fb s).1
        (flip_to-Keeps s.vars.enabled s.vars.fb s o)

  acknowledge-Keeps :
      (pend k : ℕ) (next : M (D bus) (Unit {0}))
      → (k ≡ 12) ⊎ (k ≡ 13)
      → Keeps next
      → Keeps (acknowledge bus pend k next)
  acknowledge-Keeps pend k next own keeps =
      when-Keeps (bit k pend) (writel bus (2 ^ k) decon interrupt_pending >> next)
        (λ s o. keeps (writel bus (2 ^ k) decon interrupt_pending s).1 (acknowledged own o))

  pub irq-Keeps : Keeps (irq bus)
  unfolding irq
  irq-Keeps s o =
      let (pend, t) = readl bus decon interrupt_pending s in
      let u = (acknowledge bus pend 12 (notify bus handle_vblank) t).1 in
      let v = (acknowledge bus pend 13 (pure tt) u).1 in
      when-Keeps (bit 4 pend) _ (λ w p. acknowledged_extra p) v
        (acknowledge-Keeps pend 13 (pure tt) (inr refl) (λ w p. p) u
          (acknowledge-Keeps pend 12 (notify bus handle_vblank) (inl refl) (λ w p. ask p) t
            (look o)))

  -- pipe_enable after the panel is up, up to the flag.
  pub enabling-Keeps :
      (addr : ℕ)
      → Keeps (λ s.
        (program_address bus addr >> frame_start_irq_set bus true) (wait_shadow_idle bus s).1)
  enabling-Keeps addr s o =
      let t = (wait_shadow_idle bus s).1 in
      frame_start_irq_set-Keeps true (program_address bus addr t).1
        (program_address-Keeps addr t (wait_shadow_idle-Keeps s o))
