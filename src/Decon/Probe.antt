-- ===== src/Decon/Probe.antt =====
-- s9p_decon_probe of src/gpu/drm/s9p/s9p-decon.c: it looks for the window and the channel that the
-- boot loader left scanning, and takes them over. What the kernel's calls give are arguments; the
-- registers that are read for a message only are read here too, except in the message on a window.
use galaxy_s9plus_mainline_l.Common.{
  ℕ, ◌+◌, ◌*◌, ◌/◌, ◌%◌, ◌^◌, Bool, true, false, ◌&&◌, List, [], ◌∷◌, Option, none, some, Ret,
  enodev, ◌==◌, ltb, bit, if◌then◌else◌,
}
use galaxy_s9plus_mainline_l.Platform.{M, ◌>>=◌, ◌>>◌, pure}
use galaxy_s9plus_mainline_l.Bus.{Bus, readl, notify, when}
use galaxy_s9plus_mainline_l.Decon.{
  Win, decon, dpp, Call, remove_conflicting, config_cleanup, Decon, chan_regs, hw_sw_trig_control,
  idma_in_base_addr_y, D, frame_start_irq_set,
}

abbrev pub sboot_fb_base : ℕ
sboot_fb_base = 0xcc000000

abbrev pub max_win : ℕ
max_win = 6

abbrev pub all_windows : List ℕ
all_windows = 0 ∷ 1 ∷ 2 ∷ 3 ∷ 4 ∷ 5 ∷ []

abbrev pub win_start_position : ℕ → ℕ
win_start_position win = 0x1008 + win * 0x30

abbrev pub win_end_position : ℕ → ℕ
win_end_position win = 0x100c + win * 0x30

-- The last pixel of the panel, 1440 by 2960.
abbrev pub panel_end : ℕ
panel_end = 2959 * 2 ^ 16 + 1439

abbrev pub shadow_base : ℕ → ℕ
shadow_base ch = chan_regs ch + 0x800 + idma_in_base_addr_y

-- The nibble of the channel map that belongs to a window.
abbrev pub chmap_of : ℕ → ℕ → ℕ
chmap_of chmap win = chmap / 2 ^ (4 * win) % 8

-- What the kernel gives: the allocation, the two windows, whether DSIM could be mapped, the black
-- frame, and the results of the DRM registration. Of each interrupt, `none` without one, else its
-- number and the result of the request.
pub record Given : Type 0 where
  pub alloc : Ret
  pub decon_window : Ret
  pub dpp_window : Ret
  pub irqs : List (Option (ℕ × Ret))
  pub dsim_mapped : Bool
  pub black : Option ℕ
  pub connector_init : Ret
  pub pipe_init : Ret
  pub vblank_init : Ret
  pub dev_register : Ret

module _ {World : Type 0} (bus : Bus Win Call World) where
  abbrev set : (Decon → Decon) → M (D bus) (Unit {0})
  set f s = (tt, record s { vars = f s.vars })

  abbrev pub choose : Bool → ℕ → ℕ → M (D bus) (Unit {0})
  choose fits win chan = when fits (set (λ d. record d { win = win; chan = chan }))

  -- The turn of the loop for window `i`.
  unfoldable pub look_at : ℕ → ℕ → ℕ → M (D bus) (Unit {0})
  look_at win_en chmap i = when (bit (4 * i) win_en) (do
    first ← readl bus decon (win_start_position i)
    last ← readl bus decon (win_end_position i)
    choose (first == 0 && last == panel_end) i (chmap_of chmap i))

  unfoldable pub find_windows : ℕ → ℕ → List ℕ → M (D bus) (Unit {0})
  find_windows win_en chmap [] s = (tt, s)
  find_windows win_en chmap (i ∷ is) s = find_windows win_en chmap is (look_at win_en chmap i s).1

  -- The channel carries the boot loader's frame buffer in its shadow bank.
  unfoldable pub carries : ℕ → M (D bus) Bool
  carries ch = do base ← readl bus dpp (shadow_base ch); pure (base == sboot_fb_base)

  abbrev pub take_channel : ℕ → Bool → M (D bus) Ret
  take_channel ch true s = (none, record s { vars = record (s.vars) { chan = ch } })
  take_channel ch false s = (some enodev, s)

  abbrev pub try_mapped : ℕ → Bool → M (D bus) Ret
  try_mapped ch true = do found ← carries ch; take_channel ch found
  try_mapped ch false = take_channel ch false

  abbrev pub or_mapped : ℕ → Bool → M (D bus) Ret
  or_mapped ch true = take_channel 0 true
  or_mapped ch false = try_mapped ch (ltb ch max_win)

  -- Channel 0, or else the one that the channel map names.
  unfoldable pub find_channel : ℕ → M (D bus) Ret
  unfolding carries
  find_channel ch = do found ← carries 0; or_mapped ch found

  abbrev pub with_window : Bool → ℕ → M (D bus) Ret
  with_window true chmap s = (some enodev, s)
  with_window false chmap s = find_channel (chmap_of chmap s.vars.win) s

  -- The part of the probe that finds the pipeline.
  unfoldable pub identify : M (D bus) Ret
  unfolding find_channel find_windows
  identify = do
    win_en ← readl bus decon 0x214
    chmap ← readl bus decon 0x218
    trig ← readl bus decon hw_sw_trig_control
    set (λ d. record d { inherited_trig_ctrl = trig; win = max_win })
    find_windows win_en chmap all_windows
    λ s. with_window (s.vars.win == max_win) chmap s

  abbrev evidence : M (D bus) (Unit {0})
  evidence s =
      let ch = chan_regs s.vars.chan in
      ((do
        base ← readl bus dpp (ch + 0x800 + idma_in_base_addr_y)
        src ← readl bus dpp (ch + 0x10)
        img ← readl bus dpp (ch + 0x18)
        queued ← readl bus dpp (ch + idma_in_base_addr_y)
        con ← readl bus dpp (ch + 0x8)
        pure tt)
        s)

  -- The interrupts that could be requested; the first one is kept.
  unfoldable pub request_irqs : ℕ → List (Option (ℕ × Ret)) → M (D bus) ℕ
  request_irqs n [] s = (n, s)
  request_irqs n (none ∷ rest) s = request_irqs n rest s
  request_irqs n (some (irq, some e) ∷ rest) s = request_irqs n rest s
  request_irqs n (some (irq, none) ∷ rest) s =
      request_irqs (n + 1) rest
        (set (λ d. record d { irq_frame_start = if n == 0 then irq else d.irq_frame_start }) s).1

  abbrev or_zero : Option ℕ → ℕ
  or_zero none = 0
  or_zero (some addr) = addr

  -- The DRM registration up to its first error, after which the mode configuration is cleaned up.
  abbrev registered : List Ret → M (D bus) Ret
  registered [] s = (none, s)
  registered (none ∷ rest) s = registered rest s
  registered (some e ∷ rest) s = (some e, (notify bus config_cleanup s).1)

  unfoldable pub take_over : Given → M (D bus) Ret
  unfolding request_irqs frame_start_irq_set
  take_over given = do
    evidence
    set (λ d. record d { command_mode = true; hw_trigger = true })
    frame_start_irq_set bus false
    nirq ← request_irqs 0 given.irqs
    set (λ d. record d { has_dsim = given.dsim_mapped; black_dma = or_zero given.black })
    notify bus remove_conflicting
    registered
        (given.connector_init ∷ given.pipe_init ∷ given.vblank_init ∷ given.dev_register ∷ [])

  abbrev unless : Ret → M (D bus) Ret → M (D bus) Ret
  unless none next s = next s
  unless (some e) next s = (some e, s)

  unfoldable pub probe : Given → M (D bus) Ret
  unfolding identify take_over
  probe given = unless given.alloc (
      unless given.decon_window
        (unless given.dpp_window (do ret ← identify; unless ret (take_over given))))
