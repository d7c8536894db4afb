-- ===== src/Examples/Display.antt =====
-- The display controller of src/gpu/drm/s9p/s9p-decon.c.
use galaxy_s9plus_mainline_l.Common.{
  ℕ, ◌≡◌, refl, ◌⊎◌, true, false, [], none, some, enodev, ◌==◌, if◌then◌else◌,
}
use galaxy_s9plus_mainline_l.Bus.{Bus}
use galaxy_s9plus_mainline_l.Decon.{
  Win, decon, dpp, dsim, Call, Decon, D, pipe_enable, pipe_disable, pipe_update, irq, panel_down,
  panel_up,
}
use galaxy_s9plus_mainline_l.Decon.Probe.{
  sboot_fb_base, panel_end, shadow_base, win_end_position, identify,
}
use galaxy_s9plus_mainline_l.Decon.Adopts.{Adopts, nothing}
use galaxy_s9plus_mainline_l.Decon.Reached.{here, next, enable, disable, interrupt, Reach-Adopts}
use galaxy_s9plus_mainline_l.Decon.Panel.{Panel, panel_of, now}
use galaxy_s9plus_mainline_l.Decon.Lit.{Lit, Reach-Lit, panel_up-asleep}
use galaxy_s9plus_mainline_l.Decon.Flip.{Counted, can_flip, pipe_update_lem}
use galaxy_s9plus_mainline_l.Decon.Live.{Looked, Identified, identify-Identified}

-- What the boot loader leaves: window 0 over the whole panel, on channel 0.
abbrev left_behind : Win → ℕ → ℕ
left_behind decon a = if a == 0x214 then 1 else if a == win_end_position 0 then panel_end else 0
left_behind dpp a = if a == shadow_base 0 then sboot_fb_base else 0
left_behind dsim a = 0

-- Every wait is over at once.
abbrev screen : Bus Win Call (Unit {0})
screen = record {
  read_reg = λ x a w. (left_behind x a, w);
  write_reg = λ x a v w. w;
  poll_reg = λ x a cond us w. (if cond 0 then 0 else 0x10000000, w);
  update_bits = λ x a mask bits w. w;
  elapse = λ us w. w;
  kernel = λ c w. (none, w);
}

abbrev scanout : Decon
scanout = record {
  win = 0;
  chan = 0;
  command_mode = true;
  hw_trigger = true;
  enabled = false;
  inherited_trig_ctrl = 0;
  irq_frame_start = 40;
  has_dsim = true;
  black_dma = 0xd0000000;
  panel_dcs = true;
  panel_sleep = true;
  fb = some 0xcd000000;
  active = true;
  has_event = true;
}

abbrev dark : D screen
dark = record { world = tt; log = []; vars = scanout }

abbrev shown : D screen
shown = (pipe_enable screen 0xcd000000 dark).1

abbrev ready : D screen
ready = record dark { vars = record scanout { enabled = true } }

abbrev off : Panel
off = record { awake = false; lit = false; busy = false; fault = false }

Reach-Adopts_example : let t = (irq screen shown).1 in Adopts t.vars.win t.vars.chan t.log
Reach-Adopts_example =
    Reach-Adopts screen {fixed = false} {s = dark} (next (next here (enable 0xcd000000)) interrupt)
      nothing

Reach-Lit_example :
    Lit (pipe_disable screen shown).1.vars (panel_of off (pipe_disable screen shown).1.log)
Reach-Lit_example =
    Reach-Lit screen off {s = dark} (next (next here (enable 0xcd000000)) disable)
      (((refl, refl, refl), (refl, refl)), λ h. cc)

panel_up-asleep_example :
    let t = (panel_down screen dark).1 in
    let u = record t { vars = record (t.vars) { panel_sleep = false } } in
    (now screen off (panel_up screen u).1).awake ≡ false
panel_up-asleep_example = panel_up-asleep screen off dark (refl, refl, refl) (refl, refl)

pipe_update_lem_example :
    let t = (pipe_update screen ready).1 in
    Counted screen true (can_flip screen ready.vars.enabled ready.vars.fb ready) ready t
    × (t.vars.has_event ≡ false)
pipe_update_lem_example = pipe_update_lem screen ready

identify-Identified_example :
    let (ret, t) = identify screen dark in
    Looked dark.log t.log
    × ((ret ≡ some enodev)
        ⊎ ((ret ≡ none) × ((win_en : ℕ) × (chmap : ℕ) × Identified screen win_en chmap t)))
identify-Identified_example = identify-Identified screen dark
