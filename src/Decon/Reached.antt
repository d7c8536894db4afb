-- ===== src/Decon/Reached.antt =====
-- The driver of src/gpu/drm/s9p/s9p-decon.c over time: DRM and the interrupt call it in any order,
-- and the hardware does what it likes in between.
use galaxy_s9plus_mainline_l.Common.{ℕ, ◌≡◌, Bool, false, Option}
use galaxy_s9plus_mainline_l.Bus.{Bus}
use galaxy_s9plus_mainline_l.Decon.{
  Win, Call, D, pipe_enable, pipe_disable, pipe_update, irq, frame_start_irq_set, panel_up, blank,
}
use galaxy_s9plus_mainline_l.Decon.Keeps.{
  enabling-Keeps, disabling-Keeps, pipe_update-Keeps, irq-Keeps, frame_start_irq_set-Keeps,
}
use galaxy_s9plus_mainline_l.Decon.Adopts.{
  Adopts, allow, ask, Adopts-Laws, panel_up-Adopts, panel_down-Adopts,
}

module _ {World : Type 0} (bus : Bus Win Call World) where
  -- What DRM has put into the plane and the CRTC before an update.
  abbrev pub commit : Option ℕ → Bool → Bool → D bus → D bus
  commit fb active has_event s = record s {
    vars = record (s.vars) { fb = fb; active = active; has_event = has_event };
  }

  -- The two module parameters may be written at any time, unless `fixed`.
  pub data Step (fixed : Bool) (s : D bus) : D bus → Type 0 where
    enable : (addr : ℕ) → Step fixed s (pipe_enable bus addr s).1
    disable : Step fixed s (pipe_disable bus s).1
    refresh :
        (fb : Option ℕ) (active has_event : Bool)
        → Step fixed s (pipe_update bus (commit fb active has_event s)).1
    interrupt : Step fixed s (irq bus s).1
    vblank : (on : Bool) → Step fixed s (frame_start_irq_set bus on s).1
    outside : (w : World) → Step fixed s (record s { world = w })
    parameters :
        (on deep : Bool)
        → fixed ≡ false
        → Step fixed s (record s { vars = record (s.vars) { panel_dcs = on; panel_sleep = deep } })

  pub data Reach (fixed : Bool) (s : D bus) : D bus → Type 0 where
    here : Reach fixed s s
    next : {t u : D bus} → Reach fixed s t → Step fixed t u → Reach fixed s u

  Step-Adopts :
      {fixed : Bool} {s t : D bus}
      → Step fixed s t
      → Adopts s.vars.win s.vars.chan s.log
      → Adopts t.vars.win t.vars.chan t.log
  unfolding pipe_enable pipe_disable blank
  Step-Adopts {s} (enable addr) a =
      allow ask (enabling-Keeps bus Adopts-Laws addr (panel_up bus s).1 (panel_up-Adopts bus s a))
  Step-Adopts {s} disable a = disabling-Keeps bus Adopts-Laws (panel_down-Adopts bus) s a
  Step-Adopts {s} (parameters on deep open_) a = a
  Step-Adopts {s} (refresh fb active has_event) a =
      pipe_update-Keeps bus Adopts-Laws (commit fb active has_event s) a
  Step-Adopts {s} interrupt a = irq-Keeps bus Adopts-Laws s a
  Step-Adopts {s} (vblank on) a = frame_start_irq_set-Keeps bus Adopts-Laws on s a
  Step-Adopts {s} (outside w) a = a

  -- Whatever DRM asks and whatever the hardware answers, the driver never does more to the pipeline
  -- it took over than this: the trigger control and the interrupt enable register are only written
  -- right after a read, with that value and the driver's own bits changed; a new frame is requested
  -- for its window only, right after both halves of the base address of its channel were set alike;
  -- no interrupt is acknowledged but the two of the frame and the extra ones, as they were read; and
  -- the panel gets no command but the four for display and sleep.
  pub Reach-Adopts :
      {fixed : Bool} {s t : D bus}
      → Reach fixed s t
      → Adopts s.vars.win s.vars.chan s.log
      → Adopts t.vars.win t.vars.chan t.log
  Reach-Adopts here a = a
  Reach-Adopts (next r st) a = Step-Adopts st (Reach-Adopts r a)
