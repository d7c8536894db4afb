-- ===== src/Decon/Lit.antt =====
-- The panel while the driver of src/gpu/drm/s9p/s9p-decon.c runs: shown whenever the pipe is enabled,
-- unless a module parameter changes in between.
use galaxy_s9plus_mainline_l.Common.{◌≡◌, refl, ap, ◌∙◌, true, false}
use galaxy_s9plus_mainline_l.Bus.{Bus}
use galaxy_s9plus_mainline_l.Decon.{
  Win, Call, Decon, D, pipe_enable, pipe_disable, panel_up, panel_down, blank,
}
use galaxy_s9plus_mainline_l.Decon.Keeps.{
  Laws, Keeps, enabling-Keeps, disabling-Keeps, pipe_update-Keeps, irq-Keeps,
  frame_start_irq_set-Keeps,
}
use galaxy_s9plus_mainline_l.Decon.Panel.{
  Panel, panel_of, Calm, Visible, Reaches, panel-Laws, now, dcs-obey, panel_down_lem, panel_up_lem,
}
use galaxy_s9plus_mainline_l.Decon.Reached.{
  Step, enable, disable, refresh, interrupt, vblank, outside, parameters, Reach, here, next, commit,
}

abbrev Ready : Decon → Panel → Type 0
Ready d q = Reaches d × Calm q

abbrev Showing : Decon → Panel → Type 0
Showing d q = Ready d q × Visible q

-- The panel shows whenever the pipe is enabled.
abbrev pub Lit : Decon → Panel → Type 0
Lit d q = (Reaches d × Calm q) × (d.enabled ≡ true → Visible q)

Ready-Laws : (p : Panel) → Laws (λ d l. Ready d (panel_of p l))
Ready-Laws p = panel-Laws p Ready (λ d q (r, calm). (r, (calm.0, refl))) (λ d q h. h)

Showing-Laws : (p : Panel) → Laws (λ d l. Showing d (panel_of p l))
Showing-Laws p = panel-Laws p Showing (λ d q ((r, calm), v). ((r, (calm.0, refl)), v)) (λ d q h. h)

Lit-Laws : (p : Panel) → Laws (λ d l. Lit d (panel_of p l))
Lit-Laws p = panel-Laws p Lit (λ d q ((r, calm), v). ((r, (calm.0, refl)), v)) (λ d q h. h)

module _ {World : Type 0} (bus : Bus Win Call World) (p : Panel) where
  panel_down-Ready : Keeps bus (Ready-Laws p) (panel_down bus)
  panel_down-Ready s (r, calm) =
      let (c, asleep, dark, v) = panel_down_lem bus p s r calm in (rw v r, c)

  Step-Lit :
      {s t : D bus}
      → Step bus true s t
      → Lit s.vars (panel_of p s.log)
      → Lit t.vars (panel_of p t.log)
  unfolding pipe_enable pipe_disable blank
  Step-Lit {s} (enable addr) ((r, calm), v) =
      let (c, shown, same) = panel_up_lem bus p s r calm in
      let (ready, still) =
        enabling-Keeps bus (Showing-Laws p) addr (panel_up bus s).1 ((rw same r, c), shown) in
      (ready, λ on. still)
  Step-Lit {s} disable (h, v) = (disabling-Keeps bus (Ready-Laws p) panel_down-Ready s h, λ on. cc)
  Step-Lit {s} (refresh fb active has_event) h =
      pipe_update-Keeps bus (Lit-Laws p) (commit bus fb active has_event s) h
  Step-Lit {s} interrupt h = irq-Keeps bus (Lit-Laws p) s h
  Step-Lit {s} (vblank on) h = frame_start_irq_set-Keeps bus (Lit-Laws p) on s h
  Step-Lit {s} (outside w) h = h
  Step-Lit {s} (parameters on deep free) h = cc

  -- As long as the driver reaches the panel and both parameters stay on: every command comes after
  -- the time that the panel needs from the one before, and the panel shows whenever the pipe is
  -- enabled, in any order of the calls and whatever the hardware answers.
  pub Reach-Lit :
      {s t : D bus}
      → Reach bus true s t
      → Lit s.vars (panel_of p s.log)
      → Lit t.vars (panel_of p t.log)
  Reach-Lit here h = h
  Reach-Lit (next r st) h = Step-Lit st (Reach-Lit r h)

  -- A panel that was put to sleep stays asleep when `panel_sleep` is cleared before it is to show
  -- again, while `panel_dcs` is on.
  pub panel_up-asleep :
      (s : D bus)
      → Reaches s.vars
      → Calm (now bus p s)
      → let t = (panel_down bus s).1 in
        let u = record t { vars = record (t.vars) { panel_sleep = false } } in
        (now bus p (panel_up bus u).1).awake ≡ false
  unfolding panel_up
  panel_up-asleep s r calm =
      let (c, asleep, dark, v) = panel_down_lem bus p s r calm in
      let t = (panel_down bus s).1 in
      let u = record t { vars = record (t.vars) { panel_sleep = false } } in
      let (e, same) = dcs-obey bus p 0x29 u (rw v r.0) (rw v r.1) in
      ap (λ (q : Panel). q.awake) e ∙ asleep
