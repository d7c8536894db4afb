-- ===== src/Decon/Panel.antt =====
-- The panel behind src/gpu/drm/s9p/s9p-decon.c as the driver's comments describe it: what the DCS
-- commands in a log leave it in, and whether each had the time that the one before needs.
use galaxy_s9plus_mainline_l.Common.{
  ℕ, ◌+◌, ◌*◌, ◌^◌, ◌≡◌, refl, ap, ◌∙◌, Bool, true, false, ◌||◌, List, [], ◌∷◌, ◌==◌, leb,
  if◌then◌else◌,
}
use galaxy_s9plus_mainline_l.Platform.{◌>>◌}
use galaxy_s9plus_mainline_l.Bus.{Access, seen, write, polled, update, pause, called, Bus, delay}
use galaxy_s9plus_mainline_l.Decon.{
  Decon, Win, decon, dpp, dsim, Call, D, dsim_pkthdr, dcs, panel_down, panel_up,
}
use galaxy_s9plus_mainline_l.Decon.Keeps.{Laws}

-- `busy` is the time after a change of the sleep mode, `fault` a command that came in it.
pub record Panel : Type 0 where
  pub awake : Bool
  pub lit : Bool
  pub busy : Bool
  pub fault : Bool

abbrev pub obey_command : ℕ → Panel → Panel
obey_command v p =
    if v == 0x1105
    then record p { awake = true; busy = true; fault = p.fault || p.busy }
    else if v == 0x1005
    then record p { awake = false; busy = true; fault = p.fault || p.busy }
    else if v == 0x2905
    then record p { lit = true; fault = p.fault || p.busy }
    else if v == 0x2805
    then record p { lit = false; fault = p.fault || p.busy }
    else p

abbrev pub obey_dsim : ℕ → ℕ → Panel → Panel
obey_dsim a v p = if a == dsim_pkthdr then obey_command v p else p

abbrev pub obey : Access Win Call → Panel → Panel
obey (write dsim a v) p = obey_dsim a v p
obey (write decon a v) p = p
obey (write dpp a v) p = p
obey (pause us) p = if leb 120000 us then record p { busy = false } else p
obey (seen w a v) p = p
obey (polled w a v) p = p
obey (update w a mask bits) p = p
obey (called c r) p = p

-- From a panel `p` at the start, through a log with the newest access first.
abbrev pub panel_of : Panel → List (Access Win Call) → Panel
panel_of p [] = p
panel_of p (a ∷ l) = obey a (panel_of p l)

abbrev pub Calm : Panel → Type 0
Calm p = (p.fault ≡ false) × (p.busy ≡ false)

abbrev pub Visible : Panel → Type 0
Visible p = (p.awake ≡ true) × (p.lit ≡ true)

-- The driver reaches the panel, and both module parameters are on.
abbrev pub Reaches : Decon → Type 0
Reaches d = (d.has_dsim ≡ true) × (d.panel_dcs ≡ true) × (d.panel_sleep ≡ true)

-- A property of the panel that no delay ends is kept by everything that sends it no packet.
module _ (p : Panel) (Q : Decon → Panel → Type 0)
    (rested : (d : Decon) (q : Panel) → Q d q → Q d (record q { busy = false }))
    (event : (d : Decon) (q : Panel) → Q d q → Q (record d { has_event = false }) q) where
  rest_if :
      (b : Bool) (d : Decon) (q : Panel) → Q d q → Q d (if b then record q { busy = false } else q)
  rest_if true d q h = rested d q h
  rest_if false d q h = h

  pub panel-Laws : Laws (λ d l. Q d (panel_of p l))
  panel-Laws = record {
    look = λ q. q;
    wait_for = λ q. q;
    rest = λ {d} {l} {us} q. rest_if (leb 120000 us) d (panel_of p l) q;
    ask = λ q. q;
    base_y = λ q. q;
    point = λ q. q;
    trigger = λ v q. q;
    irq_on = λ v q. q;
    irq_off = λ v q. q;
    acknowledged = λ own q. q;
    acknowledged_extra = λ q. q;
    event = λ {d} {l} q. event d (panel_of p l) q;
  }

or_false : (a b : Bool) → a ≡ false → b ≡ false → (a || b) ≡ false
or_false a b h k = rw (h, k)

module _ {World : Type 0} (bus : Bus Win Call World) (p : Panel) where
  abbrev pub now : D bus → Panel
  now s = panel_of p s.log

  -- A command reaches the panel.
  pub dcs-obey :
      (command : ℕ) (s : D bus)
      → s.vars.has_dsim ≡ true
      → s.vars.panel_dcs ≡ true
      → (now (dcs bus command s).1 ≡ obey (write dsim dsim_pkthdr (0x05 + command * 2 ^ 8)) (now s))
        × ((dcs bus command s).1.vars ≡ s.vars)
  unfolding dcs
  dcs-obey command s has on = simp (has, on) (refl, refl)

  -- The panel goes dark, asleep and with its time, whatever was shown.
  pub panel_down_lem :
      (s : D bus)
      → Reaches s.vars
      → Calm (now s)
      → let t = (panel_down bus s).1 in
        Calm (now t) × ((now t).awake ≡ false) × ((now t).lit ≡ false) × (t.vars ≡ s.vars)
  unfolding panel_down
  panel_down_lem s r (fine, free) =
      let (e, v) = dcs-obey 0x28 s r.0 r.1 in
      let t = (dcs bus 0x28 s).1 in
      let u = (delay bus 20000 t).1 in
      let deep : t.vars.panel_sleep ≡ true = ap (λ (d : Decon). d.panel_sleep) v ∙ r.2 in
      let (e', v') = dcs-obey 0x10 u (rw v r.0) (rw v r.1) in
      let calm : Calm (now t) = (
        ap (λ (q : Panel). q.fault) e ∙ or_false (now s).fault (now s).busy fine free,
        ap (λ (q : Panel). q.busy) e ∙ free,
      ) in
      simp deep (
        (ap (λ (q : Panel). q.fault) e' ∙ or_false (now t).fault (now t).busy calm.0 calm.1, refl),
        ap (λ (q : Panel). q.awake) e',
        ap (λ (q : Panel). q.lit) e' ∙ ap (λ (q : Panel). q.lit) e,
        v' ∙ v,
      )

  -- The panel shows again.
  pub panel_up_lem :
      (s : D bus)
      → Reaches s.vars
      → Calm (now s)
      → let t = (panel_up bus s).1 in Calm (now t) × Visible (now t) × (t.vars ≡ s.vars)
  unfolding panel_up
  panel_up_lem s r (fine, free) =
      let (e, v) = dcs-obey 0x11 s r.0 r.1 in
      let t = ((dcs bus 0x11 >> delay bus 120000) s).1 in
      let (e', v') = dcs-obey 0x29 t (rw v r.0) (rw v r.1) in
      let no_fault : (now t).fault ≡ false =
        ap (λ (q : Panel). q.fault) e ∙ or_false (now s).fault (now s).busy fine free in
      simp r.2 (
        (
          ap (λ (q : Panel). q.fault) e' ∙ or_false (now t).fault (now t).busy no_fault refl,
          ap (λ (q : Panel). q.busy) e',
        ),
        (
          ap (λ (q : Panel). q.awake) e' ∙ ap (λ (q : Panel). q.awake) e,
          ap (λ (q : Panel). q.lit) e',
        ),
        v' ∙ v,
      )
