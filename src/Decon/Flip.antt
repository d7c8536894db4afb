-- ===== src/Decon/Flip.antt =====
-- What one update of the pipe does, s9p_decon_pipe_update of src/gpu/drm/s9p/s9p-decon.c: how often it
-- asks for a frame, and how often it answers the event of DRM.
use galaxy_s9plus_mainline_l.Common.{
  ℕ, ◌+◌, ◌≡◌, refl, ap, Bool, true, false, ◌&&◌, List, [], ◌∷◌, Option, none, some, Ret, ◌==◌,
  if◌then◌else◌, Bool-cases, inl, inr, arith,
}
use galaxy_s9plus_mainline_l.Bus.{Access, seen, write, polled, update, pause, called, Bus, call}
use galaxy_s9plus_mainline_l.Decon.{
  Decon, Win, decon, dpp, dsim, Call, vblank_on, vblank_off, handle_vblank, vblank_get, arm_event,
  send_event, remove_conflicting, config_cleanup, shadow_reg_update_req, D, idle_in,
  wait_shadow_idle, program_address, flip_to, hand_over, pass_event, complete, pipe_update,
}

abbrev answer : Call → ℕ
answer arm_event = 1
answer send_event = 1
answer vblank_on = 0
answer vblank_off = 0
answer handle_vblank = 0
answer vblank_get = 0
answer remove_conflicting = 0
answer config_cleanup = 0

-- How often an event of DRM was answered, armed or sent at once.
abbrev pub answers : List (Access Win Call) → ℕ
answers [] = 0
answers (called c r ∷ l) = answer c + answers l
answers (seen w a v ∷ l) = answers l
answers (write w a v ∷ l) = answers l
answers (polled w a v ∷ l) = answers l
answers (update w a mask bits ∷ l) = answers l
answers (pause us ∷ l) = answers l

abbrev request : Win → ℕ → ℕ
request decon a = if a == shadow_reg_update_req then 1 else 0
request dpp a = 0
request dsim a = 0

-- How often a frame was requested.
abbrev pub requests : List (Access Win Call) → ℕ
requests [] = 0
requests (write w a v ∷ l) = request w a + requests l
requests (called c r ∷ l) = requests l
requests (seen w a v ∷ l) = requests l
requests (polled w a v ∷ l) = requests l
requests (update w a mask bits ∷ l) = requests l
requests (pause us ∷ l) = requests l

abbrev count : Bool → ℕ
count b = if b then 1 else 0

module _ {World : Type 0} (bus : Bus Win Call World) where
  -- The pipe is enabled, the plane has a buffer, and the request before is over in time.
  abbrev pub can_flip : Bool → Option ℕ → D bus → Bool
  can_flip true (some addr) s =
      let (v, w) = bus.poll_reg decon shadow_reg_update_req (idle_in bus s.vars) 50000 s.world in
      idle_in bus s.vars v
  can_flip true none s = false
  can_flip false fb s = false

  -- The two counts and the event, as a run from `s` to `t` leaves them.
  abbrev pub Counted : Bool → Bool → D bus → D bus → Type 0
  Counted answered requested s t =
      (answers t.log ≡ count answered + answers s.log)
      × (requests t.log ≡ count requested + requests s.log)

  program_address-Counted :
      (addr : ℕ) (s : D bus)
      → Counted false true s (program_address bus addr s).1
        × ((program_address bus addr s).1.vars ≡ s.vars)
  unfolding program_address
  program_address-Counted addr s = elim (Bool-cases (s.vars.command_mode && s.vars.hw_trigger)) [
    | inl on ↦ rw on ((omega arith, omega arith), refl)
    | inr off ↦ rw off ((omega arith, omega arith), refl)
  ]

  flip_to-Counted :
      (enabled : Bool) (fb : Option ℕ) (s : D bus)
      → let t = (flip_to bus enabled fb s).1 in
        Counted false (can_flip enabled fb s) s t × (t.vars ≡ s.vars)
  unfolding wait_shadow_idle
  flip_to-Counted false fb s = ((omega arith, omega arith), refl)
  flip_to-Counted true none s = ((omega arith, omega arith), refl)
  flip_to-Counted true (some addr) s =
      let (ret, t) = wait_shadow_idle bus s in
      let idle = can_flip true (some addr) s in
      let (counted, same) = program_address-Counted addr t in
      elim (Bool-cases idle) [
        | inl free ↦ simp free ((omega (arith, counted.0), omega (arith, counted.1)), same)
        | inr stuck ↦ simp stuck ((omega arith, omega arith), refl)
      ]

  hand_over-Counted :
      (ret : Ret) (s : D bus) → let t = (hand_over bus ret s).1 in Counted true false s t
  hand_over-Counted none s = (omega arith, omega arith)
  hand_over-Counted (some e) s = (omega arith, omega arith)

  pass_event-Counted :
      (active : Bool) (s : D bus) → Counted true false s (pass_event bus active s).1
  pass_event-Counted false s = (omega arith, omega arith)
  pass_event-Counted true s =
      let (ret, t) = call bus vblank_get s in
      let (a, r) = hand_over-Counted ret t in (omega (arith, a), omega (arith, r))

  complete-Counted :
      (s : D bus)
      → let t = (complete bus s).1 in
        Counted s.vars.has_event false s t × (t.vars.has_event ≡ false)
  unfolding complete
  complete-Counted s = elim (Bool-cases s.vars.has_event) [
    | inl waits ↦ simp waits (pass_event-Counted s.vars.active s, refl)
    | inr none_waits ↦ simp none_waits ((omega arith, omega arith), refl)
  ]

  -- An update answers the event of DRM, if there is one, exactly once, and asks for one frame exactly
  -- if the pipe is enabled, has a buffer and the request before is over in time, and else for none.
  pub pipe_update_lem :
      (s : D bus)
      → let t = (pipe_update bus s).1 in
        Counted s.vars.has_event (can_flip s.vars.enabled s.vars.fb s) s t
        × (t.vars.has_event ≡ false)
  unfolding pipe_update
  pipe_update_lem s =
      let t = (flip_to bus s.vars.enabled s.vars.fb s).1 in
      let (flipped, same) = flip_to-Counted s.vars.enabled s.vars.fb s in
      let (completed, done) = complete-Counted t in
      let waits : t.vars.has_event ≡ s.vars.has_event = ap (λ (d : Decon). d.has_event) same in
      (
        (
          omega (arith, flipped.0, completed.0, ap count waits),
          omega (arith, flipped.1, completed.1),
        ),
        done,
      )
