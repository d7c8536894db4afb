-- ===== src/G3d/Pll.antt =====
-- s9p_g3d_set_pll of src/soc/s9p-g3d.c: what a rate change leaves behind, on its error paths too.
use galaxy_s9plus_mainline_l.Common.{
  ℕ, ◌≡◌, ◌≢◌, refl, ap, sym, ◌∙◌, Bool, true, false, List, [], ◌∷◌, none, some, Ret, Errno, ◌⊎◌,
  inl, inr, Bool-cases, bit, if◌then◌else◌, ltb, ◌&&◌, not, ◌==◌, etimedout, eio, bit_or,
}
use galaxy_s9plus_mainline_l.Platform.{Hardware, Machine, Event, rail, write, pause, smc}
use galaxy_s9plus_mainline_l.G3d.{
  G3dStep, G3dVars, S, con0_addr, buck6_reg, shows, pll_is, rollback_mux, rollback_pll, give_up,
  restore, finish, select_pll, reprogram, move_clock, after_rail, settle, set_pll,
}

-- The last voltage selection that the PMIC took for the GPU's rail.
abbrev pub last_rail : List Event → ℕ
last_rail [] = 0
last_rail (rail r v none ∷ es) = let older = last_rail es in if r == buck6_reg then v else older
last_rail (rail r v (some e) ∷ es) = last_rail es
last_rail (write a v ∷ es) = last_rail es
last_rail (pause us ∷ es) = last_rail es
last_rail (smc f a r ∷ es) = last_rail es

-- All but the current rate is as it was.
abbrev pub OnlyRate : G3dVars → G3dVars → Type 0
OnlyRate v w = w ≡ record v { cur_khz = w.cur_khz }

-- What a stage of the rate change leaves: on success the rate is the step's, on failure it is the
-- old one or 26 MHz. Only a successful change that goes
-- down touches the rail, and sets it, if at all, for the step.
pub record Outcome (lower : Bool) (st : G3dStep) (v : G3dVars) (before : ℕ) (ret : Ret)
    (w : G3dVars) (after : ℕ) : Type 0 where
  pub others : OnlyRate v w
  pub reached : ret ≡ none → w.cur_khz ≡ st.khz
  pub kept : ret ≢ none → (w.cur_khz ≡ v.cur_khz) ⊎ (w.cur_khz ≡ 26000)
  pub railed : (after ≡ before) ⊎ ((ret ≡ none) × (lower ≡ true) × (after ≡ st.vsel))

-- Neither the variables nor the rail have changed.
abbrev Untouched : {V W : Type 0} → Machine W V → Machine W V → Type 0
Untouched s t = (t.vars ≡ s.vars) × (last_rail t.log ≡ last_rail s.log)

module _ {World : Type 0} (hw : Hardware World) where
  rollback_mux-Untouched :
      (old_con0 v : ℕ) (s : S hw) → Untouched s (rollback_mux hw old_con0 v s).1
  unfolding rollback_mux
  rollback_mux-Untouched old_con0 v s = elim (Bool-cases (bit 29 v)) [
    | inl e ↦ rw e (refl, refl)
    | inr e ↦ rw e (refl, refl)
  ]

  rollback_pll-Untouched :
      (old_con0 old_locktime v : ℕ) (s : S hw)
      → Untouched s (rollback_pll hw old_con0 old_locktime v s).1
  unfolding rollback_pll
  rollback_pll-Untouched old_con0 old_locktime v s = elim (Bool-cases (bit 7 v)) [
    | inl e ↦ rw e (refl, refl)
    | inr e ↦ rw e (rollback_mux-Untouched old_con0 _ _)
  ]

  -- The end of the rollback.
  undone :
      (lower : Bool) (st : G3dStep) (e : Errno) (r : Ret) (s t : S hw)
      → Untouched s t
      → let u = (give_up hw r t).1 in
        Outcome lower st s.vars (last_rail s.log) (some e) u.vars (last_rail u.log)
  unfolding give_up
  undone lower st e none s t (ev, el) = record {
    others =
        ev ∙ ap (λ k. record (s.vars) { cur_khz = k }) (sym (ap (λ (v : G3dVars). v.cur_khz) ev));
    reached = λ n. cc;
    kept = λ _. inl (ap (λ (v : G3dVars). v.cur_khz) ev);
    railed = inl el;
  }
  undone lower st e (some x) s t (ev, el) = record {
    others = ap (λ (v : G3dVars). record v { cur_khz = 26000 }) ev;
    reached = λ n. cc;
    kept = λ _. inr refl;
    railed = inl el;
  }

  restore-Outcome :
      (lower : Bool) (st : G3dStep) (old_con0 old_locktime : ℕ) (e : Errno) (s : S hw)
      → let (ret, t) = restore hw old_con0 old_locktime e s in
        Outcome lower st s.vars (last_rail s.log) ret t.vars (last_rail t.log)
  unfolding restore
  restore-Outcome lower st old_con0 old_locktime e s =
      undone lower st e _ s _ (rollback_pll-Untouched old_con0 old_locktime _ _)

  finish-Outcome :
      (lower : Bool) (st : G3dStep) (s : S hw)
      → let (ret, t) = finish hw lower st s in
        Outcome lower st s.vars (last_rail s.log) ret t.vars (last_rail t.log)
  unfolding finish
  finish-Outcome false st s = record {
    others = refl;
    reached = λ _. refl;
    kept = λ n. absurd (n refl);
    railed = inl refl;
  }
  finish-Outcome true st s = record {
    others = refl;
    reached = λ _. refl;
    kept = λ n. absurd (n refl);
    railed = last_rail-cases (hw.pmic_put buck6_reg st.vsel s.world).0;
  }
    where
      last_rail-cases :
          (r : Ret)
          → (last_rail (rail buck6_reg st.vsel r ∷ s.log) ≡ last_rail s.log)
            ⊎ ((◌≡◌ {A = Ret} none none)
                × (true ≡ true)
                × (last_rail (rail buck6_reg st.vsel r ∷ s.log) ≡ st.vsel))
      last_rail-cases none = inr (refl, refl, refl)
      last_rail-cases (some e) = inl refl

  module _ (old_con0 old_locktime : ℕ) (lower : Bool) (st : G3dStep) where
    select_pll-Outcome :
        (s : S hw)
        → let (ret, t) = select_pll hw old_con0 old_locktime lower st s in
          Outcome lower st s.vars (last_rail s.log) ret t.vars (last_rail t.log)
    unfolding select_pll pll_is
    select_pll-Outcome s =
        let now : ℕ × World = hw.read_reg con0_addr s.world in
        let w : World = hw.write_reg con0_addr (bit_or now.0 0x10) now.1 in
        let v : ℕ × World = hw.poll_reg con0_addr (λ x. not (bit 7 x)) 1000 w in
        elim (Bool-cases (bit 7 v.0)) [
          | inl e ↦ rw e (restore-Outcome lower st old_con0 old_locktime etimedout _)
          | inr e ↦ elim (Bool-cases (shows (hw.read_reg con0_addr v.1).0 st)) [
            | inl there ↦ rw (e, there) (finish-Outcome lower st _)
            | inr off ↦ rw (e, off) (restore-Outcome lower st old_con0 old_locktime eio _)
          ]
        ]

    locked-Outcome :
        (w : ℕ) (s : S hw)
        → let (ret, t) =
            (if bit 29 w
                then select_pll hw old_con0 old_locktime lower st
                else restore hw old_con0 old_locktime etimedout)
              s in
          Outcome lower st s.vars (last_rail s.log) ret t.vars (last_rail t.log)
    locked-Outcome w s = elim (Bool-cases (bit 29 w)) [
      | inl e ↦ rw e (select_pll-Outcome s)
      | inr e ↦ rw e (restore-Outcome lower st old_con0 old_locktime etimedout s)
    ]

    reprogram-Outcome :
        (s : S hw)
        → let (ret, t) = reprogram hw old_con0 old_locktime lower st s in
          Outcome lower st s.vars (last_rail s.log) ret t.vars (last_rail t.log)
    unfolding reprogram
    reprogram-Outcome s = locked-Outcome _ _

    moved-Outcome :
        (v : ℕ) (s : S hw)
        → let (ret, t) =
            (if bit 7 v
                then restore hw old_con0 old_locktime etimedout
                else reprogram hw old_con0 old_locktime lower st)
              s in
          Outcome lower st s.vars (last_rail s.log) ret t.vars (last_rail t.log)
    moved-Outcome v s = elim (Bool-cases (bit 7 v)) [
      | inl e ↦ rw e (restore-Outcome lower st old_con0 old_locktime etimedout s)
      | inr e ↦ rw e (reprogram-Outcome s)
    ]

    pub move_clock-Outcome :
        (s : S hw)
        → let (ret, t) = move_clock hw old_con0 old_locktime lower st s in
          Outcome lower st s.vars (last_rail s.log) ret t.vars (last_rail t.log)
    unfolding move_clock
    move_clock-Outcome s = moved-Outcome _ _

  settle-vars : (r : Ret) (s : S hw) → let (r', t) = settle hw r s in (r' ≡ r) × (t.vars ≡ s.vars)
  unfolding settle
  settle-vars none s = (refl, refl)
  settle-vars (some e) s = (refl, refl)

  -- What a rate change leaves in the variables.
  abbrev pub Settled : G3dStep → G3dVars → Ret → G3dVars → Type 0
  Settled st v ret w =
      OnlyRate v w
      × (ret ≡ none → w.cur_khz ≡ st.khz)
      × (ret ≢ none → (w.cur_khz ≡ v.cur_khz) ⊎ (w.cur_khz ≡ 26000))

  after_rail-Settled :
      (old_con0 old_locktime : ℕ) (lower : Bool) (st : G3dStep) (r : Ret) (v : G3dVars) (s : S hw)
      → s.vars ≡ v
      → let (ret, t) = after_rail hw old_con0 old_locktime lower st r s in Settled st v ret t.vars
  unfolding after_rail
  after_rail-Settled old_con0 old_locktime lower st none v s e =
      let o = move_clock-Outcome old_con0 old_locktime lower st s in
      rw (← e) (o.others, o.reached, o.kept)
  after_rail-Settled old_con0 old_locktime lower st (some x) v s e =
      rw (← e) (refl, λ n. cc, λ n. inl refl)

  -- A rate change leaves the step's rate where it returns 0, and where it fails the old rate or
  -- 26 MHz. It changes no other variable.
  pub set_pll-Settled :
      (st : G3dStep) (s : S hw) → let (ret, t) = set_pll hw st s in Settled st s.vars ret t.vars
  unfolding set_pll
  set_pll-Settled st s =
      elim (Bool-cases (s.vars.step_volt && s.vars.rail_set && ltb s.vars.cur_khz st.khz)) [
        | inl up ↦ rw up (after_rail-Settled _ _ _ st _ s.vars _ (settle-vars _ _).1)
        | inr held ↦ rw held (after_rail-Settled _ _ _ st none s.vars _ refl)
      ]
