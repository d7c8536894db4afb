-- ===== src/G3d/Requests.antt =====
-- The three requests of src/soc/s9p-g3d.c: the lowest of them wins.
use galaxy_s9plus_mainline_l.Common.{
  ℕ, ◌*◌, ◌/◌, ◌<◌, ◌≤◌, ◌≡◌, ◌≢◌, refl, ap, ◌∙◌, Bool, true, false, none, Ret, Errno, arith, ◌⊎◌,
  inl, inr, Bool-cases,
}
use galaxy_s9plus_mainline_l.Platform.{Hardware, M}
use galaxy_s9plus_mainline_l.G3d.{
  G3dStep, G3dVars, S, set_pll, pll_is, move_to, apply, step_below, lowest,
}
use galaxy_s9plus_mainline_l.G3d.Pll.{OnlyRate, set_pll-Settled}
use galaxy_s9plus_mainline_l.G3d.Rail.{IsStep}
use galaxy_s9plus_mainline_l.G3d.Driver.{ready, set_khz, max_set, clk_set, clk_determine}

-- The rate of a step.
abbrev pub IsStepRate : ℕ → Type 0
IsStepRate khz = (khz ≡ 572000) ⊎ (khz ≡ 455000) ⊎ (khz ≡ 260000)

-- The step for a rate is a step of the table: the lowest one below the table, and otherwise the
-- highest that is not above the rate.
pub step_below_lem :
    (khz : ℕ)
    → let st = step_below khz in
      IsStep st
      × (260000 ≤ khz → st.khz ≤ khz)
      × (khz < 260000 → st.khz ≡ 260000)
      × ((rate : ℕ) → IsStepRate rate → rate ≤ khz → rate ≤ st.khz)
unfolding step_below
step_below_lem khz = ground arith

IsStep-rate : (st : G3dStep) → IsStep st → IsStepRate st.khz
IsStep-rate st h = ground arith

step_below_self : (khz : ℕ) → IsStepRate khz → (step_below khz).khz ≡ khz
unfolding step_below
step_below_self khz h = ground arith

pub record IsRequested (v : G3dVars) : Type 0 where
  pub consumer : IsStepRate v.req_khz
  pub thermal : IsStepRate v.thermal_khz
  pub ceiling : IsStepRate v.max_khz

lowest-IsStepRate :
    (a b c : ℕ) → IsStepRate a → IsStepRate b → IsStepRate c → IsStepRate (lowest a b c)
lowest-IsStepRate a b c ha hb hc = ground arith

abbrev pub wanted : G3dVars → ℕ
wanted v = lowest v.req_khz v.thermal_khz v.max_khz

-- What s9p_g3d_apply leaves.
pub record Applied (v : G3dVars) (ret : Ret) (w : G3dVars) : Type 0 where
  pub only_rate : OnlyRate v w
  pub asleep : v.domain_powered ≡ false → (ret ≡ none) × (w ≡ v)
  pub awake : v.domain_powered ≡ true → ret ≡ none → w.cur_khz ≡ wanted v

module _ {World : Type 0} (hw : Hardware World) where
  awake-Applied :
      (s t : S hw) (there : Bool)
      → IsRequested s.vars
      → s.vars.domain_powered ≡ true
      → t.vars ≡ s.vars
      → let (ret, u) = move_to hw there (step_below (wanted s.vars)) t in Applied s.vars ret u.vars
  unfolding move_to
  awake-Applied s t true q p e =
      let st : ℕ = (step_below (wanted s.vars)).khz in
      let same : st ≡ wanted s.vars =
        step_below_self _ (lowest-IsStepRate _ _ _ q.consumer q.thermal q.ceiling) in
      record {
        only_rate = ap (λ (v : G3dVars). record v { cur_khz = st }) e;
        asleep = λ off. cc;
        awake = λ _ _. same;
      }
  awake-Applied s t false q p e =
      let st : G3dStep = step_below (wanted s.vars) in
      let same : st.khz ≡ wanted s.vars =
        step_below_self _ (lowest-IsStepRate _ _ _ q.consumer q.thermal q.ceiling) in
      let (only, good, bad) = set_pll-Settled hw st t in
      record {
        only_rate =
            only ∙ ap (λ (v : G3dVars). record v { cur_khz = (set_pll hw st t).1.vars.cur_khz }) e;
        asleep = λ off. cc;
        awake = λ _ ok. good ok ∙ same;
      }

  apply-Applied :
      (s : S hw) → IsRequested s.vars → let (ret, t) = apply hw s in Applied s.vars ret t.vars
  unfolding apply pll_is
  apply-Applied s q = elim (Bool-cases s.vars.domain_powered) [
    | inl on ↦ simp on (awake-Applied s _ _ q on refl)
    | inr off ↦ simp off (record { only_rate = refl; asleep = λ _. (refl, refl); awake = λ on. cc })
  ]

  abbrev pub Followed : S hw → Ret → S hw → Type 0
  Followed s ret t =
      IsRequested t.vars
      × ((t.vars.domain_powered ≡ true) → (ret ≡ none) → t.vars.cur_khz ≡ wanted t.vars)

-- The requests that come from outside, after boot.
pub data Request : Type 0 where
  cap_thermal : ℕ → Request
  cap_user : Errno ⊎ ℕ → Request
  consume : ℕ → Request

module _ {World : Type 0} (hw : Hardware World) where
  abbrev pub call : Request → M (S hw) Ret
  call (cap_thermal khz) = set_khz hw khz
  call (cap_user parsed) = max_set hw parsed
  call (consume rate) = clk_set hw rate

  -- A request that was not obeyed left everything as it was; one that was obeyed was applied.
  abbrev pub Answered : S hw → Ret → S hw → Type 0
  Answered s ret t =
      ((ret ≢ none) × (t ≡ s))
      ⊎ (IsRequested t.vars
          × ((t.vars.domain_powered ≡ true) → (ret ≡ none) → t.vars.cur_khz ≡ wanted t.vars))

  -- The rate that determine_rate promises is the request that set_rate stores.
  pub clk_determine-clk_set :
      (rate : ℕ) (s : S hw)
      → ready s.vars ≡ true
      → IsRequested s.vars
      → (clk_set hw rate s).1.vars.req_khz * 1000 ≡ clk_determine rate
  unfolding clk_set clk_determine
  clk_determine-clk_set rate s on q =
      let u : S hw = record s {
        vars = record (s.vars) { req_khz = (step_below (rate / 1000)).khz };
      } in
      let a = apply-Applied hw u (record {
        consumer = IsStep-rate (step_below (rate / 1000)) (step_below_lem (rate / 1000)).0;
        thermal = q.thermal;
        ceiling = q.ceiling;
      }) in
      simp on (ap (λ (v : G3dVars). v.req_khz * 1000) a.only_rate)
