-- ===== src/Pcie/Irq.antt =====
-- What the interrupt handler of src/pci/pcie-exynos9810.c passes on.
use galaxy_s9plus_mainline_l.Common.{
  ℕ, ◌+◌, ◌*◌, ◌≡◌, refl, sym, ap, ==_iff, ◌∙◌, Bool, true, false, ◌&&◌, List, [], ◌∷◌, ◌==◌, ltb,
  bit, if◌then◌else◌, Bool-cases, inl, inr, arith, Since, nothing, more, Since-trans, zero, suc,
}
use galaxy_s9plus_mainline_l.Bus.{
  Access, seen, write, polled, update, pause, called, Bus, readl, writel, notify,
}
use galaxy_s9plus_mainline_l.Pcie.{
  Win, elbi, Call, perst, wl_reg_on, irq_enter, irq_exit, handle_intx, install_handler, P,
  irq_pulse,
}
use galaxy_s9plus_mainline_l.Pcie.Link.{dispatch, irq_handler}

abbrev for_line : ℕ → Call → ℕ
for_line n (handle_intx i) = if i == n then 1 else 0
for_line n (perst on) = 0
for_line n (wl_reg_on on) = 0
for_line n irq_enter = 0
for_line n irq_exit = 0
for_line n install_handler = 0

-- How often the handlers of INTx line `n` were run.
abbrev pub runs : ℕ → List (Access Win Call) → ℕ
runs n [] = 0
runs n (called c r ∷ l) = for_line n c + runs n l
runs n (seen w a v ∷ l) = runs n l
runs n (write w a v ∷ l) = runs n l
runs n (polled w a v ∷ l) = runs n l
runs n (update w a mask bits ∷ l) = runs n l
runs n (pause us ∷ l) = runs n l

abbrev times : ℕ → List ℕ → ℕ
times n [] = 0
times n (i ∷ is) = (if i == n then 1 else 0) + times n is

false≢true : (false ≡ true) → ⊥
false≢true e = cc

times_lem : (n : ℕ) → times n (0 ∷ 1 ∷ 2 ∷ 3 ∷ []) ≡ (if ltb n 4 then 1 else 0)
times_lem zero = refl
times_lem (suc zero) = refl
times_lem (suc (suc zero)) = refl
times_lem (suc (suc (suc zero))) = refl
times_lem (suc (suc (suc (suc n)))) = ground arith

if_both :
    (b c : Bool) → ◌≡◌ {A = ℕ} (if b then (if c then 1 else 0) else 0) (if c && b then 1 else 0)
if_both true true = refl
if_both true false = refl
if_both false true = refl
if_both false false = refl

-- One line more, with its bit set or not.
one_more :
    (b c : Bool) (k r x : ℕ)
    → x ≡ (if b then k else 0) + ((if c then 1 else 0) + r)
    → (c ≡ true → b ≡ true)
    → x ≡ (if b then (if c then 1 else 0) + k else 0) + r
one_more true c k r x e h = omega (arith, e)
one_more false false k r x e h = omega (arith, e)
one_more false true k r x e h = absurd (false≢true (h refl))

none_more :
    (b c : Bool) (k r x : ℕ)
    → x ≡ (if b then k else 0) + r
    → (c ≡ true → b ≡ false)
    → x ≡ (if b then (if c then 1 else 0) + k else 0) + r
none_more true true k r x e h = absurd (false≢true (sym (h refl)))
none_more true false k r x e h = omega (arith, e)
none_more false c k r x e h = omega (arith, e)

module _ {World : Type 0} (bus : Bus Win Call World) where
  dispatch-runs :
      (v n : ℕ) (is : List ℕ) (s : P bus)
      → let t = (dispatch bus v is s).1 in
        (runs n t.log ≡ (if bit (2 * n) v then times n is else 0) + runs n s.log)
        × Since s.log t.log
  unfolding dispatch
  dispatch-runs v n [] s = (ground arith, nothing)
  dispatch-runs v n (i ∷ is) s =
      let same : i == n ≡ true → bit (2 * i) v ≡ bit (2 * n) v =
        λ h. ap (λ k. bit (2 * k) v) ((==_iff i n).0 h) in
      elim (Bool-cases (bit (2 * i) v)) [
        | inl on ↦
            let (e, since) = dispatch-runs v n is (notify bus (handle_intx i) s).1 in
            simp on (
              one_more (bit (2 * n) v) (i == n) (times n is) (runs n s.log) _ e
                  (λ h. sym (same h) ∙ on),
              Since-trans (more nothing) since,
            )
        | inr off ↦
            let (e, since) = dispatch-runs v n is s in
            simp off (
              none_more (bit (2 * n) v) (i == n) (times n is) (runs n s.log) _ e
                  (λ h. sym (same h) ∙ off),
              since,
            )
      ]

  -- The handler runs the handlers of exactly the INTx lines whose bit was set in the pulse register,
  -- each once, after it has cleared those bits there.
  pub irq_handler_lem :
      (n : ℕ) (s : P bus)
      → let (v, u) = readl bus elbi irq_pulse (notify bus irq_enter s).1 in
        let t = (irq_handler bus s).1 in
        (runs n t.log ≡ (if ltb n 4 && bit (2 * n) v then 1 else 0) + runs n s.log)
        × Since (write elbi irq_pulse v ∷ u.log) t.log
        × (runs n u.log ≡ runs n s.log)
  unfolding irq_handler
  irq_handler_lem n s =
      let (v, u) = readl bus elbi irq_pulse (notify bus irq_enter s).1 in
      let (e, since) = dispatch-runs v n (0 ∷ 1 ∷ 2 ∷ 3 ∷ []) (writel bus v elbi irq_pulse u).1 in
      (
        omega (
          arith,
          e,
          ap (λ k. if bit (2 * n) v then k else 0) (times_lem n),
          if_both (bit (2 * n) v) (ltb n 4),
        ),
        more (more (more (more (more since)))),
        omega arith,
      )
