-- ===== src/Charger/Limit.antt =====
-- The interrupt of src/soc/max77705_charger.c that lowers the input current limit.
use galaxy_s9plus_mainline_l.Common.{
  ℕ, zero, suc, ◌+◌, ◌-◌, ◌*◌, ◌%◌, ◌^◌, ◌≤◌, ◌<◌, ◌≡◌, refl, sym, ap, ◌∙◌, true, false, Bool-cases,
  not, none, some, List, ◌∷◌, bit, inl, inr, arith, Ret, is_ok,
}
use galaxy_s9plus_mainline_l.Charger.{
  Regmap, Constants, S, Field, chg_chgin_lim, int_ok, regmap_read, regmap_field_read,
  regmap_field_write, msleep, aicl_rounds, aicl_irq, Event, field, sleep,
}
use galaxy_s9plus_mainline_l.Charger.Memory.{Memory}

is_ok_eq : (r : Ret) → not (is_ok r) ≡ false → r ≡ none
is_ok_eq none h = refl
is_ok_eq (some e) h = absurd (let k : false ≡ true = cc in cc)

module _ {World : Type 0} (regs : Regmap World) (mem : Memory regs) (k : Constants) where
  abbrev pub limit : S regs → ℕ
  limit s = mem.held s.world chg_chgin_lim

  -- The limit that a round leaves in the seven bits of the field.
  abbrev lowered : ℕ → ℕ
  lowered l = (l + 127) % 128

  -- The log of `n` rounds from the limit `l` on top of `log`: each writes one less than the limit and
  -- waits.
  abbrev pub rounds : ℕ → ℕ → List Event → List Event
  rounds zero l log = log
  rounds (suc n) l log =
      rounds n (lowered l)
        (sleep k.aicl_work_delay_ms ∷ field chg_chgin_lim ((l + 2 ^ 32 - 1) % 2 ^ 32) none ∷ log)

  -- `n` rounds from `s` to `t`.
  abbrev pub Lowered : ℕ → S regs → S regs → Type 0
  Lowered n s t = (t.log ≡ rounds n (limit s) s.log) × (limit t ≡ (limit s + n * 127) % 128)

  -- A round is due: the status was read, does not show AICL, and the limit can be read.
  abbrev pub Due : Ret × ℕ → S regs → Type 0
  Due (ret, status) s =
      (ret ≡ none)
      × (bit k.aicl_i status ≡ false)
      × ((regmap_field_read regs chg_chgin_lim s).0.0 ≡ none)

  -- A run that ends in `t` without a round.
  ended :
      (s t : S regs) (r : Unit {0} × S regs)
      → some (tt, t) ≡ some r
      → t.log ≡ s.log
      → limit t ≡ limit s
      → limit s < 128
      → Lowered 0 s r.1
  ended s t r run log same h =
      let there : limit r.1 ≡ limit t =
        ap (λ o. elim o [ none ↦ limit t | some q ↦ limit q.1 ]) (sym run) in
      (
        ap (λ o. elim o [ none ↦ t.log | some q ↦ q.1.log ]) (sym run) ∙ log,
        omega (arith, there, same, h),
      )

  lower_once :
      (l l1 l2 : ℕ) (n : ℕ)
      → l < 128
      → l1 ≡ (l + 2 ^ 32 - 1) % 2 ^ 32 % 2 ^ 7
      → l2 ≡ (l1 + n * 127) % 128
      → l2 ≡ (l + suc n * 127) % 128
  lower_once l l1 l2 n h e1 e2 = omega arith

  module _ (seven : mem.width chg_chgin_lim ≡ 7)
      (writes : (f : Field) (v : ℕ) (w : World) → (regs.field_write f v w).0 ≡ none) where
    aicl_rounds_lem :
        (fuel : ℕ) (status : Ret × ℕ) (s : S regs) (r : Unit {0} × S regs)
        → limit s < 128
        → aicl_rounds regs k fuel status s ≡ some r
        → (n : ℕ) × (n ≤ fuel) × Lowered n s r.1 × (Due status s → 1 ≤ n)
    unfolding aicl_rounds
    aicl_rounds_lem fuel (some e, status) s r h run =
        (0, omega arith, ended s s r run refl refl h, λ due. absurd (let x = due.0 in cc))
    aicl_rounds_lem zero (none, status) s r h run = absurd cc
    aicl_rounds_lem (suc fuel) (none, status) s r h run =
        let ((err, regval), t) = regmap_field_read regs chg_chgin_lim s in
        let (err2, u) = regmap_field_write regs chg_chgin_lim ((regval + 2 ^ 32 - 1) % 2 ^ 32) t in
        let (next, v) = regmap_read regs int_ok (msleep regs k.aicl_work_delay_ms u).1 in
        elim (Bool-cases (bit k.aicl_i status)) [
          | inl shown ↦
              let h2 = rw shown at run in
              (
                0,
                omega arith,
                ended s s r h2 refl refl h,
                λ due. absurd (let x : true ≡ false = sym shown ∙ due.1 in cc),
              )
          | inr on ↦ elim (Bool-cases (not (is_ok err))) [
            | inl bad ↦
                let h2 = rw (on, bad) at run in
                let kept = mem.field_read_keeps chg_chgin_lim chg_chgin_lim s.world in
                (
                  0,
                  omega arith,
                  ended s t r h2 refl kept h,
                  λ due.
                      absurd
                        (let x : false ≡ true = sym (ap (λ e. not (is_ok e)) due.2) ∙ bad in cc),
                )
            | inr good ↦
                let wrote : err2 ≡ none = writes chg_chgin_lim _ t.world in
                let ok = ap (λ e. not (is_ok e)) wrote in
                let h2 = rw (on, good, ok) at run in
                let seen : regval ≡ limit s = mem.read_back _ _ (is_ok_eq err good) in
                let now : limit v ≡ (regval + 2 ^ 32 - 1) % 2 ^ 32 % 2 ^ mem.width chg_chgin_lim =
                  mem.reg_read_keeps _ _ _ ∙ mem.sleep_keeps _ _ _ ∙ mem.write_takes _ _ _ wrote in
                let now7 : limit v ≡ (limit s + 2 ^ 32 - 1) % 2 ^ 32 % 2 ^ 7 =
                  now
                  ∙ ap (λ x. (x + 2 ^ 32 - 1) % 2 ^ 32 % 2 ^ mem.width chg_chgin_lim) seen
                  ∙ ap (λ w. (limit s + 2 ^ 32 - 1) % 2 ^ 32 % 2 ^ w) seven in
                let fits : limit v < 128 = omega arith in
                let less : limit v ≡ lowered (limit s) = omega arith in
                let (n, le, (log, e), some_round) = aicl_rounds_lem fuel next v r fits h2 in
                let before = lowered (limit s) in
                (
                  suc n,
                  omega arith,
                  (
                    log
                        ∙ ap (λ l. rounds n l v.log) less
                        ∙ ap
                            (λ x. rounds n before (
                              sleep k.aicl_work_delay_ms
                              ∷ field chg_chgin_lim ((x + 2 ^ 32 - 1) % 2 ^ 32) err2
                              ∷ s.log))
                            seen
                        ∙ ap
                            (λ ret. rounds n before (
                              sleep k.aicl_work_delay_ms
                              ∷ field chg_chgin_lim ((limit s + 2 ^ 32 - 1) % 2 ^ 32) ret
                              ∷ s.log))
                            wrote,
                    lower_once (limit s) (limit v) (limit r.1) n h now7 e,
                  ),
                  λ due. omega arith,
                )
          ]
        ]

    -- The interrupt of the input current limit runs in rounds, each of which writes one less than the
    -- limit and waits, and does nothing else to the charger; there is at least one if AICL does not
    -- show at first and the registers can be read. After `n` rounds the limit is lower by `n`, where
    -- one round more after 0 sets it to 127, the highest. This is for the seven bits of the field, with
    -- every write taken; reads may fail, and the interrupt then ends.
    pub aicl_irq_lowers :
        (fuel : ℕ) (s : S regs) (r : Unit {0} × S regs)
        → limit s < 128
        → aicl_irq regs k fuel s ≡ some r
        → let (first, t) = regmap_read regs int_ok s in
          (n : ℕ) × (n ≤ fuel) × Lowered n s r.1 × (Due first t → 1 ≤ n)
    unfolding aicl_irq
    aicl_irq_lowers fuel s r h run =
        let (first, t) = regmap_read regs int_ok s in
        let kept : limit t ≡ limit s = mem.reg_read_keeps int_ok chg_chgin_lim s.world in
        let (n, le, (log, e), some_round) = aicl_rounds_lem fuel first t r (omega arith) run in
        (
          n,
          le,
          (log ∙ ap (λ l. rounds n l s.log) kept, e ∙ ap (λ l. (l + n * 127) % 128) kept),
          some_round,
        )
