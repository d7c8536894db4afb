-- ===== src/Acpm/Transfer/Drain.antt =====
-- s9p_consume_rx of src/soc/s9p-acpm.c: the walk over the reply ring comes to its end and leaves the
-- ring empty.
use galaxy_s9plus_mainline_l.Common.{
  ℕ, zero, suc, ◌+◌, ◌-◌, ◌%◌, ◌^◌, ◌<◌, ◌≤◌, ◌≡◌, refl, ap, ap₂, ◌∙◌, Bool, false, Bool-cases,
  Option, none, some, List, ◌∷◌, ◌==◌, ltb, if◌then◌else◌, inl, inr, arith, ◌&&◌,
}
use native.Mathlib.Nat.{mod-lt, mod-eq_of_lt, mod_self}
use galaxy_s9plus_mainline_l.Platform.{Hardware, Event, write}
use galaxy_s9plus_mainline_l.Acpm.{AcpmVars, S, sram_read, sram_at, intcr1}
use galaxy_s9plus_mainline_l.Acpm.Transfer.{
  Words, look, drain, acknowledge, consume_rx, next, seq_of, slot,
}

-- The number of entries from `i` to `front` in a ring of `q` entries.
abbrev ahead : ℕ → ℕ → ℕ → ℕ
ahead q i front = if ltb front i then front + q - i else front - i

next-lt : (q i : ℕ) → 0 < q → next q i < q
next-lt q i h = mod-lt ((i + 1) % 2 ^ 32) h

next_inside : (q i : ℕ) → i + 1 < q → q < 2 ^ 32 → next q i ≡ i + 1
next_inside q i h big =
    let e : (i + 1) % 2 ^ 32 ≡ i + 1 = omega arith in ap (λ x. x % q) e ∙ mod-eq_of_lt h

next_last : (q i : ℕ) → i + 1 ≡ q → q < 2 ^ 32 → next q i ≡ 0
next_last q i h big = let e : (i + 1) % 2 ^ 32 ≡ q = omega arith in ap (λ x. x % q) e ∙ mod_self q

ahead-lt : (q i front : ℕ) → i < q → front < q → ahead q i front < q
ahead-lt q i front hi hf = ground arith

-- A step towards `front` is one entry less.
ahead-next :
    (q i front : ℕ)
    → i < q
    → front < q
    → q < 2 ^ 32
    → (i == front) ≡ false
    → ahead q (next q i) front + 1 ≡ ahead q i front
ahead-next q i front hi hf big ne = elim (Bool-cases (ltb (i + 1) q)) [
  | inl inside ↦ let e = next_inside q i (ground arith) big in rw e (ground arith)
  | inr last ↦ let e = next_last q i (ground arith) big in rw e (ground arith)
]

module _ {World : Type 0} (hw : Hardware World) where
  -- Reading an entry writes nothing.
  pub look-quiet :
      (wanted : Bool) (want i : ℕ) (found : Option Words) (s : S hw)
      → let t = (look hw wanted want i found s).1 in (t.log ≡ s.log) × (t.vars ≡ s.vars)
  unfolding look
  look-quiet wanted want i found s =
      let v = (sram_read hw (slot s.vars.mfd_ch s.vars.mfd_ch.rx_base i 0) s).0 in
      elim (Bool-cases (wanted && (seq_of v == want))) [
        | inl hit ↦ rw hit (refl, refl)
        | inr miss ↦ rw miss (refl, refl)
      ]

  abbrev Quiet : S hw → Option (Option Words × S hw) → Type 0
  Quiet s run =
      (found : Option Words) × (t : S hw) × (run ≡ some (found, t))
      × (t.log ≡ s.log)
      × (t.vars ≡ s.vars)

  drain-Quiet :
      (fuel : ℕ) (wanted : Bool) (want front i : ℕ) (found : Option Words) (s : S hw)
      → i < s.vars.mfd_ch.q_len
      → front < s.vars.mfd_ch.q_len
      → s.vars.mfd_ch.q_len < 2 ^ 32
      → ahead s.vars.mfd_ch.q_len i front < fuel
      → Quiet s (drain hw fuel wanted want front i found s)
  unfolding drain
  drain-Quiet zero wanted want front i found s hi hf big enough = absurd (omega arith)
  drain-Quiet (suc fuel) wanted want front i found s hi hf big enough =
      let q = s.vars.mfd_ch.q_len in
      let (found', t) = look hw wanted want i found s in
      let (l, v) = look-quiet wanted want i found s in
      let e : t.vars.mfd_ch.q_len ≡ q = ap (λ x. x.mfd_ch.q_len) v in
      elim (Bool-cases (i == front)) [
        | inl there ↦ rw there (found, s, refl, refl, refl)
        | inr more ↦
            let less = ahead-next q i front hi hf big more in
            let (f, u, r, l', v') =
              drain-Quiet fuel wanted want front (next q i) found' t
                (rw e (next-lt q i (omega arith))) (rw e hf) (rw e big) (rw e (omega arith)) in
            rw more (f, u, r, l' ∙ l, v' ∙ v)
      ]

  -- What s9p_consume_rx leaves in the log: the ring marked read if anything was in it, and the
  -- interrupt acknowledged.
  abbrev pub Acknowledged : S hw → S hw → Type 0
  Acknowledged s t =
      let ch = s.vars.mfd_ch in
      let (front, w) = hw.read_reg (sram_at ch.rx_front) s.world in
      let rear = (hw.read_reg (sram_at ch.rx_rear) w).0 in
      t.log
      ≡ write intcr1 (2 ^ ch.id)
        ∷ (if rear == front then s.log else write (sram_at ch.rx_rear) front ∷ s.log)

  pub acknowledge_lem :
      (rear front : ℕ) (s : S hw)
      → let t = (acknowledge hw rear front s).1 in
        (t.vars ≡ s.vars)
        × (t.log
            ≡ write intcr1 (2 ^ s.vars.mfd_ch.id)
              ∷ (if rear == front
                  then s.log
                  else write (sram_at s.vars.mfd_ch.rx_rear) front ∷ s.log))
  unfolding acknowledge
  acknowledge_lem rear front s = elim (Bool-cases (rear == front)) [
    | inl same ↦ rw same (refl, refl)
    | inr more ↦ rw more (refl, refl)
  ]

  -- Where the two indices that the firmware shows lie in the ring, and the ring has no more
  -- entries than the fuel, s9p_consume_rx comes back, whatever the entries hold: it has moved the read index
  -- to the front index if they differ, then acknowledged the interrupt, and has written nothing
  -- else and changed no variable of the driver.
  pub consume_rx_empties :
      (fuel : ℕ) (wanted : Bool) (want : ℕ) (s : S hw)
      → (hw.read_reg (sram_at s.vars.mfd_ch.rx_front) s.world).0 < s.vars.mfd_ch.q_len
      → (hw.read_reg
          (sram_at s.vars.mfd_ch.rx_rear)
          (hw.read_reg (sram_at s.vars.mfd_ch.rx_front) s.world).1).0
        < s.vars.mfd_ch.q_len
      → s.vars.mfd_ch.q_len < 2 ^ 32
      → s.vars.mfd_ch.q_len ≤ fuel
      → (found : Option Words) × (t : S hw) × (consume_rx hw fuel wanted want s ≡ some (found, t))
        × (t.vars ≡ s.vars)
        × Acknowledged s t
  unfolding consume_rx
  consume_rx_empties fuel wanted want s hf hr big enough =
      let (front, a) = sram_read hw s.vars.mfd_ch.rx_front s in
      let (rear, b) = sram_read hw s.vars.mfd_ch.rx_rear a in
      let short = ahead-lt s.vars.mfd_ch.q_len rear front hr hf in
      after (drain-Quiet fuel wanted want front rear none b hr hf big (omega arith))
    where
      after :
          let (front, a) = sram_read hw s.vars.mfd_ch.rx_front s in
          let (rear, b) = sram_read hw s.vars.mfd_ch.rx_rear a in
          Quiet b (drain hw fuel wanted want front rear none b)
          → (found : Option Words) × (t : S hw) × (consume_rx hw fuel wanted want s
              ≡ some (found, t))
            × (t.vars ≡ s.vars)
            × Acknowledged s t
      after (found, t, e, l, v) =
          let (front, a) = sram_read hw s.vars.mfd_ch.rx_front s in
          let rear = (sram_read hw s.vars.mfd_ch.rx_rear a).0 in
          let (v', l') = acknowledge_lem rear front t in
          (
            found,
            (acknowledge hw rear front t).1,
            rw (consume_rx, e) refl,
            v' ∙ v,
            l'
                ∙ ap₂
                    (λ (x : AcpmVars) (g : List Event).
                      write intcr1 (2 ^ x.mfd_ch.id)
                      ∷ (if rear == front then g else write (sram_at x.mfd_ch.rx_rear) front ∷ g))
                    v l,
          )
