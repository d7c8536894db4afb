-- ===== src/Acpm/Transfer/Keeps.antt =====
-- What a transfer of src/soc/s9p-acpm.c does to the driver's variables: the sequence number stays in
-- 1..63, and the channel, the mapping and the touch work's counters stay as they are.
use galaxy_s9plus_mainline_l.Common.{
  ℕ, zero, suc, ◌-◌, ◌/◌, ◌≤◌, ◌≡◌, refl, ap, ◌∙◌, Bool, true, false, Bool-cases, Option,
  Option-cases, none, some, ◌==◌, ltb, ◌⊎◌, inl, inr, arith, Ret, Errno, enodev,
}
use galaxy_s9plus_mainline_l.Platform.{Hardware}
use galaxy_s9plus_mainline_l.Platform
use galaxy_s9plus_mainline_l.Platform.Monad.Loop.{>>=-eq-some, Loop, ◌>>=◌, lift}
use galaxy_s9plus_mainline_l.Acpm.{AcpmVars, S, sram_read}
use galaxy_s9plus_mainline_l.Acpm.Transfer.{
  Words, drain, consume_rx, next, wait_room, put_command, send, nothing_there, receive, after_send,
  next_seq, attempt, attempts, result, if_mapped, mfd_xfer, pmic_update, pmic_read, command,
}
use galaxy_s9plus_mainline_l.Acpm.Transfer.Drain.{look-quiet, acknowledge_lem}

-- The sequence number is one that the firmware's six bits hold and that is not 0.
abbrev pub InRange : ℕ → Type 0
InRange n = (1 ≤ n) × (n ≤ 63)

pub record Kept (v w : AcpmVars) : Type 0 where
  pub same_cycles : w.cycles ≡ v.cycles
  pub same_probes : w.probes ≡ v.probes
  pub same_tries : w.apm_tries ≡ v.apm_tries
  pub same_channel : w.mfd_ch ≡ v.mfd_ch
  pub same_mapped : w.mapped ≡ v.mapped
  pub range : InRange v.seq → InRange w.seq

pub Kept-refl : {v w : AcpmVars} → w ≡ v → Kept v w
Kept-refl {v} {w} e = rw e (record {
  same_cycles = refl;
  same_probes = refl;
  same_tries = refl;
  same_channel = refl;
  same_mapped = refl;
  range = λ x. x;
})

pub Kept-trans : {u v w : AcpmVars} → Kept u v → Kept v w → Kept u w
Kept-trans a b = record {
  same_cycles = b.same_cycles ∙ a.same_cycles;
  same_probes = b.same_probes ∙ a.same_probes;
  same_tries = b.same_tries ∙ a.same_tries;
  same_channel = b.same_channel ∙ a.same_channel;
  same_mapped = b.same_mapped ∙ a.same_mapped;
  range = λ x. b.range (a.range x);
}

-- A run that comes back keeps them.
abbrev pub Keeps : {World A : Type 0} (hw : Hardware World) → Loop (S hw) A → Type 0
Keeps {World} {A} hw m = (s : S hw) (r : A × S hw) → m s ≡ some r → Kept s.vars r.1.vars

module _ {World : Type 0} (hw : Hardware World) where
  pub >>=-Keeps :
      {A B : Type 0} (m : Loop (S hw) A) (f : A → Loop (S hw) B)
      → Keeps hw m
      → ((a : A) → Keeps hw (f a))
      → Keeps hw (m >>= f)
  >>=-Keeps m f hm hf s r e =
      let (a, t, e1, e2) = >>=-eq-some m f s e in Kept-trans (hm s (a, t) e1) (hf a t r e2)

  drain-Keeps :
      (fuel : ℕ) (wanted : Bool) (want front i : ℕ) (found : Option Words)
      → Keeps hw (drain hw fuel wanted want front i found)
  unfolding drain
  drain-Keeps zero wanted want front i found s r e = cc
  drain-Keeps (suc fuel) wanted want front i found s r e = elim (Bool-cases (i == front)) [
    | inl there ↦ let h = rw there at e in Kept-refl (ground arith)
    | inr more ↦
        let h = rw more at e in
        Kept-trans (Kept-refl (look-quiet hw wanted want i found s).1)
          (drain-Keeps fuel wanted want front _ _ _ r h)
  ]

  pub consume_rx-Keeps :
      (fuel : ℕ) (wanted : Bool) (want : ℕ) → Keeps hw (consume_rx hw fuel wanted want)
  unfolding consume_rx
  consume_rx-Keeps fuel wanted want s r e =
      let (front, a) = sram_read hw s.vars.mfd_ch.rx_front s in
      let (rear, b) = sram_read hw s.vars.mfd_ch.rx_rear a in
      elim (Option-cases (drain hw fuel wanted want front rear none b)) [
        | inl out ↦ absurd (let h = rw (consume_rx, out) at e in cc)
        | inr ((found, t), run) ↦
            let h = rw (consume_rx, run) at e in
            let k : Kept s.vars t.vars =
              drain-Keeps fuel wanted want front rear none b (found, t) run in
            Kept-trans k (Kept-refl (ground (arith, (acknowledge_lem hw rear front t).0)))
      ]

  module _ (now : World → ℕ) where
    wait_room-Keeps : (fuel t0 nxt : ℕ) → Keeps hw (wait_room hw now fuel t0 nxt)
    unfolding wait_room
    wait_room-Keeps zero t0 nxt s r e = cc
    wait_room-Keeps (suc fuel) t0 nxt s r e =
        let ih =
          wait_room-Keeps fuel t0 nxt
            (Platform.delay hw 50 (sram_read hw s.vars.mfd_ch.tx_rear s).1).1 r in
        let (rear, t) = sram_read hw s.vars.mfd_ch.tx_rear s in
        elim (Bool-cases (nxt == rear)) [
          | inr room ↦ let h = rw room at e in Kept-refl (ground arith)
          | inl full ↦ elim (Bool-cases (ltb 20 ((now t.world - t0) / 1000000))) [
            | inl late ↦ let h = rw (full, late) at e in Kept-refl (ground arith)
            | inr wait ↦ ih (rw (full, wait) at e)
          ]
        ]

    pub send-Keeps : (fuel : ℕ) (cmd : Words) → Keeps hw (send hw now fuel cmd)
    unfolding send put_command
    send-Keeps fuel cmd s r e =
        let (front, t) = sram_read hw s.vars.mfd_ch.tx_front s in
        let nxt = next s.vars.mfd_ch.q_len front in
        elim (Option-cases (wait_room hw now fuel (now s.world) nxt t)) [
          | inl out ↦ absurd (let h = rw (send, out) at e in cc)
          | inr ((true, u), run) ↦
              let h = rw (send, run) at e in
              let k : Kept s.vars u.vars = wait_room-Keeps fuel (now s.world) nxt t (true, u) run in
              Kept-trans k (Kept-refl (ground arith))
          | inr ((false, u), run) ↦
              let h = rw (send, run) at e in
              let k : Kept s.vars u.vars =
                wait_room-Keeps fuel (now s.world) nxt t (false, u) run in
              Kept-trans k (Kept-refl (ground arith))
        ]

    nothing_there-vars : (s : S hw) → (nothing_there hw now s).1.vars ≡ s.vars
    unfolding nothing_there
    nothing_there-vars s = ground arith

    pub receive-Keeps : (fuel t0 want timeout : ℕ) → Keeps hw (receive hw now fuel t0 want timeout)
    unfolding receive
    receive-Keeps zero t0 want timeout s r e = cc
    receive-Keeps (suc fuel) t0 want timeout s r e =
        let (idle, t) = nothing_there hw now s in
        let k : Kept s.vars t.vars = Kept-refl (nothing_there-vars s) in
        elim (Bool-cases (ltb ((now s.world - t0) / 1000000) timeout)) [
          | inr late ↦ let h = rw (receive, late) at e in Kept-refl (ground arith)
          | inl early ↦ elim (Bool-cases idle) [
            | inl quiet ↦
                Kept-trans k
                  (receive-Keeps fuel t0 want timeout _ r (rw (receive, early, quiet) at e))
            | inr busy ↦ elim (Option-cases (consume_rx hw fuel true want t)) [
              | inl out ↦ absurd (let h = rw (receive, early, busy, out) at e in cc)
              | inr ((none, u), run) ↦ Kept-trans k (
                  Kept-trans (consume_rx-Keeps fuel true want t (none, u) run)
                    (receive-Keeps fuel t0 want timeout u r (rw (receive, early, busy, run) at e)))
              | inr ((some w, u), run) ↦
                  let h = rw (receive, early, busy, run) at e in
                  Kept-trans k (
                    Kept-trans (consume_rx-Keeps fuel true want t (some w, u) run)
                      (Kept-refl (ground arith)))
            ]
          ]
        ]

    pub after_send-Keeps : (fuel want : ℕ) (ret : Ret) → Keeps hw (after_send hw now fuel want ret)
    unfolding after_send
    after_send-Keeps fuel want (some x) s r e = Kept-refl (ground arith)
    after_send-Keeps fuel want none s r e =
        elim (Option-cases (receive hw now fuel (now s.world) want 600 s)) [
          | inl out ↦ absurd (let h = rw (after_send, out) at e in cc)
          | inr ((none, t), run) ↦
              let h = rw (after_send, run) at e in
              Kept-trans (receive-Keeps fuel _ want 600 s (none, t) run) (Kept-refl (ground arith))
          | inr ((some w, t), run) ↦
              let h = rw (after_send, run) at e in
              Kept-trans (receive-Keeps fuel _ want 600 s (some w, t) run)
                (Kept-refl (ground arith))
        ]

    next_seq-Kept : (s : S hw) → Kept s.vars (next_seq hw now s).1.vars
    unfolding next_seq
    next_seq-Kept s = record {
      same_cycles = refl;
      same_probes = refl;
      same_tries = refl;
      same_channel = refl;
      same_mapped = refl;
      range = λ x. omega arith;
    }

    pub attempt-Keeps : (fuel : ℕ) (cmd : Words) → Keeps hw (attempt hw now fuel cmd)
    unfolding attempt
    attempt-Keeps fuel cmd =
        >>=-Keeps (consume_rx hw fuel false 0) _ (consume_rx-Keeps fuel false 0) (λ _ s r e.
          Kept-trans (next_seq-Kept s) (
            >>=-Keeps (send hw now fuel _) _ (send-Keeps fuel _) (after_send-Keeps fuel _)
              (next_seq hw now s).1 r e))

    attempts-Keeps :
        (fuel : ℕ) (cmd : Words) (n : ℕ) (x : Errno) → Keeps hw (attempts hw now fuel cmd n x)
    unfolding attempts
    attempts-Keeps fuel cmd zero x s r e = Kept-refl (ground arith)
    attempts-Keeps fuel cmd (suc n) x s r e = elim (Option-cases (attempt hw now fuel cmd s)) [
      | inl out ↦ absurd (let h = rw (attempts, out) at e in cc)
      | inr ((inl y, t), run) ↦
          Kept-trans (attempt-Keeps fuel cmd s (inl y, t) run)
            (attempts-Keeps fuel cmd n y t r (rw (attempts, run) at e))
      | inr ((inr w, t), run) ↦
          let h = rw (attempts, run) at e in
          Kept-trans (attempt-Keeps fuel cmd s (inr w, t) run) (Kept-refl (ground arith))
    ]

    result-Kept :
        (func : ℕ) (r : Errno ⊎ Words) (s : S hw) → Kept s.vars (result hw now func r s).1.vars
    unfolding result
    result-Kept func (inl x) s = Kept-refl refl
    result-Kept func (inr w) s = record {
      same_cycles = refl;
      same_probes = refl;
      same_tries = refl;
      same_channel = refl;
      same_mapped = refl;
      range = λ x. x;
    }

    if_mapped-Keeps :
        (b : Bool) (m : Loop (S hw) (Ret × Option ℕ)) → Keeps hw m → Keeps hw (if_mapped hw now b m)
    unfolding if_mapped
    if_mapped-Keeps false m k s r e = Kept-refl (ground arith)
    if_mapped-Keeps true m k s r e = k s r e

    pub lift-Keeps :
        {A : Type 0} (m : S hw → A × S hw)
        → ((s : S hw) → Kept s.vars (m s).1.vars)
        → Keeps hw (lift m)
    lift-Keeps m k s r e =
        let h : (m s).1.vars ≡ r.1.vars =
          ap (λ o. elim o [ none ↦ s.vars | some q ↦ q.1.vars ]) e in
        rw h at (k s)

    pub mfd_xfer-Keeps :
        (fuel func reg val mask : ℕ) → Keeps hw (mfd_xfer hw now fuel func reg val mask)
    unfolding mfd_xfer
    mfd_xfer-Keeps fuel func reg val mask s r e =
        if_mapped-Keeps s.vars.mapped _
          (>>=-Keeps (attempts hw now fuel (command func reg val mask) 3 enodev) _
            (attempts-Keeps fuel _ 3 enodev)
            (λ x. lift-Keeps (result hw now func x) (result-Kept func x)))
          s r e

    pub pmic_update-Keeps :
        (fuel reg val mask : ℕ) → Keeps hw (pmic_update hw now fuel reg val mask)
    unfolding pmic_update
    pmic_update-Keeps fuel reg val mask =
        >>=-Keeps (mfd_xfer hw now fuel 2 reg val mask) _ (mfd_xfer-Keeps fuel 2 reg val mask)
          (λ x. lift-Keeps _ (λ s. Kept-refl refl))

    pub pmic_read-Keeps : (fuel reg : ℕ) → Keeps hw (pmic_read hw now fuel reg)
    unfolding pmic_read
    pmic_read-Keeps fuel reg = mfd_xfer-Keeps fuel 0 reg 0 0

    -- A transfer that comes back leaves the sequence number in 1..63 if it was, and the channel, the
    -- mapping and the counters of the touch work as they were, with every error as without.
    pub mfd_xfer_keeps :
        (fuel func reg val mask : ℕ) (s : S hw) (ret : Ret) (value : Option ℕ) (t : S hw)
        → mfd_xfer hw now fuel func reg val mask s ≡ some ((ret, value), t)
        → Kept s.vars t.vars
    mfd_xfer_keeps fuel func reg val mask s ret value t e =
        mfd_xfer-Keeps fuel func reg val mask s ((ret, value), t) e
