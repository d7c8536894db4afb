-- ===== src/Acpm/Transfer/Ends.antt =====
-- A transfer of src/soc/s9p-acpm.c comes back, whatever the firmware does, as long as the ring indices
-- it shows lie in the ring.
use galaxy_s9plus_mainline_l.Common.{
  ℕ, zero, suc, ◌+◌, ◌-◌, ◌*◌, ◌/◌, ◌^◌, ◌≤◌, ◌<◌, ◌≡◌, refl, ap, ◌∙◌, Bool, true, false,
  Bool-cases, Option, Option-cases, none, some, ◌==◌, ltb, ◌&&◌, bit, ◌⊎◌, inl, inr, arith, Ret,
  Errno, enodev, etimedout,
}
use galaxy_s9plus_mainline_l.Platform.{Hardware}
use galaxy_s9plus_mainline_l.Platform
use galaxy_s9plus_mainline_l.Platform.Monad.Loop.{Returns, lift, ◌>>=◌}
use galaxy_s9plus_mainline_l.Acpm.{Channel, S, sram_read, sram_at, sram_write, intcr1, intsr1}
use galaxy_s9plus_mainline_l.Acpm.Transfer.{
  Words, look, drain, acknowledge, consume_rx, nothing_there, receive, send, next_seq, after_send,
  attempt, attempts, result, if_mapped, mfd_xfer, command, seq_of, slot, next, with_seq,
}
use galaxy_s9plus_mainline_l.Acpm.Transfer.Drain.{consume_rx_empties}
use galaxy_s9plus_mainline_l.Acpm.Transfer.Waits.{Ticks, send-Returns}
use galaxy_s9plus_mainline_l.Acpm.Transfer.Keeps.{send-Keeps, attempt-Keeps}

-- Every read takes a nanosecond at least and no access takes the clock back; the two indices of the
-- reply ring that the firmware shows are those of entries.
pub record Serves {World : Type 0} (hw : Hardware World) (now : World → ℕ) (ch : Channel)
    : Type 0 where
  pub reads : (a : ℕ) (w : World) → now w + 1 ≤ now (hw.read_reg a w).1
  pub writes : (a v : ℕ) (w : World) → now w ≤ now (hw.write_reg a v w)
  pub sleeps : (us : ℕ) (w : World) → now w + us * 1000 ≤ now (hw.elapse us w)
  pub front_inside : (w : World) → (hw.read_reg (sram_at ch.rx_front) w).0 < ch.q_len
  pub rear_inside : (w : World) → (hw.read_reg (sram_at ch.rx_rear) w).0 < ch.q_len
  pub fits : ch.q_len < 4294967296

later : {a b c : ℕ} → suc a ≤ b → b ≤ c → a ≤ c
later x y = omega arith

module _ {World : Type 0} (hw : Hardware World) (now : World → ℕ) (ch : Channel)
    (serves : Serves hw now ch) where
  ticks : Ticks hw now
  ticks = record {
    reads = λ a w. (let h = serves.reads a w in omega arith);
    sleeps = serves.sleeps;
  }

  look_later :
      (wanted : Bool) (want i : ℕ) (found : Option Words) (s : S hw)
      → now s.world ≤ now (look hw wanted want i found s).1.world
  unfolding look
  look_later wanted want i found s =
      let c = s.vars.mfd_ch in
      let (v, t) = sram_read hw (slot c c.rx_base i 0) s in
      let (a, t0) = sram_read hw (slot c c.rx_base i 0) t in
      let (b, t1) = sram_read hw (slot c c.rx_base i 1) t0 in
      let (d, t2) = sram_read hw (slot c c.rx_base i 2) t1 in
      let e0 = serves.reads (sram_at (slot c c.rx_base i 0)) s.world in
      let e1 = serves.reads (sram_at (slot c c.rx_base i 0)) t.world in
      let e2 = serves.reads (sram_at (slot c c.rx_base i 1)) t0.world in
      let e3 = serves.reads (sram_at (slot c c.rx_base i 2)) t1.world in
      let e4 = serves.reads (sram_at (slot c c.rx_base i 3)) t2.world in
      elim (Bool-cases (wanted && (seq_of v == want))) [
        | inl hit ↦ rw hit (omega arith)
        | inr miss ↦ rw miss (omega arith)
      ]

  drain_later :
      (fuel : ℕ) (wanted : Bool) (want front i : ℕ) (found : Option Words) (s : S hw)
      (r : Option Words × S hw)
      → drain hw fuel wanted want front i found s ≡ some r
      → now s.world ≤ now r.1.world
  unfolding drain
  drain_later zero wanted want front i found s r e = absurd cc
  drain_later (suc fuel) wanted want front i found s r e = elim (Bool-cases (i == front)) [
    | inl there ↦
        let h = rw there at e in
        let same : now s.world ≡ now r.1.world =
          ap (λ o. elim o [ none ↦ now s.world | some q ↦ now q.1.world ]) h in
        omega arith
    | inr more ↦
        let h = rw more at e in
        let first = look_later wanted want i found s in
        let rest =
          drain_later fuel wanted want front (next s.vars.mfd_ch.q_len i)
            (look hw wanted want i found s).0 (look hw wanted want i found s).1 r h in
        omega arith
  ]

  acknowledge_later :
      (rear front : ℕ) (s : S hw) → now s.world ≤ now (acknowledge hw rear front s).1.world
  unfolding acknowledge
  acknowledge_later rear front s = elim (Bool-cases (rear == front)) [
    | inl same ↦ rw same (serves.writes intcr1 (2 ^ s.vars.mfd_ch.id) s.world)
    | inr more ↦
        let t = (sram_write hw s.vars.mfd_ch.rx_rear front s).1 in
        let e0 = serves.writes (sram_at s.vars.mfd_ch.rx_rear) front s.world in
        let e1 = serves.writes intcr1 (2 ^ s.vars.mfd_ch.id) t.world in rw more (omega arith)
  ]

  consume_rx_later :
      (fuel : ℕ) (wanted : Bool) (want : ℕ) (s : S hw) (r : Option Words × S hw)
      → consume_rx hw fuel wanted want s ≡ some r
      → now s.world + 1 ≤ now r.1.world
  unfolding consume_rx
  consume_rx_later fuel wanted want s r e =
      let (front, a) = sram_read hw s.vars.mfd_ch.rx_front s in
      let (rear, b) = sram_read hw s.vars.mfd_ch.rx_rear a in
      let e0 = serves.reads (sram_at s.vars.mfd_ch.rx_front) s.world in
      let e1 = serves.reads (sram_at s.vars.mfd_ch.rx_rear) a.world in
      elim (Option-cases (drain hw fuel wanted want front rear none b)) [
        | inl out ↦ absurd (let h = rw (consume_rx, out) at e in cc)
        | inr ((found, t), run) ↦
            let h = rw (consume_rx, run) at e in
            let walked = drain_later fuel wanted want front rear none b (found, t) run in
            let done = acknowledge_later rear front t in
            let same : now (acknowledge hw rear front t).1.world ≡ now r.1.world =
              ap (λ o. elim o [ none ↦ now s.world | some q ↦ now q.1.world ]) h in
            omega arith
      ]

  front_in : (c : Channel) (w : World) → c ≡ ch → (hw.read_reg (sram_at c.rx_front) w).0 < c.q_len
  front_in c w e = rw e (serves.front_inside w)

  rear_in : (c : Channel) (w : World) → c ≡ ch → (hw.read_reg (sram_at c.rx_rear) w).0 < c.q_len
  rear_in c w e = rw e (serves.rear_inside w)

  consume_rx_ends :
      (fuel : ℕ) (wanted : Bool) (want : ℕ) (s : S hw)
      → s.vars.mfd_ch ≡ ch
      → ch.q_len ≤ fuel
      → (found : Option Words) × (t : S hw) × (consume_rx hw fuel wanted want s ≡ some (found, t))
        × (t.vars.mfd_ch ≡ ch)
        × (now s.world + 1 ≤ now t.world)
  consume_rx_ends fuel wanted want s e enough =
      let size : s.vars.mfd_ch.q_len ≡ ch.q_len = ap (λ c. c.q_len) e in
      let fits = serves.fits in
      let (found, t, run, same, done) =
        consume_rx_empties hw fuel wanted want s (front_in s.vars.mfd_ch s.world e)
          (rear_in s.vars.mfd_ch _ e) (omega arith) (omega arith) in
      (
        found,
        t,
        run,
        ap (λ v. v.mfd_ch) same ∙ e,
        consume_rx_later fuel wanted want s (found, t) run,
      )

  nothing_there_later :
      (s : S hw)
      → let t = (nothing_there hw now s).1 in (t.vars ≡ s.vars) × (now s.world + 1 ≤ now t.world)
  unfolding nothing_there
  nothing_there_later s =
      let (v, t) = Platform.readl hw intsr1 s in
      let (rear, u0) = sram_read hw s.vars.mfd_ch.rx_rear t in
      let e0 = serves.reads intsr1 s.world in
      let e1 = serves.reads (sram_at s.vars.mfd_ch.rx_rear) t.world in
      let e2 = serves.reads (sram_at s.vars.mfd_ch.rx_front) u0.world in
      elim (Bool-cases (bit s.vars.mfd_ch.id v)) [
        | inl raised ↦ rw raised (refl, e0)
        | inr quiet ↦ rw quiet (refl, omega arith)
      ]

  early_lem :
      (t0 t timeout q f : ℕ)
      → ltb ((t - t0) / 1000000) timeout ≡ true
      → t0 + timeout * 1000000 + q ≤ t + f
      → q < f
  early_lem t0 t timeout q f early h = ground arith

  -- What receive makes of a ring that was read.
  abbrev taken : ℕ → ℕ → ℕ → ℕ → Option (Option Words × S hw) → Option (Option Words × S hw)
  taken fuel t0 want timeout o = elim o [
    | none ↦ none
    | some (none, u) ↦ receive hw now fuel t0 want timeout u
    | some (some r, u) ↦ some (some r, u)
  ]

  taken_ends :
      (fuel t0 want timeout : ℕ) (found : Option Words) (u : S hw)
      → Returns (receive hw now fuel t0 want timeout) u
      → (r : Option Words × S hw) × (taken fuel t0 want timeout (some (found, u)) ≡ some r)
  taken_ends fuel t0 want timeout none u h = h
  taken_ends fuel t0 want timeout (some w) u h = (_, refl)

  receive_ends :
      (fuel t0 want timeout : ℕ) (s : S hw)
      → s.vars.mfd_ch ≡ ch
      → t0 + timeout * 1000000 + ch.q_len ≤ now s.world + fuel
      → Returns (receive hw now (suc fuel) t0 want timeout) s
  unfolding receive
  receive_ends zero t0 want timeout s e h =
      elim (Bool-cases (ltb ((now s.world - t0) / 1000000) timeout)) [
        | inr over ↦ rw (receive, over) (_, refl)
        | inl early ↦
            absurd (let k = early_lem t0 (now s.world) timeout ch.q_len 0 early h in omega arith)
      ]
  receive_ends (suc fuel) t0 want timeout s e h =
      elim (Bool-cases (ltb ((now s.world - t0) / 1000000) timeout)) [
        | inr over ↦ rw (receive, over) (_, refl)
        | inl early ↦
            let room = early_lem t0 (now s.world) timeout ch.q_len (suc fuel) early h in
            let (idle, t) = nothing_there hw now s in
            let (same, seen) = nothing_there_later s in
            let e2 : t.vars.mfd_ch ≡ ch = ap (λ v. v.mfd_ch) same ∙ e in
            elim (Bool-cases idle) [
              | inl quiet ↦
                  let slept = serves.sleeps 50 t.world in
                  rw (receive, early, quiet)
                    (receive_ends fuel t0 want timeout (Platform.delay hw 50 t).1 e2 (omega arith))
              | inr there ↦
                  let (found, u, run, e3, read) =
                    consume_rx_ends (suc fuel) true want t e2 (omega arith) in
                  rw (receive, early, there, run)
                    (taken_ends (suc fuel) t0 want timeout found u
                      (receive_ends fuel t0 want timeout u e3 (omega arith)))
            ]
      ]

  bind_ends :
      {A B : Type 0} (m : S hw → Option (A × S hw)) (f : A → S hw → Option (B × S hw)) (s : S hw)
      (a : A) (t : S hw)
      → m s ≡ some (a, t)
      → Returns (f a) t
      → Returns (m >>= f) s
  bind_ends m f s a t run (r, e) = (r, rw (run, ◌>>=◌) e)

  abbrev received : Option (Option Words × S hw) → Option ((Errno ⊎ Words) × S hw)
  received o = elim o [
    | none ↦ none
    | some (none, t) ↦ some (inl etimedout, t)
    | some (some w, t) ↦ some (inr w, t)
  ]

  received_ends :
      (o : Option Words) (t : S hw)
      → (r : (Errno ⊎ Words) × S hw) × (received (some (o, t)) ≡ some r)
  received_ends none t = (_, refl)
  received_ends (some w) t = (_, refl)

  after_send_ends :
      (fuel want : ℕ) (ret : Ret) (s : S hw)
      → s.vars.mfd_ch ≡ ch
      → 600000000 + ch.q_len ≤ fuel
      → Returns (after_send hw now (suc fuel) want ret) s
  unfolding after_send
  after_send_ends fuel want (some x) s e enough = (_, refl)
  after_send_ends fuel want none s e enough =
      let ((o, t), run) = receive_ends fuel (now s.world) want 600 s e (omega arith) in
      rw (after_send, run) (received_ends o t)

  next_seq_channel : (s : S hw) → (next_seq hw now s).1.vars.mfd_ch ≡ s.vars.mfd_ch
  unfolding next_seq
  next_seq_channel s = refl

  attempt_ends :
      (fuel : ℕ) (cmd : Words) (s : S hw)
      → s.vars.mfd_ch ≡ ch
      → 600000000 + ch.q_len ≤ fuel
      → Returns (attempt hw now (suc fuel) cmd) s
  unfolding attempt
  attempt_ends fuel cmd s e enough =
      let (found, t, run, e2, read) = consume_rx_ends (suc fuel) false 0 s e (omega arith) in
      let (n, u) = next_seq hw now t in
      let numbered = record cmd { w0 = with_seq n cmd.w0 } in
      let ((ret, v), sent) = send-Returns hw now ticks fuel numbered u (omega arith) in
      let kept = (send-Keeps hw now (suc fuel) numbered u (ret, v) sent).same_channel in
      bind_ends (consume_rx hw (suc fuel) false 0) _ s found t run (
        bind_ends (send hw now (suc fuel) numbered) (after_send hw now (suc fuel) n) u ret v sent
          (after_send_ends fuel n ret v (kept ∙ next_seq_channel t ∙ e2) enough))

  attempts_ends :
      (fuel : ℕ) (cmd : Words) (n : ℕ) (x : Errno) (s : S hw)
      → s.vars.mfd_ch ≡ ch
      → 600000000 + ch.q_len ≤ fuel
      → Returns (attempts hw now (suc fuel) cmd n x) s
  unfolding attempts
  attempts_ends fuel cmd zero x s e enough = (_, refl)
  attempts_ends fuel cmd (suc n) x s e enough =
      tried (attempt_ends fuel cmd s e enough)
        (λ y t c. attempts_ends fuel cmd n y t (c ∙ e) enough)
    where
      tried :
          Returns (attempt hw now (suc fuel) cmd) s
          → ((y : Errno) (t : S hw)
              → t.vars.mfd_ch ≡ s.vars.mfd_ch
              → Returns (attempts hw now (suc fuel) cmd n y) t)
          → Returns (attempts hw now (suc fuel) cmd (suc n) x) s
      tried ((inl y, t), run) again =
          let kept = (attempt-Keeps hw now (suc fuel) cmd s (inl y, t) run).same_channel in
          rw (attempts, run) (again y t kept)
      tried ((inr w, t), run) again = rw (attempts, run) (_, refl)

  if_mapped_ends :
      (b : Bool) (m : S hw → Option ((Ret × Option ℕ) × S hw)) (s : S hw)
      → Returns m s
      → Returns (if_mapped hw now b m) s
  unfolding if_mapped
  if_mapped_ends false m s h = (_, refl)
  if_mapped_ends true m s h = h

  -- A transfer comes back from every state of the channel `ch`, with every error as without: its three
  -- attempts wait 600 ms at most for a reply and 20 ms for room, and 600 000 000 rounds of fuel beside
  -- one for each entry of the ring are enough, where every read takes a nanosecond at least, a sleep
  -- takes its time, and the two indices of the reply ring that the firmware shows lie in the ring.
  pub mfd_xfer-Returns :
      (fuel func reg val mask : ℕ) (s : S hw)
      → s.vars.mfd_ch ≡ ch
      → 600000000 + ch.q_len ≤ fuel
      → Returns (mfd_xfer hw now (suc fuel) func reg val mask) s
  unfolding mfd_xfer
  mfd_xfer-Returns fuel func reg val mask s e enough =
      let cmd = command func reg val mask in
      let ((r, t), run) = attempts_ends fuel cmd 3 enodev s e enough in
      if_mapped_ends s.vars.mapped _ s (
        bind_ends (attempts hw now (suc fuel) cmd 3 enodev) (λ x. lift (result hw now func x)) s r t
          run (_, refl))
