-- ===== src/Acpm/Transfer.antt =====
-- The transfer of src/soc/s9p-acpm.c: s9p_consume_rx, s9p_send, s9p_receive, s9p_acpm_mfd_xfer and
-- the three functions that the other drivers call. Its loops wait for the firmware or for the
-- clock, so they run on fuel.
pub mod Drain
pub mod Waits
pub mod Send
pub mod Keeps
pub mod Ends
use galaxy_s9plus_mainline_l.Common.{
  ℕ, zero, suc, ◌+◌, ◌-◌, ◌*◌, ◌/◌, ◌%◌, ◌^◌, Bool, true, false, not, ◌&&◌, Option, none, some, Ret,
  Errno, enodev, ebusy, etimedout, firmware, ltb, ◌==◌, bit, if◌then◌else◌, ◌⊎◌, inl, inr,
}
use galaxy_s9plus_mainline_l.Platform.{Hardware, M, pure}
use galaxy_s9plus_mainline_l.Platform
use galaxy_s9plus_mainline_l.Platform.Monad.Loop.{Loop, lift, ◌>>=◌, ◌>>◌}
use galaxy_s9plus_mainline_l.Acpm.{
  Channel, AcpmVars, S, sram_read, sram_write, intgr0, intcr1, intsr1,
}

-- The four words of a command or of a reply.
pub record Words : Type 0 where
  pub w0 : ℕ
  pub w1 : ℕ
  pub w2 : ℕ
  pub w3 : ℕ

-- The index after `i`, in u32 arithmetic.
abbrev pub next : ℕ → ℕ → ℕ
next q i = (i + 1) % 2 ^ 32 % q

-- Word `k` of slot `i` of the ring at `base`.
abbrev pub slot : Channel → ℕ → ℕ → ℕ → ℕ
slot ch base i k = (base + ch.q_elem_size * i + 4 * k) % 2 ^ 32

-- The bits 16 to 21 hold the sequence number.
abbrev pub seq_of : ℕ → ℕ
seq_of w = w / 2 ^ 16 % 2 ^ 6

abbrev pub with_seq : ℕ → ℕ → ℕ
with_seq n w = w / 2 ^ 22 * 2 ^ 22 + n % 2 ^ 6 * 2 ^ 16 + w % 2 ^ 16

-- The command before its sequence number is in; the arguments are u8.
unfoldable pub command : ℕ → ℕ → ℕ → ℕ → Words
command func reg val mask = record {
  w0 = 1 * 2 ^ 8 + reg % 2 ^ 8;
  w1 = func % 2 ^ 8 + val % 2 ^ 8 * 2 ^ 8 + mask % 2 ^ 8 * 2 ^ 16;
  w2 = 0;
  w3 = 0;
}

module _ {World : Type 0} (hw : Hardware World) where
  -- The body of the loop over the reply ring: `wanted` says that the caller passed a buffer.
  unfoldable pub look : Bool → ℕ → ℕ → Option Words → M (S hw) (Option Words)
  look wanted want i found s =
      let ch = s.vars.mfd_ch in
      let (v, t) = sram_read hw (slot ch ch.rx_base i 0) s in
      let (a, t0) = sram_read hw (slot ch ch.rx_base i 0) t in
      let (b, t1) = sram_read hw (slot ch ch.rx_base i 1) t0 in
      let (c, t2) = sram_read hw (slot ch ch.rx_base i 2) t1 in
      let (d, t3) = sram_read hw (slot ch ch.rx_base i 3) t2 in
      if wanted && (seq_of v == want)
      then (some (record { w0 = a; w1 = b; w2 = c; w3 = d }), t3)
      else (found, t)

  unfoldable pub drain : ℕ → Bool → ℕ → ℕ → ℕ → Option Words → Loop (S hw) (Option Words)
  drain zero wanted want front i found s = none
  drain (suc fuel) wanted want front i found s =
      let (found', t) = look wanted want i found s in
      let rest = drain fuel wanted want front (next s.vars.mfd_ch.q_len i) found' t in
      if i == front then some (found, s) else rest

  -- The end of s9p_consume_rx: the ring is marked read and the mailbox interrupt acknowledged.
  unfoldable pub acknowledge : ℕ → ℕ → M (S hw) (Unit {0})
  acknowledge rear front s =
      let ch = s.vars.mfd_ch in
      let t = if rear == front then s else (sram_write hw ch.rx_rear front s).1 in
      Platform.writel hw intcr1 (2 ^ ch.id) t

  unfoldable pub consume_rx : ℕ → Bool → ℕ → Loop (S hw) (Option Words)
  consume_rx fuel wanted want s =
      let (front, t) = sram_read hw s.vars.mfd_ch.rx_front s in
      let (rear, u) = sram_read hw s.vars.mfd_ch.rx_rear t in
      elim (drain fuel wanted want front rear none u) [
        | none ↦ none
        | some (found, v) ↦ some (found, (acknowledge rear front v).1)
      ]

  module _ (now : World → ℕ) where
    -- ktime_ms_delta of the clock, which `now` gives in nanoseconds.
    abbrev pub ms_since : ℕ → S hw → ℕ
    ms_since t0 s = (now s.world - t0) / 1000000

    -- The wait for room in the command ring; the result says whether there is any.
    unfoldable pub wait_room : ℕ → ℕ → ℕ → Loop (S hw) Bool
    wait_room zero t0 nxt s = none
    wait_room (suc fuel) t0 nxt s =
        let (rear, t) = sram_read hw s.vars.mfd_ch.tx_rear s in
        let rest = wait_room fuel t0 nxt ((Platform.delay hw 50 t).1) in
        if not (nxt == rear)
        then some (true, t)
        else if ltb 20 (ms_since t0 t)
        then some (false, t)
        else rest

    -- The command's words, the front index, and the doorbell.
    unfoldable pub put_command : Words → ℕ → ℕ → M (S hw) (Unit {0})
    put_command cmd front nxt s =
        let ch = s.vars.mfd_ch in
        let t0 = (sram_write hw (slot ch ch.tx_base front 0) cmd.w0 s).1 in
        let t1 = (sram_write hw (slot ch ch.tx_base front 1) cmd.w1 t0).1 in
        let t2 = (sram_write hw (slot ch ch.tx_base front 2) cmd.w2 t1).1 in
        let t3 = (sram_write hw (slot ch ch.tx_base front 3) cmd.w3 t2).1 in
        let t4 = (sram_write hw ch.tx_front nxt t3).1 in
        Platform.writel hw intgr0 (2 ^ ch.id * 2 ^ 16) t4

    unfoldable pub send : ℕ → Words → Loop (S hw) Ret
    unfolding put_command
    send fuel cmd s =
        let t0 = now s.world in
        let (front, t) = sram_read hw s.vars.mfd_ch.tx_front s in
        let nxt = next s.vars.mfd_ch.q_len front in
        elim (wait_room fuel t0 nxt t) [
          | none ↦ none
          | some (true, u) ↦ some (none, (put_command cmd front nxt u).1)
          | some (false, u) ↦ some (some ebusy, u)
        ]

    -- Whether neither the interrupt nor the ring has a reply.
    unfoldable pub nothing_there : M (S hw) Bool
    nothing_there s =
        let ch = s.vars.mfd_ch in
        let (v, t) = Platform.readl hw intsr1 s in
        let (rear, u0) = sram_read hw ch.rx_rear t in
        let (front, u1) = sram_read hw ch.rx_front u0 in
        if bit ch.id v then (false, t) else (rear == front, u1)

    -- `none` is -ETIMEDOUT.
    unfoldable pub receive : ℕ → ℕ → ℕ → ℕ → Loop (S hw) (Option Words)
    receive zero t0 want timeout s = none
    receive (suc fuel) t0 want timeout s =
        let (idle, t) = nothing_there s in
        let later = receive fuel t0 want timeout ((Platform.delay hw 50 t).1) in
        let taken : Option (Option Words × S hw) = elim (consume_rx fuel true want t) [
          | none ↦ none
          | some (none, u) ↦ receive fuel t0 want timeout u
          | some (some r, u) ↦ some (some r, u)
        ] in
        if not (ltb (ms_since t0 s) timeout) then some (none, s) else if idle then later else taken

    unfoldable pub next_seq : M (S hw) ℕ
    next_seq s = let n = s.vars.seq % 63 + 1 in (n, record s { vars = record (s.vars) { seq = n } })

    -- What an attempt makes of the send: the reply, or the error.
    unfoldable pub after_send : ℕ → ℕ → Ret → Loop (S hw) (Errno ⊎ Words)
    after_send fuel want (some e) s = some (inl e, (Platform.delay hw 1000 s).1)
    after_send fuel want none s = elim (receive fuel (now s.world) want 600 s) [
      | none ↦ none
      | some (none, t) ↦ some (inl etimedout, t)
      | some (some w, t) ↦ some (inr w, t)
    ]

    unfoldable pub attempt : ℕ → Words → Loop (S hw) (Errno ⊎ Words)
    unfolding next_seq
    attempt fuel cmd = consume_rx fuel false 0 >>= (λ _ s.
        (let (n, t) = next_seq s in
          (send fuel (record cmd { w0 = with_seq n cmd.w0 }) >>= after_send fuel n) t))

    unfoldable pub attempts : ℕ → Words → ℕ → Errno → Loop (S hw) (Errno ⊎ Words)
    attempts fuel cmd zero e s = some (inl e, s)
    attempts fuel cmd (suc n) e s = elim (attempt fuel cmd s) [
      | none ↦ none
      | some (inl e', t) ↦ attempts fuel cmd n e' t
      | some (inr w, t) ↦ some (inr w, t)
    ]

    -- The result of a transfer: the return code, and the byte read where the function is a read.
    unfoldable pub result : ℕ → Errno ⊎ Words → M (S hw) (Ret × Option ℕ)
    result func (inl e) s = ((some e, none), s)
    result func (inr r) s =
        let code = r.w1 / 2 ^ 24 % 2 ^ 8 in
        (
          (
            if code == 0 then none else some (firmware code),
            if func == 0 then some (r.w1 / 2 ^ 8 % 2 ^ 8) else none,
          ),
          record s { vars = record (s.vars) { acpm_ready = true } },
        )

    -- The check of `mbox`.
    unfoldable pub if_mapped : Bool → Loop (S hw) (Ret × Option ℕ) → Loop (S hw) (Ret × Option ℕ)
    if_mapped false run s = some ((some enodev, none), s)
    if_mapped true run s = run s

    unfoldable pub mfd_xfer : ℕ → ℕ → ℕ → ℕ → ℕ → Loop (S hw) (Ret × Option ℕ)
    unfolding command attempts result if_mapped
    mfd_xfer fuel func reg val mask s =
        if_mapped s.vars.mapped
          (attempts fuel (command func reg val mask) 3 enodev >>= (λ r. lift (result func r))) s

    unfoldable pub pmic_write : ℕ → ℕ → ℕ → Loop (S hw) Ret
    pmic_write fuel reg val = mfd_xfer fuel 1 reg val 0 >>= (λ r. lift (pure r.0))

    unfoldable pub pmic_update : ℕ → ℕ → ℕ → ℕ → Loop (S hw) Ret
    pmic_update fuel reg val mask = mfd_xfer fuel 2 reg val mask >>= (λ r. lift (pure r.0))

    unfoldable pub pmic_read : ℕ → ℕ → Loop (S hw) (Ret × Option ℕ)
    pmic_read fuel reg = mfd_xfer fuel 0 reg 0 0
