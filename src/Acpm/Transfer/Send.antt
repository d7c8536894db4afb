-- ===== src/Acpm/Transfer/Send.antt =====
-- s9p_send of src/soc/s9p-acpm.c: the order of its writes.
use galaxy_s9plus_mainline_l.Common.{
  ℕ, zero, suc, ◌-◌, ◌*◌, ◌/◌, ◌^◌, ◌≡◌, refl, sym, ◌∙◌, ap, ap₂, Bool, true, false, Bool-cases,
  Option-cases, none, some, List, [], ◌∷◌, ◌==◌, ltb, inl, inr, arith, Ret, ebusy,
}
use galaxy_s9plus_mainline_l.Platform.{Hardware, Event, write, rail, pause, smc}
use galaxy_s9plus_mainline_l.Platform
use galaxy_s9plus_mainline_l.Acpm.{Channel, AcpmVars, S, sram_read, sram_at, intgr0}
use galaxy_s9plus_mainline_l.Acpm.Transfer.{Words, wait_room, put_command, send, next, slot}

-- The log without its pauses.
abbrev pub acts : List Event → List Event
acts [] = []
acts (pause us ∷ es) = acts es
acts (write a v ∷ es) = write a v ∷ acts es
acts (rail r v ret ∷ es) = rail r v ret ∷ acts es
acts (smc f a r ∷ es) = smc f a r ∷ acts es

-- The writes of a command, newest first.
abbrev pub command_writes : Channel → Words → ℕ → List Event → List Event
command_writes ch cmd front es =
    write intgr0 (2 ^ ch.id * 2 ^ 16)
    ∷ write (sram_at ch.tx_front) (next ch.q_len front)
    ∷ write (sram_at (slot ch ch.tx_base front 3)) cmd.w3
    ∷ write (sram_at (slot ch ch.tx_base front 2)) cmd.w2
    ∷ write (sram_at (slot ch ch.tx_base front 1)) cmd.w1
    ∷ write (sram_at (slot ch ch.tx_base front 0)) cmd.w0
    ∷ es

-- What a send may end with.
abbrev pub Sent : Channel → Words → ℕ → List Event → Ret → List Event → Type 0
Sent ch cmd front before none after = after ≡ command_writes ch cmd front before
Sent ch cmd front before (some e) after = (e ≡ ebusy) × (after ≡ before)

module _ {World : Type 0} (hw : Hardware World) (now : World → ℕ) where
  wait_room-quiet :
      (fuel t0 nxt : ℕ) (s : S hw) (r : Bool × S hw)
      → wait_room hw now fuel t0 nxt s ≡ some r
      → (acts r.1.log ≡ acts s.log) × (r.1.vars ≡ s.vars)
  unfolding wait_room
  wait_room-quiet zero t0 nxt s r e = cc
  wait_room-quiet (suc fuel) t0 nxt s r e =
      let ih =
        wait_room-quiet fuel t0 nxt
          (Platform.delay hw 50 (sram_read hw s.vars.mfd_ch.tx_rear s).1).1 r in
      let (rear, t) = sram_read hw s.vars.mfd_ch.tx_rear s in
      elim (Bool-cases (nxt == rear)) [
        | inr room ↦ let h = rw (wait_room, room) at e in ground arith
        | inl full ↦ elim (Bool-cases (ltb 20 ((now t.world - t0) / 1000000))) [
          | inl late ↦ let h = rw (wait_room, full, late) at e in ground arith
          | inr wait ↦ ih (rw (wait_room, full, wait) at e)
        ]
      ]

  put_command-log :
      (cmd : Words) (front nxt : ℕ) (s : S hw)
      → nxt ≡ next s.vars.mfd_ch.q_len front
      → acts (put_command hw now cmd front nxt s).1.log
        ≡ command_writes s.vars.mfd_ch cmd front (acts s.log)
  unfolding put_command
  put_command-log cmd front nxt s e = rw e refl

  -- A send that comes back has either written the four words of the command into the slot at the
  -- front index, then moved that index to the next slot, then rung the doorbell, and nothing else;
  -- or it returns -EBUSY and has written nothing.
  pub send_order :
      (fuel : ℕ) (cmd : Words) (s : S hw) (ret : Ret) (t : S hw)
      → send hw now fuel cmd s ≡ some (ret, t)
      → Sent s.vars.mfd_ch cmd
          (hw.read_reg (sram_at s.vars.mfd_ch.tx_front) s.world).0
          (acts s.log)
          ret
          (acts t.log)
  unfolding send
  send_order fuel cmd s ret t e =
      let (front, a) = sram_read hw s.vars.mfd_ch.tx_front s in
      let nxt = next s.vars.mfd_ch.q_len front in
      elim (Option-cases (wait_room hw now fuel (now s.world) nxt a)) [
        | inl out ↦ absurd (let h = rw (send, out) at e in cc)
        | inr ((true, u), run) ↦
            let h : some (none, (put_command hw now cmd front nxt u).1) ≡ some (ret, t) =
              rw (send, run) at e in
            let (l, v) = wait_room-quiet fuel (now s.world) nxt a (true, u) run in
            let p = put_command-log cmd front nxt u in
            let lg : acts (put_command hw now cmd front nxt u).1.log ≡ acts t.log =
              ap (λ o. elim o [ none ↦ acts s.log | some q ↦ acts q.1.log ]) h in
            let k : none ≡ ret = ap (λ o. elim o [ none ↦ ret | some q ↦ q.0 ]) h in
            rw (sym k) (
              sym lg
              ∙ p (ap (λ (x : AcpmVars). next x.mfd_ch.q_len front) (sym v))
              ∙ ap₂ (λ (x : AcpmVars) (g : List Event). command_writes x.mfd_ch cmd front g) v l)
        | inr ((false, u), run) ↦
            let h : some (some ebusy, u) ≡ some (ret, t) = rw (send, run) at e in
            let (l, v) = wait_room-quiet fuel (now s.world) nxt a (false, u) run in
            let lg : acts u.log ≡ acts t.log =
              ap (λ o. elim o [ none ↦ acts s.log | some q ↦ acts q.1.log ]) h in
            let k : some ebusy ≡ ret = ap (λ o. elim o [ none ↦ ret | some q ↦ q.0 ]) h in
            rw (sym k) (refl, sym lg ∙ l)
      ]
