-- ===== src/Acpm/Transfer/Waits.antt =====
-- s9p_send of src/soc/s9p-acpm.c comes back: the clock bounds its wait for room.
use galaxy_s9plus_mainline_l.Common.{
  ℕ, zero, suc, ◌+◌, ◌-◌, ◌*◌, ◌/◌, ◌<◌, ◌≤◌, refl, true, false, Bool-cases, ◌==◌, ltb, inl, inr,
  arith,
}
use galaxy_s9plus_mainline_l.Platform.{Hardware}
use galaxy_s9plus_mainline_l.Platform
use galaxy_s9plus_mainline_l.Platform.Monad.Loop.{Returns}
use galaxy_s9plus_mainline_l.Acpm.{S, sram_read, sram_at}
use galaxy_s9plus_mainline_l.Acpm.Transfer.{Words, wait_room, send, next}

-- The clock never goes back, and a sleep takes its time.
pub record Ticks {World : Type 0} (hw : Hardware World) (now : World → ℕ) : Type 0 where
  pub reads : (a : ℕ) (w : World) → now w ≤ now (hw.read_reg a w).1
  pub sleeps : (us : ℕ) (w : World) → now w + us * 1000 ≤ now (hw.elapse us w)

module _ {World : Type 0} (hw : Hardware World) (now : World → ℕ) (ticks : Ticks hw now) where
  wait_room-Returns :
      (fuel t0 nxt : ℕ) (s : S hw)
      → t0 + 21000000 ≤ now s.world + fuel * 50000
      → Returns (wait_room hw now (suc fuel) t0 nxt) s
  unfolding wait_room
  wait_room-Returns zero t0 nxt s h =
      let (rear, t) = sram_read hw s.vars.mfd_ch.tx_rear s in
      let later = ticks.reads (sram_at s.vars.mfd_ch.tx_rear) s.world in
      elim (Bool-cases (nxt == rear)) [
        | inl full ↦ elim (Bool-cases (ltb 20 ((now t.world - t0) / 1000000))) [
          | inl late ↦ rw (wait_room, full, late) ((false, t), refl)
          | inr early ↦ absurd (let k : now t.world - t0 < 21000000 = ground arith in omega arith)
        ]
        | inr room ↦ rw (wait_room, room) ((true, t), refl)
      ]
  wait_room-Returns (suc fuel) t0 nxt s h =
      let (rear, t) = sram_read hw s.vars.mfd_ch.tx_rear s in
      let later = ticks.reads (sram_at s.vars.mfd_ch.tx_rear) s.world in
      elim (Bool-cases (nxt == rear)) [
        | inl full ↦ elim (Bool-cases (ltb 20 ((now t.world - t0) / 1000000))) [
          | inl late ↦ rw (wait_room, full, late) ((false, t), refl)
          | inr early ↦
              let u = (Platform.delay hw 50 t).1 in
              let longer : now t.world + 50 * 1000 ≤ now u.world = ticks.sleeps 50 t.world in
              rw (wait_room, full, early) (wait_room-Returns fuel t0 nxt u (omega arith))
        ]
        | inr room ↦ rw (wait_room, room) ((true, t), refl)
      ]

  send_after :
      (fuel : ℕ) (cmd : Words) (s : S hw)
      → let (front, a) = sram_read hw s.vars.mfd_ch.tx_front s in
        Returns (wait_room hw now fuel (now s.world) (next s.vars.mfd_ch.q_len front)) a
        → Returns (send hw now fuel cmd) s
  unfolding send
  send_after fuel cmd s ((true, u), e) = rw (send, e) (_, refl)
  send_after fuel cmd s ((false, u), e) = rw (send, e) (_, refl)

  -- With a clock that never goes back and sleeps that take their time, 421 rounds of fuel are enough
  -- for every send, whatever the firmware shows of its ring.
  pub send-Returns :
      (fuel : ℕ) (cmd : Words) (s : S hw) → 420 ≤ fuel → Returns (send hw now (suc fuel) cmd) s
  send-Returns fuel cmd s enough =
      let (front, a) = sram_read hw s.vars.mfd_ch.tx_front s in
      let later = ticks.reads (sram_at s.vars.mfd_ch.tx_front) s.world in
      send_after (suc fuel) cmd s
        (wait_room-Returns fuel (now s.world) (next s.vars.mfd_ch.q_len front) a (omega arith))
