-- ===== src/Acpm/Channels.antt =====
-- s9p_acpm_init of src/soc/s9p-acpm.c: what a driver that is up can rely on.
use galaxy_s9plus_mainline_l.Common.{
  ℕ, zero, suc, ap, ◌+◌, ◌*◌, ◌%◌, ◌^◌, ◌==◌, ◌≤◌, ◌≡◌, refl, Bool, true, false, ◌||◌, Bool-cases,
  Option, none, some, Ret, ltb, inl, inr, arith,
}
use galaxy_s9plus_mainline_l.Platform.{Hardware}
use galaxy_s9plus_mainline_l.Acpm.{
  Channel, AcpmVars, S, scan, read_channel, sram_at, take_channel, find_channel, init, mfd_channel,
}

-- Set up, with a ring that the driver's arithmetic can walk, or left unmapped.
abbrev pub IsSetUp : Ret → AcpmVars → Type 0
IsSetUp none v =
    (v.mapped ≡ true) × (v.scheduled ≡ true) × (2 ≤ v.mfd_ch.q_len) × (16 ≤ v.mfd_ch.q_elem_size)
IsSetUp (some e) v = v.mapped ≡ false

module _ {World : Type 0} (hw : Hardware World) where
  take_channel-IsSetUp :
      (found : Option Channel) (s : S hw)
      → s.vars.mapped ≡ true
      → let (ret, t) = take_channel hw found s in IsSetUp ret t.vars
  unfolding take_channel
  take_channel-IsSetUp none s m = refl
  take_channel-IsSetUp (some ch) s m = elim (Bool-cases (ltb ch.q_len 2 || ltb ch.q_elem_size 16)) [
    | inl bad ↦ rw (take_channel, bad) refl
    | inr good ↦ rw (take_channel, good) (m, refl, ground arith, ground arith)
  ]

  scan-mapped : (wanted table n i : ℕ) (s : S hw) → (scan hw wanted table n i s).1.vars ≡ s.vars
  unfolding scan read_channel
  scan-mapped wanted table zero i s = refl
  scan-mapped wanted table (suc n) i s =
      elim (Bool-cases
        ((hw.read_reg (sram_at ((table + i * 72) % 2 ^ 32)) s.world).0 % 2 ^ 8 == wanted)) [
          | inl hit ↦ rw (scan, hit) refl
          | inr miss ↦ rw (scan, miss) (scan-mapped wanted table n (i + 1) _)
        ]

  find_channel-mapped : (wanted : ℕ) (s : S hw) → (find_channel hw wanted s).1.vars ≡ s.vars
  unfolding find_channel
  find_channel-mapped wanted s = scan-mapped wanted _ _ 0 _

  -- Whatever the channel table holds, initialisation either returns 0 with the mailbox mapped, the
  -- touch work scheduled and a ring of at least two slots of at least 16 bytes, or returns an error
  -- and leaves the mailbox unmapped, so that every transfer is refused.
  pub init-IsSetUp :
      (mbox_ok sram_ok : Bool) (s : S hw)
      → IsSetUp (init hw mbox_ok sram_ok s).0 (init hw mbox_ok sram_ok s).1.vars
  unfolding init
  init-IsSetUp false sram_ok s = refl
  init-IsSetUp true false s = refl
  init-IsSetUp true true s =
      let t : S hw = record s { vars = record (s.vars) { mapped = true } } in
      let e = find_channel-mapped mfd_channel t in
      take_channel-IsSetUp (find_channel hw mfd_channel t).0 (find_channel hw mfd_channel t).1
        (ap (λ (v : AcpmVars). v.mapped) e)
