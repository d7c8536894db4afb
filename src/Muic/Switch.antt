-- ===== src/Muic/Switch.antt =====
-- When src/soc/s9p-max77705-muic.c switches D+ and D-, and with which transfers.
use galaxy_s9plus_mainline_l.Common.{
  ℕ, true, [], ◌||◌, is_ok, Ret, not, ◌<◌, ◌≤◌, ◌≡◌, refl, ap, false, not, ◌&&◌, Bool-cases, List,
  ◌∷◌, length, Option, Option-cases, none, some, Errno, emsgsize, ◌⊎◌, inl, inr, ltb, ◌==◌,
  if◌then◌else◌, arith, ◌%◌, ◌^◌, ==_iff,
}
use galaxy_s9plus_mainline_l.Muic.{
  Smbus, byte, block, Muic, reg_ap_dataout0, reg_ap_dataout32, vbus, end_opcode, opcode_write,
  set_if, set_path, answered, see_status,
}

module _ {World : Type 0} (i2c : Smbus World) where
  -- An opcode with its data is one block, and a byte that ends it wherever the block went through
  -- and leaves room; data of more than 32 bytes is refused and nothing is sent.
  pub opcode_write_lem :
      (opcode : ℕ) (data_bytes : List ℕ) (m : Muic World)
      → let (ret, t) = opcode_write i2c opcode data_bytes m in
        ((32 < length data_bytes) × (ret ≡ some emsgsize) × (t ≡ m))
        ⊎ ((length data_bytes ≤ 32)
            × ((e : Errno) × (ret ≡ some e)
                × (t.sent ≡ block reg_ap_dataout0 (opcode ∷ data_bytes) (some e) ∷ m.sent)))
        ⊎ ((length data_bytes ≡ 32)
            × (ret ≡ none)
            × (t.sent ≡ block reg_ap_dataout0 (opcode ∷ data_bytes) none ∷ m.sent))
        ⊎ ((length data_bytes < 32)
            × (t.sent
                ≡ byte reg_ap_dataout32 0 ret
                  ∷ block reg_ap_dataout0 (opcode ∷ data_bytes) none
                  ∷ m.sent))
  unfolding opcode_write end_opcode
  opcode_write_lem opcode data_bytes m = elim (Bool-cases (ltb 32 (length data_bytes))) [
    | inl long ↦ simp long (inl (ground arith, refl, refl))
    | inr fits ↦
        elim (Option-cases (i2c.write_block reg_ap_dataout0 (opcode ∷ data_bytes) m.world).0) [
          | inr (x, e) ↦ simp (fits, e) (inr (inl (ground arith, (x, refl, refl))))
          | inl sent ↦ elim (Bool-cases (ltb (length data_bytes) 32)) [
            | inl short ↦ simp (fits, sent, short) (inr (inr (inr (ground arith, refl))))
            | inr full ↦ simp (fits, sent, full) (inr (inr (inl (ground arith, refl, refl))))
          ]
        ]
  ]

  -- A status that says what the last one said sends nothing and changes nothing, also where the
  -- switch that the last one asked for was refused by the bus.
  pub see_status_twice :
      (bc : ℕ) (m : Muic World)
      → let t = (see_status i2c (inr bc) m).1 in (see_status i2c (inr bc) t).1 ≡ t
  unfolding see_status
  see_status_twice bc m = elim (Bool-cases (bc % 2 ^ 8 == m.last_bc)) [
    | inl same ↦ simp same refl
    | inr new ↦ simp (new, (==_iff (bc % 2 ^ 8) (bc % 2 ^ 8)).1 refl) refl
  ]

  -- What setting the path `p` puts on the bus, and what it makes of the flag: the opcode and the
  -- path as one block, which the bus may refuse, and else the end marker, which it may refuse too.
  -- The path counts as applied once both are through.
  abbrev pub Switched : ℕ → Muic World → Muic World → Type 0
  Switched p m t =
      ((e : Errno) × (t.sent ≡ block 0x21 (0x06 ∷ (p % 2 ^ 8) ∷ []) (some e) ∷ m.sent)
        × (t.applied ≡ m.applied))
      ⊎ ((r : Ret) × (t.sent ≡ byte 0x41 0 r ∷ block 0x21 (0x06 ∷ (p % 2 ^ 8) ∷ []) none ∷ m.sent)
          × (t.applied ≡ is_ok r || m.applied))

  set_if-Switched : (p : ℕ) (m : Muic World) → Switched p m (set_if i2c (some p) m).1
  unfolding set_if set_path opcode_write end_opcode answered
  set_if-Switched p m =
      let (ret, w) = i2c.write_block reg_ap_dataout0 (0x06 ∷ (p % 2 ^ 8) ∷ []) m.world in
      elim (Option-cases ret) [
        | inr (e, bad) ↦ simp bad (inl (e, refl, refl))
        | inl sent ↦ elim (Option-cases (i2c.write_byte reg_ap_dataout32 0 w).0) [
          | inr (e, bad) ↦ simp (sent, bad) (inr (some e, refl, refl))
          | inl ended ↦ simp (sent, ended) (inr (none, refl, refl))
        ]
      ]

  set_if_path :
      (path : Option ℕ) (p : ℕ) (m : Muic World)
      → path ≡ some p
      → Switched p m (set_if i2c path m).1
  set_if_path none p m h = absurd cc
  set_if_path (some q) p m h = let e : q ≡ p = cc in rw e (set_if-Switched p m)

  set_if-none : (path : Option ℕ) (m : Muic World) → path ≡ none → (set_if i2c path m).1 ≡ m
  unfolding set_if
  set_if-none none m h = refl
  set_if-none (some q) m h = absurd cc

  abbrev risen : ℕ → Muic World → Muic World
  risen bc m = record (if vbus bc && not (vbus m.last_bc) then (set_if i2c m.path m).1 else m) {
    last_bc = bc;
  }

  risen-Switched :
      (bc : ℕ) (m : Muic World) (p : ℕ)
      → vbus bc ≡ true
      → vbus m.last_bc ≡ false
      → m.path ≡ some p
      → Switched p m (risen bc m)
  risen-Switched bc m p up down path = rw (up, down) (set_if_path m.path p m path)

  not_risen :
      (bc : ℕ) (m : Muic World)
      → (vbus bc ≡ false) ⊎ (vbus m.last_bc ≡ true) ⊎ (m.path ≡ none)
      → risen bc m ≡ record m { last_bc = bc }
  not_risen bc m (inl low) = rw low refl
  not_risen bc m (inr (inl high)) = elim (Bool-cases (vbus bc)) [
    | inl up ↦ rw (up, high) refl
    | inr low ↦ rw low refl
  ]
  not_risen bc m (inr (inr gone)) = elim (Bool-cases (vbus bc && not (vbus m.last_bc))) [
    | inl rise ↦
        rw rise (ap (λ (q : Muic World). record q { last_bc = bc }) (set_if-none m.path m gone))
    | inr flat ↦ rw flat refl
  ]

  -- A status that was read, a byte, is remembered. Where it shows VBUS, the last one did not, and
  -- there is a path to set, the path goes out as one block, followed by the end marker if the block
  -- went through, and becomes applied if the marker did too; where there is no such rise or no path,
  -- nothing is sent and nothing else changes.
  pub see_status_lem :
      (bc : ℕ) (m : Muic World)
      → bc < 256
      → let t = (see_status i2c (inr bc) m).1 in
        (t.last_bc ≡ bc)
        × ((p : ℕ) → vbus bc ≡ true → vbus m.last_bc ≡ false → m.path ≡ some p → Switched p m t)
        × ((vbus bc ≡ false) ⊎ (vbus m.last_bc ≡ true) ⊎ (m.path ≡ none)
            → t ≡ record m { last_bc = bc })
  unfolding see_status
  see_status_lem bc m small =
      let e : bc % 2 ^ 8 ≡ bc = omega arith in
      elim (Bool-cases (bc == m.last_bc)) [
        | inl same ↦
            let b : bc ≡ m.last_bc = (==_iff bc m.last_bc).0 same in
            rw (e, same, b) (refl, λ p up down path. absurd cc, λ flat. refl)
        | inr new ↦ rw (e, new) (refl, risen-Switched bc m, not_risen bc m)
      ]
