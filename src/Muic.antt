-- ===== src/Muic.antt =====
-- src/soc/s9p-max77705-muic.c: the switch between the USB-C connector and the AP. The I2C core is a
-- parameter. The log lines are left out, but not the registers that are read for them.
pub mod Switch
use galaxy_s9plus_mainline_l.Common.{
  ℕ, ◌+◌, ◌≤◌, Bool, true, false, not, ◌&&◌, List, [], ◌∷◌, length, Option, none, some, Ret, Errno,
  emsgsize, ◌⊎◌, inl, inr, ltb, ◌==◌, bit, if◌then◌else◌, ◌%◌, ◌^◌,
}
use galaxy_s9plus_mainline_l.Platform.{M}

-- The SMBus calls: what they return and what they do to the bus.
pub record Smbus (World : Type 0) : Type 0 where
  pub read_byte : ℕ → World → (Errno ⊎ ℕ) × World
  pub write_byte : ℕ → ℕ → World → Ret × World
  pub write_block : ℕ → List ℕ → World → Ret × World
  pub read_block : ℕ → ℕ → World → World
  pub elapse : ℕ → World → World

-- What the driver puts on the bus, newest first.
pub data Transfer : Type 0 where
  byte : ℕ → ℕ → Ret → Transfer
  block : ℕ → List ℕ → Ret → Transfer

-- struct s9p_muic with the module parameters, of which `path` is `none` where it is negative.
pub record Muic (World : Type 0) : Type 0 where
  pub world : World
  pub sent : List Transfer
  pub last_bc : ℕ
  pub applied : Bool
  pub path : Option ℕ
  pub poll_ms : ℕ
  pub scheduled : Bool

abbrev pub reg_bc_status : ℕ
reg_bc_status = 0x08

abbrev pub reg_ap_dataout0 : ℕ
reg_ap_dataout0 = 0x21

abbrev pub reg_ap_dataout32 : ℕ
reg_ap_dataout32 = 0x41

-- BC_STATUS_VBUSDET.
abbrev pub vbus : ℕ → Bool
vbus bc = bit 7 bc

module _ {World : Type 0} (i2c : Smbus World) where
  abbrev send_byte : ℕ → ℕ → M (Muic World) Ret
  send_byte reg v m =
      let (ret, w) = i2c.write_byte reg v m.world in
      (ret, record m { world = w; sent = byte reg v ret ∷ m.sent })

  abbrev send_block : ℕ → List ℕ → M (Muic World) Ret
  send_block reg vs m =
      let (ret, w) = i2c.write_block reg vs m.world in
      (ret, record m { world = w; sent = block reg vs ret ∷ m.sent })

  -- The end marker of muic_opcode_write, which a full block does without.
  unfoldable pub end_opcode : Bool → Ret → M (Muic World) Ret
  end_opcode full (some e) m = (some e, m)
  end_opcode true none m = (none, m)
  end_opcode false none m = send_byte reg_ap_dataout32 0 m

  unfoldable pub opcode_write : ℕ → List ℕ → M (Muic World) Ret
  unfolding end_opcode
  opcode_write opcode data_bytes m =
      let (ret, t) = send_block reg_ap_dataout0 (opcode ∷ data_bytes) m in
      let done = end_opcode (not (ltb (length data_bytes) 32)) ret t in
      if ltb 32 (length data_bytes) then (some emsgsize, m) else done

  unfoldable pub answered : Ret → M (Muic World) Ret
  answered (some e) m = (some e, m)
  answered none m =
      (none, record m { world = i2c.read_block 0x51 4 (i2c.elapse 20000 m.world); applied = true })

  unfoldable pub set_path : ℕ → M (Muic World) Ret
  unfolding opcode_write answered
  set_path val m = let (ret, t) = opcode_write 0x06 (val ∷ []) m in answered ret t

  unfoldable pub set_if : Option ℕ → M (Muic World) (Unit {0})
  unfolding set_path
  set_if none m = (tt, m)
  set_if (some p) m = (tt, (set_path (p % 2 ^ 8) m).1)

  -- The work of muic_poll on the status that was read.
  unfoldable pub see_status : Errno ⊎ ℕ → M (Muic World) (Unit {0})
  unfolding set_if
  see_status (inl e) m = (tt, m)
  see_status (inr bc) m =
      let risen = if vbus bc && not (vbus m.last_bc) then (set_if m.path m).1 else m in
      if bc % 2 ^ 8 == m.last_bc then (tt, m) else (tt, record risen { last_bc = bc % 2 ^ 8 })

  unfoldable pub poll : M (Muic World) (Unit {0})
  unfolding see_status
  poll m =
      let (bc, w) = i2c.read_byte reg_bc_status m.world in
      let t = (see_status bc (record m { world = w })).1 in
      (tt, record t { scheduled = ltb 0 t.poll_ms })

  abbrev either : Errno ⊎ ℕ → Errno ⊎ ℕ → Ret
  either (inl e) b = some e
  either (inr a) (inl e) = some e
  either (inr a) (inr b) = none

  abbrev or_zero : Errno ⊎ ℕ → ℕ
  or_zero (inl e) = 0
  or_zero (inr v) = v % 2 ^ 8

  unfoldable pub read_each : List ℕ → M (Muic World) (Unit {0})
  read_each [] m = (tt, m)
  read_each (a ∷ rest) m = read_each rest (record m { world = (i2c.read_byte a m.world).1 })

  -- muic_log_status: the eight status registers, and the four of the interrupts.
  unfoldable pub log_status : M (Muic World) (Unit {0})
  unfolding read_each
  log_status =
      read_each
        (0x06 ∷ 0x07 ∷ 0x08 ∷ 0x09 ∷ 0x0a ∷ 0x0b ∷ 0x0c ∷ 0x0d ∷ 0x02 ∷ 0x03 ∷ 0x04 ∷ 0x05 ∷ [])

  unfoldable pub first_path : Option ℕ → M (Muic World) (Unit {0})
  unfolding set_if log_status
  first_path none m = (tt, m)
  first_path (some p) m = log_status (set_if (some p) m).1

  -- s9p_muic_probe from the revision registers on.
  unfoldable pub found : Ret → M (Muic World) Ret
  unfolding first_path log_status
  found (some e) m = (some e, m)
  found none m =
      let s = (log_status m).1 in
      let (bc, w) = i2c.read_byte reg_bc_status s.world in
      let t = (first_path s.path (record s { world = w; last_bc = or_zero bc })).1 in
      (none, record t { scheduled = ltb 0 t.poll_ms })

  unfoldable pub probe : M (Muic World) Ret
  unfolding found
  probe m =
      let (rev, w) = i2c.read_byte 0x00 m.world in
      let (fw, u) = i2c.read_byte 0x01 w in found (either rev fw) (record m { world = u })

  -- s9p_muic_remove.
  abbrev pub remove : M (Muic World) (Unit {0})
  remove m = (tt, record m { scheduled = false })
