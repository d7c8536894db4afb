-- ===== src/Examples/Boards.antt =====
-- The USB-C switch of src/soc/s9p-max77705-muic.c and the register lists of src/soc/s9p-clkgate.c.
use galaxy_s9plus_mainline_l.Common.{ℕ, ◌⊎◌, ◌≡◌, true, false, [], none, some, inr, arith}
use galaxy_s9plus_mainline_l.Muic.{Smbus, Muic, vbus, see_status}
use galaxy_s9plus_mainline_l.Muic.Switch.{Switched, see_status_lem}

abbrev bus : Smbus (Unit {0})
bus = record {
  read_byte = λ r w. (inr 0x80, w);
  write_byte = λ r v w. (none, w);
  write_block = λ r vs w. (none, w);
  read_block = λ r n w. w;
  elapse = λ us w. w;
}

abbrev unplugged : Muic (Unit {0})
unplugged = record {
  world = tt;
  sent = [];
  last_bc = 0;
  applied = false;
  path = some 9;
  poll_ms = 2000;
  scheduled = true;
}

see_status_lem_example :
    let t = (see_status bus (inr 0x80) unplugged).1 in
    (t.last_bc ≡ 0x80)
    × ((p : ℕ)
        → vbus 0x80 ≡ true
        → vbus unplugged.last_bc ≡ false
        → unplugged.path ≡ some p
        → Switched bus p unplugged t)
    × ((vbus 0x80 ≡ false) ⊎ (vbus unplugged.last_bc ≡ true) ⊎ (unplugged.path ≡ none)
        → t ≡ record unplugged { last_bc = 0x80 })
see_status_lem_example = see_status_lem bus 0x80 unplugged (omega arith)
