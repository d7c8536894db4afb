-- ===== src/Clkgate.antt =====
-- src/soc/s9p-clkgate.c: the register lists of the device tree, written once at boot. The device
-- tree's arrays and whether an address can be mapped are inputs; the log lines are left out.
pub mod Writes
use galaxy_s9plus_mainline_l.Common.{
  ℕ, zero, suc, ◌+◌, ◌-◌, ◌%◌, ◌^◌, Bool, true, false, not, ◌&&◌, List, [], ◌∷◌, bit, if◌then◌else◌,
  bit_and, bit_or,
}
use galaxy_s9plus_mainline_l.Platform.{Hardware, Machine, M, ◌>>=◌, ◌>>◌}
use galaxy_s9plus_mainline_l.Platform

-- The properties of the node; an absent one is empty.
pub record Node : Type 0 where
  pub dump_registers : List ℕ
  pub gate_registers : List ℕ
  pub set_registers : List ℕ
  pub clear_registers : List ℕ
  pub or_registers : List ℕ
  pub pll_enable : List ℕ

module _ {World : Type 0} (hw : Hardware World) (maps : ℕ → Bool) where
  abbrev pub S : Type 0
  S = Machine World (Unit {0})

  -- One entry of each list; an address that cannot be mapped is passed over.
  unfoldable pub dump : ℕ → M S (Unit {0})
  dump a s = if maps a then (tt, (Platform.readl hw a s).1) else (tt, s)

  unfoldable pub open_gate : ℕ → M S (Unit {0})
  open_gate a s =
      let (v, t) = Platform.readl hw a s in
      if maps a then Platform.writel hw a (bit_or v (2 ^ 20 + 2 ^ 21)) t else (tt, s)

  unfoldable pub set_register : ℕ → ℕ → M S (Unit {0})
  set_register a v s =
      let t = (Platform.writel hw a v (Platform.readl hw a s).1).1 in
      if maps a then Platform.delay hw 1 t else (tt, s)

  unfoldable pub clear_register : ℕ → ℕ → M S (Unit {0})
  clear_register a bits s =
      let (v, t) = Platform.readl hw a s in
      if maps a then Platform.writel hw a (bit_and v (2 ^ 32 - 1 - bits % 2 ^ 32)) t else (tt, s)

  unfoldable pub or_register : ℕ → ℕ → M S (Unit {0})
  or_register a bits s =
      let (v, t) = Platform.readl hw a s in
      if maps a then Platform.writel hw a (bit_or v bits) t else (tt, s)

  -- The wait for STABLE: at most `n` reads, 1 µs apart.
  unfoldable pub wait_stable : ℕ → ℕ → M S (Unit {0})
  wait_stable zero a s = (tt, s)
  wait_stable (suc n) a s =
      let (v, t) = Platform.readl hw a s in
      let rest = wait_stable n a (Platform.delay hw 1 t).1 in if bit 29 v then (tt, t) else rest

  unfoldable pub switch_on : ℕ → ℕ → M S ℕ
  switch_on a v s =
      let started = (Platform.writel hw a (bit_or v (2 ^ 31)) s).1 in
      if bit 31 v then (v, s) else Platform.readl hw a (wait_stable 5000 a started).1

  unfoldable pub select_output : ℕ → ℕ → M S (Unit {0})
  select_output a v s =
      if bit 29 v && not (bit 4 v) then Platform.writel hw a (bit_or v (2 ^ 4)) s else (tt, s)

  unfoldable pub enable_pll : ℕ → M S (Unit {0})
  unfolding switch_on select_output
  enable_pll a s =
      let (old, t) = Platform.readl hw a s in
      let (v, u) = switch_on a old t in if maps a then select_output a v u else (tt, s)

  -- The loops over the arrays; one over pairs leaves an odd last entry out.
  unfoldable pub each : (ℕ → M S (Unit {0})) → List ℕ → M S (Unit {0})
  each f [] s = (tt, s)
  each f (a ∷ rest) s = each f rest (f a s).1

  unfoldable pub each_pair : (ℕ → ℕ → M S (Unit {0})) → List ℕ → M S (Unit {0})
  each_pair f [] s = (tt, s)
  each_pair f (a ∷ []) s = (tt, s)
  each_pair f (a ∷ v ∷ rest) s = each_pair f rest (f a v s).1

  -- s9p_clkgate_init on a node that is there.
  unfoldable pub init : Node → M S (Unit {0})
  unfolding each each_pair dump open_gate set_register clear_register or_register enable_pll
  init np = do
    each dump np.dump_registers
    each open_gate np.gate_registers
    each_pair set_register np.set_registers
    each_pair clear_register np.clear_registers
    each_pair or_register np.or_registers
    each enable_pll np.pll_enable
