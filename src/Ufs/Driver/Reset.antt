-- ===== src/Ufs/Driver/Reset.antt =====
-- The reset of the controller in src/ufs/ufs-exynos9810.c comes back, with all of its work or none.
use galaxy_s9plus_mainline_l.Common.{
  ℕ, zero, suc, ◌+◌, ◌-◌, ◌*◌, ◌/◌, ◌%◌, ◌^◌, ◌≤◌, ◌<◌, ◌≡◌, refl, ◌⊎◌, true, false, Bool-cases,
  List, ◌∷◌, none, some, ◌==◌, inl, inr, arith, Ret, etimedout, bit_and,
}
use native.Mathlib.Nat.{le-div_iff_mul-le, div-mul-le_self}
use galaxy_s9plus_mainline_l.Platform.{◌>>◌}
use galaxy_s9plus_mainline_l.Ufs.{Host, Access, hci, pause, hci_readl}
use galaxy_s9plus_mainline_l.Ufs.Uic.{time_left}
use galaxy_s9plus_mainline_l.Ufs.Driver.{
  D, on_cal, init_host, dev_hw_reset, reset_rounds, host_reset, gpio_out, sw_rst, ctrl_auto_hci_clk,
  write_hci, force_hcs,
}

-- The jiffies count the ticks of a clock that never goes back and that each register read takes
-- forward, and no access takes more than 1000 of them.
pub record Counts {World : Type 0} (host : Host World) (time : World → ℕ) (tick : ℕ) : Type 0 where
  pub positive : 0 < tick
  pub counts : (w : World) → host.jiffies w ≡ time w / tick
  pub reads : (a : ℕ) (w : World) → time w + 1 ≤ time (host.read_hci a w).1
  pub writes : (a v : ℕ) (w : World) → time w ≤ time (host.write_hci a v w)
  pub reads_soon : (a : ℕ) (w : World) → host.jiffies (host.read_hci a w).1 ≤ host.jiffies w + 1000
  pub writes_soon :
      (a v : ℕ) (w : World) → host.jiffies (host.write_hci a v w) ≤ host.jiffies w + 1000

late_lem :
    (j end : ℕ) → end ≤ j → j ≤ end + 5000 → end < 4611686018427387904 → time_left j end ≡ true
late_lem j end h b small = ground arith

early_lem :
    (j end : ℕ) → j ≤ end + 5000 → end < 4611686018427387904 → time_left j end ≡ false → j ≤ end
early_lem j end b small h = ground arith

le_add : (a b end : ℕ) → a ≤ b + 1000 → b ≤ end + 4000 → a ≤ end + 5000
le_add a b end h1 h2 = omega arith

le_trans3 : {a b c d : ℕ} → a + 1 ≤ b → b ≤ c → c ≤ d → a ≤ d
le_trans3 x y z = omega arith

near_lem : (a b c d ms : ℕ) → b ≤ a + 1000 → c ≤ b + 1000 → d ≤ c + 1000 → d ≤ a + ms + 4000
near_lem a b c d ms x y z = omega arith

add_mul : (a b k : ℕ) → (a + b) * k ≡ a * k + b * k
add_mul a b k = grind arith

module _ {World : Type 0} (host : Host World) (time : World → ℕ) (tick : ℕ)
    (clock : Counts host time tick) where
  -- The device's reset line went low for 10 ms and high for 20 ms, after everything else.
  abbrev pub WasReset : D host → Type 0
  WasReset e =
      (rest : List Access) × (e.cal.log
        ≡ pause 20000 ∷ hci gpio_out 1 ∷ pause 10000 ∷ hci gpio_out 0 ∷ rest)

  abbrev Outcome : List Access → Ret × D host → Type 0
  Outcome log r = ((r.0 ≡ none) × WasReset r.1) ⊎ ((r.0 ≡ some etimedout) × (r.1.cal.log ≡ log))

  finished_reset : (e : D host) → WasReset (dev_hw_reset host (init_host host e).1).1
  unfolding dev_hw_reset
  finished_reset e = (_, refl)

  reset_rounds_end :
      (fuel end : ℕ) (d : D host)
      → end * tick ≤ time d.cal.world + fuel
      → host.jiffies d.cal.world ≤ end + 4000
      → end < 4611686018427387904
      → (r : Ret × D host) × (reset_rounds host (suc fuel) end d ≡ some r) × Outcome d.cal.log r
  unfolding reset_rounds
  reset_rounds_end zero end d h near small =
      let (reg, e) = on_cal host (hci_readl host sw_rst) d in
      let later : time d.cal.world + 1 ≤ time e.cal.world = clock.reads sw_rst d.cal.world in
      let passed : end * tick ≤ time e.cal.world = omega arith in
      let ticked : end ≤ time e.cal.world / tick = (le-div_iff_mul-le clock.positive).1 passed in
      let reached : end ≤ host.jiffies e.cal.world = rw (clock.counts e.cal.world) ticked in
      let soon = clock.reads_soon sw_rst d.cal.world in
      let late =
        late_lem (host.jiffies e.cal.world) end reached
          (le_add (host.jiffies e.cal.world) (host.jiffies d.cal.world) end soon near) small in
      elim (Bool-cases (bit_and reg 3 == 0)) [
        | inl clear ↦ rw (reset_rounds, clear) (_, refl, inl (refl, finished_reset e))
        | inr busy ↦ rw (reset_rounds, busy, late) (_, refl, inr (refl, refl))
      ]
  reset_rounds_end (suc fuel) end d h near small =
      let (reg, e) = on_cal host (hci_readl host sw_rst) d in
      let later : time d.cal.world + 1 ≤ time e.cal.world = clock.reads sw_rst d.cal.world in
      elim (Bool-cases (bit_and reg 3 == 0)) [
        | inl clear ↦ rw (reset_rounds, clear) (_, refl, inl (refl, finished_reset e))
        | inr busy ↦ elim (Bool-cases (time_left (host.jiffies e.cal.world) end)) [
          | inl late ↦ rw (reset_rounds, busy, late) (_, refl, inr (refl, refl))
          | inr early ↦
              let soon = clock.reads_soon sw_rst d.cal.world in
              let close : host.jiffies e.cal.world ≤ end + 5000 =
                le_add (host.jiffies e.cal.world) (host.jiffies d.cal.world) end soon near in
              let before = early_lem (host.jiffies e.cal.world) end close small early in
              rw (reset_rounds, busy, early)
                (reset_rounds_end fuel end e (omega arith) (omega arith) small)
        ]
      ]

  -- The reset of the controller comes back after no more reads of its register than its 10 ms have
  -- time units: with 0, and then the device was held in reset for 10 ms and given 20 ms, as the last
  -- thing; or with -ETIMEDOUT, having written nothing but the two registers that start the reset. For
  -- this the jiffies count a clock that each read takes forward, and are far from 2^63.
  pub host_reset_end :
      (fuel : ℕ) (d : D host)
      → host.msecs_to_jiffies 10 * tick ≤ fuel
      → host.jiffies d.cal.world + host.msecs_to_jiffies 10 < 4611686018427387904
      → let start = (ctrl_auto_hci_clk host false >> write_hci host 3 sw_rst) d in
        (r : Ret × D host) × (host_reset host (suc fuel) d ≡ some r)
        × (((r.0 ≡ none) × WasReset r.1)
            ⊎ ((r.0 ≡ some etimedout) × (r.1.cal.log ≡ start.1.cal.log)))
  unfolding host_reset
  host_reset_end fuel d enough small =
      let ms = host.msecs_to_jiffies 10 in
      let j = host.jiffies d.cal.world in
      let w0 = d.cal.world in
      let start = ((ctrl_auto_hci_clk host false >> write_hci host 3 sw_rst) d).1 in
      let cleared = (ctrl_auto_hci_clk host false d).1 in
      let (v, w1) = host.read_hci force_hcs w0 in
      let one = clock.reads force_hcs w0 in
      let begun : time w0 ≤ time start.cal.world =
        le_trans3 one (clock.writes force_hcs (bit_and v (2 ^ 32 - 1 - 2 ^ 4)) w1)
          (clock.writes sw_rst 3 _) in
      let so_far : j * tick ≤ time w0 = rw (clock.counts w0) (div-mul-le_self (time w0) tick) in
      let split = add_mul j ms tick in
      let end : (j + ms) % 2 ^ 64 ≡ j + ms = omega arith in
      let near : host.jiffies start.cal.world ≤ j + ms + 4000 =
        near_lem j (host.jiffies w1) (host.jiffies cleared.cal.world) (host.jiffies start.cal.world)
          ms (clock.reads_soon force_hcs w0)
          (clock.writes_soon force_hcs (bit_and v (2 ^ 32 - 1 - 2 ^ 4)) w1)
          (clock.writes_soon sw_rst 3 _) in
      rw end (reset_rounds_end fuel (j + ms) start (omega arith) near small)
