-- ===== src/Usb/Memory.antt =====
-- Hardware behind src/usb/phy-exynos9810-usbdrd.c whose registers hold what is written, and what each
-- step of the driver does to the bits of a register there.
use galaxy_s9plus_mainline_l.Common.{
  ℕ, ◌-◌, ◌<◌, arith, ◌^◌, ◌≡◌, refl, ap, ◌∙◌, Bool, true, false, ◌&&◌, ◌||◌, List, [], ◌∷◌, ◌==◌,
  if◌then◌else◌, ==_iff, Bool-cases, inl, inr, has, has-bit_and, has-bit_or, bit_or,
}
use galaxy_s9plus_mainline_l.Platform.{M, ◌>>=◌, ◌>>◌, pure}
use galaxy_s9plus_mainline_l.Bus.{Bus, readl, update_reg, delay, when, clear_bits}
use galaxy_s9plus_mainline_l.Usb.{
  Win, usbcon, pmu, Call, U, link_ctrl, force_qact, dis_qact, rmw, read_all, dump, isolate, q_ch,
  rewa_ready, rewa_enable, hsp_tune, hsp_tune_mask, hsp_tune_val, dumped, usb20_phy_ctrl,
  usb3dp_phy_ctrl,
}

-- The registers of the USBCON block hold what was written last; nothing else changes them.
pub record Memory {World : Type 0} (bus : Bus Win Call World) : Type 0 where
  pub held : World → ℕ → ℕ
  pub read_back : (a : ℕ) (w : World) → (bus.read_reg usbcon a w).0 ≡ held w a
  pub read_keeps : (x : Win) (a b : ℕ) (w : World) → held (bus.read_reg x a w).1 b ≡ held w b
  pub write_takes :
      (a v b : ℕ) (w : World)
      → held (bus.write_reg usbcon a v w) b ≡ (if a == b then v else held w b)
  pub update_keeps :
      (x : Win) (a mask bits b : ℕ) (w : World)
      → held (bus.update_bits x a mask bits w) b ≡ held w b
  pub elapse_keeps : (us b : ℕ) (w : World) → held (bus.elapse us w) b ≡ held w b
  pub kernel_keeps : (c : Call) (b : ℕ) (w : World) → held (bus.kernel c w).1 b ≡ held w b
  -- Bit 0 of a register of the PMU, which takes a value by an update with that mask alone.
  pub powered : World → ℕ → Bool
  pub powered_read :
      (x : Win) (a b : ℕ) (w : World) → powered (bus.read_reg x a w).1 b ≡ powered w b
  pub powered_write : (a v b : ℕ) (w : World) → powered (bus.write_reg usbcon a v w) b ≡ powered w b
  pub powered_update :
      (a bits b : ℕ) (w : World)
      → powered (bus.update_bits pmu a (2 ^ 0) bits w) b
        ≡ (if a == b then has 0 bits else powered w b)
  pub powered_elapse : (us b : ℕ) (w : World) → powered (bus.elapse us w) b ≡ powered w b

-- A bit that is cleared by one mask and then set by another.
abbrev pub changed : ℕ → ℕ → ℕ → Bool → Bool
changed k clear bits old =
    if has k bits then true else if has k (2 ^ 32 - 1 - clear) then old else false

ordered : (x y z : Bool) → ((x && y) || z) ≡ (if z then true else if y then x else false)
ordered true true true = refl
ordered true true false = refl
ordered true false true = refl
ordered true false false = refl
ordered false true true = refl
ordered false true false = refl
ordered false false true = refl
ordered false false false = refl

changed_lem :
    (k clear bits v : ℕ) → has k (bit_or (clear_bits v clear) bits) ≡ changed k clear bits (has k v)
changed_lem k clear bits v =
    has-bit_or k (clear_bits v clear) bits
    ∙ ap (λ b. b || has k bits) (has-bit_and k v (2 ^ 32 - 1 - clear))
    ∙ ordered (has k v) (has k (2 ^ 32 - 1 - clear)) (has k bits)

or_if : (x z : Bool) → (x || z) ≡ (if z then true else x)
or_if true true = refl
or_if true false = refl
or_if false true = refl
or_if false false = refl

if-has :
    (k : ℕ) (b : Bool) (x y : ℕ) → has k (if b then x else y) ≡ (if b then has k x else has k y)
if-has k true x y = refl
if-has k false x y = refl

module _ {World : Type 0} {bus : Bus Win Call World} (mem : Memory bus) where
  open mem use {held, read_back, read_keeps, write_takes, update_keeps, elapse_keeps, kernel_keeps}

  abbrev pub bit_of : U bus → ℕ → ℕ → Bool
  bit_of s a k = has k (held s.world a)

  write_bits :
      (reg v a k : ℕ) (w : World)
      → has k (held (bus.write_reg usbcon reg v w) a)
        ≡ (if reg == a then has k v else has k (held w a))
  write_bits reg v a k w = ap (has k) (write_takes reg v a w) ∙ if-has k (reg == a) v (held w a)

  pub rmw_bits :
      (reg clear bits a k : ℕ) (s : U bus)
      → bit_of (rmw bus reg clear bits s).1 a k
        ≡ (if reg == a then changed k clear bits (bit_of s a k) else bit_of s a k)
  unfolding rmw
  rmw_bits reg clear bits a k s =
      let (v, t) = readl bus usbcon reg s in
      write_bits reg (bit_or (clear_bits v clear) bits) a k t.world ∙ elim (Bool-cases (reg == a)) [
        | inl same ↦ rw same (
            changed_lem k clear bits v
            ∙ ap (λ x. changed k clear bits (has k x))
                (read_back reg s.world ∙ ap (held s.world) ((==_iff reg a).0 same)))
        | inr other ↦ rw other (ap (has k) (read_keeps usbcon reg a s.world))
      ]

  pub delay_bits : (us a k : ℕ) (s : U bus) → bit_of (delay bus us s).1 a k ≡ bit_of s a k
  delay_bits us a k s = ap (has k) (elapse_keeps us a s.world)

  read_all_bits :
      (l : List ℕ) (a k : ℕ) (s : U bus) → bit_of (read_all bus l s).1 a k ≡ bit_of s a k
  unfolding read_all
  read_all_bits [] a k s = refl
  read_all_bits (b ∷ rest) a k s =
      read_all_bits rest a k (readl bus usbcon b s).1 ∙ ap (has k) (read_keeps usbcon b a s.world)

  -- A step that leaves the bits alone, made or not.
  pub when_bits :
      (b : Bool) (m : M (U bus) (Unit {0})) (a k : ℕ) (s : U bus)
      → bit_of (m s).1 a k ≡ bit_of s a k
      → bit_of (when b m s).1 a k ≡ bit_of s a k
  when_bits true m a k s same = same
  when_bits false m a k s same = refl

  pub dump_bits : (a k : ℕ) (s : U bus) → bit_of (dump bus s).1 a k ≡ bit_of s a k
  unfolding dump
  dump_bits a k s =
      let t = (read_all bus dumped s).1 in
      when_bits t.vars.has_pmu
        (readl bus pmu usb20_phy_ctrl >>= λ u. readl bus pmu usb3dp_phy_ctrl >>= λ v. pure tt) a k t
        (ap (has k) (
          read_keeps pmu usb3dp_phy_ctrl a (readl bus pmu usb20_phy_ctrl t).1.world
          ∙ read_keeps pmu usb20_phy_ctrl a t.world))
      ∙ read_all_bits dumped a k s

  pub isolate_bits :
      (on : Bool) (a k : ℕ) (s : U bus) → bit_of (isolate bus on s).1 a k ≡ bit_of s a k
  unfolding isolate
  isolate_bits on a k s =
      let bits = if on then 2 ^ 0 else 0 in
      let t = (update_reg bus pmu usb20_phy_ctrl (2 ^ 0) bits s).1 in
      when_bits s.vars.has_pmu
        (update_reg bus pmu usb20_phy_ctrl (2 ^ 0) bits
          >> update_reg bus pmu usb3dp_phy_ctrl (2 ^ 0) bits)
        a k s
        (ap (has k) (
          update_keeps pmu usb3dp_phy_ctrl (2 ^ 0) bits a t.world
          ∙ update_keeps pmu usb20_phy_ctrl (2 ^ 0) bits a s.world))

  pub q_ch_other :
      (a k : ℕ) (s : U bus)
      → (link_ctrl == a) ≡ false
      → bit_of (q_ch bus true s).1 a k ≡ bit_of s a k
  unfolding q_ch
  q_ch_other a k s other = simp (other, write_takes, read_keeps, elapse_keeps) refl

  pub q_ch_bits :
      (k : ℕ) (s : U bus)
      → bit_of (q_ch bus true s).1 link_ctrl k
        ≡ changed k force_qact force_qact (if has k dis_qact then true else bit_of s link_ctrl k)
  unfolding q_ch
  q_ch_bits k s =
      let h = held s.world link_ctrl in
      let run : bit_of (q_ch bus true s).1 link_ctrl k
          ≡ has k (bit_or (clear_bits (bit_or h dis_qact) force_qact) force_qact) =
        simp (write_takes, read_back, elapse_keeps) refl in
      run
      ∙ changed_lem k force_qact force_qact (bit_or h dis_qact)
      ∙ ap (changed k force_qact force_qact)
          (has-bit_or k h dis_qact ∙ or_if (has k h) (has k dis_qact))

  -- The ReWA block lies above the registers that the rest of the driver writes.
  pub rewa_bits :
      (b : Bool) (a k : ℕ) (s : U bus)
      → a < 0x100
      → bit_of (when b (rewa_ready bus) s).1 a k ≡ bit_of s a k
  unfolding rewa_ready
  rewa_bits b a k s low =
      let e0 : (rewa_enable == a) ≡ false = ground arith in
      let e1 : (0x108 == a) ≡ false = ground arith in
      let e2 : (0x110 == a) ≡ false = ground arith in
      let e3 : (0x10c == a) ≡ false = ground arith in
      let e4 : (0x11c == a) ≡ false = ground arith in
      when_bits b (rewa_ready bus) a k s (simp (rmw_bits, write_bits, e0, e1, e2, e3, e4) refl)

  pub tune_bits :
      (b : Bool) (a k : ℕ) (s : U bus)
      → (hsp_tune == a) ≡ false
      → bit_of (when b (rmw bus hsp_tune hsp_tune_mask hsp_tune_val) s).1 a k ≡ bit_of s a k
  tune_bits b a k s other =
      when_bits b (rmw bus hsp_tune hsp_tune_mask hsp_tune_val) a k s
        (rmw_bits hsp_tune hsp_tune_mask hsp_tune_val a k s ∙ rw other refl)
