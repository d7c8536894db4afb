-- ===== src/Acpm/Touch/Bounds.antt =====
-- The counters of s9p_touch_work of src/soc/s9p-acpm.c: the work ends.
use galaxy_s9plus_mainline_l.Common.{
  ℕ, ◌+◌, ◌-◌, ◌*◌, ◌<◌, ◌≤◌, ◌≡◌, refl, sym, ap, Bool, true, false, ◌||◌, Bool-cases, Option, none,
  some, Ret, leb, ◌==◌, inl, inr, arith,
}
use galaxy_s9plus_mainline_l.Platform.{Hardware}
use galaxy_s9plus_mainline_l.Platform.Monad.Loop.{>>=-eq-some, lift, Loop, ◌>>=◌}
use galaxy_s9plus_mainline_l.Acpm.{AcpmVars, S}
use galaxy_s9plus_mainline_l.Platform
use galaxy_s9plus_mainline_l.Acpm.Transfer.{pmic_update, pmic_read}
use galaxy_s9plus_mainline_l.Acpm.Transfer.Keeps.{
  Kept-refl, Keeps, >>=-Keeps, lift-Keeps, pmic_update-Keeps, pmic_read-Keeps,
}
use galaxy_s9plus_mainline_l.Acpm.Touch.{
  DriverCore, then_ok, ldo_on, touch_ldo_power_cycle, after_cycle, give_up_or_cycle, reprobe_once,
  not_alive, with_device, touch_work,
}

-- The counters are within their limits.
abbrev pub InBounds : AcpmVars → Type 0
InBounds v = (v.cycles ≤ 3) × (v.probes ≤ 12) × (v.apm_tries ≤ 30)

-- How often the work can still be scheduled.
abbrev pub remaining : AcpmVars → ℕ
remaining v = (3 - v.cycles) * 13 + (12 - v.probes) + (30 - v.apm_tries)

abbrev pub Progress : AcpmVars → Bool → AcpmVars → Type 0
Progress v again w =
    InBounds w × ((again ≡ true) → (remaining w < remaining v) × (w.apm_tries < 30))

module _ {World : Type 0} (hw : Hardware World) (now : World → ℕ) (fuel : ℕ) where
  then_ok-Keeps : (r : Ret) (m : Loop (S hw) Ret) → Keeps hw m → Keeps hw (then_ok hw now fuel r m)
  unfolding then_ok
  then_ok-Keeps none m k = k
  then_ok-Keeps (some e) m k = lift-Keeps hw now _ (λ s. Kept-refl refl)

  update-Keeps : (reg val mask : ℕ) → Keeps hw (pmic_update hw now fuel reg val mask)
  update-Keeps = pmic_update-Keeps hw now fuel

  -- An update, then the rest where it went well.
  step-Keeps :
      (reg val mask : ℕ) (m : Loop (S hw) Ret)
      → Keeps hw m
      → Keeps hw (pmic_update hw now fuel reg val mask >>= (λ r. then_ok hw now fuel r m))
  step-Keeps reg val mask m k =
      >>=-Keeps hw (pmic_update hw now fuel reg val mask) _ (update-Keeps reg val mask)
        (λ r. then_ok-Keeps r m k)

  ldo_on-Keeps : Keeps hw (ldo_on hw now fuel)
  unfolding ldo_on
  ldo_on-Keeps = step-Keeps 0x6c 0xc0 0xc0 _ (
      step-Keeps 0x74 0xc0 0xc0 _ (
        >>=-Keeps hw (pmic_read hw now fuel 0x6c) _ (pmic_read-Keeps hw now fuel 0x6c)
          (λ x. lift-Keeps hw now _ (λ s. Kept-refl refl))))

  cycle-Keeps : Keeps hw (touch_ldo_power_cycle hw now fuel)
  unfolding touch_ldo_power_cycle
  cycle-Keeps = step-Keeps 0x6c 0 0xc0 _ (
      step-Keeps 0x74 0 0xc0 _ (
        >>=-Keeps hw (lift (Platform.delay hw 2000000)) _
          (lift-Keeps hw now _ (λ s. Kept-refl refl)) (λ x. ldo_on-Keeps)))

  after_cycle-Progress :
      (r : Ret) (s : S hw)
      → InBounds s.vars
      → s.vars.cycles < 3
      → s.vars.apm_tries < 30
      → let (again, t) = after_cycle hw now fuel r s in Progress s.vars again t.vars
  unfolding after_cycle
  after_cycle-Progress none s b c a = omega arith
  after_cycle-Progress (some e) s b c a = ground arith

  -- A run that ends with one of two pairs ended with it.
  same_run :
      (v : AcpmVars) (p r : Bool × S hw)
      → some p ≡ some r
      → Progress v p.0 p.1.vars
      → Progress v r.0 r.1.vars
  same_run v p r e h =
      let b : p.0 ≡ r.0 = ap (λ o. elim o [ none ↦ p.0 | some q ↦ q.0 ]) e in
      let w : p.1.vars ≡ r.1.vars = ap (λ o. elim o [ none ↦ p.1.vars | some q ↦ q.1.vars ]) e in
      rw (sym b, sym w) h

  give_up-Progress :
      (s : S hw) (r : Bool × S hw)
      → InBounds s.vars
      → s.vars.apm_tries < 30
      → give_up_or_cycle hw now fuel (leb 3 s.vars.cycles) s ≡ some r
      → Progress s.vars r.0 r.1.vars
  unfolding give_up_or_cycle
  give_up-Progress s r b a e = elim (Bool-cases (leb 3 s.vars.cycles)) [
    | inl out ↦
        let h : some (false, s) ≡ some r = rw (out, give_up_or_cycle) at e in
        same_run s.vars (false, s) r h (b, (λ x. absurd (cc)))
    | inr more ↦
        let h = rw (more, give_up_or_cycle) at e in
        let (ret, t, run, h2) =
          >>=-eq-some (touch_ldo_power_cycle hw now fuel) (λ x. lift (after_cycle hw now fuel x)) s
            h in
        let k = cycle-Keeps s (ret, t) run in
        let kc = k.same_cycles in
        let kp = k.same_probes in
        let ka = k.same_tries in
        let p = after_cycle-Progress ret t (omega arith) (ground arith) (omega arith) in
        let (q, f) = same_run t.vars (after_cycle hw now fuel ret t) r h2 p in
        (q, λ x. (omega (arith, (f x).0), (f x).1))
  ]

  not_alive-Progress :
      (dc : DriverCore World) (found : Bool) (s : S hw) (r : Bool × S hw)
      → InBounds s.vars
      → s.vars.apm_tries < 30
      → not_alive hw now fuel dc found s ≡ some r
      → Progress s.vars r.0 r.1.vars
  unfolding not_alive reprobe_once
  not_alive-Progress dc found s r b a e =
      elim (Bool-cases (s.vars.cycles == 0 || leb 12 s.vars.probes)) [
        | inl due ↦ give_up-Progress s r b a (rw (not_alive, due) at e)
        | inr early ↦
            same_run s.vars (reprobe_once hw now fuel dc found s) r (rw (not_alive, early) at e)
              (ground arith)
      ]

  with_device-Progress :
      (dc : DriverCore World) (d : Option Bool) (s : S hw) (r : Bool × S hw)
      → InBounds s.vars
      → s.vars.apm_tries < 30
      → with_device hw now fuel dc d s ≡ some r
      → Progress s.vars r.0 r.1.vars
  unfolding with_device
  with_device-Progress dc none s r b a e = not_alive-Progress dc false s r b a e
  with_device-Progress dc (some true) s r b a e =
      same_run s.vars (false, s) r e (b, (λ x. absurd (cc)))
  with_device-Progress dc (some false) s r b a e = not_alive-Progress dc true s r b a e

-- Runs of the work that each end by scheduling the next one. Between two runs the rest of the
-- kernel works, which leaves the counters alone.
module _ {World : Type 0} (hw : Hardware World) (now : World → ℕ) (fuel : ℕ)
    (dc : DriverCore World) where
  pub data Reruns : S hw → ℕ → Type 0 where
    stop : (s : S hw) → Reruns s 0
    again :
        (s t u : S hw) (n : ℕ)
        → touch_work hw now fuel dc s ≡ some (true, t)
        → (u.vars.cycles ≡ t.vars.cycles)
          × (u.vars.probes ≡ t.vars.probes)
          × (u.vars.apm_tries ≡ t.vars.apm_tries)
        → Reruns u n
        → Reruns s (n + 1)

  Reruns-remaining :
      (s : S hw) (n : ℕ)
      → Reruns s n
      → InBounds s.vars
      → s.vars.apm_tries < 30
      → n ≤ remaining s.vars
  unfolding touch_work
  Reruns-remaining s n (stop _) b a = omega arith
  Reruns-remaining s n (again _ t u m e (c, p, q) more) b a =
      let (b', f) =
        with_device-Progress hw now fuel dc (dc.touch_bound s.world) s (true, t) b a e in
      let (less, a') = f refl in
      let ih = Reruns-remaining u m more (omega arith) (omega arith) in omega arith

  -- From the counters that the driver starts with, the touch work schedules itself again at most 81
  -- times in a row, in runs that come back, whatever the APM, the clock and the driver core do.
  pub touch_work_ends :
      (s : S hw) (n : ℕ)
      → s.vars.cycles ≡ 0
      → s.vars.probes ≡ 0
      → s.vars.apm_tries ≡ 0
      → Reruns s n
      → n ≤ 81
  touch_work_ends s n c p a runs =
      let h = Reruns-remaining s n runs (omega arith) (omega arith) in omega arith
