-- ===== src/Cpufreq/Policy/Caps.antt =====
-- The caps of src/cpufreq/s9p-cpufreq.c that bind at the last moment, and the GPU's cap.
use galaxy_s9plus_mainline_l.Common.{
  ℕ, get_elem?, ◌<◌, ◌≤◌, ◌≡◌, refl, eagain, ◌≢◌, Bool, true, false, List, Option, none, some,
  arith, min, Bool-cases, inl, inr, ltb, Errno, Ret, get_or, ℤ, ◌&&◌, ◌==◌,
}
use galaxy_s9plus_mainline_l.Platform.{Hardware, Machine}
use galaxy_s9plus_mainline_l.Platform
use galaxy_s9plus_mainline_l.Cpufreq.Clock.Order.{rate_before}
use galaxy_s9plus_mainline_l.Platform.Monad.Loop.{>>=-eq-some}
use galaxy_s9plus_mainline_l.Thermal.{thermal_gpu, thermal_next}
use galaxy_s9plus_mainline_l.Thermal.Level.{thermal_next_lem}
use galaxy_s9plus_mainline_l.Cpufreq.{Cluster, Cpu, PllStep, big_busy_cores, big_cap_for}
use galaxy_s9plus_mainline_l.Cpufreq.Clock.{
  Policy, Transition, target, target_maximum, reach, to_step, to_entry, change_clock, set_step, S,
}
use galaxy_s9plus_mainline_l.Cpufreq.Policy.{PolicyState, gpu_turn, max_khz_of}

-- The cap for a number of busy M3 cores never rises with it, and is one of the three of the rule.
pub big_cap_for_antitone :
    (a b : ℕ)
    → a ≤ b
    → (big_cap_for b ≤ big_cap_for a) × (1794000 ≤ big_cap_for b) × (big_cap_for a ≤ 2704000)
unfolding big_cap_for
big_cap_for_antitone a b h = ground arith

target_maximum_le :
    (is_big : Bool) (cpus : List Cpu) (pol : Policy)
    → (target_maximum is_big cpus pol ≤ pol.max_khz)
      × (is_big ≡ true → target_maximum is_big cpus pol ≤ big_cap_for (big_busy_cores cpus))
unfolding target_maximum
target_maximum_le true cpus pol = omega arith
target_maximum_le false cpus pol = (omega arith, λ e. cc)

-- What cpufreq_frequency_table_target keeps to for each of its relations, at least, at most and closest:
-- where an entry of the table reaches the target and lies between the bounds, the answer is no higher.
abbrev pub IsTableTarget : Cluster → (ℕ → ℕ → ℕ → Option ℕ) → Type 0
IsTableTarget c table_target =
    (w lo hi i j f : ℕ)
    → table_target w lo hi ≡ some i
    → get_elem? c.freq_table j ≡ some f
    → w ≤ f
    → lo ≤ f
    → f ≤ hi
    → get_or c.freq_table i 0 ≤ f

ltb_le : (a b : ℕ) → ltb a b ≡ false → b ≤ a
ltb_le a b h = ground arith

module _ {World : Type 0} (hw : Hardware World) where
  change_clock-new :
      (fuel : ℕ) (c : Cluster) (pol : Policy) (new : ℕ) (st : PllStep) (s : S hw) {ret : Ret}
      {t : Transition} {s' : S hw}
      → change_clock hw fuel c pol new st s ≡ some ((ret, some t), s')
      → t.new ≡ new
  unfolding change_clock
  change_clock-new fuel c pol new st s h =
      let (r, s1, e, rest) = >>=-eq-some (set_step hw fuel c st) _ s h in ground arith

  reach-new :
      (fuel : ℕ) (c : Cluster) (pol : Policy) (new : ℕ) (st : PllStep) (s : S hw) {ret : Ret}
      {t : Transition} {s' : S hw}
      → reach hw fuel c pol new st s ≡ some ((ret, some t), s')
      → t.new ≡ new
  unfolding reach
  reach-new fuel c pol new st s {ret} {t} {s'} h =
      let s1 : S hw = (Platform.readl hw c.mux (Platform.readl hw c.pll_con0 s).1).1 in
      elim (Bool-cases (rate_before hw c s == new && pol.cur == new)) [
        | inl there ↦
            absurd
              (let e : some ((none, none), s1) ≡ some ((ret, some t), s') = rw there at h in cc)
        | inr away ↦ change_clock-new fuel c pol new st s1 (rw away at h)
      ]

  to_step-new :
      (fuel : ℕ) (c : Cluster) (pol : Policy) (new : ℕ) (st : Option PllStep) (s : S hw) {ret : Ret}
      {t : Transition} {s' : S hw}
      → to_step hw fuel c pol new st s ≡ some ((ret, some t), s')
      → t.new ≡ new
  unfolding to_step
  to_step-new fuel c pol new none s h = cc
  to_step-new fuel c pol new (some st) s h = reach-new fuel c pol new st s h

  to_entry-new :
      (fuel : ℕ) (c : Cluster) (pol : Policy) (bad : Errno) (o : Option ℕ) (s : S hw) {ret : Ret}
      {t : Transition} {s' : S hw}
      → to_entry hw fuel c pol bad o s ≡ some ((ret, some t), s')
      → (i : ℕ) × (o ≡ some i) × (t.new ≡ get_or c.freq_table i 0)
  unfolding to_entry
  to_entry-new fuel c pol bad none s h = cc
  to_entry-new fuel c pol bad (some i) s h = (i, refl, to_step-new fuel c pol _ _ s h)

  target-new :
      (table_target : ℕ → ℕ → ℕ → Option ℕ) (bad : Errno) (fuel : ℕ) (is_big : Bool)
      (cpus : List Cpu) (c : Cluster) (pol : Policy) (wanted : ℕ) (s : S hw) {ret : Ret}
      {t : Transition} {s' : S hw}
      → target hw table_target bad fuel is_big cpus c pol wanted s ≡ some ((ret, some t), s')
      → (i : ℕ) × (table_target
            (min wanted (target_maximum is_big cpus pol))
            pol.min_khz
            (target_maximum is_big cpus pol)
          ≡ some i)
        × (t.new ≡ get_or c.freq_table i 0)
        × (pol.min_khz ≤ target_maximum is_big cpus pol)
  unfolding target
  target-new table_target bad fuel is_big cpus c pol wanted s {ret} {t} {s'} h =
      elim (Bool-cases (ltb (target_maximum is_big cpus pol) pol.min_khz)) [
        | inl low ↦
            absurd
              (let e : some ((some eagain, none), s) ≡ some ((ret, some t), s') = rw low at h in cc)
        | inr room ↦
            let (i, found, e) = to_entry-new fuel c pol bad _ s (rw room at h) in
            (i, found, e, ltb_le (target_maximum is_big cpus pol) pol.min_khz room)
      ]

  -- Where cpufreq_frequency_table_target never answers with more than an entry that reaches the
  -- target and lies between the bounds, and the maximum that the target callback computes, the
  -- policy's or the cap of the busy cores, is in the table, every transition that the callback begins
  -- goes to a frequency of at most the policy's maximum, and on the M3 cluster of at most the cap for
  -- the cores that are busy then.
  pub target_capped :
      (table_target : ℕ → ℕ → ℕ → Option ℕ) (bad : Errno) (fuel : ℕ) (is_big : Bool)
      (cpus : List Cpu) (c : Cluster) (pol : Policy) (wanted : ℕ) (s : S hw) {ret : Ret}
      {t : Transition} {s' : S hw} (j : ℕ)
      → IsTableTarget c table_target
      → get_elem? c.freq_table j ≡ some (target_maximum is_big cpus pol)
      → target hw table_target bad fuel is_big cpus c pol wanted s ≡ some ((ret, some t), s')
      → (t.new ≤ pol.max_khz) × (is_big ≡ true → t.new ≤ big_cap_for (big_busy_cores cpus))
  target_capped table_target bad fuel is_big cpus c pol wanted s {ret} {t} {s'} j law entry h =
      let m = target_maximum is_big cpus pol in
      let (i, found, e, room) = target-new table_target bad fuel is_big cpus c pol wanted s h in
      let le : t.new ≤ m =
        rw e
          (law (min wanted m) pol.min_khz m i j m found entry (ground arith) room (omega arith)) in
      ground (arith, target_maximum_le is_big cpus pol)

module _ {Gpu : Type 0} (set_khz : ℕ → Gpu → Ret × Gpu) where
  -- The GPU's level stays in its table. It moves only where the clock driver took the new level's
  -- cap; a refused cap leaves the level, so that the next turn asks again.
  gpu_turn_lem :
      (t : ℤ) (now : ℕ) (p : PolicyState Gpu)
      → p.gpu_lvl < 3
      → let q = gpu_turn set_khz t now p in
        let lvl = (thermal_next p.gpu_lvl t thermal_gpu now p.gpu_changed).0 in
        let (ret, g) = set_khz (max_khz_of thermal_gpu lvl) p.gpu in
        (q.gpu_lvl < 3)
        × (q.gpu_lvl ≢ p.gpu_lvl → (q.gpu_lvl ≡ lvl) × (ret ≡ none) × (q.gpu ≡ g))
        × (lvl ≢ p.gpu_lvl → ret ≢ none → (q.gpu_lvl ≡ p.gpu_lvl) × (q.gpu ≡ g))
  unfolding gpu_turn
  gpu_turn_lem t now p h =
      ground (arith, (thermal_next_lem p.gpu_lvl t thermal_gpu now p.gpu_changed h).0)
