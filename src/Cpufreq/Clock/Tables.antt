-- ===== src/Cpufreq/Clock/Tables.antt =====
-- The clock tables of src/cpufreq/s9p-cpufreq.c and the decoding of PLL_CON0.
use galaxy_s9plus_mainline_l.Common.{
  ℕ, zero, suc, ◌⊎◌, get_elem?, inl, inr, ◌+◌, ◌*◌, ◌^◌, ◌<◌, ◌≡◌, ◌/◌, ◌%◌, List, [], ◌∷◌, All,
  arith, some,
}
use mathlib.Core.Path.{subst}
use galaxy_s9plus_mainline_l.Cpufreq.{PllStep, steps_little, steps_big, khz_of}

-- PLL_CON0 with a step's dividers, the output selected, and the rest of its bits: `high` from bit
-- 26 on, `mid` in bits 14 and 15, `low` in bits 5 to 7 and `bit_3`.
abbrev pub con0_word : PllStep → ℕ → ℕ → ℕ → ℕ → ℕ
con0_word st high mid low bit_3 =
    high * 2 ^ 26
    + st.m * 2 ^ 16
    + mid * 2 ^ 14
    + st.p * 2 ^ 8
    + low * 2 ^ 5
    + 2 ^ 4
    + bit_3 * 2 ^ 3
    + st.s

abbrev DecodesTo : PllStep → Type 0
DecodesTo st =
    (high mid low bit_3 mux_word : ℕ)
    → mid < 4
    → low < 8
    → bit_3 < 2
    → khz_of (con0_word st high mid low bit_3) (2 * mux_word) ≡ st.freq_khz

-- The dividers fit their fields and make the frequency.
abbrev Fits : PllStep → Type 0
Fits st =
    (st.m < 1024)
    × (st.p < 64)
    × (st.s < 8)
    × (0 < st.p)
    × (26000 * st.m / st.p / 2 ^ st.s ≡ st.freq_khz)

decodes : (st : PllStep) → Fits st → DecodesTo st
unfolding khz_of
decodes st (hm, hp, hs, nz, e) high mid low bit_3 mux_word a b c =
    let w : ℕ = con0_word st high mid low bit_3 in
    let fm : w / 2 ^ 16 % 2 ^ 10 ≡ st.m = omega arith in
    let fp : w / 2 ^ 8 % 2 ^ 6 ≡ st.p = omega arith in
    let fs : w % 2 ^ 3 ≡ st.s = omega arith in
    let sel : w / 2 ^ 4 % 2 ≡ 1 = omega arith in
    let osc : 2 * mux_word % 2 ≡ 0 = omega arith in rw (fm, fp, fs, sel, osc) (ground arith)

decodes-All : (sts : List PllStep) → All Fits sts → All DecodesTo sts
decodes-All [] h = tt
decodes-All (st ∷ sts) (h, hs) = (decodes st h, decodes-All sts hs)

All-at :
    (sts : List PllStep) (i : ℕ) (st : PllStep)
    → All DecodesTo sts
    → get_elem? sts i ≡ some st
    → DecodesTo st
All-at [] i st h e = absurd (cc)
All-at (x ∷ sts) zero st (h, hs) e = let q : x ≡ st = cc in subst (λ y. DecodesTo y) q h
All-at (x ∷ sts) (suc i) st (h, hs) e = All-at sts i st hs e

-- The step stands in one of the two tables.
abbrev pub IsTabled : PllStep → Type 0
IsTabled st = (i : ℕ) × ((get_elem? steps_little i ≡ some st) ⊎ (get_elem? steps_big i ≡ some st))

-- The dividers of every step of both tables make exactly its frequency, whatever the other bits of
-- PLL_CON0 are, once the output is selected and the external mux is on the PLL.
pub khz_of-steps :
    (st : PllStep) (high mid low bit_3 mux_word : ℕ)
    → IsTabled st
    → mid < 4
    → low < 8
    → bit_3 < 2
    → khz_of (con0_word st high mid low bit_3) (2 * mux_word) ≡ st.freq_khz
khz_of-steps st high mid low bit_3 mux_word (i, inl e) =
    All-at steps_little i st (decodes-All steps_little (omega arith)) e high mid low bit_3 mux_word
khz_of-steps st high mid low bit_3 mux_word (i, inr e) =
    All-at steps_big i st (decodes-All steps_big (omega arith)) e high mid low bit_3 mux_word
