-- ===== src/Decon/Live.antt =====
-- What s9p_decon_probe of src/gpu/drm/s9p/s9p-decon.c has seen of the pipeline that it takes over.
use mathlib.Core.List.{Memᴰ}
use galaxy_s9plus_mainline_l.Common.{
  ℕ, ◌*◌, ◌<◌, ◌≡◌, ◌⊎◌, refl, sym, ap, ◌∙◌, Bool, true, ◌&&◌, List, [], ◌∷◌, All, Ret, none, some,
  enodev, ◌==◌, ==_iff, ltb, bit, Bool-cases, inl, inr, arith,
}
use galaxy_s9plus_mainline_l.Bus.{Access, seen, Bus, readl}
use galaxy_s9plus_mainline_l.Decon.{Win, decon, dpp, Call, hw_sw_trig_control, D}
use galaxy_s9plus_mainline_l.Decon.Probe.{
  sboot_fb_base, max_win, win_start_position, win_end_position, panel_end, shadow_base, chmap_of,
  look_at, find_windows, carries, try_mapped, find_channel, with_window, identify, all_windows,
}

-- The log `after` is `before` and reads since.
pub data Looked (before : List (Access Win Call)) : List (Access Win Call) → Type 0 where
  not_yet : Looked before before
  look :
      {after : List (Access Win Call)} (w : Win) (a v : ℕ)
      → Looked before after
      → Looked before (seen w a v ∷ after)

Looked-trans : {l m n : List (Access Win Call)} → Looked l m → Looked m n → Looked l n
Looked-trans early not_yet = early
Looked-trans early (look w a v late) = look w a v (Looked-trans early late)

Looked-mem : {x : Access Win Call} {l m : List (Access Win Call)} → Looked l m → Memᴰ x l → Memᴰ x m
Looked-mem not_yet h = h
Looked-mem (look w a v late) h = Memᴰ.tail (Looked-mem late h)

-- A window that was read as enabled and as large as the panel.
pub record Fullscreen (win_en : ℕ) (l : List (Access Win Call)) (win : ℕ) : Type 0 where
  pub below : win < max_win
  pub on : bit (4 * win) win_en ≡ true
  pub first : Memᴰ (seen decon (win_start_position win) 0) l
  pub last : Memᴰ (seen decon (win_end_position win) panel_end) l

Fullscreen-Looked :
    {win_en win : ℕ} {l m : List (Access Win Call)}
    → Looked l m
    → Fullscreen win_en l win
    → Fullscreen win_en m win
Fullscreen-Looked later f = record {
  below = f.below;
  on = f.on;
  first = Looked-mem later f.first;
  last = Looked-mem later f.last;
}

&&_both : (a b : Bool) → a && b ≡ true → (a ≡ true) × (b ≡ true)
&&_both a b h = ground arith

module _ {World : Type 0} (bus : Bus Win Call World) where
  abbrev Found : ℕ → D bus → Type 0
  Found win_en s = (s.vars.win ≡ max_win) ⊎ Fullscreen win_en s.log s.vars.win

  Found-Looked :
      (win_en : ℕ) (s t : D bus)
      → t.vars.win ≡ s.vars.win
      → Looked s.log t.log
      → Found win_en s
      → Found win_en t
  Found-Looked win_en s t same later (inl none_yet) = inl (same ∙ none_yet)
  Found-Looked win_en s t same later (inr f) = inr (rw same (Fullscreen-Looked later f))

  look_at-Found :
      (win_en chmap i : ℕ) (s : D bus)
      → i < max_win
      → Found win_en s
      → let t = (look_at bus win_en chmap i s).1 in Found win_en t × Looked s.log t.log
  unfolding look_at
  look_at-Found win_en chmap i s below f =
      let (v, t) = readl bus decon (win_start_position i) s in
      let (w, u) = readl bus decon (win_end_position i) t in
      let later : Looked s.log u.log = look _ _ _ (look _ _ _ not_yet) in
      elim (Bool-cases (bit (4 * i) win_en)) [
        | inr off ↦ simp off (f, not_yet)
        | inl on ↦ elim (Bool-cases (v == 0 && w == panel_end)) [
          | inr other ↦ simp (on, other) (Found-Looked win_en s u refl later f, later)
          | inl fits ↦
              let (zeroed, whole) = &&_both (v == 0) (w == panel_end) fits in
              simp (on, fits)
                (
                  inr (record {
                    below = below;
                    on = on;
                    first = Memᴰ.tail (
                        Memᴰ.head
                          (ap (seen decon (win_start_position i)) (sym ((==_iff v 0).0 zeroed))));
                    last =
                        Memᴰ.head (
                          ap (seen decon (win_end_position i))
                            (sym ((==_iff w panel_end).0 whole)));
                  }),
                  later,
                )
        ]
      ]

  find_windows-Found :
      (win_en chmap : ℕ) (is : List ℕ) (s : D bus)
      → All (λ i. i < max_win) is
      → Found win_en s
      → let t = (find_windows bus win_en chmap is s).1 in Found win_en t × Looked s.log t.log
  unfolding find_windows
  find_windows-Found win_en chmap [] s h f = (f, not_yet)
  find_windows-Found win_en chmap (i ∷ is) s h f =
      let (g, later) = look_at-Found win_en chmap i s h.0 f in
      let (k, last) = find_windows-Found win_en chmap is (look_at bus win_en chmap i s).1 h.1 g in
      (k, Looked-trans later last)

  -- The channel is 0 or the one of the map, and was read to carry the boot loader's frame buffer.
  abbrev pub Carrying : ℕ → D bus → Type 0
  Carrying ch t =
      Memᴰ (seen dpp (shadow_base t.vars.chan) sboot_fb_base) t.log
      × ((t.vars.chan ≡ 0) ⊎ ((t.vars.chan ≡ ch) × (ch < max_win)))

  abbrev Searched : ℕ → D bus → Ret × D bus → Type 0
  Searched ch s (ret, t) =
      Looked s.log t.log
      × (t.vars.win ≡ s.vars.win)
      × ((ret ≡ some enodev) ⊎ ((ret ≡ none) × Carrying ch t))

  try_mapped-Searched : (ch : ℕ) (s : D bus) → Searched ch s (try_mapped bus ch (ltb ch max_win) s)
  unfolding carries
  try_mapped-Searched ch s = elim (Bool-cases (ltb ch max_win)) [
    | inr high ↦ simp high (not_yet, refl, inl refl)
    | inl low ↦
        let (v, t) = readl bus dpp (shadow_base ch) s in
        elim (Bool-cases (v == sboot_fb_base)) [
          | inr other ↦ simp (low, other) (look _ _ _ not_yet, refl, inl refl)
          | inl found ↦
              simp (low, found)
                (
                  look _ _ _ not_yet,
                  refl,
                  inr (
                    refl,
                    (
                      Memᴰ.head
                          (ap (seen dpp (shadow_base ch)) (sym ((==_iff v sboot_fb_base).0 found))),
                      inr (refl, ground arith),
                    ),
                  ),
                )
        ]
  ]

  find_channel-Searched : (ch : ℕ) (s : D bus) → Searched ch s (find_channel bus ch s)
  unfolding find_channel
  find_channel-Searched ch s =
      let (v, t) = readl bus dpp (shadow_base 0) s in
      let before : Looked s.log t.log = look _ _ _ not_yet in
      elim (Bool-cases (v == sboot_fb_base)) [
        | inl found ↦ simp found (
          before,
          refl,
          inr (
            refl,
            (
              Memᴰ.head (ap (seen dpp (shadow_base 0)) (sym ((==_iff v sboot_fb_base).0 found))),
              inl refl,
            ),
          ),
        )
        | inr other ↦
            let (later, same, outcome) = try_mapped-Searched ch t in
            simp other (Looked-trans before later, same, outcome)
      ]

  -- What the probe has found when it goes on: a window that the boot loader left on and as large as
  -- the panel, and a channel whose shadow bank held the boot loader's frame buffer, the channel being
  -- 0 or the one that the channel map gives for the window.
  abbrev pub Identified : ℕ → ℕ → D bus → Type 0
  Identified win_en chmap t =
      Memᴰ (seen decon 0x214 win_en) t.log
      × Memᴰ (seen decon 0x218 chmap) t.log
      × Fullscreen win_en t.log t.vars.win
      × Carrying (chmap_of chmap t.vars.win) t

  with_window-Identified :
      (win_en chmap : ℕ) (s : D bus)
      → Found win_en s
      → Memᴰ (seen decon 0x214 win_en) s.log
      → Memᴰ (seen decon 0x218 chmap) s.log
      → let (ret, t) = with_window bus (s.vars.win == max_win) chmap s in
        Looked s.log t.log × ((ret ≡ some enodev) ⊎ ((ret ≡ none) × Identified win_en chmap t))
  with_window-Identified win_en chmap s f enabled mapped =
      let ch = chmap_of chmap s.vars.win in
      elim (Bool-cases (s.vars.win == max_win)) [
        | inl no_window ↦ simp no_window (not_yet, inl refl)
        | inr some_window ↦
            let (later, same, outcome) = find_channel-Searched ch s in
            let full : Fullscreen win_en s.log s.vars.win = elim f [
              | inl none_yet ↦ absurd (ground arith)
              | inr there ↦ there
            ] in
            simp some_window (
              later,
              elim outcome [
                | inl failed ↦ inl failed
                | inr (ok, carrying) ↦ inr (
                  ok,
                  (
                    Looked-mem later enabled,
                    Looked-mem later mapped,
                    rw same (Fullscreen-Looked later full),
                    rw same carrying,
                  ),
                )
              ],
            )
      ]

  -- The search comes back with -ENODEV or with a pipeline that was read to be the boot loader's, and
  -- has written nothing.
  pub identify-Identified :
      (s : D bus)
      → let (ret, t) = identify bus s in
        Looked s.log t.log
        × ((ret ≡ some enodev)
            ⊎ ((ret ≡ none) × ((win_en : ℕ) × (chmap : ℕ) × Identified win_en chmap t)))
  unfolding identify
  identify-Identified s =
      let (win_en, t) = readl bus decon 0x214 s in
      let (chmap, u) = readl bus decon 0x218 t in
      let (trig, v) = readl bus decon hw_sw_trig_control u in
      let w = record v { vars = record (v.vars) { inherited_trig_ctrl = trig; win = max_win } } in
      let x = (find_windows bus win_en chmap all_windows w).1 in
      let (f, searched) = find_windows-Found win_en chmap all_windows w (omega arith) (inl refl) in
      let enabled = Looked-mem searched (Memᴰ.tail (Memᴰ.tail (Memᴰ.head refl))) in
      let mapped = Looked-mem searched (Memᴰ.tail (Memᴰ.head refl)) in
      let (later, outcome) = with_window-Identified win_en chmap x f enabled mapped in
      (
        Looked-trans (look _ _ _ (look _ _ _ (look _ _ _ not_yet))) (Looked-trans searched later),
        elim outcome [
          | inl failed ↦ inl failed
          | inr (ok, found) ↦ inr (ok, (win_en, chmap, found))
        ],
      )
