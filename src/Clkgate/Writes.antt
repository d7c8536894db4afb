-- ===== src/Clkgate/Writes.antt =====
-- Which registers src/soc/s9p-clkgate.c writes.
use galaxy_s9plus_mainline_l.Common.{
  ℕ, zero, suc, ◌≡◌, refl, Bool, true, not, ◌&&◌, Bool-cases, List, [], ◌∷◌, ◌⊎◌, inl, inr, bit,
  All,
}
use galaxy_s9plus_mainline_l.Platform.{Hardware, Event, write, pause, rail, smc}
use galaxy_s9plus_mainline_l.Platform
use galaxy_s9plus_mainline_l.Clkgate.{
  Node, S, dump, open_gate, set_register, clear_register, or_register, wait_stable, switch_on,
  select_output, enable_pll, each, each_pair, init,
}

-- The address stands in the list.
abbrev pub Listed : ℕ → List ℕ → Type 0
Listed a [] = ⊥
Listed a (b ∷ bs) = (a ≡ b) ⊎ Listed a bs

-- The address is the first of a pair of the list.
abbrev pub Paired : ℕ → List ℕ → Type 0
Paired a [] = ⊥
Paired a (b ∷ []) = ⊥
Paired a (b ∷ v ∷ bs) = (a ≡ b) ⊎ Paired a bs

module _ {World : Type 0} (hw : Hardware World) (maps : ℕ → Bool) (Allowed : ℕ → Type 0) where
  -- A write to a mapped register that is allowed, or a pause.
  abbrev pub Fine : Event → Type 0
  Fine (write a v) = (maps a ≡ true) × Allowed a
  Fine (pause us) = Unit {0}
  Fine (rail r v ret) = ⊥
  Fine (smc f a r) = ⊥

  abbrev Kept : S hw maps → S hw maps → Type 0
  Kept s t = All Fine s.log → All Fine t.log

  dump-Kept : (a : ℕ) (s : S hw maps) → Kept s (dump hw maps a s).1
  unfolding dump
  dump-Kept a s h = elim (Bool-cases (maps a)) [ inl m ↦ rw (dump, m) h | inr m ↦ rw (dump, m) h ]

  open_gate-Kept : (a : ℕ) (s : S hw maps) → Allowed a → Kept s (open_gate hw maps a s).1
  unfolding open_gate
  open_gate-Kept a s ok h = elim (Bool-cases (maps a)) [
    | inl m ↦ rw (open_gate, m) ((m, ok), h)
    | inr m ↦ rw (open_gate, m) h
  ]

  set_register-Kept :
      (a bits : ℕ) (s : S hw maps) → Allowed a → Kept s (set_register hw maps a bits s).1
  unfolding set_register
  set_register-Kept a bits s ok h = elim (Bool-cases (maps a)) [
    | inl m ↦ rw (set_register, m) (tt, ((m, ok), h))
    | inr m ↦ rw (set_register, m) h
  ]

  clear_register-Kept :
      (a bits : ℕ) (s : S hw maps) → Allowed a → Kept s (clear_register hw maps a bits s).1
  unfolding clear_register
  clear_register-Kept a bits s ok h = elim (Bool-cases (maps a)) [
    | inl m ↦ rw (clear_register, m) ((m, ok), h)
    | inr m ↦ rw (clear_register, m) h
  ]

  or_register-Kept :
      (a bits : ℕ) (s : S hw maps) → Allowed a → Kept s (or_register hw maps a bits s).1
  unfolding or_register
  or_register-Kept a bits s ok h = elim (Bool-cases (maps a)) [
    | inl m ↦ rw (or_register, m) ((m, ok), h)
    | inr m ↦ rw (or_register, m) h
  ]

  wait_stable-Kept : (n a : ℕ) (s : S hw maps) → Kept s (wait_stable hw maps n a s).1
  unfolding wait_stable
  wait_stable-Kept zero a s h = h
  wait_stable-Kept (suc n) a s h = elim (Bool-cases (bit 29 (hw.read_reg a s.world).0)) [
    | inl done ↦ rw (wait_stable, done) h
    | inr more ↦ rw (wait_stable, more) (wait_stable-Kept n a _ (tt, h))
  ]

  switch_on-Kept :
      (a v : ℕ) (s : S hw maps) → maps a ≡ true → Allowed a → Kept s (switch_on hw maps a v s).1
  unfolding switch_on
  switch_on-Kept a v s m ok h = elim (Bool-cases (bit 31 v)) [
    | inl on ↦ rw (switch_on, on) h
    | inr off ↦ rw (switch_on, off) (wait_stable-Kept 5000 a _ ((m, ok), h))
  ]

  select_output-Kept :
      (a v : ℕ) (s : S hw maps) → maps a ≡ true → Allowed a → Kept s (select_output hw maps a v s).1
  unfolding select_output
  select_output-Kept a v s m ok h = elim (Bool-cases (bit 29 v && not (bit 4 v))) [
    | inl due ↦ rw (select_output, due) ((m, ok), h)
    | inr no_need ↦ rw (select_output, no_need) h
  ]

  enable_pll-Kept : (a : ℕ) (s : S hw maps) → Allowed a → Kept s (enable_pll hw maps a s).1
  unfolding enable_pll
  enable_pll-Kept a s ok h =
      let (old, t) = Platform.readl hw a s in
      let (v, u) = switch_on hw maps a old t in
      elim (Bool-cases (maps a)) [
        | inl m ↦ simp m (select_output-Kept a v u m ok (switch_on-Kept a old t m ok h))
        | inr m ↦ simp m h
      ]

  each-Kept :
      (f : ℕ → S hw maps → Unit {0} × S hw maps) (l : List ℕ)
      → ((a : ℕ) (s : S hw maps) → Allowed a → Kept s (f a s).1)
      → ((a : ℕ) → Listed a l → Allowed a)
      → (s : S hw maps) → Kept s (each hw maps f l s).1
  unfolding each
  each-Kept f [] k ok s h = h
  each-Kept f (a ∷ l) k ok s h =
      each-Kept f l k (λ b m. ok b (inr m)) (f a s).1 (k a s (ok a (inl refl)) h)

  each_pair-Kept :
      (f : ℕ → ℕ → S hw maps → Unit {0} × S hw maps) (l : List ℕ)
      → ((a v : ℕ) (s : S hw maps) → Allowed a → Kept s (f a v s).1)
      → ((a : ℕ) → Paired a l → Allowed a)
      → (s : S hw maps) → Kept s (each_pair hw maps f l s).1
  unfolding each_pair
  each_pair-Kept f [] k ok s h = h
  each_pair-Kept f (a ∷ []) k ok s h = h
  each_pair-Kept f (a ∷ v ∷ l) k ok s h =
      each_pair-Kept f l k (λ b m. ok b (inr m)) (f a v s).1 (k a v s (ok a (inl refl)) h)

  each-dump-Kept : (l : List ℕ) (s : S hw maps) → Kept s (each hw maps (dump hw maps) l s).1
  unfolding each
  each-dump-Kept [] s h = h
  each-dump-Kept (a ∷ l) s h = each-dump-Kept l (dump hw maps a s).1 (dump-Kept a s h)

-- The registers that a node asks to write.
abbrev pub Written : Node → ℕ → Type 0
Written np a =
    Listed a np.gate_registers
    ⊎ Paired a np.set_registers
    ⊎ Paired a np.clear_registers
    ⊎ Paired a np.or_registers
    ⊎ Listed a np.pll_enable

-- The boot-time pass writes no register but the mapped ones of the five lists that ask for writes;
-- in particular a register that is only in the dump list stays as it is.
pub init_writes :
    {World : Type 0} (hw : Hardware World) (maps : ℕ → Bool) (np : Node) (s : S hw maps)
    → All (Fine hw maps (Written np)) s.log
    → All (Fine hw maps (Written np)) (init hw maps np s).1.log
unfolding init
init_writes hw maps np s h =
    let W = Written np in
    each-Kept hw maps W (enable_pll hw maps) np.pll_enable (enable_pll-Kept hw maps W)
      (λ a m. inr (inr (inr (inr m)))) _
      (each_pair-Kept hw maps W (or_register hw maps) np.or_registers (or_register-Kept hw maps W)
        (λ a m. inr (inr (inr (inl m)))) _
        (each_pair-Kept hw maps W (clear_register hw maps) np.clear_registers
          (clear_register-Kept hw maps W) (λ a m. inr (inr (inl m))) _
          (each_pair-Kept hw maps W (set_register hw maps) np.set_registers
            (set_register-Kept hw maps W) (λ a m. inr (inl m)) _
            (each-Kept hw maps W (open_gate hw maps) np.gate_registers (open_gate-Kept hw maps W)
              (λ a m. inl m) _ (each-dump-Kept hw maps W np.dump_registers s h)))))
