-- ===== src/Common/Lists.antt =====
-- C arrays as lists with native indices, and a predicate on every entry.
use Prim.Native.Nat.{ℕ, zero, suc}
use mathlib.Core.List.{List, [], ◌∷◌}
use mathlib.Core.Option.{Option, none, some}

module _ {ℓ} {A : Type ℓ} where
  abbrev pub length : List A → ℕ
  length [] = 0
  length (x ∷ xs) = suc (length xs)

  abbrev pub get_elem? : List A → ℕ → Option A
  get_elem? [] i = none
  get_elem? (x ∷ xs) zero = some x
  get_elem? (x ∷ xs) (suc i) = get_elem? xs i

  abbrev pub get_or : List A → ℕ → A → A
  get_or [] i d = d
  get_or (x ∷ xs) zero d = x
  get_or (x ∷ xs) (suc i) d = get_or xs i d

  abbrev pub All {κ} : (A → Type κ) → List A → Type κ
  All P [] = Unit
  All P (x ∷ xs) = P x × All P xs

-- A log `after`, newest first, is `before` and what came since.
module _ {A : Type 0} where
  pub data Since (before : List A) : List A → Type 0 where
    nothing : Since before before
    more : {a : A} {after : List A} → Since before after → Since before (a ∷ after)

  pub Since-trans : {l m n : List A} → Since l m → Since m n → Since l n
  Since-trans early nothing = early
  Since-trans early (more late) = more (Since-trans early late)
