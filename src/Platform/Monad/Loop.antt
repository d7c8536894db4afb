-- ===== src/Platform/Monad/Loop.antt =====
-- State passing for code with an unbounded busy loop: `none` means that the fuel ran out.
use galaxy_s9plus_mainline_l.Common.{◌≡◌, refl, Option, none, some}

abbrev pub Loop : Type 0 → Type 0 → Type 0
Loop S A = S → Option (A × S)

infixl 5 ◌>>=◌ ◌>>◌
abbrev pub ◌>>=◌ :
    {S A B : Type 0} → (S → Option (A × S)) → (A → S → Option (B × S)) → S → Option (B × S)
◌>>=◌ m f s = elim (m s) [ none ↦ none | some (a, s') ↦ f a s' ]

abbrev pub ◌>>◌ :
    {S B : Type 0} → (S → Option (Unit {0} × S)) → (S → Option (B × S)) → S → Option (B × S)
m >> k = m >>= λ _. k

abbrev pub lift : {S A : Type 0} → (S → A × S) → S → Option (A × S)
lift m s = some (m s)

-- What a run that came back did first and then.
pub >>=-eq-some :
    {S A B : Type 0} (m : S → Option (A × S)) (f : A → S → Option (B × S)) (s : S) {r : B × S}
    → (m >>= f) s ≡ some r
    → (a : A) × (s' : S) × (m s ≡ some (a, s')) × (f a s' ≡ some r)
>>=-eq-some {S} {A} {B} m f s {r} h = at (m s) refl h
  where
    at :
        (o : Option (A × S))
        → m s ≡ o
        → elim o [ none ↦ none | some (a, s') ↦ f a s' ] ≡ some r
        → (a : A) × (s' : S) × (m s ≡ some (a, s')) × (f a s' ≡ some r)
    at none e h = cc
    at (some (a, s')) e h = (a, s', e, h)

-- The run comes back.
abbrev pub Returns : {S A : Type 0} → (S → Option (A × S)) → S → Type 0
Returns {S} {A} m s = (r : A × S) × (m s ≡ some r)

pub >>=-Returns :
    {S A B : Type 0} (m : S → Option (A × S)) (f : A → S → Option (B × S)) (s : S)
    → Returns m s
    → ((a : A) (s' : S) → Returns (f a) s')
    → Returns (m >>= f) s
>>=-Returns m f s ((a, s'), e) h = let (r, e') = h a s' in (r, rw (e, ◌>>=◌) e')
