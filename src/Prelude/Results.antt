-- ===== src/Prelude/Results.antt =====
-- Fallible code: a value or an error, with the notation for `?` chains.
use mathlib.Core.Option.{Option, none, some}
use mathlib.Core.Path.{◌≡◌, refl}

-- `std::result::Result`
pub data Result {ℓ} (E : Type ℓ) (A : Type ℓ) : Type ℓ where
  ok : A → Result E A
  err : E → Result E A

-- `?`: the first error ends the chain.
infixl 5 ◌>>=◌
abbrev pub ◌>>=◌ {ℓ} : {E A B : Type ℓ} → Result E A → (A → Result E B) → Result E B
err failure >>= next = err failure
ok value >>= next = next value

-- `Option::and_then`
abbrev pub and_then {ℓ} : {A B : Type ℓ} → Option A → (A → Option B) → Option B
and_then none next = none
and_then (some value) next = next value

pub >>=_assoc {ℓ} :
    {E A B C : Type ℓ} (r : Result E A) (f : A → Result E B) (g : B → Result E C)
    → ((r >>= f) >>= g) ≡ (r >>= λ a. f a >>= g)
>>=_assoc (ok a) f g = refl
>>=_assoc (err e) f g = refl

pub >>=_ext {ℓ} :
    {E A B : Type ℓ} (r : Result E A) (f g : A → Result E B)
    → ((a : A) → f a ≡ g a)
    → (r >>= f) ≡ (r >>= g)
>>=_ext (ok a) f g h = h a
>>=_ext (err e) f g h = refl
