-- ===== src/Bytes/Parse.antt =====
-- The parsers of the crate nom that the source's `unpack` functions are chains of: `le_u32`, `take`, ...
-- A chain `let (i, x) = p(i)?; ...` is a do block, which passes the rest of the input on.
use thin_provisioning_tools.Prelude.{
  ℕ, zero, suc, arith, ◌<◌, ◌≡◌, refl, List, [], ◌∷◌, ◌++◌, append_assoc, Option, none, some,
  length, ap, ◌∙◌,
}
use thin_provisioning_tools.Bytes.{Bytes, Width, limit, ByteOrder}

abbrev pub Parser {ℓ} : Type ℓ → Type ℓ
Parser A = Bytes → Option (A × Bytes)

continue {ℓ} : {A B : Type ℓ} → Option (A × Bytes) → (A → Parser B) → Option (B × Bytes)
continue none f = none
continue (some (a, i)) f = f a i

infixl 5 ◌>>=◌
unfoldable pub ◌>>=◌ {ℓ} : {A B : Type ℓ} → Parser A → (A → Parser B) → Parser B
unfolding continue
(p >>= f) i = continue (p i) f

unfoldable pub pure {ℓ} : {A : Type ℓ} → A → Parser A
pure a i = some (a, i)

-- `nom::bytes::complete::take`: the first bytes and what follows them
pub record Take : Type 0 where
  pub take : ℕ → Parser Bytes
  pub take-append :
      (n : ℕ) (xs rest : Bytes) → length xs ≡ n → take n (xs ++ rest) ≡ some (xs, rest)

-- What a sequence of writes leaves in the buffer before what is there.
abbrev pub written : List Bytes → Bytes → Bytes
written [] rest = rest
written (p ∷ ps) rest = p ++ written ps rest

pub written-append :
    (ps : List Bytes) (xs rest : Bytes) → written ps xs ++ rest ≡ written ps (xs ++ rest)
written-append [] xs rest = refl
written-append (p ∷ ps) xs rest =
    append_assoc p (written ps xs) rest ∙ ap (λ (t : Bytes). p ++ t) (written-append ps xs rest)

module _ (order : ByteOrder) where
  pub read->>= :
      {B : Type 0} (w : Width) (n : ℕ) (f : ℕ → Parser B) (rest : Bytes)
      → n < limit w
      → (order.read w >>= f) (order.write w n ++ rest) ≡ f n rest
  unfolding ◌>>=◌ continue
  read->>= w n f rest h = rw (order.read-write w n rest h) refl

pub take->>= :
    {B : Type 0} (t : Take) (n : ℕ) (xs : Bytes) (f : Bytes → Parser B) (rest : Bytes)
    → length xs ≡ n
    → (t.take n >>= f) (xs ++ rest) ≡ f xs rest
unfolding ◌>>=◌ continue
take->>= t n xs f rest e = rw (t.take-append n xs rest e) refl

-- An implementation of `take`.
abbrev pub cons_first : ℕ → Option (Bytes × Bytes) → Option (Bytes × Bytes)
cons_first b none = none
cons_first b (some (xs, rest)) = some (b ∷ xs, rest)

abbrev pub split_at : ℕ → Parser Bytes
split_at zero i = some ([], i)
split_at (suc n) [] = none
split_at (suc n) (b ∷ i) = cons_first b (split_at n i)

pub split_at-append :
    (n : ℕ) (xs rest : Bytes) → length xs ≡ n → split_at n (xs ++ rest) ≡ some (xs, rest)
split_at-append zero [] rest e = refl
split_at-append zero (x ∷ xs) rest e = absurd (omega arith)
split_at-append (suc n) [] rest e = absurd (omega arith)
split_at-append (suc n) (x ∷ xs) rest e =
    ap (cons_first x) (split_at-append n xs rest (omega arith))

abbrev pub list_take : Take
list_take = record { take = split_at; take-append = split_at-append }

-- A parser that succeeds passes its value and the rest of the input on.
pub >>=-eq :
    {A B : Type 0} (p : Parser A) (i : Bytes) (a : A) (rest : Bytes) (f : A → Parser B)
    → p i ≡ some (a, rest)
    → (p >>= f) i ≡ f a rest
unfolding ◌>>=◌ continue
>>=-eq p i a rest f e = rw e refl
