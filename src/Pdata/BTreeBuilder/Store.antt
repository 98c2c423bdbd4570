-- ===== src/Pdata/BTreeBuilder/Store.antt =====
-- What NodeBuilder of src/pdata/btree_builder.rs relies on in its node I/O and space map.
use thin_provisioning_tools.Prelude.{
  ℕ, ◌+◌, ◌-◌, ◌<◌, ◌≡◌, refl, ap, ◌∙◌, ◌==◌, if◌then◌else◌, Option, none, some, List, [], ◌∷◌, map,
  Result, ok, err, ◌>>=◌,
}
use thin_provisioning_tools.Pdata.BTreeBuilder.{
  BuildError, store_failed, WriteResult, NodeStore, lift, zip, inc_values,
}

-- A result whose value meets `P`, or an error of the store: no panic and no key out of order.
abbrev pub Ends : {A : Type 0} → (A → Type 0) → Result BuildError A → Type 0
Ends P (ok a) = P a
Ends P (err e) = e ≡ store_failed

pub Ends-bind :
    {A B : Type 0} (P : A → Type 0) (Q : B → Type 0) (r : Result BuildError A)
    (f : A → Result BuildError B)
    → Ends P r
    → ((a : A) → P a → Ends Q (f a))
    → Ends Q (r >>= f)
Ends-bind P Q (ok a) f h next = next a h
Ends-bind P Q (err e) f h next = h

pub Ends-map :
    {A : Type 0} (P Q : A → Type 0) (r : Result BuildError A)
    → Ends P r
    → ((a : A) → P a → Q a)
    → Ends Q r
Ends-map P Q (ok a) h next = next a h
Ends-map P Q (err e) h next = h

pub Ends-lift :
    {A : Type 0} (P : A → Type 0) (o : Option A) → ((a : A) → o ≡ some a → P a) → Ends P (lift o)
Ends-lift P none h = refl
Ends-lift P (some a) h = h a refl

abbrev pub first_key : {V : Type 0} → List (ℕ × V) → ℕ
first_key [] = 0
first_key (p ∷ ps) = p.0

abbrev pub keys_of : {V : Type 0} → List (ℕ × V) → List ℕ
keys_of ps = map (λ p. p.0) ps

abbrev pub values_of : {V : Type 0} → List (ℕ × V) → List V
values_of ps = map (λ p. p.1) ps

-- Blocks that are counted keep their contents. A node is written to a block that was free, with a
-- count of one, and a read of it that succeeds gives what was written. Any call may fail. `contents`
-- and `count` are views of the state for the proofs.
pub record IsStore {W V : Type 0} (store : NodeStore W V) : Type 0 where
  pub contents : W → ℕ → List (ℕ × V)
  pub count : W → ℕ → ℕ
  pub write_fresh :
      (w w' : W) (ps : List (ℕ × V)) (r : WriteResult)
      → store.write w (keys_of ps) (values_of ps) ≡ some (w', r)
      → (count w r.loc ≡ 0)
        × (count w' r.loc ≡ 1)
        × (contents w' r.loc ≡ ps)
        × (r.first_key ≡ first_key ps)
  pub write_keeps :
      (w w' : W) (ps : List (ℕ × V)) (r : WriteResult) (b : ℕ)
      → store.write w (keys_of ps) (values_of ps) ≡ some (w', r)
      → 0 < count w b
      → (count w' b ≡ count w b) × (contents w' b ≡ contents w b)
  pub read_back :
      (w : W) (b : ℕ) (p : List ℕ × List V)
      → 0 < count w b
      → store.read w b ≡ some p
      → p ≡ (keys_of (contents w b), values_of (contents w b))
  pub inc_keeps :
      (w w' : W) (b c : ℕ)
      → store.inc w b ≡ some w'
      → (count w' c ≡ (if b == c then count w c + 1 else count w c))
        × (contents w' c ≡ contents w c)
  pub dec_keeps :
      (w w' : W) (b c : ℕ)
      → store.dec w b ≡ some w'
      → (count w' c ≡ (if b == c then count w c - 1 else count w c))
        × (0 < count w' c → contents w' c ≡ contents w c)
  pub inc_value_keeps :
      (w w' : W) (v : V) (c : ℕ)
      → store.inc_value w v ≡ some w'
      → (count w' c ≡ count w c) × (contents w' c ≡ contents w c)

pub zip_unzip : {V : Type 0} (ps : List (ℕ × V)) → zip (keys_of ps) (values_of ps) ≡ ps
zip_unzip [] = refl
zip_unzip (p ∷ ps) = ap (λ qs. p ∷ qs) (zip_unzip ps)

module _ {W V : Type 0} (store : NodeStore W V) (laws : IsStore store) where
  open laws use {contents, count, inc_value_keeps}

  -- The same blocks counted, with the same contents.
  abbrev pub Same : W → W → Type 0
  Same w w' = (b : ℕ) → (count w' b ≡ count w b) × (contents w' b ≡ contents w b)

  pub inc_values-Same : (ps : List (ℕ × V)) (w : W) → Ends (Same w) (inc_values store w ps)
  unfolding inc_values
  inc_values-Same [] w = λ b. (refl, refl)
  inc_values-Same (p ∷ ps) w =
      Ends-bind {B = W} (Same w) (Same w) (lift (store.inc_value w p.1)) _
        (Ends-lift (Same w) (store.inc_value w p.1) (λ w' e b. inc_value_keeps w w' p.1 b e))
        (λ w' same.
          Ends-map (Same w') (Same w) (inc_values store w' ps) (inc_values-Same ps w')
            (λ w'' same' b. ((same' b).0 ∙ (same b).0, (same' b).1 ∙ (same b).1)))

  -- A counted block is read as it was written, or the read fails.
  pub read-contents :
      (w : W) (b : ℕ)
      → 0 < count w b
      → Ends (λ p. p ≡ (keys_of (contents w b), values_of (contents w b))) (lift (store.read w b))
  read-contents w b used = Ends-lift _ (store.read w b) (λ p e. laws.read_back w b p used e)
