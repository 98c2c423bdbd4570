-- ===== src/Pdata/SpaceMap/BitSet.antt =====
-- `FixedBitSet` of the crate fixedbitset, as an interface with the documented behaviour that the
-- restricted space maps rely on, and an implementation by a list.
use thin_provisioning_tools.Prelude.{
  arith, ℕ, zero, suc, ◌<◌, ◌≡◌, ◌≢◌, refl, Bool, false, List, Option, none, some, length,
  get_elem?, set, replicate, length-set, length-replicate, get_elem?-set_self, get_elem?-set_ne, [],
  ◌∷◌, ◌≤◌,
}

pub record FixedBitSet : Type 1 where
  pub Bits : Type 0
  pub with_capacity : ℕ → Bits
  pub len : Bits → ℕ
  -- false beyond the set
  pub contains : Bits → ℕ → Bool
  -- `set`, and `insert` with the value true; the source's calls inside the set
  pub put : Bits → ℕ → Bool → Bits
  pub len-with_capacity : (n : ℕ) → len (with_capacity n) ≡ n
  pub contains-with_capacity : (n b : ℕ) → contains (with_capacity n) b ≡ false
  pub contains_outside : (s : Bits) (b : ℕ) → len s ≤ b → contains s b ≡ false
  pub len-put : (s : Bits) (b : ℕ) (v : Bool) → len (put s b v) ≡ len s
  pub contains-put_self : (s : Bits) (b : ℕ) (v : Bool) → b < len s → contains (put s b v) b ≡ v
  pub contains-put_ne :
      (s : Bits) (b c : ℕ) (v : Bool) → b ≢ c → contains (put s b v) c ≡ contains s c

abbrev or_false : Option Bool → Bool
or_false none = false
or_false (some v) = v

abbrev lookup : List Bool → ℕ → Bool
lookup s b = or_false (get_elem? s b)

pub lookup-replicate : (n b : ℕ) → lookup (replicate n false) b ≡ false
lookup-replicate zero b = refl
lookup-replicate (suc n) zero = refl
lookup-replicate (suc n) (suc b) = lookup-replicate n b

pub lookup_outside : (s : List Bool) (b : ℕ) → length s ≤ b → lookup s b ≡ false
lookup_outside [] b h = refl
lookup_outside (v ∷ s) zero h = absurd (omega arith)
lookup_outside (v ∷ s) (suc b) h = lookup_outside s b (omega arith)

abbrev pub list_set : FixedBitSet
list_set = record {
  Bits = List Bool;
  with_capacity = λ n. replicate n false;
  len = length;
  contains = lookup;
  put = set;
  len-with_capacity = λ n. length-replicate n false;
  contains-with_capacity = lookup-replicate;
  contains_outside = lookup_outside;
  len-put = length-set;
  contains-put_self = λ s b v h. rw (get_elem?-set_self s b v h) refl;
  contains-put_ne = λ s b c v h. rw (get_elem?-set_ne s b c v h) refl;
}
