-- ===== src/Pdata/KeyRange.antt =====
-- `KeyRange` of src/pdata/btree_error.rs: the key ranges of the children of a btree node.
pub mod Split
use thin_provisioning_tools.Prelude.{
  ℕ, List, [], ◌∷◌, Option, none, some, Bool, ◌&&◌, ltb, if◌then◌else◌, Result, ok, err, ◌>>=◌,
  ◌++◌,
}

pub record KeyRange : Type 0 where
  pub start : Option ℕ
  -- one past the last key
  pub end : Option ℕ

-- The two messages of `context_err`; the path that they name is left out.
pub data SplitError : Type 0 where
  no_keys : SplitError
  cannot_split : KeyRange → ℕ → SplitError

abbrev pub range : Option ℕ → Option ℕ → KeyRange
range start end = record { start = start; end = end }

unfoldable pub split_at : Option ℕ → Option ℕ → ℕ → Option (KeyRange × KeyRange)
split_at none none n = some (range none (some n), range (some n) none)
split_at none (some e) n =
    if ltb n e then some (range none (some n), range (some n) (some e)) else none
split_at (some s) none n =
    if ltb s n then some (range (some s) (some n), range (some n) none) else none
split_at (some s) (some e) n =
    if ltb s n && ltb n e then some (range (some s) (some n), range (some n) (some e)) else none

unfoldable pub split : KeyRange → ℕ → Option (KeyRange × KeyRange)
unfolding split_at
split kr n = split_at kr.start kr.end n

unfoldable pub split_result :
    Option (KeyRange × KeyRange) → KeyRange → ℕ → Result SplitError (KeyRange × KeyRange)
split_result none kr k = err (cannot_split kr k)
split_result (some pair) kr k = ok pair

unfoldable pub split_one : KeyRange → ℕ → Result SplitError (KeyRange × KeyRange)
unfolding split_result split
split_one kr k = split_result (split kr k) kr k

-- The loop over the keys after the first; the ranges found so far stand in `krs`.
unfoldable pub split_loop : List KeyRange → KeyRange → List ℕ → Result SplitError (List KeyRange)
unfolding split_one
split_loop krs kr [] = ok (krs ++ kr ∷ [])
split_loop krs kr (k ∷ ks) = split_one kr k >>= λ p. split_loop (krs ++ p.0 ∷ []) p.1 ks

unfoldable pub split_key_ranges : KeyRange → List ℕ → Result SplitError (List KeyRange)
unfolding split_loop
split_key_ranges kr [] = err no_keys
split_key_ranges kr (k ∷ ks) = split_loop [] (range (some k) kr.end) ks
