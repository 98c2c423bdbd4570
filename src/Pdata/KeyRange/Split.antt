-- ===== src/Pdata/KeyRange/Split.antt =====
-- The ranges that `split` and `split_key_ranges` of src/pdata/btree_error.rs give.
use thin_provisioning_tools.Prelude.{
  ℕ, ◌-◌, ◌==◌, ◌⊎◌, ◌≡◌, refl, ap, ◌∙◌, List, [], ◌∷◌, ◌++◌, append_assoc, Option, none, some,
  Bool, true, false, ◌&&◌, ltb, leb, if◌then◌else◌, Result, ok, err, inl, inr, Bool-cases, arith,
}
use thin_provisioning_tools.Pdata.KeyRange.{
  KeyRange, SplitError, no_keys, cannot_split, range, split_at, split, split_result, split_one,
  split_loop, split_key_ranges,
}

-- Whether a key lies in a range.
abbrev pub above : Option ℕ → ℕ → Bool
above none k = true
above (some s) k = leb s k

abbrev pub below : Option ℕ → ℕ → Bool
below none k = true
below (some e) k = ltb k e

abbrev pub contains : KeyRange → ℕ → Bool
contains kr k = above kr.start k && below kr.end k

-- What `split` is to do at `n`. Two ranges that meet at `n` have the keys of the range below `n` and
-- from `n` on; the upper one has the key `n` and the lower one the key before, unless `n` is 0 and
-- the range is open below. Without a result one of the two would have no key.
abbrev pub SplitOutcome : KeyRange → ℕ → Option (KeyRange × KeyRange) → Type 0
SplitOutcome kr n (some (lower, upper)) =
    (lower ≡ range kr.start (some n))
    × (upper ≡ range (some n) kr.end)
    × ((k : ℕ)
        → (contains lower k ≡ contains kr k && ltb k n)
          × (contains upper k ≡ contains kr k && leb n k))
    × (contains upper n ≡ true)
    × ((contains lower (n - 1) ≡ true) ⊎ ((kr.start ≡ none) × (n ≡ 0)))
SplitOutcome kr n none =
    ((k : ℕ) → (contains kr k && ltb k n) ≡ false) ⊎ ((k : ℕ) → (contains kr k && leb n k) ≡ false)

-- `split` at a key gives the keys of the range below it and the keys from it on, as two ranges that
-- meet there; the upper one has that key, and the lower one has the key before it, unless the range
-- is open below and is split at 0, which gives a lower range without keys. It gives nothing only
-- where one of the two would have no key.
pub split_outcome : (kr : KeyRange) (n : ℕ) → SplitOutcome kr n (split kr n)
unfolding split
split_outcome kr n = go kr.start kr.end
  where
    low : (n ≡ 0) ⊎ (ltb (n - 1) n ≡ true)
    low = elim (Bool-cases (n == 0)) [ inl e ↦ inl (ground arith) | inr e ↦ inr (ground arith) ]

    lower_end :
        (contains (range none (some n)) (n - 1) ≡ true) ⊎ ((◌≡◌ {A = Option ℕ} none none) × (n ≡ 0))
    lower_end = elim low [ inl e ↦ inr (refl, e) | inr e ↦ inl e ]

    go : (start end : Option ℕ) → SplitOutcome (range start end) n (split_at start end n)
    go none none = (refl, refl, λ k. (ground arith, ground arith), ground arith, lower_end)
    go none (some e) = elim (Bool-cases (ltb n e)) [
      | inl h ↦ rw h (refl, refl, λ k. (ground arith, ground arith), ground arith, lower_end)
      | inr h ↦ rw h (inr (λ k. ground arith))
    ]
    go (some s) none = elim (Bool-cases (ltb s n)) [
      | inl h ↦
          rw h (refl, refl, λ k. (ground arith, ground arith), ground arith, inl (ground arith))
      | inr h ↦ rw h (inl (λ k. ground arith))
    ]
    go (some s) (some e) = elim (Bool-cases (ltb s n)) [
      | inl h ↦ elim (Bool-cases (ltb n e)) [
        | inl h' ↦
            rw (h, h')
              (refl, refl, λ k. (ground arith, ground arith), ground arith, inl (ground arith))
        | inr h' ↦ rw (h, h') (inr (λ k. ground arith))
      ]
      | inr h ↦ rw h (inl (λ k. ground arith))
    ]

-- The keys go up and stay below the end of the range.
abbrev pub is_ascending : ℕ → List ℕ → Option ℕ → Bool
is_ascending k [] end = true
is_ascending k (k' ∷ ks) end = ltb k k' && below end k' && is_ascending k' ks end

-- Each key starts a range that ends where the next starts.
abbrev pub ranges_of : ℕ → List ℕ → Option ℕ → List KeyRange
ranges_of k [] end = range (some k) end ∷ []
ranges_of k (k' ∷ ks) end = range (some k) (some k') ∷ ranges_of k' ks end

abbrev pub RangesOutcome :
    Bool → List KeyRange → ℕ → List ℕ → Option ℕ → Result SplitError (List KeyRange) → Type 0
RangesOutcome true krs k ks end r = r ≡ ok (krs ++ ranges_of k ks end)
RangesOutcome false krs k ks end r = (kr : KeyRange) × (k' : ℕ) × (r ≡ err (cannot_split kr k'))

-- One round, by whether the next key is inside the range that is left.
split_one_lem :
    (k k' : ℕ) (end : Option ℕ)
    → split_one (range (some k) end) k' ≡ (
        if ltb k k' && below end k'
        then ok (range (some k) (some k'), range (some k') end)
        else err (cannot_split (range (some k) end) k'))
unfolding split_one split split_at split_result
split_one_lem k k' none = ground arith
split_one_lem k k' (some e) = ground arith

split_loop_outcome :
    (krs : List KeyRange) (k : ℕ) (end : Option ℕ) (ks : List ℕ)
    → RangesOutcome (is_ascending k ks end) krs k ks end (split_loop krs (range (some k) end) ks)
unfolding split_loop
split_loop_outcome krs k end [] = refl
split_loop_outcome krs k end (k' ∷ ks) =
    let one = split_one_lem k k' end in
    elim (Bool-cases (ltb k k' && below end k')) [
      | inl inside ↦
          rw (one, split_loop)
            (rw inside (
              widen (is_ascending k' ks end) _
                (split_loop_outcome (krs ++ range (some k) (some k') ∷ []) k' end ks)))
      | inr outside ↦ rw (one, split_loop) (rw outside (range (some k) end, k', refl))
    ]
  where
    widen :
        (b : Bool) (r : Result SplitError (List KeyRange))
        → RangesOutcome b (krs ++ range (some k) (some k') ∷ []) k' ks end r
        → RangesOutcome b krs k (k' ∷ ks) end r
    widen true r e =
        e ∙ ap ok (append_assoc krs (range (some k) (some k') ∷ []) (ranges_of k' ks end))
    widen false r e = e

abbrev pub KeyRangesOutcome : KeyRange → List ℕ → Result SplitError (List KeyRange) → Type 0
KeyRangesOutcome kr [] r = r ≡ err no_keys
KeyRangesOutcome kr (k ∷ ks) r = RangesOutcome (is_ascending k ks kr.end) [] k ks kr.end r

-- `split_key_ranges` fails without keys, and where a key after the first is not above the one before it
-- or not below the end of the range; else each key starts a range that ends where the next one
-- starts, and the last ends with the range of the node.
pub split_key_ranges_outcome :
    (kr : KeyRange) (keys : List ℕ) → KeyRangesOutcome kr keys (split_key_ranges kr keys)
unfolding split_key_ranges
split_key_ranges_outcome kr [] = refl
split_key_ranges_outcome kr (k ∷ ks) = split_loop_outcome [] k kr.end ks
