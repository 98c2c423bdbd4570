-- ===== src/Pdata/SpaceMap/Restricted/Laws.antt =====
-- The invariant, `set` and `inc` of `RestrictedSpaceMap` of src/pdata/space_map/base.rs.
use thin_provisioning_tools.Prelude.{
  ℕ, zero, suc, ◌+◌, ◌≤◌, ◌<◌, ◌≡◌, ◌≢◌, ◌⊎◌, inl, inr, refl, ap, ◌∙◌, Bool, true, false, ◌||◌,
  ◌&&◌, ltb, leb, ◌==◌, if◌then◌else◌, Result, ok, err, Bool-cases, arith,
}
use thin_provisioning_tools.Pdata.SpaceMap.Core.{SmError}
use thin_provisioning_tools.Pdata.SpaceMap.BitSet.{FixedBitSet}
use thin_provisioning_tools.Pdata.SpaceMap.Restricted.{
  RestrictedSpaceMap, insert, remove, set_count, mark, inc_loop, ends_outside, inc,
}

module _ (fbs : FixedBitSet) where
  abbrev pub bit : Bool → ℕ
  bit v = if v then 1 else 0

  -- the number of blocks in use below `n`
  unfoldable pub count_used : fbs.Bits → ℕ → ℕ
  count_used s zero = 0
  count_used s (suc n) = count_used s n + bit (fbs.contains s n)

  count_used-put_above :
      (s : fbs.Bits) (b : ℕ) (v : Bool) (n : ℕ)
      → n ≤ b
      → count_used (fbs.put s b v) n ≡ count_used s n
  unfolding count_used
  count_used-put_above s b v zero h = refl
  count_used-put_above s b v (suc n) h =
      rw (fbs.contains-put_ne s b n v (omega arith), count_used-put_above s b v n (omega arith))
        refl

  count_used-put :
      (s : fbs.Bits) (b : ℕ) (v : Bool) (n : ℕ)
      → b < n
      → b < fbs.len s
      → count_used (fbs.put s b v) n + bit (fbs.contains s b) ≡ count_used s n + bit v
  unfolding count_used
  count_used-put s b v zero h inside = absurd (omega arith)
  count_used-put s b v (suc n) h inside = elim (Bool-cases (b == n)) [
    | inl here ↦
        let same : n ≡ b = ground arith in
        rw same (
          rw (fbs.contains-put_self s b v inside, count_used-put_above s b v b (omega arith))
            (omega arith))
    | inr below ↦
        rw (fbs.contains-put_ne s b n v (ground arith))
          (omega (arith, count_used-put s b v n (ground arith) inside))
  ]

  pub record IsValid (sm : RestrictedSpaceMap fbs) : Type 0 where
    pub counted : sm.nr_allocated ≡ count_used sm.counts (fbs.len sm.counts)
    pub begins : sm.alloc_begin ≤ fbs.len sm.counts

  -- Writing one bit, with the number of allocated blocks put right.
  pub put-IsValid :
      (sm : RestrictedSpaceMap fbs) (b nr begin : ℕ) (v : Bool)
      → IsValid sm
      → b < fbs.len sm.counts
      → nr + bit (fbs.contains sm.counts b) ≡ sm.nr_allocated + bit v
      → begin ≤ fbs.len sm.counts
      → IsValid (record { nr_allocated = nr; alloc_begin = begin; counts = fbs.put sm.counts b v })
  put-IsValid sm b nr begin v h inside r le = record {
    counted = rw (fbs.len-put sm.counts b v) (
        omega
          (arith, h.counted, r, count_used-put sm.counts b v (fbs.len sm.counts) inside inside));
    begins = rw (fbs.len-put sm.counts b v) le;
  }

  insert-IsValid :
      (b : ℕ) (sm : RestrictedSpaceMap fbs)
      → b < fbs.len sm.counts
      → IsValid sm
      → IsValid (insert fbs b sm)
  unfolding insert
  insert-IsValid b sm inside h =
      put-IsValid sm b _ sm.alloc_begin true h inside (ground arith) h.begins

  used-le-count_used : (s : fbs.Bits) (b n : ℕ) → b < n → bit (fbs.contains s b) ≤ count_used s n
  unfolding count_used
  used-le-count_used s b zero h = absurd (omega arith)
  used-le-count_used s b (suc n) h = elim (Bool-cases (b == n)) [
    | inl here ↦ let same : n ≡ b = ground arith in rw same (omega arith)
    | inr below ↦ omega (arith, used-le-count_used s b n (ground arith))
  ]

  remove-IsValid :
      (b : ℕ) (sm : RestrictedSpaceMap fbs)
      → b < fbs.len sm.counts
      → IsValid sm
      → IsValid (remove fbs b sm)
  unfolding remove
  remove-IsValid b sm inside h =
      let some_used = used-le-count_used sm.counts b (fbs.len sm.counts) inside in
      let counted = h.counted in
      put-IsValid sm b _ sm.alloc_begin false h inside (ground arith) h.begins

  mark-IsValid :
      (b : ℕ) (sm : RestrictedSpaceMap fbs)
      → b < fbs.len sm.counts
      → IsValid sm
      → IsValid (mark fbs b sm)
  unfolding mark
  mark-IsValid b sm inside h = elim (Bool-cases (fbs.contains sm.counts b)) [
    | inl e ↦ rw e h
    | inr e ↦ rw e (put-IsValid sm b _ sm.alloc_begin true h inside (rw e (omega arith)) h.begins)
  ]

  len-mark :
      (b : ℕ) (sm : RestrictedSpaceMap fbs)
      → fbs.len (RestrictedSpaceMap.counts (mark fbs b sm)) ≡ fbs.len sm.counts
  unfolding mark
  len-mark b sm = elim (Bool-cases (fbs.contains sm.counts b)) [
    | inl e ↦ rw e refl
    | inr e ↦ rw e (fbs.len-put sm.counts b true)
  ]

  contains-mark :
      (b c : ℕ) (sm : RestrictedSpaceMap fbs)
      → b < fbs.len sm.counts
      → fbs.contains (RestrictedSpaceMap.counts (mark fbs b sm)) c
        ≡ (b == c) || fbs.contains sm.counts c
  unfolding mark
  contains-mark b c sm h = elim (Bool-cases (fbs.contains sm.counts b)) [
    | inl e ↦ rw e (elim (Bool-cases (b == c)) [
      | inl here ↦ let same : b ≡ c = ground arith in ground (arith, e, same)
      | inr other ↦ rw other refl
    ])
    | inr e ↦ rw e (elim (Bool-cases (b == c)) [
      | inl here ↦
          let same : c ≡ b = ground arith in
          rw here (rw same (fbs.contains-put_self sm.counts b true h))
      | inr other ↦ rw other (fbs.contains-put_ne sm.counts b c true (ground arith))
    ])
  ]

  -- The loop of `inc` keeps the map valid and its size, and marks the blocks of the range.
  abbrev pub IsMarked : ℕ → ℕ → RestrictedSpaceMap fbs → RestrictedSpaceMap fbs → Type 0
  IsMarked begin n sm sm' =
      IsValid sm'
      × (fbs.len sm'.counts ≡ fbs.len sm.counts)
      × ((c : ℕ)
          → fbs.contains sm'.counts c
            ≡ (leb begin c && ltb c (begin + n)) || fbs.contains sm.counts c)

  next_range :
      (begin n c : ℕ) (v : Bool)
      → (leb (begin + 1) c && ltb c (begin + 1 + n)) || ((begin == c) || v)
        ≡ (leb begin c && ltb c (begin + suc n)) || v
  next_range begin n c true = ground arith
  next_range begin n c false = ground arith

  inc_loop-IsMarked :
      (n begin : ℕ) (sm : RestrictedSpaceMap fbs)
      → begin + n ≤ fbs.len sm.counts
      → IsValid sm
      → IsMarked begin n sm (inc_loop fbs n begin sm)
  unfolding inc_loop
  inc_loop-IsMarked zero begin sm h v = (v, refl, λ c. ground arith)
  inc_loop-IsMarked (suc n) begin sm h v =
      let same = len-mark begin sm in
      let (valid, len, marked) =
        inc_loop-IsMarked n (begin + 1) (mark fbs begin sm) (omega arith)
          (mark-IsValid begin sm (omega arith) v) in
      (
        valid,
        len ∙ same,
        λ c.
            marked c
            ∙ ap (λ (t : Bool). (leb (begin + 1) c && ltb c (begin + 1 + n)) || t)
                (contains-mark begin c sm (omega arith))
            ∙ next_range begin n c (fbs.contains sm.counts c),
      )

  -- What `inc` is to do: it fails, or marks the blocks of the range.
  abbrev pub IncOutcome :
      ℕ → ℕ → RestrictedSpaceMap fbs → Result SmError (RestrictedSpaceMap fbs) → Type 0
  IncOutcome begin n sm (err e) = (begin + n ≡ 0) ⊎ (fbs.len sm.counts < begin + n)
  IncOutcome begin n sm (ok sm') = IsMarked begin n sm sm'

  -- On a valid map `inc` fails only where the range ends outside the map (an end at 0 included); else
  -- the map stays valid and exactly the blocks of the range and those in use before are in use.
  pub inc-IncOutcome :
      (begin n : ℕ) (sm : RestrictedSpaceMap fbs)
      → IsValid sm
      → IncOutcome begin n sm (inc fbs begin n sm)
  unfolding inc ends_outside
  inc-IncOutcome begin n sm v = elim (Bool-cases (ends_outside fbs (begin + n) sm)) [
    | inl outside ↦ rw outside (ground arith)
    | inr inside ↦ rw inside (inc_loop-IsMarked n begin sm (ground arith) v)
  ]

  -- What `set` is to do: it fails, or writes the one bit.
  abbrev pub SetOutcome :
      ℕ → ℕ → RestrictedSpaceMap fbs → Result SmError (ℕ × RestrictedSpaceMap fbs) → Type 0
  SetOutcome b v sm (err e) = fbs.len sm.counts ≤ b
  SetOutcome b v sm (ok (old, sm')) =
      IsValid sm'
      × (old ≡ bit (fbs.contains sm.counts b))
      × (fbs.contains sm'.counts b ≡ ltb 0 v)
      × ((c : ℕ) → b ≢ c → fbs.contains sm'.counts c ≡ fbs.contains sm.counts c)

  -- On a valid map `set` fails only beyond the map; else it returns the old count, the map stays
  -- valid, the block is in use just where the new count is not 0, and no other block changes.
  pub set_count-SetOutcome :
      (b v : ℕ) (sm : RestrictedSpaceMap fbs)
      → IsValid sm
      → SetOutcome b v sm (set_count fbs b v sm)
  unfolding set_count insert remove
  set_count-SetOutcome b v sm h = elim (Bool-cases (leb (fbs.len sm.counts) b)) [
    | inl outside ↦ rw outside (ground arith)
    | inr inside ↦ elim (Bool-cases (ltb 0 v)) [
      | inl high ↦
          rw (inside, high)
            (
              insert-IsValid b sm (ground arith) h,
              refl,
              fbs.contains-put_self sm.counts b true (ground arith),
              λ c ne. fbs.contains-put_ne sm.counts b c true ne,
            )
      | inr low ↦
          rw (inside, low)
            (
              remove-IsValid b sm (ground arith) h,
              refl,
              fbs.contains-put_self sm.counts b false (ground arith),
              λ c ne. fbs.contains-put_ne sm.counts b c false ne,
            )
    ]
  ]
