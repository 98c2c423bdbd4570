-- ===== src/Pdata/SpaceMap/RestrictedTwo/Laws.antt =====
-- `set` and `inc` of `RestrictedTwoSpaceMap` of src/pdata/space_map/base.rs.
use thin_provisioning_tools.Prelude.{
  ℕ, zero, suc, ◌+◌, ◌*◌, ◌≤◌, ◌<◌, ◌≡◌, ◌≢◌, refl, ap, ◌∙◌, Bool, true, false, ◌&&◌, ltb, leb,
  ◌==◌, if◌then◌else◌, ok, lt→ltb, inl, inr, Bool-cases, arith,
}
use thin_provisioning_tools.Pdata.SpaceMap.BitSet.{FixedBitSet}
use thin_provisioning_tools.Pdata.SpaceMap.RestrictedTwo.{
  RestrictedTwoSpaceMap, get, write_bit, write_pair, with_counts, set_bits, set_count, mark,
  inc_loop, inc, recount,
}

module _ (fbs : FixedBitSet) where
  -- Not both bits of a block are set.
  abbrev pub IsCounter : fbs.Bits → Type 0
  IsCounter s = (b : ℕ) → fbs.contains s (2 * b) && fbs.contains s (2 * b + 1) ≡ false

  -- The second set has the bits `one` and `two` for the block `b`, and the same for the others.
  abbrev pub IsWritten : ℕ → Bool → Bool → fbs.Bits → fbs.Bits → Type 0
  IsWritten b one two s s' =
      (fbs.len s' ≡ fbs.len s)
      × (fbs.contains s' (2 * b) ≡ one)
      × (fbs.contains s' (2 * b + 1) ≡ two)
      × ((c : ℕ)
          → b ≢ c
          → (fbs.contains s' (2 * c) ≡ fbs.contains s (2 * c))
            × (fbs.contains s' (2 * c + 1) ≡ fbs.contains s (2 * c + 1)))

  pub write_bit_inside :
      (i : ℕ) (v : Bool) (s : fbs.Bits) → i < fbs.len s → write_bit fbs i v s ≡ ok (fbs.put s i v)
  unfolding write_bit
  write_bit_inside i v s h = rw (lt→ltb i (fbs.len s) h) refl

  distinct : (i j : ℕ) → i < j → i ≢ j
  distinct i j h = omega arith

  pub put-IsWritten :
      (b : ℕ) (s : fbs.Bits)
      → 2 * b + 1 < fbs.len s
      → fbs.contains s (2 * b + 1) ≡ false
      → IsWritten b true false s (fbs.put s (2 * b) true)
  put-IsWritten b s h e = (
    fbs.len-put s (2 * b) true,
    fbs.contains-put_self s (2 * b) true (omega arith),
    fbs.contains-put_ne s (2 * b) (2 * b + 1) true (omega arith) ∙ e,
    λ c ne. (
      fbs.contains-put_ne s (2 * b) (2 * c) true (omega arith),
      fbs.contains-put_ne s (2 * b) (2 * c + 1) true (omega arith),
    ),
  )

  write_pair-IsWritten :
      (b : ℕ) (one two : Bool) (s : fbs.Bits)
      → 2 * b + 1 < fbs.len s
      → (s' : fbs.Bits) × (write_pair fbs b one two s ≡ ok s') × IsWritten b one two s s'
  unfolding write_pair
  write_pair-IsWritten b one two s h =
      let t : fbs.Bits = fbs.put s (2 * b) one in
      let len : fbs.len t ≡ fbs.len s = fbs.len-put s (2 * b) one in
      (
        fbs.put t (2 * b + 1) two,
        rw (write_bit_inside (2 * b) one s (omega arith))
            (write_bit_inside (2 * b + 1) two t (omega arith)),
        (
          fbs.len-put t (2 * b + 1) two ∙ len,
          fbs.contains-put_ne t (2 * b + 1) (2 * b) two (omega arith)
              ∙ fbs.contains-put_self s (2 * b) one (omega arith),
          fbs.contains-put_self t (2 * b + 1) two (omega arith),
          λ c ne. (
            fbs.contains-put_ne t (2 * b + 1) (2 * c) two (omega arith)
                ∙ fbs.contains-put_ne s (2 * b) (2 * c) one (omega arith),
            fbs.contains-put_ne t (2 * b + 1) (2 * c + 1) two (omega arith)
                ∙ fbs.contains-put_ne s (2 * b) (2 * c + 1) one (omega arith),
          ),
        ),
      )

  abbrev pub saturated : ℕ → ℕ
  saturated x = if ltb x 2 then x + 1 else 2

  abbrev decoded : Bool → Bool → ℕ
  decoded one two = if one then 1 else if two then 2 else 0

  pub IsWritten-IsCounter :
      (b : ℕ) (one two : Bool) (s s' : fbs.Bits)
      → one && two ≡ false
      → IsCounter s
      → IsWritten b one two s s'
      → IsCounter s'
  IsWritten-IsCounter b one two s s' e v (len, first, second, others) c =
      elim (Bool-cases (b == c)) [
        | inl here ↦ let same : c ≡ b = ground arith in rw same (rw (first, second) e)
        | inr other ↦ let o = others c (ground arith) in rw (o.0, o.1) (v c)
      ]

  pub get-IsWritten :
      (b c : ℕ) (one two : Bool) (s s' : fbs.Bits)
      → IsWritten b one two s s'
      → get fbs c s' ≡ (if b == c then decoded one two else get fbs c s)
  unfolding get
  get-IsWritten b c one two s s' (len, first, second, others) = elim (Bool-cases (b == c)) [
    | inl here ↦ let same : c ≡ b = ground arith in rw here (rw same (rw (first, second) refl))
    | inr other ↦ let o = others c (ground arith) in rw other (rw (o.0, o.1) refl)
  ]

  -- What one round of `inc` does.
  abbrev MarkOutcome : ℕ → fbs.Bits → fbs.Bits → Type 0
  MarkOutcome b s s' =
      IsCounter s'
      × (fbs.len s' ≡ fbs.len s)
      × ((c : ℕ) → get fbs c s' ≡ (if b == c then saturated (get fbs c s) else get fbs c s))

  written_outcome :
      (b : ℕ) (one two : Bool) (s s' : fbs.Bits)
      → one && two ≡ false
      → decoded one two ≡ saturated (get fbs b s)
      → IsCounter s
      → IsWritten b one two s s'
      → MarkOutcome b s s'
  written_outcome b one two s s' e d v w = (
    IsWritten-IsCounter b one two s s' e v w,
    w.0,
    λ c. elim (Bool-cases (b == c)) [
      | inl here ↦
          let same : c ≡ b = ground arith in get-IsWritten b c one two s s' w ∙ rw here (rw same d)
      | inr other ↦ get-IsWritten b c one two s s' w ∙ rw other refl
    ],
  )

  mark_outcome :
      (b : ℕ) (sm : RestrictedTwoSpaceMap fbs)
      → 2 * b + 1 < fbs.len sm.counts
      → IsCounter sm.counts
      → (sm' : RestrictedTwoSpaceMap fbs) × (mark fbs b sm ≡ ok sm')
        × MarkOutcome b sm.counts sm'.counts
  unfolding mark with_counts get
  mark_outcome b sm h v = elim (Bool-cases (fbs.contains sm.counts (2 * b + 1))) [
    | inl two ↦
        let not_one : fbs.contains sm.counts (2 * b) ≡ false = ground (arith, v b, two) in
        (
          sm,
          rw two refl,
          (
            v,
            refl,
            λ c. elim (Bool-cases (b == c)) [
              | inl here ↦
                  let same : c ≡ b = ground arith in rw here (rw same (rw (not_one, two) refl))
              | inr other ↦ rw other refl
            ],
          ),
        )
    | inr not_two ↦ elim (Bool-cases (fbs.contains sm.counts (2 * b))) [
      | inl one ↦
          let (s, e, w) = write_pair-IsWritten b false true sm.counts h in
          (
            record sm { counts = s },
            rw (not_two, one) (rw e refl),
            written_outcome b false true sm.counts s refl (rw one refl) v w,
          )
      | inr not_one ↦ (
        record sm { nr_allocated = sm.nr_allocated + 1; counts = fbs.put sm.counts (2 * b) true },
        rw (not_two, not_one) (rw (write_bit_inside (2 * b) true sm.counts (omega arith)) refl),
        written_outcome b true false sm.counts _ refl (rw (not_one, not_two) refl) v
            (put-IsWritten b sm.counts h not_two),
      )
    ]
  ]

  -- The blocks of the range are counted once more.
  abbrev pub IsSaturated : ℕ → ℕ → fbs.Bits → fbs.Bits → Type 0
  IsSaturated begin n s s' =
      (c : ℕ)
      → get fbs c s'
        ≡ (if leb begin c && ltb c (begin + n) then saturated (get fbs c s) else get fbs c s)

  next_range :
      (begin n c x : ℕ)
      → (if leb (begin + 1) c && ltb c (begin + 1 + n)
          then saturated (if begin == c then saturated x else x)
          else if begin == c
          then saturated x
          else x)
        ≡ (if leb begin c && ltb c (begin + suc n) then saturated x else x)
  next_range begin n c x = ground arith

  inc_loop-IsSaturated :
      (n begin : ℕ) (sm : RestrictedTwoSpaceMap fbs)
      → 2 * (begin + n) ≤ fbs.len sm.counts
      → IsCounter sm.counts
      → (sm' : RestrictedTwoSpaceMap fbs) × (inc_loop fbs n begin sm ≡ ok sm')
        × IsCounter sm'.counts
        × IsSaturated begin n sm.counts sm'.counts
  unfolding inc_loop
  inc_loop-IsSaturated zero begin sm h v = (sm, refl, v, λ c. ground arith)
  inc_loop-IsSaturated (suc n) begin sm h v =
      let (sm1, e, (v1, len, marked)) = mark_outcome begin sm (omega arith) v in
      let (sm2, run, v2, raised) = inc_loop-IsSaturated n (begin + 1) sm1 (omega arith) v1 in
      (
        sm2,
        rw (e, inc_loop) run,
        v2,
        λ c.
            raised c
            ∙ ap (λ (x : ℕ). if leb (begin + 1) c && ltb c (begin + 1 + n) then saturated x else x)
                (marked c)
            ∙ next_range begin n c (get fbs c sm.counts),
      )

  -- Where the range is inside the map and no block has both bits set, `inc` does not panic, no block has
  -- both bits set after it, and the count of each block of the range is one more, or still two; the
  -- other blocks have the same count.
  pub inc-IsSaturated :
      (begin n : ℕ) (sm : RestrictedTwoSpaceMap fbs)
      → 2 * (begin + n) ≤ fbs.len sm.counts
      → IsCounter sm.counts
      → (sm' : RestrictedTwoSpaceMap fbs) × (inc fbs begin n sm ≡ ok sm')
        × IsCounter sm'.counts
        × IsSaturated begin n sm.counts sm'.counts
  unfolding inc
  inc-IsSaturated begin n sm h v = inc_loop-IsSaturated n begin sm h v

  set_written :
      (b v : ℕ) (one two : Bool) (sm : RestrictedTwoSpaceMap fbs)
      → 2 * b + 1 < fbs.len sm.counts
      → one && two ≡ false
      → decoded one two ≡ v
      → set_bits fbs b v sm.counts ≡ write_pair fbs b one two sm.counts
      → IsCounter sm.counts
      → (sm' : RestrictedTwoSpaceMap fbs) × (set_count fbs b v sm ≡ ok (get fbs b sm.counts, sm'))
        × IsCounter sm'.counts
        × ((c : ℕ) → get fbs c sm'.counts ≡ (if b == c then v else get fbs c sm.counts))
  unfolding set_count with_counts
  set_written b v one two sm h apart d bits valid =
      let (s, e, w) = write_pair-IsWritten b one two sm.counts h in
      let sm' : RestrictedTwoSpaceMap fbs = record sm {
        nr_allocated = recount fbs (get fbs b sm.counts) v sm.nr_allocated;
        counts = s;
      } in
      (
        sm',
        rw (bits ∙ e) refl,
        IsWritten-IsCounter b one two sm.counts s apart valid w,
        λ c. get-IsWritten b c one two sm.counts s w ∙ rw d refl,
      )

  -- Where the block is inside the map and no block has both bits set, `set` to a count of at most two
  -- succeeds and returns the old count; the block then has the new count, the others have the same
  -- as before, and no block has both bits set.
  pub set_count_outcome :
      (b v : ℕ) (sm : RestrictedTwoSpaceMap fbs)
      → 2 * b + 1 < fbs.len sm.counts
      → v ≤ 2
      → IsCounter sm.counts
      → (sm' : RestrictedTwoSpaceMap fbs) × (set_count fbs b v sm ≡ ok (get fbs b sm.counts, sm'))
        × IsCounter sm'.counts
        × ((c : ℕ) → get fbs c sm'.counts ≡ (if b == c then v else get fbs c sm.counts))
  unfolding set_bits
  set_count_outcome b zero sm h le v = set_written b zero false false sm h refl refl refl v
  set_count_outcome b (suc zero) sm h le v = set_written b 1 true false sm h refl refl refl v
  set_count_outcome b (suc (suc zero)) sm h le v = set_written b 2 false true sm h refl refl refl v
  set_count_outcome b (suc (suc (suc n))) sm h le v = absurd (omega arith)
