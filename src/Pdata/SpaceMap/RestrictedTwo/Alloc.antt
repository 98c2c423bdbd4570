-- ===== src/Pdata/SpaceMap/RestrictedTwo/Alloc.antt =====
-- `alloc` of `RestrictedTwoSpaceMap` of src/pdata/space_map/base.rs.
use thin_provisioning_tools.Prelude.{
  ℕ, zero, suc, ◌+◌, ◌-◌, ◌*◌, ◌≤◌, ◌<◌, ◌≡◌, refl, Option, none, some, Bool, true, false, ◌||◌,
  ltb, ◌==◌, if◌then◌else◌, Result, ok, err, inl, inr, Bool-cases, arith,
}
use thin_provisioning_tools.Pdata.SpaceMap.Core.{SmError}
use thin_provisioning_tools.Pdata.SpaceMap.BitSet.{FixedBitSet}
use thin_provisioning_tools.Pdata.SpaceMap.RestrictedTwo.{
  RestrictedTwoSpaceMap, get, write_bit, find_loop, find_free, take_block, or_else, alloc,
}
use thin_provisioning_tools.Pdata.SpaceMap.RestrictedTwo.Laws.{
  IsCounter, IsWritten-IsCounter, get-IsWritten, put-IsWritten,
}

module _ (fbs : FixedBitSet) where
  abbrev pub in_use : fbs.Bits → ℕ → Bool
  in_use s b = fbs.contains s (2 * b) || fbs.contains s (2 * b + 1)

  -- Every block from `begin` on is in use, up to `end`.
  abbrev pub IsFull : fbs.Bits → ℕ → ℕ → Type 0
  IsFull s begin end = (c : ℕ) → begin ≤ c → c < end → in_use s c ≡ true

  abbrev Found : fbs.Bits → ℕ → ℕ → Option ℕ → Type 0
  Found s n begin none = IsFull s begin (begin + n)
  Found s n begin (some b) = (in_use s b ≡ false) × (begin ≤ b) × (b < begin + n) × IsFull s begin b

  IsFull-next :
      (s : fbs.Bits) (begin end : ℕ)
      → in_use s begin ≡ true
      → IsFull s (begin + 1) end
      → IsFull s begin end
  IsFull-next s begin end e full c lo hi = elim (Bool-cases (c == begin)) [
    | inl here ↦ let same : c ≡ begin = ground arith in rw same e
    | inr later ↦ full c (ground arith) hi
  ]

  find_loop-Found : (s : fbs.Bits) (n begin : ℕ) → Found s n begin (find_loop fbs s n begin)
  unfolding find_loop
  find_loop-Found s zero begin = λ c lo hi. absurd (omega arith)
  find_loop-Found s (suc n) begin = elim (Bool-cases (in_use s begin)) [
    | inl e ↦ rw e (widen (find_loop fbs s n (begin + 1)) e (find_loop-Found s n (begin + 1)))
    | inr e ↦ rw e (e, omega arith, omega arith, λ c lo hi. absurd (omega arith))
  ]
    where
      widen :
          (o : Option ℕ) → in_use s begin ≡ true → Found s n (begin + 1) o → Found s (suc n) begin o
      widen none e full = IsFull-next s begin (begin + suc n) e (λ c lo hi. full c lo (omega arith))
      widen (some b) e (free, lo, hi, full) =
          (free, omega arith, omega arith, IsFull-next s begin b e full)

  -- What `alloc` does to a map of `n` blocks.
  abbrev pub AllocOutcome :
      ℕ → RestrictedTwoSpaceMap fbs → Result SmError (Option ℕ × RestrictedTwoSpaceMap fbs) → Type 0
  AllocOutcome n sm (err e) = (0 < n) × IsFull sm.counts sm.alloc_begin n
  AllocOutcome n sm (ok (none, sm')) = (n ≡ 0) × (sm' ≡ sm)
  AllocOutcome n sm (ok (some b, sm')) =
      (b < n)
      × (get fbs b sm.counts ≡ 0)
      × IsCounter fbs sm'.counts
      × ((c : ℕ) → get fbs c sm'.counts ≡ (if b == c then 1 else get fbs c sm.counts))

  found_outcome :
      (n b : ℕ) (sm : RestrictedTwoSpaceMap fbs)
      → fbs.len sm.counts ≡ 2 * n
      → IsCounter fbs sm.counts
      → 0 < n
      → in_use sm.counts b ≡ false
      → IsFull sm.counts sm.alloc_begin b
      → AllocOutcome n sm (take_block fbs (some b) sm)
  unfolding take_block write_bit
  found_outcome n b sm size valid pos free full =
      elim (Bool-cases (ltb (2 * b) (fbs.len sm.counts))) [
        | inl inside ↦
            let first : fbs.contains sm.counts (2 * b) ≡ false = ground (arith, free) in
            let second : fbs.contains sm.counts (2 * b + 1) ≡ false = ground (arith, free, first) in
            let w = put-IsWritten fbs b sm.counts (ground arith) second in
            rw inside (
              ground arith,
              (unfold get in rw (first, second) refl),
              IsWritten-IsCounter fbs b true false sm.counts _ refl valid w,
              λ c. get-IsWritten fbs b c true false sm.counts _ w,
            )
        | inr outside ↦ rw outside (pos, λ c lo hi. full c lo (ground arith))
      ]

  -- On a map of `n` blocks where none has both bits set and `alloc_begin` is inside, `alloc` takes a free
  -- block and counts it once, or panics, which it does only where no block from `alloc_begin` on is
  -- free; it returns `None` only for a map without blocks.
  pub alloc_bounds :
      (n : ℕ) (sm : RestrictedTwoSpaceMap fbs)
      → fbs.len sm.counts ≡ 2 * n
      → IsCounter fbs sm.counts
      → sm.alloc_begin ≤ n
      → AllocOutcome n sm (alloc fbs sm)
  unfolding alloc find_free
  alloc_bounds n sm size valid begins =
      go n _ begins size
        (find_loop-Found sm.counts (fbs.len sm.counts - sm.alloc_begin) sm.alloc_begin)
    where
      go :
          (n : ℕ) (above : Option ℕ)
          → sm.alloc_begin ≤ n
          → fbs.len sm.counts ≡ 2 * n
          → Found sm.counts (fbs.len sm.counts - sm.alloc_begin) sm.alloc_begin above
          → AllocOutcome n sm (
              take_block fbs
                (or_else fbs above (find_loop fbs sm.counts (sm.alloc_begin - 0) 0))
                sm)
      go n (some b) begins size (free, lo, hi, full) =
          found_outcome n b sm size valid (omega arith) free full
      go zero none begins size full =
          let rounds : sm.alloc_begin - 0 ≡ 0 = omega arith in
          rw (rounds, find_loop) (unfold take_block in (refl, refl))
      go (suc n) none begins size full =
          let used : in_use sm.counts (suc n) ≡ true = full (suc n) begins (omega arith) in
          let first = fbs.contains_outside sm.counts (2 * suc n) (omega arith) in
          let second = fbs.contains_outside sm.counts (2 * suc n + 1) (omega arith) in
          absurd (ground (arith, used, first, second))
