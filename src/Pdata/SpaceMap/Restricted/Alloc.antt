-- ===== src/Pdata/SpaceMap/Restricted/Alloc.antt =====
-- `alloc` and `find_free` of `RestrictedSpaceMap` of src/pdata/space_map/base.rs.
use thin_provisioning_tools.Prelude.{
  ℕ, zero, suc, ◌+◌, ◌-◌, ◌≤◌, ◌<◌, ◌≡◌, ◌⊎◌, inl, inr, refl, Option, none, some, true, false, ltb,
  ◌==◌, Result, ok, err, Bool-cases, arith, if◌then◌else◌, sym, ap, ◌∙◌,
}
use thin_provisioning_tools.Pdata.SpaceMap.Core.{SmError}
use thin_provisioning_tools.Pdata.SpaceMap.BitSet.{FixedBitSet}
use thin_provisioning_tools.Pdata.SpaceMap.Restricted.{
  RestrictedSpaceMap, ends_outside, find_loop, find_free, take_block, alloc_from, alloc,
}
use thin_provisioning_tools.Pdata.SpaceMap.Restricted.Laws.{IsValid, put-IsValid}

module _ (fbs : FixedBitSet) where
  -- Every block from `begin` on is in use, up to `end`.
  abbrev pub IsFull : fbs.Bits → ℕ → ℕ → Type 0
  IsFull s begin end = (c : ℕ) → begin ≤ c → c < end → fbs.contains s c ≡ true

  abbrev Found : fbs.Bits → ℕ → ℕ → Option ℕ → Type 0
  Found s n begin none = IsFull s begin (begin + n)
  Found s n begin (some b) =
      (fbs.contains s b ≡ false) × (begin ≤ b) × (b < begin + n) × IsFull s begin b

  IsFull-next :
      (s : fbs.Bits) (begin end : ℕ)
      → fbs.contains s begin ≡ true
      → IsFull s (begin + 1) end
      → IsFull s begin end
  IsFull-next s begin end e full c lo hi = elim (Bool-cases (c == begin)) [
    | inl here ↦ let same : c ≡ begin = ground arith in rw same e
    | inr later ↦ full c (ground arith) hi
  ]

  find_loop-Found : (s : fbs.Bits) (n begin : ℕ) → Found s n begin (find_loop fbs s n begin)
  unfolding find_loop
  find_loop-Found s zero begin = λ c lo hi. absurd (omega arith)
  find_loop-Found s (suc n) begin = elim (Bool-cases (fbs.contains s begin)) [
    | inl e ↦ rw e (widen (find_loop fbs s n (begin + 1)) e (find_loop-Found s n (begin + 1)))
    | inr e ↦ rw e (e, omega arith, omega arith, λ c lo hi. absurd (omega arith))
  ]
    where
      widen :
          (o : Option ℕ)
          → fbs.contains s begin ≡ true
          → Found s n (begin + 1) o
          → Found s (suc n) begin o
      widen none e full = IsFull-next s begin (begin + suc n) e (λ c lo hi. full c lo (omega arith))
      widen (some b) e (free, lo, hi, full) =
          (free, omega arith, omega arith, IsFull-next s begin b e full)

  take_block-IsValid :
      (b : ℕ) (sm : RestrictedSpaceMap fbs)
      → IsValid fbs sm
      → b < fbs.len sm.counts
      → fbs.contains sm.counts b ≡ false
      → IsValid fbs (take_block fbs b sm)
  unfolding take_block
  take_block-IsValid b sm h inside free =
      put-IsValid fbs sm b _ (b + 1) true h inside (rw free (omega arith)) (omega arith)

  -- The first free block from `alloc_begin` on or, where there is none there, of the map.
  abbrev pub IsNext : RestrictedSpaceMap fbs → ℕ → Type 0
  IsNext sm b =
      (fbs.contains sm.counts b ≡ false)
      × (((sm.alloc_begin ≤ b) × IsFull sm.counts sm.alloc_begin b)
          ⊎ ((b < sm.alloc_begin)
              × IsFull sm.counts sm.alloc_begin (fbs.len sm.counts)
              × IsFull sm.counts 0 b))

  -- The map after block `b` was taken: it is in use and the others are as they were, one block more is
  -- allocated, and the next search begins behind it.
  abbrev pub IsTaken : ℕ → RestrictedSpaceMap fbs → RestrictedSpaceMap fbs → Type 0
  IsTaken b sm sm' =
      ((c : ℕ) → fbs.contains sm'.counts c ≡ (if b == c then true else fbs.contains sm.counts c))
      × (fbs.len sm'.counts ≡ fbs.len sm.counts)
      × (sm'.nr_allocated ≡ sm.nr_allocated + 1)
      × (sm'.alloc_begin ≡ b + 1)

  take_block-IsTaken :
      (b : ℕ) (sm : RestrictedSpaceMap fbs)
      → b < fbs.len sm.counts
      → IsTaken b sm (take_block fbs b sm)
  unfolding take_block
  take_block-IsTaken b sm inside = (
    λ c. elim (Bool-cases (b == c)) [
      | inl here ↦
          let same : b ≡ c = ground arith in
          rw here (
            ap (fbs.contains (fbs.put sm.counts b true)) (sym same)
            ∙ fbs.contains-put_self sm.counts b true inside)
      | inr other ↦ rw other (fbs.contains-put_ne sm.counts b c true (ground arith))
    ],
    fbs.len-put sm.counts b true,
    refl,
    refl,
  )

  -- What `alloc` is to do: it takes the next free block, or there is none. A full map that was searched from
  -- its start is reported as an error.
  abbrev pub AllocOutcome :
      RestrictedSpaceMap fbs → Result SmError (Option ℕ × RestrictedSpaceMap fbs) → Type 0
  AllocOutcome sm (err e) = IsFull sm.counts 0 (fbs.len sm.counts) × (sm.alloc_begin ≡ 0)
  AllocOutcome sm (ok (none, sm')) =
      IsFull sm.counts 0 (fbs.len sm.counts) × (sm' ≡ sm) × (0 < sm.alloc_begin)
  AllocOutcome sm (ok (some b, sm')) =
      IsNext sm b × (b < fbs.len sm.counts) × IsTaken b sm sm' × IsValid fbs sm'

  both-IsFull :
      (s : fbs.Bits) (middle end : ℕ) → IsFull s 0 middle → IsFull s middle end → IsFull s 0 end
  both-IsFull s middle end low high c lo hi = elim (Bool-cases (ltb c middle)) [
    | inl h ↦ low c lo (ground arith)
    | inr h ↦ high c (ground arith) hi
  ]

  -- What one search of `alloc` finds.
  abbrev Searched : ℕ → ℕ → RestrictedSpaceMap fbs → Result SmError (Option ℕ) → Type 0
  Searched begin end sm (err e) = end ≡ 0
  Searched begin end sm (ok none) = IsFull sm.counts begin end × (0 < end)
  Searched begin end sm (ok (some b)) =
      (fbs.contains sm.counts b ≡ false) × (begin ≤ b) × (b < end) × IsFull sm.counts begin b

  find_free-Searched :
      (begin end : ℕ) (sm : RestrictedSpaceMap fbs)
      → begin ≤ end
      → end ≤ fbs.len sm.counts
      → Searched begin end sm (find_free fbs begin end sm)
  unfolding find_free ends_outside
  find_free-Searched begin end sm le inside = elim (Bool-cases (ends_outside fbs end sm)) [
    | inl e ↦ rw e (ground arith)
    | inr e ↦ rw e (
        go (find_loop fbs sm.counts (end - begin) begin) (ground arith)
          (find_loop-Found sm.counts (end - begin) begin))
  ]
    where
      go :
          (o : Option ℕ)
          → 0 < end
          → Found sm.counts (end - begin) begin o
          → Searched begin end sm (ok o)
      go none pos full = ((λ c lo hi. full c lo (omega arith)), pos)
      go (some b) pos (free, lo, hi, full) = (free, lo, omega arith, full)

  -- On a valid map `alloc` takes the next free block, searching from `alloc_begin` on and then
  -- from the start, which is in use afterwards like those before and no
  -- other, and the map stays valid and counts it, or every block is in use: then
  -- it returns `None` without a change, but an error where `alloc_begin` is 0.
  pub alloc-AllocOutcome :
      (sm : RestrictedSpaceMap fbs) → IsValid fbs sm → AllocOutcome sm (alloc fbs sm)
  unfolding alloc alloc_from
  alloc-AllocOutcome sm h =
      go _ _ (find_free-Searched sm.alloc_begin (fbs.len sm.counts) sm h.begins (omega arith))
        (find_free-Searched 0 sm.alloc_begin sm (omega arith) h.begins)
    where
      go :
          (above below : Result SmError (Option ℕ))
          → Searched sm.alloc_begin (fbs.len sm.counts) sm above
          → Searched 0 sm.alloc_begin sm below
          → AllocOutcome sm (alloc_from fbs above below sm)
      go (err e) below p q =
          let begins = h.begins in ((λ c lo hi. absurd (omega arith)), omega arith)
      go (ok (some b)) below (free, lo, hi, full) q = (
        (free, inl (lo, full)),
        hi,
        take_block-IsTaken b sm hi,
        take_block-IsValid b sm h hi free,
      )
      go (ok none) (err e) (full, pos) q = ((λ c lo hi. full c (omega arith) hi), q)
      go (ok none) (ok none) (full, pos) (full', pos') =
          (both-IsFull sm.counts sm.alloc_begin (fbs.len sm.counts) full' full, refl, pos')
      go (ok none) (ok (some b)) (full, pos) (free, lo, hi, full') =
          let begins = h.begins in
          let inside : b < fbs.len sm.counts = omega arith in
          (
            (free, inr (hi, full, full')),
            inside,
            take_block-IsTaken b sm inside,
            take_block-IsValid b sm h inside free,
          )
