-- ===== src/Pdata/SpaceMap/Core/Alloc.antt =====
-- `alloc` and `find_free` of `CoreSpaceMap`.
use thin_provisioning_tools.Prelude.{
  ℕ, zero, suc, ◌+◌, ◌-◌, ◌≤◌, ◌<◌, List, [], ◌∷◌, Option, none, some, ltb, ◌==◌, length, get_elem?,
  Result, ok, ◌≡◌, ◌⊎◌, refl, arith, inl, inr, Bool-cases, if◌then◌else◌, set, sym, ap, ◌∙◌,
  get_elem?-set_self, get_elem?-set_ne,
}
use thin_provisioning_tools.Pdata.SpaceMap.Core.{
  CoreSpaceMap, SmError, find_loop, take_block, alloc_from, alloc,
}
use thin_provisioning_tools.Pdata.SpaceMap.Core.Invariant.{IsValid, get_elem?-lt}

-- No block from `begin` on is free, up to `end`.
abbrev pub IsFull : List ℕ → ℕ → ℕ → Type 0
IsFull counts begin end = (j c : ℕ) → begin ≤ j → j < end → get_elem? counts j ≡ some c → 0 < c

pub get_elem?_inside {ℓ} :
    {A : Type ℓ} (xs : List A) (i : ℕ) → i < length xs → (a : A) × (get_elem? xs i ≡ some a)
get_elem?_inside [] i h = absurd (omega arith)
get_elem?_inside (x ∷ xs) zero h = (x, refl)
get_elem?_inside (x ∷ xs) (suc i) h = get_elem?_inside xs i (omega arith)

-- The search inside the map ends with the first free block, or finds that there is none.
abbrev Found : List ℕ → ℕ → ℕ → Result SmError (Option ℕ) → Type 0
Found counts n begin r =
    ((b : ℕ) × (r ≡ ok (some b))
      × (get_elem? counts b ≡ some 0)
      × (begin ≤ b)
      × (b < begin + n)
      × IsFull counts begin b)
    ⊎ ((r ≡ ok none) × IsFull counts begin (begin + n))

-- The first block is not free, and none of the later ones.
IsFull-next :
    (counts : List ℕ) (begin end x : ℕ)
    → get_elem? counts begin ≡ some x
    → 0 < x
    → IsFull counts (begin + 1) end
    → IsFull counts begin end
IsFull-next counts begin end x ex pos full j c lo hi e = elim (Bool-cases (j == begin)) [
  | inl here ↦ let same : j ≡ begin = ground arith in ground (arith, ex, e, same)
  | inr later ↦ full j c (ground arith) hi e
]

find_loop-Found :
    (counts : List ℕ) (n begin : ℕ)
    → begin + n ≤ length counts
    → Found counts n begin (find_loop counts n begin)
unfolding find_loop
find_loop-Found counts zero begin h = inr (refl, λ j c lo hi e. absurd (omega arith))
find_loop-Found counts (suc n) begin h =
    let (x, ex) = get_elem?_inside counts begin (omega arith) in
    elim (Bool-cases (x == 0)) [
      | inl free ↦ inl (
        begin,
        ground (arith, ex),
        ground (arith, ex),
        omega arith,
        omega arith,
        λ j c lo hi e. absurd (omega arith),
      )
      | inr taken ↦ elim (find_loop-Found counts n (begin + 1) (omega arith)) [
        | inl (b, e, free, lo, hi, full) ↦ inl (
          b,
          ground (arith, ex),
          free,
          omega arith,
          omega arith,
          IsFull-next counts begin b x ex (ground arith) full,
        )
        | inr (e, full) ↦ inr (
          ground (arith, ex),
          IsFull-next counts begin (begin + suc n) x ex (ground arith)
              (λ j c lo hi. full j c lo (omega arith)),
        )
      ]
    ]

-- The block that `alloc` takes: free, and the first such from `alloc_begin` on, or, where there is
-- none there, the first of the map.
abbrev pub IsNext : CoreSpaceMap → ℕ → Type 0
IsNext sm b =
    (get_elem? sm.counts b ≡ some 0)
    × (((sm.alloc_begin ≤ b) × IsFull sm.counts sm.alloc_begin b)
        ⊎ ((b < sm.alloc_begin)
            × IsFull sm.counts sm.alloc_begin (length sm.counts)
            × IsFull sm.counts 0 b))

both-IsFull :
    (counts : List ℕ) (middle end : ℕ)
    → IsFull counts 0 middle
    → IsFull counts middle end
    → IsFull counts 0 end
both-IsFull counts middle end low high j c lo hi e = elim (Bool-cases (ltb j middle)) [
  | inl h ↦ low j c lo (ground arith) e
  | inr h ↦ high j c (ground arith) hi e
]

-- The map after block `b` was taken: its count is 1 and the other counts are as they were, one block
-- more is allocated, and the next search begins behind it.
abbrev pub IsTaken : ℕ → CoreSpaceMap → CoreSpaceMap → Type 0
IsTaken b sm sm' =
    ((c : ℕ) → get_elem? sm'.counts c ≡ (if b == c then some 1 else get_elem? sm.counts c))
    × (sm'.nr_allocated ≡ sm.nr_allocated + 1)
    × (sm'.alloc_begin ≡ b + 1)
    × (sm'.max_value ≡ sm.max_value)

take_block-IsTaken :
    (b : ℕ) (sm : CoreSpaceMap) → get_elem? sm.counts b ≡ some 0 → IsTaken b sm (take_block b sm)
unfolding take_block
take_block-IsTaken b sm e =
    let written = get_elem?-set_self sm.counts b 1 (get_elem?-lt sm.counts b 0 e) in
    (
      λ c. elim (Bool-cases (b == c)) [
        | inl here ↦
            let same : b ≡ c = ground arith in
            rw here (ap (get_elem? (set sm.counts b 1)) (sym same) ∙ written)
        | inr other ↦ rw other (get_elem?-set_ne sm.counts b c 1 (ground arith))
      ],
      refl,
      refl,
      refl,
    )

alloc-take_block :
    (sm : CoreSpaceMap)
    → IsValid sm
    → ((b : ℕ) × (alloc sm ≡ (ok (some b), take_block b sm)) × IsNext sm b)
      ⊎ ((alloc sm ≡ (ok none, sm)) × IsFull sm.counts 0 (length sm.counts))
unfolding alloc
alloc-take_block sm h =
    let begins = h.begins in
    go _ _ refl refl
      (find_loop-Found sm.counts (length sm.counts - sm.alloc_begin) sm.alloc_begin (omega arith))
      (find_loop-Found sm.counts (sm.alloc_begin - 0) 0 (omega arith))
  where
    go :
        (above below : Result SmError (Option ℕ))
        → find_loop sm.counts (length sm.counts - sm.alloc_begin) sm.alloc_begin ≡ above
        → find_loop sm.counts (sm.alloc_begin - 0) 0 ≡ below
        → Found sm.counts (length sm.counts - sm.alloc_begin) sm.alloc_begin above
        → Found sm.counts (sm.alloc_begin - 0) 0 below
        → ((b : ℕ) × (alloc_from above below sm ≡ (ok (some b), take_block b sm)) × IsNext sm b)
          ⊎ ((alloc_from above below sm ≡ (ok none, sm)) × IsFull sm.counts 0 (length sm.counts))
    go above below p q (inl (b, e, free, lo, hi, full)) y =
        inl (b, rw e refl, (free, inl (lo, full)))
    go above below p q (inr (e, full)) (inl (b, e', free, lo, hi, full')) =
        let begins = h.begins in
        inl (
          b,
          rw (e, e') refl,
          (free, inr (omega arith, (λ j c lo hi. full j c lo (omega arith)), full')),
        )
    go above below p q (inr (e, full)) (inr (e', full')) =
        let begins = h.begins in
        inr (
          rw (e, e') refl,
          both-IsFull sm.counts sm.alloc_begin (length sm.counts)
              (λ j c lo hi. full' j c lo (omega arith)) (λ j c lo hi. full j c lo (omega arith)),
        )

-- On a map whose counters are right, `alloc` never fails: either it takes the next free block, searching
-- from `alloc_begin` on and then from the start, which gives that block alone the count 1 and
-- counts it as allocated, or no block of the map is free and it returns `None` and leaves the map as
-- it is.
pub alloc_outcome :
    (sm : CoreSpaceMap)
    → IsValid sm
    → ((b : ℕ) × (sm' : CoreSpaceMap) × (alloc sm ≡ (ok (some b), sm'))
        × IsNext sm b
        × IsTaken b sm sm')
      ⊎ ((alloc sm ≡ (ok none, sm)) × IsFull sm.counts 0 (length sm.counts))
alloc_outcome sm h = elim (alloc-take_block sm h) [
  | inl (b, e, is_next) ↦ inl (b, take_block b sm, e, is_next, take_block-IsTaken b sm is_next.0)
  | inr none_free ↦ inr none_free
]
