-- ===== src/Tests/SpaceMaps.antt =====
-- The space maps on a concrete map.
use thin_provisioning_tools.Prelude.{
  ℕ, zero, suc, ◌*◌, ◌≡◌, ◌⊎◌, refl, List, [], ◌∷◌, none, some, Bool, true, false, ok, arith,
  length, ◌==◌, if◌then◌else◌,
}
use thin_provisioning_tools.Pdata.SpaceMap.Core.{CoreSpaceMap, new, inc, dec, alloc}
use thin_provisioning_tools.Pdata.SpaceMap.Core.Reachable.{
  start, by_inc, by_alloc, Reachable-IsValid,
}
use thin_provisioning_tools.Pdata.SpaceMap.Core.Invariant.{IsValid, fits-get_elem?, count_used}
use thin_provisioning_tools.Pdata.SpaceMap.Core.Alloc.{IsNext, IsTaken, IsFull, alloc_outcome}
use thin_provisioning_tools.Pdata.SpaceMap.Core.Counts.{
  HasRoom, IsRaised, DecOutcome, inc-IsRaised, dec_outcome,
}
use thin_provisioning_tools.Pdata.SpaceMap.BitSet.{list_set}
use thin_provisioning_tools.Pdata.SpaceMap.Restricted
use thin_provisioning_tools.Pdata.SpaceMap.Restricted.Laws as RestrictedLaws
use thin_provisioning_tools.Pdata.SpaceMap.Restricted.Alloc as RestrictedAlloc
use thin_provisioning_tools.Pdata.SpaceMap.RestrictedTwo
use thin_provisioning_tools.Pdata.SpaceMap.RestrictedTwo.Laws as TwoLaws
use thin_provisioning_tools.Pdata.SpaceMap.RestrictedTwo.Alloc as TwoAlloc

-- Three blocks, the one in the middle free.
abbrev sample : CoreSpaceMap
sample = record { max_value = 255; nr_allocated = 2; alloc_begin = 3; counts = 1 ∷ 0 ∷ 2 ∷ [] }

sample-IsValid : IsValid sample
unfolding count_used
sample-IsValid = record {
  counted = refl;
  begins = omega arith;
  fits = (omega arith, (omega arith, (omega arith, tt)));
}

Reachable-IsValid_example :
    IsValid (alloc (inc 0 2 (new 9 3)).1).1
    × ((alloc (inc 0 2 (new 9 3)).1).1.max_value ≡ 9)
    × (length (alloc (inc 0 2 (new 9 3)).1).1.counts ≡ 3)
Reachable-IsValid_example =
    Reachable-IsValid 9 3 (alloc (inc 0 2 (new 9 3)).1).1 (omega arith)
      (by_alloc (inc 0 2 (new 9 3)).1 (by_inc 0 2 (new 9 3) start))

alloc_outcome_example :
    ((b : ℕ) × (sm' : CoreSpaceMap) × (alloc sample ≡ (ok (some b), sm'))
      × IsNext sample b
      × IsTaken b sample sm')
    ⊎ ((alloc sample ≡ (ok none, sample)) × IsFull sample.counts 0 3)
alloc_outcome_example = alloc_outcome sample sample-IsValid

sample-HasRoom : HasRoom sample 3 0
sample-HasRoom j c lo hi e =
    let low =
      fits-get_elem? 254 sample.counts j c e (omega arith, (omega arith, (omega arith, tt))) in
    omega arith

inc-IsRaised_example :
    (sm' : CoreSpaceMap) × (inc 0 3 sample ≡ (ok tt, sm')) × IsRaised 0 3 sample sm'
inc-IsRaised_example = inc-IsRaised 0 3 sample (omega arith) sample-HasRoom

dec_outcome_example : DecOutcome 0 sample (some 1) (dec 0 sample)
dec_outcome_example = dec_outcome 0 sample sample-IsValid

-- One block of three is in use.
abbrev bits : List Bool
bits = true ∷ false ∷ false ∷ []

abbrev restricted : Restricted.RestrictedSpaceMap list_set
restricted = record { nr_allocated = 1; alloc_begin = 1; counts = bits }

restricted-IsValid : RestrictedLaws.IsValid list_set restricted
unfolding RestrictedLaws.count_used
restricted-IsValid = record { counted = refl; begins = omega arith }

set_count-SetOutcome_example :
    RestrictedLaws.SetOutcome list_set 2 1 restricted (Restricted.set_count list_set 2 1 restricted)
set_count-SetOutcome_example =
    RestrictedLaws.set_count-SetOutcome list_set 2 1 restricted restricted-IsValid

inc-IncOutcome_example :
    RestrictedLaws.IncOutcome list_set 0 2 restricted (Restricted.inc list_set 0 2 restricted)
inc-IncOutcome_example = RestrictedLaws.inc-IncOutcome list_set 0 2 restricted restricted-IsValid

alloc-AllocOutcome_example :
    RestrictedAlloc.AllocOutcome list_set restricted (Restricted.alloc list_set restricted)
alloc-AllocOutcome_example =
    RestrictedAlloc.alloc-AllocOutcome list_set restricted restricted-IsValid

-- Two blocks, counted once and twice.
abbrev two : RestrictedTwo.RestrictedTwoSpaceMap list_set
two = record { nr_allocated = 2; alloc_begin = 2; counts = true ∷ false ∷ false ∷ true ∷ [] }

two-IsCounter : TwoLaws.IsCounter list_set two.counts
two-IsCounter zero = refl
two-IsCounter (suc zero) = refl
two-IsCounter (suc (suc n)) =
    let first : 2 * suc (suc n) ≡ suc (suc (suc (suc (2 * n)))) = omega arith in rw first refl

inc-IsSaturated_example :
    (sm' : RestrictedTwo.RestrictedTwoSpaceMap list_set) × (RestrictedTwo.inc list_set 0 2 two
      ≡ ok sm')
    × TwoLaws.IsCounter list_set sm'.counts
    × TwoLaws.IsSaturated list_set 0 2 two.counts sm'.counts
inc-IsSaturated_example = TwoLaws.inc-IsSaturated list_set 0 2 two (omega arith) two-IsCounter

set_count_outcome_example :
    (sm' : RestrictedTwo.RestrictedTwoSpaceMap list_set) × (RestrictedTwo.set_count list_set 1 0 two
      ≡ ok (RestrictedTwo.get list_set 1 two.counts, sm'))
    × TwoLaws.IsCounter list_set sm'.counts
    × ((c : ℕ)
        → RestrictedTwo.get list_set c sm'.counts
          ≡ (if 1 == c then 0 else RestrictedTwo.get list_set c two.counts))
set_count_outcome_example =
    TwoLaws.set_count_outcome list_set 1 0 two (omega arith) (omega arith) two-IsCounter

alloc_bounds_example : TwoAlloc.AllocOutcome list_set 2 two (RestrictedTwo.alloc list_set two)
alloc_bounds_example = TwoAlloc.alloc_bounds list_set 2 two refl two-IsCounter (omega arith)
