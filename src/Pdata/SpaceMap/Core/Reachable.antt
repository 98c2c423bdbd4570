-- ===== src/Pdata/SpaceMap/Core/Reachable.antt =====
-- The states of a `CoreSpaceMap` of src/pdata/space_map/base.rs under all its operations.
use thin_provisioning_tools.Prelude.{
  ℕ, zero, suc, ◌+◌, ◌-◌, ◌≤◌, Option, none, some, ltb, length, length-replicate, get_elem?, Result,
  ok, err, ◌≡◌, ◌∙◌, refl, arith, length-set, Option-cases, inl, inr, Bool-cases,
}
use thin_provisioning_tools.Pdata.SpaceMap.Core.{
  CoreSpaceMap, SmError, new, set_entry, set_count, inc_entry, inc_loop, inc, dec, alloc_from,
  alloc,
}
use thin_provisioning_tools.Pdata.SpaceMap.Core.Invariant.{
  IsValid, new-IsValid, set_count-IsValid, inc-IsValid, dec-IsValid, alloc-IsValid,
}

-- What calls of the operations make of a new map, whether they succeed or fail.
pub data Reachable (max_value nr_entries : ℕ) : CoreSpaceMap → Type 0 where
  start : Reachable max_value nr_entries (new max_value nr_entries)
  by_set :
      (b v : ℕ) (sm : CoreSpaceMap)
      → Reachable max_value nr_entries sm
      → Reachable max_value nr_entries (set_count b v sm).1
  by_inc :
      (begin len : ℕ) (sm : CoreSpaceMap)
      → Reachable max_value nr_entries sm
      → Reachable max_value nr_entries (inc begin len sm).1
  by_dec :
      (b : ℕ) (sm : CoreSpaceMap)
      → Reachable max_value nr_entries sm
      → Reachable max_value nr_entries (dec b sm).1
  by_alloc :
      (sm : CoreSpaceMap)
      → Reachable max_value nr_entries sm
      → Reachable max_value nr_entries (alloc sm).1

-- The greatest count and the number of blocks do not change.
record SameShape (sm sm' : CoreSpaceMap) : Type 0 where
  same_max : sm'.max_value ≡ sm.max_value
  same_length : length sm'.counts ≡ length sm.counts

set_entry-SameShape :
    (b v : ℕ) (o : Option ℕ) (sm : CoreSpaceMap) → SameShape sm (set_entry b v o sm).1
unfolding set_entry
set_entry-SameShape b v none sm = record { same_max = refl; same_length = refl }
set_entry-SameShape b v (some old) sm = elim (Bool-cases (ltb sm.max_value v)) [
  | inl large ↦ rw large (record { same_max = refl; same_length = refl })
  | inr small ↦ rw small (record { same_max = refl; same_length = length-set sm.counts b v })
]

inc_entry-SameShape : (b : ℕ) (o : Option ℕ) (sm : CoreSpaceMap) → SameShape sm (inc_entry b o sm).1
unfolding inc_entry
inc_entry-SameShape b none sm = record { same_max = refl; same_length = refl }
inc_entry-SameShape b (some c) sm = elim (Bool-cases (ltb c sm.max_value)) [
  | inl room ↦ rw room (record { same_max = refl; same_length = length-set sm.counts b (c + 1) })
  | inr full ↦ rw full (record { same_max = refl; same_length = refl })
]

inc_loop-SameShape : (n b : ℕ) (sm : CoreSpaceMap) → SameShape sm (inc_loop n b sm).1
unfolding inc_loop
inc_loop-SameShape zero b sm = record { same_max = refl; same_length = refl }
inc_loop-SameShape (suc n) b sm =
    let one = inc_entry-SameShape b (get_elem? sm.counts b) sm in
    let rest = inc_loop-SameShape n (b + 1) (inc_entry b (get_elem? sm.counts b) sm).1 in
    ends (inc_entry b (get_elem? sm.counts b) sm).0 refl one (record {
      same_max = rest.same_max ∙ one.same_max;
      same_length = rest.same_length ∙ one.same_length;
    })
  where
    ends :
        (r : Result SmError (Unit {0}))
        → (inc_entry b (get_elem? sm.counts b) sm).0 ≡ r
        → SameShape sm (inc_entry b (get_elem? sm.counts b) sm).1
        → SameShape sm (inc_loop n (b + 1) (inc_entry b (get_elem? sm.counts b) sm).1).1
        → SameShape sm (inc_loop (suc n) b sm).1
    ends (err e) p one both = rw (p, inc_loop) one
    ends (ok u) p one both = rw (p, inc_loop) both

set_count-SameShape : (b v : ℕ) (sm : CoreSpaceMap) → SameShape sm (set_count b v sm).1
unfolding set_count
set_count-SameShape b v sm = set_entry-SameShape b v (get_elem? sm.counts b) sm

inc-SameShape : (begin len : ℕ) (sm : CoreSpaceMap) → SameShape sm (inc begin len sm).1
unfolding inc
inc-SameShape begin len sm = elim (Bool-cases (ltb (length sm.counts) (begin + len))) [
  | inl outside ↦ rw outside (record { same_max = refl; same_length = refl })
  | inr inside ↦ rw inside (inc_loop-SameShape len begin sm)
]

dec-SameShape : (b : ℕ) (sm : CoreSpaceMap) → SameShape sm (dec b sm).1
unfolding dec
dec-SameShape b sm = elim (Option-cases (get_elem? sm.counts b)) [
  | inl e ↦ ground (arith, e)
  | inr (c, e) ↦ ground (arith, e, set_count-SameShape b (c - 1) sm)
]

alloc_from-SameShape :
    (above below : Result SmError (Option ℕ)) (sm : CoreSpaceMap)
    → SameShape sm (alloc_from above below sm).1
unfolding alloc_from
alloc_from-SameShape (err e) below sm = record { same_max = refl; same_length = refl }
alloc_from-SameShape (ok (some b)) below sm = record {
  same_max = refl;
  same_length = length-set sm.counts b 1;
}
alloc_from-SameShape (ok none) (err e) sm = record { same_max = refl; same_length = refl }
alloc_from-SameShape (ok none) (ok (some b)) sm = record {
  same_max = refl;
  same_length = length-set sm.counts b 1;
}
alloc_from-SameShape (ok none) (ok none) sm = record { same_max = refl; same_length = refl }

alloc-SameShape : (sm : CoreSpaceMap) → SameShape sm (alloc sm).1
unfolding alloc
alloc-SameShape sm = alloc_from-SameShape _ _ sm

module _ (max_value nr_entries : ℕ) (some_count : 1 ≤ max_value) where
  record Kept (sm : CoreSpaceMap) : Type 0 where
    valid : IsValid sm
    same_max : sm.max_value ≡ max_value
    same_length : length sm.counts ≡ nr_entries

  keep : (sm sm' : CoreSpaceMap) → Kept sm → IsValid sm' → SameShape sm sm' → Kept sm'
  keep sm sm' k v s = record {
    valid = v;
    same_max = s.same_max ∙ k.same_max;
    same_length = s.same_length ∙ k.same_length;
  }

  Reachable-Kept : (sm : CoreSpaceMap) → Reachable max_value nr_entries sm → Kept sm
  unfolding new
  Reachable-Kept sm start = record {
    valid = new-IsValid max_value nr_entries;
    same_max = refl;
    same_length = length-replicate nr_entries 0;
  }
  Reachable-Kept sm' (by_set b v sm r) =
      let k = Reachable-Kept sm r in
      keep sm (set_count b v sm).1 k (set_count-IsValid b v sm k.valid) (set_count-SameShape b v sm)
  Reachable-Kept sm' (by_inc begin len sm r) =
      let k = Reachable-Kept sm r in
      keep sm (inc begin len sm).1 k (inc-IsValid begin len sm k.valid) (inc-SameShape begin len sm)
  Reachable-Kept sm' (by_dec b sm r) =
      let k = Reachable-Kept sm r in
      keep sm (dec b sm).1 k (dec-IsValid b sm k.valid) (dec-SameShape b sm)
  Reachable-Kept sm' (by_alloc sm r) =
      let k = Reachable-Kept sm r in
      keep sm (alloc sm).1 k (alloc-IsValid sm k.valid (omega (arith, k.same_max)))
        (alloc-SameShape sm)

-- Whatever calls of `set`, `inc`, `dec` and `alloc` are made of a new map whose counts reach one, and
-- whether they succeed or fail: the number of allocated blocks is that of the blocks with a count,
-- `alloc_begin` is inside the map, no count is above the greatest, and the map keeps its size.
pub Reachable-IsValid :
    (max_value nr_entries : ℕ) (sm : CoreSpaceMap)
    → 1 ≤ max_value
    → Reachable max_value nr_entries sm
    → IsValid sm × (sm.max_value ≡ max_value) × (length sm.counts ≡ nr_entries)
Reachable-IsValid max_value nr_entries sm some_count r =
    let k = Reachable-Kept max_value nr_entries some_count sm r in
    (k.valid, k.same_max, k.same_length)
