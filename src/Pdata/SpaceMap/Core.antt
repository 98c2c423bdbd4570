-- ===== src/Pdata/SpaceMap/Core.antt =====
-- `CoreSpaceMap` of src/pdata/space_map/base.rs. Block numbers and lengths stay far below 2 ^ 64, so
-- sums of them are written without their wrap-around.
pub mod Invariant
pub mod Alloc
pub mod Counts
pub mod Reachable
use thin_provisioning_tools.Prelude.{
  ℕ, zero, suc, ◌+◌, ◌-◌, List, [], ◌∷◌, Option, none, some, Bool, ◌&&◌, not, ltb, leb, ◌==◌,
  if◌then◌else◌, length, get_elem?, set, replicate, Result, ok, err,
}
pub use thin_provisioning_tools.Prelude.{Result, ok, err}

-- `bad_conversion`: the count does not fit the type of the entries. `at_maximum`, `not_counted`: the
-- two `ensure!`s. `panicked`: an index beyond the vector.
pub data SmError : Type 0 where
  out_of_bounds bad_conversion at_maximum not_counted panicked : SmError

-- The type of the entries enters by its greatest value.
pub record CoreSpaceMap : Type 0 where
  pub max_value : ℕ
  pub nr_allocated : ℕ
  pub alloc_begin : ℕ
  pub counts : List ℕ

-- A method returns its result and the map, which an error may leave changed.
abbrev pub Method : Type 0 → Type 0
Method A = CoreSpaceMap → Result SmError A × CoreSpaceMap

unfoldable pub new : ℕ → ℕ → CoreSpaceMap
new max_value nr_entries = record {
  max_value = max_value;
  nr_allocated = 0;
  alloc_begin = 0;
  counts = replicate nr_entries 0;
}

unfoldable pub get_nr_blocks : CoreSpaceMap → ℕ
get_nr_blocks sm = length sm.counts

-- `check_index_out_of_bounds` fails exactly where there is no entry.
unfoldable pub get : ℕ → CoreSpaceMap → Result SmError ℕ
get b sm = elim (get_elem? sm.counts b) [ none ↦ err out_of_bounds | some c ↦ ok c ]

abbrev pub recount : ℕ → ℕ → ℕ → ℕ
recount old v nr =
    if (old == 0) && not (v == 0) then nr + 1 else if not (old == 0) && (v == 0) then nr - 1 else nr

-- `set`, on the entry that `get` finds.
unfoldable pub set_entry : ℕ → ℕ → Option ℕ → Method ℕ
set_entry b v none sm = (err out_of_bounds, sm)
set_entry b v (some old) sm = if ltb sm.max_value v then (err bad_conversion, sm) else (
  ok old,
  record sm { counts = set sm.counts b v; nr_allocated = recount old v sm.nr_allocated },
)

unfoldable pub set_count : ℕ → ℕ → Method ℕ
unfolding set_entry
set_count b v sm = set_entry b v (get_elem? sm.counts b) sm

-- One round of the loop of `inc`; the source's two ways to add one give the same count.
unfoldable pub inc_entry : ℕ → Option ℕ → Method (Unit {0})
inc_entry b none sm = (err panicked, sm)
inc_entry b (some c) sm =
    if ltb c sm.max_value
    then (
      ok tt,
      record sm {
        counts = set sm.counts b (c + 1);
        nr_allocated = if c == 0 then sm.nr_allocated + 1 else sm.nr_allocated;
      },
    )
    else (err at_maximum, sm)

unfoldable pub inc_loop : ℕ → ℕ → Method (Unit {0})
inc_loop zero b sm = (ok tt, sm)
inc_loop (suc n) b sm =
    let (r, sm') = inc_entry b (get_elem? sm.counts b) sm in
    elim r [ err e ↦ (err e, sm') | ok _ ↦ inc_loop n (b + 1) sm' ]

-- The blocks that were reached before an error keep their higher counts.
unfoldable pub inc : ℕ → ℕ → Method (Unit {0})
inc begin len sm =
    if ltb (length sm.counts) (begin + len) then (err out_of_bounds, sm) else inc_loop len begin sm

-- The trait's own `dec`: true where the block is free now.
unfoldable pub dec : ℕ → Method Bool
unfolding get
dec b sm = elim (get b sm) [
  | err e ↦ (err e, sm)
  | ok old ↦
      if ltb 0 old
      then (let (r, sm') = set_count b (old - 1) sm in
          elim r [ err e ↦ (err e, sm') | ok _ ↦ (ok (old == 1), sm') ])
      else (err not_counted, sm)
]

-- `for b in begin..end`, with the number of rounds left.
unfoldable pub find_loop : List ℕ → ℕ → ℕ → Result SmError (Option ℕ)
find_loop counts zero b = ok none
find_loop counts (suc n) b =
    let later = find_loop counts n (b + 1) in
    elim (get_elem? counts b) [
      | none ↦ err panicked
      | some c ↦ if c == 0 then ok (some b) else later
    ]

unfoldable pub find_free : ℕ → ℕ → CoreSpaceMap → Result SmError (Option ℕ)
unfolding find_loop
find_free begin end sm = find_loop sm.counts (end - begin) begin

-- `alloc`, where the search found a block.
unfoldable pub take_block : ℕ → CoreSpaceMap → CoreSpaceMap
take_block b sm = record sm {
  counts = set sm.counts b 1;
  nr_allocated = sm.nr_allocated + 1;
  alloc_begin = b + 1;
}

unfoldable pub alloc_from :
    Result SmError (Option ℕ) → Result SmError (Option ℕ) → Method (Option ℕ)
unfolding take_block
alloc_from (err e) below sm = (err e, sm)
alloc_from (ok (some b)) below sm = (ok (some b), take_block b sm)
alloc_from (ok none) (err e) sm = (err e, sm)
alloc_from (ok none) (ok (some b)) sm = (ok (some b), take_block b sm)
alloc_from (ok none) (ok none) sm = (ok none, sm)

-- First the blocks from `alloc_begin` on are searched, then those before it.
unfoldable pub alloc : Method (Option ℕ)
unfolding alloc_from find_free
alloc sm =
    alloc_from (find_free sm.alloc_begin (length sm.counts) sm) (find_free 0 sm.alloc_begin sm) sm
