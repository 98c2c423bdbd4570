-- ===== src/Pdata/SpaceMap/Restricted.antt =====
-- `RestrictedSpaceMap` of src/pdata/space_map/base.rs, which counts to one. A method that fails
-- leaves the map as it was.
pub mod Laws
pub mod Alloc
use thin_provisioning_tools.Prelude.{
  ℕ, zero, suc, ◌+◌, ◌-◌, ◌*◌, Option, none, some, Bool, true, false, ◌||◌, not, ltb, leb, ◌==◌,
  if◌then◌else◌, Result, ok, err, ◌>>=◌,
}
use thin_provisioning_tools.Pdata.SpaceMap.Core.{SmError, out_of_bounds}
use thin_provisioning_tools.Pdata.SpaceMap.BitSet.{FixedBitSet}

pub record RestrictedSpaceMap (fbs : FixedBitSet) : Type 0 where
  pub nr_allocated : ℕ
  pub alloc_begin : ℕ
  pub counts : fbs.Bits

module _ (fbs : FixedBitSet) where
  unfoldable pub new : ℕ → RestrictedSpaceMap fbs
  new nr_entries = record {
    nr_allocated = 0;
    alloc_begin = 0;
    counts = fbs.with_capacity nr_entries;
  }

  unfoldable pub get : ℕ → RestrictedSpaceMap fbs → Result SmError ℕ
  get b sm =
      if leb (fbs.len sm.counts) b
      then err out_of_bounds
      else ok (if fbs.contains sm.counts b then 1 else 0)

  -- The two branches of `set`.
  unfoldable pub insert : ℕ → RestrictedSpaceMap fbs → RestrictedSpaceMap fbs
  insert b sm = record sm {
    nr_allocated = if fbs.contains sm.counts b then sm.nr_allocated else sm.nr_allocated + 1;
    counts = fbs.put sm.counts b true;
  }

  unfoldable pub remove : ℕ → RestrictedSpaceMap fbs → RestrictedSpaceMap fbs
  remove b sm = record sm {
    nr_allocated = if fbs.contains sm.counts b then sm.nr_allocated - 1 else sm.nr_allocated;
    counts = fbs.put sm.counts b false;
  }

  unfoldable pub set_count :
      ℕ → ℕ → RestrictedSpaceMap fbs → Result SmError (ℕ × RestrictedSpaceMap fbs)
  unfolding insert remove
  set_count b v sm =
      if leb (fbs.len sm.counts) b
      then err out_of_bounds
      else ok
          (if fbs.contains sm.counts b then 1 else 0, if ltb 0 v then insert b sm else remove b sm)

  -- One round of the loop of `inc`.
  unfoldable pub mark : ℕ → RestrictedSpaceMap fbs → RestrictedSpaceMap fbs
  mark b sm =
      if fbs.contains sm.counts b
      then sm
      else record sm { nr_allocated = sm.nr_allocated + 1; counts = fbs.put sm.counts b true }

  unfoldable pub inc_loop : ℕ → ℕ → RestrictedSpaceMap fbs → RestrictedSpaceMap fbs
  unfolding mark
  inc_loop zero b sm = sm
  inc_loop (suc n) b sm = inc_loop n (b + 1) (mark b sm)

  -- `check_index_out_of_bounds(end - 1)`: where `end` is 0 the subtraction wraps to a number beyond
  -- the set.
  unfoldable pub ends_outside : ℕ → RestrictedSpaceMap fbs → Bool
  ends_outside end sm = (end == 0) || leb (fbs.len sm.counts) (end - 1)

  unfoldable pub inc : ℕ → ℕ → RestrictedSpaceMap fbs → Result SmError (RestrictedSpaceMap fbs)
  unfolding inc_loop ends_outside
  inc begin len sm =
      if ends_outside (begin + len) sm then err out_of_bounds else ok (inc_loop len begin sm)

  unfoldable pub find_loop : fbs.Bits → ℕ → ℕ → Option ℕ
  find_loop counts zero b = none
  find_loop counts (suc n) b =
      let later = find_loop counts n (b + 1) in if fbs.contains counts b then later else some b

  unfoldable pub find_free : ℕ → ℕ → RestrictedSpaceMap fbs → Result SmError (Option ℕ)
  unfolding find_loop ends_outside
  find_free begin end sm =
      if ends_outside end sm
      then err out_of_bounds
      else ok (find_loop sm.counts (end - begin) begin)

  -- `alloc`, where the search found a block.
  unfoldable pub take_block : ℕ → RestrictedSpaceMap fbs → RestrictedSpaceMap fbs
  take_block b sm = record {
    nr_allocated = sm.nr_allocated + 1;
    alloc_begin = b + 1;
    counts = fbs.put sm.counts b true;
  }

  unfoldable pub alloc_from :
      Result SmError (Option ℕ)
      → Result SmError (Option ℕ)
      → RestrictedSpaceMap fbs
      → Result SmError (Option ℕ × RestrictedSpaceMap fbs)
  unfolding take_block
  alloc_from (err e) below sm = err e
  alloc_from (ok (some b)) below sm = ok (some b, take_block b sm)
  alloc_from (ok none) (err e) sm = err e
  alloc_from (ok none) (ok (some b)) sm = ok (some b, take_block b sm)
  alloc_from (ok none) (ok none) sm = ok (none, sm)

  unfoldable pub alloc : RestrictedSpaceMap fbs → Result SmError (Option ℕ × RestrictedSpaceMap fbs)
  unfolding alloc_from find_free
  alloc sm =
      alloc_from (find_free sm.alloc_begin (fbs.len sm.counts) sm) (find_free 0 sm.alloc_begin sm)
        sm
