-- ===== src/Pdata/SpaceMap/RestrictedTwo.antt =====
-- `RestrictedTwoSpaceMap` of src/pdata/space_map/base.rs, which counts to two with two bits for each
-- block. `FixedBitSet` panics on a write beyond the set.
pub mod Laws
pub mod Alloc
use thin_provisioning_tools.Prelude.{
  ℕ, zero, suc, ◌+◌, ◌-◌, ◌*◌, ◌/◌, Option, none, some, Bool, true, false, ◌||◌, not, ltb, leb,
  ◌==◌, if◌then◌else◌, Result, ok, err, ◌>>=◌,
}
use thin_provisioning_tools.Pdata.SpaceMap.Core.{SmError, panicked}
use thin_provisioning_tools.Pdata.SpaceMap.BitSet.{FixedBitSet}

pub record RestrictedTwoSpaceMap (fbs : FixedBitSet) : Type 0 where
  pub nr_allocated : ℕ
  pub alloc_begin : ℕ
  pub counts : fbs.Bits

module _ (fbs : FixedBitSet) where
  unfoldable pub new : ℕ → RestrictedTwoSpaceMap fbs
  new nr_entries = record {
    nr_allocated = 0;
    alloc_begin = 0;
    counts = fbs.with_capacity (2 * nr_entries);
  }

  unfoldable pub get_nr_blocks : RestrictedTwoSpaceMap fbs → ℕ
  get_nr_blocks sm = fbs.len sm.counts / 2

  unfoldable pub get : ℕ → fbs.Bits → ℕ
  get b counts =
      if fbs.contains counts (2 * b) then 1 else if fbs.contains counts (2 * b + 1) then 2 else 0

  unfoldable pub write_bit : ℕ → Bool → fbs.Bits → Result SmError fbs.Bits
  write_bit i v counts = if ltb i (fbs.len counts) then ok (fbs.put counts i v) else err panicked

  -- The two bits of a block.
  unfoldable pub write_pair : ℕ → Bool → Bool → fbs.Bits → Result SmError fbs.Bits
  unfolding write_bit
  write_pair b one two counts = write_bit (2 * b) one counts >>= write_bit (2 * b + 1) two

  unfoldable pub with_counts :
      ℕ
      → RestrictedTwoSpaceMap fbs
      → Result SmError fbs.Bits
      → Result SmError (RestrictedTwoSpaceMap fbs)
  with_counts nr sm (err e) = err e
  with_counts nr sm (ok s) = ok (record sm { nr_allocated = nr; counts = s })

  -- A count above two leaves the bits as they are.
  unfoldable pub set_bits : ℕ → ℕ → fbs.Bits → Result SmError fbs.Bits
  unfolding write_pair
  set_bits b v counts =
      if v == 0
      then write_pair b false false counts
      else if v == 1
      then write_pair b true false counts
      else if v == 2
      then write_pair b false true counts
      else ok counts

  abbrev pub recount : ℕ → ℕ → ℕ → ℕ
  recount old v nr =
      if ltb 0 v then (if old == 0 then nr + 1 else nr) else if old == 1 then nr - 1 else nr

  unfoldable pub set_count :
      ℕ → ℕ → RestrictedTwoSpaceMap fbs → Result SmError (ℕ × RestrictedTwoSpaceMap fbs)
  unfolding set_bits with_counts
  set_count b v sm =
      let old = get b sm.counts in
      with_counts (recount old v sm.nr_allocated) sm (set_bits b v sm.counts) >>= λ sm'.
      ok (old, sm')

  -- One round of the loop of `inc`.
  unfoldable pub mark : ℕ → RestrictedTwoSpaceMap fbs → Result SmError (RestrictedTwoSpaceMap fbs)
  unfolding write_bit with_counts
  mark b sm =
      if fbs.contains sm.counts (2 * b + 1)
      then ok sm
      else if fbs.contains sm.counts (2 * b)
      then with_counts sm.nr_allocated sm (write_pair b false true sm.counts)
      else with_counts (sm.nr_allocated + 1) sm (write_bit (2 * b) true sm.counts)

  unfoldable pub inc_loop :
      ℕ → ℕ → RestrictedTwoSpaceMap fbs → Result SmError (RestrictedTwoSpaceMap fbs)
  unfolding mark
  inc_loop zero b sm = ok sm
  inc_loop (suc n) b sm = mark b sm >>= λ sm'. inc_loop n (b + 1) sm'

  unfoldable pub inc :
      ℕ → ℕ → RestrictedTwoSpaceMap fbs → Result SmError (RestrictedTwoSpaceMap fbs)
  unfolding inc_loop
  inc begin len sm = inc_loop len begin sm

  unfoldable pub find_loop : fbs.Bits → ℕ → ℕ → Option ℕ
  find_loop counts zero b = none
  find_loop counts (suc n) b =
      let later = find_loop counts n (b + 1) in
      if fbs.contains counts (2 * b) || fbs.contains counts (2 * b + 1) then later else some b

  unfoldable pub find_free : ℕ → ℕ → RestrictedTwoSpaceMap fbs → Option ℕ
  unfolding find_loop
  find_free begin end sm = find_loop sm.counts (end - begin) begin

  unfoldable pub take_block :
      Option ℕ → RestrictedTwoSpaceMap fbs → Result SmError (Option ℕ × RestrictedTwoSpaceMap fbs)
  unfolding write_bit
  take_block none sm = ok (none, sm)
  take_block (some b) sm = write_bit (2 * b) true sm.counts >>= λ s.
      ok (some b, record { nr_allocated = sm.nr_allocated + 1; alloc_begin = b + 1; counts = s })

  abbrev or_else : Option ℕ → Option ℕ → Option ℕ
  or_else none later = later
  or_else (some b) later = some b

  -- The first search runs to the number of bits, which is twice the number of blocks.
  unfoldable pub alloc :
      RestrictedTwoSpaceMap fbs → Result SmError (Option ℕ × RestrictedTwoSpaceMap fbs)
  unfolding take_block find_free
  alloc sm =
      take_block
        (or_else (find_free sm.alloc_begin (fbs.len sm.counts) sm) (find_free 0 sm.alloc_begin sm))
        sm
