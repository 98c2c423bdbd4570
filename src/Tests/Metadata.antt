-- ===== src/Tests/Metadata.antt =====
-- The superblocks and the key ranges on concrete values.
use thin_provisioning_tools.Prelude.{◌++◌, ◌≡◌, refl, [], ◌∷◌, none, some, true, replicate, arith}
use thin_provisioning_tools.Bytes.Instance.{little_endian}
use thin_provisioning_tools.Bytes.Parse.{list_take}
use thin_provisioning_tools.Thin.Superblock as Thin
use thin_provisioning_tools.Era.Superblock as Era
use thin_provisioning_tools.Pdata.KeyRange.{range, split, split_key_ranges}
use thin_provisioning_tools.Pdata.KeyRange.Split.{
  SplitOutcome, KeyRangesOutcome, split_outcome, split_key_ranges_outcome,
}

abbrev thin : Thin.Superblock
thin = record {
  flags = record { needs_check = true };
  block = 0;
  version = 2;
  time = 5;
  transaction_id = 17;
  metadata_snap = 0;
  data_sm_root = replicate 128 1;
  metadata_sm_root = replicate 128 2;
  mapping_root = 40;
  details_root = 41;
  data_block_size = 128;
  nr_metadata_blocks = 1024;
}

thin-IsStorable : Thin.IsStorable thin
thin-IsStorable = record {
  block_fits = omega arith;
  version_fits = omega arith;
  time_fits = omega arith;
  transaction_fits = omega arith;
  snap_fits = omega arith;
  data_root_fits = refl;
  metadata_root_fits = refl;
  mapping_fits = omega arith;
  details_fits = omega arith;
  block_size_fits = omega arith;
  nr_fits = omega arith;
}

unpack-pack_superblock_example :
    Thin.unpack little_endian list_take
      (Thin.pack_superblock little_endian list_take thin ++ 9 ∷ [])
    ≡ some (thin, 9 ∷ [])
unpack-pack_superblock_example =
    Thin.unpack-pack_superblock little_endian list_take thin (9 ∷ []) thin-IsStorable

abbrev era : Era.Superblock
era = record {
  flags = record { clean_shutdown = true };
  block = 0;
  version = 1;
  metadata_sm_root = replicate 128 2;
  data_block_size = 64;
  nr_blocks = 1000;
  current_era = 12;
  current_writeset = record { nr_bits = 1000; root = 7 };
  writeset_tree_root = 8;
  era_array_root = 9;
  metadata_snap = 0;
}

era-IsStorable : Era.IsStorable era
era-IsStorable = record {
  block_fits = omega arith;
  version_fits = omega arith;
  metadata_sm_root_fits = refl;
  data_block_size_fits = omega arith;
  nr_blocks_fits = omega arith;
  current_era_fits = omega arith;
  nr_bits_fits = omega arith;
  root_fits = omega arith;
  writeset_tree_root_fits = omega arith;
  era_array_root_fits = omega arith;
  metadata_snap_fits = omega arith;
}

era_unpack-pack_superblock_example :
    Era.unpack little_endian list_take (Era.pack_superblock little_endian list_take era ++ 9 ∷ [])
    ≡ some (era, 9 ∷ [])
era_unpack-pack_superblock_example =
    Era.era_unpack-pack_superblock little_endian list_take era (9 ∷ []) era-IsStorable

split_outcome_example :
    SplitOutcome (range (some 10) (some 20)) 15 (split (range (some 10) (some 20)) 15)
split_outcome_example = split_outcome (range (some 10) (some 20)) 15

split_key_ranges_outcome_example :
    KeyRangesOutcome
      (range none (some 30))
      (4 ∷ 9 ∷ 12 ∷ [])
      (split_key_ranges (range none (some 30)) (4 ∷ 9 ∷ 12 ∷ []))
split_key_ranges_outcome_example = split_key_ranges_outcome (range none (some 30)) (4 ∷ 9 ∷ 12 ∷ [])
