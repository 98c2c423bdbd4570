-- ===== src/Tests/Values.antt =====
-- The cache superblock and the small values on disk, on concrete values.
use thin_provisioning_tools.Prelude.{◌++◌, ◌≡◌, refl, [], ◌∷◌, some, true, false, replicate, arith}
use thin_provisioning_tools.Bytes.{Bytes}
use thin_provisioning_tools.Bytes.Instance.{little_endian}
use thin_provisioning_tools.Bytes.Parse.{list_take}
use thin_provisioning_tools.Cache.Superblock as Cache
use thin_provisioning_tools.Cache.Superblock.RoundTrip.{IsStorable, cache_unpack-pack_superblock}
use thin_provisioning_tools.Cache.Mapping as Mapping
use thin_provisioning_tools.Thin.BlockTime as BlockTime
use thin_provisioning_tools.Thin.DeviceDetail as DeviceDetail
use thin_provisioning_tools.Pdata.SpaceMap.Common as Common

abbrev cache : Cache.Superblock
cache = record {
  flags = record { clean_shutdown = true; needs_check = false };
  block = 0;
  version = 2;
  policy_name = 115 ∷ 109 ∷ 113 ∷ [];
  policy_version = 2 ∷ 0 ∷ 1 ∷ [];
  policy_hint_size = 4;
  metadata_sm_root = replicate 128 3;
  mapping_root = 10;
  dirty_root = some 11;
  hint_root = 12;
  discard_root = 13;
  discard_block_size = 512;
  discard_nr_blocks = 100;
  data_block_size = 64;
  cache_blocks = 1000;
  compat_flags = 0;
  compat_ro_flags = 0;
  incompat_flags = 0;
  read_hits = 1;
  read_misses = 2;
  write_hits = 3;
  write_misses = 4;
}

cache-IsStorable : IsStorable cache (2, 0, 1)
cache-IsStorable = record {
  policy_name_fits = omega arith;
  policy_name_nonzero = (
    (λ e. absurd (omega arith)),
    ((λ e. absurd (omega arith)), ((λ e. absurd (omega arith)), tt)),
  );
  policy_version_fits = (refl, omega arith, omega arith, omega arith);
  dirty_root_fits = (omega arith, omega arith);
  block_fits = omega arith;
  version_fits = omega arith;
  policy_hint_size_fits = omega arith;
  metadata_sm_root_fits = refl;
  mapping_root_fits = omega arith;
  hint_root_fits = omega arith;
  discard_root_fits = omega arith;
  discard_block_size_fits = omega arith;
  discard_nr_blocks_fits = omega arith;
  data_block_size_fits = omega arith;
  cache_blocks_fits = omega arith;
  compat_flags_fits = omega arith;
  compat_ro_flags_fits = omega arith;
  incompat_flags_fits = omega arith;
  read_hits_fits = omega arith;
  read_misses_fits = omega arith;
  write_hits_fits = omega arith;
  write_misses_fits = omega arith;
}

cache_unpack-pack_superblock_example :
    (bytes : Bytes) × (Cache.pack_superblock little_endian list_take cache ≡ some bytes)
    × (Cache.unpack little_endian list_take (bytes ++ 9 ∷ []) ≡ some (cache, 9 ∷ []))
cache_unpack-pack_superblock_example =
    cache_unpack-pack_superblock little_endian list_take cache (2, 0, 1) (9 ∷ []) cache-IsStorable

abbrev mapping : Mapping.Mapping
mapping = record { oblock = 1234; flags = 3 }

mapping_unpack-pack_example :
    Mapping.unpack little_endian (Mapping.pack little_endian mapping ++ 9 ∷ [])
    ≡ some (mapping, 9 ∷ [])
mapping_unpack-pack_example =
    Mapping.mapping_unpack-pack little_endian mapping (9 ∷ []) (omega arith, omega arith)

abbrev block_time : BlockTime.BlockTime
block_time = record { block = 1234; time = 7 }

block_time_unpack-pack_example :
    BlockTime.unpack little_endian (BlockTime.pack little_endian block_time ++ 9 ∷ [])
    ≡ some (block_time, 9 ∷ [])
block_time_unpack-pack_example =
    BlockTime.block_time_unpack-pack little_endian block_time (9 ∷ []) (omega arith, omega arith)

abbrev detail : DeviceDetail.DeviceDetail
detail = record { mapped_blocks = 100; transaction_id = 3; creation_time = 1; snapshotted_time = 2 }

abbrev entry : Common.IndexEntry
entry = record { blocknr = 5; nr_free = 16000; none_free_before = 320 }

abbrev root : Common.SmRoot
root = record { nr_blocks = 1000; nr_allocated = 10; bitmap_root = 3; ref_count_root = 4 }
