-- ===== src/Cache/Superblock.antt =====
-- src/cache/superblock.rs: the layout of the cache superblock. Its checksum is not modelled: the
-- field is written as 0, as `pack_superblock` does, and skipped by `unpack`.
pub mod RoundTrip
use thin_provisioning_tools.Prelude.{
  ℕ, zero, suc, ◌-◌, List, [], ◌∷◌, ◌++◌, Option, none, some, Bool, not, leb, ◌==◌, if◌then◌else◌,
  bit_and, bit_or, replicate, length,
}
use thin_provisioning_tools.Bytes.{Bytes, u32, u64, ByteOrder}
use thin_provisioning_tools.Bytes.Parse.{Parser, ◌>>=◌, pure, Take, written}

pub record SuperblockFlags : Type 0 where
  pub clean_shutdown : Bool
  pub needs_check : Bool

pub record Superblock : Type 0 where
  pub flags : SuperblockFlags
  pub block : ℕ
  pub version : ℕ
  pub policy_name : Bytes
  pub policy_version : List ℕ
  pub policy_hint_size : ℕ
  pub metadata_sm_root : Bytes
  pub mapping_root : ℕ
  -- format 2 only
  pub dirty_root : Option ℕ
  pub hint_root : ℕ
  pub discard_root : ℕ
  pub discard_block_size : ℕ
  pub discard_nr_blocks : ℕ
  pub data_block_size : ℕ
  pub cache_blocks : ℕ
  pub compat_flags : ℕ
  pub compat_ro_flags : ℕ
  pub incompat_flags : ℕ
  pub read_hits : ℕ
  pub read_misses : ℕ
  pub write_hits : ℕ
  pub write_misses : ℕ

abbrev pub magic : ℕ
magic = 1623043

abbrev pub space_map_root_size : ℕ
space_map_root_size = 128

abbrev pub policy_name_size : ℕ
policy_name_size = 16

unfoldable pub flag_bits : SuperblockFlags → ℕ
flag_bits f =
    let flags = if f.clean_shutdown then bit_or 0 1 else 0 in
    if f.needs_check then bit_or flags 2 else flags

unfoldable pub flags_of : ℕ → SuperblockFlags
flags_of n = record {
  clean_shutdown = not (bit_and n 1 == 0);
  needs_check = not (bit_and n 2 == 0);
}

-- `policy_name.splitn(2, |c| *c == 0).next()`
unfoldable pub before_zero : Bytes → Bytes
before_zero [] = []
before_zero (c ∷ cs) = let later = before_zero cs in if c == 0 then [] else c ∷ later

-- The name in a field of zeros; `none`: the slice is too short for it, which panics.
unfoldable pub name_field : Bytes → Option Bytes
name_field name =
    if leb (length name) policy_name_size
    then some (name ++ replicate (policy_name_size - length name) 0)
    else none

-- The three elements that are indexed; `none`: an index is out of range, which panics.
unfoldable pub version_fields : List ℕ → Option (ℕ × ℕ × ℕ)
version_fields (major ∷ minor ∷ patch ∷ _) = some (major, minor, patch)
version_fields _ = none

module _ (order : ByteOrder) (t : Take) where
  unfoldable pub unpack_dirty_root : ℕ → Parser (Option ℕ)
  unpack_dirty_root version =
      if leb 2 version then (do root ← order.read u64; pure (some root)) else pure none

  unfoldable pub unpack : Parser Superblock
  unfolding unpack_dirty_root
  unpack = do
    csum ← order.read u32
    flags ← order.read u32
    block ← order.read u64
    uuid ← t.take 16
    magic' ← order.read u64
    version ← order.read u32
    policy_name ← t.take 16
    policy_hint_size ← order.read u32
    metadata_sm_root ← t.take space_map_root_size
    mapping_root ← order.read u64
    hint_root ← order.read u64
    discard_root ← order.read u64
    discard_block_size ← order.read u64
    discard_nr_blocks ← order.read u64
    data_block_size ← order.read u32
    metadata_block_size ← order.read u32
    cache_blocks ← order.read u32
    compat_flags ← order.read u32
    compat_ro_flags ← order.read u32
    incompat_flags ← order.read u32
    read_hits ← order.read u32
    read_misses ← order.read u32
    write_hits ← order.read u32
    write_misses ← order.read u32
    vsn_major ← order.read u32
    vsn_minor ← order.read u32
    vsn_patch ← order.read u32
    dirty_root ← unpack_dirty_root version
    pure (record {
      flags = flags_of flags;
      block = block;
      version = version;
      policy_name = before_zero policy_name;
      policy_version = vsn_major ∷ vsn_minor ∷ vsn_patch ∷ [];
      policy_hint_size = policy_hint_size;
      metadata_sm_root = metadata_sm_root;
      mapping_root = mapping_root;
      dirty_root = dirty_root;
      hint_root = hint_root;
      discard_root = discard_root;
      discard_block_size = discard_block_size;
      discard_nr_blocks = discard_nr_blocks;
      data_block_size = data_block_size;
      cache_blocks = cache_blocks;
      compat_flags = compat_flags;
      compat_ro_flags = compat_ro_flags;
      incompat_flags = incompat_flags;
      read_hits = read_hits;
      read_misses = read_misses;
      write_hits = write_hits;
      write_misses = write_misses;
    })

  unfoldable pub dirty_field : Option ℕ → Bytes
  dirty_field none = []
  dirty_field (some root) = order.write u64 root

  -- The metadata block size is `BLOCK_SIZE >> SECTOR_SHIFT`.
  unfoldable pub fields : Superblock → Bytes → ℕ × ℕ × ℕ → List Bytes
  unfolding dirty_field
  fields sb name v =
      order.write u32 0
      ∷ order.write u32 (flag_bits sb.flags)
      ∷ order.write u64 sb.block
      ∷ replicate 16 0
      ∷ order.write u64 magic
      ∷ order.write u32 sb.version
      ∷ name
      ∷ order.write u32 sb.policy_hint_size
      ∷ sb.metadata_sm_root
      ∷ order.write u64 sb.mapping_root
      ∷ order.write u64 sb.hint_root
      ∷ order.write u64 sb.discard_root
      ∷ order.write u64 sb.discard_block_size
      ∷ order.write u64 sb.discard_nr_blocks
      ∷ order.write u32 sb.data_block_size
      ∷ order.write u32 8
      ∷ order.write u32 sb.cache_blocks
      ∷ order.write u32 sb.compat_flags
      ∷ order.write u32 sb.compat_ro_flags
      ∷ order.write u32 sb.incompat_flags
      ∷ order.write u32 sb.read_hits
      ∷ order.write u32 sb.read_misses
      ∷ order.write u32 sb.write_hits
      ∷ order.write u32 sb.write_misses
      ∷ order.write u32 v.0
      ∷ order.write u32 v.1
      ∷ order.write u32 v.2
      ∷ dirty_field sb.dirty_root
      ∷ []

  unfoldable pub write_fields : Superblock → Option Bytes → Option (ℕ × ℕ × ℕ) → Option Bytes
  unfolding fields
  write_fields sb (some name) (some v) = some (written (fields sb name v) [])
  write_fields sb _ _ = none

  unfoldable pub pack_superblock : Superblock → Option Bytes
  unfolding write_fields
  pack_superblock sb =
      write_fields sb (name_field sb.policy_name) (version_fields sb.policy_version)
