-- ===== src/Thin/Superblock.antt =====
-- src/thin/superblock.rs: the layout of the thin superblock. Its checksum is not modelled: the
-- field is written as 0, as `pack_superblock` does, and skipped by `unpack`.
use thin_provisioning_tools.Prelude.{
  ℕ, List, [], ◌∷◌, ◌++◌, some, Bool, true, false, not, ◌==◌, if◌then◌else◌, bit_and, replicate,
  length, ◌≡◌, refl, ap, ◌∙◌, arith,
}
use thin_provisioning_tools.Bytes.{Bytes, u32, u64, IsU32, IsU64, ByteOrder}
use thin_provisioning_tools.Bytes.Parse.{
  Parser, ◌>>=◌, pure, Take, written, written-append, read->>=, take->>=,
}

pub record SuperblockFlags : Type 0 where
  pub needs_check : Bool

pub record Superblock : Type 0 where
  pub flags : SuperblockFlags
  pub block : ℕ
  pub version : ℕ
  pub time : ℕ
  pub transaction_id : ℕ
  pub metadata_snap : ℕ
  pub data_sm_root : Bytes
  pub metadata_sm_root : Bytes
  pub mapping_root : ℕ
  pub details_root : ℕ
  pub data_block_size : ℕ
  pub nr_metadata_blocks : ℕ

abbrev pub magic : ℕ
magic = 27022010

abbrev pub space_map_root_size : ℕ
space_map_root_size = 128

unfoldable pub flag_bits : SuperblockFlags → ℕ
flag_bits f = if f.needs_check then 1 else 0

unfoldable pub flags_of : ℕ → SuperblockFlags
flags_of n = record { needs_check = not (bit_and n 1 == 0) }

module _ (order : ByteOrder) (t : Take) where
  unfoldable pub unpack : Parser Superblock
  unpack = do
    csum ← order.read u32
    flags ← order.read u32
    block ← order.read u64
    uuid ← t.take 16
    magic' ← order.read u64
    version ← order.read u32
    time ← order.read u32
    transaction_id ← order.read u64
    metadata_snap ← order.read u64
    data_sm_root ← t.take space_map_root_size
    metadata_sm_root ← t.take space_map_root_size
    mapping_root ← order.read u64
    details_root ← order.read u64
    data_block_size ← order.read u32
    metadata_block_size ← order.read u32
    nr_metadata_blocks ← order.read u64
    pure (record {
      flags = flags_of flags;
      block = block;
      version = version;
      time = time;
      transaction_id = transaction_id;
      metadata_snap = metadata_snap;
      data_sm_root = data_sm_root;
      metadata_sm_root = metadata_sm_root;
      mapping_root = mapping_root;
      details_root = details_root;
      data_block_size = data_block_size;
      nr_metadata_blocks = nr_metadata_blocks;
    })

  -- The metadata block size is `BLOCK_SIZE >> SECTOR_SHIFT`.
  unfoldable pub fields : Superblock → List Bytes
  fields sb =
      order.write u32 0
      ∷ order.write u32 (flag_bits sb.flags)
      ∷ order.write u64 sb.block
      ∷ replicate 16 0
      ∷ order.write u64 magic
      ∷ order.write u32 sb.version
      ∷ order.write u32 sb.time
      ∷ order.write u64 sb.transaction_id
      ∷ order.write u64 sb.metadata_snap
      ∷ sb.data_sm_root
      ∷ sb.metadata_sm_root
      ∷ order.write u64 sb.mapping_root
      ∷ order.write u64 sb.details_root
      ∷ order.write u32 sb.data_block_size
      ∷ order.write u32 8
      ∷ order.write u64 sb.nr_metadata_blocks
      ∷ []

  unfoldable pub pack_superblock : Superblock → Bytes
  unfolding fields
  pack_superblock sb = written (fields sb) []

-- Every field has the width it is stored with.
pub record IsStorable (sb : Superblock) : Type 0 where
  pub block_fits : IsU64 sb.block
  pub version_fits : IsU32 sb.version
  pub time_fits : IsU32 sb.time
  pub transaction_fits : IsU64 sb.transaction_id
  pub snap_fits : IsU64 sb.metadata_snap
  pub data_root_fits : length sb.data_sm_root ≡ space_map_root_size
  pub metadata_root_fits : length sb.metadata_sm_root ≡ space_map_root_size
  pub mapping_fits : IsU64 sb.mapping_root
  pub details_fits : IsU64 sb.details_root
  pub block_size_fits : IsU32 sb.data_block_size
  pub nr_fits : IsU64 sb.nr_metadata_blocks

flags_of-flag_bits : (f : SuperblockFlags) → flags_of (flag_bits f) ≡ f
unfolding flags_of flag_bits
flags_of-flag_bits f = go f.needs_check
  where
    go : (b : Bool) → flags_of (flag_bits (record { needs_check = b })) ≡ record { needs_check = b }
    go true = refl
    go false = refl

flag_bits-fits : (f : SuperblockFlags) → IsU32 (flag_bits f)
unfolding flag_bits
flag_bits-fits f = ground arith

module _ (order : ByteOrder) (t : Take) where
  -- A superblock whose fields have the width they are stored with is read back from what
  -- `pack_superblock` writes, whatever follows it in the block.
  pub unpack-pack_superblock :
      (sb : Superblock) (rest : Bytes)
      → IsStorable sb
      → unpack order t (pack_superblock order t sb ++ rest) ≡ some (sb, rest)
  unfolding unpack pack_superblock fields pure
  unpack-pack_superblock sb rest h =
      ap (unpack order t) (written-append (fields order t sb) [] rest)
      ∙ read->>= order u32 0 _ _ (omega arith)
      ∙ read->>= order u32 (flag_bits sb.flags) _ _ (flag_bits-fits sb.flags)
      ∙ read->>= order u64 sb.block _ _ h.block_fits
      ∙ take->>= t 16 (replicate 16 0) _ _ refl
      ∙ read->>= order u64 magic _ _ (omega arith)
      ∙ read->>= order u32 sb.version _ _ h.version_fits
      ∙ read->>= order u32 sb.time _ _ h.time_fits
      ∙ read->>= order u64 sb.transaction_id _ _ h.transaction_fits
      ∙ read->>= order u64 sb.metadata_snap _ _ h.snap_fits
      ∙ take->>= t 128 sb.data_sm_root _ _ h.data_root_fits
      ∙ take->>= t 128 sb.metadata_sm_root _ _ h.metadata_root_fits
      ∙ read->>= order u64 sb.mapping_root _ _ h.mapping_fits
      ∙ read->>= order u64 sb.details_root _ _ h.details_fits
      ∙ read->>= order u32 sb.data_block_size _ _ h.block_size_fits
      ∙ read->>= order u32 8 _ _ (omega arith)
      ∙ read->>= order u64 sb.nr_metadata_blocks _ _ h.nr_fits
      ∙ ap (λ (f : SuperblockFlags). some (record sb { flags = f }, rest))
          (flags_of-flag_bits sb.flags)
