-- ===== src/Era/Superblock.antt =====
-- src/era/superblock.rs: the layout of the era superblock. Its checksum is not modelled: the
-- field is written as 0, as `pack_superblock` does, and skipped by `unpack`.
use thin_provisioning_tools.Prelude.{
  ℕ, List, [], ◌∷◌, ◌++◌, some, Bool, true, false, not, ◌==◌, if◌then◌else◌, bit_and, replicate,
  length, ◌≡◌, refl, ap, ◌∙◌, arith,
}
use thin_provisioning_tools.Bytes.{Bytes, u32, u64, IsU32, IsU64, ByteOrder}
use thin_provisioning_tools.Bytes.Parse.{
  Parser, ◌>>=◌, pure, Take, written, written-append, read->>=, take->>=,
}

-- `Writeset` of src/era/writeset.rs.
pub record Writeset : Type 0 where
  pub nr_bits : ℕ
  pub root : ℕ

pub record SuperblockFlags : Type 0 where
  pub clean_shutdown : Bool

pub record Superblock : Type 0 where
  pub flags : SuperblockFlags
  pub block : ℕ
  pub version : ℕ
  pub metadata_sm_root : Bytes
  pub data_block_size : ℕ
  pub nr_blocks : ℕ
  pub current_era : ℕ
  pub current_writeset : Writeset
  pub writeset_tree_root : ℕ
  pub era_array_root : ℕ
  pub metadata_snap : ℕ

abbrev pub magic : ℕ
magic = 2126579579

abbrev pub space_map_root_size : ℕ
space_map_root_size = 128

unfoldable pub flag_bits : SuperblockFlags → ℕ
flag_bits f = if f.clean_shutdown then 1 else 0

unfoldable pub flags_of : ℕ → SuperblockFlags
flags_of n = record { clean_shutdown = not (bit_and n 1 == 0) }

module _ (order : ByteOrder) (t : Take) where
  unfoldable pub unpack : Parser Superblock
  unpack = do
    csum ← order.read u32
    flags ← order.read u32
    block ← order.read u64
    uuid ← t.take 16
    magic' ← order.read u64
    version ← order.read u32
    metadata_sm_root ← t.take space_map_root_size
    data_block_size ← order.read u32
    metadata_block_size ← order.read u32
    nr_blocks ← order.read u32
    current_era ← order.read u32
    nr_bits ← order.read u32
    root ← order.read u64
    writeset_tree_root ← order.read u64
    era_array_root ← order.read u64
    metadata_snap ← order.read u64
    pure (record {
      flags = flags_of flags;
      block = block;
      version = version;
      metadata_sm_root = metadata_sm_root;
      data_block_size = data_block_size;
      nr_blocks = nr_blocks;
      current_era = current_era;
      current_writeset = record { nr_bits = nr_bits; root = root };
      writeset_tree_root = writeset_tree_root;
      era_array_root = era_array_root;
      metadata_snap = metadata_snap;
    })

  -- The metadata block size is `BLOCK_SIZE >> SECTOR_SHIFT`.
  unfoldable pub fields : Superblock → List Bytes
  fields sb =
      order.write u32 0
      ∷ order.write u32 (flag_bits sb.flags)
      ∷ order.write u64 sb.block
      ∷ replicate 16 0
      ∷ order.write u64 magic
      ∷ order.write u32 sb.version
      ∷ sb.metadata_sm_root
      ∷ order.write u32 sb.data_block_size
      ∷ order.write u32 8
      ∷ order.write u32 sb.nr_blocks
      ∷ order.write u32 sb.current_era
      ∷ order.write u32 sb.current_writeset.nr_bits
      ∷ order.write u64 sb.current_writeset.root
      ∷ order.write u64 sb.writeset_tree_root
      ∷ order.write u64 sb.era_array_root
      ∷ order.write u64 sb.metadata_snap
      ∷ []

  unfoldable pub pack_superblock : Superblock → Bytes
  unfolding fields
  pack_superblock sb = written (fields sb) []

-- Every field has the width it is stored with.
pub record IsStorable (sb : Superblock) : Type 0 where
  pub block_fits : IsU64 sb.block
  pub version_fits : IsU32 sb.version
  pub metadata_sm_root_fits : length sb.metadata_sm_root ≡ space_map_root_size
  pub data_block_size_fits : IsU32 sb.data_block_size
  pub nr_blocks_fits : IsU32 sb.nr_blocks
  pub current_era_fits : IsU32 sb.current_era
  pub nr_bits_fits : IsU32 sb.current_writeset.nr_bits
  pub root_fits : IsU64 sb.current_writeset.root
  pub writeset_tree_root_fits : IsU64 sb.writeset_tree_root
  pub era_array_root_fits : IsU64 sb.era_array_root
  pub metadata_snap_fits : IsU64 sb.metadata_snap

flags_of-flag_bits : (f : SuperblockFlags) → flags_of (flag_bits f) ≡ f
unfolding flags_of flag_bits
flags_of-flag_bits f = go f.clean_shutdown
  where
    go :
        (b : Bool)
        → flags_of (flag_bits (record { clean_shutdown = b })) ≡ record { clean_shutdown = b }
    go true = refl
    go false = refl

flag_bits-fits : (f : SuperblockFlags) → IsU32 (flag_bits f)
unfolding flag_bits
flag_bits-fits f = ground arith

module _ (order : ByteOrder) (t : Take) where
  -- A superblock whose fields have the width they are stored with is read back from what
  -- `pack_superblock` writes, whatever follows it in the block.
  pub era_unpack-pack_superblock :
      (sb : Superblock) (rest : Bytes)
      → IsStorable sb
      → unpack order t (pack_superblock order t sb ++ rest) ≡ some (sb, rest)
  unfolding unpack pack_superblock fields pure
  era_unpack-pack_superblock sb rest h =
      ap (unpack order t) (written-append (fields order t sb) [] rest)
      ∙ read->>= order u32 0 _ _ (omega arith)
      ∙ read->>= order u32 (flag_bits sb.flags) _ _ (flag_bits-fits sb.flags)
      ∙ read->>= order u64 sb.block _ _ h.block_fits
      ∙ take->>= t 16 (replicate 16 0) _ _ refl
      ∙ read->>= order u64 magic _ _ (omega arith)
      ∙ read->>= order u32 sb.version _ _ h.version_fits
      ∙ take->>= t 128 sb.metadata_sm_root _ _ h.metadata_sm_root_fits
      ∙ read->>= order u32 sb.data_block_size _ _ h.data_block_size_fits
      ∙ read->>= order u32 8 _ _ (omega arith)
      ∙ read->>= order u32 sb.nr_blocks _ _ h.nr_blocks_fits
      ∙ read->>= order u32 sb.current_era _ _ h.current_era_fits
      ∙ read->>= order u32 sb.current_writeset.nr_bits _ _ h.nr_bits_fits
      ∙ read->>= order u64 sb.current_writeset.root _ _ h.root_fits
      ∙ read->>= order u64 sb.writeset_tree_root _ _ h.writeset_tree_root_fits
      ∙ read->>= order u64 sb.era_array_root _ _ h.era_array_root_fits
      ∙ read->>= order u64 sb.metadata_snap _ _ h.metadata_snap_fits
      ∙ ap (λ (f : SuperblockFlags). some (record sb { flags = f }, rest))
          (flags_of-flag_bits sb.flags)
