-- ===== src/Pdata/SpaceMap/Common.antt =====
-- The index entries and the root of a space map on disk: src/pdata/space_map/common.rs.
use thin_provisioning_tools.Prelude.{ℕ, [], ◌∷◌, ◌++◌, some, ◌≡◌, ◌∙◌, ap}
use thin_provisioning_tools.Bytes.{Bytes, u32, u64, IsU32, IsU64, ByteOrder}
use thin_provisioning_tools.Bytes.Parse.{Parser, ◌>>=◌, pure, written, written-append, read->>=}

pub record IndexEntry : Type 0 where
  pub blocknr : ℕ
  pub nr_free : ℕ
  pub none_free_before : ℕ

module _ (order : ByteOrder) where
  unfoldable pub unpack_index_entry : Parser IndexEntry
  unpack_index_entry = do
    blocknr ← order.read u64
    nr_free ← order.read u32
    none_free_before ← order.read u32
    pure (record { blocknr = blocknr; nr_free = nr_free; none_free_before = none_free_before })

  unfoldable pub pack_index_entry : IndexEntry → Bytes
  pack_index_entry v =
      written
        (order.write u64 v.blocknr
          ∷ order.write u32 v.nr_free
          ∷ order.write u32 v.none_free_before
          ∷ [])
        []

-- Every field has the width it is stored with.
abbrev pub IsIndexEntry : IndexEntry → Type 0
IsIndexEntry v = IsU64 v.blocknr × IsU32 v.nr_free × IsU32 v.none_free_before

module _ (order : ByteOrder) where
  -- A value whose fields have the width they are stored with is read back from what `pack` writes,
  -- whatever follows it.
  pub index_entry_unpack-pack :
      (v : IndexEntry) (rest : Bytes)
      → IsIndexEntry v
      → unpack_index_entry order (pack_index_entry order v ++ rest) ≡ some (v, rest)
  unfolding unpack_index_entry pack_index_entry pure
  index_entry_unpack-pack v rest h =
      ap (unpack_index_entry order) (
        written-append
          (order.write u64 v.blocknr
            ∷ order.write u32 v.nr_free
            ∷ order.write u32 v.none_free_before
            ∷ [])
          [] rest)
      ∙ read->>= order u64 v.blocknr _ _ h.0
      ∙ read->>= order u32 v.nr_free _ _ h.1
      ∙ read->>= order u32 v.none_free_before _ _ h.2

pub record SmRoot : Type 0 where
  pub nr_blocks : ℕ
  pub nr_allocated : ℕ
  pub bitmap_root : ℕ
  pub ref_count_root : ℕ

module _ (order : ByteOrder) where
  unfoldable pub unpack_sm_root : Parser SmRoot
  unpack_sm_root = do
    nr_blocks ← order.read u64
    nr_allocated ← order.read u64
    bitmap_root ← order.read u64
    ref_count_root ← order.read u64
    pure (record {
      nr_blocks = nr_blocks;
      nr_allocated = nr_allocated;
      bitmap_root = bitmap_root;
      ref_count_root = ref_count_root;
    })

  unfoldable pub pack_sm_root : SmRoot → Bytes
  pack_sm_root v =
      written
        (order.write u64 v.nr_blocks
          ∷ order.write u64 v.nr_allocated
          ∷ order.write u64 v.bitmap_root
          ∷ order.write u64 v.ref_count_root
          ∷ [])
        []

-- Every field has the width it is stored with.
abbrev pub IsSmRoot : SmRoot → Type 0
IsSmRoot v = IsU64 v.nr_blocks × IsU64 v.nr_allocated × IsU64 v.bitmap_root × IsU64 v.ref_count_root

module _ (order : ByteOrder) where
  -- A value whose fields have the width they are stored with is read back from what `pack` writes,
  -- whatever follows it.
  pub sm_root_unpack-pack :
      (v : SmRoot) (rest : Bytes)
      → IsSmRoot v
      → unpack_sm_root order (pack_sm_root order v ++ rest) ≡ some (v, rest)
  unfolding unpack_sm_root pack_sm_root pure
  sm_root_unpack-pack v rest h =
      ap (unpack_sm_root order) (
        written-append
          (order.write u64 v.nr_blocks
            ∷ order.write u64 v.nr_allocated
            ∷ order.write u64 v.bitmap_root
            ∷ order.write u64 v.ref_count_root
            ∷ [])
          [] rest)
      ∙ read->>= order u64 v.nr_blocks _ _ h.0
      ∙ read->>= order u64 v.nr_allocated _ _ h.1
      ∙ read->>= order u64 v.bitmap_root _ _ h.2
      ∙ read->>= order u64 v.ref_count_root _ _ h.3
