-- ===== src/Cache/Superblock/RoundTrip.antt =====
-- `unpack` after `pack_superblock` of src/cache/superblock.rs.
use thin_provisioning_tools.Prelude.{
  ℕ, zero, suc, ◌-◌, ◌≤◌, ◌<◌, ◌≢◌, List, [], ◌∷◌, ◌++◌, Option, none, some, Bool, true, false, leb,
  ◌==◌, replicate, length, ◌≡◌, refl, ap, ◌∙◌, sym, length-replicate, length-append, arith, All,
}
use thin_provisioning_tools.Bytes.{Bytes, u32, u64, IsU32, IsU64, ByteOrder}
use thin_provisioning_tools.Bytes.Parse.{
  pure, Take, written, written-append, read->>=, take->>=, >>=-eq,
}
use thin_provisioning_tools.Cache.Superblock.{
  SuperblockFlags, Superblock, magic, space_map_root_size, policy_name_size, flag_bits, flags_of,
  before_zero, name_field, version_fields, unpack_dirty_root, unpack, dirty_field, fields,
  write_fields, pack_superblock,
}

-- A root is stored just from version 2 on.
abbrev pub IsDirtyRoot : ℕ → Option ℕ → Type 0
IsDirtyRoot version none = version < 2
IsDirtyRoot version (some root) = (2 ≤ version) × IsU64 root

abbrev pub IsVersion : List ℕ → ℕ × ℕ × ℕ → Type 0
IsVersion xs v = (xs ≡ v.0 ∷ v.1 ∷ v.2 ∷ []) × IsU32 v.0 × IsU32 v.1 × IsU32 v.2

-- Every field has the width it is stored with, the policy's name is free of zeros and not too long,
-- its version has three numbers, and there is a dirty root just from version 2 on.
pub record IsStorable (sb : Superblock) (v : ℕ × ℕ × ℕ) : Type 0 where
  pub policy_name_fits : length sb.policy_name ≤ policy_name_size
  pub policy_name_nonzero : All (λ c. c ≢ 0) sb.policy_name
  pub policy_version_fits : IsVersion sb.policy_version v
  pub dirty_root_fits : IsDirtyRoot sb.version sb.dirty_root
  pub block_fits : IsU64 sb.block
  pub version_fits : IsU32 sb.version
  pub policy_hint_size_fits : IsU32 sb.policy_hint_size
  pub metadata_sm_root_fits : length sb.metadata_sm_root ≡ space_map_root_size
  pub mapping_root_fits : IsU64 sb.mapping_root
  pub hint_root_fits : IsU64 sb.hint_root
  pub discard_root_fits : IsU64 sb.discard_root
  pub discard_block_size_fits : IsU64 sb.discard_block_size
  pub discard_nr_blocks_fits : IsU64 sb.discard_nr_blocks
  pub data_block_size_fits : IsU32 sb.data_block_size
  pub cache_blocks_fits : IsU32 sb.cache_blocks
  pub compat_flags_fits : IsU32 sb.compat_flags
  pub compat_ro_flags_fits : IsU32 sb.compat_ro_flags
  pub incompat_flags_fits : IsU32 sb.incompat_flags
  pub read_hits_fits : IsU32 sb.read_hits
  pub read_misses_fits : IsU32 sb.read_misses
  pub write_hits_fits : IsU32 sb.write_hits
  pub write_misses_fits : IsU32 sb.write_misses

flags_of-flag_bits : (f : SuperblockFlags) → flags_of (flag_bits f) ≡ f
unfolding flags_of flag_bits
flags_of-flag_bits f = go f.clean_shutdown f.needs_check
  where
    go :
        (c n : Bool)
        → flags_of (flag_bits (record { clean_shutdown = c; needs_check = n }))
          ≡ record { clean_shutdown = c; needs_check = n }
    go true true = refl
    go true false = refl
    go false true = refl
    go false false = refl

flag_bits-IsU32 : (f : SuperblockFlags) → IsU32 (flag_bits f)
unfolding flag_bits
flag_bits-IsU32 f = go f.clean_shutdown f.needs_check
  where
    go : (c n : Bool) → IsU32 (flag_bits (record { clean_shutdown = c; needs_check = n }))
    go true true = omega arith
    go true false = omega arith
    go false true = omega arith
    go false false = omega arith

before_zero-replicate : (n : ℕ) → before_zero (replicate n 0) ≡ []
unfolding before_zero
before_zero-replicate zero = refl
before_zero-replicate (suc n) = refl

-- The zeros after a name end it.
before_zero-append :
    (name : Bytes) (n : ℕ) → All (λ c. c ≢ 0) name → before_zero (name ++ replicate n 0) ≡ name
unfolding before_zero
before_zero-append [] n h = before_zero-replicate n
before_zero-append (c ∷ cs) n h =
    let test : (c == 0) ≡ false = ground (arith, h.0) in
    rw test (ap (λ (xs : Bytes). c ∷ xs) (before_zero-append cs n h.1))

-- What `name_field` gives for a name that fits.
abbrev padded : Bytes → Bytes
padded name = name ++ replicate (policy_name_size - length name) 0

length-padded :
    (name : Bytes) → length name ≤ policy_name_size → length (padded name) ≡ policy_name_size
length-padded name h = omega (
  arith,
  length-append name (replicate (policy_name_size - length name) 0),
  length-replicate {A = ℕ} (policy_name_size - length name) 0,
)

name_field-padded :
    (name : Bytes) → length name ≤ policy_name_size → name_field name ≡ some (padded name)
unfolding name_field
name_field-padded name h =
    let test : leb (length name) policy_name_size ≡ true = ground arith in rw test refl

restored :
    (sb : Superblock) (f : SuperblockFlags) (name : Bytes) (version : List ℕ) (rest : Bytes)
    → f ≡ sb.flags
    → name ≡ sb.policy_name
    → version ≡ sb.policy_version
    → ◌≡◌ {A = Option (Superblock × Bytes)}
        (some (record sb { flags = f; policy_name = name; policy_version = version }, rest))
        (some (sb, rest))
restored sb f name version rest ef en ev = rw (ef, en, ev) refl

module _ (order : ByteOrder) (t : Take) where
  unpack_dirty_root-dirty_field :
      (version : ℕ) (d : Option ℕ) (rest : Bytes)
      → IsDirtyRoot version d
      → unpack_dirty_root order t version (dirty_field order t d ++ rest) ≡ some (d, rest)
  unfolding unpack_dirty_root dirty_field pure
  unpack_dirty_root-dirty_field version none rest h =
      let test : leb 2 version ≡ false = ground arith in rw test refl
  unpack_dirty_root-dirty_field version (some root) rest h =
      let test : leb 2 version ≡ true = ground arith in rw test (read->>= order u64 root _ rest h.1)

  -- A cache superblock whose fields are storable, with the numbers `v` as its policy's version, can be
  -- packed, and is read back from the bytes, whatever follows them.
  pub cache_unpack-pack_superblock :
      (sb : Superblock) (v : ℕ × ℕ × ℕ) (rest : Bytes)
      → IsStorable sb v
      → (bytes : Bytes) × (pack_superblock order t sb ≡ some bytes)
        × (unpack order t (bytes ++ rest) ≡ some (sb, rest))
  unfolding unpack pack_superblock write_fields fields pure version_fields
  cache_unpack-pack_superblock sb v rest h = (
    written (fields order t sb (padded sb.policy_name) v) [],
    rw
        (
          name_field-padded sb.policy_name h.policy_name_fits,
          h.policy_version_fits.0,
          pack_superblock,
        )
        refl,
    ap (unpack order t) (written-append (fields order t sb (padded sb.policy_name) v) [] rest)
        ∙ read->>= order u32 0 _ _ (omega arith)
        ∙ read->>= order u32 (flag_bits sb.flags) _ _ (flag_bits-IsU32 sb.flags)
        ∙ read->>= order u64 sb.block _ _ h.block_fits
        ∙ take->>= t 16 (replicate 16 0) _ _ refl
        ∙ read->>= order u64 magic _ _ (omega arith)
        ∙ read->>= order u32 sb.version _ _ h.version_fits
        ∙ take->>= t 16 (padded sb.policy_name) _ _
            (length-padded sb.policy_name h.policy_name_fits)
        ∙ read->>= order u32 sb.policy_hint_size _ _ h.policy_hint_size_fits
        ∙ take->>= t 128 sb.metadata_sm_root _ _ h.metadata_sm_root_fits
        ∙ read->>= order u64 sb.mapping_root _ _ h.mapping_root_fits
        ∙ read->>= order u64 sb.hint_root _ _ h.hint_root_fits
        ∙ read->>= order u64 sb.discard_root _ _ h.discard_root_fits
        ∙ read->>= order u64 sb.discard_block_size _ _ h.discard_block_size_fits
        ∙ read->>= order u64 sb.discard_nr_blocks _ _ h.discard_nr_blocks_fits
        ∙ read->>= order u32 sb.data_block_size _ _ h.data_block_size_fits
        ∙ read->>= order u32 8 _ _ (omega arith)
        ∙ read->>= order u32 sb.cache_blocks _ _ h.cache_blocks_fits
        ∙ read->>= order u32 sb.compat_flags _ _ h.compat_flags_fits
        ∙ read->>= order u32 sb.compat_ro_flags _ _ h.compat_ro_flags_fits
        ∙ read->>= order u32 sb.incompat_flags _ _ h.incompat_flags_fits
        ∙ read->>= order u32 sb.read_hits _ _ h.read_hits_fits
        ∙ read->>= order u32 sb.read_misses _ _ h.read_misses_fits
        ∙ read->>= order u32 sb.write_hits _ _ h.write_hits_fits
        ∙ read->>= order u32 sb.write_misses _ _ h.write_misses_fits
        ∙ read->>= order u32 v.0 _ _ h.policy_version_fits.1
        ∙ read->>= order u32 v.1 _ _ h.policy_version_fits.2
        ∙ read->>= order u32 v.2 _ _ h.policy_version_fits.3
        ∙ >>=-eq (unpack_dirty_root order t sb.version) _ sb.dirty_root rest _
            (unpack_dirty_root-dirty_field sb.version sb.dirty_root rest h.dirty_root_fits)
        ∙ restored sb _ _ _ rest (flags_of-flag_bits sb.flags)
            (before_zero-append sb.policy_name _ h.policy_name_nonzero)
            (sym h.policy_version_fits.0),
  )
