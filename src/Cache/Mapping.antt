-- ===== src/Cache/Mapping.antt =====
-- src/cache/mapping.rs: a Mapping packed into 64 bits.
use thin_provisioning_tools.Prelude.{
  ℕ, ◌+◌, ◌-◌, ◌*◌, ◌/◌, ◌%◌, ◌^◌, ◌<◌, ◌++◌, some, Bool, not, ◌==◌, if◌then◌else◌, bit_and, bit_or,
  ◌≡◌, refl, ap, ◌∙◌, arith,
}
use thin_provisioning_tools.Prelude.Bits.{bit_or-shifted, bit_and-low_mask}
use thin_provisioning_tools.Bytes.{Bytes, u64, ByteOrder}
use thin_provisioning_tools.Bytes.Parse.{Parser, ◌>>=◌, pure, read->>=}

pub record Mapping : Type 0 where
  pub oblock : ℕ
  pub flags : ℕ

-- The word is cut off after 64 bits.
unfoldable pub to_u64 : Mapping → ℕ
to_u64 v = bit_or (v.oblock * 2 ^ 16 % 2 ^ 64) v.flags

unfoldable pub of_u64 : ℕ → Mapping
of_u64 n = record { oblock = n / 2 ^ 16; flags = bit_and n (2 ^ 16 - 1) }

-- The flags: 1 is valid, 2 is dirty.
unfoldable pub is_valid : Mapping → Bool
is_valid m = not (bit_and m.flags 1 == 0)

unfoldable pub is_dirty : Mapping → Bool
is_dirty m = not (bit_and m.flags 2 == 0)

-- `!(MappingFlags::Dirty as u32)` is the mask of 32 bits without the second one.
unfoldable pub set_dirty : Mapping → Bool → Mapping
set_dirty m dirty = record m {
  flags = if dirty then bit_or m.flags 2 else bit_and m.flags (2 ^ 32 - 1 - 2);
}

module _ (order : ByteOrder) where
  unfoldable pub unpack : Parser Mapping
  unpack = do n ← order.read u64; pure (of_u64 n)

  unfoldable pub pack : Mapping → Bytes
  pack v = order.write u64 (to_u64 v)

-- The two fields share the word.
abbrev pub IsStorable : Mapping → Type 0
IsStorable v = (v.oblock < 2 ^ 48) × (v.flags < 2 ^ 16)

to_u64_lem : (v : Mapping) → IsStorable v → to_u64 v ≡ v.oblock * 2 ^ 16 + v.flags
unfolding to_u64
to_u64_lem v h =
    let inside : v.oblock * 2 ^ 16 % 2 ^ 64 ≡ v.oblock * 2 ^ 16 = omega arith in
    rw inside (bit_or-shifted 16 v.oblock v.flags h.1)

of_u64-to_u64 : (v : Mapping) → IsStorable v → of_u64 (to_u64 v) ≡ v
unfolding of_u64
of_u64-to_u64 v h =
    let word = to_u64_lem v h in
    let high : to_u64 v / 2 ^ 16 ≡ v.oblock = omega arith in
    let low : bit_and (to_u64 v) (2 ^ 16 - 1) ≡ v.flags =
      bit_and-low_mask 16 (to_u64 v) ∙ omega arith in
    rw (high, low) refl

to_u64-IsU64 : (v : Mapping) → IsStorable v → to_u64 v < 2 ^ 64
to_u64-IsU64 v h = omega (arith, to_u64_lem v h)

module _ (order : ByteOrder) where
  -- A value whose `oblock` has 48 bits and whose `flags` has 16 is read back from what `pack` writes,
  -- whatever follows it.
  pub mapping_unpack-pack :
      (v : Mapping) (rest : Bytes)
      → IsStorable v
      → unpack order (pack order v ++ rest) ≡ some (v, rest)
  unfolding unpack pack pure
  mapping_unpack-pack v rest h =
      read->>= order u64 (to_u64 v) _ rest (to_u64-IsU64 v h)
      ∙ ap (λ (x : Mapping). some (x, rest)) (of_u64-to_u64 v h)
