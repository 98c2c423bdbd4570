-- ===== src/Thin/BlockTime.antt =====
-- src/thin/block_time.rs: a BlockTime packed into 64 bits.
use thin_provisioning_tools.Prelude.{
  ℕ, ◌+◌, ◌-◌, ◌*◌, ◌/◌, ◌%◌, ◌^◌, ◌<◌, ◌++◌, some, bit_and, bit_or, ◌≡◌, refl, ap, ◌∙◌, arith,
}
use thin_provisioning_tools.Prelude.Bits.{bit_or-shifted, bit_and-low_mask}
use thin_provisioning_tools.Bytes.{Bytes, u64, ByteOrder}
use thin_provisioning_tools.Bytes.Parse.{Parser, ◌>>=◌, pure, read->>=}

pub record BlockTime : Type 0 where
  pub block : ℕ
  pub time : ℕ

-- The word is cut off after 64 bits.
unfoldable pub to_u64 : BlockTime → ℕ
to_u64 v = bit_or (v.block * 2 ^ 24 % 2 ^ 64) v.time

unfoldable pub of_u64 : ℕ → BlockTime
of_u64 n = record { block = n / 2 ^ 24; time = bit_and n (2 ^ 24 - 1) }

module _ (order : ByteOrder) where
  unfoldable pub unpack : Parser BlockTime
  unpack = do n ← order.read u64; pure (of_u64 n)

  unfoldable pub pack : BlockTime → Bytes
  pack v = order.write u64 (to_u64 v)

-- The two fields share the word.
abbrev pub IsStorable : BlockTime → Type 0
IsStorable v = (v.block < 2 ^ 40) × (v.time < 2 ^ 24)

to_u64_lem : (v : BlockTime) → IsStorable v → to_u64 v ≡ v.block * 2 ^ 24 + v.time
unfolding to_u64
to_u64_lem v h =
    let inside : v.block * 2 ^ 24 % 2 ^ 64 ≡ v.block * 2 ^ 24 = omega arith in
    rw inside (bit_or-shifted 24 v.block v.time h.1)

of_u64-to_u64 : (v : BlockTime) → IsStorable v → of_u64 (to_u64 v) ≡ v
unfolding of_u64
of_u64-to_u64 v h =
    let word = to_u64_lem v h in
    let high : to_u64 v / 2 ^ 24 ≡ v.block = omega arith in
    let low : bit_and (to_u64 v) (2 ^ 24 - 1) ≡ v.time =
      bit_and-low_mask 24 (to_u64 v) ∙ omega arith in
    rw (high, low) refl

to_u64-IsU64 : (v : BlockTime) → IsStorable v → to_u64 v < 2 ^ 64
to_u64-IsU64 v h = omega (arith, to_u64_lem v h)

module _ (order : ByteOrder) where
  -- A value whose `block` has 40 bits and whose `time` has 24 is read back from what `pack` writes,
  -- whatever follows it.
  pub block_time_unpack-pack :
      (v : BlockTime) (rest : Bytes)
      → IsStorable v
      → unpack order (pack order v ++ rest) ≡ some (v, rest)
  unfolding unpack pack pure
  block_time_unpack-pack v rest h =
      read->>= order u64 (to_u64 v) _ rest (to_u64-IsU64 v h)
      ∙ ap (λ (x : BlockTime). some (x, rest)) (of_u64-to_u64 v h)
