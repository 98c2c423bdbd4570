-- ===== src/Pack/Encode.antt =====
-- The packing half of src/pack/vm.rs. The writer is an in-memory buffer, as everywhere in the
-- source, so a write does not fail: it gives the longer buffer.
pub mod Format
use thin_provisioning_tools.Prelude.{
  ℕ, ◌+◌, ◌-◌, ◌*◌, ◌/◌, ◌%◌, ◌^◌, bit_and, bit_or, List, [], ◌∷◌, ◌++◌, map, length, ◌&&◌, ltb,
  leb, ◌==◌, if◌then◌else◌, Result, ok, err, ◌>>=◌,
}
use thin_provisioning_tools.Bytes.{Bytes, ByteOrder, u8, u16, u32, u64}
use thin_provisioning_tools.Pack.DeltaList.{Delta, to_delta}
use thin_provisioning_tools.Pack.Tag.{Tag, tag_code, VmError, panicked}

-- The two halves of `unshift_nrs`: `n >> shift` and `n & mask` of each number.
unfoldable pub unshift_nrs : ℕ → List ℕ → List ℕ × List ℕ
unshift_nrs shift ns = (map (λ n. n / 2 ^ shift) ns, map (λ n. bit_and n (2 ^ shift - 1)) ns)

module _ (order : ByteOrder) where
  open order use {write}

  unfoldable pub pack_tag : Bytes → Tag → ℕ → Result VmError Bytes
  pack_tag w t nibble =
      if ltb nibble 16 && ltb (tag_code t) 16
      then ok (w ++ write u8 (bit_or (tag_code t * 2 ^ 4 % 2 ^ 8) nibble))
      else err panicked

  unfoldable pub pack_count : Bytes → ℕ → Result VmError Bytes
  pack_count w count =
      if count == 1
      then ok w
      else if ltb count 16
      then pack_tag w Tag.count (count % 2 ^ 8)
      else if ltb count 4096 && ltb (count / 2 ^ 8) 16
      then (do
        w' ← pack_tag w Tag.count8 (count / 2 ^ 8 % 2 ^ 8)
        ok (w' ++ write u8 (bit_and count 0xff % 2 ^ 8)))
      else err panicked

  -- A tag with the width of its operand in the nibble, then the operand: the ladder on the size of
  -- `n` that `pack_delta` writes out for `Set`, `PosW` and `NegW`, and `pack_literal` for `LitW`.
  unfoldable pub pack_operand : Bytes → Tag → ℕ → Result VmError Bytes
  pack_operand w t n =
      if leb n (2 ^ 8 - 1)
      then (do w' ← pack_tag w t 1; ok (w' ++ write u8 (n % 2 ^ 8)))
      else if leb n (2 ^ 16 - 1)
      then (do w' ← pack_tag w t 2; ok (w' ++ write u16 (n % 2 ^ 16)))
      else if leb n (2 ^ 32 - 1)
      then (do w' ← pack_tag w t 4; ok (w' ++ write u32 (n % 2 ^ 32)))
      else (do w' ← pack_tag w t 8; ok (w' ++ write u64 n))

  unfoldable pub pack_delta : Bytes → Delta → Result VmError Bytes
  pack_delta w (Delta.base n) = pack_operand w Tag.set n
  pack_delta w (Delta.pos delta count) = do
    w' ← pack_count w count
    if ltb delta 16 then pack_tag w' Tag.pos (delta % 2 ^ 8) else pack_operand w' Tag.pos_w delta
  pack_delta w (Delta.neg delta count) = do
    w' ← pack_count w count
    if ltb delta 16 then pack_tag w' Tag.neg (delta % 2 ^ 8) else pack_operand w' Tag.neg_w delta
  pack_delta w (Delta.const count) =
      if ltb count 16
      then pack_tag w Tag.const (count % 2 ^ 8)
      else if ltb count 4096 && ltb (count / 2 ^ 8) 16
      then (do
        w' ← pack_tag w Tag.const8 (count / 2 ^ 8 % 2 ^ 8)
        ok (w' ++ write u8 (bit_and count 0xff % 2 ^ 8)))
      else err panicked

  unfoldable pub pack_deltas : Bytes → List Delta → Result VmError Bytes
  pack_deltas w [] = ok w
  pack_deltas w (d ∷ ds) = do w' ← pack_delta w d; pack_deltas w' ds

  unfoldable pub pack_u64s : Bytes → List ℕ → Result VmError Bytes
  pack_u64s w ns = pack_deltas w (to_delta ns)

  unfoldable pub pack_shifted_u64s : Bytes → List ℕ → Result VmError Bytes
  pack_shifted_u64s w ns =
      let len = length ns in
      let (high, low) = unshift_nrs 24 ns in
      if ltb (len / 2 ^ 8) 16
      then (do
        w1 ← pack_tag w Tag.shifted_run (len / 2 ^ 8 % 2 ^ 8)
        w2 ← pack_u64s (w1 ++ write u8 (bit_and len 0xff % 2 ^ 8)) high
        pack_u64s w2 low)
      else err panicked

  unfoldable pub pack_literal : Bytes → Bytes → Result VmError Bytes
  pack_literal w bs =
      let len = length bs in
      if ltb len 16
      then (do w' ← pack_tag w Tag.lit (len % 2 ^ 8); ok (w' ++ bs))
      else (do w' ← pack_operand w Tag.lit_w len; ok (w' ++ bs))
