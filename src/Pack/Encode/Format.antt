-- ===== src/Pack/Encode/Format.antt =====
-- The packed format: what each function of the packing half appends.
use thin_provisioning_tools.Prelude.{
  ℕ, ◌+◌, ◌*◌, ◌/◌, ◌%◌, ◌<◌, List, [], ◌∷◌, ◌++◌, append_assoc, append-nil, length, ltb, leb, ◌==◌,
  if◌then◌else◌, ok, ◌≡◌, ap, sym, ◌∙◌, arith, All,
}
use thin_provisioning_tools.Prelude.Bits.{bit_or-shifted, bit_and-low_mask}
use thin_provisioning_tools.Bytes.{Bytes, ByteOrder, Width, u8, u16, u32, u64, size, limit, IsU64}
use thin_provisioning_tools.Pack.DeltaList.{Delta}
use thin_provisioning_tools.Pack.DeltaList.RoundTrip.{IsPackable}
use thin_provisioning_tools.Pack.Tag.{Tag, tag_code}
use thin_provisioning_tools.Pack.Encode.{
  pack_tag, pack_count, pack_operand, pack_delta, pack_deltas, pack_literal,
}

-- The byte of an instruction: its tag in the high four bits, a nibble in the low ones.
abbrev pub tag_byte : Tag → ℕ → ℕ
tag_byte t nibble = tag_code t * 16 + nibble

-- The least width that holds a number.
unfoldable pub width_of : ℕ → Width
width_of n =
    if leb n 0xff then u8 else if leb n 0xffff then u16 else if leb n 0xffff_ffff then u32 else u64

pub lt-limit-width_of : (n : ℕ) → IsU64 n → n < limit (width_of n)
unfolding width_of
lt-limit-width_of n h = ground arith

pub tag_code-lt : (t : Tag) → tag_code t < 12
tag_code-lt Tag.set = omega arith
tag_code-lt _ = omega arith

module _ (order : ByteOrder) where
  open order use {write, write_byte}

  unfoldable pub operand_code : Tag → ℕ → Bytes
  operand_code t n = tag_byte t (size (width_of n)) ∷ write (width_of n) n

  unfoldable pub count_code : ℕ → Bytes
  count_code count =
      if count == 1
      then []
      else if ltb count 16
      then tag_byte Tag.count count ∷ []
      else tag_byte Tag.count8 (count / 256) ∷ count % 256 ∷ []

  -- A step: a count, if it is made more than once, and the step in the nibble or in an operand.
  unfoldable pub step_code : Tag → Tag → ℕ → Bytes
  unfolding operand_code
  step_code short long delta =
      if ltb delta 16 then tag_byte short delta ∷ [] else operand_code long delta

  unfoldable pub const_code : ℕ → Bytes
  const_code count =
      if ltb count 16
      then tag_byte Tag.const count ∷ []
      else tag_byte Tag.const8 (count / 256) ∷ count % 256 ∷ []

  unfoldable pub delta_code : Delta → Bytes
  delta_code (Delta.base n) = operand_code Tag.set n
  delta_code (Delta.pos delta count) = count_code count ++ step_code Tag.pos Tag.pos_w delta
  delta_code (Delta.neg delta count) = count_code count ++ step_code Tag.neg Tag.neg_w delta
  delta_code (Delta.const count) = const_code count

  unfoldable pub deltas_code : List Delta → Bytes
  deltas_code [] = []
  deltas_code (d ∷ ds) = delta_code d ++ deltas_code ds

  unfoldable pub literal_code : Bytes → Bytes
  literal_code bs =
      if ltb (length bs) 16
      then tag_byte Tag.lit (length bs) ∷ bs
      else operand_code Tag.lit_w (length bs) ++ bs

  pub pack_tag_lem :
      (w : Bytes) (t : Tag) (nibble : ℕ)
      → nibble < 16
      → pack_tag order w t nibble ≡ ok (w ++ tag_byte t nibble ∷ [])
  unfolding pack_tag
  pack_tag_lem w t nibble h = ground (
    arith,
    tag_code-lt t,
    bit_or-shifted 4 (tag_code t) nibble h,
    write_byte (tag_code t * 16 + nibble),
  )

  pub pack_operand_lem :
      (w : Bytes) (t : Tag) (n : ℕ) → pack_operand order w t n ≡ ok (w ++ operand_code t n)
  unfolding pack_operand operand_code width_of
  pack_operand_lem w t n =
      simp
        (
          pack_tag_lem w t 1 (omega arith),
          pack_tag_lem w t 2 (omega arith),
          pack_tag_lem w t 4 (omega arith),
          pack_tag_lem w t 8 (omega arith),
          append_assoc,
        )
        (ground arith)

  pack_count_lem :
      (w : Bytes) (count : ℕ) → count < 4096 → pack_count order w count ≡ ok (w ++ count_code count)
  unfolding pack_count count_code
  pack_count_lem w count h = ground (
    arith,
    append-nil w,
    pack_tag_lem w Tag.count count,
    pack_tag_lem w Tag.count8 (count / 256),
    bit_and-low_mask 8 count,
    write_byte (count % 256) (omega arith),
    append_assoc w (tag_byte Tag.count8 (count / 256) ∷ []) (count % 256 ∷ []),
  )

  pack_delta_lem :
      (w : Bytes) (d : Delta) → IsPackable 4095 d → pack_delta order w d ≡ ok (w ++ delta_code d)
  unfolding pack_delta delta_code step_code const_code
  pack_delta_lem w (Delta.base n) h = pack_operand_lem w Tag.set n
  pack_delta_lem w (Delta.pos delta count) h = ground (
    arith,
    pack_count_lem w count,
    pack_tag_lem (w ++ count_code count) Tag.pos delta,
    pack_operand_lem (w ++ count_code count) Tag.pos_w delta,
    append_assoc w (count_code count) (step_code Tag.pos Tag.pos_w delta),
  )
  pack_delta_lem w (Delta.neg delta count) h = ground (
    arith,
    pack_count_lem w count,
    pack_tag_lem (w ++ count_code count) Tag.neg delta,
    pack_operand_lem (w ++ count_code count) Tag.neg_w delta,
    append_assoc w (count_code count) (step_code Tag.neg Tag.neg_w delta),
  )
  pack_delta_lem w (Delta.const count) h = ground (
    arith,
    pack_tag_lem w Tag.const count,
    pack_tag_lem w Tag.const8 (count / 256),
    bit_and-low_mask 8 count,
    write_byte (count % 256) (omega arith),
    append_assoc w (tag_byte Tag.const8 (count / 256) ∷ []) (count % 256 ∷ []),
  )

  pub pack_deltas_lem :
      (w : Bytes) (ds : List Delta)
      → All (IsPackable 4095) ds
      → pack_deltas order w ds ≡ ok (w ++ deltas_code ds)
  unfolding pack_deltas deltas_code
  pack_deltas_lem w [] h = ap ok (sym (append-nil w))
  pack_deltas_lem w (d ∷ ds) h = rw (pack_delta_lem w d h.0) (
      pack_deltas_lem (w ++ delta_code d) ds h.1
      ∙ ap ok (append_assoc w (delta_code d) (deltas_code ds)))

  pub pack_literal_lem : (w bs : Bytes) → pack_literal order w bs ≡ ok (w ++ literal_code bs)
  unfolding pack_literal literal_code
  pack_literal_lem w bs = ground (
    arith,
    pack_tag_lem w Tag.lit (length bs),
    pack_operand_lem w Tag.lit_w (length bs),
    append_assoc w (tag_byte Tag.lit (length bs) ∷ []) bs,
    append_assoc w (operand_code Tag.lit_w (length bs)) bs,
  )
