-- ===== src/Pack/Machine/Steps.antt =====
-- What single instructions do to the machine.
use thin_provisioning_tools.Prelude.{
  ℕ, zero, suc, ◌+◌, ◌*◌, ◌/◌, ◌<◌, bit_and, List, [], ◌∷◌, ◌++◌, append_assoc, append-nil, length,
  ok, ◌≡◌, refl, ◌∙◌, arith, length-append,
}
use thin_provisioning_tools.Prelude.Bits.{bit_and-low_mask}
use thin_provisioning_tools.Bytes.{
  Bytes, ByteOrder, Width, u8, u16, u32, u64, size, limit, IsU64, wrapping_add, wrapping_sub,
}
use thin_provisioning_tools.Pack.DeltaList.{steps, last_step}
use thin_provisioning_tools.Pack.Tag.{Tag, tag_code, from_u8-tag_code}
use thin_provisioning_tools.Pack.Encode.Format.{
  tag_byte, tag_code-lt, width_of, lt-limit-width_of, step_code,
}
use thin_provisioning_tools.Pack.Machine.{
  Machine, read_uint, unpack_with_width, emit_base, emit_steps, run_tag, unpack_instr, exec_loop,
}

-- The machine by its four parts.
abbrev pub at : ℕ → ℕ → Bytes → Bytes → Machine
at b n i o = record { base = b; bytes_written = n; input = i; output = o }

pub size-lt : (w : Width) → size w < 16
size-lt u8 = omega arith
size-lt _ = omega arith

module _ (order : ByteOrder) where
  open order use {write, read, write_byte, read-write, length-write}

  -- The bytes of a list of u64.
  unfoldable pub u64s : List ℕ → Bytes
  u64s [] = []
  u64s (n ∷ ns) = write u64 n ++ u64s ns

  pub length-u64s : (ns : List ℕ) → length (u64s ns) ≡ 8 * length ns
  unfolding u64s
  length-u64s [] = refl
  length-u64s (n ∷ ns) =
      omega (arith, length-append (write u64 n) (u64s ns), length-write u64 n, length-u64s ns)

  pub emit_steps_lem :
      (step : ℕ → ℕ) (count b n : ℕ) (i o : Bytes)
      → emit_steps order step count (at b n i o)
        ≡ at (last_step step count b) (n + 8 * count) i (o ++ u64s (steps step count b))
  unfolding emit_steps emit_base u64s steps last_step
  emit_steps_lem step zero b n i o = ground (arith, append-nil o)
  emit_steps_lem step (suc count) b n i o = ground (
    arith,
    emit_steps_lem step count (step b) (n + 8) i (o ++ write u64 (step b)),
    append_assoc o (write u64 (step b)) (u64s (steps step count (step b))),
  )

  pub read_byte : (b : ℕ) (rest : Bytes) → b < 256 → read_uint order u8 (b ∷ rest) ≡ ok (b, rest)
  unfolding read_uint
  read_byte b rest h = ground (arith, write_byte b h, read-write u8 b rest h)

  pub read_uint-write :
      (w : Width) (n : ℕ) (rest : Bytes)
      → n < limit w
      → read_uint order w (write w n ++ rest) ≡ ok (n, rest)
  unfolding read_uint
  read_uint-write w n rest h = rw (read-write w n rest h, read_uint)

  pub read_operand :
      (n : ℕ) (rest : Bytes)
      → IsU64 n
      → unpack_with_width order (write (width_of n) n ++ rest) (size (width_of n)) ≡ ok (n, rest)
  read_operand n rest h = by_width (width_of n) (lt-limit-width_of n h)
    where
      by_width :
          (w : Width)
          → n < limit w
          → unpack_with_width order (write w n ++ rest) (size w) ≡ ok (n, rest)
      by_width u8 lt = unfold unpack_with_width in read_uint-write u8 n rest lt
      by_width u16 lt = unfold unpack_with_width in read_uint-write u16 n rest lt
      by_width u32 lt = unfold unpack_with_width in read_uint-write u32 n rest lt
      by_width u64 lt = unfold unpack_with_width in read_uint-write u64 n rest lt

  -- The first byte of an instruction is taken apart into its tag and its nibble.
  pub instr_tag :
      (fuel : ℕ) (t : Tag) (nibble b n : ℕ) (rest o : Bytes) (count : ℕ)
      → nibble < 16
      → unpack_instr order (suc fuel) (at b n (tag_byte t nibble ∷ rest) o) count
        ≡ run_tag order
            (unpack_instr order fuel)
            (exec_loop order (λ m. unpack_instr order fuel m 1) fuel)
            t
            nibble
            (at b n rest o)
            count
  unfolding unpack_instr
  instr_tag fuel t nibble b n rest o count h =
      let lt : tag_byte t nibble < 256 = omega (arith, tag_code-lt t) in
      let high : tag_byte t nibble / 16 ≡ tag_code t = omega arith in
      let low : bit_and (tag_byte t nibble) 0xf ≡ nibble =
        bit_and-low_mask 4 (tag_byte t nibble) ∙ omega arith in
      rw (read_byte (tag_byte t nibble) rest lt, high, low, from_u8-tag_code t)

  -- A step of either sign, in the nibble or in an operand, made `count` times.
  pub instr_pos :
      (fuel delta b n : ℕ) (rest o : Bytes) (count : ℕ)
      → IsU64 delta
      → unpack_instr order
          (suc fuel)
          (at b n (step_code order Tag.pos Tag.pos_w delta ++ rest) o)
          count
        ≡ ok (emit_steps order (λ x. wrapping_add x delta) count (at b n rest o))
  unfolding step_code run_tag
  instr_pos fuel delta b n rest o count h = ground (
    arith,
    instr_tag fuel Tag.pos delta b n rest o count,
    read_operand delta rest h,
    instr_tag fuel Tag.pos_w (size (width_of delta)) b n (write (width_of delta) delta ++ rest) o
        count (size-lt _),
  )

  pub instr_neg :
      (fuel delta b n : ℕ) (rest o : Bytes) (count : ℕ)
      → IsU64 delta
      → unpack_instr order
          (suc fuel)
          (at b n (step_code order Tag.neg Tag.neg_w delta ++ rest) o)
          count
        ≡ ok (emit_steps order (λ x. wrapping_sub x delta) count (at b n rest o))
  unfolding step_code run_tag
  instr_neg fuel delta b n rest o count h = ground (
    arith,
    instr_tag fuel Tag.neg delta b n rest o count,
    read_operand delta rest h,
    instr_tag fuel Tag.neg_w (size (width_of delta)) b n (write (width_of delta) delta ++ rest) o
        count (size-lt _),
  )
