-- ===== src/Pack/Machine.antt =====
-- The unpacking half of src/pack/vm.rs: the machine that runs the packed instructions.
pub mod Steps
pub mod Runs
pub mod Consumes
pub mod Ends
use thin_provisioning_tools.Prelude.{
  ℕ, zero, suc, ◌+◌, ◌-◌, ◌*◌, ◌/◌, ◌%◌, ◌^◌, bit_and, bit_or, Bool, true, false, Option, none,
  some, List, [], ◌∷◌, ◌++◌, length, ◌&&◌, ltb, ◌==◌, if◌then◌else◌, Result, ok, err, ◌>>=◌,
}
use thin_provisioning_tools.Bytes.{
  Bytes, ByteOrder, Width, u8, u16, u32, u64, wrapping_add, wrapping_sub,
}
use thin_provisioning_tools.Pack.Tag.{Tag, from_u8, VmError, unexpected_eof, panicked, stuck}

-- `struct VM` with the reader and the writer that its methods are given: what is left of the
-- input, and what has been written.
pub record Machine : Type 0 where
  pub base : ℕ
  pub bytes_written : ℕ
  pub input : Bytes
  pub output : Bytes

-- `VM::new()`
abbrev pub new : Bytes → Machine
new r = record { base = 0; bytes_written = 0; input = r; output = [] }

-- `Read::read_exact` on a slice.
unfoldable pub read_exact : ℕ → Bytes → Result VmError (Bytes × Bytes)
read_exact zero r = ok ([], r)
read_exact (suc n) [] = err unexpected_eof
read_exact (suc n) (b ∷ r) = do (bs, r') ← read_exact n r; ok (b ∷ bs, r')

module _ (order : ByteOrder) where
  open order use {write, read}

  unfoldable pub read_uint : Width → Bytes → Result VmError (ℕ × Bytes)
  read_uint w r = elim (read w r) [ none ↦ err unexpected_eof | some (n, r') ↦ ok (n, r') ]

  unfoldable pub unpack_with_width : Bytes → ℕ → Result VmError (ℕ × Bytes)
  unfolding read_uint
  unpack_with_width r nibble =
      if nibble == 1
      then read_uint u8 r
      else if nibble == 2
      then read_uint u16 r
      else if nibble == 4
      then read_uint u32 r
      else if nibble == 8
      then read_uint u64 r
      else err panicked

  unfoldable pub unpack_u64s : Bytes → ℕ → Result VmError (List ℕ × Bytes)
  unpack_u64s r zero = ok ([], r)
  unpack_u64s r (suc count) = do
    (n, r1) ← read_uint u64 r
    (ns, r2) ← unpack_u64s r1 count
    ok (n ∷ ns, r2)

  unfoldable pub emit_u64 : Machine → ℕ → Machine
  emit_u64 m n = record m { bytes_written = m.bytes_written + 8; output = m.output ++ write u64 n }

  unfoldable pub emit_base : Machine → Machine
  unfolding emit_u64
  emit_base m = emit_u64 m m.base

  unfoldable pub emit_bytes : Machine → Bytes → Machine
  emit_bytes m bs = record m {
    bytes_written = m.bytes_written + length bs;
    output = m.output ++ bs;
  }

  -- `for _ in 0..count { self.base = step(self.base); self.emit_base(w)?; }`
  unfoldable pub emit_steps : (ℕ → ℕ) → ℕ → Machine → Machine
  emit_steps step zero m = m
  emit_steps step (suc count) m =
      emit_steps step count (emit_base (record m { base = step m.base }))

  -- `for i in 0..len { self.emit_u64(w, (high[i] << 24) | (low[i] & mask))?; }`
  unfoldable pub emit_shifted : List ℕ → List ℕ → Machine → Machine
  emit_shifted (h ∷ hs) (l ∷ ls) m =
      emit_shifted hs ls (emit_u64 m (bit_or (h * 2 ^ 24 % 2 ^ 64) (bit_and l (2 ^ 24 - 1))))
  emit_shifted _ _ m = m

  -- The `while` loop of `exec`. The machine's own instruction function is an argument.
  unfoldable pub exec_loop :
      (Machine → Result VmError Machine) → ℕ → ℕ → ℕ → Machine → Result VmError Machine
  exec_loop instr zero begin emit m = if ltb (m.bytes_written - begin) emit then err stuck else ok m
  exec_loop instr (suc fuel) begin emit m = elim (ltb (m.bytes_written - begin) emit) [
    | true ↦ instr m >>= exec_loop instr fuel begin emit
    | false ↦ ok m
  ]

  -- `exec` into a buffer of its own, as `ShiftedRun` calls it: the numbers read from that buffer,
  -- and the machine with its writer and its count of bytes as they were.
  unfoldable pub exec_u64s :
      (ℕ → ℕ → Machine → Result VmError Machine) → ℕ → Machine → Result VmError (List ℕ × Machine)
  exec_u64s exec len m = do
    m' ← exec m.bytes_written (len * 8) (record m { output = [] })
    let written = m'.bytes_written - m.bytes_written
    (ns, _) ← unpack_u64s m'.output len
    ok (ns, record m' { bytes_written = m'.bytes_written - written; output = m.output })

  -- `instr` and `exec` are the calls that an instruction may make in turn.
  unfoldable pub run_tag :
      (Machine → ℕ → Result VmError Machine)
      → (ℕ → ℕ → Machine → Result VmError Machine)
      → Tag
      → ℕ
      → Machine
      → ℕ
      → Result VmError Machine
  run_tag instr exec Tag.set nibble m count = do
    (n, r) ← unpack_with_width m.input nibble
    ok (emit_steps (λ b. b) count (record m { base = n; input = r }))
  run_tag instr exec Tag.pos nibble m count = ok (emit_steps (λ b. wrapping_add b nibble) count m)
  run_tag instr exec Tag.pos_w nibble m count = do
    (delta, r) ← unpack_with_width m.input nibble
    ok (emit_steps (λ b. wrapping_add b delta) count (record m { input = r }))
  run_tag instr exec Tag.neg nibble m count = ok (emit_steps (λ b. wrapping_sub b nibble) count m)
  run_tag instr exec Tag.neg_w nibble m count = do
    (delta, r) ← unpack_with_width m.input nibble
    ok (emit_steps (λ b. wrapping_sub b delta) count (record m { input = r }))
  run_tag instr exec Tag.const nibble m count =
      if count == 1 then ok (emit_steps (λ b. b) nibble m) else err panicked
  run_tag instr exec Tag.const8 nibble m count =
      if count == 1
      then (do
        (byte, r) ← read_uint u8 m.input
        ok (emit_steps (λ b. b) (bit_or (nibble * 2 ^ 8) byte) (record m { input = r })))
      else err panicked
  run_tag instr exec Tag.count nibble m count = instr m nibble
  run_tag instr exec Tag.count8 nibble m count = do
    (byte, r) ← read_uint u8 m.input
    instr (record m { input = r }) (bit_or (nibble * 2 ^ 8) byte)
  run_tag instr exec Tag.lit nibble m count =
      if count == 1
      then (do (bs, r) ← read_exact nibble m.input; ok (emit_bytes (record m { input = r }) bs))
      else err panicked
  run_tag instr exec Tag.lit_w nibble m count =
      if count == 1
      then (do
        (len, r) ← unpack_with_width m.input nibble
        (bs, r') ← read_exact len r
        ok (emit_bytes (record m { input = r' }) bs))
      else err panicked
  run_tag instr exec Tag.shifted_run nibble m count = do
    (byte, r) ← read_uint u8 m.input
    let len = bit_or (nibble * 2 ^ 8) byte
    (high, m1) ← exec_u64s exec len (record m { input = r })
    (low, m2) ← exec_u64s exec len m1
    ok (emit_shifted high low m2)

  run_kind :
      (Machine → ℕ → Result VmError Machine)
      → (ℕ → ℕ → Machine → Result VmError Machine)
      → Option Tag
      → ℕ
      → Machine
      → ℕ
      → Result VmError Machine
  run_kind instr exec none nibble m count = err panicked
  run_kind instr exec (some kind) nibble m count = run_tag instr exec kind nibble m count

  -- Each call, nested ones too, reads a byte first: fuel above the length of the input is enough.
  unfoldable pub unpack_instr : ℕ → Machine → ℕ → Result VmError Machine
  unfolding run_kind
  unpack_instr zero m count = err stuck
  unpack_instr (suc fuel) m count = do
    (b, r) ← read_uint u8 m.input
    run_kind (unpack_instr fuel) (exec_loop (λ m'. unpack_instr fuel m' 1) fuel)
        (from_u8 (b / 2 ^ 4)) (bit_and b 0xf) (record m { input = r }) count

  unfoldable pub exec : ℕ → Machine → ℕ → Result VmError (ℕ × Machine)
  exec fuel m emit = do
    m' ← exec_loop (λ m'. unpack_instr fuel m' 1) fuel m.bytes_written emit m
    ok (m'.bytes_written - m.bytes_written, m')

  -- `pub fn unpack`
  unfoldable pub unpack : Bytes → ℕ → Result VmError Bytes
  unpack r count = do
    (written, m) ← exec (length r + 1) (new r) count
    if (length m.output == count) && (written == count) then ok m.output else err panicked
