-- ===== src/Pack/Machine/Runs.antt =====
-- Runs of instructions: what the loop of `exec` does on packed deltas and literals.
use thin_provisioning_tools.Prelude.{
  ℕ, zero, suc, ◌+◌, ◌*◌, ◌/◌, ◌%◌, ◌<◌, ◌≤◌, List, [], ◌∷◌, ◌++◌, append_assoc, append-nil, length,
  ok, ◌≡◌, refl, ap, sym, ◌∙◌, arith, All, length-append,
}
use thin_provisioning_tools.Prelude.Bits.{bit_or-shifted}
use thin_provisioning_tools.Bytes.{Bytes, ByteOrder, u64, size, IsU64, wrapping_add, wrapping_sub}
use thin_provisioning_tools.Pack.DeltaList.{
  Delta, steps, last_step, values, next_base, from_delta_at,
}
use thin_provisioning_tools.Pack.DeltaList.RoundTrip.{IsPackable}
use thin_provisioning_tools.Pack.Tag.{Tag}
use thin_provisioning_tools.Pack.Encode.Format.{
  width_of, operand_code, count_code, step_code, const_code, delta_code, deltas_code, literal_code,
}
use thin_provisioning_tools.Pack.Machine.{
  Machine, read_exact, emit_steps, emit_bytes, run_tag, unpack_instr, exec_loop,
}
use thin_provisioning_tools.Pack.Machine.Steps.{
  at, size-lt, u64s, emit_steps_lem, read_byte, read_operand, instr_tag, instr_pos, instr_neg,
}

length-steps : (step : ℕ → ℕ) (count b : ℕ) → length (steps step count b) ≡ count
unfolding steps
length-steps step zero b = refl
length-steps step (suc count) b = ap suc (length-steps step count (step b))

set_steps : (x : ℕ) → (steps (λ b. b) 1 x ≡ x ∷ []) × (last_step (λ b. b) 1 x ≡ x)
unfolding steps last_step
set_steps x = (refl, refl)

module _ (order : ByteOrder) where
  open order use {write}

  -- A count prefix makes the instruction behind it run that many times.
  instr_count :
      (fuel count b n : ℕ) (code rest o : Bytes) (m : Machine)
      → 1 ≤ count
      → count ≤ 4095
      → ((f : ℕ) → unpack_instr order (suc f) (at b n (code ++ rest) o) count ≡ ok m)
      → unpack_instr order (suc (suc fuel)) (at b n ((count_code order count ++ code) ++ rest) o) 1
        ≡ ok m
  unfolding count_code run_tag
  instr_count fuel count b n code rest o m lo hi h = ground (
    arith,
    h fuel,
    h (suc fuel),
    instr_tag order (suc fuel) Tag.count count b n (code ++ rest) o 1,
    instr_tag order (suc fuel) Tag.count8 (count / 256) b n (count % 256 ∷ code ++ rest) o 1,
    read_byte order (count % 256) (code ++ rest) (omega arith),
    bit_or-shifted 8 (count / 256) (count % 256) (omega arith),
  )

  emit_steps-length :
      (step : ℕ → ℕ) (count b n : ℕ) (rest o : Bytes)
      → emit_steps order step count (at b n rest o)
        ≡ at
            (last_step step count b)
            (n + 8 * length (steps step count b))
            rest
            (o ++ u64s order (steps step count b))
  emit_steps-length step count b n rest o =
      rw (length-steps step count b) (emit_steps_lem order step count b n rest o)

  emitted : ℕ → ℕ → Bytes → Bytes → Delta → Machine
  emitted b n rest o d =
      at (next_base b d) (n + 8 * length (values b d)) rest (o ++ u64s order (values b d))

  -- The code of one delta runs as one instruction, which writes the values of the delta.
  instr_delta :
      (fuel b n : ℕ) (d : Delta) (rest o : Bytes)
      → IsPackable 4095 d
      → unpack_instr order (suc (suc fuel)) (at b n (delta_code order d ++ rest) o) 1
        ≡ ok (emitted b n rest o d)
  unfolding emitted delta_code const_code operand_code values next_base run_tag
  instr_delta fuel b n (Delta.base x) rest o h = ground (
    arith,
    instr_tag order (suc fuel) Tag.set (size (width_of x)) b n (write (width_of x) x ++ rest) o 1
        (size-lt _),
    read_operand order x rest h,
    emit_steps_lem order (λ b. b) 1 x n rest o,
    set_steps x,
  )
  instr_delta fuel b n (Delta.pos delta count) rest o h =
      instr_count fuel count b n _ rest o _ h.1 h.2 (λ f.
        instr_pos order f delta b n rest o count h.0
        ∙ ap ok (emit_steps-length (λ x. wrapping_add x delta) count b n rest o))
  instr_delta fuel b n (Delta.neg delta count) rest o h =
      instr_count fuel count b n _ rest o _ h.1 h.2 (λ f.
        instr_neg order f delta b n rest o count h.0
        ∙ ap ok (emit_steps-length (λ x. wrapping_sub x delta) count b n rest o))
  instr_delta fuel b n (Delta.const count) rest o h = ground (
    arith,
    instr_tag order (suc fuel) Tag.const count b n rest o 1,
    instr_tag order (suc fuel) Tag.const8 (count / 256) b n (count % 256 ∷ rest) o 1,
    read_byte order (count % 256) rest (omega arith),
    bit_or-shifted 8 (count / 256) (count % 256) (omega arith),
    emit_steps_lem order (λ x. x) count b n rest o,
    length-steps (λ x. x) count b,
  )

  -- A delta that is packed emits at least one number.
  values_pos : (b : ℕ) (d : Delta) → IsPackable 4095 d → 0 < length (values b d)
  unfolding values
  values_pos b (Delta.base n) h = omega arith
  values_pos b (Delta.const count) h = omega (arith, length-steps (λ x. x) count b)
  values_pos b (Delta.pos delta count) h =
      omega (arith, length-steps (λ x. wrapping_add x delta) count b)
  values_pos b (Delta.neg delta count) h =
      omega (arith, length-steps (λ x. wrapping_sub x delta) count b)

  step_code_pos : (short long : Tag) (delta : ℕ) → 0 < length (step_code order short long delta)
  unfolding step_code operand_code
  step_code_pos short long delta = ground arith

  delta_code_pos : (d : Delta) → 0 < length (delta_code order d)
  unfolding delta_code operand_code const_code
  delta_code_pos (Delta.base n) = omega arith
  delta_code_pos (Delta.const count) = ground arith
  delta_code_pos (Delta.pos delta count) =
      rw (length-append (count_code order count))
        (omega (arith, step_code_pos Tag.pos Tag.pos_w delta))
  delta_code_pos (Delta.neg delta count) =
      rw (length-append (count_code order count))
        (omega (arith, step_code_pos Tag.neg Tag.neg_w delta))

  pub deltas_code_pos : (d : Delta) (ds : List Delta) → 0 < length (deltas_code order (d ∷ ds))
  unfolding deltas_code
  deltas_code_pos d ds =
      omega (arith, length-append (delta_code order d) (deltas_code order ds), delta_code_pos d)

  pub literal_code_pos : (bs : Bytes) → 0 < length (literal_code order bs)
  unfolding literal_code operand_code
  literal_code_pos bs = ground arith

  -- From `m` the loop of `exec` comes to `m'`: every instruction reads and writes something.
  pub data Runs (fuel : ℕ) : Machine → Machine → Type 0 where
    here : {m : Machine} → Runs fuel m m
    next :
        {m m1 m' : Machine}
        → unpack_instr order fuel m 1 ≡ ok m1
        → m.bytes_written < m1.bytes_written
        → length m1.input < length m.input
        → Runs fuel m1 m'
        → Runs fuel m m'

  pub Runs-trans :
      {fuel : ℕ} {m m1 m' : Machine} → Runs fuel m m1 → Runs fuel m1 m' → Runs fuel m m'
  Runs-trans here s = s
  Runs-trans (next e w r k) s = next e w r (Runs-trans k s)

  Runs-grows : {fuel : ℕ} {m m' : Machine} → Runs fuel m m' → m.bytes_written ≤ m'.bytes_written
  Runs-grows here = omega arith
  Runs-grows (next e w r k) = omega (arith, Runs-grows k)

  pub exec_loop-Runs :
      (fuel : ℕ) {m m' : Machine} (f begin emit : ℕ)
      → Runs fuel m m'
      → begin ≤ m.bytes_written
      → m'.bytes_written ≡ begin + emit
      → length m.input ≤ f
      → exec_loop order (λ x. unpack_instr order fuel x 1) f begin emit m ≡ ok m'
  unfolding exec_loop
  exec_loop-Runs fuel {m} zero begin emit here hb hw hl = ground arith
  exec_loop-Runs fuel {m} (suc f) begin emit here hb hw hl = ground arith
  exec_loop-Runs fuel zero begin emit (next e w r k) hb hw hl = absurd (omega arith)
  exec_loop-Runs fuel {m} {m'} (suc f) begin emit (next {m1 = m1} e w r k) hb hw hl = ground (
    arith,
    Runs-grows k,
    e,
    exec_loop-Runs fuel {m = m1} {m' = m'} f begin emit k (omega arith) hw (omega arith),
  )

  pub last_base : ℕ → List Delta → ℕ
  last_base b [] = b
  last_base b (d ∷ ds) = last_base (next_base b d) ds

  u64s-append : (xs ys : List ℕ) → u64s order (xs ++ ys) ≡ u64s order xs ++ u64s order ys
  unfolding u64s
  u64s-append [] ys = refl
  u64s-append (x ∷ xs) ys = rw (u64s-append xs ys) (sym (append_assoc (write u64 x) _ _))

  pub Runs-deltas :
      (fuel b n : ℕ) (ds : List Delta) (rest o : Bytes)
      → All (IsPackable 4095) ds
      → Runs (suc (suc fuel)) (at b n (deltas_code order ds ++ rest) o) (
          at
            (last_base b ds)
            (n + 8 * length (from_delta_at b ds))
            rest
            (o ++ u64s order (from_delta_at b ds)))
  unfolding deltas_code last_base from_delta_at u64s emitted
  Runs-deltas fuel b n [] rest o h =
      let done : n + 0 ≡ n = omega arith in rw (done, append-nil o) here
  Runs-deltas fuel b n (d ∷ ds) rest o h =
      let later = from_delta_at (next_base b d) ds in
      let behind = deltas_code order ds ++ rest in
      let run =
        Runs-deltas fuel (next_base b d) (n + 8 * length (values b d)) ds rest
          (o ++ u64s order (values b d)) h.1 in
      let total : n + 8 * length (values b d) + 8 * length later
          ≡ n + 8 * length (values b d ++ later) =
        omega (arith, length-append (values b d) later) in
      rw
        (
          append_assoc (delta_code order d),
          u64s-append (values b d) later,
          ← append_assoc o,
          ← total,
        )
        (next (instr_delta fuel b n d behind o h.0) (omega (arith, values_pos b d h.0))
          (omega (arith, length-append (delta_code order d) behind, delta_code_pos d)) run)

  read_exact-append : (bs rest : Bytes) → read_exact (length bs) (bs ++ rest) ≡ ok (bs, rest)
  unfolding read_exact
  read_exact-append [] rest = refl
  read_exact-append (b ∷ bs) rest = rw (read_exact-append bs rest)

  pub instr_literal :
      (fuel b n : ℕ) (bs rest o : Bytes)
      → IsU64 (length bs)
      → unpack_instr order (suc fuel) (at b n (literal_code order bs ++ rest) o) 1
        ≡ ok (at b (n + length bs) rest (o ++ bs))
  unfolding literal_code run_tag operand_code emit_bytes
  instr_literal fuel b n bs rest o h = ground (
    arith,
    instr_tag order fuel Tag.lit (length bs) b n (bs ++ rest) o 1,
    instr_tag order fuel Tag.lit_w (size (width_of (length bs))) b n
        (write (width_of (length bs)) (length bs) ++ bs ++ rest) o 1 (size-lt _),
    append_assoc (write (width_of (length bs)) (length bs)) bs rest,
    read_operand order (length bs) (bs ++ rest) h,
    read_exact-append bs rest,
  )
