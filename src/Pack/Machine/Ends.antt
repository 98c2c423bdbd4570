-- ===== src/Pack/Machine/Ends.antt =====
-- The fuel of the unpacking machine of src/pack/vm.rs.
use thin_provisioning_tools.Prelude.{
  ℕ, zero, suc, ap, ◌+◌, ◌/◌, ◌*◌, ◌^◌, ◌≤◌, ◌<◌, ◌≢◌, List, Option, none, some, ◌==◌,
  if◌then◌else◌, Result, ok, err, ◌>>=◌, length, Bool-cases, inl, inr, arith, bit_or, bit_and, ◌&&◌,
}
use thin_provisioning_tools.Bytes.{Bytes, u8, ByteOrder}
use thin_provisioning_tools.Pack.Tag.{Tag, VmError, panicked, stuck, from_u8}
use thin_provisioning_tools.Pack.Machine.{
  run_kind, Machine, new, read_exact, read_uint, unpack_with_width, emit_steps, emit_bytes,
  exec_loop, exec_u64s, run_tag, unpack_instr, exec, unpack,
}
use thin_provisioning_tools.Pack.Machine.Consumes.{
  Consumes, Consumes-bind, Consumes-le, after, input, read_exact-Consumes, Consumes-if,
  panicked-ne-stuck, read_uint-Consumes, unpack_with_width-Consumes, emit_steps-input,
  emit_shifted-input, exec_loop-Consumes, exec_u64s-Consumes,
}

module _ (order : ByteOrder) where
  module _ (instr : Machine → ℕ → Result VmError Machine)
      (exec : ℕ → ℕ → Machine → Result VmError Machine) (n : ℕ)
      (instr_ends : (m : Machine) (c : ℕ) → length m.input ≤ n → Consumes input (suc n) (instr m c))
      (exec_ends : (begin emit : ℕ) (m : Machine)
        → length m.input ≤ n
        → Consumes input (suc (length m.input)) (exec begin emit m)) where
    emits :
        (step : ℕ → ℕ) (count : ℕ) (m : Machine)
        → length m.input ≤ n
        → length (emit_steps order step count m).input < suc n
    emits step count m h = rw (emit_steps-input order step count m) (omega arith)

    run_tag-Consumes :
        (t : Tag) (nibble : ℕ) (m : Machine) (count : ℕ)
        → length m.input ≤ n
        → Consumes input (suc n) (run_tag order instr exec t nibble m count)
    unfolding run_tag emit_bytes
    run_tag-Consumes Tag.set nibble m count h =
        Consumes-bind after input (length m.input) _ (unpack_with_width order m.input nibble) _
          (unpack_with_width-Consumes order m.input nibble)
          (λ a l. emits _ count (record m { base = a.0; input = a.1 }) (omega arith))
    run_tag-Consumes Tag.pos nibble m count h = emits _ count m h
    run_tag-Consumes Tag.pos_w nibble m count h =
        Consumes-bind after input (length m.input) _ (unpack_with_width order m.input nibble) _
          (unpack_with_width-Consumes order m.input nibble)
          (λ a l. emits _ count (record m { input = a.1 }) (omega arith))
    run_tag-Consumes Tag.neg nibble m count h = emits _ count m h
    run_tag-Consumes Tag.neg_w nibble m count h =
        Consumes-bind after input (length m.input) _ (unpack_with_width order m.input nibble) _
          (unpack_with_width-Consumes order m.input nibble)
          (λ a l. emits _ count (record m { input = a.1 }) (omega arith))
    run_tag-Consumes Tag.const nibble m count h =
        Consumes-if input (suc n) (count == 1) _ _ (emits _ nibble m h) panicked-ne-stuck
    run_tag-Consumes Tag.const8 nibble m count h =
        Consumes-if input (suc n) (count == 1) _ _
          (Consumes-bind after input (length m.input) _ (read_uint order u8 m.input) _
            (read_uint-Consumes order u8 m.input)
            (λ a l. emits _ (bit_or (nibble * 2 ^ 8) a.0) (record m { input = a.1 }) (omega arith)))
          panicked-ne-stuck
    run_tag-Consumes Tag.count nibble m count h = instr_ends m nibble h
    run_tag-Consumes Tag.count8 nibble m count h =
        Consumes-bind after input (length m.input) _ (read_uint order u8 m.input) _
          (read_uint-Consumes order u8 m.input)
          (λ a l. instr_ends (record m { input = a.1 }) _ (omega arith))
    run_tag-Consumes Tag.lit nibble m count h =
        Consumes-if input (suc n) (count == 1) _ _
          (Consumes-bind after input (suc (length m.input)) _ (read_exact nibble m.input) _
            (read_exact-Consumes nibble m.input) (λ a l. omega arith))
          panicked-ne-stuck
    run_tag-Consumes Tag.lit_w nibble m count h =
        Consumes-if input (suc n) (count == 1) _ _
          (Consumes-bind after input (length m.input) _ (unpack_with_width order m.input nibble) _
            (unpack_with_width-Consumes order m.input nibble)
            (λ a l.
              Consumes-bind after input (suc (length a.1)) _ (read_exact a.0 a.1) _
                (read_exact-Consumes a.0 a.1) (λ b l'. omega arith)))
          panicked-ne-stuck
    run_tag-Consumes Tag.shifted_run nibble m count h =
        Consumes-bind after input (length m.input) _ (read_uint order u8 m.input) _
          (read_uint-Consumes order u8 m.input)
          (λ a l.
            let m0 : Machine = record m { input = a.1 } in
            Consumes-bind {A = List ℕ × Machine} (λ p. p.1.input) input (suc (length a.1)) _
              (exec_u64s order exec (bit_or (nibble * 2 ^ 8) a.0) m0) _
              (exec_u64s-Consumes order exec _ m0
                (λ begin emit m' g. exec_ends begin emit m' (omega arith)))
              (λ b l'.
                Consumes-bind {A = List ℕ × Machine} (λ p. p.1.input) input (suc (length b.1.input))
                  _ (exec_u64s order exec (bit_or (nibble * 2 ^ 8) a.0) b.1) _
                  (exec_u64s-Consumes order exec _ b.1
                    (λ begin emit m' g. exec_ends begin emit m' (omega arith)))
                  (λ c l''. rw (emit_shifted-input order b.0 c.0 c.1) (omega arith))))

    run_kind-Consumes :
        (t : Option Tag) (nibble : ℕ) (m : Machine) (count : ℕ)
        → length m.input ≤ n
        → Consumes input (suc n) (run_kind order instr exec t nibble m count)
    unfolding run_kind
    run_kind-Consumes none nibble m count h = panicked-ne-stuck
    run_kind-Consumes (some t) nibble m count h = run_tag-Consumes t nibble m count h

  unpack_instr-Consumes :
      (fuel : ℕ) (m : Machine) (count : ℕ)
      → length m.input < fuel
      → Consumes input (length m.input) (unpack_instr order fuel m count)
  unfolding unpack_instr
  unpack_instr-Consumes zero m count h = absurd (omega arith)
  unpack_instr-Consumes (suc fuel) m count h =
      Consumes-bind after input (length m.input) _ (read_uint order u8 m.input) _
        (read_uint-Consumes order u8 m.input)
        (λ a l. Consumes-le input (suc (length a.1)) _ _ (omega arith) (
          run_kind-Consumes (unpack_instr order fuel)
            (exec_loop order (λ m'. unpack_instr order fuel m' 1) fuel) (length a.1)
            (λ m' c g.
              Consumes-le input _ _ _ (omega arith) (unpack_instr-Consumes fuel m' c (omega arith)))
            (λ begin emit m' g.
              exec_loop-Consumes order (λ m''. unpack_instr order fuel m'' 1) fuel
                (λ m'' g'. unpack_instr-Consumes fuel m'' 1 g') fuel begin emit m' (omega arith)
                (omega arith))
            (from_u8 (a.0 / 2 ^ 4)) (bit_and a.0 0xf) (record m { input = a.1 }) count
            (omega arith)))

  exec-Consumes :
      (fuel : ℕ) (m : Machine) (emit : ℕ)
      → length m.input < fuel
      → Consumes {A = ℕ × Machine} (λ p. p.1.input) (suc (length m.input)) (exec order fuel m emit)
  unfolding exec
  exec-Consumes fuel m emit h =
      Consumes-bind input _ (suc (length m.input)) _
        (exec_loop order (λ m'. unpack_instr order fuel m' 1) fuel m.bytes_written emit m) _
        (exec_loop-Consumes order _ fuel (λ m' g. unpack_instr-Consumes fuel m' 1 g) fuel
          m.bytes_written emit m h (omega arith))
        (λ m' g. g)

  Consumes-ne-stuck :
      {A : Type 0} (rest : A → Bytes) (n : ℕ) (r : Result VmError A)
      → Consumes rest n r
      → r ≢ err stuck
  Consumes-ne-stuck rest n (ok a) h e = cc
  Consumes-ne-stuck rest n (err x) h e = h (ap (λ q. elim q [ ok _ ↦ x | err y ↦ y ]) e)

  -- On any input and for any count, `unpack` ends with bytes, with the reader's error or with a
  -- panic: the fuel that the model gives it, one more than the length of the input, never runs out.
  pub unpack-ne-stuck : (r : Bytes) (count : ℕ) → unpack order r count ≢ err stuck
  unfolding unpack
  unpack-ne-stuck r count =
      ends (exec order (length r + 1) (new r) count) (exec-Consumes _ (new r) count (omega arith))
    where
      ends :
          (e : Result VmError (ℕ × Machine))
          → Consumes {A = ℕ × Machine} (λ p. p.1.input) (suc (length r)) e
          → (e >>= λ p.
              if (length p.1.output == count) && (p.0 == count)
              then ok p.1.output
              else err panicked)
            ≢ err stuck
      ends (ok (written, m)) h =
          elim (Bool-cases ((length m.output == count) && (written == count))) [
            | inl same ↦ rw same (λ e. cc)
            | inr differ ↦ rw differ (λ e. cc)
          ]
      ends (err x) h = Consumes-ne-stuck {A = Bytes} (λ b. b) 0 (err x) h
