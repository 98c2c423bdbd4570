-- ===== src/Pack/Machine/Consumes.antt =====
-- How the readers of src/pack/vm.rs use their input.
use thin_provisioning_tools.Prelude.{
  ℕ, zero, suc, ◌-◌, ◌*◌, ◌≤◌, ◌<◌, ◌≡◌, ◌≢◌, refl, List, [], ◌∷◌, Option, none, some, Bool, true,
  false, ltb, ◌==◌, if◌then◌else◌, Result, ok, err, ◌>>=◌, length, Bool-cases, inl, inr, arith,
}
use thin_provisioning_tools.Bytes.{Bytes, Width, u8, u16, u32, u64, size, ByteOrder}
use thin_provisioning_tools.Pack.Tag.{VmError, panicked, stuck}
use thin_provisioning_tools.Pack.Machine.{
  Machine, read_exact, read_uint, unpack_with_width, unpack_u64s, emit_steps, emit_shifted,
  emit_base, emit_u64, exec_loop, exec_u64s, exec,
}

-- A result that is not `stuck` and, where it is a value, leaves fewer than `n` bytes of input.
abbrev pub Consumes : {A : Type 0} → (A → Bytes) → ℕ → Result VmError A → Type 0
Consumes rest n (ok a) = length (rest a) < n
Consumes rest n (err e) = e ≢ stuck

pub Consumes-bind :
    {A B : Type 0} (rest : A → Bytes) (rest' : B → Bytes) (n k : ℕ) (r : Result VmError A)
    (f : A → Result VmError B)
    → Consumes rest n r
    → ((a : A) → length (rest a) < n → Consumes rest' k (f a))
    → Consumes rest' k (r >>= f)
Consumes-bind rest rest' n k (ok a) f h step = step a h
Consumes-bind rest rest' n k (err e) f h step = h

pub Consumes-le :
    {A : Type 0} (rest : A → Bytes) (n k : ℕ) (r : Result VmError A)
    → n ≤ k
    → Consumes rest n r
    → Consumes rest k r
Consumes-le rest n k (ok a) le h = omega arith
Consumes-le rest n k (err e) le h = h

-- What a reader of a value leaves.
abbrev pub after {ℓ} : {A : Type ℓ} → A × Bytes → Bytes
after p = p.1

abbrev pub input : Machine → Bytes
input m = m.input

pub read_exact-Consumes : (n : ℕ) (r : Bytes) → Consumes after (suc (length r)) (read_exact n r)
unfolding read_exact
read_exact-Consumes zero r = omega arith
read_exact-Consumes (suc n) [] = λ e. cc
read_exact-Consumes (suc n) (b ∷ r) =
    Consumes-bind after after (suc (length r)) _ (read_exact n r) _ (read_exact-Consumes n r)
      (λ a h. omega arith)

pub Consumes-if :
    {A : Type 0} (rest : A → Bytes) (n : ℕ) (b : Bool) (r r' : Result VmError A)
    → Consumes rest n r
    → Consumes rest n r'
    → Consumes rest n (if b then r else r')
Consumes-if rest n true r r' h h' = h
Consumes-if rest n false r r' h h' = h'

pub panicked-ne-stuck : panicked ≢ stuck
panicked-ne-stuck e = cc

pub size_pos : (w : Width) → 1 ≤ size w
size_pos u8 = omega arith
size_pos u16 = omega arith
size_pos u32 = omega arith
size_pos u64 = omega arith

module _ (order : ByteOrder) where
  pub read_uint-Consumes : (w : Width) (r : Bytes) → Consumes after (length r) (read_uint order w r)
  unfolding read_uint
  read_uint-Consumes w r = go (order.read w r) refl
    where
      go :
          (o : Option (ℕ × Bytes))
          → order.read w r ≡ o
          → Consumes after (length r) (read_uint order w r)
      go none e = rw (e, read_uint) (λ f. cc)
      go (some (n, r')) e =
          rw (e, read_uint) (omega (arith, order.read_length w r n r' e, size_pos w))

  pub unpack_with_width-Consumes :
      (r : Bytes) (nibble : ℕ) → Consumes after (length r) (unpack_with_width order r nibble)
  unfolding unpack_with_width
  unpack_with_width-Consumes r nibble =
      Consumes-if after (length r) (nibble == 1) _ _ (read_uint-Consumes u8 r) (
        Consumes-if after (length r) (nibble == 2) _ _ (read_uint-Consumes u16 r) (
          Consumes-if after (length r) (nibble == 4) _ _ (read_uint-Consumes u32 r) (
            Consumes-if after (length r) (nibble == 8) _ _ (read_uint-Consumes u64 r)
              panicked-ne-stuck)))

  pub unpack_u64s-Consumes :
      (r : Bytes) (count : ℕ) → Consumes after (suc (length r)) (unpack_u64s order r count)
  unfolding unpack_u64s
  unpack_u64s-Consumes r zero = omega arith
  unpack_u64s-Consumes r (suc count) =
      Consumes-bind after after (length r) _ (read_uint order u64 r) _ (read_uint-Consumes u64 r)
        (λ a h.
          Consumes-bind after after (suc (length a.1)) _ (unpack_u64s order a.1 count) _
            (unpack_u64s-Consumes a.1 count) (λ b h'. omega arith))

  pub emit_steps-input :
      (step : ℕ → ℕ) (count : ℕ) (m : Machine) → (emit_steps order step count m).input ≡ m.input
  unfolding emit_steps emit_base emit_u64
  emit_steps-input step zero m = refl
  emit_steps-input step (suc count) m = emit_steps-input step count _

  pub emit_shifted-input :
      (high low : List ℕ) (m : Machine) → (emit_shifted order high low m).input ≡ m.input
  unfolding emit_shifted emit_u64
  emit_shifted-input [] low m = refl
  emit_shifted-input (h ∷ hs) [] m = refl
  emit_shifted-input (h ∷ hs) (l ∷ ls) m = emit_shifted-input hs ls _

  -- The loop of `exec`: every round takes input, so the fuel lasts as long as the input.
  pub exec_loop-Consumes :
      (instr : Machine → Result VmError Machine) (k : ℕ)
      → ((m : Machine) → length m.input < k → Consumes input (length m.input) (instr m))
      → (fuel begin emit : ℕ) (m : Machine) → length m.input < fuel
      → fuel ≤ k
      → Consumes input (suc (length m.input)) (exec_loop order instr fuel begin emit m)
  unfolding exec_loop
  exec_loop-Consumes instr k hi zero begin emit m h le = absurd (omega arith)
  exec_loop-Consumes instr k hi (suc fuel) begin emit m h le =
      elim (Bool-cases (ltb (m.bytes_written - begin) emit)) [
        | inl more ↦
            rw (more, exec_loop)
              (Consumes-bind input input (length m.input) _ (instr m) _ (hi m (omega arith))
                (λ m' h'.
                  Consumes-le input _ _ _ (omega arith)
                    (exec_loop-Consumes instr k hi fuel begin emit m' (omega arith) (omega arith))))
        | inr done ↦ rw (done, exec_loop) (omega arith)
      ]

  -- A nested run leaves the outer input where it ended.
  pub exec_u64s-Consumes :
      (exec : ℕ → ℕ → Machine → Result VmError Machine) (len : ℕ) (m : Machine)
      → ((begin emit : ℕ) (m' : Machine)
          → length m'.input ≤ length m.input
          → Consumes input (suc (length m'.input)) (exec begin emit m'))
      → Consumes {A = List ℕ × Machine}
          (λ p. p.1.input)
          (suc (length m.input))
          (exec_u64s order exec len m)
  unfolding exec_u64s
  exec_u64s-Consumes exec len m h =
      Consumes-bind input _ (suc (length m.input)) _
        (exec m.bytes_written (len * 8) (record m { output = [] })) _
        (h m.bytes_written (len * 8) (record m { output = [] }) (omega arith))
        (λ m' h'.
          Consumes-bind after _ (suc (length m'.output)) _ (unpack_u64s order m'.output len) _
            (unpack_u64s-Consumes m'.output len) (λ a h''. h'))
