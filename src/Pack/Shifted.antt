-- ===== src/Pack/Shifted.antt =====
-- The `ShiftedRun` instruction: the high and the low parts of u64 values, packed apart.
use thin_provisioning_tools.Prelude.{
  ℕ, suc, ◌+◌, ◌-◌, ◌*◌, ◌/◌, ◌%◌, ◌^◌, ◌<◌, ◌≤◌, bit_and, bit_or, List, [], ◌∷◌, ◌++◌,
  append_assoc, append-nil, length, ok, ◌≡◌, refl, ap, ◌∙◌, arith, All, length-append,
}
use thin_provisioning_tools.Prelude.Bits.{bit_or-shifted, bit_and-low_mask}
use thin_provisioning_tools.Bytes.{Bytes, ByteOrder, u64, IsU64}
use thin_provisioning_tools.Pack.DeltaList.{Delta, to_delta, from_delta_at, from_delta}
use thin_provisioning_tools.Pack.DeltaList.RoundTrip.{
  IsPackable, from_delta-to_delta, to_delta-IsPackable,
}
use thin_provisioning_tools.Pack.Tag.{Tag}
use thin_provisioning_tools.Pack.Encode.{unshift_nrs, pack_u64s, pack_shifted_u64s}
use thin_provisioning_tools.Pack.Encode.Format.{
  tag_byte, deltas_code, pack_tag_lem, pack_deltas_lem,
}
use thin_provisioning_tools.Pack.Machine.{
  unpack_u64s, exec_loop, exec_u64s, emit_shifted, emit_u64, run_tag, unpack_instr,
}
use thin_provisioning_tools.Pack.Machine.Steps.{at, u64s, read_byte, read_uint-write, instr_tag}
use thin_provisioning_tools.Pack.Machine.Runs.{Runs-deltas, last_base, exec_loop-Runs}

-- The counts of a list of at most 4096 numbers fit the twelve bits of an instruction.
pub to_delta-fits :
    (ns : List ℕ) → All IsU64 ns → length ns ≤ 4096 → All (IsPackable 4095) (to_delta ns)
to_delta-fits [] h l = unfold to_delta in tt
to_delta-fits (n ∷ ns) h l = weaken (to_delta (n ∷ ns)) (to_delta-IsPackable n ns h)
  where
    one : (d : Delta) → IsPackable (length ns) d → IsPackable 4095 d
    one (Delta.base x) p = p
    one (Delta.const count) p = (p.0, omega arith)
    one (Delta.pos delta count) p = (p.0, p.1, omega arith)
    one (Delta.neg delta count) p = (p.0, p.1, omega arith)

    weaken : (ds : List Delta) → All (IsPackable (length ns)) ds → All (IsPackable 4095) ds
    weaken [] p = tt
    weaken (d ∷ ds) p = (one d p.0, weaken ds p.1)

-- The first delta sets the base, so the base before it does not matter.
pub from_delta_at-to_delta :
    (b : ℕ) (ns : List ℕ) → All IsU64 ns → from_delta_at b (to_delta ns) ≡ ns
unfolding from_delta to_delta
from_delta_at-to_delta b [] h = refl
from_delta_at-to_delta b (n ∷ ns) h = from_delta-to_delta (n ∷ ns) h

joined :
    (x : ℕ)
    → IsU64 x
    → bit_or (x / 2 ^ 24 * 2 ^ 24 % 2 ^ 64) (bit_and (bit_and x (2 ^ 24 - 1)) (2 ^ 24 - 1)) ≡ x
joined x h = ground (
  arith,
  bit_and-low_mask 24 x,
  bit_and-low_mask 24 (x % 2 ^ 24),
  bit_or-shifted 24 (x / 2 ^ 24) (x % 2 ^ 24) (omega arith),
)

twelve_bits : (n : ℕ) → bit_or (n / 256 * 2 ^ 8) (n % 256) ≡ n
twelve_bits n = bit_or-shifted 8 (n / 256) (n % 256) (omega arith) ∙ omega arith

-- The two lists of `unshift_nrs` have the length of the list, and hold u64.
unshift_nrs_shape :
    (ns : List ℕ)
    → All IsU64 ns
    → (length (unshift_nrs 24 ns).0 ≡ length ns)
      × All IsU64 (unshift_nrs 24 ns).0
      × (length (unshift_nrs 24 ns).1 ≡ length ns)
      × All IsU64 (unshift_nrs 24 ns).1
unfolding unshift_nrs
unshift_nrs_shape [] h = (refl, tt, refl, tt)
unshift_nrs_shape (n ∷ ns) h =
    let (lh, ah, ll, al) = unshift_nrs_shape ns h.1 in
    (ap suc lh, (omega arith, ah), ap suc ll, (omega (arith, bit_and-low_mask 24 n), al))

module _ (order : ByteOrder) where
  unpack_u64s-u64s :
      (ns : List ℕ) (rest : Bytes)
      → All IsU64 ns
      → unpack_u64s order (u64s order ns ++ rest) (length ns) ≡ ok (ns, rest)
  unfolding unpack_u64s u64s
  unpack_u64s-u64s [] rest h = refl
  unpack_u64s-u64s (n ∷ ns) rest h = rw (
    append_assoc (order.write u64 n),
    read_uint-write order u64 n _ h.0,
    unpack_u64s-u64s ns rest h.1,
  )

  -- One packed list read by a nested `exec`, which leaves the writer and the count alone.
  exec_u64s-deltas :
      (fuel b n : ℕ) (ns : List ℕ) (rest o : Bytes)
      → All IsU64 ns
      → length ns ≤ 4096
      → length (deltas_code order (to_delta ns) ++ rest) ≤ suc (suc fuel)
      → exec_u64s order
          (exec_loop order (λ m. unpack_instr order (suc (suc fuel)) m 1) (suc (suc fuel)))
          (length ns)
          (at b n (deltas_code order (to_delta ns) ++ rest) o)
        ≡ ok (ns, at (last_base order b (to_delta ns)) n rest o)
  unfolding exec_u64s
  exec_u64s-deltas fuel b n ns rest o h l fits =
      let run = Runs-deltas order fuel b n (to_delta ns) rest [] (to_delta-fits ns h l) in
      let looped =
        exec_loop-Runs order (suc (suc fuel)) (suc (suc fuel)) n (length ns * 8) run (omega arith)
          (rw (from_delta_at-to_delta b ns h) (omega arith)) fits in
      let back = append-nil (u64s order ns) in
      let same : n + 8 * length ns - (n + 8 * length ns - n) ≡ n = omega arith in
      rw (looped, from_delta_at-to_delta b ns h, ← back) (rw (unpack_u64s-u64s ns [] h, same))

  -- What `emit_shifted` puts together from the two parts of each number.
  emit_shifted-unshift_nrs :
      (ns : List ℕ) (b n : ℕ) (i o : Bytes)
      → All IsU64 ns
      → emit_shifted order (unshift_nrs 24 ns).0 (unshift_nrs 24 ns).1 (at b n i o)
        ≡ at b (n + 8 * length ns) i (o ++ u64s order ns)
  unfolding emit_shifted emit_u64 unshift_nrs u64s
  emit_shifted-unshift_nrs [] b n i o h =
      let done : n + 0 ≡ n = omega arith in rw (done, append-nil o)
  emit_shifted-unshift_nrs (x ∷ ns) b n i o h =
      let total : n + 8 * suc (length ns) ≡ n + 8 + 8 * length ns = omega arith in
      rw (joined x h.0, ← append_assoc o, total)
        (emit_shifted-unshift_nrs ns b (n + 8) i (o ++ order.write u64 x) h.1)

  unfoldable pub shifted_code : List ℕ → Bytes
  shifted_code ns =
      let (high, low) = unshift_nrs 24 ns in
      tag_byte Tag.shifted_run (length ns / 256)
      ∷ length ns % 256
      ∷ (deltas_code order (to_delta high) ++ deltas_code order (to_delta low))

  pub shifted_code_long : (ns : List ℕ) → 2 ≤ length (shifted_code ns)
  unfolding shifted_code
  shifted_code_long ns = omega arith

  pub pack_shifted_u64s_lem :
      (w : Bytes) (ns : List ℕ)
      → All IsU64 ns
      → length ns < 4096
      → pack_shifted_u64s order w ns ≡ ok (w ++ shifted_code ns)
  unfolding pack_shifted_u64s pack_u64s shifted_code
  pack_shifted_u64s_lem w ns h l =
      let (lh, ah, ll, al) = unshift_nrs_shape ns h in
      let high = to_delta (unshift_nrs 24 ns).0 in
      let low = to_delta (unshift_nrs 24 ns).1 in
      let tag : Bytes = tag_byte Tag.shifted_run (length ns / 256) ∷ [] in
      let count : Bytes = length ns % 256 ∷ [] in
      ground (
        arith,
        pack_tag_lem order w Tag.shifted_run (length ns / 256),
        bit_and-low_mask 8 (length ns),
        order.write_byte (length ns % 256) (omega arith),
        pack_deltas_lem order (w ++ tag ++ count) high (to_delta-fits _ ah (omega (arith, lh))),
        pack_deltas_lem order (w ++ tag ++ count ++ deltas_code order high) low
            (to_delta-fits _ al (omega (arith, ll))),
        append_assoc (w ++ tag ++ count) (deltas_code order high) (deltas_code order low),
        append_assoc (w ++ tag) count (deltas_code order high ++ deltas_code order low),
        append_assoc w tag (length ns % 256 ∷ (deltas_code order high ++ deltas_code order low)),
      )

  -- One `ShiftedRun` instruction writes the numbers that it was made from.
  pub instr_shifted :
      (fuel b n : ℕ) (ns : List ℕ) (rest o : Bytes)
      → All IsU64 ns
      → length ns < 4096
      → length (shifted_code ns ++ rest) ≤ suc (suc (suc fuel))
      → (b' : ℕ) × (unpack_instr order (suc (suc (suc fuel))) (at b n (shifted_code ns ++ rest) o) 1
          ≡ ok (at b' (n + 8 * length ns) rest (o ++ u64s order ns)))
  unfolding shifted_code run_tag
  instr_shifted fuel b n ns rest o h l fits =
      let (lh, ah, ll, al) = unshift_nrs_shape ns h in
      let high = (unshift_nrs 24 ns).0 in
      let low = (unshift_nrs 24 ns).1 in
      let code_high = deltas_code order (to_delta high) in
      let code_low = deltas_code order (to_delta low) in
      let assoc = append_assoc code_high code_low rest in
      let behind : length (code_high ++ (code_low ++ rest)) ≤ suc (suc fuel) =
        omega (arith, ap (length {A = ℕ}) assoc) in
      let b1 = last_base order b (to_delta high) in
      let hi = exec_u64s-deltas fuel b n high (code_low ++ rest) o ah (omega (arith, lh)) behind in
      let lo =
        exec_u64s-deltas fuel b1 n low rest o al (omega (arith, ll))
          (omega (arith, length-append code_high (code_low ++ rest))) in
      (
        last_base order b1 (to_delta low),
        rw
            (
              assoc,
              instr_tag order (suc (suc fuel)) Tag.shifted_run (length ns / 256) b n
                  (length ns % 256 ∷ (code_high ++ (code_low ++ rest))) o 1 (omega arith),
              read_byte order (length ns % 256) (code_high ++ (code_low ++ rest)) (omega arith),
              twelve_bits (length ns),
            )
            (rw (rw lh at hi)
              (rw (rw ll at lo) (ap ok (emit_shifted-unshift_nrs ns _ n rest o h)))),
      )
