-- ===== src/Pack/RoundTrip.antt =====
-- `unpack` of src/pack/vm.rs after the three packing functions that its callers use.
use thin_provisioning_tools.Prelude.{
  ℕ, suc, ◌+◌, ◌-◌, ◌*◌, ◌<◌, ◌≤◌, List, [], ◌∷◌, append-nil, length, ok, ◌≡◌, refl, ap, arith, All,
  ==_refl,
}
use thin_provisioning_tools.Bytes.{Bytes, ByteOrder, IsU64}
use thin_provisioning_tools.Pack.DeltaList.{Delta, to_delta, to_delta_loop}
use thin_provisioning_tools.Pack.Encode.{pack_u64s, pack_shifted_u64s, pack_literal}
use thin_provisioning_tools.Pack.Encode.Format.{
  deltas_code, pack_deltas_lem, literal_code, pack_literal_lem,
}
use thin_provisioning_tools.Pack.Machine.{exec_loop, exec, unpack}
use thin_provisioning_tools.Pack.Machine.Steps.{at, u64s, length-u64s}
use thin_provisioning_tools.Pack.Machine.Runs.{
  Runs, deltas_code_pos, literal_code_pos, here, next, Runs-deltas, exec_loop-Runs, instr_literal,
}
use thin_provisioning_tools.Pack.Shifted.{
  to_delta-fits, shifted_code_long, from_delta_at-to_delta, shifted_code, pack_shifted_u64s_lem,
  instr_shifted,
}

module _ (order : ByteOrder) where
  -- A run that writes `count` bytes is what `unpack` of `count` bytes does.
  unpack-Runs :
      (r out : Bytes) (count b : ℕ) (left : Bytes) (fuel : ℕ)
      → length out ≡ count
      → length r ≡ suc fuel
      → Runs order (suc (suc fuel)) (at 0 0 r []) (at b (0 + count) left out)
      → unpack order r count ≡ ok out
  unfolding unpack exec
  unpack-Runs r out count b left fuel e enough run =
      let looped =
        exec_loop-Runs order (suc (suc fuel)) (suc (suc fuel)) 0 count run (omega arith)
          (omega arith) (omega arith) in
      let same : length r + 1 ≡ suc (suc fuel) = omega arith in
      let written : 0 + count - 0 ≡ count = omega arith in
      rw (same, looped, e, written, ==_refl count)

  unpack_nothing : (r : Bytes) → unpack order r 0 ≡ ok []
  unfolding unpack exec exec_loop
  unpack_nothing [] = refl
  unpack_nothing (b ∷ r) =
      let more : suc (length r) + 1 ≡ suc (suc (length r)) = omega arith in rw more

  unpack_deltas :
      (ns : List ℕ)
      → All IsU64 ns
      → length ns ≤ 4096
      → unpack order (deltas_code order (to_delta ns)) (8 * length ns) ≡ ok (u64s order ns)
  unfolding to_delta
  unpack_deltas [] h l = unfold unpack exec exec_loop deltas_code u64s in refl
  unpack_deltas (n ∷ ns) h l =
      let code = deltas_code order (to_delta (n ∷ ns)) in
      let less = length code - 1 in
      let some_code = deltas_code_pos order (Delta.base n) (to_delta_loop (length ns) n ns) in
      let run = Runs-deltas order less 0 0 (to_delta (n ∷ ns)) [] [] (to_delta-fits (n ∷ ns) h l) in
      let back = rw (append-nil code, from_delta_at-to_delta 0 (n ∷ ns) h) at run in
      unpack-Runs code (u64s order (n ∷ ns)) (8 * length (n ∷ ns)) _ [] less
        (length-u64s order (n ∷ ns)) (omega arith) back

  -- The bytes that `pack_u64s` writes for a list of at most 4096 u64 are unpacked to the eight bytes
  -- of each number.
  pub unpack-pack_u64s :
      (ns : List ℕ)
      → All IsU64 ns
      → length ns ≤ 4096
      → (c : Bytes) × (pack_u64s order [] ns ≡ ok c)
        × (unpack order c (8 * length ns) ≡ ok (u64s order ns))
  unfolding pack_u64s
  unpack-pack_u64s ns h l = (
    deltas_code order (to_delta ns),
    pack_deltas_lem order [] (to_delta ns) (to_delta-fits ns h l),
    unpack_deltas ns h l,
  )

  -- The bytes that `pack_literal` writes for a buffer are unpacked to that buffer.
  pub unpack-pack_literal :
      (bs : Bytes)
      → IsU64 (length bs)
      → (c : Bytes) × (pack_literal order [] bs ≡ ok c) × (unpack order c (length bs) ≡ ok bs)
  unpack-pack_literal [] h =
      (literal_code order [], pack_literal_lem order [] [], unpack_nothing (literal_code order []))
  unpack-pack_literal (b ∷ bs) h =
      let code = literal_code order (b ∷ bs) in
      let less = length code - 1 in
      let some_code = literal_code_pos order (b ∷ bs) in
      let step = instr_literal order (suc less) 0 0 (b ∷ bs) [] [] h in
      let back = rw (append-nil code) at step in
      (
        code,
        pack_literal_lem order [] (b ∷ bs),
        unpack-Runs code (b ∷ bs) (length (b ∷ bs)) 0 [] less refl (omega arith)
            (next back (omega arith) (omega arith) here),
      )

  -- The bytes that `pack_shifted_u64s` writes for a list of fewer than 4096 u64 are unpacked to the
  -- eight bytes of each number.
  pub unpack-pack_shifted_u64s :
      (ns : List ℕ)
      → All IsU64 ns
      → length ns < 4096
      → (c : Bytes) × (pack_shifted_u64s order [] ns ≡ ok c)
        × (unpack order c (8 * length ns) ≡ ok (u64s order ns))
  unpack-pack_shifted_u64s [] h l = (
    shifted_code order [],
    pack_shifted_u64s_lem order [] [] h l,
    unfold u64s in unpack_nothing (shifted_code order []),
  )
  unpack-pack_shifted_u64s (n ∷ ns) h l =
      let code = shifted_code order (n ∷ ns) in
      let less = length code - 2 in
      let long = shifted_code_long order (n ∷ ns) in
      let (b', step) =
        instr_shifted order less 0 0 (n ∷ ns) [] [] h l
          (omega (arith, ap (length {A = ℕ}) (append-nil code))) in
      let back = rw (append-nil code) at step in
      (
        code,
        pack_shifted_u64s_lem order [] (n ∷ ns) h l,
        unpack-Runs code (u64s order (n ∷ ns)) (8 * length (n ∷ ns)) b' [] (suc less)
            (length-u64s order (n ∷ ns)) (omega arith) (next back (omega arith) (omega arith) here),
      )
