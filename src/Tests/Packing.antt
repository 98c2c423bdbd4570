-- ===== src/Tests/Packing.antt =====
-- The packer and the gap detection on concrete inputs.
use thin_provisioning_tools.Prelude.{
  ℕ, ◌*◌, ◌≤◌, ◌≡◌, refl, List, [], ◌∷◌, some, ok, err, ◌≢◌, length, All, arith,
}
use thin_provisioning_tools.Bytes.{Bytes, IsU64}
use thin_provisioning_tools.Bytes.Instance.{little_endian}
use thin_provisioning_tools.Pack.DeltaList.{to_delta, from_delta}
use thin_provisioning_tools.Pack.DeltaList.RoundTrip.{from_delta-to_delta}
use thin_provisioning_tools.Pack.Encode.{pack_u64s, pack_shifted_u64s, pack_literal}
use thin_provisioning_tools.Pack.Machine.{unpack}
use thin_provisioning_tools.Pack.Machine.Steps.{u64s}
use thin_provisioning_tools.Pack.Machine.Ends.{unpack-ne-stuck}
use thin_provisioning_tools.Pack.Tag.{stuck}
use thin_provisioning_tools.Pack.RoundTrip.{
  unpack-pack_u64s, unpack-pack_shifted_u64s, unpack-pack_literal,
}
use thin_provisioning_tools.IoEngine.Gaps.{
  run, gap, Batches, batch_adjacent, split_batches, generate_runs,
}
use thin_provisioning_tools.IoEngine.Gaps.Runs.{ops_blocks}
use thin_provisioning_tools.IoEngine.Gaps.Adjacent.{
  all_ops, IsContiguous, IsMaximal, batch_adjacent_correct,
}
use thin_provisioning_tools.IoEngine.Gaps.Split.{
  IsForward, span, Rebatched, split_batches-Rebatched,
}
use thin_provisioning_tools.IoEngine.Gaps.Generate.{generate_runs_correct}

abbrev numbers : List ℕ
numbers = 7 ∷ 8 ∷ 9 ∷ 9 ∷ 9 ∷ 4 ∷ []

numbers-IsU64 : All IsU64 numbers
numbers-IsU64 =
    (omega arith, (omega arith, (omega arith, (omega arith, (omega arith, (omega arith, tt))))))

unpack-pack_u64s_example :
    (c : Bytes) × (pack_u64s little_endian [] numbers ≡ ok c)
    × (unpack little_endian c (8 * length numbers) ≡ ok (u64s little_endian numbers))
unpack-pack_u64s_example = unpack-pack_u64s little_endian numbers numbers-IsU64 (omega arith)

unpack-pack_shifted_u64s_example :
    (c : Bytes) × (pack_shifted_u64s little_endian [] numbers ≡ ok c)
    × (unpack little_endian c (8 * length numbers) ≡ ok (u64s little_endian numbers))
unpack-pack_shifted_u64s_example =
    unpack-pack_shifted_u64s little_endian numbers numbers-IsU64 (omega arith)

unpack-pack_literal_example :
    (c : Bytes) × (pack_literal little_endian [] numbers ≡ ok c)
    × (unpack little_endian c (length numbers) ≡ ok numbers)
unpack-pack_literal_example = unpack-pack_literal little_endian numbers (omega arith)

from_delta-to_delta_example : from_delta (to_delta numbers) ≡ numbers
from_delta-to_delta_example = from_delta-to_delta numbers numbers-IsU64

abbrev blocks : List ℕ
blocks = 3 ∷ 4 ∷ 6 ∷ 7 ∷ 20 ∷ []

batch_adjacent_example :
    (all_ops (batch_adjacent (run 3 5 ∷ gap 5 6 ∷ run 8 9 ∷ [])) ≡ run 3 5 ∷ gap 5 6 ∷ run 8 9 ∷ [])
    × All IsContiguous (batch_adjacent (run 3 5 ∷ gap 5 6 ∷ run 8 9 ∷ []))
    × IsMaximal (batch_adjacent (run 3 5 ∷ gap 5 6 ∷ run 8 9 ∷ []))
batch_adjacent_example = batch_adjacent_correct (run 3 5 ∷ gap 5 6 ∷ run 8 9 ∷ [])

abbrev batches : Batches
batches = (run 3 6 ∷ gap 6 8 ∷ []) ∷ (run 9 10 ∷ []) ∷ []

batches-IsForward : All IsForward (all_ops batches)
unfolding all_ops
batches-IsForward = (omega arith, (omega arith, (omega arith, tt)))

split_batches_example :
    (new : Batches) × (split_batches batches 2 ≡ some new) × Rebatched 2 batches new
split_batches_example =
    split_batches-Rebatched 2 batches (omega arith) ((refl, tt), (tt, tt)) batches-IsForward

generate_runs_example :
    (new : Batches) × (generate_runs blocks 2 4 ≡ some new)
    × (ops_blocks (all_ops new) ≡ blocks)
    × All (λ b. span b ≤ 4) new
    × All IsContiguous new
generate_runs_example = generate_runs_correct blocks 2 4 (omega arith)

unpack-ne-stuck_example : unpack little_endian (0x11 ∷ 0x02 ∷ 0xff ∷ []) 40 ≢ err stuck
unpack-ne-stuck_example = unpack-ne-stuck little_endian (0x11 ∷ 0x02 ∷ 0xff ∷ []) 40
