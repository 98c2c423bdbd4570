-- ===== src/IoEngine/Gaps/Generate.antt =====
-- `generate_runs` as a whole.
use thin_provisioning_tools.Prelude.{ℕ, ◌≤◌, ◌<◌, List, [], ◌∷◌, some, ◌≡◌, arith, All, ap, ◌∙◌}
use thin_provisioning_tools.IoEngine.Gaps.{
  RunOp, run, gap, Batches, find_runs, batch_adjacent, generate_runs,
}
use thin_provisioning_tools.IoEngine.Gaps.Runs.{
  ops_blocks, IsOp, ops_blocks-find_runs, find_runs-IsOp,
}
use thin_provisioning_tools.IoEngine.Gaps.Adjacent.{all_ops, IsContiguous, batch_adjacent_correct}
use thin_provisioning_tools.IoEngine.Gaps.Split.{IsForward, span, split_batches-Rebatched}

IsOp-IsForward : (t : ℕ) (ops : List RunOp) → All (IsOp t) ops → All IsForward ops
IsOp-IsForward t [] h = tt
IsOp-IsForward t (run b e ∷ ops) h = (omega arith, IsOp-IsForward t ops h.1)
IsOp-IsForward t (gap b e ∷ ops) h = (omega arith, IsOp-IsForward t ops h.1)

-- For a `max` that is not zero `generate_runs` ends. The runs of its batches, in order, are the given
-- blocks; every batch spans at most `max` blocks, gaps included, and is contiguous and not empty.
pub generate_runs_correct :
    (blocks : List ℕ) (gap_threshold max : ℕ)
    → 0 < max
    → (batches : Batches) × (generate_runs blocks gap_threshold max ≡ some batches)
      × (ops_blocks (all_ops batches) ≡ blocks)
      × All (λ b. span b ≤ max) batches
      × All IsContiguous batches
unfolding generate_runs
generate_runs_correct blocks t max pm =
    let runs = find_runs blocks t in
    let (same, contiguous, _) = batch_adjacent_correct runs in
    let forward : All IsForward (all_ops (batch_adjacent runs)) =
      rw same (IsOp-IsForward t runs (find_runs-IsOp blocks t)) in
    let (batches, e, r) = split_batches-Rebatched max (batch_adjacent runs) pm contiguous forward in
    (
      batches,
      e,
      r.blocks ∙ ap ops_blocks same ∙ ops_blocks-find_runs blocks t,
      r.bounded,
      r.contiguous,
    )
