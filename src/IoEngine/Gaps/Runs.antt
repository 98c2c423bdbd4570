-- ===== src/IoEngine/Gaps/Runs.antt =====
-- The blocks and the gaps of `find_runs` of src/io_engine/gaps.rs.
use thin_provisioning_tools.Prelude.{
  ℕ, zero, suc, ◌+◌, ◌-◌, ◌≤◌, ◌<◌, List, [], ◌∷◌, ◌++◌, Option, none, some, ◌≡◌, refl, ap, arith,
  All, append_assoc, ◌∙◌,
}
use thin_provisioning_tools.IoEngine.Gaps.{RunOp, run, gap, find_loop, find_runs}

unfoldable pub blocks_from : ℕ → ℕ → List ℕ
blocks_from b zero = []
blocks_from b (suc n) = b ∷ blocks_from (b + 1) n

-- The blocks that an operation reads: those of a run, and none of a gap.
unfoldable pub op_blocks : RunOp → List ℕ
unfolding blocks_from
op_blocks (run b e) = blocks_from b (e - b)
op_blocks (gap b e) = []

unfoldable pub ops_blocks : List RunOp → List ℕ
unfolding op_blocks
ops_blocks [] = []
ops_blocks (op ∷ ops) = op_blocks op ++ ops_blocks ops

pub blocks_from_add : (b m n : ℕ) → blocks_from b (m + n) ≡ blocks_from b m ++ blocks_from (b + m) n
unfolding blocks_from
blocks_from_add b zero n =
    let e : 0 + n ≡ n = omega arith in let f : b + 0 ≡ b = omega arith in rw (e, f)
blocks_from_add b (suc m) n =
    let e : suc m + n ≡ suc (m + n) = omega arith in
    let f : b + suc m ≡ b + 1 + m = omega arith in
    rw (e, f) (ap (λ (xs : List ℕ). b ∷ xs) (blocks_from_add (b + 1) m n))

-- A run that ends where a block begins is made longer by that block.
run_longer :
    (begin end : ℕ)
    → begin < end
    → blocks_from begin (end + 1 - begin) ≡ blocks_from begin (end - begin) ++ end ∷ []
unfolding blocks_from
run_longer begin end h =
    let e : end + 1 - begin ≡ end - begin + 1 = omega arith in
    let f : begin + (end - begin) ≡ end = omega arith in
    rw (e, blocks_from_add begin (end - begin) 1, f)

one_block : (b : ℕ) → blocks_from b (b + 1 - b) ≡ b ∷ []
unfolding blocks_from
one_block b = let e : b + 1 - b ≡ 1 = omega arith in rw e

abbrev pending : Option (ℕ × ℕ) → List ℕ
pending none = []
pending (some (begin, end)) = blocks_from begin (end - begin)

abbrev IsOpen : Option (ℕ × ℕ) → Type 0
IsOpen none = Unit
IsOpen (some (begin, end)) = begin < end

find_loop_blocks :
    (t : ℕ) (last : Option (ℕ × ℕ)) (blocks : List ℕ)
    → IsOpen last
    → ops_blocks (find_loop t last blocks) ≡ pending last ++ blocks
unfolding find_loop ops_blocks
find_loop_blocks t none [] h = refl
find_loop_blocks t (some (begin, end)) [] h = refl
find_loop_blocks t none (b ∷ blocks) h =
    find_loop_blocks t (some (b, b + 1)) blocks (omega arith)
    ∙ ap (λ (xs : List ℕ). xs ++ blocks) (one_block b)
find_loop_blocks t (some (begin, end)) (b ∷ blocks) h =
    let r = blocks_from begin (end - begin) in
    ground (
      arith,
      find_loop_blocks t (some (b, b + 1)) blocks (omega arith),
      one_block b,
      find_loop_blocks t (some (begin, b + 1)) blocks,
      run_longer begin end h,
      append_assoc r (b ∷ []) blocks,
    )

-- The runs of `find_runs`, one after the other, are the given blocks in their order.
pub ops_blocks-find_runs :
    (blocks : List ℕ) (gap_threshold : ℕ) → ops_blocks (find_runs blocks gap_threshold) ≡ blocks
unfolding find_runs
ops_blocks-find_runs blocks t = find_loop_blocks t none blocks tt

-- A run has a block at least; a gap has from one block to `gap_threshold` of them.
abbrev pub IsOp : ℕ → RunOp → Type 0
IsOp t (run b e) = b < e
IsOp t (gap b e) = (b < e) × (e ≤ b + t)

find_loop-IsOp :
    (t : ℕ) (last : Option (ℕ × ℕ)) (blocks : List ℕ)
    → IsOpen last
    → All (IsOp t) (find_loop t last blocks)
unfolding find_loop
find_loop-IsOp t none [] h = tt
find_loop-IsOp t (some (begin, end)) [] h = (h, tt)
find_loop-IsOp t none (b ∷ blocks) h = find_loop-IsOp t (some (b, b + 1)) blocks (omega arith)
find_loop-IsOp t (some (begin, end)) (b ∷ blocks) h = ground (
  arith,
  find_loop-IsOp t (some (b, b + 1)) blocks (omega arith),
  find_loop-IsOp t (some (begin, b + 1)) blocks,
)

-- Every run of `find_runs` has a block, and every gap has from one block to `gap_threshold` of them.
pub find_runs-IsOp :
    (blocks : List ℕ) (gap_threshold : ℕ)
    → All (IsOp gap_threshold) (find_runs blocks gap_threshold)
unfolding find_runs
find_runs-IsOp blocks t = find_loop-IsOp t none blocks tt
