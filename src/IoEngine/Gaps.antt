-- ===== src/IoEngine/Gaps.antt =====
-- src/io_engine/gaps.rs: block numbers to batches of runs and gaps.
-- Block numbers stay far below 2 ^ 64, so `b + 1` is written without its wrap-around.
pub mod Runs
pub mod Adjacent
pub mod Split
pub mod Generate
use thin_provisioning_tools.Prelude.{
  ℕ, zero, suc, ◌+◌, ◌-◌, List, [], ◌∷◌, ◌++◌, Option, none, some, and_then, ltb, leb, ◌==◌,
  if◌then◌else◌,
}

-- From a first block to one past the last.
pub data RunOp : Type 0 where
  run : ℕ → ℕ → RunOp
  gap : ℕ → ℕ → RunOp

abbrev pub Batches : Type 0
Batches = List (List RunOp)

abbrev pub finish : Option (ℕ × ℕ) → List RunOp
finish none = []
finish (some (begin, end)) = run begin end ∷ []

-- The loop of `find_runs`. What it pushes comes out in the order of the pushes.
unfoldable pub find_loop : ℕ → Option (ℕ × ℕ) → List ℕ → List RunOp
find_loop gap_threshold last [] = finish last
find_loop gap_threshold none (b ∷ blocks) = find_loop gap_threshold (some (b, b + 1)) blocks
find_loop gap_threshold (some (begin, end)) (b ∷ blocks) =
    let fresh = find_loop gap_threshold (some (b, b + 1)) blocks in
    let longer = find_loop gap_threshold (some (begin, b + 1)) blocks in
    if ltb end b
    then (if ltb gap_threshold (b - end)
        then run begin end ∷ fresh
        else run begin end ∷ gap end b ∷ fresh)
    else if b == end
    then longer
    else run begin end ∷ fresh

unfoldable pub find_runs : List ℕ → ℕ → List RunOp
unfolding find_loop
find_runs blocks gap_threshold = find_loop gap_threshold none blocks

abbrev pub first : RunOp → ℕ
first (run b e) = b
first (gap b e) = b

abbrev pub past : RunOp → ℕ
past (run b e) = e
past (gap b e) = e

-- `if !batch.is_empty() { result.push(batch); }`
abbrev pub push_rest : List RunOp → Batches → Batches
push_rest [] result = result
push_rest (x ∷ xs) result = result ++ (x ∷ xs) ∷ []

-- The loop of `batch_adjacent`, with the batch that is being filled.
unfoldable pub batch_loop : Option ℕ → List RunOp → List RunOp → Batches
batch_loop last batch [] = push_rest batch []
batch_loop none batch (r ∷ runs) = batch_loop (some (past r)) (batch ++ r ∷ []) runs
batch_loop (some l) batch (r ∷ runs) =
    let joined = batch_loop (some (past r)) (batch ++ r ∷ []) runs in
    let fresh = batch_loop (some (past r)) (r ∷ []) runs in
    if first r == l then joined else batch ∷ fresh

unfoldable pub batch_adjacent : List RunOp → Batches
unfolding batch_loop
batch_adjacent runs = batch_loop none [] runs

-- What fits into `remaining`, the rest of the operation, and what remains then.
unfoldable pub split_op : RunOp → ℕ → RunOp × Option RunOp × ℕ
split_op (run b e) remaining =
    let len = e - b in
    if leb len remaining
    then (run b e, none, remaining - len)
    else (run b (b + remaining), some (run (b + remaining) e), 0)
split_op (gap b e) remaining =
    let len = e - b in
    if ltb len remaining
    then (gap b e, none, remaining - len)
    else (gap b (b + remaining), some (gap (b + remaining) e), 0)

abbrev pub resume : Option RunOp → List RunOp → List RunOp
resume none ops = ops
resume (some op) ops = op ∷ ops

-- The loop of `split_contiguous`; the head of the list is the source's `op`. `none`: out of fuel.
unfoldable pub split_loop : ℕ → ℕ → ℕ → List RunOp → List RunOp → Batches → Option Batches
split_loop fuel max remaining batch [] result = some (push_rest batch result)
split_loop zero max remaining batch (op ∷ ops) result = none
split_loop (suc fuel) max remaining batch (op ∷ ops) result =
    let (piece, rest, rem) = split_op op remaining in
    let batch' = batch ++ piece ∷ [] in
    let ops' = resume rest ops in
    let full = split_loop fuel max max [] ops' (result ++ batch' ∷ []) in
    let more = split_loop fuel max rem batch' ops' result in if rem == 0 then full else more

-- One round for each operation and each block is enough where `max` is not zero.
unfoldable pub rounds : List RunOp → ℕ
rounds [] = 0
rounds (op ∷ ops) = past op - first op + 1 + rounds ops

unfoldable pub split_contiguous : List RunOp → ℕ → Batches → Option Batches
unfolding split_loop rounds split_op
split_contiguous runs max result = split_loop (rounds runs) max max [] runs result

unfoldable pub split_batches_into : Batches → ℕ → Batches → Option Batches
split_batches_into [] max result = some result
split_batches_into (b ∷ batches) max result =
    and_then (split_contiguous b max result) (split_batches_into batches max)

unfoldable pub split_batches : Batches → ℕ → Option Batches
unfolding split_batches_into
split_batches batches max = split_batches_into batches max []

unfoldable pub generate_runs : List ℕ → ℕ → ℕ → Option Batches
generate_runs blocks gap_threshold max =
    split_batches (batch_adjacent (find_runs blocks gap_threshold)) max

abbrev pub gap_blocks : RunOp → ℕ
gap_blocks (run b e) = 0
gap_blocks (gap b e) = e - b

unfoldable pub count_batch : List RunOp → ℕ
count_batch [] = 0
count_batch (op ∷ ops) = gap_blocks op + count_batch ops

unfoldable pub count_gaps : Batches → ℕ
unfolding count_batch
count_gaps [] = 0
count_gaps (batch ∷ batches) = count_batch batch + count_gaps batches
