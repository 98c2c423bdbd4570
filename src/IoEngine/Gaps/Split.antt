-- ===== src/IoEngine/Gaps/Split.antt =====
-- `split_batches` of src/io_engine/gaps.rs: its blocks, its gaps and its rounds.
use thin_provisioning_tools.Prelude.{
  ℕ, zero, suc, ◌+◌, ◌-◌, ◌≤◌, ◌<◌, List, [], ◌∷◌, ◌++◌, Option, some, ltb, leb, ◌==◌, ◌≡◌, refl,
  ap, arith, All, All-append, append_assoc, append-nil, sym, ◌∙◌, ==_iff, Bool-cases, inl, inr,
}
use thin_provisioning_tools.IoEngine.Gaps.{
  RunOp, run, gap, Batches, first, past, split_op, resume, split_loop, rounds, split_contiguous,
  split_batches_into, split_batches, gap_blocks, count_batch, count_gaps,
}
use thin_provisioning_tools.IoEngine.Gaps.Runs.{op_blocks, ops_blocks, blocks_from, blocks_from_add}
use thin_provisioning_tools.IoEngine.Gaps.Adjacent.{
  all_ops, Follows, end_of, IsContiguous, Follows-snoc,
}

abbrev pub IsForward : RunOp → Type 0
IsForward op = first op ≤ past op

unfoldable pub span : List RunOp → ℕ
span [] = 0
span (op ∷ ops) = past op - first op + span ops

-- The piece and the rest make the operation, and the rounds left fall.
record Pieces (op piece : RunOp) (rest : Option RunOp) (rem remaining : ℕ) (ops : List RunOp)
    : Type 0 where
  pub begins : first piece ≡ first op
  pub forward : IsForward piece
  pub taken : past piece - first piece + rem ≡ remaining
  pub follows : Follows (past op) ops → Follows (past piece) (resume rest ops)
  pub forwards : All IsForward ops → All IsForward (resume rest ops)
  pub blocks : op_blocks piece ++ ops_blocks (resume rest ops) ≡ op_blocks op ++ ops_blocks ops
  pub gaps : gap_blocks piece + count_batch (resume rest ops) ≡ gap_blocks op + count_batch ops
  pub fewer : rounds (resume rest ops) < rounds (op ∷ ops)

cut_blocks :
    (b e k : ℕ)
    → b + k ≤ e
    → blocks_from b (e - b) ≡ blocks_from b (b + k - b) ++ blocks_from (b + k) (e - (b + k))
cut_blocks b e k h =
    let p : e - b ≡ k + (e - (b + k)) = omega arith in
    let q : b + k - b ≡ k = omega arith in rw (p, q) (blocks_from_add b k (e - (b + k)))

split_op-Pieces :
    (op : RunOp) (remaining : ℕ) (ops : List RunOp)
    → IsForward op
    → 0 < remaining
    → Pieces op
        (split_op op remaining).0
        (split_op op remaining).1
        (split_op op remaining).2
        remaining
        ops
unfolding split_op rounds op_blocks ops_blocks count_batch
split_op-Pieces (run b e) remaining ops h pos = elim (Bool-cases (leb (e - b) remaining)) [
  | inl fits ↦ rw fits (record {
    begins = refl;
    forward = h;
    taken = ground arith;
    follows = λ f. f;
    forwards = λ f. f;
    blocks = refl;
    gaps = refl;
    fewer = omega arith;
  })
  | inr long ↦
      let room : b + remaining ≤ e = ground arith in
      rw long (record {
        begins = refl;
        forward = omega arith;
        taken = omega arith;
        follows = λ f. (refl, f);
        forwards = λ f. (room, f);
        blocks =
            sym (
              append_assoc (blocks_from b (b + remaining - b))
                (blocks_from (b + remaining) (e - (b + remaining))) (ops_blocks ops))
            ∙ ap (λ (l : List ℕ). l ++ ops_blocks ops) (sym (cut_blocks b e remaining room));
        gaps = omega arith;
        fewer = omega arith;
      })
]
split_op-Pieces (gap b e) remaining ops h pos = elim (Bool-cases (ltb (e - b) remaining)) [
  | inl fits ↦ rw fits (record {
    begins = refl;
    forward = h;
    taken = ground arith;
    follows = λ f. f;
    forwards = λ f. f;
    blocks = refl;
    gaps = refl;
    fewer = omega arith;
  })
  | inr long ↦
      let room : b + remaining ≤ e = ground arith in
      rw long (record {
        begins = refl;
        forward = omega arith;
        taken = omega arith;
        follows = λ f. (refl, f);
        forwards = λ f. (room, f);
        blocks = refl;
        gaps = omega arith;
        fewer = omega arith;
      })
]

-- What the batches that are pushed while `ops` are split hold, with the batch that was open before.
record Cut (max : ℕ) (batch ops : List RunOp) (new : Batches) : Type 0 where
  pub blocks : ops_blocks (all_ops new) ≡ ops_blocks batch ++ ops_blocks ops
  pub gaps : count_gaps new ≡ count_batch batch + count_batch ops
  pub bounded : All (λ b. span b ≤ max) new
  pub contiguous : All IsContiguous new

span-append : (xs ys : List RunOp) → span (xs ++ ys) ≡ span xs + span ys
unfolding span
span-append [] ys = omega arith
span-append (x ∷ xs) ys = omega (arith, span-append xs ys)

count_batch-append : (xs ys : List RunOp) → count_batch (xs ++ ys) ≡ count_batch xs + count_batch ys
unfolding count_batch
count_batch-append [] ys = omega arith
count_batch-append (x ∷ xs) ys = omega (arith, count_batch-append xs ys)

pub ops_blocks-append :
    (xs ys : List RunOp) → ops_blocks (xs ++ ys) ≡ ops_blocks xs ++ ops_blocks ys
unfolding ops_blocks
ops_blocks-append [] ys = refl
ops_blocks-append (x ∷ xs) ys =
    rw (ops_blocks-append xs ys) (sym (append_assoc (op_blocks x) (ops_blocks xs) (ops_blocks ys)))

pub all_ops-append : (xs ys : Batches) → all_ops (xs ++ ys) ≡ all_ops xs ++ all_ops ys
unfolding all_ops
all_ops-append [] ys = refl
all_ops-append (x ∷ xs) ys =
    rw (all_ops-append xs ys) (sym (append_assoc x (all_ops xs) (all_ops ys)))

span-snoc : (xs : List RunOp) (r : RunOp) → span (xs ++ r ∷ []) ≡ span xs + (past r - first r)
unfolding span
span-snoc xs r = omega (arith, span-append xs (r ∷ []))

snoc-IsContiguous :
    (s : ℕ) (xs : List RunOp) (r : RunOp) → Follows s (xs ++ r ∷ []) → IsContiguous (xs ++ r ∷ [])
snoc-IsContiguous s [] r h = tt
snoc-IsContiguous s (x ∷ xs) r h = h.1

-- One more piece in the open batch is counted there instead of with the operations to come.
Cut-piece :
    (max : ℕ) (batch ops : List RunOp) (op piece : RunOp) (rest : Option RunOp) (rem remaining : ℕ)
    (new : Batches)
    → Pieces op piece rest rem remaining ops
    → Cut max (batch ++ piece ∷ []) (resume rest ops) new
    → Cut max batch (op ∷ ops) new
unfolding ops_blocks count_batch
Cut-piece max batch ops op piece rest rem remaining new p c = record {
  blocks =
      c.blocks
      ∙ rw (ops_blocks-append batch (piece ∷ []), append_assoc (ops_blocks batch), append-nil)
          (ap (λ (l : List ℕ). ops_blocks batch ++ l) p.blocks);
  gaps = omega (arith, c.gaps, count_batch-append batch (piece ∷ []), p.gaps);
  bounded = c.bounded;
  contiguous = c.contiguous;
}

-- A full batch is pushed, and an empty one is opened.
Cut-full :
    (max : ℕ) (batch ops : List RunOp) (new : Batches)
    → span batch ≤ max
    → IsContiguous batch
    → Cut max [] ops new
    → Cut max batch ops (batch ∷ new)
unfolding ops_blocks count_batch count_gaps all_ops
Cut-full max batch ops new fits joined c = record {
  blocks =
      ops_blocks-append batch (all_ops new) ∙ ap (λ (l : List ℕ). ops_blocks batch ++ l) c.blocks;
  gaps = omega (arith, c.gaps);
  bounded = (fits, c.bounded);
  contiguous = (joined, c.contiguous);
}

split_loop-Cut :
    (fuel max remaining s : ℕ) (batch ops : List RunOp) (result : Batches)
    → 0 < max
    → 0 < remaining
    → span batch + remaining ≡ max
    → Follows s batch
    → Follows (end_of s batch) ops
    → All IsForward ops
    → rounds ops ≤ fuel
    → (new : Batches) × (split_loop fuel max remaining batch ops result ≡ some (result ++ new))
      × Cut max batch ops new
unfolding split_loop
split_loop-Cut fuel max remaining s [] [] result pm pr room fb fo fw enough = (
  [],
  ap some (sym (append-nil result)),
  unfold ops_blocks all_ops count_batch count_gaps in
      record { blocks = refl; gaps = refl; bounded = tt; contiguous = tt },
)
split_loop-Cut fuel max remaining s (x ∷ xs) [] result pm pr room fb fo fw enough = (
  (x ∷ xs) ∷ [],
  refl,
  Cut-full max (x ∷ xs) [] [] (omega arith) fb.1 (
      unfold ops_blocks all_ops count_batch count_gaps in
      record { blocks = refl; gaps = refl; bounded = tt; contiguous = tt }),
)
split_loop-Cut zero max remaining s batch (op ∷ ops) result pm pr room fb fo fw enough =
    absurd (unfold rounds in omega arith)
split_loop-Cut (suc fuel) max remaining s batch (op ∷ ops) result pm pr room fb fo fw enough =
    let piece = (split_op op remaining).0 in
    let rest = (split_op op remaining).1 in
    let rem = (split_op op remaining).2 in
    let p = split_op-Pieces op remaining ops fw.0 pr in
    let (joined, ends) = Follows-snoc s batch piece fb (p.begins ∙ fo.0) in
    let grown : span (batch ++ piece ∷ []) ≡ span batch + (past piece - first piece) =
      span-snoc batch piece in
    let fewer : rounds (resume rest ops) ≤ fuel = omega (arith, p.fewer) in
    elim (Bool-cases (rem == 0)) [
      | inl full ↦
          let none_left : rem ≡ 0 = (==_iff rem 0).0 full in
          let (new, e, c) =
            split_loop-Cut fuel max max (past piece) [] (resume rest ops)
              (result ++ (batch ++ piece ∷ []) ∷ []) pm pm (unfold span in omega arith) tt
              (p.follows fo.1) (p.forwards fw.1) fewer in
          (
            (batch ++ piece ∷ []) ∷ new,
            rw full (e ∙ ap some (append_assoc result ((batch ++ piece ∷ []) ∷ []) new)),
            Cut-piece max batch ops op piece rest rem remaining _ p (
                Cut-full max _ _ new (omega (arith, p.taken))
                  (snoc-IsContiguous s batch piece joined) c),
          )
      | inr more ↦
          let (new, e, c) =
            split_loop-Cut fuel max rem s (batch ++ piece ∷ []) (resume rest ops) result pm
              (ground arith) (omega (arith, p.taken)) joined (rw ends (p.follows fo.1))
              (p.forwards fw.1) fewer in
          (new, rw more e, Cut-piece max batch ops op piece rest rem remaining _ p c)
    ]

count_gaps-append : (xs ys : Batches) → count_gaps (xs ++ ys) ≡ count_gaps xs + count_gaps ys
unfolding count_gaps
count_gaps-append [] ys = omega arith
count_gaps-append (x ∷ xs) ys = omega (arith, count_gaps-append xs ys)

-- The batches that come out of the batches that go in.
pub record Rebatched (max : ℕ) (old new : Batches) : Type 0 where
  pub blocks : ops_blocks (all_ops new) ≡ ops_blocks (all_ops old)
  pub gaps : count_gaps new ≡ count_gaps old
  pub bounded : All (λ b. span b ≤ max) new
  pub contiguous : All IsContiguous new

split_batches_into-Rebatched :
    (max : ℕ) (old result : Batches)
    → 0 < max
    → All IsContiguous old
    → All IsForward (all_ops old)
    → (new : Batches) × (split_batches_into old max result ≡ some (result ++ new))
      × Rebatched max old new
unfolding split_batches_into split_contiguous all_ops count_gaps count_batch ops_blocks
split_batches_into-Rebatched max [] result pm co fo = (
  [],
  ap some (sym (append-nil result)),
  record { blocks = refl; gaps = refl; bounded = tt; contiguous = tt },
)
split_batches_into-Rebatched max ([] ∷ old) result pm co fo = absurd co.0
split_batches_into-Rebatched max ((op ∷ ops) ∷ old) result pm co fo =
    let (now, later) = All-split (op ∷ ops) (all_ops old) fo in
    let (new, e, c) =
      split_loop-Cut (rounds (op ∷ ops)) max max (first op) [] (op ∷ ops) result pm pm
        (unfold span in omega arith) tt (refl, co.0) now (omega arith) in
    let (new', e', c') = split_batches_into-Rebatched max old (result ++ new) pm co.1 later in
    (
      new ++ new',
      rw e (e' ∙ ap some (append_assoc result new new')),
      record {
        blocks =
            rw (all_ops-append new new', ops_blocks-append, ops_blocks-append, c.blocks, c'.blocks);
        gaps = omega (arith, count_gaps-append new new', c.gaps, c'.gaps);
        bounded = All-append _ new new' c.bounded c'.bounded;
        contiguous = All-append _ new new' c.contiguous c'.contiguous;
      },
    )
  where
    All-split :
        (xs ys : List RunOp) → All IsForward (xs ++ ys) → All IsForward xs × All IsForward ys
    All-split [] ys h = (tt, h)
    All-split (x ∷ xs) ys h = let (a, b) = All-split xs ys h.1 in ((h.0, a), b)

-- Where `max` is not zero, splitting ends: the pieces hold the same blocks in the same order and as
-- many gap blocks, none spans more than `max`, and each is contiguous and not empty.
pub split_batches-Rebatched :
    (max : ℕ) (old : Batches)
    → 0 < max
    → All IsContiguous old
    → All IsForward (all_ops old)
    → (new : Batches) × (split_batches old max ≡ some new) × Rebatched max old new
unfolding split_batches
split_batches-Rebatched max old pm co fo = split_batches_into-Rebatched max old [] pm co fo
