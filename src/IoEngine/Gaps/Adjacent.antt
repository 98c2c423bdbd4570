-- ===== src/IoEngine/Gaps/Adjacent.antt =====
-- `batch_adjacent` of src/io_engine/gaps.rs: where it cuts a list of operations.
use thin_provisioning_tools.Prelude.{
  ℕ, ◌+◌, List, [], ◌∷◌, ◌++◌, some, ◌==◌, ◌≡◌, ◌≢◌, refl, ap, arith, All, append_assoc, ◌∙◌,
  ==_iff, Bool-cases, inl, inr,
}
use thin_provisioning_tools.IoEngine.Gaps.{RunOp, Batches, first, past, batch_loop, batch_adjacent}

unfoldable pub all_ops : Batches → List RunOp
all_ops [] = []
all_ops (batch ∷ batches) = batch ++ all_ops batches

-- Each operation begins where the one before it ends; the first one at `l`.
abbrev pub Follows : ℕ → List RunOp → Type 0
Follows l [] = Unit
Follows l (r ∷ rs) = (first r ≡ l) × Follows (past r) rs

abbrev pub end_of : ℕ → List RunOp → ℕ
end_of l [] = l
end_of l (r ∷ rs) = end_of (past r) rs

abbrev pub IsContiguous : List RunOp → Type 0
IsContiguous [] = ⊥
IsContiguous (r ∷ rs) = Follows (past r) rs

-- No batch begins at `l`, or where the batch before it ends.
abbrev pub Breaks : ℕ → Batches → Type 0
Breaks l [] = Unit
Breaks l ([] ∷ batches) = ⊥
Breaks l ((r ∷ rs) ∷ batches) = (first r ≢ l) × Breaks (end_of (past r) rs) batches

abbrev pub IsMaximal : Batches → Type 0
IsMaximal [] = Unit
IsMaximal ([] ∷ batches) = ⊥
IsMaximal ((r ∷ rs) ∷ batches) = Breaks (end_of (past r) rs) batches

pub Follows-snoc :
    (l : ℕ) (rs : List RunOp) (r : RunOp)
    → Follows l rs
    → first r ≡ end_of l rs
    → Follows l (rs ++ r ∷ []) × (end_of l (rs ++ r ∷ []) ≡ past r)
Follows-snoc l [] r h e = ((e, tt), refl)
Follows-snoc l (x ∷ rs) r h e = let (f, g) = Follows-snoc (past x) rs r h.1 e in ((h.0, f), g)

-- The batch that is being filled is `x ∷ xs`.
record Batched (p : ℕ) (x : RunOp) (xs runs : List RunOp) (result : Batches) : Type 0 where
  pub same_ops : all_ops result ≡ (x ∷ xs) ++ runs
  pub contiguous : All IsContiguous result
  pub breaks : first x ≢ p → Breaks p result

batch_loop-Batched :
    (p : ℕ) (x : RunOp) (xs runs : List RunOp)
    → Follows (past x) xs
    → Batched p x xs runs (batch_loop (some (end_of (past x) xs)) (x ∷ xs) runs)
unfolding batch_loop all_ops
batch_loop-Batched p x xs [] h = record {
  same_ops = refl;
  contiguous = (h, tt);
  breaks = λ e. (e, tt);
}
batch_loop-Batched p x xs (r ∷ runs) h = elim (Bool-cases (first r == end_of (past x) xs)) [
  | inl joins ↦
      let (f, e) = Follows-snoc (past x) xs r h ((==_iff _ _).0 joins) in
      let ih = batch_loop-Batched p x (xs ++ r ∷ []) runs f in
      rw (joins, ← e)
        (record {
          same_ops = ih.same_ops ∙ ap (λ (l : List RunOp). x ∷ l) (append_assoc xs (r ∷ []) runs);
          contiguous = ih.contiguous;
          breaks = ih.breaks;
        })
  | inr cut ↦
      let ih = batch_loop-Batched (end_of (past x) xs) r [] runs tt in
      rw cut (record {
        same_ops = ap (λ (l : List RunOp). (x ∷ xs) ++ l) ih.same_ops;
        contiguous = (h, ih.contiguous);
        breaks = λ e. (e, ih.breaks (λ q. cc ((==_iff _ _).1 q)));
      })
]

-- `batch_adjacent` keeps the operations in order, every batch is contiguous and not empty, and no
-- two neighbouring batches could be joined.
pub batch_adjacent_correct :
    (runs : List RunOp)
    → (all_ops (batch_adjacent runs) ≡ runs)
      × All IsContiguous (batch_adjacent runs)
      × IsMaximal (batch_adjacent runs)
unfolding batch_adjacent all_ops
batch_adjacent_correct [] = (refl, tt, tt)
batch_adjacent_correct (r ∷ runs) =
    let b = batch_loop-Batched (first r + 1) r [] runs tt in
    (b.same_ops, b.contiguous, maximal _ _ (b.breaks (omega arith)))
  where
    maximal : (l : ℕ) (batches : Batches) → Breaks l batches → IsMaximal batches
    maximal l [] h = tt
    maximal l ([] ∷ batches) h = h
    maximal l ((x ∷ xs) ∷ batches) h = h.1
