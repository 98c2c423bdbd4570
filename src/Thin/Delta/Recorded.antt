-- ===== src/Thin/Delta/Recorded.antt =====
-- What MappingRecorder of src/thin/delta.rs records of the leaves of a mapping tree.
use thin_provisioning_tools.Prelude.{
  ℕ, suc, ◌+◌, ◌≤◌, ◌≡◌, ◌∙◌, refl, sym, ◌&&◌, ◌==◌, Option, none, some, List, [], ◌∷◌, ◌++◌, All,
  All-append, append_assoc, append-nil, Bool-cases, inl, inr, arith,
}
use thin_provisioning_tools.Thin.BlockTime.{BlockTime}
use thin_provisioning_tools.Thin.Delta.{
  DataMapping, RunBuilder, next, RecorderInner, push_emitted, visit, complete, Leaf, visit_leaves,
  get_mappings,
}
use thin_provisioning_tools.Thin.Delta.Expand.{
  expand, expand_from, expand_from-snoc, expand-append, Ascending, Above, expand-Above,
}

-- The thin blocks of a leaf with their data blocks.
abbrev pub pairs : List ℕ → List BlockTime → List (ℕ × ℕ)
pairs (k ∷ keys) (v ∷ values) = (k, v.block) ∷ pairs keys values
pairs _ _ = []

abbrev pub leaf_pairs : List Leaf → List (ℕ × ℕ)
leaf_pairs [] = []
leaf_pairs (leaf ∷ leaves) = pairs leaf.0 leaf.1 ++ leaf_pairs leaves

abbrev taken : Option DataMapping → List DataMapping
taken none = []
taken (some m) = m ∷ []

-- One pair more.
next-expand :
    (run : RunBuilder) (t d : ℕ)
    → expand (taken (next run t d).1) ++ expand (taken (next run t d).0)
      ≡ expand (taken run) ++ (t, d) ∷ []
unfolding next expand
next-expand none t d = refl
next-expand (some r) t d =
    elim (Bool-cases ((r.thin_begin + r.len == t) && (r.data_begin + r.len == d))) [
      | inl joined ↦
          let thin : r.thin_begin + r.len ≡ t = ground arith in
          let data_block : r.data_begin + r.len ≡ d = ground arith in
          let longer : r.len + 1 ≡ suc r.len = omega arith in
          rw
            (
              joined,
              append-nil (expand_from r.thin_begin r.data_begin (r.len + 1)),
              append-nil (expand_from r.thin_begin r.data_begin r.len),
              longer,
              ← thin,
              ← data_block,
            )
            (expand_from-snoc r.thin_begin r.data_begin r.len)
      | inr fresh ↦ rw fresh
    ]

-- What a recorder stands for.
abbrev held : RecorderInner → List (ℕ × ℕ)
held inner = expand (complete inner)

complete-expand :
    (mappings : List DataMapping) (run : RunBuilder)
    → expand (push_emitted mappings run) ≡ expand mappings ++ expand (taken run)
unfolding expand
complete-expand mappings none = sym (append-nil _)
complete-expand mappings (some m) = expand-append mappings (m ∷ [])

visit-expand :
    (inner : RecorderInner) (keys : List ℕ) (values : List BlockTime)
    → held (visit inner keys values) ≡ held inner ++ pairs keys values
unfolding visit complete
visit-expand inner [] values = sym (append-nil _)
visit-expand inner (k ∷ keys) [] = sym (append-nil _)
visit-expand inner (k ∷ keys) (v ∷ values) =
    let pushed : RecorderInner = record {
      mappings = push_emitted inner.mappings (next inner.builder k v.block).1;
      builder = (next inner.builder k v.block).0;
    } in
    let one : held pushed ≡ held inner ++ (k, v.block) ∷ [] =
      rw
        (
          complete-expand pushed.mappings pushed.builder,
          complete-expand inner.mappings (next inner.builder k v.block).1,
          append_assoc,
          next-expand inner.builder k v.block,
          ← append_assoc,
          ← complete-expand inner.mappings inner.builder,
        )
        refl in
    visit-expand pushed keys values ∙ rw (one, append_assoc)

visit_leaves-expand :
    (inner : RecorderInner) (leaves : List Leaf)
    → held (visit_leaves inner leaves) ≡ held inner ++ leaf_pairs leaves
unfolding visit_leaves
visit_leaves-expand inner [] = sym (append-nil _)
visit_leaves-expand inner (leaf ∷ leaves) =
    visit_leaves-expand (visit inner leaf.0 leaf.1) leaves
    ∙ rw (visit-expand inner leaf.0 leaf.1, append_assoc)

-- The recorded mappings stand for exactly the entries of the leaves, each with its data block, in
-- the order of the leaves.
pub expand-get_mappings : (leaves : List Leaf) → expand (get_mappings leaves) ≡ leaf_pairs leaves
unfolding get_mappings complete expand
expand-get_mappings leaves = visit_leaves-expand (record { mappings = []; builder = none }) leaves

abbrev HasBlocks : DataMapping → Type 0
HasBlocks m = 1 ≤ m.len

next-HasBlocks :
    (run : RunBuilder) (t d : ℕ)
    → All HasBlocks (taken run)
    → All HasBlocks (taken (next run t d).1) × All HasBlocks (taken (next run t d).0)
unfolding next
next-HasBlocks none t d h = (tt, omega arith)
next-HasBlocks (some r) t d h = ground arith

push_emitted-HasBlocks :
    (mappings : List DataMapping) (run : RunBuilder)
    → All HasBlocks mappings
    → All HasBlocks (taken run)
    → All HasBlocks (push_emitted mappings run)
push_emitted-HasBlocks mappings none h h' = h
push_emitted-HasBlocks mappings (some m) h h' = All-append HasBlocks mappings (m ∷ []) h h'

visit-HasBlocks :
    (inner : RecorderInner) (keys : List ℕ) (values : List BlockTime)
    → All HasBlocks inner.mappings × All HasBlocks (taken inner.builder)
    → All HasBlocks (visit inner keys values).mappings
      × All HasBlocks (taken (visit inner keys values).builder)
unfolding visit
visit-HasBlocks inner [] values h = h
visit-HasBlocks inner (k ∷ keys) [] h = h
visit-HasBlocks inner (k ∷ keys) (v ∷ values) h =
    let parts = next-HasBlocks inner.builder k v.block h.1 in
    let pushed : RecorderInner = record {
      mappings = push_emitted inner.mappings (next inner.builder k v.block).1;
      builder = (next inner.builder k v.block).0;
    } in
    visit-HasBlocks pushed keys values (push_emitted-HasBlocks _ _ h.0 parts.0, parts.1)

visit_leaves-HasBlocks :
    (inner : RecorderInner) (leaves : List Leaf)
    → All HasBlocks inner.mappings × All HasBlocks (taken inner.builder)
    → All HasBlocks (complete (visit_leaves inner leaves))
unfolding visit_leaves complete
visit_leaves-HasBlocks inner [] h = push_emitted-HasBlocks _ _ h.0 h.1
visit_leaves-HasBlocks inner (leaf ∷ leaves) h =
    visit_leaves-HasBlocks (visit inner leaf.0 leaf.1) leaves
      (visit-HasBlocks inner leaf.0 leaf.1 h)

-- Where the keys of the leaves ascend, the recorded mappings do too and do not overlap.
pub get_mappings-Above :
    (leaves : List Leaf) → Ascending 0 (leaf_pairs leaves) → Above 0 (get_mappings leaves)
unfolding get_mappings
get_mappings-Above leaves h =
    expand-Above 0 (get_mappings leaves) (visit_leaves-HasBlocks _ leaves (tt, tt))
      (rw (expand-get_mappings leaves) h)
