-- ===== src/Thin/Delta.antt =====
-- src/thin/delta.rs and the delta types of src/thin/delta_visitor.rs: two thin devices compared.
-- Block numbers stay far below 2 ^ 64, so their sums are written without the wrap-around.
pub mod Expand
pub mod Recorded
pub mod Round
pub mod Compare
pub mod Pointwise
pub mod Walk
pub mod Report
pub mod InOrder
pub mod Device
use thin_provisioning_tools.Prelude.{
  ℕ, zero, suc, ◌+◌, ◌-◌, min, Bool, ◌&&◌, ltb, ◌==◌, if◌then◌else◌, Option, none, some, List, [],
  ◌∷◌, ◌++◌, Result, ok, err, ◌>>=◌,
}
use thin_provisioning_tools.Thin.BlockTime.{BlockTime}

pub record DataMapping : Type 0 where
  pub thin_begin : ℕ
  pub data_begin : ℕ
  pub len : ℕ

pub record DiffMapping : Type 0 where
  pub thin_begin : ℕ
  pub left_data_begin : ℕ
  pub right_data_begin : ℕ
  pub len : ℕ

pub data Delta : Type 0 where
  left_only right_only : DataMapping → Delta
  differ : DiffMapping → Delta
  same : DataMapping → Delta

-- `struct RunBuilder`, which has one field.
abbrev pub RunBuilder : Type 0
RunBuilder = Option DataMapping

-- `RunBuilder::next`: the builder afterwards, and the run that it gives out.
unfoldable pub next : RunBuilder → ℕ → ℕ → RunBuilder × Option DataMapping
next none thin_block data_block =
    (some (record { thin_begin = thin_block; data_begin = data_block; len = 1 }), none)
next (some r) thin_block data_block =
    if (r.thin_begin + r.len == thin_block) && (r.data_begin + r.len == data_block)
    then (some (record r { len = r.len + 1 }), none)
    else (some (record { thin_begin = thin_block; data_begin = data_block; len = 1 }), some r)

pub record RecorderInner : Type 0 where
  pub mappings : List DataMapping
  pub builder : RunBuilder

abbrev pub push_emitted : List DataMapping → Option DataMapping → List DataMapping
push_emitted mappings none = mappings
push_emitted mappings (some m) = mappings ++ m ∷ []

-- `MappingRecorder::visit`, which zips the keys of a leaf with its values.
unfoldable pub visit : RecorderInner → List ℕ → List BlockTime → RecorderInner
unfolding next
visit inner (k ∷ keys) (v ∷ values) =
    let (builder, emitted) = next inner.builder k v.block in
    let inner' : RecorderInner = record {
      mappings = push_emitted inner.mappings emitted;
      builder = builder;
    } in
    visit inner' keys values
visit inner _ _ = inner

-- `MappingRecorder::complete`
unfoldable pub complete : RecorderInner → List DataMapping
complete inner = push_emitted inner.mappings inner.builder

abbrev pub Leaf : Type 0
Leaf = List ℕ × List BlockTime

unfoldable pub visit_leaves : RecorderInner → List Leaf → RecorderInner
unfolding visit
visit_leaves inner [] = inner
visit_leaves inner (leaf ∷ leaves) = visit_leaves (visit inner leaf.0 leaf.1) leaves

-- `get_mappings`, given the leaves that the walk of the mapping tree visits.
unfoldable pub get_mappings : List Leaf → List DataMapping
unfolding visit_leaves complete
get_mappings leaves = complete (visit_leaves (record { mappings = []; builder = none }) leaves)

-- `visitor_failed` is an error of the visitor. `stuck` is no result of the source: the model ran
-- out of fuel.
pub data DeltaError : Type 0 where
  delta_too_long end_of_stream visitor_failed stuck : DeltaError

pub record MappingStream : Type 0 where
  pub iter : List DataMapping
  pub current : Option DataMapping

-- `MappingStream::new`
unfoldable pub new : List DataMapping → MappingStream
new [] = record { iter = []; current = none }
new (m ∷ iter) = record { iter = iter; current = some m }

unfoldable pub consume : MappingStream → ℕ → Result DeltaError MappingStream
unfolding new
consume s len = elim s.current [
  | none ↦ err end_of_stream
  | some current ↦
      if ltb current.len len
      then err delta_too_long
      else if len == current.len
      then ok (new s.iter)
      else ok (record {
        iter = s.iter;
        current = some (record {
          thin_begin = current.thin_begin + len;
          data_begin = current.data_begin + len;
          len = current.len - len;
        });
      })
]

-- One round of the walk for each mapping and each block is enough.
unfoldable pub rounds : List DataMapping → ℕ
rounds [] = 0
rounds (m ∷ ms) = suc m.len + rounds ms

module _ {S : Type 0} (delta : S → Delta → Result DeltaError S) where
  -- The body of the first `while` loop.
  unfoldable pub compare_round :
      DataMapping
      → DataMapping
      → MappingStream
      → MappingStream
      → S
      → Result DeltaError (MappingStream × MappingStream × S)
  unfolding consume
  compare_round lm rm ls rs s =
      if ltb lm.thin_begin rm.thin_begin
      then (do
        let len = min lm.len (rm.thin_begin - lm.thin_begin)
        s' ← delta s (left_only (record lm { len = len }))
        ls' ← consume ls len
        ok (ls', rs, s'))
      else if ltb rm.thin_begin lm.thin_begin
      then (do
        let len = min rm.len (lm.thin_begin - rm.thin_begin)
        s' ← delta s (right_only (record rm { len = len }))
        rs' ← consume rs len
        ok (ls, rs', s'))
      else if lm.data_begin == rm.data_begin
      then (do
        let len = min lm.len rm.len
        s' ← delta s (same (record lm { len = len }))
        ls' ← consume ls len
        rs' ← consume rs len
        ok (ls', rs', s'))
      else (do
        let len = min lm.len rm.len
        s' ← delta s (
            differ (record {
              thin_begin = lm.thin_begin;
              left_data_begin = lm.data_begin;
              right_data_begin = rm.data_begin;
              len = len;
            }))
        ls' ← consume ls len
        rs' ← consume rs len
        ok (ls', rs', s'))

  unfoldable pub compare_loop :
      ℕ → MappingStream → MappingStream → S → Result DeltaError (MappingStream × MappingStream × S)
  unfolding compare_round
  compare_loop zero ls rs s = elim ls.current [
    | none ↦ ok (ls, rs, s)
    | some lm ↦ elim rs.current [ none ↦ ok (ls, rs, s) | some rm ↦ err stuck ]
  ]
  compare_loop (suc fuel) ls rs s = elim ls.current [
    | none ↦ ok (ls, rs, s)
    | some lm ↦ elim rs.current [
      | none ↦ ok (ls, rs, s)
      | some rm ↦ compare_round lm rm ls rs s >>= λ p. compare_loop fuel p.0 p.1 p.2
    ]
  ]

  -- The loops over what is left of one side; `side` is the constructor of its deltas.
  unfoldable pub drain : (DataMapping → Delta) → ℕ → MappingStream → S → Result DeltaError S
  unfolding consume
  drain side zero stream s = elim stream.current [ none ↦ ok s | some m ↦ err stuck ]
  drain side (suc fuel) stream s = elim stream.current [
    | none ↦ ok s
    | some m ↦ do s' ← delta s (side m); stream' ← consume stream m.len; drain side fuel stream' s'
  ]

  unfoldable pub dump_delta_mappings : List DataMapping → List DataMapping → S → Result DeltaError S
  unfolding compare_loop drain rounds new
  dump_delta_mappings left right s = do
    (ls, rs, s1) ← compare_loop (rounds left + rounds right) (new left) (new right) s
    s2 ← drain left_only (rounds left) ls s1
    drain right_only (rounds right) rs s2
