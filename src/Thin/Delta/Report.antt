-- ===== src/Thin/Delta/Report.antt =====
-- The simple report of src/thin/delta_visitor.rs: DeltaRunBuilder and SimpleXmlWriter.
use thin_provisioning_tools.Prelude.{
  ℕ, ◌+◌, ◌==◌, if◌then◌else◌, Option, none, some, List, [], ◌∷◌, ◌++◌, Result, ok,
}
use thin_provisioning_tools.Thin.Delta.{Delta, DeltaError}

abbrev pub DeltaRunBuilder : Type 0
DeltaRunBuilder = Option Delta

-- `self.run.replace(d.clone())`
abbrev replace : DeltaRunBuilder → Delta → DeltaRunBuilder × Option Delta
replace run d = (some d, run)

-- `DeltaRunBuilder::next`: the builder afterwards, and the delta that it gives out.
unfoldable pub next : DeltaRunBuilder → Delta → DeltaRunBuilder × Option Delta
next (some (Delta.left_only cur)) (Delta.left_only r) =
    if r.thin_begin == cur.thin_begin + cur.len
    then (some (Delta.left_only (record cur { len = cur.len + r.len })), none)
    else replace (some (Delta.left_only cur)) (Delta.left_only r)
next (some (Delta.right_only cur)) (Delta.right_only r) =
    if r.thin_begin == cur.thin_begin + cur.len
    then (some (Delta.right_only (record cur { len = cur.len + r.len })), none)
    else replace (some (Delta.right_only cur)) (Delta.right_only r)
next (some (Delta.differ cur)) (Delta.differ r) =
    if r.thin_begin == cur.thin_begin + cur.len
    then (some (Delta.differ (record cur { len = cur.len + r.len })), none)
    else replace (some (Delta.differ cur)) (Delta.differ r)
next (some (Delta.same cur)) (Delta.same r) =
    if r.thin_begin == cur.thin_begin + cur.len
    then (some (Delta.same (record cur { len = cur.len + r.len })), none)
    else replace (some (Delta.same cur)) (Delta.same r)
next run d = replace run d

-- The name of an XML element.
pub data Name : Type 0 where
  left_only right_only different same : Name

pub record Element : Type 0 where
  pub name : Name
  pub begin : ℕ
  pub length : ℕ

-- The element that `write_delta` hands to the XML library.
unfoldable pub write_delta : Delta → Element
write_delta (Delta.left_only r) = record { name = left_only; begin = r.thin_begin; length = r.len }
write_delta (Delta.right_only r) = record {
  name = right_only;
  begin = r.thin_begin;
  length = r.len;
}
write_delta (Delta.differ r) = record { name = different; begin = r.thin_begin; length = r.len }
write_delta (Delta.same r) = record { name = same; begin = r.thin_begin; length = r.len }

-- The elements handed to the XML library so far, and the builder.
pub record SimpleXmlWriter : Type 0 where
  pub w : List Element
  pub builder : DeltaRunBuilder

abbrev pub write_emitted : List Element → Option Delta → List Element
write_emitted w none = w
write_emitted w (some d) = w ++ write_delta d ∷ []

-- `SimpleXmlWriter::delta`
unfoldable pub delta : SimpleXmlWriter → Delta → Result DeltaError SimpleXmlWriter
unfolding next write_delta
delta writer d =
    let (builder, emitted) = next writer.builder d in
    ok (record { w = write_emitted writer.w emitted; builder = builder })

-- `SimpleXmlWriter::diff_e`, as far as the deltas go: the builder is emptied.
unfoldable pub diff_e : SimpleXmlWriter → SimpleXmlWriter
unfolding write_delta
diff_e writer = record { w = write_emitted writer.w writer.builder; builder = none }
