-- ===== src/Thin/Delta/Device.antt =====
-- thin_delta as a whole: src/thin/delta.rs with the simple report of src/thin/delta_visitor.rs.
use thin_provisioning_tools.Prelude.{
  ℕ, ◌+◌, ◌≡◌, ◌∙◌, refl, sym, ap, ◌==◌, if◌then◌else◌, Option, none, some, List, [], ◌∷◌, ◌++◌, ok,
  Bool-cases, inl, inr, arith,
}
use thin_provisioning_tools.Thin.Delta.{Delta, Leaf, get_mappings, dump_delta_mappings}
use thin_provisioning_tools.Thin.Delta.Expand.{within, find-expand, data_at, Ascending}
use thin_provisioning_tools.Thin.Delta.Recorded.{
  leaf_pairs, expand-get_mappings, get_mappings-Above,
}
use thin_provisioning_tools.Thin.Delta.Round.{
  Change, left, right, same_data, different, compare_at, or_else, change_at, begin_of, len_of,
}
use thin_provisioning_tools.Thin.Delta.Pointwise.{delta_at, Spans}
use thin_provisioning_tools.Thin.Delta.InOrder.{InOrder, UpTo, next-UpTo, diff_e-InOrder}
use thin_provisioning_tools.Thin.Delta.Walk.{replay, dump_delta_mappings-Correct}
use thin_provisioning_tools.Thin.Delta.Report
use thin_provisioning_tools.Thin.Delta.Report.{
  DeltaRunBuilder, Name, left_only, right_only, same, Element, write_delta, SimpleXmlWriter, delta,
  diff_e, write_emitted,
}

-- The element's name that a change calls for.
abbrev pub name_of : Option Change → Option Name
name_of none = none
name_of (some (left a)) = some left_only
name_of (some (right a)) = some right_only
name_of (some (same_data a)) = some same
name_of (some (different a b)) = some Name.different

abbrev first_of : Option Name → Option Name → Option Name
first_of none o = o
first_of (some n) o = some n

abbrev covers : Element → ℕ → Option Name
covers e t = if within e.begin e.length t then some e.name else none

-- The name of the first element that covers a thin block.
abbrev pub name_at : List Element → ℕ → Option Name
name_at [] t = none
name_at (e ∷ es) t = first_of (covers e t) (name_at es t)

first_of_assoc : (a b c : Option Name) → first_of (first_of a b) c ≡ first_of a (first_of b c)
first_of_assoc none b c = refl
first_of_assoc (some n) b c = refl

first_of-none : (a : Option Name) → first_of a none ≡ a
first_of-none none = refl
first_of-none (some n) = refl

name_at-append :
    (es fs : List Element) (t : ℕ) → name_at (es ++ fs) t ≡ first_of (name_at es t) (name_at fs t)
name_at-append [] fs t = refl
name_at-append (e ∷ es) fs t =
    rw (name_at-append es fs t, first_of_assoc (covers e t) (name_at es t) (name_at fs t)) refl

name_of-or_else : (a b : Option Change) → name_of (or_else a b) ≡ first_of (name_of a) (name_of b)
name_of-or_else none b = refl
name_of-or_else (some (left a)) b = refl
name_of-or_else (some (right a)) b = refl
name_of-or_else (some (same_data a)) b = refl
name_of-or_else (some (different a a')) b = refl

covers-write_delta : (d : Delta) (t : ℕ) → covers (write_delta d) t ≡ name_of (change_at d t)
unfolding write_delta
covers-write_delta (Delta.left_only m) t = ground arith
covers-write_delta (Delta.right_only m) t = ground arith
covers-write_delta (Delta.differ m) t = ground arith
covers-write_delta (Delta.same m) t = ground arith

abbrev pending : DeltaRunBuilder → ℕ → Option Name
pending none t = none
pending (some d) t = covers (write_delta d) t

-- Two pieces side by side, and the piece that joins them.
covers-joined :
    (element : Name) (b n n' t : ℕ)
    → covers (record { name = element; begin = b; length = n + n' }) t
      ≡ first_of
          (covers (record { name = element; begin = b; length = n }) t)
          (covers (record { name = element; begin = b + n; length = n' }) t)
covers-joined element b n n' t = ground arith

abbrev emitted_at : Option Delta → ℕ → Option Name
emitted_at = pending

next-pending :
    (run : DeltaRunBuilder) (d : Delta) (t : ℕ)
    → first_of (emitted_at (Report.next run d).1 t) (pending (Report.next run d).0 t)
      ≡ first_of (pending run t) (covers (write_delta d) t)
unfolding Report.next write_delta
next-pending none (Delta.left_only m) t = refl
next-pending none (Delta.right_only m) t = refl
next-pending none (Delta.differ m) t = refl
next-pending none (Delta.same m) t = refl
next-pending (some (Delta.left_only c)) (Delta.left_only m) t =
    elim (Bool-cases (m.thin_begin == c.thin_begin + c.len)) [
      | inl joins ↦
          let at : m.thin_begin ≡ c.thin_begin + c.len = ground arith in
          rw (joins, at) (covers-joined left_only c.thin_begin c.len m.len t)
      | inr apart ↦ rw apart
    ]
next-pending (some (Delta.right_only c)) (Delta.right_only m) t =
    elim (Bool-cases (m.thin_begin == c.thin_begin + c.len)) [
      | inl joins ↦
          let at : m.thin_begin ≡ c.thin_begin + c.len = ground arith in
          rw (joins, at) (covers-joined right_only c.thin_begin c.len m.len t)
      | inr apart ↦ rw apart
    ]
next-pending (some (Delta.differ c)) (Delta.differ m) t =
    elim (Bool-cases (m.thin_begin == c.thin_begin + c.len)) [
      | inl joins ↦
          let at : m.thin_begin ≡ c.thin_begin + c.len = ground arith in
          rw (joins, at) (covers-joined Name.different c.thin_begin c.len m.len t)
      | inr apart ↦ rw apart
    ]
next-pending (some (Delta.same c)) (Delta.same m) t =
    elim (Bool-cases (m.thin_begin == c.thin_begin + c.len)) [
      | inl joins ↦
          let at : m.thin_begin ≡ c.thin_begin + c.len = ground arith in
          rw (joins, at) (covers-joined same c.thin_begin c.len m.len t)
      | inr apart ↦ rw apart
    ]
next-pending (some c) m t = refl

-- What a report stands for with its builder.
abbrev told : SimpleXmlWriter → ℕ → Option Name
told writer t = first_of (name_at writer.w t) (pending writer.builder t)

emitted-name_at :
    (w : List Element) (emitted : Option Delta) (t : ℕ)
    → name_at (write_emitted w emitted) t ≡ first_of (name_at w t) (emitted_at emitted t)
emitted-name_at w none t = sym (first_of-none _)
emitted-name_at w (some d) t =
    rw (name_at-append w (write_delta d ∷ []) t, first_of-none (covers (write_delta d) t)) refl

push-told :
    (writer : SimpleXmlWriter) (d : Delta) (t : ℕ)
    → first_of
        (name_at (write_emitted writer.w (Report.next writer.builder d).1) t)
        (pending (Report.next writer.builder d).0 t)
      ≡ first_of (told writer t) (name_of (change_at d t))
push-told writer d t =
    rw
      (
        emitted-name_at writer.w (Report.next writer.builder d).1 t,
        first_of_assoc (name_at writer.w t) (emitted_at (Report.next writer.builder d).1 t) _,
        next-pending writer.builder d t,
        covers-write_delta d t,
        ← first_of_assoc (name_at writer.w t) (pending writer.builder t) (name_of (change_at d t)),
      )
      refl

-- The report after a list of deltas in order, which it takes without an error.
report-told :
    (ds : List Delta) (writer : SimpleXmlWriter) (lo : ℕ)
    → Spans lo ds
    → UpTo lo writer.w writer.builder
    → (writer' : SimpleXmlWriter) × (hi : ℕ) × (replay delta ds writer ≡ ok writer')
      × UpTo hi writer'.w writer'.builder
      × ((t : ℕ) → told writer' t ≡ first_of (told writer t) (name_of (delta_at ds t)))
unfolding delta
report-told [] writer lo h up = (writer, lo, refl, up, λ t. sym (first_of-none _))
report-told (d ∷ ds) writer lo h up =
    let pushed : SimpleXmlWriter = record {
      w = write_emitted writer.w (Report.next writer.builder d).1;
      builder = (Report.next writer.builder d).0;
    } in
    let (writer', hi, runs, up', all) =
      report-told ds pushed (begin_of d + len_of d) h.1
        (next-UpTo writer.w writer.builder d lo up h.0) in
    (
      writer',
      hi,
      runs,
      up',
      λ t.
          all t
          ∙ rw
              (
                push-told writer d t,
                name_of-or_else (change_at d t) (delta_at ds t),
                first_of_assoc (told writer t) (name_of (change_at d t)) (name_of (delta_at ds t)),
              )
              refl,
    )

diff_e-told : (writer : SimpleXmlWriter) (t : ℕ) → name_at (diff_e writer).w t ≡ told writer t
unfolding diff_e
diff_e-told writer t = emitted-name_at writer.w writer.builder t

-- The leaves of two mapping trees, each with ascending keys, give a report without an error. Its
-- elements are in ascending order of thin blocks without overlap, and the one that covers a thin
-- block names it as the trees compare there: `left_only` and `right_only` where one tree alone maps
-- it, `same` and `different` where both do; no element covers a block that neither maps.
pub simple_report-Correct :
    (l r : List Leaf)
    → Ascending 0 (leaf_pairs l)
    → Ascending 0 (leaf_pairs r)
    → (writer : SimpleXmlWriter) × (dump_delta_mappings delta
          (get_mappings l)
          (get_mappings r)
          (record { w = []; builder = none })
        ≡ ok writer)
      × InOrder 0 (diff_e writer).w
      × ((t : ℕ)
          → name_at (diff_e writer).w t
            ≡ name_of (compare_at (data_at (leaf_pairs l) t) (data_at (leaf_pairs r) t)))
simple_report-Correct l r hl hr =
    let (ds, runs, spans, all) =
      dump_delta_mappings-Correct delta (get_mappings l) (get_mappings r) (get_mappings-Above l hl)
        (get_mappings-Above r hr) in
    let (writer, hi, replays, up, names) =
      report-told ds (record { w = []; builder = none }) 0 spans (0, omega arith, omega arith) in
    (
      writer,
      runs (record { w = []; builder = none }) ∙ replays,
      diff_e-InOrder hi writer up,
      λ t.
          diff_e-told writer t
          ∙ names t
          ∙ ap name_of (
              all t
              ∙ rw
                  (
                    find-expand (get_mappings l) t,
                    find-expand (get_mappings r) t,
                    expand-get_mappings l,
                    expand-get_mappings r,
                  )
                  refl),
    )
