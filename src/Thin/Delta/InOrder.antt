-- ===== src/Thin/Delta/InOrder.antt =====
-- The order of the elements of the simple report of src/thin/delta_visitor.rs.
use thin_provisioning_tools.Prelude.{
  ℕ, ◌+◌, ◌≤◌, ◌==◌, none, some, List, [], ◌∷◌, ◌++◌, Bool-cases, inl, inr, arith,
}
use thin_provisioning_tools.Thin.Delta.{Delta}
use thin_provisioning_tools.Thin.Delta.Round.{begin_of, len_of}
use thin_provisioning_tools.Thin.Delta.Report.{
  DeltaRunBuilder, Element, SimpleXmlWriter, next, write_delta, write_emitted, diff_e,
}

-- Elements in ascending order of thin blocks without overlap, from `lo` on.
abbrev pub InOrder : ℕ → List Element → Type 0
InOrder lo [] = Unit {0}
InOrder lo (e ∷ es) = (lo ≤ e.begin) × InOrder (e.begin + e.length) es

-- The same with an end.
abbrev Between : ℕ → ℕ → List Element → Type 0
Between lo hi [] = lo ≤ hi
Between lo hi (e ∷ es) = (lo ≤ e.begin) × Between (e.begin + e.length) hi es

Between-InOrder : (lo hi : ℕ) (es : List Element) → Between lo hi es → InOrder lo es
Between-InOrder lo hi [] h = tt
Between-InOrder lo hi (e ∷ es) h = (h.0, Between-InOrder (e.begin + e.length) hi es h.1)

Between-snoc :
    (lo hi : ℕ) (es : List Element) (d : Delta)
    → Between lo hi es
    → hi ≤ begin_of d
    → Between lo (begin_of d + len_of d) (es ++ write_delta d ∷ [])
unfolding write_delta
Between-snoc lo hi [] (Delta.left_only m) h le = (omega arith, omega arith)
Between-snoc lo hi [] (Delta.right_only m) h le = (omega arith, omega arith)
Between-snoc lo hi [] (Delta.differ m) h le = (omega arith, omega arith)
Between-snoc lo hi [] (Delta.same m) h le = (omega arith, omega arith)
Between-snoc lo hi (e ∷ es) d h le = (h.0, Between-snoc (e.begin + e.length) hi es d h.1 le)

-- The delta in the builder lies between two blocks.
abbrev Room : ℕ → ℕ → DeltaRunBuilder → Type 0
Room lo hi none = lo ≤ hi
Room lo hi (some d) = (lo ≤ begin_of d) × (begin_of d + len_of d ≤ hi)

-- The elements of a report and then its builder are in order, up to `hi`.
abbrev pub UpTo : ℕ → List Element → DeltaRunBuilder → Type 0
UpTo hi w run = (middle : ℕ) × Between 0 middle w × Room middle hi run

-- The builder gives out what it holds, and holds the next delta.
replaced :
    (w : List Element) (cur d : Delta) (lo : ℕ)
    → UpTo lo w (some cur)
    → lo ≤ begin_of d
    → UpTo (begin_of d + len_of d) (w ++ write_delta cur ∷ []) (some d)
replaced w cur d lo (middle, before, room) le = (
  begin_of cur + len_of cur,
  Between-snoc 0 middle w cur before room.0,
  (omega arith, omega arith),
)

pub next-UpTo :
    (w : List Element) (run : DeltaRunBuilder) (d : Delta) (lo : ℕ)
    → UpTo lo w run
    → lo ≤ begin_of d
    → UpTo (begin_of d + len_of d) (write_emitted w (next run d).1) (next run d).0
unfolding next
next-UpTo w none (Delta.left_only m) lo (middle, before, room) le =
    (middle, before, (omega arith, omega arith))
next-UpTo w none (Delta.right_only m) lo (middle, before, room) le =
    (middle, before, (omega arith, omega arith))
next-UpTo w none (Delta.differ m) lo (middle, before, room) le =
    (middle, before, (omega arith, omega arith))
next-UpTo w none (Delta.same m) lo (middle, before, room) le =
    (middle, before, (omega arith, omega arith))
next-UpTo w (some (Delta.left_only c)) (Delta.left_only m) lo h le =
    elim (Bool-cases (m.thin_begin == c.thin_begin + c.len)) [
      | inl joins ↦ rw joins (h.0, h.1, (h.2.0, ground arith))
      | inr apart ↦ rw apart (replaced w (Delta.left_only c) (Delta.left_only m) lo h le)
    ]
next-UpTo w (some (Delta.right_only c)) (Delta.right_only m) lo h le =
    elim (Bool-cases (m.thin_begin == c.thin_begin + c.len)) [
      | inl joins ↦ rw joins (h.0, h.1, (h.2.0, ground arith))
      | inr apart ↦ rw apart (replaced w (Delta.right_only c) (Delta.right_only m) lo h le)
    ]
next-UpTo w (some (Delta.differ c)) (Delta.differ m) lo h le =
    elim (Bool-cases (m.thin_begin == c.thin_begin + c.len)) [
      | inl joins ↦ rw joins (h.0, h.1, (h.2.0, ground arith))
      | inr apart ↦ rw apart (replaced w (Delta.differ c) (Delta.differ m) lo h le)
    ]
next-UpTo w (some (Delta.same c)) (Delta.same m) lo h le =
    elim (Bool-cases (m.thin_begin == c.thin_begin + c.len)) [
      | inl joins ↦ rw joins (h.0, h.1, (h.2.0, ground arith))
      | inr apart ↦ rw apart (replaced w (Delta.same c) (Delta.same m) lo h le)
    ]
next-UpTo w (some c) d lo h le = replaced w c d lo h le

pub diff_e-InOrder :
    (hi : ℕ) (writer : SimpleXmlWriter)
    → UpTo hi writer.w writer.builder
    → InOrder 0 (diff_e writer).w
unfolding diff_e
diff_e-InOrder hi writer (middle, before, room) = go writer.builder room
  where
    go : (run : DeltaRunBuilder) → Room middle hi run → InOrder 0 (write_emitted writer.w run)
    go none room' = Between-InOrder 0 middle writer.w before
    go (some d) room' =
        Between-InOrder 0 (begin_of d + len_of d) _
          (Between-snoc 0 middle writer.w d before room'.0)
