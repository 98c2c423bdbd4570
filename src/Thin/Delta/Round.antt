-- ===== src/Thin/Delta/Round.antt =====
-- One round of the comparison of src/thin/delta.rs.
use thin_provisioning_tools.Prelude.{
  ◌⊎◌, ℕ, ◌+◌, ◌-◌, ◌<◌, ◌≤◌, ◌≡◌, true, false, ◌==◌, if◌then◌else◌, Option, none, some, List, ◌∷◌,
  ok, Bool-cases, inl, inr, arith,
}
use thin_provisioning_tools.Thin.Delta.{
  DataMapping, Delta, left_only, right_only, differ, same, new, consume, rounds,
}
use thin_provisioning_tools.Thin.Delta.Expand.{find, within, Above, Above-le}

-- How one thin block of the left device compares with that of the right.
pub data Change : Type 0 where
  left right same_data : ℕ → Change
  different : ℕ → ℕ → Change

-- The change of a thin block, given its data blocks.
abbrev pub compare_at : Option ℕ → Option ℕ → Option Change
compare_at none none = none
compare_at (some a) none = some (left a)
compare_at none (some b) = some (right b)
compare_at (some a) (some b) = some (if a == b then same_data a else different a b)

abbrev pub or_else : Option Change → Option Change → Option Change
or_else none o = o
or_else (some c) o = some c

-- What one delta says of a thin block.
abbrev pub change_at : Delta → ℕ → Option Change
change_at (left_only m) t =
    if within m.thin_begin m.len t then some (left (m.data_begin + (t - m.thin_begin))) else none
change_at (right_only m) t =
    if within m.thin_begin m.len t then some (right (m.data_begin + (t - m.thin_begin))) else none
change_at (same m) t =
    if within m.thin_begin m.len t
    then some (same_data (m.data_begin + (t - m.thin_begin)))
    else none
change_at (differ m) t =
    if within m.thin_begin m.len t
    then some (
        different (m.left_data_begin + (t - m.thin_begin))
          (m.right_data_begin + (t - m.thin_begin)))
    else none

-- The thin blocks of a delta.
abbrev pub begin_of : Delta → ℕ
begin_of (left_only m) = m.thin_begin
begin_of (right_only m) = m.thin_begin
begin_of (differ m) = m.thin_begin
begin_of (same m) = m.thin_begin

abbrev pub len_of : Delta → ℕ
len_of (left_only m) = m.len
len_of (right_only m) = m.len
len_of (differ m) = m.len
len_of (same m) = m.len

-- What is left after `len` blocks of the first mapping.
abbrev pub drop_run : ℕ → DataMapping → List DataMapping → List DataMapping
drop_run len m ms =
    if len == m.len
    then ms
    else record {
      thin_begin = m.thin_begin + len;
      data_begin = m.data_begin + len;
      len = m.len - len;
    }
      ∷ ms

pub consume-new :
    (len : ℕ) (m : DataMapping) (ms : List DataMapping)
    → len ≤ m.len
    → consume (new (m ∷ ms)) len ≡ ok (new (drop_run len m ms))
unfolding consume new
consume-new len m ms h = ground arith

module _ (len : ℕ) (m : DataMapping) (ms : List DataMapping) (le : len ≤ m.len) where
  pub drop_run-Above : (lo : ℕ) → Above lo (m ∷ ms) → Above (m.thin_begin + len) (drop_run len m ms)
  drop_run-Above lo h = elim (Bool-cases (len == m.len)) [
    | inl all ↦ rw all (Above-le (m.thin_begin + m.len) _ ms (ground arith) h.1)
    | inr part ↦
        let end : m.thin_begin + len + (m.len - len) ≡ m.thin_begin + m.len = omega arith in
        rw (part, end) (omega arith, h.1)
  ]

  pub drop_run-rounds : rounds (drop_run len m ms) ≤ rounds (m ∷ ms)
  unfolding rounds
  drop_run-rounds = elim (Bool-cases (len == m.len)) [
    | inl all ↦ rw all (omega arith)
    | inr part ↦ rw part (omega arith)
  ]

  -- A piece that is not empty, or the whole mapping, is progress.
  pub drop_run-rounds_lt : (1 ≤ len) ⊎ (len ≡ m.len) → rounds (drop_run len m ms) < rounds (m ∷ ms)
  unfolding rounds
  drop_run-rounds_lt h = elim (Bool-cases (len == m.len)) [
    | inl all ↦ rw all (omega arith)
    | inr part ↦ rw part (ground arith)
  ]

  pub find-drop_run :
      (t : ℕ) → within m.thin_begin len t ≡ false → find (drop_run len m ms) t ≡ find (m ∷ ms) t
  unfolding find
  find-drop_run t h = elim (Bool-cases (len == m.len)) [
    | inl all ↦ let whole : within m.thin_begin m.len t ≡ false = ground arith in rw (all, whole)
    | inr part ↦ rw part (ground arith)
  ]

  pub find-within :
      (t : ℕ)
      → within m.thin_begin len t ≡ true
      → find (m ∷ ms) t ≡ some (m.data_begin + (t - m.thin_begin))
  unfolding find
  find-within t h = let whole : within m.thin_begin m.len t ≡ true = ground arith in rw whole
