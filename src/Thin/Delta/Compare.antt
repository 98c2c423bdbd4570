-- ===== src/Thin/Delta/Compare.antt =====
-- The rounds of dump_delta_mappings of src/thin/delta.rs, each with the delta that it reports.
use thin_provisioning_tools.Prelude.{
  ℕ, ◌+◌, ◌-◌, ◌<◌, ◌≤◌, ◌≡◌, min, true, false, leb, none, some, List, ◌∷◌, Bool-cases, inl, inr,
  arith, ◌⊎◌, refl,
}
use thin_provisioning_tools.Thin.Delta.{DataMapping, Delta, left_only, right_only, rounds}
use thin_provisioning_tools.Thin.Delta.Expand.{find, within, find-Above, Above}
use thin_provisioning_tools.Thin.Delta.Round.{
  compare_at, or_else, change_at, begin_of, len_of, drop_run, drop_run-Above, drop_run-rounds,
  drop_run-rounds_lt, find-drop_run, find-within,
}

-- From mappings `l` and `r`, from `first` on, to what is left of them, with the delta of the round.
pub record Round (first : ℕ) (l r l' r' : List DataMapping) (d : Delta) : Type 0 where
  pub lo : ℕ
  pub begins : first ≤ begin_of d
  pub ends : begin_of d + len_of d ≡ lo
  pub left_above : Above lo l'
  pub right_above : Above lo r'
  pub left_rounds : rounds l' ≤ rounds l
  pub right_rounds : rounds r' ≤ rounds r
  pub progress : rounds l' + rounds r' < rounds l + rounds r
  pub pointwise :
      (t : ℕ)
      → compare_at (find l t) (find r t)
        ≡ or_else (change_at d t) (compare_at (find l' t) (find r' t))

module _ (lo : ℕ) (lm rm : DataMapping) (ls rs : List DataMapping) (hl : Above lo (lm ∷ ls))
    (hr : Above lo (rm ∷ rs)) where
  pub left-Round :
      (len : ℕ)
      → lm.thin_begin < rm.thin_begin
      → len ≡ min lm.len (rm.thin_begin - lm.thin_begin)
      → Round lo
          (lm ∷ ls)
          (rm ∷ rs)
          (drop_run len lm ls)
          (rm ∷ rs)
          (left_only (record lm { len = len }))
  left-Round len lt e =
      let le : len ≤ lm.len = omega arith in
      record {
        lo = lm.thin_begin + len;
        begins = hl.0;
        ends = refl;
        left_above = drop_run-Above len lm ls le lo hl;
        right_above = (omega arith, hr.1);
        left_rounds = drop_run-rounds len lm ls le;
        right_rounds = omega arith;
        progress =
            let some_len : (1 ≤ len) ⊎ (len ≡ lm.len) = ground arith in
            omega (arith, drop_run-rounds_lt len lm ls le some_len);
        pointwise = λ t. elim (Bool-cases (within lm.thin_begin len t)) [
          | inl inside ↦
              let before : t < rm.thin_begin = ground arith in
              rw (
                inside,
                find-within len lm ls le t inside,
                find-Above rm.thin_begin t (rm ∷ rs) (omega arith, hr.1) before,
              )
          | inr outside ↦ rw (outside, find-drop_run len lm ls le t outside)
        ];
      }

  pub right-Round :
      (len : ℕ)
      → rm.thin_begin < lm.thin_begin
      → len ≡ min rm.len (lm.thin_begin - rm.thin_begin)
      → Round lo
          (lm ∷ ls)
          (rm ∷ rs)
          (lm ∷ ls)
          (drop_run len rm rs)
          (right_only (record rm { len = len }))
  right-Round len lt e =
      let le : len ≤ rm.len = omega arith in
      record {
        lo = rm.thin_begin + len;
        begins = hr.0;
        ends = refl;
        left_above = (omega arith, hl.1);
        right_above = drop_run-Above len rm rs le lo hr;
        left_rounds = omega arith;
        right_rounds = drop_run-rounds len rm rs le;
        progress =
            let some_len : (1 ≤ len) ⊎ (len ≡ rm.len) = ground arith in
            omega (arith, drop_run-rounds_lt len rm rs le some_len);
        pointwise = λ t. elim (Bool-cases (within rm.thin_begin len t)) [
          | inl inside ↦
              let before : t < lm.thin_begin = ground arith in
              rw (
                inside,
                find-within len rm rs le t inside,
                find-Above lm.thin_begin t (lm ∷ ls) (omega arith, hl.1) before,
              )
          | inr outside ↦ rw (outside, find-drop_run len rm rs le t outside)
        ];
      }

  -- Both sides map the `len` blocks.
  pub both-Round :
      (len : ℕ) (d : Delta)
      → lm.thin_begin ≡ rm.thin_begin
      → len ≡ min lm.len rm.len
      → begin_of d ≡ lm.thin_begin
      → len_of d ≡ len
      → ((t : ℕ)
          → within lm.thin_begin len t ≡ true
          → change_at d t
            ≡ compare_at
                (some (lm.data_begin + (t - lm.thin_begin)))
                (some (rm.data_begin + (t - lm.thin_begin))))
      → ((t : ℕ) → within lm.thin_begin len t ≡ false → change_at d t ≡ none)
      → Round lo (lm ∷ ls) (rm ∷ rs) (drop_run len lm ls) (drop_run len rm rs) d
  both-Round len d begins e d_begin d_len inside_d outside_d =
      let le : len ≤ lm.len = omega arith in
      let le' : len ≤ rm.len = omega arith in
      record {
        lo = lm.thin_begin + len;
        begins = rw d_begin hl.0;
        ends = rw (d_begin, d_len) refl;
        left_above = drop_run-Above len lm ls le lo hl;
        right_above = rw begins (drop_run-Above len rm rs le' lo hr);
        left_rounds = drop_run-rounds len lm ls le;
        right_rounds = drop_run-rounds len rm rs le';
        progress = elim (Bool-cases (leb lm.len rm.len)) [
          | inl shorter ↦
              let all : len ≡ lm.len = ground arith in
              omega
                (arith, drop_run-rounds_lt len lm ls le (inr all), drop_run-rounds len rm rs le')
          | inr longer ↦
              let all : len ≡ rm.len = ground arith in
              omega
                (arith, drop_run-rounds_lt len rm rs le' (inr all), drop_run-rounds len lm ls le)
        ];
        pointwise = λ t. elim (Bool-cases (within lm.thin_begin len t)) [
          | inl inside ↦
              let inside' : within rm.thin_begin len t ≡ true = rw (← begins) inside in
              rw (
                inside_d t inside,
                find-within len lm ls le t inside,
                find-within len rm rs le' t inside',
                begins,
              )
          | inr outside ↦
              let outside' : within rm.thin_begin len t ≡ false = rw (← begins) outside in
              rw (
                outside_d t outside,
                find-drop_run len lm ls le t outside,
                find-drop_run len rm rs le' t outside',
              )
        ];
      }
