-- ===== src/Thin/Delta/Pointwise.antt =====
-- What a list of deltas of src/thin/delta.rs says of each thin block.
use thin_provisioning_tools.Prelude.{
  ℕ, ◌+◌, ◌≤◌, ◌≡◌, refl, sym, Option, none, some, List, [], ◌∷◌, ◌++◌, map, Bool-cases, inl, inr,
  arith, ◌⊎◌,
}
use thin_provisioning_tools.Thin.Delta.{DataMapping, Delta, left_only, right_only, rounds}
use thin_provisioning_tools.Thin.Delta.Expand.{find, within, Above}
use thin_provisioning_tools.Thin.Delta.Round.{
  Change, compare_at, or_else, change_at, begin_of, len_of,
}

-- What the first delta that covers a thin block says of it.
abbrev pub delta_at : List Delta → ℕ → Option Change
delta_at [] t = none
delta_at (d ∷ ds) t = or_else (change_at d t) (delta_at ds t)

pub or_else_assoc : (a b c : Option Change) → or_else (or_else a b) c ≡ or_else a (or_else b c)
or_else_assoc none b c = refl
or_else_assoc (some x) b c = refl

pub delta_at-append :
    (ds es : List Delta) (t : ℕ) → delta_at (ds ++ es) t ≡ or_else (delta_at ds t) (delta_at es t)
delta_at-append [] es t = refl
delta_at-append (d ∷ ds) es t =
    rw (delta_at-append ds es t, or_else_assoc (change_at d t) (delta_at ds t) (delta_at es t)) refl

-- Deltas in ascending order of thin blocks without overlap, from `lo` on.
abbrev pub Spans : ℕ → List Delta → Type 0
Spans lo [] = Unit {0}
Spans lo (d ∷ ds) = (lo ≤ begin_of d) × Spans (begin_of d + len_of d) ds

Spans-left : (lo : ℕ) (ms : List DataMapping) → Above lo ms → Spans lo (map left_only ms ++ [])
Spans-left lo [] h = tt
Spans-left lo (m ∷ ms) h = (h.0, Spans-left (m.thin_begin + m.len) ms h.1)

Spans-right : (lo : ℕ) (ms : List DataMapping) → Above lo ms → Spans lo (map right_only ms)
Spans-right lo [] h = tt
Spans-right lo (m ∷ ms) h = (h.0, Spans-right (m.thin_begin + m.len) ms h.1)

-- The comparison of `l` with `r`, from `lo` on, down to one side, with the deltas that it reports.
pub record Walked (lo : ℕ) (l r l' r' : List DataMapping) (ds : List Delta) : Type 0 where
  pub end : ℕ
  pub left_above : Above end l'
  pub right_above : Above end r'
  pub spans : (es : List Delta) → Spans end es → Spans lo (ds ++ es)
  pub one_empty : (l' ≡ []) ⊎ (r' ≡ [])
  pub left_rounds : rounds l' ≤ rounds l
  pub right_rounds : rounds r' ≤ rounds r
  pub pointwise :
      (t : ℕ)
      → compare_at (find l t) (find r t)
        ≡ or_else (delta_at ds t) (compare_at (find l' t) (find r' t))

pub ended :
    (lo : ℕ) (l r : List DataMapping)
    → Above lo l
    → Above lo r
    → (l ≡ []) ⊎ (r ≡ [])
    → Walked lo l r l r []
ended lo l r hl hr h = record {
  end = lo;
  left_above = hl;
  right_above = hr;
  spans = λ es s. s;
  one_empty = h;
  left_rounds = omega arith;
  right_rounds = omega arith;
  pointwise = λ t. refl;
}

pub left_deltas :
    (ms : List DataMapping) (t : ℕ) → delta_at (map left_only ms) t ≡ compare_at (find ms t) none
unfolding find
left_deltas [] t = refl
left_deltas (m ∷ ms) t = elim (Bool-cases (within m.thin_begin m.len t)) [
  | inl inside ↦ rw inside
  | inr outside ↦ rw outside (left_deltas ms t)
]

pub right_deltas :
    (ms : List DataMapping) (t : ℕ) → delta_at (map right_only ms) t ≡ compare_at none (find ms t)
unfolding find
right_deltas [] t = refl
right_deltas (m ∷ ms) t = elim (Bool-cases (within m.thin_begin m.len t)) [
  | inl inside ↦ rw inside
  | inr outside ↦ rw outside (right_deltas ms t)
]

-- With one side empty, the two rests are compared one after the other.
pub rests :
    (a b : Option ℕ)
    → (a ≡ none) ⊎ (b ≡ none)
    → or_else (compare_at a none) (compare_at none b) ≡ compare_at a b
rests none none h = refl
rests none (some b) h = refl
rests (some a) none h = refl
rests (some a) (some b) h = elim h [ inl e ↦ cc | inr e ↦ cc ]

pub none_of :
    (l r : List DataMapping) (t : ℕ) → (l ≡ []) ⊎ (r ≡ []) → (find l t ≡ none) ⊎ (find r t ≡ none)
unfolding find
none_of l r t (inl e) = inl (rw e)
none_of l r t (inr e) = inr (rw e)

pub Walked-Spans :
    (lo : ℕ) (l r l' r' : List DataMapping) (ds : List Delta)
    → Walked lo l r l' r' ds
    → Spans lo (ds ++ (map left_only l' ++ map right_only r'))
Walked-Spans lo l r l' r' ds walked =
    let after = walked.spans (map left_only l' ++ map right_only r') in
    elim walked.one_empty [
      | inl e ↦ after (rw e (Spans-right walked.end r' walked.right_above))
      | inr e ↦ after (rw e (Spans-left walked.end l' walked.left_above))
    ]

pub Walked-delta_at :
    (lo : ℕ) (l r l' r' : List DataMapping) (ds : List Delta)
    → Walked lo l r l' r' ds
    → (t : ℕ)
    → delta_at (ds ++ (map left_only l' ++ map right_only r')) t ≡ compare_at (find l t) (find r t)
Walked-delta_at lo l r l' r' ds walked t =
    rw
      (
        delta_at-append ds (map left_only l' ++ map right_only r') t,
        delta_at-append (map left_only l') (map right_only r') t,
        left_deltas l' t,
        right_deltas r' t,
        rests (find l' t) (find r' t) (none_of l' r' t walked.one_empty),
      )
      (sym (walked.pointwise t))
