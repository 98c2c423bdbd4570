-- ===== src/Thin/Delta/Expand.antt =====
-- What the mappings of src/thin/delta.rs stand for: thin blocks with their data blocks.
use thin_provisioning_tools.Prelude.{
  ℕ, zero, suc, ◌+◌, ◌-◌, ◌<◌, ◌≤◌, ◌≡◌, ◌∙◌, refl, ap, Bool, true, false, ◌&&◌, ltb, leb, ◌==◌,
  if◌then◌else◌, Option, none, some, List, [], ◌∷◌, ◌++◌, All, append_assoc, Bool-cases, inl, inr,
  arith,
}
use mathlib.Core.Path.{subst}
use thin_provisioning_tools.Thin.Delta.{DataMapping}

-- The data block of a thin block in a list of pairs.
abbrev pub data_at : List (ℕ × ℕ) → ℕ → Option ℕ
data_at [] t = none
data_at (p ∷ ps) t = if p.0 == t then some p.1 else data_at ps t

-- Is thin block `t` one of the `len` blocks from `begin`?
abbrev pub within : ℕ → ℕ → ℕ → Bool
within begin len t = leb begin t && ltb t (begin + len)

-- The data block of a thin block in a list of mappings.
unfoldable pub find : List DataMapping → ℕ → Option ℕ
find [] t = none
find (m ∷ ms) t =
    if within m.thin_begin m.len t then some (m.data_begin + (t - m.thin_begin)) else find ms t

abbrev pub expand_from : ℕ → ℕ → ℕ → List (ℕ × ℕ)
expand_from b d zero = []
expand_from b d (suc n) = (b, d) ∷ expand_from (b + 1) (d + 1) n

-- The pairs of a list of mappings, in their order.
unfoldable pub expand : List DataMapping → List (ℕ × ℕ)
expand [] = []
expand (m ∷ ms) = expand_from m.thin_begin m.data_begin m.len ++ expand ms

-- Thin blocks in ascending order, from `lo` on.
abbrev pub Ascending : ℕ → List (ℕ × ℕ) → Type 0
Ascending lo [] = Unit {0}
Ascending lo (p ∷ ps) = (lo ≤ p.0) × Ascending (p.0 + 1) ps

-- Mappings in ascending order without overlap, from `lo` on.
abbrev pub Above : ℕ → List DataMapping → Type 0
Above lo [] = Unit {0}
Above lo (m ∷ ms) = (lo ≤ m.thin_begin) × Above (m.thin_begin + m.len) ms

pub Above-le : (lo lo' : ℕ) (ms : List DataMapping) → lo' ≤ lo → Above lo ms → Above lo' ms
Above-le lo lo' [] le h = tt
Above-le lo lo' (m ∷ ms) le h = (omega arith, h.1)

pub find-Above : (lo t : ℕ) (ms : List DataMapping) → Above lo ms → t < lo → find ms t ≡ none
unfolding find
find-Above lo t [] h lt = refl
find-Above lo t (m ∷ ms) h lt =
    let outside : within m.thin_begin m.len t ≡ false = ground arith in
    rw outside (find-Above (m.thin_begin + m.len) t ms h.1 (omega arith))

pub expand_from-snoc :
    (b d n : ℕ) → expand_from b d (suc n) ≡ expand_from b d n ++ (b + n, d + n) ∷ []
expand_from-snoc b d zero =
    let same : (b, d) ≡ (b + 0, d + 0) = ground arith in ap (λ p. p ∷ []) same
expand_from-snoc b d (suc n) =
    let same : (b + 1 + n, d + 1 + n) ≡ (b + suc n, d + suc n) = ground arith in
    ap (λ ps. (b, d) ∷ ps)
      (expand_from-snoc (b + 1) (d + 1) n ∙ ap (λ p. expand_from (b + 1) (d + 1) n ++ p ∷ []) same)

pub expand-append : (ms ns : List DataMapping) → expand (ms ++ ns) ≡ expand ms ++ expand ns
unfolding expand
expand-append [] ns = refl
expand-append (m ∷ ms) ns = rw (expand-append ms ns, append_assoc) refl

data_at-expand_from :
    (b d n : ℕ) (ps : List (ℕ × ℕ)) (t : ℕ)
    → data_at (expand_from b d n ++ ps) t
      ≡ (if within b n t then some (d + (t - b)) else data_at ps t)
data_at-expand_from b d zero ps t = let outside : within b 0 t ≡ false = ground arith in rw outside
data_at-expand_from b d (suc n) ps t =
    let rest = data_at-expand_from (b + 1) (d + 1) n ps t in
    elim (Bool-cases (b == t)) [
      | inl here ↦
          let inside : within b (suc n) t ≡ true = ground arith in
          rw (here, inside) (ap some (ground arith))
      | inr there ↦
          rw (there, rest)
            (elim (Bool-cases (within (b + 1) n t)) [
              | inl later ↦
                  let inside : within b (suc n) t ≡ true = ground arith in
                  rw (later, inside) (ap some (ground arith))
              | inr never ↦
                  let outside : within b (suc n) t ≡ false = ground arith in rw (never, outside)
            ])
    ]

pub find-expand : (ms : List DataMapping) (t : ℕ) → find ms t ≡ data_at (expand ms) t
unfolding find expand
find-expand [] t = refl
find-expand (m ∷ ms) t =
    rw (data_at-expand_from m.thin_begin m.data_begin m.len (expand ms) t, find-expand ms t) refl

Ascending-expand_from :
    (lo b d n : ℕ) (ps : List (ℕ × ℕ))
    → 1 ≤ n
    → Ascending lo (expand_from b d n ++ ps)
    → (lo ≤ b) × Ascending (b + n) ps
Ascending-expand_from lo b d zero ps le h = absurd (omega arith)
Ascending-expand_from lo b d (suc zero) ps le h = h
Ascending-expand_from lo b d (suc (suc n)) ps le h =
    let same : b + 1 + suc n ≡ b + suc (suc n) = omega arith in
    (
      h.0,
      subst (λ k. Ascending k ps) same
          (Ascending-expand_from (b + 1) (b + 1) (d + 1) (suc n) ps (omega arith) h.1).1,
    )

-- Mappings of at least one block each that stand for ascending thin blocks do not overlap.
pub expand-Above :
    (lo : ℕ) (ms : List DataMapping)
    → All (λ m. 1 ≤ m.len) ms
    → Ascending lo (expand ms)
    → Above lo ms
unfolding expand
expand-Above lo [] some_len h = tt
expand-Above lo (m ∷ ms) some_len h =
    let parts = Ascending-expand_from lo m.thin_begin m.data_begin m.len (expand ms) some_len.0 h in
    (parts.0, expand-Above (m.thin_begin + m.len) ms some_len.1 parts.1)
