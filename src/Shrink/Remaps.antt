-- ===== src/Shrink/Remaps.antt =====
-- The blocks that the remaps of `build_remaps` of src/shrink/toplevel.rs move, and where to.
use thin_provisioning_tools.Prelude.{
  ℕ, zero, suc, ◌+◌, ◌≤◌, ◌<◌, List, [], ◌∷◌, ◌++◌, append_assoc, length-append, Option, some,
  false, ltb, ◌==◌, Result, ok, err, length, All, ◌≡◌, refl, ap, sym, ◌∙◌, inl, inr, Bool-cases,
  arith,
}
use thin_provisioning_tools.IoEngine.Gaps.Runs.{blocks_from, blocks_from_add}
use thin_provisioning_tools.Shrink.{
  BlockRange, RemapError, insufficient_free_space, Remap, range_len, is_empty, prepend, remap_loop,
  build_remaps,
}

-- The blocks of some ranges, in order; those that remaps move, and where to.
unfoldable pub blocks_of : List BlockRange → List ℕ
blocks_of [] = []
blocks_of (r ∷ rs) = blocks_from r.start (range_len r) ++ blocks_of rs

unfoldable pub sources : List Remap → List ℕ
sources [] = []
sources (x ∷ xs) = blocks_from (x.0).start (range_len x.0) ++ sources xs

unfoldable pub targets : List Remap → List ℕ
targets [] = []
targets (x ∷ xs) = blocks_from x.1 (range_len x.0) ++ targets xs

-- What `build_remaps` is to do with blocks and free blocks: it moves all of them to the first free
-- ones, or there are too few.
abbrev pub Remapped : List ℕ → List ℕ → Result RemapError (List Remap) → Type 0
Remapped blocks free (ok remaps) =
    (sources remaps ≡ blocks) × (rest : List ℕ) × (targets remaps ++ rest ≡ free)
Remapped blocks free (err e) = length free < length blocks

abbrev pub IsFilled : BlockRange → Type 0
IsFilled r = r.start < r.end

abbrev Outcome : List ℕ → List ℕ → Option (Result RemapError (List Remap)) → Type 0
Outcome blocks free o = (r : Result RemapError (List Remap)) × (o ≡ some r) × Remapped blocks free r

length-blocks_from : (b n : ℕ) → length (blocks_from b n) ≡ n
unfolding blocks_from
length-blocks_from b zero = refl
length-blocks_from b (suc n) = ap suc (length-blocks_from (b + 1) n)

-- Blocks in a row, cut in two.
cut :
    (b c m n k : ℕ) (xs : List ℕ)
    → m ≡ n + k
    → c ≡ b + n
    → blocks_from b n ++ (blocks_from c k ++ xs) ≡ blocks_from b m ++ xs
cut b c m n k xs e f =
    rw (e, f)
      (sym (append_assoc (blocks_from b n) (blocks_from (b + n) k) xs)
        ∙ ap (λ (l : List ℕ). l ++ xs) (sym (blocks_from_add b n k)))

same_blocks :
    (blocks blocks' free free' : List ℕ) (o : Option (Result RemapError (List Remap)))
    → blocks ≡ blocks'
    → free ≡ free'
    → Outcome blocks free o
    → Outcome blocks' free' o
same_blocks blocks blocks' free free' o eb ef (ok remaps, e, (s, rest, t)) =
    (ok remaps, e, (s ∙ eb, rest, t ∙ ef))
same_blocks blocks blocks' free free' o eb ef (err x, e, less) =
    (err x, e, omega (arith, ap (length {A = ℕ}) eb, ap (length {A = ℕ}) ef))

-- One more remap at the front.
prepend-Remapped :
    (x : Remap) (blocks free : List ℕ) (o : Option (Result RemapError (List Remap)))
    → (r : Result RemapError (List Remap)) × (o ≡ some r) × Remapped blocks free r
    → (r : Result RemapError (List Remap)) × (prepend x o ≡ some r)
      × Remapped
          (blocks_from (x.0).start (range_len x.0) ++ blocks)
          (blocks_from x.1 (range_len x.0) ++ free)
          r
unfolding sources targets
prepend-Remapped x blocks free o (ok remaps, e, (s, rest, t)) = (
  ok (x ∷ remaps),
  ap (prepend x) e,
  (
    ap (λ (l : List ℕ). blocks_from (x.0).start (range_len x.0) ++ l) s,
    rest,
    append_assoc (blocks_from x.1 (range_len x.0)) (targets remaps) rest
        ∙ ap (λ (l : List ℕ). blocks_from x.1 (range_len x.0) ++ l) t,
  ),
)
prepend-Remapped x blocks free o (err f, e, less) = (
  err f,
  ap (prepend x) e,
  omega (
    arith,
    length-append (blocks_from x.1 (range_len x.0)) free,
    length-append (blocks_from (x.0).start (range_len x.0)) blocks,
    length-blocks_from x.1 (range_len x.0),
    length-blocks_from (x.0).start (range_len x.0),
  ),
)

filled : (r : BlockRange) → IsFilled r → is_empty r ≡ false
unfolding is_empty
filled r h = ground arith

module _ (fuel : ℕ) (r f : BlockRange) (ranges frees : List BlockRange) where
  fits-Outcome :
      range_len r < range_len f
      → Outcome
          (blocks_of ranges)
          (blocks_of (record f { start = f.start + range_len r } ∷ frees))
          (remap_loop fuel ranges (record f { start = f.start + range_len r } ∷ frees))
      → Outcome (blocks_of (r ∷ ranges)) (blocks_of (f ∷ frees)) (
          prepend
            (r, f.start)
            (remap_loop fuel ranges (record f { start = f.start + range_len r } ∷ frees)))
  unfolding blocks_of range_len
  fits-Outcome less later =
      same_blocks _ _ _ _ _ refl
        (cut f.start (f.start + range_len r) (range_len f) (range_len r) _ (blocks_of frees)
          (omega arith) refl)
        (prepend-Remapped (r, f.start) _ _ _ later)

  fills-Outcome :
      range_len r ≡ range_len f
      → Outcome (blocks_of ranges) (blocks_of frees) (remap_loop fuel ranges frees)
      → Outcome
          (blocks_of (r ∷ ranges))
          (blocks_of (f ∷ frees))
          (prepend (r, f.start) (remap_loop fuel ranges frees))
  unfolding blocks_of
  fills-Outcome same later =
      same_blocks _ _ _ _ _ refl (ap (λ (n : ℕ). blocks_from f.start n ++ blocks_of frees) same)
        (prepend-Remapped (r, f.start) _ _ _ later)

  spills-Outcome :
      range_len f ≤ range_len r
      → Outcome
          (blocks_of (record r { start = r.start + range_len f } ∷ ranges))
          (blocks_of frees)
          (remap_loop fuel (record r { start = r.start + range_len f } ∷ ranges) frees)
      → Outcome (blocks_of (r ∷ ranges)) (blocks_of (f ∷ frees)) (
          prepend
            (record r { end = r.start + range_len f }, f.start)
            (remap_loop fuel (record r { start = r.start + range_len f } ∷ ranges) frees))
  unfolding blocks_of range_len
  spills-Outcome less later =
      same_blocks _ _ _ _ _
        (cut r.start (r.start + range_len f) (range_len r) _ _ (blocks_of ranges) (omega arith)
          (omega arith))
        (ap (λ (n : ℕ). blocks_from f.start n ++ blocks_of frees) (omega arith))
        (prepend-Remapped (record r { end = r.start + range_len f }, f.start) _ _ _ later)

filled_blocks :
    (r : BlockRange) (ranges : List BlockRange)
    → IsFilled r
    → length (blocks_of []) < length (blocks_of (r ∷ ranges))
unfolding blocks_of range_len
filled_blocks r ranges h = omega (
  arith,
  length-append (blocks_from r.start (range_len r)) (blocks_of ranges),
  length-blocks_from r.start (range_len r),
)

loop-Remapped :
    (fuel : ℕ) (ranges frees : List BlockRange)
    → length ranges + length frees ≤ fuel
    → All IsFilled ranges
    → All IsFilled frees
    → Outcome (blocks_of ranges) (blocks_of frees) (remap_loop fuel ranges frees)
unfolding remap_loop
loop-Remapped fuel [] frees h hr hf = (
  ok [],
  refl,
  (unfold sources in unfold blocks_of in refl, blocks_of frees, unfold targets in refl),
)
loop-Remapped fuel (r ∷ ranges) [] h hr hf =
    rw (filled r hr.0) (err insufficient_free_space, refl, filled_blocks r ranges hr.0)
loop-Remapped zero (r ∷ ranges) (f ∷ frees) h hr hf = absurd (omega arith)
loop-Remapped (suc fuel) (r ∷ ranges) (f ∷ frees) h hr hf =
    rw (filled r hr.0, filled f hf.0)
      (elim (Bool-cases (ltb (range_len r) (range_len f))) [
        | inl less ↦ rw less (
            fits-Outcome fuel r f ranges frees (ground arith) (
              loop-Remapped fuel ranges (record f { start = f.start + range_len r } ∷ frees)
                (omega arith) hr.1 (unfold range_len in (ground arith, hf.1))))
        | inr more ↦ elim (Bool-cases (range_len r == range_len f)) [
          | inl same ↦
              rw (more, same)
                (fills-Outcome fuel r f ranges frees (ground arith)
                  (loop-Remapped fuel ranges frees (omega arith) hr.1 hf.1))
          | inr other ↦
              rw (more, other)
                (spills-Outcome fuel r f ranges frees (ground arith) (
                  loop-Remapped fuel (record r { start = r.start + range_len f } ∷ ranges) frees
                    (omega arith) (unfold range_len in (ground arith, hr.1)) hf.1))
        ]
      ])

-- Where no range is empty, `build_remaps` ends. Either its remaps move exactly the blocks of the ranges,
-- in order, to the first of the free blocks, in order; or it fails, and there are fewer free
-- blocks than blocks to move.
pub build_remaps-Remapped :
    (ranges free : List BlockRange)
    → All IsFilled ranges
    → All IsFilled free
    → (r : Result RemapError (List Remap)) × (build_remaps ranges free ≡ some r)
      × Remapped (blocks_of ranges) (blocks_of free) r
unfolding build_remaps
build_remaps-Remapped ranges free hr hf =
    loop-Remapped (length ranges + length free) ranges free (omega arith) hr hf
