-- ===== src/Shrink.antt =====
-- src/shrink/toplevel.rs: which blocks go where when a data device shrinks.
pub mod Remaps
use thin_provisioning_tools.Prelude.{
  ℕ, zero, suc, ◌+◌, ◌-◌, List, [], ◌∷◌, Option, none, some, Bool, ltb, leb, ◌==◌, if◌then◌else◌,
  Result, ok, err, length,
}

-- `std::ops::Range<u64>`
pub record BlockRange : Type 0 where
  pub start : ℕ
  pub end : ℕ

unfoldable pub range_len : BlockRange → ℕ
range_len r = r.end - r.start

-- `Range::is_empty`
unfoldable pub is_empty : BlockRange → Bool
is_empty r = leb r.end r.start

pub data RemapError : Type 0 where
  insufficient_free_space : RemapError

-- Blocks, and the first of the blocks that they move to.
abbrev pub Remap : Type 0
Remap = BlockRange × ℕ

abbrev pub prepend :
    Remap → Option (Result RemapError (List Remap)) → Option (Result RemapError (List Remap))
prepend x none = none
prepend x (some (err e)) = some (err e)
prepend x (some (ok remaps)) = some (ok (x ∷ remaps))

-- The loop of `build_remaps`. The heads of the lists are the source's `r` and `f`; an empty list stands
-- for its empty range `u64::MAX..u64::MAX`. `none`: out of fuel.
unfoldable pub remap_loop :
    ℕ → List BlockRange → List BlockRange → Option (Result RemapError (List Remap))
unfolding range_len is_empty
remap_loop fuel [] frees = some (ok [])
remap_loop fuel (r ∷ ranges) [] =
    if is_empty r then some (ok []) else some (err insufficient_free_space)
remap_loop zero (r ∷ ranges) (f ∷ frees) = none
remap_loop (suc fuel) (r ∷ ranges) (f ∷ frees) =
    let fits =
      prepend (r, f.start)
        (remap_loop fuel ranges (record f { start = f.start + range_len r } ∷ frees)) in
    let fills = prepend (r, f.start) (remap_loop fuel ranges frees) in
    let spills =
      prepend (record r { end = r.start + range_len f }, f.start)
        (remap_loop fuel (record r { start = r.start + range_len f } ∷ ranges) frees) in
    if is_empty r
    then some (ok [])
    else if is_empty f
    then some (err insufficient_free_space)
    else if ltb (range_len r) (range_len f)
    then fits
    else if range_len r == range_len f
    then fills
    else spills

-- Each round of the loop ends a range or a free chunk.
unfoldable pub build_remaps :
    List BlockRange → List BlockRange → Option (Result RemapError (List Remap))
unfolding remap_loop
build_remaps ranges free = remap_loop (length ranges + length free) ranges free
