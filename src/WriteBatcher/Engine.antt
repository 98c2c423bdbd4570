-- ===== src/WriteBatcher/Engine.antt =====
-- The I/O engine behind src/write_batcher.rs: `write_many` of src/io_engine/base.rs.
use thin_provisioning_tools.Prelude.{
  ℕ, zero, Bool, All, get_elem?, ◌≢◌, suc, ◌≡◌, ◌∙◌, refl, sym, ap, inl, inr, true, false, ◌==◌,
  if◌then◌else◌, Option, none, some, List, [], ◌∷◌, Bool-cases, arith,
}
use mathlib.Core.Path.{subst}
use thin_provisioning_tools.Bytes.{Bytes}
use thin_provisioning_tools.WriteBatcher.{Block, Backend, find_queued}

-- No two blocks of the queue have one location.
abbrev pub Distinct : List Block → Type 0
Distinct [] = Unit {0}
Distinct (b ∷ queue) = (find_queued b.loc queue ≡ none) × Distinct queue

abbrev pub or_else : Option Bytes → Bytes → Bytes
or_else none d = d
or_else (some x) d = x

-- Did the engine report a failure for the block with this location? A block without a result counts as
-- failed.
abbrev pub lost : ℕ → List Block → List Bool → Bool
lost n [] results = false
lost n (b ∷ queue) [] = if b.loc == n then true else lost n queue []
lost n (b ∷ queue) (r ∷ results) =
    if b.loc == n then (if r then false else true) else lost n queue results

-- Where `write_many` of different blocks returns results, the blocks that succeeded are on the device,
-- and those that it was not given are as they were; a block that failed may hold anything, and so may
-- the device where the whole call fails. `image` is the content of the device, for the proofs.
pub record IsEngine {E S R : Type 0} (backend : Backend E S R) : Type 0 where
  pub image : E → ℕ → Bytes
  pub read_image : (e : E) (b : ℕ) (d : Bytes) → backend.read e b ≡ some d → d ≡ image e b
  pub write_block :
      (e : E) (queue : List Block) (results : List Bool) (i : ℕ) (b : Block)
      → Distinct queue
      → (backend.write_many e queue).1 ≡ some results
      → get_elem? queue i ≡ some b
      → get_elem? results i ≡ some true
      → image (backend.write_many e queue).0 b.loc ≡ b.data_of
  pub write_other :
      (e : E) (queue : List Block) (results : List Bool) (n : ℕ)
      → (backend.write_many e queue).1 ≡ some results
      → All (λ b. b.loc ≢ n) queue
      → image (backend.write_many e queue).0 n ≡ image e n

-- A block that is not lost is not in the queue, or was written and is the one that is found.
data Kept (n : ℕ) (queue : List Block) (results : List Bool) : Type 0 where
  not_queued : All (λ b. b.loc ≢ n) queue → find_queued n queue ≡ none → Kept n queue results
  in_place :
      (i : ℕ) (b : Block)
      → get_elem? queue i ≡ some b
      → get_elem? results i ≡ some true
      → b.loc ≡ n
      → find_queued n queue ≡ some b.data_of
      → Kept n queue results

lost-Kept :
    (n : ℕ) (queue : List Block) (results : List Bool)
    → Distinct queue
    → lost n queue results ≡ false
    → Kept n queue results
unfolding find_queued
lost-Kept n [] results d h = not_queued tt refl
lost-Kept n (b ∷ queue) [] d h = elim (Bool-cases (b.loc == n)) [
  | inl here ↦ absurd (let clash = rw here at h in cc)
  | inr there ↦ later (lost-Kept n queue [] d.1 (rw there at h))
]
  where
    later : Kept n queue [] → Kept n (b ∷ queue) []
    later (not_queued others absent) = not_queued (ground arith, others) (rw absent (ground arith))
    later (in_place i blk e r at found) =
        in_place (suc i) blk e (absurd (let clash = r in cc)) at (rw found refl)
lost-Kept n (b ∷ queue) (r ∷ results) d h = elim (Bool-cases (b.loc == n)) [
  | inl here ↦
      let same : b.loc ≡ n = ground arith in
      let absent : find_queued n queue ≡ none = subst (λ k. find_queued k queue ≡ none) same d.0 in
      elim (Bool-cases r) [
        | inl done ↦ in_place zero b refl (ap some done) same (rw (absent, here) refl)
        | inr failed ↦ absurd (let clash = rw (here, failed) at h in cc)
      ]
  | inr there ↦ later (ground arith) there (lost-Kept n queue results d.1 (rw there at h))
]
  where
    later :
        b.loc ≢ n → (b.loc == n) ≡ false → Kept n queue results → Kept n (b ∷ queue) (r ∷ results)
    later apart there (not_queued others absent) =
        not_queued (apart, others) (rw (absent, there) refl)
    later apart there (in_place i blk e done at found) =
        in_place (suc i) blk e done at (rw found refl)

module _ {E S R : Type 0} {backend : Backend E S R} (laws : IsEngine backend) where
  open laws use {image}

  -- What `write_many` leaves of the blocks that are not lost.
  pub write_image :
      (e : E) (queue : List Block) (results : List Bool)
      → Distinct queue
      → (backend.write_many e queue).1 ≡ some results
      → (n : ℕ) → lost n queue results ≡ false
      → image (backend.write_many e queue).0 n ≡ or_else (find_queued n queue) (image e n)
  write_image e queue results d done n h = go (lost-Kept n queue results d h)
    where
      go :
          Kept n queue results
          → image (backend.write_many e queue).0 n ≡ or_else (find_queued n queue) (image e n)
      go (not_queued others absent) = rw absent (laws.write_other e queue results n done others)
      go (in_place i b at_i ok_i same found) = rw found (
          ap (image (backend.write_many e queue).0) (sym same)
          ∙ laws.write_block e queue results i b d done at_i ok_i)
