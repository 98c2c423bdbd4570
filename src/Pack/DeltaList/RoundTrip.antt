-- ===== src/Pack/DeltaList/RoundTrip.antt =====
-- `from_delta` after `to_delta` of src/pack/delta_list.rs.
use Prim.Native.Nat.{compare, Ordering, ◌<◌}
use thin_provisioning_tools.Prelude.{
  ℕ, zero, suc, ◌-◌, ◌≤◌, ◌≡◌, refl, ap, List, [], ◌∷◌, length, All, arith, ◌⊎◌, inl, inr,
}
use thin_provisioning_tools.Bytes.{IsU64, wrapping_add, wrapping_sub, wrapping_mul}
use thin_provisioning_tools.Pack.DeltaList.{
  Delta, base, const, pos, neg, count_while, less_test, equal_test, greater_test, to_delta_loop,
  to_delta, values, next_base, from_delta_at, from_delta,
}
use thin_provisioning_tools.Pack.DeltaList.Runs.{
  Segment, Segment-read, less_Segment, equal_Segment, greater_Segment,
}

abbrev Compared : ℕ → ℕ → Type 0
Compared a b =
    ((compare a b ≡ Ordering.lt) × (a < b))
    ⊎ ((compare a b ≡ Ordering.eq) × (a ≡ b))
    ⊎ ((compare a b ≡ Ordering.gt) × (b < a))

compare-cases : (a b : ℕ) → Compared a b
compare-cases a b = ground arith

-- A delta that `pack_delta` can write: its step and base are u64, and its count is from 1 to `most`.
abbrev pub IsPackable : ℕ → Delta → Type 0
IsPackable most (base n) = IsU64 n
IsPackable most (const count) = (1 ≤ count) × (count ≤ most)
IsPackable most (pos delta count) = IsU64 delta × (1 ≤ count) × (count ≤ most)
IsPackable most (neg delta count) = IsU64 delta × (1 ≤ count) × (count ≤ most)

abbrev Correct : ℕ → ℕ → List ℕ → List Delta → Type 0
Correct most b ns ds = (from_delta_at b ds ≡ ns) × All (IsPackable most) ds

module _ (most b n : ℕ) (ns : List ℕ) (count : ℕ) (rest : List ℕ) (ds : List Delta) where
  neg-Correct :
      IsU64 b
      → length ns < most
      → Segment
          (λ x. wrapping_sub x (b - n))
          (λ c. wrapping_sub b (wrapping_mul c (b - n)))
          b
          n
          ns
          count
          rest
      → Correct most (wrapping_sub b (wrapping_mul (b - n) (count - 1))) rest ds
      → Correct most b (n ∷ ns) (neg (b - n) (count - 1) ∷ ds)
  unfolding from_delta_at values next_base
  neg-Correct hb hl seg ih = (
    Segment-read _ _ b n ns count rest _ ds seg (omega arith) ih.0,
    ((omega arith, omega (arith, seg.advances), omega (arith, seg.shorter)), ih.1),
  )

  pos-Correct :
      IsU64 n
      → length ns < most
      → Segment
          (λ x. wrapping_add x (n - b))
          (λ c. wrapping_add b (wrapping_mul c (n - b)))
          b
          n
          ns
          count
          rest
      → Correct most (wrapping_add b (wrapping_mul (n - b) (count - 1))) rest ds
      → Correct most b (n ∷ ns) (pos (n - b) (count - 1) ∷ ds)
  unfolding from_delta_at values next_base
  pos-Correct hn hl seg ih = (
    Segment-read _ _ b n ns count rest _ ds seg (omega arith) ih.0,
    ((omega arith, omega (arith, seg.advances), omega (arith, seg.shorter)), ih.1),
  )

  const-Correct :
      length ns < most
      → Segment (λ x. x) (λ c. b) b n ns count rest
      → Correct most b rest ds
      → Correct most b (n ∷ ns) (const (count - 1) ∷ ds)
  unfolding from_delta_at values next_base
  const-Correct hl seg ih = (
    Segment-read _ _ b n ns count rest b ds seg refl ih.0,
    ((omega (arith, seg.advances), omega (arith, seg.shorter)), ih.1),
  )

abbrev Rounds : ℕ → ℕ → ℕ → List ℕ → Ordering → Type 0
Rounds fuel b n ns Ordering.lt =
    let (count, rest) = count_while (less_test b (b - n)) 1 (n ∷ ns) in
    to_delta_loop (suc fuel) b (n ∷ ns)
    ≡ neg (b - n) (count - 1)
      ∷ to_delta_loop fuel (wrapping_sub b (wrapping_mul (b - n) (count - 1))) rest
Rounds fuel b n ns Ordering.eq =
    let (count, rest) = count_while (equal_test b) 1 (n ∷ ns) in
    to_delta_loop (suc fuel) b (n ∷ ns) ≡ const (count - 1) ∷ to_delta_loop fuel b rest
Rounds fuel b n ns Ordering.gt =
    let (count, rest) = count_while (greater_test b (n - b)) 1 (n ∷ ns) in
    to_delta_loop (suc fuel) b (n ∷ ns)
    ≡ pos (n - b) (count - 1)
      ∷ to_delta_loop fuel (wrapping_add b (wrapping_mul (n - b) (count - 1))) rest

loop_round : (fuel b n : ℕ) (ns : List ℕ) (o : Ordering) → compare n b ≡ o → Rounds fuel b n ns o
unfolding to_delta_loop
loop_round fuel b n ns Ordering.lt e = ground (arith, e)
loop_round fuel b n ns Ordering.eq e = ground (arith, e)
loop_round fuel b n ns Ordering.gt e = ground (arith, e)

loop-Correct :
    (most fuel b : ℕ) (ns : List ℕ)
    → length ns ≤ fuel
    → fuel ≤ most
    → IsU64 b
    → All IsU64 ns
    → Correct most b ns (to_delta_loop fuel b ns)
unfolding from_delta_at
loop-Correct most zero b [] hl hm hb h = unfold to_delta_loop in (refl, tt)
loop-Correct most zero b (n ∷ ns) hl hm hb h = absurd (omega arith)
loop-Correct most (suc fuel) b [] hl hm hb h = unfold to_delta_loop in (refl, tt)
loop-Correct most (suc fuel) b (n ∷ ns) hl hm hb h = elim (compare-cases n b) [
  | inl (e, lt) ↦
      let seg = less_Segment b n ns lt hb h in
      rw (loop_round fuel b n ns Ordering.lt e) (
        neg-Correct most b n ns _ _ _ hb (omega arith) seg (
          loop-Correct most fuel _ (count_while (less_test b (b - n)) 1 (n ∷ ns)).1
            (omega (arith, seg.shorter, seg.advances)) (omega arith) (omega arith) seg.in_range))
  | inr (inl (e, eq)) ↦
      let seg = equal_Segment b n ns eq h in
      rw (loop_round fuel b n ns Ordering.eq e) (
        const-Correct most b n ns _ _ _ (omega arith) seg (
          loop-Correct most fuel b (count_while (equal_test b) 1 (n ∷ ns)).1
            (omega (arith, seg.shorter, seg.advances)) (omega arith) hb seg.in_range))
  | inr (inr (e, gt)) ↦
      let seg = greater_Segment b n ns gt hb h in
      rw (loop_round fuel b n ns Ordering.gt e) (
        pos-Correct most b n ns _ _ _ h.0 (omega arith) seg (
          loop-Correct most fuel _ (count_while (greater_test b (n - b)) 1 (n ∷ ns)).1
            (omega (arith, seg.shorter, seg.advances)) (omega arith) (omega arith) seg.in_range))
]

-- Reading the deltas of a list of u64 back gives the list.
pub from_delta-to_delta : (ns : List ℕ) → All IsU64 ns → from_delta (to_delta ns) ≡ ns
unfolding from_delta to_delta
from_delta-to_delta [] h = refl
from_delta-to_delta (n ∷ ns) h =
    ap (λ (xs : List ℕ). n ∷ xs)
      (loop-Correct (length ns) (length ns) n ns (omega arith) (omega arith) h.0 h.1).0

-- The deltas of a list of u64 have u64 steps, and counts from 1 to one less than its length.
pub to_delta-IsPackable :
    (n : ℕ) (ns : List ℕ) → All IsU64 (n ∷ ns) → All (IsPackable (length ns)) (to_delta (n ∷ ns))
unfolding to_delta
to_delta-IsPackable n ns h =
    (h.0, (loop-Correct (length ns) (length ns) n ns (omega arith) (omega arith) h.0 h.1).1)
