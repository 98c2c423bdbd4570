-- ===== src/Pack/DeltaList.antt =====
-- src/pack/delta_list.rs: a list of u64 as differences between neighbours.
pub mod RoundTrip
mod Runs
use thin_provisioning_tools.Prelude.{
  ℕ, zero, suc, ◌+◌, ◌-◌, Bool, true, false, List, [], ◌∷◌, ◌++◌, ◌==◌, length,
}
use thin_provisioning_tools.Bytes.{wrapping_add, wrapping_sub, wrapping_mul}
use Prim.Native.Nat.{compare, Ordering}

-- `pos delta count` and `neg delta count` carry the step and how often it is made.
pub data Delta : Type 0 where
  base : ℕ → Delta
  const : ℕ → Delta
  pos : ℕ → ℕ → Delta
  neg : ℕ → ℕ → Delta

-- `while i < ns.len() && test { i += 1; count += 1; }`. The list is `ns[i..]`, the test reads
-- `ns[i]` and `count`; the result is the count with `ns[i..]` where the loop stops.
unfoldable pub count_while : (ℕ → ℕ → Bool) → ℕ → List ℕ → ℕ × List ℕ
count_while test count [] = (count, [])
count_while test count (n ∷ ns) =
    let more = count_while test (suc count) ns in
    elim (test n count) [ true ↦ more | false ↦ (count, n ∷ ns) ]

abbrev less_test : ℕ → ℕ → ℕ → ℕ → Bool
less_test b delta n count = wrapping_add n (wrapping_mul count delta) == b

abbrev equal_test : ℕ → ℕ → ℕ → Bool
equal_test b n count = n == b

abbrev greater_test : ℕ → ℕ → ℕ → ℕ → Bool
greater_test b delta n count = n == wrapping_add b (wrapping_mul count delta)

-- The outer loop. Each round takes one number at least, so `length ns` rounds are enough.
unfoldable pub to_delta_loop : ℕ → ℕ → List ℕ → List Delta
to_delta_loop zero b ns = []
to_delta_loop (suc fuel) b [] = []
to_delta_loop (suc fuel) b (n ∷ ns) = elim (compare n b) [
  | Ordering.lt ↦
      let delta = b - n in
      let (count, rest) = count_while (less_test b delta) 1 (n ∷ ns) in
      neg delta (count - 1)
      ∷ to_delta_loop fuel (wrapping_sub b (wrapping_mul delta (count - 1))) rest
  | Ordering.eq ↦
      let (count, rest) = count_while (equal_test b) 1 (n ∷ ns) in
      const (count - 1) ∷ to_delta_loop fuel b rest
  | Ordering.gt ↦
      let delta = n - b in
      let (count, rest) = count_while (greater_test b delta) 1 (n ∷ ns) in
      pos delta (count - 1)
      ∷ to_delta_loop fuel (wrapping_add b (wrapping_mul delta (count - 1))) rest
]

unfoldable pub to_delta : List ℕ → List Delta
unfolding to_delta_loop count_while
to_delta [] = []
to_delta (n ∷ ns) = base n ∷ to_delta_loop (length ns) n ns

-- `for _ in 0..count { base = step(base); ns.push(base); }`: the numbers pushed and the last base.
unfoldable pub steps : (ℕ → ℕ) → ℕ → ℕ → List ℕ
steps step zero b = []
steps step (suc count) b = step b ∷ steps step count (step b)

unfoldable pub last_step : (ℕ → ℕ) → ℕ → ℕ → ℕ
last_step step zero b = b
last_step step (suc count) b = last_step step count (step b)

-- What one delta stands for at a base: its numbers, and the base that follows.
unfoldable pub values : ℕ → Delta → List ℕ
unfolding steps
values b (base n) = n ∷ []
values b (const count) = steps (λ x. x) count b
values b (pos delta count) = steps (λ x. wrapping_add x delta) count b
values b (neg delta count) = steps (λ x. wrapping_sub x delta) count b

unfoldable pub next_base : ℕ → Delta → ℕ
unfolding last_step
next_base b (base n) = n
next_base b (const count) = last_step (λ x. x) count b
next_base b (pos delta count) = last_step (λ x. wrapping_add x delta) count b
next_base b (neg delta count) = last_step (λ x. wrapping_sub x delta) count b

-- The inverse, which the source keeps beside the tests of `to_delta`.
unfoldable pub from_delta_at : ℕ → List Delta → List ℕ
from_delta_at b [] = []
from_delta_at b (d ∷ ds) = values b d ++ from_delta_at (next_base b d) ds

unfoldable pub from_delta : List Delta → List ℕ
unfolding from_delta_at values next_base
from_delta ds = from_delta_at 0 ds
