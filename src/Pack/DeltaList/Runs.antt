-- ===== src/Pack/DeltaList/Runs.antt =====
-- The inner loops of `to_delta`: what a run of equal steps has read when its loop stops.
use Prim.Native.Nat.{◌<◌}
use thin_provisioning_tools.Prelude.{
  ℕ, suc, ◌+◌, ◌-◌, ◌≤◌, ◌≡◌, refl, ap, sym, ◌∙◌, Bool, true, List, [], ◌∷◌, ◌++◌, length, All,
  arith, Bool-cases, ==_iff, inl, inr,
}
use mathlib.Core.Path.{ap₂}
use thin_provisioning_tools.Bytes.{IsU64, wrapping_add, wrapping_sub, wrapping_mul}
use thin_provisioning_tools.Pack.DeltaList.{
  Delta, count_while, less_test, equal_test, greater_test, steps, last_step, from_delta_at,
}

module _ (step at : ℕ → ℕ) where
  -- What one round of the outer loop reads from `b`, the base that `at` starts from.
  pub record Segment (b n : ℕ) (ns : List ℕ) (count : ℕ) (rest : List ℕ) : Type 0 where
    pub advances : 2 ≤ count
    pub read : steps step (count - 1) b ++ rest ≡ n ∷ ns
    pub stops : last_step step (count - 1) b ≡ at (count - 1)
    pub shorter : length rest + count ≡ length ns + 2
    pub in_range : All IsU64 rest

  pub Segment-read :
      (b n : ℕ) (ns : List ℕ) (count : ℕ) (rest : List ℕ) (b' : ℕ) (ds : List Delta)
      → Segment b n ns count rest
      → at (count - 1) ≡ b'
      → from_delta_at b' ds ≡ rest
      → steps step (count - 1) b ++ from_delta_at (last_step step (count - 1) b) ds ≡ n ∷ ns
  Segment-read b n ns count rest b' ds seg e ih = rw (seg.stops, e, ih) seg.read

-- What a run of the inner loop has read, for a test that accepts the numbers of a progression:
-- `at c` is the number that the progression reaches after `c` steps.
module _ (test : ℕ → ℕ → Bool) (step at : ℕ → ℕ)
    (follows : (c n : ℕ)
      → IsU64 n
      → test n (suc c) ≡ true
      → (step (at c) ≡ n) × (at (suc c) ≡ n)) where
  record Ran (c : ℕ) (ns : List ℕ) (count : ℕ) (rest : List ℕ) : Type 0 where
    pub counted : suc c ≤ count
    pub read : steps step (count - suc c) (at c) ++ rest ≡ ns
    pub stops : last_step step (count - suc c) (at c) ≡ at (count - 1)
    pub shorter : length rest + count ≡ length ns + suc c
    pub in_range : All IsU64 rest

  Ran-cons :
      (c n count : ℕ) (ns rest : List ℕ)
      → IsU64 n
      → test n (suc c) ≡ true
      → Ran (suc c) ns count rest
      → Ran c (n ∷ ns) count rest
  unfolding steps last_step
  Ran-cons c n count ns rest hn accepted ran =
      let (stepped, reached) = follows c n hn accepted in
      let one_more : count - suc c ≡ suc (count - suc (suc c)) = omega (arith, ran.counted) in
      let same : at (suc c) ≡ step (at c) = reached ∙ sym stepped in
      record {
        counted = omega (arith, ran.counted);
        read = rw (one_more, ← same) (ap₂ (λ (x : ℕ) (xs : List ℕ). x ∷ xs) reached ran.read);
        stops =
            ap (λ (k : ℕ). last_step step k (at c)) one_more
            ∙ ap (last_step step (count - suc (suc c))) (sym same)
            ∙ ran.stops;
        shorter = omega (arith, ran.shorter);
        in_range = ran.in_range;
      }

  Ran-stop : (c : ℕ) (ns : List ℕ) → All IsU64 ns → Ran c ns (suc c) ns
  unfolding steps last_step
  Ran-stop c ns h =
      let none_more : suc c - suc c ≡ 0 = omega arith in
      let same : suc c - 1 ≡ c = omega arith in
      record {
        counted = omega arith;
        read = rw none_more;
        stops = rw same (ap (λ (k : ℕ). last_step step k (at c)) none_more);
        shorter = omega arith;
        in_range = h;
      }

  count_while-Ran :
      (c : ℕ) (ns : List ℕ)
      → All IsU64 ns
      → Ran c ns (count_while test (suc c) ns).0 (count_while test (suc c) ns).1
  unfolding count_while steps last_step
  count_while-Ran c [] h = Ran-stop c [] h
  count_while-Ran c (n ∷ ns) h = elim (Bool-cases (test n (suc c))) [
    | inl accepted ↦
        rw (accepted, count_while)
          (Ran-cons c n _ ns _ h.0 accepted (count_while-Ran (suc c) ns h.1))
    | inr refused ↦ rw (refused, count_while) (Ran-stop c (n ∷ ns) h)
  ]

  count_while-Segment :
      (b n : ℕ) (ns : List ℕ)
      → at 0 ≡ b
      → test n 1 ≡ true
      → All IsU64 (n ∷ ns)
      → Segment step at b n ns (count_while test 1 (n ∷ ns)).0 (count_while test 1 (n ∷ ns)).1
  unfolding count_while
  count_while-Segment b n ns start accepted h =
      let after = count_while-Ran 1 ns h.1 in
      let run = Ran-cons 0 n _ ns _ h.0 accepted after in
      rw (accepted, count_while)
        (record {
          advances = omega (arith, after.counted);
          read = rw start at run.read;
          stops = rw start at run.stops;
          shorter = omega (arith, run.shorter);
          in_range = run.in_range;
        })

less_follows :
    (b delta c n : ℕ)
    → IsU64 b
    → IsU64 delta
    → IsU64 n
    → less_test b delta n (suc c) ≡ true
    → (wrapping_sub (wrapping_sub b (wrapping_mul c delta)) delta ≡ n)
      × (wrapping_sub b (wrapping_mul (suc c) delta) ≡ n)
less_follows b delta c n hb hd hn e =
    let e' : wrapping_add n (wrapping_mul (suc c) delta) ≡ b = (==_iff _ _).0 e in
    (omega arith, omega arith)

greater_follows :
    (b delta c n : ℕ)
    → IsU64 b
    → IsU64 delta
    → IsU64 n
    → greater_test b delta n (suc c) ≡ true
    → (wrapping_add (wrapping_add b (wrapping_mul c delta)) delta ≡ n)
      × (wrapping_add b (wrapping_mul (suc c) delta) ≡ n)
greater_follows b delta c n hb hd hn e =
    let e' : n ≡ wrapping_add b (wrapping_mul (suc c) delta) = (==_iff _ _).0 e in
    (omega arith, omega arith)

equal_follows : (b c n : ℕ) → IsU64 n → equal_test b n (suc c) ≡ true → (b ≡ n) × (b ≡ n)
equal_follows b c n hn e = (sym ((==_iff _ _).0 e), sym ((==_iff _ _).0 e))

pub less_Segment :
    (b n : ℕ) (ns : List ℕ)
    → n < b
    → IsU64 b
    → All IsU64 (n ∷ ns)
    → let (count, rest) = count_while (less_test b (b - n)) 1 (n ∷ ns) in
      Segment
        (λ x. wrapping_sub x (b - n))
        (λ c. wrapping_sub b (wrapping_mul c (b - n)))
        b
        n
        ns
        count
        rest
less_Segment b n ns lt hb h =
    count_while-Segment (less_test b (b - n)) (λ x. wrapping_sub x (b - n))
      (λ c. wrapping_sub b (wrapping_mul c (b - n)))
      (λ c m hm. less_follows b (b - n) c m hb (omega arith) hm) b n ns (omega arith)
      ((==_iff _ _).1 (omega arith)) h

pub greater_Segment :
    (b n : ℕ) (ns : List ℕ)
    → b < n
    → IsU64 b
    → All IsU64 (n ∷ ns)
    → let (count, rest) = count_while (greater_test b (n - b)) 1 (n ∷ ns) in
      Segment
        (λ x. wrapping_add x (n - b))
        (λ c. wrapping_add b (wrapping_mul c (n - b)))
        b
        n
        ns
        count
        rest
greater_Segment b n ns gt hb h =
    count_while-Segment (greater_test b (n - b)) (λ x. wrapping_add x (n - b))
      (λ c. wrapping_add b (wrapping_mul c (n - b)))
      (λ c m hm. greater_follows b (n - b) c m hb (omega arith) hm) b n ns (omega arith)
      ((==_iff _ _).1 (omega arith)) h

pub equal_Segment :
    (b n : ℕ) (ns : List ℕ)
    → n ≡ b
    → All IsU64 (n ∷ ns)
    → let (count, rest) = count_while (equal_test b) 1 (n ∷ ns) in
      Segment (λ x. x) (λ c. b) b n ns count rest
equal_Segment b n ns e h =
    count_while-Segment (equal_test b) (λ x. x) (λ c. b) (equal_follows b) b n ns refl
      ((==_iff _ _).1 e) h
