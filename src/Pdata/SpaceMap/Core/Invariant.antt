-- ===== src/Pdata/SpaceMap/Core/Invariant.antt =====
-- The count of allocated blocks of `CoreSpaceMap`, operation by operation.
use thin_provisioning_tools.Prelude.{
  ℕ, zero, suc, ◌+◌, ◌-◌, ◌≤◌, ◌<◌, List, [], ◌∷◌, Option, none, some, ltb, ◌==◌, if◌then◌else◌,
  length, get_elem?, set, replicate, Result, ok, err, ◌≡◌, refl, arith, All, All-replicate,
  length-set, Option-cases, inl, inr, Bool-cases,
}
use thin_provisioning_tools.Pdata.SpaceMap.Core.{
  CoreSpaceMap, SmError, new, set_entry, set_count, inc_entry, inc_loop, inc, dec, find_loop,
  take_block, alloc_from, alloc, recount,
}

abbrev pub used : ℕ → ℕ
used c = if c == 0 then 0 else 1

unfoldable pub count_used : List ℕ → ℕ
count_used [] = 0
count_used (c ∷ cs) = used c + count_used cs

pub record IsValid (sm : CoreSpaceMap) : Type 0 where
  pub counted : sm.nr_allocated ≡ count_used sm.counts
  pub begins : sm.alloc_begin ≤ length sm.counts
  pub fits : All (λ c. c ≤ sm.max_value) sm.counts

pub count_used-set :
    (cs : List ℕ) (i v c : ℕ)
    → get_elem? cs i ≡ some c
    → count_used (set cs i v) + used c ≡ count_used cs + used v
unfolding count_used
count_used-set [] i v c h = cc
count_used-set (x ∷ cs) zero v c h = ground arith
count_used-set (x ∷ cs) (suc i) v c h = omega (arith, count_used-set cs i v c h)

pub fits-set :
    (m : ℕ) (cs : List ℕ) (i v : ℕ) → v ≤ m → All (λ c. c ≤ m) cs → All (λ c. c ≤ m) (set cs i v)
fits-set m [] i v hv h = tt
fits-set m (x ∷ cs) zero v hv h = (hv, h.1)
fits-set m (x ∷ cs) (suc i) v hv h = (h.0, fits-set m cs i v hv h.1)

pub fits-get_elem? :
    (m : ℕ) (cs : List ℕ) (i c : ℕ) → get_elem? cs i ≡ some c → All (λ c. c ≤ m) cs → c ≤ m
fits-get_elem? m [] i c e h = cc
fits-get_elem? m (x ∷ cs) zero c e h = ground arith
fits-get_elem? m (x ∷ cs) (suc i) c e h = fits-get_elem? m cs i c e h.1

count_used-replicate : (n : ℕ) → count_used (replicate n 0) ≡ 0
unfolding count_used
count_used-replicate zero = refl
count_used-replicate (suc n) = omega (arith, count_used-replicate n)

-- A new map counts no block.
pub new-IsValid : (max_value nr_entries : ℕ) → IsValid (new max_value nr_entries)
unfolding new
new-IsValid m n = record {
  counted = omega (arith, count_used-replicate n);
  begins = omega arith;
  fits = All-replicate (λ c. c ≤ m) n 0 (omega arith);
}

-- Writing `v` over the count `c`, with the number of allocated blocks put right.
entry-IsValid :
    (sm : CoreSpaceMap) (b v c nr : ℕ)
    → IsValid sm
    → get_elem? sm.counts b ≡ some c
    → v ≤ sm.max_value
    → nr + used c ≡ sm.nr_allocated + used v
    → IsValid (record sm { counts = set sm.counts b v; nr_allocated = nr })
entry-IsValid sm b v c nr h e le r = record {
  counted = omega (arith, count_used-set sm.counts b v c e, h.counted);
  begins = omega (arith, h.begins, length-set sm.counts b v);
  fits = fits-set sm.max_value sm.counts b v le h.fits;
}

used-le-count_used : (cs : List ℕ) (i c : ℕ) → get_elem? cs i ≡ some c → used c ≤ count_used cs
unfolding count_used
used-le-count_used [] i c h = cc
used-le-count_used (x ∷ cs) zero c h = ground arith
used-le-count_used (x ∷ cs) (suc i) c h = omega (arith, used-le-count_used cs i c h)

recount_lem : (old v nr : ℕ) → used old ≤ nr → recount old v nr + used old ≡ nr + used v
recount_lem old v nr h = ground arith

set_entry-IsValid :
    (b v : ℕ) (o : Option ℕ) (sm : CoreSpaceMap)
    → get_elem? sm.counts b ≡ o
    → IsValid sm
    → IsValid (set_entry b v o sm).1
unfolding set_entry
set_entry-IsValid b v none sm e h = h
set_entry-IsValid b v (some old) sm e h = elim (Bool-cases (ltb sm.max_value v)) [
  | inl high ↦ rw high h
  | inr fits ↦
      let some_used : used old ≤ sm.nr_allocated =
        omega (arith, used-le-count_used sm.counts b old e, h.counted) in
      rw fits (
        entry-IsValid sm b v old _ h e (ground arith) (recount_lem old v sm.nr_allocated some_used))
]

-- `set` keeps the count of allocated blocks right, whether it succeeds or fails.
pub set_count-IsValid : (b v : ℕ) (sm : CoreSpaceMap) → IsValid sm → IsValid (set_count b v sm).1
unfolding set_count
set_count-IsValid b v sm h = set_entry-IsValid b v (get_elem? sm.counts b) sm refl h

inc_entry-IsValid :
    (b : ℕ) (o : Option ℕ) (sm : CoreSpaceMap)
    → get_elem? sm.counts b ≡ o
    → IsValid sm
    → IsValid (inc_entry b o sm).1
unfolding inc_entry
inc_entry-IsValid b none sm e h = h
inc_entry-IsValid b (some c) sm e h = elim (Bool-cases (ltb c sm.max_value)) [
  | inl room ↦ rw room (entry-IsValid sm b (c + 1) c _ h e (ground arith) (ground arith))
  | inr full ↦ rw full h
]

inc_loop-IsValid : (n b : ℕ) (sm : CoreSpaceMap) → IsValid sm → IsValid (inc_loop n b sm).1
unfolding inc_loop
inc_loop-IsValid zero b sm h = h
inc_loop-IsValid (suc n) b sm h =
    let kept = inc_entry-IsValid b (get_elem? sm.counts b) sm refl h in
    go (inc_entry b (get_elem? sm.counts b) sm).0 kept (inc_loop-IsValid n (b + 1) _ kept) refl
  where
    go :
        (r : Result SmError (Unit {0}))
        → IsValid (inc_entry b (get_elem? sm.counts b) sm).1
        → IsValid (inc_loop n (b + 1) (inc_entry b (get_elem? sm.counts b) sm).1).1
        → (inc_entry b (get_elem? sm.counts b) sm).0 ≡ r
        → IsValid (inc_loop (suc n) b sm).1
    go (err e) kept later p = rw (p, inc_loop) kept
    go (ok u) kept later p = rw (p, inc_loop) later

-- `inc` keeps it right too, also where it fails on the way and leaves some blocks counted once more.
pub inc-IsValid : (begin len : ℕ) (sm : CoreSpaceMap) → IsValid sm → IsValid (inc begin len sm).1
unfolding inc
inc-IsValid begin len sm h = ground (arith, inc_loop-IsValid len begin sm h)

-- `dec` keeps the count of allocated blocks right, whether it succeeds or fails.
pub dec-IsValid : (b : ℕ) (sm : CoreSpaceMap) → IsValid sm → IsValid (dec b sm).1
unfolding dec
dec-IsValid b sm h = elim (Option-cases (get_elem? sm.counts b)) [
  | inl e ↦ ground (arith, e)
  | inr (c, e) ↦ ground (arith, e, set_count-IsValid b (c - 1) sm h)
]

-- A block that the search finds is in the map, was not passed over, and is free.
pub find_loop-eq-some :
    (counts : List ℕ) (n begin b : ℕ)
    → find_loop counts n begin ≡ ok (some b)
    → (get_elem? counts b ≡ some 0) × (begin ≤ b) × (b < begin + n)
unfolding find_loop
find_loop-eq-some counts zero begin b h = cc
find_loop-eq-some counts (suc n) begin b h =
    ground (arith, find_loop-eq-some counts n (begin + 1) b)

pub get_elem?-lt {ℓ} :
    {A : Type ℓ} (xs : List A) (i : ℕ) (a : A) → get_elem? xs i ≡ some a → i < length xs
get_elem?-lt [] i a h = cc
get_elem?-lt (x ∷ xs) zero a h = omega arith
get_elem?-lt (x ∷ xs) (suc i) a h = omega (arith, get_elem?-lt xs i a h)

take_block-IsValid :
    (b : ℕ) (sm : CoreSpaceMap)
    → IsValid sm
    → get_elem? sm.counts b ≡ some 0
    → 1 ≤ sm.max_value
    → IsValid (take_block b sm)
unfolding take_block
take_block-IsValid b sm h e m =
    let v = entry-IsValid sm b 1 0 (sm.nr_allocated + 1) h e m (omega arith) in
    record {
      counted = v.counted;
      begins = omega (arith, get_elem?-lt sm.counts b 0 e, length-set sm.counts b 1);
      fits = v.fits;
    }

-- `alloc` keeps the count of allocated blocks right, and `alloc_begin` inside the map.
pub alloc-IsValid : (sm : CoreSpaceMap) → IsValid sm → 1 ≤ sm.max_value → IsValid (alloc sm).1
unfolding alloc
alloc-IsValid sm h m =
    go (find_loop sm.counts (length sm.counts - sm.alloc_begin) sm.alloc_begin)
      (find_loop sm.counts (sm.alloc_begin - 0) 0) refl refl
  where
    go :
        (above below : Result SmError (Option ℕ))
        → find_loop sm.counts (length sm.counts - sm.alloc_begin) sm.alloc_begin ≡ above
        → find_loop sm.counts (sm.alloc_begin - 0) 0 ≡ below
        → IsValid (alloc_from above below sm).1
    go (err e) below p q = h
    go (ok (some b)) below p q = take_block-IsValid b sm h (find_loop-eq-some sm.counts _ _ b p).0 m
    go (ok none) (err e) p q = h
    go (ok none) (ok (some b)) p q =
        take_block-IsValid b sm h (find_loop-eq-some sm.counts _ _ b q).0 m
    go (ok none) (ok none) p q = h
