-- ===== src/Pdata/SpaceMap/Core/Counts.antt =====
-- What the counts are after `set`, `inc` and `dec`.
use thin_provisioning_tools.Prelude.{
  ℕ, zero, suc, ◌+◌, ◌-◌, ◌≤◌, ◌<◌, Option, none, some, Bool, true, false, ltb, leb, ◌==◌, length,
  get_elem?, set, Result, ok, err, ◌≡◌, ◌≢◌, refl, arith, inl, inr, Bool-cases, get_elem?-set_self,
  get_elem?-set_ne, ◌&&◌, length-set, if◌then◌else◌, lt→ltb, ◌∙◌, sym, ap,
}
use thin_provisioning_tools.Pdata.SpaceMap.Core.{
  CoreSpaceMap, SmError, out_of_bounds, not_counted, get, set_entry, set_count, inc_entry, inc_loop,
  inc, dec, recount,
}
use thin_provisioning_tools.Pdata.SpaceMap.Core.Invariant.{IsValid, get_elem?-lt, fits-get_elem?}
use thin_provisioning_tools.Pdata.SpaceMap.Core.Alloc.{get_elem?_inside}

-- All counts among the `n` from `begin` on are below the maximum.
abbrev pub HasRoom : CoreSpaceMap → ℕ → ℕ → Type 0
HasRoom sm n begin =
    (j c : ℕ) → begin ≤ j → j < begin + n → get_elem? sm.counts j ≡ some c → c < sm.max_value

-- What `inc` is to do to the count of a block.
abbrev pub raised : ℕ → ℕ → ℕ → ℕ → ℕ
raised begin n j c = if leb begin j && ltb j (begin + n) then c + 1 else c

-- Every block of the second map has the count of the first, one more where it is in the range.
abbrev pub IsRaised : ℕ → ℕ → CoreSpaceMap → CoreSpaceMap → Type 0
IsRaised begin n sm sm' =
    (j c : ℕ) → get_elem? sm.counts j ≡ some c → get_elem? sm'.counts j ≡ some (raised begin n j c)

abbrev incremented : ℕ → ℕ → CoreSpaceMap → CoreSpaceMap
incremented b c sm = record sm {
  counts = set sm.counts b (c + 1);
  nr_allocated = if c == 0 then sm.nr_allocated + 1 else sm.nr_allocated;
}

inc_entry_room :
    (b c : ℕ) (sm : CoreSpaceMap)
    → get_elem? sm.counts b ≡ some c
    → c < sm.max_value
    → inc_entry b (get_elem? sm.counts b) sm ≡ (ok tt, incremented b c sm)
unfolding inc_entry
inc_entry_room b c sm e h = rw e (rw (lt→ltb c sm.max_value h) refl)

inc_loop_round :
    (n b c : ℕ) (sm : CoreSpaceMap)
    → get_elem? sm.counts b ≡ some c
    → c < sm.max_value
    → inc_loop (suc n) b sm ≡ inc_loop n (b + 1) (incremented b c sm)
unfolding inc_loop
inc_loop_round n b c sm e h =
    ap
      (λ (p : Result SmError (Unit {0}) × CoreSpaceMap).
        elim p.0 as (λ _. Result SmError (Unit {0}) × CoreSpaceMap) [
          | err e ↦ (err e, p.1)
          | ok _ ↦ inc_loop n (b + 1) p.1
        ])
      (inc_entry_room b c sm e h)

-- The counts of the blocks other than `b`, and of `b`, after one round.
HasRoom-next :
    (n b c : ℕ) (sm : CoreSpaceMap) → HasRoom sm (suc n) b → HasRoom (incremented b c sm) n (b + 1)
HasRoom-next n b c sm room j d lo hi e =
    room j d (omega arith) (omega arith)
      (sym (get_elem?-set_ne sm.counts b j (c + 1) (omega arith)) ∙ e)

IsRaised-next :
    (n b c : ℕ) (sm sm' : CoreSpaceMap)
    → get_elem? sm.counts b ≡ some c
    → IsRaised (b + 1) n (incremented b c sm) sm'
    → IsRaised b (suc n) sm sm'
IsRaised-next n b c sm sm' eb later j d e = elim (Bool-cases (j == b)) [
  | inl here ↦
      let same : j ≡ b = ground arith in
      let written = get_elem?-set_self sm.counts b (c + 1) (get_elem?-lt sm.counts b c eb) in
      ground (arith, same, written, e, eb, later b (c + 1) written)
  | inr other ↦
      let kept = get_elem?-set_ne sm.counts b j (c + 1) (ground arith) in
      ground (arith, later j d (kept ∙ e))
]

inc_loop-IsRaised :
    (n begin : ℕ) (sm : CoreSpaceMap)
    → begin + n ≤ length sm.counts
    → HasRoom sm n begin
    → (sm' : CoreSpaceMap) × (inc_loop n begin sm ≡ (ok tt, sm')) × IsRaised begin n sm sm'
unfolding inc_loop
inc_loop-IsRaised zero begin sm h room = (sm, refl, λ j c e. ground (arith, e))
inc_loop-IsRaised (suc n) begin sm h room =
    let (c, e) = get_elem?_inside sm.counts begin (omega arith) in
    let low = room begin c (omega arith) (omega arith) e in
    let (sm', run, raises) =
      inc_loop-IsRaised n (begin + 1) (incremented begin c sm)
        (omega (arith, length-set sm.counts begin (c + 1))) (HasRoom-next n begin c sm room) in
    (sm', inc_loop_round n begin c sm e low ∙ run, IsRaised-next n begin c sm sm' e raises)

-- Where the range is inside the map and all its counts are below the maximum, `inc` succeeds, adds one
-- to the count of every block of the range and leaves the others alone.
pub inc-IsRaised :
    (begin len : ℕ) (sm : CoreSpaceMap)
    → begin + len ≤ length sm.counts
    → HasRoom sm len begin
    → (sm' : CoreSpaceMap) × (inc begin len sm ≡ (ok tt, sm')) × IsRaised begin len sm sm'
unfolding inc
inc-IsRaised begin len sm h room =
    let inside : ltb (length sm.counts) (begin + len) ≡ false = ground arith in
    rw inside (inc_loop-IsRaised len begin sm h room)

-- What `dec` is to do, by the count of the block.
abbrev pub DecOutcome : ℕ → CoreSpaceMap → Option ℕ → Result SmError Bool × CoreSpaceMap → Type 0
DecOutcome b sm none r = r ≡ (err out_of_bounds, sm)
DecOutcome b sm (some zero) r = r ≡ (err not_counted, sm)
DecOutcome b sm (some (suc c)) r =
    (r.0 ≡ ok (c == 0))
    × (get_elem? r.1.counts b ≡ some c)
    × ((j : ℕ) → b ≢ j → get_elem? r.1.counts j ≡ get_elem? sm.counts j)

set_count_fits :
    (b v old : ℕ) (sm : CoreSpaceMap)
    → get_elem? sm.counts b ≡ some old
    → v ≤ sm.max_value
    → set_count b v sm ≡ (
      ok old,
      record sm { counts = set sm.counts b v; nr_allocated = recount old v sm.nr_allocated },
    )
unfolding set_count set_entry
set_count_fits b v old sm e h = ground (arith, e)

dec_used :
    (b c : ℕ) (sm : CoreSpaceMap)
    → get_elem? sm.counts b ≡ some (suc c)
    → c ≤ sm.max_value
    → dec b sm ≡ (
      ok (c == 0),
      record sm { counts = set sm.counts b c; nr_allocated = recount (suc c) c sm.nr_allocated },
    )
unfolding dec get
dec_used b c sm e h =
    let less : suc c - 1 ≡ c = omega arith in
    let free : (suc c == 1) ≡ (c == 0) = ground arith in
    let used : ltb 0 (suc c) ≡ true = ground arith in
    let lowered : CoreSpaceMap = record sm {
      counts = set sm.counts b c;
      nr_allocated = recount (suc c) c sm.nr_allocated;
    } in
    let written : set_count b (suc c - 1) sm ≡ (ok (suc c), lowered) =
      rw less (set_count_fits b c (suc c) sm e h) in
    rw (e, dec, get)
      (rw used (
        ap
          (λ (p : Result SmError ℕ × CoreSpaceMap).
            elim p.0 as (λ _. Result SmError Bool × CoreSpaceMap) [
              | err e ↦ (err e, p.1)
              | ok _ ↦ (ok (suc c == 1), p.1)
            ])
          written
        ∙ ap (λ (f : Bool). (ok f, lowered)) free))

-- `dec` fails beyond the map and on a free block, without a change; else it takes one off the count of
-- the block, leaves the other counts alone, and tells whether the block is free now.
pub dec_outcome :
    (b : ℕ) (sm : CoreSpaceMap) → IsValid sm → DecOutcome b sm (get_elem? sm.counts b) (dec b sm)
unfolding dec
dec_outcome b sm h = go (get_elem? sm.counts b) refl
  where
    go : (o : Option ℕ) → get_elem? sm.counts b ≡ o → DecOutcome b sm o (dec b sm)
    go none e = ground (arith, e)
    go (some zero) e = ground (arith, e)
    go (some (suc c)) e =
        let low = fits-get_elem? sm.max_value sm.counts b (suc c) e h.fits in
        rw (dec_used b c sm e (omega arith)) (
          refl,
          get_elem?-set_self sm.counts b c (get_elem?-lt sm.counts b (suc c) e),
          λ j ne. get_elem?-set_ne sm.counts b j c ne,
        )
