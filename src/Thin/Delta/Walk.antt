-- ===== src/Thin/Delta/Walk.antt =====
-- The loops of dump_delta_mappings of src/thin/delta.rs.
use thin_provisioning_tools.Prelude.{
  ℕ, zero, suc, ◌+◌, ◌-◌, ◌≤◌, ◌≡◌, ◌∙◌, min, refl, sym, ap, ltb, ◌==◌, List, [], ◌∷◌, ◌++◌, Result,
  ok, ◌>>=◌, >>=_assoc, >>=_ext, map, ==_refl, Bool-cases, inl, inr, arith,
}
use thin_provisioning_tools.Thin.Delta.{
  DataMapping, Delta, left_only, right_only, differ, same, DeltaError, MappingStream, new, rounds,
  compare_round, compare_loop, drain, dump_delta_mappings,
}
use thin_provisioning_tools.Thin.Delta.Expand.{find, Above}
use thin_provisioning_tools.Thin.Delta.Round.{compare_at, or_else, change_at, drop_run, consume-new}
use thin_provisioning_tools.Thin.Delta.Compare.{Round, left-Round, right-Round, both-Round}
use thin_provisioning_tools.Thin.Delta.Pointwise.{
  delta_at, or_else_assoc, Spans, Walked, ended, Walked-Spans, Walked-delta_at,
}

module _ {S : Type 0} (delta : S → Delta → Result DeltaError S) where
  -- The visitor called on the deltas in their order, up to its first error.
  abbrev pub replay : List Delta → S → Result DeltaError S
  replay [] s = ok s
  replay (d ∷ ds) s = delta s d >>= replay ds

  replay-append : (ds es : List Delta) (s : S) → replay (ds ++ es) s ≡ (replay ds s >>= replay es)
  replay-append [] es s = refl
  replay-append (d ∷ ds) es s =
      >>=_ext (delta s d) _ _ (λ s'. replay-append ds es s') ∙ sym (>>=_assoc (delta s d) _ _)

  compare_round-Round :
      (lo : ℕ) (lm rm : DataMapping) (ls rs : List DataMapping)
      → Above lo (lm ∷ ls)
      → Above lo (rm ∷ rs)
      → (d : Delta) × (l' : List DataMapping) × (r' : List DataMapping) × ((s : S)
          → compare_round delta lm rm (new (lm ∷ ls)) (new (rm ∷ rs)) s
            ≡ (delta s d >>= λ s'. ok (new l', new r', s')))
        × Round lo (lm ∷ ls) (rm ∷ rs) l' r' d
  unfolding compare_round
  compare_round-Round lo lm rm ls rs hl hr = elim (Bool-cases (ltb lm.thin_begin rm.thin_begin)) [
    | inl before ↦
        let len : ℕ = min lm.len (rm.thin_begin - lm.thin_begin) in
        (
          left_only (record lm { len = len }),
          drop_run len lm ls,
          rm ∷ rs,
          λ s. rw (before, consume-new len lm ls (omega arith)),
          left-Round lo lm rm ls rs hl hr len (ground arith) refl,
        )
    | inr not_before ↦ elim (Bool-cases (ltb rm.thin_begin lm.thin_begin)) [
      | inl after ↦
          let len : ℕ = min rm.len (lm.thin_begin - rm.thin_begin) in
          (
            right_only (record rm { len = len }),
            lm ∷ ls,
            drop_run len rm rs,
            λ s. rw (not_before, after, consume-new len rm rs (omega arith)),
            right-Round lo lm rm ls rs hl hr len (ground arith) refl,
          )
      | inr not_after ↦
          let begins : lm.thin_begin ≡ rm.thin_begin = ground arith in
          let len : ℕ = min lm.len rm.len in
          elim (Bool-cases (lm.data_begin == rm.data_begin)) [
            | inl data_eq ↦ (
              same (record lm { len = len }),
              drop_run len lm ls,
              drop_run len rm rs,
              λ s. rw (
                not_before,
                not_after,
                data_eq,
                consume-new len lm ls (omega arith),
                consume-new len rm rs (omega arith),
              ),
              both-Round lo lm rm ls rs hl hr len _ begins refl refl refl
                  (λ t inside. rw inside (ground arith)) (λ t outside. rw outside),
            )
            | inr data_ne ↦ (
              differ (record {
                thin_begin = lm.thin_begin;
                left_data_begin = lm.data_begin;
                right_data_begin = rm.data_begin;
                len = len;
              }),
              drop_run len lm ls,
              drop_run len rm rs,
              λ s. rw (
                not_before,
                not_after,
                data_ne,
                consume-new len lm ls (omega arith),
                consume-new len rm rs (omega arith),
              ),
              both-Round lo lm rm ls rs hl hr len _ begins refl refl refl
                  (λ t inside. rw inside (ground arith)) (λ t outside. rw outside),
            )
          ]
    ]
  ]

  walk :
      (fuel lo : ℕ) (l r : List DataMapping)
      → Above lo l
      → Above lo r
      → rounds l + rounds r ≤ fuel
      → (ds : List Delta) × (l' : List DataMapping) × (r' : List DataMapping) × ((s : S)
          → compare_loop delta fuel (new l) (new r) s
            ≡ (replay ds s >>= λ s'. ok (new l', new r', s')))
        × Walked lo l r l' r' ds
  unfolding compare_loop new rounds
  walk zero lo [] r hl hr le = ([], [], r, λ s. refl, ended lo [] r hl hr (inl refl))
  walk zero lo (lm ∷ ls) [] hl hr le = absurd (omega arith)
  walk zero lo (lm ∷ ls) (rm ∷ rs) hl hr le = absurd (omega arith)
  walk (suc fuel) lo [] r hl hr le = ([], [], r, λ s. refl, ended lo [] r hl hr (inl refl))
  walk (suc fuel) lo (lm ∷ ls) [] hl hr le =
      ([], lm ∷ ls, [], λ s. refl, ended lo (lm ∷ ls) [] hl hr (inr refl))
  walk (suc fuel) lo (lm ∷ ls) (rm ∷ rs) hl hr le =
      let (d, l1, r1, first, round) = compare_round-Round lo lm rm ls rs hl hr in
      let (ds, l', r', run, walked) =
        walk fuel round.lo l1 r1 round.left_above round.right_above
          (omega (arith, round.progress)) in
      (
        d ∷ ds,
        l',
        r',
        λ s.
            ap (λ e. e >>= λ p. compare_loop delta fuel p.0 p.1 p.2) (first s)
            ∙ >>=_assoc (delta s d) _ _
            ∙ >>=_ext (delta s d) _ _ run
            ∙ sym (>>=_assoc (delta s d) _ _),
        record {
          end = walked.end;
          left_above = walked.left_above;
          right_above = walked.right_above;
          spans = λ es later. (round.begins, rw round.ends (walked.spans es later));
          one_empty = walked.one_empty;
          left_rounds = omega (arith, round.left_rounds, walked.left_rounds);
          right_rounds = omega (arith, round.right_rounds, walked.right_rounds);
          pointwise = λ t.
              round.pointwise t
              ∙ ap (or_else (change_at d t)) (walked.pointwise t)
              ∙ sym (or_else_assoc (change_at d t) (delta_at ds t) _);
        },
      )

  drain-replay :
      (side : DataMapping → Delta) (fuel : ℕ) (ms : List DataMapping) (s : S)
      → rounds ms ≤ fuel
      → drain delta side fuel (new ms) s ≡ replay (map side ms) s
  unfolding drain rounds new
  drain-replay side zero [] s le = refl
  drain-replay side zero (m ∷ ms) s le = absurd (omega arith)
  drain-replay side (suc fuel) [] s le = refl
  drain-replay side (suc fuel) (m ∷ ms) s le = >>=_ext (delta s (side m)) _ _ (λ s'.
      rw (consume-new m.len m ms (omega arith), ==_refl m.len)
        (drain-replay side fuel ms s' (omega arith)))

  drain_both :
      (l r l' r' : List DataMapping) (s1 : S)
      → rounds l' ≤ rounds l
      → rounds r' ≤ rounds r
      → (drain delta left_only (rounds l) (new l') s1
          >>= drain delta right_only (rounds r) (new r'))
        ≡ replay (map left_only l' ++ map right_only r') s1
  drain_both l r l' r' s1 hl hr = rw (drain-replay left_only (rounds l) l' s1 hl) (
      >>=_ext (replay (map left_only l') s1) _ _ (λ s2. drain-replay right_only (rounds r) r' s2 hr)
      ∙ sym (replay-append (map left_only l') (map right_only r') s1))

  dump-replay :
      (l r l' r' : List DataMapping) (ds : List Delta)
      → ((s : S)
          → compare_loop delta (rounds l + rounds r) (new l) (new r) s
            ≡ (replay ds s >>= λ s'. ok (new l', new r', s')))
      → rounds l' ≤ rounds l
      → rounds r' ≤ rounds r
      → (s : S)
      → dump_delta_mappings delta l r s ≡ replay (ds ++ (map left_only l' ++ map right_only r')) s
  unfolding dump_delta_mappings
  dump-replay l r l' r' ds run hl hr s =
      rw
        (
          run s,
          >>=_assoc {B = MappingStream × MappingStream × S} (replay ds s)
              (λ s'. ok (new l', new r', s')) _,
        )
        (>>=_ext (replay ds s) _ _ (λ s1. drain_both l r l' r' s1 hl hr)
          ∙ sym (replay-append ds (map left_only l' ++ map right_only r') s))

  -- Two lists of mappings in ascending order without overlaps are compared to the end, whatever the
  -- visitor: it is called on a list of deltas in turn, up to its first error. The deltas are in
  -- ascending order without overlap, and the one that covers a thin block says what the two lists say
  -- of it: mapped on one side, on both to the same data block or on both to different ones. No delta
  -- covers a block that is mapped on neither side.
  pub dump_delta_mappings-Correct :
      (l r : List DataMapping)
      → Above 0 l
      → Above 0 r
      → (ds : List Delta) × ((s : S) → dump_delta_mappings delta l r s ≡ replay ds s)
        × Spans 0 ds
        × ((t : ℕ) → delta_at ds t ≡ compare_at (find l t) (find r t))
  dump_delta_mappings-Correct l r hl hr =
      let (ds, l', r', run, walked) = walk (rounds l + rounds r) 0 l r hl hr (omega arith) in
      (
        ds ++ (map left_only l' ++ map right_only r'),
        dump-replay l r l' r' ds run walked.left_rounds walked.right_rounds,
        Walked-Spans 0 l r l' r' ds walked,
        Walked-delta_at 0 l r l' r' ds walked,
      )
