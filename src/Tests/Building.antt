-- ===== src/Tests/Building.antt =====
-- The btree builder on a store of blocks in memory.
use thin_provisioning_tools.Prelude.{
  ℕ, ◌+◌, ◌-◌, ◌≡◌, refl, sym, ap, ◌*◌, ltb, ==_refl, true, false, ◌==◌, if◌then◌else◌, Option,
  none, some, List, [], ◌∷◌, ◌++◌, map, Result, ok, err, Bool-cases, inl, inr, arith,
}
use thin_provisioning_tools.Pdata.BTreeBuilder.{
  BuildError, WriteResult, NodeSummary, NodeStore, NodeBuilder, zip, push_value, push_nodes,
  complete, push_all, emit_all, emit_values, emit_node, unshift_node, check_ordered_key,
  build_level,
}
use thin_provisioning_tools.Pdata.BTreeBuilder.Store.{
  IsStore, Ends, first_key, keys_of, values_of, zip_unzip,
}
use thin_provisioning_tools.Pdata.BTreeBuilder.Steps.{Holds}
use thin_provisioning_tools.Pdata.BTreeBuilder.Push.{balanced, Pushed, push_value-Pushed}
use thin_provisioning_tools.Pdata.BTreeBuilder.PushNodes.{Merged, push_nodes-Merged}
use thin_provisioning_tools.Pdata.BTreeBuilder.Merge.{single}
use thin_provisioning_tools.Pdata.BTreeBuilder.Complete.{Completed, complete-Completed}
use thin_provisioning_tools.Pdata.BTreeBuilder.Levels.{build_level-Completed}
use mathlib.Core.Path.{subst}

-- Blocks that are given out one after the other.
record Disk : Type 0 where
  next : ℕ
  blocks : ℕ → List (ℕ × ℕ)
  counts : ℕ → ℕ

abbrev update {ℓ} : {A : Type ℓ} → (ℕ → A) → ℕ → A → ℕ → A
update f b a c = if b == c then a else f c

abbrev write_block : Disk → List ℕ → List ℕ → Option (Disk × WriteResult)
write_block w keys values =
    if w.counts w.next == 0
    then some (
      record {
        next = w.next + 1;
        blocks = update w.blocks w.next (zip keys values);
        counts = update w.counts w.next 1;
      },
      record { first_key = first_key (zip keys values); loc = w.next },
    )
    else none

abbrev disk : NodeStore Disk ℕ
disk = record {
  write = write_block;
  read = λ w b. some (keys_of (w.blocks b), values_of (w.blocks b));
  inc = λ w b. some (record w { counts = λ c. if b == c then w.counts c + 1 else w.counts c });
  dec = λ w b. some (record w { counts = λ c. if b == c then w.counts c - 1 else w.counts c });
  inc_value = λ w v. some w;
}

abbrev or_default {ℓ} : {A : Type ℓ} → A → Option A → A
or_default d none = d
or_default d (some a) = a

write_block-some :
    (w w' : Disk) (keys values : List ℕ) (r : WriteResult)
    → write_block w keys values ≡ some (w', r)
    → (w.counts w.next ≡ 0)
      × (w'.counts ≡ update w.counts w.next 1)
      × (w'.blocks ≡ update w.blocks w.next (zip keys values))
      × (r.loc ≡ w.next)
      × (r.first_key ≡ first_key (zip keys values))
write_block-some w w' keys values r e = elim (Bool-cases (w.counts w.next == 0)) [
  | inl free ↦
      let made = rw free at e in
      (
        ground arith,
        ap (λ o. (or_default {A = Disk × WriteResult} (w', r) o).0.counts) (sym made),
        ap (λ o. (or_default {A = Disk × WriteResult} (w', r) o).0.blocks) (sym made),
        ap (λ o. (or_default {A = Disk × WriteResult} (w', r) o).1.loc) (sym made),
        ap (λ o. (or_default {A = Disk × WriteResult} (w', r) o).1.first_key) (sym made),
      )
  | inr taken ↦ let failed = rw taken at e in cc
]

abbrev disk-IsStore : IsStore disk
disk-IsStore = record {
  contents = λ w. w.blocks;
  count = λ w. w.counts;
  write_fresh = λ w w' ps r e.
      let (free, counts, blocks, loc, key) =
        write_block-some w w' (keys_of ps) (values_of ps) r e in
      (
        rw loc free,
        rw (loc, counts, ==_refl w.next) refl,
        rw (loc, blocks, ==_refl w.next) (zip_unzip ps),
        rw (key, zip_unzip ps) refl,
      );
  write_keeps = λ w w' ps r b e used.
      let (free, counts, blocks, loc, key) =
        write_block-some w w' (keys_of ps) (values_of ps) r e in
      elim (Bool-cases (w.next == b)) [
        | inl here ↦
            let at : w.next ≡ b = ground arith in
            absurd (omega (arith, subst (λ k. w.counts k ≡ 0) at free))
        | inr there ↦ (rw (counts, there) refl, rw (blocks, there) refl)
      ];
  read_back = λ w b p used e. ap (or_default p) (sym e);
  inc_keeps = λ w w' b c e.
      (ap (λ o. (or_default w' o).counts c) (sym e), ap (λ o. (or_default w' o).blocks c) (sym e));
  dec_keeps = λ w w' b c e. (
    ap (λ o. (or_default w' o).counts c) (sym e),
    λ used. ap (λ o. (or_default w' o).blocks c) (sym e),
  );
  inc_value_keeps = λ w w' v c e.
      (ap (λ o. (or_default w' o).counts c) (sym e), ap (λ o. (or_default w' o).blocks c) (sym e));
}

abbrev empty : Disk
empty = record { next = 0; blocks = λ b. []; counts = λ b. 0 }

abbrev builder : List (ℕ × ℕ) → NodeBuilder ℕ
builder values = record {
  max_entries_per_node = 4;
  values = values;
  nodes = [];
  shared = false;
  last_key = none;
}

abbrev entries_one : List (ℕ × ℕ)
entries_one = (1, 100) ∷ (2, 200) ∷ (4, 400) ∷ []

abbrev map_nodes : Result BuildError (Disk × List NodeSummary) → Result BuildError (List (ℕ × ℕ))
map_nodes (ok p) = ok (map (λ n. (n.key, n.nr_entries)) p.1)
map_nodes (err e) = err e

build_level_test :
    map_nodes (build_level disk 4 empty ((1, 10) ∷ (2, 20) ∷ (3, 30) ∷ (4, 40) ∷ (5, 50) ∷ []))
    ≡ ok ((1, 2) ∷ (3, 3) ∷ [])
unfolding build_level push_all push_value complete emit_all emit_values emit_node unshift_node
    check_ordered_key
build_level_test = refl

empty-Holds : (values : List (ℕ × ℕ)) → Holds disk-IsStore [] empty (builder values) values
empty-Holds values = record { live = λ b. omega arith; described = tt; all = refl }

push_value-Pushed_example :
    Ends
      (Pushed disk-IsStore [] empty (entries_one ++ (7, 700) ∷ []) 4 7)
      (push_value disk empty (builder entries_one) 7 700)
push_value-Pushed_example =
    push_value-Pushed disk-IsStore [] empty (builder entries_one) entries_one 7 700 (omega arith)
      (empty-Holds entries_one) (balanced tt (omega arith)) (λ last e. cc)

complete-Completed_example :
    Ends (Completed disk-IsStore [] empty entries_one 4) (complete disk empty (builder entries_one))
complete-Completed_example =
    complete-Completed disk-IsStore [] empty (builder entries_one) entries_one
      (empty-Holds entries_one) (balanced tt (omega arith))

build_level-Completed_example :
    Ends (Completed disk-IsStore [] empty entries_one 4) (build_level disk 4 empty entries_one)
build_level-Completed_example =
    build_level-Completed disk-IsStore [] 4 empty entries_one (omega arith) (λ b. omega arith)
      (omega arith, (omega arith, (omega arith, tt)))

-- Two blocks in use, with an entry each.
abbrev used : Disk
used = record {
  next = 2;
  blocks = λ b. (b * 10 + 10, b) ∷ [];
  counts = λ b. if ltb b 2 then 1 else 0;
}

abbrev node : ℕ → NodeSummary
node b = record { block = b; key = b * 10 + 10; nr_entries = 1; shared = true }

push_nodes-Merged_example :
    Ends
      (Merged disk-IsStore (node 0 ∷ []) used (entries_one ++ (10, 0) ∷ []) 4)
      (push_nodes disk used (builder entries_one) (node 0 ∷ []))
push_nodes-Merged_example =
    push_nodes-Merged disk-IsStore (node 0 ∷ []) used (builder entries_one) entries_one (node 0) []
      (omega arith, tt) ((refl, refl), tt) (single refl (omega arith))
      (record { live = λ b. ground arith; described = tt; all = refl }) (balanced tt (omega arith))
      (λ last e. cc)
