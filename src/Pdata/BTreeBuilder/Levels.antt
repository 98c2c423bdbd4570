-- ===== src/Pdata/BTreeBuilder/Levels.antt =====
-- The levels of a tree that build_btree of src/pdata/btree_builder.rs makes, one at a time.
use thin_provisioning_tools.Prelude.{
  ℕ, ◌+◌, ◌*◌, ◌<◌, ◌≤◌, ◌≡◌, refl, ap, ◌∙◌, some, List, [], ◌∷◌, ◌++◌, map, length, length-append,
  append_assoc, append-nil, arith, All,
}
use thin_provisioning_tools.Pdata.BTreeBuilder.{
  NodeSummary, NodeBuilder, NodeStore, push_value, push_all, build_level, complete, child,
}
use thin_provisioning_tools.Pdata.BTreeBuilder.Store.{IsStore, first_key, Ends, Ends-bind, Ends-map}
use thin_provisioning_tools.Pdata.BTreeBuilder.Nodes.{uses, entries, Describes, Kept}
use thin_provisioning_tools.Pdata.BTreeBuilder.Steps.{Holds}
use mathlib.Core.Path.{subst}
use thin_provisioning_tools.Pdata.BTreeBuilder.Push.{Fits, balanced, push_value-Pushed}
use thin_provisioning_tools.Pdata.BTreeBuilder.Complete.{Completed, complete-Completed}

-- Keys in ascending order, from `lo` on.
abbrev pub Ascending : {V : Type 0} → ℕ → List (ℕ × V) → Type 0
Ascending lo [] = Unit {0}
Ascending lo (p ∷ ps) = (lo ≤ p.0) × Ascending (p.0 + 1) ps

Ascending-le :
    {V : Type 0} (lo lo' : ℕ) (ps : List (ℕ × V)) → lo' ≤ lo → Ascending lo ps → Ascending lo' ps
Ascending-le lo lo' [] le h = tt
Ascending-le lo lo' (p ∷ ps) le h = (omega arith, h.1)

Ascending-append :
    {V : Type 0} (lo : ℕ) (ps qs : List (ℕ × V)) → Ascending lo (ps ++ qs) → Ascending lo qs
Ascending-append lo [] qs h = h
Ascending-append lo (p ∷ ps) qs h =
    Ascending-le (p.0 + 1) lo qs (omega arith) (Ascending-append (p.0 + 1) ps qs h.1)

-- The first keys of nodes that are not empty ascend as their entries do.
pub child-Ascending :
    {V W : Type 0} {store : NodeStore W V} (laws : IsStore store) (w : W) (lo : ℕ)
    (ns : List NodeSummary)
    → All (Describes laws w) ns
    → All (λ n. 1 ≤ n.nr_entries) ns
    → Ascending lo (entries laws w ns)
    → Ascending lo (map child ns)
child-Ascending laws w lo [] d some_entries h = tt
child-Ascending {V} laws w lo (n ∷ ns) d some_entries h =
    split (laws.contents w n.block) refl (λ lo'. child-Ascending laws w lo' ns d.1 some_entries.1)
  where
    split :
        (ps : List (ℕ × V))
        → laws.contents w n.block ≡ ps
        → ((lo' : ℕ) → Ascending lo' (entries laws w ns) → Ascending lo' (map child ns))
        → (lo ≤ n.key) × Ascending (n.key + 1) (map child ns)
    split [] e next =
        let none_there : n.nr_entries ≡ 0 = d.0.0 ∙ ap length e in absurd (omega arith)
    split (p ∷ ps) e next =
        let key : n.key ≡ p.0 = d.0.1 ∙ ap first_key e in
        let all : Ascending lo ((p ∷ ps) ++ entries laws w ns) =
          subst (λ qs. Ascending lo (qs ++ entries laws w ns)) e h in
        rw key (all.0, next (p.0 + 1) (Ascending-append (p.0 + 1) ps (entries laws w ns) all.1))

-- Nodes of two entries or more are at most half as many as their entries.
pub length-entries :
    {V W : Type 0} {store : NodeStore W V} (laws : IsStore store) (w : W) (ns : List NodeSummary)
    → All (Describes laws w) ns
    → All (λ n. 2 ≤ n.nr_entries) ns
    → length ns * 2 ≤ length (entries laws w ns)
length-entries laws w [] d h = omega arith
length-entries laws w (n ∷ ns) d h = omega (
  arith,
  length-entries laws w ns d.1 h.1,
  length-append (laws.contents w n.block) (entries laws w ns),
)

module _ {W V : Type 0} {store : NodeStore W V} (laws : IsStore store)
    (held : List NodeSummary) where
  open laws use {contents, count}

  -- What a run of pushes gives.
  record Filled (w : W) (kvs : List (ℕ × V)) (max : ℕ) (p : W × NodeBuilder V) : Type 0 where
    holds : Holds laws held p.0 p.1 kvs
    kept : Kept laws w p.0 held
    same_max : p.1.max_entries_per_node ≡ max
    fits : Fits p.1

  push_all-Filled :
      (ps : List (ℕ × V)) (w : W) (self : NodeBuilder V) (kvs : List (ℕ × V)) (lo : ℕ)
      → 0 < self.max_entries_per_node
      → ((last : ℕ) → self.last_key ≡ some last → last < lo)
      → Ascending lo ps
      → Holds laws held w self kvs
      → Fits self
      → Ends (Filled w (kvs ++ ps) self.max_entries_per_node) (push_all store w self ps)
  unfolding push_all
  push_all-Filled [] w self kvs lo pos bound asc h fits =
      rw (append-nil kvs)
        (record { holds = h; kept = λ b used. refl; same_max = refl; fits = fits })
  push_all-Filled (p ∷ ps) w self kvs lo pos bound asc h fits =
      Ends-bind _ _ (push_value store w self p.0 p.1) _
        (push_value-Pushed laws held w self kvs p.0 p.1 pos h fits
          (λ last e. omega (arith, bound last e)))
        (λ q r.
          Ends-map _ _ (push_all store q.0 q.1 ps)
            (push_all-Filled ps q.0 q.1 (kvs ++ p ∷ []) (p.0 + 1) (rw r.same_max pos)
              (λ last e. let key : p.0 ≡ last = cc (r.checked) in omega arith) asc.1 r.holds r.fits)
            (λ z r'. record {
              holds = rw (← append_assoc kvs (p ∷ []) ps) r'.holds;
              kept = λ b used. r'.kept b used ∙ r.kept b used;
              same_max = r'.same_max ∙ r.same_max;
              fits = r'.fits;
            }))

  -- For a maximum above zero, over nodes that the caller holds and the space map counts, entries with
  -- ascending keys, pushed one after the other into a new builder, are packed into
  -- nodes that hold them in their order, at least half full unless there is one node only, each
  -- described by its summary and counted; the nodes that the caller holds are as they were. Where
  -- that fails, the store did.
  pub build_level-Completed :
      (max : ℕ) (w : W) (ps : List (ℕ × V))
      → 0 < max
      → ((b : ℕ) → uses b held ≤ count w b)
      → Ascending 0 ps
      → Ends (Completed laws held w ps max) (build_level store max w ps)
  unfolding build_level
  build_level-Completed max w ps pos live asc =
      Ends-bind (Filled w ps max) _ (push_all store w _ ps) _
        (push_all-Filled ps w _ [] 0 pos (λ last e. cc) asc
          (record { live = λ b. omega (arith, live b); described = tt; all = refl })
          (balanced tt (omega arith)))
        (λ p r.
          Ends-map _ _ (complete store p.0 p.1)
            (complete-Completed laws held p.0 p.1 ps r.holds r.fits)
            (λ q r'. record {
              live = r'.live;
              described = r'.described;
              all = r'.all;
              kept = λ b used. r'.kept b used ∙ r.kept b used;
              level = rw (← r.same_max) r'.level;
            }))
