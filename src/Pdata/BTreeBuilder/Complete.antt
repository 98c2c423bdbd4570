-- ===== src/Pdata/BTreeBuilder/Complete.antt =====
-- complete of src/pdata/btree_builder.rs.
use thin_provisioning_tools.Prelude.{
  ◌⊎◌, not, ◌&&◌, ℕ, ◌+◌, ◌*◌, ◌/◌, ◌<◌, ◌≤◌, ◌≡◌, refl, ltb, ◌==◌, if◌then◌else◌, List, [], ◌∷◌,
  ◌++◌, length, ok, arith, All, All-append, Bool-cases, inl, inr,
}
use thin_provisioning_tools.Pdata.BTreeBuilder.{
  NodeSummary, NodeBuilder, NodeStore, complete, emit_values, emit_all, unshift_node,
}
use thin_provisioning_tools.Pdata.BTreeBuilder.Store.{IsStore, Ends, Ends-bind, Ends-map}
use thin_provisioning_tools.Pdata.BTreeBuilder.Nodes.{
  uses, entries, Describes, All-left, All-right, pop_nonempty, Kept,
}
use thin_provisioning_tools.Pdata.BTreeBuilder.Steps.{
  Holds, After, emit_values-After, unshift_node-After,
}
use thin_provisioning_tools.Pdata.BTreeBuilder.Flush.{
  Between, Flushes, nil_of_length, no_values, After-trans, After-refl, emit_all-After,
}
use thin_provisioning_tools.Pdata.BTreeBuilder.Push.{Fits, balanced, lone}

-- What a finished tree level is: one node, the root, or nodes that are all at least half full.
abbrev pub IsLevel : ℕ → List NodeSummary → Type 0
IsLevel max ns =
    (0 < length ns)
    × ((length ns ≡ 1) ⊎ All (Between (max / 2) max) ns)
    × All (λ n. n.nr_entries ≤ max) ns

module _ {W V : Type 0} {store : NodeStore W V} (laws : IsStore store)
    (held : List NodeSummary) where
  open laws use {contents, count}

  -- Nodes for the entries `kvs`, each counted and described by its summary, and the nodes that the
  -- caller holds as they were.
  pub record Completed (w : W) (kvs : List (ℕ × V)) (max : ℕ) (p : W × List NodeSummary)
      : Type 0 where
    pub live : (b : ℕ) → uses b p.1 + uses b held ≤ count p.0 b
    pub described : All (Describes laws p.0) p.1
    pub all : entries laws p.0 p.1 ≡ kvs
    pub kept : Kept laws w p.0 held
    pub level : IsLevel max p.1

at_most :
    (lo hi : ℕ) (ns : List NodeSummary) → All (Between lo hi) ns → All (λ n. n.nr_entries ≤ hi) ns
at_most lo hi [] h = tt
at_most lo hi (n ∷ ns) h = (h.0.1, at_most lo hi ns h.1)

module _ {V : Type 0} where
  -- What `complete` has before it flushes the values.
  data Ready (self : NodeBuilder V) : Type 0 where
    enough :
        All (Between (self.max_entries_per_node / 2) self.max_entries_per_node) self.nodes
        → length self.values ≤ self.max_entries_per_node * 2
        → (length self.values ≡ 0) ⊎ (self.max_entries_per_node / 2 ≤ length self.values)
        → Ready self
    only_values : self.nodes ≡ [] → length self.values < self.max_entries_per_node / 2 → Ready self
    only_node :
        (n : NodeSummary)
        → self.nodes ≡ n ∷ []
        → n.nr_entries ≤ self.max_entries_per_node
        → length self.values ≡ 0
        → Ready self

  -- What it has after that.
  record Level (self : NodeBuilder V) : Type 0 where
    none_left : length self.values ≡ 0
    sizes :
        (length self.nodes ≤ 1)
        ⊎ All (Between (self.max_entries_per_node / 2) self.max_entries_per_node) self.nodes
    bounds : All (λ n. n.nr_entries ≤ self.max_entries_per_node) self.nodes

  flush-Level :
      (self self' : NodeBuilder V) (lo : ℕ)
      → self'.max_entries_per_node ≡ self.max_entries_per_node
      → Flushes lo self self'
      → All (λ n. n.nr_entries ≤ self.max_entries_per_node) self.nodes
      → (length self'.nodes ≤ 1)
        ⊎ All (Between (self.max_entries_per_node / 2) self.max_entries_per_node) self'.nodes
      → Level self'
  flush-Level self self' lo same_max f le sizes = record {
    none_left = f.none_left;
    sizes = rw same_max sizes;
    bounds =
        rw (same_max, f.pushed)
          (All-append _ self.nodes f.written le
            (at_most lo self.max_entries_per_node f.written f.sizes));
  }

module _ {W V : Type 0} {store : NodeStore W V} (laws : IsStore store)
    (held : List NodeSummary) where
  open laws use {contents, count}

  flush-Ready :
      (w : W) (self : NodeBuilder V) (kvs : List (ℕ × V))
      → Holds laws held w self kvs
      → Ready self
      → Ends (λ p. After laws held w self kvs p × Level p.1) (emit_all store w self)
  flush-Ready w self kvs h (enough sizes few least) =
      Ends-map _ _ (emit_all store w self)
        (emit_all-After laws held w self kvs (self.max_entries_per_node / 2) h least (omega arith)
          few)
        (λ p r. (
          r.0,
          flush-Level self p.1 (self.max_entries_per_node / 2) r.0.same_max r.1
              (at_most (self.max_entries_per_node / 2) self.max_entries_per_node self.nodes sizes)
              (inr (rw r.1.pushed (All-append _ self.nodes r.1.written sizes r.1.sizes))),
        ))
  flush-Ready w self kvs h (only_values empty few) =
      Ends-map _ _ (emit_all store w self)
        (emit_all-After laws held w self kvs (length self.values) h (inr (omega arith))
          (omega arith) (omega arith))
        (λ p r. (
          r.0,
          flush-Level self p.1 (length self.values) r.0.same_max r.1 (rw empty tt)
              (inl (rw (r.1.pushed, empty) (r.1.one_written (omega arith)))),
        ))
  flush-Ready w self kvs h (only_node n one le empty) =
      Ends-map _ _ (emit_all store w self)
        (emit_all-After laws held w self kvs 0 h (inl empty) (omega arith) (omega arith))
        (λ p r. (
          r.0,
          flush-Level self p.1 0 r.0.same_max r.1 (rw one (le, tt))
              (inl (rw (r.1.pushed, one, r.1.none_written empty) (omega arith))),
        ))

  -- The first step of `complete`, with its test of the builder.
  rebalance_Ready :
      (w : W) (self : NodeBuilder V) (kvs : List (ℕ × V))
      → Holds laws held w self kvs
      → Fits self
      → Ends
          (λ p. After laws held w self kvs p × Ready p.1)
          (if not (length self.values == 0)
              && ltb (length self.values) (self.max_entries_per_node / 2)
              && not (length self.nodes == 0)
            then unshift_node store w self
            else ok (w, self))
  rebalance_Ready w self kvs h (lone n one small empty) =
      rw empty (After-refl laws held w self kvs h, only_node n one (omega arith) empty)
  rebalance_Ready w self kvs h (balanced sizes few) =
      let half = self.max_entries_per_node / 2 in
      let test =
        not (length self.values == 0)
        && ltb (length self.values) half
        && not (length self.nodes == 0) in
      elim (Bool-cases test) [
        | inl short ↦
            let some_nodes : 0 < length self.nodes = ground arith in
            let below : length self.values < half = ground arith in
            let (init, last, popped, parts) = pop_nonempty self.nodes some_nodes in
            let split : All (Between half self.max_entries_per_node) (init ++ last ∷ []) =
              rw parts sizes in
            let last_size =
              (All-right (Between half self.max_entries_per_node) init (last ∷ []) split).0 in
            let described : Describes laws w last =
              (All-right (Describes laws w) init (last ∷ []) (rw parts h.described)).0 in
            rw short (
              Ends-map _ _ (unshift_node store w self)
                (unshift_node-After laws held w self kvs init last popped parts h)
                (λ p r. (
                  r.0,
                  enough
                      (rw (r.1, r.0.same_max)
                        (All-left (Between half self.max_entries_per_node) init (last ∷ []) split))
                      (omega (arith, r.2, r.0.same_max, described.0, last_size.1))
                      (inr (omega (arith, r.2, r.0.same_max, described.0, last_size.0))),
                )))
        | inr left_alone ↦ rw left_alone (
          After-refl laws held w self kvs h,
          elim (Bool-cases (length self.values == 0)) [
            | inl empty ↦ enough sizes few (inl (ground arith))
            | inr full ↦ elim (Bool-cases (ltb (length self.values) half)) [
              | inl short ↦
                  let no_nodes : length self.nodes ≡ 0 = ground arith in
                  only_values (nil_of_length self.nodes no_nodes) (ground arith)
              | inr least ↦ enough sizes few (inr (ground arith))
            ]
          ],
        )
      ]

  -- The last step of `complete`: an empty leaf where there is nothing else.
  emit_empty :
      (w : W) (self : NodeBuilder V) (kvs : List (ℕ × V))
      → Holds laws held w self kvs
      → Level self
      → Ends
          (λ p. After laws held w self kvs p × Level p.1 × (0 < length p.1.nodes))
          (if length self.nodes == 0 then emit_values store w self 0 else ok (w, self))
  emit_empty w self kvs h level = elim (Bool-cases (length self.nodes == 0)) [
    | inl empty ↦
        let no_nodes : self.nodes ≡ [] = nil_of_length self.nodes (ground arith) in
        rw empty (
          Ends-map _ _ (emit_values store w self 0)
            (emit_values-After laws held w self kvs 0 h (omega arith))
            (λ p r.
              let nodes : p.1.nodes ≡ r.1.node ∷ [] = rw (r.1.pushed, no_nodes) refl in
              (
                r.0,
                record {
                  none_left = omega (arith, r.1.fewer, level.none_left);
                  sizes = inl (rw nodes (omega arith));
                  bounds = rw nodes (omega (arith, r.1.entries_of_node), tt);
                },
                rw nodes (omega arith),
              )))
    | inr some_nodes ↦ rw some_nodes (After-refl laws held w self kvs h, level, ground arith)
  ]

  done :
      (w : W) (self : NodeBuilder V) (kvs : List (ℕ × V)) (p : W × NodeBuilder V)
      → After laws held w self kvs p
      → Level p.1
      → 0 < length p.1.nodes
      → Completed laws held w kvs self.max_entries_per_node (p.0, p.1.nodes)
  done w self kvs p a level some_nodes = record {
    live = a.holds.live;
    described = a.holds.described;
    all = no_values laws held p.0 p.1 kvs level.none_left a.holds;
    kept = a.kept;
    level = (
      some_nodes,
      elim level.sizes [
        | inl one ↦ inl (omega arith)
        | inr all_full ↦ inr (rw (← a.same_max) all_full)
      ],
      rw (← a.same_max) level.bounds,
    );
  }

  -- On a builder that stands for its entries and whose nodes fit, as pushes leave it, `complete` does
  -- not panic: it gives nodes that hold the builder's entries in their order, each with a summary that
  -- is right, and at least half full unless there is one node only. Where it fails, the store did.
  pub complete-Completed :
      (w : W) (self : NodeBuilder V) (kvs : List (ℕ × V))
      → Holds laws held w self kvs
      → Fits self
      → Ends (Completed laws held w kvs self.max_entries_per_node) (complete store w self)
  unfolding complete
  complete-Completed w self kvs h fits =
      Ends-bind (λ p. After laws held w self kvs p × Ready p.1) _
        (if not (length self.values == 0)
            && ltb (length self.values) (self.max_entries_per_node / 2)
            && not (length self.nodes == 0)
          then unshift_node store w self
          else ok (w, self))
        _ (rebalance_Ready w self kvs h fits)
        (λ p r.
          Ends-bind (λ q. After laws held p.0 p.1 kvs q × Level q.1) _ (emit_all store p.0 p.1) _
            (flush-Ready p.0 p.1 kvs r.0.holds r.1)
            (λ q r'.
              Ends-bind (λ z. After laws held q.0 q.1 kvs z × Level z.1 × (0 < length z.1.nodes)) _
                (if length q.1.nodes == 0 then emit_values store q.0 q.1 0 else ok (q.0, q.1)) _
                (emit_empty q.0 q.1 kvs r'.0.holds r'.1)
                (λ z r''.
                  done w self kvs z
                    (After-trans laws held w p.0 self p.1 kvs kvs z r.0
                      (After-trans laws held p.0 q.0 p.1 q.1 kvs kvs z r'.0 r''.0))
                    r''.1 r''.2)))
