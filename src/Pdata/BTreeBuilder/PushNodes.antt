-- ===== src/Pdata/BTreeBuilder/PushNodes.antt =====
-- push_nodes of src/pdata/btree_builder.rs.
use thin_provisioning_tools.Prelude.{
  not, ◌&&◌, ℕ, ◌/◌, ◌<◌, ◌≤◌, ◌≡◌, refl, ◌∙◌, false, ltb, ◌==◌, if◌then◌else◌, Option, none, some,
  List, [], ◌∷◌, ◌++◌, length, ok, arith, All, Bool-cases, inl, inr,
}
use thin_provisioning_tools.Pdata.BTreeBuilder.{
  NodeSummary, NodeBuilder, NodeStore, lone_small, out_of_order, push_nodes, any_small, last_of,
  merge_first, flush_first, unshift_node, add_nodes,
}
use thin_provisioning_tools.Pdata.BTreeBuilder.Store.{IsStore, Ends, Ends-bind, Ends-map}
use thin_provisioning_tools.Pdata.BTreeBuilder.Nodes.{
  uses, entries, Describes, Kept, Kept-entries, Kept-Describes,
}
use thin_provisioning_tools.Pdata.BTreeBuilder.Steps.{Holds, After}
use thin_provisioning_tools.Pdata.BTreeBuilder.Flush.{
  Between, nil_of_length, After-refl, add_nodes-After,
}
use thin_provisioning_tools.Pdata.BTreeBuilder.Push.{
  Fits, balanced, lone, Follows, lone_small-balanced, lone_small-lone, unshift_lone,
}
use thin_provisioning_tools.Pdata.BTreeBuilder.Merge.{
  Pushable, single, several, at_most, Settled, held-Kept, merge_or_flush,
}

any_small-Between :
    (half max : ℕ) (ns : List NodeSummary) → All (Between half max) ns → any_small half ns ≡ false
unfolding any_small
any_small-Between half max [] h = refl
any_small-Between half max (n ∷ ns) h =
    let full : ltb n.nr_entries half ≡ false = ground (arith, h.0) in
    rw full (any_small-Between half max ns h.1)

sizes_ok :
    (max : ℕ) (n : NodeSummary) (ns : List NodeSummary)
    → Pushable max n ns
    → (not (length ns == 0) && any_small (max / 2) (n ∷ ns)) ≡ false
sizes_ok max n ns (single e le) = rw e
sizes_ok max n ns (several h) =
    rw (any_small-Between (max / 2) max (n ∷ ns) h)
      (elim (Bool-cases (length ns == 0)) [ inl one ↦ rw one | inr more ↦ rw more ])

module _ {V : Type 0} where
  first_Fits :
      (self : NodeBuilder V) (n : NodeSummary)
      → self.nodes ≡ n ∷ []
      → length self.values ≡ 0
      → n.nr_entries ≤ self.max_entries_per_node
      → Fits self
  first_Fits self n e empty le =
      elim (Bool-cases (ltb n.nr_entries (self.max_entries_per_node / 2))) [
        | inl small ↦ lone n e (ground arith) empty
        | inr full ↦ balanced (rw e ((ground arith, le), tt)) (omega arith)
      ]

  in_order :
      (self : NodeBuilder V) (key : ℕ) (last : Option ℕ)
      → self.last_key ≡ last
      → Follows self key
      → out_of_order self key ≡ false
  in_order self key none e h = rw e
  in_order self key (some last) e h = rw e (ground (arith, h last e))

module _ {W V : Type 0} {store : NodeStore W V} (laws : IsStore store)
    (held : List NodeSummary) where
  open laws use {contents, count}

  -- A push of nodes that leaves a builder for the entries `kvs`.
  pub record Merged (w : W) (kvs : List (ℕ × V)) (max : ℕ) (p : W × NodeBuilder V) : Type 0 where
    pub holds : Holds laws held p.0 p.1 kvs
    pub kept : Kept laws w p.0 held
    pub same_max : p.1.max_entries_per_node ≡ max
    pub fits : Fits p.1

  merged :
      (w : W) (self : NodeBuilder V) (kvs : List (ℕ × V)) (p : W × NodeBuilder V)
      → After laws held w self kvs p
      → Fits p.1
      → Merged w kvs self.max_entries_per_node p
  merged w self kvs p a fits = record {
    holds = a.holds;
    kept = a.kept;
    same_max = a.same_max;
    fits = fits;
  }

  settle :
      (w : W) (self : NodeBuilder V) (kvs : List (ℕ × V))
      → Holds laws held w self kvs
      → Fits self
      → Ends
          (λ p. After laws held w self kvs p × Settled p.1)
          (if lone_small self then unshift_node store w self else ok (w, self))
  settle w self kvs h (lone n e small empty) = rw (lone_small-lone self n e small) (
      Ends-map _ _ (unshift_node store w self) (unshift_lone laws held w self kvs n h e)
        (λ p r. (r.0, record { sizes = rw r.1 tt; few = omega (arith, r.2, r.0.same_max) })))
  settle w self kvs h (balanced sizes few) =
      rw (lone_small-balanced self self.nodes refl sizes)
        (After-refl laws held w self kvs h, record { sizes = sizes; few = few })

  -- The last key set at the end.
  with_last :
      (w : W) (self : NodeBuilder V) (w1 : W) (self1 : NodeBuilder V) (kvs : List (ℕ × V))
      (last : ℕ) (p : W × NodeBuilder V) (kvs0 : List (ℕ × V))
      → After laws held w self kvs0 (w1, self1)
      → After laws held w1 self1 kvs p
      → Fits p.1
      → Merged w kvs self.max_entries_per_node (p.0, record p.1 { last_key = some last })
  with_last w self w1 self1 kvs last p kvs0 a a' fits = record {
    holds = record { live = a'.holds.live; described = a'.holds.described; all = a'.holds.all };
    kept = λ b used. a'.kept b used ∙ a.kept b used;
    same_max = a'.same_max ∙ a.same_max;
    fits = elim fits [
      | balanced sizes few ↦ balanced sizes few
      | lone m one small empty ↦ lone m one small empty
    ];
  }

  -- Into a builder that stands for its entries and whose nodes fit, a push of pre-built nodes does not
  -- panic where the caller holds the nodes, their summaries are right, a single node is not over the
  -- maximum and several are each at least half full and not over it, and the first key is after the
  -- last one checked. The builder then stands for their entries too, at the end, its nodes fit, and the
  -- caller's nodes are as they were, whether the builder took the nodes as they are or read them.
  -- Where it fails under these conditions, the store did.
  pub push_nodes-Merged :
      (w : W) (self : NodeBuilder V) (kvs : List (ℕ × V)) (n : NodeSummary) (ns : List NodeSummary)
      → All (λ m. 0 < uses m.block held) (n ∷ ns)
      → All (Describes laws w) (n ∷ ns)
      → Pushable self.max_entries_per_node n ns
      → Holds laws held w self kvs
      → Fits self
      → Follows self n.key
      → Ends
          (Merged w (kvs ++ entries laws w (n ∷ ns)) self.max_entries_per_node)
          (push_nodes store w self (n ∷ ns))
  unfolding push_nodes add_nodes
  push_nodes-Merged w self kvs n ns hs d push h fits follows =
      elim (Bool-cases
        ((length ns == 0) && ((length self.nodes == 0) && (length self.values == 0)))) [
          | inl first ↦
              let no_more : ns ≡ [] = nil_of_length ns (ground arith) in
              let no_nodes : self.nodes ≡ [] = nil_of_length self.nodes (ground arith) in
              let no_vals : length self.values ≡ 0 = ground arith in
              rw (first, no_more)
                (Ends-map _ _ (add_nodes store w self (n ∷ []))
                  (add_nodes-After laws held (n ∷ []) w self kvs no_vals (d.0, tt) (hs.0, tt) h)
                  (λ p r. merged w self _ p r.0 (
                    first_Fits p.1 n (rw (r.1, no_nodes) refl) r.2
                      (rw r.0.same_max (at_most self.max_entries_per_node n ns push)))))
          | inr other ↦
              rw
                (
                  other,
                  sizes_ok self.max_entries_per_node n ns push,
                  in_order self n.key self.last_key refl follows,
                )
                (Ends-bind (λ p. After laws held w self kvs p × Settled p.1) _
                  (if lone_small self then unshift_node store w self else ok (w, self)) _
                  (settle w self kvs h fits)
                  (λ p r.
                    let kept = held-Kept laws held w p.0 (n ∷ ns) hs r.0.kept in
                    Ends-bind
                      (λ q. After laws held p.0 p.1 (kvs ++ entries laws p.0 (n ∷ ns)) q × Fits q.1)
                      _
                      (if not (length p.1.values == 0)
                          && ltb (length p.1.values) (self.max_entries_per_node / 2)
                        then merge_first store p.0 p.1 n ns
                        else flush_first store p.0 p.1 n ns)
                      _
                      (merge_or_flush laws held p.0 p.1 kvs n ns self.max_entries_per_node
                        r.0.same_max hs (Kept-Describes laws w p.0 (n ∷ ns) kept d) push r.0.holds
                        r.1)
                      (λ q r'.
                        with_last w self p.0 p.1 (kvs ++ entries laws w (n ∷ ns)) (last_of n ns).key
                          q kvs r.0 (rw (← Kept-entries laws w p.0 (n ∷ ns) kept) r'.0) r'.1)))
        ]
