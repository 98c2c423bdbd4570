-- ===== src/Pdata/BTreeBuilder/Push.antt =====
-- push_value and push_nodes of src/pdata/btree_builder.rs.
use thin_provisioning_tools.Prelude.{
  ℕ, ◌+◌, ◌*◌, ◌/◌, ◌<◌, ◌≤◌, ◌≡◌, refl, sym, ◌∙◌, true, false, ltb, leb, ◌==◌, if◌then◌else◌,
  Option, none, some, List, [], ◌∷◌, ◌++◌, length, length-append, ok, append_assoc, arith, All,
  All-append, Bool-cases, inl, inr,
}
use thin_provisioning_tools.Pdata.BTreeBuilder.{
  NodeSummary, NodeBuilder, NodeStore, lift, emit_node, check_ordered_key, lone_small, push_value,
  emit_values, unshift_node,
}
use thin_provisioning_tools.Pdata.BTreeBuilder.Store.{
  IsStore, Ends, Ends-bind, Ends-map, Ends-lift, Same,
}
use thin_provisioning_tools.Pdata.BTreeBuilder.Nodes.{
  entries, Describes, Kept, Kept-entries, Kept-Describes,
}
use thin_provisioning_tools.Pdata.BTreeBuilder.Steps.{
  Holds, After, emit_values-After, unshift_node-After,
}
use thin_provisioning_tools.Pdata.BTreeBuilder.Flush.{Between, After-refl}
use mathlib.Core.Path.{subst}

module _ {V : Type 0} where
  -- Every node at least half full; or one node below that, which may yet be the root, alone.
  pub data Fits (self : NodeBuilder V) : Type 0 where
    balanced :
        All (Between (self.max_entries_per_node / 2) self.max_entries_per_node) self.nodes
        → length self.values ≤ self.max_entries_per_node * 2
        → Fits self
    lone :
        (n : NodeSummary)
        → self.nodes ≡ n ∷ []
        → n.nr_entries < self.max_entries_per_node / 2
        → length self.values ≡ 0
        → Fits self

  -- A key after all that the builder has checked.
  abbrev pub Follows : NodeBuilder V → ℕ → Type 0
  Follows self key = (last : ℕ) → self.last_key ≡ some last → last < key

  pub lone_small-balanced :
      (self : NodeBuilder V) (ns : List NodeSummary)
      → self.nodes ≡ ns
      → All (Between (self.max_entries_per_node / 2) self.max_entries_per_node) ns
      → lone_small self ≡ false
  lone_small-balanced self [] e h = rw e
  lone_small-balanced self (n ∷ ns) e h =
      let full : ltb n.nr_entries (self.max_entries_per_node / 2) ≡ false = ground (arith, h.0) in
      rw (e, full) (ground arith)

  pub lone_small-lone :
      (self : NodeBuilder V) (n : NodeSummary)
      → self.nodes ≡ n ∷ []
      → n.nr_entries < self.max_entries_per_node / 2
      → lone_small self ≡ true
  lone_small-lone self n e h = rw e (ground arith)

  check_ordered_key-Follows :
      (self : NodeBuilder V) (key : ℕ) (last : Option ℕ)
      → self.last_key ≡ last
      → Follows self key
      → check_ordered_key self key ≡ ok (record self { last_key = some key })
  unfolding check_ordered_key
  check_ordered_key-Follows self key none e h = rw e
  check_ordered_key-Follows self key (some last) e h =
      let after : leb key last ≡ false = ground (arith, h last e) in rw (e, after)

module _ {W V : Type 0} {store : NodeStore W V} (laws : IsStore store)
    (held : List NodeSummary) where
  open laws use {contents, count}

  -- A push that leaves a builder for the entries `kvs`, with the last key checked.
  pub record Pushed (w : W) (kvs : List (ℕ × V)) (max last : ℕ) (p : W × NodeBuilder V)
      : Type 0 where
    pub holds : Holds laws held p.0 p.1 kvs
    pub kept : Kept laws w p.0 held
    pub same_max : p.1.max_entries_per_node ≡ max
    pub fits : Fits p.1
    pub checked : p.1.last_key ≡ some last

  -- The builder has room for a value, and its nodes are not too small.
  abbrev Roomy : W × NodeBuilder V → Type 0
  Roomy p =
      All (Between (p.1.max_entries_per_node / 2) p.1.max_entries_per_node) p.1.nodes
      × (length p.1.values < p.1.max_entries_per_node * 2)

  pub unshift_lone :
      (w : W) (self : NodeBuilder V) (kvs : List (ℕ × V)) (n : NodeSummary)
      → Holds laws held w self kvs
      → self.nodes ≡ n ∷ []
      → Ends
          (λ p.
            After laws held w self kvs p
            × (p.1.nodes ≡ [])
            × (length p.1.values ≡ n.nr_entries + length self.values))
          (unshift_node store w self)
  unshift_lone w self kvs n h e =
      let described : All (Describes laws w) (n ∷ []) =
        subst (λ ns. All (Describes laws w) ns) e h.described in
      Ends-map _ _ (unshift_node store w self)
        (unshift_node-After laws held w self kvs [] n (rw e) (sym e) h)
        (λ p r. (r.0, r.1, omega (arith, r.2, described.0.0)))

  make_room :
      (w : W) (self : NodeBuilder V) (kvs : List (ℕ × V))
      → 0 < self.max_entries_per_node
      → Holds laws held w self kvs
      → Fits self
      → Ends
          (λ p. After laws held w self kvs p × Roomy p)
          (if lone_small self
            then unshift_node store w self
            else if length self.values == self.max_entries_per_node * 2
            then emit_node store w self
            else ok (w, self))
  unfolding emit_node
  make_room w self kvs pos h (lone n e small empty) = rw (lone_small-lone self n e small) (
      Ends-map _ _ (unshift_node store w self) (unshift_lone w self kvs n h e)
        (λ p r. (r.0, (rw r.1 tt, omega (arith, r.2, r.0.same_max)))))
  make_room w self kvs pos h (balanced sizes few) =
      rw (lone_small-balanced self self.nodes refl sizes)
        (elim (Bool-cases (length self.values == self.max_entries_per_node * 2)) [
          | inl full ↦
              let count_eq : length self.values ≡ self.max_entries_per_node * 2 = ground arith in
              rw full (
                Ends-map _ _ (emit_values store w self self.max_entries_per_node)
                  (emit_values-After laws held w self kvs self.max_entries_per_node h (omega arith))
                  (λ p r. (
                    r.0,
                    (
                      rw (r.1.pushed, r.0.same_max)
                          (All-append _ self.nodes (r.1.node ∷ []) sizes (
                            (
                              omega (arith, r.1.entries_of_node),
                              omega (arith, r.1.entries_of_node),
                            ),
                            tt,
                          )),
                      omega (arith, r.1.fewer, r.0.same_max),
                    ),
                  )))
          | inr room ↦ rw room (After-refl laws held w self kvs h, (sizes, ground arith))
        ])

  Same-Pushed :
      (w w1 w2 : W) (self self1 : NodeBuilder V) (kvs : List (ℕ × V)) (key : ℕ) (val : V)
      → After laws held w self kvs (w1, self1)
      → Roomy (w1, self1)
      → Same store laws w1 w2
      → Pushed w
          (kvs ++ (key, val) ∷ [])
          self.max_entries_per_node
          key
          (w2, record self1 { values = self1.values ++ (key, val) ∷ []; last_key = some key })
  Same-Pushed w w1 w2 self self1 kvs key val a room same =
      let kept : (ns : List NodeSummary) → Kept laws w1 w2 ns = λ ns b used. (same b).1 in
      record {
        holds = record {
          live = λ b. rw (same b).0 (a.holds.live b);
          described = Kept-Describes laws w1 w2 self1.nodes (kept self1.nodes) a.holds.described;
          all =
              rw
                (
                  Kept-entries laws w1 w2 self1.nodes (kept self1.nodes),
                  ← append_assoc (entries laws w1 self1.nodes) self1.values ((key, val) ∷ []),
                  a.holds.all,
                )
                refl;
        };
        kept = λ b used. (same b).1 ∙ a.kept b used;
        same_max = a.same_max;
        fits =
            balanced room.0 (omega (arith, room.1, length-append self1.values ((key, val) ∷ [])));
        checked = refl;
      }

  -- Into a builder that stands for its entries and whose nodes fit, with a maximum above zero, a push
  -- of a value whose key follows the last key does not panic: the builder then stands for one entry
  -- more, at the end, its nodes fit, and every node that the caller holds is as it was. Where it
  -- fails, the store did.
  pub push_value-Pushed :
      (w : W) (self : NodeBuilder V) (kvs : List (ℕ × V)) (key : ℕ) (val : V)
      → 0 < self.max_entries_per_node
      → Holds laws held w self kvs
      → Fits self
      → Follows self key
      → Ends
          (Pushed w (kvs ++ (key, val) ∷ []) self.max_entries_per_node key)
          (push_value store w self key val)
  unfolding push_value
  push_value-Pushed w self kvs key val pos h fits follows =
      Ends-bind (λ p. After laws held w self kvs p × Roomy p) _
        (if lone_small self
          then unshift_node store w self
          else if length self.values == self.max_entries_per_node * 2
          then emit_node store w self
          else ok (w, self))
        _ (make_room w self kvs pos h fits)
        (λ p r.
          rw
            (check_ordered_key-Follows p.1 key p.1.last_key refl
              (λ last e. follows last (sym r.0.same_last ∙ e)))
            (Ends-bind (Same store laws p.0) _ (lift (store.inc_value p.0 val)) _
              (Ends-lift (Same store laws p.0) (store.inc_value p.0 val)
                (λ w2 e b. laws.inc_value_keeps p.0 w2 val b e))
              (λ w2 same. Same-Pushed w p.0 w2 self p.1 kvs key val r.0 r.1 same)))
