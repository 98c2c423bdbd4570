-- ===== src/Pdata/BTreeBuilder/Steps.antt =====
-- The private steps of NodeBuilder of src/pdata/btree_builder.rs.
use thin_provisioning_tools.Prelude.{
  ℕ, ◌+◌, ◌-◌, ◌<◌, ◌≤◌, ◌≡◌, refl, ◌∙◌, Bool, true, false, ltb, ◌==◌, if◌then◌else◌, some, List,
  [], ◌∷◌, ◌++◌, length, length-append, ok, append_assoc, append-nil, arith, All, All-append,
  Bool-cases, inl, inr,
}
use thin_provisioning_tools.Pdata.BTreeBuilder.{
  NodeSummary, WriteResult, NodeBuilder, NodeStore, lift, pop, pop_front, emit_values, unshift_node,
  append_values, inc_values,
}
use thin_provisioning_tools.Pdata.BTreeBuilder.Store.{
  IsStore, keys_of, values_of, Ends, Ends-bind, Ends-lift, zip_unzip, Same, inc_values-Same,
  read-contents,
}
use thin_provisioning_tools.Pdata.BTreeBuilder.Nodes.{
  uses, uses-append, uses-last, All-left, pop_front-append, pop_front_length, entries, Describes,
  entries-append, Kept, Kept-entries, Kept-Describes,
}

-- `held` are the pre-built nodes that the builder's caller has references to.
module _ {W V : Type 0} {store : NodeStore W V} (laws : IsStore store)
    (held : List NodeSummary) where
  open laws use {contents, count}

  -- A builder that stands for the entries `kvs`, each of its nodes counted in the space map.
  pub record Holds (w : W) (self : NodeBuilder V) (kvs : List (ℕ × V)) : Type 0 where
    pub live : (b : ℕ) → uses b self.nodes + uses b held ≤ count w b
    pub described : All (Describes laws w) self.nodes
    pub all : entries laws w self.nodes ++ self.values ≡ kvs

  -- A step to a builder for `kvs` that leaves what the caller holds.
  pub record After (w : W) (self : NodeBuilder V) (kvs : List (ℕ × V)) (p : W × NodeBuilder V)
      : Type 0 where
    pub holds : Holds p.0 p.1 kvs
    pub kept : Kept laws w p.0 held
    pub same_max : p.1.max_entries_per_node ≡ self.max_entries_per_node
    pub same_last : p.1.last_key ≡ self.last_key

  -- A step that writes one node more, of `n` entries.
  pub record Emits (self : NodeBuilder V) (n : ℕ) (self' : NodeBuilder V) : Type 0 where
    pub fewer : length self'.values ≡ length self.values - n
    pub node : NodeSummary
    pub pushed : self'.nodes ≡ self.nodes ++ node ∷ []
    pub entries_of_node : node.nr_entries ≡ n

  -- The new node's block was free, and the others' counts are as they were.
  written_live :
      (w w' : W) (ps : List (ℕ × V)) (r : WriteResult)
      → store.write w (keys_of ps) (values_of ps) ≡ some (w', r)
      → (b in_nodes in_held : ℕ) → in_nodes + in_held ≤ count w b
      → in_nodes + ((if r.loc == b then 1 else 0) + 0) + in_held ≤ count w' b
  written_live w w' ps r e b in_nodes in_held le =
      let (free, once, stored, first) = laws.write_fresh w w' ps r e in
      elim (Bool-cases (r.loc == b)) [
        | inl here ↦
            let at : r.loc ≡ b = ground arith in
            let unused : count w b ≡ 0 = rw (← at) free in
            let used : count w' b ≡ 1 = rw (← at) once in rw here (omega arith)
        | inr there ↦ rw there (elim (Bool-cases (count w b == 0)) [
          | inl free_block ↦ let unused : count w b ≡ 0 = ground arith in omega arith
          | inr counted ↦
              let some_count : 0 < count w b = ground arith in
              omega (arith, (laws.write_keeps w w' ps r b e some_count).0)
        ])
      ]

  pub emit_values-After :
      (w : W) (self : NodeBuilder V) (kvs : List (ℕ × V)) (n : ℕ)
      → Holds w self kvs
      → n ≤ length self.values
      → Ends (λ p. After w self kvs p × Emits self n p.1) (emit_values store w self n)
  unfolding emit_values
  emit_values-After w self kvs n h le =
      let enough : ltb (length self.values) n ≡ false = ground arith in
      let popped = (pop_front n self.values).0 in
      let lengths = pop_front_length n self.values le in
      rw enough (
        Ends-bind (λ a. store.write w (keys_of popped) (values_of popped) ≡ some a) _
          (lift (store.write w (keys_of popped) (values_of popped))) _ (Ends-lift _ _ (λ a e. e))
          (λ a e.
            let (free, once, stored, first) = laws.write_fresh w a.0 popped a.1 e in
            let kept : Kept laws w a.0 self.nodes =
              λ b used. (laws.write_keeps w a.0 popped a.1 b e (omega (arith, h.live b))).1 in
            (
              record {
                holds = record {
                  live = λ b. rw (uses-append b self.nodes (_ ∷ [])) (
                      written_live w a.0 popped a.1 e b (uses b self.nodes) (uses b held)
                        (h.live b));
                  described =
                      All-append (Describes laws a.0) self.nodes _
                        (Kept-Describes laws w a.0 self.nodes kept h.described)
                        ((rw (stored, lengths.0) refl, rw (stored, first) refl), tt);
                  all =
                      rw
                        (
                          entries-append laws a.0 self.nodes _,
                          Kept-entries laws w a.0 self.nodes kept,
                          stored,
                        )
                        (rw
                          (
                            append-nil popped,
                            append_assoc (entries laws w self.nodes) popped
                                (pop_front n self.values).1,
                            pop_front-append n self.values,
                          )
                          h.all);
                };
                kept =
                    λ b used. (laws.write_keeps w a.0 popped a.1 b e (omega (arith, h.live b))).1;
                same_max = refl;
                same_last = refl;
              },
              record { fewer = lengths.1; node = _; pushed = refl; entries_of_node = refl },
            )))

  pub append_values-After :
      (w : W) (self : NodeBuilder V) (kvs : List (ℕ × V)) (n : NodeSummary)
      → Holds w self kvs
      → 0 < uses n.block held
      → Ends
          (λ p.
            After w self (kvs ++ contents w n.block) p
            × (p.1.nodes ≡ self.nodes)
            × (length p.1.values ≡ length self.values + length (contents w n.block)))
          (append_values store w self n)
  unfolding append_values
  append_values-After w self kvs n h used =
      Ends-bind _ _ (lift (store.read w n.block)) _
        (read-contents store laws w n.block (omega (arith, h.live n.block)))
        (λ p e.
          rw (e, zip_unzip (contents w n.block))
            (Ends-bind (Same store laws w) _ (inc_values store w (contents w n.block)) _
              (inc_values-Same store laws (contents w n.block) w)
              (λ w' same.
                let kept : Kept laws w w' self.nodes = λ b u. (same b).1 in
                (
                  record {
                    holds = record {
                      live = λ b. rw (same b).0 (h.live b);
                      described = Kept-Describes laws w w' self.nodes kept h.described;
                      all =
                          rw
                            (
                              Kept-entries laws w w' self.nodes kept,
                              ← append_assoc (entries laws w self.nodes) self.values
                                  (contents w n.block),
                              h.all,
                            )
                            refl;
                    };
                    kept = λ b u. (same b).1;
                    same_max = refl;
                    same_last = refl;
                  },
                  refl,
                  length-append self.values (contents w n.block),
                ))))

  -- The caller's nodes and those of the builder but for one of them are still counted.
  dec_live :
      (w w' : W) (init : List NodeSummary) (last : NodeSummary)
      → store.dec w last.block ≡ some w'
      → ((b : ℕ) → uses b (init ++ last ∷ []) + uses b held ≤ count w b)
      → (b : ℕ) → uses b init + uses b held ≤ count w' b
  dec_live w w' init last e live b =
      let counted = (laws.dec_keeps w w' last.block b e).0 in
      let total : uses b init + ((if last.block == b then 1 else 0) + 0) + uses b held ≤ count w b =
        rw (← uses-append b init (last ∷ [])) (live b) in
      elim (Bool-cases (last.block == b)) [
        | inl here ↦ rw (counted, here) (let total' = rw here at total in omega arith)
        | inr there ↦ rw (counted, there) (let total' = rw there at total in omega arith)
      ]

  shared-Same :
      (w : W) (shared : Bool) (ps : List (ℕ × V))
      → Ends (Same store laws w) (if shared then inc_values store w ps else ok w)
  shared-Same w true ps = inc_values-Same store laws ps w
  shared-Same w false ps = λ b. (refl, refl)

  regroup :
      (w : W) (self : NodeBuilder V) (kvs : List (ℕ × V)) (init : List NodeSummary)
      (last : NodeSummary)
      → init ++ last ∷ [] ≡ self.nodes
      → entries laws w self.nodes ++ self.values ≡ kvs
      → entries laws w init ++ (contents w last.block ++ self.values) ≡ kvs
  regroup w self kvs init last nodes_eq all =
      rw
        (
          ← append_assoc (entries laws w init) (contents w last.block) self.values,
          ← append-nil (contents w last.block),
          ← entries-append laws w init (last ∷ []),
          nodes_eq,
        )
        all

  pub unshift_node-After :
      (w : W) (self : NodeBuilder V) (kvs : List (ℕ × V)) (init : List NodeSummary)
      (last : NodeSummary)
      → pop self.nodes ≡ some (init, last)
      → init ++ last ∷ [] ≡ self.nodes
      → Holds w self kvs
      → Ends
          (λ p.
            After w self kvs p
            × (p.1.nodes ≡ init)
            × (length p.1.values ≡ length (contents w last.block) + length self.values))
          (unshift_node store w self)
  unfolding unshift_node
  unshift_node-After w self kvs init last popped nodes_eq h =
      let live : (b : ℕ) → uses b (init ++ last ∷ []) + uses b held ≤ count w b =
        rw nodes_eq h.live in
      let counted : 0 < count w last.block = omega (arith, live last.block, uses-last init last) in
      rw (popped, unshift_node)
        (Ends-bind _ _ (lift (store.read w last.block)) _
          (read-contents store laws w last.block counted)
          (λ p e0.
            rw (e0, zip_unzip (contents w last.block))
              (Ends-bind (λ w'. store.dec w last.block ≡ some w') _ (lift (store.dec w last.block))
                _ (Ends-lift _ _ (λ w' e. e))
                (λ w' e.
                  Ends-bind (Same store laws w') _
                    (if last.shared then inc_values store w' (contents w last.block) else ok w') _
                    (shared-Same w' last.shared (contents w last.block))
                    (λ w'' same.
                      let live' = dec_live w w' init last e live in
                      let kept : Kept laws w w'' init = λ b used.
                        (same b).1
                        ∙ (laws.dec_keeps w w' last.block b e).1 (omega (arith, live' b)) in
                      (
                        record {
                          holds = record {
                            live = λ b. rw (same b).0 (live' b);
                            described = Kept-Describes laws w w'' init kept (
                                All-left (Describes laws w) init (last ∷ [])
                                  (rw nodes_eq h.described));
                            all =
                                rw (Kept-entries laws w w'' init kept)
                                  (regroup w self kvs init last nodes_eq h.all);
                          };
                          kept = λ b used.
                              (same b).1
                              ∙ (laws.dec_keeps w w' last.block b e).1 (omega (arith, live' b));
                          same_max = refl;
                          same_last = refl;
                        },
                        refl,
                        length-append (contents w last.block) self.values,
                      ))))))
