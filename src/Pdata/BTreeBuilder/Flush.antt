-- ===== src/Pdata/BTreeBuilder/Flush.antt =====
-- emit_all and the pushing of pre-built nodes in src/pdata/btree_builder.rs.
use thin_provisioning_tools.Prelude.{
  ◌⊎◌, ℕ, ◌+◌, ◌-◌, ◌*◌, ◌/◌, ◌<◌, ◌≤◌, ◌≡◌, refl, sym, ◌∙◌, true, leb, ◌==◌, if◌then◌else◌, some,
  List, [], ◌∷◌, ◌++◌, length, append_assoc, append-nil, arith, All, All-append, Bool-cases, inl,
  inr,
}
use thin_provisioning_tools.Pdata.BTreeBuilder.{
  NodeSummary, NodeBuilder, NodeStore, lift, emit_values, emit_all, add_nodes,
}
use thin_provisioning_tools.Pdata.BTreeBuilder.Store.{IsStore, Ends, Ends-bind, Ends-map, Ends-lift}
use thin_provisioning_tools.Pdata.BTreeBuilder.Nodes.{
  uses, uses-append, uses-last, entries, Describes, entries-append, Kept, Kept-entries,
  Kept-Describes,
}
use thin_provisioning_tools.Pdata.BTreeBuilder.Steps.{Holds, After, emit_values-After}

-- A node of `lo` to `hi` entries.
abbrev pub Between : ℕ → ℕ → NodeSummary → Type 0
Between lo hi n = (lo ≤ n.nr_entries) × (n.nr_entries ≤ hi)

pub nil_of_length {ℓ} : {A : Type ℓ} (xs : List A) → length xs ≡ 0 → xs ≡ []
nil_of_length [] h = refl
nil_of_length (x ∷ xs) h = absurd (omega arith)

module _ {V : Type 0} where
  -- All values written to new nodes of at least `lo` entries.
  pub record Flushes (lo : ℕ) (self self' : NodeBuilder V) : Type 0 where
    pub none_left : length self'.values ≡ 0
    pub written : List NodeSummary
    pub pushed : self'.nodes ≡ self.nodes ++ written
    pub sizes : All (Between lo self.max_entries_per_node) written
    pub none_written : length self.values ≡ 0 → written ≡ []
    pub some_written : 0 < length self.values → 0 < length written
    pub one_written : length self.values ≤ self.max_entries_per_node → length written ≤ 1

module _ {W V : Type 0} {store : NodeStore W V} (laws : IsStore store)
    (held : List NodeSummary) where
  open laws use {contents, count}

  pub After-trans :
      (w w' : W) (self self' : NodeBuilder V) (kvs kvs' : List (ℕ × V)) (p : W × NodeBuilder V)
      → After laws held w self kvs (w', self')
      → After laws held w' self' kvs' p
      → After laws held w self kvs' p
  After-trans w w' self self' kvs kvs' p h h' = record {
    holds = h'.holds;
    kept = λ b used. h'.kept b used ∙ h.kept b used;
    same_max = h'.same_max ∙ h.same_max;
    same_last = h'.same_last ∙ h.same_last;
  }

  pub After-refl :
      (w : W) (self : NodeBuilder V) (kvs : List (ℕ × V))
      → Holds laws held w self kvs
      → After laws held w self kvs (w, self)
  After-refl w self kvs h = record {
    holds = h;
    kept = λ b used. refl;
    same_max = refl;
    same_last = refl;
  }

  pub emit_all-After :
      (w : W) (self : NodeBuilder V) (kvs : List (ℕ × V)) (lo : ℕ)
      → Holds laws held w self kvs
      → (length self.values ≡ 0) ⊎ (lo ≤ length self.values)
      → lo * 2 ≤ self.max_entries_per_node + 1
      → length self.values ≤ self.max_entries_per_node * 2
      → Ends (λ p. After laws held w self kvs p × Flushes lo self p.1) (emit_all store w self)
  unfolding emit_all
  emit_all-After w self kvs lo h enough small fits =
      let n = length self.values in
      elim (Bool-cases (n == 0)) [
        | inl empty ↦ rw empty (
          After-refl w self kvs h,
          record {
            none_left = ground arith;
            written = [];
            pushed = sym (append-nil self.nodes);
            sizes = tt;
            none_written = λ e. refl;
            some_written = λ some. ground arith;
            one_written = λ le. omega arith;
          },
        )
        | inr full ↦ elim (Bool-cases (leb n self.max_entries_per_node)) [
          | inl one ↦
              let least : lo ≤ n = ground arith in
              let most : n ≤ self.max_entries_per_node = ground arith in
              rw (full, one)
                (Ends-map _ _ (emit_values store w self n)
                  (emit_values-After laws held w self kvs n h (omega arith))
                  (λ p r. (
                    r.0,
                    record {
                      none_left = omega (arith, r.1.fewer);
                      written = r.1.node ∷ [];
                      pushed = r.1.pushed;
                      sizes = (
                        (omega (arith, r.1.entries_of_node), omega (arith, r.1.entries_of_node)),
                        tt,
                      );
                      none_written = λ e. absurd (ground arith);
                      some_written = λ some. omega arith;
                      one_written = λ le. omega arith;
                    },
                  )))
          | inr two ↦
              let fits' : leb n (self.max_entries_per_node * 2) ≡ true = ground arith in
              let least : lo ≤ n / 2 = ground arith in
              let more : self.max_entries_per_node < n = ground arith in
              rw (full, two, fits')
                (Ends-bind _ _ (emit_values store w self (n / 2)) _
                  (emit_values-After laws held w self kvs (n / 2) h (omega arith))
                  (λ p r.
                    Ends-map _ _ (emit_values store p.0 p.1 (n - n / 2))
                      (emit_values-After laws held p.0 p.1 kvs (n - n / 2) r.0.holds
                        (omega (arith, r.1.fewer)))
                      (λ q r'. (
                        After-trans w p.0 self p.1 kvs kvs q r.0 r'.0,
                        record {
                          none_left = omega (arith, r.1.fewer, r'.1.fewer);
                          written = r.1.node ∷ r'.1.node ∷ [];
                          pushed = rw (r'.1.pushed, r.1.pushed, append_assoc) refl;
                          sizes = (
                            (
                              omega (arith, r.1.entries_of_node),
                              omega (arith, r.1.entries_of_node),
                            ),
                            (
                              (
                                omega (arith, r'.1.entries_of_node),
                                omega (arith, r'.1.entries_of_node),
                              ),
                              tt,
                            ),
                          );
                          none_written = λ e. absurd (ground arith);
                          some_written = λ some. omega arith;
                          one_written = λ le. absurd (omega arith);
                        },
                      ))))
        ]
      ]

  pub no_values :
      (w : W) (self : NodeBuilder V) (kvs : List (ℕ × V))
      → length self.values ≡ 0
      → Holds laws held w self kvs
      → entries laws w self.nodes ≡ kvs
  no_values w self kvs empty h = sym (append-nil _) ∙ rw (← nil_of_length self.values empty) h.all

  -- The nodes one by one, each with a reference of its own, after a builder without values.
  pub add_nodes-After :
      (ns : List NodeSummary) (w : W) (self : NodeBuilder V) (kvs : List (ℕ × V))
      → length self.values ≡ 0
      → All (Describes laws w) ns
      → All (λ n. 0 < uses n.block held) ns
      → Holds laws held w self kvs
      → Ends
          (λ p.
            After laws held w self (kvs ++ entries laws w ns) p
            × (p.1.nodes ≡ self.nodes ++ ns)
            × (length p.1.values ≡ 0))
          (add_nodes store w self ns)
  unfolding add_nodes
  add_nodes-After [] w self kvs empty d hs h =
      (rw (append-nil kvs) (After-refl w self kvs h), sym (append-nil self.nodes), empty)
  add_nodes-After (n ∷ ns) w self kvs empty d hs h =
      Ends-bind (λ w'. store.inc w n.block ≡ some w') _ (lift (store.inc w n.block)) _
        (Ends-lift _ _ (λ w' e. e))
        (λ w' e.
          let self' : NodeBuilder V = record self { nodes = self.nodes ++ n ∷ [] } in
          let kept : (ms : List NodeSummary) → Kept laws w w' ms =
            λ ms b used. (laws.inc_keeps w w' n.block b e).1 in
          let one : After laws held w self (kvs ++ contents w n.block) (w', self') = record {
            holds = record {
              live = λ b. rw (uses-append b self.nodes (n ∷ [])) (
                  inc_live b (uses b self.nodes) (uses b held) _ _ (h.live b)
                    (laws.inc_keeps w w' n.block b e).0);
              described =
                  All-append (Describes laws w') self.nodes (n ∷ [])
                    (Kept-Describes laws w w' self.nodes (kept self.nodes) h.described)
                    (Kept-Describes laws w w' (n ∷ []) (kept (n ∷ [])) (d.0, tt));
              all =
                  rw
                    (
                      nil_of_length self.values empty,
                      append-nil (entries laws w' self'.nodes),
                      entries-append laws w' self.nodes (n ∷ []),
                      append-nil (contents w' n.block),
                      Kept-entries laws w w' self.nodes (kept self.nodes),
                      kept (n ∷ []) n.block (uses-last [] n),
                      no_values w self kvs empty h,
                    )
                    refl;
            };
            kept = kept held;
            same_max = refl;
            same_last = refl;
          } in
          Ends-map _ _ (add_nodes store w' self' ns)
            (add_nodes-After ns w' self' (kvs ++ contents w n.block) empty
              (Kept-Describes laws w w' ns (kept ns) d.1) hs.1 one.holds)
            (λ p r. (
              After-trans w w' self self' (kvs ++ contents w n.block)
                  (kvs ++ entries laws w (n ∷ ns)) p one
                  (rw
                    (
                      ← append_assoc kvs (contents w n.block) (entries laws w ns),
                      ← Kept-entries laws w w' ns (kept ns),
                    )
                    r.0),
              rw (r.1, append_assoc) refl,
              r.2,
            )))
    where
      inc_live :
          (b in_nodes in_held count_w count_w' : ℕ)
          → in_nodes + in_held ≤ count_w
          → count_w' ≡ (if n.block == b then count_w + 1 else count_w)
          → in_nodes + ((if n.block == b then 1 else 0) + 0) + in_held ≤ count_w'
      inc_live b in_nodes in_held count_w count_w' le e = ground arith
