-- ===== src/Pdata/BTreeBuilder/Merge.antt =====
-- The two ways in which push_nodes of src/pdata/btree_builder.rs takes its nodes.
use thin_provisioning_tools.Prelude.{
  ◌⊎◌, not, ◌&&◌, ℕ, ◌*◌, ◌/◌, ◌<◌, ◌≤◌, ◌≡◌, sym, ap, true, false, ltb, ◌==◌, if◌then◌else◌, List,
  [], ◌∷◌, ◌++◌, length, ◌>>=◌, append_assoc, append-nil, arith, All, All-append, Bool-cases, inl,
  inr,
}
use thin_provisioning_tools.Pdata.BTreeBuilder.{
  NodeSummary, NodeBuilder, NodeStore, merge_first, flush_first, emit_all, append_values, add_nodes,
}
use thin_provisioning_tools.Pdata.BTreeBuilder.Store.{IsStore, Ends, Ends-bind, Ends-map}
use thin_provisioning_tools.Pdata.BTreeBuilder.Nodes.{
  uses, entries, Describes, Kept, Kept-head, Kept-entries, Kept-Describes,
}
use thin_provisioning_tools.Pdata.BTreeBuilder.Steps.{Holds, After, append_values-After}
use thin_provisioning_tools.Pdata.BTreeBuilder.Flush.{
  Between, Flushes, After-trans, emit_all-After, add_nodes-After,
}
use thin_provisioning_tools.Pdata.BTreeBuilder.Push.{Fits, balanced}
use mathlib.Core.Path.{subst}

-- Nodes that may be pushed: one that is not too large, or nodes that are all at least half full.
pub data Pushable (max : ℕ) (n : NodeSummary) (ns : List NodeSummary) : Type 0 where
  single : ns ≡ [] → n.nr_entries ≤ max → Pushable max n ns
  several : All (Between (max / 2) max) (n ∷ ns) → Pushable max n ns

pub uses-held :
    (ns held : List NodeSummary)
    → All (λ n. 0 < uses n.block held) ns
    → (b : ℕ) → 0 < uses b ns
    → 0 < uses b held
uses-held [] held h b used = absurd (omega arith)
uses-held (n ∷ ns) held h b used = elim (Bool-cases (n.block == b)) [
  | inl here ↦ let at : n.block ≡ b = ground arith in rw (← at) h.0
  | inr there ↦ uses-held ns held h.1 b (let used' = rw there at used in omega arith)
]

pub at_most :
    (max : ℕ) (n : NodeSummary) (ns : List NodeSummary) → Pushable max n ns → n.nr_entries ≤ max
at_most max n ns (single e le) = le
at_most max n ns (several h) = h.0.1

each_full :
    (max : ℕ) (n m : NodeSummary) (ns : List NodeSummary)
    → Pushable max n (m ∷ ns)
    → All (Between (max / 2) max) (n ∷ m ∷ ns)
each_full max n m ns (single e le) = cc
each_full max n m ns (several h) = h

not_nil : (m : NodeSummary) (ns : List NodeSummary) → (length (m ∷ ns) == 0) ≡ false
not_nil m ns = ground arith

module _ {V : Type 0} where
  -- A builder whose nodes are all at least half full.
  pub record Settled (self : NodeBuilder V) : Type 0 where
    pub sizes : All (Between (self.max_entries_per_node / 2) self.max_entries_per_node) self.nodes
    pub few : length self.values ≤ self.max_entries_per_node * 2

module _ {W V : Type 0} {store : NodeStore W V} (laws : IsStore store)
    (held : List NodeSummary) where
  open laws use {contents, count}

  -- The caller's nodes after a step: what they hold and that their summaries are right.
  pub held-Kept :
      (w w' : W) (ns : List NodeSummary)
      → All (λ n. 0 < uses n.block held) ns
      → Kept laws w w' held
      → Kept laws w w' ns
  held-Kept w w' ns hs kept b used = kept b (uses-held ns held hs b used)

  -- The nodes after a flush, then the pre-built ones.
  add-After :
      (w : W) (self : NodeBuilder V) (kvs : List (ℕ × V)) (ns : List NodeSummary)
      → All (λ n. 0 < uses n.block held) ns
      → All (Describes laws w) ns
      → All (Between (self.max_entries_per_node / 2) self.max_entries_per_node) ns
      → Holds laws held w self kvs
      → Settled self
      → (length self.values ≡ 0) ⊎ (self.max_entries_per_node / 2 ≤ length self.values)
      → Ends
          (λ p. After laws held w self (kvs ++ entries laws w ns) p × Fits p.1)
          (emit_all store w self >>= λ p. add_nodes store p.0 p.1 ns)
  add-After w self kvs ns hs d sizes h settled least =
      Ends-bind
        (λ p. After laws held w self kvs p × Flushes (self.max_entries_per_node / 2) self p.1) _
        (emit_all store w self) _
        (emit_all-After laws held w self kvs (self.max_entries_per_node / 2) h least (omega arith)
          settled.few)
        (λ p r.
          let kept = held-Kept w p.0 ns hs r.0.kept in
          Ends-map _ _ (add_nodes store p.0 p.1 ns)
            (add_nodes-After laws held ns p.0 p.1 kvs r.1.none_left
              (Kept-Describes laws w p.0 ns kept d) hs r.0.holds)
            (λ q r'. (
              After-trans laws held w p.0 self p.1 kvs (kvs ++ entries laws w ns) q r.0
                  (rw (← Kept-entries laws w p.0 ns kept) r'.0),
              balanced
                  (rw (r'.0.same_max, r.0.same_max, r'.1, r.1.pushed)
                    (All-append _ (self.nodes ++ r.1.written) ns
                      (All-append _ self.nodes r.1.written settled.sizes r.1.sizes) sizes))
                  (omega (arith, r'.2)),
            )))

  -- The branch with too few values: they are joined by those of the first node.
  merge_first-Merged :
      (w : W) (self : NodeBuilder V) (kvs : List (ℕ × V)) (n : NodeSummary) (ns : List NodeSummary)
      → All (λ m. 0 < uses m.block held) (n ∷ ns)
      → All (Describes laws w) (n ∷ ns)
      → Pushable self.max_entries_per_node n ns
      → Holds laws held w self kvs
      → Settled self
      → length self.values < self.max_entries_per_node / 2
      → Ends
          (λ p. After laws held w self (kvs ++ entries laws w (n ∷ ns)) p × Fits p.1)
          (merge_first store w self n ns)
  unfolding merge_first
  merge_first-Merged w self kvs n [] hs d push h settled few =
      let le : n.nr_entries ≤ self.max_entries_per_node =
        at_most self.max_entries_per_node n [] push in
      Ends-bind _ _ (append_values store w self n) _
        (append_values-After laws held w self kvs n h hs.0)
        (λ p r. (
          rw (append-nil (contents w n.block)) r.0,
          balanced (rw (r.1, r.0.same_max) settled.sizes) (omega (arith, r.2, r.0.same_max, d.0.0)),
        ))
  merge_first-Merged w self kvs n (m ∷ ns) hs d push h settled few =
      let half = self.max_entries_per_node / 2 in
      let sizes = each_full self.max_entries_per_node n m ns push in
      Ends-bind _ _ (append_values store w self n) _
        (append_values-After laws held w self kvs n h hs.0)
        (λ p r.
          let kept = held-Kept w p.0 (m ∷ ns) hs.1 r.0.kept in
          let settled' : Settled p.1 = record {
            sizes = rw (r.1, r.0.same_max) settled.sizes;
            few = omega (arith, r.2, r.0.same_max, d.0.0, sizes.0.1);
          } in
          rw (not_nil m ns) (
            Ends-map _ _ (emit_all store p.0 p.1 >>= λ q. add_nodes store q.0 q.1 (m ∷ ns))
              (add-After p.0 p.1 (kvs ++ contents w n.block) (m ∷ ns) hs.1
                (Kept-Describes laws w p.0 (m ∷ ns) kept d.1)
                (subst (λ k. All (Between (k / 2) k) (m ∷ ns)) (sym r.0.same_max) sizes.1) r.0.holds
                settled' (inr (omega (arith, r.2, r.0.same_max, d.0.0, sizes.0.0))))
              (λ q r'. (
                After-trans laws held w p.0 self p.1 (kvs ++ contents w n.block)
                    (kvs ++ entries laws w (n ∷ m ∷ ns)) q r.0
                    (rw
                      (
                        ← append_assoc kvs (contents w n.block) (entries laws w (m ∷ ns)),
                        ← Kept-entries laws w p.0 (m ∷ ns) kept,
                      )
                      r'.0),
                r'.1,
              ))))

  -- The branch with enough values or none: they are flushed.
  flush_first-Merged :
      (w : W) (self : NodeBuilder V) (kvs : List (ℕ × V)) (n : NodeSummary) (ns : List NodeSummary)
      → All (λ m. 0 < uses m.block held) (n ∷ ns)
      → All (Describes laws w) (n ∷ ns)
      → Pushable self.max_entries_per_node n ns
      → Holds laws held w self kvs
      → Settled self
      → (length self.values ≡ 0) ⊎ (self.max_entries_per_node / 2 ≤ length self.values)
      → Ends
          (λ p. After laws held w self (kvs ++ entries laws w (n ∷ ns)) p × Fits p.1)
          (flush_first store w self n ns)
  unfolding flush_first
  flush_first-Merged w self kvs n ns hs d push h settled least =
      let half = self.max_entries_per_node / 2 in
      elim (Bool-cases (ltb n.nr_entries half)) [
        | inr full ↦
            rw full (add-After w self kvs (n ∷ ns) hs d (full_nodes push full) h settled least)
        | inl small ↦
            let alone : ns ≡ [] = one_node push small in
            let below : n.nr_entries < half = ground arith in
            rw (small, alone)
              (Ends-bind _ _ (emit_all store w self) _
                (emit_all-After laws held w self kvs half h least (omega arith) settled.few)
                (λ p r.
                  let kept = held-Kept w p.0 (n ∷ ns) hs r.0.kept in
                  Ends-map _ _ (append_values store p.0 p.1 n)
                    (append_values-After laws held p.0 p.1 kvs n r.0.holds hs.0)
                    (λ q r'. (
                      After-trans laws held w p.0 self p.1 kvs (kvs ++ entries laws w (n ∷ [])) q
                          r.0
                          (rw (append-nil (contents w n.block), ← Kept-head laws w p.0 n ns kept)
                            r'.0),
                      balanced
                          (rw (r'.1, r'.0.same_max, r.0.same_max, r.1.pushed)
                            (All-append _ self.nodes r.1.written settled.sizes r.1.sizes))
                          (omega (
                            arith,
                            r'.2,
                            r'.0.same_max,
                            r.0.same_max,
                            r.1.none_left,
                            ap length (Kept-head laws w p.0 n ns kept),
                            d.0.0,
                          )),
                    ))))
      ]
    where
      full_nodes :
          {max : ℕ}
          → Pushable max n ns
          → ltb n.nr_entries (max / 2) ≡ false
          → All (Between (max / 2) max) (n ∷ ns)
      full_nodes (single e le) full = rw e ((ground arith, le), tt)
      full_nodes (several sizes) full = sizes

      one_node : {max : ℕ} → Pushable max n ns → ltb n.nr_entries (max / 2) ≡ true → ns ≡ []
      one_node (single e le) small = e
      one_node (several sizes) small = absurd (ground (arith, sizes.0.0))

  pub merge_or_flush :
      (w : W) (self : NodeBuilder V) (kvs : List (ℕ × V)) (n : NodeSummary) (ns : List NodeSummary)
      (max : ℕ)
      → self.max_entries_per_node ≡ max
      → All (λ m. 0 < uses m.block held) (n ∷ ns)
      → All (Describes laws w) (n ∷ ns)
      → Pushable max n ns
      → Holds laws held w self kvs
      → Settled self
      → Ends
          (λ p. After laws held w self (kvs ++ entries laws w (n ∷ ns)) p × Fits p.1)
          (if not (length self.values == 0) && ltb (length self.values) (max / 2)
            then merge_first store w self n ns
            else flush_first store w self n ns)
  merge_or_flush w self kvs n ns max e hs d push h settled =
      let push' = subst (λ k. Pushable k n ns) (sym e) push in
      elim (Bool-cases (not (length self.values == 0) && ltb (length self.values) (max / 2))) [
        | inl few ↦
            let few' : length self.values < max / 2 = ground arith in
            rw few (
              merge_first-Merged w self kvs n ns hs d push' h settled
                (subst (λ k. length self.values < k / 2) (sym e) few'))
        | inr many ↦
            let many' : (length self.values ≡ 0) ⊎ (max / 2 ≤ length self.values) = ground arith in
            rw many (
              flush_first-Merged w self kvs n ns hs d push' h settled (
                subst (λ k. (length self.values ≡ 0) ⊎ (k / 2 ≤ length self.values)) (sym e) many'))
      ]
