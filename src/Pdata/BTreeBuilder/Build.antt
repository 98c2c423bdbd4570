-- ===== src/Pdata/BTreeBuilder/Build.antt =====
-- build_btree of src/pdata/btree_builder.rs.
use thin_provisioning_tools.Prelude.{ℕ, ◌≤◌, ◌≡◌, List, ◌++◌, map, All}
use thin_provisioning_tools.Pdata.BTreeBuilder.{NodeSummary, NodeStore, child}
use thin_provisioning_tools.Pdata.BTreeBuilder.Store.{IsStore}
use thin_provisioning_tools.Pdata.BTreeBuilder.Nodes.{uses, entries, Describes, Kept}
use thin_provisioning_tools.Pdata.BTreeBuilder.Complete.{IsLevel}
use thin_provisioning_tools.Pdata.BTreeBuilder.Levels.{Ascending}

module _ {W : Type 0} {store : NodeStore W ℕ} (laws : IsStore store) (max : ℕ) where
  open laws use {contents, count}

  -- Nodes that stand over the leaves, level by level: the entries of the nodes of a level are the
  -- first keys and the blocks of those of the level below, in their order. `below` is all of them.
  pub data Stands (w : W) (leaves : List NodeSummary)
      : List NodeSummary → List NodeSummary → Type 0 where
    bottom : Stands w leaves leaves leaves
    level :
        (nodes above below : List NodeSummary)
        → Stands w leaves below nodes
        → All (Describes laws w) above
        → entries laws w above ≡ map child nodes
        → IsLevel max above
        → Stands w leaves (above ++ below) above

  -- One level more: a state whose counted blocks include `below`, with the nodes at its top.
  record Built (w0 : W) (leaves : List NodeSummary) (p : W × List NodeSummary) : Type 0 where
    below : List NodeSummary
    stands : Stands p.0 leaves below p.1
    live : (b : ℕ) → uses b below ≤ count p.0 b
    keys : Ascending 0 (map child p.1)
    kept : Kept laws w0 p.0 leaves
    over : (b : ℕ) → uses b leaves ≤ uses b below
