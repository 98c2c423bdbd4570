-- ===== src/Pdata/BTreeBuilder.antt =====
-- src/pdata/btree_builder.rs: NodeBuilder, which packs values and pre-built nodes into nodes.
pub mod Store
pub mod Nodes
pub mod Steps
pub mod Flush
pub mod Push
pub mod Merge
pub mod PushNodes
pub mod Complete
pub mod Levels
pub mod Build
use thin_provisioning_tools.Prelude.{
  ℕ, zero, suc, ◌+◌, ◌-◌, ◌*◌, ◌/◌, Bool, true, false, not, ◌&&◌, ◌||◌, ltb, leb, ◌==◌,
  if◌then◌else◌, Option, none, some, List, [], ◌∷◌, ◌++◌, map, length, Result, ok, err, ◌>>=◌,
}

-- `store_failed` is an error of the batcher, the node I/O or a reference counter. `panicked` is a
-- failed `assert!`, an `unwrap` or a `panic!`. `stuck` is no result of the source: the model ran out
-- of fuel.
pub data BuildError : Type 0 where
  store_failed keys_out_of_order panicked stuck : BuildError

pub record WriteResult : Type 0 where
  pub first_key : ℕ
  pub loc : ℕ

pub record NodeSummary : Type 0 where
  pub block : ℕ
  pub key : ℕ
  pub nr_entries : ℕ
  pub shared : Bool

-- What a builder calls: `NodeIO::write` and `NodeIO::read`, `inc` and `dec` of the batcher's space
-- map, and `RefCounter::inc`, on a state `W` of all of them. `none` is an error of theirs.
pub record NodeStore (W V : Type 0) : Type 0 where
  pub write : W → List ℕ → List V → Option (W × WriteResult)
  pub read : W → ℕ → Option (List ℕ × List V)
  pub inc : W → ℕ → Option W
  pub dec : W → ℕ → Option W
  pub inc_value : W → V → Option W

pub record NodeBuilder (V : Type 0) : Type 0 where
  pub max_entries_per_node : ℕ
  pub values : List (ℕ × V)
  pub nodes : List NodeSummary
  pub shared : Bool
  pub last_key : Option ℕ

-- `?` on a call of the store.
abbrev pub lift : {A : Type 0} → Option A → Result BuildError A
lift none = err store_failed
lift (some a) = ok a

abbrev pub zip : {V : Type 0} → List ℕ → List V → List (ℕ × V)
zip (k ∷ keys) (v ∷ values) = (k, v) ∷ zip keys values
zip _ _ = []

-- The first `n` values, popped from the front, and the others.
abbrev pub pop_front {ℓ} : {A : Type ℓ} → ℕ → List A → List A × List A
pop_front zero xs = ([], xs)
pop_front (suc n) [] = ([], [])
pop_front (suc n) (x ∷ xs) = (x ∷ (pop_front n xs).0, (pop_front n xs).1)

-- `Vec::pop`: what is left, and the last element.
abbrev pub pop {ℓ} : {A : Type ℓ} → List A → Option (List A × A)
pop [] = none
pop (x ∷ xs) = elim (pop xs) [ none ↦ some ([], x) | some p ↦ some (x ∷ p.0, p.1) ]

unfoldable pub any_small : ℕ → List NodeSummary → Bool
any_small half_full [] = false
any_small half_full (n ∷ ns) = ltb n.nr_entries half_full || any_small half_full ns

abbrev pub last_of : NodeSummary → List NodeSummary → NodeSummary
last_of n [] = n
last_of n (m ∷ ns) = last_of m ns

module _ {V : Type 0} where
  unfoldable pub check_ordered_key : NodeBuilder V → ℕ → Result BuildError (NodeBuilder V)
  check_ordered_key self key = elim self.last_key [
    | none ↦ ok (record self { last_key = some key })
    | some last ↦
        if leb key last then err keys_out_of_order else ok (record self { last_key = some key })
  ]

  -- `self.nodes.len() == 1 && self.nodes[0].nr_entries < half_full`
  abbrev pub lone_small : NodeBuilder V → Bool
  lone_small self = elim self.nodes [
    | [] ↦ false
    | n ∷ others ↦ (length (n ∷ others) == 1) && ltb n.nr_entries (self.max_entries_per_node / 2)
  ]

  -- `nodes[0].key <= last`
  abbrev pub out_of_order : NodeBuilder V → ℕ → Bool
  out_of_order self key = elim self.last_key [ none ↦ false | some last ↦ leb key last ]

module _ {W V : Type 0} (store : NodeStore W V) where
  open store use {write, read, inc, dec, inc_value}

  abbrev pub Step : Type 0
  Step = Result BuildError (W × NodeBuilder V)

  unfoldable pub emit_values : W → NodeBuilder V → ℕ → Step
  emit_values w self nr_entries = if ltb (length self.values) nr_entries then err panicked else (do
    let (popped, rest) = pop_front nr_entries self.values
    (w', wresult) ← lift (write w (map (λ p. p.0) popped) (map (λ p. p.1) popped))
    ok (
      w',
      record self {
        values = rest;
        nodes =
            self.nodes
            ++ record {
              block = wresult.loc;
              key = wresult.first_key;
              nr_entries = nr_entries;
              shared = self.shared;
            }
              ∷ [];
      },
    ))

  unfoldable pub emit_node : W → NodeBuilder V → Step
  unfolding emit_values
  emit_node w self = emit_values w self self.max_entries_per_node

  unfoldable pub emit_all : W → NodeBuilder V → Step
  unfolding emit_values
  emit_all w self =
      let n = length self.values in
      if n == 0
      then ok (w, self)
      else if leb n self.max_entries_per_node
      then emit_values w self n
      else if leb n (self.max_entries_per_node * 2)
      then (do (w', self') ← emit_values w self (n / 2); emit_values w' self' (n - n / 2))
      else err panicked

  -- `self.value_rc.inc(&values[i])?` for each value.
  unfoldable pub inc_values : W → List (ℕ × V) → Result BuildError W
  inc_values w [] = ok w
  inc_values w (p ∷ ps) = do w' ← lift (inc_value w p.1); inc_values w' ps

  unfoldable pub unshift_node : W → NodeBuilder V → Step
  unfolding inc_values
  unshift_node w self = elim (pop self.nodes) [
    | none ↦ err panicked
    | some popped ↦ do
      let ls = popped.1
      (keys, values) ← lift (read w ls.block)
      w' ← lift (dec w ls.block)
      w'' ← if ls.shared then inc_values w' (zip keys values) else ok w'
      ok (w'', record self { values = zip keys values ++ self.values; nodes = popped.0 })
  ]

  unfoldable pub append_values : W → NodeBuilder V → NodeSummary → Step
  unfolding inc_values
  append_values w self node = do
    (keys, values) ← lift (read w node.block)
    w' ← inc_values w (zip keys values)
    ok (w', record self { values = self.values ++ zip keys values })

  unfoldable pub push_value : W → NodeBuilder V → ℕ → V → Step
  unfolding emit_node unshift_node check_ordered_key
  push_value w self key val = do
    (w1, self1) ←
        if lone_small self
        then unshift_node w self
        else if length self.values == self.max_entries_per_node * 2
        then emit_node w self
        else ok (w, self)
    self2 ← check_ordered_key self1 key
    w2 ← lift (inc_value w1 val)
    ok (w2, record self2 { values = self2.values ++ (key, val) ∷ [] })

  -- `w.sm.inc(n.block, 1)?; self.nodes.push(n.clone())` for each node.
  unfoldable pub add_nodes : W → NodeBuilder V → List NodeSummary → Step
  add_nodes w self [] = ok (w, self)
  add_nodes w self (n ∷ ns) = do
    w' ← lift (inc w n.block)
    add_nodes w' (record self { nodes = self.nodes ++ n ∷ [] }) ns

  -- The branch of `push_nodes` that reads the first node, for want of values.
  unfoldable pub merge_first : W → NodeBuilder V → NodeSummary → List NodeSummary → Step
  merge_first w self n ns = do
    (w1, self1) ← append_values w self n
    if length ns == 0
        then ok (w1, self1)
        else (do (w2, self2) ← emit_all w1 self1; add_nodes w2 self2 ns)

  -- The other branch, with enough values or none.
  unfoldable pub flush_first : W → NodeBuilder V → NodeSummary → List NodeSummary → Step
  flush_first w self n ns = do
    (w1, self1) ← emit_all w self
    if ltb n.nr_entries (self.max_entries_per_node / 2)
        then append_values w1 self1 n
        else add_nodes w1 self1 (n ∷ ns)

  unfoldable pub push_nodes : W → NodeBuilder V → List NodeSummary → Step
  push_nodes w self [] = err panicked
  push_nodes w self (n ∷ ns) =
      let half_full = self.max_entries_per_node / 2 in
      if (length ns == 0) && ((length self.nodes == 0) && (length self.values == 0))
      then (do w' ← lift (inc w n.block); ok (w', record self { nodes = self.nodes ++ n ∷ [] }))
      else if not (length ns == 0) && any_small half_full (n ∷ ns)
      then err panicked
      else if out_of_order self n.key
      then err keys_out_of_order
      else (do
        (w1, self1) ← if lone_small self then unshift_node w self else ok (w, self)
        let few = not (length self1.values == 0) && ltb (length self1.values) half_full
        (w2, self2) ← if few then merge_first w1 self1 n ns else flush_first w1 self1 n ns
        ok (w2, record self2 { last_key = some (last_of n ns).key }))

  unfoldable pub complete : W → NodeBuilder V → Result BuildError (W × List NodeSummary)
  complete w self = do
    let few = ltb (length self.values) (self.max_entries_per_node / 2)
    let rebalance = not (length self.values == 0) && few && not (length self.nodes == 0)
    (w1, self1) ← if rebalance then unshift_node w self else ok (w, self)
    (w2, self2) ← emit_all w1 self1
    (w3, self3) ← if length self2.nodes == 0 then emit_values w2 self2 0 else ok (w2, self2)
    ok (w3, self3.nodes)

  -- The loop over the values of a level, as `build_btree` has it.
  unfoldable pub push_all : W → NodeBuilder V → List (ℕ × V) → Step
  push_all w self [] = ok (w, self)
  push_all w self (p ∷ ps) = do (w', self') ← push_value w self p.0 p.1; push_all w' self' ps

  -- `NodeBuilder::new`, the values and `complete`.
  unfoldable pub build_level : ℕ → W → List (ℕ × V) → Result BuildError (W × List NodeSummary)
  build_level max w ps = do
    (w', self) ←
        push_all w
          (record {
            max_entries_per_node = max;
            values = [];
            nodes = [];
            shared = false;
            last_key = none;
          })
          ps
    complete w' self

-- What an internal node says of a node below it.
abbrev pub child : NodeSummary → ℕ × ℕ
child n = (n.key, n.block)

module _ {W : Type 0} (store : NodeStore W ℕ) (max : ℕ) where
  -- `while nodes.len() > 1`, with the nodes' I/O and `calc_max_entries::<u64>()` as parameters. One
  -- round for each leaf is enough where a node takes four entries.
  unfoldable pub level_loop : ℕ → W → List NodeSummary → Result BuildError (W × List NodeSummary)
  level_loop zero w nodes = if ltb 1 (length nodes) then err stuck else ok (w, nodes)
  level_loop (suc fuel) w nodes =
      if ltb 1 (length nodes)
      then (build_level store max w (map child nodes) >>= λ p. level_loop fuel p.0 p.1)
      else ok (w, nodes)

  abbrev root_of : W × List NodeSummary → Result BuildError (W × ℕ)
  root_of (w, []) = err panicked
  root_of (w, n ∷ []) = ok (w, n.block)
  root_of (w, n ∷ m ∷ ns) = err panicked

  unfoldable pub build_btree : W → List NodeSummary → Result BuildError (W × ℕ)
  build_btree w leaves = level_loop (length leaves) w leaves >>= root_of
