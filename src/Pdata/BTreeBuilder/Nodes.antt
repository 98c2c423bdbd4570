-- ===== src/Pdata/BTreeBuilder/Nodes.antt =====
-- The nodes that NodeBuilder of src/pdata/btree_builder.rs has made, and what they hold.
use thin_provisioning_tools.Prelude.{
  ℕ, zero, suc, ◌+◌, ◌-◌, ◌<◌, ◌≤◌, ◌≡◌, refl, ap, ◌==◌, if◌then◌else◌, some, List, [], ◌∷◌, ◌++◌,
  length, append_assoc, arith, All,
}
use thin_provisioning_tools.Pdata.BTreeBuilder.{NodeSummary, NodeStore, pop, pop_front}
use thin_provisioning_tools.Pdata.BTreeBuilder.Store.{IsStore, first_key}

-- How often a block is among the nodes.
abbrev pub uses : ℕ → List NodeSummary → ℕ
uses b [] = 0
uses b (n ∷ ns) = (if n.block == b then 1 else 0) + uses b ns

pub uses-append : (b : ℕ) (ns ms : List NodeSummary) → uses b (ns ++ ms) ≡ uses b ns + uses b ms
uses-append b [] ms = omega arith
uses-append b (n ∷ ns) ms = omega (arith, uses-append b ns ms)

pub uses-last :
    (init : List NodeSummary) (last : NodeSummary) → 0 < uses last.block (init ++ last ∷ [])
uses-last init last = rw (uses-append last.block init (last ∷ [])) (ground arith)

pub All-left {ℓ κ} : {A : Type ℓ} (P : A → Type κ) (xs ys : List A) → All P (xs ++ ys) → All P xs
All-left P [] ys h = tt
All-left P (x ∷ xs) ys h = (h.0, All-left P xs ys h.1)

pub All-right {ℓ κ} : {A : Type ℓ} (P : A → Type κ) (xs ys : List A) → All P (xs ++ ys) → All P ys
All-right P [] ys h = h
All-right P (x ∷ xs) ys h = All-right P xs ys h.1

pub pop-some {ℓ} :
    {A : Type ℓ} (x : A) (xs : List A)
    → (init : List A) × (last : A) × (pop (x ∷ xs) ≡ some (init, last))
      × (init ++ last ∷ [] ≡ x ∷ xs)
pop-some x [] = ([], x, refl, refl)
pop-some x (y ∷ ys) =
    let (init, last, popped, all) = pop-some y ys in
    (x ∷ init, last, rw popped, ap (λ zs. x ∷ zs) all)

pub pop_nonempty {ℓ} :
    {A : Type ℓ} (xs : List A)
    → 0 < length xs
    → (init : List A) × (last : A) × (pop xs ≡ some (init, last)) × (init ++ last ∷ [] ≡ xs)
pop_nonempty [] h = absurd (omega arith)
pop_nonempty (x ∷ xs) h = pop-some x xs

pub pop_front-append {ℓ} :
    {A : Type ℓ} (n : ℕ) (xs : List A) → (pop_front n xs).0 ++ (pop_front n xs).1 ≡ xs
pop_front-append zero xs = refl
pop_front-append (suc n) [] = refl
pop_front-append (suc n) (x ∷ xs) = ap (λ ys. x ∷ ys) (pop_front-append n xs)

pub pop_front_length {ℓ} :
    {A : Type ℓ} (n : ℕ) (xs : List A)
    → n ≤ length xs
    → (length (pop_front n xs).0 ≡ n) × (length (pop_front n xs).1 ≡ length xs - n)
pop_front_length zero xs h = (refl, omega arith)
pop_front_length (suc n) [] h = absurd (omega arith)
pop_front_length (suc n) (x ∷ xs) h =
    let (front, back) = pop_front_length n xs (omega arith) in (ap suc front, omega arith)

module _ {W V : Type 0} {store : NodeStore W V} (laws : IsStore store) where
  open laws use {contents, count}

  -- The entries of the nodes, one node after the other.
  abbrev pub entries : W → List NodeSummary → List (ℕ × V)
  entries w [] = []
  entries w (n ∷ ns) = contents w n.block ++ entries w ns

  -- The summary of a node says what the node holds.
  abbrev pub Describes : W → NodeSummary → Type 0
  Describes w n =
      (n.nr_entries ≡ length (contents w n.block)) × (n.key ≡ first_key (contents w n.block))

  pub entries-append :
      (w : W) (ns ms : List NodeSummary) → entries w (ns ++ ms) ≡ entries w ns ++ entries w ms
  entries-append w [] ms = refl
  entries-append w (n ∷ ns) ms = rw (entries-append w ns ms, append_assoc) refl

  -- The blocks of the nodes have the contents that they had.
  abbrev pub Kept : W → W → List NodeSummary → Type 0
  Kept w w' ns = (b : ℕ) → 0 < uses b ns → contents w' b ≡ contents w b

  pub Kept-tail :
      (w w' : W) (n : NodeSummary) (ns : List NodeSummary) → Kept w w' (n ∷ ns) → Kept w w' ns
  Kept-tail w w' n ns h b used = h b (omega arith)

  pub Kept-head :
      (w w' : W) (n : NodeSummary) (ns : List NodeSummary)
      → Kept w w' (n ∷ ns)
      → contents w' n.block ≡ contents w n.block
  Kept-head w w' n ns h = h n.block (ground arith)

  pub Kept-entries :
      (w w' : W) (ns : List NodeSummary) → Kept w w' ns → entries w' ns ≡ entries w ns
  Kept-entries w w' [] h = refl
  Kept-entries w w' (n ∷ ns) h =
      rw (Kept-head w w' n ns h, Kept-entries w w' ns (Kept-tail w w' n ns h)) refl

  pub Kept-Describes :
      (w w' : W) (ns : List NodeSummary)
      → Kept w w' ns
      → All (Describes w) ns
      → All (Describes w') ns
  Kept-Describes w w' [] h d = tt
  Kept-Describes w w' (n ∷ ns) h d =
      (rw (Kept-head w w' n ns h) d.0, Kept-Describes w w' ns (Kept-tail w w' n ns h) d.1)
