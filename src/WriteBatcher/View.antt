-- ===== src/WriteBatcher/View.antt =====
-- What a reader of the batcher of src/write_batcher.rs sees.
use thin_provisioning_tools.Prelude.{
  ℕ, suc, ◌≤◌, ◌≡◌, ◌∙◌, refl, sym, ap, inl, inr, true, false, ◌==◌, if◌then◌else◌, Option, none,
  some, List, [], ◌∷◌, ◌++◌, length, Bool-cases, Option-cases, arith,
}
use mathlib.Core.Path.{subst}
use thin_provisioning_tools.Bytes.{Bytes}
use thin_provisioning_tools.WriteBatcher.Engine.{Distinct, or_else, IsEngine}
use thin_provisioning_tools.WriteBatcher.{Block, Backend, WriteBatcher, find_queued, write_hit}

pub found_append :
    (n : ℕ) (queue : List Block) (b : Block)
    → find_queued n (queue ++ b ∷ []) ≡ (if b.loc == n then some b.data_of else find_queued n queue)
unfolding find_queued
found_append n [] b = refl
found_append n (q ∷ queue) b = elim (Bool-cases (b.loc == n)) [
  | inl here ↦ rw (found_append n queue b, here) refl
  | inr there ↦ rw (found_append n queue b, there) refl
]

-- A write hit changes what is found at the location alone, and a miss means that nothing was.
pub data Hit (b : Block) (queue : List Block) : Option (List Block) → Type 0 where
  hit :
      (queue' : List Block) (old : Bytes)
      → find_queued b.loc queue ≡ some old
      → ((n : ℕ)
          → find_queued n queue' ≡ (if b.loc == n then some b.data_of else find_queued n queue))
      → Distinct queue'
      → length queue' ≡ length queue
      → Hit b queue (some queue')
  miss : find_queued b.loc queue ≡ none → Hit b queue none

pub write_hit-Hit :
    (b : Block) (queue : List Block) → Distinct queue → Hit b queue (write_hit b queue)
unfolding write_hit find_queued
write_hit-Hit b [] d = miss refl
write_hit-Hit b (q ∷ queue) d = go (write_hit b queue) (write_hit-Hit b queue d.1)
  where
    later :
        (queue' : List Block)
        → ((n : ℕ)
            → find_queued n queue' ≡ (if b.loc == n then some b.data_of else find_queued n queue))
        → (n : ℕ)
        → find_queued n (q ∷ queue')
          ≡ (if b.loc == n then some b.data_of else find_queued n (q ∷ queue))
    later queue' found n = elim (Bool-cases (b.loc == n)) [
      | inl here ↦ rw (found n, here) refl
      | inr there ↦ rw (found n, there) refl
    ]

    here_found :
        q.loc ≡ b.loc
        → find_queued b.loc queue ≡ none
        → (n : ℕ)
        → find_queued n (record q { data_of = b.data_of } ∷ queue)
          ≡ (if b.loc == n then some b.data_of else find_queued n (q ∷ queue))
    here_found at e n = elim (Bool-cases (b.loc == n)) [
      | inl here ↦
          let same : b.loc ≡ n = ground arith in
          let none_later : find_queued n queue ≡ none =
            subst (λ k. find_queued k queue ≡ none) same e in
          let test : (q.loc == n) ≡ true = ground arith in rw (here, none_later, test) refl
      | inr there ↦
          let test : (q.loc == n) ≡ false = ground arith in
          elim (Option-cases (find_queued n queue)) [
            | inl absent ↦ rw (there, absent, test) refl
            | inr found ↦ rw (there, found.1) refl
          ]
    ]

    go :
        (o : Option (List Block))
        → Hit b queue o
        → Hit b (q ∷ queue) (elim o [
          | some queue' ↦ some (q ∷ queue')
          | none ↦ if q.loc == b.loc then some (record q { data_of = b.data_of } ∷ queue) else none
        ])
    go o (hit queue' old found_old found d' len) =
        let other : (b.loc == q.loc) ≡ false = elim (Bool-cases (b.loc == q.loc)) [
          | inr apart ↦ apart
          | inl same_loc ↦
              let at : b.loc ≡ q.loc = ground arith in
              let absent : find_queued b.loc queue ≡ none = rw at d.0 in
              absurd (let clash = sym absent ∙ found_old in cc)
        ] in
        hit (q ∷ queue') old (rw found_old refl) (later queue' found)
          (found q.loc ∙ rw other d.0, d') (ap suc len)
    go o (miss e) = elim (Bool-cases (q.loc == b.loc)) [
      | inl at ↦
          let same : q.loc ≡ b.loc = ground arith in
          rw at (
            hit (record q { data_of = b.data_of } ∷ queue) q.data_of (rw (e, at) refl)
              (here_found same e) (d.0, d.1) refl)
      | inr apart ↦ rw apart (miss (rw (e, apart) refl))
    ]

pub Distinct-append :
    (queue : List Block) (b : Block)
    → Distinct queue
    → find_queued b.loc queue ≡ none
    → Distinct (queue ++ b ∷ [])
unfolding find_queued
Distinct-append [] b d e = (refl, tt)
Distinct-append (q ∷ queue) b d e = elim (Option-cases (find_queued b.loc queue)) [
  | inr found ↦ absurd (let clash = rw (found.1, find_queued) at e in cc)
  | inl absent ↦ elim (Bool-cases (q.loc == b.loc)) [
    | inl at ↦ absurd (let clash = rw (absent, at, find_queued) at e in cc)
    | inr apart ↦
        let apart' : (b.loc == q.loc) ≡ false = ground arith in
        (found_append q.loc queue b ∙ rw apart' d.0, Distinct-append queue b d.1 absent)
  ]
]

module _ {E S R : Type 0} {backend : Backend E S R} (laws : IsEngine backend) where
  open laws use {image}

  -- The bytes of a block, as the last write left them.
  abbrev pub view : WriteBatcher E S R → ℕ → Bytes
  view self b = or_else (find_queued b self.queue) (image self.engine b)

  -- The queue has room for its blocks, no two of them for one location.
  pub record IsValid (self : WriteBatcher E S R) : Type 0 where
    pub distinct : Distinct self.queue
    pub fits : length self.queue ≤ self.batch_size
