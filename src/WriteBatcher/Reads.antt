-- ===== src/WriteBatcher/Reads.antt =====
-- What `read` of src/write_batcher.rs returns after `write`, and what `flush` leaves.
use thin_provisioning_tools.Prelude.{
  ℕ, ◌≡◌, ◌≢◌, ◌∙◌, refl, inl, inr, Bool, false, ◌==◌, if◌then◌else◌, Option, none, some, List, [],
  length, Result, ok, err, Bool-cases, Option-cases, ==_refl, arith,
}
use thin_provisioning_tools.Bytes.{Bytes, ByteOrder}
use thin_provisioning_tools.Checksum.{BlockType, write_checksum}
use thin_provisioning_tools.WriteBatcher.{
  Block, BatchError, io_failed, Backend, WriteBatcher, find_queued, write_hit, flush_queue, read,
  push, enqueue, write,
}
use thin_provisioning_tools.WriteBatcher.Engine.{IsEngine, lost, Distinct}
use thin_provisioning_tools.WriteBatcher.View.{found_append, Hit, hit, miss, write_hit-Hit, view}

module _ {E S R : Type 0} (backend : Backend E S R) where
  -- What a read of the device returns.
  abbrev pub from_device : ℕ → Option Bytes → Result BatchError Block
  from_device c none = err io_failed
  from_device c (some found) = ok (record { loc = c; data_of = found })

  -- Reads after a write: at its location the bytes written; elsewhere what was read before or, where the
  -- full queue was flushed, what the device has. The write fails only where the flush fails as a whole.
  pub data ReadsBack (self : WriteBatcher E S R) (b : Block)
      : WriteBatcher E S R × Result BatchError (Unit {0}) → Type 0 where
    stored :
        (self' : WriteBatcher E S R)
        → read backend self' b.loc ≡ ok b
        → ((c : ℕ) → b.loc ≢ c → read backend self' c ≡ read backend self c)
        → ReadsBack self b (self', ok tt)
    flushed :
        (self' : WriteBatcher E S R) (results : List Bool)
        → length self.queue ≡ self.batch_size
        → (backend.write_many self.engine self.queue).1 ≡ some results
        → read backend self' b.loc ≡ ok b
        → ((c : ℕ)
            → b.loc ≢ c
            → read backend self' c
              ≡ from_device c (backend.read (backend.write_many self.engine self.queue).0 c))
        → ReadsBack self b (self', ok tt)
    not_flushed :
        (self' : WriteBatcher E S R)
        → length self.queue ≡ self.batch_size
        → (backend.write_many self.engine self.queue).1 ≡ none
        → ReadsBack self b (self', err io_failed)

  read_queued :
      (self : WriteBatcher E S R) (b : Block)
      → find_queued b.loc self.queue ≡ some b.data_of
      → read backend self b.loc ≡ ok b
  unfolding read
  read_queued self b found = rw (found, read) refl

  read_same :
      (self : WriteBatcher E S R) (queue : List Block) (c : ℕ)
      → find_queued c queue ≡ find_queued c self.queue
      → read backend (record self { queue = queue }) c ≡ read backend self c
  unfolding read
  read_same self queue c found = rw (found, read) refl

  read_device :
      (self : WriteBatcher E S R) (c : ℕ)
      → find_queued c self.queue ≡ none
      → read backend self c ≡ from_device c (backend.read self.engine c)
  unfolding read
  read_device self c absent = elim (Option-cases (backend.read self.engine c)) [
    | inl failed ↦ rw (absent, failed, read) refl
    | inr there ↦ rw (absent, there.1, read) refl
  ]

  -- The queue after a write to `b`, as far as reads see it.
  changed :
      (self : WriteBatcher E S R) (queue : List Block) (b : Block)
      → ((n : ℕ)
          → find_queued n queue ≡ (if b.loc == n then some b.data_of else find_queued n self.queue))
      → ReadsBack self b (record self { queue = queue }, ok tt)
  changed self queue b found =
      stored (record self { queue = queue })
        (read_queued (record self { queue = queue }) b (found b.loc ∙ rw (==_refl b.loc) refl))
        (λ c ne.
          let other : (b.loc == c) ≡ false = ground arith in
          read_same self queue c (found c ∙ rw other refl))

  enqueue-ReadsBack :
      (self : WriteBatcher E S R) (b : Block)
      → Distinct self.queue
      → ReadsBack self b (enqueue backend self b)
  unfolding enqueue flush_queue find_queued
  enqueue-ReadsBack self b d = go (write_hit b self.queue) (write_hit-Hit b self.queue d)
    where
      emptied : WriteBatcher E S R
      emptied = record self { engine = (backend.write_many self.engine self.queue).0; queue = [] }

      go :
          (o : Option (List Block))
          → Hit b self.queue o
          → ReadsBack self b (elim o [
            | some queue ↦ (record self { queue = queue }, ok tt)
            | none ↦
                if length self.queue == self.batch_size
                then elim (flush_queue backend self).1 [
                  | err e ↦ ((flush_queue backend self).0, err e)
                  | ok _ ↦ (push backend (flush_queue backend self).0 b, ok tt)
                ]
                else (push backend self b, ok tt)
          ])
      go o (hit queue' old old_found found distinct len) = changed self queue' b found
      go o (miss absent) = elim (Bool-cases (length self.queue == self.batch_size)) [
        | inr room ↦ rw room (changed self _ b (λ n. found_append n self.queue b))
        | inl full ↦
            let same : length self.queue ≡ self.batch_size = ground arith in
            rw full (elim (Option-cases (backend.write_many self.engine self.queue).1) [
              | inl failed ↦ rw failed (not_flushed emptied same failed)
              | inr (results, done) ↦ rw done (
                  flushed (push backend emptied b) results same done
                    (read_queued (push backend emptied b) b
                      (found_append b.loc [] b ∙ rw (==_refl b.loc) refl))
                    (λ c ne.
                      let other : (b.loc == c) ≡ false = ground arith in
                      read_device (push backend emptied b) c (found_append c [] b ∙ rw other refl)))
            ])
      ]

  -- Where no two queued blocks have one location and the checksum can be made, a write that succeeds
  -- is what a read of its location returns, with the checksum. A read of any other location returns
  -- what it returned before or, where the full queue was flushed for the write, what the device has
  -- then. The write fails only where the queue is full and the engine fails as a whole.
  pub read-write :
      (order : ByteOrder) (crc32c : Bytes → ℕ) (self : WriteBatcher E S R) (b : Block)
      (kind : BlockType) (bytes : Bytes)
      → Distinct self.queue
      → write_checksum order crc32c b.data_of kind ≡ ok bytes
      → ReadsBack self (record b { data_of = bytes }) (write backend order crc32c self b kind)
  unfolding write
  read-write order crc32c self b kind bytes d e =
      rw (e, write) (enqueue-ReadsBack self (record b { data_of = bytes }) d)

module _ {E S R : Type 0} {backend : Backend E S R} (laws : IsEngine backend) where
  open laws use {image}

  -- What `flush` is to do: nothing for an empty queue; else the queue is handed to the engine and gone.
  -- Where the engine returns results the flush succeeds, and the device has every block as it was seen
  -- before, but those that the engine failed to write.
  abbrev pub FlushOutcome :
      WriteBatcher E S R
      → Option (List Bool)
      → WriteBatcher E S R × Result BatchError (Unit {0})
      → Type 0
  FlushOutcome self none r = (r.1 ≡ err io_failed) × (r.0.queue ≡ [])
  FlushOutcome self (some results) r =
      (r.1 ≡ ok tt)
      × (r.0.queue ≡ [])
      × ((c : ℕ) → lost c self.queue results ≡ false → image r.0.engine c ≡ view laws self c)
