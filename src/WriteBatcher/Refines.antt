-- ===== src/WriteBatcher/Refines.antt =====
-- `write` of src/write_batcher.rs as a write to a map from blocks to bytes.
use thin_provisioning_tools.Prelude.{
  ℕ, ◌<◌, ◌≡◌, ◌⊎◌, ◌∙◌, refl, ap, inl, inr, Bool, true, false, ◌==◌, if◌then◌else◌, Option, none,
  some, List, [], ◌∷◌, length, length-append, Result, ok, err, Bool-cases, Option-cases, ==_refl,
  arith,
}
use thin_provisioning_tools.Bytes.{Bytes, ByteOrder}
use thin_provisioning_tools.Checksum.{BlockType, ChecksumError, write_checksum}
use thin_provisioning_tools.WriteBatcher.{
  Block, BatchError, io_failed, checksum_failed, Backend, WriteBatcher, find_queued, write_hit,
  flush_queue, push, enqueue, write,
}
use thin_provisioning_tools.WriteBatcher.Engine.{or_else, lost, write_image, IsEngine}
use thin_provisioning_tools.WriteBatcher.View.{
  found_append, Hit, hit, miss, write_hit-Hit, Distinct-append, view, IsValid,
}

module _ {E S R : Type 0} {backend : Backend E S R} (laws : IsEngine backend) where
  open laws use {image}

  -- The map after a write.
  abbrev pub written : (ℕ → Bytes) → ℕ → Bytes → ℕ → Bytes
  written bytes loc new c = if loc == c then new else bytes c

  -- A write of bytes to a location: done in the queue, done after the full queue was flushed, where the
  -- blocks that the engine failed to write are lost, or not done since the flush failed as a whole.
  pub data Written (self : WriteBatcher E S R) (b : Block)
      : WriteBatcher E S R × Result BatchError (Unit {0}) → Type 0 where
    stored :
        (self' : WriteBatcher E S R)
        → self'.engine ≡ self.engine
        → IsValid laws self'
        → ((c : ℕ) → view laws self' c ≡ written (view laws self) b.loc b.data_of c)
        → Written self b (self', ok tt)
    flushed :
        (self' : WriteBatcher E S R) (results : List Bool)
        → length self.queue ≡ self.batch_size
        → (backend.write_many self.engine self.queue).1 ≡ some results
        → IsValid laws self'
        → view laws self' b.loc ≡ b.data_of
        → ((c : ℕ)
            → lost c self.queue results ≡ false
            → view laws self' c ≡ written (view laws self) b.loc b.data_of c)
        → Written self b (self', ok tt)
    not_flushed :
        (self' : WriteBatcher E S R)
        → length self.queue ≡ self.batch_size
        → (backend.write_many self.engine self.queue).1 ≡ none
        → Written self b (self', err io_failed)

  or_else_if :
      (t : Bool) (new old : Bytes) (o : Option Bytes)
      → or_else (if t then some new else o) old ≡ (if t then new else or_else o old)
  or_else_if true new old o = refl
  or_else_if false new old o = refl

  push-view :
      (self : WriteBatcher E S R) (b : Block) (c : ℕ)
      → view laws (push backend self b) c ≡ written (view laws self) b.loc b.data_of c
  push-view self b c =
      rw (found_append c self.queue b)
        (or_else_if (b.loc == c) b.data_of (image self.engine c) (find_queued c self.queue))

  push-IsValid :
      (self : WriteBatcher E S R) (b : Block)
      → IsValid laws self
      → find_queued b.loc self.queue ≡ none
      → length self.queue < self.batch_size
      → IsValid laws (push backend self b)
  push-IsValid self b v e room = record {
    distinct = Distinct-append self.queue b v.distinct e;
    fits = omega (arith, length-append self.queue (b ∷ []));
  }

  enqueue-Written :
      (self : WriteBatcher E S R) (b : Block)
      → 0 < self.batch_size
      → IsValid laws self
      → Written self b (enqueue backend self b)
  unfolding enqueue flush_queue find_queued
  enqueue-Written self b pos v = go (write_hit b self.queue) (write_hit-Hit b self.queue v.distinct)
    where
      emptied : WriteBatcher E S R
      emptied = record self { engine = (backend.write_many self.engine self.queue).0; queue = [] }

      go :
          (o : Option (List Block))
          → Hit b self.queue o
          → Written self b (elim o [
            | some queue ↦ (record self { queue = queue }, ok tt)
            | none ↦
                if length self.queue == self.batch_size
                then elim (flush_queue backend self).1 [
                  | err e ↦ ((flush_queue backend self).0, err e)
                  | ok _ ↦ (push backend (flush_queue backend self).0 b, ok tt)
                ]
                else (push backend self b, ok tt)
          ])
      go o (hit queue' old old_found found distinct len) =
          stored (record self { queue = queue' }) refl
            (record { distinct = distinct; fits = omega (arith, len, v.fits) })
            (λ c.
              rw (found c) (
                or_else_if (b.loc == c) b.data_of (image self.engine c) (find_queued c self.queue)))
      go o (miss absent) = elim (Bool-cases (length self.queue == self.batch_size)) [
        | inr room ↦ rw room (
            stored (push backend self b) refl
              (push-IsValid self b v absent (ground (arith, v.fits))) (push-view self b))
        | inl full ↦ rw full (elim (Option-cases (backend.write_many self.engine self.queue).1) [
          | inl failed ↦ rw failed (not_flushed emptied (ground arith) failed)
          | inr (results, done) ↦ rw done (
              flushed (push backend emptied b) results (ground arith) done
                (push-IsValid emptied b (record { distinct = tt; fits = omega arith }) refl pos)
                (push-view emptied b b.loc ∙ rw (==_refl b.loc) refl)
                (λ c kept.
                  push-view emptied b c
                  ∙ ap (λ old. if b.loc == c then b.data_of else old)
                      (write_image laws self.engine self.queue results v.distinct done c kept)))
        ])
      ]

  -- A write refines a write to a map from blocks to bytes: with the bytes that the checksum gives,
  -- it changes what is seen at its location alone. Where the full queue was flushed first, this holds
  -- for the blocks but those that the engine failed to write, which may be lost though the write
  -- succeeds. A write fails without a change where the checksum does, and else only where the queue is
  -- full and the engine fails as a whole. The batch size is above zero and the batcher valid.
  pub write-Written :
      (order : ByteOrder) (crc32c : Bytes → ℕ) (self : WriteBatcher E S R) (b : Block)
      (kind : BlockType)
      → 0 < self.batch_size
      → IsValid laws self
      → ((e : ChecksumError) × (write_checksum order crc32c b.data_of kind ≡ err e)
          × (write backend order crc32c self b kind ≡ (self, err (checksum_failed e))))
        ⊎ ((bytes : Bytes) × (write_checksum order crc32c b.data_of kind ≡ ok bytes)
            × Written self (record b { data_of = bytes }) (write backend order crc32c self b kind))
  unfolding write
  write-Written order crc32c self b kind pos v =
      go (write_checksum order crc32c b.data_of kind) refl
    where
      go :
          (r : Result ChecksumError Bytes)
          → write_checksum order crc32c b.data_of kind ≡ r
          → ((e : ChecksumError) × (write_checksum order crc32c b.data_of kind ≡ err e)
              × (write backend order crc32c self b kind ≡ (self, err (checksum_failed e))))
            ⊎ ((bytes : Bytes) × (write_checksum order crc32c b.data_of kind ≡ ok bytes)
                × Written self
                    (record b { data_of = bytes })
                    (write backend order crc32c self b kind))
      go (err e) eq = inl (e, eq, rw (eq, write) refl)
      go (ok bytes) eq =
          inr
            (bytes, eq, rw (eq, write) (enqueue-Written self (record b { data_of = bytes }) pos v))
