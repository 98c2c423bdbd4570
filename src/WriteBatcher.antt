-- ===== src/WriteBatcher.antt =====
-- src/write_batcher.rs: writes of metadata blocks collected in a queue, in front of an I/O engine.
pub mod Engine
pub mod View
pub mod Refines
pub mod Reads
use thin_provisioning_tools.Prelude.{
  ℕ, ◌+◌, Bool, true, false, ◌==◌, if◌then◌else◌, Option, none, some, List, [], ◌∷◌, ◌++◌, length,
  replicate, Result, ok, err,
}
use thin_provisioning_tools.Bytes.{Bytes, ByteOrder}
use thin_provisioning_tools.Checksum.{BlockType, ChecksumError, write_checksum, block_size}

pub record Block : Type 0 where
  pub loc : ℕ
  pub data_of : Bytes

-- `io_failed` is an error of the engine, `no_space` that of `alloc`.
pub data BatchError : Type 0 where
  io_failed no_space : BatchError
  checksum_failed : ChecksumError → BatchError

-- What a batcher calls: the I/O engine, the space map's `alloc` and the crate `rangemap`. A call that
-- fails leaves its state too. The whole of `write_many` can fail, or individual blocks: then it
-- returns a result for each block, `true` where the block was written.
pub record Backend (E S R : Type 0) : Type 0 where
  pub read : E → ℕ → Option Bytes
  pub write_many : E → List Block → E × Option (List Bool)
  pub alloc : S → S × Option (Option ℕ)
  pub insert : R → ℕ → ℕ → R
  pub no_ranges : R

pub record WriteBatcher (E S R : Type 0) : Type 0 where
  pub engine : E
  pub sm : S
  pub batch_size : ℕ
  pub queue : List Block
  pub allocations : R

-- The last block of the queue with this location, as `iter().rev()` finds it.
unfoldable pub find_queued : ℕ → List Block → Option Bytes
find_queued blocknr [] = none
find_queued blocknr (b ∷ queue) = elim (find_queued blocknr queue) [
  | some found ↦ some found
  | none ↦ if b.loc == blocknr then some b.data_of else none
]

-- A write hit: the bytes of that block replaced.
unfoldable pub write_hit : Block → List Block → Option (List Block)
write_hit b [] = none
write_hit b (blk ∷ queue) = elim (write_hit b queue) [
  | some queue' ↦ some (blk ∷ queue')
  | none ↦ if blk.loc == b.loc then some (record blk { data_of = b.data_of } ∷ queue) else none
]

module _ {E S R : Type 0} (backend : Backend E S R) where
  abbrev pub Batcher : Type 0
  Batcher = WriteBatcher E S R

  -- `std::mem::swap` and `flush_`: the queue is gone also where the engine fails, and the results of
  -- the single blocks are dropped.
  unfoldable pub flush_queue : Batcher → Batcher × Result BatchError (Unit {0})
  flush_queue self =
      let (engine, results) = backend.write_many self.engine self.queue in
      (
        record self { engine = engine; queue = [] },
        elim results [ none ↦ err io_failed | some _ ↦ ok tt ],
      )

  unfoldable pub flush : Batcher → Batcher × Result BatchError (Unit {0})
  unfolding flush_queue
  flush self = if length self.queue == 0 then (self, ok tt) else flush_queue self

  -- `alloc`, with the block's location; its bytes are not set.
  unfoldable pub alloc : Batcher → Batcher × Result BatchError ℕ
  alloc self =
      let (sm, b) = backend.alloc self.sm in
      elim b [
        | none ↦ (record self { sm = sm }, err io_failed)
        | some none ↦ (record self { sm = sm }, err no_space)
        | some (some loc) ↦ (
          record self { sm = sm; allocations = backend.insert self.allocations loc (loc + 1) },
          ok loc,
        )
      ]

  unfoldable pub alloc_zeroed : Batcher → Batcher × Result BatchError Block
  unfolding alloc
  alloc_zeroed self =
      let (self', r) = alloc self in
      (
        self',
        elim r [
          | err e ↦ err e
          | ok loc ↦ ok (record { loc = loc; data_of = replicate block_size 0 })
        ],
      )

  unfoldable pub clear_allocations : Batcher → Batcher × R
  clear_allocations self = (record self { allocations = backend.no_ranges }, self.allocations)

  unfoldable pub read : Batcher → ℕ → Result BatchError Block
  unfolding find_queued
  read self blocknr = elim (find_queued blocknr self.queue) [
    | some found ↦ ok (record { loc = blocknr; data_of = found })
    | none ↦ elim (backend.read self.engine blocknr) [
      | none ↦ err io_failed
      | some found ↦ ok (record { loc = blocknr; data_of = found })
    ]
  ]

  abbrev push : Batcher → Block → Batcher
  push self b = record self { queue = self.queue ++ b ∷ [] }

  -- `write` after the checksum.
  unfoldable pub enqueue : Batcher → Block → Batcher × Result BatchError (Unit {0})
  unfolding flush_queue write_hit
  enqueue self b = elim (write_hit b self.queue) [
    | some queue ↦ (record self { queue = queue }, ok tt)
    | none ↦
        if length self.queue == self.batch_size
        then (let (self', flushed) = flush_queue self in
            elim flushed [ err e ↦ (self', err e) | ok _ ↦ (push self' b, ok tt) ])
        else (push self b, ok tt)
  ]

  unfoldable pub write :
      ByteOrder → (Bytes → ℕ) → Batcher → Block → BlockType → Batcher × Result BatchError (Unit {0})
  unfolding enqueue
  write order crc32c self b kind = elim (write_checksum order crc32c b.data_of kind) [
    | err e ↦ (self, err (checksum_failed e))
    | ok bytes ↦ enqueue self (record b { data_of = bytes })
  ]
