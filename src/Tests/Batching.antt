-- ===== src/Tests/Batching.antt =====
-- Checksums and the write batcher on concrete inputs.
use thin_provisioning_tools.Prelude.{
  ℕ, zero, suc, ◌+◌, ◌≡◌, ◌≢◌, ◌⊎◌, ◌==◌, ==_refl, refl, true, false, List, All, map, get_elem?,
  none, some, [], ◌∷◌, length, length-replicate, replicate, ok, err, arith,
}
use mathlib.Core.Path.{subst}
use thin_provisioning_tools.Bytes.{Bytes}
use thin_provisioning_tools.Bytes.Instance.{little_endian}
use thin_provisioning_tools.Checksum.{
  node, ChecksumError, block_size, drop, write_checksum, metadata_block_type,
  metadata_block_type-write_checksum,
}
use thin_provisioning_tools.WriteBatcher.{
  Block, checksum_failed, Backend, WriteBatcher, find_queued, write,
}
use thin_provisioning_tools.WriteBatcher.View.{IsValid}
use thin_provisioning_tools.WriteBatcher.Engine.{or_else, IsEngine, Distinct}
use thin_provisioning_tools.WriteBatcher.Refines.{Written, write-Written}
use thin_provisioning_tools.WriteBatcher.Reads.{ReadsBack, read-write}

abbrev zeroes : Bytes
zeroes = replicate block_size 0

-- A stand-in for the crate's function.
abbrev no_sum : Bytes → ℕ
no_sum b = 7

metadata_block_type-write_checksum_example :
    (out : Bytes) × (write_checksum little_endian no_sum zeroes node ≡ ok out)
    × (length out ≡ block_size)
    × (drop 4 out ≡ drop 4 zeroes)
    × (metadata_block_type little_endian no_sum out ≡ some node)
metadata_block_type-write_checksum_example =
    metadata_block_type-write_checksum little_endian no_sum (λ b. omega arith) zeroes node
      (length-replicate {A = ℕ} block_size 0) (λ e. cc)

-- A device in memory, and space and ranges as numbers.
abbrev memory : Backend (ℕ → Bytes) ℕ ℕ
memory = record {
  read = λ e b. some (e b);
  write_many =
      λ e queue. ((λ b. or_else (find_queued b queue) (e b)), some (map (λ b. true) queue));
  alloc = λ s. (s + 1, some (some s));
  insert = λ r begin end. r + 1;
  no_ranges = 0;
}

-- A block of a queue without repetitions is the one that is found for its location.
found_in_queue :
    (queue : List Block) (i : ℕ) (b : Block)
    → Distinct queue
    → get_elem? queue i ≡ some b
    → find_queued b.loc queue ≡ some b.data_of
unfolding find_queued
found_in_queue [] i b d e = absurd (let clash = e in cc)
found_in_queue (q ∷ queue) zero b d e =
    let same : q ≡ b = cc in
    subst (λ k. find_queued k.loc (q ∷ queue) ≡ some k.data_of) same (rw (d.0, ==_refl q.loc) refl)
found_in_queue (q ∷ queue) (suc i) b d e = rw (found_in_queue queue i b d.1 e) refl

not_in_queue :
    (queue : List Block) (n : ℕ) → All (λ b. b.loc ≢ n) queue → find_queued n queue ≡ none
unfolding find_queued
not_in_queue [] n others = refl
not_in_queue (q ∷ queue) n others =
    let apart = others.0 in
    let other : (q.loc == n) ≡ false = ground arith in
    rw (not_in_queue queue n others.1, other) refl

abbrev memory-IsEngine : IsEngine memory
memory-IsEngine = record {
  image = λ e. e;
  read_image = λ e b d h. cc;
  write_block = λ e queue results i b d done at_i ok_i. rw (found_in_queue queue i b d at_i) refl;
  write_other = λ e queue results n done others. rw (not_in_queue queue n others) refl;
}

abbrev block : ℕ → Bytes → Block
block loc bytes = record { loc = loc; data_of = bytes }

abbrev one_queued : WriteBatcher (ℕ → Bytes) ℕ ℕ
one_queued = record {
  engine = λ b. [];
  sm = 0;
  batch_size = 1;
  queue = block 3 (1 ∷ 2 ∷ []) ∷ [];
  allocations = 0;
}

one_queued-IsValid : IsValid memory-IsEngine one_queued
unfolding find_queued
one_queued-IsValid = record { distinct = (refl, tt); fits = omega arith }

write-Written_example :
    ((e : ChecksumError) × (write_checksum little_endian no_sum zeroes node ≡ err e)
      × (write memory little_endian no_sum one_queued (block 5 zeroes) node
          ≡ (one_queued, err (checksum_failed e))))
    ⊎ ((bytes : Bytes) × (write_checksum little_endian no_sum zeroes node ≡ ok bytes)
        × Written memory-IsEngine one_queued
            (block 5 bytes)
            (write memory little_endian no_sum one_queued (block 5 zeroes) node))
write-Written_example =
    write-Written memory-IsEngine little_endian no_sum one_queued (block 5 zeroes) node
      (omega arith) one_queued-IsValid

-- The block of zeroes with its checksum.
summed :
    (out : Bytes) × (write_checksum little_endian no_sum zeroes node ≡ ok out)
    × (length out ≡ block_size)
    × (drop 4 out ≡ drop 4 zeroes)
    × (metadata_block_type little_endian no_sum out ≡ some node)
summed =
    metadata_block_type-write_checksum little_endian no_sum (λ b. omega arith) zeroes node
      (length-replicate {A = ℕ} block_size 0) (λ e. cc)

read-write_example :
    ReadsBack memory one_queued
      (block 5 summed.0)
      (write memory little_endian no_sum one_queued (block 5 zeroes) node)
read-write_example =
    read-write memory little_endian no_sum one_queued (block 5 zeroes) node summed.0
      one_queued-IsValid.distinct summed.1
