-- ===== src/Checksum.antt =====
-- src/checksum.rs: the checksum in the first word of a block, which also tells the block's type.
use thin_provisioning_tools.Prelude.{
  ℕ, zero, suc, ◌-◌, ◌^◌, ◌<◌, ◌≡◌, ◌≢◌, refl, ap, ◌==◌, if◌then◌else◌, Option, none, some, List,
  [], ◌∷◌, ◌++◌, length, length-append, Result, ok, err, bit_xor, arith,
}
use thin_provisioning_tools.Prelude.Bits.{bit_xor-bit_xor, bit_xor_bound}
use thin_provisioning_tools.Bytes.{Bytes, ByteOrder, u32, IsU32}

abbrev pub block_size : ℕ
block_size = 4096

-- `enum BT`
pub data BlockType : Type 0 where
  thin_superblock cache_superblock era_superblock node index bitmap array unknown : BlockType

-- `BLOCK_SIZE` and the salts.
abbrev pub salt_of : BlockType → Option ℕ
salt_of thin_superblock = some 160774
salt_of cache_superblock = some 9031977
salt_of era_superblock = some 146538381
salt_of node = some 121107
salt_of bitmap = some 240779
salt_of index = some 160478
salt_of array = some 595846735
salt_of unknown = none

-- The `match` on the salt that is found.
unfoldable pub type_of : ℕ → BlockType
type_of n =
    if n == 160774
    then thin_superblock
    else if n == 9031977
    then cache_superblock
    else if n == 146538381
    then era_superblock
    else if n == 121107
    then node
    else if n == 240779
    then bitmap
    else if n == 160478
    then index
    else if n == 595846735
    then array
    else unknown

pub data ChecksumError : Type 0 where
  wrong_size invalid_type : ChecksumError

abbrev pub drop {ℓ} : {A : Type ℓ} → ℕ → List A → List A
drop zero xs = xs
drop (suc n) [] = []
drop (suc n) (x ∷ xs) = drop n xs

drop-append : (xs ys : Bytes) (n : ℕ) → length xs ≡ n → drop n (xs ++ ys) ≡ ys
drop-append [] ys zero h = refl
drop-append [] ys (suc n) h = absurd (omega arith)
drop-append (x ∷ xs) ys zero h = absurd (omega arith)
drop-append (x ∷ xs) ys (suc n) h = drop-append xs ys n (omega arith)

length-drop : (n : ℕ) (xs : Bytes) → length (drop n xs) ≡ length xs - n
length-drop zero xs = omega arith
length-drop (suc n) [] = omega arith
length-drop (suc n) (x ∷ xs) = omega (arith, length-drop n xs)

-- `crc32c` is the function of the crate of that name.
module _ (order : ByteOrder) (crc32c : Bytes → ℕ) where
  open order use {write, read}

  unfoldable pub checksum : Bytes → ℕ
  checksum buf = bit_xor (crc32c (drop 4 buf)) 0xffffffff

  -- `none` is a failed `unwrap`.
  unfoldable pub metadata_block_type : Bytes → Option BlockType
  unfolding checksum type_of
  metadata_block_type buf =
      if length buf == block_size
      then elim (read u32 buf) [
        | none ↦ none
        | some (sum_on_disk, _) ↦ some (type_of (bit_xor (checksum buf) sum_on_disk))
      ]
      else some unknown

  -- The block with its first four bytes written.
  unfoldable pub write_checksum : Bytes → BlockType → Result ChecksumError Bytes
  unfolding checksum
  write_checksum buf kind =
      if length buf == block_size
      then elim (salt_of kind) [
        | none ↦ err invalid_type
        | some salt ↦ ok (write u32 (bit_xor (checksum buf) salt) ++ drop 4 buf)
      ]
      else err wrong_size

type_of-salt_of : (kind : BlockType) (salt : ℕ) → salt_of kind ≡ some salt → type_of salt ≡ kind
unfolding type_of
type_of-salt_of thin_superblock salt e = let at : 160774 ≡ salt = cc in rw (← at) refl
type_of-salt_of cache_superblock salt e = let at : 9031977 ≡ salt = cc in rw (← at) refl
type_of-salt_of era_superblock salt e = let at : 146538381 ≡ salt = cc in rw (← at) refl
type_of-salt_of node salt e = let at : 121107 ≡ salt = cc in rw (← at) refl
type_of-salt_of bitmap salt e = let at : 240779 ≡ salt = cc in rw (← at) refl
type_of-salt_of index salt e = let at : 160478 ≡ salt = cc in rw (← at) refl
type_of-salt_of array salt e = let at : 595846735 ≡ salt = cc in rw (← at) refl
type_of-salt_of unknown salt e = cc

salt_of-none : (kind : BlockType) → salt_of kind ≡ none → kind ≡ unknown
salt_of-none thin_superblock e = cc
salt_of-none cache_superblock e = cc
salt_of-none era_superblock e = cc
salt_of-none node e = cc
salt_of-none bitmap e = cc
salt_of-none index e = cc
salt_of-none array e = cc
salt_of-none unknown e = refl

salt_bound : (kind : BlockType) (salt : ℕ) → salt_of kind ≡ some salt → salt < 2 ^ 32
salt_bound thin_superblock salt e = let at : 160774 ≡ salt = cc in omega arith
salt_bound cache_superblock salt e = let at : 9031977 ≡ salt = cc in omega arith
salt_bound era_superblock salt e = let at : 146538381 ≡ salt = cc in omega arith
salt_bound node salt e = let at : 121107 ≡ salt = cc in omega arith
salt_bound bitmap salt e = let at : 240779 ≡ salt = cc in omega arith
salt_bound index salt e = let at : 160478 ≡ salt = cc in omega arith
salt_bound array salt e = let at : 595846735 ≡ salt = cc in omega arith
salt_bound unknown salt e = cc

module _ (order : ByteOrder) (crc32c : Bytes → ℕ)
    (crc32c_IsU32 : (b : Bytes) → IsU32 (crc32c b)) where
  checksum_tail :
      (a b : Bytes) → drop 4 a ≡ drop 4 b → checksum order crc32c a ≡ checksum order crc32c b
  unfolding checksum
  checksum_tail a b e = ap (λ r. bit_xor (crc32c r) 0xffffffff) e

  checksum-IsU32 : (b : Bytes) → IsU32 (checksum order crc32c b)
  unfolding checksum
  checksum-IsU32 b =
      bit_xor_bound 32 (crc32c (drop 4 b)) 0xffffffff (crc32c_IsU32 (drop 4 b)) (omega arith)

  -- A block of the right size gets a checksum for each type but the unknown one. It then has the
  -- same size and the same bytes after the first four, and is read as a block of that type.
  pub metadata_block_type-write_checksum :
      (buf : Bytes) (kind : BlockType)
      → length buf ≡ block_size
      → kind ≢ unknown
      → (out : Bytes) × (write_checksum order crc32c buf kind ≡ ok out)
        × (length out ≡ block_size)
        × (drop 4 out ≡ drop 4 buf)
        × (metadata_block_type order crc32c out ≡ some kind)
  unfolding write_checksum metadata_block_type
  metadata_block_type-write_checksum buf kind size known = salted (salt_of kind) refl
    where
      salted :
          (o : Option ℕ)
          → salt_of kind ≡ o
          → (out : Bytes) × (write_checksum order crc32c buf kind ≡ ok out)
            × (length out ≡ block_size)
            × (drop 4 out ≡ drop 4 buf)
            × (metadata_block_type order crc32c out ≡ some kind)
      salted none e = absurd (known (salt_of-none kind e))
      salted (some salt) e =
          let sum : ℕ = bit_xor (checksum order crc32c buf) salt in
          let written : Bytes = order.write u32 sum in
          let four : length written ≡ 4 = order.length-write u32 sum in
          let rest : drop 4 (written ++ drop 4 buf) ≡ drop 4 buf =
            drop-append written (drop 4 buf) 4 four in
          let same_size : length (written ++ drop 4 buf) ≡ block_size =
            omega (arith, length-append written (drop 4 buf), length-drop 4 buf) in
          let same_sum : checksum order crc32c (written ++ drop 4 buf) ≡ checksum order crc32c buf =
            checksum_tail (written ++ drop 4 buf) buf rest in
          (
            written ++ drop 4 buf,
            rw (size, e) refl,
            same_size,
            rest,
            rw
                (
                  same_size,
                  order.read-write u32 sum (drop 4 buf) (
                      bit_xor_bound 32 (checksum order crc32c buf) salt (checksum-IsU32 buf)
                        (salt_bound kind salt e)),
                  same_sum,
                  bit_xor-bit_xor (checksum order crc32c buf) salt,
                  type_of-salt_of kind salt e,
                )
                refl,
          )
