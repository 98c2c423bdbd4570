-- ===== src/Bytes.antt =====
-- The little-endian readers and writers that the source takes from the crates `byteorder`
-- (`write_u64::<LittleEndian>`, `read_u64::<LittleEndian>`, ...) and `nom` (`le_u64`, ...), as an
-- interface with the documented behaviour that the code relies on, and u64 arithmetic of Rust.
pub mod Instance
pub mod Parse
use thin_provisioning_tools.Prelude.{
  ℕ, ◌+◌, ◌-◌, ◌*◌, ◌%◌, ◌^◌, ◌<◌, ◌≡◌, List, [], ◌∷◌, ◌++◌, Option, none, some, length, All,
}

-- A byte slice or a byte buffer is a list of numbers.
abbrev pub Bytes : Type 0
Bytes = List ℕ

abbrev pub IsByte : ℕ → Type 0
IsByte b = b < 256

abbrev pub u64_mod : ℕ
u64_mod = 2 ^ 64

abbrev pub IsU64 : ℕ → Type 0
IsU64 n = n < 2 ^ 64

abbrev pub IsU32 : ℕ → Type 0
IsU32 n = n < 2 ^ 32

pub data Width : Type 0 where
  u8 u16 u32 u64 : Width

abbrev pub size : Width → ℕ
size u8 = 1
size u16 = 2
size u32 = 4
size u64 = 8

abbrev pub limit : Width → ℕ
limit u8 = 2 ^ 8
limit u16 = 2 ^ 16
limit u32 = 2 ^ 32
limit u64 = 2 ^ 64

pub record ByteOrder : Type 0 where
  -- the bytes that `write_uN::<LittleEndian>(n)` appends
  pub write : Width → ℕ → Bytes
  -- `read_uN::<LittleEndian>` and `le_uN`: the number and what follows it; `none` where the
  -- input is too short
  pub read : Width → Bytes → Option (ℕ × Bytes)
  pub write_byte : (n : ℕ) → n < 256 → write u8 n ≡ n ∷ []
  pub length-write : (w : Width) (n : ℕ) → length (write w n) ≡ size w
  pub write-IsByte : (w : Width) (n : ℕ) → All IsByte (write w n)
  pub read-write :
      (w : Width) (n : ℕ) (rest : Bytes) → n < limit w → read w (write w n ++ rest) ≡ some (n, rest)
  pub read_short : (w : Width) (i : Bytes) → length i < size w → read w i ≡ none
  pub read_length :
      (w : Width) (i : Bytes) (n : ℕ) (rest : Bytes)
      → read w i ≡ some (n, rest)
      → length i ≡ size w + length rest
  pub read_sound :
      (w : Width) (i : Bytes) (n : ℕ) (rest : Bytes)
      → All IsByte i
      → read w i ≡ some (n, rest)
      → (n < limit w) × (i ≡ write w n ++ rest)

-- `u64::wrapping_add`, `u64::wrapping_sub`, `u64::wrapping_mul`
abbrev pub wrapping_add : ℕ → ℕ → ℕ
wrapping_add a b = (a + b) % u64_mod

abbrev pub wrapping_sub : ℕ → ℕ → ℕ
wrapping_sub a b = (a + u64_mod - b) % u64_mod

abbrev pub wrapping_mul : ℕ → ℕ → ℕ
wrapping_mul a b = a * b % u64_mod
