-- ===== src/Bytes/Instance.antt =====
-- A byte order that meets the interface: the least significant byte first.
use thin_provisioning_tools.Prelude.{
  ℕ, zero, suc, ◌+◌, ◌*◌, ◌/◌, ◌%◌, ◌^◌, ◌<◌, ◌≡◌, refl, ap, [], ◌∷◌, ◌++◌, Option, none, some,
  length, All, arith,
}
use thin_provisioning_tools.Bytes.{Bytes, IsByte, Width, u8, u16, u32, u64, size, limit, ByteOrder}
use native.Mathlib.Nat.{pow-suc}

abbrev pub to_bytes : ℕ → ℕ → Bytes
to_bytes zero n = []
to_bytes (suc k) n = (n % 256) ∷ to_bytes k (n / 256)

abbrev prepend : ℕ → Option (ℕ × Bytes) → Option (ℕ × Bytes)
prepend b none = none
prepend b (some (n, rest)) = some (b + 256 * n, rest)

abbrev pub from_bytes : ℕ → Bytes → Option (ℕ × Bytes)
from_bytes zero i = some (0, i)
from_bytes (suc k) [] = none
from_bytes (suc k) (b ∷ i) = prepend b (from_bytes k i)

pub length-to_bytes : (k n : ℕ) → length (to_bytes k n) ≡ k
length-to_bytes zero n = refl
length-to_bytes (suc k) n = ap suc (length-to_bytes k (n / 256))

pub to_bytes-IsByte : (k n : ℕ) → All IsByte (to_bytes k n)
to_bytes-IsByte zero n = tt
to_bytes-IsByte (suc k) n = (omega arith, to_bytes-IsByte k (n / 256))

from_bytes-to_bytes :
    (k n : ℕ) (rest : Bytes) → n < 256 ^ k → from_bytes k (to_bytes k n ++ rest) ≡ some (n, rest)
from_bytes-to_bytes zero n rest h = ground arith
from_bytes-to_bytes (suc k) n rest h =
    ground
      (arith, pow-suc 256 k, from_bytes-to_bytes k (n / 256) rest (omega (arith, pow-suc 256 k)))

pub from_bytes_short : (k : ℕ) (i : Bytes) → length i < k → from_bytes k i ≡ none
from_bytes_short zero i h = absurd (omega arith)
from_bytes_short (suc k) [] h = refl
from_bytes_short (suc k) (b ∷ i) h = ap (prepend b) (from_bytes_short k i (omega arith))

prepend-eq-some :
    (b : ℕ) (o : Option (ℕ × Bytes)) (n : ℕ) (rest : Bytes)
    → prepend b o ≡ some (n, rest)
    → (m : ℕ) × (o ≡ some (m, rest)) × (n ≡ b + 256 * m)
prepend-eq-some b none n rest e = cc
prepend-eq-some b (some (m, r)) n rest e = (m, ground arith, ground arith)

pub from_bytes-length :
    (k : ℕ) (i : Bytes) (n : ℕ) (rest : Bytes)
    → from_bytes k i ≡ some (n, rest)
    → length i ≡ k + length rest
from_bytes-length zero i n rest h = ground arith
from_bytes-length (suc k) [] n rest h = cc
from_bytes-length (suc k) (b ∷ i) n rest h =
    let (m, e, _) = prepend-eq-some b (from_bytes k i) n rest h in
    omega (arith, from_bytes-length k i m rest e)

from_bytes_sound :
    (k : ℕ) (i : Bytes) (n : ℕ) (rest : Bytes)
    → All IsByte i
    → from_bytes k i ≡ some (n, rest)
    → (n < 256 ^ k) × (i ≡ to_bytes k n ++ rest)
from_bytes_sound zero i n rest hi h = ground arith
from_bytes_sound (suc k) [] n rest hi h = cc
from_bytes_sound (suc k) (b ∷ i) n rest hi h =
    let (m, e, f) = prepend-eq-some b (from_bytes k i) n rest h in
    let (lt, eq) = from_bytes_sound k i m rest hi.1 e in
    let digit : n % 256 ≡ b = omega arith in
    let higher : n / 256 ≡ m = omega arith in (omega (arith, pow-suc 256 k), cc (digit, higher, eq))

pub read-write_widths :
    (w : Width) (n : ℕ) (rest : Bytes)
    → n < limit w
    → from_bytes (size w) (to_bytes (size w) n ++ rest) ≡ some (n, rest)
read-write_widths u8 n rest h = from_bytes-to_bytes 1 n rest h
read-write_widths u16 n rest h = from_bytes-to_bytes 2 n rest h
read-write_widths u32 n rest h = from_bytes-to_bytes 4 n rest h
read-write_widths u64 n rest h = from_bytes-to_bytes 8 n rest h

pub read_sound_widths :
    (w : Width) (i : Bytes) (n : ℕ) (rest : Bytes)
    → All IsByte i
    → from_bytes (size w) i ≡ some (n, rest)
    → (n < limit w) × (i ≡ to_bytes (size w) n ++ rest)
read_sound_widths u8 = from_bytes_sound 1
read_sound_widths u16 = from_bytes_sound 2
read_sound_widths u32 = from_bytes_sound 4
read_sound_widths u64 = from_bytes_sound 8

pub one_byte : (n : ℕ) → n < 256 → to_bytes 1 n ≡ n ∷ []
one_byte n h = ground arith

abbrev pub little_endian : ByteOrder
little_endian = record {
  write = λ w n. to_bytes (size w) n;
  read = λ w i. from_bytes (size w) i;
  write_byte = one_byte;
  length-write = λ w n. length-to_bytes (size w) n;
  write-IsByte = λ w n. to_bytes-IsByte (size w) n;
  read-write = read-write_widths;
  read_short = λ w i h. from_bytes_short (size w) i h;
  read_length = λ w i n rest h. from_bytes-length (size w) i n rest h;
  read_sound = read_sound_widths;
}
