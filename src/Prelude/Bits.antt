-- ===== src/Prelude/Bits.antt =====
-- The bit operations of the source on disjoint fields and low masks, as arithmetic.
-- The native operations are recursions on binary digits with fuel; the fuel is dropped first.
use Prim.Native.Nat.{
  ℕ, zero, suc, ◌+◌, ◌-◌, ◌*◌, ◌/◌, ◌%◌, ◌^◌, ◌≤◌, ◌<◌, min, max, bit_and, bit_or, bit_xor, digits,
  bitwise, differ, bit_and-bitwise, bit_or-bitwise, bit_xor-bitwise,
}
use mathlib.Core.Path.{◌≡◌, ◌∙◌, refl, ap}
use native.Mathlib.Nat.{pow-suc, one-le-pow}
use native.Mathlib.Omega.{arith}

module _ (stop : ℕ → ℕ) (on_digits : ℕ → ℕ → ℕ) where
  -- Any fuel that is not below the first number gives one result.
  same_fuel :
      (n m a b : ℕ) → a ≤ n → a ≤ m → digits stop on_digits n a b ≡ digits stop on_digits m a b
  same_fuel zero zero a b hn hm = refl
  same_fuel zero (suc m) zero b hn hm = refl
  same_fuel zero (suc m) (suc a) b hn hm = absurd (omega arith)
  same_fuel (suc n) zero zero b hn hm = refl
  same_fuel (suc n) zero (suc a) b hn hm = absurd (omega arith)
  same_fuel (suc n) (suc m) zero b hn hm = refl
  same_fuel (suc n) (suc m) (suc a) b hn hm =
      ap (λ (t : ℕ). t * 2 + on_digits (suc a % 2) (b % 2))
        (same_fuel n m (suc a / 2) (b / 2) (omega arith) (omega arith))

  lowest_digit :
      (a b : ℕ)
      → bitwise stop on_digits (suc a) b
        ≡ bitwise stop on_digits (suc a / 2) (b / 2) * 2 + on_digits (suc a % 2) (b % 2)
  lowest_digit a b =
      omega (arith, same_fuel a (suc a / 2) (suc a / 2) (b / 2) (omega arith) (omega arith))

bit_or-halves : (a b : ℕ) → bit_or a b ≡ bit_or (a / 2) (b / 2) * 2 + max (a % 2) (b % 2)
bit_or-halves zero b = simp bit_or-bitwise (omega arith)
bit_or-halves (suc a) b = simp bit_or-bitwise (lowest_digit (λ y. y) max a b)

bit_and-halves : (a b : ℕ) → bit_and a b ≡ bit_and (a / 2) (b / 2) * 2 + min (a % 2) (b % 2)
bit_and-halves zero b = simp bit_and-bitwise (omega arith)
bit_and-halves (suc a) b = simp bit_and-bitwise (lowest_digit (λ y. 0) min a b)

zero_right_or : (n a : ℕ) → a ≤ n → bit_or a 0 ≡ a
zero_right_or n zero h = refl
zero_right_or zero (suc a) h = absurd (omega arith)
zero_right_or (suc n) (suc a) h =
    omega (arith, bit_or-halves (suc a) 0, zero_right_or n (suc a / 2) (omega arith))

zero_right_and : (n a : ℕ) → a ≤ n → bit_and a 0 ≡ 0
zero_right_and n zero h = refl
zero_right_and zero (suc a) h = absurd (omega arith)
zero_right_and (suc n) (suc a) h =
    omega (arith, bit_and-halves (suc a) 0, zero_right_and n (suc a / 2) (omega arith))

double_shift : (q k : ℕ) → q * 2 ^ suc k ≡ 2 * (q * 2 ^ k)
double_shift q k = omega (arith, ap (λ (t : ℕ). q * t) (pow-suc 2 k))

-- `(q << k) | r` is a sum when `r` has at most `k` bits.
pub bit_or-shifted : (k q r : ℕ) → r < 2 ^ k → bit_or (q * 2 ^ k) r ≡ q * 2 ^ k + r
bit_or-shifted zero q r h = ground (arith, zero_right_or q q)
bit_or-shifted (suc k) q r h = ground (
  arith,
  bit_or-halves (q * 2 ^ suc k) r,
  double_shift q k,
  bit_or-shifted k q (r / 2) (omega arith),
)

bit_and-field : (k q r : ℕ) → r < 2 ^ k → bit_and (q * 2 ^ k + r) (2 ^ k - 1) ≡ r
bit_and-field zero q r h = ground (arith, zero_right_and (q * 1 + r) (q * 1 + r))
bit_and-field (suc k) q r h = ground (
  arith,
  bit_and-halves (q * 2 ^ suc k + r) (2 ^ suc k - 1),
  double_shift q k,
  pow-suc 2 k,
  bit_and-field k q (r / 2) (omega arith),
)

-- A mask of the `k` low bits is the remainder by `2 ^ k`.
pub bit_and-low_mask : (k a : ℕ) → bit_and a (2 ^ k - 1) ≡ a % 2 ^ k
bit_and-low_mask k a = ground (arith, one-le-pow k 2, bit_and-field k (a / 2 ^ k) (a % 2 ^ k))

bit_xor-halves : (a b : ℕ) → bit_xor a b ≡ bit_xor (a / 2) (b / 2) * 2 + differ (a % 2) (b % 2)
bit_xor-halves zero b = simp bit_xor-bitwise (omega arith)
bit_xor-halves (suc a) b = simp bit_xor-bitwise (lowest_digit (λ y. y) differ a b)

differ_digits : (a b : ℕ) → a < 2 → b < 2 → (differ a b < 2) × (differ a (differ a b) ≡ b)
differ_digits zero b ha hb = (hb, refl)
differ_digits (suc zero) zero ha hb = (omega arith, refl)
differ_digits (suc zero) (suc zero) ha hb = (omega arith, refl)
differ_digits (suc zero) (suc (suc b)) ha hb = absurd (omega arith)
differ_digits (suc (suc a)) b ha hb = absurd (omega arith)

zero_left_xor : (b : ℕ) → bit_xor 0 b ≡ b
zero_left_xor b = simp bit_xor-bitwise

bit_xor_at : (n a b : ℕ) → a ≤ n → bit_xor a (bit_xor a b) ≡ b
bit_xor_at n zero b h = zero_left_xor (bit_xor 0 b) ∙ zero_left_xor b
bit_xor_at zero (suc a) b h = absurd (omega arith)
bit_xor_at (suc n) (suc a) b h =
    let (digit, twice) = differ_digits (suc a % 2) (b % 2) (omega arith) (omega arith) in
    let high : bit_xor (suc a) b / 2 ≡ bit_xor (suc a / 2) (b / 2) =
      omega (arith, bit_xor-halves (suc a) b) in
    let low : bit_xor (suc a) b % 2 ≡ differ (suc a % 2) (b % 2) =
      omega (arith, bit_xor-halves (suc a) b) in
    bit_xor-halves (suc a) (bit_xor (suc a) b)
    ∙ rw (high, low, twice) (omega (arith, bit_xor_at n (suc a / 2) (b / 2) (omega arith)))

-- A number is told apart again from its exclusive or with another.
pub bit_xor-bit_xor : (a b : ℕ) → bit_xor a (bit_xor a b) ≡ b
bit_xor-bit_xor a b = bit_xor_at a a b (omega arith)

-- The exclusive or of two numbers of `k` bits has `k` bits.
pub bit_xor_bound : (k a b : ℕ) → a < 2 ^ k → b < 2 ^ k → bit_xor a b < 2 ^ k
bit_xor_bound zero a b ha hb =
    let none_a : a ≡ 0 = omega arith in
    let none_b : b ≡ 0 = omega arith in rw (none_a, none_b) (omega arith)
bit_xor_bound (suc k) a b ha hb = omega (
  arith,
  bit_xor-halves a b,
  pow-suc 2 k,
  (differ_digits (a % 2) (b % 2) (omega arith) (omega arith)).0,
  bit_xor_bound k (a / 2) (b / 2) (omega (arith, pow-suc 2 k)) (omega (arith, pow-suc 2 k)),
)
