-- ===== src/Base/Bits.antt =====
-- Bitwise operations at variables: the law of the lowest digit, and what follows for `|` and `&`.
use Prim.Native.Nat.{ℕ, zero, suc, ◌+◌, ◌*◌, ◌/◌, ◌%◌, ◌-◌, ◌^◌, ◌≤◌, ◌<◌}
use Prim.Native.Nat.{bit_and, bit_or, min, max, digits, bitwise, bit_and-bitwise, bit_or-bitwise}
use mathlib.Core.Path.{◌≡◌, refl, ap, ◌∙◌}
use native.Mathlib.Nat.{pow-suc, one-le-pow}
use native.Mathlib.Omega.{arith}

-- Any two amounts of fuel that cover the first operand give the same digits.
module _ (z : ℕ → ℕ) (op : ℕ → ℕ → ℕ) where
  enough_fuel : (f g a b : ℕ) → a ≤ f → a ≤ g → digits z op f a b ≡ digits z op g a b
  enough_fuel zero zero a b p q = refl
  enough_fuel zero (suc g) zero b p q = refl
  enough_fuel zero (suc g) (suc a) b p q = absurd (omega arith)
  enough_fuel (suc f) zero zero b p q = refl
  enough_fuel (suc f) zero (suc a) b p q = absurd (omega arith)
  enough_fuel (suc f) (suc g) zero b p q = refl
  enough_fuel (suc f) (suc g) (suc a) b p q =
      rw (enough_fuel f g (suc a / 2) (b / 2) (omega arith) (omega arith))

  pub lowest_digit :
      (a b : ℕ)
      → bitwise z op (suc a) b ≡ bitwise z op (suc a / 2) (b / 2) * 2 + op (suc a % 2) (b % 2)
  lowest_digit a b =
      omega (arith, enough_fuel a (suc a / 2) (suc a / 2) (b / 2) (omega arith) (omega arith))

pub bit_or_digit : (a b : ℕ) → bit_or a b ≡ bit_or (a / 2) (b / 2) * 2 + max (a % 2) (b % 2)
bit_or_digit zero b = simp bit_or-bitwise (omega arith)
bit_or_digit (suc a) b = simp bit_or-bitwise (lowest_digit (λ y. y) max a b)

pub bit_and_digit : (a b : ℕ) → bit_and a b ≡ bit_and (a / 2) (b / 2) * 2 + min (a % 2) (b % 2)
bit_and_digit zero b = simp bit_and-bitwise (omega arith)
bit_and_digit (suc a) b = simp bit_and-bitwise (lowest_digit (λ y. 0) min a b)

-- `|` of numbers below 2 ^ k stays below 2 ^ k.
pub bit_or-lt : (k a b : ℕ) → a < 2 ^ k → b < 2 ^ k → bit_or a b < 2 ^ k
bit_or-lt zero zero zero p q = omega arith
bit_or-lt zero zero (suc b) p q = absurd (omega arith)
bit_or-lt zero (suc a) b p q = absurd (omega arith)
bit_or-lt (suc k) a b p q = omega (
  arith,
  pow-suc 2 k,
  bit_or_digit a b,
  bit_or-lt k (a / 2) (b / 2) (omega (arith, pow-suc 2 k)) (omega (arith, pow-suc 2 k)),
)

-- `|` loses no set bit of either operand.
pub bit_or_bounds : (k a b : ℕ) → a < 2 ^ k → b < 2 ^ k → (a ≤ bit_or a b) × (b ≤ bit_or a b)
bit_or_bounds zero a b p q = (omega arith, omega arith)
bit_or_bounds (suc k) a b p q = omega (
  arith,
  bit_or_digit a b,
  bit_or_bounds k (a / 2) (b / 2) (omega (arith, pow-suc 2 k)) (omega (arith, pow-suc 2 k)),
)

bit_or-zero_fuel : (f a : ℕ) → a ≤ f → bit_or a 0 ≡ a
bit_or-zero_fuel f zero p = refl
bit_or-zero_fuel zero (suc a) p = absurd (omega arith)
bit_or-zero_fuel (suc f) (suc a) p =
    omega (arith, bit_or_digit (suc a) 0, bit_or-zero_fuel f (suc a / 2) (omega arith))

pub bit_or-zero : (a : ℕ) → bit_or a 0 ≡ a
bit_or-zero a = bit_or-zero_fuel a a (omega arith)

pub zero-bit_or : (b : ℕ) → bit_or 0 b ≡ b
zero-bit_or b = simp bit_or-bitwise refl

mul-two_pow_suc : (q k : ℕ) → q * 2 ^ suc k ≡ 2 * (q * 2 ^ k)
mul-two_pow_suc q k = rw (pow-suc 2 k) (omega arith)

-- `(q << k) | r` is a sum when `r` fits in `k` bits.
pub bit_or_high_low : (k q r : ℕ) → r < 2 ^ k → bit_or (q * 2 ^ k) r ≡ q * 2 ^ k + r
bit_or_high_low zero q zero h = ground (arith, bit_or-zero q)
bit_or_high_low zero q (suc r) h = absurd (omega arith)
bit_or_high_low (suc k) q r h = ground (
  arith,
  bit_or_digit (q * 2 ^ suc k) r,
  mul-two_pow_suc q k,
  bit_or_high_low k q (r / 2) (omega (arith, pow-suc 2 k)),
)

-- `r | (q << k)` is the same sum.
pub bit_or_low_high : (k q r : ℕ) → r < 2 ^ k → bit_or r (q * 2 ^ k) ≡ q * 2 ^ k + r
bit_or_low_high zero q zero h = ground (arith, zero-bit_or q)
bit_or_low_high zero q (suc r) h = absurd (omega arith)
bit_or_low_high (suc k) q r h = ground (
  arith,
  bit_or_digit r (q * 2 ^ suc k),
  mul-two_pow_suc q k,
  bit_or_low_high k q (r / 2) (omega (arith, pow-suc 2 k)),
)

-- `&` with 0 is bounded by 0 digit by digit.
bit_and_zero_below : (k a : ℕ) → a < 2 ^ k → bit_and a 0 ≡ 0
bit_and_zero_below zero zero p = refl
bit_and_zero_below zero (suc a) p = absurd (omega arith)
bit_and_zero_below (suc k) a p = omega (
  arith,
  pow-suc 2 k,
  bit_and_digit a 0,
  bit_and_zero_below k (a / 2) (omega (arith, pow-suc 2 k)),
)

below_two_pow : (a : ℕ) → a < 2 ^ a
below_two_pow zero = omega arith
below_two_pow (suc a) = omega (arith, pow-suc 2 a, below_two_pow a)

pub bit_and-zero : (a : ℕ) → bit_and a 0 ≡ 0
bit_and-zero a = bit_and_zero_below a a (below_two_pow a)

bit_and_high_low : (k q r : ℕ) → r < 2 ^ k → bit_and (q * 2 ^ k + r) (2 ^ k - 1) ≡ r
bit_and_high_low zero q zero h = ground (arith, bit_and-zero q)
bit_and_high_low zero q (suc r) h = absurd (omega arith)
bit_and_high_low (suc k) q r h = ground (
  arith,
  bit_and_digit (q * 2 ^ suc k + r) (2 ^ suc k - 1),
  mul-two_pow_suc q k,
  one-le-pow k 2 (omega arith),
  pow-suc 2 k,
  bit_and_high_low k q (r / 2) (omega (arith, pow-suc 2 k)),
)

-- A mask of `k` low bits is the remainder by 2 ^ k.
pub bit_and_low_bits : (k a : ℕ) → bit_and a (2 ^ k - 1) ≡ a % 2 ^ k
bit_and_low_bits k a =
    ground (arith, one-le-pow k 2 (omega arith), bit_and_high_low k (a / 2 ^ k) (a % 2 ^ k))

pub bit_and-one : (a : ℕ) → bit_and a 1 ≡ a % 2
bit_and-one a = bit_and_low_bits 1 a

-- A number that is 0 in both operands, and only such a one, is 0 under `|`.
pub bit_or-eq-zero : (k a b : ℕ) → a < 2 ^ k → b < 2 ^ k → bit_or a b ≡ 0 → (a ≡ 0) × (b ≡ 0)
bit_or-eq-zero k a b p q e = omega (arith, bit_or_bounds k a b p q)

-- A mask of one bit, on a number with nothing above that bit.
bit_and_single_bit : (k q r : ℕ) → q < 2 → r < 2 ^ k → bit_and (q * 2 ^ k + r) (2 ^ k) ≡ q * 2 ^ k
bit_and_single_bit zero q zero h p =
    let unit : q * 2 ^ 0 + 0 ≡ q = omega arith in rw unit (bit_and-one q ∙ omega arith)
bit_and_single_bit zero q (suc r) h p = absurd (omega arith)
bit_and_single_bit (suc k) q r h p = ground (
  arith,
  bit_and_digit (q * 2 ^ suc k + r) (2 ^ suc k),
  mul-two_pow_suc q k,
  pow-suc 2 k,
  bit_and_single_bit k q (r / 2) h (omega (arith, pow-suc 2 k)),
)

-- The mask 0x80 keeps the top bit of a byte.
pub bit_and_top_bit : (x : ℕ) → x < 256 → bit_and x 0x80 ≡ x / 128 * 128
bit_and_top_bit x h =
    let split : x ≡ x / 128 * 128 + x % 128 = omega arith in
    ap (λ y. bit_and y 0x80) split
    ∙ bit_and_single_bit 7 (x / 128) (x % 128) (omega arith) (omega arith)
