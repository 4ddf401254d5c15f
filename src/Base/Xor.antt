-- ===== src/Base/Xor.antt =====
-- Exclusive or at variables: its lowest digit, its size, and that it undoes itself.
use Prim.Native.Nat.{ℕ, zero, suc, ◌+◌, ◌*◌, ◌/◌, ◌%◌, ◌-◌, ◌^◌, ◌<◌}
use Prim.Native.Nat.{bit_xor, bit_xor-bitwise, differ}
use mathlib.Core.Path.{◌≡◌, refl, sym, ◌∙◌}
use native.Mathlib.Nat.{pow-suc}
use native.Mathlib.Omega.{arith}
use hardware_bitcoin_wallet.Base.Bits.{lowest_digit}

differ-eq : (a b : ℕ) → differ a b ≡ (a - b) + (b - a)
differ-eq zero b = omega arith
differ-eq (suc a) zero = omega arith
differ-eq (suc a) (suc b) = omega (arith, differ-eq a b)

bit_xor_digit :
    (a b : ℕ) → bit_xor a b ≡ bit_xor (a / 2) (b / 2) * 2 + ((a % 2 - b % 2) + (b % 2 - a % 2))
bit_xor_digit zero b = simp bit_xor-bitwise (omega arith)
bit_xor_digit (suc a) b =
    simp bit_xor-bitwise
      (omega (arith, lowest_digit (λ y. y) differ a b, differ-eq (suc a % 2) (b % 2)))

-- Two numbers below 2 ^ k: their exclusive or is below 2 ^ k, and the second one undoes it.
pub bit_xor_bound : (k a b : ℕ) → a < 2 ^ k → b < 2 ^ k → bit_xor a b < 2 ^ k
bit_xor_bound zero zero zero p q = omega arith
bit_xor_bound zero zero (suc b) p q = absurd (omega arith)
bit_xor_bound zero (suc a) b p q = absurd (omega arith)
bit_xor_bound (suc k) a b p q = omega (
  arith,
  pow-suc 2 k,
  bit_xor_digit a b,
  bit_xor_bound k (a / 2) (b / 2) (omega (arith, pow-suc 2 k)) (omega (arith, pow-suc 2 k)),
)

halves : (a x d : ℕ) → a ≡ x * 2 + d → d < 2 → (a / 2 ≡ x) × (a % 2 ≡ d)
halves a x d e p = (omega arith, omega arith)

pub bit_xor_twice : (k a b : ℕ) → a < 2 ^ k → b < 2 ^ k → bit_xor (bit_xor a b) b ≡ a
bit_xor_twice zero zero zero p q = refl
bit_xor_twice zero zero (suc b) p q = absurd (omega arith)
bit_xor_twice zero (suc a) b p q = absurd (omega arith)
bit_xor_twice (suc k) a b p q =
    let once =
      halves (bit_xor a b) (bit_xor (a / 2) (b / 2)) ((a % 2 - b % 2) + (b % 2 - a % 2))
        (bit_xor_digit a b) (omega arith) in
    let rest =
      bit_xor_twice k (a / 2) (b / 2) (omega (arith, pow-suc 2 k)) (omega (arith, pow-suc 2 k)) in
    let again : bit_xor (bit_xor a b) b
        ≡ bit_xor (bit_xor (a / 2) (b / 2)) (b / 2) * 2
          + ((bit_xor a b % 2 - b % 2) + (b % 2 - bit_xor a b % 2)) =
      rw (← once.0) (bit_xor_digit (bit_xor a b) b) in
    omega (arith, again, once.1, rest)

pub bit_xor_comm : (k a b : ℕ) → a < 2 ^ k → b < 2 ^ k → bit_xor a b ≡ bit_xor b a
bit_xor_comm zero zero zero p q = refl
bit_xor_comm zero zero (suc b) p q = absurd (omega arith)
bit_xor_comm zero (suc a) b p q = absurd (omega arith)
bit_xor_comm (suc k) a b p q =
    let rest =
      bit_xor_comm k (a / 2) (b / 2) (omega (arith, pow-suc 2 k)) (omega (arith, pow-suc 2 k)) in
    omega (arith, bit_xor_digit a b, bit_xor_digit b a, rest)

digits_assoc :
    (x y z : ℕ)
    → x < 2
    → y < 2
    → z < 2
    → (((x - y) + (y - x)) - z) + (z - ((x - y) + (y - x)))
      ≡ (x - ((y - z) + (z - y))) + (((y - z) + (z - y)) - x)
digits_assoc x y z p q r = omega arith

pub bit_xor_assoc :
    (k a b c : ℕ)
    → a < 2 ^ k
    → b < 2 ^ k
    → c < 2 ^ k
    → bit_xor (bit_xor a b) c ≡ bit_xor a (bit_xor b c)
bit_xor_assoc zero zero zero zero p q r = refl
bit_xor_assoc zero zero zero (suc c) p q r = absurd (omega arith)
bit_xor_assoc zero zero (suc b) c p q r = absurd (omega arith)
bit_xor_assoc zero (suc a) b c p q r = absurd (omega arith)
bit_xor_assoc (suc k) a b c p q r =
    let left =
      halves (bit_xor a b) (bit_xor (a / 2) (b / 2)) ((a % 2 - b % 2) + (b % 2 - a % 2))
        (bit_xor_digit a b) (omega arith) in
    let right =
      halves (bit_xor b c) (bit_xor (b / 2) (c / 2)) ((b % 2 - c % 2) + (c % 2 - b % 2))
        (bit_xor_digit b c) (omega arith) in
    let rest =
      bit_xor_assoc k (a / 2) (b / 2) (c / 2) (omega (arith, pow-suc 2 k))
        (omega (arith, pow-suc 2 k)) (omega (arith, pow-suc 2 k)) in
    let digits = digits_assoc (a % 2) (b % 2) (c % 2) (omega arith) (omega arith) (omega arith) in
    bit_xor_digit (bit_xor a b) c
    ∙ rw (left.0, left.1, rest, digits, ← right.0, ← right.1) (sym (bit_xor_digit a (bit_xor b c)))
