-- ===== src/Aes/Field.antt =====
-- The field arithmetic of aes.c: doubling is additive; and a test at all bytes.
use hardware_bitcoin_wallet.Base.{
  ℕ, zero, suc, ◌+◌, ◌-◌, ◌<◌, ◌≡◌, refl, sym, ap, ◌∙◌, arith, bit_xor, Bool, true, ◌==◌, ◌&&◌,
  ==_iff, IsByte,
}
use Prim.Native.Nat.{bit_xor-bitwise}
use mathlib.Core.Bool.{and-eq-true_iff}
use hardware_bitcoin_wallet.Base.Xor.{bit_xor_bound, bit_xor_comm, bit_xor_assoc}
use hardware_bitcoin_wallet.Aes.{x_times_2_in_gf}

-- A test at every number below n.
unfoldable pub every : (ℕ → Bool) → ℕ → Bool
every f zero = true
every f (suc n) = f n && every f n

every_from : (f : ℕ → Bool) (k a : ℕ) → every f (suc (k + a)) ≡ true → f a ≡ true
unfolding every
every_from f zero a h = ground arith
every_from f (suc k) a h =
    let next : suc (k + a) ≡ suc k + a = omega arith in
    let all : every f (suc (suc (k + a))) ≡ true = ap (λ n. every f (suc n)) next ∙ h in
    every_from f k a ((and-eq-true_iff (f (suc (k + a))) (every f (suc (k + a)))).0 all).1

pub every_at : (f : ℕ → Bool) (n a : ℕ) → every f n ≡ true → a < n → f a ≡ true
every_at f n a h p =
    let enough : n ≡ suc ((n - 1 - a) + a) = omega arith in
    every_from f (n - 1 - a) a (rw (← enough) h)

pub zero_xor : (b : ℕ) → bit_xor 0 b ≡ b
zero_xor b = simp bit_xor-bitwise refl

pub xor_zero : (b : ℕ) → IsByte b → bit_xor b 0 ≡ b
xor_zero b p = bit_xor_comm 8 b 0 p (omega arith) ∙ zero_xor b

-- (a + b) + (c + d) is (a + c) + (b + d).
pub interchange :
    (a b c d : ℕ)
    → IsByte a
    → IsByte b
    → IsByte c
    → IsByte d
    → bit_xor (bit_xor a b) (bit_xor c d) ≡ bit_xor (bit_xor a c) (bit_xor b d)
interchange a b c d p q r s =
    bit_xor_assoc 8 a b (bit_xor c d) p q (bit_xor_bound 8 c d r s)
    ∙ ap (bit_xor a) (
        sym (bit_xor_assoc 8 b c d q r s)
        ∙ ap (λ z. bit_xor z d) (bit_xor_comm 8 b c q r)
        ∙ bit_xor_assoc 8 c b d r q s)
    ∙ sym (bit_xor_assoc 8 a c (bit_xor b d) p r (bit_xor_bound 8 b d q s))

double_test :
    every
      (λ a.
        every
          (λ b. x_times_2_in_gf (bit_xor a b) == bit_xor (x_times_2_in_gf a) (x_times_2_in_gf b))
          256)
      256
    ≡ true
unfolding x_times_2_in_gf every
double_test = refl

pub double-bit_xor :
    (a b : ℕ)
    → IsByte a
    → IsByte b
    → x_times_2_in_gf (bit_xor a b) ≡ bit_xor (x_times_2_in_gf a) (x_times_2_in_gf b)
double-bit_xor a b p q = (==_iff _ _).0 (every_at _ 256 b (every_at _ 256 a double_test p) q)

pub double-IsByte : (a : ℕ) → IsByte (x_times_2_in_gf a)
unfolding x_times_2_in_gf
double-IsByte a = omega arith
