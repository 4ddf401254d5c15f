-- ===== src/Bignum/Multiply/Residues.antt =====
-- Powers and products modulo a number. It models no code.
use native.Mathlib.Nat.{pow-zero, pow-suc, div-add-mod, add-mul-mod_self_left}
use hardware_bitcoin_wallet.Base.{
  ℕ, zero, suc, ◌+◌, ◌*◌, ◌/◌, ◌%◌, ◌^◌, ◌≡◌, ◌∙◌, sym, ap, ap₂, arith,
}

pub pow-add : (a i j : ℕ) → a ^ (i + j) ≡ a ^ i * a ^ j
pow-add a zero j = let e : 0 + j ≡ j = omega arith in rw (e, pow-zero a) (omega arith)
pow-add a (suc i) j =
    let e : suc i + j ≡ suc (i + j) = omega arith in
    rw (e, pow-suc a (i + j), pow-suc a i) (omega (arith, ap (λ (t : ℕ). t * a) (pow-add a i j)))

pub one_power : (a : ℕ) → a ≡ a ^ 1
one_power a = rw (pow-suc a 0, pow-zero a) (omega arith)

expand : (x q y p n : ℕ) → (x + n * q) * (y + n * p) ≡ x * y + n * (x * p + q * y + n * q * p)
expand x q y p n = omega arith

mul_mod : (x y n : ℕ) → (x * y) % n ≡ ((x % n) * (y % n)) % n
mul_mod x y n =
    ap (λ t. t % n) (ap₂ ◌*◌ (split x) (split y) ∙ expand (x % n) (x / n) (y % n) (y / n) n)
    ∙ add-mul-mod_self_left ((x % n) * (y % n)) n _
  where
    split : (t : ℕ) → t ≡ t % n + n * (t / n)
    split t = omega (arith, div-add-mod t n)

pub mul_mod_congruent : (x y u v n : ℕ) → x % n ≡ u % n → y % n ≡ v % n → (x * y) % n ≡ (u * v) % n
mul_mod_congruent x y u v n e e' =
    mul_mod x y n ∙ ap₂ (λ s t. (s * t) % n) e e' ∙ sym (mul_mod u v n)
