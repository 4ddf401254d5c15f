-- ===== src/Bignum/Compare.antt =====
-- bigCompareVariableSize, bigIsZeroVariableSize: the branch-free tests decide the order of the
-- numbers that the arrays stand for.
use hardware_bitcoin_wallet.Base.{
  ℕ, zero, suc, ◌+◌, ◌*◌, ◌<◌, ◌≡◌, refl, ◌∙◌, ap₂, arith, bit_or, sub16, ◌>>>◌, List, [], ◌∷◌,
  ◌==◌, ltb, if◌then◌else◌, IsByte, IsBytes, val, length,
}
use hardware_bitcoin_wallet.Base.Bits.{bit_or-lt, bit_or-eq-zero}
use hardware_bitcoin_wallet.Bignum.{
  cmp_less, cmp_equal, cmp_greater, compare_step, compare_variable_size, is_zero_loop, is_zero,
  is_zero_variable_size, zero256,
}

-- What a comparison answers, as a function of the two numbers.
abbrev pub order : ℕ → ℕ → ℕ
order a b = if ltb a b then cmp_less else if ltb b a then cmp_greater else cmp_equal

-- The high byte of a 16-bit difference of bytes is a mask of the borrow.
high_of_sub : (a b : ℕ) → IsByte a → IsByte b → sub16 a b >>> 8 ≡ (if ltb a b then 255 else 0)
high_of_sub a b p q = ground arith

-- A verdict of the higher bytes stands; else the bytes at hand decide.
compare_step-eq-order :
    (r a b : ℕ)
    → r < 3
    → IsByte a
    → IsByte b
    → compare_step r a b ≡ (if r == 0 then order a b else r)
unfolding compare_step
compare_step-eq-order zero a b h p q = rw (high_of_sub a b p q, high_of_sub b a q p) (ground arith)
compare_step-eq-order (suc zero) a b h p q =
    rw (high_of_sub a b p q, high_of_sub b a q p) (ground arith)
compare_step-eq-order (suc (suc zero)) a b h p q =
    rw (high_of_sub a b p q, high_of_sub b a q p) (ground arith)
compare_step-eq-order (suc (suc (suc r))) a b h p q = absurd (omega arith)

order-cons :
    (x y a b : ℕ)
    → IsByte x
    → IsByte y
    → (if order a b == 0 then order x y else order a b) ≡ order (x + 256 * a) (y + 256 * b)
order-cons x y a b p q = ground arith

order-lt_three : (a b : ℕ) → order a b < 3
order-lt_three a b = ground arith

-- `bigCompareVariableSize` answers the order of the two numbers, whatever its size, for arrays of
-- that size.
pub compare_variable_size-eq-order :
    (size : ℕ) (op1 op2 : List ℕ)
    → length op1 ≡ size
    → length op2 ≡ size
    → IsBytes op1
    → IsBytes op2
    → compare_variable_size op1 op2 size ≡ order (val op1) (val op2)
unfolding compare_variable_size
compare_variable_size-eq-order zero [] [] e e' p q = refl
compare_variable_size-eq-order zero (x ∷ xs) ys e e' p q = absurd (omega arith)
compare_variable_size-eq-order zero [] (y ∷ ys) e e' p q = absurd (omega arith)
compare_variable_size-eq-order (suc size) [] ys e e' p q = absurd (omega arith)
compare_variable_size-eq-order (suc size) (x ∷ xs) [] e e' p q = absurd (omega arith)
compare_variable_size-eq-order (suc size) (x ∷ xs) (y ∷ ys) e e' p q =
    rw (compare_variable_size-eq-order size xs ys (omega arith) (omega arith) p.1 q.1) (
      compare_step-eq-order (order (val xs) (val ys)) x y (order-lt_three (val xs) (val ys)) p.0 q.0
      ∙ order-cons x y (val xs) (val ys) p.0 q.0)

-- The loop that joins all bytes by `|` ends at 0 just if it starts at 0 and every byte is 0.
is_zero_loop_iff :
    (op1 : List ℕ) (size r : ℕ)
    → length op1 ≡ size
    → IsByte r
    → IsBytes op1
    → IsByte (is_zero_loop r op1 size)
      × (is_zero_loop r op1 size ≡ 0 → (r ≡ 0) × (val op1 ≡ 0))
      × (r ≡ 0 → val op1 ≡ 0 → is_zero_loop r op1 size ≡ 0)
unfolding is_zero_loop
is_zero_loop_iff [] size r e p q = (p, λ h. (h, refl), λ h _. h)
is_zero_loop_iff (x ∷ xs) zero r e p q = absurd (omega arith)
is_zero_loop_iff (x ∷ xs) (suc size) r e p q =
    let ih = is_zero_loop_iff xs size (bit_or r x) (omega arith) (bit_or-lt 8 r x p q.0) q.1 in
    (
      ih.0,
      λ h. let g = ih.1 h in omega (arith, bit_or-eq-zero 8 r x p q.0 g.0),
      λ h h'. let x_zero : x ≡ 0 = omega arith in ih.2 (ap₂ bit_or h x_zero) (omega arith),
    )

-- `bigIsZeroVariableSize` answers 1 for the number 0 and 0 for every other.
pub is_zero_variable_size-eq :
    (size : ℕ) (op1 : List ℕ)
    → length op1 ≡ size
    → IsBytes op1
    → is_zero_variable_size op1 size ≡ (if val op1 == 0 then 1 else 0)
unfolding is_zero_variable_size
is_zero_variable_size-eq size op1 e p =
    ground (arith, is_zero_loop_iff op1 size 0 e (omega arith) p)

pub is_zero-zero256 : is_zero zero256 ≡ 1
unfolding is_zero is_zero_variable_size
is_zero-zero256 = refl
