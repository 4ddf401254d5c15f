-- ===== src/Bignum/Multiply/Reduce/Gap.antt =====
-- bigMultiply: for which products the result is the residue.
use hardware_bitcoin_wallet.Base.{
  ℕ, zero, suc, ◌+◌, ◌-◌, ◌*◌, ◌%◌, ◌≤◌, ◌<◌, ◌≡◌, ◌≢◌, refl, arith, u8, List, ◌⊎◌, val, radix,
  drop, ltb, if◌then◌else◌,
}
use hardware_bitcoin_wallet.Bignum.{Field}
use hardware_bitcoin_wallet.Bignum.Modular.{IsNum256, val-lt}
use hardware_bitcoin_wallet.Bignum.Multiply.{reduce_step, reduce_loop, multiply}
use hardware_bitcoin_wallet.Bignum.Multiply.Reduce.{IsField}
use hardware_bitcoin_wallet.Bignum.Multiply.Reduce.Product.{
  reduced, Outcome, exact, short, multiply-Outcome,
}

-- `remaining` takes the same values whatever the bytes are.
abbrev pub last_remaining : ℕ → ℕ → ℕ → ℕ
last_remaining zero size remaining = remaining
last_remaining (suc fuel) size remaining =
    let rest = last_remaining fuel size (u8 (remaining - 32 + size)) in
    if ltb 32 remaining then rest else remaining

pub reduce_loop-remaining :
    (fuel : ℕ) (f : Field) (full_r : List ℕ) (remaining : ℕ)
    → (reduce_loop fuel f full_r remaining).1 ≡ last_remaining fuel f.size_complement_n remaining
unfolding reduce_loop
reduce_loop-remaining zero f full_r remaining = refl
reduce_loop-remaining (suc fuel) f full_r remaining = ground (
  arith,
  reduce_loop-remaining fuel f (reduce_step f full_r remaining)
      (u8 (remaining - 32 + f.size_complement_n)),
)

module _ (f : Field) (field : IsField f) (op1 op2 : List ℕ) (num1 : IsNum256 op1)
    (num2 : IsNum256 op2) where
  abbrev residue : ℕ
  residue = (val op1 * val op2) % val f.n

  abbrev c : ℕ
  c = val f.complement_n

  multiply_outside :
      Outcome f field op1 op2
      → (residue < c) ⊎ (2 * c + radix (last_remaining 32 f.size_complement_n 64) ≤ 2 * residue)
      → val (multiply f op1 op2) ≡ residue
  multiply_outside (exact h e) away = e
  multiply_outside (short h e small) away =
      let bound : 2 * val (multiply f op1 op2) < radix (last_remaining 32 f.size_complement_n 64) =
        rw (reduce_loop-remaining 32 f _ 64) at small in
      absurd (ground arith)

  -- In a field with a complement of less than 32 bytes and a spare bit, `bigMultiply` leaves the
  -- residue of the product wherever that residue lies below the modulus's complement, or above it by at least half of 256 ^ r, where r is the last value of
  -- `remaining`.
  pub multiply-val :
      (residue < c) ⊎ (2 * c + radix (last_remaining 32 f.size_complement_n 64) ≤ 2 * residue)
      → IsNum256 (multiply f op1 op2) × (val (multiply f op1 op2) ≡ residue)
  multiply-val away =
      let m = multiply-Outcome f field op1 op2 num1 num2 in (m.0, multiply_outside m.1 away)

  multiply_fails :
      Outcome f field op1 op2
      → val (drop 32 (reduced f op1 op2).0) ≡ 1
      → (val (multiply f op1 op2) + c ≡ residue) × (val (multiply f op1 op2) ≢ residue)
  multiply_fails (exact h e) over = absurd (omega arith)
  multiply_fails (short h e small) over =
      (e, omega (arith, field.complement, val-lt f.n field.modulus.num))

  -- In such a field, where the reduction ends with a byte 1 above the 32 that are kept, `bigMultiply` leaves a
  -- number that is not the residue: it falls short of it by the complement.
  pub multiply_short :
      val (drop 32 (reduced f op1 op2).0) ≡ 1
      → (val (multiply f op1 op2) + c ≡ residue) × (val (multiply f op1 op2) ≢ residue)
  multiply_short = multiply_fails (multiply-Outcome f field op1 op2 num1 num2).1
