-- ===== src/Bignum/AddSub.antt =====
-- bigAddVariableSizeNoModulo, bigSubtractVariableSizeNoModulo: the bytes and the last carry or
-- borrow together make up the sum or the difference.
use hardware_bitcoin_wallet.Base.{
  ℕ, zero, suc, ◌+◌, ◌-◌, ◌*◌, ◌<◌, ◌≡◌, arith, bit_and, u8, u16, ◌>>>◌, List, [], ◌∷◌, ltb,
  if◌then◌else◌, IsBytes, val, radix, length, val-lt-radix,
}
use hardware_bitcoin_wallet.Base.Bits.{bit_and-one}
use hardware_bitcoin_wallet.Bignum.{
  add_loop, subtract_loop, add_variable_size_no_modulo, subtract_variable_size_no_modulo,
}

-- What the two loops return: `size` bytes and a bit.
abbrev pub IsSized : ℕ → List ℕ × ℕ → Type 0
IsSized size out = (length out.0 ≡ size) × IsBytes out.0 × (out.1 < 2)

add_loop-IsSized :
    (size : ℕ) (op1 op2 : List ℕ) (c : ℕ)
    → length op1 ≡ size
    → length op2 ≡ size
    → IsBytes op1
    → IsBytes op2
    → c < 2
    → IsSized size (add_loop op1 op2 size c)
      × (val (add_loop op1 op2 size c).0 + radix size * (add_loop op1 op2 size c).1
          ≡ val op1 + val op2 + c)
unfolding add_loop
add_loop-IsSized zero [] [] c e e' p q h = omega arith
add_loop-IsSized zero (x ∷ xs) ys c e e' p q h = absurd (omega arith)
add_loop-IsSized zero [] (y ∷ ys) c e e' p q h = absurd (omega arith)
add_loop-IsSized (suc size) [] ys c e e' p q h = absurd (omega arith)
add_loop-IsSized (suc size) (x ∷ xs) [] c e e' p q h = absurd (omega arith)
add_loop-IsSized (suc size) (x ∷ xs) (y ∷ ys) c e e' p q h =
    let c' = u8 (u16 (x + y + c) >>> 8) in
    let ih = add_loop-IsSized size xs ys c' (omega arith) (omega arith) p.1 q.1 (omega arith) in
    ((omega arith, (omega arith, ih.0.1), ih.0.2), omega arith)

subtract_loop-IsSized :
    (size : ℕ) (op1 op2 : List ℕ) (c : ℕ)
    → length op1 ≡ size
    → length op2 ≡ size
    → IsBytes op1
    → IsBytes op2
    → c < 2
    → IsSized size (subtract_loop op1 op2 size c)
      × (val (subtract_loop op1 op2 size c).0 + val op2 + c
          ≡ val op1 + radix size * (subtract_loop op1 op2 size c).1)
unfolding subtract_loop
subtract_loop-IsSized zero [] [] c e e' p q h = omega arith
subtract_loop-IsSized zero (x ∷ xs) ys c e e' p q h = absurd (omega arith)
subtract_loop-IsSized zero [] (y ∷ ys) c e e' p q h = absurd (omega arith)
subtract_loop-IsSized (suc size) [] ys c e e' p q h = absurd (omega arith)
subtract_loop-IsSized (suc size) (x ∷ xs) [] c e e' p q h = absurd (omega arith)
subtract_loop-IsSized (suc size) (x ∷ xs) (y ∷ ys) c e e' p q h =
    let c' = bit_and (u8 (u16 (x + 65536 - y - c) >>> 8)) 1 in
    let bit = bit_and-one (u8 (u16 (x + 65536 - y - c) >>> 8)) in
    let ih =
      subtract_loop-IsSized size xs ys c' (omega arith) (omega arith) p.1 q.1
        (omega (arith, bit)) in
    ((omega arith, (omega arith, ih.0.1), ih.0.2), omega (arith, bit))

borrow-eq :
    (m v b x y : ℕ) → b < 2 → v < m → x < m → v + y ≡ x + m * b → b ≡ (if ltb x y then 1 else 0)
borrow-eq m v zero x y h p q e = ground arith
borrow-eq m v (suc zero) x y h p q e = ground arith
borrow-eq m v (suc (suc b)) x y h p q e = absurd (omega arith)

-- `bigAddVariableSizeNoModulo` of two numbers of `op_size` bytes gives `op_size` bytes and a carry
-- bit that make up the exact sum.
pub add_variable_size_no_modulo-val :
    (size : ℕ) (op1 op2 : List ℕ)
    → length op1 ≡ size
    → length op2 ≡ size
    → IsBytes op1
    → IsBytes op2
    → let out = add_variable_size_no_modulo op1 op2 size in
      IsSized size out × (val out.0 + radix size * out.1 ≡ val op1 + val op2)
unfolding add_variable_size_no_modulo
add_variable_size_no_modulo-val size op1 op2 e e' p q =
    let l = add_loop-IsSized size op1 op2 0 e e' p q (omega arith) in (l.0, omega arith)

-- `bigSubtractVariableSizeNoModulo` gives `op_size` bytes, and the borrow is 1 just if the second
-- number is greater: then the bytes are the difference plus 256 ^ op_size.
pub subtract_variable_size_no_modulo-val :
    (size : ℕ) (op1 op2 : List ℕ)
    → length op1 ≡ size
    → length op2 ≡ size
    → IsBytes op1
    → IsBytes op2
    → let out = subtract_variable_size_no_modulo op1 op2 size in
      IsSized size out
      × (val out.0 + val op2 ≡ val op1 + radix size * out.1)
      × (out.1 ≡ (if ltb (val op1) (val op2) then 1 else 0))
unfolding subtract_variable_size_no_modulo
subtract_variable_size_no_modulo-val size op1 op2 e e' p q =
    let l = subtract_loop-IsSized size op1 op2 0 e e' p q (omega arith) in
    (
      l.0,
      omega arith,
      borrow-eq (radix size) _ _ (val op1) (val op2) l.0.2 (rw (l.0.0) at (val-lt-radix _ l.0.1))
          (rw e at (val-lt-radix op1 p)) (omega arith),
    )
