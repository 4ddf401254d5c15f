-- ===== src/Bignum/Multiply/Reduce.antt =====
-- bigMultiply: each round of the reduction takes a multiple of the modulus away.
pub mod Step
pub mod Product
pub mod Gap
use native.Mathlib.Nat.{mul-le-mul_left, mul-le-mul_right}
use hardware_bitcoin_wallet.Base.{
  ℕ, zero, suc, ◌+◌, ◌-◌, ◌*◌, ◌/◌, ◌%◌, ◌^◌, ◌≤◌, ◌<◌, ◌≡◌, refl, ◌∙◌, sym, ap, arith, u8, List,
  [], ◌∷◌, ◌++◌, IsBytes, val, radix, length, take, drop, replicate, overwrite, ltb, if◌then◌else◌,
}
use hardware_bitcoin_wallet.Base.{
  val-lt-radix, val-take, val-overwrite, val-take-drop, radix_mono, radix-add, radix-pos,
  length-take, length-drop, length-overwrite, length-append, IsBytes-take, IsBytes-drop,
  IsBytes-overwrite, IsBytes-append, val-append, val-replicate_zero,
}
use hardware_bitcoin_wallet.Bignum.{Field, add_loop, add_variable_size_no_modulo}
use hardware_bitcoin_wallet.Bignum.AddSub.{add_variable_size_no_modulo-val}
use hardware_bitcoin_wallet.Bignum.Modular.{IsModulus, IsNum256}
use hardware_bitcoin_wallet.Bignum.Multiply.{
  multiply_row, multiply_rows, multiply_variable_size_no_modulo, reduce_step, reduce_loop,
}
use hardware_bitcoin_wallet.Bignum.Multiply.Long.{multiply_variable_size_no_modulo-val}

-- What `bigSetField` is called with: a modulus near 2 ^ 256, and its 2s complement, which has a
-- spare bit at the top of its bytes.
pub record IsField (f : Field) : Type 0 where
  pub modulus : IsModulus f.n
  pub size : length f.complement_n ≡ f.size_complement_n
  pub bytes : IsBytes f.complement_n
  pub short : f.size_complement_n < 32
  pub complement : val f.n + val f.complement_n ≡ radix 32
  pub spare : 2 * val f.complement_n ≤ radix f.size_complement_n

-- The loops read no more of an array than its given size.
multiply_row-take :
    (k x : ℕ) (ys r : List ℕ) (c : ℕ) → multiply_row x ys k r c ≡ multiply_row x (take k ys) k r c
unfolding multiply_row
multiply_row-take zero x [] r c = refl
multiply_row-take zero x (y ∷ ys) r c = refl
multiply_row-take (suc k) x [] r c = refl
multiply_row-take (suc k) x (y ∷ ys) [] c = refl
multiply_row-take (suc k) x (y ∷ ys) (r0 ∷ []) c = refl
multiply_row-take (suc k) x (y ∷ ys) (r0 ∷ r1 ∷ rs) c = rw (multiply_row-take k x ys _ _)

pub multiply_rows-take :
    (k1 k : ℕ) (xs ys r : List ℕ) → multiply_rows xs k1 ys k r ≡ multiply_rows xs k1 (take k ys) k r
unfolding multiply_rows
multiply_rows-take zero k [] ys r = refl
multiply_rows-take zero k (x ∷ xs) ys r = refl
multiply_rows-take (suc k1) k [] ys r = refl
multiply_rows-take (suc k1) k (x ∷ xs) ys r =
    let row = (multiply_row x (take k ys) k r 0).0 in
    rw (multiply_row-take k x ys r 0)
      (ap (λ l. take 1 row ++ l) (multiply_rows-take k1 k xs ys (drop 1 row)))

pub add_loop-take :
    (k : ℕ) (xs ys : List ℕ) (c : ℕ) → add_loop xs ys k c ≡ add_loop (take k xs) (take k ys) k c
unfolding add_loop
add_loop-take zero [] ys c = refl
add_loop-take zero (x ∷ xs) [] c = refl
add_loop-take zero (x ∷ xs) (y ∷ ys) c = refl
add_loop-take (suc k) [] ys c = refl
add_loop-take (suc k) (x ∷ xs) [] c = refl
add_loop-take (suc k) (x ∷ xs) (y ∷ ys) c = rw (add_loop-take k xs ys _)
