-- ===== src/Bignum/Multiply/Tests.antt =====
-- Runs of the functions of bignum256.c, and its theorems at concrete numbers.
use hardware_bitcoin_wallet.Base.{
  ℕ, true, ◌<◌, ◌+◌, ◌-◌, ◌^◌, ◌*◌, ◌%◌, ◌≡◌, ◌≢◌, refl, arith, List, [], ◌∷◌, inr, IsBytes, val,
  drop, length, replicate,
}
use hardware_bitcoin_wallet.Bignum.{set_field, add_loop, add_variable_size_no_modulo}
use hardware_bitcoin_wallet.Bignum.Multiply.{
  multiply_row, multiply_rows, multiply_variable_size_no_modulo, reduce_loop, reduce_step, multiply,
  invert,
}
use hardware_bitcoin_wallet.Bignum.Multiply.Reduce.Product.{reduced}
use hardware_bitcoin_wallet.Bignum.Multiply.Reduce.Gap.{multiply-val, multiply_short}
use hardware_bitcoin_wallet.Bignum.Modular.{IsNum256}
use hardware_bitcoin_wallet.Bignum.Multiply.Long.{
  high_carry-eq-zero, multiply_variable_size_no_modulo-val,
}
use hardware_bitcoin_wallet.Bignum.Multiply.Invert.{IsClear, invert-val}
use hardware_bitcoin_wallet.Bignum.Multiply.Exponent.{halved}
use hardware_bitcoin_wallet.Secp256k1.{field_p}
use hardware_bitcoin_wallet.Bignum.Multiply.Powers.{check, check-IsClear}
use hardware_bitcoin_wallet.Secp256k1.Laws.{fields-IsField}

-- 2 ^ 255, and the number that makes the product 2 ^ 40 in the field.
abbrev two_255 : List ℕ
two_255 =
    0x0 ∷ 0x0 ∷ 0x0 ∷ 0x0 ∷ 0x0 ∷ 0x0 ∷ 0x0 ∷ 0x0 ∷ 0x0 ∷ 0x0 ∷ 0x0 ∷ 0x0 ∷ 0x0 ∷ 0x0 ∷ 0x0 ∷ 0x0
    ∷ 0x0 ∷ 0x0 ∷ 0x0 ∷ 0x0 ∷ 0x0 ∷ 0x0 ∷ 0x0 ∷ 0x0 ∷ 0x0 ∷ 0x0 ∷ 0x0 ∷ 0x0 ∷ 0x0 ∷ 0x0 ∷ 0x0 ∷ 0x80
    ∷ []

abbrev inverse_of_two_215 : List ℕ
inverse_of_two_215 =
    0x4a ∷ 0xca ∷ 0xf8 ∷ 0x58 ∷ 0xff ∷ 0x61 ∷ 0x6a ∷ 0x4a ∷ 0xa4 ∷ 0x3b ∷ 0x12 ∷ 0x70 ∷ 0xb0 ∷ 0xb3
    ∷ 0x40 ∷ 0x49 ∷ 0xb8 ∷ 0xfd ∷ 0x47 ∷ 0x64 ∷ 0x79 ∷ 0xc3 ∷ 0x6e ∷ 0xe5 ∷ 0x2b ∷ 0x85 ∷ 0x85
    ∷ 0x8d ∷ 0x38 ∷ 0x33 ∷ 0x7 ∷ 0xa7 ∷ []

overflow_runs : val (drop 32 (reduced field_p two_255 inverse_of_two_215).0) ≡ 1
unfolding reduce_loop reduce_step multiply_variable_size_no_modulo multiply_rows multiply_row
    field_p set_field add_variable_size_no_modulo add_loop
overflow_runs = refl

abbrev one : List ℕ
one = 1 ∷ replicate 31 0

multiply_short_example :
    (val (multiply field_p two_255 inverse_of_two_215) + val field_p.complement_n
      ≡ (val two_255 * val inverse_of_two_215) % val field_p.n)
    × (val (multiply field_p two_255 inverse_of_two_215)
        ≢ (val two_255 * val inverse_of_two_215) % val field_p.n)
multiply_short_example =
    multiply_short field_p fields-IsField.0 two_255 inverse_of_two_215 (omega arith) (omega arith)
      overflow_runs

-- All bytes 0xfe, squared: the residue is far above the gap.
abbrev large : List ℕ
large = replicate 32 0xfe

multiply-val_example :
    IsNum256 (multiply field_p large large)
    × (val (multiply field_p large large) ≡ (val large * val large) % val field_p.n)
unfolding field_p
multiply-val_example =
    multiply-val field_p fields-IsField.0 large large (omega arith) (omega arith)
      (inr (omega arith))

high_carry-eq-zero_example :
    ((multiply_row 255 (255 ∷ 254 ∷ []) 2 (7 ∷ 9 ∷ 0 ∷ []) 0).1 ≡ 0)
    × (val (multiply_row 255 (255 ∷ 254 ∷ []) 2 (7 ∷ 9 ∷ 0 ∷ []) 0).0
        ≡ val (7 ∷ 9 ∷ 0 ∷ []) + 255 * val (255 ∷ 254 ∷ []))
high_carry-eq-zero_example =
    high_carry-eq-zero 2 255 (255 ∷ 254 ∷ []) (7 ∷ 9 ∷ 0 ∷ []) refl (omega arith) (omega arith)
      (omega arith) (omega arith) (omega arith)

multiply_variable_size_no_modulo-val_example :
    let out = multiply_variable_size_no_modulo (255 ∷ 3 ∷ []) 2 (255 ∷ 254 ∷ 253 ∷ []) 3 in
    (length out ≡ 5) × IsBytes out × (val out ≡ val (255 ∷ 3 ∷ []) * val (255 ∷ 254 ∷ 253 ∷ []))
multiply_variable_size_no_modulo-val_example =
    multiply_variable_size_no_modulo-val 2 3 (255 ∷ 3 ∷ []) (255 ∷ 254 ∷ 253 ∷ []) refl refl
      (omega arith) (omega arith)

-- None of the powers of this number that the ladder meets lies in the gap.
large_checked : (check field_p (val large) 256 (val field_p.n - 2)).0 ≡ true
unfolding check field_p
large_checked = refl

large-IsClear : (j : ℕ) → j < 256 → IsClear field_p (val large) (halved j (val field_p.n - 2))
unfolding field_p
large-IsClear =
    check-IsClear field_p (val large) 256 (val field_p.n - 2) (omega arith) large_checked

invert-val_example :
    IsNum256 (invert field_p large)
    × (val (invert field_p large) % val field_p.n ≡ val large ^ (val field_p.n - 2) % val field_p.n)
unfolding field_p
invert-val_example =
    invert-val field_p fields-IsField.0 (val large) (omega arith) large-IsClear large (omega arith)
      refl
