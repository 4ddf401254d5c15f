-- ===== src/Bignum/Tests.antt =====
-- The theorems on bignum256.c at concrete numbers.
use hardware_bitcoin_wallet.Base.{
  ℕ, ◌+◌, ◌*◌, ◌/◌, ◌%◌, ◌<◌, ◌≡◌, refl, arith, List, [], ◌∷◌, IsBytes, val, radix, length, reverse,
  replicate, ltb, if◌then◌else◌, ◌==◌,
}
use hardware_bitcoin_wallet.Bignum.{
  compare_variable_size, is_zero_variable_size, add_variable_size_no_modulo,
  subtract_variable_size_no_modulo, modulo, add, subtract, shift_right_no_modulo, swap_endian256,
}
use hardware_bitcoin_wallet.Bignum.Compare.{
  order, compare_variable_size-eq-order, is_zero_variable_size-eq,
}
use hardware_bitcoin_wallet.Bignum.AddSub.{
  IsSized, add_variable_size_no_modulo-val, subtract_variable_size_no_modulo-val,
}
use hardware_bitcoin_wallet.Bignum.Shift.{shift_right_no_modulo-val, swap_endian256-eq-reverse}
use hardware_bitcoin_wallet.Bignum.Modular.{IsNum256, modulo-val}
use hardware_bitcoin_wallet.Bignum.Modular.Sum.{add-val, subtract-val}
use hardware_bitcoin_wallet.Secp256k1.{field_p, field_n}
use hardware_bitcoin_wallet.Secp256k1.Laws.{fields-IsField}

abbrev low : List ℕ
low = 200 ∷ 255 ∷ 3 ∷ []

abbrev high : List ℕ
high = 100 ∷ 9 ∷ 4 ∷ []

compare_variable_size-eq-order_example :
    compare_variable_size low high 3 ≡ order (val low) (val high)
compare_variable_size-eq-order_example =
    compare_variable_size-eq-order 3 low high refl refl (omega arith) (omega arith)

is_zero_variable_size-eq_example : is_zero_variable_size low 3 ≡ (if val low == 0 then 1 else 0)
is_zero_variable_size-eq_example = is_zero_variable_size-eq 3 low refl (omega arith)

add_variable_size_no_modulo-val_example :
    IsSized 3 (add_variable_size_no_modulo low high 3)
    × (val (add_variable_size_no_modulo low high 3).0
          + radix 3 * (add_variable_size_no_modulo low high 3).1
        ≡ val low + val high)
add_variable_size_no_modulo-val_example =
    add_variable_size_no_modulo-val 3 low high refl refl (omega arith) (omega arith)

subtract_variable_size_no_modulo-val_example :
    IsSized 3 (subtract_variable_size_no_modulo low high 3)
    × (val (subtract_variable_size_no_modulo low high 3).0 + val high
        ≡ val low + radix 3 * (subtract_variable_size_no_modulo low high 3).1)
    × ((subtract_variable_size_no_modulo low high 3).1
        ≡ (if ltb (val low) (val high) then 1 else 0))
subtract_variable_size_no_modulo-val_example =
    subtract_variable_size_no_modulo-val 3 low high refl refl (omega arith) (omega arith)

-- 32 bytes 0xfe, and a small number of 32 bytes.
abbrev large : List ℕ
large = replicate 32 0xfe

abbrev thirty_one : List ℕ
thirty_one = 31 ∷ replicate 31 0

shift_right_no_modulo-val_example :
    (length (shift_right_no_modulo large) ≡ 32)
    × IsBytes (shift_right_no_modulo large)
    × (val (shift_right_no_modulo large) ≡ val large / 2)
shift_right_no_modulo-val_example = shift_right_no_modulo-val large refl (omega arith)

swap_endian256-eq-reverse_example : swap_endian256 thirty_one ≡ reverse thirty_one
swap_endian256-eq-reverse_example = swap_endian256-eq-reverse thirty_one refl

large-IsNum256 : IsNum256 large
large-IsNum256 = omega arith

thirty_one-IsNum256 : IsNum256 thirty_one
thirty_one-IsNum256 = omega arith

-- All bytes 0xff are above the modulus n.
modulo-val_example :
    IsNum256 (modulo field_n (replicate 32 0xff))
    × (val (modulo field_n (replicate 32 0xff)) ≡ val (replicate 32 0xff) % val field_n.n)
modulo-val_example = modulo-val field_n fields-IsField.1.modulus (replicate 32 0xff) (omega arith)

add-val_example :
    IsNum256 (add field_p large large)
    × (val (add field_p large large) ≡ (val large + val large) % val field_p.n)
unfolding field_p
add-val_example =
    add-val field_p fields-IsField.0.modulus large large large-IsNum256 large-IsNum256 (omega arith)
      (omega arith)

subtract-val_example :
    IsNum256 (subtract field_p thirty_one large)
    × (val (subtract field_p thirty_one large) < val field_p.n)
    × ((val (subtract field_p thirty_one large) + val large) % val field_p.n ≡ val thirty_one)
unfolding field_p
subtract-val_example =
    subtract-val field_p fields-IsField.0.modulus thirty_one large thirty_one-IsNum256
      large-IsNum256 (omega arith) (omega arith)
