-- ===== src/Bignum/Multiply.antt =====
-- bigMultiplyVariableSizeNoModulo, bigMultiply, bigInvert: long multiplication, the reduction by
-- the modulus's complement, and the exponentiation that inverts.
pub mod Long
pub mod Reduce
pub mod Residues
pub mod Exponent
pub mod Invert
pub mod Powers
mod Tests
use hardware_bitcoin_wallet.Base.{
  ℕ, zero, suc, ◌+◌, ◌-◌, ◌*◌, ◌/◌, ◌%◌, ◌^◌, bit_and, u8, u16, ◌<<<◌, ◌>>>◌, List, [], ◌∷◌, ◌++◌,
  take, drop, replicate, overwrite, get_or, Bool, true, false, ◌==◌, ltb, if◌then◌else◌,
}
use hardware_bitcoin_wallet.Bignum.{
  Field, modulo, add_variable_size_no_modulo, assign, choose, zero256,
}

-- The inner loop: `x` is `cached_op1`, the list `r` is the result from the byte `r[i + j]` on, and
-- `high_carry` is the carry into `r[i + j + 1]`. The last high carry comes back beside the bytes.
pub multiply_row : ℕ → List ℕ → ℕ → List ℕ → ℕ → List ℕ × ℕ
multiply_row x (y ∷ ys) (suc op2_size) (r0 ∷ r1 ∷ rs) high_carry =
    let multiply_result16 = u16 (x * y) in
    let partial_sum = u16 (r0 + u8 multiply_result16) in
    let low_carry = u8 (partial_sum >>> 8) in
    let partial_sum' = u16 (r1 + u8 (multiply_result16 >>> 8) + low_carry + high_carry) in
    let (rest, carry) =
      multiply_row x ys op2_size (u8 partial_sum' ∷ rs) (u8 (partial_sum' >>> 8)) in
    (u8 partial_sum ∷ rest, carry)
multiply_row x _ _ r high_carry = (r, high_carry)

-- The outer loop: the list is the result from the byte `r[i]` on.
pub multiply_rows : List ℕ → ℕ → List ℕ → ℕ → List ℕ → List ℕ
multiply_rows (x ∷ xs) (suc op1_size) op2 op2_size r =
    let row = (multiply_row x op2 op2_size r 0).0 in
    take 1 row ++ multiply_rows xs op1_size op2 op2_size (drop 1 row)
multiply_rows _ _ op2 op2_size r = r

pub multiply_variable_size_no_modulo : List ℕ → ℕ → List ℕ → ℕ → List ℕ
multiply_variable_size_no_modulo op1 op1_size op2 op2_size =
    multiply_rows op1 op1_size op2 op2_size (replicate (op1_size + op2_size) 0)

-- One round of the reduction on the 64 bytes of `full_r`, of which `remaining` may be non-zero.
pub reduce_step : Field → List ℕ → ℕ → List ℕ
reduce_step f full_r remaining =
    let product =
      multiply_variable_size_no_modulo f.complement_n f.size_complement_n (drop 32 full_r)
        (u8 (remaining - 32)) in
    let temp = overwrite (replicate 64 0) product in
    let cleared = take 32 full_r ++ overwrite (drop 32 full_r) (replicate 32 0) in
    overwrite cleared (add_variable_size_no_modulo cleared temp remaining).0

-- `remaining` falls in each round, by at least one where the complement has less than 32 bytes, so
-- 32 rounds of fuel from 64 reach 32: `reduce_loop-IsReduced` in the module `Reduce.Product`.
pub reduce_loop : ℕ → Field → List ℕ → ℕ → List ℕ × ℕ
reduce_loop zero f full_r remaining = (full_r, remaining)
reduce_loop (suc fuel) f full_r remaining =
    let rest =
      reduce_loop fuel f (reduce_step f full_r remaining)
        (u8 (remaining - 32 + f.size_complement_n)) in
    if ltb 32 remaining then rest else (full_r, remaining)

pub multiply : Field → List ℕ → List ℕ → List ℕ
multiply f op1 op2 =
    let (full_r, remaining) =
      reduce_loop 32 f (multiply_variable_size_no_modulo op1 32 op2 32) 64 in
    modulo f (take 32 full_r)

-- `r` and `temp` of `bigInvert`.
pub record Ladder : Type 0 where
  pub r : List ℕ
  pub temp : List ℕ

-- `lookup[1 - bit] = r x temp`, then `lookup[bit]` is squared: `lookup[0]` is `r`, `lookup[1]` is
-- `temp`.
pub ladder_step : Field → ℕ → Ladder → Ladder
ladder_step f bit s =
    if bit == 0
    then record { r = multiply f s.r s.r; temp = multiply f s.r s.temp }
    else record { r = multiply f s.r s.temp; temp = multiply f s.temp s.temp }

-- The loop over `j`, with `rounds` bits of `byte_of_n_minus_2` left, the highest first.
pub ladder_bits : Field → ℕ → ℕ → Ladder → Ladder
ladder_bits f zero byte s = s
ladder_bits f (suc rounds) byte s =
    let bit = bit_and byte 0x80 >>> 7 in
    ladder_bits f rounds (u8 (byte <<< 1)) (ladder_step f bit s)

-- The loop over `i`, from the last of `rounds` bytes down to `n[0]`, of which 2 is taken.
pub ladder_bytes : Field → ℕ → Ladder → Ladder
ladder_bytes f zero s = s
ladder_bytes f (suc i) s =
    let byte = get_or f.n i 0 in
    let byte_of_n_minus_2 = if i == 0 then u8 (byte + 256 - 2) else byte in
    ladder_bytes f i (ladder_bits f 8 byte_of_n_minus_2 s)

pub invert : Field → List ℕ → List ℕ
invert f op1 = (ladder_bytes f 32 (record { r = 1 ∷ replicate 31 0; temp = op1 })).r
