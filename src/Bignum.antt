-- ===== src/Bignum.antt =====
-- bignum256.c: multi-precision arithmetic on little-endian byte arrays, outside and inside a prime
-- field. An array is the list of its bytes; a function that writes through a pointer returns the
-- bytes written. Every loop reads the bytes of a round before it writes that round's byte, so
-- results may share storage with operands, as the source allows.
pub mod Compare
pub mod AddSub
pub mod Shift
pub mod Modular
pub mod Multiply
mod Tests
use hardware_bitcoin_wallet.Base.{
  ℕ, zero, suc, ◌+◌, ◌-◌, ◌*◌, ◌/◌, ◌%◌, ◌^◌, bit_and, bit_or, bit_xor, u8, u16, sub16, ◌<<<◌,
  ◌>>>◌, List, [], ◌∷◌, ◌++◌, reverse, take, drop, replicate, overwrite, get_or, set, Bool, true,
  false, ◌==◌, leb, if◌then◌else◌,
}

-- BIGCMP_LESS, BIGCMP_EQUAL and BIGCMP_GREATER.
abbrev pub cmp_less : ℕ
cmp_less = 2

abbrev pub cmp_equal : ℕ
cmp_equal = 0

abbrev pub cmp_greater : ℕ
cmp_greater = 1

-- The static variables that `bigSetField` sets: the modulus, its 2s complement, and the size of the
-- complement.
pub record Field : Type 0 where
  pub n : List ℕ
  pub complement_n : List ℕ
  pub size_complement_n : ℕ

unfoldable pub set_field : List ℕ → List ℕ → ℕ → Field
set_field in_n in_complement_n in_size = record {
  n = in_n;
  complement_n = in_complement_n;
  size_complement_n = u8 in_size;
}

-- One round of the comparison loop on the bytes `a` of op1 and `b` of op2: the branch-free code.
pub compare_step : ℕ → ℕ → ℕ → ℕ
compare_step r a b =
    let cmp = u8 (bit_and (sub16 b a >>> 8) cmp_greater) in
    let r' = u8 (bit_xor (bit_and (sub16 0 r >>> 8) (bit_xor r cmp)) cmp) in
    let cmp' = u8 (bit_and (sub16 a b >>> 8) cmp_less) in
    u8 (bit_xor (bit_and (sub16 0 r' >>> 8) (bit_xor r' cmp')) cmp')

-- The loop goes from the last byte down to the first, so the rounds of the tail come first.
pub compare_variable_size : List ℕ → List ℕ → ℕ → ℕ
compare_variable_size (x ∷ xs) (y ∷ ys) (suc size) =
    compare_step (compare_variable_size xs ys size) x y
compare_variable_size _ _ _ = cmp_equal

pub compare : List ℕ → List ℕ → ℕ
compare op1 op2 = compare_variable_size op1 op2 32

is_zero_loop : ℕ → List ℕ → ℕ → ℕ
is_zero_loop r (x ∷ xs) (suc size) = is_zero_loop (bit_or r x) xs size
is_zero_loop r _ _ = r

pub is_zero_variable_size : List ℕ → ℕ → ℕ
unfolding is_zero_loop
is_zero_variable_size op1 size = let r = is_zero_loop 0 op1 size in u8 ((sub16 0 r >>> 8) + 1)

pub is_zero : List ℕ → ℕ
is_zero op1 = is_zero_variable_size op1 32

-- `bigSetZero`, and `bigAssign` of a 32-byte number.
abbrev pub zero256 : List ℕ
zero256 = replicate 32 0

pub assign : List ℕ → List ℕ → List ℕ
assign r op1 = overwrite r (take 32 op1)

-- The loop of `swapEndian256` from index `i`, with `rounds` rounds left.
unfoldable pub swap_loop : ℕ → ℕ → List ℕ → List ℕ
swap_loop zero i buffer = buffer
swap_loop (suc rounds) i buffer =
    let temp = get_or buffer i 0 in
    swap_loop rounds (i + 1) (set (set buffer i (get_or buffer (31 - i) 0)) (31 - i) temp)

unfoldable pub swap_endian256 : List ℕ → List ℕ
unfolding swap_loop
swap_endian256 buffer = swap_loop 16 0 buffer

-- The sum's bytes and the last carry; `c` is the carry into the first byte.
pub add_loop : List ℕ → List ℕ → ℕ → ℕ → List ℕ × ℕ
add_loop (x ∷ xs) (y ∷ ys) (suc size) c =
    let partial = u16 (x + y + c) in
    let (r, carry) = add_loop xs ys size (u8 (partial >>> 8)) in (u8 partial ∷ r, carry)
add_loop _ _ _ c = ([], c)

pub add_variable_size_no_modulo : List ℕ → List ℕ → ℕ → List ℕ × ℕ
add_variable_size_no_modulo op1 op2 op_size = add_loop op1 op2 op_size 0

-- The difference's bytes and the last borrow.
pub subtract_loop : List ℕ → List ℕ → ℕ → ℕ → List ℕ × ℕ
subtract_loop (x ∷ xs) (y ∷ ys) (suc size) c =
    let partial = u16 (x + 65536 - y - c) in
    let (r, borrow) = subtract_loop xs ys size (bit_and (u8 (partial >>> 8)) 1) in
    (u8 partial ∷ r, borrow)
subtract_loop _ _ _ c = ([], c)

pub subtract_variable_size_no_modulo : List ℕ → List ℕ → ℕ → List ℕ × ℕ
subtract_variable_size_no_modulo op1 op2 op_size = subtract_loop op1 op2 op_size 0

pub subtract_no_modulo : List ℕ → List ℕ → List ℕ × ℕ
subtract_no_modulo op1 op2 = subtract_variable_size_no_modulo op1 op2 32

-- `lookup[i]` of a two-element array.
abbrev pub choose : List ℕ → List ℕ → ℕ → List ℕ
choose at_0 at_1 i = if i == 0 then at_0 else at_1

pub modulo : Field → List ℕ → List ℕ
modulo f op1 =
    let cmp = u8 (bit_xor (compare op1 f.n) cmp_less) in
    let cmp' = u8 ((sub16 0 cmp >>> 8) + 1) in (subtract_no_modulo op1 (choose f.n zero256 cmp')).0

pub add : Field → List ℕ → List ℕ → List ℕ
add f op1 op2 =
    let (r, too_big) = add_variable_size_no_modulo op1 op2 32 in
    let cmp = u8 (bit_xor (compare r f.n) cmp_less) in
    let cmp' = u8 (bit_and (sub16 0 cmp >>> 8) 1) in
    (subtract_no_modulo r (choose zero256 f.n (bit_or too_big cmp'))).0

pub subtract : Field → List ℕ → List ℕ → List ℕ
subtract f op1 op2 =
    let (r, too_small) = subtract_no_modulo op1 op2 in
    (add_variable_size_no_modulo r (choose zero256 f.n too_small) 32).0

-- From the last byte down; the result carries the lowest bit shifted out beside the bytes.
shift_right_loop : List ℕ → List ℕ × ℕ
shift_right_loop [] = ([], 0)
shift_right_loop (x ∷ xs) =
    let (r, old_carry) = shift_right_loop xs in
    (u8 (bit_or (x >>> 1) (old_carry <<< 7)) ∷ r, bit_and x 1)

pub shift_right_no_modulo : List ℕ → List ℕ
unfolding shift_right_loop
shift_right_no_modulo op1 = (shift_right_loop (take 32 op1)).0
