-- ===== src/Baseconv.antt =====
-- baseconv.c: numbers and hashes as text. A `char` array is the list of its bytes; the locals `r`,
-- `op1`, `temp` and `out` are arrays that the source fills before it reads them.
use hardware_bitcoin_wallet.Base.{
  ℕ, zero, suc, ◌+◌, ◌*◌, bit_or, u8, ◌>>>◌, List, [], ◌∷◌, ◌++◌, reverse, take, replicate,
  overwrite, get_or, set, ◌==◌, ◌||◌, if◌then◌else◌,
}
use hardware_bitcoin_wallet.Bignum.{
  compare_variable_size, subtract_variable_size_no_modulo, cmp_greater,
}
use hardware_bitcoin_wallet.Endian.{write_u32_little_endian}
use hardware_bitcoin_wallet.Sha256.{
  sha256_begin, sha256_write_byte, sha256_write_bytes, sha256_finish_double,
}

abbrev pub base58_shift_list : List ℕ
base58_shift_list =
    0x00 ∷ 0x1d ∷ 0x80 ∷ 0x0e ∷ 0x40 ∷ 0x07 ∷ 0xa0 ∷ 0x03 ∷ 0xd0 ∷ 0x01 ∷ 0xe8 ∷ 0x00 ∷ 0x74 ∷ 0x00
    ∷ 0x3a ∷ 0x00 ∷ []

abbrev pub base10_shift_list : List ℕ
base10_shift_list =
    0x00 ∷ 0x05 ∷ 0x80 ∷ 0x02 ∷ 0x40 ∷ 0x01 ∷ 0xa0 ∷ 0x00 ∷ 0x50 ∷ 0x00 ∷ 0x28 ∷ 0x00 ∷ 0x14 ∷ 0x00
    ∷ 0x0a ∷ 0x00 ∷ []

abbrev pub base10_char_list : List ℕ
base10_char_list = b'0' ∷ b'1' ∷ b'2' ∷ b'3' ∷ b'4' ∷ b'5' ∷ b'6' ∷ b'7' ∷ b'8' ∷ b'9' ∷ []

abbrev pub base58_char_list : List ℕ
base58_char_list =
    b'1' ∷ b'2' ∷ b'3' ∷ b'4' ∷ b'5' ∷ b'6' ∷ b'7' ∷ b'8' ∷ b'9' ∷ b'A' ∷ b'B' ∷ b'C' ∷ b'D' ∷ b'E'
    ∷ b'F' ∷ b'G' ∷ b'H' ∷ b'J' ∷ b'K' ∷ b'L' ∷ b'M' ∷ b'N' ∷ b'P' ∷ b'Q' ∷ b'R' ∷ b'S' ∷ b'T'
    ∷ b'U' ∷ b'V' ∷ b'W' ∷ b'X' ∷ b'Y' ∷ b'Z' ∷ b'a' ∷ b'b' ∷ b'c' ∷ b'd' ∷ b'e' ∷ b'f' ∷ b'g'
    ∷ b'h' ∷ b'i' ∷ b'j' ∷ b'k' ∷ b'm' ∷ b'n' ∷ b'o' ∷ b'p' ∷ b'q' ∷ b'r' ∷ b's' ∷ b't' ∷ b'u'
    ∷ b'v' ∷ b'w' ∷ b'x' ∷ b'y' ∷ b'z' ∷ []

-- The three arrays that `bigDivide` writes.
pub record Division : Type 0 where
  pub r : List ℕ
  pub op1 : List ℕ
  pub temp : List ℕ

-- One round of the inner loop: the divisor, shifted, is taken from the dividend if it fits.
unfoldable pub divide_bit : List ℕ → ℕ → ℕ → ℕ → ℕ → Division → Division
divide_bit shift_list size i j one_bit s =
    let temp =
      set (set s.temp i (get_or shift_list (j * 2) 0)) (i + 1) (get_or shift_list (j * 2 + 1) 0) in
    let cmp = compare_variable_size temp s.op1 (u8 (size + 1)) in
    let kept : Division = record { r = s.r; op1 = s.op1; temp = temp } in
    let taken : Division = record {
      r = set s.r i (bit_or (get_or s.r i 0) one_bit);
      op1 = overwrite s.op1 (subtract_variable_size_no_modulo s.op1 temp (u8 (size + 1))).0;
      temp = temp;
    } in
    if cmp == cmp_greater then kept else taken

unfoldable pub divide_bits : List ℕ → ℕ → ℕ → ℕ → ℕ → ℕ → Division → Division
unfolding divide_bit
divide_bits shift_list size i zero j one_bit s = s
divide_bits shift_list size i (suc rounds) j one_bit s =
    divide_bits shift_list size i rounds (j + 1) (one_bit >>> 1)
      (divide_bit shift_list size i j one_bit s)

-- The outer loop goes from the byte `size - 1` down to the byte 0.
unfoldable pub divide_bytes : List ℕ → ℕ → ℕ → Division → Division
unfolding divide_bits
divide_bytes shift_list size zero s = s
divide_bytes shift_list size (suc i) s =
    let done = divide_bits shift_list size i 8 0 0x80 s in
    divide_bytes shift_list size i (record done { temp = set done.temp (i + 1) 0 })

unfoldable pub big_divide : List ℕ → ℕ → List ℕ → Division
unfolding divide_bytes
big_divide op1 size shift_list =
    divide_bytes shift_list size size
      (record { r = replicate size 0; op1 = set op1 size 0; temp = replicate (size + 1) 0 })

-- `for (j = j; ...; j++) out[j] = out[j + 1]`, with `rounds` rounds left.
unfoldable pub shift_down : ℕ → ℕ → List ℕ → List ℕ
shift_down zero j out = out
shift_down (suc rounds) j out = shift_down rounds (j + 1) (set out j (get_or out (j + 1) 0))

-- `for (j = last; ...; j--) out[j + 1] = out[j]`, down to 0.
unfoldable pub shift_up : ℕ → List ℕ → List ℕ
shift_up zero out = out
shift_up (suc j) out = shift_up j (set out (j + 1) (get_or out j 0))

-- The text so far, with the index of the next character to write and the number left to convert.
pub record Digits : Type 0 where
  pub r : List ℕ
  pub out : List ℕ
  pub index : ℕ

-- `out[index--] = c`, with an 8-bit index.
unfoldable pub put : ℕ → Digits → Digits
put c s = record s { out = set s.out s.index c; index = u8 (s.index + 255) }

-- The loop of `amountToText` over the 20 digits.
unfoldable pub amount_digits : ℕ → ℕ → Digits → Digits
unfolding big_divide put
amount_digits zero i s = s
amount_digits (suc rounds) i s =
    let d = big_divide (s.r ++ 0 ∷ []) 8 base10_shift_list in
    let divided : Digits = record s { r = d.r } in
    let pointed = if i == 8 then put b'.' divided else divided in
    amount_digits rounds (i + 1) (put (get_or base10_char_list (get_or d.op1 0 0) 0) pointed)

-- From the end, zeros and the point are overwritten up to the index 12.
unfoldable pub truncate_zeros : ℕ → List ℕ → List ℕ
truncate_zeros zero out = out
truncate_zeros (suc rounds) out =
    let i = 12 + rounds in
    let c = get_or out i 0 in
    let rest = truncate_zeros rounds (set out i 0) in
    if (c == b'0') || (c == b'.') then rest else out

-- A leading character `c` is removed at most `rounds` times, by a shift of `size` characters.
unfoldable pub remove_leading : ℕ → ℕ → ℕ → List ℕ → List ℕ
unfolding shift_down
remove_leading c size zero out = out
remove_leading c size (suc rounds) out =
    let rest = remove_leading c size rounds (shift_down size 0 out) in
    if get_or out 0 0 == c then rest else out

unfoldable pub amount_to_text : List ℕ → List ℕ
unfolding amount_digits truncate_zeros remove_leading
amount_to_text inp =
    let start : Digits = record { r = take 8 inp; out = replicate 22 0; index = 20 } in
    let text = set (amount_digits 20 0 start).out 21 0 in
    remove_leading b'0' 21 11 (truncate_zeros 9 text)

-- The number of bytes 0 at the end of an array, from the byte `rounds - 1` down.
unfoldable pub count_leading_zeros : ℕ → List ℕ → ℕ
count_leading_zeros zero r = 0
count_leading_zeros (suc i) r =
    let rest = count_leading_zeros i r in if get_or r i 0 == 0 then suc rest else 0

-- The loop of `hashToAddr` over the 35 digits.
unfoldable pub address_digits : ℕ → Digits → Digits
unfolding big_divide put
address_digits zero s = s
address_digits (suc rounds) s =
    let d = big_divide (s.r ++ 0 ∷ []) 25 base58_shift_list in
    let divided : Digits = record s { r = d.r } in
    address_digits rounds (put (get_or base58_char_list (get_or d.op1 0 0) 0) divided)

unfoldable pub insert_leading : ℕ → List ℕ → List ℕ
unfolding shift_up
insert_leading zero out = out
insert_leading (suc rounds) out = insert_leading rounds (set (shift_up 35 out) 0 b'1')

unfoldable pub hash_to_addr : List ℕ → ℕ → List ℕ
unfolding count_leading_zeros address_digits insert_leading remove_leading
hash_to_addr inp address_version =
    let hashed = take 20 inp in
    let hs =
      sha256_finish_double
        (sha256_write_bytes (sha256_write_byte sha256_begin address_version) hashed) in
    let r = write_u32_little_endian (get_or hs.h 0 0) ++ reverse hashed ++ address_version ∷ [] in
    let start : Digits = record { r = r; out = replicate 36 0; index = 34 } in
    let text = set (address_digits 35 start).out 35 0 in
    insert_leading (count_leading_zeros 25 r) (remove_leading b'1' 35 35 text)
