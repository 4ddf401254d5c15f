-- ===== src/Transaction/Signature.antt =====
-- transaction.c: encapsulateSignature, the DER form of a signature.
pub mod Der
pub mod Encapsulate
mod Tests
use hardware_bitcoin_wallet.Base.{
  ℕ, zero, suc, ◌+◌, ◌-◌, ◌%◌, ◌^◌, bit_and, u8, List, [], ◌∷◌, get_or, set, take, drop, ◌++◌, Bool,
  true, false, ◌&&◌, ◌==◌, if◌then◌else◌,
}
use hardware_bitcoin_wallet.Bignum.{swap_endian256}

abbrev pub r_offset : ℕ
r_offset = 4

abbrev pub s_offset : ℕ
s_offset = 39

-- `memcpy(&(signature[at]), bytes, 32)`, for the 32 bytes of a number.
abbrev pub copy_to : ℕ → List ℕ → List ℕ → List ℕ
copy_to at bytes signature = take at signature ++ bytes ++ drop (at + 32) signature

-- The loop that moves the bytes from `i + 1` on down by one, with `rounds` rounds left.
unfoldable pub move_down : ℕ → ℕ → List ℕ → List ℕ
move_down zero i signature = signature
move_down (suc rounds) i signature =
    move_down rounds (i + 1) (set signature i (get_or signature (i + 1) 0))

-- The loop that removes leading zeros of the integer at `offset`, with the length byte before it,
-- beside `sequence_length`. It ends when one byte is left, so 33 rounds are enough.
unfoldable pub remove_zeros : ℕ → ℕ → List ℕ × ℕ → List ℕ × ℕ
remove_zeros offset zero state = state
remove_zeros offset (suc rounds) (signature, sequence_length) =
    let moved = move_down (72 - offset) offset signature in
    let shorter = set moved (offset - 1) (u8 (get_or moved (offset - 1) 0 + 255)) in
    let next : List ℕ × ℕ = (shorter, u8 (sequence_length + 255)) in
    let rest = remove_zeros offset rounds next in
    if (get_or signature offset 0 == 0) && (bit_and (get_or signature (offset + 1) 0) 0x80 == 0)
    then (if get_or shorter (offset - 1) 0 == 1 then next else rest)
    else (signature, sequence_length)

-- The bytes of both integers with a leading zero each, big-endian, behind their tags and lengths.
unfoldable pub lay_out : List ℕ → List ℕ → List ℕ → List ℕ
lay_out signature r s =
    let copied = copy_to (s_offset + 1) s (copy_to (r_offset + 1) r signature) in
    let zeros = set (set copied r_offset 0x00) s_offset 0x00 in
    let swapped_r =
      copy_to (r_offset + 1) (swap_endian256 (take 32 (drop (r_offset + 1) zeros))) zeros in
    let swapped =
      copy_to (s_offset + 1) (swap_endian256 (take 32 (drop (s_offset + 1) swapped_r))) swapped_r in
    let tags_r = set (set swapped (r_offset - 2) 0x02) (r_offset - 1) 0x21 in
    let tags_s = set (set tags_r (s_offset - 2) 0x02) (s_offset - 1) 0x21 in
    set tags_s (s_offset + 33) 0x01

-- The signature, and its length.
unfoldable pub encapsulate_signature : List ℕ → List ℕ → List ℕ → List ℕ × ℕ
encapsulate_signature signature r s =
    let pruned_s = remove_zeros s_offset 33 (lay_out signature r s, 0x46) in
    let (pruned, sequence_length) = remove_zeros r_offset 33 pruned_s in
    (set (set pruned 0 0x30) 1 sequence_length, u8 (sequence_length + 3))
