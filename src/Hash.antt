-- ===== src/Hash.antt =====
-- hash.c: the message buffer that SHA-256 and RIPEMD-160 share. The function that `hashBlock`
-- points to reads and updates `h` and reads `m`: it is the section's parameter `block`, which maps
-- `h` and `m` to the new `h`.
pub mod Spec
pub mod Buffer
pub mod Stream
pub mod Finish
use hardware_bitcoin_wallet.Base.{
  ℕ, zero, suc, ◌+◌, ◌-◌, ◌*◌, ◌/◌, ◌%◌, ◌^◌, bit_and, bit_or, u8, u32, ◌<<<◌, ◌>>>◌, List, [], ◌∷◌,
  ◌++◌, get_or, set, replicate, take, Bool, true, false, not, ◌==◌, ◌&&◌, if◌then◌else◌,
}
use hardware_bitcoin_wallet.Endian.{write_u32_big_endian, write_u32_little_endian, swap_endian}

pub record HashState : Type 0 where
  pub h : List ℕ
  pub index_m : ℕ
  pub byte_position_m : ℕ
  pub is_big_endian : Bool
  pub m : List ℕ
  pub message_length : ℕ

unfoldable pub clear_m : HashState → HashState
clear_m hs = record hs { index_m = 0; byte_position_m = 0; m = replicate 16 0 }

-- The position of a byte in its word, corrected for endianness, and the shift that the `switch`
-- chooses for it.
unfoldable pub byte_shift : Bool → ℕ → ℕ
byte_shift is_big_endian byte_position_m =
    let pos = if is_big_endian then byte_position_m else u8 (3 + 256 - byte_position_m) in
    if pos == 0 then 24 else if pos == 1 then 16 else if pos == 2 then 8 else 0

-- `h[0]` to `h[7]` are swapped one by one.
unfoldable pub swap_words : List ℕ → List ℕ
swap_words [] = []
swap_words (x ∷ xs) = swap_endian x ∷ swap_words xs

module _ (block : List ℕ → List ℕ → List ℕ) where
  -- The part of `hashWriteByte` after the buffer is written: a full buffer is hashed and cleared.
  unfoldable pub flush_full : HashState → HashState
  unfolding clear_m
  flush_full hs = if hs.index_m == 16 then clear_m (record hs { h = block hs.h hs.m }) else hs

  unfoldable pub hash_write_byte : HashState → ℕ → HashState
  unfolding flush_full byte_shift
  hash_write_byte hs byte =
      let shifted = u32 (byte <<< byte_shift hs.is_big_endian hs.byte_position_m) in
      flush_full (record hs {
        message_length = u32 (hs.message_length + 1);
        m = set hs.m hs.index_m (bit_or (get_or hs.m hs.index_m 0) shifted);
        index_m = if hs.byte_position_m == 3 then u8 (hs.index_m + 1) else hs.index_m;
        byte_position_m = bit_and (u8 (hs.byte_position_m + 1)) 3;
      })

  -- A loop that writes the bytes of an array in order.
  unfoldable pub hash_write_bytes : HashState → List ℕ → HashState
  hash_write_bytes hs [] = hs
  hash_write_bytes hs (b ∷ bs) = hash_write_bytes (hash_write_byte hs b) bs

  -- The loop that pads with zeros up to 448 bits. From any position of the buffer it takes less
  -- than 64 rounds: `pad_zeros-Holds` in the module `Finish`.
  unfoldable pub pad_zeros : ℕ → HashState → HashState
  pad_zeros zero hs = hs
  pad_zeros (suc fuel) hs =
      let rest = pad_zeros fuel (hash_write_byte hs 0) in
      if (hs.index_m == 14) && (hs.byte_position_m == 0) then hs else rest

  unfoldable pub hash_finish : HashState → HashState
  unfolding pad_zeros hash_write_bytes swap_words
  hash_finish hs =
      let length_bits = u32 (hs.message_length <<< 3) in
      let padded = pad_zeros 64 (hash_write_byte hs 0x80) in
      let buffer =
        if hs.is_big_endian
        then replicate 4 0 ++ write_u32_big_endian length_bits
        else write_u32_little_endian length_bits ++ replicate 4 0 in
      let done = hash_write_bytes padded buffer in
      if hs.is_big_endian then done else record done { h = swap_words done.h }

-- The 32 bytes of `h[0]` to `h[7]`, or of `h[7]` down to `h[0]`.
unfoldable pub big_endian_bytes : List ℕ → List ℕ
big_endian_bytes [] = []
big_endian_bytes (x ∷ xs) = write_u32_big_endian x ++ big_endian_bytes xs

unfoldable pub little_endian_bytes : List ℕ → List ℕ
little_endian_bytes [] = []
little_endian_bytes (x ∷ xs) = little_endian_bytes xs ++ write_u32_little_endian x

unfoldable pub write_hash_to_byte_array : HashState → Bool → List ℕ
unfolding big_endian_bytes little_endian_bytes
write_hash_to_byte_array hs do_write_big_endian =
    if do_write_big_endian
    then big_endian_bytes (take 8 hs.h)
    else little_endian_bytes (take 8 hs.h)
