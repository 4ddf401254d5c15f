-- ===== src/Aes.antt =====
-- aes.c: AES with keys of 128 bits, one block at a time. The tables and the loops are those of the
-- code, a byte of the state being a number below 256.
pub mod Field
pub mod Columns
pub mod Rounds
pub mod Tables
pub mod Inverse
pub mod Key
mod Tests
use hardware_bitcoin_wallet.Base.{
  ℕ, zero, suc, ◌+◌, ◌-◌, ◌*◌, ◌/◌, ◌%◌, ◌^◌, bit_and, bit_xor, u8, u32, ◌<<<◌, ◌>>>◌, List, [],
  ◌∷◌, get_or, set, take, drop, replicate, overwrite, Bool, ltb, ◌==◌, if◌then◌else◌,
}
use hardware_bitcoin_wallet.Xex.{xor_16_bytes}

-- Forward S-box for Rijndael.
unfoldable pub sbox : List ℕ
sbox =
    0x63 ∷ 0x7c ∷ 0x77 ∷ 0x7b ∷ 0xf2 ∷ 0x6b ∷ 0x6f ∷ 0xc5 ∷ 0x30 ∷ 0x01 ∷ 0x67 ∷ 0x2b ∷ 0xfe ∷ 0xd7
    ∷ 0xab ∷ 0x76 ∷ 0xca ∷ 0x82 ∷ 0xc9 ∷ 0x7d ∷ 0xfa ∷ 0x59 ∷ 0x47 ∷ 0xf0 ∷ 0xad ∷ 0xd4 ∷ 0xa2
    ∷ 0xaf ∷ 0x9c ∷ 0xa4 ∷ 0x72 ∷ 0xc0 ∷ 0xb7 ∷ 0xfd ∷ 0x93 ∷ 0x26 ∷ 0x36 ∷ 0x3f ∷ 0xf7 ∷ 0xcc
    ∷ 0x34 ∷ 0xa5 ∷ 0xe5 ∷ 0xf1 ∷ 0x71 ∷ 0xd8 ∷ 0x31 ∷ 0x15 ∷ 0x04 ∷ 0xc7 ∷ 0x23 ∷ 0xc3 ∷ 0x18
    ∷ 0x96 ∷ 0x05 ∷ 0x9a ∷ 0x07 ∷ 0x12 ∷ 0x80 ∷ 0xe2 ∷ 0xeb ∷ 0x27 ∷ 0xb2 ∷ 0x75 ∷ 0x09 ∷ 0x83
    ∷ 0x2c ∷ 0x1a ∷ 0x1b ∷ 0x6e ∷ 0x5a ∷ 0xa0 ∷ 0x52 ∷ 0x3b ∷ 0xd6 ∷ 0xb3 ∷ 0x29 ∷ 0xe3 ∷ 0x2f
    ∷ 0x84 ∷ 0x53 ∷ 0xd1 ∷ 0x00 ∷ 0xed ∷ 0x20 ∷ 0xfc ∷ 0xb1 ∷ 0x5b ∷ 0x6a ∷ 0xcb ∷ 0xbe ∷ 0x39
    ∷ 0x4a ∷ 0x4c ∷ 0x58 ∷ 0xcf ∷ 0xd0 ∷ 0xef ∷ 0xaa ∷ 0xfb ∷ 0x43 ∷ 0x4d ∷ 0x33 ∷ 0x85 ∷ 0x45
    ∷ 0xf9 ∷ 0x02 ∷ 0x7f ∷ 0x50 ∷ 0x3c ∷ 0x9f ∷ 0xa8 ∷ 0x51 ∷ 0xa3 ∷ 0x40 ∷ 0x8f ∷ 0x92 ∷ 0x9d
    ∷ 0x38 ∷ 0xf5 ∷ 0xbc ∷ 0xb6 ∷ 0xda ∷ 0x21 ∷ 0x10 ∷ 0xff ∷ 0xf3 ∷ 0xd2 ∷ 0xcd ∷ 0x0c ∷ 0x13
    ∷ 0xec ∷ 0x5f ∷ 0x97 ∷ 0x44 ∷ 0x17 ∷ 0xc4 ∷ 0xa7 ∷ 0x7e ∷ 0x3d ∷ 0x64 ∷ 0x5d ∷ 0x19 ∷ 0x73
    ∷ 0x60 ∷ 0x81 ∷ 0x4f ∷ 0xdc ∷ 0x22 ∷ 0x2a ∷ 0x90 ∷ 0x88 ∷ 0x46 ∷ 0xee ∷ 0xb8 ∷ 0x14 ∷ 0xde
    ∷ 0x5e ∷ 0x0b ∷ 0xdb ∷ 0xe0 ∷ 0x32 ∷ 0x3a ∷ 0x0a ∷ 0x49 ∷ 0x06 ∷ 0x24 ∷ 0x5c ∷ 0xc2 ∷ 0xd3
    ∷ 0xac ∷ 0x62 ∷ 0x91 ∷ 0x95 ∷ 0xe4 ∷ 0x79 ∷ 0xe7 ∷ 0xc8 ∷ 0x37 ∷ 0x6d ∷ 0x8d ∷ 0xd5 ∷ 0x4e
    ∷ 0xa9 ∷ 0x6c ∷ 0x56 ∷ 0xf4 ∷ 0xea ∷ 0x65 ∷ 0x7a ∷ 0xae ∷ 0x08 ∷ 0xba ∷ 0x78 ∷ 0x25 ∷ 0x2e
    ∷ 0x1c ∷ 0xa6 ∷ 0xb4 ∷ 0xc6 ∷ 0xe8 ∷ 0xdd ∷ 0x74 ∷ 0x1f ∷ 0x4b ∷ 0xbd ∷ 0x8b ∷ 0x8a ∷ 0x70
    ∷ 0x3e ∷ 0xb5 ∷ 0x66 ∷ 0x48 ∷ 0x03 ∷ 0xf6 ∷ 0x0e ∷ 0x61 ∷ 0x35 ∷ 0x57 ∷ 0xb9 ∷ 0x86 ∷ 0xc1
    ∷ 0x1d ∷ 0x9e ∷ 0xe1 ∷ 0xf8 ∷ 0x98 ∷ 0x11 ∷ 0x69 ∷ 0xd9 ∷ 0x8e ∷ 0x94 ∷ 0x9b ∷ 0x1e ∷ 0x87
    ∷ 0xe9 ∷ 0xce ∷ 0x55 ∷ 0x28 ∷ 0xdf ∷ 0x8c ∷ 0xa1 ∷ 0x89 ∷ 0x0d ∷ 0xbf ∷ 0xe6 ∷ 0x42 ∷ 0x68
    ∷ 0x41 ∷ 0x99 ∷ 0x2d ∷ 0x0f ∷ 0xb0 ∷ 0x54 ∷ 0xbb ∷ 0x16 ∷ []

-- Inverse S-box for Rijndael.
unfoldable pub inv_sbox : List ℕ
inv_sbox =
    0x52 ∷ 0x09 ∷ 0x6a ∷ 0xd5 ∷ 0x30 ∷ 0x36 ∷ 0xa5 ∷ 0x38 ∷ 0xbf ∷ 0x40 ∷ 0xa3 ∷ 0x9e ∷ 0x81 ∷ 0xf3
    ∷ 0xd7 ∷ 0xfb ∷ 0x7c ∷ 0xe3 ∷ 0x39 ∷ 0x82 ∷ 0x9b ∷ 0x2f ∷ 0xff ∷ 0x87 ∷ 0x34 ∷ 0x8e ∷ 0x43
    ∷ 0x44 ∷ 0xc4 ∷ 0xde ∷ 0xe9 ∷ 0xcb ∷ 0x54 ∷ 0x7b ∷ 0x94 ∷ 0x32 ∷ 0xa6 ∷ 0xc2 ∷ 0x23 ∷ 0x3d
    ∷ 0xee ∷ 0x4c ∷ 0x95 ∷ 0x0b ∷ 0x42 ∷ 0xfa ∷ 0xc3 ∷ 0x4e ∷ 0x08 ∷ 0x2e ∷ 0xa1 ∷ 0x66 ∷ 0x28
    ∷ 0xd9 ∷ 0x24 ∷ 0xb2 ∷ 0x76 ∷ 0x5b ∷ 0xa2 ∷ 0x49 ∷ 0x6d ∷ 0x8b ∷ 0xd1 ∷ 0x25 ∷ 0x72 ∷ 0xf8
    ∷ 0xf6 ∷ 0x64 ∷ 0x86 ∷ 0x68 ∷ 0x98 ∷ 0x16 ∷ 0xd4 ∷ 0xa4 ∷ 0x5c ∷ 0xcc ∷ 0x5d ∷ 0x65 ∷ 0xb6
    ∷ 0x92 ∷ 0x6c ∷ 0x70 ∷ 0x48 ∷ 0x50 ∷ 0xfd ∷ 0xed ∷ 0xb9 ∷ 0xda ∷ 0x5e ∷ 0x15 ∷ 0x46 ∷ 0x57
    ∷ 0xa7 ∷ 0x8d ∷ 0x9d ∷ 0x84 ∷ 0x90 ∷ 0xd8 ∷ 0xab ∷ 0x00 ∷ 0x8c ∷ 0xbc ∷ 0xd3 ∷ 0x0a ∷ 0xf7
    ∷ 0xe4 ∷ 0x58 ∷ 0x05 ∷ 0xb8 ∷ 0xb3 ∷ 0x45 ∷ 0x06 ∷ 0xd0 ∷ 0x2c ∷ 0x1e ∷ 0x8f ∷ 0xca ∷ 0x3f
    ∷ 0x0f ∷ 0x02 ∷ 0xc1 ∷ 0xaf ∷ 0xbd ∷ 0x03 ∷ 0x01 ∷ 0x13 ∷ 0x8a ∷ 0x6b ∷ 0x3a ∷ 0x91 ∷ 0x11
    ∷ 0x41 ∷ 0x4f ∷ 0x67 ∷ 0xdc ∷ 0xea ∷ 0x97 ∷ 0xf2 ∷ 0xcf ∷ 0xce ∷ 0xf0 ∷ 0xb4 ∷ 0xe6 ∷ 0x73
    ∷ 0x96 ∷ 0xac ∷ 0x74 ∷ 0x22 ∷ 0xe7 ∷ 0xad ∷ 0x35 ∷ 0x85 ∷ 0xe2 ∷ 0xf9 ∷ 0x37 ∷ 0xe8 ∷ 0x1c
    ∷ 0x75 ∷ 0xdf ∷ 0x6e ∷ 0x47 ∷ 0xf1 ∷ 0x1a ∷ 0x71 ∷ 0x1d ∷ 0x29 ∷ 0xc5 ∷ 0x89 ∷ 0x6f ∷ 0xb7
    ∷ 0x62 ∷ 0x0e ∷ 0xaa ∷ 0x18 ∷ 0xbe ∷ 0x1b ∷ 0xfc ∷ 0x56 ∷ 0x3e ∷ 0x4b ∷ 0xc6 ∷ 0xd2 ∷ 0x79
    ∷ 0x20 ∷ 0x9a ∷ 0xdb ∷ 0xc0 ∷ 0xfe ∷ 0x78 ∷ 0xcd ∷ 0x5a ∷ 0xf4 ∷ 0x1f ∷ 0xdd ∷ 0xa8 ∷ 0x33
    ∷ 0x88 ∷ 0x07 ∷ 0xc7 ∷ 0x31 ∷ 0xb1 ∷ 0x12 ∷ 0x10 ∷ 0x59 ∷ 0x27 ∷ 0x80 ∷ 0xec ∷ 0x5f ∷ 0x60
    ∷ 0x51 ∷ 0x7f ∷ 0xa9 ∷ 0x19 ∷ 0xb5 ∷ 0x4a ∷ 0x0d ∷ 0x2d ∷ 0xe5 ∷ 0x7a ∷ 0x9f ∷ 0x93 ∷ 0xc9
    ∷ 0x9c ∷ 0xef ∷ 0xa0 ∷ 0xe0 ∷ 0x3b ∷ 0x4d ∷ 0xae ∷ 0x2a ∷ 0xf5 ∷ 0xb0 ∷ 0xc8 ∷ 0xeb ∷ 0xbb
    ∷ 0x3c ∷ 0x83 ∷ 0x53 ∷ 0x99 ∷ 0x61 ∷ 0x17 ∷ 0x2b ∷ 0x04 ∷ 0x7e ∷ 0xba ∷ 0x77 ∷ 0xd6 ∷ 0x26
    ∷ 0xe1 ∷ 0x69 ∷ 0x14 ∷ 0x63 ∷ 0x55 ∷ 0x21 ∷ 0x0c ∷ 0x7d ∷ []

-- Two and three times x in the field of 256 elements, and so on.
unfoldable pub x_times_2_in_gf : ℕ → ℕ
x_times_2_in_gf x = u8 (bit_xor (bit_and (u32 (2 ^ 32 - (x >>> 7))) 0x1b) (x + x))

unfoldable pub x_times_3_in_gf : ℕ → ℕ
x_times_3_in_gf x = bit_xor (x_times_2_in_gf x) x

unfoldable pub x_times_4_in_gf : ℕ → ℕ
x_times_4_in_gf x = x_times_2_in_gf (x_times_2_in_gf x)

unfoldable pub x_times_8_in_gf : ℕ → ℕ
x_times_8_in_gf x = x_times_2_in_gf (x_times_4_in_gf x)

unfoldable pub x_times_9_in_gf : ℕ → ℕ
x_times_9_in_gf x = bit_xor (x_times_8_in_gf x) x

unfoldable pub x_times_b_in_gf : ℕ → ℕ
x_times_b_in_gf x = bit_xor (x_times_9_in_gf x) (x_times_2_in_gf x)

unfoldable pub x_times_d_in_gf : ℕ → ℕ
x_times_d_in_gf x = bit_xor (x_times_9_in_gf x) (x_times_4_in_gf x)

unfoldable pub x_times_e_in_gf : ℕ → ℕ
x_times_e_in_gf x = bit_xor (bit_xor (x_times_8_in_gf x) (x_times_4_in_gf x)) (x_times_2_in_gf x)

-- The table that `shift_or_inv` selects, at one byte.
unfoldable pub substitute : ℕ → ℕ → ℕ
substitute shift_or_inv b = if shift_or_inv == 5 then get_or sbox b 0 else get_or inv_sbox b 0

-- The inner loop of `shiftOrInvShiftRows`: what it stores, and both offsets after it.
unfoldable pub exchange_row : ℕ → List ℕ → ℕ → ℕ → ℕ → List ℕ → List ℕ × (ℕ × ℕ)
exchange_row zero state shift_or_inv o1 o2 tmp = (tmp, (o1, o2))
exchange_row (suc j) state shift_or_inv o1 o2 tmp =
    exchange_row j state shift_or_inv (bit_and (o1 + 4) 15) (bit_and (o2 + 4) 15)
      (set tmp o1 (substitute shift_or_inv (get_or state o2 0)))

-- Its outer loop.
unfoldable pub exchange_rows : ℕ → List ℕ → ℕ → ℕ → ℕ → List ℕ → List ℕ
exchange_rows zero state shift_or_inv o1 o2 tmp = tmp
exchange_rows (suc i) state shift_or_inv o1 o2 tmp =
    let row = exchange_row 4 state shift_or_inv o1 o2 tmp in
    exchange_rows i state shift_or_inv (bit_and (row.1.0 + 1) 15)
      (bit_and (row.1.1 + shift_or_inv) 15) row.0

unfoldable pub shift_or_inv_shift_rows : List ℕ → ℕ → List ℕ
shift_or_inv_shift_rows state shift_or_inv = exchange_rows 4 state shift_or_inv 0 0 (replicate 16 0)

-- The offsets of the two functions that mix the columns.
pub record Offsets : Type 0 where
  pub o1 : ℕ
  pub o2 : ℕ
  pub o3 : ℕ
  pub o4 : ℕ

-- The offsets change places, and move to the next column after the fourth byte.
unfoldable pub advance : ℕ → Offsets → Offsets
advance i o =
    if bit_and i 3 == 3
    then record {
      o1 = bit_and (o.o2 + 4) 15;
      o2 = bit_and (o.o3 + 4) 15;
      o3 = bit_and (o.o4 + 4) 15;
      o4 = bit_and (o.o1 + 4) 15;
    }
    else record { o1 = o.o2; o2 = o.o3; o3 = o.o4; o4 = o.o1 }

-- The value that `mixSubColumns` stores, from four bytes of the substituted state.
unfoldable pub mixed : ℕ → ℕ → ℕ → ℕ → ℕ
mixed a b c d = bit_xor (bit_xor (bit_xor (x_times_2_in_gf a) (x_times_3_in_gf b)) c) d

-- The loop of `mixSubColumns`, of so many rounds from `i` on.
unfoldable pub mix_loop : ℕ → ℕ → Offsets → List ℕ → List ℕ → List ℕ
mix_loop zero i o state tmp = tmp
mix_loop (suc rounds) i o state tmp = mix_loop rounds (i + 1) (advance i o) state (
    set tmp i (
      mixed (get_or sbox (get_or state o.o1 0) 0) (get_or sbox (get_or state o.o2 0) 0)
        (get_or sbox (get_or state o.o3 0) 0) (get_or sbox (get_or state o.o4 0) 0)))

unfoldable pub mix_sub_columns : List ℕ → List ℕ
mix_sub_columns state =
    mix_loop 16 0 (record { o1 = 0; o2 = 5; o3 = 10; o4 = 15 }) state (replicate 16 0)

-- The value that `invMixSubColumns` stores.
unfoldable pub unmixed : ℕ → ℕ → ℕ → ℕ → ℕ
unmixed a b c d =
    bit_xor (bit_xor (bit_xor (x_times_e_in_gf a) (x_times_b_in_gf b)) (x_times_d_in_gf c))
      (x_times_9_in_gf d)

-- Its first loop, which stores at `idx`.
unfoldable pub unmix_loop : ℕ → ℕ → ℕ → Offsets → List ℕ → List ℕ → List ℕ
unmix_loop zero i idx o state tmp = tmp
unmix_loop (suc rounds) i idx o state tmp =
    unmix_loop rounds (i + 1) (bit_and (idx + 5) 15) (advance i o) state (
      set tmp idx (
        unmixed (get_or state o.o1 0) (get_or state o.o2 0) (get_or state o.o3 0)
          (get_or state o.o4 0)))

-- Its second loop.
unfoldable pub restore : List ℕ → List ℕ
restore [] = []
restore (b ∷ tmp) = get_or inv_sbox b 0 ∷ restore tmp

unfoldable pub inv_mix_sub_columns : List ℕ → List ℕ
inv_mix_sub_columns state =
    restore (unmix_loop 16 0 0 (record { o1 = 0; o2 = 1; o3 = 2; o4 = 3 }) state (replicate 16 0))

abbrev pub r_con : List ℕ
r_con = 0 ∷ 1 ∷ 2 ∷ 4 ∷ 8 ∷ 0x10 ∷ 0x20 ∷ 0x40 ∷ 0x80 ∷ 0x1b ∷ 0x36 ∷ []

-- `tmp0` to `tmp3`, as they are combined with the key's older bytes.
unfoldable pub next_word : ℕ → List ℕ → List ℕ
next_word idx expanded_key =
    let tmp0 = get_or expanded_key (idx - 4) 0 in
    let tmp1 = get_or expanded_key (idx - 3) 0 in
    let tmp2 = get_or expanded_key (idx - 2) 0 in
    let tmp3 = get_or expanded_key (idx - 1) 0 in
    if bit_and idx 15 == 0
    then bit_xor (get_or sbox tmp1 0) (get_or r_con (idx >>> 4) 0)
      ∷ get_or sbox tmp2 0
      ∷ get_or sbox tmp3 0
      ∷ get_or sbox tmp0 0
      ∷ []
    else tmp0 ∷ tmp1 ∷ tmp2 ∷ tmp3 ∷ []

-- The four assignments at the end of the loop's body, from `expanded_key[idx]` on.
unfoldable pub put_word : ℕ → List ℕ → List ℕ → List ℕ
put_word idx [] expanded_key = expanded_key
put_word idx (t ∷ tmp) expanded_key =
    put_word (idx + 1) tmp (set expanded_key idx (bit_xor (get_or expanded_key (idx - 16) 0) t))

unfoldable pub expand_loop : ℕ → ℕ → List ℕ → List ℕ
expand_loop zero idx expanded_key = expanded_key
expand_loop (suc rounds) idx expanded_key =
    expand_loop rounds (u8 (idx + 4)) (put_word idx (next_word idx expanded_key) expanded_key)

unfoldable pub aes_expand_key : List ℕ → List ℕ
aes_expand_key key = expand_loop 40 16 (overwrite (replicate 176 0) (take 16 key))

-- The loop of `aesEncrypt`, of so many rounds from `round` on.
unfoldable pub encrypt_rounds : ℕ → ℕ → List ℕ → List ℕ → List ℕ
encrypt_rounds zero round expanded_key out = out
encrypt_rounds (suc rounds) round expanded_key out =
    let mixed_out = if ltb round 10 then mix_sub_columns out else shift_or_inv_shift_rows out 5 in
    encrypt_rounds rounds (round + 1) expanded_key
      (xor_16_bytes mixed_out (drop (round * 16) expanded_key))

unfoldable pub aes_encrypt : List ℕ → List ℕ → List ℕ
aes_encrypt block expanded_key =
    encrypt_rounds 10 1 expanded_key (xor_16_bytes (take 16 block) expanded_key)

-- The loop of `aesDecrypt`: `round` counts down to 0, which is still a round.
unfoldable pub decrypt_rounds : ℕ → List ℕ → List ℕ → List ℕ
decrypt_rounds zero expanded_key out = out
decrypt_rounds (suc round) expanded_key out =
    let keyed = xor_16_bytes out (drop (round * 16) expanded_key) in
    decrypt_rounds round expanded_key (if round == 0 then keyed else inv_mix_sub_columns keyed)

unfoldable pub aes_decrypt : List ℕ → List ℕ → List ℕ
aes_decrypt block expanded_key =
    decrypt_rounds 10 expanded_key
      (shift_or_inv_shift_rows (xor_16_bytes (take 16 block) (drop 160 expanded_key)) 13)
