-- ===== src/Aes/Tests.antt =====
-- Runs of aes.c, on the example of FIPS 197.
use hardware_bitcoin_wallet.Base.{ℕ, ◌≡◌, refl, List, [], ◌∷◌, IsBytes}
use hardware_bitcoin_wallet.Xex.{xor_16_bytes}
use hardware_bitcoin_wallet.Xex.Laws.{IsBlock}
use hardware_bitcoin_wallet.Aes.{
  sbox, inv_sbox, x_times_2_in_gf, x_times_3_in_gf, x_times_4_in_gf, x_times_8_in_gf,
  x_times_9_in_gf, x_times_b_in_gf, x_times_d_in_gf, x_times_e_in_gf, substitute, exchange_row,
  exchange_rows, shift_or_inv_shift_rows, advance, mixed, mix_loop, mix_sub_columns, unmixed,
  unmix_loop, restore, inv_mix_sub_columns, next_word, put_word, expand_loop, aes_expand_key,
  encrypt_rounds, aes_encrypt, decrypt_rounds, aes_decrypt,
}
use hardware_bitcoin_wallet.Aes.Tables.{are_bytes, are_bytes→IsBytes}
use hardware_bitcoin_wallet.Aes.Key.{aes_decrypt-aes_encrypt_expanded}

abbrev key : List ℕ
key =
    0x00 ∷ 0x01 ∷ 0x02 ∷ 0x03 ∷ 0x04 ∷ 0x05 ∷ 0x06 ∷ 0x07 ∷ 0x08 ∷ 0x09 ∷ 0x0a ∷ 0x0b ∷ 0x0c ∷ 0x0d
    ∷ 0x0e ∷ 0x0f ∷ []

abbrev plaintext : List ℕ
plaintext =
    0x00 ∷ 0x11 ∷ 0x22 ∷ 0x33 ∷ 0x44 ∷ 0x55 ∷ 0x66 ∷ 0x77 ∷ 0x88 ∷ 0x99 ∷ 0xaa ∷ 0xbb ∷ 0xcc ∷ 0xdd
    ∷ 0xee ∷ 0xff ∷ []

abbrev ciphertext : List ℕ
ciphertext =
    0x69 ∷ 0xc4 ∷ 0xe0 ∷ 0xd8 ∷ 0x6a ∷ 0x7b ∷ 0x04 ∷ 0x30 ∷ 0xd8 ∷ 0xcd ∷ 0xb7 ∷ 0x80 ∷ 0x70 ∷ 0xb4
    ∷ 0xc5 ∷ 0x5a ∷ []

encrypted : aes_encrypt plaintext (aes_expand_key key) ≡ ciphertext
unfolding aes_encrypt encrypt_rounds aes_expand_key expand_loop put_word next_word xor_16_bytes
    mix_sub_columns mix_loop advance mixed x_times_3_in_gf x_times_2_in_gf sbox
    shift_or_inv_shift_rows exchange_rows exchange_row substitute
encrypted = refl

decrypted : aes_decrypt ciphertext (aes_expand_key key) ≡ plaintext
unfolding aes_decrypt decrypt_rounds aes_expand_key expand_loop put_word next_word xor_16_bytes
    inv_mix_sub_columns unmix_loop restore advance unmixed x_times_2_in_gf x_times_4_in_gf
    x_times_8_in_gf x_times_9_in_gf x_times_b_in_gf x_times_d_in_gf x_times_e_in_gf sbox inv_sbox
    shift_or_inv_shift_rows exchange_rows exchange_row substitute
decrypted = refl

plaintext-IsBlock : IsBlock plaintext
unfolding are_bytes
plaintext-IsBlock = record { sized = refl; bytes = are_bytes→IsBytes plaintext refl }

key-IsBytes : IsBytes key
unfolding are_bytes
key-IsBytes = are_bytes→IsBytes key refl

aes_decrypt-aes_encrypt_expanded_example :
    aes_decrypt (aes_encrypt plaintext (aes_expand_key key)) (aes_expand_key key) ≡ plaintext
aes_decrypt-aes_encrypt_expanded_example =
    aes_decrypt-aes_encrypt_expanded plaintext key plaintext-IsBlock key-IsBytes
