-- ===== src/Aes/Key.antt =====
-- aes.c: the expanded key holds bytes; encryption and decryption under it.
use hardware_bitcoin_wallet.Base.{
  ℕ, zero, suc, ◌+◌, ◌-◌, ◌≡◌, refl, arith, bit_and, u8, List, [], ◌∷◌, get_or, take, replicate,
  ◌==◌, Bool-cases, inl, inr, IsByte, IsBytes, IsBytes-take, IsBytes-overwrite, IsBytes-replicate,
  get_or-IsByte,
}
use hardware_bitcoin_wallet.Base.Xor.{bit_xor_bound}
use hardware_bitcoin_wallet.Xex.{Cipher}
use hardware_bitcoin_wallet.Xex.Laws.{IsBlock, IsCipher, set-IsBytes}
use hardware_bitcoin_wallet.Aes.{
  r_con, next_word, put_word, expand_loop, aes_expand_key, aes_encrypt, aes_decrypt,
}
use hardware_bitcoin_wallet.Aes.Tables.{are_bytes, are_bytes→IsBytes, sbox-IsByte}
use hardware_bitcoin_wallet.Aes.Inverse.{encrypt-IsBlock, decrypt-IsBlock, aes_decrypt-aes_encrypt}

r_con-IsBytes : IsBytes r_con
unfolding are_bytes
r_con-IsBytes = are_bytes→IsBytes r_con refl

next_word-IsBytes :
    (idx : ℕ) (expanded_key : List ℕ) → IsBytes expanded_key → IsBytes (next_word idx expanded_key)
unfolding next_word
next_word-IsBytes idx key h =
    let at : (i : ℕ) → IsByte (get_or key i 0) = λ i. get_or-IsByte key i h in
    elim (Bool-cases (bit_and idx 15 == 0)) [
      | inl e ↦ rw e (
        bit_xor_bound 8 _ _ (sbox-IsByte _) (get_or-IsByte r_con _ r_con-IsBytes),
        (sbox-IsByte _, (sbox-IsByte _, (sbox-IsByte _, tt))),
      )
      | inr e ↦ rw e (at (idx - 4), (at (idx - 3), (at (idx - 2), (at (idx - 1), tt))))
    ]

put_word-IsBytes :
    (idx : ℕ) (tmp expanded_key : List ℕ)
    → IsBytes tmp
    → IsBytes expanded_key
    → IsBytes (put_word idx tmp expanded_key)
unfolding put_word
put_word-IsBytes idx [] key p h = h
put_word-IsBytes idx (t ∷ tmp) key p h =
    put_word-IsBytes (idx + 1) tmp _ p.1
      (set-IsBytes key idx _ h (bit_xor_bound 8 _ t (get_or-IsByte key (idx - 16) h) p.0))

expand_loop-IsBytes :
    (rounds idx : ℕ) (expanded_key : List ℕ)
    → IsBytes expanded_key
    → IsBytes (expand_loop rounds idx expanded_key)
unfolding expand_loop
expand_loop-IsBytes zero idx key h = h
expand_loop-IsBytes (suc rounds) idx key h =
    expand_loop-IsBytes rounds (u8 (idx + 4)) _
      (put_word-IsBytes idx (next_word idx key) key (next_word-IsBytes idx key h) h)

pub expand_key-IsBytes : (key : List ℕ) → IsBytes key → IsBytes (aes_expand_key key)
unfolding aes_expand_key
expand_key-IsBytes key h = expand_loop-IsBytes 40 16 _ (
    IsBytes-overwrite (replicate 176 0) (take 16 key) (IsBytes-replicate 176 0 (omega arith))
      (IsBytes-take 16 key h))

-- For a block of 16 bytes and a key of bytes: what is encrypted under the expanded key decrypts to
-- the block again.
pub aes_decrypt-aes_encrypt_expanded :
    (block key : List ℕ)
    → IsBlock block
    → IsBytes key
    → aes_decrypt (aes_encrypt block (aes_expand_key key)) (aes_expand_key key) ≡ block
aes_decrypt-aes_encrypt_expanded block key h k =
    aes_decrypt-aes_encrypt block (aes_expand_key key) h (expand_key-IsBytes key k)

-- The numbers as bytes. An array of `uint8_t` holds only bytes, and is left as it is.
unfoldable pub bytes_of : List ℕ → List ℕ
bytes_of [] = []
bytes_of (x ∷ xs) = u8 x ∷ bytes_of xs

bytes_of-IsBytes : (xs : List ℕ) → IsBytes (bytes_of xs)
unfolding bytes_of
bytes_of-IsBytes [] = tt
bytes_of-IsBytes (x ∷ xs) = (omega arith, bytes_of-IsBytes xs)

-- The three functions, as the block cipher that xex.c calls. This record models no code of its own:
-- `bytes_of` says that the keys are arrays of `uint8_t`.
unfoldable pub aes : Cipher
aes = record {
  expand_key = λ key. aes_expand_key (bytes_of key);
  encrypt = λ block key. aes_encrypt block (bytes_of key);
  decrypt = λ block key. aes_decrypt block (bytes_of key);
}

-- The functions of aes.c meet what xex.c relies on: encryption and decryption take a block of 16
-- bytes to a block of 16 bytes, and decryption undoes encryption under the same expanded key.
pub aes-IsCipher : IsCipher aes
unfolding aes
aes-IsCipher = record {
  encrypt-IsBlock = λ block key h. encrypt-IsBlock block (bytes_of key) h (bytes_of-IsBytes key);
  decrypt-IsBlock = λ block key h. decrypt-IsBlock block (bytes_of key) h (bytes_of-IsBytes key);
  decrypt-encrypt = λ block key h.
      aes_decrypt-aes_encrypt block _ h (bytes_of-IsBytes (aes_expand_key (bytes_of key)));
}
