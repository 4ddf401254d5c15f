-- ===== src/Aes/Inverse.antt =====
-- aes.c: `aesDecrypt` undoes `aesEncrypt` under the same expanded key, and the three functions are
-- the block cipher that xex.c relies on.
use hardware_bitcoin_wallet.Base.{
  ℕ, zero, suc, ◌*◌, ◌≡◌, refl, ap, arith, List, [], ◌∷◌, length, drop, take, false, ◌==◌, IsBytes,
  IsBytes-drop,
}
use hardware_bitcoin_wallet.Xex.{xor_16_bytes}
use hardware_bitcoin_wallet.Xex.Laws.{IsBlock, xor_twice}
use hardware_bitcoin_wallet.Aes.{
  shift_or_inv_shift_rows, mix_sub_columns, encrypt_rounds, aes_encrypt, decrypt_rounds,
  aes_decrypt,
}
use hardware_bitcoin_wallet.Aes.Rounds.{
  shift-shift, inv_mix-mix, shift-IsBlock, mix-IsBlock, xor-IsBlock, shift_back-IsBlock,
  inv_mix-IsBlock,
}

-- The state after so many full rounds of encryption.
forward : ℕ → List ℕ → List ℕ → List ℕ
forward zero key block = xor_16_bytes block key
forward (suc r) key block =
    xor_16_bytes (mix_sub_columns (forward r key block)) (drop (suc r * 16) key)

forward-IsBlock :
    (r : ℕ) (key block : List ℕ) → IsBlock block → IsBytes key → IsBlock (forward r key block)
unfolding forward
forward-IsBlock zero key block h k = xor-IsBlock block key h k
forward-IsBlock (suc r) key block h k =
    xor-IsBlock _ _ (mix-IsBlock _ (forward-IsBlock r key block h k)) (IsBytes-drop _ key k)

suc-not_zero : (r : ℕ) → (suc r == 0) ≡ false
suc-not_zero r = ground arith

backward :
    (r : ℕ) (key block : List ℕ)
    → IsBlock block
    → IsBytes key
    → decrypt_rounds (suc r) key (forward r key block) ≡ block
unfolding forward decrypt_rounds
backward zero key block h k = xor_twice block key h.bytes k
backward (suc r) key block h k =
    let before = forward-IsBlock r key block h k in
    let mixed = mix-IsBlock (forward r key block) before in
    rw
      (
        suc-not_zero r,
        xor_twice _ (drop (suc r * 16) key) mixed.bytes (IsBytes-drop _ key k),
        inv_mix-mix (forward r key block) before,
      )
      (backward r key block h k)

take_16 : (n : ℕ) (bs : List ℕ) → length bs ≡ n → take n bs ≡ bs
take_16 zero [] e = refl
take_16 zero (b ∷ bs) e = absurd (omega (arith, e))
take_16 (suc n) [] e = refl
take_16 (suc n) (b ∷ bs) e = ap (◌∷◌ b) (take_16 n bs (omega (arith, e)))

-- The state that the last round works on.
encrypt_lem :
    (block key : List ℕ)
    → IsBlock block
    → aes_encrypt block key
      ≡ xor_16_bytes (shift_or_inv_shift_rows (forward 9 key block) 5) (drop 160 key)
unfolding aes_encrypt encrypt_rounds forward
encrypt_lem block key h = rw (take_16 16 block h.sized) refl

pub encrypt-IsBlock :
    (block key : List ℕ) → IsBlock block → IsBytes key → IsBlock (aes_encrypt block key)
encrypt-IsBlock block key h k =
    rw (encrypt_lem block key h)
      (xor-IsBlock _ _ (shift-IsBlock _ (forward-IsBlock 9 key block h k)) (IsBytes-drop 160 key k))

decrypt_rounds-IsBlock :
    (round : ℕ) (key out : List ℕ)
    → IsBlock out
    → IsBytes key
    → IsBlock (decrypt_rounds round key out)
unfolding decrypt_rounds
decrypt_rounds-IsBlock zero key out h k = h
decrypt_rounds-IsBlock (suc zero) key out h k = xor-IsBlock out key h k
decrypt_rounds-IsBlock (suc (suc r)) key out h k = rw (suc-not_zero r) (
    decrypt_rounds-IsBlock (suc r) key _
      (inv_mix-IsBlock _ (xor-IsBlock out _ h (IsBytes-drop (suc r * 16) key k))) k)

pub decrypt-IsBlock :
    (block key : List ℕ) → IsBlock block → IsBytes key → IsBlock (aes_decrypt block key)
unfolding aes_decrypt
decrypt-IsBlock block key h k = rw (take_16 16 block h.sized) (
    decrypt_rounds-IsBlock 10 key _
      (shift_back-IsBlock _ (xor-IsBlock block _ h (IsBytes-drop 160 key k))) k)

pub aes_decrypt-aes_encrypt :
    (block key : List ℕ)
    → IsBlock block
    → IsBytes key
    → aes_decrypt (aes_encrypt block key) key ≡ block
unfolding aes_decrypt
aes_decrypt-aes_encrypt block key h k =
    let last = forward-IsBlock 9 key block h k in
    let shifted = shift-IsBlock (forward 9 key block) last in
    rw
      (
        take_16 16 (aes_encrypt block key) (encrypt-IsBlock block key h k).sized,
        encrypt_lem block key h,
        xor_twice _ (drop 160 key) shifted.bytes (IsBytes-drop 160 key k),
        shift-shift (forward 9 key block) last,
      )
      (backward 9 key block h k)
