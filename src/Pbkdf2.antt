-- ===== src/Pbkdf2.antt =====
-- pbkdf2.c: a key from a password and a salt, by repeated HMAC-SHA512.
mod Tests
use hardware_bitcoin_wallet.Base.{
  ℕ, zero, suc, ◌-◌, bit_xor, List, [], ◌∷◌, ◌++◌, replicate, length, Option, some, none, ltb,
  if◌then◌else◌,
}
use hardware_bitcoin_wallet.Endian.{write_u32_big_endian}
use hardware_bitcoin_wallet.HmacSha512.{hmac_sha512}

-- The inner loop: `out[j] ^= u[j]`.
unfoldable pub xor_into : List ℕ → List ℕ → List ℕ
xor_into (a ∷ out) (b ∷ u) = bit_xor a b ∷ xor_into out u
xor_into out _ = out

-- The outer loop; `u` is the message, of `u_length` bytes, that the round hashes.
unfoldable pub pbkdf2_rounds : ℕ → List ℕ → List ℕ → List ℕ → List ℕ
unfolding xor_into
pbkdf2_rounds zero password u out = out
pbkdf2_rounds (suc rounds) password u out =
    let hmac_result = hmac_sha512 password u in
    pbkdf2_rounds rounds password hmac_result (xor_into out hmac_result)

-- A salt that is too long ends in `fatalError`, which does not return. The number of iterations is
-- what the device answers to `getPBKDF2Iterations`.
unfoldable pub pbkdf2 : ℕ → List ℕ → List ℕ → Option (List ℕ)
unfolding pbkdf2_rounds
pbkdf2 num_iterations password salt =
    if ltb (64 - 4) (length salt)
    then none
    else some
        (pbkdf2_rounds num_iterations password (salt ++ write_u32_big_endian 1) (replicate 64 0))
