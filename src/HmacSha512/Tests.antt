-- ===== src/HmacSha512/Tests.antt =====
-- Runs of hmac_sha512.c.
use hardware_bitcoin_wallet.Base.{[], ◌∷◌, ◌≡◌, refl}
use hardware_bitcoin_wallet.Endian.{write_u32_big_endian}
use hardware_bitcoin_wallet.HmacSha512.{
  hmac_sha512, sha512_begin, sha512_write_bytes, sha512_finish, sha512_write_byte, sha512_block,
}

-- The HMAC of "abc" under the key "key".
abc_hmac :
    hmac_sha512 (b'k' ∷ b'e' ∷ b'y' ∷ []) (b'a' ∷ b'b' ∷ b'c' ∷ [])
    ≡ 0x39 ∷ 0x26 ∷ 0xa2 ∷ 0x07 ∷ 0xc8 ∷ 0xc4 ∷ 0x2b ∷ 0x0c ∷ 0x41 ∷ 0x79 ∷ 0x2c ∷ 0xbd ∷ 0x3e
      ∷ 0x1a ∷ 0x1a ∷ 0xaa ∷ 0xf5 ∷ 0xf7 ∷ 0xa2 ∷ 0x57 ∷ 0x04 ∷ 0xf6 ∷ 0x2d ∷ 0xfc ∷ 0x93 ∷ 0x9c
      ∷ 0x49 ∷ 0x87 ∷ 0xdd ∷ 0x7c ∷ 0xe0 ∷ 0x60 ∷ 0x00 ∷ 0x9c ∷ 0x5b ∷ 0xb1 ∷ 0xc2 ∷ 0x44 ∷ 0x73
      ∷ 0x55 ∷ 0xb3 ∷ 0x21 ∷ 0x6f ∷ 0x10 ∷ 0xb5 ∷ 0x37 ∷ 0xe9 ∷ 0xaf ∷ 0xa7 ∷ 0xb6 ∷ 0x4a ∷ 0x4e
      ∷ 0x53 ∷ 0x91 ∷ 0xb0 ∷ 0xd6 ∷ 0x31 ∷ 0x17 ∷ 0x2d ∷ 0x07 ∷ 0x93 ∷ 0x9e ∷ 0x08 ∷ 0x7a ∷ []
unfolding hmac_sha512 sha512_begin sha512_write_bytes sha512_finish sha512_write_byte sha512_block
    write_u32_big_endian
abc_hmac = refl
