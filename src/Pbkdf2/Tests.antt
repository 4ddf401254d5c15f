-- ===== src/Pbkdf2/Tests.antt =====
-- A run of pbkdf2.c.
use hardware_bitcoin_wallet.Base.{[], ◌∷◌, ◌≡◌, refl, some}
use hardware_bitcoin_wallet.Endian.{write_u32_big_endian}
use hardware_bitcoin_wallet.HmacSha512.{
  hmac_sha512, sha512_begin, sha512_write_bytes, sha512_finish, sha512_write_byte, sha512_block,
}
use hardware_bitcoin_wallet.Pbkdf2.{pbkdf2}

-- Two iterations for the password "pw" and the salt "salt".
two_iterations :
    pbkdf2 2 (b'p' ∷ b'w' ∷ []) (b's' ∷ b'a' ∷ b'l' ∷ b't' ∷ [])
    ≡ some (
        0x88 ∷ 0x16 ∷ 0xcc ∷ 0x3a ∷ 0xaf ∷ 0x71 ∷ 0x37 ∷ 0x36 ∷ 0x39 ∷ 0xc3 ∷ 0x41 ∷ 0x50 ∷ 0x49
        ∷ 0xb2 ∷ 0xb6 ∷ 0x57 ∷ 0x2f ∷ 0x8d ∷ 0x2b ∷ 0xad ∷ 0x8d ∷ 0x76 ∷ 0x41 ∷ 0xff ∷ 0x64 ∷ 0x02
        ∷ 0x93 ∷ 0x9d ∷ 0xf5 ∷ 0x0d ∷ 0xb4 ∷ 0x7a ∷ 0xef ∷ 0xea ∷ 0x61 ∷ 0xbf ∷ 0x81 ∷ 0xb3 ∷ 0x4a
        ∷ 0xfa ∷ 0x69 ∷ 0x6c ∷ 0xcc ∷ 0x5d ∷ 0x3f ∷ 0xe6 ∷ 0xe5 ∷ 0x5f ∷ 0x98 ∷ 0x82 ∷ 0x75 ∷ 0x22
        ∷ 0xa4 ∷ 0x07 ∷ 0xdc ∷ 0x5a ∷ 0xcb ∷ 0xca ∷ 0xa0 ∷ 0xa6 ∷ 0x02 ∷ 0x36 ∷ 0x49 ∷ 0xa6 ∷ [])
unfolding pbkdf2 hmac_sha512 sha512_begin sha512_write_bytes sha512_finish sha512_write_byte
    sha512_block write_u32_big_endian
two_iterations = refl
