-- ===== src/Ripemd160/Tests.antt =====
-- Runs of ripemd160.c.
use hardware_bitcoin_wallet.Base.{List, [], ◌∷◌, ℕ, ◌≡◌, refl, arith, take}
use hardware_bitcoin_wallet.Hash.{hash_write_bytes, hash_finish, hash_write_byte, swap_words}
use hardware_bitcoin_wallet.Endian.{write_u32_little_endian, swap_endian, read_u32_little_endian}
use hardware_bitcoin_wallet.Sha256.{sha256_begin}
use hardware_bitcoin_wallet.Ripemd160.Spec.{authors_ripemd160}
use hardware_bitcoin_wallet.Ripemd160.Refine.{ripemd160_finish-eq-authors_ripemd160}
use hardware_bitcoin_wallet.Ripemd160.{
  ripemd160_block, ripemd160_begin, ripemd160_write_bytes, ripemd160_finish,
}

abbrev abc : List ℕ
abc = b'a' ∷ b'b' ∷ b'c' ∷ []

-- The digest of "abc", from Appendix B of the paper, after a state that SHA-256 has used.
abc_digest :
    take 5 (ripemd160_finish (ripemd160_write_bytes (ripemd160_begin sha256_begin) abc)).h
    ≡ 0x8eb208f7 ∷ 0xe05d987a ∷ 0x9b044a8e ∷ 0x98c6b087 ∷ 0xf15a0bfc ∷ []
unfolding ripemd160_finish ripemd160_write_bytes ripemd160_begin ripemd160_block hash_write_bytes
    hash_finish hash_write_byte write_u32_little_endian sha256_begin swap_words swap_endian
    read_u32_little_endian
abc_digest = refl

ripemd160_finish-eq-authors_ripemd160_example :
    take 5 (ripemd160_finish (ripemd160_write_bytes (ripemd160_begin sha256_begin) abc)).h
    ≡ swap_words (authors_ripemd160 abc)
ripemd160_finish-eq-authors_ripemd160_example =
    ripemd160_finish-eq-authors_ripemd160 sha256_begin abc (omega arith) (omega arith)
