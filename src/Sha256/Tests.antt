-- ===== src/Sha256/Tests.antt =====
-- Runs of sha256.c.
use hardware_bitcoin_wallet.Base.{List, [], ◌∷◌, ◌++◌, ℕ, ◌*◌, ◌≡◌, refl, arith, true, take, length}
use hardware_bitcoin_wallet.Hash.{hash_write_bytes, hash_finish, hash_write_byte, big_endian_bytes}
use hardware_bitcoin_wallet.Hash.Spec.{hash_blocks, padding}
use hardware_bitcoin_wallet.Hash.Stream.{Holds}
use hardware_bitcoin_wallet.Hash.Finish.{write_bytes-Holds, hash_finish-eq}
use hardware_bitcoin_wallet.Sha256.Laws.{sha256, begin-Holds, sha256_finish_double-eq}
use hardware_bitcoin_wallet.Sha256.Spec.{fips_sha256}
use hardware_bitcoin_wallet.Sha256.Refine.{sha256_finish-eq-fips_sha256}
use hardware_bitcoin_wallet.Endian.{write_u32_big_endian}
use hardware_bitcoin_wallet.Sha256.{
  sha256_block, sha256_iv, sha256_finish_double, sha256_begin, sha256_write_bytes, sha256_finish,
}

abbrev abc : List ℕ
abc = b'a' ∷ b'b' ∷ b'c' ∷ []

-- The digest of "abc", from FIPS 180.
abc_digest :
    (sha256_finish (sha256_write_bytes sha256_begin abc)).h
    ≡ 0xba7816bf ∷ 0x8f01cfea ∷ 0x414140de ∷ 0x5dae2223 ∷ 0xb00361a3 ∷ 0x96177a9c ∷ 0xb410ff61
      ∷ 0xf20015ad ∷ []
unfolding sha256_finish sha256_write_bytes sha256_begin sha256_block hash_write_bytes hash_finish
    hash_write_byte write_u32_big_endian
abc_digest = refl

sha256_finish-eq-fips_sha256_example :
    (sha256_finish (sha256_write_bytes sha256_begin abc)).h ≡ fips_sha256 abc
sha256_finish-eq-fips_sha256_example = sha256_finish-eq-fips_sha256 abc (omega arith) (omega arith)

sha256_finish_double-eq_example :
    (sha256_finish_double (sha256_write_bytes sha256_begin abc)).h
    ≡ sha256 (big_endian_bytes (take 8 (sha256 abc)))
sha256_finish_double-eq_example = sha256_finish_double-eq abc (omega arith)

abc_written :
    Holds sha256_block true 64 sha256_iv abc (hash_write_bytes sha256_block sha256_begin abc)
abc_written =
    write_bytes-Holds sha256_block true sha256_iv abc [] sha256_begin (omega arith) begin-Holds

hash_finish-eq_example :
    (count : ℕ) × (length (abc ++ padding true 3) ≡ count * 64)
    × ((hash_finish sha256_block (hash_write_bytes sha256_block sha256_begin abc)).h
        ≡ hash_blocks sha256_block true count sha256_iv (abc ++ padding true 3))
hash_finish-eq_example =
    hash_finish-eq sha256_block true sha256_iv abc (hash_write_bytes sha256_block sha256_begin abc)
      abc_written
