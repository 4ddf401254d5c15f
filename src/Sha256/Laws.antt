-- ===== src/Sha256/Laws.antt =====
-- sha256.c: the hash of a message written byte by byte is the block function of the code, folded over
-- the padded message, and the double hash is the hash of the hash.
use hardware_bitcoin_wallet.Base.{
  ℕ, ◌/◌, ◌≡◌, refl, ◌∙◌, ap, arith, List, [], ◌∷◌, ◌++◌, length, take, true, IsBytes,
}
use hardware_bitcoin_wallet.Endian.{write_u32_big_endian}
use hardware_bitcoin_wallet.Hash.{write_hash_to_byte_array, big_endian_bytes}
use hardware_bitcoin_wallet.Hash.Spec.{hash_blocks, padding}
use hardware_bitcoin_wallet.Hash.Stream.{Holds}
use hardware_bitcoin_wallet.Hash.Finish.{write_bytes-Holds, hash_finish-eq}
use hardware_bitcoin_wallet.Sha256.{
  sha256_block, sha256_iv, sha256_begin, sha256_write_bytes, sha256_finish, sha256_finish_double,
}

-- The block function of the code on a whole message: the blocks of the padded message, one after
-- another.
abbrev pub sha256 : List ℕ → List ℕ
sha256 message =
    let padded = message ++ padding true (length message) in
    hash_blocks sha256_block true (length padded / 64) sha256_iv padded

pub begin-Holds : Holds sha256_block true 64 sha256_iv [] sha256_begin
unfolding sha256_begin hash_blocks
begin-Holds = record {
  blocks = 0;
  done = [];
  pending = [];
  split = refl;
  done_size = refl;
  room = omega arith;
  bytes = tt;
  order = refl;
  hash = refl;
  buffer = refl;
  index = refl;
  position = refl;
  counted = refl;
}

-- Beginning, writing the bytes of any message and finishing leaves this fold in `h`: the streaming
-- through the 64-byte buffer does not show.
pub sha256_finish-eq-sha256 :
    (message : List ℕ)
    → IsBytes message
    → (sha256_finish (sha256_write_bytes sha256_begin message)).h ≡ sha256 message
unfolding sha256_finish sha256_write_bytes
sha256_finish-eq-sha256 message p =
    let written =
      write_bytes-Holds sha256_block true sha256_iv message [] sha256_begin p begin-Holds in
    let done = hash_finish-eq sha256_block true sha256_iv message _ written in
    let count : done.0 ≡ length (message ++ padding true (length message)) / 64 =
      omega (arith, done.1) in
    done.2
    ∙ ap (λ n. hash_blocks sha256_block true n sha256_iv (message ++ padding true (length message)))
        count

pub big_endian_bytes-IsBytes : (h : List ℕ) → IsBytes (big_endian_bytes h)
unfolding big_endian_bytes write_u32_big_endian
big_endian_bytes-IsBytes [] = tt
big_endian_bytes-IsBytes (x ∷ xs) =
    (omega arith, (omega arith, (omega arith, (omega arith, big_endian_bytes-IsBytes xs))))

-- `sha256FinishDouble` hashes the big-endian bytes of the first hash once more.
pub sha256_finish_double-eq :
    (message : List ℕ)
    → IsBytes message
    → (sha256_finish_double (sha256_write_bytes sha256_begin message)).h
      ≡ sha256 (big_endian_bytes (take 8 (sha256 message)))
unfolding sha256_finish_double write_hash_to_byte_array
sha256_finish_double-eq message p =
    let digest : List ℕ =
      big_endian_bytes (take 8 (sha256_finish (sha256_write_bytes sha256_begin message)).h) in
    sha256_finish-eq-sha256 digest (big_endian_bytes-IsBytes (take 8 _))
    ∙ ap (λ h. sha256 (big_endian_bytes (take 8 h))) (sha256_finish-eq-sha256 message p)
