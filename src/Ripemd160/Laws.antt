-- ===== src/Ripemd160/Laws.antt =====
-- ripemd160.c: the hash of a message written byte by byte is the block function of the code, folded
-- over the padded message, whatever the state held before.
use hardware_bitcoin_wallet.Base.{
  ℕ, zero, suc, ◌/◌, ◌≡◌, refl, ◌∙◌, ap, arith, List, [], ◌∷◌, ◌++◌, length, take, drop, false,
  IsBytes,
}
use hardware_bitcoin_wallet.Hash.{HashState, swap_words}
use hardware_bitcoin_wallet.Hash.Spec.{hash_blocks, padding}
use hardware_bitcoin_wallet.Hash.Stream.{Holds}
use hardware_bitcoin_wallet.Hash.Finish.{write_bytes-Holds, hash_finish-eq}
use hardware_bitcoin_wallet.Ripemd160.{
  ripemd160_block, ripemd160_iv, ripemd160_begin, ripemd160_write_bytes, ripemd160_finish,
}

-- The block function of the code on a whole message: the blocks of the padded message, one after
-- another, and at the end the words in the other byte order.
abbrev pub ripemd160 : List ℕ → List ℕ
ripemd160 message =
    let padded = message ++ padding false (length message) in
    swap_words (hash_blocks ripemd160_block false (length padded / 64) ripemd160_iv padded)

-- The block function works on five words, and leaves those behind them as they are.
block-append :
    (a b c d e : ℕ) (rest m : List ℕ)
    → ripemd160_block ((a ∷ b ∷ c ∷ d ∷ e ∷ []) ++ rest) m
      ≡ ripemd160_block (a ∷ b ∷ c ∷ d ∷ e ∷ []) m ++ rest
unfolding ripemd160_block
block-append a b c d e rest m = refl

hash_blocks-append :
    (count a b c d e : ℕ) (rest message : List ℕ)
    → take 5 (
        swap_words
          (hash_blocks ripemd160_block false count ((a ∷ b ∷ c ∷ d ∷ e ∷ []) ++ rest) message))
      ≡ swap_words (hash_blocks ripemd160_block false count (a ∷ b ∷ c ∷ d ∷ e ∷ []) message)
unfolding hash_blocks ripemd160_block swap_words
hash_blocks-append zero a b c d e rest message = refl
hash_blocks-append (suc count) a b c d e rest message =
    hash_blocks-append count _ _ _ _ _ rest (drop 64 message)

hash_blocks-length :
    (count a b c d e : ℕ) (message : List ℕ)
    → length (swap_words (hash_blocks ripemd160_block false count (a ∷ b ∷ c ∷ d ∷ e ∷ []) message))
      ≡ 5
unfolding hash_blocks ripemd160_block swap_words
hash_blocks-length zero a b c d e message = refl
hash_blocks-length (suc count) a b c d e message =
    hash_blocks-length count _ _ _ _ _ (drop 64 message)

pub ripemd160-length : (message : List ℕ) → length (ripemd160 message) ≡ 5
ripemd160-length message = hash_blocks-length _ _ _ _ _ _ _

pub begin-Holds :
    (before : HashState)
    → Holds ripemd160_block false 64 (ripemd160_iv ++ drop 5 before.h) [] (ripemd160_begin before)
unfolding ripemd160_begin hash_blocks
begin-Holds before = record {
  blocks = 0;
  done = [];
  pending = [];
  split = refl;
  done_size = refl;
  room = omega arith;
  bytes = tt;
  order = refl;
  hash = refl;
  buffer = refl;
  index = refl;
  position = refl;
  counted = refl;
}

-- Beginning from any state, writing the bytes of any message and finishing leaves this fold in the
-- first five words of `h`.
pub ripemd160_finish-eq-ripemd160 :
    (before : HashState) (message : List ℕ)
    → IsBytes message
    → take 5 (ripemd160_finish (ripemd160_write_bytes (ripemd160_begin before) message)).h
      ≡ ripemd160 message
unfolding ripemd160_finish ripemd160_write_bytes
ripemd160_finish-eq-ripemd160 before message p =
    let iv : List ℕ = ripemd160_iv ++ drop 5 before.h in
    let written =
      write_bytes-Holds ripemd160_block false iv message [] (ripemd160_begin before) p
        (begin-Holds before) in
    let done = hash_finish-eq ripemd160_block false iv message _ written in
    let padded : List ℕ = message ++ padding false (length message) in
    let count : done.0 ≡ length padded / 64 = omega (arith, done.1) in
    ap (take 5) done.2
    ∙ hash_blocks-append done.0 _ _ _ _ _ (drop 5 before.h) padded
    ∙ ap (λ n. swap_words (hash_blocks ripemd160_block false n ripemd160_iv padded)) count
