-- ===== src/Sha256/Refine.antt =====
-- sha256.c computes SHA-256 as FIPS 180 describes it.
use hardware_bitcoin_wallet.Base.{
  ℕ, zero, suc, ◌+◌, ◌-◌, ◌*◌, ◌/◌, ◌%◌, ◌^◌, ◌<◌, ◌≡◌, refl, sym, ◌∙◌, ap, ap₂, u32, arith, List,
  [], ◌∷◌, ◌++◌, length, take, drop, get_or, replicate, true, IsBytes, length-append, length-take,
  length-drop,
}
use hardware_bitcoin_wallet.Endian.{write_u32_big_endian}
use hardware_bitcoin_wallet.Hash.Finish.{write_bytes-Holds, hash_finish-eq}
use hardware_bitcoin_wallet.Sha256.Laws.{begin-Holds}
use hardware_bitcoin_wallet.Hash.Spec.{word, words, hash_blocks, padding}
use hardware_bitcoin_wallet.Sha256.{
  k_table, sha256_iv, rotate_right, ch, maj, big_sigma0, big_sigma1, little_sigma0, little_sigma1,
  extend_w, Working, sha256_round, sha256_rounds, sha256_block, sha256_begin, sha256_write_bytes,
  sha256_finish,
}
use hardware_bitcoin_wallet.Sha256.Spec.{
  fips_k, fips_h0, schedule, Variables, fips_round, fips_rounds, compress, fips_padded, fips_blocks,
  fips_sha256, big_endian, big_endian_words,
}

k_table-eq : k_table ≡ fips_k
k_table-eq = refl

iv-eq : sha256_iv ≡ fips_h0
iv-eq = refl

extend_next :
    (n : ℕ) (w : List ℕ) (x : ℕ)
    → ((v : List ℕ) → extend_w n (length v) v ≡ schedule n v)
    → extend_w n (length w + 1) (w ++ x ∷ []) ≡ schedule n (w ++ x ∷ [])
extend_next n w x rest =
    let longer : length w + 1 ≡ length (w ++ x ∷ []) = omega (arith, length-append w (x ∷ [])) in
    ap (λ t. extend_w n t (w ++ x ∷ [])) longer ∙ rest (w ++ x ∷ [])

extend_w-eq : (n : ℕ) (w : List ℕ) → extend_w n (length w) w ≡ schedule n w
unfolding extend_w schedule little_sigma0 little_sigma1 rotate_right
extend_w-eq zero w = refl
extend_w-eq (suc n) w = extend_next n w _ (extend_w-eq n)

as_variables : Working → Variables
as_variables s = record { a = s.a; b = s.b; c = s.c; d = s.d; e = s.e; f = s.f; g = s.g; h = s.h }

round-eq :
    (k w : ℕ) (s : Working) → as_variables (sha256_round k w s) ≡ fips_round k w (as_variables s)
unfolding as_variables sha256_round fips_round big_sigma0 big_sigma1 ch maj rotate_right
round-eq k w s = refl

rounds-eq :
    (ks ws : List ℕ) (s : Working)
    → as_variables (sha256_rounds ks ws s) ≡ fips_rounds ks ws (as_variables s)
unfolding sha256_rounds fips_rounds
rounds-eq [] ws s = refl
rounds-eq (k ∷ ks) [] s = refl
rounds-eq (k ∷ ks) (w ∷ ws) s =
    rounds-eq ks ws (sha256_round k w s) ∙ ap (fips_rounds ks ws) (round-eq k w s)

-- The new hash value, from the variables after the rounds.
added : List ℕ → Variables → List ℕ
added h v =
    let add : ℕ → ℕ → ℕ = λ i x. (get_or h i 0 + x) % 2 ^ 32 in
    add 0 v.a
    ∷ add 1 v.b
    ∷ add 2 v.c
    ∷ add 3 v.d
    ∷ add 4 v.e
    ∷ add 5 v.f
    ∷ add 6 v.g
    ∷ add 7 v.h
    ∷ []

start : List ℕ → Working
start h = record {
  a = get_or h 0 0;
  b = get_or h 1 0;
  c = get_or h 2 0;
  d = get_or h 3 0;
  e = get_or h 4 0;
  f = get_or h 5 0;
  g = get_or h 6 0;
  h = get_or h 7 0;
}

block-added :
    (h m : List ℕ)
    → sha256_block h m ≡ added h (as_variables (sha256_rounds k_table (extend_w 48 16 m) (start h)))
unfolding sha256_block added as_variables start
block-added h m = refl

compress-added :
    (h m : List ℕ)
    → compress h m ≡ added h (fips_rounds fips_k (schedule 48 m) (as_variables (start h)))
unfolding compress added as_variables start
compress-added h m = refl

block-eq-compress : (h m : List ℕ) → length m ≡ 16 → sha256_block h m ≡ compress h m
block-eq-compress h m sized =
    let expanded : extend_w 48 16 m ≡ schedule 48 m =
      ap (λ t. extend_w 48 t m) (sym sized) ∙ extend_w-eq 48 m in
    block-added h m
    ∙ ap (added h) (rounds-eq k_table (extend_w 48 16 m) (start h))
    ∙ ap₂ (λ ks ws. added h (fips_rounds ks ws (as_variables (start h)))) k_table-eq expanded
    ∙ sym (compress-added h m)

words-eq : (bytes : List ℕ) → words true bytes ≡ big_endian_words bytes
words-eq [] = refl
words-eq (a ∷ []) = refl
words-eq (a ∷ b ∷ []) = refl
words-eq (a ∷ b ∷ c ∷ []) = refl
words-eq (a ∷ b ∷ c ∷ d ∷ rest) = ap (◌∷◌ (word true a b c d)) (words-eq rest)

length-words : (n : ℕ) (bytes : List ℕ) → length bytes ≡ 4 * n → length (words true bytes) ≡ n
length-words zero [] e = refl
length-words (suc n) [] e = absurd (omega (arith, e))
length-words n (a ∷ []) e = absurd (omega (arith, e))
length-words n (a ∷ b ∷ []) e = absurd (omega (arith, e))
length-words n (a ∷ b ∷ c ∷ []) e = absurd (omega (arith, e))
length-words zero (a ∷ b ∷ c ∷ d ∷ rest) e = absurd (omega (arith, e))
length-words (suc n) (a ∷ b ∷ c ∷ d ∷ rest) e = ap suc (length-words n rest (omega (arith, e)))

blocks-eq :
    (count : ℕ) (h bytes : List ℕ)
    → length bytes ≡ count * 64
    → hash_blocks sha256_block true count h bytes ≡ fips_blocks count h bytes
unfolding hash_blocks fips_blocks
blocks-eq zero h bytes e = refl
blocks-eq (suc count) h bytes e =
    let sixteen : length (words true (take 64 bytes)) ≡ 16 =
      length-words 16 (take 64 bytes) (omega (arith, length-take 64 bytes, e)) in
    let first : sha256_block h (words true (take 64 bytes))
        ≡ compress h (big_endian_words (take 64 bytes)) =
      block-eq-compress h (words true (take 64 bytes)) sixteen
      ∙ ap (compress h) (words-eq (take 64 bytes)) in
    ap (λ g. hash_blocks sha256_block true count g (drop 64 bytes)) first
    ∙ blocks-eq count _ (drop 64 bytes) (omega (arith, length-drop 64 bytes, e))

-- The length field, of 64 bits: the code fills its low half.
length_field-eq :
    (size : ℕ)
    → size < 2 ^ 29
    → replicate 4 0 ++ write_u32_big_endian (u32 (u32 size * 8)) ≡ big_endian 8 (8 * size)
unfolding write_u32_big_endian
length_field-eq size small = ap₂ (◌∷◌) (omega arith) (
    ap₂ (◌∷◌) (omega arith) (
      ap₂ (◌∷◌) (omega arith) (
        ap₂ (◌∷◌) (omega arith) (
          ap₂ (◌∷◌) (omega arith)
            (ap₂ (◌∷◌) (omega arith) (ap₂ (◌∷◌) (omega arith) (ap₂ (◌∷◌) (omega arith) refl)))))))

padded-eq :
    (message : List ℕ)
    → length message < 2 ^ 29
    → message ++ padding true (length message) ≡ fips_padded message
padded-eq message small =
    ap (λ field. message ++ (0x80 ∷ (replicate ((55 + 64 - length message % 64) % 64) 0 ++ field)))
      (length_field-eq (length message) small)

-- For a message of less than 2 ^ 29 bytes, whose length in bits fits in the 32 bits that the code
-- counts with: beginning, writing its bytes and finishing leaves in `h` its SHA-256 hash as FIPS 180
-- describes it, with the constants from the roots of primes.
pub sha256_finish-eq-fips_sha256 :
    (message : List ℕ)
    → IsBytes message
    → length message < 2 ^ 29
    → (sha256_finish (sha256_write_bytes sha256_begin message)).h ≡ fips_sha256 message
unfolding sha256_finish sha256_write_bytes
sha256_finish-eq-fips_sha256 message p small =
    let written =
      write_bytes-Holds sha256_block true sha256_iv message [] sha256_begin p begin-Holds in
    let done = hash_finish-eq sha256_block true sha256_iv message _ written in
    let padded = padded-eq message small in
    let sized : length (fips_padded message) ≡ done.0 * 64 = ap length (sym padded) ∙ done.1 in
    let count : done.0 ≡ length (fips_padded message) / 64 = omega (arith, sized) in
    done.2
    ∙ ap₂ (λ h bytes. hash_blocks sha256_block true done.0 h bytes) iv-eq padded
    ∙ blocks-eq done.0 fips_h0 (fips_padded message) sized
    ∙ ap (λ n. fips_blocks n fips_h0 (fips_padded message)) count
