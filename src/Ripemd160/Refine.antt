-- ===== src/Ripemd160/Refine.antt =====
-- ripemd160.c computes RIPEMD-160 as its authors describe it.
use hardware_bitcoin_wallet.Base.{
  ℕ, zero, suc, ◌+◌, ◌-◌, ◌*◌, ◌/◌, ◌%◌, ◌^◌, ◌<◌, ◌≡◌, refl, ◌∙◌, ap, ap₂, u32, arith, List, [],
  ◌∷◌, ◌++◌, length, take, drop, get_or, replicate, false, IsBytes,
}
use hardware_bitcoin_wallet.Endian.{write_u32_little_endian}
use hardware_bitcoin_wallet.Hash.{HashState, swap_words}
use hardware_bitcoin_wallet.Hash.Spec.{word, words, hash_blocks, padding}
use hardware_bitcoin_wallet.Ripemd160.Laws.{ripemd160_finish-eq-ripemd160}
use hardware_bitcoin_wallet.Ripemd160.{
  r1, r2, s1, s2, rol, f0, f1, f2, f3, f4, Line, main_round, parallel_round, rotate_line,
  ripemd160_round, ripemd160_rounds, ripemd160_block, ripemd160_iv, ripemd160_begin,
  ripemd160_write_bytes, ripemd160_finish,
}
use hardware_bitcoin_wallet.Ripemd160.Spec.{
  left_order, right_order, left_amounts, right_amounts, group_function, left_constant,
  right_constant, Five, turn, left_turn, right_turn, turns, combine, compress, little_endian,
  padded, little_endian_words, blocks, authors_ripemd160,
}

tables-eq : (r1 ≡ left_order) × ((r2 ≡ right_order) × ((s1 ≡ left_amounts) × (s2 ≡ right_amounts)))
tables-eq = (refl, (refl, (refl, refl)))

main_round-eq :
    (group : ℕ) (s : Line)
    → main_round group s ≡ (group_function group s.b s.c s.d, left_constant group)
unfolding main_round group_function left_constant f0 f1 f2 f3 f4
main_round-eq zero s = refl
main_round-eq (suc zero) s = refl
main_round-eq (suc (suc zero)) s = refl
main_round-eq (suc (suc (suc zero))) s = refl
main_round-eq (suc (suc (suc (suc group)))) s = refl

parallel_round-eq :
    (group : ℕ) (s : Line)
    → parallel_round group s ≡ (group_function (4 - group) s.b s.c s.d, right_constant group)
unfolding parallel_round group_function right_constant f0 f1 f2 f3 f4
parallel_round-eq zero s = refl
parallel_round-eq (suc zero) s = refl
parallel_round-eq (suc (suc zero)) s = refl
parallel_round-eq (suc (suc (suc zero))) s = refl
parallel_round-eq (suc (suc (suc (suc group)))) s =
    let none : 4 - suc (suc (suc (suc group))) ≡ 0 = omega arith in rw none refl

as_five : Line → Five
as_five s = record { a = s.a; b = s.b; c = s.c; d = s.d; e = s.e }

rotate_line-eq :
    (value constant word amount : ℕ) (s : Line)
    → as_five (rotate_line value constant word amount s)
      ≡ turn value constant word amount (as_five s)
unfolding as_five rotate_line turn rol
rotate_line-eq value constant word amount s = refl

left_round-eq :
    (m : List ℕ) (j : ℕ) (s t : Line)
    → as_five (ripemd160_round m j (s, t)).0 ≡ left_turn m j (as_five s)
unfolding ripemd160_round left_turn as_five
left_round-eq m j s t =
    let v = as_five s in
    let value = main_round (j / 16) s in
    rotate_line-eq value.0 value.1 (get_or m (get_or r1 j 0) 0) (get_or s1 j 0) s
    ∙ ap (λ r. turn r.0 r.1 (get_or m (get_or r1 j 0) 0) (get_or s1 j 0) v)
        (main_round-eq (j / 16) s)
    ∙ ap₂
        (λ order amounts.
          turn (group_function (j / 16) v.b v.c v.d) (left_constant (j / 16))
            (get_or m (get_or order j 0) 0) (get_or amounts j 0) v)
        tables-eq.0 tables-eq.1.1.0

right_round-eq :
    (m : List ℕ) (j : ℕ) (s t : Line)
    → as_five (ripemd160_round m j (s, t)).1 ≡ right_turn m j (as_five t)
unfolding ripemd160_round right_turn as_five
right_round-eq m j s t =
    let v = as_five t in
    let value = parallel_round (j / 16) t in
    rotate_line-eq value.0 value.1 (get_or m (get_or r2 j 0) 0) (get_or s2 j 0) t
    ∙ ap (λ r. turn r.0 r.1 (get_or m (get_or r2 j 0) 0) (get_or s2 j 0) v)
        (parallel_round-eq (j / 16) t)
    ∙ ap₂
        (λ order amounts.
          turn (group_function (4 - j / 16) v.b v.c v.d) (right_constant (j / 16))
            (get_or m (get_or order j 0) 0) (get_or amounts j 0) v)
        tables-eq.1.0 tables-eq.1.1.1

rounds-eq :
    (n j : ℕ) (m : List ℕ) (lines : Line × Line)
    → (as_five (ripemd160_rounds n j m lines).0 ≡ turns (left_turn m) n j (as_five lines.0))
      × (as_five (ripemd160_rounds n j m lines).1 ≡ turns (right_turn m) n j (as_five lines.1))
unfolding ripemd160_rounds turns
rounds-eq zero j m lines = (refl, refl)
rounds-eq (suc n) j m lines =
    let rest = rounds-eq n (j + 1) m (ripemd160_round m j lines) in
    (
      rest.0 ∙ ap (turns (left_turn m) n (j + 1)) (left_round-eq m j lines.0 lines.1),
      rest.1 ∙ ap (turns (right_turn m) n (j + 1)) (right_round-eq m j lines.0 lines.1),
    )

start : List ℕ → Line
start h = record {
  a = get_or h 0 0;
  b = get_or h 1 0;
  c = get_or h 2 0;
  d = get_or h 3 0;
  e = get_or h 4 0;
}

block-combine :
    (a b c d e : ℕ) (m : List ℕ)
    → let h = a ∷ b ∷ c ∷ d ∷ e ∷ [] in
      let lines = ripemd160_rounds 80 0 m (start h, start h) in
      ripemd160_block h m ≡ combine h (as_five lines.0) (as_five lines.1)
unfolding ripemd160_block combine as_five start
block-combine a b c d e m = refl

block-eq-compress :
    (a b c d e : ℕ) (m : List ℕ)
    → ripemd160_block (a ∷ b ∷ c ∷ d ∷ e ∷ []) m ≡ compress (a ∷ b ∷ c ∷ d ∷ e ∷ []) m
unfolding compress start as_five
block-eq-compress a b c d e m =
    let h = a ∷ b ∷ c ∷ d ∷ e ∷ [] in
    let lines = rounds-eq 80 0 m (start h, start h) in
    block-combine a b c d e m ∙ ap₂ (combine h) lines.0 lines.1

words-eq : (bytes : List ℕ) → words false bytes ≡ little_endian_words bytes
words-eq [] = refl
words-eq (a ∷ []) = refl
words-eq (a ∷ b ∷ []) = refl
words-eq (a ∷ b ∷ c ∷ []) = refl
words-eq (a ∷ b ∷ c ∷ d ∷ rest) = ap (◌∷◌ (word false a b c d)) (words-eq rest)

blocks-eq :
    (count a b c d e : ℕ) (bytes : List ℕ)
    → hash_blocks ripemd160_block false count (a ∷ b ∷ c ∷ d ∷ e ∷ []) bytes
      ≡ blocks count (a ∷ b ∷ c ∷ d ∷ e ∷ []) bytes
unfolding hash_blocks blocks compress combine
blocks-eq zero a b c d e bytes = refl
blocks-eq (suc count) a b c d e bytes =
    let h = a ∷ b ∷ c ∷ d ∷ e ∷ [] in
    let first : ripemd160_block h (words false (take 64 bytes))
        ≡ compress h (little_endian_words (take 64 bytes)) =
      block-eq-compress a b c d e (words false (take 64 bytes))
      ∙ ap (compress h) (words-eq (take 64 bytes)) in
    ap (λ g. hash_blocks ripemd160_block false count g (drop 64 bytes)) first
    ∙ blocks-eq count _ _ _ _ _ (drop 64 bytes)

-- The length field, of 64 bits: the code fills its low half.
length_field-eq :
    (size : ℕ)
    → size < 2 ^ 29
    → write_u32_little_endian (u32 (u32 size * 8)) ++ replicate 4 0 ≡ little_endian 8 (8 * size)
unfolding write_u32_little_endian
length_field-eq size small = ap₂ (◌∷◌) (omega arith) (
    ap₂ (◌∷◌) (omega arith) (
      ap₂ (◌∷◌) (omega arith) (
        ap₂ (◌∷◌) (omega arith) (
          ap₂ (◌∷◌) (omega arith)
            (ap₂ (◌∷◌) (omega arith) (ap₂ (◌∷◌) (omega arith) (ap₂ (◌∷◌) (omega arith) refl)))))))

padded-eq :
    (message : List ℕ)
    → length message < 2 ^ 29
    → message ++ padding false (length message) ≡ padded message
padded-eq message small =
    ap (λ field. message ++ (0x80 ∷ (replicate ((55 + 64 - length message % 64) % 64) 0 ++ field)))
      (length_field-eq (length message) small)

-- For a message of less than 2 ^ 29 bytes, whose length in bits fits in the 32 bits that the code
-- counts with: beginning from any state, writing its bytes and finishing leaves in the first five
-- words of `h` its RIPEMD-160 hash as the authors describe it, with the bytes of each word swapped.
pub ripemd160_finish-eq-authors_ripemd160 :
    (before : HashState) (message : List ℕ)
    → IsBytes message
    → length message < 2 ^ 29
    → take 5 (ripemd160_finish (ripemd160_write_bytes (ripemd160_begin before) message)).h
      ≡ swap_words (authors_ripemd160 message)
ripemd160_finish-eq-authors_ripemd160 before message p small =
    ripemd160_finish-eq-ripemd160 before message p
    ∙ ap
        (λ bytes.
          swap_words (hash_blocks ripemd160_block false (length bytes / 64) ripemd160_iv bytes))
        (padded-eq message small)
    ∙ ap swap_words (blocks-eq (length (padded message) / 64) _ _ _ _ _ (padded message))
