-- ===== src/Ripemd160/Spec.antt =====
-- RIPEMD-160 as its authors describe it, on a whole message and without reference to ripemd160.c: the
-- order of the words comes from two permutations, the amounts to rotate by belong to the words, the
-- constants come from roots, and the length field has 64 bits.
use hardware_bitcoin_wallet.Base.{
  ℕ, zero, suc, ◌+◌, ◌-◌, ◌*◌, ◌/◌, ◌%◌, ◌^◌, bit_and, bit_or, bit_xor, List, [], ◌∷◌, ◌++◌, length,
  take, drop, get_or, replicate,
}
use hardware_bitcoin_wallet.Sha256.Spec.{root}

-- The permutation rho of the word numbers, and pi, which takes i to 9 i + 5 modulo 16.
abbrev rho : List ℕ
rho = 7 ∷ 4 ∷ 13 ∷ 1 ∷ 10 ∷ 6 ∷ 15 ∷ 3 ∷ 12 ∷ 0 ∷ 9 ∷ 5 ∷ 2 ∷ 14 ∷ 11 ∷ 8 ∷ []

abbrev from_to : ℕ → ℕ → List ℕ
from_to i zero = []
from_to i (suc n) = i ∷ from_to (i + 1) n

abbrev each : (ℕ → ℕ) → List ℕ → List ℕ
each f [] = []
each f (x ∷ xs) = f x ∷ each f xs

abbrev through_rho : List ℕ → List ℕ
through_rho = each (λ i. get_or rho i 0)

-- `n` groups of 16 rounds: after each group the order goes through rho.
abbrev groups : ℕ → List ℕ → List ℕ
groups zero order = []
groups (suc n) order = order ++ groups n (through_rho order)

abbrev pub left_order : List ℕ
left_order = groups 5 (from_to 0 16)

abbrev pub right_order : List ℕ
right_order = groups 5 (each (λ i. (9 * i + 5) % 16) (from_to 0 16))

-- The amounts for the words 0 to 15, in each of the five groups.
abbrev amounts : List ℕ
amounts =
    11 ∷ 14 ∷ 15 ∷ 12 ∷ 5 ∷ 8 ∷ 7 ∷ 9 ∷ 11 ∷ 13 ∷ 14 ∷ 15 ∷ 6 ∷ 7 ∷ 9 ∷ 8 ∷ 12 ∷ 13 ∷ 11 ∷ 15 ∷ 6
    ∷ 9 ∷ 9 ∷ 7 ∷ 12 ∷ 15 ∷ 11 ∷ 13 ∷ 7 ∷ 8 ∷ 7 ∷ 7 ∷ 13 ∷ 15 ∷ 14 ∷ 11 ∷ 7 ∷ 7 ∷ 6 ∷ 8 ∷ 13 ∷ 14
    ∷ 13 ∷ 12 ∷ 5 ∷ 5 ∷ 6 ∷ 9 ∷ 14 ∷ 11 ∷ 12 ∷ 14 ∷ 8 ∷ 6 ∷ 5 ∷ 5 ∷ 15 ∷ 12 ∷ 15 ∷ 14 ∷ 9 ∷ 9 ∷ 8
    ∷ 6 ∷ 15 ∷ 12 ∷ 13 ∷ 13 ∷ 9 ∷ 5 ∷ 8 ∷ 6 ∷ 14 ∷ 11 ∷ 12 ∷ 11 ∷ 8 ∷ 6 ∷ 5 ∷ 5 ∷ []

-- The amount of each round, from the word that it takes.
abbrev amounts_for : ℕ → List ℕ → List ℕ
amounts_for j [] = []
amounts_for j (word ∷ order) = get_or amounts (j / 16 * 16 + word) 0 ∷ amounts_for (j + 1) order

abbrev pub left_amounts : List ℕ
left_amounts = amounts_for 0 left_order

abbrev pub right_amounts : List ℕ
right_amounts = amounts_for 0 right_order

abbrev inverted : ℕ → ℕ
inverted x = bit_xor x (2 ^ 32 - 1)

-- The function of a group of rounds, numbered from 0.
unfoldable pub group_function : ℕ → ℕ → ℕ → ℕ → ℕ
group_function zero x y z = bit_xor (bit_xor x y) z
group_function (suc zero) x y z = bit_or (bit_and x y) (bit_and (inverted x) z)
group_function (suc (suc zero)) x y z = bit_xor (bit_or x (inverted y)) z
group_function (suc (suc (suc zero))) x y z = bit_or (bit_and x z) (bit_and y (inverted z))
group_function _ x y z = bit_xor x (bit_or y (inverted z))

-- 2 ^ 30 times the root of degree `e` of `p`.
abbrev scaled_root : ℕ → ℕ → ℕ
scaled_root e p = root e 40 0 (p * 2 ^ (30 * e))

-- Square roots of 2, 3, 5 and 7 on the left, cube roots on the right.
unfoldable pub left_constant : ℕ → ℕ
left_constant zero = 0
left_constant (suc zero) = scaled_root 2 2
left_constant (suc (suc zero)) = scaled_root 2 3
left_constant (suc (suc (suc zero))) = scaled_root 2 5
left_constant _ = scaled_root 2 7

unfoldable pub right_constant : ℕ → ℕ
right_constant zero = scaled_root 3 2
right_constant (suc zero) = scaled_root 3 3
right_constant (suc (suc zero)) = scaled_root 3 5
right_constant (suc (suc (suc zero))) = scaled_root 3 7
right_constant _ = 0

abbrev rotated : ℕ → ℕ → ℕ
rotated x n = bit_or (x * 2 ^ n % 2 ^ 32) (x / 2 ^ (32 - n))

pub record Five : Type 0 where
  pub a : ℕ
  pub b : ℕ
  pub c : ℕ
  pub d : ℕ
  pub e : ℕ

-- One round of a line: the value of the function, the constant, the word and the amount.
unfoldable pub turn : ℕ → ℕ → ℕ → ℕ → Five → Five
turn value constant word amount v = record {
  a = v.e;
  b = (rotated ((v.a + value + word + constant) % 2 ^ 32) amount + v.e) % 2 ^ 32;
  c = v.b;
  d = rotated v.c 10;
  e = v.d;
}

unfoldable pub left_turn : List ℕ → ℕ → Five → Five
left_turn x j v =
    turn (group_function (j / 16) v.b v.c v.d) (left_constant (j / 16))
      (get_or x (get_or left_order j 0) 0) (get_or left_amounts j 0) v

unfoldable pub right_turn : List ℕ → ℕ → Five → Five
right_turn x j v =
    turn (group_function (4 - j / 16) v.b v.c v.d) (right_constant (j / 16))
      (get_or x (get_or right_order j 0) 0) (get_or right_amounts j 0) v

-- A line of `n` rounds, from the round `j` on.
unfoldable pub turns : (ℕ → Five → Five) → ℕ → ℕ → Five → Five
turns f zero j v = v
turns f (suc n) j v = turns f n (j + 1) (f j v)

-- The next hash value, from the last one and the 16 words of a block.
unfoldable pub combine : List ℕ → Five → Five → List ℕ
combine h v w =
    (get_or h 1 0 + v.c + w.d) % 2 ^ 32
    ∷ (get_or h 2 0 + v.d + w.e) % 2 ^ 32
    ∷ (get_or h 3 0 + v.e + w.a) % 2 ^ 32
    ∷ (get_or h 4 0 + v.a + w.b) % 2 ^ 32
    ∷ (get_or h 0 0 + v.b + w.c) % 2 ^ 32
    ∷ []

abbrev pub five : List ℕ → Five
five h = record {
  a = get_or h 0 0;
  b = get_or h 1 0;
  c = get_or h 2 0;
  d = get_or h 3 0;
  e = get_or h 4 0;
}

unfoldable pub compress : List ℕ → List ℕ → List ℕ
compress h x = combine h (turns (left_turn x) 80 0 (five h)) (turns (right_turn x) 80 0 (five h))

abbrev pub first_hash : List ℕ
first_hash = 0x67452301 ∷ 0xefcdab89 ∷ 0x98badcfe ∷ 0x10325476 ∷ 0xc3d2e1f0 ∷ []

abbrev pub little_endian : ℕ → ℕ → List ℕ
little_endian zero x = []
little_endian (suc n) x = x % 256 ∷ little_endian n (x / 256)

abbrev pub padded : List ℕ → List ℕ
padded message =
    message
    ++ (0x80
        ∷ (replicate ((55 + 64 - length message % 64) % 64) 0
            ++ little_endian 8 (8 * length message)))

abbrev pub little_endian_words : List ℕ → List ℕ
little_endian_words (a ∷ b ∷ c ∷ d ∷ rest) =
    (d * 2 ^ 24 + c * 2 ^ 16 + b * 2 ^ 8 + a) ∷ little_endian_words rest
little_endian_words _ = []

unfoldable pub blocks : ℕ → List ℕ → List ℕ → List ℕ
blocks zero h bytes = h
blocks (suc count) h bytes =
    blocks count (compress h (little_endian_words (take 64 bytes))) (drop 64 bytes)

-- The five words of the hash; as bytes each is written with its low byte first.
abbrev pub authors_ripemd160 : List ℕ → List ℕ
authors_ripemd160 message = blocks (length (padded message) / 64) first_hash (padded message)
