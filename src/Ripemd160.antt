-- ===== src/Ripemd160.antt =====
-- ripemd160.c: the compression function with its two parallel lines of rounds, and the functions
-- that drive hash.c with it.
pub mod Spec
pub mod Refine
pub mod Laws
mod Tests
use hardware_bitcoin_wallet.Base.{
  ℕ, zero, suc, ◌+◌, ◌-◌, ◌*◌, ◌/◌, ◌%◌, ◌^◌, bit_and, bit_or, bit_xor, u32, ◌<<<◌, ◌>>>◌, List, [],
  ◌∷◌, ◌++◌, get_or, drop, replicate, false,
}
use hardware_bitcoin_wallet.Hash.{
  HashState, clear_m, hash_write_byte, hash_write_bytes, hash_finish,
}

abbrev pub r1 : List ℕ
r1 =
    0 ∷ 1 ∷ 2 ∷ 3 ∷ 4 ∷ 5 ∷ 6 ∷ 7 ∷ 8 ∷ 9 ∷ 10 ∷ 11 ∷ 12 ∷ 13 ∷ 14 ∷ 15 ∷ 7 ∷ 4 ∷ 13 ∷ 1 ∷ 10 ∷ 6
    ∷ 15 ∷ 3 ∷ 12 ∷ 0 ∷ 9 ∷ 5 ∷ 2 ∷ 14 ∷ 11 ∷ 8 ∷ 3 ∷ 10 ∷ 14 ∷ 4 ∷ 9 ∷ 15 ∷ 8 ∷ 1 ∷ 2 ∷ 7 ∷ 0 ∷ 6
    ∷ 13 ∷ 11 ∷ 5 ∷ 12 ∷ 1 ∷ 9 ∷ 11 ∷ 10 ∷ 0 ∷ 8 ∷ 12 ∷ 4 ∷ 13 ∷ 3 ∷ 7 ∷ 15 ∷ 14 ∷ 5 ∷ 6 ∷ 2 ∷ 4 ∷ 0
    ∷ 5 ∷ 9 ∷ 7 ∷ 12 ∷ 2 ∷ 10 ∷ 14 ∷ 1 ∷ 3 ∷ 8 ∷ 11 ∷ 6 ∷ 15 ∷ 13 ∷ []

abbrev pub r2 : List ℕ
r2 =
    5 ∷ 14 ∷ 7 ∷ 0 ∷ 9 ∷ 2 ∷ 11 ∷ 4 ∷ 13 ∷ 6 ∷ 15 ∷ 8 ∷ 1 ∷ 10 ∷ 3 ∷ 12 ∷ 6 ∷ 11 ∷ 3 ∷ 7 ∷ 0 ∷ 13
    ∷ 5 ∷ 10 ∷ 14 ∷ 15 ∷ 8 ∷ 12 ∷ 4 ∷ 9 ∷ 1 ∷ 2 ∷ 15 ∷ 5 ∷ 1 ∷ 3 ∷ 7 ∷ 14 ∷ 6 ∷ 9 ∷ 11 ∷ 8 ∷ 12 ∷ 2
    ∷ 10 ∷ 0 ∷ 4 ∷ 13 ∷ 8 ∷ 6 ∷ 4 ∷ 1 ∷ 3 ∷ 11 ∷ 15 ∷ 0 ∷ 5 ∷ 12 ∷ 2 ∷ 13 ∷ 9 ∷ 7 ∷ 10 ∷ 14 ∷ 12
    ∷ 15 ∷ 10 ∷ 4 ∷ 1 ∷ 5 ∷ 8 ∷ 7 ∷ 6 ∷ 2 ∷ 13 ∷ 14 ∷ 0 ∷ 3 ∷ 9 ∷ 11 ∷ []

abbrev pub s1 : List ℕ
s1 =
    11 ∷ 14 ∷ 15 ∷ 12 ∷ 5 ∷ 8 ∷ 7 ∷ 9 ∷ 11 ∷ 13 ∷ 14 ∷ 15 ∷ 6 ∷ 7 ∷ 9 ∷ 8 ∷ 7 ∷ 6 ∷ 8 ∷ 13 ∷ 11 ∷ 9
    ∷ 7 ∷ 15 ∷ 7 ∷ 12 ∷ 15 ∷ 9 ∷ 11 ∷ 7 ∷ 13 ∷ 12 ∷ 11 ∷ 13 ∷ 6 ∷ 7 ∷ 14 ∷ 9 ∷ 13 ∷ 15 ∷ 14 ∷ 8 ∷ 13
    ∷ 6 ∷ 5 ∷ 12 ∷ 7 ∷ 5 ∷ 11 ∷ 12 ∷ 14 ∷ 15 ∷ 14 ∷ 15 ∷ 9 ∷ 8 ∷ 9 ∷ 14 ∷ 5 ∷ 6 ∷ 8 ∷ 6 ∷ 5 ∷ 12 ∷ 9
    ∷ 15 ∷ 5 ∷ 11 ∷ 6 ∷ 8 ∷ 13 ∷ 12 ∷ 5 ∷ 12 ∷ 13 ∷ 14 ∷ 11 ∷ 8 ∷ 5 ∷ 6 ∷ []

abbrev pub s2 : List ℕ
s2 =
    8 ∷ 9 ∷ 9 ∷ 11 ∷ 13 ∷ 15 ∷ 15 ∷ 5 ∷ 7 ∷ 7 ∷ 8 ∷ 11 ∷ 14 ∷ 14 ∷ 12 ∷ 6 ∷ 9 ∷ 13 ∷ 15 ∷ 7 ∷ 12 ∷ 8
    ∷ 9 ∷ 11 ∷ 7 ∷ 7 ∷ 12 ∷ 7 ∷ 6 ∷ 15 ∷ 13 ∷ 11 ∷ 9 ∷ 7 ∷ 15 ∷ 11 ∷ 8 ∷ 6 ∷ 6 ∷ 14 ∷ 12 ∷ 13 ∷ 5
    ∷ 14 ∷ 13 ∷ 13 ∷ 7 ∷ 5 ∷ 15 ∷ 5 ∷ 8 ∷ 11 ∷ 14 ∷ 14 ∷ 6 ∷ 14 ∷ 6 ∷ 9 ∷ 12 ∷ 9 ∷ 12 ∷ 5 ∷ 15 ∷ 8
    ∷ 8 ∷ 5 ∷ 12 ∷ 9 ∷ 12 ∷ 5 ∷ 14 ∷ 6 ∷ 8 ∷ 13 ∷ 6 ∷ 5 ∷ 15 ∷ 13 ∷ 11 ∷ 11 ∷ []

unfoldable pub rol : ℕ → ℕ → ℕ
rol x n = bit_or (u32 (x <<< n)) (x >>> (32 - n))

-- `~x` on `uint32_t`.
abbrev complement32 : ℕ → ℕ
complement32 x = bit_xor x 0xffffffff

unfoldable pub f0 : ℕ → ℕ → ℕ → ℕ
f0 x y z = bit_xor (bit_xor x y) z

unfoldable pub f1 : ℕ → ℕ → ℕ → ℕ
f1 x y z = bit_or (bit_and x y) (bit_and (complement32 x) z)

unfoldable pub f2 : ℕ → ℕ → ℕ → ℕ
f2 x y z = bit_xor (bit_or x (complement32 y)) z

unfoldable pub f3 : ℕ → ℕ → ℕ → ℕ
f3 x y z = bit_or (bit_and x z) (bit_and y (complement32 z))

unfoldable pub f4 : ℕ → ℕ → ℕ → ℕ
f4 x y z = bit_xor x (bit_or y (complement32 z))

-- The variables `A1` to `E1`, and in a second value `A2` to `E2`.
pub record Line : Type 0 where
  pub a : ℕ
  pub b : ℕ
  pub c : ℕ
  pub d : ℕ
  pub e : ℕ

-- `R1` and `K1` of the `switch` on `fn_selector`.
unfoldable pub main_round : ℕ → Line → ℕ × ℕ
unfolding f0 f1 f2 f3 f4
main_round zero s = (f0 s.b s.c s.d, 0)
main_round (suc zero) s = (f1 s.b s.c s.d, 0x5a827999)
main_round (suc (suc zero)) s = (f2 s.b s.c s.d, 0x6ed9eba1)
main_round (suc (suc (suc zero))) s = (f3 s.b s.c s.d, 0x8f1bbcdc)
main_round _ s = (f4 s.b s.c s.d, 0xa953fd4e)

-- `R2` and `K2` of the `switch`.
unfoldable pub parallel_round : ℕ → Line → ℕ × ℕ
unfolding f0 f1 f2 f3 f4
parallel_round zero s = (f4 s.b s.c s.d, 0x50a28be6)
parallel_round (suc zero) s = (f3 s.b s.c s.d, 0x5c4dd124)
parallel_round (suc (suc zero)) s = (f2 s.b s.c s.d, 0x6d703ef3)
parallel_round (suc (suc (suc zero))) s = (f1 s.b s.c s.d, 0x7a6d76e9)
parallel_round _ s = (f0 s.b s.c s.d, 0)

-- What a round does to the five variables of either line, from `R` and `K`, the message word and
-- the amount to rotate by.
unfoldable pub rotate_line : ℕ → ℕ → ℕ → ℕ → Line → Line
unfolding rol
rotate_line r k word amount s = record {
  a = s.e;
  b = u32 (rol (u32 (s.a + r + word + k)) amount + s.e);
  c = s.b;
  d = rol s.c 10;
  e = s.d;
}

unfoldable pub ripemd160_round : List ℕ → ℕ → Line × Line → Line × Line
unfolding main_round parallel_round rotate_line
ripemd160_round m j (s, t) =
    let fn_selector = j >>> 4 in
    let (main_r, main_k) = main_round fn_selector s in
    let (parallel_r, parallel_k) = parallel_round fn_selector t in
    (
      rotate_line main_r main_k (get_or m (get_or r1 j 0) 0) (get_or s1 j 0) s,
      rotate_line parallel_r parallel_k (get_or m (get_or r2 j 0) 0) (get_or s2 j 0) t,
    )

-- The loop, from the round `j` on.
unfoldable pub ripemd160_rounds : ℕ → ℕ → List ℕ → Line × Line → Line × Line
unfolding ripemd160_round
ripemd160_rounds zero j m lines = lines
ripemd160_rounds (suc rounds) j m lines =
    ripemd160_rounds rounds (j + 1) m (ripemd160_round m j lines)

unfoldable pub ripemd160_block : List ℕ → List ℕ → List ℕ
unfolding ripemd160_rounds
ripemd160_block h m =
    let start : Line = record {
      a = get_or h 0 0;
      b = get_or h 1 0;
      c = get_or h 2 0;
      d = get_or h 3 0;
      e = get_or h 4 0;
    } in
    let (s, t) = ripemd160_rounds 80 0 m (start, start) in
    u32 (get_or h 1 0 + s.c + t.d)
    ∷ u32 (get_or h 2 0 + s.d + t.e)
    ∷ u32 (get_or h 3 0 + s.e + t.a)
    ∷ u32 (get_or h 4 0 + s.a + t.b)
    ∷ u32 (get_or h 0 0 + s.b + t.c)
    ∷ drop 5 h

abbrev pub ripemd160_iv : List ℕ
ripemd160_iv = 0x67452301 ∷ 0xefcdab89 ∷ 0x98badcfe ∷ 0x10325476 ∷ 0xc3d2e1f0 ∷ []

-- Of the state before, the words of `h` that RIPEMD-160 does not use stay.
unfoldable pub ripemd160_begin : HashState → HashState
unfolding clear_m
ripemd160_begin hs = clear_m (record {
  h = ripemd160_iv ++ drop 5 hs.h;
  index_m = 0;
  byte_position_m = 0;
  is_big_endian = false;
  m = replicate 16 0;
  message_length = 0;
})

unfoldable pub ripemd160_write_byte : HashState → ℕ → HashState
ripemd160_write_byte hs byte = hash_write_byte ripemd160_block hs byte

-- A loop of `ripemd160WriteByte` over an array.
unfoldable pub ripemd160_write_bytes : HashState → List ℕ → HashState
ripemd160_write_bytes hs bytes = hash_write_bytes ripemd160_block hs bytes

unfoldable pub ripemd160_finish : HashState → HashState
ripemd160_finish hs = hash_finish ripemd160_block hs
