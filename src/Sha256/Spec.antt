-- ===== src/Sha256/Spec.antt =====
-- SHA-256 as FIPS 180 describes it, on a whole message and without reference to sha256.c: the
-- constants come from the roots of the first primes, and the length field has 64 bits.
use hardware_bitcoin_wallet.Base.{
  ℕ, zero, suc, ◌+◌, ◌-◌, ◌*◌, ◌/◌, ◌%◌, ◌^◌, bit_and, bit_or, bit_xor, List, [], ◌∷◌, ◌++◌, length,
  take, drop, get_or, replicate, Bool, true, leb, not, ◌==◌, ◌&&◌, if◌then◌else◌,
}

-- The integer part of the root of degree `e`, if it has at most `bits` bits beside those of `r`.
abbrev pub root : ℕ → ℕ → ℕ → ℕ → ℕ
root e zero r x = r
root e (suc bits) r x =
    let next = r + 2 ^ bits in root e bits (if leb (next ^ e) x then next else r) x

-- No number from 2 to `d + 1` divides `p`.
abbrev undivided : ℕ → ℕ → Bool
undivided zero p = true
undivided (suc d) p = not (p % (d + 2) == 0) && undivided d p

-- The primes among the `n` numbers from `p` on.
abbrev pub primes_from : ℕ → ℕ → List ℕ
primes_from zero p = []
primes_from (suc n) p =
    let rest = primes_from n (p + 1) in if undivided (p - 2) p then p ∷ rest else rest

-- The first 32 bits of the fractional part of a root.
abbrev root_bits : ℕ → List ℕ → List ℕ
root_bits e [] = []
root_bits e (p ∷ ps) = root e 40 0 (p * 2 ^ (32 * e)) % 2 ^ 32 ∷ root_bits e ps

-- Cube roots of the first 64 primes, and square roots of the first 8.
abbrev pub fips_k : List ℕ
fips_k = root_bits 3 (take 64 (primes_from 310 2))

abbrev pub fips_h0 : List ℕ
fips_h0 = root_bits 2 (take 8 (primes_from 18 2))

abbrev rotr : ℕ → ℕ → ℕ
rotr n x = bit_or (x / 2 ^ n) (x * 2 ^ (32 - n) % 2 ^ 32)

abbrev shr : ℕ → ℕ → ℕ
shr n x = x / 2 ^ n

abbrev xor3 : ℕ → ℕ → ℕ → ℕ
xor3 x y z = bit_xor (bit_xor x y) z

abbrev fips_ch : ℕ → ℕ → ℕ → ℕ
fips_ch x y z = bit_xor (bit_and x y) (bit_and (bit_xor x (2 ^ 32 - 1)) z)

abbrev fips_maj : ℕ → ℕ → ℕ → ℕ
fips_maj x y z = xor3 (bit_and x y) (bit_and x z) (bit_and y z)

-- The message schedule: `n` words more, each from those 2, 7, 15 and 16 places before it.
unfoldable pub schedule : ℕ → List ℕ → List ℕ
schedule zero w = w
schedule (suc n) w =
    let back : ℕ → ℕ = λ k. get_or w (length w - k) 0 in
    let s0 = xor3 (rotr 7 (back 15)) (rotr 18 (back 15)) (shr 3 (back 15)) in
    let s1 = xor3 (rotr 17 (back 2)) (rotr 19 (back 2)) (shr 10 (back 2)) in
    schedule n (w ++ (s1 + back 7 + s0 + back 16) % 2 ^ 32 ∷ [])

pub record Variables : Type 0 where
  pub a : ℕ
  pub b : ℕ
  pub c : ℕ
  pub d : ℕ
  pub e : ℕ
  pub f : ℕ
  pub g : ℕ
  pub h : ℕ

unfoldable pub fips_round : ℕ → ℕ → Variables → Variables
fips_round k w v =
    let t1 =
      (v.h + xor3 (rotr 6 v.e) (rotr 11 v.e) (rotr 25 v.e) + fips_ch v.e v.f v.g + k + w)
      % 2 ^ 32 in
    let t2 = (xor3 (rotr 2 v.a) (rotr 13 v.a) (rotr 22 v.a) + fips_maj v.a v.b v.c) % 2 ^ 32 in
    record {
      a = (t1 + t2) % 2 ^ 32;
      b = v.a;
      c = v.b;
      d = v.c;
      e = (v.d + t1) % 2 ^ 32;
      f = v.e;
      g = v.f;
      h = v.g;
    }

unfoldable pub fips_rounds : List ℕ → List ℕ → Variables → Variables
fips_rounds (k ∷ ks) (w ∷ ws) v = fips_rounds ks ws (fips_round k w v)
fips_rounds _ _ v = v

abbrev pub variables : List ℕ → Variables
variables h = record {
  a = get_or h 0 0;
  b = get_or h 1 0;
  c = get_or h 2 0;
  d = get_or h 3 0;
  e = get_or h 4 0;
  f = get_or h 5 0;
  g = get_or h 6 0;
  h = get_or h 7 0;
}

-- The next hash value, from the last one and the 16 words of a block.
unfoldable pub compress : List ℕ → List ℕ → List ℕ
compress h m =
    let v = fips_rounds fips_k (schedule 48 m) (variables h) in
    let add : ℕ → ℕ → ℕ = λ i x. (get_or h i 0 + x) % 2 ^ 32 in
    add 0 v.a
    ∷ add 1 v.b
    ∷ add 2 v.c
    ∷ add 3 v.d
    ∷ add 4 v.e
    ∷ add 5 v.f
    ∷ add 6 v.g
    ∷ add 7 v.h
    ∷ []

abbrev pub big_endian : ℕ → ℕ → List ℕ
big_endian zero x = []
big_endian (suc n) x = x / 256 ^ n % 256 ∷ big_endian n x

-- The message, a bit 1, zeros, and the number of its bits in 64 bits: a multiple of 64 bytes.
abbrev pub fips_padded : List ℕ → List ℕ
fips_padded message =
    message
    ++ (0x80
        ∷ (replicate ((55 + 64 - length message % 64) % 64) 0 ++ big_endian 8 (8 * length message)))

abbrev pub big_endian_words : List ℕ → List ℕ
big_endian_words (a ∷ b ∷ c ∷ d ∷ rest) =
    (a * 2 ^ 24 + b * 2 ^ 16 + c * 2 ^ 8 + d) ∷ big_endian_words rest
big_endian_words _ = []

unfoldable pub fips_blocks : ℕ → List ℕ → List ℕ → List ℕ
fips_blocks zero h bytes = h
fips_blocks (suc count) h bytes =
    fips_blocks count (compress h (big_endian_words (take 64 bytes))) (drop 64 bytes)

abbrev pub fips_sha256 : List ℕ → List ℕ
fips_sha256 message =
    let padded = fips_padded message in fips_blocks (length padded / 64) fips_h0 padded
