-- ===== src/HmacSha512.antt =====
-- hmac_sha512.c: SHA-512 with its message buffer of 64-bit words, and the keyed hash of messages.
-- The 64-bit operations follow sha256.c in their form, with the constants of SHA-512.
mod Tests
use hardware_bitcoin_wallet.Base.{
  ℕ, zero, suc, ◌+◌, ◌-◌, ◌*◌, ◌/◌, ◌%◌, ◌^◌, bit_and, bit_or, bit_xor, u8, u32, u64, ◌<<<◌, ◌>>>◌,
  List, [], ◌∷◌, ◌++◌, get_or, set, take, replicate, overwrite, length, Bool, leb, ◌&&◌, ◌==◌,
  if◌then◌else◌,
}
use hardware_bitcoin_wallet.Endian.{write_u32_big_endian}

abbrev k_table : List ℕ
k_table =
    0x428a2f98d728ae22 ∷ 0x7137449123ef65cd ∷ 0xb5c0fbcfec4d3b2f ∷ 0xe9b5dba58189dbbc
    ∷ 0x3956c25bf348b538 ∷ 0x59f111f1b605d019 ∷ 0x923f82a4af194f9b ∷ 0xab1c5ed5da6d8118
    ∷ 0xd807aa98a3030242 ∷ 0x12835b0145706fbe ∷ 0x243185be4ee4b28c ∷ 0x550c7dc3d5ffb4e2
    ∷ 0x72be5d74f27b896f ∷ 0x80deb1fe3b1696b1 ∷ 0x9bdc06a725c71235 ∷ 0xc19bf174cf692694
    ∷ 0xe49b69c19ef14ad2 ∷ 0xefbe4786384f25e3 ∷ 0x0fc19dc68b8cd5b5 ∷ 0x240ca1cc77ac9c65
    ∷ 0x2de92c6f592b0275 ∷ 0x4a7484aa6ea6e483 ∷ 0x5cb0a9dcbd41fbd4 ∷ 0x76f988da831153b5
    ∷ 0x983e5152ee66dfab ∷ 0xa831c66d2db43210 ∷ 0xb00327c898fb213f ∷ 0xbf597fc7beef0ee4
    ∷ 0xc6e00bf33da88fc2 ∷ 0xd5a79147930aa725 ∷ 0x06ca6351e003826f ∷ 0x142929670a0e6e70
    ∷ 0x27b70a8546d22ffc ∷ 0x2e1b21385c26c926 ∷ 0x4d2c6dfc5ac42aed ∷ 0x53380d139d95b3df
    ∷ 0x650a73548baf63de ∷ 0x766a0abb3c77b2a8 ∷ 0x81c2c92e47edaee6 ∷ 0x92722c851482353b
    ∷ 0xa2bfe8a14cf10364 ∷ 0xa81a664bbc423001 ∷ 0xc24b8b70d0f89791 ∷ 0xc76c51a30654be30
    ∷ 0xd192e819d6ef5218 ∷ 0xd69906245565a910 ∷ 0xf40e35855771202a ∷ 0x106aa07032bbd1b8
    ∷ 0x19a4c116b8d2d0c8 ∷ 0x1e376c085141ab53 ∷ 0x2748774cdf8eeb99 ∷ 0x34b0bcb5e19b48a8
    ∷ 0x391c0cb3c5c95a63 ∷ 0x4ed8aa4ae3418acb ∷ 0x5b9cca4f7763e373 ∷ 0x682e6ff3d6b2b8a3
    ∷ 0x748f82ee5defb2fc ∷ 0x78a5636f43172f60 ∷ 0x84c87814a1f0ab72 ∷ 0x8cc702081a6439ec
    ∷ 0x90befffa23631e28 ∷ 0xa4506cebde82bde9 ∷ 0xbef9a3f7b2c67915 ∷ 0xc67178f2e372532b
    ∷ 0xca273eceea26619c ∷ 0xd186b8c721c0c207 ∷ 0xeada7dd6cde0eb1e ∷ 0xf57d4f7fee6ed178
    ∷ 0x06f067aa72176fba ∷ 0x0a637dc5a2c898a6 ∷ 0x113f9804bef90dae ∷ 0x1b710b35131c471b
    ∷ 0x28db77f523047d84 ∷ 0x32caab7b40c72493 ∷ 0x3c9ebe0a15c9bebc ∷ 0x431d67c49c100d4c
    ∷ 0x4cc5d4becb3e42b6 ∷ 0x597f299cfc657e2a ∷ 0x5fcb6fab3ad6faec ∷ 0x6c44198c4a475817 ∷ []

unfoldable pub rotate_right : ℕ → ℕ → ℕ
rotate_right x n = bit_or (x >>> n) (u64 (x <<< (64 - n)))

-- `~x` on `uint64_t`.
abbrev complement64 : ℕ → ℕ
complement64 x = bit_xor x 0xffffffffffffffff

unfoldable pub ch : ℕ → ℕ → ℕ → ℕ
ch x y z = bit_xor (bit_and x y) (bit_and (complement64 x) z)

unfoldable pub maj : ℕ → ℕ → ℕ → ℕ
maj x y z = bit_xor (bit_xor (bit_and x y) (bit_and x z)) (bit_and y z)

unfoldable pub big_sigma0 : ℕ → ℕ
unfolding rotate_right
big_sigma0 x = bit_xor (bit_xor (rotate_right x 28) (rotate_right x 34)) (rotate_right x 39)

unfoldable pub big_sigma1 : ℕ → ℕ
unfolding rotate_right
big_sigma1 x = bit_xor (bit_xor (rotate_right x 14) (rotate_right x 18)) (rotate_right x 41)

unfoldable pub little_sigma0 : ℕ → ℕ
unfolding rotate_right
little_sigma0 x = bit_xor (bit_xor (rotate_right x 1) (rotate_right x 8)) (x >>> 7)

unfoldable pub little_sigma1 : ℕ → ℕ
unfolding rotate_right
little_sigma1 x = bit_xor (bit_xor (rotate_right x 19) (rotate_right x 61)) (x >>> 6)

-- The second loop over `w`: from the words before index `t` the word at `t` is computed.
unfoldable pub extend_w : ℕ → ℕ → List ℕ → List ℕ
unfolding little_sigma0 little_sigma1
extend_w zero t w = w
extend_w (suc rounds) t w =
    let w_t = u64 (
      little_sigma1 (get_or w (t - 2) 0)
      + get_or w (t - 7) 0
      + little_sigma0 (get_or w (t - 15) 0)
      + get_or w (t - 16) 0) in
    extend_w rounds (t + 1) (w ++ w_t ∷ [])

-- The variables `a` to `h`.
pub record Working : Type 0 where
  pub a : ℕ
  pub b : ℕ
  pub c : ℕ
  pub d : ℕ
  pub e : ℕ
  pub f : ℕ
  pub g : ℕ
  pub h : ℕ

unfoldable pub sha512_round : ℕ → ℕ → Working → Working
unfolding big_sigma0 big_sigma1 ch maj
sha512_round k_t w_t s =
    let t1 = u64 (s.h + big_sigma1 s.e + ch s.e s.f s.g + k_t + w_t) in
    let t2 = u64 (big_sigma0 s.a + maj s.a s.b s.c) in
    record {
      a = u64 (t1 + t2);
      b = s.a;
      c = s.b;
      d = s.c;
      e = u64 (s.d + t1);
      f = s.e;
      g = s.f;
      h = s.g;
    }

-- The 80 rounds go along the table `k` and the words `w`.
unfoldable pub sha512_rounds : List ℕ → List ℕ → Working → Working
unfolding sha512_round
sha512_rounds (k_t ∷ ks) (w_t ∷ ws) s = sha512_rounds ks ws (sha512_round k_t w_t s)
sha512_rounds _ _ s = s

unfoldable pub sha512_block : List ℕ → List ℕ → List ℕ
unfolding extend_w sha512_rounds
sha512_block h m =
    let start : Working = record {
      a = get_or h 0 0;
      b = get_or h 1 0;
      c = get_or h 2 0;
      d = get_or h 3 0;
      e = get_or h 4 0;
      f = get_or h 5 0;
      g = get_or h 6 0;
      h = get_or h 7 0;
    } in
    let s = sha512_rounds k_table (extend_w 64 16 m) start in
    u64 (get_or h 0 0 + s.a)
    ∷ u64 (get_or h 1 0 + s.b)
    ∷ u64 (get_or h 2 0 + s.c)
    ∷ u64 (get_or h 3 0 + s.d)
    ∷ u64 (get_or h 4 0 + s.e)
    ∷ u64 (get_or h 5 0 + s.f)
    ∷ u64 (get_or h 6 0 + s.g)
    ∷ u64 (get_or h 7 0 + s.h)
    ∷ []

pub record HashState64 : Type 0 where
  pub h : List ℕ
  pub index_m : ℕ
  pub byte_position_m : ℕ
  pub m : List ℕ
  pub message_length : ℕ

abbrev clear_m : HashState64 → HashState64
clear_m hs64 = record hs64 { index_m = 0; byte_position_m = 0; m = replicate 16 0 }

abbrev pub sha512_iv : List ℕ
sha512_iv =
    0x6a09e667f3bcc908 ∷ 0xbb67ae8584caa73b ∷ 0x3c6ef372fe94f82b ∷ 0xa54ff53a5f1d36f1
    ∷ 0x510e527fade682d1 ∷ 0x9b05688c2b3e6c1f ∷ 0x1f83d9abfb41bd6b ∷ 0x5be0cd19137e2179 ∷ []

-- `sha512Begin` fills every field, so the state before it does not matter.
unfoldable pub sha512_begin : HashState64
sha512_begin = clear_m (record {
  h = sha512_iv;
  index_m = 0;
  byte_position_m = 0;
  m = replicate 16 0;
  message_length = 0;
})

-- The part of `sha512WriteByte` after the buffer is written.
unfoldable pub flush_full : HashState64 → HashState64
flush_full hs64 =
    if hs64.index_m == 16 then clear_m (record hs64 { h = sha512_block hs64.h hs64.m }) else hs64

unfoldable pub sha512_write_byte : HashState64 → ℕ → HashState64
unfolding flush_full
sha512_write_byte hs64 byte =
    let shift_amount = (7 - hs64.byte_position_m) <<< 3 in
    let word = bit_or (get_or hs64.m hs64.index_m 0) (u64 (byte <<< shift_amount)) in
    flush_full (record hs64 {
      index_m = if hs64.byte_position_m == 7 then hs64.index_m + 1 else hs64.index_m;
      byte_position_m = bit_and (hs64.byte_position_m + 1) 7;
      m = set hs64.m hs64.index_m word;
      message_length = u32 (hs64.message_length + 1);
    })

-- A loop of `sha512WriteByte` over an array.
unfoldable pub sha512_write_bytes : HashState64 → List ℕ → HashState64
sha512_write_bytes hs64 [] = hs64
sha512_write_bytes hs64 (b ∷ bs) = sha512_write_bytes (sha512_write_byte hs64 b) bs

-- The loop that pads with zeros up to 896 bits: less than 128 rounds from any position.
unfoldable pub pad_zeros : ℕ → HashState64 → HashState64
pad_zeros zero hs64 = hs64
pad_zeros (suc rounds) hs64 =
    let next = pad_zeros rounds (sha512_write_byte hs64 0) in
    if hs64.index_m == 14 && hs64.byte_position_m == 0 then hs64 else next

-- The 64 bytes of `h[0]` to `h[7]`.
unfoldable pub hash_bytes : List ℕ → List ℕ
hash_bytes [] = []
hash_bytes (x ∷ xs) =
    write_u32_big_endian (u32 (x >>> 32)) ++ write_u32_big_endian (u32 x) ++ hash_bytes xs

unfoldable pub sha512_finish : HashState64 → List ℕ
unfolding pad_zeros sha512_write_bytes hash_bytes
sha512_finish hs64 =
    let length_bits = u32 (hs64.message_length <<< 3) in
    let padded = pad_zeros 128 (sha512_write_byte hs64 0x80) in
    let buffer = replicate 12 0 ++ write_u32_big_endian length_bits in
    hash_bytes (take 8 (sha512_write_bytes padded buffer).h)

-- `padded_key` with each byte combined with `0x36` or `0x5c`.
unfoldable pub xor_each : List ℕ → ℕ → List ℕ
xor_each [] pad = []
xor_each (b ∷ bs) pad = u8 (bit_xor b pad) ∷ xor_each bs pad

-- `padded_key`: the key, or the hash of a key of more than 128 bytes, with zeros behind.
unfoldable pub padded_key : List ℕ → List ℕ
unfolding sha512_begin sha512_write_bytes sha512_finish
padded_key key =
    let hashed = sha512_finish (sha512_write_bytes sha512_begin key) in
    overwrite (replicate 128 0) (if leb (length key) 128 then key else hashed)

unfoldable pub hmac_sha512 : List ℕ → List ℕ → List ℕ
unfolding sha512_begin sha512_write_bytes sha512_finish xor_each padded_key
hmac_sha512 key text =
    let inner = sha512_write_bytes sha512_begin (xor_each (padded_key key) 0x36) in
    let hash = sha512_finish (sha512_write_bytes inner text) in
    let outer = sha512_write_bytes sha512_begin (xor_each (padded_key key) 0x5c) in
    sha512_finish (sha512_write_bytes outer hash)
