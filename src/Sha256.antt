-- ===== src/Sha256.antt =====
-- sha256.c: the compression function, and the functions that drive hash.c with it.
pub mod Spec
pub mod Refine
pub mod Laws
mod Tests
use hardware_bitcoin_wallet.Base.{
  ℕ, zero, suc, ◌+◌, ◌-◌, ◌*◌, ◌/◌, ◌%◌, ◌^◌, bit_and, bit_or, bit_xor, u32, ◌<<<◌, ◌>>>◌, List, [],
  ◌∷◌, ◌++◌, get_or, replicate, true,
}
use hardware_bitcoin_wallet.Hash.{
  HashState, clear_m, hash_write_byte, hash_write_bytes, hash_finish, write_hash_to_byte_array,
}

abbrev pub k_table : List ℕ
k_table =
    0x428a2f98 ∷ 0x71374491 ∷ 0xb5c0fbcf ∷ 0xe9b5dba5 ∷ 0x3956c25b ∷ 0x59f111f1 ∷ 0x923f82a4
    ∷ 0xab1c5ed5 ∷ 0xd807aa98 ∷ 0x12835b01 ∷ 0x243185be ∷ 0x550c7dc3 ∷ 0x72be5d74 ∷ 0x80deb1fe
    ∷ 0x9bdc06a7 ∷ 0xc19bf174 ∷ 0xe49b69c1 ∷ 0xefbe4786 ∷ 0x0fc19dc6 ∷ 0x240ca1cc ∷ 0x2de92c6f
    ∷ 0x4a7484aa ∷ 0x5cb0a9dc ∷ 0x76f988da ∷ 0x983e5152 ∷ 0xa831c66d ∷ 0xb00327c8 ∷ 0xbf597fc7
    ∷ 0xc6e00bf3 ∷ 0xd5a79147 ∷ 0x06ca6351 ∷ 0x14292967 ∷ 0x27b70a85 ∷ 0x2e1b2138 ∷ 0x4d2c6dfc
    ∷ 0x53380d13 ∷ 0x650a7354 ∷ 0x766a0abb ∷ 0x81c2c92e ∷ 0x92722c85 ∷ 0xa2bfe8a1 ∷ 0xa81a664b
    ∷ 0xc24b8b70 ∷ 0xc76c51a3 ∷ 0xd192e819 ∷ 0xd6990624 ∷ 0xf40e3585 ∷ 0x106aa070 ∷ 0x19a4c116
    ∷ 0x1e376c08 ∷ 0x2748774c ∷ 0x34b0bcb5 ∷ 0x391c0cb3 ∷ 0x4ed8aa4a ∷ 0x5b9cca4f ∷ 0x682e6ff3
    ∷ 0x748f82ee ∷ 0x78a5636f ∷ 0x84c87814 ∷ 0x8cc70208 ∷ 0x90befffa ∷ 0xa4506ceb ∷ 0xbef9a3f7
    ∷ 0xc67178f2 ∷ []

unfoldable pub rotate_right : ℕ → ℕ → ℕ
rotate_right x n = bit_or (x >>> n) (u32 (x <<< (32 - n)))

-- `~x` on `uint32_t`.
abbrev complement32 : ℕ → ℕ
complement32 x = bit_xor x 0xffffffff

unfoldable pub ch : ℕ → ℕ → ℕ → ℕ
ch x y z = bit_xor (bit_and x y) (bit_and (complement32 x) z)

unfoldable pub maj : ℕ → ℕ → ℕ → ℕ
maj x y z = bit_xor (bit_xor (bit_and x y) (bit_and x z)) (bit_and y z)

unfoldable pub big_sigma0 : ℕ → ℕ
unfolding rotate_right
big_sigma0 x = bit_xor (bit_xor (rotate_right x 2) (rotate_right x 13)) (rotate_right x 22)

unfoldable pub big_sigma1 : ℕ → ℕ
unfolding rotate_right
big_sigma1 x = bit_xor (bit_xor (rotate_right x 6) (rotate_right x 11)) (rotate_right x 25)

unfoldable pub little_sigma0 : ℕ → ℕ
unfolding rotate_right
little_sigma0 x = bit_xor (bit_xor (rotate_right x 7) (rotate_right x 18)) (x >>> 3)

unfoldable pub little_sigma1 : ℕ → ℕ
unfolding rotate_right
little_sigma1 x = bit_xor (bit_xor (rotate_right x 17) (rotate_right x 19)) (x >>> 10)

-- The second loop over `w`: from the words before index `t` the word at `t` is computed.
unfoldable pub extend_w : ℕ → ℕ → List ℕ → List ℕ
unfolding little_sigma0 little_sigma1
extend_w zero t w = w
extend_w (suc rounds) t w =
    let w_t = u32 (
      little_sigma1 (get_or w (t - 2) 0)
      + get_or w (t - 7) 0
      + little_sigma0 (get_or w (t - 15) 0)
      + get_or w (t - 16) 0) in
    extend_w rounds (t + 1) (w ++ w_t ∷ [])

-- The variables `a` to `h`.
pub record Working : Type 0 where
  pub a : ℕ
  pub b : ℕ
  pub c : ℕ
  pub d : ℕ
  pub e : ℕ
  pub f : ℕ
  pub g : ℕ
  pub h : ℕ

unfoldable pub sha256_round : ℕ → ℕ → Working → Working
unfolding big_sigma0 big_sigma1 ch maj
sha256_round k_t w_t s =
    let t1 = u32 (s.h + big_sigma1 s.e + ch s.e s.f s.g + k_t + w_t) in
    let t2 = u32 (big_sigma0 s.a + maj s.a s.b s.c) in
    record {
      a = u32 (t1 + t2);
      b = s.a;
      c = s.b;
      d = s.c;
      e = u32 (s.d + t1);
      f = s.e;
      g = s.f;
      h = s.g;
    }

-- The 64 rounds go along the table `k` and the words `w`.
unfoldable pub sha256_rounds : List ℕ → List ℕ → Working → Working
unfolding sha256_round
sha256_rounds (k_t ∷ ks) (w_t ∷ ws) s = sha256_rounds ks ws (sha256_round k_t w_t s)
sha256_rounds _ _ s = s

unfoldable pub sha256_block : List ℕ → List ℕ → List ℕ
unfolding extend_w sha256_rounds
sha256_block h m =
    let start : Working = record {
      a = get_or h 0 0;
      b = get_or h 1 0;
      c = get_or h 2 0;
      d = get_or h 3 0;
      e = get_or h 4 0;
      f = get_or h 5 0;
      g = get_or h 6 0;
      h = get_or h 7 0;
    } in
    let s = sha256_rounds k_table (extend_w 48 16 m) start in
    u32 (get_or h 0 0 + s.a)
    ∷ u32 (get_or h 1 0 + s.b)
    ∷ u32 (get_or h 2 0 + s.c)
    ∷ u32 (get_or h 3 0 + s.d)
    ∷ u32 (get_or h 4 0 + s.e)
    ∷ u32 (get_or h 5 0 + s.f)
    ∷ u32 (get_or h 6 0 + s.g)
    ∷ u32 (get_or h 7 0 + s.h)
    ∷ []

abbrev pub sha256_iv : List ℕ
sha256_iv =
    0x6a09e667 ∷ 0xbb67ae85 ∷ 0x3c6ef372 ∷ 0xa54ff53a ∷ 0x510e527f ∷ 0x9b05688c ∷ 0x1f83d9ab
    ∷ 0x5be0cd19 ∷ []

-- `sha256Begin` fills every field, so the state before it does not matter.
unfoldable pub sha256_begin : HashState
unfolding clear_m
sha256_begin = clear_m (record {
  h = sha256_iv;
  index_m = 0;
  byte_position_m = 0;
  is_big_endian = true;
  m = replicate 16 0;
  message_length = 0;
})

unfoldable pub sha256_write_byte : HashState → ℕ → HashState
sha256_write_byte hs byte = hash_write_byte sha256_block hs byte

-- A loop of `sha256WriteByte` over an array.
unfoldable pub sha256_write_bytes : HashState → List ℕ → HashState
sha256_write_bytes hs bytes = hash_write_bytes sha256_block hs bytes

unfoldable pub sha256_finish : HashState → HashState
sha256_finish hs = hash_finish sha256_block hs

unfoldable pub sha256_finish_double : HashState → HashState
unfolding sha256_finish sha256_begin sha256_write_bytes
sha256_finish_double hs =
    let temp = write_hash_to_byte_array (sha256_finish hs) true in
    sha256_finish (sha256_write_bytes sha256_begin temp)
