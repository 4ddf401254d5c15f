-- ===== src/Endian/Laws.antt =====
-- endian.c: what the conversions compute, and that they undo one another.
use hardware_bitcoin_wallet.Base.{
  ℕ, ◌+◌, ◌*◌, ◌^◌, ◌<◌, ◌≡◌, refl, ◌∙◌, ap, arith, List, [], ◌∷◌, reverse, IsByte, u8, ◌>>>◌,
  IsBytes, val,
}
use hardware_bitcoin_wallet.Base.Bits.{bit_or_low_high, bit_or_high_low}
use hardware_bitcoin_wallet.Endian.{
  write_u32_big_endian, write_u32_little_endian, read_u32_big_endian, read_u32_little_endian,
  swap_endian,
}

module _ (a b c d : ℕ) (ha : IsByte a) (hb : IsByte b) (hc : IsByte c) (hd : IsByte d) where
  -- Of four bytes the little-endian reader gives the number that they stand for.
  pub read_u32_little_endian-eq-val :
      (rest : List ℕ) → read_u32_little_endian (a ∷ b ∷ c ∷ d ∷ rest) ≡ val (a ∷ b ∷ c ∷ d ∷ [])
  unfolding read_u32_little_endian
  read_u32_little_endian-eq-val rest = ground (
    arith,
    bit_or_low_high 8 b a,
    bit_or_low_high 16 c (a + 256 * b),
    bit_or_low_high 24 d (a + 256 * b + 65536 * c),
  )

  pub read_u32_big_endian-eq-val :
      (rest : List ℕ) → read_u32_big_endian (a ∷ b ∷ c ∷ d ∷ rest) ≡ val (d ∷ c ∷ b ∷ a ∷ [])
  unfolding read_u32_big_endian
  read_u32_big_endian-eq-val rest = ground (
    arith,
    bit_or_high_low 24 a (b * 65536),
    bit_or_high_low 16 (a * 256 + b) (c * 256),
    bit_or_high_low 8 (a * 65536 + b * 256 + c) d,
  )

-- What a writer stores for a 32-bit word are bytes that stand for it, in the writer's order.
pub write_u32-val :
    (x : ℕ)
    → x < 2 ^ 32
    → (val (write_u32_little_endian x) ≡ x)
      × (write_u32_big_endian x ≡ reverse (write_u32_little_endian x))
      × IsBytes (write_u32_big_endian x)
      × IsBytes (write_u32_little_endian x)
unfolding write_u32_little_endian write_u32_big_endian
write_u32-val x h = (omega arith, refl, omega arith, omega arith)

-- Reading back what was written, in either byte order, gives every 32-bit word again.
pub read_u32-write_u32 :
    (x : ℕ)
    → x < 2 ^ 32
    → (read_u32_little_endian (write_u32_little_endian x) ≡ x)
      × (read_u32_big_endian (write_u32_big_endian x) ≡ x)
unfolding write_u32_little_endian write_u32_big_endian
read_u32-write_u32 x h =
    let b0 = u8 x in
    let b1 = u8 (x >>> 8) in
    let b2 = u8 (x >>> 16) in
    let b3 = u8 (x >>> 24) in
    (
      read_u32_little_endian-eq-val b0 b1 b2 b3 (omega arith) (omega arith) (omega arith)
            (omega arith) []
          ∙ omega arith,
      read_u32_big_endian-eq-val b3 b2 b1 b0 (omega arith) (omega arith) (omega arith) (omega arith)
            []
          ∙ omega arith,
    )

swap_endian-eq-val : (x : ℕ) → swap_endian x ≡ val (write_u32_big_endian x)
unfolding swap_endian write_u32_little_endian write_u32_big_endian
swap_endian-eq-val x =
    read_u32_little_endian-eq-val (u8 (x >>> 24)) (u8 (x >>> 16)) (u8 (x >>> 8)) (u8 x)
      (omega arith) (omega arith) (omega arith) (omega arith) []

-- `swapEndian` gives the number of the word's four bytes in reverse order, and applied twice it
-- gives every 32-bit word back.
pub swap_endian_twice :
    (x : ℕ)
    → x < 2 ^ 32
    → (swap_endian x ≡ val (write_u32_big_endian x)) × (swap_endian (swap_endian x) ≡ x)
unfolding write_u32_big_endian
swap_endian_twice x h = (
  swap_endian-eq-val x,
  swap_endian-eq-val (swap_endian x)
      ∙ ap (λ y. val (write_u32_big_endian y)) (swap_endian-eq-val x)
      ∙ omega arith,
)
