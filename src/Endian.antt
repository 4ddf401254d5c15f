-- ===== src/Endian.antt =====
-- endian.c: 32-bit words to and from byte arrays, in both byte orders.
pub mod Laws
mod Tests
use hardware_bitcoin_wallet.Base.{
  ℕ, ◌/◌, ◌*◌, ◌^◌, bit_or, u8, u32, ◌<<<◌, ◌>>>◌, List, [], ◌∷◌, get_or,
}

-- The four bytes that the function stores at `out`.
unfoldable pub write_u32_big_endian : ℕ → List ℕ
write_u32_big_endian x = u8 (x >>> 24) ∷ u8 (x >>> 16) ∷ u8 (x >>> 8) ∷ u8 x ∷ []

unfoldable pub write_u32_little_endian : ℕ → List ℕ
write_u32_little_endian x = u8 x ∷ u8 (x >>> 8) ∷ u8 (x >>> 16) ∷ u8 (x >>> 24) ∷ []

-- Callers hand over at least four bytes.
unfoldable pub read_u32_big_endian : List ℕ → ℕ
read_u32_big_endian bytes =
    bit_or
      (bit_or (bit_or (u32 (get_or bytes 0 0 <<< 24)) (u32 (get_or bytes 1 0 <<< 16)))
        (u32 (get_or bytes 2 0 <<< 8)))
      (get_or bytes 3 0)

unfoldable pub read_u32_little_endian : List ℕ → ℕ
read_u32_little_endian bytes =
    bit_or
      (bit_or (bit_or (get_or bytes 0 0) (u32 (get_or bytes 1 0 <<< 8)))
        (u32 (get_or bytes 2 0 <<< 16)))
      (u32 (get_or bytes 3 0 <<< 24))

-- The four bytes of the word in memory, on a little-endian machine, are swapped in place:
-- the outer pair, then the inner pair.
swap_bytes : List ℕ → List ℕ
swap_bytes (a ∷ b ∷ c ∷ d ∷ rest) = d ∷ c ∷ b ∷ a ∷ rest
swap_bytes other = other

unfoldable pub swap_endian : ℕ → ℕ
unfolding swap_bytes
swap_endian v = read_u32_little_endian (swap_bytes (write_u32_little_endian v))
