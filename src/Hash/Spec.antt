-- ===== src/Hash/Spec.antt =====
-- What a hash of this family is, without a buffer: the padded message is cut into blocks of 64
-- bytes, and the compression function is folded over them.
use hardware_bitcoin_wallet.Base.{
  ℕ, zero, suc, ◌+◌, ◌-◌, ◌*◌, ◌%◌, ◌^◌, u32, List, [], ◌∷◌, ◌++◌, take, drop, replicate, Bool,
  true, false, if◌then◌else◌,
}
use hardware_bitcoin_wallet.Endian.{write_u32_big_endian, write_u32_little_endian}

-- Four bytes as a word, in the byte order of the hash.
abbrev pub word : Bool → ℕ → ℕ → ℕ → ℕ → ℕ
word true a b c d = a * 2 ^ 24 + b * 2 ^ 16 + c * 2 ^ 8 + d
word false a b c d = d * 2 ^ 24 + c * 2 ^ 16 + b * 2 ^ 8 + a

abbrev pub words : Bool → List ℕ → List ℕ
words big (a ∷ b ∷ c ∷ d ∷ rest) = word big a b c d ∷ words big rest
words big _ = []

module _ (block : List ℕ → List ℕ → List ℕ) (big : Bool) where
  -- `count` blocks of the message.
  unfoldable pub hash_blocks : ℕ → List ℕ → List ℕ → List ℕ
  hash_blocks zero h message = h
  hash_blocks (suc count) h message =
      hash_blocks count (block h (words big (take 64 message))) (drop 64 message)

-- The padding that the source appends to a message of `size` bytes: a bit 1, zeros up to 56 bytes
-- modulo 64, and the number of bits in eight bytes, of which the source fills the low four with what
-- 32 bits hold. Below 2 ^ 29 bytes that is the padding of the standards.
abbrev pub padding : Bool → ℕ → List ℕ
padding big size =
    let bits = u32 (u32 size * 8) in
    0x80 ∷ replicate ((55 + 64 - size % 64) % 64) 0
    ++ (if big
        then replicate 4 0 ++ write_u32_big_endian bits
        else write_u32_little_endian bits ++ replicate 4 0)
