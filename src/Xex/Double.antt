-- ===== src/Xex/Double.antt =====
-- xex.c, doubleInGF: on the number that a block of bytes stands for, doubling modulo
-- x^128 + x^7 + x^2 + x + 1.
use hardware_bitcoin_wallet.Base.{
  ℕ, zero, suc, ◌+◌, ◌-◌, ◌*◌, ◌/◌, ◌%◌, ◌^◌, ◌<◌, ◌≡◌, refl, ◌∙◌, ap, arith, bit_and, bit_or,
  bit_xor, u8, ◌<<<◌, ◌>>>◌, List, [], ◌∷◌, length, get_or, set, IsBytes, val, radix, val-lt-radix,
}
use hardware_bitcoin_wallet.Base.Bits.{bit_and_top_bit, bit_or_high_low}
use hardware_bitcoin_wallet.Xex.{shift_left, double_in_gf}

-- One byte of the loop.
shifted_byte :
    (last_bit b : ℕ)
    → last_bit < 2
    → b < 256
    → (bit_or (u8 (b <<< 1)) last_bit ≡ b % 128 * 2 + last_bit) × (bit_and b 0x80 >>> 7 ≡ b / 128)
shifted_byte last_bit b p q =
    let low : u8 (b <<< 1) ≡ b % 128 * 2 ^ 1 = omega arith in
    (rw low (bit_or_high_low 1 (b % 128) last_bit p), omega (arith, bit_and_top_bit b q))

pub record IsShifted (last_bit : ℕ) (bs : List ℕ) (out : List ℕ × ℕ) : Type 0 where
  pub number : val out.0 + radix (length bs) * out.1 ≡ 2 * val bs + last_bit
  pub sized : length out.0 ≡ length bs
  pub bytes : IsBytes out.0
  pub bit : out.1 < 2

-- The loop doubles the number, with the bit from below, and the bit that is shifted out on top.
pub shift_left-IsShifted :
    (last_bit : ℕ) (bs : List ℕ)
    → last_bit < 2
    → IsBytes bs
    → IsShifted last_bit bs (shift_left last_bit bs)
unfolding shift_left
shift_left-IsShifted last_bit [] p q = record {
  number = omega arith;
  sized = refl;
  bytes = tt;
  bit = p;
}
shift_left-IsShifted last_bit (b ∷ bs) p q =
    let byte = shifted_byte last_bit b p q.0 in
    let rest = shift_left-IsShifted (bit_and b 0x80 >>> 7) bs (omega (arith, byte.1)) q.1 in
    record {
      number = omega (arith, byte, rest.number);
      sized = ap suc rest.sized;
      bytes = (omega (arith, byte.0), rest.bytes);
      bit = rest.bit;
    }

pub feedback : (last_bit : ℕ) → last_bit < 2 → bit_and 0x87 (u8 (256 - last_bit)) ≡ last_bit * 0x87
feedback zero p = refl
feedback (suc zero) p = refl
feedback (suc (suc last_bit)) p = absurd (omega arith)

-- The low byte, and the feedback into it.
first_byte : (x : ℕ) (xs : List ℕ) → x < 256 → x ≡ val (x ∷ xs) % 256
first_byte x xs p = omega arith

set_first :
    (xs : List ℕ) (c : ℕ)
    → IsBytes xs
    → 0 < length xs
    → (val (set xs 0 c) ≡ val xs / 256 * 256 + c) × (get_or xs 0 0 ≡ val xs % 256)
set_first [] c p ne = absurd (omega arith)
set_first (x ∷ xs) c p ne = (omega (arith, p.0), first_byte x xs p.0)

top_and_low :
    (s bit x : ℕ)
    → s + 2 ^ 128 * bit ≡ x
    → s < 2 ^ 128
    → (x / 2 ^ 128 ≡ bit) × (x % 2 ^ 128 ≡ s) × (x % 256 ≡ s % 256)
top_and_low s bit x e p = (omega arith, omega arith, omega arith)

-- The block is a 128-bit number, least significant byte first, and `doubleInGF` doubles it: where
-- the top bit is set it is dropped, and the low byte combined with 0x87.
pub double_in_gf-val :
    (block : List ℕ)
    → length block ≡ 16
    → IsBytes block
    → val (double_in_gf block)
      ≡ 2 * val block % 2 ^ 128 / 256 * 256
        + bit_xor (2 * val block % 256) (2 * val block / 2 ^ 128 * 0x87)
unfolding double_in_gf
double_in_gf-val block len p =
    let all = shift_left-IsShifted 0 block (omega arith) p in
    let sized : length (shift_left 0 block).0 ≡ 16 = all.sized ∙ len in
    let low : val (shift_left 0 block).0 < 2 ^ 128 =
      rw (ap radix sized) at (val-lt-radix (shift_left 0 block).0 all.bytes) in
    let number : val (shift_left 0 block).0 + 2 ^ 128 * (shift_left 0 block).1 ≡ 2 * val block + 0 =
      rw (ap radix len) at all.number in
    let parts =
      top_and_low (val (shift_left 0 block).0) (shift_left 0 block).1 (2 * val block)
        (omega (arith, number)) low in
    let first =
      set_first (shift_left 0 block).0
        (bit_xor (get_or (shift_left 0 block).0 0 0)
          (bit_and 0x87 (u8 (256 - (shift_left 0 block).1))))
        all.bytes (omega (arith, sized)) in
    first.0 ∙ rw (first.1, feedback (shift_left 0 block).1 all.bit, parts.0, parts.1, parts.2) refl
