-- ===== src/Bignum/Shift.antt =====
-- bigShiftRightNoModulo halves a number, and swapEndian256 reverses its bytes.
use mathlib.Core.Path.{subst}
use hardware_bitcoin_wallet.Base.{
  ℕ, zero, suc, ◌+◌, ◌*◌, ◌/◌, ◌<◌, ◌≡◌, refl, ◌∙◌, sym, ap, arith, List, [], ◌∷◌, IsBytes, val,
  length, get_or, take_all, reverse,
}
use hardware_bitcoin_wallet.Base.Bits.{bit_and-one, bit_or_low_high}
use hardware_bitcoin_wallet.Bignum.{shift_right_loop, shift_right_no_modulo, swap_endian256}

shift_right_loop-val :
    (xs : List ℕ)
    → IsBytes xs
    → (length (shift_right_loop xs).0 ≡ length xs)
      × IsBytes (shift_right_loop xs).0
      × (2 * val (shift_right_loop xs).0 + (shift_right_loop xs).1 ≡ val xs)
      × ((shift_right_loop xs).1 < 2)
unfolding shift_right_loop
shift_right_loop-val [] p = omega arith
shift_right_loop-val (x ∷ xs) p =
    let ih = shift_right_loop-val xs p.1 in
    let top = bit_or_low_high 7 (shift_right_loop xs).1 (x / 2) (omega arith) in
    let low = bit_and-one x in
    (omega arith, (omega arith, ih.1), omega (arith, top, low), omega (arith, low))

-- `bigShiftRightNoModulo` of 32 bytes gives 32 bytes that stand for half of the number, rounded
-- down.
pub shift_right_no_modulo-val :
    (op1 : List ℕ)
    → length op1 ≡ 32
    → IsBytes op1
    → (length (shift_right_no_modulo op1) ≡ 32)
      × IsBytes (shift_right_no_modulo op1)
      × (val (shift_right_no_modulo op1) ≡ val op1 / 2)
unfolding shift_right_no_modulo
shift_right_no_modulo-val op1 e p =
    let l = shift_right_loop-val op1 p in
    subst
      (λ xs.
        (length (shift_right_loop xs).0 ≡ 32)
        × IsBytes (shift_right_loop xs).0
        × (val (shift_right_loop xs).0 ≡ val op1 / 2))
      (sym (take_all 32 op1 (omega arith))) (l.0 ∙ e, l.1, omega arith)

-- The first `n` elements of a list, read by their indices from `i` on.
abbrev pub read_from : List ℕ → ℕ → ℕ → List ℕ
read_from xs i zero = []
read_from xs i (suc n) = get_or xs i 0 ∷ read_from xs (suc i) n

read_from-cons : (x : ℕ) (xs : List ℕ) (n i : ℕ) → read_from (x ∷ xs) (suc i) n ≡ read_from xs i n
read_from-cons x xs zero i = refl
read_from-cons x xs (suc n) i = ap (λ l. get_or xs i 0 ∷ l) (read_from-cons x xs n (suc i))

pub read_from-eq : (xs : List ℕ) (n : ℕ) → length xs ≡ n → read_from xs 0 n ≡ xs
read_from-eq [] zero e = refl
read_from-eq [] (suc n) e = absurd (omega arith)
read_from-eq (x ∷ xs) zero e = absurd (omega arith)
read_from-eq (x ∷ xs) (suc n) e =
    ap (λ l. x ∷ l) (read_from-cons x xs n 0 ∙ read_from-eq xs n (omega arith))

swap_read_from : (xs : List ℕ) → swap_endian256 (read_from xs 0 32) ≡ reverse (read_from xs 0 32)
unfolding swap_endian256
swap_read_from xs = refl

-- The sixteen swaps of `swapEndian256` reverse a 32-byte number.
pub swap_endian256-eq-reverse : (xs : List ℕ) → length xs ≡ 32 → swap_endian256 xs ≡ reverse xs
swap_endian256-eq-reverse xs e =
    ap swap_endian256 (sym (read_from-eq xs 32 e))
    ∙ swap_read_from xs
    ∙ ap reverse (read_from-eq xs 32 e)
