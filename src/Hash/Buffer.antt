-- ===== src/Hash/Buffer.antt =====
-- hash.c: the words of the message buffer are the bytes written so far, with zeros behind them.
use hardware_bitcoin_wallet.Base.{
  ℕ, zero, suc, ◌+◌, ◌*◌, ◌/◌, ◌%◌, ◌^◌, ◌≡◌, ap, arith, u32, bit_or, ◌<<<◌, List, [], ◌∷◌, ◌++◌,
  length, replicate, get_or, set, IsByte, IsBytes, Bool, true, false,
}
use hardware_bitcoin_wallet.Base.Bits.{bit_or_high_low, bit_or_low_high, zero-bit_or}
use hardware_bitcoin_wallet.Hash.{byte_shift}
use hardware_bitcoin_wallet.Hash.Spec.{word, words}

-- What `hashWriteByte` puts into a word at the byte position `k`.
abbrev pub put : Bool → ℕ → ℕ → ℕ → ℕ
put big k w x = bit_or w (u32 (x <<< byte_shift big k))

module _ (a b c x : ℕ) (ha : IsByte a) (hb : IsByte b) (hc : IsByte c) (hx : IsByte x) where
  put_first : (big : Bool) → put big 0 (word big 0 0 0 0) x ≡ word big x 0 0 0
  unfolding byte_shift
  put_first true = ground (arith, zero-bit_or (x * 2 ^ 24))
  put_first false = ground (arith, zero-bit_or x)

  put_second : (big : Bool) → put big 1 (word big a 0 0 0) x ≡ word big a x 0 0
  unfolding byte_shift
  put_second true = ground (arith, bit_or_high_low 24 a (x * 2 ^ 16))
  put_second false = ground (arith, bit_or_low_high 8 x a)

  put_third : (big : Bool) → put big 2 (word big a b 0 0) x ≡ word big a b x 0
  unfolding byte_shift
  put_third true = ground (arith, bit_or_high_low 16 (a * 256 + b) (x * 2 ^ 8))
  put_third false = ground (arith, bit_or_low_high 16 x (b * 256 + a))

  put_fourth : (big : Bool) → put big 3 (word big a b c 0) x ≡ word big a b c x
  unfolding byte_shift
  put_fourth true = ground (arith, bit_or_high_low 8 (a * 65536 + b * 256 + c) x)
  put_fourth false = ground (arith, bit_or_low_high 24 x (c * 65536 + b * 256 + a))

-- Writing the byte behind `p` into the buffer of `p` and `n + 1` zeros gives that of `p` and the
-- byte and `n` zeros.
pub put_byte :
    (big : Bool) (p : List ℕ) (n q x : ℕ)
    → length p + suc n ≡ q * 4
    → IsBytes p
    → IsByte x
    → let m = words big (p ++ replicate (suc n) 0) in
      set m (length p / 4) (put big (length p % 4) (get_or m (length p / 4) 0) x)
      ≡ words big (p ++ x ∷ replicate n 0)
put_byte big [] zero q x e h hx = absurd (omega arith)
put_byte big [] (suc zero) q x e h hx = absurd (omega arith)
put_byte big [] (suc (suc zero)) q x e h hx = absurd (omega arith)
put_byte big [] (suc (suc (suc n))) q x e h hx =
    ap (λ w. w ∷ words big (replicate n 0))
      (put_first 0 0 0 x (omega arith) (omega arith) (omega arith) hx big)
put_byte big (a ∷ []) zero q x e h hx = absurd (omega arith)
put_byte big (a ∷ []) (suc zero) q x e h hx = absurd (omega arith)
put_byte big (a ∷ []) (suc (suc n)) q x e h hx =
    ap (λ w. w ∷ words big (replicate n 0))
      (put_second a 0 0 x h.0 (omega arith) (omega arith) hx big)
put_byte big (a ∷ b ∷ []) zero q x e h hx = absurd (omega arith)
put_byte big (a ∷ b ∷ []) (suc n) q x e h hx =
    ap (λ w. w ∷ words big (replicate n 0)) (put_third a b 0 x h.0 h.1.0 (omega arith) hx big)
put_byte big (a ∷ b ∷ c ∷ []) n q x e h hx =
    ap (λ w. w ∷ words big (replicate n 0)) (put_fourth a b c x h.0 h.1.0 h.1.1.0 hx big)
put_byte big (a ∷ b ∷ c ∷ d ∷ p) n zero x e h hx = absurd (omega arith)
put_byte big (a ∷ b ∷ c ∷ d ∷ p) n (suc q) x e h hx =
    let i : suc (suc (suc (suc (length p)))) / 4 ≡ suc (length p / 4) = omega arith in
    let k : suc (suc (suc (suc (length p)))) % 4 ≡ length p % 4 = omega arith in
    rw (i, k) (ap (λ ws. word big a b c d ∷ ws) (put_byte big p n q x (omega arith) h.1.1.1.1 hx))
