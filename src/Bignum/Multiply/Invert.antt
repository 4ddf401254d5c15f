-- ===== src/Bignum/Multiply/Invert.antt =====
-- bigInvert: the ladder raises the number to the power n - 2.
use native.Mathlib.Nat.{pow-zero, mod-mod}
use mathlib.Core.Path.{subst}
use hardware_bitcoin_wallet.Base.{
  ℕ, zero, suc, ◌+◌, ◌-◌, ◌*◌, ◌/◌, ◌%◌, ◌^◌, ◌≤◌, ◌<◌, ◌≡◌, refl, ◌∙◌, sym, ap, arith, u8, List,
  ◌∷◌, ◌⊎◌, false, val, radix, get_or, get_or-IsByte, drop, replicate, bit_and, ◌==◌, if◌then◌else◌,
  ◌>>>◌, IsByte,
}
use hardware_bitcoin_wallet.Base.Bits.{bit_and_top_bit}
use hardware_bitcoin_wallet.Bignum.{Field}
use hardware_bitcoin_wallet.Bignum.Modular.{IsNum256}
use hardware_bitcoin_wallet.Bignum.Multiply.{
  multiply, Ladder, ladder_step, ladder_bits, ladder_bytes, invert,
}
use hardware_bitcoin_wallet.Bignum.Multiply.Exponent.{
  lowered, lowered_first, get_or-lowered, val-lowered, val-drop, drop_all, length-lowered, halved,
  halved-add,
}
use hardware_bitcoin_wallet.Bignum.Multiply.Residues.{pow-add, one_power, mul_mod_congruent}
use hardware_bitcoin_wallet.Bignum.Multiply.Reduce.{IsField}
use hardware_bitcoin_wallet.Bignum.Multiply.Reduce.Gap.{last_remaining, multiply-val}

suc_ne_zero : (i : ℕ) → (suc i == 0) ≡ false
suc_ne_zero i = ground arith

-- A residue at which `multiply-val` applies.
abbrev pub IsOutsideGap : Field → ℕ → Type 0
IsOutsideGap f r =
    (r < val f.complement_n)
    ⊎ (2 * val f.complement_n + radix (last_remaining 32 f.size_complement_n 64) ≤ 2 * r)

-- `multiply-val` applies at two powers in a row, the exponent `e` and the next.
abbrev pub IsClear : Field → ℕ → ℕ → Type 0
IsClear f a e = IsOutsideGap f (a ^ e % val f.n) × IsOutsideGap f (a ^ suc e % val f.n)

module _ (f : Field) (field : IsField f) (a : ℕ) where
  abbrev n : ℕ
  n = val f.n

  same-IsClear : (i k : ℕ) → i ≡ k → IsClear f a k → IsClear f a i
  same-IsClear i k e h = rw e h

  -- The ladder holds the powers `m` and `m + 1`.
  record IsAt (m : ℕ) (s : Ladder) : Type 0 where
    r_num : IsNum256 s.r
    temp_num : IsNum256 s.temp
    r_power : val s.r % n ≡ a ^ m % n
    temp_power : val s.temp % n ≡ a ^ suc m % n

  same_IsAt : (m k : ℕ) (s : Ladder) → m ≡ k → IsAt m s → IsAt k s
  same_IsAt m k s e = subst (λ t. IsAt t s) e

  multiply_powers :
      (i j k : ℕ) (x y : List ℕ)
      → i + j ≡ k
      → IsOutsideGap f (a ^ k % n)
      → IsNum256 x
      → IsNum256 y
      → val x % n ≡ a ^ i % n
      → val y % n ≡ a ^ j % n
      → IsNum256 (multiply f x y) × (val (multiply f x y) % n ≡ a ^ k % n)
  multiply_powers i j k x y sum outside p q e e' =
      let residue : (val x * val y) % n ≡ a ^ k % n =
        mul_mod_congruent (val x) (val y) (a ^ i) (a ^ j) n e e'
        ∙ ap (λ t. t % n) (sym (pow-add a i j))
        ∙ ap (λ t. a ^ t % n) sum in
      let m = multiply-val f field x y p q (rw residue outside) in
      (m.0, ap (λ t. t % n) (m.1 ∙ residue) ∙ mod-mod (a ^ k) n)

  ladder_step-IsAt :
      (m bit : ℕ) (s : Ladder)
      → bit < 2
      → IsClear f a (2 * m + bit)
      → IsAt m s
      → IsAt (2 * m + bit) (ladder_step f bit s)
  unfolding ladder_step
  ladder_step-IsAt m zero s h clear k =
      let sq =
        multiply_powers m m (2 * m + 0) s.r s.r (omega arith) clear.0 k.r_num k.r_num k.r_power
          k.r_power in
      let pr =
        multiply_powers m (suc m) (suc (2 * m + 0)) s.r s.temp (omega arith) clear.1 k.r_num
          k.temp_num k.r_power k.temp_power in
      record { r_num = sq.0; temp_num = pr.0; r_power = sq.1; temp_power = pr.1 }
  ladder_step-IsAt m (suc zero) s h clear k =
      let pr =
        multiply_powers m (suc m) (2 * m + 1) s.r s.temp (omega arith) clear.0 k.r_num k.temp_num
          k.r_power k.temp_power in
      let sq =
        multiply_powers (suc m) (suc m) (suc (2 * m + 1)) s.temp s.temp (omega arith) clear.1
          k.temp_num k.temp_num k.temp_power k.temp_power in
      record { r_num = pr.0; temp_num = sq.0; r_power = pr.1; temp_power = sq.1 }
  ladder_step-IsAt m (suc (suc bit)) s h clear k = absurd (omega arith)

  -- The exponent after the bits that are left of a byte.
  shifted : ℕ → ℕ → ℕ → ℕ
  shifted zero byte m = m
  shifted (suc rounds) byte m = shifted rounds (u8 (byte * 2)) (2 * m + byte / 128)

  ladder_bits-IsAt :
      (rounds byte m : ℕ) (s : Ladder)
      → IsByte byte
      → ((k : ℕ) → k < rounds → IsClear f a (shifted (suc k) byte m))
      → IsAt m s
      → IsAt (shifted rounds byte m) (ladder_bits f rounds byte s)
  unfolding ladder_bits shifted
  ladder_bits-IsAt zero byte m s h clear k = k
  ladder_bits-IsAt (suc rounds) byte m s h clear k =
      let bit : bit_and byte 0x80 >>> 7 ≡ byte / 128 =
        ap (λ t. t / 128) (bit_and_top_bit byte h) ∙ omega arith in
      let step = ladder_step-IsAt m (byte / 128) s (omega arith) (clear 0 (omega arith)) k in
      rw bit (
        ladder_bits-IsAt rounds (u8 (byte * 2)) (2 * m + byte / 128) (ladder_step f (byte / 128) s)
          (omega arith) (λ j le. clear (suc j) (omega arith)) step)

  eight_shifts : (byte m : ℕ) → IsByte byte → shifted 8 byte m ≡ 256 * m + byte
  unfolding shifted
  eight_shifts byte m h = omega arith

  -- What the bits of a byte lead to, one after another.
  shifted-eq :
      (k byte m : ℕ)
      → IsByte byte
      → k < 8
      → shifted (suc k) byte m ≡ halved (7 - k) (256 * m + byte)
  unfolding shifted halved
  shifted-eq zero byte m h le = omega arith
  shifted-eq (suc zero) byte m h le = omega arith
  shifted-eq (suc (suc zero)) byte m h le = omega arith
  shifted-eq (suc (suc (suc zero))) byte m h le = omega arith
  shifted-eq (suc (suc (suc (suc zero)))) byte m h le = omega arith
  shifted-eq (suc (suc (suc (suc (suc zero))))) byte m h le = omega arith
  shifted-eq (suc (suc (suc (suc (suc (suc zero)))))) byte m h le = omega arith
  shifted-eq (suc (suc (suc (suc (suc (suc (suc zero))))))) byte m h le = omega arith
  shifted-eq (suc (suc (suc (suc (suc (suc (suc (suc k)))))))) byte m h le = absurd (omega arith)

  module _ (low : 2 ≤ get_or f.n 0 0) where
    abbrev byte_at : ℕ → ℕ
    byte_at i = let byte = get_or f.n i 0 in if i == 0 then u8 (byte + 256 - 2) else byte

    byte_at-eq : (i : ℕ) → byte_at i ≡ get_or (lowered f.n) i 0
    byte_at-eq zero = lowered_first f.n low (get_or-IsByte f.n 0 field.modulus.num.1)
    byte_at-eq (suc i) = rw (suc_ne_zero i) (get_or-lowered f.n i)

    byte_at-IsByte : (i : ℕ) → IsByte (byte_at i)
    byte_at-IsByte zero = omega arith
    byte_at-IsByte (suc i) = rw (suc_ne_zero i) (get_or-IsByte f.n (suc i) field.modulus.num.1)

    -- The exponent before the last `i` bytes are read.
    abbrev leading : ℕ → ℕ
    leading i = val (drop i (lowered f.n))

    leading-suc : (i : ℕ) → leading i ≡ 256 * leading (suc i) + byte_at i
    leading-suc i = rw (byte_at-eq i) (val-drop (lowered f.n) i)

    leading-halved : (i : ℕ) → leading i ≡ halved (8 * i) (leading 0)
    unfolding halved
    leading-halved zero = refl
    leading-halved (suc i) =
        let more : 8 * suc i ≡ 8 * i + 8 = omega arith in
        let byte = byte_at-IsByte i in
        let one : leading (suc i) ≡ halved 8 (leading i) =
          rw (leading-suc i) (omega (arith, byte)) in
        one
        ∙ ap (halved 8) (leading-halved i)
        ∙ sym (halved-add (8 * i) 8 (leading 0))
        ∙ ap (λ j. halved j (leading 0)) (sym more)

    start :
        (op1 : List ℕ)
        → IsNum256 op1
        → val op1 ≡ a
        → IsAt 0 (record { r = 1 ∷ replicate 31 0; temp = op1 })
    start op1 p e = record {
      r_num = omega arith;
      temp_num = p;
      r_power = ap (λ t. t % n) (sym (pow-zero a));
      temp_power = ap (λ t. t % n) (e ∙ one_power a);
    }

    module _ (clear : (j : ℕ) → j < 256 → IsClear f a (halved j (n - 2))) where
      byte-IsClear :
          (i : ℕ)
          → i < 32
          → (k : ℕ) → k < 8
          → IsClear f a (shifted (suc k) (byte_at i) (leading (suc i)))
      byte-IsClear i le k le' =
          let here : shifted (suc k) (byte_at i) (leading (suc i))
              ≡ halved (8 * i + (7 - k)) (n - 2) =
            shifted-eq k (byte_at i) (leading (suc i)) (byte_at-IsByte i) le'
            ∙ ap (halved (7 - k)) (sym (leading-suc i) ∙ leading-halved i)
            ∙ sym (halved-add (8 * i) (7 - k) (leading 0))
            ∙ ap (halved (8 * i + (7 - k))) (val-lowered f.n low) in
          same-IsClear _ _ here (clear (8 * i + (7 - k)) (omega arith))

      ladder_bytes-IsAt :
          (i : ℕ) (s : Ladder) → i ≤ 32 → IsAt (leading i) s → IsAt (leading 0) (ladder_bytes f i s)
      unfolding ladder_bytes
      ladder_bytes-IsAt zero s le k = k
      ladder_bytes-IsAt (suc i) s le k =
          let here =
            ladder_bits-IsAt 8 (byte_at i) (leading (suc i)) s (byte_at-IsByte i)
              (byte-IsClear i (omega arith)) k in
          let there =
            rw (eight_shifts (byte_at i) (leading (suc i)) (byte_at-IsByte i), ← leading-suc i) at
              here in
          ladder_bytes-IsAt i _ (omega arith) there

      -- In a field whose modulus has a first byte of at least 2: where `multiply-val` applies at the
      -- residues of the powers that the ladder meets, those whose exponents are the leading bits of
      -- n - 2 and the exponents one above, `bigInvert` raises the number to the power n - 2 modulo n.
      -- By Fermat's little theorem, for a prime n, that is the inverse.
      pub invert-val :
          (op1 : List ℕ)
          → IsNum256 op1
          → val op1 ≡ a
          → IsNum256 (invert f op1) × (val (invert f op1) % n ≡ a ^ (n - 2) % n)
      unfolding invert
      invert-val op1 p e =
          let nothing_read : leading 32 ≡ 0 =
            drop_all 32 (lowered f.n) (omega (arith, length-lowered f.n, field.modulus.num.0)) in
          let begun = same_IsAt 0 (leading 32) _ (sym nothing_read) (start op1 p e) in
          let done = ladder_bytes-IsAt 32 _ (omega arith) begun in
          (done.r_num, done.r_power ∙ ap (λ k. a ^ k % n) (val-lowered f.n low))
