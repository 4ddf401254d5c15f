-- ===== src/Bignum/Multiply/Powers.antt =====
-- bigInvert: a test for the powers of a number that the ladder meets, which finds them by squaring.
use native.Mathlib.Nat.{pow-zero, pow-suc, mod-mod}
use mathlib.Core.Path.{subst}
use mathlib.Core.Bool.{and-eq-true_iff}
use hardware_bitcoin_wallet.Base.{
  ℕ, zero, suc, ◌+◌, ◌*◌, ◌/◌, ◌%◌, ◌^◌, ◌<◌, ◌≡◌, refl, ◌∙◌, sym, ap, arith, Bool, true, ◌&&◌,
  ◌||◌, ltb, leb, inl, inr, ltb→lt, leb→le, Bool-cases, val, radix,
}
use hardware_bitcoin_wallet.Bignum.{Field}
use hardware_bitcoin_wallet.Bignum.Multiply.Reduce.Gap.{last_remaining}
use hardware_bitcoin_wallet.Bignum.Multiply.Residues.{pow-add, mul_mod_congruent}
use hardware_bitcoin_wallet.Bignum.Multiply.Exponent.{halved}
use hardware_bitcoin_wallet.Bignum.Multiply.Invert.{IsOutsideGap, IsClear}

module _ (f : Field) (a : ℕ) where
  abbrev n : ℕ
  n = val f.n

  abbrev is_outside : ℕ → Bool
  is_outside r =
      ltb r (val f.complement_n)
      || leb (2 * val f.complement_n + radix (last_remaining 32 f.size_complement_n 64)) (2 * r)

  is_outside→IsOutsideGap : (r : ℕ) → is_outside r ≡ true → IsOutsideGap f r
  is_outside→IsOutsideGap r h = elim (Bool-cases (ltb r (val f.complement_n))) [
    | inl below ↦ inl (ltb→lt _ _ below)
    | inr not_below ↦ inr (leb→le _ _ (rw not_below at h))
  ]

  -- Whether the powers with the leading bits of `e` as exponents are clear, and the last of these.
  unfoldable pub check : ℕ → ℕ → Bool × ℕ
  check zero e = (true, 1 % n)
  check (suc rounds) e =
      let (before, root) = check rounds (e / 2) in
      let power = (root * root) % n * a ^ (e % 2) % n in
      (before && (is_outside power && is_outside (power * a % n)), power)

  check-power : (rounds e : ℕ) → e < 2 ^ rounds → (check rounds e).1 ≡ a ^ e % n
  unfolding check
  check-power zero e h = let none : e ≡ 0 = omega arith in rw (none, pow-zero a) refl
  check-power (suc rounds) e h =
      let root = check-power rounds (e / 2) (omega (arith, pow-suc 2 rounds)) in
      let whole : (e / 2 + e / 2) + e % 2 ≡ e = omega arith in
      rw root (
        mul_mod_congruent _ (a ^ (e % 2)) (a ^ (e / 2 + e / 2)) (a ^ (e % 2)) n
          (mod-mod _ n
            ∙ mul_mod_congruent _ _ (a ^ (e / 2)) (a ^ (e / 2)) n (mod-mod _ n) (mod-mod _ n)
            ∙ ap (λ t. t % n) (sym (pow-add a (e / 2) (e / 2))))
          refl
        ∙ ap (λ t. t % n) (sym (pow-add a (e / 2 + e / 2) (e % 2)))
        ∙ ap (λ k. a ^ k % n) whole)

  next_power : (power e : ℕ) → power ≡ a ^ e % n → power * a % n ≡ a ^ suc e % n
  next_power power e h =
      mul_mod_congruent power a (a ^ e) a n (ap (λ t. t % n) h ∙ mod-mod (a ^ e) n) refl
      ∙ ap (λ t. t % n) (sym (pow-suc a e))

  pub check-IsClear :
      (rounds e : ℕ)
      → e < 2 ^ rounds
      → (check rounds e).0 ≡ true
      → (j : ℕ) → j < rounds
      → IsClear f a (halved j e)
  unfolding check halved
  check-IsClear zero e h all j le = absurd (omega arith)
  check-IsClear (suc rounds) e h all zero le =
      let here = (and-eq-true_iff _ _).0 ((and-eq-true_iff _ _).0 all).1 in
      let power = check-power (suc rounds) e h in
      (
        subst (IsOutsideGap f) power (is_outside→IsOutsideGap _ here.0),
        subst (IsOutsideGap f) (next_power _ e power) (is_outside→IsOutsideGap _ here.1),
      )
  check-IsClear (suc rounds) e h all (suc j) le =
      check-IsClear rounds (e / 2) (omega (arith, pow-suc 2 rounds)) ((and-eq-true_iff _ _).0 all).0
        j (omega arith)
