-- ===== src/Bignum/Multiply/Reduce/Product.antt =====
-- bigMultiply: the loop ends, what it leaves is congruent to the product, and what that makes of
-- the result.
use native.Mathlib.Nat.{mod-eq_of_lt, add-mul-mod_self_left}
use hardware_bitcoin_wallet.Base.{
  ℕ, zero, suc, ◌+◌, ◌-◌, ◌*◌, ◌%◌, ◌≤◌, ◌<◌, ◌≡◌, ◌∙◌, refl, sym, ap, arith, u8, List, inl, inr,
  IsBytes, val, radix, length, take, drop, ltb, ltb→lt, Bool-cases,
}
use hardware_bitcoin_wallet.Base.{radix_mono, val-take-drop, IsBytes-take, length-take}
use hardware_bitcoin_wallet.Base.{val-lt-radix}
use hardware_bitcoin_wallet.Bignum.{Field}
use hardware_bitcoin_wallet.Bignum.Modular.{IsNum256, modulo-val}
use hardware_bitcoin_wallet.Bignum.Multiply.{
  reduce_step, reduce_loop, multiply, multiply_variable_size_no_modulo,
}
use hardware_bitcoin_wallet.Bignum.Multiply.Long.{multiply_variable_size_no_modulo-val}
use hardware_bitcoin_wallet.Bignum.Multiply.Reduce.{IsField}
use hardware_bitcoin_wallet.Bignum.Multiply.Reduce.Step.{
  IsPartial, reduce_step-val, reduce_step_bound,
}

-- What the loop keeps: while it runs the bytes from `remaining` on are 0, and when it stops the
-- number may pass 2 ^ 256 by less than half of 256 ^ remaining.
record IsKept (full_r : List ℕ) (remaining : ℕ) : Type 0 where
  size : length full_r ≡ 64
  bytes : IsBytes full_r
  fits : remaining ≤ 64
  running : 32 < remaining → val full_r < radix remaining
  stopped : remaining ≤ 32 → 2 * val full_r < 2 * radix 32 + radix remaining

-- What the loop returns: it has stopped, and a multiple of the modulus was taken away.
pub record IsReduced (f : Field) (before : ℕ) (out : List ℕ × ℕ) : Type 0 where
  pub size : length out.0 ≡ 64
  pub bytes : IsBytes out.0
  pub ended : out.1 ≤ 32
  pub bound : 2 * val out.0 < 2 * radix 32 + radix out.1
  pub quotient : ℕ
  pub congruent : before ≡ val out.0 + val f.n * quotient

-- `full_r` and `remaining` when the loop of `bigMultiply` ends.
abbrev pub reduced : Field → List ℕ → List ℕ → List ℕ × ℕ
reduced f op1 op2 = reduce_loop 32 f (multiply_variable_size_no_modulo op1 32 op2 32) 64

module _ (f : Field) (field : IsField f) where
  abbrev c : ℕ
  c = val f.complement_n

  abbrev next : ℕ → ℕ
  next remaining = u8 (remaining - 32 + f.size_complement_n)

  module _ (full_r : List ℕ) (remaining : ℕ) (left : 32 < remaining)
      (k : IsKept full_r remaining) where
    partial : IsPartial full_r remaining
    partial = record { size = k.size; bytes = k.bytes; small = k.running left }

    step-IsKept : IsKept (reduce_step f full_r remaining) (next remaining)
    step-IsKept =
        let s = reduce_step-val f field full_r remaining left k.fits partial in
        let b = reduce_step_bound f field full_r remaining left k.fits partial in
        let e : next remaining ≡ remaining - 32 + f.size_complement_n =
          omega (arith, k.fits, field.short) in
        record {
          size = s.0;
          bytes = s.1;
          fits = omega (arith, k.fits, field.short);
          running =
              λ h. rw e (omega (arith, b, radix_mono 33 (remaining - 32 + f.size_complement_n)));
          stopped = λ h. rw e b;
        }

    step-congruent : (q : ℕ) × (val full_r ≡ val (reduce_step f full_r remaining) + val f.n * q)
    step-congruent = (_, sym (reduce_step-val f field full_r remaining left k.fits partial).3)

  IsReduced-step :
      (before after q : ℕ) (out : List ℕ × ℕ)
      → before ≡ after + val f.n * q
      → IsReduced f after out
      → IsReduced f before out
  IsReduced-step before after q out e r = record {
    size = r.size;
    bytes = r.bytes;
    ended = r.ended;
    bound = r.bound;
    quotient = r.quotient + q;
    congruent = omega (arith, r.congruent);
  }

  IsReduced-here :
      (full_r : List ℕ) (remaining : ℕ)
      → IsKept full_r remaining
      → remaining ≤ 32
      → IsReduced f (val full_r) (full_r, remaining)
  IsReduced-here full_r remaining k h = record {
    size = k.size;
    bytes = k.bytes;
    ended = h;
    bound = k.stopped h;
    quotient = 0;
    congruent = omega arith;
  }

  -- The reduction ends within the fuel: it stops at a `remaining` of at most 32.
  reduce_loop-IsReduced :
      (fuel : ℕ) (full_r : List ℕ) (remaining : ℕ)
      → remaining ≤ 32 + fuel
      → IsKept full_r remaining
      → IsReduced f (val full_r) (reduce_loop fuel f full_r remaining)
  unfolding reduce_loop
  reduce_loop-IsReduced zero full_r remaining h k = IsReduced-here full_r remaining k h
  reduce_loop-IsReduced (suc fuel) full_r remaining h k = elim (Bool-cases (ltb 32 remaining)) [
    | inl left ↦
        let big = ltb→lt 32 remaining left in
        let s = step-congruent full_r remaining big k in
        let k' = step-IsKept full_r remaining big k in
        rw left (
          IsReduced-step (val full_r) (val (reduce_step f full_r remaining)) s.0 _ s.1 (
            reduce_loop-IsReduced fuel (reduce_step f full_r remaining) (next remaining)
              (omega (arith, k.fits, field.short)) k'))
    | inr done ↦ rw done (IsReduced-here full_r remaining k (ground arith))
  ]

  reduced-IsReduced :
      (op1 op2 : List ℕ)
      → IsNum256 op1
      → IsNum256 op2
      → IsReduced f (val op1 * val op2) (reduced f op1 op2)
  reduced-IsReduced op1 op2 p q =
      let m = multiply_variable_size_no_modulo-val 32 32 op1 op2 p.0 q.0 p.1 q.1 in
      let full : List ℕ = multiply_variable_size_no_modulo op1 32 op2 32 in
      rw m.2 at (
        reduce_loop-IsReduced 32 full 64 (omega arith) (record {
          size = m.0;
          bytes = m.1;
          fits = omega arith;
          running = λ _. rw m.0 at (val-lt-radix full m.1);
          stopped = λ h. absurd (omega arith);
        }))

  -- What `bigMultiply` returns, by the byte above the 32 that it keeps: 0, and then the result is
  -- the residue, or 1, and then the result falls short of the residue by the complement.
  pub data Outcome (op1 op2 : List ℕ) : Type 0 where
    exact :
        val (drop 32 (reduced f op1 op2).0) ≡ 0
        → val (multiply f op1 op2) ≡ (val op1 * val op2) % val f.n
        → Outcome op1 op2
    short :
        val (drop 32 (reduced f op1 op2).0) ≡ 1
        → val (multiply f op1 op2) + c ≡ (val op1 * val op2) % val f.n
        → 2 * val (multiply f op1 op2) < radix (reduced f op1 op2).1
        → Outcome op1 op2

  product_residue :
      (op1 op2 : List ℕ) (rest k : ℕ) (out : IsReduced f (val op1 * val op2) (reduced f op1 op2))
      → val (reduced f op1 op2).0 ≡ rest + val f.n * k
      → rest % val f.n ≡ (val op1 * val op2) % val f.n
  product_residue op1 op2 rest k out e =
      let total : val op1 * val op2 ≡ rest + val f.n * (k + out.quotient) =
        omega (arith, out.congruent) in
      sym (ap (λ t. t % val f.n) total ∙ add-mul-mod_self_left rest (val f.n) (k + out.quotient))

  Outcome-of :
      (op1 op2 : List ℕ) (low high : ℕ)
      → IsReduced f (val op1 * val op2) (reduced f op1 op2)
      → high ≡ val (drop 32 (reduced f op1 op2).0)
      → val (multiply f op1 op2) ≡ low % val f.n
      → val (reduced f op1 op2).0 ≡ low + radix 32 * high
      → low < radix 32
      → Outcome op1 op2
  Outcome-of op1 op2 low zero out e m v lt =
      exact (sym e) (m ∙ product_residue op1 op2 low 0 out (omega arith))
  Outcome-of op1 op2 low (suc zero) out e m v lt =
      let small : 2 * low < radix (reduced f op1 op2).1 = omega (arith, out.bound) in
      let below : val f.complement_n + low < val f.n = omega (
        arith,
        field.complement,
        field.spare,
        radix_mono f.size_complement_n 31 (omega (arith, field.short)),
        radix_mono (reduced f op1 op2).1 32 out.ended,
      ) in
      let low_exact : val (multiply f op1 op2) ≡ low = m ∙ mod-eq_of_lt (omega arith) in
      let residue : (c + low) % val f.n ≡ (val op1 * val op2) % val f.n =
        product_residue op1 op2 (c + low) 1 out (omega (arith, field.complement)) in
      short (sym e) (omega (arith, low_exact, residue, mod-eq_of_lt below))
        (omega (arith, low_exact))
  Outcome-of op1 op2 low (suc (suc high)) out e m v lt =
      absurd (omega (arith, out.bound, radix_mono (reduced f op1 op2).1 32 out.ended))

  pub multiply-Outcome :
      (op1 op2 : List ℕ)
      → IsNum256 op1
      → IsNum256 op2
      → IsNum256 (multiply f op1 op2) × Outcome op1 op2
  unfolding multiply
  multiply-Outcome op1 op2 p q =
      let out = reduced-IsReduced op1 op2 p q in
      let full : List ℕ = (reduced f op1 op2).0 in
      let kept : List ℕ = take 32 full in
      let kept_num : IsNum256 kept =
        (omega (arith, length-take 32 full, out.size), IsBytes-take 32 full out.bytes) in
      let m = modulo-val f field.modulus kept kept_num in
      (
        m.0,
        Outcome-of op1 op2 (val kept) (val (drop 32 full)) out refl m.1
            (val-take-drop 32 full (omega (arith, out.size)))
            (rw kept_num.0 at (val-lt-radix kept kept_num.1)),
      )
