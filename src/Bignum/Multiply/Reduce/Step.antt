-- ===== src/Bignum/Multiply/Reduce/Step.antt =====
-- One round of the reduction in bigMultiply, on the 64 bytes of `full_r`.
use native.Mathlib.Nat.{mul-le-mul_left, mul-le-mul_right}
use hardware_bitcoin_wallet.Base.{
  ℕ, zero, suc, ◌+◌, ◌-◌, ◌*◌, ◌≤◌, ◌<◌, ◌≡◌, ◌∙◌, ap, arith, u8, List, ◌++◌, IsBytes, val, radix,
  length, take, drop, replicate, overwrite,
}
use hardware_bitcoin_wallet.Base.{
  val-lt-radix, val-take, val-overwrite, val-take-drop, radix_mono, radix-add, radix-pos,
  length-take, length-drop, length-overwrite, length-append, IsBytes-take, IsBytes-drop,
  IsBytes-overwrite, IsBytes-append, val-append,
}
use hardware_bitcoin_wallet.Bignum.{Field, add_variable_size_no_modulo}
use hardware_bitcoin_wallet.Bignum.AddSub.{add_variable_size_no_modulo-val}
use hardware_bitcoin_wallet.Bignum.Multiply.{multiply_variable_size_no_modulo, reduce_step}
use hardware_bitcoin_wallet.Bignum.Multiply.Long.{multiply_variable_size_no_modulo-val}
use hardware_bitcoin_wallet.Bignum.Multiply.Reduce.{IsField, multiply_rows-take, add_loop-take}

-- The 64 bytes of `full_r`, of which those from `remaining` on are 0.
pub record IsPartial (full_r : List ℕ) (remaining : ℕ) : Type 0 where
  pub size : length full_r ≡ 64
  pub bytes : IsBytes full_r
  pub small : val full_r < radix remaining

exact_of_small : (m v h s : ℕ) → v + m * h ≡ s → s < m → v ≡ s
exact_of_small m v zero s e p = omega arith
exact_of_small m v (suc h) s e p = absurd (omega arith)

radix_split : (k : ℕ) → 32 ≤ k → radix k ≡ radix 32 * radix (k - 32)
radix_split k h = let e : k ≡ 32 + (k - 32) = omega arith in ap radix e ∙ radix-add 32 (k - 32)

multiply_variable_size_no_modulo-take :
    (k1 k : ℕ) (xs ys : List ℕ)
    → multiply_variable_size_no_modulo xs k1 ys k
      ≡ multiply_variable_size_no_modulo xs k1 (take k ys) k
unfolding multiply_variable_size_no_modulo
multiply_variable_size_no_modulo-take k1 k xs ys = multiply_rows-take k1 k xs ys _

add_variable_size_no_modulo-take :
    (k : ℕ) (xs ys : List ℕ)
    → add_variable_size_no_modulo xs ys k ≡ add_variable_size_no_modulo (take k xs) (take k ys) k
unfolding add_variable_size_no_modulo
add_variable_size_no_modulo-take k xs ys = add_loop-take k xs ys 0

module _ (f : Field) (field : IsField f) where
  abbrev c : ℕ
  c = val f.complement_n

  abbrev size : ℕ
  size = f.size_complement_n

  module _ (full_r : List ℕ) (remaining : ℕ) (left : 32 < remaining) (fits : remaining ≤ 64)
      (p : IsPartial full_r remaining) where
    abbrev low : ℕ
    low = val (take 32 full_r)

    abbrev high : ℕ
    high = val (drop 32 full_r)

    halves : val full_r ≡ low + radix 32 * high
    halves = val-take-drop 32 full_r (omega (arith, p.size))

    low-lt : low < radix 32
    low-lt =
        let e : length (take 32 full_r) ≡ 32 = omega (arith, length-take 32 full_r, p.size) in
        rw e at (val-lt-radix (take 32 full_r) (IsBytes-take 32 full_r p.bytes))

    high-lt : high < radix (remaining - 32)
    high-lt = omega (arith, radix_split remaining (omega arith), halves, p.small)

    abbrev product : List ℕ
    product =
        multiply_variable_size_no_modulo f.complement_n size (drop 32 full_r) (u8 (remaining - 32))

    product-eq :
        product
        ≡ multiply_variable_size_no_modulo f.complement_n size
            (take (remaining - 32) (drop 32 full_r))
            (remaining - 32)
    product-eq =
        let e : u8 (remaining - 32) ≡ remaining - 32 = omega arith in
        rw e (multiply_variable_size_no_modulo-take size (remaining - 32) f.complement_n _)

    product-val :
        (length product ≡ size + (remaining - 32)) × IsBytes product × (val product ≡ c * high)
    product-val =
        let k = remaining - 32 in
        let top : List ℕ = take k (drop 32 full_r) in
        let top_size : length top ≡ k =
          omega (arith, length-take k (drop 32 full_r), length-drop 32 full_r, p.size) in
        let m =
          multiply_variable_size_no_modulo-val size k f.complement_n top field.size top_size
            field.bytes (IsBytes-take k _ (IsBytes-drop 32 full_r p.bytes)) in
        rw product-eq (m.0, m.1, m.2 ∙ ap (λ h. c * h) (val-take k (drop 32 full_r) high-lt))

    -- The 64-byte buffers that the round adds.
    abbrev temp : List ℕ
    temp = overwrite (replicate 64 0) product

    abbrev cleared : List ℕ
    cleared = take 32 full_r ++ overwrite (drop 32 full_r) (replicate 32 0)

    temp-val : (length temp ≡ 64) × IsBytes temp × (val temp ≡ c * high)
    temp-val = (
      length-overwrite (replicate 64 0) product,
      IsBytes-overwrite (replicate 64 0) product (omega arith) product-val.1,
      val-overwrite (replicate 64 0) product (omega (arith, radix-pos (length product)))
            (omega (arith, product-val.0, field.short))
          ∙ product-val.2,
    )

    cleared-val : (length cleared ≡ 64) × IsBytes cleared × (val cleared ≡ low)
    cleared-val =
        let head : List ℕ = take 32 full_r in
        let top : List ℕ = drop 32 full_r in
        let top_size : length top ≡ 32 = omega (arith, length-drop 32 full_r, p.size) in
        let top_lt : val top < radix 32 =
          rw top_size at (val-lt-radix top (IsBytes-drop 32 full_r p.bytes)) in
        let tail_zero : val (overwrite top (replicate 32 0)) ≡ 0 =
          val-overwrite top (replicate 32 0) top_lt (omega arith) in
        (
          omega (
            arith,
            length-append head (overwrite top (replicate 32 0)),
            length-take 32 full_r,
            length-overwrite top (replicate 32 0),
            p.size,
          ),
          IsBytes-append head _ (IsBytes-take 32 full_r p.bytes) (
              IsBytes-overwrite top (replicate 32 0) (IsBytes-drop 32 full_r p.bytes)
                (omega arith)),
          val-append head (overwrite top (replicate 32 0))
              ∙ ap (λ z. low + radix (length head) * z) tail_zero
              ∙ omega arith,
        )

    -- The sum does not pass the bytes that are added, since it is at most the number before.
    sum-le : low + c * high ≤ val full_r
    sum-le =
        let le : c * high ≤ radix 32 * high =
          mul-le-mul_right high (omega (arith, field.complement)) in
        omega (arith, halves)

    abbrev sum : List ℕ × ℕ
    sum = add_variable_size_no_modulo cleared temp remaining

    sum-val : (length sum.0 ≡ remaining) × IsBytes sum.0 × (val sum.0 ≡ low + c * high)
    sum-val =
        let xs : List ℕ = take remaining cleared in
        let ys : List ℕ = take remaining temp in
        let xs_size : length xs ≡ remaining =
          omega (arith, length-take remaining cleared, cleared-val.0) in
        let ys_size : length ys ≡ remaining =
          omega (arith, length-take remaining temp, temp-val.0) in
        let xs_val : val xs ≡ low =
          val-take remaining cleared
            (omega (arith, cleared-val.2, low-lt, radix_mono 32 remaining (omega arith)))
          ∙ cleared-val.2 in
        let ys_val : val ys ≡ c * high =
          val-take remaining temp (omega (arith, temp-val.2, sum-le, p.small)) ∙ temp-val.2 in
        let s =
          add_variable_size_no_modulo-val remaining xs ys xs_size ys_size
            (IsBytes-take remaining cleared cleared-val.1)
            (IsBytes-take remaining temp temp-val.1) in
        rw (add_variable_size_no_modulo-take remaining cleared temp) (
          s.0.0,
          s.0.1,
          exact_of_small (radix remaining) _ _ (low + c * high) (s.1 ∙ omega arith)
              (omega (arith, sum-le, p.small)),
        )

    -- One round replaces L + 2 ^ 256 * H by L + c * H, which is less by H times the modulus.
    pub reduce_step-val :
        (length (reduce_step f full_r remaining) ≡ 64)
        × IsBytes (reduce_step f full_r remaining)
        × (val (reduce_step f full_r remaining) ≡ low + c * high)
        × (val (reduce_step f full_r remaining) + val f.n * high ≡ val full_r)
    unfolding reduce_step
    reduce_step-val =
        let out : val (overwrite cleared sum.0) ≡ low + c * high =
          val-overwrite cleared sum.0
            (rw (sum-val.0, cleared-val.2)
              (omega (arith, low-lt, radix_mono 32 remaining (omega arith))))
            (omega (arith, sum-val.0, cleared-val.0))
          ∙ sum-val.2 in
        let out_sum : val (overwrite cleared sum.0) + val f.n * high ≡ val full_r =
          omega (arith, out, halves, ap (λ (t : ℕ). t * high) field.complement) in
        (
          length-overwrite cleared sum.0 ∙ cleared-val.0,
          IsBytes-overwrite cleared sum.0 cleared-val.1 sum-val.1,
          out,
          out_sum,
        )

    -- After a round the number passes 2 ^ 256 by less than half of 256 to the next `remaining`.
    pub reduce_step_bound :
        2 * val (reduce_step f full_r remaining)
        < 2 * radix 32 + radix (remaining - 32 + f.size_complement_n)
    reduce_step_bound =
        let k = remaining - 32 in
        let a : 2 * c * high ≤ radix size * high = mul-le-mul_right high field.spare in
        let b : radix size * high ≤ radix size * radix k =
          mul-le-mul_left (radix size) (omega (arith, high-lt)) in
        omega (arith, low-lt, reduce_step-val.2, a, b, radix-add k size)
