-- ===== src/Aes/Columns.antt =====
-- The columns of aes.c: `invMixSubColumns` undoes the mix that `mixSubColumns` makes of a column.
use hardware_bitcoin_wallet.Base.{
  ℕ, ◌≡◌, refl, ap, ap₂, ◌∙◌, arith, bit_xor, true, ◌==◌, ◌&&◌, ==_iff, IsByte,
}
use mathlib.Core.Bool.{and-eq-true_iff}
use hardware_bitcoin_wallet.Base.Xor.{bit_xor_bound}
use hardware_bitcoin_wallet.Aes.{
  x_times_2_in_gf, x_times_3_in_gf, x_times_4_in_gf, x_times_8_in_gf, x_times_9_in_gf,
  x_times_b_in_gf, x_times_d_in_gf, x_times_e_in_gf, mixed, unmixed,
}
use hardware_bitcoin_wallet.Aes.Field.{
  every, every_at, zero_xor, xor_zero, interchange, double-bit_xor, double-IsByte,
}

-- The four bytes of a column.
record Column : Type 0 where
  c0 : ℕ
  c1 : ℕ
  c2 : ℕ
  c3 : ℕ

IsColumn : Column → Type 0
IsColumn c = IsByte c.c0 × (IsByte c.c1 × (IsByte c.c2 × IsByte c.c3))

xor_column : Column → Column → Column
xor_column c d = record {
  c0 = bit_xor c.c0 d.c0;
  c1 = bit_xor c.c1 d.c1;
  c2 = bit_xor c.c2 d.c2;
  c3 = bit_xor c.c3 d.c3;
}

xor-IsColumn : (c d : Column) → IsColumn c → IsColumn d → IsColumn (xor_column c d)
unfolding IsColumn xor_column
xor-IsColumn c d p q = (
  bit_xor_bound 8 c.c0 d.c0 p.0 q.0,
  (
    bit_xor_bound 8 c.c1 d.c1 p.1.0 q.1.0,
    (bit_xor_bound 8 c.c2 d.c2 p.1.1.0 q.1.1.0, bit_xor_bound 8 c.c3 d.c3 p.1.1.1 q.1.1.1),
  ),
)

-- A function of a column that gives a byte and is additive.
record Additive (f : Column → ℕ) : Type 0 where
  gives : (c : Column) → IsColumn c → IsByte (f c)
  adds : (c d : Column) → IsColumn c → IsColumn d → f (xor_column c d) ≡ bit_xor (f c) (f d)

c0-Additive : Additive (λ c. c.c0)
unfolding IsColumn xor_column
c0-Additive = record { gives = λ c p. p.0; adds = λ c d p q. refl }

c1-Additive : Additive (λ c. c.c1)
unfolding IsColumn xor_column
c1-Additive = record { gives = λ c p. p.1.0; adds = λ c d p q. refl }

c2-Additive : Additive (λ c. c.c2)
unfolding IsColumn xor_column
c2-Additive = record { gives = λ c p. p.1.1.0; adds = λ c d p q. refl }

c3-Additive : Additive (λ c. c.c3)
unfolding IsColumn xor_column
c3-Additive = record { gives = λ c p. p.1.1.1; adds = λ c d p q. refl }

double-Additive : (f : Column → ℕ) → Additive f → Additive (λ c. x_times_2_in_gf (f c))
double-Additive f h = record {
  gives = λ c p. double-IsByte (f c);
  adds = λ c d p q.
      ap x_times_2_in_gf (h.adds c d p q) ∙ double-bit_xor (f c) (f d) (h.gives c p) (h.gives d q);
}

xor-Additive : (f g : Column → ℕ) → Additive f → Additive g → Additive (λ c. bit_xor (f c) (g c))
xor-Additive f g h k = record {
  gives = λ c p. bit_xor_bound 8 (f c) (g c) (h.gives c p) (k.gives c p);
  adds = λ c d p q.
      ap₂ bit_xor (h.adds c d p q) (k.adds c d p q)
      ∙ interchange (f c) (f d) (g c) (g d) (h.gives c p) (h.gives d q) (k.gives c p) (k.gives d q);
}

module _ (f : Column → ℕ) (h : Additive f) where
  times_2 : Additive (λ c. x_times_2_in_gf (f c))
  times_2 = double-Additive f h

  times_4 : Additive (λ c. x_times_4_in_gf (f c))
  unfolding x_times_4_in_gf
  times_4 = double-Additive (λ c. x_times_2_in_gf (f c)) times_2

  times_8 : Additive (λ c. x_times_8_in_gf (f c))
  unfolding x_times_8_in_gf
  times_8 = double-Additive (λ c. x_times_4_in_gf (f c)) times_4

  times_3 : Additive (λ c. x_times_3_in_gf (f c))
  unfolding x_times_3_in_gf
  times_3 = xor-Additive (λ c. x_times_2_in_gf (f c)) f times_2 h

  times_9 : Additive (λ c. x_times_9_in_gf (f c))
  unfolding x_times_9_in_gf
  times_9 = xor-Additive (λ c. x_times_8_in_gf (f c)) f times_8 h

  times_b : Additive (λ c. x_times_b_in_gf (f c))
  unfolding x_times_b_in_gf
  times_b = xor-Additive (λ c. x_times_9_in_gf (f c)) (λ c. x_times_2_in_gf (f c)) times_9 times_2

  times_d : Additive (λ c. x_times_d_in_gf (f c))
  unfolding x_times_d_in_gf
  times_d = xor-Additive (λ c. x_times_9_in_gf (f c)) (λ c. x_times_4_in_gf (f c)) times_9 times_4

  times_e : Additive (λ c. x_times_e_in_gf (f c))
  unfolding x_times_e_in_gf
  times_e =
      xor-Additive (λ c. bit_xor (x_times_8_in_gf (f c)) (x_times_4_in_gf (f c)))
        (λ c. x_times_2_in_gf (f c))
        (xor-Additive (λ c. x_times_8_in_gf (f c)) (λ c. x_times_4_in_gf (f c)) times_8 times_4)
        times_2

xor_4 :
    (f g h k : Column → ℕ)
    → Additive f
    → Additive g
    → Additive h
    → Additive k
    → Additive (λ c. bit_xor (bit_xor (bit_xor (f c) (g c)) (h c)) (k c))
xor_4 f g h k p q r s =
    xor-Additive (λ c. bit_xor (bit_xor (f c) (g c)) (h c)) k
      (xor-Additive (λ c. bit_xor (f c) (g c)) h (xor-Additive f g p q) r) s

module _ (f g h k : Column → ℕ) (p : Additive f) (q : Additive g) (r : Additive h)
    (s : Additive k) where
  mixed-Additive : Additive (λ c. mixed (f c) (g c) (h c) (k c))
  unfolding mixed
  mixed-Additive =
      xor_4 (λ c. x_times_2_in_gf (f c)) (λ c. x_times_3_in_gf (g c)) h k (times_2 f p)
        (times_3 g q) r s

  unmixed-Additive : Additive (λ c. unmixed (f c) (g c) (h c) (k c))
  unfolding unmixed
  unmixed-Additive =
      xor_4 (λ c. x_times_e_in_gf (f c)) (λ c. x_times_b_in_gf (g c)) (λ c. x_times_d_in_gf (h c))
        (λ c. x_times_9_in_gf (k c)) (times_e f p) (times_b g q) (times_d h r) (times_9 k s)

-- The first byte of a column that is mixed and then unmixed.
there_and_back : Column → ℕ
there_and_back c =
    unmixed (mixed c.c0 c.c1 c.c2 c.c3) (mixed c.c1 c.c2 c.c3 c.c0) (mixed c.c2 c.c3 c.c0 c.c1)
      (mixed c.c3 c.c0 c.c1 c.c2)

there_and_back-Additive : Additive there_and_back
unfolding there_and_back
there_and_back-Additive =
    unmixed-Additive (λ c. mixed c.c0 c.c1 c.c2 c.c3) (λ c. mixed c.c1 c.c2 c.c3 c.c0)
      (λ c. mixed c.c2 c.c3 c.c0 c.c1) (λ c. mixed c.c3 c.c0 c.c1 c.c2)
      (mixed-Additive _ _ _ _ c0-Additive c1-Additive c2-Additive c3-Additive)
      (mixed-Additive _ _ _ _ c1-Additive c2-Additive c3-Additive c0-Additive)
      (mixed-Additive _ _ _ _ c2-Additive c3-Additive c0-Additive c1-Additive)
      (mixed-Additive _ _ _ _ c3-Additive c0-Additive c1-Additive c2-Additive)

column : ℕ → ℕ → ℕ → ℕ → Column
column a b c d = record { c0 = a; c1 = b; c2 = c; c3 = d }

single_test :
    every
      (λ a.
        (there_and_back (column a 0 0 0) == a)
        && ((there_and_back (column 0 a 0 0) == 0)
            && ((there_and_back (column 0 0 a 0) == 0) && (there_and_back (column 0 0 0 a) == 0))))
      256
    ≡ true
unfolding every there_and_back column mixed unmixed x_times_2_in_gf x_times_3_in_gf x_times_4_in_gf
    x_times_8_in_gf x_times_9_in_gf x_times_b_in_gf x_times_d_in_gf x_times_e_in_gf
single_test = refl

-- What one byte of a column contributes.
single :
    (a : ℕ)
    → IsByte a
    → (there_and_back (column a 0 0 0) ≡ a)
      × ((there_and_back (column 0 a 0 0) ≡ 0)
          × ((there_and_back (column 0 0 a 0) ≡ 0) × (there_and_back (column 0 0 0 a) ≡ 0)))
single a p =
    let all = every_at _ 256 a single_test p in
    let first = (and-eq-true_iff _ _).0 all in
    let second = (and-eq-true_iff _ _).0 first.1 in
    let third = (and-eq-true_iff _ _).0 second.1 in
    (
      (==_iff _ _).0 first.0,
      ((==_iff _ _).0 second.0, ((==_iff _ _).0 third.0, (==_iff _ _).0 third.1)),
    )

apart :
    (a b c d : ℕ)
    → IsByte a
    → IsByte b
    → IsByte c
    → IsByte d
    → column a b c d
      ≡ xor_column
          (column a 0 0 0)
          (xor_column (column 0 b 0 0) (xor_column (column 0 0 c 0) (column 0 0 0 d)))
unfolding column xor_column
apart a b c d p q r s = simp (zero_xor, xor_zero a p, xor_zero b q, xor_zero c r) refl

-- Four bytes that are mixed and then unmixed give the first of them.
pub unmixed-mixed :
    (a b c d : ℕ)
    → IsByte a
    → IsByte b
    → IsByte c
    → IsByte d
    → unmixed (mixed a b c d) (mixed b c d a) (mixed c d a b) (mixed d a b c) ≡ a
unfolding column there_and_back IsColumn xor_column
unmixed-mixed a b c d p q r s =
    let z : IsByte 0 = omega arith in
    let f = there_and_back-Additive in
    let cd = xor_column (column 0 0 c 0) (column 0 0 0 d) in
    let c_in : IsColumn (column 0 0 c 0) = (z, (z, (r, z))) in
    let d_in : IsColumn (column 0 0 0 d) = (z, (z, (z, s))) in
    let b_in : IsColumn (column 0 b 0 0) = (z, (q, (z, z))) in
    let cd_in = xor-IsColumn (column 0 0 c 0) (column 0 0 0 d) c_in d_in in
    let last : there_and_back cd ≡ 0 =
      f.adds (column 0 0 c 0) (column 0 0 0 d) c_in d_in
      ∙ ap₂ bit_xor (single c r).1.1.0 (single d s).1.1.1 in
    let middle : there_and_back (xor_column (column 0 b 0 0) cd) ≡ 0 =
      f.adds (column 0 b 0 0) cd b_in cd_in ∙ ap₂ bit_xor (single b q).1.0 last in
    ap there_and_back (apart a b c d p q r s)
    ∙ f.adds (column a 0 0 0) (xor_column (column 0 b 0 0) cd) (p, (z, (z, z)))
        (xor-IsColumn (column 0 b 0 0) cd b_in cd_in)
    ∙ ap₂ bit_xor (single a p).0 middle
    ∙ xor_zero a p
