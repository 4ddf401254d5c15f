-- ===== src/Bignum/Modular/Sum.antt =====
-- bigAdd, bigSubtract: inside the field they add and subtract modulo n.
use hardware_bitcoin_wallet.Base.{
  ℕ, zero, suc, ◌+◌, ◌-◌, ◌*◌, ◌%◌, ◌<◌, ◌≡◌, refl, ◌∙◌, sym, ap, arith, bit_and, bit_or, bit_xor,
  u8, sub16, ◌>>>◌, List, val, radix, ltb, if◌then◌else◌, Bool, true, false,
}
use hardware_bitcoin_wallet.Bignum.{
  Field, compare, cmp_less, subtract_no_modulo, add_variable_size_no_modulo, add, subtract, choose,
  zero256,
}
use hardware_bitcoin_wallet.Bignum.Compare.{order}
use hardware_bitcoin_wallet.Bignum.AddSub.{add_variable_size_no_modulo-val}
use hardware_bitcoin_wallet.Bignum.Modular.{
  IsNum256, IsModulus, val-lt, compare-eq-order, zero256-IsNum256, mod_below_twice,
  subtract_no_modulo-val, subtract_no_modulo_le,
}

-- The index that `bigAdd` computes: 0 to subtract zero, 1 to subtract the modulus.
add_index :
    (a b : ℕ)
    → u8 (bit_and (sub16 0 (u8 (bit_xor (order a b) cmp_less)) >>> 8) 1)
      ≡ (if ltb a b then 0 else 1)
add_index a b = ground arith

difference_residue :
    (v x y n : ℕ) → x < n → y < n → v ≡ (if ltb x y then x + n - y else x - y) → (v + y) % n ≡ x
difference_residue v x y n h k e =
    let below : v + y < 2 * n = ground arith in
    mod_below_twice (v + y) n (omega arith) below ∙ ground arith

choose_index_not :
    (xs ys : List ℕ) (b : Bool) → choose xs ys (if b then 0 else 1) ≡ (if b then xs else ys)
choose_index_not xs ys true = refl
choose_index_not xs ys false = refl

module _ (f : Field) (m : IsModulus f.n) where
  add_raw-val :
      (op1 op2 : List ℕ)
      → IsNum256 op1
      → IsNum256 op2
      → IsNum256 (add_variable_size_no_modulo op1 op2 32).0
        × ((add_variable_size_no_modulo op1 op2 32).1 < 2)
        × (val (add_variable_size_no_modulo op1 op2 32).0
              + radix 32 * (add_variable_size_no_modulo op1 op2 32).1
            ≡ val op1 + val op2)
  add_raw-val op1 op2 p q =
      let s = add_variable_size_no_modulo-val 32 op1 op2 p.0 q.0 p.1 q.1 in
      ((s.0.0, s.0.1), s.0.2, s.1)

  add_index-eq :
      (r : List ℕ)
      → IsNum256 r
      → u8 (bit_and (sub16 0 (u8 (bit_xor (compare r f.n) cmp_less)) >>> 8) 1)
        ≡ (if ltb (val r) (val f.n) then 0 else 1)
  add_index-eq r p =
      ap (λ c. u8 (bit_and (sub16 0 (u8 (bit_xor c cmp_less)) >>> 8) 1))
        (compare-eq-order r f.n p m.num)
      ∙ add_index (val r) (val f.n)

  add_finish :
      (r : List ℕ) (c sum : ℕ) (b : Bool)
      → IsNum256 r
      → c < 2
      → ltb (val r) (val f.n) ≡ b
      → val r + radix 32 * c ≡ sum
      → sum < 2 * val f.n
      → IsNum256 (subtract_no_modulo r (choose zero256 f.n (bit_or c (if b then 0 else 1)))).0
        × (val (subtract_no_modulo r (choose zero256 f.n (bit_or c (if b then 0 else 1)))).0
            ≡ (if ltb sum (val f.n) then sum else sum - val f.n))
  add_finish r zero sum true p h e v k =
      let s = subtract_no_modulo_le r zero256 p zero256-IsNum256 (omega arith) in
      (s.0, ground arith)
  add_finish r zero sum false p h e v k =
      let s = subtract_no_modulo_le r f.n p m.num (ground arith) in (s.0, ground arith)
  add_finish r (suc zero) sum true p h e v k =
      let s = subtract_no_modulo-val r f.n p m.num in (s.0, ground (arith, val-lt f.n m.num))
  add_finish r (suc zero) sum false p h e v k = absurd (ground (arith, val-lt f.n m.num))
  add_finish r (suc (suc c)) sum b p h e v k = absurd (omega arith)

  add-eq :
      (op1 op2 : List ℕ)
      → IsNum256 (add_variable_size_no_modulo op1 op2 32).0
      → let (r, carry) = add_variable_size_no_modulo op1 op2 32 in
        add f op1 op2
        ≡ (subtract_no_modulo r
            (choose zero256 f.n (bit_or carry (if ltb (val r) (val f.n) then 0 else 1)))).0
  unfolding add
  add-eq op1 op2 p =
      let (r, carry) = add_variable_size_no_modulo op1 op2 32 in
      ap (λ i. (subtract_no_modulo r (choose zero256 f.n (bit_or carry i))).0) (add_index-eq r p)

  -- For two residues of a modulus of 256 bits above 2 ^ 255, `bigAdd` leaves the residue of their
  -- sum, also where the sum passes 2 ^ 256.
  pub add-val :
      (op1 op2 : List ℕ)
      → IsNum256 op1
      → IsNum256 op2
      → val op1 < val f.n
      → val op2 < val f.n
      → IsNum256 (add f op1 op2) × (val (add f op1 op2) ≡ (val op1 + val op2) % val f.n)
  add-val op1 op2 p q h k =
      let s = add_raw-val op1 op2 p q in
      let r = (add_variable_size_no_modulo op1 op2 32).0 in
      let fin = add_finish r _ (val op1 + val op2) _ s.0 s.1 refl s.2 (omega arith) in
      let small = mod_below_twice (val op1 + val op2) (val f.n) (omega arith) (omega arith) in
      rw (add-eq op1 op2 s.0) (fin.0, fin.1 ∙ sym small)

  subtract_finish :
      (r : List ℕ) (b : ℕ) (x y : ℕ)
      → IsNum256 r
      → b ≡ (if ltb x y then 1 else 0)
      → val r + y ≡ x + radix 32 * b
      → x < val f.n
      → y < val f.n
      → IsNum256 (add_variable_size_no_modulo r (choose zero256 f.n b) 32).0
        × (val (add_variable_size_no_modulo r (choose zero256 f.n b) 32).0
            ≡ (if ltb x y then x + val f.n - y else x - y))
  subtract_finish r zero x y p e v h k =
      let s = add_raw-val r zero256 p zero256-IsNum256 in
      (s.0, ground (arith, val-lt r p, val-lt _ s.0))
  subtract_finish r (suc zero) x y p e v h k =
      let s = add_raw-val r f.n p m.num in (s.0, ground (arith, val-lt r p, val-lt _ s.0))
  subtract_finish r (suc (suc b)) x y p e v h k = absurd (ground arith)

  -- For two residues of a modulus of 256 bits above 2 ^ 255, `bigSubtract` leaves the residue of
  -- their difference: the first number comes back when the second is added to the result.
  pub subtract-val :
      (op1 op2 : List ℕ)
      → IsNum256 op1
      → IsNum256 op2
      → val op1 < val f.n
      → val op2 < val f.n
      → IsNum256 (subtract f op1 op2)
        × (val (subtract f op1 op2) < val f.n)
        × ((val (subtract f op1 op2) + val op2) % val f.n ≡ val op1)
  unfolding subtract
  subtract-val op1 op2 p q h k =
      let s = subtract_no_modulo-val op1 op2 p q in
      let r = (subtract_no_modulo op1 op2).0 in
      let fin = subtract_finish r _ (val op1) (val op2) s.0 s.2 s.1 h k in
      (fin.0, ground arith, difference_residue _ (val op1) (val op2) (val f.n) h k fin.1)
