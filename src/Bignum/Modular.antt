-- ===== src/Bignum/Modular.antt =====
-- bigModulo: the reduction to the residue, and what a modulus is.
pub mod Sum
use native.Mathlib.Nat.{mod-eq_of_lt, mod-eq-sub-mod}
use hardware_bitcoin_wallet.Base.{
  ℕ, zero, suc, ◌+◌, ◌-◌, ◌*◌, ◌/◌, ◌%◌, ◌^◌, ◌≤◌, ◌<◌, ◌≡◌, refl, ◌∙◌, sym, ap, arith, bit_and,
  bit_or, bit_xor, u8, sub16, ◌>>>◌, List, [], ◌∷◌, IsBytes, val, radix, length, ltb, if◌then◌else◌,
  replicate, val-lt-radix, Bool, true, false, Bool-cases, inl, inr, ltb→lt,
}
use hardware_bitcoin_wallet.Bignum.{
  Field, compare, cmp_less, subtract_no_modulo, subtract_variable_size_no_modulo,
  add_variable_size_no_modulo, modulo, add, subtract, choose, zero256,
}
use hardware_bitcoin_wallet.Bignum.Compare.{compare_variable_size-eq-order, order}
use hardware_bitcoin_wallet.Bignum.AddSub.{
  IsSized, add_variable_size_no_modulo-val, subtract_variable_size_no_modulo-val,
}

-- A `BigNum256`: 32 bytes.
abbrev pub IsNum256 : List ℕ → Type 0
IsNum256 xs = (length xs ≡ 32) × IsBytes xs

-- The modulus is a 256-bit number above 2 ^ 255, as the warning at `n` demands.
pub record IsModulus (n : List ℕ) : Type 0 where
  pub num : IsNum256 n
  pub large : radix 32 < 2 * val n

pub compare-eq-order :
    (op1 op2 : List ℕ) → IsNum256 op1 → IsNum256 op2 → compare op1 op2 ≡ order (val op1) (val op2)
unfolding compare
compare-eq-order op1 op2 p q = compare_variable_size-eq-order 32 op1 op2 p.0 q.0 p.1 q.1

pub val-lt : (xs : List ℕ) → IsNum256 xs → val xs < radix 32
val-lt xs p = rw p.0 at (val-lt-radix xs p.1)

pub zero256-IsNum256 : IsNum256 zero256
zero256-IsNum256 = omega arith

-- The index that `bigModulo` computes: 1 to subtract zero, 0 to subtract the modulus.
modulo_index :
    (a b : ℕ)
    → u8 ((sub16 0 (u8 (bit_xor (order a b) cmp_less)) >>> 8) + 1) ≡ (if ltb a b then 1 else 0)
modulo_index a b = ground arith

pub mod_below_twice : (a n : ℕ) → 0 < n → a < 2 * n → a % n ≡ (if ltb a n then a else a - n)
mod_below_twice a n h k = elim (Bool-cases (ltb a n)) [
  | inl below ↦ rw below (mod-eq_of_lt (omega (arith, ltb→lt a n below)))
  | inr above ↦ rw above (
      mod-eq-sub-mod {n = a} {m = n} (ground arith)
      ∙ mod-eq_of_lt {n = a - n} {m = n} (ground arith))
]

-- `a - 0` or `a - n` by `bigSubtractNoModulo`, where that does not borrow.
pub subtract_no_modulo-val :
    (op1 op2 : List ℕ)
    → IsNum256 op1
    → IsNum256 op2
    → IsNum256 (subtract_no_modulo op1 op2).0
      × (val (subtract_no_modulo op1 op2).0 + val op2
          ≡ val op1 + radix 32 * (subtract_no_modulo op1 op2).1)
      × ((subtract_no_modulo op1 op2).1 ≡ (if ltb (val op1) (val op2) then 1 else 0))
unfolding subtract_no_modulo
subtract_no_modulo-val op1 op2 p q =
    let s = subtract_variable_size_no_modulo-val 32 op1 op2 p.0 q.0 p.1 q.1 in
    ((s.0.0, s.0.1), s.1, s.2)

pub subtract_no_modulo_le :
    (op1 op2 : List ℕ)
    → IsNum256 op1
    → IsNum256 op2
    → val op2 ≤ val op1
    → IsNum256 (subtract_no_modulo op1 op2).0
      × (val (subtract_no_modulo op1 op2).0 ≡ val op1 - val op2)
subtract_no_modulo_le op1 op2 p q h =
    let s = subtract_no_modulo-val op1 op2 p q in (s.0, ground arith)

choose_index :
    (xs ys : List ℕ) (b : Bool) → choose xs ys (if b then 1 else 0) ≡ (if b then ys else xs)
choose_index xs ys true = refl
choose_index xs ys false = refl

module _ (f : Field) (m : IsModulus f.n) where
  modulo_index-eq :
      (op1 : List ℕ)
      → IsNum256 op1
      → u8 ((sub16 0 (u8 (bit_xor (compare op1 f.n) cmp_less)) >>> 8) + 1)
        ≡ (if ltb (val op1) (val f.n) then 1 else 0)
  modulo_index-eq op1 p =
      ap (λ c. u8 ((sub16 0 (u8 (bit_xor c cmp_less)) >>> 8) + 1))
        (compare-eq-order op1 f.n p m.num)
      ∙ modulo_index (val op1) (val f.n)

  modulo-eq :
      (op1 : List ℕ)
      → IsNum256 op1
      → modulo f op1 ≡ (subtract_no_modulo op1 (if ltb (val op1) (val f.n) then zero256 else f.n)).0
  unfolding modulo
  modulo-eq op1 p =
      ap (λ i. (subtract_no_modulo op1 (choose f.n zero256 i)).0) (modulo_index-eq op1 p)
      ∙ ap (λ xs. (subtract_no_modulo op1 xs).0)
          (choose_index f.n zero256 (ltb (val op1) (val f.n)))

  reduce_once :
      (op1 : List ℕ) (b : Bool)
      → IsNum256 op1
      → ltb (val op1) (val f.n) ≡ b
      → IsNum256 (subtract_no_modulo op1 (if b then zero256 else f.n)).0
        × (val (subtract_no_modulo op1 (if b then zero256 else f.n)).0
            ≡ (if b then val op1 else val op1 - val f.n))
  reduce_once op1 true p e =
      let s = subtract_no_modulo_le op1 zero256 p zero256-IsNum256 (omega arith) in
      (s.0, omega arith)
  reduce_once op1 false p e = subtract_no_modulo_le op1 f.n p m.num (ground arith)

  -- `bigModulo` leaves the residue of every 256-bit number, for a modulus of 256 bits above
  -- 2 ^ 255.
  pub modulo-val :
      (op1 : List ℕ)
      → IsNum256 op1
      → IsNum256 (modulo f op1) × (val (modulo f op1) ≡ val op1 % val f.n)
  modulo-val op1 p =
      let r = reduce_once op1 _ p refl in
      let small = mod_below_twice (val op1) (val f.n) (omega arith) (omega (arith, val-lt op1 p)) in
      rw (modulo-eq op1 p) (r.0, r.1 ∙ sym small)
