-- ===== src/Bignum/Multiply/Long.antt =====
-- bigMultiplyVariableSizeNoModulo computes the exact product.
use native.Mathlib.Nat.{mul-le-mul_left, mul-le-mul_right}
use hardware_bitcoin_wallet.Base.{
  ℕ, zero, suc, ◌+◌, ◌*◌, ◌≤◌, ◌<◌, ◌≡◌, refl, ◌∙◌, ap, arith, u8, u16, ◌>>>◌, List, [], ◌∷◌, ◌++◌,
  IsByte, IsBytes, val, radix, length, IsBytes-drop, length-drop, length-replicate,
  IsBytes-replicate, val-replicate_zero, radix-pos, take, drop, replicate, val-lt-radix,
}
use hardware_bitcoin_wallet.Bignum.Multiply.{
  multiply_row, multiply_rows, multiply_variable_size_no_modulo,
}

byte_product : (x y : ℕ) → IsByte x → IsByte y → x * y < 65026
byte_product x y p q = let step : x * y ≤ x * 255 = mul-le-mul_left x (omega arith) in omega arith

-- The three bytes that one round of the inner loop computes, the last one the new high carry.
abbrev low_byte : ℕ → ℕ → ℕ
low_byte m r0 = u16 (r0 + u8 (u16 m))

abbrev high_byte : ℕ → ℕ → ℕ → ℕ → ℕ
high_byte m r0 r1 c = u16 (r1 + u8 (u16 m >>> 8) + u8 (low_byte m r0 >>> 8) + c)

round_sum :
    (m r0 r1 c : ℕ)
    → m < 65026
    → IsByte r0
    → IsByte r1
    → IsByte c
    → u8 (low_byte m r0) + 256 * u8 (high_byte m r0 r1 c) + 65536 * u8 (high_byte m r0 r1 c >>> 8)
      ≡ r0 + 256 * r1 + m + 256 * c
round_sum m r0 r1 c h p q b = omega arith

-- What the inner loop leaves: as many bytes, and with the high carry the exact sum.
abbrev IsRow : ℕ → List ℕ → List ℕ → ℕ → List ℕ × ℕ → Type 0
IsRow x ys r c out =
    (length out.0 ≡ length r)
    × IsBytes out.0
    × IsByte out.1
    × (val out.0 + 256 * radix (length ys) * out.1 ≡ val r + x * val ys + 256 * c)

multiply_row-IsRow :
    (op2_size x : ℕ) (ys r : List ℕ) (c : ℕ)
    → length ys ≡ op2_size
    → op2_size < length r
    → IsByte x
    → IsBytes ys
    → IsBytes r
    → IsByte c
    → IsRow x ys r c (multiply_row x ys op2_size r c)
unfolding multiply_row
multiply_row-IsRow zero x [] r c e h p q w b = (refl, w, b, omega arith)
multiply_row-IsRow zero x (y ∷ ys) r c e h p q w b = absurd (omega arith)
multiply_row-IsRow (suc k) x [] r c e h p q w b = absurd (omega arith)
multiply_row-IsRow (suc k) x (y ∷ ys) [] c e h p q w b = absurd (omega arith)
multiply_row-IsRow (suc k) x (y ∷ ys) (r0 ∷ []) c e h p q w b = absurd (omega arith)
multiply_row-IsRow (suc k) x (y ∷ ys) (r0 ∷ r1 ∷ rs) c e h p q w b =
    let carry = u8 (high_byte (x * y) r0 r1 c >>> 8) in
    let rest = u8 (high_byte (x * y) r0 r1 c) ∷ rs in
    let ih =
      multiply_row-IsRow k x ys rest carry (omega arith) (omega arith) p q.1 (omega arith, w.1.1)
        (omega arith) in
    let sum = round_sum (x * y) r0 r1 c (byte_product x y p q.0) w.0 w.1.0 b in
    (omega (arith, ih.0), (omega arith, ih.1), ih.2, omega (arith, ih.3, sum))

take-drop_one :
    (r rest : List ℕ)
    → 0 < length r
    → val (take 1 r ++ rest) + 256 * val (drop 1 r) ≡ val r + 256 * val rest
take-drop_one [] rest h = absurd (omega arith)
take-drop_one (x ∷ xs) rest h = omega arith

no_carry : (m h v s : ℕ) → v + 256 * m * h ≡ s → s < 256 * m → h ≡ 0
no_carry m zero v s e p = refl
no_carry m (suc h) v s e p = absurd (omega arith)

row_bound :
    (k x : ℕ) (ys r : List ℕ)
    → length ys ≡ k
    → IsByte x
    → IsBytes ys
    → val r < radix k
    → val r + x * val ys < 256 * radix k
row_bound k x ys r e p q small =
    let below : val ys < radix k = rw e at (val-lt-radix ys q) in
    let product : x * val ys ≤ 255 * val ys = mul-le-mul_right (val ys) (omega arith) in omega arith

drop_one-lt : (row : List ℕ) (m s : ℕ) → val row ≡ s → s < 256 * m → val (drop 1 row) < m
drop_one-lt [] m s e h = omega arith
drop_one-lt (b ∷ row) m s e h = omega arith

-- The inner loop adds `x` times the second array to the bytes of the result, and where these stand
-- for a number below 256 ^ op2_size before, the last `high_carry` is 0.
pub high_carry-eq-zero :
    (op2_size x : ℕ) (ys r : List ℕ)
    → length ys ≡ op2_size
    → op2_size < length r
    → IsByte x
    → IsBytes ys
    → IsBytes r
    → val r < radix op2_size
    → ((multiply_row x ys op2_size r 0).1 ≡ 0)
      × (val (multiply_row x ys op2_size r 0).0 ≡ val r + x * val ys)
high_carry-eq-zero k x ys r e h p q w small =
    let row = multiply_row-IsRow k x ys r 0 e h p q w (omega arith) in
    let sum : val (multiply_row x ys k r 0).0 + 256 * radix k * (multiply_row x ys k r 0).1
        ≡ val r + x * val ys =
      rw e at row.3 ∙ omega arith in
    let zero_carry = no_carry (radix k) _ _ _ sum (row_bound k x ys r e p q small) in
    (zero_carry, omega (arith, ap (λ (h : ℕ). 256 * radix k * h) zero_carry))

-- What the outer loop leaves: as many bytes, and the result added to the exact product.
abbrev IsRows : List ℕ → List ℕ → List ℕ → List ℕ → Type 0
IsRows xs ys r out = (length out ≡ length r) × IsBytes out × (val out ≡ val r + val xs * val ys)

IsRows-step :
    (xs ys r row rest : List ℕ) (x : ℕ)
    → length row ≡ length r
    → IsBytes row
    → val row ≡ val r + x * val ys
    → 0 < length r
    → IsRows xs ys (drop 1 row) rest
    → IsRows (x ∷ xs) ys r (take 1 row ++ rest)
IsRows-step xs ys r [] rest x e p v h ih = absurd (omega arith)
IsRows-step xs ys r (b ∷ row) rest x e p v h ih =
    (omega (arith, ih.0), (p.0, ih.1), omega (arith, ih.2))

multiply_rows-IsRows :
    (k1 k2 : ℕ) (xs ys r : List ℕ)
    → length xs ≡ k1
    → length ys ≡ k2
    → k1 + k2 ≤ length r
    → IsBytes xs
    → IsBytes ys
    → IsBytes r
    → val r < radix k2
    → IsRows xs ys r (multiply_rows xs k1 ys k2 r)
unfolding multiply_rows
multiply_rows-IsRows zero k2 [] ys r e e' h p q w small = (refl, w, omega arith)
multiply_rows-IsRows (suc k1) k2 [] ys r e e' h p q w small = absurd (omega arith)
multiply_rows-IsRows zero k2 (x ∷ xs) ys r e e' h p q w small = absurd (omega arith)
multiply_rows-IsRows (suc k1) k2 (x ∷ xs) ys r e e' h p q w small =
    let row = multiply_row-IsRow k2 x ys r 0 e' (omega arith) p.0 q w (omega arith) in
    let exact = high_carry-eq-zero k2 x ys r e' (omega arith) p.0 q w small in
    let bytes = (multiply_row x ys k2 r 0).0 in
    IsRows-step xs ys r bytes _ x row.0 row.1 exact.1 (omega arith) (
      multiply_rows-IsRows k1 k2 xs ys (drop 1 bytes) (omega arith) e'
        (omega (arith, length-drop 1 bytes, row.0)) p.1 q (IsBytes-drop 1 bytes row.1)
        (drop_one-lt bytes (radix k2) _ exact.1 (row_bound k2 x ys r e' p.0 q small)))

-- `bigMultiplyVariableSizeNoModulo` of arrays of the given sizes gives op1_size + op2_size bytes
-- that stand for the exact product.
pub multiply_variable_size_no_modulo-val :
    (op1_size op2_size : ℕ) (op1 op2 : List ℕ)
    → length op1 ≡ op1_size
    → length op2 ≡ op2_size
    → IsBytes op1
    → IsBytes op2
    → let out = multiply_variable_size_no_modulo op1 op1_size op2 op2_size in
      (length out ≡ op1_size + op2_size) × IsBytes out × (val out ≡ val op1 * val op2)
unfolding multiply_variable_size_no_modulo
multiply_variable_size_no_modulo-val k1 k2 op1 op2 e e' p q =
    let clear : List ℕ = replicate (k1 + k2) 0 in
    let size : length clear ≡ k1 + k2 = length-replicate (k1 + k2) 0 in
    let rows =
      multiply_rows-IsRows k1 k2 op1 op2 clear e e' (omega arith) p q
        (IsBytes-replicate (k1 + k2) 0 (omega arith))
        (omega (arith, val-replicate_zero (k1 + k2), radix-pos k2)) in
    (rows.0 ∙ size, rows.1, omega (arith, rows.2, val-replicate_zero (k1 + k2)))
