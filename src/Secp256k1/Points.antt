-- ===== src/Secp256k1/Points.antt =====
-- ecdsa.c: points of the curve secp256k1, their doubling and addition without branches on secret
-- data, the multiplication by a number, and serialisation.
pub mod Cases
pub mod Small
mod Tests
use hardware_bitcoin_wallet.Base.{
  ℕ, zero, suc, ◌+◌, ◌-◌, ◌*◌, ◌%◌, ◌/◌, ◌^◌, bit_and, bit_or, bit_xor, u8, u16, sub16, ◌<<<◌,
  ◌>>>◌, List, [], ◌∷◌, ◌++◌, get_or, replicate, Bool, not, ◌==◌, if◌then◌else◌,
}
use hardware_bitcoin_wallet.Bignum.{
  Field, compare, cmp_equal, is_zero, add, subtract, swap_endian256, zero256,
}
use hardware_bitcoin_wallet.Bignum.Multiply.{multiply, invert}
use hardware_bitcoin_wallet.Secp256k1.{field_p}

pub record PointAffine : Type 0 where
  pub x : List ℕ
  pub y : List ℕ
  pub is_point_at_infinity : ℕ

pub record PointJacobian : Type 0 where
  pub x : List ℕ
  pub y : List ℕ
  pub z : List ℕ
  pub is_point_at_infinity : ℕ

abbrev pub g_x : List ℕ
g_x =
    0x98 ∷ 0x17 ∷ 0xf8 ∷ 0x16 ∷ 0x5b ∷ 0x81 ∷ 0xf2 ∷ 0x59 ∷ 0xd9 ∷ 0x28 ∷ 0xce ∷ 0x2d ∷ 0xdb ∷ 0xfc
    ∷ 0x9b ∷ 0x02 ∷ 0x07 ∷ 0x0b ∷ 0x87 ∷ 0xce ∷ 0x95 ∷ 0x62 ∷ 0xa0 ∷ 0x55 ∷ 0xac ∷ 0xbb ∷ 0xdc
    ∷ 0xf9 ∷ 0x7e ∷ 0x66 ∷ 0xbe ∷ 0x79 ∷ []

abbrev pub g_y : List ℕ
g_y =
    0xb8 ∷ 0xd4 ∷ 0x10 ∷ 0xfb ∷ 0x8f ∷ 0xd0 ∷ 0x47 ∷ 0x9c ∷ 0x19 ∷ 0x54 ∷ 0x85 ∷ 0xa6 ∷ 0x48 ∷ 0xb4
    ∷ 0x17 ∷ 0xfd ∷ 0xa8 ∷ 0x08 ∷ 0x11 ∷ 0x0e ∷ 0xfc ∷ 0xfb ∷ 0xa4 ∷ 0x5d ∷ 0x65 ∷ 0xc4 ∷ 0xa3
    ∷ 0x26 ∷ 0x77 ∷ 0xda ∷ 0x3a ∷ 0x48 ∷ []

unfoldable pub base_point : PointAffine
base_point = record { x = g_x; y = g_y; is_point_at_infinity = 0 }

unfoldable pub affine_to_jacobian : PointAffine → PointJacobian
affine_to_jacobian p = record {
  x = p.x;
  y = p.y;
  z = 1 ∷ replicate 31 0;
  is_point_at_infinity = p.is_point_at_infinity;
}

-- The static variables of bignum256.c say which field the products are taken in.
unfoldable pub jacobian_to_affine : Field → PointJacobian → PointAffine
jacobian_to_affine f p =
    let s = multiply f p.z p.z in
    let t = multiply f s p.z in
    record {
      x = multiply f p.x (invert f s);
      y = multiply f p.y (invert f t);
      is_point_at_infinity = p.is_point_at_infinity;
    }

unfoldable pub point_double : Field → PointJacobian → PointJacobian
point_double f p =
    let z' = multiply f p.z p.y in
    let y2 = multiply f p.y p.y in
    let t2 = multiply f y2 p.x in
    let t4 = add f t2 t2 in
    let t = add f t4 t4 in
    let x2 = multiply f p.x p.x in
    let u = add f (add f x2 x2) x2 in
    let x' = subtract f (subtract f (multiply f u u) t) t in
    let y4 = multiply f y2 y2 in
    let y8 = add f y4 y4 in
    let y16 = add f y8 y8 in
    record {
      x = x';
      y = subtract f (multiply f (subtract f t x') u) (add f y16 y16);
      z = add f z' z';
      is_point_at_infinity = bit_or p.is_point_at_infinity (is_zero p.y);
    }

-- 1 where the flag is not 0, and else 0, without a branch.
unfoldable pub as_bit : ℕ → ℕ
as_bit flag = u8 (bit_and (sub16 0 flag >>> 8) 1)

-- 0 where the two numbers are the same, and else 255.
unfoldable pub differ_mask : List ℕ → List ℕ → ℕ
differ_mask op1 op2 = u8 (sub16 0 (u8 (bit_xor (compare op1 op2) cmp_equal)) >>> 8)

-- `pointAdd` from the first multiplication on, for the point that `p1` points to then.
unfoldable pub add_points : Field → PointJacobian → PointAffine → ℕ → ℕ → PointJacobian
unfolding differ_mask point_double
add_points f p1 p2 is_o is_o2 =
    let z2 = multiply f p1.z p1.z in
    let t = multiply f (multiply f z2 p1.z) p2.y in
    let s = multiply f z2 p2.x in
    let cmp_xs = differ_mask p1.x s in
    let cmp_yt = differ_mask p1.y t in
    let opposite = bit_and (bit_and (bit_xor cmp_xs 0xff) cmp_yt) 1 in
    let s' = subtract f s p1.x in
    let t' = subtract f t p1.y in
    let v = multiply f s' s' in
    let u = multiply f v p1.x in
    let s3 = multiply f s' v in
    let x' = subtract f (subtract f (subtract f (multiply f t' t') s3) u) u in
    let sum : PointJacobian = record {
      x = x';
      y = subtract f (multiply f (subtract f u x') t') (multiply f s3 p1.y);
      z = multiply f p1.z s';
      is_point_at_infinity = u8 (bit_or p1.is_point_at_infinity opposite);
    } in
    if bit_or (bit_or (bit_or cmp_xs cmp_yt) is_o) is_o2 == 0 then point_double f p1 else sum

-- The points at `p1` and at `junk` after the call. Where one of the points is the point at
-- infinity, the additions are done on `junk`, for their duration only.
unfoldable pub point_add :
    Field → PointJacobian × PointJacobian → PointAffine → PointJacobian × PointJacobian
unfolding as_bit affine_to_jacobian
point_add f (p1, junk) p2 =
    let is_o = as_bit p1.is_point_at_infinity in
    let is_o2 = as_bit p2.is_point_at_infinity in
    let p1' = if is_o == 0 then p1 else affine_to_jacobian p2 in
    let junk' = if is_o == 0 then affine_to_jacobian p2 else junk in
    if bit_or is_o is_o2 == 0
    then (add_points f p1' p2 is_o is_o2, junk')
    else (p1', add_points f junk' p2 is_o is_o2)

abbrev zero_jacobian : PointJacobian
zero_jacobian = record { x = zero256; y = zero256; z = zero256; is_point_at_infinity = 0 }

abbrev pub always_point_at_infinity : PointAffine
always_point_at_infinity = record { x = zero256; y = zero256; is_point_at_infinity = 1 }

-- The loop over `j`, with `rounds` bits of the byte left, the highest first.
unfoldable pub multiply_bits :
    ℕ → Field → PointAffine → ℕ → PointJacobian × PointJacobian → PointJacobian × PointJacobian
unfolding point_double point_add
multiply_bits zero f p one_byte s = s
multiply_bits (suc rounds) f p one_byte (accumulator, junk) =
    let one_bit = u8 (bit_and one_byte 0x80 >>> 7) in
    multiply_bits rounds f p (u8 (one_byte <<< 1)) (
      point_add f (point_double f accumulator, junk)
        (if one_bit == 0 then always_point_at_infinity else p))

-- The loop over `i`, from the last of the bytes of `k` down to the first.
unfoldable pub multiply_bytes :
    ℕ → Field → PointAffine → List ℕ → PointJacobian × PointJacobian → PointJacobian × PointJacobian
unfolding multiply_bits
multiply_bytes zero f p k s = s
multiply_bytes (suc i) f p k s = multiply_bytes i f p k (multiply_bits 8 f p (get_or k i 0) s)

unfoldable pub point_multiply : PointAffine → List ℕ → PointAffine
unfolding multiply_bytes jacobian_to_affine
point_multiply p k =
    let start : PointJacobian = record zero_jacobian { is_point_at_infinity = 1 } in
    let (accumulator, junk) = multiply_bytes 32 field_p p k (start, zero_jacobian) in
    jacobian_to_affine field_p accumulator

-- The bytes that `ecdsaSerialise` writes.
unfoldable pub ecdsa_serialise : PointAffine → Bool → List ℕ
ecdsa_serialise point do_compress =
    let prefix = if bit_and (get_or point.y 0 0) 1 == 0 then 0x02 else 0x03 in
    if not (point.is_point_at_infinity == 0)
    then 0x00 ∷ []
    else if not do_compress
    then 0x04 ∷ swap_endian256 point.x ++ swap_endian256 point.y
    else prefix ∷ swap_endian256 point.x
