-- ===== src/Secp256k1/Points/Cases.antt =====
-- ecdsa.c, pointAdd: the sums with the point at infinity.
use hardware_bitcoin_wallet.Base.{
  ℕ, zero, suc, ◌<◌, ◌≡◌, ◌⊎◌, inl, inr, ap, refl, arith, sub16, ◌>>>◌,
}
use hardware_bitcoin_wallet.Bignum.{Field}
use hardware_bitcoin_wallet.Secp256k1.Points.{
  PointAffine, PointJacobian, as_bit, point_add, affine_to_jacobian,
}

-- The branch-free test of a flag that is a byte.
as_bit-eq : (flag : ℕ) → flag < 256 → 0 < flag → as_bit flag ≡ 1
unfolding as_bit
as_bit-eq flag lt some = let odd : (sub16 0 flag >>> 8) ≡ 255 = omega arith in rw odd refl

as_bit-cases : (flag : ℕ) → flag < 256 → (as_bit flag ≡ 0) ⊎ (as_bit flag ≡ 1)
unfolding as_bit
as_bit-cases zero lt = inl refl
as_bit-cases (suc flag) lt = inr (as_bit-eq (suc flag) lt (omega arith))

-- Adding the point at infinity leaves a point as it is, and adding to the point at infinity gives
-- the other point with the third coordinate 1, whatever the scratch point `junk` holds.
pub point_add-infinity :
    (f : Field) (p junk : PointJacobian) (q : PointAffine)
    → p.is_point_at_infinity < 256
    → q.is_point_at_infinity < 256
    → (p.is_point_at_infinity ≡ 0 → 0 < q.is_point_at_infinity → (point_add f (p, junk) q).0 ≡ p)
      × (0 < p.is_point_at_infinity → (point_add f (p, junk) q).0 ≡ affine_to_jacobian q)
unfolding point_add
point_add-infinity f p junk q small small' = (
  (λ zero_flag some.
      let first : as_bit p.is_point_at_infinity ≡ 0 = ap as_bit zero_flag in
      rw (first, as_bit-eq q.is_point_at_infinity small' some) refl),
  (λ some.
      let first = as_bit-eq p.is_point_at_infinity small some in
      elim (as_bit-cases q.is_point_at_infinity small') [
        | inl second ↦ rw (first, second) refl
        | inr second ↦ rw (first, second) refl
      ]),
)
