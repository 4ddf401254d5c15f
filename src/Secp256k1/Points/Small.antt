-- ===== src/Secp256k1/Points/Small.antt =====
-- ecdsa.c, pointMultiply: the multiples of a point by 0 and by 1, through all 256 rounds of doubling
-- and of adding either the point or the point at infinity, with the additions to the scratch point.
use hardware_bitcoin_wallet.Base.{ℕ, zero, suc, ◌≡◌, List, ◌∷◌, replicate}
use hardware_bitcoin_wallet.Bignum.{Field, zero256}
use hardware_bitcoin_wallet.Secp256k1.Points.{
  PointJacobian, always_point_at_infinity, point_double, point_add,
}

module _ (f : Field) where
  IsInfinite : PointJacobian × PointJacobian → Type 0
  IsInfinite s = (s.0.is_point_at_infinity ≡ 1) × (s.0.y ≡ zero256)

  -- One round for a bit 0.
  idle : PointJacobian × PointJacobian → PointJacobian × PointJacobian
  idle s = point_add f (point_double f s.0, s.1) always_point_at_infinity

  idles : ℕ → PointJacobian × PointJacobian → PointJacobian × PointJacobian
  idles zero s = s
  idles (suc n) s = idles n (idle s)

abbrev number : ℕ → List ℕ
number b = b ∷ replicate 31 0
