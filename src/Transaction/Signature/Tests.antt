-- ===== src/Transaction/Signature/Tests.antt =====
-- encapsulateSignature at concrete numbers, one with leading zeros and one with its top bit set.
use hardware_bitcoin_wallet.Base.{ℕ, ◌≡◌, ◌≤◌, refl, arith, List, [], ◌∷◌, take, replicate, length}
use hardware_bitcoin_wallet.Bignum.{swap_endian256}
use hardware_bitcoin_wallet.Bignum.Modular.{IsNum256}
use hardware_bitcoin_wallet.Transaction.Signature.{
  encapsulate_signature, remove_zeros, move_down, lay_out,
}
use hardware_bitcoin_wallet.Transaction.Signature.Der.{IsPruned, laid, remove_zeros-IsPruned}
use hardware_bitcoin_wallet.Transaction.Signature.Encapsulate.{der, encapsulate_signature-der}

abbrev buffer : List ℕ
buffer = replicate 73 0

abbrev small_r : List ℕ
small_r = 0x12 ∷ 0x80 ∷ replicate 30 0

abbrev large_s : List ℕ
large_s = replicate 32 0xfe

small_r-IsNum256 : IsNum256 small_r
small_r-IsNum256 = omega arith

large_s-IsNum256 : IsNum256 large_s
large_s-IsNum256 = omega arith

encapsulate_signature-der_example :
    let (out, size_out) = encapsulate_signature buffer small_r large_s in
    (take size_out out ≡ der small_r large_s)
    × (size_out ≡ length (der small_r large_s))
    × (size_out ≤ 73)
encapsulate_signature-der_example =
    encapsulate_signature-der buffer small_r large_s refl small_r-IsNum256 large_s-IsNum256

-- The integer 0 0 0x80 before three other bytes, in a buffer of 73 bytes.
abbrev before : List ℕ
before = replicate 65 7

remove_zeros-IsPruned_example :
    IsPruned before
      (5 ∷ [])
      (0 ∷ 0 ∷ 0x80 ∷ [])
      2
      70
      (remove_zeros 66 33 (laid before (5 ∷ []) (0 ∷ 0 ∷ 0x80 ∷ []) 2, 70))
remove_zeros-IsPruned_example =
    remove_zeros-IsPruned before (5 ∷ []) 33 0 0 (0x80 ∷ []) 2 70 (omega arith) (omega arith)
      (omega arith) (omega arith) (omega arith)

small_r_runs :
    (take 9 (encapsulate_signature buffer small_r large_s).0
      ≡ 0x30 ∷ 0x28 ∷ 0x02 ∷ 0x03 ∷ 0x00 ∷ 0x80 ∷ 0x12 ∷ 0x02 ∷ 0x21 ∷ [])
    × ((encapsulate_signature buffer small_r large_s).1 ≡ 43)
unfolding encapsulate_signature remove_zeros move_down lay_out swap_endian256
small_r_runs = (refl, refl)
