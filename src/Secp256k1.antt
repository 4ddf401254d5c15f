-- ===== src/Secp256k1.antt =====
-- ecdsa.c: the two prime fields of the curve secp256k1, and what bigMultiply computes in them.
pub mod Laws
pub mod Points
use hardware_bitcoin_wallet.Base.{ℕ, List, [], ◌∷◌, ◌++◌, replicate}
use hardware_bitcoin_wallet.Bignum.{Field, set_field}

abbrev pub secp256k1_p : List ℕ
secp256k1_p =
    0x2f ∷ 0xfc ∷ 0xff ∷ 0xff ∷ 0xfe ∷ 0xff ∷ 0xff ∷ 0xff ∷ 0xff ∷ 0xff ∷ 0xff ∷ 0xff ∷ 0xff ∷ 0xff
    ∷ 0xff ∷ 0xff ∷ 0xff ∷ 0xff ∷ 0xff ∷ 0xff ∷ 0xff ∷ 0xff ∷ 0xff ∷ 0xff ∷ 0xff ∷ 0xff ∷ 0xff
    ∷ 0xff ∷ 0xff ∷ 0xff ∷ 0xff ∷ 0xff ∷ []

abbrev pub secp256k1_complement_p : List ℕ
secp256k1_complement_p = 0xd1 ∷ 0x03 ∷ 0x00 ∷ 0x00 ∷ 0x01 ∷ []

abbrev pub secp256k1_n : List ℕ
secp256k1_n =
    0x41 ∷ 0x41 ∷ 0x36 ∷ 0xd0 ∷ 0x8c ∷ 0x5e ∷ 0xd2 ∷ 0xbf ∷ 0x3b ∷ 0xa0 ∷ 0x48 ∷ 0xaf ∷ 0xe6 ∷ 0xdc
    ∷ 0xae ∷ 0xba ∷ 0xfe ∷ 0xff ∷ 0xff ∷ 0xff ∷ 0xff ∷ 0xff ∷ 0xff ∷ 0xff ∷ 0xff ∷ 0xff ∷ 0xff
    ∷ 0xff ∷ 0xff ∷ 0xff ∷ 0xff ∷ 0xff ∷ []

abbrev pub secp256k1_complement_n : List ℕ
secp256k1_complement_n =
    0xbf ∷ 0xbe ∷ 0xc9 ∷ 0x2f ∷ 0x73 ∷ 0xa1 ∷ 0x2d ∷ 0x40 ∷ 0xc4 ∷ 0x5f ∷ 0xb7 ∷ 0x50 ∷ 0x19 ∷ 0x23
    ∷ 0x51 ∷ 0x45 ∷ 0x01 ∷ []

unfoldable pub field_p : Field
unfolding set_field
field_p = set_field secp256k1_p secp256k1_complement_p 5

unfoldable pub field_n : Field
unfolding set_field
field_n = set_field secp256k1_n secp256k1_complement_n 17
