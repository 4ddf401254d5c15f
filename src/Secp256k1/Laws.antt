-- ===== src/Secp256k1/Laws.antt =====
-- The two fields of ecdsa.c satisfy what bignum256.c asks of a field.
use hardware_bitcoin_wallet.Base.{arith}
use hardware_bitcoin_wallet.Bignum.Multiply.Reduce.{IsField}
use hardware_bitcoin_wallet.Secp256k1.{field_p, field_n}

-- Both moduli are above 2 ^ 255 and below 2 ^ 256, and the complements that `setFieldToP` and
-- `setFieldToN` hand over are 2 ^ 256 less the modulus, in less than 32 bytes with a spare bit.
pub fields-IsField : IsField field_p × IsField field_n
unfolding field_p field_n
fields-IsField = (omega arith, omega arith)
