-- ===== src/Transaction.antt =====
-- transaction.c: the parser of transactions that the host streams in, and the DER form of
-- signatures. This file has the constants and the error codes of transaction.h.
pub mod Reader
pub mod Parse
pub mod Signature
use hardware_bitcoin_wallet.Base.{ℕ, List, [], ◌∷◌}

abbrev pub max_transaction_size : ℕ
max_transaction_size = 2000000

abbrev pub max_inputs : ℕ
max_inputs = 5000

abbrev pub max_outputs : ℕ
max_outputs = 2000

abbrev pub max_money : List ℕ
max_money = 0x00 ∷ 0x40 ∷ 0x07 ∷ 0x5A ∷ 0xF0 ∷ 0x75 ∷ 0x07 ∷ 0x00 ∷ []

-- `TransactionErrorsEnum` less TRANSACTION_NO_ERROR, which is the result `ok`.
pub data TransactionErrors : Type 0 where
  invalid_format too_many_inputs too_many_outputs too_large : TransactionErrors
  non_standard invalid_amount invalid_reference : TransactionErrors
