-- ===== src/Transaction/Parse/Tests.antt =====
-- The parser on the transaction of the unit tests in transaction.c.
use hardware_bitcoin_wallet.Base.{ℕ, ◌+◌, ◌≡◌, refl, arith, List, [], ◌∷◌, get_or, Bool, false}
use hardware_bitcoin_wallet.Sha256.{sha256_begin}
use hardware_bitcoin_wallet.Transaction.Reader.{Event, Parser, ok, get_var_int}
use hardware_bitcoin_wallet.Transaction.Reader.Moves.{IsInside}
use hardware_bitcoin_wallet.Transaction.Reader.VarInt.{get_var_int-encode_var_int}
use hardware_bitcoin_wallet.Transaction.Parse.Contract.{ReadsAll, parse_transaction-ReadsAll}
use hardware_bitcoin_wallet.Transaction.Parse.{parse_transaction}

abbrev good_full_transaction : List ℕ
good_full_transaction =
    1 ∷ 1 ∷ 0 ∷ 0 ∷ 0 ∷ 1 ∷ 0 ∷ 0 ∷ 0 ∷ 1 ∷ 223 ∷ 8 ∷ 249 ∷ 163 ∷ 124 ∷ 109 ∷ 113 ∷ 60 ∷ 106 ∷ 153
    ∷ 46 ∷ 136 ∷ 41 ∷ 142 ∷ 11 ∷ 76 ∷ 143 ∷ 181 ∷ 249 ∷ 14 ∷ 17 ∷ 240 ∷ 44 ∷ 167 ∷ 54 ∷ 114 ∷ 235
    ∷ 88 ∷ 179 ∷ 4 ∷ 239 ∷ 192 ∷ 1 ∷ 0 ∷ 0 ∷ 0 ∷ 138 ∷ 71 ∷ 48 ∷ 68 ∷ 2 ∷ 32 ∷ 27 ∷ 244 ∷ 239 ∷ 60
    ∷ 52 ∷ 150 ∷ 2 ∷ 155 ∷ 26 ∷ 177 ∷ 200 ∷ 73 ∷ 191 ∷ 24 ∷ 85 ∷ 204 ∷ 22 ∷ 188 ∷ 82 ∷ 109 ∷ 204
    ∷ 32 ∷ 251 ∷ 124 ∷ 10 ∷ 29 ∷ 72 ∷ 214 ∷ 233 ∷ 189 ∷ 215 ∷ 177 ∷ 2 ∷ 32 ∷ 83 ∷ 177 ∷ 163 ∷ 170
    ∷ 191 ∷ 211 ∷ 135 ∷ 132 ∷ 220 ∷ 243 ∷ 16 ∷ 229 ∷ 210 ∷ 9 ∷ 164 ∷ 186 ∷ 176 ∷ 1 ∷ 98 ∷ 229 ∷ 188
    ∷ 9 ∷ 117 ∷ 157 ∷ 79 ∷ 116 ∷ 44 ∷ 180 ∷ 107 ∷ 50 ∷ 55 ∷ 44 ∷ 1 ∷ 65 ∷ 4 ∷ 5 ∷ 77 ∷ 181 ∷ 224
    ∷ 142 ∷ 42 ∷ 51 ∷ 137 ∷ 44 ∷ 243 ∷ 75 ∷ 126 ∷ 188 ∷ 24 ∷ 59 ∷ 165 ∷ 245 ∷ 84 ∷ 198 ∷ 157 ∷ 109
    ∷ 33 ∷ 101 ∷ 96 ∷ 137 ∷ 245 ∷ 94 ∷ 45 ∷ 15 ∷ 58 ∷ 104 ∷ 8 ∷ 35 ∷ 131 ∷ 25 ∷ 205 ∷ 137 ∷ 186
    ∷ 218 ∷ 9 ∷ 155 ∷ 198 ∷ 239 ∷ 63 ∷ 220 ∷ 128 ∷ 216 ∷ 122 ∷ 178 ∷ 191 ∷ 43 ∷ 55 ∷ 24 ∷ 221 ∷ 74
    ∷ 78 ∷ 54 ∷ 9 ∷ 96 ∷ 40 ∷ 110 ∷ 46 ∷ 119 ∷ 87 ∷ 255 ∷ 255 ∷ 255 ∷ 255 ∷ 2 ∷ 192 ∷ 164 ∷ 112 ∷ 87
    ∷ 0 ∷ 0 ∷ 0 ∷ 0 ∷ 25 ∷ 118 ∷ 169 ∷ 20 ∷ 253 ∷ 85 ∷ 73 ∷ 32 ∷ 34 ∷ 160 ∷ 63 ∷ 247 ∷ 122 ∷ 157
    ∷ 224 ∷ 13 ∷ 162 ∷ 24 ∷ 8 ∷ 12 ∷ 169 ∷ 81 ∷ 222 ∷ 239 ∷ 136 ∷ 172 ∷ 64 ∷ 84 ∷ 146 ∷ 61 ∷ 0 ∷ 0
    ∷ 0 ∷ 0 ∷ 25 ∷ 118 ∷ 169 ∷ 20 ∷ 57 ∷ 83 ∷ 117 ∷ 70 ∷ 136 ∷ 132 ∷ 61 ∷ 229 ∷ 80 ∷ 11 ∷ 121 ∷ 145
    ∷ 51 ∷ 127 ∷ 150 ∷ 245 ∷ 65 ∷ 113 ∷ 72 ∷ 161 ∷ 136 ∷ 172 ∷ 0 ∷ 0 ∷ 0 ∷ 0 ∷ 0 ∷ 1 ∷ 0 ∷ 0 ∷ 0 ∷ 1
    ∷ 238 ∷ 206 ∷ 174 ∷ 134 ∷ 245 ∷ 112 ∷ 77 ∷ 118 ∷ 184 ∷ 84 ∷ 94 ∷ 109 ∷ 207 ∷ 33 ∷ 241 ∷ 117 ∷ 53
    ∷ 127 ∷ 131 ∷ 189 ∷ 164 ∷ 150 ∷ 67 ∷ 131 ∷ 214 ∷ 221 ∷ 126 ∷ 65 ∷ 104 ∷ 27 ∷ 94 ∷ 26 ∷ 1 ∷ 0 ∷ 0
    ∷ 0 ∷ 25 ∷ 118 ∷ 169 ∷ 20 ∷ 222 ∷ 173 ∷ 190 ∷ 239 ∷ 192 ∷ 255 ∷ 238 ∷ 238 ∷ 0 ∷ 0 ∷ 222 ∷ 173
    ∷ 190 ∷ 239 ∷ 192 ∷ 255 ∷ 238 ∷ 238 ∷ 0 ∷ 0 ∷ 136 ∷ 172 ∷ 255 ∷ 255 ∷ 255 ∷ 255 ∷ 2 ∷ 0 ∷ 70
    ∷ 195 ∷ 35 ∷ 0 ∷ 0 ∷ 0 ∷ 0 ∷ 25 ∷ 118 ∷ 169 ∷ 20 ∷ 0 ∷ 17 ∷ 34 ∷ 51 ∷ 68 ∷ 85 ∷ 102 ∷ 119 ∷ 136
    ∷ 153 ∷ 170 ∷ 187 ∷ 204 ∷ 221 ∷ 238 ∷ 255 ∷ 0 ∷ 17 ∷ 34 ∷ 51 ∷ 136 ∷ 172 ∷ 135 ∷ 214 ∷ 18 ∷ 0
    ∷ 0 ∷ 0 ∷ 0 ∷ 0 ∷ 25 ∷ 118 ∷ 169 ∷ 20 ∷ 1 ∷ 17 ∷ 34 ∷ 51 ∷ 68 ∷ 85 ∷ 102 ∷ 119 ∷ 136 ∷ 153 ∷ 170
    ∷ 187 ∷ 204 ∷ 221 ∷ 238 ∷ 255 ∷ 0 ∷ 17 ∷ 34 ∷ 51 ∷ 136 ∷ 172 ∷ 0 ∷ 0 ∷ 0 ∷ 0 ∷ 1 ∷ 0 ∷ 0 ∷ 0
    ∷ []

abbrev locals : Parser
locals = record {
  consumed = 0;
  transaction_data_index = 0;
  transaction_length = 0;
  suppress_transaction_hash = false;
  hs_ptr_valid = false;
  sig_hash_hs = sha256_begin;
  transaction_hash_hs = sha256_begin;
  ref_compare_hs = sha256_begin;
  transaction_fee_amount = [];
  screen = [];
}

-- The stream gives the transaction; the interface takes every output.
abbrev stream : ℕ → ℕ
stream i = get_or good_full_transaction i 0

abbrev takes_all : List Event → Bool
takes_all _ = false

parse_transaction-ReadsAll_example :
    ReadsAll stream takes_all locals 411 (parse_transaction stream takes_all locals 411)
parse_transaction-ReadsAll_example =
    parse_transaction-ReadsAll stream takes_all locals 411 (omega arith)

-- A number of 253 in a transaction of 9 bytes.
abbrev at_number : Parser
at_number = record locals { transaction_length = 9 }

abbrev number : ℕ → ℕ
number i = get_or (0xfd ∷ 0xfd ∷ 0x00 ∷ []) i 0

at_number-IsInside : IsInside at_number
at_number-IsInside = record { fits = omega arith; within = omega arith }

get_var_int-encode_var_int_example :
    ((get_var_int number at_number).0 ≡ ok 253)
    × ((get_var_int number at_number).1.consumed ≡ 0 + 3)
get_var_int-encode_var_int_example =
    get_var_int-encode_var_int number 253 at_number (omega arith) at_number-IsInside (omega arith)
      (refl, (refl, (refl, refl)))
