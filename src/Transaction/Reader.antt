-- ===== src/Transaction/Reader.antt =====
-- The static variables of transaction.c, and the functions that read transaction data from the
-- stream device: getTransactionBytes, isEndOfTransactionData, getVarInt.
pub mod Moves
pub mod VarInt
use hardware_bitcoin_wallet.Base.{
  ℕ, zero, suc, ◌+◌, ◌-◌, ◌*◌, ◌%◌, ◌^◌, ◌<◌, ◌≤◌, bit_or, u8, u32, ◌<<<◌, List, [], ◌∷◌, get_or,
  Bool, true, false, ltb, leb, not, ◌&&◌, ◌==◌, if◌then◌else◌,
}
use hardware_bitcoin_wallet.Endian.{read_u32_little_endian}
use hardware_bitcoin_wallet.Hash.{HashState}
use hardware_bitcoin_wallet.Sha256.{sha256_write_byte}
unfoldable pub use hardware_bitcoin_wallet.Program.{
  ◌>>=◌, ◌>>◌, pure, gets, modify, raise, raise_if, or_raise,
}
pub use hardware_bitcoin_wallet.Program.{Result, ok, err, continue, as_error, Program}

-- What the parser shows to the user: a call of `newOutputSeen` or of `setTransactionFee`.
pub data Event : Type 0 where
  output_seen : List ℕ → List ℕ → Event
  fee_set : List ℕ → Event

-- The static variables, the three hash states that they point to, the number of bytes that the
-- stream device has given, and the calls to the user interface, the last one first.
pub record Parser : Type 0 where
  pub consumed : ℕ
  pub transaction_data_index : ℕ
  pub transaction_length : ℕ
  pub suppress_transaction_hash : Bool
  pub hs_ptr_valid : Bool
  pub sig_hash_hs : HashState
  pub transaction_hash_hs : HashState
  pub ref_compare_hs : HashState
  pub transaction_fee_amount : List ℕ
  pub screen : List Event

-- A call of one of these functions.
abbrev pub Action : Type 0 → Type 0 → Type 0
Action E A = Program Parser E A

-- The part of the loop of `getTransactionBytes` that updates the hashes.
unfoldable pub hash_byte : ℕ → Parser → Parser
hash_byte one_byte s = record s {
  sig_hash_hs = if s.hs_ptr_valid then sha256_write_byte s.sig_hash_hs one_byte else s.sig_hash_hs;
  transaction_hash_hs =
      if s.hs_ptr_valid && not s.suppress_transaction_hash
      then sha256_write_byte s.transaction_hash_hs one_byte
      else s.transaction_hash_hs;
}

-- The stream device gives the byte `input i` at the `i`-th call of `streamGetOneByte`.
module _ (input : ℕ → ℕ) where
  -- One round of the loop of `getTransactionBytes`.
  unfoldable pub read_one : Parser → Parser
  read_one s =
      let hashed = hash_byte (u8 (input s.consumed)) s in
      record hashed {
        consumed = s.consumed + 1;
        transaction_data_index = u32 (s.transaction_data_index + 1);
      }

  unfoldable pub read_loop : ℕ → Parser → List ℕ × Parser
  read_loop zero s = ([], s)
  read_loop (suc length) s =
      let (buffer, done) = read_loop length (read_one s) in (u8 (input s.consumed) ∷ buffer, done)

  unfoldable pub get_transaction_bytes : ℕ → Action (Unit {0}) (List ℕ)
  get_transaction_bytes length s =
      let past : Result (Unit {0}) (List ℕ) × Parser = (err tt, s) in
      let (buffer, done) = read_loop length s in
      if ltb (0xffffffff - length) s.transaction_data_index
      then past
      else if ltb s.transaction_length (u32 (s.transaction_data_index + length))
      then past
      else (ok buffer, done)

  -- The branches of `getVarInt` on the first byte.
  abbrev pub two_more : Action (Unit {0}) ℕ
  two_more = do
    temp ← get_transaction_bytes 2
    pure (bit_or (get_or temp 0 0) (u32 (get_or temp 1 0 <<< 8)))

  abbrev pub four_more : Action (Unit {0}) ℕ
  four_more = do temp ← get_transaction_bytes 4; pure (read_u32_little_endian temp)

  unfoldable pub var_int_tail : ℕ → Action (Unit {0}) ℕ
  var_int_tail first =
      if ltb first 0xfd
      then pure first
      else if first == 0xfd
      then two_more
      else if first == 0xfe
      then four_more
      else raise tt

  unfoldable pub get_var_int : Action (Unit {0}) ℕ
  get_var_int = do temp ← get_transaction_bytes 1; var_int_tail (get_or temp 0 0)

unfoldable pub is_end_of_transaction_data : Parser → Bool
is_end_of_transaction_data s = leb s.transaction_length s.transaction_data_index
