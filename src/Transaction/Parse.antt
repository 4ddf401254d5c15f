-- ===== src/Transaction/Parse.antt =====
-- transaction.c: parseTransactionInternal and parseTransaction. The body of the first is cut into
-- actions at its comments; the arrays `temp` and `ref_compare_hash` and the numbers that it reads
-- are the values that the actions return.
pub mod Reading
pub mod Progress
pub mod Contract
mod Tests
use hardware_bitcoin_wallet.Base.{
  ℕ, zero, suc, ◌+◌, List, [], ◌∷◌, reverse, replicate, get_or, Bool, true, false, not, ◌&&◌, ltb,
  leb, ◌==◌, if◌then◌else◌, Option, none, some,
}
use hardware_bitcoin_wallet.Endian.{read_u32_little_endian}
use hardware_bitcoin_wallet.Bignum.{
  compare_variable_size, add_variable_size_no_modulo, subtract_variable_size_no_modulo,
  is_zero_variable_size, cmp_greater,
}
use hardware_bitcoin_wallet.Hash.{HashState, write_hash_to_byte_array}
use hardware_bitcoin_wallet.Sha256.{sha256_begin, sha256_write_bytes, sha256_finish_double}
use hardware_bitcoin_wallet.Baseconv.{amount_to_text, hash_to_addr}
use hardware_bitcoin_wallet.Transaction.{
  max_transaction_size, max_inputs, max_outputs, max_money, TransactionErrors, invalid_format,
  too_many_inputs, too_many_outputs, too_large, non_standard, invalid_amount, invalid_reference,
}
use hardware_bitcoin_wallet.Transaction.Reader.{
  Event, output_seen, fee_set, Parser, Result, ok, err, Action, ◌>>=◌, ◌>>◌, pure, gets, modify,
  raise, raise_if, or_raise, get_transaction_bytes, get_var_int, is_end_of_transaction_data,
}

-- ADDRESS_VERSION_PUBKEY and ADDRESS_VERSION_P2SH of baseconv.h, without TESTNET.
abbrev pub address_version_pubkey : ℕ
address_version_pubkey = 0x00

abbrev pub address_version_p2sh : ℕ
address_version_p2sh = 0x05

-- `memcmp` finds no difference.
unfoldable pub same_bytes : List ℕ → List ℕ → Bool
same_bytes [] [] = true
same_bytes (x ∷ xs) (y ∷ ys) = (x == y) && same_bytes xs ys
same_bytes _ _ = false

abbrev pub Parse : Type 0 → Type 0
Parse A = Action TransactionErrors A

-- Updates of one static variable.
abbrev pub write_ref_compare : List ℕ → Parser → Parser
write_ref_compare bytes s = record s { ref_compare_hs = sha256_write_bytes s.ref_compare_hs bytes }

abbrev pub set_suppress : Bool → Parser → Parser
set_suppress b s = record s { suppress_transaction_hash = b }

abbrev pub set_valid : Bool → Parser → Parser
set_valid b s = record s { hs_ptr_valid = b }

abbrev pub show : Event → Parser → Parser
show e s = record s { screen = e ∷ s.screen }

-- The two hashes at the end of a transaction, and whether it was an input transaction.
pub record Parsed : Type 0 where
  pub sig_hash : List ℕ
  pub transaction_hash : List ℕ
  pub is_ref : Bool

-- `sha256FinishDouble`, and the hash written as a little-endian number.
unfoldable pub double_hash : HashState → List ℕ
double_hash hs = write_hash_to_byte_array (sha256_finish_double hs) false

-- `locals` are the three hash states on the stack, of which only the last is begun here.
unfoldable pub begin_parser : Parser → ℕ → Parser
begin_parser locals length = record locals {
  transaction_data_index = 0;
  transaction_length = length;
  transaction_fee_amount = replicate 8 0;
  ref_compare_hs = sha256_begin;
  hs_ptr_valid = true;
}

-- The parameters are the bytes of the stream device, and whether the user interface refuses one
-- more output, which may depend on everything that it was shown.
module _ (input : ℕ → ℕ) (new_output_seen : List Event → Bool) where
  unfoldable pub get_bytes : ℕ → Parse (List ℕ)
  get_bytes length = or_raise (get_transaction_bytes input length) invalid_format

  unfoldable pub var_int : Parse ℕ
  var_int = or_raise (get_var_int input) invalid_format

  -- The loops that skip a script byte by byte.
  unfoldable pub skip_script : ℕ → Parse (Unit {0})
  skip_script zero = pure tt
  skip_script (suc script_length) = get_bytes 1 >> skip_script script_length

  -- The output number of an input transaction, or the hash of all input references seen so far.
  unfoldable pub begin_reference : Bool → Parse (ℕ × List ℕ)
  begin_reference true = do
    temp ← get_bytes 4
    modify (write_ref_compare temp)
    pure (read_u32_little_endian temp, replicate 32 0)
  begin_reference false = do
    hs ← gets (λ s. s.ref_compare_hs)
    modify (λ s. record s { ref_compare_hs = sha256_begin })
    pure (0, double_hash hs)

  unfoldable pub begin_hashes : Parse (Unit {0})
  begin_hashes = modify (λ s. record s {
    sig_hash_hs = sha256_begin;
    transaction_hash_hs = sha256_begin;
    hs_ptr_valid = true;
    suppress_transaction_hash = false;
  })

  -- The body of the loop over the inputs.
  unfoldable pub parse_input : Bool → Parse (Unit {0})
  parse_input is_ref = do
    temp ← get_bytes 32
    number ← get_bytes 4
    if is_ref then pure tt else modify (λ s. write_ref_compare temp (write_ref_compare number s))
    modify (set_suppress true)
    script_length ← var_int
    skip_script script_length
    modify (set_suppress false)
    sequence ← get_bytes 4
    raise_if (not (read_u32_little_endian sequence == 0xFFFFFFFF)) non_standard

  unfoldable pub parse_inputs : ℕ → Bool → Parse (Unit {0})
  parse_inputs zero is_ref = pure tt
  parse_inputs (suc left) is_ref = parse_input is_ref >> parse_inputs left is_ref

  -- The input references of the main transaction against those of the input transactions.
  unfoldable pub compare_references : Bool → List ℕ → Parse (Unit {0})
  compare_references true ref_compare_hash = pure tt
  compare_references false ref_compare_hash = do
    hs ← gets (λ s. s.ref_compare_hs)
    modify (λ s. record s { ref_compare_hs = sha256_finish_double hs })
    raise_if (not (same_bytes (double_hash hs) ref_compare_hash)) invalid_reference

  unfoldable pub add_to_fee : List ℕ → Parse (Unit {0})
  add_to_fee amount = do
    fee ← gets (λ s. s.transaction_fee_amount)
    let sum = add_variable_size_no_modulo fee amount 8
    modify (λ s. record s { transaction_fee_amount = sum.0 })
    raise_if (not (sum.1 == 0)) invalid_amount

  unfoldable pub take_from_fee : List ℕ → Parse (Unit {0})
  take_from_fee amount = do
    fee ← gets (λ s. s.transaction_fee_amount)
    let difference = subtract_variable_size_no_modulo fee amount 8
    modify (λ s. record s { transaction_fee_amount = difference.0 })
    raise_if (not (difference.1 == 0)) invalid_amount

  -- OP_DUP OP_HASH160 (20 bytes) OP_EQUALVERIFY OP_CHECKSIG.
  unfoldable pub parse_pubkey_script : Parse (List ℕ)
  parse_pubkey_script = do
    head ← get_bytes 3
    raise_if (not (same_bytes head (0x76 ∷ 0xa9 ∷ 0x14 ∷ []))) non_standard
    hashed ← get_bytes 20
    last ← get_bytes 2
    raise_if (not (same_bytes last (0x88 ∷ 0xac ∷ []))) non_standard
    pure (hash_to_addr hashed address_version_pubkey)

  -- OP_HASH160 (20 bytes) OP_EQUAL.
  unfoldable pub parse_p2sh_script : Parse (List ℕ)
  parse_p2sh_script = do
    head ← get_bytes 2
    raise_if (not (same_bytes head (0xa9 ∷ 0x14 ∷ []))) non_standard
    hashed ← get_bytes 20
    last ← get_bytes 1
    raise_if (not (same_bytes last (0x87 ∷ []))) non_standard
    pure (hash_to_addr hashed address_version_p2sh)

  unfoldable pub parse_output_script : ℕ → Parse (List ℕ)
  parse_output_script script_length =
      if script_length == 0x19
      then parse_pubkey_script
      else if script_length == 0x17
      then parse_p2sh_script
      else raise non_standard

  -- `newOutputSeen`: the interface is shown the output, and may refuse it.
  unfoldable pub report_output : List ℕ → List ℕ → Parse (Unit {0})
  report_output text_amount text_address = do
    modify (show (output_seen text_amount text_address))
    seen ← gets (λ s. s.screen)
    raise_if (new_output_seen seen) too_many_outputs

  -- The body of the loop over the outputs, in an input transaction and in the main one: `chosen`
  -- says that the output is the one that the main transaction spends.
  unfoldable pub parse_ref_output : Bool → Parse (Unit {0})
  parse_ref_output chosen = do
    amount ← get_bytes 8
    raise_if (compare_variable_size amount max_money 8 == cmp_greater) invalid_amount
    if chosen then add_to_fee amount else pure tt
    script_length ← var_int
    skip_script script_length

  unfoldable pub parse_main_output : Parse (Unit {0})
  parse_main_output = do
    amount ← get_bytes 8
    raise_if (compare_variable_size amount max_money 8 == cmp_greater) invalid_amount
    take_from_fee amount
    script_length ← var_int
    address ← parse_output_script script_length
    report_output (amount_to_text amount) address

  unfoldable pub parse_outputs : ℕ → ℕ → Bool → ℕ → Parse (Unit {0})
  parse_outputs zero i is_ref output_num_select = pure tt
  parse_outputs (suc left) i is_ref output_num_select =
      (if is_ref then parse_ref_output (i == output_num_select) else parse_main_output)
      >> parse_outputs left (i + 1) is_ref output_num_select

  -- The hash type and the end of the main transaction, and the fee.
  unfoldable pub finish_main : Parse (Unit {0})
  finish_main = do
    hash_type ← get_bytes 4
    raise_if (not (read_u32_little_endian hash_type == 0x00000001)) non_standard
    ended ← gets is_end_of_transaction_data
    raise_if (not ended) invalid_format
    fee ← gets (λ s. s.transaction_fee_amount)
    if is_zero_variable_size fee 8 == 0
        then modify (show (fee_set (amount_to_text fee)))
        else pure tt

  -- The hashes of the transaction; that of an input transaction joins the references, backwards.
  unfoldable pub finish_hashes : Bool → Parse Parsed
  finish_hashes is_ref = do
    sig_hash ← gets (λ s. double_hash s.sig_hash_hs)
    transaction_hash ← gets (λ s. double_hash s.transaction_hash_hs)
    modify (λ s. record s {
      sig_hash_hs = sha256_finish_double s.sig_hash_hs;
      transaction_hash_hs = sha256_finish_double s.transaction_hash_hs;
    })
    if is_ref then modify (write_ref_compare (reverse sig_hash)) else pure tt
    pure (record { sig_hash = sig_hash; transaction_hash = transaction_hash; is_ref = is_ref })

  -- Everything after the byte `is_ref`.
  unfoldable pub parse_inputs_part : Bool → List ℕ → Parse (Unit {0})
  parse_inputs_part is_ref ref_compare_hash = do
    begin_hashes
    version ← get_bytes 4
    raise_if (not (read_u32_little_endian version == 0x00000001)) non_standard
    num_inputs ← var_int
    raise_if (num_inputs == 0) invalid_format
    raise_if (ltb max_inputs num_inputs) too_many_inputs
    parse_inputs num_inputs is_ref
    compare_references is_ref ref_compare_hash

  unfoldable pub parse_outputs_part : Bool → ℕ → Parse (Unit {0})
  parse_outputs_part is_ref output_num_select = do
    num_outputs ← var_int
    raise_if (num_outputs == 0) invalid_format
    raise_if (ltb max_outputs num_outputs) too_many_outputs
    raise_if (is_ref && leb num_outputs output_num_select) invalid_reference
    parse_outputs num_outputs 0 is_ref output_num_select
    locktime ← get_bytes 4
    raise_if (not (read_u32_little_endian locktime == 0x00000000)) non_standard

  unfoldable pub parse_body : Bool → Parse Parsed
  parse_body is_ref = do
    reference ← begin_reference is_ref
    parse_inputs_part is_ref reference.1
    parse_outputs_part is_ref reference.0
    if is_ref then pure tt else finish_main
    finish_hashes is_ref

  unfoldable pub parse_transaction_internal : Parse Parsed
  parse_transaction_internal = do
    length ← gets (λ s. s.transaction_length)
    raise_if (ltb max_transaction_size length) too_large
    modify (set_valid false)
    temp ← get_bytes 1
    parse_body (not (get_or temp 0 0 == 0))

  -- The `do` loop, with `rounds` transactions left at most. It answers `none` where these do not
  -- suffice; every round reads a byte or ends the loop, so one more than the bytes left is enough:
  -- `parse_loop-Ended` in the module `Contract`.
  abbrev pub after_round :
      Result TransactionErrors Parsed × Parser
      → Option (Result TransactionErrors Parsed × Parser)
      → Option (Result TransactionErrors Parsed × Parser)
  after_round (ok parsed, s) rest = if parsed.is_ref then rest else some (ok parsed, s)
  after_round (err e, s) rest = some (err e, s)

  unfoldable pub parse_loop : ℕ → Parser → Option (Result TransactionErrors Parsed × Parser)
  parse_loop zero s = none
  parse_loop (suc rounds) s =
      let r = parse_transaction_internal s in let rest = parse_loop rounds r.1 in after_round r rest

  -- `break` at a read error.
  abbrev pub after_junk : Result (Unit {0}) (List ℕ) × Parser → Parser → Parser
  after_junk (ok _, _) rest = rest
  after_junk (err _, s) rest = s

  -- The loop that consumes what is left of the transaction.
  unfoldable pub consume_rest : ℕ → Parser → Parser
  consume_rest zero s = s
  consume_rest (suc rounds) s =
      let r = get_transaction_bytes input 1 s in
      let rest = consume_rest rounds r.1 in
      if is_end_of_transaction_data s then s else after_junk r rest

  abbrev pub finish_parser :
      ℕ
      → Option (Result TransactionErrors Parsed × Parser)
      → Option (Result TransactionErrors Parsed × Parser)
  finish_parser length none = none
  finish_parser length (some (r, s)) = some (r, consume_rest length (set_valid false s))

  unfoldable pub parse_transaction : Parser → ℕ → Option (Result TransactionErrors Parsed × Parser)
  parse_transaction locals length =
      finish_parser length (parse_loop (length + 1) (begin_parser locals length))
