-- ===== src/Transaction/Parse/Reading.antt =====
-- parseTransactionInternal: each of its actions reads forward inside the transaction.
use hardware_bitcoin_wallet.Base.{ℕ, zero, suc, ◌+◌, ◌<◌, arith, List, Bool, true, false}
use hardware_bitcoin_wallet.Transaction.Reader.{Event}
use hardware_bitcoin_wallet.Transaction.Reader.Moves.{
  Advances, advance_rules, get_transaction_bytes-Advances, get_var_int-Advances,
}
use hardware_bitcoin_wallet.Transaction.Parse.{
  get_bytes, var_int, skip_script, begin_reference, begin_hashes, parse_input, parse_inputs,
  compare_references, add_to_fee, take_from_fee, parse_pubkey_script, parse_p2sh_script,
  parse_output_script, report_output, parse_ref_output, parse_main_output, parse_outputs,
  finish_main, finish_hashes, parse_inputs_part, parse_outputs_part, parse_body,
  parse_transaction_internal,
}

module _ (input : ℕ → ℕ) (new_output_seen : List Event → Bool) where
  pub get_bytes-Advances : (n : ℕ) → n < 256 → Advances (get_bytes input new_output_seen n)
  unfolding get_bytes
  get_bytes-Advances n h =
      let read = get_transaction_bytes-Advances input n h in search advance_rules

  get_1 : Advances (get_bytes input new_output_seen 1)
  get_1 = get_bytes-Advances 1 (omega arith)

  get_2 : Advances (get_bytes input new_output_seen 2)
  get_2 = get_bytes-Advances 2 (omega arith)

  get_3 : Advances (get_bytes input new_output_seen 3)
  get_3 = get_bytes-Advances 3 (omega arith)

  get_4 : Advances (get_bytes input new_output_seen 4)
  get_4 = get_bytes-Advances 4 (omega arith)

  get_8 : Advances (get_bytes input new_output_seen 8)
  get_8 = get_bytes-Advances 8 (omega arith)

  get_20 : Advances (get_bytes input new_output_seen 20)
  get_20 = get_bytes-Advances 20 (omega arith)

  get_32 : Advances (get_bytes input new_output_seen 32)
  get_32 = get_bytes-Advances 32 (omega arith)

  var_int-Advances : Advances (var_int input new_output_seen)
  unfolding var_int
  var_int-Advances = search (advance_rules, get_var_int-Advances)

  skip_script-Advances : (n : ℕ) → Advances (skip_script input new_output_seen n)
  unfolding skip_script
  skip_script-Advances zero = search advance_rules
  skip_script-Advances (suc n) = search (advance_rules, get_1, skip_script-Advances n)

  begin_reference-Advances :
      (is_ref : Bool) → Advances (begin_reference input new_output_seen is_ref)
  unfolding begin_reference
  begin_reference-Advances true = search (advance_rules, get_4) depth 8
  begin_reference-Advances false = search (advance_rules) depth 8

  parse_input-Advances : (is_ref : Bool) → Advances (parse_input input new_output_seen is_ref)
  unfolding parse_input
  parse_input-Advances is_ref =
      search (advance_rules, get_4, get_32, var_int-Advances, skip_script-Advances) depth 14

  parse_inputs-Advances :
      (left : ℕ) (is_ref : Bool) → Advances (parse_inputs input new_output_seen left is_ref)
  unfolding parse_inputs
  parse_inputs-Advances zero is_ref = search advance_rules
  parse_inputs-Advances (suc left) is_ref =
      search (advance_rules, parse_input-Advances, parse_inputs-Advances left is_ref)

  compare_references-Advances :
      (is_ref : Bool) (hash : List ℕ)
      → Advances (compare_references input new_output_seen is_ref hash)
  unfolding compare_references
  compare_references-Advances true hash = search advance_rules
  compare_references-Advances false hash = search advance_rules depth 8

  add_to_fee-Advances : (amount : List ℕ) → Advances (add_to_fee input new_output_seen amount)
  unfolding add_to_fee
  add_to_fee-Advances amount = search advance_rules depth 8

  take_from_fee-Advances : (amount : List ℕ) → Advances (take_from_fee input new_output_seen amount)
  unfolding take_from_fee
  take_from_fee-Advances amount = search advance_rules depth 8

  parse_output_script-Advances :
      (script_length : ℕ) → Advances (parse_output_script input new_output_seen script_length)
  unfolding parse_output_script parse_pubkey_script parse_p2sh_script
  parse_output_script-Advances script_length =
      search (advance_rules, get_1, get_2, get_3, get_20) depth 14

  report_output-Advances :
      (amount address : List ℕ) → Advances (report_output input new_output_seen amount address)
  unfolding report_output
  report_output-Advances amount address = search advance_rules depth 8

  parse_ref_output-Advances :
      (chosen : Bool) → Advances (parse_ref_output input new_output_seen chosen)
  unfolding parse_ref_output
  parse_ref_output-Advances chosen =
      search (advance_rules, get_8, add_to_fee-Advances, var_int-Advances, skip_script-Advances)
        depth 10

  parse_main_output-Advances : Advances (parse_main_output input new_output_seen)
  unfolding parse_main_output
  parse_main_output-Advances =
      search
        (
          advance_rules, get_8, take_from_fee-Advances, var_int-Advances,
          parse_output_script-Advances, report_output-Advances,
        )
        depth 10

  parse_outputs-Advances :
      (left i : ℕ) (is_ref : Bool) (select : ℕ)
      → Advances (parse_outputs input new_output_seen left i is_ref select)
  unfolding parse_outputs
  parse_outputs-Advances zero i is_ref select = search advance_rules
  parse_outputs-Advances (suc left) i is_ref select = search (
    advance_rules,
    parse_ref_output-Advances,
    parse_main_output-Advances,
    parse_outputs-Advances left (i + 1) is_ref select,
  )

  finish_main-Advances : Advances (finish_main input new_output_seen)
  unfolding finish_main
  finish_main-Advances = search (advance_rules, get_4) depth 12

  finish_hashes-Advances : (is_ref : Bool) → Advances (finish_hashes input new_output_seen is_ref)
  unfolding finish_hashes
  finish_hashes-Advances is_ref = search advance_rules depth 12

  begin_hashes-Advances : Advances (begin_hashes input new_output_seen)
  unfolding begin_hashes
  begin_hashes-Advances = search advance_rules

  parse_inputs_part-Advances :
      (is_ref : Bool) (hash : List ℕ)
      → Advances (parse_inputs_part input new_output_seen is_ref hash)
  unfolding parse_inputs_part
  parse_inputs_part-Advances is_ref hash =
      search
        (
          advance_rules, begin_hashes-Advances, get_4, var_int-Advances, parse_inputs-Advances,
          compare_references-Advances,
        )
        depth 14

  parse_outputs_part-Advances :
      (is_ref : Bool) (select : ℕ)
      → Advances (parse_outputs_part input new_output_seen is_ref select)
  unfolding parse_outputs_part
  parse_outputs_part-Advances is_ref select =
      search (advance_rules, get_4, var_int-Advances, parse_outputs-Advances) depth 14

  pub parse_body-Advances : (is_ref : Bool) → Advances (parse_body input new_output_seen is_ref)
  unfolding parse_body
  parse_body-Advances is_ref =
      search
        (
          advance_rules, begin_reference-Advances, parse_inputs_part-Advances,
          parse_outputs_part-Advances, finish_main-Advances, finish_hashes-Advances,
        )
        depth 14

  pub parse_transaction_internal-Advances :
      Advances (parse_transaction_internal input new_output_seen)
  unfolding parse_transaction_internal
  parse_transaction_internal-Advances = search (advance_rules, get_1, parse_body-Advances) depth 10
