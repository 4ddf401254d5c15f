-- ===== src/Wallet/Reporting/All.antt =====
-- wallet.c: what any function returns is what walletGetLastError then gives.
use hardware_bitcoin_wallet.Base.{ℕ, List, Bool, Option, some, none, ◌≡◌}
use hardware_bitcoin_wallet.Program.{Result, ok, err, ◌>>=◌, pure, continue}
use hardware_bitcoin_wallet.Storage.{Platform}
use hardware_bitcoin_wallet.Xex.{Cipher}
use hardware_bitcoin_wallet.Prandom.{KeyCache}
use hardware_bitcoin_wallet.Wallet.{World, WalletErrors, code, checked, record_error}
use hardware_bitcoin_wallet.Wallet.Rules.{Explains, Reports, explain_rules, report_rules}
use hardware_bitcoin_wallet.Wallet.Address.{
  require_loaded, check_handle, take_key, get_private_key, get_address_and_public_key,
  get_master_public_key, get_num_addresses, make_new_address,
}
use hardware_bitcoin_wallet.Wallet.Change.{
  wallet_get_last_error, save_wallet, change_encryption_key, rename_visible, change_wallet_name,
  get_wallet_info, backup_wallet,
}
use hardware_bitcoin_wallet.Wallet.Calls.{
  WalletCall, call_init, call_uninit, call_sanitise, call_delete, call_new, call_make_address,
  call_address, call_master_key, call_num_addresses, call_private_key, call_change_key,
  call_change_name, call_info, call_backup, run_call,
}
use hardware_bitcoin_wallet.Secp256k1.Points.{PointAffine}
use hardware_bitcoin_wallet.Wallet.Reporting.{
  uninit-Reports, init-Reports, everything-Reports, delete-Reports, new-Reports, spec-Explains,
  derive-Explains,
}

loaded-Explains : (Device : Type 0) → Explains (require_loaded {Device = Device})
unfolding require_loaded
loaded-Explains Device = search explain_rules depth 8

handle-Explains : (Device : Type 0) (ah : ℕ) → Explains (check_handle {Device = Device} ah)
unfolding check_handle
handle-Explains Device ah = search explain_rules depth 8

key-Reports :
    (Device : Type 0) (r : Option (List ℕ) × KeyCache) → Reports (take_key {Device = Device} r)
unfolding take_key
key-Reports Device (some out, cache) = search (explain_rules, report_rules) depth 8
key-Reports Device (none, cache) = search (explain_rules, report_rules) depth 8

private-Reports : (Device : Type 0) (ah : ℕ) → Reports (get_private_key {Device = Device} ah)
unfolding get_private_key
private-Reports Device ah =
    search (explain_rules, report_rules, loaded-Explains, handle-Explains, key-Reports) depth 12

public-Reports :
    (Device : Type 0) (ah : ℕ) → Reports (get_address_and_public_key {Device = Device} ah)
unfolding get_address_and_public_key
public-Reports Device ah =
    search (explain_rules, report_rules, loaded-Explains, handle-Explains) depth 12

master-Reports : (Device : Type 0) → Reports (get_master_public_key {Device = Device})
unfolding get_master_public_key
master-Reports Device = search (explain_rules, report_rules, loaded-Explains) depth 12

count-Reports : (Device : Type 0) → Reports (get_num_addresses {Device = Device})
unfolding get_num_addresses
count-Reports Device = search (explain_rules, report_rules, loaded-Explains) depth 12

-- A checked call whose results are handed on.
handed_on :
    {Device A B : Type 0} (r : Result WalletErrors A × World Device) (f : A → B)
    → r.1.last_error ≡ code r.0
    → (continue (record_error r) (λ a. pure (f a))).1.last_error
      ≡ code (continue (record_error r) (λ a. pure {S = World Device} (f a))).0
unfolding pure
handed_on (ok a, w) f h = h
handed_on (err e, w) f h = λ i. e

last-Reports :
    (Device : Type 0) (handle : ℕ)
    → Reports {Device = Device} {A = ℕ × (List ℕ × PointAffine)}
        (checked (get_address_and_public_key handle) >>= λ out. pure (handle, out))
unfolding Reports ◌>>=◌ checked
last-Reports Device handle w =
    handed_on (get_address_and_public_key handle w) (λ out. (handle, out))
      (public-Reports Device handle w)

module _ {Device : Type 0} (cipher : Cipher) (platform : Platform Device) where
  save-Reports : Reports (save_wallet cipher platform)
  unfolding save_wallet
  save-Reports = search (explain_rules, report_rules) depth 12

  rename-Reports : (name : List ℕ) → Reports (change_wallet_name cipher platform name)
  unfolding change_wallet_name rename_visible
  rename-Reports name = search (explain_rules, report_rules, loaded-Explains, save-Reports) depth 12

  rekey-Reports : (password : List ℕ) → Reports (change_encryption_key cipher platform password)
  unfolding change_encryption_key
  rekey-Reports password =
      search (explain_rules, report_rules, loaded-Explains, derive-Explains, save-Reports) depth 12

  info-Reports : (wallet_spec : ℕ) → Reports (get_wallet_info cipher platform wallet_spec)
  unfolding get_wallet_info
  info-Reports wallet_spec = search (explain_rules, report_rules, spec-Explains) depth 12

  backup-Reports :
      (do_encrypt : Bool) (destination : ℕ)
      → Reports (backup_wallet cipher platform do_encrypt destination)
  unfolding backup_wallet
  backup-Reports do_encrypt destination =
      search (explain_rules, report_rules, loaded-Explains) depth 12

  make-Reports : Reports (make_new_address cipher platform)
  unfolding make_new_address
  make-Reports = search (explain_rules, report_rules, loaded-Explains, last-Reports) depth 20

  -- Whatever a function of the wallet returns, on whatever branch, `walletGetLastError` gives the
  -- same code after the call: `WALLET_NO_ERROR` after a success, and after a failure that failure.
  pub run_call-reports :
      (c : WalletCall) (w : World Device)
      → wallet_get_last_error (run_call cipher platform c w).1 ≡ (run_call cipher platform c w).0
  unfolding run_call wallet_get_last_error Reports
  run_call-reports (call_init n password) w = init-Reports cipher platform n password w
  run_call-reports call_uninit w = uninit-Reports cipher platform w
  run_call-reports call_sanitise w = everything-Reports cipher platform w
  run_call-reports (call_delete n) w = delete-Reports cipher platform n w
  run_call-reports (call_new n name use_seed seed make_hidden password) w =
      new-Reports cipher platform n name use_seed seed make_hidden password w
  run_call-reports call_make_address w = make-Reports w
  run_call-reports (call_address ah) w = public-Reports Device ah w
  run_call-reports call_master_key w = master-Reports Device w
  run_call-reports call_num_addresses w = count-Reports Device w
  run_call-reports (call_private_key ah) w = private-Reports Device ah w
  run_call-reports (call_change_key password) w = rekey-Reports password w
  run_call-reports (call_change_name name) w = rename-Reports name w
  run_call-reports (call_info n) w = info-Reports n w
  run_call-reports (call_backup do_encrypt destination) w = backup-Reports do_encrypt destination w
