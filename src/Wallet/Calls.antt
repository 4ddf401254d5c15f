-- ===== src/Wallet/Calls.antt =====
-- wallet.h: the functions that other modules call, as one type of calls.
use hardware_bitcoin_wallet.Base.{ℕ, List, [], ◌∷◌, Bool, true, false}
use hardware_bitcoin_wallet.Program.{Result}
use hardware_bitcoin_wallet.Storage.{Platform}
use hardware_bitcoin_wallet.Xex.{Cipher}
use hardware_bitcoin_wallet.Wallet.{WalletErrors, World, code}
use hardware_bitcoin_wallet.Wallet.Sanitise.{sanitise_everything}
use hardware_bitcoin_wallet.Wallet.Create.{uninit_wallet, init_wallet, delete_wallet, new_wallet}
use hardware_bitcoin_wallet.Wallet.Address.{
  get_private_key, get_address_and_public_key, get_master_public_key, get_num_addresses,
  make_new_address,
}
use hardware_bitcoin_wallet.Wallet.Change.{
  change_encryption_key, change_wallet_name, get_wallet_info, backup_wallet,
}

-- The functions of wallet.h with their arguments; `walletGetLastError` and `getNumberOfWallets`
-- return no error code, and stand apart.
pub data WalletCall : Type 0 where
  call_init : ℕ → List ℕ → WalletCall
  call_uninit : WalletCall
  call_sanitise : WalletCall
  call_delete : ℕ → WalletCall
  call_new : ℕ → List ℕ → Bool → List ℕ → Bool → List ℕ → WalletCall
  call_make_address : WalletCall
  call_address : ℕ → WalletCall
  call_master_key : WalletCall
  call_num_addresses : WalletCall
  call_private_key : ℕ → WalletCall
  call_change_key : List ℕ → WalletCall
  call_change_name : List ℕ → WalletCall
  call_info : ℕ → WalletCall
  call_backup : Bool → ℕ → WalletCall

-- The calls that are about the loaded wallet.
unfoldable pub needs_wallet : WalletCall → Bool
needs_wallet (call_init n password) = false
needs_wallet call_uninit = false
needs_wallet call_sanitise = false
needs_wallet (call_delete n) = false
needs_wallet (call_new n name use_seed seed make_hidden password) = false
needs_wallet (call_info n) = false
needs_wallet _ = true

-- The code of a call, without its other results. Where a C function returns a handle or a number, it
-- is the code that the function leaves for `walletGetLastError`.
abbrev pub coded :
    {Device A : Type 0} → Result WalletErrors A × World Device → WalletErrors × World Device
coded (r, w) = (code r, w)

module _ {Device : Type 0} (cipher : Cipher) (platform : Platform Device) where
  unfoldable pub run_call : WalletCall → World Device → WalletErrors × World Device
  run_call (call_init n password) w = coded (init_wallet cipher platform n password w)
  run_call call_uninit w = coded (uninit_wallet w)
  run_call call_sanitise w = coded (sanitise_everything platform w)
  run_call (call_delete n) w = coded (delete_wallet cipher platform n w)
  run_call (call_new n name use_seed seed make_hidden password) w =
      coded (new_wallet cipher platform n name use_seed seed make_hidden password w)
  run_call call_make_address w = coded (make_new_address cipher platform w)
  run_call (call_address ah) w = coded (get_address_and_public_key ah w)
  run_call call_master_key w = coded (get_master_public_key w)
  run_call call_num_addresses w = coded (get_num_addresses w)
  run_call (call_private_key ah) w = coded (get_private_key ah w)
  run_call (call_change_key password) w = coded (change_encryption_key cipher platform password w)
  run_call (call_change_name name) w = coded (change_wallet_name cipher platform name w)
  run_call (call_info n) w = coded (get_wallet_info cipher platform n w)
  run_call (call_backup do_encrypt destination) w =
      coded (backup_wallet cipher platform do_encrypt destination w)

  -- Calls one after another.
  unfoldable pub run_calls : List WalletCall → World Device → World Device
  run_calls [] w = w
  run_calls (c ∷ calls) w = run_calls calls (run_call c w).1
