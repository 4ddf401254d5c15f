-- ===== src/Wallet/Change.antt =====
-- wallet.c: changes of the loaded wallet's key and name, what is public about a wallet, backups, and
-- the last error.
use hardware_bitcoin_wallet.Base.{
  ℕ, zero, suc, ◌+◌, ◌*◌, List, [], ◌++◌, take, drop, replicate, overwrite, Bool, if◌then◌else◌,
  u32,
}
use hardware_bitcoin_wallet.Endian.{write_u32_little_endian}
use hardware_bitcoin_wallet.Program.{◌>>=◌, ◌>>◌, pure, gets, modify}
use hardware_bitcoin_wallet.Storage.{Platform}
use hardware_bitcoin_wallet.Xex.{Cipher, Keys, xex_encrypt}
use hardware_bitcoin_wallet.Wallet.{
  WalletErrors, wallet_invalid_operation, wallet_backup_error, WalletRecord, record_size, World,
  Call, succeed, fail_if, on_device, or_fail, checked,
}
use hardware_bitcoin_wallet.Wallet.Record.{
  with_checksum, read_wallet_record, write_current_wallet_record, derive_and_set_encryption_key,
  update_wallet_version,
}
use hardware_bitcoin_wallet.Wallet.Create.{check_wallet_spec}
use hardware_bitcoin_wallet.Wallet.Address.{require_loaded}

unfoldable pub wallet_get_last_error : {Device : Type 0} → World Device → WalletErrors
wallet_get_last_error w = w.last_error

unfoldable pub rename : List ℕ → WalletRecord → WalletRecord
rename new_name r = record r { unencrypted = record r.unencrypted { name = take 40 new_name } }

module _ {Device : Type 0} (cipher : Cipher) (platform : Platform Device) where
  -- The last steps of a change: the checksum, and the record written to storage.
  unfoldable pub save_wallet : Call Device (Unit {0})
  save_wallet = do
    modify (λ w. record w { current_wallet = with_checksum w.current_wallet })
    address ← gets (λ w. w.wallet_nv_address)
    checked (write_current_wallet_record cipher platform address)
    succeed tt

  unfoldable pub change_encryption_key : List ℕ → Call Device (Unit {0})
  unfolding save_wallet
  change_encryption_key password = do
    require_loaded
    uuid ← gets (λ w. w.current_wallet.unencrypted.uuid)
    derive_and_set_encryption_key cipher platform uuid password
    hidden ← gets (λ w. w.is_hidden_wallet)
    if hidden then pure tt else checked (update_wallet_version cipher platform)
    save_wallet

  -- `changeWalletName` after its first test.
  unfoldable pub rename_visible : List ℕ → Call Device (Unit {0})
  unfolding save_wallet
  rename_visible new_name = do
    hidden ← gets (λ w. w.is_hidden_wallet)
    fail_if hidden wallet_invalid_operation
    modify (λ w. record w { current_wallet = rename new_name w.current_wallet })
    save_wallet

  unfoldable pub change_wallet_name : List ℕ → Call Device (Unit {0})
  unfolding rename_visible
  change_wallet_name new_name = do require_loaded; rename_visible new_name

  -- The version, the name and the UUID.
  unfoldable pub get_wallet_info : ℕ → Call Device (ℕ × (List ℕ × List ℕ))
  get_wallet_info wallet_spec = do
    check_wallet_spec cipher platform wallet_spec
    r ← checked (read_wallet_record cipher platform (u32 (wallet_spec * record_size)))
    succeed (r.unencrypted.version, (r.unencrypted.name, r.unencrypted.uuid))

  -- The loop of `backupWallet` over the blocks of the seed, from offset `i` on.
  unfoldable pub encrypt_seed : ℕ → ℕ → Keys → List ℕ → List ℕ
  encrypt_seed zero i keys seed = []
  encrypt_seed (suc blocks) i keys seed =
      let n = overwrite (replicate 16 0) (write_u32_little_endian i) in
      xex_encrypt cipher keys (take 16 (drop i seed)) n 1 ++ encrypt_seed blocks (i + 16) keys seed

  unfoldable pub backup_wallet : Bool → ℕ → Call Device (Unit {0})
  unfolding encrypt_seed
  backup_wallet do_encrypt destination_device = do
    require_loaded
    seed ← gets (λ w. w.current_wallet.encrypted.seed)
    keys ← gets (λ w. w.keys)
    let out = if do_encrypt then encrypt_seed 4 0 keys seed else seed
    or_fail (on_device (platform.write_backup_seed out do_encrypt destination_device))
        wallet_backup_error
    succeed tt
