-- ===== src/Wallet/Record.antt =====
-- wallet.c: the checksum of a record, records in storage, the key of a password, the version, and the
-- number of wallets.
use hardware_bitcoin_wallet.Base.{
  ℕ, ◌+◌, ◌/◌, ◌%◌, List, [], ◌∷◌, ◌++◌, take, drop, replicate, true, not, ◌||◌, ◌==◌,
  if◌then◌else◌, Option, some, none,
}
use hardware_bitcoin_wallet.Program.{
  Program, ◌>>=◌, ◌>>◌, pure, gets, modify, raise_if, or_raise, attempt,
}
use hardware_bitcoin_wallet.Hash.{write_hash_to_byte_array}
use hardware_bitcoin_wallet.Sha256.{sha256_begin, sha256_write_bytes, sha256_finish}
use hardware_bitcoin_wallet.Pbkdf2.{pbkdf2}
use hardware_bitcoin_wallet.Storage.{Platform, NvError, Partition, partition_accounts}
use hardware_bitcoin_wallet.Xex.{
  Cipher, Keys, set_encryption_key, is_encryption_key_non_zero, encrypted_non_volatile_read,
  encrypted_non_volatile_write,
}
use hardware_bitcoin_wallet.Wallet.{
  wallet_no_error, wallet_read_error, wallet_write_error, wallet_invalid_operation,
  version_is_encrypted, version_unencrypted, Unencrypted, Encrypted, WalletRecord, unencrypted_size,
  encrypted_size, record_size, checksum_offset, unencrypted_bytes, encrypted_bytes, unencrypted_of,
  encrypted_of, World, Call, on_device,
}

unfoldable pub record_bytes : WalletRecord → List ℕ
record_bytes r = unencrypted_bytes r.unencrypted ++ encrypted_bytes r.encrypted

-- The bytes that the loop of `calculateWalletChecksum` writes: all but those of the checksum.
unfoldable pub hashed_bytes : WalletRecord → List ℕ
hashed_bytes r =
    take checksum_offset (record_bytes r) ++ drop (checksum_offset + 32) (record_bytes r)

unfoldable pub calculate_wallet_checksum : WalletRecord → List ℕ
calculate_wallet_checksum r =
    write_hash_to_byte_array (sha256_finish (sha256_write_bytes sha256_begin (hashed_bytes r))) true

-- `calculateWalletChecksum(current_wallet.encrypted.checksum)`.
unfoldable pub with_checksum : WalletRecord → WalletRecord
with_checksum r = record r {
  encrypted = record r.encrypted { checksum = calculate_wallet_checksum r };
}

module _ {Device : Type 0} (cipher : Cipher) (platform : Platform Device) where
  unfoldable pub encrypted_read : Partition → ℕ → ℕ → Program (World Device) NvError (List ℕ)
  encrypted_read partition address length' w =
      on_device (encrypted_non_volatile_read cipher platform w.keys partition address length') w

  unfoldable pub encrypted_write :
      List ℕ → Partition → ℕ → Program (World Device) NvError (Unit {0})
  encrypted_write bytes partition address w =
      on_device (encrypted_non_volatile_write cipher platform w.keys bytes partition address) w

  -- The two reads of `readWalletRecord`, and the test before them.
  unfoldable pub read_unencrypted : ℕ → Call Device Unencrypted
  read_unencrypted address = do
    raise_if (not (unencrypted_size % 16 == 0) || not (encrypted_size % 16 == 0))
        wallet_invalid_operation
    bytes ←
        or_raise
          (on_device (platform.non_volatile_read partition_accounts address unencrypted_size))
          wallet_read_error
    pure (unencrypted_of bytes)

  unfoldable pub read_encrypted : ℕ → Call Device Encrypted
  read_encrypted address = do
    bytes ←
        or_raise (encrypted_read partition_accounts (address + unencrypted_size) encrypted_size)
          wallet_read_error
    pure (encrypted_of bytes)

  -- `readWalletRecord` into a local variable.
  unfoldable pub read_wallet_record : ℕ → Call Device WalletRecord
  unfolding read_unencrypted read_encrypted
  read_wallet_record address = do
    u ← read_unencrypted address
    e ← read_encrypted address
    pure (record { unencrypted = u; encrypted = e })

  -- `readWalletRecord` into `current_wallet`: where only the second read fails, the first part has
  -- been overwritten. What a failed read leaves in its buffer is not modelled.
  unfoldable pub read_current_wallet : ℕ → Call Device (Unit {0})
  unfolding read_unencrypted read_encrypted
  read_current_wallet address = do
    u ← read_unencrypted address
    modify (λ w. record w { current_wallet = record w.current_wallet { unencrypted = u } })
    e ← read_encrypted address
    modify (λ w. record w { current_wallet = record w.current_wallet { encrypted = e } })

  unfoldable pub write_current_wallet_record : ℕ → Call Device (Unit {0})
  write_current_wallet_record address = do
    r ← gets (λ w. w.current_wallet)
    or_raise
        (on_device (
          platform.non_volatile_write (unencrypted_bytes r.unencrypted) partition_accounts address))
        wallet_write_error
    or_raise
        (encrypted_write (encrypted_bytes r.encrypted) partition_accounts
          (address + unencrypted_size))
        wallet_write_error
    or_raise (on_device platform.non_volatile_flush) wallet_write_error

  -- The key of a password, or zeros without a password. The salt is short enough, so `pbkdf2` returns.
  abbrev key_or_same : Keys → Option (List ℕ) → Keys
  key_or_same keys (some derived_key) = set_encryption_key derived_key
  key_or_same keys none = keys

  unfoldable pub derived_keys : List ℕ → List ℕ → Keys → Keys
  derived_keys uuid [] keys = set_encryption_key (replicate 64 0)
  derived_keys uuid (b ∷ password) keys =
      key_or_same keys (pbkdf2 platform.get_pbkdf2_iterations (b ∷ password) (take 16 uuid))

  unfoldable pub derive_and_set_encryption_key : List ℕ → List ℕ → Call Device (Unit {0})
  unfolding derived_keys
  derive_and_set_encryption_key uuid password =
      modify (λ w. record w { keys = derived_keys uuid password w.keys })

  unfoldable pub version_for : Keys → ℕ
  version_for keys =
      if is_encryption_key_non_zero keys then version_is_encrypted else version_unencrypted

  unfoldable pub set_version : WalletRecord → ℕ → WalletRecord
  set_version r v = record r { unencrypted = record r.unencrypted { version = v } }

  unfoldable pub update_wallet_version : Call Device (Unit {0})
  unfolding version_for set_version
  update_wallet_version = do
    hidden ← gets (λ w. w.is_hidden_wallet)
    raise_if hidden wallet_invalid_operation
    modify (λ w. record w { current_wallet = set_version w.current_wallet (version_for w.keys) })

  -- The first calculation of `num_wallets`: the number, and whether the size could be read.
  unfoldable pub count_wallets : Option ℕ → World Device → World Device
  count_wallets (some size) w = record w { num_wallets = size / record_size }
  count_wallets none w = record w { num_wallets = 0; last_error = wallet_read_error }

  unfoldable pub calculate_num_wallets : Call Device (Unit {0})
  unfolding count_wallets
  calculate_num_wallets = do
    size ← attempt (on_device (platform.non_volatile_get_size partition_accounts))
    modify (count_wallets size)

  unfoldable pub get_number_of_wallets : Call Device ℕ
  unfolding calculate_num_wallets
  get_number_of_wallets = do
    modify (λ w. record w { last_error = wallet_no_error })
    n ← gets (λ w. w.num_wallets)
    if n == 0 then calculate_num_wallets else pure tt
    gets (λ w. w.num_wallets)
