-- ===== src/Wallet/Create.antt =====
-- wallet.c: loading and unloading a wallet, creating and deleting one.
use hardware_bitcoin_wallet.Base.{
  ℕ, ◌+◌, ◌*◌, u32, List, ◌++◌, take, drop, overwrite, replicate, Bool, true, false, leb, not, ◌||◌,
  ◌==◌, if◌then◌else◌,
}
use hardware_bitcoin_wallet.Program.{◌>>=◌, ◌>>◌, pure, gets, modify}
use hardware_bitcoin_wallet.Bignum.{compare_variable_size, cmp_equal}
use hardware_bitcoin_wallet.Storage.{Platform, partition_accounts}
use hardware_bitcoin_wallet.Xex.{Cipher}
use hardware_bitcoin_wallet.Prandom.{clear_parent_public_key_cache, get_random_256}
use hardware_bitcoin_wallet.Wallet.{
  wallet_read_error, wallet_not_there, wallet_rng_failure, wallet_invalid_wallet_num,
  wallet_already_exists, version_nothing_there, version_unencrypted, version_is_encrypted,
  WalletRecord, record_size, uuid_offset, Call, succeed, fail_if, return_last_error, on_device,
  or_fail, checked,
}
use hardware_bitcoin_wallet.Wallet.Record.{
  calculate_wallet_checksum, with_checksum, read_current_wallet, write_current_wallet_record,
  derive_and_set_encryption_key, update_wallet_version, get_number_of_wallets,
}
use hardware_bitcoin_wallet.Wallet.Sanitise.{sanitise_non_volatile_storage}

abbrev pub blank_record : WalletRecord
blank_record = record {
  unencrypted = record {
    version = 0;
    reserved = replicate 4 0;
    name = replicate 40 0;
    uuid = replicate 16 0;
  };
  encrypted = record {
    num_addresses = 0;
    padding = replicate 8 0;
    reserved = replicate 4 0;
    seed = replicate 64 0;
    checksum = replicate 32 0;
  };
}

module _ {Device : Type 0} where
  unfoldable pub uninit_wallet : Call Device (Unit {0})
  uninit_wallet = do
    modify (λ w. record w {
      key_cache = clear_parent_public_key_cache;
      wallet_loaded = false;
      is_hidden_wallet = false;
      wallet_nv_address = 0;
      current_wallet = blank_record;
    })
    succeed tt

-- `is_hidden_wallet` for a version, and whether there can be a wallet.
abbrev pub is_known_version : ℕ → Bool
is_known_version v =
    v == version_nothing_there || (v == version_unencrypted || v == version_is_encrypted)

-- The fields that a new wallet that is not hidden gets before the version.
unfoldable pub name_wallet : List ℕ → List ℕ → WalletRecord → WalletRecord
name_wallet name uuid r = record r {
  unencrypted = record r.unencrypted {
    reserved = replicate 4 0;
    name = take 40 name;
    uuid = take 16 uuid;
  };
}

unfoldable pub pad_wallet : List ℕ → WalletRecord → WalletRecord
pad_wallet random r = record r {
  encrypted = record r.encrypted { padding = take 8 random; reserved = replicate 4 0 };
}

-- `memcpy` of bytes into the seed, from an index on.
unfoldable pub seed_wallet : ℕ → List ℕ → WalletRecord → WalletRecord
seed_wallet i bytes r =
    let seed = r.encrypted.seed in
    record r {
      encrypted = record r.encrypted { seed = take i seed ++ overwrite (drop i seed) bytes };
    }

unfoldable pub empty_wallet : WalletRecord → WalletRecord
empty_wallet r = record r { encrypted = record r.encrypted { num_addresses = 0 } }

module _ {Device : Type 0} (cipher : Cipher) (platform : Platform Device) where
  abbrev update : (WalletRecord → WalletRecord) → Call Device (Unit {0})
  update f = modify (λ w. record w { current_wallet = f w.current_wallet })

  -- The test that a record number is in range; it sets `num_wallets`.
  unfoldable pub check_wallet_spec : ℕ → Call Device (Unit {0})
  check_wallet_spec wallet_spec = do
    n ← get_number_of_wallets cipher platform
    if n == 0 then return_last_error else pure tt
    fail_if (leb n wallet_spec) wallet_invalid_wallet_num

  unfoldable pub init_wallet : ℕ → List ℕ → Call Device (Unit {0})
  unfolding uninit_wallet check_wallet_spec
  init_wallet wallet_spec password = do
    uninit_wallet
    check_wallet_spec wallet_spec
    let address = u32 (wallet_spec * record_size)
    modify (λ w. record w { wallet_nv_address = address })
    uuid ←
        or_fail
          (on_device (platform.non_volatile_read partition_accounts (address + uuid_offset) 16))
          wallet_read_error
    derive_and_set_encryption_key cipher platform uuid password
    checked (read_current_wallet cipher platform address)
    r ← gets (λ w. w.current_wallet)
    fail_if (not (is_known_version r.unencrypted.version)) wallet_not_there
    modify (λ w. record w { is_hidden_wallet = r.unencrypted.version == version_nothing_there })
    let cmp = compare_variable_size r.encrypted.checksum (calculate_wallet_checksum r) 32
    fail_if (not (cmp == cmp_equal)) wallet_not_there
    modify (λ w. record w { wallet_loaded = true })
    succeed tt

  unfoldable pub delete_wallet : ℕ → Call Device (Unit {0})
  unfolding uninit_wallet check_wallet_spec
  delete_wallet wallet_spec = do
    check_wallet_spec wallet_spec
    uninit_wallet
    sanitise_non_volatile_storage platform partition_accounts (u32 (wallet_spec * record_size))
        record_size

  unfoldable pub random_256 : Call Device (List ℕ)
  random_256 = or_fail (on_device (get_random_256 platform)) wallet_rng_failure

  -- The UUID that the key is derived with: the one in storage for a hidden wallet, else a new one.
  unfoldable pub choose_uuid : Bool → Call Device (List ℕ)
  unfolding random_256
  choose_uuid true = gets (λ w. w.current_wallet.unencrypted.uuid)
  choose_uuid false = do random_buffer ← random_256; pure (take 16 random_buffer)

  -- The unencrypted fields; a hidden wallet leaves them untouched.
  unfoldable pub set_unencrypted : Bool → List ℕ → List ℕ → Call Device (Unit {0})
  set_unencrypted true name uuid = pure tt
  set_unencrypted false name uuid = do
    checked (update_wallet_version cipher platform)
    update (name_wallet name uuid)

  -- The seed: the caller's, or two random numbers, the first of which stays where the second fails.
  unfoldable pub choose_seed : Bool → List ℕ → Call Device (Unit {0})
  unfolding random_256
  choose_seed true seed = update (seed_wallet 0 (take 64 seed))
  choose_seed false seed = do
    first ← random_256
    update (seed_wallet 0 (take 32 first))
    second ← random_256
    update (seed_wallet 32 (take 32 second))

  unfoldable pub new_wallet : ℕ → List ℕ → Bool → List ℕ → Bool → List ℕ → Call Device (Unit {0})
  unfolding uninit_wallet check_wallet_spec init_wallet random_256 choose_uuid set_unencrypted
      choose_seed
  new_wallet wallet_spec name use_seed seed make_hidden password = do
    uninit_wallet
    check_wallet_spec wallet_spec
    let address = u32 (wallet_spec * record_size)
    modify (λ w. record w { wallet_nv_address = address })
    checked (read_current_wallet cipher platform address)
    version ← gets (λ w. w.current_wallet.unencrypted.version)
    fail_if (not (version == version_nothing_there)) wallet_already_exists
    uuid ← choose_uuid make_hidden
    derive_and_set_encryption_key cipher platform uuid password
    set_unencrypted make_hidden name uuid
    update empty_wallet
    padding ← random_256
    update (pad_wallet padding)
    choose_seed use_seed seed
    update with_checksum
    checked (write_current_wallet_record cipher platform address)
    init_wallet wallet_spec password
