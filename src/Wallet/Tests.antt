-- ===== src/Wallet/Tests.antt =====
-- Runs of wallet.c on storage in memory, with a block cipher that reverses a block.
use hardware_bitcoin_wallet.Base.{
  ℕ, ◌+◌, ◌*◌, ◌/◌, ◌≡◌, inl, refl, arith, List, [], ◌∷◌, length, replicate, true, false,
  IsBytes-replicate,
}
use hardware_bitcoin_wallet.Endian.{write_u32_little_endian, write_u32_big_endian}
use hardware_bitcoin_wallet.Program.{ok}
use hardware_bitcoin_wallet.Hash.{
  hash_write_bytes, hash_finish, hash_write_byte, write_hash_to_byte_array, big_endian_bytes,
}
use hardware_bitcoin_wallet.Sha256.{sha256_block, sha256_begin, sha256_write_bytes, sha256_finish}
use hardware_bitcoin_wallet.Storage.{partition_accounts}
use hardware_bitcoin_wallet.Storage.Ram.{Ram, ram_platform, ram_memory, blank, range-Holds}
use hardware_bitcoin_wallet.Xex.{Keys, set_encryption_key}
use hardware_bitcoin_wallet.Xex.Tests.{mirror, mirror-IsCipher}
use hardware_bitcoin_wallet.Prandom.{clear_parent_public_key_cache}
use hardware_bitcoin_wallet.Wallet.{
  WalletErrors, WalletRecord, World, wallet_no_error, unencrypted_bytes, encrypted_bytes,
}
use hardware_bitcoin_wallet.Wallet.Layout.{IsField, IsRecord}
use hardware_bitcoin_wallet.Wallet.Record.{
  calculate_wallet_checksum, hashed_bytes, record_bytes, derived_keys, read_wallet_record,
  write_current_wallet_record,
}
use hardware_bitcoin_wallet.Wallet.Create.{delete_wallet, init_wallet}
use hardware_bitcoin_wallet.Wallet.Change.{wallet_get_last_error}
use hardware_bitcoin_wallet.Wallet.Calls.{call_new, call_change_name, run_call, needs_wallet}
use hardware_bitcoin_wallet.Wallet.Sanitise.{overwrite_loop}
use hardware_bitcoin_wallet.Wallet.Sanitise.Ends.{overwrite_loop-ends}
use hardware_bitcoin_wallet.Wallet.Reporting.All.{run_call-reports}
use hardware_bitcoin_wallet.Wallet.Hidden.{run_call-StaysHidden}
use hardware_bitcoin_wallet.Wallet.Erase.{delete_wallet-spares_others}
use hardware_bitcoin_wallet.Wallet.Load.{IsCounted, loaded_world}
use hardware_bitcoin_wallet.Wallet.Kept.{read_wallet_record-write, init_wallet-write}

abbrev zeros : ℕ → List ℕ
zeros n = replicate n 0

-- A wallet without addresses, without a password, and its checksum.
abbrev sample : WalletRecord
sample = record {
  unencrypted = record { version = 2; reserved = zeros 4; name = zeros 40; uuid = zeros 16 };
  encrypted = record {
    num_addresses = 0;
    padding = zeros 8;
    reserved = zeros 4;
    seed = zeros 64;
    checksum = sum;
  };
}
  where
    sum : List ℕ
    sum =
        0xaa ∷ 0x24 ∷ 0x66 ∷ 0xd3 ∷ 0x87 ∷ 0x0e ∷ 0xa4 ∷ 0x17 ∷ 0xef ∷ 0x51 ∷ 0x53 ∷ 0x28 ∷ 0xa0
        ∷ 0x1c ∷ 0x35 ∷ 0x41 ∷ 0x81 ∷ 0x27 ∷ 0x0f ∷ 0x3e ∷ 0xaa ∷ 0x9c ∷ 0x92 ∷ 0x38 ∷ 0xd5 ∷ 0x5a
        ∷ 0x3c ∷ 0x47 ∷ 0x90 ∷ 0xa2 ∷ 0xb3 ∷ 0xa3 ∷ []

abbrev zero_keys : Keys
zero_keys = record { nv_storage_encrypt_key = zeros 16; nv_storage_tweak_key = zeros 16 }

abbrev start : World Ram
start = record {
  device = blank;
  keys = zero_keys;
  key_cache = clear_parent_public_key_cache;
  last_error = wallet_no_error;
  wallet_loaded = false;
  is_hidden_wallet = false;
  current_wallet = sample;
  wallet_nv_address = 0;
  num_wallets = 0;
}

abbrev hidden : World Ram
hidden = record start { wallet_loaded = true; is_hidden_wallet = true }

zeros-IsField : (n : ℕ) → length (zeros n) ≡ n → IsField n (zeros n)
zeros-IsField n e = record { sized = e; bytes = IsBytes-replicate n 0 (omega arith) }

sample-IsRecord : IsRecord sample
sample-IsRecord = record {
  unencrypted = record {
    version = omega arith;
    reserved = zeros-IsField 4 refl;
    name = zeros-IsField 40 refl;
    uuid = zeros-IsField 16 refl;
  };
  encrypted = record {
    num_addresses = omega arith;
    padding = zeros-IsField 8 refl;
    reserved = zeros-IsField 4 refl;
    seed = zeros-IsField 64 refl;
    checksum = record { sized = refl; bytes = omega arith };
  };
}

sample-checksum : sample.encrypted.checksum ≡ calculate_wallet_checksum sample
unfolding calculate_wallet_checksum hashed_bytes record_bytes unencrypted_bytes encrypted_bytes
    sha256_begin sha256_write_bytes sha256_finish sha256_block hash_write_bytes hash_finish
    hash_write_byte write_hash_to_byte_array big_endian_bytes write_u32_little_endian
    write_u32_big_endian
sample-checksum = refl

run_call-reports_example :
    wallet_get_last_error
      (run_call mirror ram_platform (call_new 1 (zeros 40) false [] false []) start).1
    ≡ (run_call mirror ram_platform (call_new 1 (zeros 40) false [] false []) start).0
run_call-reports_example =
    run_call-reports mirror ram_platform (call_new 1 (zeros 40) false [] false []) start

abbrev renamed : WalletErrors × World Ram
renamed = run_call mirror ram_platform (call_change_name (replicate 40 65)) hidden

run_call-StaysHidden_example :
    (renamed.1.is_hidden_wallet ≡ true)
    × (renamed.1.current_wallet.unencrypted ≡ hidden.current_wallet.unencrypted)
unfolding needs_wallet
run_call-StaysHidden_example =
    run_call-StaysHidden mirror ram_platform (call_change_name (replicate 40 65)) hidden refl refl

delete_wallet-spares_others_example :
    ram_memory.Stores
      (delete_wallet mirror ram_platform 0 start).1.device
      partition_accounts
      (1 * 176)
      (replicate 176 255)
unfolding ram_memory
delete_wallet-spares_others_example =
    delete_wallet-spares_others mirror ram_platform ram_memory start 0 1 (replicate 176 255)
      (omega arith) refl (omega arith) (omega arith) (omega arith) (range-Holds (λ i. 255) 176 176)

overwrite_loop-ends_example :
    overwrite_loop ram_platform 9 1 partition_accounts 176 0 176 (zeros 32) start
    ≡ overwrite_loop ram_platform (176 / 32 + 1) 1 partition_accounts 176 0 176 (zeros 32) start
overwrite_loop-ends_example =
    overwrite_loop-ends ram_platform 9 1 partition_accounts 176 176 (zeros 32) start (omega arith)

read_wallet_record-write_example :
    (d : Ram) × (write_current_wallet_record mirror ram_platform 176 start
      ≡ (ok tt, record start { device = d }))
    × (read_wallet_record mirror ram_platform 176 (record start { device = d })
        ≡ (ok sample, record start { device = d }))
unfolding ram_memory
read_wallet_record-write_example =
    read_wallet_record-write mirror mirror-IsCipher ram_platform ram_memory start 176
      sample-IsRecord (omega arith) (omega arith) (omega arith)

init_wallet-write_example :
    (d : Ram) × (write_current_wallet_record mirror ram_platform (1 * 176) start
      ≡ (ok tt, record start { device = d }))
    × (init_wallet mirror ram_platform 1 [] (record start { device = d }) ≡ (
      ok tt,
      loaded_world mirror ram_platform ram_memory
          (record start { device = d })
          (1 * 176)
          sample
          zero_keys,
    ))
unfolding ram_memory IsCounted derived_keys set_encryption_key
init_wallet-write_example =
    init_wallet-write mirror mirror-IsCipher ram_platform ram_memory start 1 [] (inl refl)
      (omega arith) (omega arith) sample-IsRecord refl sample-checksum refl
