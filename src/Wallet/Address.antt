-- ===== src/Wallet/Address.antt =====
-- wallet.c: the addresses of the loaded wallet, and their keys.
use hardware_bitcoin_wallet.Base.{
  ℕ, ◌+◌, u32, List, length, take, drop, true, ltb, leb, not, ◌||◌, ◌==◌, Option, some, none,
}
use hardware_bitcoin_wallet.Program.{◌>>=◌, ◌>>◌, pure, gets, modify}
use hardware_bitcoin_wallet.Hash.{write_hash_to_byte_array}
use hardware_bitcoin_wallet.Sha256.{sha256_begin, sha256_write_bytes, sha256_finish}
use hardware_bitcoin_wallet.Ripemd160.{ripemd160_begin, ripemd160_write_bytes, ripemd160_finish}
use hardware_bitcoin_wallet.Bignum.{modulo, swap_endian256}
use hardware_bitcoin_wallet.Secp256k1.{field_n}
use hardware_bitcoin_wallet.Secp256k1.Points.{
  PointAffine, base_point, point_multiply, ecdsa_serialise,
}
use hardware_bitcoin_wallet.Storage.{Platform}
use hardware_bitcoin_wallet.Xex.{Cipher}
use hardware_bitcoin_wallet.Prandom.{KeyCache, generate_deterministic_256}
use hardware_bitcoin_wallet.Wallet.{
  wallet_full, wallet_empty, wallet_not_loaded, wallet_invalid_handle, wallet_rng_failure,
  bad_address_handle, max_addresses, WalletRecord, Call, fail, succeed, fail_if, checked,
}
use hardware_bitcoin_wallet.Wallet.Record.{with_checksum, write_current_wallet_record}

-- The address of a serialised public key: RIPEMD-160 of SHA-256, on one hash state.
unfoldable pub address_of : List ℕ → List ℕ
address_of serialised =
    let hs = sha256_finish (sha256_write_bytes sha256_begin serialised) in
    let buffer = write_hash_to_byte_array hs true in
    let hs' = ripemd160_finish (ripemd160_write_bytes (ripemd160_begin hs) buffer) in
    take 20 (write_hash_to_byte_array hs' true)

unfoldable pub add_address : WalletRecord → WalletRecord
add_address r = record r {
  encrypted = record r.encrypted { num_addresses = u32 (r.encrypted.num_addresses + 1) };
}

module _ {Device : Type 0} where
  -- `if (!wallet_loaded) { last_error = WALLET_NOT_LOADED; return last_error; }`.
  unfoldable pub require_loaded : Call Device (Unit {0})
  require_loaded = do loaded ← gets (λ w. w.wallet_loaded); fail_if (not loaded) wallet_not_loaded

  -- The tests of an address handle.
  unfoldable pub check_handle : ℕ → Call Device (Unit {0})
  check_handle ah = do
    n ← gets (λ w. w.current_wallet.encrypted.num_addresses)
    fail_if (n == 0) wallet_empty
    fail_if (ah == 0 || (ltb n ah || ah == bad_address_handle)) wallet_invalid_handle

  -- The result of `generateDeterministic256`, with the cache that it leaves.
  unfoldable pub take_key : Option (List ℕ) × KeyCache → Call Device (List ℕ)
  take_key (some out, cache) = modify (λ w. record w { key_cache = cache }) >> succeed out
  take_key (none, cache) = modify (λ w. record w { key_cache = cache }) >> fail wallet_rng_failure

  unfoldable pub get_private_key : ℕ → Call Device (List ℕ)
  unfolding require_loaded check_handle take_key
  get_private_key ah = do
    require_loaded
    check_handle ah
    seed ← gets (λ w. w.current_wallet.encrypted.seed)
    cache ← gets (λ w. w.key_cache)
    take_key (generate_deterministic_256 seed ah cache)

  -- The address and the public key.
  unfoldable pub get_address_and_public_key : ℕ → Call Device (List ℕ × PointAffine)
  unfolding require_loaded check_handle get_private_key
  get_address_and_public_key ah = do
    require_loaded
    check_handle ah
    private_key ← checked (get_private_key ah)
    let out_public_key = point_multiply base_point private_key
    let serialised = ecdsa_serialise out_public_key true
    fail_if (ltb (length serialised) 2) wallet_invalid_handle
    succeed (address_of serialised, out_public_key)

  -- The public key and the chain code.
  unfoldable pub get_master_public_key : Call Device (PointAffine × List ℕ)
  unfolding require_loaded
  get_master_public_key = do
    require_loaded
    seed ← gets (λ w. w.current_wallet.encrypted.seed)
    let k_par = modulo field_n (swap_endian256 (take 32 seed))
    succeed (point_multiply base_point k_par, take 32 (drop 32 seed))

  -- An error is the number 0 of the source.
  unfoldable pub get_num_addresses : Call Device ℕ
  unfolding require_loaded
  get_num_addresses = do
    require_loaded
    n ← gets (λ w. w.current_wallet.encrypted.num_addresses)
    fail_if (n == 0) wallet_empty
    succeed n

  -- The handle, the address and the public key; an error is `BAD_ADDRESS_HANDLE` in the source.
  unfoldable pub make_new_address :
      Cipher → Platform Device → Call Device (ℕ × (List ℕ × PointAffine))
  unfolding require_loaded
  make_new_address cipher platform = do
    require_loaded
    n ← gets (λ w. w.current_wallet.encrypted.num_addresses)
    fail_if (leb max_addresses n) wallet_full
    modify (λ w. record w { current_wallet = with_checksum (add_address w.current_wallet) })
    address ← gets (λ w. w.wallet_nv_address)
    checked (write_current_wallet_record cipher platform address)
    handle ← gets (λ w. w.current_wallet.encrypted.num_addresses)
    out ← checked (get_address_and_public_key handle)
    pure (handle, out)
