-- ===== src/Wallet/Sanitise.antt =====
-- wallet.c: overwriting parts of non-volatile storage, and deleting a wallet.
pub mod Region
pub mod Ends
use hardware_bitcoin_wallet.Base.{
  ℕ, zero, suc, ◌+◌, ◌-◌, ◌*◌, ◌/◌, ◌%◌, ◌^◌, u32, List, [], take, replicate, Bool, true, false,
  ltb, leb, not, ◌||◌, ◌&&◌, ◌==◌, if◌then◌else◌, Option, some, none,
}
use hardware_bitcoin_wallet.Program.{Program, ◌>>=◌, ◌>>◌, pure, gets, modify, attempt}
use hardware_bitcoin_wallet.Storage.{Platform, Partition, partition_global, partition_accounts}
use hardware_bitcoin_wallet.Prandom.{
  get_entropy_pool, set_entropy_pool, get_random_256_temporary_pool,
}
use hardware_bitcoin_wallet.Wallet.{
  WalletErrors, wallet_rng_failure, wallet_bad_address, wallet_write_error, record_size, World,
  Call, fail, succeed, fail_if, on_device, or_fail,
}

unfoldable pub is_accounts : Partition → Bool
is_accounts partition_global = false
is_accounts partition_accounts = true

abbrev pub bytes_to_write : ℕ → ℕ → ℕ
bytes_to_write length' bytes_written =
    if ltb 32 (length' - bytes_written) then 32 else length' - bytes_written

module _ {Device : Type 0} (platform : Platform Device) where
  -- What happens after a call of `getRandom256TemporaryPool` for the pool state: a failure puts the
  -- pool back into storage as far as it can, and is reported.
  unfoldable pub check_random : List ℕ → Option (List ℕ × List ℕ) → Call Device (List ℕ × List ℕ)
  check_random pool_state (some r) = pure r
  check_random pool_state none = do
    attempt (on_device (set_entropy_pool platform pool_state))
    fail wallet_rng_failure

  unfoldable pub random_buffer : List ℕ → Call Device (List ℕ × List ℕ)
  unfolding check_random
  random_buffer pool_state = do
    drawn ← attempt (on_device (get_random_256_temporary_pool platform pool_state))
    check_random pool_state drawn

  -- `buffer` and the pool for a round of the pass: zeros, ones, and then twice random bytes.
  unfoldable pub fill_buffer : ℕ → List ℕ → Call Device (List ℕ × List ℕ)
  unfolding random_buffer
  fill_buffer zero pool_state = pure (replicate 32 0, pool_state)
  fill_buffer (suc zero) pool_state = pure (replicate 32 0xff, pool_state)
  fill_buffer (suc (suc pass)) pool_state = random_buffer pool_state

  unfoldable pub write_chunk : List ℕ → Partition → ℕ → Call Device (Unit {0})
  write_chunk chunk partition address =
      or_fail (on_device (platform.non_volatile_write chunk partition address)) wallet_write_error

  -- The inner loop, with a bound on its rounds; the state of the pool comes out.
  unfoldable pub overwrite_loop : ℕ → ℕ → Partition → ℕ → ℕ → ℕ → List ℕ → Call Device (List ℕ)
  unfolding fill_buffer write_chunk
  overwrite_loop zero pass partition address bytes_written length' pool_state = pure pool_state
  overwrite_loop (suc rounds) pass partition address bytes_written length' pool_state =
      if ltb bytes_written length'
      then fill_buffer pass pool_state >>= (λ filled.
        let n = bytes_to_write length' bytes_written in
        write_chunk (take n filled.0) partition address
        >> overwrite_loop rounds pass partition (u32 (address + n)) (bytes_written + n) length'
            filled.1)
      else pure pool_state

  -- The passes from `pass` on, each with a flush at its end.
  unfoldable pub overwrite_passes : ℕ → ℕ → Partition → ℕ → ℕ → List ℕ → Call Device (List ℕ)
  unfolding overwrite_loop
  overwrite_passes zero pass partition start length' pool_state = pure pool_state
  overwrite_passes (suc passes) pass partition start length' pool_state =
      overwrite_loop (length' / 32 + 1) pass partition start 0 length' pool_state
      >>= (λ pool_state'.
          or_fail (on_device platform.non_volatile_flush) wallet_write_error
          >> overwrite_passes passes (pass + 1) partition start length' pool_state')

  -- One version field: the result of the flush is not looked at.
  unfoldable pub clear_version : Partition → ℕ → Call Device (Unit {0})
  unfolding write_chunk
  clear_version partition address = do
    write_chunk (replicate 4 0) partition address
    attempt (on_device platform.non_volatile_flush)
    pure tt

  -- The loop over the version fields, with a bound on its rounds.
  unfoldable pub clear_versions : ℕ → Partition → ℕ → ℕ → ℕ → Call Device (Unit {0})
  unfolding clear_version
  clear_versions zero partition address start end = pure tt
  clear_versions (suc rounds) partition address start end =
      if leb (address + 4) end
      then (if leb start address then clear_version partition address else pure tt)
        >> clear_versions rounds partition (address + record_size) start end
      else pure tt

  unfoldable pub sanitise_non_volatile_storage : Partition → ℕ → ℕ → Call Device (Unit {0})
  unfolding overwrite_passes clear_versions is_accounts
  sanitise_non_volatile_storage partition start length' = do
    pool_state ← or_fail (on_device (get_entropy_pool platform)) wallet_rng_failure
    fail_if (ltb 0x10000000 start || ltb 0x10000000 length') wallet_bad_address
    fail_if (not (start % 4 == 0) || not (length' % 4 == 0)) wallet_bad_address
    pool_state' ← overwrite_passes 4 0 partition start length' pool_state
    or_fail (on_device (set_entropy_pool platform pool_state')) wallet_rng_failure
    let first = start / record_size * record_size
    if is_accounts partition
        then clear_versions (length' / record_size + 2) partition first start (start + length')
        else pure tt
    succeed tt

  unfoldable pub sanitise_partition : Partition → Call Device (Unit {0})
  unfolding sanitise_non_volatile_storage
  sanitise_partition partition = do
    size ← or_fail (on_device (platform.non_volatile_get_size partition)) wallet_bad_address
    sanitise_non_volatile_storage partition 0 size

  unfoldable pub sanitise_everything : Call Device (Unit {0})
  unfolding sanitise_partition
  sanitise_everything = do
    sanitise_partition partition_global
    sanitise_partition partition_accounts
