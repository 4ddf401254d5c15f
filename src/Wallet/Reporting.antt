-- ===== src/Wallet/Reporting.antt =====
-- wallet.c: what a function that loads, creates or erases wallets returns is what walletGetLastError
-- then gives.
pub mod All
use hardware_bitcoin_wallet.Base.{ℕ, zero, suc, List, Bool, true, false, Option, some, none}
use hardware_bitcoin_wallet.Storage.{Platform, Partition}
use hardware_bitcoin_wallet.Xex.{Cipher}
use hardware_bitcoin_wallet.Wallet.{Call}
use hardware_bitcoin_wallet.Wallet.Rules.{
  Explains, Reports, Reports-Explains, explain_rules, report_rules,
}
use hardware_bitcoin_wallet.Wallet.Record.{
  get_number_of_wallets, calculate_num_wallets, derive_and_set_encryption_key,
}
use hardware_bitcoin_wallet.Wallet.Sanitise.{
  random_buffer, check_random, fill_buffer, write_chunk, overwrite_loop, overwrite_passes,
  clear_version, clear_versions, sanitise_non_volatile_storage, sanitise_partition,
  sanitise_everything,
}
use hardware_bitcoin_wallet.Wallet.Create.{
  uninit_wallet, check_wallet_spec, init_wallet, delete_wallet, random_256, choose_uuid,
  set_unencrypted, choose_seed, new_wallet,
}

module _ {Device : Type 0} (cipher : Cipher) (platform : Platform Device) where
  pub uninit-Reports : Reports (uninit_wallet {Device = Device})
  unfolding uninit_wallet
  uninit-Reports = search (explain_rules, report_rules) depth 8

  number-Explains : Explains (get_number_of_wallets cipher platform)
  unfolding get_number_of_wallets calculate_num_wallets
  number-Explains = search (explain_rules) depth 8

  pub spec-Explains : (wallet_spec : ℕ) → Explains (check_wallet_spec cipher platform wallet_spec)
  unfolding check_wallet_spec
  spec-Explains wallet_spec = search (explain_rules, number-Explains) depth 8

  uninit-Explains : Explains (uninit_wallet {Device = Device})
  uninit-Explains = Reports-Explains uninit_wallet uninit-Reports

  pub derive-Explains :
      (uuid password : List ℕ)
      → Explains (derive_and_set_encryption_key cipher platform uuid password)
  unfolding derive_and_set_encryption_key
  derive-Explains uuid password = search explain_rules

  pub init-Reports :
      (wallet_spec : ℕ) (password : List ℕ)
      → Reports (init_wallet cipher platform wallet_spec password)
  unfolding init_wallet
  init-Reports wallet_spec password =
      search (explain_rules, report_rules, spec-Explains, uninit-Explains, derive-Explains) depth 24

  check-Explains :
      (pool : List ℕ) (drawn : Option (List ℕ × List ℕ))
      → Explains (check_random platform pool drawn)
  unfolding check_random
  check-Explains pool (some r) = search explain_rules
  check-Explains pool none = search explain_rules depth 8

  random_buffer-Explains : (pool : List ℕ) → Explains (random_buffer platform pool)
  unfolding random_buffer
  random_buffer-Explains pool = search (explain_rules, check-Explains) depth 8

  fill-Explains : (pass : ℕ) (pool : List ℕ) → Explains (fill_buffer platform pass pool)
  unfolding fill_buffer
  fill-Explains zero pool = search explain_rules
  fill-Explains (suc zero) pool = search explain_rules
  fill-Explains (suc (suc pass)) pool = random_buffer-Explains pool

  overwrite-Explains :
      (rounds pass : ℕ) (partition : Partition) (address bytes_written length' : ℕ) (pool : List ℕ)
      → Explains (overwrite_loop platform rounds pass partition address bytes_written length' pool)
  unfolding overwrite_loop
  overwrite-Explains zero pass partition address bytes_written length' pool = search explain_rules
  overwrite-Explains (suc rounds) pass partition address bytes_written length' pool =
      search (explain_rules, fill-Explains, overwrite-Explains rounds) depth 10

  passes-Explains :
      (passes pass : ℕ) (partition : Partition) (start length' : ℕ) (pool : List ℕ)
      → Explains (overwrite_passes platform passes pass partition start length' pool)
  unfolding overwrite_passes
  passes-Explains zero pass partition start length' pool = search explain_rules
  passes-Explains (suc passes) pass partition start length' pool =
      search (explain_rules, overwrite-Explains, passes-Explains passes) depth 10

  clear-Explains :
      (partition : Partition) (address : ℕ) → Explains (clear_version platform partition address)
  unfolding clear_version
  clear-Explains partition address = search explain_rules depth 8

  versions-Explains :
      (rounds : ℕ) (partition : Partition) (address start end : ℕ)
      → Explains (clear_versions platform rounds partition address start end)
  unfolding clear_versions
  versions-Explains zero partition address start end = search explain_rules
  versions-Explains (suc rounds) partition address start end =
      search (explain_rules, clear-Explains, versions-Explains rounds) depth 8

  sanitise-Reports :
      (partition : Partition) (start length' : ℕ)
      → Reports (sanitise_non_volatile_storage platform partition start length')
  unfolding sanitise_non_volatile_storage
  sanitise-Reports partition start length' =
      search (explain_rules, report_rules, passes-Explains, versions-Explains) depth 20

  partition-Reports : (partition : Partition) → Reports (sanitise_partition platform partition)
  unfolding sanitise_partition
  partition-Reports partition = search (explain_rules, report_rules, sanitise-Reports) depth 8

  partition-Explains : (partition : Partition) → Explains (sanitise_partition platform partition)
  partition-Explains partition = Reports-Explains _ (partition-Reports partition)

  pub everything-Reports : Reports (sanitise_everything platform)
  unfolding sanitise_everything
  everything-Reports =
      search (explain_rules, report_rules, partition-Reports, partition-Explains) depth 8

  pub delete-Reports : (wallet_spec : ℕ) → Reports (delete_wallet cipher platform wallet_spec)
  unfolding delete_wallet
  delete-Reports wallet_spec =
      search (explain_rules, report_rules, spec-Explains, uninit-Explains, sanitise-Reports) depth 8

  uuid-Explains : (make_hidden : Bool) → Explains (choose_uuid cipher platform make_hidden)
  unfolding choose_uuid
  uuid-Explains true = search explain_rules
  uuid-Explains false = search explain_rules depth 8

  unencrypted-Explains :
      (make_hidden : Bool) (name uuid : List ℕ)
      → Explains (set_unencrypted cipher platform make_hidden name uuid)
  unfolding set_unencrypted
  unencrypted-Explains true name uuid = search explain_rules
  unencrypted-Explains false name uuid = search explain_rules depth 8

  seed-Explains :
      (use_seed : Bool) (seed : List ℕ) → Explains (choose_seed cipher platform use_seed seed)
  unfolding choose_seed
  seed-Explains true seed = search explain_rules
  seed-Explains false seed = search explain_rules depth 8

  pub new-Reports :
      (wallet_spec : ℕ) (name : List ℕ) (use_seed : Bool) (seed : List ℕ) (make_hidden : Bool)
      (password : List ℕ)
      → Reports (new_wallet cipher platform wallet_spec name use_seed seed make_hidden password)
  unfolding new_wallet
  new-Reports wallet_spec name use_seed seed make_hidden password =
      search
        (
          explain_rules, report_rules, spec-Explains, uninit-Explains, derive-Explains,
          uuid-Explains, unencrypted-Explains, seed-Explains, init-Reports,
        )
        depth 30
