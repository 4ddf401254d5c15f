-- ===== src/Wallet/Hidden.antt =====
-- wallet.c: what can be seen of a hidden wallet does not change while it is loaded.
use hardware_bitcoin_wallet.Base.{ℕ, List, Bool, true, ◌≡◌, refl, ◌∙◌, Option, some, none}
use mathlib.Core.Bool.{false≢true}
use hardware_bitcoin_wallet.Program.{Program, ◌>>=◌, ◌>>◌, gets, modify, raise_if}
use hardware_bitcoin_wallet.Program.Respects.{IsPreorder, Respects, respect_rules}
use hardware_bitcoin_wallet.Storage.{Platform, Partition}
use hardware_bitcoin_wallet.Xex.{Cipher}
use hardware_bitcoin_wallet.Prandom.{KeyCache}
use hardware_bitcoin_wallet.Wallet.{World, on_device, fail_if, fail, succeed}
use hardware_bitcoin_wallet.Wallet.Lenient.{IsLenient, lenient_rules}
use hardware_bitcoin_wallet.Wallet.Record.{
  write_current_wallet_record, encrypted_write, update_wallet_version,
  derive_and_set_encryption_key, with_checksum,
}
use hardware_bitcoin_wallet.Wallet.Address.{
  require_loaded, check_handle, take_key, get_private_key, get_address_and_public_key,
  get_master_public_key, get_num_addresses, make_new_address, add_address,
}
use hardware_bitcoin_wallet.Wallet.Change.{
  save_wallet, change_encryption_key, rename_visible, change_wallet_name, backup_wallet,
}
use hardware_bitcoin_wallet.Wallet.Calls.{
  WalletCall, call_init, call_uninit, call_sanitise, call_delete, call_new, call_make_address,
  call_address, call_master_key, call_num_addresses, call_private_key, call_change_key,
  call_change_name, call_info, call_backup, needs_wallet, run_call,
}

-- A hidden wallet stays hidden, with the same version, name, UUID and reserved bytes.
unfoldable pub StaysHidden : {Device : Type 0} → World Device → World Device → Type 0
StaysHidden w w' =
    w.is_hidden_wallet ≡ true
    → (w'.is_hidden_wallet ≡ true) × (w'.current_wallet.unencrypted ≡ w.current_wallet.unencrypted)

module _ {Device : Type 0} (cipher : Cipher) (platform : Platform Device) where
  order : IsPreorder (StaysHidden {Device = Device})
  unfolding StaysHidden
  order = record {
    same = λ s h. (h, refl);
    chain = λ s t u first second h.
        let one = first h in let two = second one.0 in (two.0, two.1 ∙ one.1);
  }

  lenient : IsLenient (StaysHidden {Device = Device})
  unfolding StaysHidden
  lenient = record { order = order; error = λ w e h. (h, refl) }

  device-Stays : {E A : Type 0} (m : Program Device E A) → Respects StaysHidden (on_device m)
  unfolding StaysHidden Respects on_device
  device-Stays m w h = (h, refl)

  loaded-Stays : Respects (StaysHidden {Device = Device}) require_loaded
  unfolding require_loaded
  loaded-Stays = search (respect_rules, lenient_rules, order, lenient) depth 8

  handle-Stays : (ah : ℕ) → Respects (StaysHidden {Device = Device}) (check_handle ah)
  unfolding check_handle
  handle-Stays ah = search (respect_rules, lenient_rules, order, lenient) depth 8

  key-Stays :
      (r : Option (List ℕ) × KeyCache) → Respects (StaysHidden {Device = Device}) (take_key r)
  unfolding take_key Respects StaysHidden ◌>>◌ ◌>>=◌ modify succeed fail
  key-Stays (some out, cache) w h = (h, refl)
  key-Stays (none, cache) w h = (h, refl)

  private-Stays : (ah : ℕ) → Respects (StaysHidden {Device = Device}) (get_private_key ah)
  unfolding get_private_key
  private-Stays ah =
      search (respect_rules, lenient_rules, order, loaded-Stays, handle-Stays, key-Stays) depth 16

  public-Stays : (ah : ℕ) → Respects (StaysHidden {Device = Device}) (get_address_and_public_key ah)
  unfolding get_address_and_public_key
  public-Stays ah =
      search
        (respect_rules, lenient_rules, order, lenient, loaded-Stays, handle-Stays, private-Stays)
        depth 16

  master-Stays : Respects (StaysHidden {Device = Device}) get_master_public_key
  unfolding get_master_public_key
  master-Stays = search (respect_rules, lenient_rules, order, lenient, loaded-Stays) depth 12

  count-Stays : Respects (StaysHidden {Device = Device}) get_num_addresses
  unfolding get_num_addresses
  count-Stays = search (respect_rules, lenient_rules, order, lenient, loaded-Stays) depth 12

  encrypted-Stays :
      (bytes : List ℕ) (p : Partition) (a : ℕ)
      → Respects (StaysHidden {Device = Device}) (encrypted_write cipher platform bytes p a)
  unfolding encrypted_write Respects StaysHidden on_device
  encrypted-Stays bytes p a w h = (h, refl)

  write-Stays : (a : ℕ) → Respects StaysHidden (write_current_wallet_record cipher platform a)
  unfolding write_current_wallet_record
  write-Stays a =
      search (respect_rules, lenient_rules, order, device-Stays, encrypted-Stays) depth 12

  checksum-Stays :
      (w : World Device)
      → StaysHidden w (record w { current_wallet = with_checksum w.current_wallet })
  unfolding StaysHidden with_checksum
  checksum-Stays w h = (h, refl)

  add-Stays :
      (w : World Device)
      → StaysHidden w (record w { current_wallet = with_checksum (add_address w.current_wallet) })
  unfolding StaysHidden with_checksum add_address
  add-Stays w h = (h, refl)

  make-Stays : Respects StaysHidden (make_new_address cipher platform)
  unfolding make_new_address
  make-Stays =
      search
        (
          respect_rules, lenient_rules, order, lenient, loaded-Stays, write-Stays, public-Stays,
          add-Stays,
        )
        depth 20

  save-Stays : Respects StaysHidden (save_wallet cipher platform)
  unfolding save_wallet
  save-Stays =
      search (respect_rules, lenient_rules, order, lenient, write-Stays, checksum-Stays) depth 16

  derive-Stays :
      (uuid password : List ℕ)
      → Respects StaysHidden (derive_and_set_encryption_key cipher platform uuid password)
  unfolding derive_and_set_encryption_key Respects StaysHidden modify
  derive-Stays uuid password w h = (h, refl)

  -- The version of a hidden wallet is never updated.
  version-Stays : Respects StaysHidden (update_wallet_version cipher platform)
  unfolding update_wallet_version Respects StaysHidden ◌>>=◌ ◌>>◌ gets raise_if
  version-Stays w h = rw h (refl, refl)

  rekey-Stays :
      (password : List ℕ) → Respects StaysHidden (change_encryption_key cipher platform password)
  unfolding change_encryption_key
  rekey-Stays password =
      search
        (
          respect_rules, lenient_rules, order, lenient, loaded-Stays, derive-Stays, version-Stays,
          save-Stays,
        )
        depth 20

  -- Neither is its name.
  visible-Stays : (name : List ℕ) → Respects StaysHidden (rename_visible cipher platform name)
  unfolding rename_visible Respects StaysHidden ◌>>=◌ ◌>>◌ gets fail_if
  visible-Stays name w h = rw h (refl, refl)

  rename-Stays : (name : List ℕ) → Respects StaysHidden (change_wallet_name cipher platform name)
  unfolding change_wallet_name
  rename-Stays name = search (respect_rules, order, loaded-Stays, visible-Stays) depth 8

  backup-Stays :
      (do_encrypt : Bool) (destination : ℕ)
      → Respects StaysHidden (backup_wallet cipher platform do_encrypt destination)
  unfolding backup_wallet
  backup-Stays do_encrypt destination =
      search (respect_rules, lenient_rules, order, lenient, loaded-Stays, device-Stays) depth 16

  -- While a hidden wallet is loaded, no call about the loaded wallet changes the version, the name,
  -- the UUID or the reserved bytes of its record, and the wallet stays hidden, whatever fails.
  pub run_call-StaysHidden :
      (c : WalletCall) (w : World Device)
      → needs_wallet c ≡ true
      → w.is_hidden_wallet ≡ true
      → ((run_call cipher platform c w).1.is_hidden_wallet ≡ true)
        × ((run_call cipher platform c w).1.current_wallet.unencrypted
            ≡ w.current_wallet.unencrypted)
  unfolding run_call needs_wallet Respects StaysHidden
  run_call-StaysHidden (call_init n password) w needs h = absurd (false≢true needs)
  run_call-StaysHidden call_uninit w needs h = absurd (false≢true needs)
  run_call-StaysHidden call_sanitise w needs h = absurd (false≢true needs)
  run_call-StaysHidden (call_delete n) w needs h = absurd (false≢true needs)
  run_call-StaysHidden (call_new n name use_seed seed make_hidden password) w needs h =
      absurd (false≢true needs)
  run_call-StaysHidden (call_info n) w needs h = absurd (false≢true needs)
  run_call-StaysHidden call_make_address w needs h = make-Stays w h
  run_call-StaysHidden (call_address ah) w needs h = public-Stays ah w h
  run_call-StaysHidden call_master_key w needs h = master-Stays w h
  run_call-StaysHidden call_num_addresses w needs h = count-Stays w h
  run_call-StaysHidden (call_private_key ah) w needs h = private-Stays ah w h
  run_call-StaysHidden (call_change_key password) w needs h = rekey-Stays password w h
  run_call-StaysHidden (call_change_name name) w needs h = rename-Stays name w h
  run_call-StaysHidden (call_backup do_encrypt destination) w needs h =
      backup-Stays do_encrypt destination w h
