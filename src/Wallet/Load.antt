-- ===== src/Wallet/Load.antt =====
-- wallet.c, initWallet: a wallet whose record stands in storage is loaded.
use hardware_bitcoin_wallet.Base.{
  ℕ, ◌+◌, ◌*◌, ◌/◌, ◌^◌, ◌<◌, ◌≤◌, ◌≡◌, ◌⊎◌, inl, inr, refl, sym, ap, arith, u32, List, length,
  true, false, leb, ◌==◌, Bool-cases,
}
use hardware_bitcoin_wallet.Program.{
  ok, ◌>>=◌, ◌>>◌, pure, gets, modify, attempt, raise_if, or_raise,
}
use hardware_bitcoin_wallet.Storage.{Platform, partition_accounts, IsMemory}
use hardware_bitcoin_wallet.Storage.Regions.{read-stored}
use hardware_bitcoin_wallet.Endian.{write_u32_little_endian}
use hardware_bitcoin_wallet.Bignum.{compare_variable_size, cmp_equal}
use hardware_bitcoin_wallet.Bignum.Compare.{compare_variable_size-eq-order}
use hardware_bitcoin_wallet.Prandom.{clear_parent_public_key_cache}
use hardware_bitcoin_wallet.Xex.{Cipher, Keys}
use hardware_bitcoin_wallet.Xex.Laws.{IsCipher}
use hardware_bitcoin_wallet.Xex.Region.{encrypt_all, encrypted_non_volatile_read-plain}
use hardware_bitcoin_wallet.Wallet.{
  Unencrypted, WalletRecord, World, wallet_no_error, version_nothing_there, on_device, fail_if,
  or_fail, checked, succeed, unencrypted_bytes, encrypted_bytes,
}
use hardware_bitcoin_wallet.Wallet.Layout.{
  IsField, IsUnencrypted, IsRecord, u32-length, unencrypted_of-bytes, encrypted_of-bytes,
  unencrypted_bytes-IsField, encrypted_bytes-IsField,
}
use hardware_bitcoin_wallet.Wallet.Record.{
  get_number_of_wallets, calculate_num_wallets, count_wallets, calculate_wallet_checksum,
  derived_keys, derive_and_set_encryption_key, read_unencrypted, read_encrypted, encrypted_read,
  read_current_wallet,
}
use hardware_bitcoin_wallet.Wallet.Create.{
  blank_record, is_known_version, uninit_wallet, check_wallet_spec, init_wallet,
}

module _ {Device : Type 0} (cipher : Cipher) (platform : Platform Device)
    (memory : IsMemory platform) where
  -- The number of records that fit.
  abbrev pub capacity : ℕ
  capacity = memory.size partition_accounts / 176

  -- `num_wallets` is 0 before it is calculated, and then the number of records that fit.
  unfoldable pub IsCounted : World Device → Type 0
  IsCounted w = (w.num_wallets ≡ 0) ⊎ (w.num_wallets ≡ capacity)

  number-eq :
      (w : World Device)
      → IsCounted w
      → get_number_of_wallets cipher platform w
        ≡ (ok capacity, record w { last_error = wallet_no_error; num_wallets = capacity })
  unfolding IsCounted get_number_of_wallets calculate_num_wallets count_wallets on_device attempt
      ◌>>=◌ ◌>>◌ pure gets modify
  number-eq w (inl none) = rw (none, memory.measure w.device partition_accounts) refl
  number-eq w (inr known) = elim (Bool-cases (w.num_wallets == 0)) [
    | inl none ↦ rw (none, memory.measure w.device partition_accounts) refl
    | inr some ↦
        rw some (ap (λ n. (ok n, record w { last_error = wallet_no_error; num_wallets = n })) known)
  ]

  spec-eq :
      (w : World Device) (n : ℕ)
      → IsCounted w
      → n < capacity
      → check_wallet_spec cipher platform n w
        ≡ (ok tt, record w { last_error = wallet_no_error; num_wallets = capacity })
  unfolding check_wallet_spec ◌>>=◌ ◌>>◌ pure fail_if
  spec-eq w n counted small =
      let some : (capacity == 0) ≡ false = ground arith in
      let inside : leb capacity n ≡ false = ground arith in
      rw (number-eq w counted, some, inside) refl

  -- The UUID stands 48 bytes behind the start of a record.
  uuid-stored :
      (d : Device) (a : ℕ) (u : Unencrypted)
      → IsUnencrypted u
      → memory.Stores d partition_accounts a (unencrypted_bytes u)
      → memory.Stores d partition_accounts (a + 48) u.uuid
  unfolding unencrypted_bytes
  uuid-stored d a u h s =
      let (_, one) = memory.cut d partition_accounts a (write_u32_little_endian u.version) _ s in
      let (_, two) = memory.cut d partition_accounts _ u.reserved _ one in
      let (_, three) = memory.cut d partition_accounts _ u.name _ two in
      let at : a + length (write_u32_little_endian u.version) + length u.reserved + length u.name
          ≡ a + 48 =
        omega (arith, u32-length u.version, h.reserved.sized, h.name.sized) in
      rw (sym at) three

  same_checksum :
      (xs ys : List ℕ)
      → IsField 32 xs
      → xs ≡ ys
      → (compare_variable_size xs ys 32 == cmp_equal) ≡ true
  same_checksum xs ys h e =
      rw (sym e) (
        rw (compare_variable_size-eq-order 32 xs xs h.sized h.sized h.bytes h.bytes) (ground arith))

  -- What `initWallet` leaves for the record `r` at address `a`.
  abbrev pub loaded_world : World Device → ℕ → WalletRecord → Keys → World Device
  loaded_world w a r keys = record w {
    keys = keys;
    key_cache = clear_parent_public_key_cache;
    last_error = wallet_no_error;
    wallet_loaded = true;
    is_hidden_wallet = r.unencrypted.version == version_nothing_there;
    current_wallet = r;
    wallet_nv_address = a;
    num_wallets = capacity;
  }

  -- On a storage that works, with a block cipher that has an inverse: where a well-formed record of a
  -- known version stands in storage, its second part encrypted under the key of the password and its
  -- checksum that of its other bytes, `initWallet` with that password succeeds. The wallet is loaded
  -- then, with just that record, and hidden if and only if its version says that nothing is there.
  pub init_wallet-loads :
      (works : IsCipher cipher) (w : World Device) (n : ℕ) (password : List ℕ) (r : WalletRecord)
      (keys : Keys)
      → IsCounted w
      → n < capacity
      → n * 176 + 176 < 2 ^ 32
      → IsRecord r
      → is_known_version r.unencrypted.version ≡ true
      → r.encrypted.checksum ≡ calculate_wallet_checksum r
      → keys ≡ derived_keys cipher platform r.unencrypted.uuid password w.keys
      → memory.Stores w.device partition_accounts (n * 176) (unencrypted_bytes r.unencrypted)
      → memory.Stores w.device partition_accounts (n * 176 + 64) (
          encrypt_all cipher works platform memory keys 7
            (n * 176 + 64)
            (encrypted_bytes r.encrypted))
      → init_wallet cipher platform n password w ≡ (ok tt, loaded_world w (n * 176) r keys)
  unfolding init_wallet uninit_wallet derive_and_set_encryption_key read_current_wallet
      read_unencrypted read_encrypted encrypted_read on_device or_fail checked raise_if or_raise
      fail_if gets modify succeed ◌>>=◌ ◌>>◌ pure IsCounted
  init_wallet-loads works w n password r keys counted small fits h known sum derived plain secret =
      let a : ℕ = n * 176 in
      let room : a + 176 ≤ memory.size partition_accounts = omega arith in
      let address : u32 (n * 176) ≡ n * 176 = omega arith in
      let empty : World Device = record w {
        key_cache = clear_parent_public_key_cache;
        wallet_loaded = false;
        is_hidden_wallet = false;
        wallet_nv_address = 0;
        current_wallet = blank_record;
        last_error = wallet_no_error;
      } in
      let uuid_read =
        read-stored platform memory w.device partition_accounts (a + 48) 16 r.unencrypted.uuid
          h.unencrypted.uuid.sized (omega arith)
          (uuid-stored w.device a r.unencrypted h.unencrypted plain) in
      let plain_field = unencrypted_bytes-IsField r.unencrypted h.unencrypted in
      let plain_read =
        read-stored platform memory w.device partition_accounts a 64 _ plain_field.sized
          (omega arith) plain in
      let secret_field = encrypted_bytes-IsField r.encrypted h.encrypted in
      let secret_read =
        encrypted_non_volatile_read-plain cipher works platform memory keys w.device
          partition_accounts (a + 64) 7 (encrypted_bytes r.encrypted) secret_field.bytes
          secret_field.sized (omega arith) (omega arith) (omega arith) (omega arith) secret in
      rw
        (
          spec-eq empty n counted small,
          address,
          uuid_read,
          sym derived,
          plain_read,
          unencrypted_of-bytes r.unencrypted h.unencrypted,
          secret_read,
          encrypted_of-bytes r.encrypted h.encrypted,
          known,
          same_checksum r.encrypted.checksum (calculate_wallet_checksum r) h.encrypted.checksum sum,
        )
        refl
