-- ===== src/Wallet/Kept.antt =====
-- wallet.c, writeCurrentWalletRecord and readWalletRecord: a record that was written is read back.
use hardware_bitcoin_wallet.Base.{
  ℕ, ◌+◌, ◌*◌, ◌%◌, ◌^◌, ◌<◌, ◌≤◌, ◌≡◌, refl, arith, inr, List, true,
}
use hardware_bitcoin_wallet.Program.{ok, ◌>>=◌, ◌>>◌, pure, gets, raise_if, or_raise}
use hardware_bitcoin_wallet.Storage.{Platform, partition_accounts, IsMemory}
use hardware_bitcoin_wallet.Storage.Regions.{read-stored}
use hardware_bitcoin_wallet.Xex.{Cipher, Keys}
use hardware_bitcoin_wallet.Xex.Laws.{IsCipher}
use hardware_bitcoin_wallet.Xex.Region.{
  encrypt_all, encrypted_non_volatile_write-Wrote, encrypted_non_volatile_read-plain,
}
use hardware_bitcoin_wallet.Wallet.{
  WalletRecord, World, on_device, unencrypted_bytes, encrypted_bytes,
}
use hardware_bitcoin_wallet.Wallet.Layout.{
  IsRecord, unencrypted_of-bytes, encrypted_of-bytes, unencrypted_bytes-IsField,
  encrypted_bytes-IsField,
}
use hardware_bitcoin_wallet.Wallet.Record.{
  encrypted_read, encrypted_write, read_unencrypted, read_encrypted, read_wallet_record,
  write_current_wallet_record, calculate_wallet_checksum, derived_keys,
}
use hardware_bitcoin_wallet.Wallet.Create.{is_known_version, init_wallet}
use hardware_bitcoin_wallet.Wallet.Load.{capacity, IsCounted, loaded_world, init_wallet-loads}

module _ {Device : Type 0} (cipher : Cipher) (works : IsCipher cipher) (platform : Platform Device)
    (memory : IsMemory platform) where
  -- The record `r` stands at `a`, its second part encrypted under `keys`.
  pub record IsStored (d : Device) (a : ℕ) (r : WalletRecord) (keys : Keys) : Type 0 where
    pub plain : memory.Stores d partition_accounts a (unencrypted_bytes r.unencrypted)
    pub secret :
        memory.Stores d partition_accounts
          (a + 64)
          (encrypt_all cipher works platform memory keys 7 (a + 64) (encrypted_bytes r.encrypted))

  pub write-IsStored :
      (w : World Device) (a : ℕ)
      → IsRecord w.current_wallet
      → a % 16 ≡ 0
      → a + 176 < 2 ^ 32
      → a + 176 ≤ memory.size partition_accounts
      → (d : Device) × (write_current_wallet_record cipher platform a w
          ≡ (ok tt, record w { device = d }))
        × IsStored d a w.current_wallet w.keys
  unfolding write_current_wallet_record encrypted_write on_device ◌>>=◌ ◌>>◌ gets or_raise
  write-IsStored w a h aligned fits room =
      let plain : List ℕ = unencrypted_bytes w.current_wallet.unencrypted in
      let secret : List ℕ = encrypted_bytes w.current_wallet.encrypted in
      let plain_field = unencrypted_bytes-IsField w.current_wallet.unencrypted h.unencrypted in
      let secret_field = encrypted_bytes-IsField w.current_wallet.encrypted h.encrypted in
      let one =
        memory.write w.device partition_accounts a plain (omega (arith, plain_field.sized)) in
      let two =
        encrypted_non_volatile_write-Wrote cipher works platform memory w.keys one.0
          partition_accounts (a + 64) 7 secret secret_field.bytes secret_field.sized (omega arith)
          (omega arith) (omega arith) (omega arith) in
      let three = memory.flush two.0 in
      (
        three.0,
        rw (one.1, two.1, three.1) refl,
        record {
          plain = three.2 partition_accounts a plain (
              two.2.others partition_accounts a plain (inr (inr (omega (arith, plain_field.sized))))
                (one.2 plain_field.bytes));
          secret = three.2 partition_accounts (a + 64) _ two.2.stored;
        },
      )

  -- On a storage that works, with a block cipher that has an inverse, writing the current record at
  -- an aligned address inside the partition succeeds, and reading a record from there with the same
  -- keys gives all its fields back.
  pub read_wallet_record-write :
      (w : World Device) (a : ℕ)
      → IsRecord w.current_wallet
      → a % 16 ≡ 0
      → a + 176 < 2 ^ 32
      → a + 176 ≤ memory.size partition_accounts
      → (d : Device) × (write_current_wallet_record cipher platform a w
          ≡ (ok tt, record w { device = d }))
        × (read_wallet_record cipher platform a (record w { device = d })
            ≡ (ok w.current_wallet, record w { device = d }))
  unfolding read_wallet_record read_unencrypted read_encrypted encrypted_read on_device ◌>>=◌ ◌>>◌
      pure raise_if or_raise
  read_wallet_record-write w a h aligned fits room =
      let (d, written, stored) = write-IsStored w a h aligned fits room in
      let plain_field = unencrypted_bytes-IsField w.current_wallet.unencrypted h.unencrypted in
      let secret_field = encrypted_bytes-IsField w.current_wallet.encrypted h.encrypted in
      let plain_read =
        read-stored platform memory d partition_accounts a 64 _ plain_field.sized (omega arith)
          stored.plain in
      let secret_read =
        encrypted_non_volatile_read-plain cipher works platform memory w.keys d partition_accounts
          (a + 64) 7 _ secret_field.bytes secret_field.sized (omega arith) (omega arith)
          (omega arith) (omega arith) stored.secret in
      (
        d,
        written,
        rw
            (
              plain_read,
              secret_read,
              unencrypted_of-bytes w.current_wallet.unencrypted h.unencrypted,
              encrypted_of-bytes w.current_wallet.encrypted h.encrypted,
            )
            refl,
      )

  -- A record that was written can be loaded, on a storage that works with a block cipher that has an
  -- inverse: after `writeCurrentWalletRecord` at the address of wallet `n`, of a well-formed record
  -- with its checksum, under the key of a password and its UUID, `initWallet` with that password loads
  -- just that record.
  pub init_wallet-write :
      (w : World Device) (n : ℕ) (password : List ℕ)
      → IsCounted cipher platform memory w
      → n < capacity cipher platform memory
      → n * 176 + 176 < 2 ^ 32
      → IsRecord w.current_wallet
      → is_known_version w.current_wallet.unencrypted.version ≡ true
      → w.current_wallet.encrypted.checksum ≡ calculate_wallet_checksum w.current_wallet
      → w.keys ≡ derived_keys cipher platform w.current_wallet.unencrypted.uuid password w.keys
      → (d : Device) × (write_current_wallet_record cipher platform (n * 176) w
          ≡ (ok tt, record w { device = d }))
        × (init_wallet cipher platform n password (record w { device = d }) ≡ (
          ok tt,
          loaded_world cipher platform memory
              (record w { device = d })
              (n * 176)
              w.current_wallet
              w.keys,
        ))
  unfolding IsCounted
  init_wallet-write w n password counted small fits h known sum derived =
      let (d, written, stored) = write-IsStored w (n * 176) h (omega arith) fits (omega arith) in
      (
        d,
        written,
        init_wallet-loads cipher platform memory works (record w { device = d }) n password
            w.current_wallet w.keys counted small fits h known sum derived stored.plain
            stored.secret,
      )
