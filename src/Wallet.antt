-- ===== src/Wallet.antt =====
-- wallet.c: the wallet records, the static variables, and how the functions end. The modules below
-- model the functions.
pub mod Record
pub mod Sanitise
pub mod Create
pub mod Address
pub mod Change
pub mod Calls
pub mod Rules
pub mod Reporting
pub mod Lenient
pub mod Hidden
pub mod Erase
pub mod Layout
pub mod Kept
pub mod Load
mod Tests
use hardware_bitcoin_wallet.Base.{ℕ, ◌+◌, ◌*◌, ◌/◌, ◌%◌, List, ◌++◌, take, drop, Bool, true, false}
use hardware_bitcoin_wallet.Endian.{write_u32_little_endian, read_u32_little_endian}
use hardware_bitcoin_wallet.Program.{Program, Result, ok, err, ◌>>=◌, ◌>>◌, modify, as_error}
use hardware_bitcoin_wallet.Xex.{Keys}
use hardware_bitcoin_wallet.Prandom.{KeyCache}

pub data WalletErrors : Type 0 where
  wallet_no_error : WalletErrors
  wallet_full : WalletErrors
  wallet_empty : WalletErrors
  wallet_read_error : WalletErrors
  wallet_write_error : WalletErrors
  wallet_not_there : WalletErrors
  wallet_not_loaded : WalletErrors
  wallet_invalid_handle : WalletErrors
  wallet_backup_error : WalletErrors
  wallet_rng_failure : WalletErrors
  wallet_invalid_wallet_num : WalletErrors
  wallet_invalid_operation : WalletErrors
  wallet_already_exists : WalletErrors
  wallet_bad_address : WalletErrors

abbrev pub version_nothing_there : ℕ
version_nothing_there = 0

abbrev pub version_unencrypted : ℕ
version_unencrypted = 2

abbrev pub version_is_encrypted : ℕ
version_is_encrypted = 3

abbrev pub bad_address_handle : ℕ
bad_address_handle = 0xffffffff

abbrev pub max_addresses : ℕ
max_addresses = 0xfffffffe

pub record Unencrypted : Type 0 where
  pub version : ℕ
  pub reserved : List ℕ
  pub name : List ℕ
  pub uuid : List ℕ

pub record Encrypted : Type 0 where
  pub num_addresses : ℕ
  pub padding : List ℕ
  pub reserved : List ℕ
  pub seed : List ℕ
  pub checksum : List ℕ

pub record WalletRecord : Type 0 where
  pub unencrypted : Unencrypted
  pub encrypted : Encrypted

-- The sizes of the structures, and offsets in them.
abbrev pub unencrypted_size : ℕ
unencrypted_size = 64

abbrev pub encrypted_size : ℕ
encrypted_size = 112

abbrev pub record_size : ℕ
record_size = 176

abbrev pub uuid_offset : ℕ
uuid_offset = 48

abbrev pub checksum_offset : ℕ
checksum_offset = 144

-- The structures as they stand in memory, on a little-endian processor, field after field.
unfoldable pub unencrypted_bytes : Unencrypted → List ℕ
unencrypted_bytes u = write_u32_little_endian u.version ++ (u.reserved ++ (u.name ++ u.uuid))

unfoldable pub encrypted_bytes : Encrypted → List ℕ
encrypted_bytes e =
    write_u32_little_endian e.num_addresses ++ (e.padding ++ (e.reserved ++ (e.seed ++ e.checksum)))

unfoldable pub unencrypted_of : List ℕ → Unencrypted
unencrypted_of bytes = record {
  version = read_u32_little_endian (take 4 bytes);
  reserved = take 4 (drop 4 bytes);
  name = take 40 (drop 8 bytes);
  uuid = take 16 (drop 48 bytes);
}

unfoldable pub encrypted_of : List ℕ → Encrypted
encrypted_of bytes = record {
  num_addresses = read_u32_little_endian (take 4 bytes);
  padding = take 8 (drop 4 bytes);
  reserved = take 4 (drop 12 bytes);
  seed = take 64 (drop 16 bytes);
  checksum = take 32 (drop 80 bytes);
}

-- The static variables of wallet.c, and those of the modules that it calls: the keys of xex.c, the
-- cache of prandom.c, and the state of the platform's devices.
pub record World (Device : Type 0) : Type 0 where
  pub device : Device
  pub keys : Keys
  pub key_cache : KeyCache
  pub last_error : WalletErrors
  pub wallet_loaded : Bool
  pub is_hidden_wallet : Bool
  pub current_wallet : WalletRecord
  pub wallet_nv_address : ℕ
  pub num_wallets : ℕ

-- A function that returns `WalletErrors`: a value where it gets to `return WALLET_NO_ERROR` at its
-- end, and where it returns earlier the error that it returns.
abbrev pub Call : Type 0 → Type 0 → Type 0
Call Device A = Program (World Device) WalletErrors A

-- `last_error = e; return last_error;`.
unfoldable pub fail : {Device A : Type 0} → WalletErrors → Call Device A
fail e w = (err e, record w { last_error = e })

-- `last_error = WALLET_NO_ERROR; return last_error;`, with what the function wrote to its results.
unfoldable pub succeed : {Device A : Type 0} → A → Call Device A
succeed a w = (ok a, record w { last_error = wallet_no_error })

-- `return last_error;` after a call that set it.
unfoldable pub return_last_error : {Device A : Type 0} → Call Device A
return_last_error w = (err w.last_error, w)

-- `if (c) { last_error = e; return last_error; }`.
unfoldable pub fail_if : {Device : Type 0} → Bool → WalletErrors → Call Device (Unit {0})
fail_if true e w = (err e, record w { last_error = e })
fail_if false e w = (ok tt, w)

-- A call of another module, on the devices.
unfoldable pub on_device : {Device E A : Type 0} → Program Device E A → Program (World Device) E A
on_device m w = let (r, d) = m w.device in (r, record w { device = d })

-- A call whose failure sets `last_error` to `e`, which its caller returns.
abbrev pub record_failure :
    {Device E A : Type 0}
    → WalletErrors
    → Result E A × World Device
    → Result WalletErrors A × World Device
record_failure e (ok a, w) = (ok a, w)
record_failure e (err _, w) = (err e, record w { last_error = e })

unfoldable pub or_fail :
    {Device E A : Type 0} → Program (World Device) E A → WalletErrors → Call Device A
or_fail m e w = record_failure e (m w)

-- `r = f(); if (r != WALLET_NO_ERROR) { last_error = r; return last_error; }`.
abbrev pub record_error :
    {Device A : Type 0}
    → Result WalletErrors A × World Device
    → Result WalletErrors A × World Device
record_error (ok a, w) = (ok a, w)
record_error (err e, w) = (err e, record w { last_error = e })

unfoldable pub checked : {Device A : Type 0} → Call Device A → Call Device A
checked m w = record_error (m w)

-- The code that a function returned.
abbrev pub code : {A : Type 0} → Result WalletErrors A → WalletErrors
code (ok _) = wallet_no_error
code (err e) = e
