-- ===== src/Wallet/Erase.antt =====
-- wallet.c, deleteWallet: the records of the other wallets stay.
use hardware_bitcoin_wallet.Base.{
  ℕ, ◌+◌, ◌*◌, ◌^◌, ◌≤◌, ◌<◌, ◌≡◌, ◌≢◌, ◌⊎◌, inl, inr, ap, arith, u32, List, length, Option, some,
  none,
}
use hardware_bitcoin_wallet.Program.{◌>>=◌, ◌>>◌, modify}
use hardware_bitcoin_wallet.Program.Respects.{Respects, respect_rules}
use hardware_bitcoin_wallet.Storage.{
  Platform, Partition, partition_global, partition_accounts, IsMemory, Apart,
}
use hardware_bitcoin_wallet.Xex.{Cipher}
use hardware_bitcoin_wallet.Prandom.Spares.{Spares}
use hardware_bitcoin_wallet.Wallet.{World, succeed}
use hardware_bitcoin_wallet.Wallet.Lenient.{IsLenient, lenient_rules}
use hardware_bitcoin_wallet.Wallet.Record.{
  count_wallets, calculate_num_wallets, get_number_of_wallets,
}
use hardware_bitcoin_wallet.Wallet.Create.{uninit_wallet, check_wallet_spec, delete_wallet}
use hardware_bitcoin_wallet.Wallet.Sanitise.{is_accounts}
use mathlib.Core.Bool.{false≢true}
use hardware_bitcoin_wallet.Wallet.Sanitise.Region.{
  WalletSpares, lenient, device-Spares, sanitise-Spares,
}

module _ {Device : Type 0} (cipher : Cipher) (platform : Platform Device)
    (memory : IsMemory platform) (q : Partition) (b : ℕ) (cs : List ℕ) where
  gentle : IsLenient (WalletSpares platform memory q b cs)
  gentle = lenient platform memory q b cs

  measure-Spares :
      (p : Partition) → Respects (Spares platform memory q b cs) (platform.non_volatile_get_size p)
  unfolding Spares Respects
  measure-Spares p d s = rw (memory.measure d p) s

  count-Spares :
      (size : Option ℕ) (w : World Device)
      → WalletSpares platform memory q b cs w (count_wallets cipher platform size w)
  unfolding WalletSpares Spares count_wallets
  count-Spares (some size) w s = s
  count-Spares none w s = s

  spec-Spares :
      (wallet_spec : ℕ)
      → Respects
          (WalletSpares platform memory q b cs)
          (check_wallet_spec cipher platform wallet_spec)
  unfolding check_wallet_spec get_number_of_wallets calculate_num_wallets
  spec-Spares wallet_spec =
      let measured = device-Spares platform memory q b cs _ (measure-Spares partition_accounts) in
      search
        (respect_rules, lenient_rules, gentle.order, gentle, gentle.error, measured, count-Spares)
        depth 12

  uninit-Spares : Respects (WalletSpares platform memory q b cs) uninit_wallet
  unfolding uninit_wallet WalletSpares Spares Respects ◌>>◌ ◌>>=◌ modify succeed
  uninit-Spares w s = s

  delete-Spares :
      (wallet_spec : ℕ)
      → wallet_spec * 176 + 176 < 2 ^ 32
      → wallet_spec * 176 + 176 ≤ memory.size partition_accounts
      → 112 ≤ memory.size partition_global
      → Apart partition_accounts (wallet_spec * 176) 176 q b (length cs)
      → Apart partition_global 64 48 q b (length cs)
      → Respects (WalletSpares platform memory q b cs) (delete_wallet cipher platform wallet_spec)
  unfolding delete_wallet
  delete-Spares wallet_spec fits inside room apart pool_apart =
      let small : u32 (wallet_spec * 176) ≡ wallet_spec * 176 = omega arith in
      let erased =
        sanitise-Spares platform memory q b cs partition_accounts (wallet_spec * 176) 176 fits
          inside apart room pool_apart in
      rw small (search (respect_rules, gentle.order, spec-Spares, uninit-Spares, erased) depth 8)

global≢accounts : partition_global ≢ partition_accounts
unfolding is_accounts
global≢accounts e = false≢true (ap is_accounts e)

other_record : (n m : ℕ) → n ≢ m → (n * 176 + 176 ≤ m * 176) ⊎ (m * 176 + 176 ≤ n * 176)
other_record n m ne = ground arith

-- `deleteWallet` leaves the record of every other wallet as it is, on a storage that works with room
-- for the pool and for the record that is deleted, whether it succeeds or fails.
pub delete_wallet-spares_others :
    {Device : Type 0} (cipher : Cipher) (platform : Platform Device) (memory : IsMemory platform)
    (w : World Device) (n m : ℕ) (other : List ℕ)
    → n ≢ m
    → length other ≡ 176
    → n * 176 + 176 < 2 ^ 32
    → n * 176 + 176 ≤ memory.size partition_accounts
    → 112 ≤ memory.size partition_global
    → memory.Stores w.device partition_accounts (m * 176) other
    → memory.Stores (delete_wallet cipher platform n w).1.device partition_accounts (m * 176) other
unfolding Respects WalletSpares Spares
delete_wallet-spares_others cipher platform memory w n m other ne len fits inside room stored =
    let apart : Apart partition_accounts (n * 176) 176 partition_accounts (m * 176) (length other) =
      inr (rw len (other_record n m ne)) in
    delete-Spares cipher platform memory partition_accounts (m * 176) other n fits inside room apart
      (inl global≢accounts) w stored
