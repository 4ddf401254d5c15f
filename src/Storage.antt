-- ===== src/Storage.antt =====
-- hwinterface.h: what a platform provides to the parts that are the same on every platform, as an
-- interface that these parts take as a parameter, and the contract of non-volatile storage that
-- their theorems rely on.
pub mod Regions
pub mod Ram
use hardware_bitcoin_wallet.Base.{ℕ, ◌+◌, ◌≤◌, ◌≡◌, ◌⊎◌, ◌≢◌, List, ◌++◌, length, Bool, IsBytes}
use hardware_bitcoin_wallet.Program.{Program, Result, ok}

pub data Partition : Type 0 where
  partition_global : Partition
  partition_accounts : Partition

-- The values of `NonVolatileReturn` other than `NV_NO_ERROR`.
pub data NvError : Type 0 where
  nv_invalid_address : NvError
  nv_io_error : NvError

-- The platform's functions, on the state of its devices. A write of `length` bytes gets the list of
-- these bytes. `hardware_random_32_bytes` gives no result where the C function returns a negative
-- number, and else the estimate of entropy with the bytes.
pub record Platform (Device : Type 0) : Type 0 where
  pub non_volatile_get_size : Partition → Program Device NvError ℕ
  pub non_volatile_write : List ℕ → Partition → ℕ → Program Device NvError (Unit {0})
  pub non_volatile_read : Partition → ℕ → ℕ → Program Device NvError (List ℕ)
  pub non_volatile_flush : Program Device NvError (Unit {0})
  -- How many samples the loop of `getRandom256Internal` takes at most: the hardware may give samples
  -- without entropy for a while, but not for ever.
  pub most_samples : ℕ
  pub hardware_random_32_bytes : Program Device (Unit {0}) (ℕ × List ℕ)
  pub write_backup_seed : List ℕ → Bool → ℕ → Program Device (Unit {0}) (Unit {0})
  pub get_pbkdf2_iterations : ℕ

-- Regions of storage that do not touch each other.
abbrev pub Apart : Partition → ℕ → ℕ → Partition → ℕ → ℕ → Type 0
Apart p a n q b m = (p ≢ q) ⊎ ((a + n ≤ b) ⊎ (b + m ≤ a))

-- A platform whose storage works: `Stores d p a bs` says that in the device `d` the bytes `bs`
-- stand in partition `p` from address `a` on.
pub record IsMemory {Device : Type 0} (platform : Platform Device) : Type 1 where
  pub Stores : Device → Partition → ℕ → List ℕ → Type 0
  pub size : Partition → ℕ
  pub joined :
      (d : Device) (p : Partition) (a : ℕ) (bs cs : List ℕ)
      → Stores d p a bs
      → Stores d p (a + length bs) cs
      → Stores d p a (bs ++ cs)
  pub cut :
      (d : Device) (p : Partition) (a : ℕ) (bs cs : List ℕ)
      → Stores d p a (bs ++ cs)
      → Stores d p a bs × Stores d p (a + length bs) cs
  pub filled :
      (d : Device) (p : Partition) (a n : ℕ)
      → a + n ≤ size p
      → (bs : List ℕ) × (length bs ≡ n) × IsBytes bs × Stores d p a bs
  pub read :
      (d : Device) (p : Partition) (a : ℕ) (bs : List ℕ)
      → a + length bs ≤ size p
      → Stores d p a bs
      → platform.non_volatile_read p a (length bs) d ≡ (ok bs, d)
  pub write :
      (d : Device) (p : Partition) (a : ℕ) (bs : List ℕ)
      → a + length bs ≤ size p
      → (d' : Device) × (platform.non_volatile_write bs p a d ≡ (ok tt, d'))
        × (IsBytes bs → Stores d' p a bs)
        × ((q : Partition) (b : ℕ) (cs : List ℕ)
            → Apart p a (length bs) q b (length cs)
            → Stores d q b cs
            → Stores d' q b cs)
  pub measure : (d : Device) (p : Partition) → platform.non_volatile_get_size p d ≡ (ok (size p), d)
  pub sample :
      (d : Device) (q : Partition) (b : ℕ) (cs : List ℕ)
      → Stores d q b cs
      → Stores (platform.hardware_random_32_bytes d).1 q b cs
  pub flush :
      (d : Device)
      → (d' : Device) × (platform.non_volatile_flush d ≡ (ok tt, d'))
        × ((q : Partition) (b : ℕ) (cs : List ℕ) → Stores d q b cs → Stores d' q b cs)
