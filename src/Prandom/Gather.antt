-- ===== src/Prandom/Gather.antt =====
-- prandom.c, getRandom256Internal: the loop over the hardware's samples, as the code runs it, and
-- that the fuel of the model is enough for it.
use hardware_bitcoin_wallet.Base.{ℕ, suc, ◌+◌, ◌≡◌, u16, List, take, true, false, ltb}
use hardware_bitcoin_wallet.Program.{Result, ok, err}
use hardware_bitcoin_wallet.Hash.{HashState}
use hardware_bitcoin_wallet.Sha256.{sha256_write_bytes}
use hardware_bitcoin_wallet.Storage.{Platform}

module _ {Device : Type 0} (platform : Platform Device) where
  -- The runs of the `while` loop, from the total, the hash state and the device: it is left when the
  -- total is reached, fails with the hardware, or takes a sample, of whatever entropy, and goes on.
  pub data Run : ℕ → HashState → Device → Result (Unit {0}) HashState × Device → Type 0 where
    leaves :
        {total : ℕ}
        → {hs : HashState} → {d : Device} → ltb total 512 ≡ false
        → Run total hs d (ok hs, d)
    fails :
        {total : ℕ}
        → {hs : HashState} → {d d' : Device} → ltb total 512 ≡ true
        → platform.hardware_random_32_bytes d ≡ (err tt, d')
        → Run total hs d (err tt, d')
    goes_on :
        {total : ℕ}
        → {hs : HashState} → {d d' : Device} → {bits : ℕ} → {bytes : List ℕ}
        → {out : Result (Unit {0}) HashState × Device} → ltb total 512 ≡ true
        → platform.hardware_random_32_bytes d ≡ (ok (bits, bytes), d')
        → Run (u16 (total + bits)) (sha256_write_bytes hs (take 32 bytes)) d' out
        → Run total hs d out

  -- Within `n` samples from here the hardware fails or the total is reached; any of the samples may
  -- have no entropy.
  pub data Within : ℕ → ℕ → Device → Type 0 where
    reached : {n total : ℕ} → {d : Device} → ltb total 512 ≡ false → Within n total d
    broken :
        {n total : ℕ}
        → {d d' : Device} → ltb total 512 ≡ true
        → platform.hardware_random_32_bytes d ≡ (err tt, d')
        → Within n total d
    sampled :
        {n total : ℕ}
        → {d d' : Device} → {bits : ℕ} → {bytes : List ℕ} → ltb total 512 ≡ true
        → platform.hardware_random_32_bytes d ≡ (ok (bits, bytes), d')
        → Within n (u16 (total + bits)) d'
        → Within (suc n) total d
