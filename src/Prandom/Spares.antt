-- ===== src/Prandom/Spares.antt =====
-- prandom.c: what random numbers leave alone in storage.
use hardware_bitcoin_wallet.Base.{ℕ, zero, suc, ◌+◌, ◌≤◌, arith, List, length, length-take, take}
use hardware_bitcoin_wallet.Program.Respects.{IsPreorder, Respects, respect_rules}
use hardware_bitcoin_wallet.Hash.{HashState}
use hardware_bitcoin_wallet.Storage.{Platform, Partition, partition_global, IsMemory, Apart}
use hardware_bitcoin_wallet.Storage.Regions.{Apart-inside, read-stored}
use hardware_bitcoin_wallet.Prandom.{
  calculate_entropy_pool_checksum, set_entropy_pool, get_entropy_pool, gather, pool_to_use,
  store_pool, get_random_256_internal, get_random_256_temporary_pool,
}

length-take_le : (n : ℕ) (xs : List ℕ) → length (take n xs) ≤ n
length-take_le n xs = omega (arith, length-take n xs)

checksum_short : (pool : List ℕ) → length (calculate_entropy_pool_checksum pool) ≤ 16
unfolding calculate_entropy_pool_checksum
checksum_short pool = length-take_le 16 _

-- The region of `cs` at `b` in partition `q` stays as it is.
module _ {Device : Type 0} (platform : Platform Device) (memory : IsMemory platform) (q : Partition)
    (b : ℕ) (cs : List ℕ) where
  unfoldable pub Spares : Device → Device → Type 0
  Spares d d' = memory.Stores d q b cs → memory.Stores d' q b cs

  pub Spares-IsPreorder : IsPreorder Spares
  unfolding Spares
  Spares-IsPreorder = record { same = λ d h. h; chain = λ d d' d'' h k s. k (h s) }

  pub write-Spares :
      (bs : List ℕ) (p : Partition) (a : ℕ)
      → a + length bs ≤ memory.size p
      → Apart p a (length bs) q b (length cs)
      → Respects Spares (platform.non_volatile_write bs p a)
  unfolding Spares Respects
  write-Spares bs p a room apart d s =
      let put = memory.write d p a bs room in rw put.1 (put.3 q b cs apart s)

  pub flush-Spares : Respects Spares platform.non_volatile_flush
  unfolding Spares Respects
  flush-Spares d s = let done = memory.flush d in rw done.1 (done.2 q b cs s)

  pub read-Spares :
      (p : Partition) (a n : ℕ)
      → a + n ≤ memory.size p
      → Respects Spares (platform.non_volatile_read p a n)
  unfolding Spares Respects
  read-Spares p a n room d s =
      let (bs, len, _, there) = memory.filled d p a n room in
      rw (read-stored platform memory d p a n bs len room there) s

  pub sample-Spares : Respects Spares platform.hardware_random_32_bytes
  unfolding Spares Respects
  sample-Spares d s = memory.sample d q b cs s

  gather-Spares :
      (rounds total : ℕ) (hs : HashState) → Respects Spares (gather platform rounds total hs)
  unfolding gather
  gather-Spares zero total hs = search (respect_rules, Spares-IsPreorder)
  gather-Spares (suc rounds) total hs =
      search (respect_rules, Spares-IsPreorder, sample-Spares, gather-Spares rounds) depth 8

  -- The pool and its checksum stand in the global partition, from address 64 to 112.
  module _ (room : 112 ≤ memory.size partition_global)
      (apart : Apart partition_global 64 48 q b (length cs)) where
    pub set-Spares : (pool : List ℕ) → Respects Spares (set_entropy_pool platform pool)
    unfolding set_entropy_pool
    set-Spares pool =
        let short = length-take 32 pool in
        let one = write-Spares (take 32 pool) partition_global 64 (omega (arith, short)) (
          Apart-inside partition_global 64 48 64 _ q b (length cs) (omega arith)
            (omega (arith, short)) apart) in
        let sum = checksum_short pool in
        let two =
          write-Spares (calculate_entropy_pool_checksum pool) partition_global 96
            (omega (arith, sum))
            (Apart-inside partition_global 64 48 96 _ q b (length cs) (omega arith)
              (omega (arith, sum)) apart) in
        search (respect_rules, Spares-IsPreorder, one, two, flush-Spares) depth 8

    pub get-Spares : Respects Spares (get_entropy_pool platform)
    unfolding get_entropy_pool
    get-Spares =
        let one = read-Spares partition_global 64 32 (omega arith) in
        let two = read-Spares partition_global 96 16 (omega arith) in
        search (respect_rules, Spares-IsPreorder, one, two) depth 10

    pub temporary-Spares :
        (pool : List ℕ) → Respects Spares (get_random_256_temporary_pool platform pool)
    unfolding get_random_256_temporary_pool get_random_256_internal pool_to_use store_pool
    temporary-Spares pool = search (respect_rules, Spares-IsPreorder, gather-Spares) depth 12
