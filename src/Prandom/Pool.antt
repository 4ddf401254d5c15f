-- ===== src/Prandom/Pool.antt =====
-- prandom.c, setEntropyPool and getEntropyPool: a pool that was set is read back.
use hardware_bitcoin_wallet.Base.{
  ℕ, ◌*◌, ◌≤◌, ◌≡◌, refl, ◌∙◌, ap, arith, inr, List, [], ◌∷◌, length, length-take, take, take_all,
  IsBytes, IsBytes-take, true, ==_iff,
}
use hardware_bitcoin_wallet.Program.{ok, ◌>>=◌, ◌>>◌, pure, raise_if, or_raise}
use hardware_bitcoin_wallet.Storage.{Platform, partition_global, IsMemory}
use hardware_bitcoin_wallet.Storage.Regions.{read-stored}
use hardware_bitcoin_wallet.Hash.{write_hash_to_byte_array, big_endian_bytes}
use hardware_bitcoin_wallet.Sha256.{sha256_begin}
use hardware_bitcoin_wallet.Sha256.Laws.{big_endian_bytes-IsBytes}
use hardware_bitcoin_wallet.Ripemd160.{ripemd160_begin, ripemd160_write_bytes, ripemd160_finish}
use hardware_bitcoin_wallet.Ripemd160.Laws.{ripemd160_finish-eq-ripemd160, ripemd160-length}
use hardware_bitcoin_wallet.Endian.{write_u32_big_endian}
use hardware_bitcoin_wallet.Prandom.{
  calculate_entropy_pool_checksum, same_bytes, set_entropy_pool, get_entropy_pool,
}

same_bytes_refl : (bs : List ℕ) → same_bytes bs bs ≡ true
unfolding same_bytes
same_bytes_refl [] = refl
same_bytes_refl (b ∷ bs) = rw ((==_iff b b).1 refl) (same_bytes_refl bs)

big_endian_bytes-length : (h : List ℕ) → length (big_endian_bytes h) ≡ 4 * length h
unfolding big_endian_bytes write_u32_big_endian
big_endian_bytes-length [] = refl
big_endian_bytes-length (x ∷ xs) = omega (arith, big_endian_bytes-length xs)

checksum-IsBytes : (pool : List ℕ) → IsBytes (calculate_entropy_pool_checksum pool)
unfolding calculate_entropy_pool_checksum write_hash_to_byte_array
checksum-IsBytes pool = IsBytes-take 16 _ (big_endian_bytes-IsBytes _)

checksum-length :
    (pool : List ℕ) → IsBytes pool → length (calculate_entropy_pool_checksum pool) ≡ 16
unfolding calculate_entropy_pool_checksum write_hash_to_byte_array
checksum-length pool bytes =
    let five =
      ap length
        (ripemd160_finish-eq-ripemd160 sha256_begin (take 32 pool) (IsBytes-take 32 pool bytes))
      ∙ ripemd160-length (take 32 pool) in
    let h : List ℕ =
      (ripemd160_finish (ripemd160_write_bytes (ripemd160_begin sha256_begin) (take 32 pool))).h in
    omega (
      arith,
      five,
      length-take 5 h,
      length-take 8 h,
      big_endian_bytes-length (take 8 h),
      length-take 16 (big_endian_bytes (take 8 h)),
    )

module _ {Device : Type 0} (platform : Platform Device) (memory : IsMemory platform) where
  -- Where storage works and the global partition has room for the pool and its checksum, setting a
  -- pool of 32 bytes succeeds, and getting the pool then gives these bytes.
  pub get_entropy_pool-set_entropy_pool :
      (d : Device) (pool : List ℕ)
      → IsBytes pool
      → length pool ≡ 32
      → 112 ≤ memory.size partition_global
      → (d' : Device) × (set_entropy_pool platform pool d ≡ (ok tt, d'))
        × (get_entropy_pool platform d' ≡ (ok pool, d'))
  unfolding set_entropy_pool get_entropy_pool ◌>>=◌ ◌>>◌ or_raise raise_if pure
  get_entropy_pool-set_entropy_pool d pool bytes len room =
      let whole : take 32 pool ≡ pool = take_all 32 pool (omega (arith, len)) in
      let sum : List ℕ = calculate_entropy_pool_checksum pool in
      let sized : length sum ≡ 16 = checksum-length pool bytes in
      let one = memory.write d partition_global 64 pool (omega (arith, len)) in
      let two = memory.write one.0 partition_global 96 sum (omega (arith, sized)) in
      let three = memory.flush two.0 in
      let pool_there =
        three.2 partition_global 64 pool
          (two.3 partition_global 64 pool (inr (inr (omega (arith, len)))) (one.2 bytes)) in
      let sum_there = three.2 partition_global 96 sum (two.2 (checksum-IsBytes pool)) in
      let pool_read =
        read-stored platform memory three.0 partition_global 64 32 pool len (omega arith)
          pool_there in
      let sum_read =
        read-stored platform memory three.0 partition_global 96 16 sum sized (omega arith)
          sum_there in
      (
        three.0,
        rw (whole, one.1, two.1, three.1) refl,
        rw (pool_read, sum_read, same_bytes_refl sum) refl,
      )
