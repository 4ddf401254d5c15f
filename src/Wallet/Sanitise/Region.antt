-- ===== src/Wallet/Sanitise/Region.antt =====
-- wallet.c, sanitiseNonVolatileStorage and deleteWallet: they change nothing outside the region that
-- they erase and the entropy pool.
use hardware_bitcoin_wallet.Base.{
  ℕ, zero, suc, ◌+◌, ◌-◌, ◌/◌, ◌^◌, ◌≤◌, ◌<◌, ◌≡◌, inl, inr, arith, List, length, length-take, take,
  replicate, ltb, leb, ltb→lt, leb→le, Bool-cases, Option, some, none,
}
use hardware_bitcoin_wallet.Program.{Program}
use hardware_bitcoin_wallet.Program.Respects.{
  IsPreorder, Respects, bind-Respects, then-Respects, pure-Respects, respect_rules,
}
use hardware_bitcoin_wallet.Storage.{Platform, Partition, partition_global, IsMemory, Apart}
use hardware_bitcoin_wallet.Storage.Regions.{Apart-inside}
use hardware_bitcoin_wallet.Prandom.Spares.{
  Spares, Spares-IsPreorder, write-Spares, flush-Spares, get-Spares, set-Spares, temporary-Spares,
}
use hardware_bitcoin_wallet.Wallet.{World, on_device, record_size}
use hardware_bitcoin_wallet.Wallet.Lenient.{IsLenient, lenient_rules, on_device-Respects}
use hardware_bitcoin_wallet.Wallet.Sanitise.{
  check_random, random_buffer, fill_buffer, bytes_to_write, write_chunk, overwrite_loop,
  overwrite_passes, clear_version, clear_versions, sanitise_non_volatile_storage,
}

-- A chunk ends inside the region.
chunk_fits :
    (size written : ℕ) (buffer : List ℕ)
    → (length (take (bytes_to_write size written) buffer) ≤ size - written)
      × (bytes_to_write size written ≤ size - written)
chunk_fits size written buffer = elim (Bool-cases (ltb 32 (size - written))) [
  | inl more ↦
      let room = ltb→lt 32 (size - written) more in
      rw more (omega (arith, length-take 32 buffer), omega arith)
  | inr rest ↦ rw rest (omega (arith, length-take (size - written) buffer), omega arith)
]

module _ {Device : Type 0} (platform : Platform Device) (memory : IsMemory platform) (q : Partition)
    (b : ℕ) (cs : List ℕ) where
  unfoldable pub WalletSpares : World Device → World Device → Type 0
  WalletSpares w w' = Spares platform memory q b cs w.device w'.device

  order : IsPreorder WalletSpares
  unfolding WalletSpares
  order = record {
    same = λ w. (Spares-IsPreorder platform memory q b cs).same w.device;
    chain =
        λ w w' w''. (Spares-IsPreorder platform memory q b cs).chain w.device w'.device w''.device;
  }

  pub lenient : IsLenient WalletSpares
  unfolding WalletSpares
  lenient = record {
    order = order;
    error = λ w e. (Spares-IsPreorder platform memory q b cs).same w.device;
  }

  pub device-Spares :
      {E A : Type 0} (m : Program Device E A)
      → Respects (Spares platform memory q b cs) m
      → Respects WalletSpares (on_device m)
  unfolding WalletSpares
  device-Spares m h =
      on_device-Respects WalletSpares (Spares platform memory q b cs) m (λ w d s. s) h

  -- The region that is erased lies inside partition `p`, apart from `cs`, and so does the pool.
  module _ (p : Partition) (start size : ℕ) (fits : start + size < 2 ^ 32)
      (inside : start + size ≤ memory.size p) (apart : Apart p start size q b (length cs))
      (room : 112 ≤ memory.size partition_global)
      (pool_apart : Apart partition_global 64 48 q b (length cs)) where
    chunk-Spares :
        (chunk : List ℕ) (address : ℕ)
        → start ≤ address
        → address + length chunk ≤ start + size
        → Respects WalletSpares (write_chunk platform chunk p address)
    unfolding write_chunk
    chunk-Spares chunk address low high =
        let put =
          write-Spares platform memory q b cs chunk p address (omega arith)
            (Apart-inside p start size address _ q b (length cs) low high apart) in
        search (lenient_rules, lenient, device-Spares, put)

    check-Spares :
        (pool : List ℕ) (drawn : Option (List ℕ × List ℕ))
        → Respects WalletSpares (check_random platform pool drawn)
    unfolding check_random
    check-Spares pool (some r) = search (respect_rules, order)
    check-Spares pool none =
        let put = set-Spares platform memory q b cs room pool_apart in
        search (respect_rules, lenient_rules, order, lenient, device-Spares, put) depth 8

    fill-Spares :
        (pass : ℕ) (pool : List ℕ) → Respects WalletSpares (fill_buffer platform pass pool)
    unfolding fill_buffer random_buffer
    fill-Spares zero pool = search (respect_rules, order)
    fill-Spares (suc zero) pool = search (respect_rules, order)
    fill-Spares (suc (suc pass)) pool =
        let drawn = temporary-Spares platform memory q b cs room pool_apart in
        search (respect_rules, order, device-Spares, drawn, check-Spares) depth 8

    overwrite-Spares :
        (rounds pass address written : ℕ) (pool : List ℕ)
        → address ≡ start + written
        → Respects WalletSpares (overwrite_loop platform rounds pass p address written size pool)
    unfolding overwrite_loop
    overwrite-Spares zero pass address written pool at = search (respect_rules, order)
    overwrite-Spares (suc rounds) pass address written pool at =
        elim (Bool-cases (ltb written size)) [
          | inl short ↦
              let below = ltb→lt written size short in
              rw short (
                bind-Respects WalletSpares _ _ order (fill-Spares pass pool) (λ filled.
                  let (ends, steps) = chunk_fits size written filled.0 in
                  then-Respects WalletSpares _ _ order
                    (chunk-Spares _ address (omega arith) (omega arith))
                    (overwrite-Spares rounds pass _ _ filled.1 (omega arith))))
          | inr done ↦ rw done (pure-Respects _ WalletSpares pool order)
        ]

    passes-Spares :
        (passes pass : ℕ) (pool : List ℕ)
        → Respects WalletSpares (overwrite_passes platform passes pass p start size pool)
    unfolding overwrite_passes
    passes-Spares zero pass pool = search (respect_rules, order)
    passes-Spares (suc passes) pass pool =
        let loop =
          λ (pool' : List ℕ). overwrite-Spares (size / 32 + 1) pass start 0 pool' (omega arith) in
        let flushed = flush-Spares platform memory q b cs in
        search
          (
            respect_rules,
            lenient_rules,
            order,
            lenient,
            device-Spares,
            flushed,
            loop,
            passes-Spares passes,
          )
          depth 10

    clear-Spares :
        (address : ℕ)
        → start ≤ address
        → address + 4 ≤ start + size
        → Respects WalletSpares (clear_version platform p address)
    unfolding clear_version
    clear-Spares address low high =
        let put = chunk-Spares (replicate 4 0) address low high in
        let flushed = flush-Spares platform memory q b cs in
        search (respect_rules, order, device-Spares, put, flushed) depth 8

    versions-Spares :
        (rounds address : ℕ)
        → Respects WalletSpares (clear_versions platform rounds p address start (start + size))
    unfolding clear_versions
    versions-Spares zero address = search (respect_rules, order)
    versions-Spares (suc rounds) address = elim (Bool-cases (leb (address + 4) (start + size))) [
      | inl more ↦
          let high = leb→le (address + 4) (start + size) more in
          rw more (
            then-Respects WalletSpares _ _ order
              (elim (Bool-cases (leb start address)) [
                | inl low ↦ rw low (clear-Spares address (leb→le start address low) high)
                | inr below ↦ rw below (pure-Respects _ WalletSpares tt order)
              ])
              (versions-Spares rounds (address + record_size)))
      | inr done ↦ rw done (pure-Respects _ WalletSpares tt order)
    ]

    -- `sanitiseNonVolatileStorage`, for a region inside a partition of a storage that works, leaves
    -- every other region as it is, but the entropy pool, whatever random source fails.
    pub sanitise-Spares :
        Respects WalletSpares (sanitise_non_volatile_storage platform p start size)
    unfolding sanitise_non_volatile_storage
    sanitise-Spares =
        let got = get-Spares platform memory q b cs room pool_apart in
        let put = set-Spares platform memory q b cs room pool_apart in
        search
          (
            respect_rules, lenient_rules, order, lenient, device-Spares, got, put, passes-Spares,
            versions-Spares,
          )
          depth 16
