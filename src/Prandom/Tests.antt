-- ===== src/Prandom/Tests.antt =====
-- Runs of prandom.c on storage in memory.
use hardware_bitcoin_wallet.Base.{
  ◌≡◌, ◌+◌, refl, arith, replicate, ltb, if◌then◌else◌, IsBytes-replicate,
}
use hardware_bitcoin_wallet.Program.{ok}
use hardware_bitcoin_wallet.Storage.{Platform}
use hardware_bitcoin_wallet.Storage.Ram.{Ram, ram_platform, ram_memory, blank}
use hardware_bitcoin_wallet.Prandom.{set_entropy_pool, get_entropy_pool}
use hardware_bitcoin_wallet.Prandom.Pool.{get_entropy_pool-set_entropy_pool}

get_entropy_pool-set_entropy_pool_example :
    (d' : Ram) × (set_entropy_pool ram_platform (replicate 32 9) blank ≡ (ok tt, d'))
    × (get_entropy_pool ram_platform d' ≡ (ok (replicate 32 9), d'))
unfolding ram_memory
get_entropy_pool-set_entropy_pool_example =
    get_entropy_pool-set_entropy_pool ram_platform ram_memory blank (replicate 32 9)
      (IsBytes-replicate 32 9 (omega arith)) refl (omega arith)

-- Hardware that gives three samples without entropy, for its statistics, before one with 512 bits.
abbrev slow_platform : Platform Ram
slow_platform = record ram_platform {
  hardware_random_32_bytes = λ d. (
    ok (if ltb d.samples 3 then 0 else 512, replicate 32 d.samples),
    record d { samples = d.samples + 1 },
  );
}
