-- ===== src/Prandom.antt =====
-- prandom.c: the entropy pool in storage, random numbers from the hardware's samples and the pool,
-- one-time passwords, and the deterministic private keys of a seed.
pub mod Pool
pub mod Gather
pub mod Spares
mod Tests
use hardware_bitcoin_wallet.Base.{
  ℕ, zero, suc, ◌+◌, ◌*◌, ◌%◌, ◌^◌, ◌<◌, bit_and, u8, u16, List, [], ◌∷◌, ◌++◌, length, take, drop,
  get_or, replicate, Bool, true, false, ltb, not, ◌==◌, if◌then◌else◌, Option, some, none,
}
use hardware_bitcoin_wallet.Program.{Program, ◌>>=◌, ◌>>◌, pure, raise, raise_if, or_raise, attempt}
use hardware_bitcoin_wallet.Endian.{write_u32_big_endian}
use hardware_bitcoin_wallet.Hash.{HashState, write_hash_to_byte_array}
use hardware_bitcoin_wallet.Sha256.{
  sha256_begin, sha256_write_byte, sha256_write_bytes, sha256_finish, sha256_finish_double,
}
use hardware_bitcoin_wallet.Ripemd160.{ripemd160_begin, ripemd160_write_bytes, ripemd160_finish}
use hardware_bitcoin_wallet.HmacSha512.{hmac_sha512}
use hardware_bitcoin_wallet.Bignum.{modulo, is_zero, swap_endian256, zero256}
use hardware_bitcoin_wallet.Bignum.Multiply.{multiply}
use hardware_bitcoin_wallet.Secp256k1.{field_n}
use hardware_bitcoin_wallet.Secp256k1.Points.{PointAffine, base_point, point_multiply}
use hardware_bitcoin_wallet.Storage.{Platform, NvError, partition_global}

abbrev pub entropy_pool_length : ℕ
entropy_pool_length = 32

abbrev pub pool_checksum_length : ℕ
pool_checksum_length = 16

abbrev pub address_entropy_pool : ℕ
address_entropy_pool = 64

abbrev pub address_pool_checksum : ℕ
address_pool_checksum = 96

-- The hash state on the stack before `ripemd160Begin`.
abbrev uninitialised : HashState
uninitialised = sha256_begin

unfoldable pub calculate_entropy_pool_checksum : List ℕ → List ℕ
calculate_entropy_pool_checksum pool_state =
    let hs =
      ripemd160_write_bytes (ripemd160_begin uninitialised) (take entropy_pool_length pool_state) in
    take pool_checksum_length (write_hash_to_byte_array (ripemd160_finish hs) true)

-- `memcmp` of arrays of one length.
unfoldable pub same_bytes : List ℕ → List ℕ → Bool
same_bytes (a ∷ as_bytes) (b ∷ bs) = if a == b then same_bytes as_bytes bs else false
same_bytes _ _ = true

-- The bytes of the two pools, in turns.
unfoldable pub interleave : List ℕ → List ℕ → List ℕ
interleave (a ∷ current) (b ∷ initial) = a ∷ b ∷ interleave current initial
interleave _ _ = []

-- What `getRandom256Internal` computes from `intermediate`: the next state of the pool, and the
-- random number.
unfoldable pub next_pool_state : List ℕ → List ℕ
next_pool_state intermediate =
    let hs =
      sha256_write_bytes (sha256_write_bytes sha256_begin intermediate) (replicate 32 0x42) in
    write_hash_to_byte_array (sha256_finish hs) true

unfoldable pub random_number : List ℕ → List ℕ
random_number intermediate =
    let hs = sha256_write_bytes sha256_begin (take entropy_pool_length intermediate) in
    write_hash_to_byte_array (sha256_finish_double hs) true

-- The static variables for the deterministic keys.
pub record KeyCache : Type 0 where
  pub cached_parent_public_key : PointAffine
  pub cached_parent_public_key_valid : Bool

unfoldable pub set_parent_public_key_from_private_key : List ℕ → KeyCache
set_parent_public_key_from_private_key parent_private_key = record {
  cached_parent_public_key = point_multiply base_point parent_private_key;
  cached_parent_public_key_valid = true;
}

unfoldable pub clear_parent_public_key_cache : KeyCache
clear_parent_public_key_cache = record {
  cached_parent_public_key = record { x = zero256; y = zero256; is_point_at_infinity = 0 };
  cached_parent_public_key_valid = false;
}

-- `hmac_message`: 04, the coordinates of the parent public key, and the number of the key.
unfoldable pub hmac_message : PointAffine → ℕ → List ℕ
hmac_message parent num =
    0x04 ∷ swap_endian256 parent.x ++ swap_endian256 parent.y ++ write_u32_big_endian num

-- The private key with number `num`, and the cache after the call; no key for an invalid seed.
unfoldable pub generate_deterministic_256 : List ℕ → ℕ → KeyCache → Option (List ℕ) × KeyCache
unfolding set_parent_public_key_from_private_key hmac_message
generate_deterministic_256 seed num cache =
    let k_par = modulo field_n (swap_endian256 (take 32 seed)) in
    let filled =
      if cache.cached_parent_public_key_valid
      then cache
      else set_parent_public_key_from_private_key k_par in
    let message = hmac_message filled.cached_parent_public_key num in
    let hash = hmac_sha512 (take 32 (drop 32 seed)) message in
    let i_l = modulo field_n (swap_endian256 (take 32 hash)) in
    if not (is_zero k_par == 0) then (none, cache) else (some (multiply field_n i_l k_par), filled)

-- The digits of a one-time password, and the 0 that ends it.
unfoldable pub otp_digits : ℕ → List ℕ → List ℕ
otp_digits zero random_bytes = 0 ∷ []
otp_digits (suc digits) [] = []
otp_digits (suc digits) (b ∷ random_bytes) = (b'0' + b % 10) ∷ otp_digits digits random_bytes

module _ {Device : Type 0} (platform : Platform Device) where
  -- Failure, `true` in the source, is an error without a value.
  unfoldable pub set_entropy_pool : List ℕ → Program Device (Unit {0}) (Unit {0})
  set_entropy_pool in_pool_state = do
    or_raise
        (platform.non_volatile_write (take entropy_pool_length in_pool_state) partition_global
          address_entropy_pool)
        tt
    let checksum = calculate_entropy_pool_checksum in_pool_state
    or_raise (platform.non_volatile_write checksum partition_global address_pool_checksum) tt
    or_raise platform.non_volatile_flush tt

  unfoldable pub get_entropy_pool : Program Device (Unit {0}) (List ℕ)
  unfolding same_bytes
  get_entropy_pool = do
    out_pool_state ←
        or_raise
          (platform.non_volatile_read partition_global address_entropy_pool entropy_pool_length) tt
    let checksum_calculated = calculate_entropy_pool_checksum out_pool_state
    checksum_read ←
        or_raise
          (platform.non_volatile_read partition_global address_pool_checksum pool_checksum_length)
          tt
    raise_if (not (same_bytes checksum_read checksum_calculated)) tt
    pure out_pool_state

  -- The state that `initialiseEntropyPool` sets.
  unfoldable pub mixed_pool : List ℕ → Option (List ℕ) → List ℕ
  unfolding interleave
  mixed_pool initial_pool_state none = initial_pool_state
  mixed_pool initial_pool_state (some current_pool_state) =
      let mixed =
        interleave (take entropy_pool_length current_pool_state)
          (take entropy_pool_length initial_pool_state) in
      write_hash_to_byte_array (sha256_finish (sha256_write_bytes sha256_begin mixed)) true

  unfoldable pub initialise_entropy_pool : List ℕ → Program Device (Unit {0}) (Unit {0})
  unfolding mixed_pool
  initialise_entropy_pool initial_pool_state = do
    current ← attempt get_entropy_pool
    set_entropy_pool (mixed_pool initial_pool_state current)

  -- The loop that gathers samples of the hardware until these have 512 bits of entropy by the
  -- hardware's estimate. The loop has no bound in the code: `rounds` is fuel, and the call that is out
  -- of it stands for none of the code's.
  unfoldable pub gather : ℕ → ℕ → HashState → Program Device (Unit {0}) HashState
  gather zero total_entropy hs = raise tt
  gather (suc rounds) total_entropy hs =
      if ltb total_entropy (256 * 2)
      then platform.hardware_random_32_bytes >>= (λ sample.
        gather rounds (u16 (total_entropy + sample.0)) (sha256_write_bytes hs (take 32 sample.1)))
      else pure hs

  -- The pool to use: the caller's, or the one in storage.
  unfoldable pub pool_to_use : Option (List ℕ) → Program Device (Unit {0}) (List ℕ)
  pool_to_use (some pool_state) = pure pool_state
  pool_to_use none = get_entropy_pool

  unfoldable pub store_pool : Option (List ℕ) → List ℕ → Program Device (Unit {0}) (Unit {0})
  store_pool (some _) random_bytes = pure tt
  store_pool none random_bytes = set_entropy_pool random_bytes

  -- The random number, and the next state of the pool; a pool that the caller gives takes the place
  -- of the one in storage.
  unfoldable pub get_random_256_internal :
      Option (List ℕ) → Program Device (Unit {0}) (List ℕ × List ℕ)
  unfolding pool_to_use store_pool
  get_random_256_internal pool_state = do
    gathered ← gather (suc platform.most_samples) 0 sha256_begin
    pool ← pool_to_use pool_state
    let hs = sha256_write_bytes gathered (take entropy_pool_length pool)
    let intermediate = write_hash_to_byte_array (sha256_finish hs) true
    let random_bytes = next_pool_state intermediate
    store_pool pool_state random_bytes
    pure (random_number intermediate, random_bytes)

  unfoldable pub get_random_256 : Program Device (Unit {0}) (List ℕ)
  get_random_256 = do r ← get_random_256_internal none; pure r.0

  -- The random number, and the caller's pool after the call.
  unfoldable pub get_random_256_temporary_pool :
      List ℕ → Program Device (Unit {0}) (List ℕ × List ℕ)
  get_random_256_temporary_pool pool_state = get_random_256_internal (some pool_state)

  -- Where both ways to a random number fail, the bytes are 42.
  unfoldable pub insecure_bytes : Option (List ℕ) → Program Device (Unit {0}) (List ℕ)
  insecure_bytes (some n) = pure n
  insecure_bytes none = do
    second ← attempt (get_random_256_temporary_pool (replicate 32 42))
    pure (fallback second)
    where
      fallback : Option (List ℕ × List ℕ) → List ℕ
      fallback (some r) = r.0
      fallback none = replicate 32 42

  unfoldable pub generate_insecure_otp : Program Device (Unit {0}) (List ℕ)
  unfolding insecure_bytes
  generate_insecure_otp = do
    first ← attempt get_random_256
    random_bytes ← insecure_bytes first
    pure (otp_digits 4 random_bytes)
