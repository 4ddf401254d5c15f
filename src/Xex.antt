-- ===== src/Xex.antt =====
-- xex.c: the block cipher of the wallet's records in XEX mode, its keys, and the reads and writes
-- of storage that go through it. The block cipher of aes.c is a parameter.
pub mod Double
pub mod Laws
pub mod Region
pub mod Tests
use hardware_bitcoin_wallet.Base.{
  ℕ, zero, suc, ◌+◌, ◌-◌, ◌*◌, ◌/◌, ◌%◌, ◌^◌, bit_and, bit_or, bit_xor, u8, u32, sub32, ◌<<<◌,
  ◌>>>◌, List, [], ◌∷◌, ◌++◌, get_or, set, take, drop, replicate, overwrite, length, Bool, true,
  false, ltb, leb, not, ◌==◌, if◌then◌else◌,
}
use hardware_bitcoin_wallet.Endian.{write_u32_little_endian}
use hardware_bitcoin_wallet.Program.{Program, ◌>>=◌, ◌>>◌, pure, raise}
use hardware_bitcoin_wallet.Storage.{Platform, Partition, NvError, nv_invalid_address}

-- `aesExpandKey`, `aesEncrypt` and `aesDecrypt` on blocks of 16 bytes.
pub record Cipher : Type 0 where
  pub expand_key : List ℕ → List ℕ
  pub encrypt : List ℕ → List ℕ → List ℕ
  pub decrypt : List ℕ → List ℕ → List ℕ

-- The static variables.
pub record Keys : Type 0 where
  pub nv_storage_encrypt_key : List ℕ
  pub nv_storage_tweak_key : List ℕ

-- The loop of `doubleInGF`: the shifted bytes, and the last value of `last_bit`.
unfoldable pub shift_left : ℕ → List ℕ → List ℕ × ℕ
shift_left last_bit [] = ([], last_bit)
shift_left last_bit (b ∷ bs) =
    let temp = bit_and b 0x80 in
    let (rest, last) = shift_left (temp >>> 7) bs in (bit_or (u8 (b <<< 1)) last_bit ∷ rest, last)

unfoldable pub double_in_gf : List ℕ → List ℕ
unfolding shift_left
double_in_gf op1 =
    let (shifted, last_bit) = shift_left 0 op1 in
    let mask = u8 (256 - last_bit) in
    set shifted 0 (bit_xor (get_or shifted 0 0) (bit_and 0x87 mask))

unfoldable pub double_times : ℕ → List ℕ → List ℕ
double_times zero delta = delta
double_times (suc seq) delta = double_times seq (double_in_gf delta)

-- `xor16Bytes` of aes.c: the bytes of the first array combined with those of the second.
unfoldable pub xor_16_bytes : List ℕ → List ℕ → List ℕ
xor_16_bytes (a ∷ r) (b ∷ op1) = bit_xor a b ∷ xor_16_bytes r op1
xor_16_bytes r _ = r

unfoldable pub set_encryption_key : List ℕ → Keys
set_encryption_key in_key = record {
  nv_storage_encrypt_key = take 16 in_key;
  nv_storage_tweak_key = take 16 (drop 16 in_key);
}

unfoldable pub get_encryption_key : Keys → List ℕ
get_encryption_key keys = keys.nv_storage_encrypt_key ++ keys.nv_storage_tweak_key

-- The loop of `isEncryptionKeyNonZero`.
unfoldable pub or_all : ℕ → List ℕ → List ℕ → ℕ
or_all r (a ∷ key) (b ∷ tweak_key) = or_all (bit_or (bit_or r a) b) key tweak_key
or_all r _ _ = r

unfoldable pub is_encryption_key_non_zero : Keys → Bool
unfolding or_all
is_encryption_key_non_zero keys =
    not (or_all 0 keys.nv_storage_encrypt_key keys.nv_storage_tweak_key == 0)

unfoldable pub clear_encryption_key : Keys
clear_encryption_key = record {
  nv_storage_encrypt_key = replicate 16 0;
  nv_storage_tweak_key = replicate 16 0;
}

-- The loop that copies bytes of `data` over a block from `block_offset` on; the block, and the bytes
-- of `data` that are left.
unfoldable pub fill_block : ℕ → List ℕ → List ℕ → List ℕ × List ℕ
fill_block _ [] data' = ([], data')
fill_block _ plaintext [] = (plaintext, [])
fill_block zero (_ ∷ plaintext) (b ∷ data') =
    let (rest, left) = fill_block zero plaintext data' in (b ∷ rest, left)
fill_block (suc block_offset) (p ∷ plaintext) (b ∷ data') =
    let (rest, left) = fill_block block_offset plaintext (b ∷ data') in (p ∷ rest, left)

-- The array `n` for a block: its address, and zeros behind.
unfoldable pub tweak : ℕ → List ℕ
tweak block_start = overwrite (replicate 16 0) (write_u32_little_endian block_start)

-- `address & 0xfffffff0`, and the number of blocks that a region touches.
abbrev pub block_of : ℕ → ℕ
block_of address = address / 16 * 16

abbrev pub last_block : ℕ → ℕ → ℕ
last_block address length' = block_of (sub32 (u32 (address + length')) 1)

module _ (cipher : Cipher) where
  -- `delta`: the encrypted tweak, doubled `seq` times.
  unfoldable pub delta_of : List ℕ → ℕ → List ℕ → List ℕ
  unfolding double_times
  delta_of n seq tweak_key = double_times seq (cipher.encrypt n (cipher.expand_key tweak_key))

  unfoldable pub xex_en_decrypt : List ℕ → List ℕ → ℕ → List ℕ → List ℕ → Bool → List ℕ
  xex_en_decrypt block n seq tweak_key encrypt_key is_decrypt =
      let delta = delta_of n seq tweak_key in
      let buffer = xor_16_bytes block delta in
      let expanded_key = cipher.expand_key encrypt_key in
      xor_16_bytes
        (if is_decrypt
          then cipher.decrypt buffer expanded_key
          else cipher.encrypt buffer expanded_key)
        delta

  unfoldable pub xex_encrypt : Keys → List ℕ → List ℕ → ℕ → List ℕ
  xex_encrypt keys block n seq =
      xex_en_decrypt block n seq keys.nv_storage_tweak_key keys.nv_storage_encrypt_key false

  unfoldable pub xex_decrypt : Keys → List ℕ → List ℕ → ℕ → List ℕ
  xex_decrypt keys block n seq =
      xex_en_decrypt block n seq keys.nv_storage_tweak_key keys.nv_storage_encrypt_key true

  module _ {Device : Type 0} (platform : Platform Device) (keys : Keys) where
    -- The round of the writing loop for one block: the block is read and decrypted, filled from
    -- `data`, encrypted and written back. The bytes of `data` that are left come out.
    unfoldable pub write_block : Partition → ℕ → ℕ → List ℕ → Program Device NvError (List ℕ)
    unfolding fill_block tweak
    write_block partition block_start block_offset data' = do
      ciphertext ← platform.non_volatile_read partition block_start 16
      let (plaintext, left) =
          fill_block block_offset (xex_decrypt keys ciphertext (tweak block_start) 1) data'
      platform.non_volatile_write (xex_encrypt keys plaintext (tweak block_start) 1) partition
          block_start
      pure left

    -- The loop, with a bound on its rounds.
    unfoldable pub write_blocks :
        ℕ → Partition → ℕ → ℕ → ℕ → List ℕ → Program Device NvError (Unit {0})
    write_blocks zero partition block_start block_end block_offset data' = pure tt
    write_blocks (suc rounds) partition block_start block_end block_offset data' =
        if leb block_start block_end
        then write_block partition block_start block_offset data'
          >>= (λ left. write_blocks rounds partition (u32 (block_start + 16)) block_end 0 left)
        else pure tt

    unfoldable pub encrypted_non_volatile_write :
        List ℕ → Partition → ℕ → Program Device NvError (Unit {0})
    encrypted_non_volatile_write data' partition address =
        let start = block_of address in
        let end = last_block address (length data') in
        if ltb (u32 (address + length data')) address
        then raise nv_invalid_address
        else write_blocks ((end - start) / 16 + 1) partition start end (address % 16) data'

    -- The round of the reading loop: the bytes of the decrypted block from `block_offset` on, at
    -- most `length` of them.
    unfoldable pub read_block : Partition → ℕ → ℕ → ℕ → Program Device NvError (List ℕ)
    unfolding tweak
    read_block partition block_start block_offset length' = do
      ciphertext ← platform.non_volatile_read partition block_start 16
      pure (take length' (drop block_offset (xex_decrypt keys ciphertext (tweak block_start) 1)))

    unfoldable pub read_blocks : ℕ → Partition → ℕ → ℕ → ℕ → ℕ → Program Device NvError (List ℕ)
    read_blocks zero partition block_start block_end block_offset length' = pure []
    read_blocks (suc rounds) partition block_start block_end block_offset length' =
        if leb block_start block_end
        then read_block partition block_start block_offset length' >>= (λ bytes.
          read_blocks rounds partition (u32 (block_start + 16)) block_end 0 (length' - length bytes)
          >>= (λ rest. pure (bytes ++ rest)))
        else pure []

    unfoldable pub encrypted_non_volatile_read : Partition → ℕ → ℕ → Program Device NvError (List ℕ)
    encrypted_non_volatile_read partition address length' =
        let start = block_of address in
        let end = last_block address length' in
        if ltb (u32 (address + length')) address
        then raise nv_invalid_address
        else read_blocks ((end - start) / 16 + 1) partition start end (address % 16) length'
