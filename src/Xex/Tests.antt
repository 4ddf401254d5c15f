-- ===== src/Xex/Tests.antt =====
-- Runs of xex.c, with a block cipher that reverses a block.
use hardware_bitcoin_wallet.Base.{
  ℕ, ◌+◌, ◌*◌, ◌/◌, ◌%◌, ◌^◌, ◌≡◌, refl, ◌∙◌, arith, bit_xor, List, [], ◌∷◌, ◌++◌, length,
  replicate, reverse, length-reverse, IsBytes-reverse, IsBytes-replicate, val,
}
use mathlib.Core.List.{reverse-reverse}
use hardware_bitcoin_wallet.Program.{ok}
use hardware_bitcoin_wallet.Storage.{Partition, partition_accounts, Apart}
use hardware_bitcoin_wallet.Storage.Ram.{Ram, ram_platform, ram_memory, blank}
use hardware_bitcoin_wallet.Xex.{
  Cipher, Keys, double_in_gf, xex_encrypt, xex_decrypt, tweak, encrypted_non_volatile_write,
  encrypted_non_volatile_read,
}
use hardware_bitcoin_wallet.Xex.Double.{double_in_gf-val}
use hardware_bitcoin_wallet.Xex.Laws.{IsCipher, IsBlock, tweak-IsBlock, xex_decrypt-xex_encrypt}
use hardware_bitcoin_wallet.Xex.Region.{encrypted_read-encrypted_write}

abbrev pub mirror : Cipher
mirror = record {
  expand_key = λ key. key;
  encrypt = λ block key. reverse block;
  decrypt = λ block key. reverse block;
}

mirror-IsBlock : (block : List ℕ) → IsBlock block → IsBlock (reverse block)
mirror-IsBlock block h = record {
  sized = length-reverse block ∙ h.sized;
  bytes = IsBytes-reverse block h.bytes;
}

pub mirror-IsCipher : IsCipher mirror
mirror-IsCipher = record {
  encrypt-IsBlock = λ block key h. mirror-IsBlock block h;
  decrypt-IsBlock = λ block key h. mirror-IsBlock block h;
  decrypt-encrypt = λ block key h. reverse-reverse block;
}

abbrev keys : Keys
keys = record { nv_storage_encrypt_key = replicate 16 1; nv_storage_tweak_key = replicate 16 2 }

-- The top bit set: it is fed back.
double_in_gf-val_example :
    val (double_in_gf (replicate 15 7 ++ 0x80 ∷ []))
    ≡ 2 * val (replicate 15 7 ++ 0x80 ∷ []) % 2 ^ 128 / 256 * 256
      + bit_xor
          (2 * val (replicate 15 7 ++ 0x80 ∷ []) % 256)
          (2 * val (replicate 15 7 ++ 0x80 ∷ []) / 2 ^ 128 * 0x87)
double_in_gf-val_example = double_in_gf-val (replicate 15 7 ++ 0x80 ∷ []) refl (omega arith)

doubled : double_in_gf (replicate 15 7 ++ 0x80 ∷ []) ≡ 0x89 ∷ replicate 14 14 ++ 0 ∷ []
unfolding double_in_gf
doubled = refl

sevens-IsBlock : IsBlock (replicate 16 7)
sevens-IsBlock = record { sized = refl; bytes = IsBytes-replicate 16 7 (omega arith) }

xex_decrypt-xex_encrypt_example :
    xex_decrypt mirror keys (xex_encrypt mirror keys (replicate 16 7) (tweak 32) 1) (tweak 32) 1
    ≡ replicate 16 7
xex_decrypt-xex_encrypt_example =
    xex_decrypt-xex_encrypt mirror mirror-IsCipher keys (replicate 16 7) (tweak 32) 1 sevens-IsBlock
      (tweak-IsBlock 32)

encrypted_read-encrypted_write_example :
    (d' : Ram) × (encrypted_non_volatile_write mirror ram_platform keys
        (replicate 32 7)
        partition_accounts
        64
        blank
      ≡ (ok tt, d'))
    × (encrypted_non_volatile_read mirror ram_platform keys partition_accounts 64 (2 * 16) d'
        ≡ (ok (replicate 32 7), d'))
    × ((q : Partition) (b : ℕ) (cs : List ℕ)
        → Apart partition_accounts 64 (2 * 16) q b (length cs)
        → ram_memory.Stores blank q b cs
        → ram_memory.Stores d' q b cs)
unfolding ram_memory
encrypted_read-encrypted_write_example =
    encrypted_read-encrypted_write mirror mirror-IsCipher ram_platform ram_memory keys blank
      partition_accounts 64 2 (replicate 32 7) (IsBytes-replicate 32 7 (omega arith)) refl
      (omega arith) (omega arith) (omega arith) (omega arith)
