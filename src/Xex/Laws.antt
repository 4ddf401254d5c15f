-- ===== src/Xex/Laws.antt =====
-- xex.c: decryption undoes encryption, for a block cipher that has an inverse.
use hardware_bitcoin_wallet.Base.{
  ℕ, zero, suc, ◌<◌, ◌≡◌, refl, ◌∙◌, ap, arith, bit_and, u8, ◌-◌, List, [], ◌∷◌, length, length-set,
  length-overwrite, get_or, set, replicate, IsBytes, get_or-IsByte, IsBytes-overwrite,
  IsBytes-replicate,
}
use hardware_bitcoin_wallet.Base.Xor.{bit_xor_bound, bit_xor_twice}
use hardware_bitcoin_wallet.Endian.{write_u32_little_endian}
use hardware_bitcoin_wallet.Xex.{
  Cipher, Keys, shift_left, double_in_gf, double_times, xor_16_bytes, delta_of, xex_en_decrypt,
  xex_encrypt, xex_decrypt, tweak,
}
use hardware_bitcoin_wallet.Xex.Double.{shift_left-IsShifted, feedback}

pub record IsBlock (bs : List ℕ) : Type 0 where
  pub sized : length bs ≡ 16
  pub bytes : IsBytes bs

-- The contract of aes.c.
pub record IsCipher (cipher : Cipher) : Type 0 where
  pub encrypt-IsBlock : (block key : List ℕ) → IsBlock block → IsBlock (cipher.encrypt block key)
  pub decrypt-IsBlock : (block key : List ℕ) → IsBlock block → IsBlock (cipher.decrypt block key)
  pub decrypt-encrypt :
      (block key : List ℕ)
      → IsBlock block
      → cipher.decrypt (cipher.encrypt block (cipher.expand_key key)) (cipher.expand_key key)
        ≡ block

pub xor-length : (r op1 : List ℕ) → length (xor_16_bytes r op1) ≡ length r
unfolding xor_16_bytes
xor-length [] op1 = refl
xor-length (a ∷ r) [] = refl
xor-length (a ∷ r) (b ∷ op1) = ap suc (xor-length r op1)

pub xor-IsBytes : (r op1 : List ℕ) → IsBytes r → IsBytes op1 → IsBytes (xor_16_bytes r op1)
unfolding xor_16_bytes
xor-IsBytes [] op1 p q = tt
xor-IsBytes (a ∷ r) [] p q = p
xor-IsBytes (a ∷ r) (b ∷ op1) p q = (bit_xor_bound 8 a b p.0 q.0, xor-IsBytes r op1 p.1 q.1)

pub xor_twice :
    (r op1 : List ℕ) → IsBytes r → IsBytes op1 → xor_16_bytes (xor_16_bytes r op1) op1 ≡ r
unfolding xor_16_bytes
xor_twice [] op1 p q = refl
xor_twice (a ∷ r) [] p q = refl
xor_twice (a ∷ r) (b ∷ op1) p q = rw (bit_xor_twice 8 a b p.0 q.0, xor_twice r op1 p.1 q.1) refl

xor-IsBlock : (r op1 : List ℕ) → IsBlock r → IsBlock op1 → IsBlock (xor_16_bytes r op1)
xor-IsBlock r op1 h k = record {
  sized = xor-length r op1 ∙ h.sized;
  bytes = xor-IsBytes r op1 h.bytes k.bytes;
}

pub set-IsBytes : (xs : List ℕ) (i c : ℕ) → IsBytes xs → c < 256 → IsBytes (set xs i c)
set-IsBytes [] i c p q = tt
set-IsBytes (x ∷ xs) zero c p q = (q, p.1)
set-IsBytes (x ∷ xs) (suc i) c p q = (p.0, set-IsBytes xs i c p.1 q)

double-IsBlock : (block : List ℕ) → IsBlock block → IsBlock (double_in_gf block)
unfolding double_in_gf
double-IsBlock block h =
    let all = shift_left-IsShifted 0 block (omega arith) h.bytes in
    let shifted : List ℕ = (shift_left 0 block).0 in
    let mask : ℕ = bit_and 0x87 (u8 (256 - (shift_left 0 block).1)) in
    let small : mask < 256 = omega (arith, feedback (shift_left 0 block).1 all.bit, all.bit) in
    record {
      sized = length-set shifted 0 _ ∙ all.sized ∙ h.sized;
      bytes =
          set-IsBytes shifted 0 _ all.bytes
            (bit_xor_bound 8 (get_or shifted 0 0) mask (get_or-IsByte shifted 0 all.bytes) small);
    }

double_times-IsBlock : (seq : ℕ) (delta : List ℕ) → IsBlock delta → IsBlock (double_times seq delta)
unfolding double_times
double_times-IsBlock zero delta h = h
double_times-IsBlock (suc seq) delta h =
    double_times-IsBlock seq (double_in_gf delta) (double-IsBlock delta h)

pub tweak-IsBlock : (block_start : ℕ) → IsBlock (tweak block_start)
unfolding tweak write_u32_little_endian
tweak-IsBlock block_start = record {
  sized = length-overwrite (replicate 16 0) (write_u32_little_endian block_start);
  bytes =
      IsBytes-overwrite (replicate 16 0) (write_u32_little_endian block_start)
        (IsBytes-replicate 16 0 (omega arith)) (omega arith);
}

module _ (cipher : Cipher) (works : IsCipher cipher) where
  delta-IsBlock :
      (n : List ℕ) (seq : ℕ) (key : List ℕ) → IsBlock n → IsBlock (delta_of cipher n seq key)
  unfolding delta_of
  delta-IsBlock n seq key h = double_times-IsBlock seq _ (works.encrypt-IsBlock n _ h)

  pub xex_encrypt-IsBlock :
      (keys : Keys) (block n : List ℕ) (seq : ℕ)
      → IsBlock block
      → IsBlock n
      → IsBlock (xex_encrypt cipher keys block n seq)
  unfolding xex_encrypt xex_en_decrypt
  xex_encrypt-IsBlock keys block n seq h k =
      let delta = delta-IsBlock n seq keys.nv_storage_tweak_key k in
      xor-IsBlock _ _ (works.encrypt-IsBlock _ _ (xor-IsBlock block _ h delta)) delta

  pub xex_decrypt-IsBlock :
      (keys : Keys) (block n : List ℕ) (seq : ℕ)
      → IsBlock block
      → IsBlock n
      → IsBlock (xex_decrypt cipher keys block n seq)
  unfolding xex_decrypt xex_en_decrypt
  xex_decrypt-IsBlock keys block n seq h k =
      let delta = delta-IsBlock n seq keys.nv_storage_tweak_key k in
      xor-IsBlock _ _ (works.decrypt-IsBlock _ _ (xor-IsBlock block _ h delta)) delta

  -- For a block cipher with an inverse, `xexDecrypt` gives back the block that `xexEncrypt`
  -- encrypted, with the same keys, the same number `n` and the same `seq`.
  pub xex_decrypt-xex_encrypt :
      (keys : Keys) (block n : List ℕ) (seq : ℕ)
      → IsBlock block
      → IsBlock n
      → xex_decrypt cipher keys (xex_encrypt cipher keys block n seq) n seq ≡ block
  unfolding xex_decrypt xex_encrypt xex_en_decrypt
  xex_decrypt-xex_encrypt keys block n seq h k =
      let delta = delta-IsBlock n seq keys.nv_storage_tweak_key k in
      let key : List ℕ = keys.nv_storage_encrypt_key in
      let mixed = xor-IsBlock block _ h delta in
      let inner = works.encrypt-IsBlock _ (cipher.expand_key key) mixed in
      rw (xor_twice _ _ inner.bytes delta.bytes)
        (rw (works.decrypt-encrypt _ key mixed) (xor_twice block _ h.bytes delta.bytes))
