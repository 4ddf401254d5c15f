-- ===== src/Wallet/Layout.antt =====
-- wallet.c: the bytes of a record stand for the record.
use hardware_bitcoin_wallet.Base.{
  ℕ, zero, suc, ◌+◌, ◌^◌, ◌<◌, ◌≡◌, refl, sym, ◌∙◌, ap, ap₂, arith, List, [], ◌∷◌, ◌++◌, length,
  length-append, take, drop, take_append_length, take_all, IsBytes, IsBytes-append,
}
use hardware_bitcoin_wallet.Endian.{write_u32_little_endian}
use hardware_bitcoin_wallet.Endian.Laws.{read_u32-write_u32}
use hardware_bitcoin_wallet.Wallet.{
  Unencrypted, Encrypted, WalletRecord, unencrypted_bytes, encrypted_bytes, unencrypted_of,
  encrypted_of,
}

-- An array field of the given size.
pub record IsField (size : ℕ) (bs : List ℕ) : Type 0 where
  pub sized : length bs ≡ size
  pub bytes : IsBytes bs

-- The fields have the sizes and ranges of the C structures.
pub record IsUnencrypted (u : Unencrypted) : Type 0 where
  pub version : u.version < 2 ^ 32
  pub reserved : IsField 4 u.reserved
  pub name : IsField 40 u.name
  pub uuid : IsField 16 u.uuid

pub record IsEncrypted (e : Encrypted) : Type 0 where
  pub num_addresses : e.num_addresses < 2 ^ 32
  pub padding : IsField 8 e.padding
  pub reserved : IsField 4 e.reserved
  pub seed : IsField 64 e.seed
  pub checksum : IsField 32 e.checksum

pub record IsRecord (r : WalletRecord) : Type 0 where
  pub unencrypted : IsUnencrypted r.unencrypted
  pub encrypted : IsEncrypted r.encrypted

skip : (n m : ℕ) (xs ys : List ℕ) → length xs ≡ n → drop (n + m) (xs ++ ys) ≡ drop m ys
skip zero m [] ys e = let same : 0 + m ≡ m = omega arith in ap (λ k. drop k ys) same
skip zero m (x ∷ xs) ys e = absurd (omega arith)
skip (suc n) m [] ys e = absurd (omega arith)
skip (suc n) m (x ∷ xs) ys e =
    let next : suc n + m ≡ suc (n + m) = omega arith in
    ap (λ k. drop k (x ∷ xs ++ ys)) next ∙ skip n m xs ys (omega arith)

front : (n : ℕ) (xs ys : List ℕ) → length xs ≡ n → take n (xs ++ ys) ≡ xs
front n xs ys e = rw (sym e) (take_append_length xs ys)

pub unencrypted_of-bytes :
    (u : Unencrypted) → IsUnencrypted u → unencrypted_of (unencrypted_bytes u) ≡ u
unfolding unencrypted_of unencrypted_bytes write_u32_little_endian
unencrypted_of-bytes u h =
    let version = (read_u32-write_u32 u.version h.version).0 in
    let tail : List ℕ = u.name ++ u.uuid in
    let reserved = front 4 u.reserved tail h.reserved.sized in
    let name_at = skip 4 0 u.reserved tail h.reserved.sized in
    let name = front 40 u.name u.uuid h.name.sized in
    let uuid_at =
      skip 4 40 u.reserved tail h.reserved.sized ∙ skip 40 0 u.name u.uuid h.name.sized in
    let uuid = take_all 16 u.uuid (omega (arith, h.uuid.sized)) in
    rw (version, reserved, name_at, name, uuid_at, uuid) refl

pub encrypted_of-bytes : (e : Encrypted) → IsEncrypted e → encrypted_of (encrypted_bytes e) ≡ e
unfolding encrypted_of encrypted_bytes write_u32_little_endian
encrypted_of-bytes e h =
    let num = (read_u32-write_u32 e.num_addresses h.num_addresses).0 in
    let last : List ℕ = e.seed ++ e.checksum in
    let tail : List ℕ = e.reserved ++ last in
    let padding = front 8 e.padding tail h.padding.sized in
    let reserved_at = skip 8 0 e.padding tail h.padding.sized in
    let reserved = front 4 e.reserved last h.reserved.sized in
    let seed_at =
      skip 8 4 e.padding tail h.padding.sized ∙ skip 4 0 e.reserved last h.reserved.sized in
    let seed = front 64 e.seed e.checksum h.seed.sized in
    let checksum_at =
      skip 8 68 e.padding tail h.padding.sized
      ∙ skip 4 64 e.reserved last h.reserved.sized
      ∙ skip 64 0 e.seed e.checksum h.seed.sized in
    let checksum = take_all 32 e.checksum (omega (arith, h.checksum.sized)) in
    rw (num, padding, reserved_at, reserved, seed_at, seed, checksum_at, checksum) refl

u32-IsBytes : (x : ℕ) → IsBytes (write_u32_little_endian x)
unfolding write_u32_little_endian
u32-IsBytes x = omega arith

pub u32-length : (x : ℕ) → length (write_u32_little_endian x) ≡ 4
unfolding write_u32_little_endian
u32-length x = refl

append-IsField :
    (n m : ℕ) (xs ys : List ℕ) → IsField n xs → IsField m ys → IsField (n + m) (xs ++ ys)
append-IsField n m xs ys h k = record {
  sized = length-append xs ys ∙ ap₂ (λ a b. a + b) h.sized k.sized;
  bytes = IsBytes-append xs ys h.bytes k.bytes;
}

u32-IsField : (x : ℕ) → IsField 4 (write_u32_little_endian x)
u32-IsField x = record { sized = u32-length x; bytes = u32-IsBytes x }

pub unencrypted_bytes-IsField :
    (u : Unencrypted) → IsUnencrypted u → IsField 64 (unencrypted_bytes u)
unfolding unencrypted_bytes
unencrypted_bytes-IsField u h =
    append-IsField 4 60 _ _ (u32-IsField u.version)
      (append-IsField 4 56 _ _ h.reserved (append-IsField 40 16 _ _ h.name h.uuid))

pub encrypted_bytes-IsField : (e : Encrypted) → IsEncrypted e → IsField 112 (encrypted_bytes e)
unfolding encrypted_bytes
encrypted_bytes-IsField e h = append-IsField 4 108 _ _ (u32-IsField e.num_addresses) (
    append-IsField 8 100 _ _ h.padding
      (append-IsField 4 96 _ _ h.reserved (append-IsField 64 32 _ _ h.seed h.checksum)))
