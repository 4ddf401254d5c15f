-- ===== src/Xex/Region.antt =====
-- xex.c, encryptedNonVolatileWrite and encryptedNonVolatileRead: what is written to a region of whole
-- blocks reads back, and nothing else in storage changes.
use hardware_bitcoin_wallet.Base.{
  ℕ, zero, suc, ◌+◌, ◌-◌, ◌*◌, ◌/◌, ◌%◌, ◌^◌, ◌<◌, ◌≤◌, ◌≡◌, refl, ◌∙◌, ap, arith, u32, sub32, inr,
  List, [], ◌∷◌, ◌++◌, length, length-append, length-take, length-drop, take-append-drop, take,
  drop, false, ltb, IsBytes, IsBytes-take, IsBytes-drop, take_all, le→leb, ge→ltb,
}
use hardware_bitcoin_wallet.Program.{ok, ◌>>=◌, ◌>>◌, pure}
use hardware_bitcoin_wallet.Storage.{Platform, Partition, IsMemory, Apart}
use hardware_bitcoin_wallet.Storage.Regions.{Apart-cut, Stores-empty, read-stored}
use hardware_bitcoin_wallet.Xex.{
  Cipher, Keys, xex_encrypt, xex_decrypt, tweak, fill_block, write_block, write_blocks, block_of,
  last_block, encrypted_non_volatile_write, read_block, read_blocks, encrypted_non_volatile_read,
}
use hardware_bitcoin_wallet.Xex.Laws.{
  IsBlock, IsCipher, tweak-IsBlock, xex_encrypt-IsBlock, xex_decrypt-IsBlock,
  xex_decrypt-xex_encrypt,
}

fill_whole :
    (plaintext bs : List ℕ)
    → length plaintext ≤ length bs
    → fill_block 0 plaintext bs ≡ (take (length plaintext) bs, drop (length plaintext) bs)
unfolding fill_block
fill_whole [] bs le = refl
fill_whole (p ∷ plaintext) [] le = absurd (omega arith)
fill_whole (p ∷ plaintext) (b ∷ bs) le =
    ap (λ r. (b ∷ r.0, r.1)) (fill_whole plaintext bs (omega arith))

module _ {Device : Type 0} (cipher : Cipher) (works : IsCipher cipher) (platform : Platform Device)
    (memory : IsMemory platform) (keys : Keys) where
  -- The ciphertext of `count` blocks from address `a` on.
  unfoldable pub encrypt_all : ℕ → ℕ → List ℕ → List ℕ
  encrypt_all zero a bs = []
  encrypt_all (suc count) a bs =
      xex_encrypt cipher keys (take 16 bs) (tweak a) 1 ++ encrypt_all count (a + 16) (drop 16 bs)

  -- From `d` to `d'` the bytes `bs` were written at `a`, and no other region changed.
  pub record Wrote (d d' : Device) (p : Partition) (a : ℕ) (bs : List ℕ) : Type 0 where
    pub stored : memory.Stores d' p a bs
    pub others :
        (q : Partition) (b : ℕ) (cs : List ℕ)
        → Apart p a (length bs) q b (length cs)
        → memory.Stores d q b cs
        → memory.Stores d' q b cs

  first-IsBlock : (bs : List ℕ) → IsBytes bs → 16 ≤ length bs → IsBlock (take 16 bs)
  first-IsBlock bs p le = record {
    sized = omega (arith, length-take 16 bs);
    bytes = IsBytes-take 16 bs p;
  }

  write_block-Wrote :
      (d : Device) (p : Partition) (a : ℕ) (bs : List ℕ)
      → IsBytes bs
      → 16 ≤ length bs
      → a + 16 ≤ memory.size p
      → (d' : Device) × (write_block cipher platform keys p a 0 bs d ≡ (ok (drop 16 bs), d'))
        × Wrote d d' p a (xex_encrypt cipher keys (take 16 bs) (tweak a) 1)
  unfolding write_block ◌>>=◌ ◌>>◌ pure
  write_block-Wrote d p a bs bytes le room =
      let (old, len, old_bytes, there) = memory.filled d p a 16 room in
      let plain =
        xex_decrypt-IsBlock cipher works keys old (tweak a) 1
          (record { sized = len; bytes = old_bytes }) (tweak-IsBlock a) in
      let full : fill_block 0 (xex_decrypt cipher keys old (tweak a) 1) bs
          ≡ (take 16 bs, drop 16 bs) =
        rw plain.sized at
          (fill_whole (xex_decrypt cipher keys old (tweak a) 1) bs (omega (arith, plain.sized))) in
      let got : platform.non_volatile_read p a 16 d ≡ (ok old, d) =
        read-stored platform memory d p a 16 old len room there in
      let out =
        xex_encrypt-IsBlock cipher works keys (take 16 bs) (tweak a) 1 (first-IsBlock bs bytes le)
          (tweak-IsBlock a) in
      let put =
        memory.write d p a (xex_encrypt cipher keys (take 16 bs) (tweak a) 1)
          (omega (arith, out.sized)) in
      (put.0, rw (got, full, put.1) refl, record { stored = put.2 out.bytes; others = put.3 })

  encrypt_all-length :
      (count a : ℕ) (bs : List ℕ)
      → IsBytes bs
      → length bs ≡ count * 16
      → length (encrypt_all count a bs) ≡ count * 16
  unfolding encrypt_all
  encrypt_all-length zero a bs bytes len = refl
  encrypt_all-length (suc count) a bs bytes len =
      let block =
        xex_encrypt-IsBlock cipher works keys (take 16 bs) (tweak a) 1
          (first-IsBlock bs bytes (omega (arith, len))) (tweak-IsBlock a) in
      length-append (xex_encrypt cipher keys (take 16 bs) (tweak a) 1) _
      ∙ omega (
        arith,
        block.sized,
        encrypt_all-length count (a + 16) (drop 16 bs) (IsBytes-drop 16 bs bytes)
            (omega (arith, length-drop 16 bs)),
      )

  Wrote-append :
      (d d' d'' : Device) (p : Partition) (a : ℕ) (bs cs : List ℕ)
      → length bs ≡ 16
      → Wrote d d' p a bs
      → Wrote d' d'' p (a + 16) cs
      → Wrote d d'' p a (bs ++ cs)
  Wrote-append d d' d'' p a bs cs len h k =
      let kept = k.others p a bs (inr (inr (omega (arith, len)))) h.stored in
      record {
        stored = memory.joined d'' p a bs cs kept (rw (ap (λ n. a + n) len) k.stored);
        others = λ q b es apart s.
            let (near, far) =
              Apart-cut p a (length bs) (length cs) q b (length es)
                (rw (length-append bs cs) at apart) in
            k.others q b es (rw len at far) (h.others q b es near s);
      }

  write_blocks-Wrote :
      (count : ℕ) (d : Device) (p : Partition) (a : ℕ) (end : ℕ) (bs : List ℕ)
      → IsBytes bs
      → length bs ≡ count * 16
      → end + 16 ≡ a + count * 16
      → end + 16 < 2 ^ 32
      → a + count * 16 ≤ memory.size p
      → (d' : Device) × (write_blocks cipher platform keys count p a end 0 bs d ≡ (ok tt, d'))
        × Wrote d d' p a (encrypt_all count a bs)
  unfolding write_blocks encrypt_all pure ◌>>=◌
  write_blocks-Wrote zero d p a end bs bytes len last fits room =
      let empty = Stores-empty platform memory d p a (omega arith) in
      (d, refl, record { stored = empty; others = λ _ _ _ _ s. s })
  write_blocks-Wrote (suc count) d p a end bs bytes len last fits room =
      let (d', block, one) = write_block-Wrote d p a bs bytes (omega (arith, len)) (omega arith) in
      let (d'', loop, more) =
        write_blocks-Wrote count d' p (a + 16) end (drop 16 bs) (IsBytes-drop 16 bs bytes)
          (omega (arith, length-drop 16 bs)) (omega arith) fits (omega arith) in
      let next : u32 (a + 16) ≡ a + 16 = omega arith in
      let out =
        xex_encrypt-IsBlock cipher works keys (take 16 bs) (tweak a) 1
          (first-IsBlock bs bytes (omega (arith, len))) (tweak-IsBlock a) in
      (
        d'',
        rw (le→leb a end (omega arith), block, next) loop,
        Wrote-append d d' d'' p a _ _ out.sized one more,
      )

  -- The loop's first and last block, for a region of `count` whole blocks.
  region_bounds :
      (a count n : ℕ)
      → a % 16 ≡ 0
      → 0 < count
      → n ≡ count * 16
      → a + count * 16 < 2 ^ 32
      → (ltb (u32 (a + n)) a ≡ false)
        × (block_of a ≡ a)
        × (last_block a n + 16 ≡ a + count * 16)
        × ((last_block a n - a) / 16 + 1 ≡ count)
  region_bounds a count n aligned some len fits =
      let end : u32 (a + n) ≡ a + count * 16 = omega arith in
      let before : sub32 (u32 (a + n)) 1 ≡ a + count * 16 - 1 = omega arith in
      let last : last_block a n + 16 ≡ a + count * 16 = omega (arith, before) in
      (ge→ltb _ _ (omega (arith, end)), omega arith, last, omega (arith, last))

  -- Writing whole blocks to a region inside a partition succeeds: the ciphertext of the bytes then
  -- stands in the region, and every other region is as before.
  pub encrypted_non_volatile_write-Wrote :
      (d : Device) (p : Partition) (a count : ℕ) (bs : List ℕ)
      → IsBytes bs
      → length bs ≡ count * 16
      → 0 < count
      → a % 16 ≡ 0
      → a + count * 16 < 2 ^ 32
      → a + count * 16 ≤ memory.size p
      → (d' : Device) × (encrypted_non_volatile_write cipher platform keys bs p a d ≡ (ok tt, d'))
        × Wrote d d' p a (encrypt_all count a bs)
  unfolding encrypted_non_volatile_write
  encrypted_non_volatile_write-Wrote d p a count bs bytes len some aligned fits room =
      let (inside, first, last, rounds) = region_bounds a count (length bs) aligned some len fits in
      let (d', loop, wrote) =
        write_blocks-Wrote count d p a (last_block a (length bs)) bs bytes len last
          (omega (arith, last)) room in
      let started : encrypted_non_volatile_write cipher platform keys bs p a d
          ≡ write_blocks cipher platform keys count p a (last_block a (length bs)) 0 bs d =
        rw (inside, first, rounds, aligned) refl in
      (d', started ∙ loop, wrote)

  read_block-plain :
      (d : Device) (p : Partition) (a n : ℕ) (block : List ℕ)
      → IsBlock block
      → 16 ≤ n
      → a + 16 ≤ memory.size p
      → memory.Stores d p a (xex_encrypt cipher keys block (tweak a) 1)
      → read_block cipher platform keys p a 0 n d ≡ (ok block, d)
  unfolding read_block ◌>>=◌ pure
  read_block-plain d p a n block h le room s =
      let out = xex_encrypt-IsBlock cipher works keys block (tweak a) 1 h (tweak-IsBlock a) in
      let got : platform.non_volatile_read p a 16 d
          ≡ (ok (xex_encrypt cipher keys block (tweak a) 1), d) =
        read-stored platform memory d p a 16 _ out.sized room s in
      let same = xex_decrypt-xex_encrypt cipher works keys block (tweak a) 1 h (tweak-IsBlock a) in
      rw (got, same, take_all n block (omega (arith, h.sized))) refl

  read_blocks-plain :
      (count : ℕ) (d : Device) (p : Partition) (a end : ℕ) (bs : List ℕ)
      → IsBytes bs
      → length bs ≡ count * 16
      → end + 16 ≡ a + count * 16
      → end + 16 < 2 ^ 32
      → a + count * 16 ≤ memory.size p
      → memory.Stores d p a (encrypt_all count a bs)
      → read_blocks cipher platform keys count p a end 0 (count * 16) d ≡ (ok bs, d)
  unfolding read_blocks encrypt_all pure ◌>>=◌
  read_blocks-plain zero d p a end [] bytes len last fits room s = refl
  read_blocks-plain zero d p a end (b ∷ bs) bytes len last fits room s = absurd (omega arith)
  read_blocks-plain (suc count) d p a end bs bytes len last fits room s =
      let block = first-IsBlock bs bytes (omega (arith, len)) in
      let out =
        xex_encrypt-IsBlock cipher works keys (take 16 bs) (tweak a) 1 block (tweak-IsBlock a) in
      let (here, behind) = memory.cut d p a _ _ s in
      let one =
        read_block-plain d p a (suc count * 16) (take 16 bs) block (omega arith) (omega arith)
          here in
      let more =
        read_blocks-plain count d p (a + 16) end (drop 16 bs) (IsBytes-drop 16 bs bytes)
          (omega (arith, length-drop 16 bs)) (omega arith) fits (omega arith)
          (rw (ap (λ n. a + n) out.sized) at behind) in
      let next : u32 (a + 16) ≡ a + 16 = omega arith in
      let left : suc count * 16 - 16 ≡ count * 16 = omega arith in
      rw (le→leb a end (omega arith), one, block.sized, next, left, more, take-append-drop 16 bs)
        refl

  -- Reading a region of whole blocks gives the bytes whose ciphertext stands in it.
  pub encrypted_non_volatile_read-plain :
      (d : Device) (p : Partition) (a count : ℕ) (bs : List ℕ)
      → IsBytes bs
      → length bs ≡ count * 16
      → 0 < count
      → a % 16 ≡ 0
      → a + count * 16 < 2 ^ 32
      → a + count * 16 ≤ memory.size p
      → memory.Stores d p a (encrypt_all count a bs)
      → encrypted_non_volatile_read cipher platform keys p a (count * 16) d ≡ (ok bs, d)
  unfolding encrypted_non_volatile_read
  encrypted_non_volatile_read-plain d p a count bs bytes len some aligned fits room s =
      let (inside, first, last, rounds) =
        region_bounds a count (count * 16) aligned some refl fits in
      rw (inside, first, rounds, aligned)
        (read_blocks-plain count d p a (last_block a (count * 16)) bs bytes len last
          (omega (arith, last)) room s)

  -- Where storage works and the block cipher has an inverse: `encryptedNonVolatileWrite` of whole
  -- blocks inside a partition succeeds, `encryptedNonVolatileRead` with the same keys then gives the
  -- bytes back, and every region apart from the one written is as before.
  pub encrypted_read-encrypted_write :
      (d : Device) (p : Partition) (a count : ℕ) (bs : List ℕ)
      → IsBytes bs
      → length bs ≡ count * 16
      → 0 < count
      → a % 16 ≡ 0
      → a + count * 16 < 2 ^ 32
      → a + count * 16 ≤ memory.size p
      → (d' : Device) × (encrypted_non_volatile_write cipher platform keys bs p a d ≡ (ok tt, d'))
        × (encrypted_non_volatile_read cipher platform keys p a (count * 16) d' ≡ (ok bs, d'))
        × ((q : Partition) (b : ℕ) (cs : List ℕ)
            → Apart p a (count * 16) q b (length cs)
            → memory.Stores d q b cs
            → memory.Stores d' q b cs)
  encrypted_read-encrypted_write d p a count bs bytes len some aligned fits room =
      let (d', put, wrote) =
        encrypted_non_volatile_write-Wrote d p a count bs bytes len some aligned fits room in
      let same = encrypt_all-length count a bs bytes len in
      (
        d',
        put,
        encrypted_non_volatile_read-plain d' p a count bs bytes len some aligned fits room
            wrote.stored,
        λ q b cs apart s. wrote.others q b cs (rw same apart) s,
      )
