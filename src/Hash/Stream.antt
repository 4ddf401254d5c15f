-- ===== src/Hash/Stream.antt =====
-- hash.c: writing a message byte by byte and finishing it is the hash of the padded message.
use hardware_bitcoin_wallet.Base.{
  ℕ, zero, suc, ◌+◌, ◌-◌, ◌*◌, ◌/◌, ◌%◌, ◌<◌, ◌≡◌, refl, ◌∙◌, sym, ap, ap₂, arith, u8, u32, List,
  [], ◌∷◌, ◌++◌, append-nil, append_assoc, length, replicate, get_or, set, take, drop, take_all,
  length-append, length-drop, take-append_le, drop-append_le, IsByte, IsBytes, IsBytes-append, Bool,
  true, false, Bool-cases, inl, inr, ◌==◌,
}
use hardware_bitcoin_wallet.Base.Bits.{bit_and_low_bits}
use hardware_bitcoin_wallet.Hash.{HashState, clear_m, flush_full, hash_write_byte}
use hardware_bitcoin_wallet.Hash.Spec.{words, hash_blocks}
use hardware_bitcoin_wallet.Hash.Buffer.{put, put_byte}

module _ (block : List ℕ → List ℕ → List ℕ) (big : Bool) where
  hash_blocks-append :
      (q : ℕ) (h done last : List ℕ)
      → length done ≡ q * 64
      → length last ≡ 64
      → hash_blocks block big (suc q) h (done ++ last)
        ≡ block (hash_blocks block big q h done) (words big last)
  unfolding hash_blocks
  hash_blocks-append zero h [] last e l =
      ap (λ t. block h (words big t)) (take_all 64 last (omega arith))
  hash_blocks-append zero h (x ∷ done) last e l = absurd (omega arith)
  hash_blocks-append (suc q) h done last e l =
      rw (take-append_le 64 done last (omega arith), drop-append_le 64 done last (omega arith))
        (hash_blocks-append q (block h (words big (take 64 done))) (drop 64 done) last
          (omega (arith, length-drop 64 done)) l)

  -- The state after the bytes `message` were written to a state that began at `iv`: whole blocks are
  -- hashed, and the rest, of less than `limit` bytes, lies in the buffer.
  pub record Holds (limit : ℕ) (iv message : List ℕ) (hs : HashState) : Type 0 where
    pub blocks : ℕ
    pub done : List ℕ
    pub pending : List ℕ
    pub split : message ≡ done ++ pending
    pub done_size : length done ≡ blocks * 64
    pub room : length pending < limit
    pub bytes : IsBytes pending
    pub order : hs.is_big_endian ≡ big
    pub hash : hs.h ≡ hash_blocks block big blocks iv done
    pub buffer : hs.m ≡ words big (pending ++ replicate (64 - length pending) 0)
    pub index : hs.index_m ≡ length pending / 4
    pub position : hs.byte_position_m ≡ length pending % 4
    pub counted : hs.message_length ≡ u32 (length message)

  full_block_hash :
      (iv message : List ℕ) (hs : HashState) (r : Holds 65 iv message hs)
      → length r.pending ≡ 64
      → block hs.h hs.m ≡ hash_blocks block big (suc r.blocks) iv message
  full_block_hash iv message hs r e =
      let none_left : 64 - length r.pending ≡ 0 = omega arith in
      ap₂ block r.hash (
        r.buffer
        ∙ ap (λ k. words big (r.pending ++ replicate k 0)) none_left
        ∙ ap (words big) (append-nil r.pending))
      ∙ sym (hash_blocks-append r.blocks iv r.done r.pending r.done_size e)
      ∙ ap (hash_blocks block big (suc r.blocks) iv) (sym r.split)

  zero_words : (order : Bool) → replicate 16 0 ≡ words order (replicate 64 0)
  zero_words true = refl
  zero_words false = refl

  full_block :
      (iv message : List ℕ) (hs : HashState) (r : Holds 65 iv message hs)
      → length r.pending ≡ 64
      → Holds 64 iv message (clear_m (record hs { h = block hs.h hs.m }))
  unfolding clear_m
  full_block iv message hs r e = record {
    blocks = suc r.blocks;
    done = message;
    pending = [];
    split = sym (append-nil message);
    done_size = ap length r.split ∙ length-append r.done r.pending ∙ omega (arith, r.done_size);
    room = omega arith;
    bytes = tt;
    order = r.order;
    hash = full_block_hash iv message hs r e;
    buffer = zero_words big;
    index = refl;
    position = refl;
    counted = r.counted;
  }

  still_room :
      (iv message : List ℕ) (hs : HashState) (r : Holds 65 iv message hs)
      → length r.pending < 64
      → Holds 64 iv message hs
  still_room iv message hs r h = record {
    blocks = r.blocks;
    done = r.done;
    pending = r.pending;
    split = r.split;
    done_size = r.done_size;
    room = h;
    bytes = r.bytes;
    order = r.order;
    hash = r.hash;
    buffer = r.buffer;
    index = r.index;
    position = r.position;
    counted = r.counted;
  }

  flush_full-Holds :
      (iv message : List ℕ) (hs : HashState)
      → Holds 65 iv message hs
      → Holds 64 iv message (flush_full block hs)
  unfolding flush_full
  flush_full-Holds iv message hs r = elim (Bool-cases (hs.index_m == 16)) [
    | inl full ↦ rw full (full_block iv message hs r (ground arith))
    | inr more ↦ rw more (still_room iv message hs r (ground arith))
  ]

  -- The byte goes behind the pending ones, in the word and at the position that the state counts.
  abbrev put_at : List ℕ → ℕ → Bool → ℕ → ℕ → List ℕ
  put_at m i order k b = set m i (put order k (get_or m i 0) b)

  put_at-pending :
      (iv message : List ℕ) (hs : HashState) (b : ℕ) (r : Holds 64 iv message hs)
      → IsByte b
      → put_at hs.m hs.index_m hs.is_big_endian hs.byte_position_m b
        ≡ words big ((r.pending ++ b ∷ []) ++ replicate (64 - length (r.pending ++ b ∷ [])) 0)
  put_at-pending iv message hs b r h =
      let p = r.pending in
      let n : ℕ = 63 - length p in
      let more : 64 - length p ≡ suc n = omega (arith, r.room) in
      let left : n ≡ 64 - length (p ++ b ∷ []) = omega (arith, r.room, length-append p (b ∷ [])) in
      ap (λ m. put_at m hs.index_m hs.is_big_endian hs.byte_position_m b)
        (r.buffer ∙ ap (λ k. words big (p ++ replicate k 0)) more)
      ∙ ap
          (λ i.
            put_at (words big (p ++ replicate (suc n) 0)) i hs.is_big_endian hs.byte_position_m b)
          r.index
      ∙ ap₂ (λ o k. put_at (words big (p ++ replicate (suc n) 0)) (length p / 4) o k b) r.order
          r.position
      ∙ put_byte big p n 16 b (omega (arith, r.room)) r.bytes h
      ∙ ap (words big) (
          sym (append_assoc p (b ∷ []) (replicate n 0))
          ∙ ap (λ k. (p ++ b ∷ []) ++ replicate k 0) left)

  pub write_byte-Holds :
      (iv message : List ℕ) (hs : HashState) (b : ℕ)
      → IsByte b
      → Holds 64 iv message hs
      → Holds 64 iv (message ++ b ∷ []) (hash_write_byte block hs b)
  unfolding hash_write_byte
  write_byte-Holds iv message hs b h r = flush_full-Holds iv (message ++ b ∷ []) _ record {
    blocks = r.blocks;
    done = r.done;
    pending = r.pending ++ b ∷ [];
    split = ap (λ l. l ++ b ∷ []) r.split ∙ append_assoc r.done r.pending (b ∷ []);
    done_size = r.done_size;
    room = omega (arith, length-append r.pending (b ∷ []), r.room);
    bytes = IsBytes-append r.pending (b ∷ []) r.bytes (h, tt);
    order = r.order;
    hash = r.hash;
    buffer = put_at-pending iv message hs b r h;
    index = ground (arith, r.index, r.position, r.room, length-append r.pending (b ∷ []));
    position =
        bit_and_low_bits 2 (u8 (hs.byte_position_m + 1))
        ∙ omega (arith, r.position, length-append r.pending (b ∷ []));
    counted = omega (arith, r.counted, length-append message (b ∷ []));
  }
