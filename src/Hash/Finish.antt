-- ===== src/Hash/Finish.antt =====
-- hash.c: finishing pads the message, so that the result is the hash of the padded message.
use hardware_bitcoin_wallet.Base.{
  ℕ, zero, suc, ◌+◌, ◌-◌, ◌*◌, ◌/◌, ◌%◌, ◌<◌, ◌≡◌, refl, ◌∙◌, sym, ap, ap₂, arith, u32, ◌<<<◌, List,
  [], ◌∷◌, ◌++◌, append-nil, append_assoc, length, replicate, length-replicate, length-append,
  IsBytes, Bool, true, false, if◌then◌else◌, ◌==◌, ◌&&◌,
}
use hardware_bitcoin_wallet.Endian.{write_u32_big_endian, write_u32_little_endian}
use hardware_bitcoin_wallet.Hash.{
  HashState, hash_write_byte, hash_write_bytes, pad_zeros, hash_finish, swap_words,
}
use hardware_bitcoin_wallet.Hash.Spec.{hash_blocks, padding}
use hardware_bitcoin_wallet.Hash.Stream.{Holds, write_byte-Holds}

empty_of_length : (xs : List ℕ) → length xs ≡ 0 → xs ≡ []
empty_of_length [] e = refl
empty_of_length (x ∷ xs) e = absurd (omega arith)

-- The swap at the end of `hashFinish`.
abbrev last_step : Bool → HashState → HashState
last_step order done = if order then done else record done { h = swap_words done.h }

last_step-h :
    (order : Bool) (done : HashState) (x : List ℕ)
    → done.h ≡ x
    → (last_step order done).h ≡ (if order then x else swap_words x)
last_step-h true done x e = e
last_step-h false done x e = ap swap_words e

module _ (block : List ℕ → List ℕ → List ℕ) (big : Bool) (iv : List ℕ) where
  -- Bytes written one after another are the message so far.
  pub write_bytes-Holds :
      (bs message : List ℕ) (hs : HashState)
      → IsBytes bs
      → Holds block big 64 iv message hs
      → Holds block big 64 iv (message ++ bs) (hash_write_bytes block hs bs)
  unfolding hash_write_bytes
  write_bytes-Holds [] message hs p r = rw (append-nil message) r
  write_bytes-Holds (b ∷ bs) message hs p r = rw (append_assoc message (b ∷ []) bs) at (
      write_bytes-Holds bs (message ++ b ∷ []) (hash_write_byte block hs b) p.1
        (write_byte-Holds block big iv message hs b p.0 r))

  -- The place in the buffer is the size of the message modulo 64.
  place :
      (message : List ℕ) (hs : HashState)
      → Holds block big 64 iv message hs
      → (hs.index_m ≡ length message % 64 / 4) × (hs.byte_position_m ≡ length message % 4)
  place message hs r =
      let size : length message ≡ r.blocks * 64 + length r.pending =
        ap length r.split ∙ length-append r.done r.pending ∙ omega (arith, r.done_size) in
      (omega (arith, r.index, r.room), omega (arith, r.position))

  -- The padding loop writes just the zeros that are missing to 56 bytes, if its fuel allows.
  pad_zeros-Holds :
      (zeros fuel : ℕ) (message : List ℕ) (hs : HashState)
      → zeros < fuel
      → zeros < 64
      → (length message + zeros) % 64 ≡ 56
      → Holds block big 64 iv message hs
      → Holds block big 64 iv (message ++ replicate zeros 0) (pad_zeros block fuel hs)
  unfolding pad_zeros
  pad_zeros-Holds n zero message hs h k e r = absurd (omega arith)
  pad_zeros-Holds zero (suc fuel) message hs h k e r =
      let at = place message hs r in
      let stop : ((hs.index_m == 14) && (hs.byte_position_m == 0)) ≡ true = ground (arith, at) in
      rw (stop, append-nil message) r
  pad_zeros-Holds (suc n) (suc fuel) message hs h k e r =
      let at = place message hs r in
      let go : ((hs.index_m == 14) && (hs.byte_position_m == 0)) ≡ false = ground (arith, at) in
      rw go (
        rw (append_assoc message (0 ∷ []) (replicate n 0)) at (
          pad_zeros-Holds n fuel (message ++ 0 ∷ []) (hash_write_byte block hs 0) (omega arith)
            (omega arith) (omega (arith, length-append message (0 ∷ [])))
            (write_byte-Holds block big iv message hs 0 (omega arith) r)))

  -- The bits counted before the padding, as the eight bytes that are written last.
  abbrev length_bytes : Bool → ℕ → List ℕ
  length_bytes order bits =
      if order
      then replicate 4 0 ++ write_u32_big_endian bits
      else write_u32_little_endian bits ++ replicate 4 0

  length_bytes-IsBytes :
      (order : Bool) (bits : ℕ)
      → IsBytes (length_bytes order bits) × (length (length_bytes order bits) ≡ 8)
  unfolding write_u32_big_endian write_u32_little_endian
  length_bytes-IsBytes true bits = (omega arith, refl)
  length_bytes-IsBytes false bits = (omega arith, refl)

  abbrev zeros : ℕ → ℕ
  zeros size = (55 + 64 - size % 64) % 64

  abbrev closing : HashState → Bool → ℕ → HashState
  closing hs order size =
      hash_write_bytes block (pad_zeros block 64 (hash_write_byte block hs 0x80))
        (length_bytes order (u32 (size <<< 3)))

  -- The state that `hashFinish` reaches before it may swap the words.
  padded-Holds :
      (message : List ℕ) (hs : HashState)
      → Holds block big 64 iv message hs
      → Holds block big 64 iv (message ++ padding big (length message)) (
          hash_write_bytes block
            (pad_zeros block 64 (hash_write_byte block hs 0x80))
            (length_bytes big (u32 (u32 (length message) * 8))))
  padded-Holds message hs r =
      let n = zeros (length message) in
      let bits = u32 (u32 (length message) * 8) in
      let one = write_byte-Holds block big iv message hs 0x80 (omega arith) r in
      let pad =
        pad_zeros-Holds n 64 (message ++ 0x80 ∷ []) (hash_write_byte block hs 0x80) (omega arith)
          (omega arith) (omega (arith, length-append message (0x80 ∷ []))) one in
      let all =
        write_bytes-Holds (length_bytes big bits) _ _ (length_bytes-IsBytes big bits).0 pad in
      rw
        (
          append_assoc (message ++ 0x80 ∷ []) (replicate n 0) (length_bytes big bits),
          append_assoc message (0x80 ∷ []) (replicate n 0 ++ length_bytes big bits),
        )
        at all

  padded_size : (message : List ℕ) → length (message ++ padding big (length message)) % 64 ≡ 0
  padded_size message =
      let n = zeros (length message) in
      let last : List ℕ = length_bytes big (u32 (u32 (length message) * 8)) in
      omega (
        arith,
        length-append message (0x80 ∷ (replicate n 0 ++ last)),
        length-append (replicate n 0) last,
        length-replicate {A = ℕ} n 0,
        (length_bytes-IsBytes big (u32 (u32 (length message) * 8))).1,
      )

  -- `hashFinish` after the bytes of a message is the hash of the padded message, block by block,
  -- with the bytes of each word swapped for the little-endian hash.
  pub hash_finish-eq :
      (message : List ℕ) (hs : HashState)
      → Holds block big 64 iv message hs
      → (count : ℕ) × (length (message ++ padding big (length message)) ≡ count * 64)
        × ((hash_finish block hs).h ≡ (
            if big
            then hash_blocks block big count iv (message ++ padding big (length message))
            else swap_words
                (hash_blocks block big count iv (message ++ padding big (length message)))))
  unfolding hash_finish
  hash_finish-eq message hs r =
      let all = padded-Holds message hs r in
      let whole : List ℕ = message ++ padding big (length message) in
      let sized : length whole % 64 ≡ 0 = padded_size message in
      let none : all.pending ≡ [] = empty_of_length all.pending (
        omega (
          arith,
          ap length all.split ∙ length-append all.done all.pending,
          all.done_size,
          all.room,
        )) in
      let hashed : whole ≡ all.done =
        all.split ∙ ap (λ l. all.done ++ l) none ∙ append-nil all.done in
      (
        all.blocks,
        ap length hashed ∙ all.done_size,
        ap₂ (λ order size. (last_step order (closing hs order size)).h) r.order r.counted
            ∙ last_step-h big _ _
                (all.hash ∙ ap (hash_blocks block big all.blocks iv) (sym hashed)),
      )
