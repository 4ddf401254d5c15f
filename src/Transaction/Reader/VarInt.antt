-- ===== src/Transaction/Reader/VarInt.antt =====
-- getVarInt: it decodes the variable-sized integers of the Bitcoin protocol.
use hardware_bitcoin_wallet.Base.{
  ℕ, zero, suc, ◌+◌, ◌*◌, ◌/◌, ◌%◌, ◌^◌, ◌<◌, ◌≤◌, ◌≡◌, refl, ◌∙◌, ap, ap₂, arith, bit_or, u8, u32,
  ◌<<<◌, List, [], ◌∷◌, Bool, true, false, ltb, if◌then◌else◌, length, IsByte, IsBytes, ltb→lt,
  get_or,
}
use hardware_bitcoin_wallet.Base.Bits.{bit_or_low_high}
use hardware_bitcoin_wallet.Endian.{write_u32_little_endian}
use hardware_bitcoin_wallet.Endian.Laws.{read_u32-write_u32, write_u32-val}
use hardware_bitcoin_wallet.Transaction.Reader.{
  Parser, Result, ok, continue, ◌>>=◌, pure, read_one, read_loop, get_transaction_bytes,
  var_int_tail, get_var_int,
}
use hardware_bitcoin_wallet.Transaction.Reader.Moves.{
  IsInside, Moves-IsInside, read_loop-Moves, get_transaction_bytes_fits,
}

-- The shortest encoding of a number, little-endian behind a mark of its size.
abbrev pub encode_var_int : ℕ → List ℕ
encode_var_int v =
    if ltb v 0xfd
    then v ∷ []
    else if ltb v (2 ^ 16)
    then 0xfd ∷ v % 256 ∷ v / 256 ∷ []
    else 0xfe ∷ write_u32_little_endian v

-- The stream gives these bytes from a place on.
abbrev pub HoldsAt : (ℕ → ℕ) → ℕ → List ℕ → Type 0
HoldsAt input at [] = zero ≡ 0
HoldsAt input at (b ∷ bs) = (input at ≡ b) × HoldsAt input (at + 1) bs

module _ (input : ℕ → ℕ) where
  read_loop-HoldsAt :
      (bs : List ℕ) (s : Parser)
      → IsBytes bs
      → HoldsAt input s.consumed bs
      → (read_loop input (length bs) s).0 ≡ bs
  unfolding read_loop read_one
  read_loop-HoldsAt [] s p h = refl
  read_loop-HoldsAt (b ∷ bs) s p h =
      let here : u8 (input s.consumed) ≡ b = omega (arith, h.0) in
      ap₂ ◌∷◌ here (read_loop-HoldsAt bs (read_one input s) p.1 h.1)

  read_loop-consumed : (n : ℕ) (s : Parser) → (read_loop input n s).1.consumed ≡ s.consumed + n
  unfolding read_loop read_one
  read_loop-consumed zero s = omega arith
  read_loop-consumed (suc n) s = read_loop-consumed n (read_one input s) ∙ omega arith

  -- A read of bytes that the stream gives.
  reads :
      (bs : List ℕ) (s : Parser)
      → length bs < 256
      → IsInside s
      → s.transaction_data_index + length bs ≤ s.transaction_length
      → IsBytes bs
      → HoldsAt input s.consumed bs
      → get_transaction_bytes input (length bs) s ≡ (ok bs, (read_loop input (length bs) s).1)
  reads bs s h i fits p holds =
      get_transaction_bytes_fits input (length bs) s h i fits
      ∙ ap (λ l. (ok l, (read_loop input (length bs) s).1)) (read_loop-HoldsAt bs s p holds)

  -- The number comes out, and its bytes are consumed.
  abbrev Decodes : ℕ → ℕ → Parser → Result (Unit {0}) ℕ × Parser → Type 0
  Decodes v size s r = (r.0 ≡ ok v) × (r.1.consumed ≡ s.consumed + size)

  first_byte :
      (b : ℕ) (s : Parser)
      → IsByte b
      → IsInside s
      → s.transaction_data_index + 1 ≤ s.transaction_length
      → input s.consumed ≡ b
      → get_var_int input s ≡ var_int_tail input b (read_loop input 1 s).1
  unfolding get_var_int ◌>>=◌
  first_byte b s p i fits e =
      ap (λ r. continue r (λ temp. var_int_tail input (get_or temp 0 0)))
        (reads (b ∷ []) s (omega arith) i fits (p, tt) (e, refl))

  after_first :
      (s : Parser)
      → IsInside s
      → s.transaction_data_index + 1 ≤ s.transaction_length
      → IsInside (read_loop input 1 s).1
        × ((read_loop input 1 s).1.transaction_data_index ≡ s.transaction_data_index + 1)
        × ((read_loop input 1 s).1.transaction_length ≡ s.transaction_length)
  after_first s i fits =
      let moved = read_loop-Moves input 1 s i fits in
      (Moves-IsInside i moved.0, moved.2, moved.0.same)

  join_bytes : (x y : ℕ) → IsByte x → IsByte y → bit_or x (u32 (y <<< 8)) ≡ x + 256 * y
  join_bytes x y p q =
      let shifted : u32 (y <<< 8) ≡ y * 2 ^ 8 = omega arith in
      rw shifted (bit_or_low_high 8 y x p ∙ omega arith)

  two_bytes :
      (x y : ℕ) (s : Parser)
      → IsByte x
      → IsByte y
      → IsInside s
      → s.transaction_data_index + 2 ≤ s.transaction_length
      → HoldsAt input s.consumed (x ∷ y ∷ [])
      → Decodes (x + 256 * y) 2 s (var_int_tail input 0xfd s)
  unfolding var_int_tail ◌>>=◌ pure
  two_bytes x y s p q i fits holds =
      rw (reads (x ∷ y ∷ []) s (omega arith) i fits (p, (q, tt)) holds)
        (ap ok (join_bytes x y p q), read_loop-consumed 2 s)

  four_bytes :
      (v : ℕ) (s : Parser)
      → v < 2 ^ 32
      → IsInside s
      → s.transaction_data_index + 4 ≤ s.transaction_length
      → HoldsAt input s.consumed (write_u32_little_endian v)
      → Decodes v 4 s (var_int_tail input 0xfe s)
  unfolding var_int_tail ◌>>=◌ pure write_u32_little_endian
  four_bytes v s h i fits holds =
      rw (reads (write_u32_little_endian v) s (omega arith) i fits (write_u32-val v h).3 holds)
        (ap ok (read_u32-write_u32 v h).0, read_loop-consumed 4 s)

  -- The encoding of `v` by its mark, as the reader meets it after the first byte.
  abbrev Encoded : ℕ → List ℕ → Type 0
  Encoded v bs =
      (s : Parser)
      → IsInside s
      → s.transaction_data_index + length bs ≤ s.transaction_length
      → HoldsAt input s.consumed bs
      → Decodes v (length bs) s (get_var_int input s)

  one_byte-Encoded : (v : ℕ) → v < 0xfd → Encoded v (v ∷ [])
  unfolding var_int_tail pure
  one_byte-Encoded v h s i fits holds =
      let small : ltb v 0xfd ≡ true = ground arith in
      rw (first_byte v s (omega arith) i fits holds.0, small) (refl, read_loop-consumed 1 s)

  two_bytes-Encoded : (v : ℕ) → v < 2 ^ 16 → Encoded v (0xfd ∷ v % 256 ∷ v / 256 ∷ [])
  two_bytes-Encoded v h s i fits holds =
      let next = after_first s i (omega arith) in
      let tail =
        two_bytes (v % 256) (v / 256) (read_loop input 1 s).1 (omega arith) (omega arith) next.0
          (omega (arith, next)) (rw (read_loop-consumed 1 s) (holds.1)) in
      rw (first_byte 0xfd s (omega arith) i (omega arith) holds.0)
        (tail.0 ∙ ap ok (omega arith), omega (arith, tail.1, read_loop-consumed 1 s))

  four_bytes-Encoded : (v : ℕ) → v < 2 ^ 32 → Encoded v (0xfe ∷ write_u32_little_endian v)
  unfolding write_u32_little_endian
  four_bytes-Encoded v h s i fits holds =
      let next = after_first s i (omega arith) in
      let tail =
        four_bytes v (read_loop input 1 s).1 h next.0 (omega (arith, next))
          (rw (read_loop-consumed 1 s) (holds.1)) in
      rw (first_byte 0xfe s (omega arith) i (omega arith) holds.0)
        (tail.0, omega (arith, tail.1, read_loop-consumed 1 s))

  Encoded-by :
      (v : ℕ) (one two : Bool)
      → v < 2 ^ 32
      → ltb v 0xfd ≡ one
      → ltb v (2 ^ 16) ≡ two
      → Encoded v (
          if one
          then v ∷ []
          else if two
          then 0xfd ∷ v % 256 ∷ v / 256 ∷ []
          else 0xfe ∷ write_u32_little_endian v)
  Encoded-by v true two h e e' = one_byte-Encoded v (ltb→lt _ _ e)
  Encoded-by v false true h e e' = two_bytes-Encoded v (ltb→lt _ _ e')
  Encoded-by v false false h e e' = four_bytes-Encoded v h

  -- Where the stream gives the encoding of a number below 2 ^ 32, inside the transaction,
  -- `getVarInt` succeeds with that number and consumes just the encoding.
  pub get_var_int-encode_var_int :
      (v : ℕ) (s : Parser)
      → v < 2 ^ 32
      → IsInside s
      → s.transaction_data_index + length (encode_var_int v) ≤ s.transaction_length
      → HoldsAt input s.consumed (encode_var_int v)
      → ((get_var_int input s).0 ≡ ok v)
        × ((get_var_int input s).1.consumed ≡ s.consumed + length (encode_var_int v))
  get_var_int-encode_var_int v s h i fits holds = Encoded-by v _ _ h refl refl s i fits holds
