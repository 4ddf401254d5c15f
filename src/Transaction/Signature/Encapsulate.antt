-- ===== src/Transaction/Signature/Encapsulate.antt =====
-- encapsulateSignature: the whole signature is the DER form of the two numbers.
use hardware_bitcoin_wallet.Base.{
  ℕ, zero, suc, ◌+◌, ◌-◌, ◌≡◌, ◌<◌, ◌≤◌, refl, ◌∙◌, sym, ap, ap₂, arith, u8, List, [], ◌∷◌, ◌++◌,
  set, append_assoc, append-nil, get_or, take, replicate, reverse, length, length-append, IsBytes,
  IsBytes-reverse, length-reverse, length-replicate,
}
use hardware_bitcoin_wallet.Bignum.{swap_endian256}
use hardware_bitcoin_wallet.Bignum.Shift.{read_from, read_from-eq}
use hardware_bitcoin_wallet.Bignum.Modular.{IsNum256}
use hardware_bitcoin_wallet.Transaction.Signature.{
  s_offset, r_offset, lay_out, remove_zeros, encapsulate_signature,
}
use hardware_bitcoin_wallet.Transaction.Signature.Der.{
  laid, shortest, IsPruned, remove_zeros-IsPruned,
}

-- The layout before zeros are removed: both integers have 33 bytes.
abbrev head : List ℕ → List ℕ
head signature = get_or signature 0 0 ∷ (get_or signature 1 0 ∷ (0x02 ∷ []))

abbrev full_layout : List ℕ → List ℕ → List ℕ → List ℕ
full_layout signature r s =
    head signature ++ (0x21 ∷ ((0 ∷ reverse r) ++ (0x02 ∷ (0x21 ∷ ((0 ∷ reverse s) ++ (1 ∷ []))))))

lay_out_read :
    (signature r s : List ℕ)
    → lay_out (read_from signature 0 73) (read_from r 0 32) (read_from s 0 32)
      ≡ full_layout (read_from signature 0 73) (read_from r 0 32) (read_from s 0 32)
unfolding lay_out swap_endian256
lay_out_read signature r s = refl

lay_out-eq :
    (signature r s : List ℕ)
    → length signature ≡ 73
    → length r ≡ 32
    → length s ≡ 32
    → lay_out signature r s ≡ full_layout signature r s
lay_out-eq signature r s e e' e'' =
    let sig = read_from-eq signature 73 e in
    let rr = read_from-eq r 32 e' in
    let ss = read_from-eq s 32 e'' in
    ap (λ l. lay_out l r s) (sym sig)
    ∙ ap₂ (λ x y. lay_out (read_from signature 0 73) x y) (sym rr) (sym ss)
    ∙ lay_out_read signature r s
    ∙ ap₂ (λ x y. full_layout (read_from signature 0 73) x y) rr ss
    ∙ ap (λ l. full_layout l r s) sig

-- The shortest big-endian form of a number of 32 bytes, and the DER form of a signature, with the
-- hash type behind it.
abbrev pub integer : List ℕ → List ℕ
integer x = shortest (0 ∷ reverse x)

abbrev pub tagged : List ℕ → List ℕ
tagged bytes = 0x02 ∷ (length bytes ∷ bytes)

abbrev pub der : List ℕ → List ℕ → List ℕ
der r s =
    (0x30
      ∷ ((4 + length (integer r) + length (integer s))
          ∷ (0x02 ∷ (length (integer r) ∷ (integer r ++ tagged (integer s))))))
    ++ 0x01 ∷ []

-- The loop on an integer of 33 bytes, the first of them 0.
pruned :
    (pre tail bytes : List ℕ) (ones len : ℕ)
    → length bytes ≡ 32
    → IsBytes bytes
    → length ((bytes ++ tail) ++ replicate (suc ones) 1) ≡ 72 - (length pre + 1)
    → 33 ≤ len
    → len < 256
    → IsPruned pre tail
        (0 ∷ bytes)
        ones
        len
        (remove_zeros (length pre + 1) 33 (laid pre tail (0 ∷ bytes) ones, len))
pruned pre tail [] ones len e p size room small = absurd (omega arith)
pruned pre tail (y ∷ ys) ones len e p size room small =
    remove_zeros-IsPruned pre tail 33 0 y ys ones len (omega arith) (omega arith, p) (omega arith)
      (omega arith) small

take_past :
    (n : ℕ) (xs ys : List ℕ) (y : ℕ) → n ≡ length xs + 1 → take n (xs ++ (y ∷ ys)) ≡ xs ++ y ∷ []
take_past zero xs ys y e = absurd (omega arith)
take_past (suc zero) [] ys y e = refl
take_past (suc (suc n)) [] ys y e = absurd (omega arith)
take_past (suc n) (x ∷ xs) ys y e = ap (λ l. x ∷ l) (take_past n xs ys y (omega arith))

module _ (signature r s : List ℕ) (size : length signature ≡ 73) (num_r : IsNum256 r)
    (num_s : IsNum256 s) where
  abbrev head_s : List ℕ
  head_s = head signature ++ (0x21 ∷ ((0 ∷ reverse r) ++ 0x02 ∷ []))

  abbrev tail_r : List ℕ
  tail_r = tagged (integer s)

  reversed_size : (x : List ℕ) → IsNum256 x → (length (reverse x) ≡ 32) × IsBytes (reverse x)
  reversed_size x p = (length-reverse x ∙ p.0, IsBytes-reverse x p.1)

  head_s_size : length head_s + 1 ≡ s_offset
  head_s_size = omega (arith, length-append (reverse r) (0x02 ∷ []), (reversed_size r num_r).0)

  room_s :
      (bytes : List ℕ)
      → length bytes ≡ 32
      → length ((bytes ++ []) ++ 1 ∷ []) ≡ 72 - (length head_s + 1)
  room_s bytes e =
      omega (arith, length-append (bytes ++ []) (1 ∷ []), length-append bytes [], head_s_size)

  start_s : lay_out signature r s ≡ laid head_s [] (0 ∷ reverse s) 0
  start_s =
      lay_out-eq signature r s size num_r.0 num_s.0
      ∙ simp (append_assoc, (reversed_size s num_s).0) refl

  after_s : List ℕ × ℕ
  after_s = remove_zeros s_offset 33 (lay_out signature r s, 0x46)

  after_s-IsPruned : IsPruned head_s [] (0 ∷ reverse s) 0 0x46 after_s
  unfolding after_s
  after_s-IsPruned =
      rw (start_s, sym head_s_size)
        (pruned head_s [] (reverse s) 0 0x46 (reversed_size s num_s).0 (reversed_size s num_s).1
          (room_s (reverse s) (reversed_size s num_s).0) (omega arith) (omega arith))

  start_r : (k : ℕ) → laid head_s [] (integer s) k ≡ laid (head signature) tail_r (0 ∷ reverse r) k
  start_r k = simp (append_assoc, append-nil, (reversed_size r num_r).0) refl

  room_r :
      (bytes : List ℕ) (k : ℕ)
      → length bytes ≡ 32
      → length (integer s) + k ≡ 33
      → length ((bytes ++ tail_r) ++ replicate (suc k) 1) ≡ 72 - (3 + 1)
  room_r bytes k e e' = omega (
    arith,
    length-append (bytes ++ tail_r) (replicate (suc k) 1),
    length-append bytes tail_r,
    length-replicate {A = ℕ} (suc k) 1,
    (reversed_size s num_s).0,
  )

  -- The bytes of the signature before the hash type.
  abbrev body : List ℕ → ℕ → List ℕ
  body bytes n = 0x30 ∷ (n ∷ (0x02 ∷ (length bytes ∷ (bytes ++ tail_r))))

  after_r : List ℕ × ℕ
  after_r = remove_zeros r_offset 33 after_s

  after_r-IsPruned :
      (k : ℕ)
      → after_s.0 ≡ laid head_s [] (integer s) k
      → after_s.1 + k ≡ 0x46
      → length (integer s) + k ≡ 33
      → IsPruned (head signature) tail_r (0 ∷ reverse r) k after_s.1 after_r
  unfolding after_r
  after_r-IsPruned k e e' e'' =
      let pair : after_s ≡ (laid (head signature) tail_r (0 ∷ reverse r) k, after_s.1) =
        ap (λ l. (l, after_s.1)) (e ∙ start_r k) in
      rw pair (
        pruned (head signature) tail_r (reverse r) k after_s.1 (reversed_size r num_r).0
          (reversed_size r num_r).1 (room_r (reverse r) k (reversed_size r num_r).0 e'')
          (omega arith) (omega arith))

  -- `encapsulateSignature` leaves the DER form of the two numbers at the start of the buffer of 73
  -- bytes: each integer is its shortest big-endian form, with a leading zero where the top bit is
  -- set. It returns the length of that form, which fits in the buffer.
  pub encapsulate_signature-der :
      let (out, size_out) = encapsulate_signature signature r s in
      (take size_out out ≡ der r s) × (size_out ≡ length (der r s)) × (size_out ≤ 73)
  unfolding encapsulate_signature after_s after_r
  encapsulate_signature-der =
      let (k, s_laid, s_len, s_size) = after_s-IsPruned in
      let same : 0 + k ≡ k = omega arith in
      let (j, r_laid, r_len, r_size) =
        after_r-IsPruned k (s_laid ∙ ap (λ n. laid head_s [] (integer s) n) same) s_len
          (omega (arith, (reversed_size s num_s).0)) in
      let sequence : after_r.1 ≡ 4 + length (integer r) + length (integer s) =
        omega (arith, (reversed_size s num_s).0, (reversed_size r num_r).0) in
      let size_out : u8 (after_r.1 + 3) ≡ length (body (integer r) after_r.1) + 1 =
        omega (arith, length-append (integer r) tail_r) in
      let whole : length (der r s) ≡ length (body (integer r) after_r.1) + 1 =
        length-append (body (integer r) (4 + length (integer r) + length (integer s)))
          (0x01 ∷ []) in
      (
        ap (λ l. take (u8 (after_r.1 + 3)) (set (set l 0 0x30) 1 after_r.1)) r_laid
            ∙ take_past (u8 (after_r.1 + 3)) (body (integer r) after_r.1) (replicate (k + j) 1) 1
                size_out
            ∙ ap (λ n. body (integer r) n ++ 0x01 ∷ []) sequence,
        size_out ∙ sym whole,
        omega (arith, (reversed_size s num_s).0, (reversed_size r num_r).0),
      )
