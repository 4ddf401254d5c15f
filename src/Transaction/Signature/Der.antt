-- ===== src/Transaction/Signature/Der.antt =====
-- encapsulateSignature: both integers come out in the shortest form that DER allows.
use hardware_bitcoin_wallet.Base.{
  ℕ, zero, suc, ◌+◌, ◌-◌, ◌<◌, ◌≤◌, ◌≡◌, refl, ◌∙◌, sym, ap, ap₂, arith, bit_and, u8, List, [], ◌∷◌,
  get_or, set, ◌++◌, append_assoc, replicate, length, length-append, Bool, true, false, ◌&&◌, ◌==◌,
  ltb, if◌then◌else◌, IsByte, IsBytes,
}
use hardware_bitcoin_wallet.Base.Bits.{bit_and_top_bit}
use hardware_bitcoin_wallet.Transaction.Signature.{move_down, remove_zeros}

get_or-middle : (pre post : List ℕ) (x : ℕ) → get_or (pre ++ x ∷ post) (length pre) 0 ≡ x
get_or-middle [] post x = refl
get_or-middle (a ∷ pre) post x = get_or-middle pre post x

set-middle : (pre post : List ℕ) (x y : ℕ) → set (pre ++ x ∷ post) (length pre) y ≡ pre ++ y ∷ post
set-middle [] post x y = refl
set-middle (a ∷ pre) post x y = ap (λ l. a ∷ l) (set-middle pre post x y)

snoc : (pre post : List ℕ) (x : ℕ) → (pre ++ x ∷ []) ++ post ≡ pre ++ (x ∷ post)
snoc pre post x = append_assoc pre (x ∷ []) post

snoc_size : (pre : List ℕ) (x : ℕ) → length (pre ++ x ∷ []) ≡ length pre + 1
snoc_size pre x = length-append pre (x ∷ [])

get_or-next :
    (pre post : List ℕ) (x y : ℕ) → get_or (pre ++ (x ∷ (y ∷ post))) (length pre + 1) 0 ≡ y
get_or-next pre post x y =
    ap₂ (λ l i. get_or l i 0) (sym (snoc pre (y ∷ post) x)) (sym (snoc_size pre x))
    ∙ get_or-middle (pre ++ x ∷ []) post y

-- The bytes after the first, and the last once more.
abbrev pub moved_down : ℕ → List ℕ → List ℕ
moved_down x [] = x ∷ []
moved_down x (y ∷ ys) = y ∷ moved_down y ys

move_down-eq :
    (ys pre : List ℕ) (x : ℕ)
    → move_down (length ys) (length pre) (pre ++ (x ∷ ys)) ≡ pre ++ moved_down x ys
unfolding move_down
move_down-eq [] pre x = refl
move_down-eq (y ∷ ys) pre x =
    ap (λ v. move_down (length ys) (length pre + 1) (set (pre ++ (x ∷ (y ∷ ys))) (length pre) v))
      (get_or-next pre ys x y)
    ∙ ap (λ l. move_down (length ys) (length pre + 1) l) (set-middle pre (y ∷ ys) x y)
    ∙ ap₂ (λ i l. move_down (length ys) i l) (sym (snoc_size pre y)) (sym (snoc pre (y ∷ ys) y))
    ∙ move_down-eq ys (pre ++ y ∷ []) y
    ∙ snoc pre (moved_down y ys) y

moved_down-ones : (n : ℕ) → moved_down 1 (replicate n 1) ≡ replicate (suc n) 1
moved_down-ones zero = refl
moved_down-ones (suc n) = ap (λ l. 1 ∷ l) (moved_down-ones n)

moved_down-replicate :
    (x n : ℕ) (ys : List ℕ)
    → moved_down x (ys ++ replicate (suc n) 1) ≡ ys ++ replicate (suc (suc n)) 1
moved_down-replicate x n [] = ap (λ l. 1 ∷ l) (moved_down-ones n)
moved_down-replicate x n (y ∷ ys) = ap (λ l. y ∷ l) (moved_down-replicate y n ys)

-- The length byte falls by one.
shrink :
    (pre rest : List ℕ) (n : ℕ)
    → n < 256
    → set
        (pre ++ (suc n ∷ rest))
        (length pre)
        (u8 (get_or (pre ++ (suc n ∷ rest)) (length pre) 0 + 255))
      ≡ pre ++ (n ∷ rest)
shrink pre rest n h =
    let less : u8 (suc n + 255) ≡ n = omega arith in
    rw (get_or-middle pre rest (suc n), less) (set-middle pre rest (suc n) n)

-- The shortest big-endian form of a number that is not negative: a leading zero stays only before
-- a byte whose top bit is set.
abbrev pub shortest : List ℕ → List ℕ
shortest (x ∷ (y ∷ ys)) =
    let rest = shortest (y ∷ ys) in if (x == 0) && (ltb y 128) then rest else x ∷ (y ∷ ys)
shortest bytes = bytes

top_bit : (y : ℕ) → IsByte y → (bit_and y 0x80 == 0) ≡ ltb y 128
top_bit y h = rw (bit_and_top_bit y h) (ground arith)

one_more :
    (xs : List ℕ) (n : ℕ) → length (xs ++ replicate (suc n) 1) ≡ suc (length (xs ++ replicate n 1))
one_more xs n =
    omega (arith, length-append xs (replicate (suc n) 1), length-append xs (replicate n 1))

-- An integer in the signature: its length byte stands after `pre`, other bytes after it, and then
-- ones up to the end.
module _ (pre tail : List ℕ) where
  abbrev pub laid : List ℕ → ℕ → List ℕ
  laid digits ones = pre ++ (length digits ∷ ((digits ++ tail) ++ replicate (suc ones) 1))

  abbrev at : ℕ
  at = length pre + 1

  laid-snoc :
      (digits : List ℕ) (ones : ℕ)
      → (pre ++ length digits ∷ []) ++ ((digits ++ tail) ++ replicate (suc ones) 1)
        ≡ laid digits ones
  laid-snoc digits ones = snoc pre ((digits ++ tail) ++ replicate (suc ones) 1) (length digits)

  -- What the loop tests.
  first_digit : (x : ℕ) (xs : List ℕ) (ones : ℕ) → get_or (laid (x ∷ xs) ones) at 0 ≡ x
  first_digit x xs ones = get_or-next pre _ (length (x ∷ xs)) x

  second_digit :
      (x y : ℕ) (ys : List ℕ) (ones : ℕ) → get_or (laid (x ∷ (y ∷ ys)) ones) (at + 1) 0 ≡ y
  second_digit x y ys ones =
      ap₂ (λ l i. get_or l i 0) (sym (laid-snoc (x ∷ (y ∷ ys)) ones))
        (ap (λ i. i + 1) (sym (snoc_size pre (length (x ∷ (y ∷ ys))))))
      ∙ get_or-next (pre ++ length (x ∷ (y ∷ ys)) ∷ []) _ x y

  -- One removal.
  removed :
      (x : ℕ) (ys : List ℕ) (ones : ℕ)
      → length ((ys ++ tail) ++ replicate (suc ones) 1) ≡ 72 - at
      → length ys < 256
      → let moved = move_down (72 - at) at (laid (x ∷ ys) ones) in
        set moved (at - 1) (u8 (get_or moved (at - 1) 0 + 255)) ≡ laid ys (suc ones)
  removed x ys ones size h =
      let digits : List ℕ = x ∷ ys in
      let body : List ℕ = (ys ++ tail) ++ replicate (suc ones) 1 in
      let head : List ℕ = pre ++ length digits ∷ [] in
      let moved : move_down (72 - at) at (laid digits ones)
          ≡ pre ++ (suc (length ys) ∷ ((ys ++ tail) ++ replicate (suc (suc ones)) 1)) =
        ap₂ (λ n l. move_down n at l) (sym size) (sym (laid-snoc digits ones))
        ∙ ap (λ i. move_down (length body) i (head ++ (x ∷ body)))
            (sym (snoc_size pre (length digits)))
        ∙ move_down-eq body head x
        ∙ ap (λ l. head ++ l) (moved_down-replicate x ones (ys ++ tail))
        ∙ snoc pre ((ys ++ tail) ++ replicate (suc (suc ones)) 1) (length digits) in
      let back : at - 1 ≡ length pre = omega arith in
      rw (moved, back) (shrink pre ((ys ++ tail) ++ replicate (suc (suc ones)) 1) (length ys) h)

  -- The loop has removed `k` zeros, and the integer is in its shortest form.
  abbrev pub IsPruned : List ℕ → ℕ → ℕ → List ℕ × ℕ → Type 0
  IsPruned digits ones sequence_length out =
      (k : ℕ) × (out.0 ≡ laid (shortest digits) (ones + k))
      × (out.1 + k ≡ sequence_length)
      × (length (shortest digits) + k ≡ length digits)

  kept_or_removed :
      (b : Bool) (x y : ℕ) (ys : List ℕ) (ones len : ℕ) (inner : List ℕ × ℕ)
      → 1 ≤ len
      → IsPruned (y ∷ ys) (suc ones) (len - 1) inner
      → let out : List ℕ × ℕ = if b then inner else (laid (x ∷ (y ∷ ys)) ones, len) in
        let digits : List ℕ = if b then shortest (y ∷ ys) else x ∷ (y ∷ ys) in
        (k : ℕ) × (out.0 ≡ laid digits (ones + k))
        × (out.1 + k ≡ len)
        × (length digits + k ≡ suc (suc (length ys)))
  kept_or_removed true x y ys ones len inner h p =
      let ones_more : suc ones + p.0 ≡ ones + suc p.0 = omega arith in
      (
        suc p.0,
        p.1 ∙ ap (λ n. laid (shortest (y ∷ ys)) n) ones_more,
        omega (arith, p.2),
        omega (arith, p.3),
      )
  kept_or_removed false x y ys ones len inner h p =
      let same : ones ≡ ones + 0 = omega arith in
      (0, ap (λ n. laid (x ∷ (y ∷ ys)) n) same, omega arith, omega arith)

  -- The `break` where one byte is left.
  one_left :
      (y : ℕ) (ys : List ℕ) (ones len : ℕ) (rest : List ℕ × ℕ)
      → (0 < length ys → IsPruned (y ∷ ys) ones len rest)
      → IsPruned
          (y ∷ ys)
          ones
          len
          (if get_or (laid (y ∷ ys) ones) (at - 1) 0 == 1 then (laid (y ∷ ys) ones, len) else rest)
  one_left y ys ones len rest h =
      let back : at - 1 ≡ length pre = omega arith in
      let size : get_or (laid (y ∷ ys) ones) (at - 1) 0 ≡ suc (length ys) =
        ap (λ i. get_or (laid (y ∷ ys) ones) i 0) back
        ∙ get_or-middle pre (((y ∷ ys) ++ tail) ++ replicate (suc ones) 1) (suc (length ys)) in
      rw size (by_size ys h)
    where
      by_size :
          (zs : List ℕ)
          → (0 < length zs → IsPruned (y ∷ zs) ones len rest)
          → IsPruned
              (y ∷ zs)
              ones
              len
              (if suc (length zs) == 1 then (laid (y ∷ zs) ones, len) else rest)
      by_size [] g =
          let same : ones ≡ ones + 0 = omega arith in
          (0, ap (λ n. laid (y ∷ []) n) same, omega arith, refl)
      by_size (z ∷ zs) g =
          let more : (suc (suc (length zs)) == 1) ≡ false = ground arith in
          rw more (g (omega arith))

  -- Where the signature has an integer of at least two bytes, with ones behind the other bytes up
  -- to its end, the loop of `encapsulateSignature` that removes leading zeros ends with the
  -- shortest form of the integer, its length byte and the length of the sequence less by the number
  -- of bytes removed, and the other bytes moved down behind it.
  pub remove_zeros-IsPruned :
      (rounds x y : ℕ) (ys : List ℕ) (ones sequence_length : ℕ)
      → length ys < rounds
      → IsBytes (x ∷ (y ∷ ys))
      → length ((ys ++ tail) ++ replicate (suc ones) 1) + 1 ≡ 72 - at
      → length ys + 2 ≤ sequence_length
      → sequence_length < 256
      → IsPruned
          (x ∷ (y ∷ ys))
          ones
          sequence_length
          (remove_zeros at rounds (laid (x ∷ (y ∷ ys)) ones, sequence_length))
  unfolding remove_zeros
  remove_zeros-IsPruned zero x y ys ones len h p size room small = absurd (omega arith)
  remove_zeros-IsPruned (suc rounds) x y ys ones len h p size room small =
      let less : u8 (len + 255) ≡ len - 1 = omega arith in
      let step = removed x (y ∷ ys) ones (omega arith) (omega arith) in
      let back : at - 1 ≡ length pre = omega arith in
      rw (first_digit x (y ∷ ys) ones, second_digit x y ys ones, top_bit y p.1.0, step, less)
        (kept_or_removed _ x y ys ones len _ (omega arith) (
          one_left y ys (suc ones) (len - 1) _ (
            further ys (λ z zs. remove_zeros-IsPruned rounds y z zs (suc ones) (len - 1)) p h size
              room)))
    where
      further :
          (zs : List ℕ)
          → ((z : ℕ) (zs' : List ℕ)
              → length zs' < rounds
              → IsBytes (y ∷ (z ∷ zs'))
              → length ((zs' ++ tail) ++ replicate (suc (suc ones)) 1) + 1 ≡ 72 - at
              → length zs' + 2 ≤ len - 1
              → len - 1 < 256
              → IsPruned
                  (y ∷ (z ∷ zs'))
                  (suc ones)
                  (len - 1)
                  (remove_zeros at rounds (laid (y ∷ (z ∷ zs')) (suc ones), len - 1)))
          → IsBytes (x ∷ (y ∷ zs))
          → length zs < suc rounds
          → length ((zs ++ tail) ++ replicate (suc ones) 1) + 1 ≡ 72 - at
          → length zs + 2 ≤ len
          → 0 < length zs
          → IsPruned
              (y ∷ zs)
              (suc ones)
              (len - 1)
              (remove_zeros at rounds (laid (y ∷ zs) (suc ones), len - 1))
      further [] ih p h size room g = absurd (omega arith)
      further (z ∷ zs) ih p h size room g =
          ih z zs (omega arith) p.1 (omega (arith, one_more (zs ++ tail) (suc ones))) (omega arith)
            (omega arith)
