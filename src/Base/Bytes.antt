-- ===== src/Base/Bytes.antt =====
-- Arrays of `uint8_t`, and the number that such an array stands for when its least significant
-- byte comes first.
use Prim.Native.Nat.{ℕ, zero, suc, ◌+◌, ◌*◌, ◌<◌, ◌≤◌}
use mathlib.Core.Path.{◌≡◌, refl}
use mathlib.Core.List.{List, [], ◌∷◌, ◌++◌, reverse, reverse-append}
use native.Mathlib.Omega.{arith}
use hardware_bitcoin_wallet.Base.Lists.{length, get_or, take, drop, replicate, overwrite}
use hardware_bitcoin_wallet.Base.Word.{IsByte}

-- Every element is below 256.
abbrev pub IsBytes : List ℕ → Type 0
IsBytes [] = Unit
IsBytes (x ∷ xs) = IsByte x × IsBytes xs

-- `radix n` is 256 ^ n.
abbrev pub radix : ℕ → ℕ
radix zero = 1
radix (suc n) = 256 * radix n

-- The number that the bytes stand for, least significant byte first.
abbrev pub val : List ℕ → ℕ
val [] = 0
val (x ∷ xs) = x + 256 * val xs

pub IsBytes-append : (xs ys : List ℕ) → IsBytes xs → IsBytes ys → IsBytes (xs ++ ys)
IsBytes-append [] ys p q = q
IsBytes-append (x ∷ xs) ys p q = (p.0, IsBytes-append xs ys p.1 q)

pub IsBytes-reverse : (xs : List ℕ) → IsBytes xs → IsBytes (reverse xs)
IsBytes-reverse [] p = tt
IsBytes-reverse (x ∷ xs) p =
    rw (reverse-append (x ∷ []) xs)
      (IsBytes-append (reverse xs) (x ∷ []) (IsBytes-reverse xs p.1) (p.0, tt))

pub IsBytes-take : (n : ℕ) (xs : List ℕ) → IsBytes xs → IsBytes (take n xs)
IsBytes-take zero xs p = tt
IsBytes-take (suc n) [] p = tt
IsBytes-take (suc n) (x ∷ xs) p = (p.0, IsBytes-take n xs p.1)

pub IsBytes-drop : (n : ℕ) (xs : List ℕ) → IsBytes xs → IsBytes (drop n xs)
IsBytes-drop zero xs p = p
IsBytes-drop (suc n) [] p = tt
IsBytes-drop (suc n) (x ∷ xs) p = IsBytes-drop n xs p.1

pub IsBytes-replicate : (n : ℕ) (b : ℕ) → IsByte b → IsBytes (replicate n b)
IsBytes-replicate zero b p = tt
IsBytes-replicate (suc n) b p = (p, IsBytes-replicate n b p)

pub val-lt-radix : (xs : List ℕ) → IsBytes xs → val xs < radix (length xs)
val-lt-radix [] p = omega arith
val-lt-radix (x ∷ xs) p = omega (arith, val-lt-radix xs p.1)

pub radix-pos : (n : ℕ) → 0 < radix n
radix-pos zero = omega arith
radix-pos (suc n) = omega (arith, radix-pos n)

pub radix-add : (m n : ℕ) → radix (m + n) ≡ radix m * radix n
radix-add zero n = ground arith
radix-add (suc m) n =
    let e : suc m + n ≡ suc (m + n) = omega arith in rw e (omega (arith, radix-add m n))

pub val-append : (xs ys : List ℕ) → val (xs ++ ys) ≡ val xs + radix (length xs) * val ys
val-append [] ys = omega arith
val-append (x ∷ xs) ys = omega (arith, val-append xs ys)

pub val-replicate_zero : (n : ℕ) → val (replicate n 0) ≡ 0
val-replicate_zero zero = refl
val-replicate_zero (suc n) = omega (arith, val-replicate_zero n)

-- Two byte arrays of one length that stand for one number are equal.
pub val-injective :
    (xs ys : List ℕ) → IsBytes xs → IsBytes ys → length xs ≡ length ys → val xs ≡ val ys → xs ≡ ys
val-injective [] [] p q e v = refl
val-injective [] (y ∷ ys) p q e v = absurd (omega arith)
val-injective (x ∷ xs) [] p q e v = absurd (omega arith)
val-injective (x ∷ xs) (y ∷ ys) p q e v = ground (arith, val-injective xs ys, val-lt-radix xs p.1)

pub radix_mono : (k m : ℕ) → k ≤ m → radix k ≤ radix m
radix_mono zero m h = radix-pos m
radix_mono (suc k) zero h = absurd (omega arith)
radix_mono (suc k) (suc m) h = omega (arith, radix_mono k m (omega arith))

-- Bytes beyond the size of the number are 0, and may be left off or written over.
pub val-take : (k : ℕ) (xs : List ℕ) → val xs < radix k → val (take k xs) ≡ val xs
val-take zero xs h = omega arith
val-take (suc k) [] h = refl
val-take (suc k) (x ∷ xs) h = omega (arith, val-take k xs (omega arith))

pub val-overwrite :
    (xs bs : List ℕ)
    → val xs < radix (length bs)
    → length bs ≤ length xs
    → val (overwrite xs bs) ≡ val bs
val-overwrite [] [] h k = refl
val-overwrite [] (b ∷ bs) h k = absurd (omega arith)
val-overwrite (x ∷ xs) [] h k = omega arith
val-overwrite (x ∷ xs) (b ∷ bs) h k = omega (arith, val-overwrite xs bs (omega arith) (omega arith))

pub IsBytes-overwrite : (xs bs : List ℕ) → IsBytes xs → IsBytes bs → IsBytes (overwrite xs bs)
IsBytes-overwrite [] bs p q = tt
IsBytes-overwrite (x ∷ xs) [] p q = p
IsBytes-overwrite (x ∷ xs) (b ∷ bs) p q = (q.0, IsBytes-overwrite xs bs p.1 q.1)

-- The number is that of the first `k` bytes and 256 ^ k times that of the rest.
pub val-take-drop :
    (k : ℕ) (xs : List ℕ) → k ≤ length xs → val xs ≡ val (take k xs) + radix k * val (drop k xs)
val-take-drop zero xs h = omega arith
val-take-drop (suc k) [] h = absurd (omega arith)
val-take-drop (suc k) (x ∷ xs) h = omega (arith, val-take-drop k xs (omega arith))

pub get_or-IsByte : (xs : List ℕ) (i : ℕ) → IsBytes xs → IsByte (get_or xs i 0)
get_or-IsByte [] i p = omega arith
get_or-IsByte (x ∷ xs) zero p = p.0
get_or-IsByte (x ∷ xs) (suc i) p = get_or-IsByte xs i p.1

pub val-take-suc :
    (i : ℕ) (xs : List ℕ) → val (take (suc i) xs) ≡ val (take i xs) + radix i * get_or xs i 0
val-take-suc zero [] = omega arith
val-take-suc (suc i) [] = omega arith
val-take-suc zero (x ∷ xs) = omega arith
val-take-suc (suc i) (x ∷ xs) = omega (arith, val-take-suc i xs)
