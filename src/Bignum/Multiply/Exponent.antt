-- ===== src/Bignum/Multiply/Exponent.antt =====
-- bigInvert: the bytes and the leading bits of the exponent n - 2.
use hardware_bitcoin_wallet.Base.{
  ℕ, zero, suc, ◌+◌, ◌-◌, ◌*◌, ◌/◌, ◌≤◌, ◌≡◌, refl, arith, u8, List, [], ◌∷◌, val, length, get_or,
  drop, IsByte,
}

-- The bytes of n - 2, where the first byte of n is at least 2.
abbrev pub lowered : List ℕ → List ℕ
lowered [] = []
lowered (b ∷ bs) = (b - 2) ∷ bs

pub lowered_first :
    (xs : List ℕ)
    → 2 ≤ get_or xs 0 0
    → IsByte (get_or xs 0 0)
    → u8 (get_or xs 0 0 + 256 - 2) ≡ get_or (lowered xs) 0 0
lowered_first [] h p = absurd (omega arith)
lowered_first (x ∷ xs) h p = omega arith

pub get_or-lowered : (xs : List ℕ) (i : ℕ) → get_or xs (suc i) 0 ≡ get_or (lowered xs) (suc i) 0
get_or-lowered [] i = refl
get_or-lowered (x ∷ xs) i = refl

pub val-lowered : (xs : List ℕ) → 2 ≤ get_or xs 0 0 → val (lowered xs) ≡ val xs - 2
val-lowered [] h = omega arith
val-lowered (x ∷ xs) h = omega arith

pub val-drop : (xs : List ℕ) (i : ℕ) → val (drop i xs) ≡ 256 * val (drop (suc i) xs) + get_or xs i 0
val-drop [] zero = omega arith
val-drop [] (suc i) = omega arith
val-drop (x ∷ xs) zero = omega arith
val-drop (x ∷ xs) (suc i) = val-drop xs i

pub drop_all : (i : ℕ) (xs : List ℕ) → length xs ≤ i → val (drop i xs) ≡ 0
drop_all zero [] h = refl
drop_all zero (x ∷ xs) h = absurd (omega arith)
drop_all (suc i) [] h = refl
drop_all (suc i) (x ∷ xs) h = drop_all i xs (omega arith)

pub length-lowered : (xs : List ℕ) → length (lowered xs) ≡ length xs
length-lowered [] = refl
length-lowered (x ∷ xs) = refl

-- The number without its last `j` bits.
unfoldable pub halved : ℕ → ℕ → ℕ
halved zero e = e
halved (suc j) e = halved j (e / 2)

pub halved-add : (i j e : ℕ) → halved (i + j) e ≡ halved j (halved i e)
unfolding halved
halved-add zero j e = let same : 0 + j ≡ j = omega arith in rw same refl
halved-add (suc i) j e =
    let next : suc i + j ≡ suc (i + j) = omega arith in rw next (halved-add i j (e / 2))
