-- ===== src/Aes/Tables.antt =====
-- The tables of aes.c: they hold bytes, and the second inverts the first.
use hardware_bitcoin_wallet.Base.{
  ℕ, ◌≡◌, refl, ap₂, List, [], ◌∷◌, get_or, Bool, true, ltb, ltb→lt, ◌==◌, ◌&&◌, ==_iff, IsByte,
  IsBytes, get_or-IsByte,
}
use mathlib.Core.Bool.{and-eq-true_iff}
use hardware_bitcoin_wallet.Aes.Field.{every, every_at}
use hardware_bitcoin_wallet.Aes.{sbox, inv_sbox, restore}

sbox_test :
    every (λ a. ltb (get_or sbox a 0) 256 && (get_or inv_sbox (get_or sbox a 0) 0 == a)) 256 ≡ true
unfolding every sbox inv_sbox
sbox_test = refl

sbox-inverse : (a : ℕ) → IsByte a → get_or inv_sbox (get_or sbox a 0) 0 ≡ a
sbox-inverse a p = (==_iff _ _).0 ((and-eq-true_iff _ _).0 (every_at _ 256 a sbox_test p)).1

unfoldable pub are_bytes : List ℕ → Bool
are_bytes [] = true
are_bytes (b ∷ bs) = ltb b 256 && are_bytes bs

pub are_bytes→IsBytes : (bs : List ℕ) → are_bytes bs ≡ true → IsBytes bs
unfolding are_bytes
are_bytes→IsBytes [] e = tt
are_bytes→IsBytes (b ∷ bs) e =
    let both = (and-eq-true_iff _ _).0 e in (ltb→lt b 256 both.0, are_bytes→IsBytes bs both.1)

sbox-IsBytes : IsBytes sbox
unfolding sbox are_bytes
sbox-IsBytes = are_bytes→IsBytes sbox refl

pub sbox-IsByte : (a : ℕ) → IsByte (get_or sbox a 0)
sbox-IsByte a = get_or-IsByte sbox a sbox-IsBytes

inv_sbox-IsBytes : IsBytes inv_sbox
unfolding inv_sbox are_bytes
inv_sbox-IsBytes = are_bytes→IsBytes inv_sbox refl

pub inv_sbox-IsByte : (a : ℕ) → IsByte (get_or inv_sbox a 0)
inv_sbox-IsByte a = get_or-IsByte inv_sbox a inv_sbox-IsBytes

-- Every byte through the first table.
unfoldable pub substitute_all : List ℕ → List ℕ
substitute_all [] = []
substitute_all (b ∷ bs) = get_or sbox b 0 ∷ substitute_all bs

pub restore-substitute_all : (bs : List ℕ) → IsBytes bs → restore (substitute_all bs) ≡ bs
unfolding restore substitute_all
restore-substitute_all [] p = refl
restore-substitute_all (b ∷ bs) p = ap₂ (◌∷◌) (sbox-inverse b p.0) (restore-substitute_all bs p.1)
