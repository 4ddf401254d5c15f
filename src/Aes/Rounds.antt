-- ===== src/Aes/Rounds.antt =====
-- aes.c: each step of a round and its inverse, and the rounds.
use hardware_bitcoin_wallet.Base.{
  ℕ, zero, suc, ◌≡◌, refl, sym, ap, ◌∙◌, arith, List, [], ◌∷◌, ◌++◌, length, get_or, drop,
  replicate, IsByte, IsBytes, IsBytes-append,
}
use mathlib.Core.Path.{subst}
use hardware_bitcoin_wallet.Base.Xor.{bit_xor_bound}
use hardware_bitcoin_wallet.Xex.{xor_16_bytes}
use hardware_bitcoin_wallet.Xex.Laws.{IsBlock, xor-length, xor-IsBytes}
use hardware_bitcoin_wallet.Aes.Field.{double-IsByte}
use hardware_bitcoin_wallet.Aes.Tables.{
  sbox-IsByte, inv_sbox-IsByte, substitute_all, restore-substitute_all,
}
use hardware_bitcoin_wallet.Aes.Columns.{unmixed-mixed}
use hardware_bitcoin_wallet.Aes.{
  sbox, x_times_3_in_gf, substitute, exchange_row, exchange_rows, shift_or_inv_shift_rows, advance,
  mixed, mix_loop, mix_sub_columns, unmixed, unmix_loop, restore, inv_mix_sub_columns,
}

substitute_all-IsBytes : (bs : List ℕ) → IsBytes (substitute_all bs)
unfolding substitute_all
substitute_all-IsBytes [] = tt
substitute_all-IsBytes (b ∷ bs) = (sbox-IsByte b, substitute_all-IsBytes bs)

restore-IsBytes : (bs : List ℕ) → IsBytes (restore bs)
unfolding restore
restore-IsBytes [] = tt
restore-IsBytes (b ∷ bs) = (inv_sbox-IsByte b, restore-IsBytes bs)

length-restore : (bs : List ℕ) → length (restore bs) ≡ length bs
unfolding restore
length-restore [] = refl
length-restore (b ∷ bs) = ap suc (length-restore bs)

restore-IsBlock : (bs : List ℕ) → length bs ≡ 16 → IsBlock (restore bs)
restore-IsBlock bs e = record { sized = length-restore bs ∙ e; bytes = restore-IsBytes bs }

-- The bytes that `mixSubColumns` stores, and those that `invMixSubColumns` takes back.
mixed-IsByte :
    (a b c d : ℕ)
    → IsByte (mixed (get_or sbox a 0) (get_or sbox b 0) (get_or sbox c 0) (get_or sbox d 0))
unfolding mixed x_times_3_in_gf
mixed-IsByte a b c d =
    let b' = sbox-IsByte b in
    let thrice = bit_xor_bound 8 _ _ (double-IsByte (get_or sbox b 0)) b' in
    let both = bit_xor_bound 8 _ _ (double-IsByte (get_or sbox a 0)) thrice in
    bit_xor_bound 8 _ _ (bit_xor_bound 8 _ _ both (sbox-IsByte c)) (sbox-IsByte d)

-- One column of the result of `mixSubColumns`.
abbrev mixed_column : ℕ → ℕ → ℕ → ℕ → List ℕ
mixed_column a b c d =
    let a' = get_or sbox a 0 in
    let b' = get_or sbox b 0 in
    let c' = get_or sbox c 0 in
    let d' = get_or sbox d 0 in
    mixed a' b' c' d' ∷ mixed b' c' d' a' ∷ mixed c' d' a' b' ∷ mixed d' a' b' c' ∷ []

mixed_column-IsBytes : (a b c d : ℕ) → IsBytes (mixed_column a b c d)
mixed_column-IsBytes a b c d = (
  mixed-IsByte a b c d,
  (mixed-IsByte b c d a, (mixed-IsByte c d a b, (mixed-IsByte d a b c, tt))),
)

taken_back :
    (a b c d : ℕ)
    → let a' = get_or sbox a 0 in
      let b' = get_or sbox b 0 in
      let c' = get_or sbox c 0 in
      let d' = get_or sbox d 0 in
      unmixed (mixed a' b' c' d') (mixed b' c' d' a') (mixed c' d' a' b') (mixed d' a' b' c') ≡ a'
taken_back a b c d =
    unmixed-mixed _ _ _ _ (sbox-IsByte a) (sbox-IsByte b) (sbox-IsByte c) (sbox-IsByte d)

-- A list of n numbers, by its elements.
spread : ℕ → List ℕ → List ℕ
spread zero xs = []
spread (suc n) xs = get_or xs 0 0 ∷ spread n (drop 1 xs)

spread_lem : (n : ℕ) (xs : List ℕ) → length xs ≡ n → xs ≡ spread n xs
unfolding spread
spread_lem zero [] e = refl
spread_lem zero (x ∷ xs) e = absurd (omega (arith, e))
spread_lem (suc n) [] e = absurd (omega (arith, e))
spread_lem (suc n) (x ∷ xs) e = ap (◌∷◌ x) (spread_lem n xs (omega (arith, e)))

module _ (a b c d e f g h i j k l m n o p : ℕ) where
  abbrev sixteen : List ℕ
  sixteen = a ∷ b ∷ c ∷ d ∷ e ∷ f ∷ g ∷ h ∷ i ∷ j ∷ k ∷ l ∷ m ∷ n ∷ o ∷ p ∷ []

  shift_back :
      IsBytes sixteen → shift_or_inv_shift_rows (shift_or_inv_shift_rows sixteen 5) 13 ≡ sixteen
  unfolding shift_or_inv_shift_rows exchange_rows exchange_row substitute substitute_all restore
  shift_back all = restore-substitute_all sixteen all

  shift-IsBytes : IsBytes (shift_or_inv_shift_rows sixteen 5)
  unfolding shift_or_inv_shift_rows exchange_rows exchange_row substitute substitute_all
  shift-IsBytes =
      substitute_all-IsBytes (a ∷ f ∷ k ∷ p ∷ e ∷ j ∷ o ∷ d ∷ i ∷ n ∷ c ∷ h ∷ m ∷ b ∷ g ∷ l ∷ [])

  shift_back-IsBytes : IsBytes (shift_or_inv_shift_rows sixteen 13)
  unfolding shift_or_inv_shift_rows exchange_rows exchange_row substitute restore
  shift_back-IsBytes =
      restore-IsBytes (a ∷ n ∷ k ∷ h ∷ e ∷ b ∷ o ∷ l ∷ i ∷ f ∷ c ∷ p ∷ m ∷ j ∷ g ∷ d ∷ [])

  shift_back_sized : length (shift_or_inv_shift_rows sixteen 13) ≡ 16
  unfolding shift_or_inv_shift_rows exchange_rows exchange_row
  shift_back_sized = refl

  unmix_sized :
      length
        (unmix_loop 16 0 0 (record { o1 = 0; o2 = 1; o3 = 2; o4 = 3 }) sixteen (replicate 16 0))
      ≡ 16
  unfolding unmix_loop advance
  unmix_sized = refl

  shift_sized : length (shift_or_inv_shift_rows sixteen 5) ≡ 16
  unfolding shift_or_inv_shift_rows exchange_rows exchange_row
  shift_sized = refl

  mix_sized : length (mix_sub_columns sixteen) ≡ 16
  unfolding mix_sub_columns mix_loop advance
  mix_sized = refl

  mix-IsBytes : IsBytes (mix_sub_columns sixteen)
  unfolding mix_sub_columns mix_loop advance
  mix-IsBytes =
      let two = mixed_column i n c h ++ mixed_column m b g l in
      let three = mixed_column e j o d ++ two in
      let two-IsBytes =
        IsBytes-append (mixed_column i n c h) (mixed_column m b g l) (mixed_column-IsBytes i n c h)
          (mixed_column-IsBytes m b g l) in
      let three-IsBytes =
        IsBytes-append (mixed_column e j o d) two (mixed_column-IsBytes e j o d) two-IsBytes in
      IsBytes-append (mixed_column a f k p) three (mixed_column-IsBytes a f k p) three-IsBytes

  mix_back : IsBytes sixteen → inv_mix_sub_columns (mix_sub_columns sixteen) ≡ sixteen
  unfolding mix_sub_columns mix_loop advance inv_mix_sub_columns unmix_loop substitute_all
  mix_back all =
      ap restore (
        rw
          (
            taken_back a f k p,
            taken_back b g l m,
            taken_back c h i n,
            taken_back d e j o,
            taken_back e j o d,
            taken_back f k p a,
            taken_back g l m b,
            taken_back h i n c,
            taken_back i n c h,
            taken_back j o d e,
            taken_back k p a f,
            taken_back l m b g,
            taken_back m b g l,
            taken_back n c h i,
            taken_back o d e j,
            taken_back p a f k,
          )
          refl)
      ∙ restore-substitute_all sixteen all

-- What holds of a list of sixteen elements holds of a block.
by_elements :
    (P : List ℕ → Type 0)
    → ((a b c d e f g h i j k l m n o p : ℕ) → P (sixteen a b c d e f g h i j k l m n o p))
    → (bs : List ℕ) → length bs ≡ 16
    → P bs
unfolding spread
by_elements P f bs e = subst P (sym (spread_lem 16 bs e)) (f _ _ _ _ _ _ _ _ _ _ _ _ _ _ _ _)

pub shift-shift :
    (bs : List ℕ) → IsBlock bs → shift_or_inv_shift_rows (shift_or_inv_shift_rows bs 5) 13 ≡ bs
shift-shift bs h =
    by_elements (λ xs. IsBytes xs → shift_or_inv_shift_rows (shift_or_inv_shift_rows xs 5) 13 ≡ xs)
      shift_back bs h.sized h.bytes

pub inv_mix-mix : (bs : List ℕ) → IsBlock bs → inv_mix_sub_columns (mix_sub_columns bs) ≡ bs
inv_mix-mix bs h =
    by_elements (λ xs. IsBytes xs → inv_mix_sub_columns (mix_sub_columns xs) ≡ xs) mix_back bs
      h.sized h.bytes

pub shift-IsBlock : (bs : List ℕ) → IsBlock bs → IsBlock (shift_or_inv_shift_rows bs 5)
shift-IsBlock bs h = record {
  sized = by_elements (λ xs. length (shift_or_inv_shift_rows xs 5) ≡ 16) shift_sized bs h.sized;
  bytes = by_elements (λ xs. IsBytes (shift_or_inv_shift_rows xs 5)) shift-IsBytes bs h.sized;
}

pub shift_back-IsBlock : (bs : List ℕ) → IsBlock bs → IsBlock (shift_or_inv_shift_rows bs 13)
shift_back-IsBlock bs h = record {
  sized =
      by_elements (λ xs. length (shift_or_inv_shift_rows xs 13) ≡ 16) shift_back_sized bs h.sized;
  bytes = by_elements (λ xs. IsBytes (shift_or_inv_shift_rows xs 13)) shift_back-IsBytes bs h.sized;
}

pub inv_mix-IsBlock : (bs : List ℕ) → IsBlock bs → IsBlock (inv_mix_sub_columns bs)
unfolding inv_mix_sub_columns
inv_mix-IsBlock bs h = restore-IsBlock _ (
    by_elements
      (λ xs.
        length (unmix_loop 16 0 0 (record { o1 = 0; o2 = 1; o3 = 2; o4 = 3 }) xs (replicate 16 0))
        ≡ 16)
      unmix_sized bs h.sized)

pub mix-IsBlock : (bs : List ℕ) → IsBlock bs → IsBlock (mix_sub_columns bs)
mix-IsBlock bs h = record {
  sized = by_elements (λ xs. length (mix_sub_columns xs) ≡ 16) mix_sized bs h.sized;
  bytes = by_elements (λ xs. IsBytes (mix_sub_columns xs)) mix-IsBytes bs h.sized;
}

pub xor-IsBlock : (bs key : List ℕ) → IsBlock bs → IsBytes key → IsBlock (xor_16_bytes bs key)
xor-IsBlock bs key h k = record {
  sized = xor-length bs key ∙ h.sized;
  bytes = xor-IsBytes bs key h.bytes k;
}
