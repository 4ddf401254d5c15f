-- ===== src/Wallet/Sanitise/Ends.antt =====
-- wallet.c, sanitiseNonVolatileStorage: the loops end within the rounds that the model gives them.
use hardware_bitcoin_wallet.Base.{
  ℕ, zero, suc, ◌+◌, ◌-◌, ◌*◌, ◌/◌, ◌≤◌, ◌≡◌, inl, inr, refl, arith, List, take, false, ltb, leb,
  ltb→lt, ge→ltb, Bool-cases,
}
use hardware_bitcoin_wallet.Program.{Program, Result, ok, err, continue, ◌>>=◌, ◌>>◌, pure}
use hardware_bitcoin_wallet.Storage.{Platform, Partition}
use hardware_bitcoin_wallet.Wallet.{World}
use hardware_bitcoin_wallet.Wallet.Sanitise.{
  bytes_to_write, fill_buffer, write_chunk, overwrite_loop, clear_versions,
}

-- Two calls that go on in the same way from every result.
continue-same :
    {S E A B : Type 0} (r : Result E A × S) (f g : A → Program S E B)
    → ((a : A) (s : S) → f a s ≡ g a s)
    → continue r f ≡ continue r g
continue-same (ok a, s) f g h = h a s
continue-same (err e, s) f g h = refl

progress :
    (size written rest : ℕ)
    → size ≤ written + 32 * suc rest
    → size ≤ written + bytes_to_write size written + 32 * rest
progress size written rest le = elim (Bool-cases (ltb 32 (size - written))) [
  | inl more ↦ rw more (omega (arith, ltb→lt 32 (size - written) more))
  | inr last ↦ rw last (omega arith)
]

module _ {Device : Type 0} (platform : Platform Device) where
  -- Any two bounds that leave 32 bytes for each round come to the same.
  enough :
      (f g pass : ℕ) (p : Partition) (address written size : ℕ) (pool : List ℕ) (w : World Device)
      → size ≤ written + 32 * f
      → size ≤ written + 32 * g
      → overwrite_loop platform f pass p address written size pool w
        ≡ overwrite_loop platform g pass p address written size pool w
  unfolding overwrite_loop ◌>>=◌ ◌>>◌ pure
  enough zero zero pass p address written size pool w le le' = refl
  enough zero (suc g) pass p address written size pool w le le' =
      rw (ge→ltb written size (omega arith)) refl
  enough (suc f) zero pass p address written size pool w le le' =
      rw (ge→ltb written size (omega arith)) refl
  enough (suc f) (suc g) pass p address written size pool w le le' =
      elim (Bool-cases (ltb written size)) [
        | inl short ↦ rw short (
            continue-same (fill_buffer platform pass pool w) _ _ (λ filled w'.
              continue-same
                (write_chunk platform (take (bytes_to_write size written) filled.0) p address w') _
                _
                (λ _ w''.
                  enough f g pass p _ _ size filled.1 w'' (progress size written f le)
                    (progress size written g le'))))
        | inr done ↦ rw done refl
      ]

  -- The loop that overwrites the region ends within the rounds that `overwrite_passes` gives it,
  -- `size / 32 + 1`: more rounds never change what it computes, on whatever platform.
  pub overwrite_loop-ends :
      (rounds pass : ℕ) (p : Partition) (start size : ℕ) (pool : List ℕ) (w : World Device)
      → size / 32 + 1 ≤ rounds
      → overwrite_loop platform rounds pass p start 0 size pool w
        ≡ overwrite_loop platform (size / 32 + 1) pass p start 0 size pool w
  overwrite_loop-ends rounds pass p start size pool w le =
      enough rounds (size / 32 + 1) pass p start 0 size pool w (omega arith) (omega arith)

  -- The loop over the version fields, likewise: each round is one record further on.
  enough_versions :
      (f g : ℕ) (p : Partition) (address start end : ℕ) (w : World Device)
      → end ≤ address + 176 * f
      → end ≤ address + 176 * g
      → clear_versions platform f p address start end w
        ≡ clear_versions platform g p address start end w
  unfolding clear_versions ◌>>=◌ ◌>>◌ pure
  enough_versions zero zero p address start end w le le' = refl
  enough_versions zero (suc g) p address start end w le le' =
      let past : leb (address + 4) end ≡ false = ground arith in rw past refl
  enough_versions (suc f) zero p address start end w le le' =
      let past : leb (address + 4) end ≡ false = ground arith in rw past refl
  enough_versions (suc f) (suc g) p address start end w le le' =
      elim (Bool-cases (leb (address + 4) end)) [
        | inl more ↦ rw more (
            continue-same _ _ _ (λ _ w'.
              enough_versions f g p (address + 176) start end w' (omega arith) (omega arith)))
        | inr past ↦ rw past refl
      ]

  -- The loop over the version fields ends within the rounds that `sanitiseNonVolatileStorage` gives
  -- it, `size / 176 + 2`, from the first record that the region touches.
  pub clear_versions-ends :
      (rounds : ℕ) (p : Partition) (start size : ℕ) (w : World Device)
      → size / 176 + 2 ≤ rounds
      → clear_versions platform rounds p (start / 176 * 176) start (start + size) w
        ≡ clear_versions platform (size / 176 + 2) p (start / 176 * 176) start (start + size) w
  clear_versions-ends rounds p start size w le =
      enough_versions rounds (size / 176 + 2) p (start / 176 * 176) start (start + size) w
        (omega arith) (omega arith)
