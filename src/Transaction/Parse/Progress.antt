-- ===== src/Transaction/Parse/Progress.antt =====
-- parseTransactionInternal: where it succeeds, it has read at least the byte `is_ref`.
use hardware_bitcoin_wallet.Base.{ℕ, ◌<◌, ◌≤◌, refl, arith, List, Bool, not, get_or, ◌==◌}
use hardware_bitcoin_wallet.Transaction.{TransactionErrors}
use hardware_bitcoin_wallet.Transaction.Reader.{
  Event, Parser, Result, ok, err, Action, continue, ◌>>=◌, ◌>>◌, or_raise, as_error,
}
use hardware_bitcoin_wallet.Transaction.Reader.Moves.{
  IsInside, Moves, Advances, Moves-refl, Moves-IsInside, ReadOutcome, gets-Advances,
  raise_if-Advances, modify-Advances, get_transaction_bytes-ReadOutcome,
}
use hardware_bitcoin_wallet.Transaction.Parse.{get_bytes, parse_body, parse_transaction_internal}
use hardware_bitcoin_wallet.Transaction.Parse.Reading.{parse_body-Advances}

-- A call that succeeds has read at least one byte.
abbrev pub Progress : {E A : Type 0} → Parser → Result E A × Parser → Type 0
Progress s (ok _, t) = s.transaction_data_index < t.transaction_data_index
Progress s (err _, t) = Unit {0}

unfoldable pub ReadsOne : {E A : Type 0} → Action E A → Type 0
ReadsOne m = (s : Parser) → IsInside s → Progress s (m s)

Progress-later :
    {E B : Type 0} (s t : Parser) (r : Result E B × Parser)
    → s.transaction_data_index ≤ t.transaction_data_index
    → Progress t r
    → Progress s r
Progress-later s t (ok b, u) h k = omega arith
Progress-later s t (err e, u) h k = tt

Progress-continue :
    {E A B : Type 0} (s : Parser) (r : Result E A × Parser) (f : A → Action E B)
    → IsInside s
    → Moves s r.1
    → ((a : A) → ReadsOne (f a))
    → Progress s (continue r f)
unfolding ReadsOne
Progress-continue s (ok a, t) f i h k =
    Progress-later s t (f a t) h.forward (k a t (Moves-IsInside i h))
Progress-continue s (err e, t) f i h k = tt

Progress-kept :
    {E B : Type 0} (s t : Parser) (r : Result E B × Parser)
    → s.transaction_data_index < t.transaction_data_index
    → Moves t r.1
    → Progress s r
Progress-kept s t (ok b, u) h k = omega (arith, k.forward)
Progress-kept s t (err e, u) h k = tt

Progress-continue_kept :
    {E A B : Type 0} (s : Parser) (r : Result E A × Parser) (f : A → Action E B)
    → IsInside s
    → Moves s r.1
    → Progress s r
    → ((a : A) → Advances (f a))
    → Progress s (continue r f)
unfolding Advances
Progress-continue_kept s (ok a, t) f i h p k =
    Progress-kept s t (f a t) p (k a t (Moves-IsInside i h))
Progress-continue_kept s (err e, t) f i h p k = tt

bind-ReadsOne :
    {E A B : Type 0} (m : Action E A) (f : A → Action E B)
    → Advances m
    → ((a : A) → ReadsOne (f a))
    → ReadsOne (m >>= f)
unfolding ReadsOne Advances ◌>>=◌
bind-ReadsOne m f h k s i = Progress-continue s (m s) f i (h s i) k

then-ReadsOne :
    {E A B : Type 0} (m : Action E A) (k : Action E B) → Advances m → ReadsOne k → ReadsOne (m >> k)
unfolding ◌>>◌
then-ReadsOne m k h h' = bind-ReadsOne m (λ _. k) h (λ _. h')

module _ (input : ℕ → ℕ) (new_output_seen : List Event → Bool) where
  read_Progress :
      (s : Parser) (r : Result (Unit {0}) (List ℕ) × Parser) (e : TransactionErrors)
      → ReadOutcome input 1 s r
      → Progress s (as_error e r)
  read_Progress s (ok buffer, t) e h = omega (arith, h.0.index)
  read_Progress s (err _, t) e h = tt

  read_Moves :
      (s : Parser) (r : Result (Unit {0}) (List ℕ) × Parser) (e : TransactionErrors)
      → IsInside s
      → ReadOutcome input 1 s r
      → Moves s (as_error e r).1
  read_Moves s (ok buffer, t) e i h = h.0.moved
  read_Moves s (err _, t) e i h = rw (h.0) (Moves-refl s i)

  first_byte-ReadsOne : ReadsOne (
      get_bytes input new_output_seen 1 >>= λ temp.
      parse_body input new_output_seen (not (get_or temp 0 0 == 0)))
  unfolding ReadsOne ◌>>=◌ get_bytes or_raise
  first_byte-ReadsOne s i =
      let outcome = get_transaction_bytes-ReadOutcome input 1 s (omega arith) i in
      Progress-continue_kept s (get_bytes input new_output_seen 1 s) _ i
        (read_Moves s _ _ i outcome) (read_Progress s _ _ outcome)
        (λ temp. parse_body-Advances input new_output_seen _)

  pub parse_transaction_internal-ReadsOne :
      ReadsOne (parse_transaction_internal input new_output_seen)
  unfolding parse_transaction_internal
  parse_transaction_internal-ReadsOne = bind-ReadsOne _ _ (gets-Advances _ _) (λ length.
      then-ReadsOne _ _ (raise_if-Advances _ _)
        (then-ReadsOne _ _ (modify-Advances _ _ (λ s. (refl, refl, refl))) first_byte-ReadsOne))
