-- ===== src/Transaction/Parse/Contract.antt =====
-- parseTransaction: what it reads of the stream, whatever the stream holds.
use hardware_bitcoin_wallet.Base.{
  ℕ, zero, suc, ◌+◌, ◌-◌, ◌^◌, ◌<◌, ◌≤◌, ◌≡◌, refl, ◌∙◌, ap, arith, List, Bool, true, false, leb,
  if◌then◌else◌, Option, none, some, Bool-cases, inl, inr, leb→le,
}
use hardware_bitcoin_wallet.Transaction.{TransactionErrors}
use hardware_bitcoin_wallet.Transaction.Reader.{
  Event, Parser, Result, ok, err, read_loop, is_end_of_transaction_data,
}
use hardware_bitcoin_wallet.Transaction.Reader.Moves.{
  IsInside, Moves, Advances, Moves-trans, Moves-refl, Moves-IsInside, get_transaction_bytes_fits,
  read_loop-Moves,
}
use hardware_bitcoin_wallet.Transaction.Parse.{
  Parsed, set_valid, parse_transaction_internal, after_round, after_junk, parse_loop, consume_rest,
  finish_parser, begin_parser, parse_transaction,
}
use hardware_bitcoin_wallet.Transaction.Parse.Reading.{parse_transaction_internal-Advances}
use hardware_bitcoin_wallet.Transaction.Parse.Progress.{
  Progress, ReadsOne, parse_transaction_internal-ReadsOne,
}

module _ (input : ℕ → ℕ) (new_output_seen : List Event → Bool) where
  -- The loop has ended, inside the transaction, and a success is that of a main transaction.
  abbrev pub Ended : Parser → Option (Result TransactionErrors Parsed × Parser) → Type 0
  Ended s none = zero ≡ 1
  Ended s (some (ok parsed, t)) = Moves s t × (parsed.is_ref ≡ false)
  Ended s (some (err e, t)) = Moves s t × (zero ≡ 0)

  Ended-later :
      (s t : Parser) (o : Option (Result TransactionErrors Parsed × Parser))
      → Moves s t
      → Ended t o
      → Ended s o
  Ended-later s t none h k = k
  Ended-later s t (some (ok parsed, u)) h k = (Moves-trans h k.0, k.1)
  Ended-later s t (some (err e, u)) h k = (Moves-trans h k.0, refl)

  main_Ended :
      (s t : Parser) (parsed : Parsed) (b : Bool)
      (rest : Option (Result TransactionErrors Parsed × Parser))
      → parsed.is_ref ≡ b
      → Moves s t
      → (b ≡ true → Ended t rest)
      → Ended s (if b then rest else some (ok parsed, t))
  main_Ended s t parsed true rest e h k = Ended-later s t rest h (k refl)
  main_Ended s t parsed false rest e h k = (h, e)

  after_round-Ended :
      (s : Parser) (r : Result TransactionErrors Parsed × Parser)
      (rest : Option (Result TransactionErrors Parsed × Parser))
      → Moves s r.1
      → Progress s r
      → (s.transaction_data_index < r.1.transaction_data_index → Ended r.1 rest)
      → Ended s (after_round input new_output_seen r rest)
  after_round-Ended s (ok parsed, t) rest h p k =
      main_Ended s t parsed parsed.is_ref rest refl h (λ _. k p)
  after_round-Ended s (err e, t) rest h p k = (h, refl)

  -- One round more than there are bytes left is enough for the loop to end.
  pub parse_loop-Ended :
      (rounds : ℕ) (s : Parser)
      → IsInside s
      → s.transaction_length - s.transaction_data_index < rounds
      → Ended s (parse_loop input new_output_seen rounds s)
  unfolding parse_loop Advances ReadsOne
  parse_loop-Ended zero s i h = absurd (omega arith)
  parse_loop-Ended (suc rounds) s i h =
      let r : Result TransactionErrors Parsed × Parser =
        parse_transaction_internal input new_output_seen s in
      let moved : Moves s r.1 = parse_transaction_internal-Advances input new_output_seen s i in
      after_round-Ended s r (parse_loop input new_output_seen rounds r.1) moved
        (parse_transaction_internal-ReadsOne input new_output_seen s i)
        (λ further.
          parse_loop-Ended rounds r.1 (Moves-IsInside i moved)
            (omega (arith, moved.same, moved.stays)))

  -- The last loop reads to the end of the transaction.
  pub consume_rest-Moves :
      (rounds : ℕ) (s : Parser)
      → IsInside s
      → s.transaction_length - s.transaction_data_index ≤ rounds
      → Moves s (consume_rest input new_output_seen rounds s)
        × ((consume_rest input new_output_seen rounds s).transaction_data_index
            ≡ s.transaction_length)
  unfolding consume_rest is_end_of_transaction_data
  consume_rest-Moves zero s i h = (Moves-refl s i, omega (arith, i.within))
  consume_rest-Moves (suc rounds) s i h =
      elim (Bool-cases (leb s.transaction_length s.transaction_data_index)) [
        | inl ended ↦ rw ended (Moves-refl s i, omega (arith, i.within, leb→le _ _ ended))
        | inr more ↦
            let one : s.transaction_data_index + 1 ≤ s.transaction_length = ground arith in
            let read = read_loop-Moves input 1 s i one in
            let ih =
              consume_rest-Moves rounds (read_loop input 1 s).1 (Moves-IsInside i read.0)
                (omega (arith, read.0.same, read.2)) in
            let next =
              ap
                (λ r.
                  after_junk input new_output_seen r
                    (consume_rest input new_output_seen rounds r.1))
                (get_transaction_bytes_fits input 1 s (omega arith) i one) in
            rw (more, next) (Moves-trans read.0 ih.0, ih.1 ∙ read.0.same)
      ]

  begin_parser-IsInside :
      (locals : Parser) (length : ℕ) → length < 2 ^ 32 → IsInside (begin_parser locals length)
  unfolding begin_parser
  begin_parser-IsInside locals length h = record { fits = h; within = omega arith }

  -- What `parseTransaction` answers: a result, with the parser at the end of the transaction.
  abbrev pub ReadsAll : Parser → ℕ → Option (Result TransactionErrors Parsed × Parser) → Type 0
  ReadsAll locals length none = zero ≡ 1
  ReadsAll locals length (some (r, s)) =
      (s.consumed ≡ locals.consumed + length) × (s.transaction_data_index ≡ length)

  read_to_end :
      (locals s : Parser) (length : ℕ)
      → IsInside (begin_parser locals length)
      → Moves (begin_parser locals length) s
      → let done = consume_rest input new_output_seen length (set_valid false s) in
        (done.consumed ≡ locals.consumed + length) × (done.transaction_data_index ≡ length)
  unfolding begin_parser
  read_to_end locals s length i h =
      let rest =
        consume_rest-Moves length (set_valid false s)
          (record { fits = omega (arith, h.same, i.fits); within = h.stays })
          (omega (arith, h.same)) in
      omega (arith, rest.0.counted, rest.1, h.counted, h.same)

  consumed_all :
      (locals : Parser) (length : ℕ) (o : Option (Result TransactionErrors Parsed × Parser))
      → IsInside (begin_parser locals length)
      → Ended (begin_parser locals length) o
      → ReadsAll locals length (finish_parser input new_output_seen length o)
  consumed_all locals length none i h = h
  consumed_all locals length (some (ok parsed, s)) i h = read_to_end locals s length i h.0
  consumed_all locals length (some (err e, s)) i h = read_to_end locals s length i h.0

  -- For a length of 32 bits, `parseTransaction` always ends with a result, and reads exactly `length` bytes from the stream
  -- device, whatever these bytes are, whether the transaction was parsed correctly or not.
  pub parse_transaction-ReadsAll :
      (locals : Parser) (length : ℕ)
      → length < 2 ^ 32
      → ReadsAll locals length (parse_transaction input new_output_seen locals length)
  unfolding parse_transaction begin_parser
  parse_transaction-ReadsAll locals length h =
      let enough : length - 0 < length + 1 = omega arith in
      let i = begin_parser-IsInside locals length h in
      consumed_all locals length
        (parse_loop input new_output_seen (length + 1) (begin_parser locals length)) i
        (parse_loop-Ended (length + 1) (begin_parser locals length) i enough)
