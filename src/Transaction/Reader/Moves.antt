-- ===== src/Transaction/Reader/Moves.antt =====
-- What every operation of the parser does to the stream: it reads forward, it counts what it reads,
-- and it stays inside the transaction.
use hardware_bitcoin_wallet.Base.{
  ℕ, zero, suc, ◌+◌, ◌-◌, ◌^◌, ◌<◌, ◌≤◌, ◌≡◌, refl, ◌∙◌, arith, u32, List, Bool, true, false, ltb,
  if◌then◌else◌, length, IsBytes, Bool-cases, inl, inr, ltb→lt,
}
use hardware_bitcoin_wallet.Transaction.Reader.{
  Parser, Result, ok, err, Action, continue, ◌>>=◌, ◌>>◌, pure, gets, modify, raise, raise_if,
  as_error, or_raise, hash_byte, read_one, read_loop, get_transaction_bytes, var_int_tail,
  get_var_int,
}

pub record IsInside (s : Parser) : Type 0 where
  pub fits : s.transaction_length < 2 ^ 32
  pub within : s.transaction_data_index ≤ s.transaction_length

-- From `s` to `t` the parser has read forward, inside the same transaction.
pub record Moves (s t : Parser) : Type 0 where
  pub same : t.transaction_length ≡ s.transaction_length
  pub stays : t.transaction_data_index ≤ t.transaction_length
  pub forward : s.transaction_data_index ≤ t.transaction_data_index
  pub counted : t.consumed + s.transaction_data_index ≡ s.consumed + t.transaction_data_index

unfoldable pub Advances : {E A : Type 0} → Action E A → Type 0
Advances m = (s : Parser) → IsInside s → Moves s (m s).1

pub Moves-trans : {s t u : Parser} → Moves s t → Moves t u → Moves s u
Moves-trans h k = record {
  same = k.same ∙ h.same;
  stays = k.stays;
  forward = omega (arith, h.forward, k.forward);
  counted = omega (arith, h.counted, k.counted);
}

pub Moves-IsInside : {s t : Parser} → IsInside s → Moves s t → IsInside t
Moves-IsInside i h = record { fits = omega (arith, h.same, i.fits); within = h.stays }

pub Moves-refl : (s : Parser) → IsInside s → Moves s s
Moves-refl s i = record { same = refl; stays = i.within; forward = omega arith; counted = refl }

continue-Moves :
    {E A B : Type 0} (s : Parser) (r : Result E A × Parser) (f : A → Action E B)
    → IsInside s
    → Moves s r.1
    → ((a : A) → Advances (f a))
    → Moves s (continue r f).1
unfolding Advances
continue-Moves s (ok a, t) f i h k = Moves-trans h (k a t (Moves-IsInside i h))
continue-Moves s (err e, t) f i h k = h

pub bind-Advances :
    {E A B : Type 0} (m : Action E A) (f : A → Action E B)
    → Advances m
    → ((a : A) → Advances (f a))
    → Advances (m >>= f)
unfolding Advances ◌>>=◌
bind-Advances m f h k s i = continue-Moves s (m s) f i (h s i) k

pub pure-Advances : (E : Type 0) {A : Type 0} (a : A) → Advances (pure {E = E} a)
unfolding Advances pure
pure-Advances E a s i = Moves-refl s i

pub raise-Advances : {E : Type 0} (A : Type 0) (e : E) → Advances (raise {A = A} e)
unfolding Advances raise
raise-Advances A e s i = Moves-refl s i

pub raise_if-Advances : {E : Type 0} (b : Bool) (e : E) → Advances (raise_if b e)
unfolding Advances raise_if
raise_if-Advances true e s i = Moves-refl s i
raise_if-Advances false e s i = Moves-refl s i

-- An update of other variables than the counters.
abbrev pub Keeps : (Parser → Parser) → Type 0
Keeps f =
    (s : Parser)
    → ((f s).consumed ≡ s.consumed)
      × ((f s).transaction_data_index ≡ s.transaction_data_index)
      × ((f s).transaction_length ≡ s.transaction_length)

pub modify-Advances : (E : Type 0) (f : Parser → Parser) → Keeps f → Advances {E = E} (modify f)
unfolding Advances modify
modify-Advances E f h s i = record {
  same = (h s).2;
  stays = omega (arith, h s, i.within);
  forward = omega (arith, h s);
  counted = omega (arith, h s);
}

pub gets-Advances : (E : Type 0) {A : Type 0} (f : Parser → A) → Advances {E = E} (gets f)
unfolding Advances gets
gets-Advances E f s i = Moves-refl s i

pub then-Advances :
    {E A B : Type 0} (m : Action E A) (k : Action E B) → Advances m → Advances k → Advances (m >> k)
unfolding ◌>>◌
then-Advances m k h h' = bind-Advances m (λ _. k) h (λ _. h')

as_error-Moves :
    {E A : Type 0} (s : Parser) (e : E) (r : Result (Unit {0}) A × Parser)
    → Moves s r.1
    → Moves s (as_error e r).1
as_error-Moves s e (ok a, t) h = h
as_error-Moves s e (err _, t) h = h

pub or_raise-Advances :
    {E A : Type 0} (m : Action (Unit {0}) A) (e : E) → Advances m → Advances (or_raise m e)
unfolding Advances or_raise
or_raise-Advances m e h s i = as_error-Moves s e (m s) (h s i)

pub if-Advances :
    {E A : Type 0} (b : Bool) (m k : Action E A)
    → Advances m
    → Advances k
    → Advances (if b then m else k)
unfolding Advances
if-Advances true m k h h' = h
if-Advances false m k h h' = h'

pub ruleset advance_rules = (
  bind-Advances, then-Advances, pure-Advances, gets-Advances, modify-Advances, raise-Advances,
  raise_if-Advances, or_raise-Advances, if-Advances,
)

module _ (input : ℕ → ℕ) where
  read_one-Moves :
      (s : Parser)
      → IsInside s
      → s.transaction_data_index < s.transaction_length
      → Moves s (read_one input s)
        × ((read_one input s).transaction_data_index ≡ s.transaction_data_index + 1)
  unfolding read_one hash_byte
  read_one-Moves s i h =
      let step : u32 (s.transaction_data_index + 1) ≡ s.transaction_data_index + 1 =
        omega (arith, i.fits) in
      (
        record { same = refl; stays = omega arith; forward = omega arith; counted = omega arith },
        step,
      )

  -- `length` bytes that fit are read, counted and returned.
  pub read_loop-Moves :
      (n : ℕ) (s : Parser)
      → IsInside s
      → s.transaction_data_index + n ≤ s.transaction_length
      → Moves s (read_loop input n s).1
        × (length (read_loop input n s).0 ≡ n)
        × ((read_loop input n s).1.transaction_data_index ≡ s.transaction_data_index + n)
        × IsBytes (read_loop input n s).0
  unfolding read_loop
  read_loop-Moves zero s i h = (Moves-refl s i, refl, omega arith, tt)
  read_loop-Moves (suc n) s i h =
      let one = read_one-Moves s i (omega arith) in
      let ih =
        read_loop-Moves n (read_one input s) (Moves-IsInside i one.0)
          (omega (arith, one.0.same, one.1)) in
      (Moves-trans one.0 ih.0, omega (arith, ih.1), omega (arith, one.1, ih.2), (omega arith, ih.3))

  -- What a successful read gives: the bytes, and the place behind them.
  pub record IsRead (n : ℕ) (s : Parser) (buffer : List ℕ) (t : Parser) : Type 0 where
    pub moved : Moves s t
    pub size : length buffer ≡ n
    pub bytes : IsBytes buffer
    pub index : t.transaction_data_index ≡ s.transaction_data_index + n

  abbrev pub ReadOutcome : ℕ → Parser → Result (Unit {0}) (List ℕ) × Parser → Type 0
  ReadOutcome n s (ok buffer, t) =
      IsRead n s buffer t × (t ≡ (read_loop input n s).1) × (buffer ≡ (read_loop input n s).0)
  ReadOutcome n s (err _, t) = (t ≡ s) × (s.transaction_length < s.transaction_data_index + n)

  pub get_transaction_bytes_fits :
      (n : ℕ) (s : Parser)
      → n < 256
      → IsInside s
      → s.transaction_data_index + n ≤ s.transaction_length
      → get_transaction_bytes input n s ≡ (ok (read_loop input n s).0, (read_loop input n s).1)
  unfolding get_transaction_bytes
  get_transaction_bytes_fits n s h i k =
      let room : ltb (0xffffffff - n) s.transaction_data_index ≡ false = ground (arith, i.fits) in
      let fits : ltb s.transaction_length (u32 (s.transaction_data_index + n)) ≡ false =
        ground (arith, i.fits) in
      rw (room, fits)

  get_transaction_bytes_past :
      (n : ℕ) (s : Parser)
      → n < 256
      → IsInside s
      → s.transaction_length < s.transaction_data_index + n
      → get_transaction_bytes input n s ≡ (err tt, s)
  unfolding get_transaction_bytes
  get_transaction_bytes_past n s h i k =
      elim (Bool-cases (ltb (0xffffffff - n) s.transaction_data_index)) [
        | inl over ↦ rw over
        | inr room ↦
            let past : ltb s.transaction_length (u32 (s.transaction_data_index + n)) ≡ true =
              ground (arith, i.fits) in
            rw (room, past)
      ]

  -- `getTransactionBytes` either reads all the bytes, or, where they pass the end of the
  -- transaction, reads none and leaves the parser as it was.
  pub get_transaction_bytes-ReadOutcome :
      (n : ℕ) (s : Parser)
      → n < 256
      → IsInside s
      → ReadOutcome n s (get_transaction_bytes input n s)
  get_transaction_bytes-ReadOutcome n s h i =
      elim (Bool-cases (ltb s.transaction_length (s.transaction_data_index + n))) [
        | inl past ↦
            rw (get_transaction_bytes_past n s h i (ltb→lt _ _ past)) (refl, ltb→lt _ _ past)
        | inr fits ↦
            let inside : s.transaction_data_index + n ≤ s.transaction_length = ground arith in
            let read = read_loop-Moves n s i inside in
            rw (get_transaction_bytes_fits n s h i inside)
              (record { moved = read.0; size = read.1; bytes = read.3; index = read.2 }, refl, refl)
      ]

  ReadOutcome-Moves :
      (n : ℕ) (s : Parser) (r : Result (Unit {0}) (List ℕ) × Parser)
      → IsInside s
      → ReadOutcome n s r
      → Moves s r.1
  ReadOutcome-Moves n s (ok buffer, t) i h = h.0.moved
  ReadOutcome-Moves n s (err _, t) i h = rw (h.0) (Moves-refl s i)

  pub get_transaction_bytes-Advances : (n : ℕ) → n < 256 → Advances (get_transaction_bytes input n)
  unfolding Advances
  get_transaction_bytes-Advances n h s i =
      ReadOutcome-Moves n s (get_transaction_bytes input n s) i
        (get_transaction_bytes-ReadOutcome n s h i)

  var_int_tail-Advances : (first : ℕ) → Advances (var_int_tail input first)
  unfolding var_int_tail
  var_int_tail-Advances first =
      let two = get_transaction_bytes-Advances 2 (omega arith) in
      let four = get_transaction_bytes-Advances 4 (omega arith) in search advance_rules

  pub get_var_int-Advances : Advances (get_var_int input)
  unfolding get_var_int
  get_var_int-Advances =
      bind-Advances (get_transaction_bytes input 1) _
        (get_transaction_bytes-Advances 1 (omega arith)) (λ temp. var_int_tail-Advances _)
