-- ===== src/Program.antt =====
-- Calls as actions: a function of the program with the static variables `S`, which returns a result
-- or an error beside the variables. It models no code of its own.
pub mod Respects
pub mod Step
use hardware_bitcoin_wallet.Base.{Bool, true, false, Option, some, none}

pub data Result (E A : Type 0) : Type 0 where
  ok : A → Result E A
  err : E → Result E A

-- A call: what it has written to the static variables stays written after an error.
abbrev pub Program : Type 0 → Type 0 → Type 0 → Type 0
Program S E A = S → Result E A × S

abbrev pub continue : {S E A B : Type 0} → Result E A × S → (A → Program S E B) → Result E B × S
continue (ok a, s) f = f a s
continue (err e, s) f = (err e, s)

infixl 5 ◌>>=◌ ◌>>◌
unfoldable pub ◌>>=◌ : {S E A B : Type 0} → Program S E A → (A → Program S E B) → Program S E B
◌>>=◌ m f s = continue (m s) f

unfoldable pub ◌>>◌ : {S E A B : Type 0} → Program S E A → Program S E B → Program S E B
m >> k = m >>= λ _. k

unfoldable pub pure : {S E A : Type 0} → A → Program S E A
pure a s = (ok a, s)

unfoldable pub gets : {S E A : Type 0} → (S → A) → Program S E A
gets f s = (ok (f s), s)

unfoldable pub modify : {S E : Type 0} → (S → S) → Program S E (Unit {0})
modify f s = (ok tt, f s)

unfoldable pub raise : {S E A : Type 0} → E → Program S E A
raise e s = (err e, s)

unfoldable pub raise_if : {S E : Type 0} → Bool → E → Program S E (Unit {0})
raise_if true e s = (err e, s)
raise_if false e s = (ok tt, s)

-- A failed call, of whatever error, ends its caller with an error code.
abbrev pub as_error : {S D E A : Type 0} → E → Result D A × S → Result E A × S
as_error e (ok a, s) = (ok a, s)
as_error e (err _, s) = (err e, s)

unfoldable pub or_raise : {S D E A : Type 0} → Program S D A → E → Program S E A
or_raise m e s = as_error e (m s)

-- A call whose failure its caller handles.
abbrev pub as_option : {S D E A : Type 0} → Result D A × S → Result E (Option A) × S
as_option (ok a, s) = (ok (some a), s)
as_option (err _, s) = (ok none, s)

unfoldable pub attempt : {S D E A : Type 0} → Program S D A → Program S E (Option A)
attempt m s = as_option (m s)
