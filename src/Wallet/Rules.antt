-- ===== src/Wallet/Rules.antt =====
-- Rules for what a call of wallet.c leaves in `last_error`, one for each way to make a call.
use hardware_bitcoin_wallet.Base.{Bool, true, false, ◌≡◌, refl, if◌then◌else◌}
use hardware_bitcoin_wallet.Program.{
  Program, Result, ok, err, continue, ◌>>=◌, ◌>>◌, pure, gets, modify, attempt, as_option,
}
use hardware_bitcoin_wallet.Wallet.{
  WalletErrors, World, Call, code, fail, succeed, fail_if, return_last_error, or_fail, checked,
  record_failure, record_error,
}

-- After the call, `last_error` is what the call returned.
unfoldable pub Reports : {Device A : Type 0} → Call Device A → Type 0
Reports m = (w : World _) → (m w).1.last_error ≡ code (m w).0

-- A call that ends its caller has set `last_error` to what the caller returns.
abbrev pub Told : {Device A : Type 0} → Result WalletErrors A × World Device → Type 0
Told (ok a, w) = Unit
Told (err e, w) = w.last_error ≡ e

unfoldable pub Explains : {Device A : Type 0} → Call Device A → Type 0
Explains m = (w : World _) → Told (m w)

continue-Told :
    {Device A B : Type 0} (r : Result WalletErrors A × World Device) (f : A → Call Device B)
    → Told r
    → ((a : A) → Explains (f a))
    → Told (continue r f)
unfolding Explains
continue-Told (ok a, w) f h k = k a w
continue-Told (err e, w) f h k = h

pub bind-Explains :
    {Device A B : Type 0} (m : Call Device A) (f : A → Call Device B)
    → Explains m
    → ((a : A) → Explains (f a))
    → Explains (m >>= f)
unfolding Explains ◌>>=◌
bind-Explains m f h k w = continue-Told (m w) f (h w) k

pub then-Explains :
    {Device A B : Type 0} (m : Call Device A) (k : Call Device B)
    → Explains m
    → Explains k
    → Explains (m >> k)
unfolding ◌>>◌
then-Explains m k h h' = bind-Explains m (λ _. k) h (λ _. h')

continue-Reports :
    {Device A B : Type 0} (r : Result WalletErrors A × World Device) (f : A → Call Device B)
    → Told r
    → ((a : A) → Reports (f a))
    → (continue r f).1.last_error ≡ code (continue r f).0
unfolding Reports
continue-Reports (ok a, w) f h k = k a w
continue-Reports (err e, w) f h k = h

pub bind-Reports :
    {Device A B : Type 0} (m : Call Device A) (f : A → Call Device B)
    → Explains m
    → ((a : A) → Reports (f a))
    → Reports (m >>= f)
unfolding Reports Explains ◌>>=◌
bind-Reports m f h k w = continue-Reports (m w) f (h w) k

pub then-Reports :
    {Device A B : Type 0} (m : Call Device A) (k : Call Device B)
    → Explains m
    → Reports k
    → Reports (m >> k)
unfolding ◌>>◌
then-Reports m k h h' = bind-Reports m (λ _. k) h (λ _. h')

error-Told :
    {Device A : Type 0} (r : Result WalletErrors A × World Device)
    → r.1.last_error ≡ code r.0
    → Told r
error-Told (ok a, w) h = tt
error-Told (err e, w) h = h

pub Reports-Explains : {Device A : Type 0} (m : Call Device A) → Reports m → Explains m
unfolding Reports Explains
Reports-Explains m h w = error-Told (m w) (h w)

pub pure-Explains : (Device : Type 0) {A : Type 0} (a : A) → Explains {Device = Device} (pure a)
unfolding Explains pure
pure-Explains Device a w = tt

pub gets-Explains : {Device A : Type 0} (f : World Device → A) → Explains (gets f)
unfolding Explains gets
gets-Explains f w = tt

pub modify-Explains : {Device : Type 0} (f : World Device → World Device) → Explains (modify f)
unfolding Explains modify
modify-Explains f w = tt

as_option-Told : {Device E A : Type 0} (r : Result E A × World Device) → Told (as_option r)
as_option-Told (ok a, w) = tt
as_option-Told (err e, w) = tt

pub attempt-Explains : {Device E A : Type 0} (m : Program (World Device) E A) → Explains (attempt m)
unfolding Explains attempt
attempt-Explains m w = as_option-Told (m w)

pub fail_if-Explains :
    (Device : Type 0) (b : Bool) (e : WalletErrors) → Explains {Device = Device} (fail_if b e)
unfolding Explains fail_if
fail_if-Explains Device true e w = refl
fail_if-Explains Device false e w = tt

pub return_last_error-Reports :
    (Device A : Type 0) → Reports {Device = Device} {A = A} return_last_error
unfolding Reports return_last_error
return_last_error-Reports Device A w = refl

pub fail-Reports :
    (Device A : Type 0) (e : WalletErrors) → Reports {Device = Device} {A = A} (fail e)
unfolding Reports fail
fail-Reports Device A e w = refl

pub succeed-Reports : (Device : Type 0) {A : Type 0} (a : A) → Reports {Device = Device} (succeed a)
unfolding Reports succeed
succeed-Reports Device a w = refl

record_failure-Told :
    {Device E A : Type 0} (e : WalletErrors) (r : Result E A × World Device)
    → Told (record_failure e r)
record_failure-Told e (ok a, w) = tt
record_failure-Told e (err _, w) = refl

pub or_fail-Explains :
    {Device E A : Type 0} (m : Program (World Device) E A) (e : WalletErrors)
    → Explains (or_fail m e)
unfolding Explains or_fail
or_fail-Explains m e w = record_failure-Told e (m w)

record_error-Told :
    {Device A : Type 0} (r : Result WalletErrors A × World Device) → Told (record_error r)
record_error-Told (ok a, w) = tt
record_error-Told (err e, w) = refl

pub checked-Explains : {Device A : Type 0} (m : Call Device A) → Explains (checked m)
unfolding Explains checked
checked-Explains m w = record_error-Told (m w)

pub if-Explains :
    {Device A : Type 0} (b : Bool) (m k : Call Device A)
    → Explains m
    → Explains k
    → Explains (if b then m else k)
if-Explains true m k h h' = h
if-Explains false m k h h' = h'

pub if-Reports :
    {Device A : Type 0} (b : Bool) (m k : Call Device A)
    → Reports m
    → Reports k
    → Reports (if b then m else k)
if-Reports true m k h h' = h
if-Reports false m k h h' = h'

pub fail-Explains :
    (Device A : Type 0) (e : WalletErrors) → Explains {Device = Device} {A = A} (fail e)
fail-Explains Device A e = Reports-Explains (fail e) (fail-Reports Device A e)

pub return_last_error-Explains :
    (Device A : Type 0) → Explains {Device = Device} {A = A} return_last_error
return_last_error-Explains Device A =
    Reports-Explains return_last_error (return_last_error-Reports Device A)

pub ruleset explain_rules = (
  bind-Explains, then-Explains, pure-Explains, gets-Explains, modify-Explains, attempt-Explains,
  fail_if-Explains, fail-Explains, return_last_error-Explains, or_fail-Explains, checked-Explains,
  if-Explains,
)

pub ruleset report_rules = (
  bind-Reports, then-Reports, succeed-Reports, fail-Reports, return_last_error-Reports, if-Reports,
)
