-- ===== src/Program/Respects.antt =====
-- Calls that respect a relation between the static variables before and after: one rule for each
-- way to make a call.
use hardware_bitcoin_wallet.Base.{Bool, true, false, if◌then◌else◌}
use hardware_bitcoin_wallet.Program.{
  Result, ok, err, Program, continue, ◌>>=◌, ◌>>◌, pure, gets, modify, raise, raise_if, as_error,
  or_raise, as_option, attempt,
}

pub record IsPreorder {S : Type 0} (R : S → S → Type 0) : Type 0 where
  pub same : (s : S) → R s s
  pub chain : (s t u : S) → R s t → R t u → R s u

unfoldable pub Respects : {S E A : Type 0} → (S → S → Type 0) → Program S E A → Type 0
Respects {S = S} R m = (s : S) → R s (m s).1

continue-R :
    {S E A B : Type 0} (R : S → S → Type 0) (s : S) (r : Result E A × S) (f : A → Program S E B)
    → IsPreorder R
    → R s r.1
    → ((a : A) → Respects R (f a))
    → R s (continue r f).1
unfolding Respects
continue-R R s (ok a, t) f o h k = o.chain s t _ h (k a t)
continue-R R s (err e, t) f o h k = h

pub bind-Respects :
    {S E A B : Type 0} (R : S → S → Type 0) (m : Program S E A) (f : A → Program S E B)
    → IsPreorder R
    → Respects R m
    → ((a : A) → Respects R (f a))
    → Respects R (m >>= f)
unfolding Respects ◌>>=◌
bind-Respects R m f o h k s = continue-R R s (m s) f o (h s) k

pub then-Respects :
    {S E A B : Type 0} (R : S → S → Type 0) (m : Program S E A) (k : Program S E B)
    → IsPreorder R
    → Respects R m
    → Respects R k
    → Respects R (m >> k)
unfolding ◌>>◌
then-Respects R m k o h h' = bind-Respects R m (λ _. k) o h (λ _. h')

pub pure-Respects :
    {S A : Type 0} (E : Type 0) (R : S → S → Type 0) (a : A)
    → IsPreorder R
    → Respects {E = E} R (pure a)
unfolding Respects pure
pure-Respects E R a o s = o.same s

pub gets-Respects :
    {S A : Type 0} (E : Type 0) (R : S → S → Type 0) (f : S → A)
    → IsPreorder R
    → Respects {E = E} R (gets f)
unfolding Respects gets
gets-Respects E R f o s = o.same s

pub raise-Respects :
    {S E : Type 0} (A : Type 0) (R : S → S → Type 0) (e : E)
    → IsPreorder R
    → Respects {A = A} R (raise e)
unfolding Respects raise
raise-Respects A R e o s = o.same s

pub raise_if-Respects :
    {S E : Type 0} (R : S → S → Type 0) (b : Bool) (e : E)
    → IsPreorder R
    → Respects R (raise_if b e)
unfolding Respects raise_if
raise_if-Respects R true e o s = o.same s
raise_if-Respects R false e o s = o.same s

pub modify-Respects :
    {S : Type 0} (E : Type 0) (R : S → S → Type 0) (f : S → S)
    → ((s : S) → R s (f s))
    → Respects {E = E} R (modify f)
unfolding Respects modify
modify-Respects E R f h s = h s

as_error-R :
    {S D E A : Type 0} (R : S → S → Type 0) (s : S) (e : E) (r : Result D A × S)
    → R s r.1
    → R s (as_error e r).1
as_error-R R s e (ok a, t) h = h
as_error-R R s e (err _, t) h = h

pub or_raise-Respects :
    {S D E A : Type 0} (R : S → S → Type 0) (m : Program S D A) (e : E)
    → Respects R m
    → Respects R (or_raise m e)
unfolding Respects or_raise
or_raise-Respects R m e h s = as_error-R R s e (m s) (h s)

as_option-R :
    {S D A : Type 0} (E : Type 0) (R : S → S → Type 0) (s : S) (r : Result D A × S)
    → R s r.1
    → R s (as_option {E = E} r).1
as_option-R E R s (ok a, t) h = h
as_option-R E R s (err _, t) h = h

pub attempt-Respects :
    {S D A : Type 0} (E : Type 0) (R : S → S → Type 0) (m : Program S D A)
    → Respects R m
    → Respects {E = E} R (attempt m)
unfolding Respects attempt
attempt-Respects E R m h s = as_option-R E R s (m s) (h s)

pub if-Respects :
    {S E A : Type 0} (R : S → S → Type 0) (b : Bool) (m k : Program S E A)
    → Respects R m
    → Respects R k
    → Respects R (if b then m else k)
if-Respects R true m k h h' = h
if-Respects R false m k h h' = h'

pub ruleset respect_rules = (
  bind-Respects, then-Respects, pure-Respects, gets-Respects, raise-Respects, raise_if-Respects,
  modify-Respects, or_raise-Respects, attempt-Respects, if-Respects,
)
