-- ===== src/Wallet/Lenient.antt =====
-- Rules for calls of wallet.c that respect a relation which does not look at `last_error`.
use hardware_bitcoin_wallet.Base.{Bool, true, false}
use hardware_bitcoin_wallet.Program.{Program, Result, ok, err}
use hardware_bitcoin_wallet.Program.Respects.{IsPreorder, Respects}
use hardware_bitcoin_wallet.Wallet.{
  WalletErrors, World, Call, fail, succeed, fail_if, return_last_error, on_device, or_fail, checked,
  record_failure, record_error,
}

pub record IsLenient {Device : Type 0} (R : World Device → World Device → Type 0) : Type 0 where
  pub order : IsPreorder R
  pub error : (w : World Device) (e : WalletErrors) → R w (record w { last_error = e })

module _ {Device : Type 0} (R : World Device → World Device → Type 0) where
  pub fail-Respects : (A : Type 0) (e : WalletErrors) → IsLenient R → Respects {A = A} R (fail e)
  unfolding Respects fail
  fail-Respects A e o w = o.error w e

  pub succeed-Respects : {A : Type 0} (a : A) → IsLenient R → Respects R (succeed a)
  unfolding Respects succeed
  succeed-Respects a o w = o.error w _

  pub fail_if-Respects : (b : Bool) (e : WalletErrors) → IsLenient R → Respects R (fail_if b e)
  unfolding Respects fail_if
  fail_if-Respects true e o w = o.error w e
  fail_if-Respects false e o w = o.order.same w

  pub return_last_error-Respects : (A : Type 0) → IsLenient R → Respects {A = A} R return_last_error
  unfolding Respects return_last_error
  return_last_error-Respects A o w = o.order.same w

  failure-R :
      {E A : Type 0} (w : World Device) (e : WalletErrors) (r : Result E A × World Device)
      → IsLenient R
      → R w r.1
      → R w (record_failure e r).1
  failure-R w e (ok a, w') o h = h
  failure-R w e (err _, w') o h = o.order.chain w w' _ h (o.error w' e)

  pub or_fail-Respects :
      {E A : Type 0} (m : Program (World Device) E A) (e : WalletErrors)
      → IsLenient R
      → Respects R m
      → Respects R (or_fail m e)
  unfolding Respects or_fail
  or_fail-Respects m e o h w = failure-R w e (m w) o (h w)

  error-R :
      {A : Type 0} (w : World Device) (r : Result WalletErrors A × World Device)
      → IsLenient R
      → R w r.1
      → R w (record_error r).1
  error-R w (ok a, w') o h = h
  error-R w (err e, w') o h = o.order.chain w w' _ h (o.error w' e)

  pub checked-Respects :
      {A : Type 0} (m : Call Device A) → IsLenient R → Respects R m → Respects R (checked m)
  unfolding Respects checked
  checked-Respects m o h w = error-R w (m w) o (h w)

  pub on_device-Respects :
      {E A : Type 0} (D : Device → Device → Type 0) (m : Program Device E A)
      → ((w : World Device) (d : Device) → D w.device d → R w (record w { device = d }))
      → Respects D m
      → Respects R (on_device m)
  unfolding Respects on_device
  on_device-Respects D m lift h w = lift w _ (h w.device)

pub ruleset lenient_rules = (
  fail-Respects, succeed-Respects, fail_if-Respects, return_last_error-Respects, or_fail-Respects,
  checked-Respects,
)
