-- ===== src/Program/Step.antt =====
-- Steps of a call whose parts are known to succeed.
use hardware_bitcoin_wallet.Base.{◌≡◌, ap}
use hardware_bitcoin_wallet.Program.{Program, ok, continue, ◌>>=◌, ◌>>◌}

pub step :
    {S E A B : Type 0} (m : Program S E A) (f : A → Program S E B) (s t : S) (a : A)
    → m s ≡ (ok a, t)
    → (m >>= f) s ≡ f a t
unfolding ◌>>=◌
step m f s t a e = ap (λ r. continue r f) e

pub then_step :
    {S E A B : Type 0} (m : Program S E A) (k : Program S E B) (s t : S) (a : A)
    → m s ≡ (ok a, t)
    → (m >> k) s ≡ k t
unfolding ◌>>◌
then_step m k s t a e = step m (λ _. k) s t a e
