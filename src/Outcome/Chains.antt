-- ===== src/Outcome/Chains.antt =====
-- What a chain of fallible calls that ends well says of its first call.
use taunicorn.Prelude.{◌≡◌, refl, ap, Bool, true, false}
use taunicorn.Outcome.{Error, Outcome, ok, err, dropped, waiting, fuel_out}
use taunicorn.Outcome.Action.{Action, ◌>>=◌, ◌>>◌, bail_if, continue}

-- A chain of calls that ends well has a first call that does, and goes on from its state.
pub first_call :
    {S A B : Type 0} (m : Action S A) (f : A → Action S B) (s : S) {b : B}
    → ((m >>= f) s).0 ≡ ok b
    → (a : A) × ((m s).0 ≡ ok a) × ((m >>= f) s ≡ f a (m s).1) × ((f a (m s).1).0 ≡ ok b)
first_call {S = S} {A = A} {B = B} m f s {b = b} e = go (m s).0 refl e
  where
    go :
        (r : Outcome A)
        → (m s).0 ≡ r
        → (continue r f (m s).1).0 ≡ ok b
        → (a : A) × ((m s).0 ≡ ok a) × ((m >>= f) s ≡ f a (m s).1) × ((f a (m s).1).0 ≡ ok b)
    go (ok a) p e = (a, p, ap (λ x. continue x f (m s).1) p, e)
    go (err x) p e = absurd (cc e)
    go dropped p e = absurd (cc e)
    go waiting p e = absurd (cc e)
    go fuel_out p e = absurd (cc e)

-- A test that has let the call pass changes nothing.
pub passed :
    {S B : Type 0} (b : Bool) (x : Error) (k : Action S B) (s : S) {r : B}
    → ((bail_if b x >> k) s).0 ≡ ok r
    → (b ≡ false) × ((bail_if b x >> k) s ≡ k s)
passed true x k s e = absurd (cc e)
passed false x k s e = (refl, refl)

pub passed_last :
    {S : Type 0} (b : Bool) (x : Error) (s : S)
    → (bail_if b x s).0 ≡ ok tt
    → (b ≡ false) × (bail_if b x s ≡ (ok tt, s))
passed_last true x s e = absurd (cc e)
passed_last false x s e = (refl, refl)
