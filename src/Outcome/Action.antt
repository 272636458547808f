-- ===== src/Outcome/Action.antt =====
-- Calls that change a state and may fail. What was changed before a failure stays changed.
use taunicorn.Prelude.{Bool, true, false}
use taunicorn.Outcome.{Error, Outcome, ok, err, dropped, waiting, fuel_out}

abbrev pub Action : Type 0 → Type 0 → Type 0
Action S A = S → Outcome A × S

module _ {S A : Type 0} where
  abbrev pub pure : A → Action S A
  pure a s = (ok a, s)

  abbrev pub lift : Outcome A → Action S A
  lift r s = (r, s)

module _ {S A B : Type 0} where
  abbrev pub continue : Outcome A → (A → Action S B) → Action S B
  continue (ok a) f s = f a s
  continue (err e) f s = (err e, s)
  continue dropped f s = (dropped, s)
  continue waiting f s = (waiting, s)
  continue fuel_out f s = (fuel_out, s)

  infixl 5 ◌>>=◌ ◌>>◌
  abbrev pub ◌>>=◌ : Action S A → (A → Action S B) → Action S B
  ◌>>=◌ m f s = let (r, s') = m s in continue r f s'

  abbrev pub ◌>>◌ : Action S A → Action S B → Action S B
  m >> k = m >>= λ _. k

-- `if b { return Err(e) }`
abbrev pub bail_if : {S : Type 0} → Bool → Error → Action S (Unit {0})
bail_if true e s = (err e, s)
bail_if false e s = (ok tt, s)
