-- ===== src/Server/Steps.antt =====
-- The language of the calls of a server (crates/taunicorn/src/lib.rs): one atomic access to the
-- shared state at a time, and the await of `accept`.
use taunicorn.Prelude.{ℕ, Bool, true, false}
use taunicorn.Outcome.{Error, Outcome, ok, err, dropped, waiting, fuel_out}
use taunicorn.Endpoint.{Io}
use taunicorn.Server.{Process}

-- How the `select!` of `accept` ends: with what `listener.accept()` returned, by the stop token, by
-- the deadline of `accept_timeout`, or because the caller drops the future.
pub data Accepted : Type 0 where
  arrived : Io ℕ → Accepted
  stop_cancelled elapsed gone : Accepted

-- `await_client h d k` waits on the listener `h`, with a deadline if `d`.
pub data Steps (A : Type 0) : Type 0 where
  ret : Outcome A → Steps A
  atomic : (Process → Process) → (Process → Steps A) → Steps A
  await_client : ℕ → Bool → (Accepted → Steps A) → Steps A

abbrev pub resume : {A B : Type 0} → Outcome A → (A → Steps B) → Steps B
resume (ok a) f = f a
resume (err e) f = ret (err e)
resume dropped f = ret dropped
resume waiting f = ret waiting
resume fuel_out f = ret fuel_out

infixl 5 ◌>>=◌ ◌>>◌
abbrev pub ◌>>=◌ : {A B : Type 0} → Steps A → (A → Steps B) → Steps B
ret r >>= f = resume r f
atomic g k >>= f = atomic g (λ s. k s >>= f)
await_client h d k >>= f = await_client h d (λ x. k x >>= f)

abbrev pub ◌>>◌ : {B : Type 0} → Steps (Unit {0}) → Steps B → Steps B
m >> k = m >>= λ _. k

abbrev pub pure : {A : Type 0} → A → Steps A
pure a = ret (ok a)

abbrev pub fail : {A : Type 0} → Error → Steps A
fail e = ret (err e)

abbrev pub bail_if : Bool → Error → Steps (Unit {0})
bail_if true e = ret (err e)
bail_if false e = ret (ok tt)

abbrev pub load : {A : Type 0} → (Process → A) → Steps A
load f = atomic (λ s. s) (λ s. ret (ok (f s)))

abbrev pub store : (Process → Process) → Steps (Unit {0})
store f = atomic f (λ _. ret (ok tt))
