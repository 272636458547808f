-- ===== src/Connection/Prog.antt =====
-- The language in which the calls of crates/taunicorn/src/lib.rs are modelled: a call is a tree of
-- the steps that others can come between, one atomic access to the shared state at a time, and of
-- the awaits, where the call sleeps until one branch of its `select!` is ready.
use taunicorn.Prelude.{ℕ, Bool, true, false, List}
use taunicorn.Outcome.{Error, Outcome, ok, err, dropped, waiting, fuel_out}
use taunicorn.Endpoint.{Io}
use taunicorn.Connection.{ConnectionCore}

pub data Gate : Type 0 where
  read_gate write_gate : Gate

pub data Token : Type 0 where
  close_token read_shutdown_token : Token

-- The branches of a `select!` beside the awaited operation.
pub record Select : Type 0 where
  pub on_close : Bool
  pub on_read_shutdown : Bool
  pub on_deadline : Bool

-- How an await ends: the operation is done, a token's branch is taken, the deadline has passed, or
-- the caller drops the future.
pub data Race (A : Type 0) : Type 0 where
  won : A → Race A
  cancelled : Token → Race A
  elapsed gone : Race A

pub data Sync : Type 0 where
  flush shutdown : Sync

-- `atomic f k` replaces the state `s` by `f s` and goes on with `k s`, in one step.
pub data Prog (A : Type 0) : Type 0 where
  ret : Outcome A → Prog A
  atomic : (ConnectionCore → ConnectionCore) → (ConnectionCore → Prog A) → Prog A
  lock : Gate → Select → (Race (Unit {0}) → Prog A) → Prog A
  read : ℕ → Select → (Race (Io (List ℕ)) → Prog A) → Prog A
  write : List ℕ → Select → (Race (Io ℕ) → Prog A) → Prog A
  sync : Sync → Select → (Race (Io (Unit {0})) → Prog A) → Prog A

abbrev pub resume : {A B : Type 0} → Outcome A → (A → Prog B) → Prog B
resume (ok a) f = f a
resume (err e) f = ret (err e)
resume dropped f = ret dropped
resume waiting f = ret waiting
resume fuel_out f = ret fuel_out

infixl 5 ◌>>=◌ ◌>>◌
abbrev pub ◌>>=◌ : {A B : Type 0} → Prog A → (A → Prog B) → Prog B
ret r >>= f = resume r f
atomic g k >>= f = atomic g (λ s. k s >>= f)
lock g q k >>= f = lock g q (λ x. k x >>= f)
read n q k >>= f = read n q (λ x. k x >>= f)
write b q k >>= f = write b q (λ x. k x >>= f)
sync y q k >>= f = sync y q (λ x. k x >>= f)

abbrev pub ◌>>◌ : {B : Type 0} → Prog (Unit {0}) → Prog B → Prog B
m >> k = m >>= λ _. k

abbrev pub pure : {A : Type 0} → A → Prog A
pure a = ret (ok a)

abbrev pub fail : {A : Type 0} → Error → Prog A
fail e = ret (err e)

abbrev pub bail_if : Bool → Error → Prog (Unit {0})
bail_if true e = ret (err e)
bail_if false e = ret (ok tt)

-- An atomic load, and an atomic store.
abbrev pub load : {A : Type 0} → (ConnectionCore → A) → Prog A
load f = atomic (λ s. s) (λ s. ret (ok (f s)))

abbrev pub store : (ConnectionCore → ConnectionCore) → Prog (Unit {0})
store f = atomic f (λ _. ret (ok tt))

abbrev pub set_gate : Gate → Bool → ConnectionCore → ConnectionCore
set_gate read_gate b s = record s { read_gate = b }
set_gate write_gate b s = record s { write_gate = b }

-- The rest of a function that holds a guard: the guard is dropped at every end of it.
abbrev pub holding : {A : Type 0} → Gate → Prog A → Prog A
holding g (ret r) = atomic (set_gate g false) (λ _. ret r)
holding g (atomic f k) = atomic f (λ s. holding g (k s))
holding g (lock h q k) = lock h q (λ x. holding g (k x))
holding g (read n q k) = read n q (λ x. holding g (k x))
holding g (write b q k) = write b q (λ x. holding g (k x))
holding g (sync y q k) = sync y q (λ x. holding g (k x))
