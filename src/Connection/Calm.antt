-- ===== src/Connection/Calm.antt =====
-- The parts of the calls of a connection (crates/taunicorn/src/lib.rs) that take no gate: they leave
-- the gates as they are, and keep the terminal state.
use taunicorn.Prelude.{ℕ, ◌≡◌, Bool, true, false, not, ◌&&◌, List, if◌then◌else◌, arith}
use taunicorn.Outcome.{Error, ok, err, dropped, waiting, fuel_out}
use taunicorn.Endpoint.{Io}
use taunicorn.Connection.{ConnectionCore}
use taunicorn.Connection.Prog.{Race, Prog, ret, atomic, lock, read, write, sync, ◌>>=◌, bail_if}
use taunicorn.Connection.Keeping.{is_kept, Keeps}

abbrev pub same : Bool → Bool → Bool
same a b = if a then b else not b

-- The terminal state is kept, and the gate of the writers is as before.
abbrev pub is_calm : ConnectionCore → ConnectionCore → Bool
is_calm s t = is_kept s t && same s.write_gate t.write_gate

-- No step of the part takes or frees a gate; without `io` it has no await at all.
abbrev pub Calm : {A : Type 0} → Bool → Prog A → Type 0
Calm io (ret r) = Unit
Calm io (atomic f k) =
    ((s : ConnectionCore) → is_calm s (f s) ≡ true) × ((s : ConnectionCore) → Calm io (k s))
Calm io (lock g q k) = ⊥
Calm io (read n q k) = (io ≡ true) × ((x : Race (Io (List ℕ))) → Calm io (k x))
Calm io (write b q k) = (io ≡ true) × ((x : Race (Io ℕ)) → Calm io (k x))
Calm io (sync y q k) = (io ≡ true) × ((x : Race (Io (Unit {0}))) → Calm io (k x))

pub calm_refl : (s : ConnectionCore) → is_calm s s ≡ true
calm_refl s = ground arith

module _ (io : Bool) where
  pub bind-Calm :
      {A B : Type 0} (m : Prog A) (f : A → Prog B)
      → Calm io m
      → ((a : A) → Calm io (f a))
      → Calm io (m >>= f)
  bind-Calm (ret (ok a)) f h k = k a
  bind-Calm (ret (err e)) f h k = tt
  bind-Calm (ret dropped) f h k = tt
  bind-Calm (ret waiting) f h k = tt
  bind-Calm (ret fuel_out) f h k = tt
  bind-Calm (atomic g go) f (h, t) k = (h, λ s. bind-Calm (go s) f (t s) k)
  bind-Calm (lock g q go) f h k = absurd h
  bind-Calm (read n q go) f (e, h) k = (e, λ x. bind-Calm (go x) f (h x) k)
  bind-Calm (write b q go) f (e, h) k = (e, λ x. bind-Calm (go x) f (h x) k)
  bind-Calm (sync y q go) f (e, h) k = (e, λ x. bind-Calm (go x) f (h x) k)

  pub if-Calm :
      {A : Type 0} (b : Bool) (m n : Prog A) → Calm io m → Calm io n → Calm io (if b then m else n)
  if-Calm true m n h k = h
  if-Calm false m n h k = k

  pub bail-Calm : (b : Bool) (e : Error) → Calm io (bail_if b e)
  bail-Calm true e = tt
  bail-Calm false e = tt

kept_of : (s t : ConnectionCore) → is_calm s t ≡ true → is_kept s t ≡ true
kept_of s t h = ground arith

pub Calm-Keeps : {A : Type 0} (io : Bool) (m : Prog A) → Calm io m → Keeps m
Calm-Keeps io (ret r) h = tt
Calm-Keeps io (atomic f k) (h, t) = ((λ s. kept_of s (f s) (h s)), λ s. Calm-Keeps io (k s) (t s))
Calm-Keeps io (lock g q k) h = absurd h
Calm-Keeps io (read n q k) (e, h) = λ x. Calm-Keeps io (k x) (h x)
Calm-Keeps io (write b q k) (e, h) = λ x. Calm-Keeps io (k x) (h x)
Calm-Keeps io (sync y q k) (e, h) = λ x. Calm-Keeps io (k x) (h x)
