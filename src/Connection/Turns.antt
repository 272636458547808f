-- ===== src/Connection/Turns.antt =====
-- The discipline of the writers' gate in the calls of a connection (crates/taunicorn/src/lib.rs): a
-- call writes only while it has the gate, and frees it before it ends.
use taunicorn.Prelude.{
  ℕ, ◌≡◌, Bool, true, false, not, ◌&&◌, ◌⊎◌, inl, inr, List, if◌then◌else◌, arith,
}
use taunicorn.Outcome.{ok, err, dropped, waiting, fuel_out, connection_was_closed}
use taunicorn.Endpoint.{Io}
use taunicorn.Connection.{ConnectionCore}
use taunicorn.Connection.Prog.{
  read_gate, write_gate, Token, close_token, read_shutdown_token, Select, Race, won, cancelled,
  elapsed, gone, Prog, ret, atomic, lock, read, write, sync, ◌>>=◌, ◌>>◌, holding, set_gate,
}
use taunicorn.Connection.Calls.{settle, take_gate}
use taunicorn.Connection.Keeping.{is_kept, Keeps}
use taunicorn.Connection.Calm.{is_calm, Calm}

-- The step frees the gate of the writers.
abbrev pub frees : ConnectionCore → ConnectionCore → Bool
frees s t = is_kept s t && not t.write_gate

-- A call that has the gate (`true`) or not (`false`), from here to its end. It takes the gate by its
-- lock only, writes, flushes and shuts down the stream only with it, and ends without it.
abbrev pub Turn : {A : Type 0} → Bool → Prog A → Type 0
Turn false (ret r) = Unit
Turn true (ret r) = ⊥
Turn false (atomic f k) =
    ((s : ConnectionCore) → is_calm s (f s) ≡ true) × ((s : ConnectionCore) → Turn false (k s))
Turn true (atomic f k) =
    (((s : ConnectionCore) → is_calm s (f s) ≡ true) × ((s : ConnectionCore) → Turn true (k s)))
    ⊎ (((s : ConnectionCore) → frees s (f s) ≡ true) × ((s : ConnectionCore) → Turn false (k s)))
Turn false (lock read_gate q k) = (x : Race (Unit {0})) → Turn false (k x)
Turn true (lock read_gate q k) = ⊥
Turn false (lock write_gate q k) =
    Turn true (k (won tt))
    × ((t : Token) → Turn false (k (cancelled t)))
    × Turn false (k elapsed)
    × Turn false (k gone)
Turn true (lock write_gate q k) = ⊥
Turn b (read n q k) = (x : Race (Io (List ℕ))) → Turn b (k x)
Turn false (write b q k) = ⊥
Turn true (write b q k) = (x : Race (Io ℕ)) → Turn true (k x)
Turn false (sync y q k) = ⊥
Turn true (sync y q k) = (x : Race (Io (Unit {0}))) → Turn true (k x)

pub bind-Turn :
    {A B : Type 0} (b : Bool) (m : Prog A) (f : A → Prog B)
    → Turn b m
    → ((a : A) → Turn false (f a))
    → Turn b (m >>= f)
bind-Turn false (ret (ok a)) f h k = k a
bind-Turn false (ret (err e)) f h k = tt
bind-Turn false (ret dropped) f h k = tt
bind-Turn false (ret waiting) f h k = tt
bind-Turn false (ret fuel_out) f h k = tt
bind-Turn true (ret r) f h k = absurd h
bind-Turn false (atomic g go) f (h, t) k = (h, λ s. bind-Turn false (go s) f (t s) k)
bind-Turn true (atomic g go) f (inl (h, t)) k = inl (h, λ s. bind-Turn true (go s) f (t s) k)
bind-Turn true (atomic g go) f (inr (h, t)) k = inr (h, λ s. bind-Turn false (go s) f (t s) k)
bind-Turn false (lock read_gate q go) f h k = λ x. bind-Turn false (go x) f (h x) k
bind-Turn true (lock read_gate q go) f h k = absurd h
bind-Turn false (lock write_gate q go) f (h, t, e, g) k = (
  bind-Turn true (go (won tt)) f h k,
  (λ x. bind-Turn false (go (cancelled x)) f (t x) k),
  bind-Turn false (go elapsed) f e k,
  bind-Turn false (go gone) f g k,
)
bind-Turn true (lock write_gate q go) f h k = absurd h
bind-Turn false (read n q go) f h k = λ x. bind-Turn false (go x) f (h x) k
bind-Turn true (read n q go) f h k = λ x. bind-Turn true (go x) f (h x) k
bind-Turn false (write b q go) f h k = absurd h
bind-Turn true (write b q go) f h k = λ x. bind-Turn true (go x) f (h x) k
bind-Turn false (sync y q go) f h k = absurd h
bind-Turn true (sync y q go) f h k = λ x. bind-Turn true (go x) f (h x) k

pub if-Turn :
    {A : Type 0} (b : Bool) (m n : Prog A)
    → Turn false m
    → Turn false n
    → Turn false (if b then m else n)
if-Turn true m n h k = h
if-Turn false m n h k = k

-- A part with no await needs no gate.
pub Calm-Turn : {A : Type 0} (m : Prog A) → Calm false m → Turn false m
Calm-Turn (ret r) h = tt
Calm-Turn (atomic f k) (h, t) = (h, λ s. Calm-Turn (k s) (t s))
Calm-Turn (lock g q k) h = absurd h
Calm-Turn (read n q k) (e, h) = cc
Calm-Turn (write b q k) (e, h) = cc
Calm-Turn (sync y q k) (e, h) = cc

frees_set : (s : ConnectionCore) → frees s (set_gate write_gate false s) ≡ true
frees_set s = ground arith

-- A part that takes no gate, under the guard of the writers' gate.
pub holding-Turn : {A : Type 0} (m : Prog A) → Calm true m → Turn true (holding write_gate m)
holding-Turn (ret r) h = inr (frees_set, λ s. tt)
holding-Turn (atomic f k) (h, t) = inl (h, λ s. holding-Turn (k s) (t s))
holding-Turn (lock g q k) h = absurd h
holding-Turn (read n q k) (e, h) = λ x. holding-Turn (k x) (h x)
holding-Turn (write b q k) (e, h) = λ x. holding-Turn (k x) (h x)
holding-Turn (sync y q k) (e, h) = λ x. holding-Turn (k x) (h x)

calm_set : (s : ConnectionCore) → is_calm s (set_gate read_gate false s) ≡ true
calm_set s = ground arith

-- The guard of the readers' gate does not matter to the writers.
pub read_guard-Turn : {A : Type 0} (b : Bool) (m : Prog A) → Turn b m → Turn b (holding read_gate m)
read_guard-Turn false (ret r) h = (calm_set, λ s. tt)
read_guard-Turn true (ret r) h = absurd h
read_guard-Turn false (atomic f k) (h, t) = (h, λ s. read_guard-Turn false (k s) (t s))
read_guard-Turn true (atomic f k) (inl (h, t)) = inl (h, λ s. read_guard-Turn true (k s) (t s))
read_guard-Turn true (atomic f k) (inr (h, t)) = inr (h, λ s. read_guard-Turn false (k s) (t s))
read_guard-Turn false (lock read_gate q k) h = λ x. read_guard-Turn false (k x) (h x)
read_guard-Turn true (lock read_gate q k) h = absurd h
read_guard-Turn false (lock write_gate q k) (h, t, e, g) = (
  read_guard-Turn true (k (won tt)) h,
  (λ x. read_guard-Turn false (k (cancelled x)) (t x)),
  read_guard-Turn false (k elapsed) e,
  read_guard-Turn false (k gone) g,
)
read_guard-Turn true (lock write_gate q k) h = absurd h
read_guard-Turn false (read n q k) h = λ x. read_guard-Turn false (k x) (h x)
read_guard-Turn true (read n q k) h = λ x. read_guard-Turn true (k x) (h x)
read_guard-Turn false (write b q k) h = absurd h
read_guard-Turn true (write b q k) h = λ x. read_guard-Turn true (k x) (h x)
read_guard-Turn false (sync y q k) h = absurd h
read_guard-Turn true (sync y q k) h = λ x. read_guard-Turn true (k x) (h x)

-- The gate taken, and a part under its guard.
pub gated-Turn :
    {A : Type 0} (q : Select) (m : Prog A)
    → Calm true m
    → Turn false (take_gate write_gate q >> holding write_gate m)
unfolding settle
gated-Turn q m h = (holding-Turn m h, lost, tt, tt)
  where
    lost :
        (t : Token)
        → let r : Prog (Unit {0}) = ret (settle connection_was_closed (cancelled t)) in
          Turn false (r >> holding write_gate m)
    lost close_token = tt
    lost read_shutdown_token = tt

-- The discipline keeps the terminal state.
calm_kept : (s t : ConnectionCore) → is_calm s t ≡ true → is_kept s t ≡ true
calm_kept s t h = ground arith

frees_kept : (s t : ConnectionCore) → frees s t ≡ true → is_kept s t ≡ true
frees_kept s t h = ground arith

locked-Keeps :
    {A : Type 0} (k : Race (Unit {0}) → Prog A)
    → Keeps (k (won tt))
    → ((t : Token) → Keeps (k (cancelled t)))
    → Keeps (k elapsed)
    → Keeps (k gone)
    → (x : Race (Unit {0})) → Keeps (k x)
locked-Keeps k h t e g (won y) = h
locked-Keeps k h t e g (cancelled x) = t x
locked-Keeps k h t e g elapsed = e
locked-Keeps k h t e g gone = g

pub Turn-Keeps : {A : Type 0} (b : Bool) (m : Prog A) → Turn b m → Keeps m
Turn-Keeps b (ret r) h = tt
Turn-Keeps false (atomic f k) (h, t) =
    ((λ s. calm_kept s (f s) (h s)), λ s. Turn-Keeps false (k s) (t s))
Turn-Keeps true (atomic f k) (inl (h, t)) =
    ((λ s. calm_kept s (f s) (h s)), λ s. Turn-Keeps true (k s) (t s))
Turn-Keeps true (atomic f k) (inr (h, t)) =
    ((λ s. frees_kept s (f s) (h s)), λ s. Turn-Keeps false (k s) (t s))
Turn-Keeps false (lock read_gate q k) h = λ x. Turn-Keeps false (k x) (h x)
Turn-Keeps true (lock read_gate q k) h = absurd h
Turn-Keeps false (lock write_gate q k) (h, t, e, g) =
    locked-Keeps k (Turn-Keeps true (k (won tt)) h) (λ x. Turn-Keeps false (k (cancelled x)) (t x))
      (Turn-Keeps false (k elapsed) e) (Turn-Keeps false (k gone) g)
Turn-Keeps true (lock write_gate q k) h = absurd h
Turn-Keeps false (read n q k) h = λ x. Turn-Keeps false (k x) (h x)
Turn-Keeps true (read n q k) h = λ x. Turn-Keeps true (k x) (h x)
Turn-Keeps false (write b q k) h = absurd h
Turn-Keeps true (write b q k) h = λ x. Turn-Keeps true (k x) (h x)
Turn-Keeps false (sync y q k) h = absurd h
Turn-Keeps true (sync y q k) h = λ x. Turn-Keeps true (k x) (h x)
