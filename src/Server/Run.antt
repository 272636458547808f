-- ===== src/Server/Run.antt =====
-- One call of a server (crates/taunicorn/src/lib.rs) against the other calls and the socket library:
-- before each of its steps, the others may change the shared state.
use taunicorn.Prelude.{
  ℕ, suc, Bool, true, false, ◌||◌, not, ◌&&◌, Option, none, some, ◌≡◌, if◌then◌else◌,
}
use taunicorn.Outcome.{Outcome, waiting}
use taunicorn.Server.{Process}
use taunicorn.Server.Steps.{
  Accepted, arrived, stop_cancelled, elapsed, gone, Steps, ret, atomic, await_client,
}

-- What the others do before a step, and how an await that is this step ends.
pub record Turn : Type 0 where
  pub meddle : Process → Process
  pub ended : Accepted

-- A branch of the `select!` is taken only if it is ready.
abbrev pub is_ready : Process → Bool → Accepted → Bool
is_ready p d (arrived x) = true
is_ready p d stop_cancelled = p.server.stop_token
is_ready p d elapsed = d
is_ready p d gone = true

abbrev pub later : (ℕ → Turn) → ℕ → Turn
later script n = script (suc n)

unfoldable pub run : {A : Type 0} → Steps A → (ℕ → Turn) → Process → Outcome A × Process
run (ret r) script p = (r, p)
run (atomic f k) script p = let q = (script 0).meddle p in run (k q) (later script) (f q)
run (await_client h d k) script p =
    let q = (script 0).meddle p in
    let rest = run (k (script 0).ended) (later script) q in
    if is_ready q d (script 0).ended then rest else (waiting, q)

abbrev implies : Bool → Bool → Bool
implies a b = not a || b

abbrev pub is_none : Option ℕ → Bool
is_none none = true
is_none (some _) = false

-- What no step takes back: a stop, the cancelled token, and the listener's release.
abbrev pub is_kept : Process → Process → Bool
is_kept p q =
    implies p.server.stopped q.server.stopped
    && implies p.server.stop_token q.server.stop_token
    && implies (is_none p.server.inner) (is_none q.server.inner)

-- Every step of a call keeps these, in whatever state it comes.
abbrev pub Keeps : {A : Type 0} → Steps A → Type 0
Keeps (ret r) = Unit
Keeps (atomic f k) = ((p : Process) → is_kept p (f p) ≡ true) × ((p : Process) → Keeps (k p))
Keeps (await_client h d k) = (x : Accepted) → Keeps (k x)
