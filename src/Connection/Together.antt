-- ===== src/Connection/Together.antt =====
-- Any number of calls on one connection (crates/taunicorn/src/lib.rs), each on a task of its own: they
-- interleave one atomic access at a time, and their awaits end in any way and any order.
pub mod Holder
pub mod Exclusive
use taunicorn.Prelude.{
  ℕ, ◌≡◌, refl, sym, ◌∙◌, ap, subst, Bool, true, false, Bool-cases, ◌⊎◌, inl, inr, Option, none,
  some, List, [], ◌∷◌, take, ◌==◌, ==_iff, if◌then◌else◌, arith,
}
use taunicorn.Endpoint.{Io, done, failed}
use taunicorn.Connection.{ConnectionCore}
use taunicorn.Connection.Prog.{
  Gate, read_gate, write_gate, Token, Select, Race, won, cancelled, elapsed, gone, Sync, Prog, ret,
  atomic, lock, read, write, sync, set_gate,
}
use taunicorn.Connection.Exec.{is_held}
use taunicorn.Connection.Keeping.{is_kept}
use taunicorn.Connection.Calm.{is_calm, same}
use taunicorn.Connection.Turns.{Turn, frees}
use taunicorn.Connection.Closing.{Call, perform, perform-Turn}

-- A task has taken the gate of the writers, or has handed bytes to the operating system.
pub data Event : Type 0 where
  took : ℕ → Event
  wrote : ℕ → List ℕ → Event

pub record Tasks : Type 0 where
  pub core : ConnectionCore
  pub tasks : ℕ → Prog (Unit {0})
  -- The latest first.
  pub log : List Event

abbrev pub go_on : ℕ → Prog (Unit {0}) → ConnectionCore → List Event → Tasks → Tasks
go_on i t core log s = record {
  core = core;
  tasks = λ j. if i == j then t else s.tasks j;
  log = log;
}

abbrev pub is_lost : Race (Unit {0}) → Bool
is_lost (won x) = false
is_lost _ = true

abbrev pub taken : Gate → ℕ → List Event → List Event
taken read_gate i log = log
taken write_gate i log = took i ∷ log

abbrev pub written : ℕ → List ℕ → Race (Io ℕ) → List Event → List Event
written i bytes (won (done n)) log = wrote i (take n bytes) ∷ log
written i bytes (won (failed e)) log = log
written i bytes (cancelled t) log = log
written i bytes elapsed log = log
written i bytes gone log = log

-- One step of one task. A gate is taken only while it is free; every other await may end as it likes.
pub data Step : Tasks → Tasks → Type 0 where
  accesses :
      (s : Tasks) (i : ℕ) (f : ConnectionCore → ConnectionCore)
      (k : ConnectionCore → Prog (Unit {0}))
      → s.tasks i ≡ atomic f k
      → Step s (go_on i (k s.core) (f s.core) s.log s)
  locks :
      (s : Tasks) (i : ℕ) (g : Gate) (q : Select) (k : Race (Unit {0}) → Prog (Unit {0}))
      → s.tasks i ≡ lock g q k
      → is_held g s.core ≡ false
      → Step s (go_on i (k (won tt)) (set_gate g true s.core) (taken g i s.log) s)
  leaves :
      (s : Tasks) (i : ℕ) (g : Gate) (q : Select) (k : Race (Unit {0}) → Prog (Unit {0}))
      (x : Race (Unit {0}))
      → s.tasks i ≡ lock g q k
      → is_lost x ≡ true
      → Step s (go_on i (k x) s.core s.log s)
  reads :
      (s : Tasks) (i : ℕ) (n : ℕ) (q : Select) (k : Race (Io (List ℕ)) → Prog (Unit {0}))
      (x : Race (Io (List ℕ)))
      → s.tasks i ≡ read n q k
      → Step s (go_on i (k x) s.core s.log s)
  writes :
      (s : Tasks) (i : ℕ) (b : List ℕ) (q : Select) (k : Race (Io ℕ) → Prog (Unit {0}))
      (x : Race (Io ℕ))
      → s.tasks i ≡ write b q k
      → Step s (go_on i (k x) s.core (written i b x s.log) s)
  syncs :
      (s : Tasks) (i : ℕ) (y : Sync) (q : Select) (k : Race (Io (Unit {0})) → Prog (Unit {0}))
      (x : Race (Io (Unit {0})))
      → s.tasks i ≡ sync y q k
      → Step s (go_on i (k x) s.core s.log s)

pub data Reach (s : Tasks) : Tasks → Type 0 where
  here : Reach s s
  next : {t u : Tasks} → Reach s t → Step t u → Reach s u

-- Every write is by the task that was the last to take the gate, so that the writes of one call stand
-- together and no other call's bytes come between them.
pub data Apart : List Event → Option ℕ → Type 0 where
  untouched : Apart [] none
  takes :
      {log : List Event} {last : Option ℕ} (i : ℕ) → Apart log last → Apart (took i ∷ log) (some i)
  goes_on :
      {log : List Event} (i : ℕ) (bytes : List ℕ)
      → Apart log (some i)
      → Apart (wrote i bytes ∷ log) (some i)

-- The calls before their first steps.
abbrev pub calls_on : ConnectionCore → (ℕ → Call) → Tasks
calls_on core calls = record { core = core; tasks = λ i. perform (calls i); log = [] }
