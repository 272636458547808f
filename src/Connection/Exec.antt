-- ===== src/Connection/Exec.antt =====
-- One call of crates/taunicorn/src/lib.rs against an environment: the operating system, the peer,
-- and the other calls of the connection, which may change the shared state during every await.
pub mod Rounds
use Prim.Native.Nat.{min}
use taunicorn.Prelude.{
  ℕ, zero, suc, Bool, true, false, not, ◌&&◌, ◌==◌, Option, none, some, List, [], ◌++◌, length,
  take, drop, is_empty, if◌then◌else◌,
}
use taunicorn.Outcome.{IoError, Outcome, waiting}
use taunicorn.Endpoint.{Io, done, failed}
use taunicorn.Connection.{ConnectionCore}
use taunicorn.Connection.Prog.{
  Gate, read_gate, write_gate, Token, close_token, read_shutdown_token, Select, Race, won,
  cancelled, elapsed, gone, Sync, Prog, ret, atomic, lock, read, write, sync, set_gate,
}

-- What happens during one await: what the others do to the state, and then how the await ends. The
-- number is the most bytes that are read or written.
pub record Event : Type 0 where
  pub meddle : ConnectionCore → ConnectionCore
  pub pick : Race (Io ℕ)

-- `sent` is what the operating system has taken of this call's writes, `inbound` what has arrived
-- and is unread, and `peer_finished` whether the peer sends no more.
pub record World : Type 0 where
  pub core : ConnectionCore
  pub sent : List ℕ
  pub inbound : List ℕ
  pub peer_finished : Bool
  pub script : ℕ → Event

-- The state when the await is over.
abbrev pub after_meddling : World → World
after_meddling w = record w { core = (w.script 0).meddle w.core; script = λ n. w.script (suc n) }

-- A token's branch is taken only if the `select!` has it and the token is cancelled.
abbrev pub is_ready : Select → ConnectionCore → Token → Bool
is_ready q s close_token = q.on_close && s.close_token
is_ready q s read_shutdown_token = q.on_read_shutdown && s.read_shutdown_token

abbrev pub is_held : Gate → ConnectionCore → Bool
is_held read_gate s = s.read_gate
is_held write_gate s = s.write_gate

-- The branches beside the operation; `none` where the call goes on waiting.
module _ {A : Type 0} (q : Select) (w : World) (finish : Io ℕ → Option (Race A × World)) where
  abbrev pub answer : Race (Io ℕ) → Option (Race A × World)
  answer (won x) = finish x
  answer (cancelled t) = if is_ready q w.core t then some (cancelled t, w) else none
  answer elapsed = if q.on_deadline then some (elapsed, w) else none
  answer gone = some (gone, w)

-- A gate is taken if it is free.
abbrev pub finish_lock : Gate → World → Io ℕ → Option (Race (Unit {0}) × World)
finish_lock g w _ =
    if not (is_held g w.core)
    then some (won tt, record w { core = set_gate g true w.core })
    else none

-- A read returns bytes that have arrived, no more than asked for and than picked; it returns none
-- if all are read and the peer has finished, and waits if all are read and it has not.
abbrev pub finish_read : ℕ → World → Io ℕ → Option (Race (Io (List ℕ)) × World)
finish_read n w (failed e) = some (won (failed e), w)
finish_read n w (done k) =
    if is_empty w.inbound
    then (if w.peer_finished then some (won (done []), w) else none)
    else if 0 == min k n
    then none
    else some
        (won (done (take (min k n) w.inbound)), record w { inbound = drop (min k n) w.inbound })

-- A write takes a front part of the bytes, as much as picked.
abbrev pub finish_write : List ℕ → World → Io ℕ → Option (Race (Io ℕ) × World)
finish_write bytes w (failed e) = some (won (failed e), w)
finish_write bytes w (done k) = some (
  won (done (min k (length bytes))),
  record w { sent = w.sent ++ take (min k (length bytes)) bytes },
)

abbrev pub finish_sync : World → Io ℕ → Option (Race (Io (Unit {0})) × World)
finish_sync w (done _) = some (won (done tt), w)
finish_sync w (failed e) = some (won (failed e), w)

-- The call goes on with the answer, or goes on waiting.
abbrev pub deliver :
    {X A : Type 0}
    → Option (X × World)
    → (X → World → Outcome A × World)
    → World
    → Outcome A × World
deliver none go w = (waiting, w)
deliver (some (x, w')) go w = go x w'

unfoldable pub run : {A : Type 0} → Prog A → World → Outcome A × World
run (ret r) w = (r, w)
run (atomic f k) w = run (k w.core) (record w { core = f w.core })
run (lock g q k) w =
    let w' = after_meddling w in
    deliver (answer q w' (finish_lock g w') (w.script 0).pick) (λ x. run (k x)) w'
run (read n q k) w =
    let w' = after_meddling w in
    deliver (answer q w' (finish_read n w') (w.script 0).pick) (λ x. run (k x)) w'
run (write b q k) w =
    let w' = after_meddling w in
    deliver (answer q w' (finish_write b w') (w.script 0).pick) (λ x. run (k x)) w'
run (sync y q k) w =
    let w' = after_meddling w in
    deliver (answer q w' (finish_sync w') (w.script 0).pick) (λ x. run (k x)) w'
