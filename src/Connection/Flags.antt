-- ===== src/Connection/Flags.antt =====
-- The methods of `ConnectionState` of crates/taunicorn/src/lib.rs. Every load, store and swap of an
-- atomic is one step.
use taunicorn.Prelude.{Bool, true, false, not, if◌then◌else◌}
use taunicorn.Connection.{ConnectionCore, ConnectionState}
use taunicorn.Connection.Prog.{Prog, atomic, ◌>>=◌, ◌>>◌, pure, load, store}

-- A write to one of the flags.
abbrev pub with_state : (ConnectionState → ConnectionState) → ConnectionCore → ConnectionCore
with_state f s = record s { state = f (s.state) }

abbrev pub set_closed : Bool → ConnectionCore → ConnectionCore
set_closed b = with_state (λ x. record x { closed = b })

abbrev pub set_paused : Bool → ConnectionCore → ConnectionCore
set_paused b = with_state (λ x. record x { paused = b })

abbrev pub set_read_shutdown : Bool → ConnectionCore → ConnectionCore
set_read_shutdown b = with_state (λ x. record x { read_shutdown = b })

abbrev pub set_write_shutdown : Bool → ConnectionCore → ConnectionCore
set_write_shutdown b = with_state (λ x. record x { write_shutdown = b })

abbrev pub set_peer_sent_eof : Bool → ConnectionCore → ConnectionCore
set_peer_sent_eof b = with_state (λ x. record x { peer_sent_eof = b })

unfoldable pub is_closed : Prog Bool
is_closed = load (λ s. s.closed)

unfoldable pub is_paused : Prog Bool
is_paused = load (λ s. s.paused)

unfoldable pub is_read_shutdown : Prog Bool
is_read_shutdown = load (λ s. s.read_shutdown)

unfoldable pub is_write_shutdown : Prog Bool
is_write_shutdown = load (λ s. s.write_shutdown)

unfoldable pub peer_sent_eof : Prog Bool
peer_sent_eof = load (λ s. s.peer_sent_eof)

unfoldable pub pause : Prog (Unit {0})
unfolding is_closed
pause = do closed ← is_closed; if not closed then store (set_paused true) else pure tt

-- `resume`
unfoldable pub unpause : Prog (Unit {0})
unfolding is_closed
unpause = do closed ← is_closed; if not closed then store (set_paused false) else pure tt

-- `ConnectionState::close`: true for the first full-close transition only.
unfoldable pub close : Prog Bool
close = do
  was_closed ← atomic (set_closed true) (λ s. pure (s.closed))
  store (set_paused false)
  store (set_read_shutdown true)
  store (set_write_shutdown true)
  pure (not was_closed)

-- `Connection::is_available`
unfoldable pub is_available : Prog Bool
unfolding is_closed is_paused
is_available = do
  closed ← is_closed
  if not closed then (do paused ← is_paused; pure (not paused)) else pure false
