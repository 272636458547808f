-- ===== src/Python/Slot/Handle.antt =====
-- The queries of `ConnectionHandle` of crates/taunicorn-python/src/lib.rs, given which tokens are
-- cancelled and the state of the connection behind the handle.
use taunicorn.Prelude.{ℕ, ◌≡◌, Bool, true, not, ◌&&◌, ◌||◌, if◌then◌else◌, arith}
use taunicorn.Connection.{ConnectionCore}
use taunicorn.Connection.Api.{ConnectionInfo}
use taunicorn.Python.Slot.{ConnectionHandle, plain_handle, secure_handle}

unfoldable pub is_closed : ConnectionHandle → (ℕ → Bool) → ConnectionCore → Bool
is_closed plain_handle cancelled s = s.closed
is_closed (secure_handle t) cancelled s = cancelled t || s.closed

module _ (h : ConnectionHandle) (cancelled : ℕ → Bool) (s : ConnectionCore) where
  unfoldable pub is_started : Bool
  unfolding is_closed
  is_started = not (is_closed h cancelled s)

  unfoldable pub is_available : Bool
  unfolding is_closed
  is_available = not (is_closed h cancelled s) && not s.paused

  unfoldable pub is_read_shutdown : Bool
  unfolding is_closed
  is_read_shutdown = is_closed h cancelled s || s.read_shutdown

  unfoldable pub is_write_shutdown : Bool
  unfolding is_closed
  is_write_shutdown = is_closed h cancelled s || s.write_shutdown

  -- `info` of the connection, with the flags of a handle that is closed.
  unfoldable pub info : ConnectionInfo
  unfolding is_closed
  info =
      let closed = is_closed h cancelled s in
      record {
        id = s.id;
        local_endpoint = s.local_endpoint;
        peer_endpoint = s.peer_endpoint;
        is_closed = if closed then true else s.closed;
        is_read_shutdown = if closed then true else s.read_shutdown;
        is_write_shutdown = if closed then true else s.write_shutdown;
        peer_sent_eof = s.peer_sent_eof;
      }

-- Whichever the handle and the state, `info` says of the three flags what the queries say.
pub info_consistent :
    (h : ConnectionHandle) (cancelled : ℕ → Bool) (s : ConnectionCore)
    → ((info h cancelled s).is_closed ≡ is_closed h cancelled s)
      × ((info h cancelled s).is_read_shutdown ≡ is_read_shutdown h cancelled s)
      × ((info h cancelled s).is_write_shutdown ≡ is_write_shutdown h cancelled s)
unfolding info is_read_shutdown is_write_shutdown
info_consistent plain_handle cancelled s = ground arith
info_consistent (secure_handle t) cancelled s = ground arith
