-- ===== src/Connection.antt =====
-- `ConnectionCore` and `Connection` of crates/taunicorn/src/lib.rs: the state that the calls of a
-- connection share. Its children: `Prog` is the language in which the calls are written, `Flags`
-- and `Calls` are the calls, `Exec` runs one call against an environment.
pub mod Prog
pub mod Flags
pub mod Calls
pub mod Exec
pub mod WriteLoop
pub mod Sending
pub mod Keeping
pub mod Calm
pub mod Parts
pub mod Turns
pub mod Kept
pub mod Closing
pub mod Together
pub mod Receiving
pub mod Ordered
pub mod Ready
pub mod Transport
pub mod Api
use taunicorn.Prelude.{ℕ, ◌+◌, ◌%◌, ◌^◌, Bool, true, false, Option, none, some, List, is_empty}
use taunicorn.Outcome.{Outcome, ok, ◌>>=◌, ◌>>◌, bail_if, endpoint_empty}
use taunicorn.Endpoint.{Endpoint, Io, or_io_error, get_async_socket_name}

-- The five atomic flags.
pub record ConnectionState : Type 0 where
  pub closed : Bool
  pub paused : Bool
  pub read_shutdown : Bool
  pub write_shutdown : Bool
  pub peer_sent_eof : Bool

-- `stream` is the handle in the mutex `stream`, and `poisoned` whether that mutex is poisoned; a
-- gate is true while some call holds it, a token is true once it is cancelled.
pub record ConnectionCore : Type 0 where
  pub id : ℕ
  pub endpoint : Endpoint
  pub local_endpoint : Option Endpoint
  pub peer_endpoint : Option Endpoint
  pub stream : Option ℕ
  pub poisoned : Bool
  pub state : ConnectionState
  pub open state use *
  pub read_gate : Bool
  pub write_gate : Bool
  pub close_token : Bool
  pub read_shutdown_token : Bool

-- `next_socket_id`: `fetch_add(1)` on an AtomicU64, which wraps. The value used, and the new counter.
unfoldable pub next_socket_id : ℕ → ℕ × ℕ
next_socket_id counter = (counter, (counter + 1) % 2 ^ 64)

-- `ConnectionCore::new`
unfoldable pub new : ℕ → ℕ → Endpoint → Option Endpoint → Option Endpoint → ConnectionCore × ℕ
unfolding next_socket_id
new counter stream endpoint local_endpoint peer_endpoint =
    let (id, counter') = next_socket_id counter in
    (
      record {
        id = id;
        endpoint = endpoint;
        local_endpoint = local_endpoint;
        peer_endpoint = peer_endpoint;
        stream = some stream;
        poisoned = false;
        state = record {
          closed = false;
          paused = false;
          read_shutdown = false;
          write_shutdown = false;
          peer_sent_eof = false;
        };
        read_gate = false;
        write_gate = false;
        close_token = false;
        read_shutdown_token = false;
      },
      counter',
    )

-- `Connection::from_accepted`
unfoldable pub from_accepted : ℕ → ℕ → Endpoint → ConnectionCore × ℕ
unfolding new
from_accepted counter stream server_endpoint =
    new counter stream server_endpoint (some server_endpoint) none

-- `Connection::connect`: the stream comes from the socket library, given the name.
unfoldable pub connect :
    (List ℕ → Io (List ℕ)) → (List ℕ → Io ℕ) → ℕ → Endpoint → Outcome (ConnectionCore × ℕ)
unfolding get_async_socket_name or_io_error new
connect to_ns_name raw_connect counter endpoint = do
  bail_if (is_empty endpoint.name) endpoint_empty
  socket_name ← get_async_socket_name to_ns_name endpoint.name
  stream ← or_io_error (raw_connect socket_name)
  ok (new counter stream endpoint none (some endpoint))
