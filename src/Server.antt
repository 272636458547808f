-- ===== src/Server.antt =====
-- `ServerState` and `Server` of crates/taunicorn/src/lib.rs: the state that the calls of a server
-- share. Its children: `Steps` is the language of the calls, `Calls` are the calls, and `Run` runs
-- one call against the others.
pub mod Steps
pub mod Calls
pub mod Run
pub mod Stopping
use taunicorn.Prelude.{ℕ, Bool, false, Option, some, List}
use taunicorn.Outcome.{Outcome, ok, ◌>>=◌}
use taunicorn.Endpoint.{Endpoint, Io, or_io_error, get_async_socket_name}
use taunicorn.Endpoint as Endpoints

pub record ServerState : Type 0 where
  pub stopped : Bool
  pub paused : Bool

-- `inner` is the listener in the mutex, and `poisoned` whether that mutex is poisoned.
pub record Server : Type 0 where
  pub inner : Option ℕ
  pub poisoned : Bool
  pub endpoint : Endpoint
  pub state : ServerState
  pub open state use *
  pub stop_token : Bool

-- The server and the counter `NEXT_SOCKET_ID` of the process.
pub record Process : Type 0 where
  pub server : Server
  pub next_id : ℕ

-- `Server::bind` on Unix: the listener comes from the socket library, given the name and the mode.
unfoldable pub bind :
    (List ℕ → Io (List ℕ)) → (List ℕ → Option ℕ → Io ℕ) → List ℕ → Option ℕ → Outcome Server
unfolding get_async_socket_name Endpoints.new or_io_error
bind to_ns_name create_tokio name mode = do
  endpoint ← Endpoints.new name
  socket_name ← get_async_socket_name to_ns_name endpoint.name
  listener ← or_io_error (create_tokio socket_name mode)
  ok (record {
    inner = some listener;
    poisoned = false;
    endpoint = endpoint;
    state = record { stopped = false; paused = false };
    stop_token = false;
  })
