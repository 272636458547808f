-- ===== src/Server/Calls.antt =====
-- The methods of `ServerState` and `Server` of crates/taunicorn/src/lib.rs.
use taunicorn.Prelude.{ℕ, Bool, true, false, not, Option, none, some, if◌then◌else◌}
use taunicorn.Outcome.{
  Outcome, err, dropped, server_is_stopped, server_poisoned, server_is_paused, server_was_stopped,
  accept_timed_out,
}
use taunicorn.Endpoint.{Endpoint, or_io_error}
use taunicorn.Connection.{ConnectionCore, from_accepted, new, next_socket_id}
use taunicorn.Server.{Process, Server}
use taunicorn.Server.Steps.{
  Accepted, arrived, stop_cancelled, elapsed, gone, Steps, ret, atomic, await_client, ◌>>=◌, ◌>>◌,
  pure, fail, bail_if, load, store,
}

-- A write to the server's part of the state.
abbrev pub with_server : (Server → Server) → Process → Process
with_server f p = record p { server = f (p.server) }

abbrev pub set_stopped : Bool → Process → Process
set_stopped b = with_server (λ s. record s { state = record (s.state) { stopped = b } })

abbrev pub set_paused : Bool → Process → Process
set_paused b = with_server (λ s. record s { state = record (s.state) { paused = b } })

abbrev pub cancel : Process → Process
cancel = with_server (λ s. record s { stop_token = true })

abbrev pub take_listener : Process → Process
take_listener = with_server (λ s. record s { inner = if s.poisoned then s.inner else none })

unfoldable pub is_stopped : Steps Bool
is_stopped = load (λ p. p.server.stopped)

unfoldable pub is_paused : Steps Bool
is_paused = load (λ p. p.server.paused)

unfoldable pub pause : Steps (Unit {0})
unfolding is_stopped
pause = do stopped ← is_stopped; if not stopped then store (set_paused true) else pure tt

-- `resume`
unfoldable pub unpause : Steps (Unit {0})
unfolding is_stopped
unpause = do stopped ← is_stopped; if not stopped then store (set_paused false) else pure tt

-- `ServerState::stop`
unfoldable pub stop : Steps Bool
stop = do
  was_stopped ← atomic (set_stopped true) (λ p. pure (p.server.stopped))
  store (set_paused false)
  pure (not was_stopped)

-- `Server::stop_now`, which `stop` and `close` call.
unfoldable pub stop_now : Steps (Unit {0})
unfolding stop
stop_now = do
  first ← stop
  if first
      then (do
        store cancel
        atomic take_listener (λ p. if p.server.poisoned then fail server_poisoned else pure tt))
      else pure tt

-- `self.inner.lock()`, then a clone of the handle.
abbrev pub clone_of : Bool × Option ℕ → Steps ℕ
clone_of (true, h) = fail server_poisoned
clone_of (false, none) = fail server_is_stopped
clone_of (false, some handle) = pure handle

unfoldable pub listener : Steps ℕ
unfolding is_stopped
listener = do
  stopped ← is_stopped
  bail_if stopped server_is_stopped
  clone_of (← load (λ p. (p.server.poisoned, p.server.inner)))

-- What the `select!` of `accept` returns, and the timeout around it.
unfoldable pub settle : Accepted → Outcome ℕ
unfolding or_io_error
settle (arrived x) = or_io_error x
settle stop_cancelled = err server_was_stopped
settle elapsed = err accept_timed_out
settle gone = dropped

-- `Connection::from_accepted`, whose one step on the shared state is the counter's.
unfoldable pub connection_of : ℕ → Process → Steps ConnectionCore
unfolding from_accepted new next_socket_id
connection_of stream p = pure (from_accepted p.next_id stream p.server.endpoint).0

unfoldable pub count : Process → Process
unfolding next_socket_id
count p = record p { next_id = (next_socket_id p.next_id).1 }

unfoldable pub accept_until : Bool → Steps ConnectionCore
unfolding is_paused listener settle connection_of count
accept_until deadline = do
  paused ← is_paused
  bail_if paused server_is_paused
  handle ← listener
  stream ← await_client handle deadline (λ x. ret (settle x))
  atomic count (connection_of stream)

unfoldable pub accept : Steps ConnectionCore
unfolding accept_until
accept = accept_until false

unfoldable pub accept_timeout : Steps ConnectionCore
unfolding accept_until
accept_timeout = accept_until true

unfoldable pub is_accepting : Steps Bool
unfolding is_stopped is_paused
is_accepting = do
  stopped ← is_stopped
  if not stopped then (do paused ← is_paused; pure (not paused)) else pure false

pub record ServerInfo : Type 0 where
  pub local_endpoint : Endpoint
  pub is_stopped : Bool
  pub is_paused : Bool

unfoldable pub info : Steps ServerInfo
unfolding is_stopped is_paused
info = do
  endpoint ← load (λ p. p.server.endpoint)
  stopped ← is_stopped
  paused ← is_paused
  pure (record { local_endpoint = endpoint; is_stopped = stopped; is_paused = paused })
