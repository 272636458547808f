-- ===== src/Tests/Servers.antt =====
-- Runs of the calls of a server of crates/taunicorn/src/lib.rs.
use taunicorn.Prelude.{ℕ, zero, suc, ◌≡◌, refl, true, false, some, [], ◌∷◌, arith}
use taunicorn.Outcome.{ok, err, server_is_stopped, server_is_paused}
use taunicorn.Endpoint.{Endpoint, done, or_io_error}
use taunicorn.Connection.{ConnectionCore, from_accepted, new, next_socket_id}
use taunicorn.Server.{Process}
use taunicorn.Server.Steps.{arrived, gone}
use taunicorn.Server.Calls.{
  pause, set_paused, set_stopped, accept, accept_timeout, accept_until, is_paused, is_stopped,
  listener, settle, connection_of, count,
}
use taunicorn.Server.Run.{Turn, run, is_kept}
use taunicorn.Server.Stopping.{run-Keeps, calls-Keeps, stopped_refuses}

abbrev endpoint : Endpoint
endpoint = record { name = 97 ∷ [] }

-- A server with the listener 5, and the next connection the forty-second.
abbrev process : Process
process = record {
  server = record {
    inner = some 5;
    poisoned = false;
    endpoint = endpoint;
    state = record { stopped = false; paused = false };
    stop_token = false;
  };
  next_id = 42;
}

-- The others do nothing, and each await ends with the stream 6.
abbrev quiet : ℕ → Turn
quiet n = record { meddle = λ p. p; ended = arrived (done 6) }

quiet-obeys : (n : ℕ) (p : Process) → is_kept p ((quiet n).meddle p) ≡ true
quiet-obeys n p = ground arith

run-Keeps_example : is_kept process (run accept quiet process).1 ≡ true
run-Keeps_example = run-Keeps accept quiet process quiet-obeys calls-Keeps.3

abbrev stopped_process : Process
stopped_process = record process {
  server = record (process.server) { state = record { stopped = true; paused = false } };
}

stopped_refuses_example :
    ((run accept quiet stopped_process).0 ≡ err server_is_stopped)
    × ((run accept_timeout quiet stopped_process).0 ≡ err server_is_stopped)
stopped_refuses_example = stopped_refuses quiet quiet-obeys stopped_process refl

abbrev accepted : ConnectionCore
unfolding from_accepted new next_socket_id
accepted = (from_accepted 42 6 endpoint).0

accepts : (run accept quiet process).0 ≡ ok accepted
unfolding run accept accept_until is_paused is_stopped listener settle connection_of count
    or_io_error accepted from_accepted new next_socket_id
accepts = refl

-- A stop that comes between the two steps of `pause`.
abbrev stop_between : ℕ → Turn
stop_between zero = record { meddle = λ p. p; ended = gone }
stop_between (suc n) = record { meddle = λ p. set_paused false (set_stopped true p); ended = gone }

-- The stopped server is left paused, and an accept names the pause.
pause_races_stop :
    let p = (run pause stop_between process).1 in
    (p.server.stopped ≡ true)
    × (p.server.paused ≡ true)
    × ((run accept quiet p).0 ≡ err server_is_paused)
unfolding run pause accept accept_until is_paused is_stopped listener
pause_races_stop = (refl, refl, refl)
