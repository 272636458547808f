-- ===== src/Tests/Connections.antt =====
-- Runs of the calls of crates/taunicorn/src/lib.rs.
use taunicorn.Prelude.{
  ℕ, zero, suc, ◌≡◌, refl, arith, true, false, if◌then◌else◌, none, List, [], ◌∷◌,
}
use taunicorn.Outcome.{ok, err, timeout_after, connection_is_closed}
use taunicorn.Endpoint.{Endpoint, done}
use taunicorn.Connection.{ConnectionCore, new, next_socket_id}
use taunicorn.Connection.Prog.{won, elapsed}
use taunicorn.Connection.Flags
use taunicorn.Connection.Calls.{
  receive, write_once, flush, close, fail_connection, send, send_timeout, settle,
  ensure_write_available, ensure_common_io_available, stream, write_loop, write_round,
}
use taunicorn.Connection.Exec.{Event, World, run}
use taunicorn.Connection.Exec.Rounds.{ungated}
use taunicorn.Connection.Keeping.{is_kept, is_none}
use taunicorn.Connection.Closing.{
  sending, perform, call-keeps, first_close_releases, flagged, closed_refuses,
}
use taunicorn.Stream.{end_of_stream}
use taunicorn.Connection.Sending.{Sent, send_accounts, send_timeout_accounts}

abbrev pub endpoint : Endpoint
endpoint = record { name = 97 ∷ [] }

abbrev pub open_core : ConnectionCore
unfolding new next_socket_id
open_core = (new 1 0 endpoint none none).0

-- The operating system takes two bytes at a time, and the others do nothing.
abbrev pub two_at_a_time : ℕ → Event
two_at_a_time n = record { meddle = λ s. s; pick = won (done 2) }

abbrev pub world : World
world = record {
  core = open_core;
  sent = 0 ∷ [];
  inbound = 7 ∷ 8 ∷ 9 ∷ [];
  peer_finished = false;
  script = two_at_a_time;
}

abbrev pub five : List ℕ
five = 1 ∷ 2 ∷ 3 ∷ 4 ∷ 5 ∷ []

send_accounts_example : Sent five (0 ∷ []) (ungated (run (send five) world))
send_accounts_example = send_accounts five world

-- The gate, one write, and then the deadline.
abbrev late : ℕ → Event
late zero = record { meddle = λ s. s; pick = won (done 0) }
late (suc zero) = record { meddle = λ s. s; pick = won (done 2) }
late (suc (suc n)) = record { meddle = λ s. s; pick = elapsed }

abbrev late_world : World
late_world = record world { script = late }

send_timeout_accounts_example : Sent five (0 ∷ []) (ungated (run (send_timeout five) late_world))
send_timeout_accounts_example = send_timeout_accounts five late_world

whole_send :
    ((run (send five) world).0 ≡ ok tt)
    × ((run (send five) world).1.sent ≡ 0 ∷ 1 ∷ 2 ∷ 3 ∷ 4 ∷ 5 ∷ [])
unfolding run send settle ensure_write_available ensure_common_io_available stream write_loop
    write_round Flags.is_closed Flags.is_paused Flags.is_write_shutdown open_core new next_socket_id
whole_send = (refl, refl)

late_send :
    ((run (send_timeout five) late_world).0 ≡ err (timeout_after 2 5))
    × ((run (send_timeout five) late_world).1.sent ≡ 0 ∷ 1 ∷ 2 ∷ [])
unfolding run send_timeout settle ensure_write_available ensure_common_io_available stream
    write_loop write_round Flags.is_closed Flags.is_paused Flags.is_write_shutdown fail_connection
    Flags.close open_core new next_socket_id
late_send = (refl, refl)

-- The others do nothing.
pub quiet : (n : ℕ) (s : ConnectionCore) → is_kept s ((two_at_a_time n).meddle s) ≡ true
quiet n s = ground arith

call-keeps_example : is_kept world.core (run (perform (sending five)) world).1.core ≡ true
call-keeps_example = call-keeps (sending five) world quiet

first_close_releases_example :
    let s = (run close world).1.core in
    ((s.closed ≡ true) × (s.read_shutdown ≡ true) × (s.write_shutdown ≡ true))
    × (s.close_token ≡ true)
    × (s.read_shutdown_token ≡ true)
    × (is_none s.stream ≡ true)
unfolding open_core new next_socket_id
first_close_releases_example = first_close_releases world quiet refl refl

abbrev shut_world : World
shut_world = record world {
  core = record open_core { state = record (open_core.state) { closed = true } };
}

closed_refuses_example :
    (run close shut_world ≡ (ok tt, flagged shut_world))
    × (run (send five) shut_world ≡ (err connection_is_closed, shut_world))
    × (run (send_timeout five) shut_world ≡ (err connection_is_closed, shut_world))
    × (run (write_once five) shut_world ≡ (err connection_is_closed, shut_world))
    × (run flush shut_world ≡ (err connection_is_closed, shut_world))
    × (run (receive five) shut_world ≡ (
      if shut_world.core.peer_sent_eof then ok (end_of_stream, five) else err connection_is_closed,
      shut_world,
    ))
closed_refuses_example = closed_refuses five shut_world refl
