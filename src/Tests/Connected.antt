-- ===== src/Tests/Connected.antt =====
-- The two components together: encrypted messages over connections that are ready.
use taunicorn.Prelude.{ℕ, ◌≡◌, refl, arith, false, none, List, [], ◌∷◌, ◌++◌, replicate}
use taunicorn.Outcome.{ok}
use taunicorn.Stream.{Received}
use taunicorn.Endpoint.{Endpoint, done}
use taunicorn.Connection.{ConnectionCore, new, next_socket_id}
use taunicorn.Connection.Prog.{won}
use taunicorn.Connection.Calls.{send, receive}
use taunicorn.Connection.Exec.{Event, World, run}
use taunicorn.Connection.Exec.Rounds.{ungated}
use taunicorn.Connection.Ordered.{Sends}
use taunicorn.Connection.Receiving.{GotFrom, receive_accounts}
use taunicorn.Connection.Ready.{IsReady, send_moves}
use taunicorn.Connection.Transport.{receive_moves, transport}
use taunicorn.Connection.Api.{read_bytes, Took, read_bytes_accounts}
use taunicorn.Secure.{DirectionState}
use taunicorn.Secure.Session.{SecureConnection}
use taunicorn.Secure.Session.Transfer.{InStep, send_all, receive_all}
use taunicorn.Secure.Session.Connected.{connected_conversation}
use taunicorn.Tests.Toy.{toy, toy_laws}

abbrev endpoint : Endpoint
endpoint = record { name = 97 ∷ [] }

abbrev open_core : ConnectionCore
unfolding new next_socket_id
open_core = (new 1 0 endpoint none none).0

-- The operating system moves at most four bytes at a time, and the others do nothing.
abbrev four_at_a_time : ℕ → Event
four_at_a_time n = record { meddle = λ s. s; pick = won (done 4) }

abbrev with_inbound : List ℕ → World
with_inbound bytes = record {
  core = open_core;
  sent = [];
  inbound = bytes;
  peer_finished = false;
  script = four_at_a_time;
}

with_inbound-IsReady : (bytes : List ℕ) → IsReady (with_inbound bytes)
unfolding open_core new next_socket_id
with_inbound-IsReady bytes = record {
  is_open = record {
    not_closed = refl;
    not_paused = refl;
    can_read = refl;
    can_write = refl;
    no_eof = refl;
    sound = refl;
    has_stream = refl;
  };
  free_to_read = refl;
  free_to_write = refl;
  helpful = record { quiet = λ n s. refl; moves = λ n. tt };
}

abbrev five : List ℕ
five = 1 ∷ 2 ∷ 3 ∷ 4 ∷ 5 ∷ []

send_moves_example :
    let w = with_inbound [] in ((run (send five) w).0 ≡ ok tt) × Sends five w (run (send five) w).1
send_moves_example = send_moves five (with_inbound []) (with_inbound-IsReady [])

-- A buffer of two bytes.
abbrev buffer : List ℕ
buffer = 0 ∷ 0 ∷ []

receive_moves_example :
    let w = with_inbound five in
    Received (λ u. u.inbound) IsReady buffer w (run (receive buffer) w).0 (run (receive buffer) w).1
receive_moves_example =
    receive_moves buffer (with_inbound five) (with_inbound-IsReady five) (omega arith) (omega arith)

receive_accounts_example : GotFrom buffer five (ungated (run (receive buffer) (with_inbound five)))
receive_accounts_example = receive_accounts buffer (with_inbound five)

read_bytes_accounts_example :
    let (r, v) = run (read_bytes 2) (with_inbound five) in Took five r v.inbound
read_bytes_accounts_example = read_bytes_accounts 2 (with_inbound five)

abbrev up : DirectionState
up = record {
  cipher = replicate 32 5;
  direction = 1;
  nonce_prefix = 1 ∷ 2 ∷ 3 ∷ 4 ∷ [];
  sequence = 6;
}

abbrev down : DirectionState
down = record {
  cipher = replicate 32 6;
  direction = 2;
  nonce_prefix = 5 ∷ 6 ∷ 7 ∷ 8 ∷ [];
  sequence = 2;
}

abbrev sender : SecureConnection World
sender = record {
  connection = with_inbound [];
  receive_state = down;
  send_state = up;
  transcript_hash = replicate 32 9;
}

abbrev messages : List (List ℕ)
messages = (104 ∷ 105 ∷ []) ∷ [] ∷ []

abbrev wire : List ℕ
wire = (send_all toy transport messages sender).1.connection.sent

abbrev reader : SecureConnection World
reader = record {
  connection = with_inbound (wire ++ (1 ∷ []));
  receive_state = up;
  send_state = down;
  transcript_hash = replicate 32 9;
}

connected_conversation_example :
    ((send_all toy transport messages sender).0 ≡ ok tt)
    × ((receive_all toy transport 2 reader).0 ≡ ok messages)
    × ((receive_all toy transport 2 reader).1.connection.inbound ≡ 1 ∷ [])
    × InStep (send_all toy transport messages sender).1 (receive_all toy transport 2 reader).1
connected_conversation_example =
    connected_conversation toy toy_laws messages wire (1 ∷ []) sender reader
      (with_inbound-IsReady []) (with_inbound-IsReady (wire ++ (1 ∷ [])))
      (record { state = refl; hash = refl }) (record { key = refl; prefix = refl; digest = refl })
      (omega arith, (omega arith, tt)) (omega arith) refl refl
