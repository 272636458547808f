-- ===== src/Tests/Sessions.antt =====
-- Runs of the handshake and of encrypted messages of crates/taunicorn/src/security.rs.
use taunicorn.Prelude.{
  ℕ, ◌≡◌, refl, true, List, [], ◌∷◌, ◌++◌, replicate, bytes_eq, if◌then◌else◌, arith,
}
use taunicorn.Outcome.{Outcome, ok, err, dropped, waiting, fuel_out, invalid_sequence}
use taunicorn.Outcome.Action.{pure, continue}
use taunicorn.Secure.{ClientHello, ServerHello, DirectionState, IsKeyed}
use taunicorn.Secure.Wire.{
  encode_client_hello, decode_client_hello, encode_server_hello, decode_server_hello,
}
use taunicorn.Secure.Messages.{
  client_signature_message, server_signature_message, handshake_transcript_hash,
}
use taunicorn.Secure.Frame.{read_frame}
use taunicorn.Secure.Session.{SecureConnection, send, receive}
use taunicorn.Secure.Session.Sequence.{is_ok, next, send_sequence, IsAuthentic, receive_sound}
use taunicorn.Secure.Session.Later.{at_once, changes, replay_refused}
use taunicorn.Secure.Session.Transfer.{InStep, send_all, receive_all, conversation}
use taunicorn.Secure.Establish.{
  Established, client_offer, client_establish, server_accept, server_offer, server_establish,
}
use taunicorn.Secure.Establish.Checks.{IsNewClient, client_establish_sound, server_accept_sound}
use taunicorn.Secure.Establish.Agreement.{agreement}
use taunicorn.Tests.Toy.{toy, toy_laws, Pipe, pipe, pipe_laws, empty_pipe, holding}

abbrev up : DirectionState
up = record {
  cipher = replicate 32 5;
  direction = 1;
  nonce_prefix = 1 ∷ 2 ∷ 3 ∷ 4 ∷ [];
  sequence = 6;
}

abbrev down : DirectionState
down = record {
  cipher = replicate 32 6;
  direction = 2;
  nonce_prefix = 5 ∷ 6 ∷ 7 ∷ 8 ∷ [];
  sequence = 2;
}

abbrev at : Pipe → SecureConnection Pipe
at p = record {
  connection = p;
  receive_state = down;
  send_state = up;
  transcript_hash = replicate 32 9;
}

abbrev other_end : Pipe → SecureConnection Pipe
other_end p = record (at p) { receive_state = up; send_state = down }

up-IsKeyed : IsKeyed up (replicate 32 9)
up-IsKeyed = record { key = refl; prefix = refl; digest = refl }

abbrev hi : List ℕ
hi = 104 ∷ 105 ∷ []

send_sequence_example :
    let s = at empty_pipe in
    let (r, s') = send toy pipe hi s in
    (s'.send_state ≡ (if is_ok r then next up else up))
    × (s'.receive_state ≡ down)
    × (s'.transcript_hash ≡ replicate 32 9)
send_sequence_example = send_sequence toy pipe hi (at empty_pipe)

-- Two messages, one of them empty, and a byte behind them.
abbrev messages : List (List ℕ)
messages = hi ∷ [] ∷ []

abbrev wire : List ℕ
wire = (send_all toy pipe messages (at empty_pipe)).1.connection.sent

abbrev reader : SecureConnection Pipe
reader = other_end (holding (wire ++ (1 ∷ [])))

conversation_example :
    ((send_all toy pipe messages (at empty_pipe)).0 ≡ ok tt)
    × ((receive_all toy pipe 2 reader).0 ≡ ok messages)
    × ((receive_all toy pipe 2 reader).1.connection.pending ≡ 1 ∷ [])
    × InStep (send_all toy pipe messages (at empty_pipe)).1 (receive_all toy pipe 2 reader).1
conversation_example =
    conversation toy toy_laws pipe pipe_laws pipe pipe_laws messages wire (1 ∷ []) (at empty_pipe)
      reader tt tt (record { state = refl; hash = refl }) up-IsKeyed
      (omega arith, (omega arith, tt)) (omega arith) refl refl

-- One message, and the end that is about to read it.
abbrev expecting : SecureConnection Pipe
expecting =
    other_end
      (holding ((send_all toy pipe (hi ∷ []) (at empty_pipe)).1.connection.sent ++ (1 ∷ [])))

all_received : (receive_all toy pipe 1 expecting).0 ≡ ok (hi ∷ [])
all_received =
    (conversation toy toy_laws pipe pipe_laws pipe pipe_laws (hi ∷ [])
      (send_all toy pipe (hi ∷ []) (at empty_pipe)).1.connection.sent (1 ∷ []) (at empty_pipe)
      expecting tt tt (record { state = refl; hash = refl }) up-IsKeyed (omega arith, tt)
      (omega arith) refl refl).1

first_of_all :
    (r : Outcome (List ℕ) × SecureConnection Pipe)
    → (continue r.0 (λ m. pure (m ∷ [])) r.1).0 ≡ ok (hi ∷ [])
    → r.0 ≡ ok hi
first_of_all (ok m, s) e = cc e
first_of_all (err x, s) e = cc e
first_of_all (dropped, s) e = cc e
first_of_all (waiting, s) e = cc e
first_of_all (fuel_out, s) e = cc e

hi_received : (receive toy pipe expecting).0 ≡ ok hi
unfolding receive_all
hi_received = first_of_all (receive toy pipe expecting) all_received

receive_sound_example :
    (frame : List ℕ) × ((read_frame pipe expecting.connection).0 ≡ ok frame)
    × IsAuthentic toy pipe expecting hi frame
receive_sound_example = receive_sound toy pipe hi expecting hi_received

-- The frame of that message comes once more.
abbrev again : SecureConnection Pipe
again = record ((receive toy pipe expecting).1) { connection = expecting.connection }

replay_refused_example : receive toy pipe again ≡ (
  err (invalid_sequence again.receive_state.sequence 6),
  record again { connection = (read_frame pipe again.connection).1 },
)
replay_refused_example =
    replay_refused toy pipe hi receive_sound_example.0 expecting again hi_received
      receive_sound_example.1 (changes expecting.connection at_once) receive_sound_example.1

-- A handshake of two sides with the private keys 1 and 2.
abbrev client_key : List ℕ
client_key = replicate 32 1

abbrev server_key : List ℕ
server_key = replicate 32 2

abbrev client_secret : List ℕ
client_secret = replicate 32 3

abbrev server_secret : List ℕ
server_secret = replicate 32 4

abbrev offer : ClientHello
offer = client_offer toy client_key (toy.verifying_key server_key) client_secret (replicate 32 5)

abbrev answer : ServerHello
answer = server_offer toy server_key offer server_secret (replicate 32 6)

agreement_example :
    (server_accept toy server_key (toy.verifying_key client_key) (encode_client_hello offer)
      ≡ ok offer)
    × (decode_server_hello (encode_server_hello answer) ≡ ok answer)
    × (x : Established) × (y : Established) × (client_establish toy offer
          (toy.verifying_key server_key)
          client_secret
          answer
        ≡ ok x)
    × (server_establish toy offer server_secret answer ≡ ok y)
    × (x.send_state ≡ y.receive_state)
    × (y.send_state ≡ x.receive_state)
    × (x.transcript_hash ≡ y.transcript_hash)
    × IsKeyed x.send_state x.transcript_hash
    × IsKeyed y.send_state y.transcript_hash
unfolding bytes_eq
agreement_example =
    agreement toy toy_laws client_key server_key client_secret server_secret (replicate 32 5)
      (replicate 32 6) refl refl refl refl refl refl refl

abbrev states : Established
states = agreement_example.2

states_established :
    client_establish toy offer (toy.verifying_key server_key) client_secret answer ≡ ok states
states_established = agreement_example.4

client_establish_sound_example :
    (answer.identity_public_key ≡ toy.verifying_key server_key)
    × (toy.verify answer.identity_public_key
          (server_signature_message offer.ephemeral_public_key offer.identity_public_key offer.nonce
            answer.ephemeral_public_key answer.identity_public_key answer.nonce)
          answer.signature
        ≡ true)
    × (toy.was_contributory (toy.diffie_hellman client_secret answer.ephemeral_public_key) ≡ true)
    × (states.transcript_hash
        ≡ handshake_transcript_hash toy offer.ephemeral_public_key offer.identity_public_key
            offer.nonce answer.ephemeral_public_key answer.identity_public_key answer.nonce)
    × IsNewClient toy states
client_establish_sound_example =
    client_establish_sound toy offer (toy.verifying_key server_key) client_secret answer states
      states_established

offer_accepted :
    server_accept toy server_key (toy.verifying_key client_key) (encode_client_hello offer)
    ≡ ok offer
offer_accepted = agreement_example.0

server_accept_sound_example :
    (decode_client_hello (encode_client_hello offer) ≡ ok offer)
    × (offer.identity_public_key ≡ toy.verifying_key client_key)
    × (toy.verify offer.identity_public_key
          (client_signature_message offer.ephemeral_public_key offer.identity_public_key offer.nonce
            (toy.verifying_key server_key))
          offer.signature
        ≡ true)
server_accept_sound_example =
    server_accept_sound toy server_key (toy.verifying_key client_key) (encode_client_hello offer)
      offer offer_accepted
