-- ===== src/Tests/Handshakes.antt =====
-- A handshake of crates/taunicorn/src/security.rs from both sides, over pipes.
use taunicorn.Prelude.{ℕ, ◌≡◌, refl, some, Option, List, [], ◌∷◌, ◌++◌, replicate, bytes_eq}
use taunicorn.Outcome.{Outcome, ok}
use taunicorn.Bytes.{be_bytes, from_be_bytes, from_be_bytes_acc}
use taunicorn.Secure.{DirectionState}
use taunicorn.Secure.Session.{SecureConnection, send, receive}
use taunicorn.Secure.Establish.{
  random_handshake_nonce, client_offer, client_establish, server_accept, server_offer,
  server_establish,
}
use taunicorn.Secure.Messages.{
  verify_signature, handshake_transcript_hash, transcript, derive_key_material, create_cipher,
  make_aad, make_nonce, client_signature_message, server_signature_message,
}
use taunicorn.Secure.Wire.{
  take_array, decode_client_hello, decode_server_hello, encode_client_hello, encode_server_hello,
}
use taunicorn.Secure.Frame.{write_frame, read_frame, read_exact, read_exact_loop, advance}
use taunicorn.Secure.Handshake.{client, confirm_client, server, confirm_server}
use taunicorn.Secure.Handshake.Sound.{ClientDone, client_sound, ServerDone, server_sound}
use taunicorn.Tests.Toy.{toy, Pipe, pipe, holding}

abbrev client_key : List ℕ
client_key = replicate 32 1

abbrev server_key : List ℕ
server_key = replicate 32 2

abbrev client_secret : List ℕ
client_secret = replicate 32 3

abbrev server_secret : List ℕ
server_secret = replicate 32 4

abbrev client_draw : Option (List ℕ)
client_draw = some (replicate 32 5)

abbrev server_draw : Option (List ℕ)
server_draw = some (replicate 32 6)

abbrev client_run : Pipe → Outcome (SecureConnection Pipe) × Pipe
client_run = client toy pipe client_key (toy.verifying_key server_key) client_secret client_draw

abbrev server_run : Pipe → Outcome (SecureConnection Pipe) × Pipe
server_run = server toy pipe (toy.verifying_key client_key) server_key server_secret server_draw

-- The two messages of the server, and the two of the client.
abbrev answered : List ℕ
answered =
    (0 ∷ 0 ∷ 0 ∷ 162 ∷ [])
    ++ (replicate 34 2
        ++ (replicate 32 4
            ++ (replicate 32 6
                ++ (replicate 32 2
                    ++ ((84 ∷ 78 ∷ 69 ∷ 50 ∷ 47 ∷ 115 ∷ 101 ∷ 114 ∷ 118 ∷ 101 ∷ 114 ∷ 45 ∷ 97 ∷ 117
                          ∷ 116 ∷ 104 ∷ 47 ∷ 2 ∷ [])
                        ++ (replicate 14 1
                            ++ ((0 ∷ 0 ∷ 0 ∷ 58 ∷ 2 ∷ [])
                                ++ (replicate 8 0
                                    ++ ((116 ∷ 97 ∷ 117 ∷ 110 ∷ 105 ∷ 99 ∷ 111 ∷ 114 ∷ 110 ∷ 45
                                          ∷ 101 ∷ 50 ∷ 101 ∷ 101 ∷ 45 ∷ 118 ∷ 50 ∷ 47 ∷ 115 ∷ 101
                                          ∷ 114 ∷ 118 ∷ 101 ∷ 114 ∷ 45 ∷ 102 ∷ 105 ∷ 110 ∷ 105 ∷ 115
                                          ∷ 104 ∷ 101 ∷ 100 ∷ 1 ∷ 0 ∷ 1775 ∷ [])
                                        ++ (replicate 13 0))))))))))

abbrev completed : List ℕ
completed =
    (0 ∷ 0 ∷ 0 ∷ 162 ∷ 1 ∷ 2 ∷ [])
    ++ (replicate 32 1
        ++ (replicate 32 3
            ++ (replicate 32 5
                ++ (replicate 32 1
                    ++ ((84 ∷ 78 ∷ 69 ∷ 50 ∷ 47 ∷ 99 ∷ 108 ∷ 105 ∷ 101 ∷ 110 ∷ 116 ∷ 45 ∷ 97 ∷ 117
                          ∷ 116 ∷ 104 ∷ 47 ∷ 2 ∷ [])
                        ++ (replicate 14 1
                            ++ ((0 ∷ 0 ∷ 0 ∷ 58 ∷ 2 ∷ [])
                                ++ (replicate 8 0
                                    ++ ((116 ∷ 97 ∷ 117 ∷ 110 ∷ 105 ∷ 99 ∷ 111 ∷ 114 ∷ 110 ∷ 45
                                          ∷ 101 ∷ 50 ∷ 101 ∷ 101 ∷ 45 ∷ 118 ∷ 50 ∷ 47 ∷ 99 ∷ 108
                                          ∷ 105 ∷ 101 ∷ 110 ∷ 116 ∷ 45 ∷ 102 ∷ 105 ∷ 110 ∷ 105 ∷ 115
                                          ∷ 104 ∷ 101 ∷ 100 ∷ 1713 ∷ 0 ∷ 1774 ∷ [])
                                        ++ (replicate 13 0))))))))))

abbrev upward : DirectionState
upward = record {
  cipher =
      (224 ∷ 84 ∷ 78 ∷ 69 ∷ 50 ∷ 47 ∷ 116 ∷ 114 ∷ 97 ∷ 110 ∷ 115 ∷ 99 ∷ 114 ∷ 105 ∷ 112 ∷ 116 ∷ 47
        ∷ 2 ∷ [])
      ++ (replicate 14 1);
  direction = 1;
  nonce_prefix = replicate 4 0;
  sequence = 1;
}

abbrev downward : DirectionState
downward = record {
  cipher = (1 ∷ []) ++ (replicate 31 0);
  direction = 2;
  nonce_prefix = replicate 4 0;
  sequence = 1;
}

abbrev transcript_hash : List ℕ
transcript_hash =
    (84 ∷ 78 ∷ 69 ∷ 50 ∷ 47 ∷ 116 ∷ 114 ∷ 97 ∷ 110 ∷ 115 ∷ 99 ∷ 114 ∷ 105 ∷ 112 ∷ 116 ∷ 47 ∷ 2 ∷ [])
    ++ (replicate 15 1)

abbrev client_secure : SecureConnection Pipe
client_secure = record {
  connection = record { sent = completed; pending = [] };
  receive_state = downward;
  send_state = upward;
  transcript_hash = transcript_hash;
}

abbrev server_secure : SecureConnection Pipe
server_secure = record {
  connection = record { sent = answered; pending = [] };
  receive_state = upward;
  send_state = downward;
  transcript_hash = transcript_hash;
}

client_returns : (client_run (holding answered)).0 ≡ ok client_secure
unfolding client confirm_client server confirm_server random_handshake_nonce client_offer
    client_establish server_accept server_offer server_establish verify_signature
    handshake_transcript_hash transcript derive_key_material create_cipher take_array write_frame
    read_frame read_exact read_exact_loop advance be_bytes from_be_bytes from_be_bytes_acc
    decode_client_hello decode_server_hello encode_client_hello encode_server_hello send receive
    make_aad make_nonce client_signature_message server_signature_message bytes_eq
client_returns = refl

server_returns : (server_run (holding completed)).0 ≡ ok server_secure
unfolding client confirm_client server confirm_server random_handshake_nonce client_offer
    client_establish server_accept server_offer server_establish verify_signature
    handshake_transcript_hash transcript derive_key_material create_cipher take_array write_frame
    read_frame read_exact read_exact_loop advance be_bytes from_be_bytes from_be_bytes_acc
    decode_client_hello decode_server_hello encode_client_hello encode_server_hello send receive
    make_aad make_nonce client_signature_message server_signature_message bytes_eq
server_returns = refl

client_sound_example :
    ClientDone toy pipe client_key
      (toy.verifying_key server_key)
      client_secret
      client_draw
      client_secure
client_sound_example =
    client_sound toy pipe client_key (toy.verifying_key server_key) client_secret client_draw
      (holding answered) client_secure client_returns

server_sound_example :
    ServerDone toy pipe
      (toy.verifying_key client_key)
      server_key
      server_secret
      server_draw
      server_secure
server_sound_example =
    server_sound toy pipe (toy.verifying_key client_key) server_key server_secret server_draw
      (holding completed) server_secure server_returns
