-- ===== src/Tests/Frames.antt =====
-- Runs of the wire formats and the frames of crates/taunicorn/src/security.rs.
use taunicorn.Prelude.{ℕ, ◌≡◌, ◌≢◌, refl, inl, List, [], ◌∷◌, ◌++◌, replicate, arith, ap}
use taunicorn.Bytes.{be_bytes}
use taunicorn.Outcome.{ok, fuel_out}
use taunicorn.Secure.{ClientHello, ServerHello}
use taunicorn.Secure.Wire.{
  decode_client_hello, decode_server_hello, encode_client_hello, encode_server_hello,
}
use taunicorn.Secure.Wire.RoundTrip.{IsSizedClient, IsSizedServer, decode-encode_hello}
use taunicorn.Secure.Wire.Accepted.{decode_client_hello_sound}
use taunicorn.Secure.Messages.Binding.{
  Parts, IsSized, client_message, server_message, transcript_of, handshake_binding,
  domain_separation,
}
use taunicorn.Secure.Frame.{read_exact, read_frame, write_frame}
use taunicorn.Secure.Frame.Reading.{read_exact-ne-fuel_out}
use taunicorn.Secure.Frame.Transfer.{frame_transfer}
use taunicorn.Tests.Toy.{Pipe, pipe, pipe_laws, empty_pipe, holding}

abbrev field : ℕ → List ℕ
field b = replicate 32 b

abbrev client : ClientHello
client = record {
  identity_public_key = field 1;
  ephemeral_public_key = field 2;
  nonce = field 3;
  signature = replicate 64 4;
}

abbrev server : ServerHello
server = record {
  identity_public_key = field 5;
  ephemeral_public_key = field 6;
  nonce = field 7;
  signature = replicate 64 8;
}

client-IsSizedClient : IsSizedClient client
client-IsSizedClient = record { identity = refl; ephemeral = refl; nonce = refl; signature = refl }

server-IsSizedServer : IsSizedServer server
server-IsSizedServer = record { identity = refl; ephemeral = refl; nonce = refl; signature = refl }

decode-encode_hello_example :
    (decode_client_hello (encode_client_hello client) ≡ ok client)
    × (decode_server_hello (encode_server_hello server) ≡ ok server)
decode-encode_hello_example =
    decode-encode_hello client server client-IsSizedClient server-IsSizedServer

client_decoded : decode_client_hello (encode_client_hello client) ≡ ok client
client_decoded = decode-encode_hello_example.0

decode_client_hello_sound_example :
    (encode_client_hello client ≡ encode_client_hello client) × IsSizedClient client
decode_client_hello_sound_example =
    decode_client_hello_sound (encode_client_hello client) client client_decoded

server_decoded : decode_server_hello (encode_server_hello server) ≡ ok server
server_decoded = decode-encode_hello_example.1

abbrev parts : Parts
parts = record {
  client_ephemeral = field 1;
  client_identity = field 2;
  client_nonce = field 3;
  server_ephemeral = field 4;
  server_identity = field 5;
  server_nonce = field 6;
}

parts-IsSized : IsSized parts
parts-IsSized = record {
  client_ephemeral = refl;
  client_identity = refl;
  client_nonce = refl;
  server_ephemeral = refl;
  server_identity = refl;
  server_nonce = refl;
}

handshake_binding_example : parts ≡ parts
handshake_binding_example =
    handshake_binding parts parts parts-IsSized parts-IsSized
      (inl (ap server_message (refl {a = parts})))

domain_separation_example :
    (client_message parts ≢ server_message parts)
    × (client_message parts ≢ transcript_of parts)
    × (server_message parts ≢ transcript_of parts)
domain_separation_example = domain_separation parts parts

abbrev prefix : List ℕ
prefix = 9 ∷ 9 ∷ 9 ∷ 9 ∷ []

abbrev number : ℕ
number = 7

abbrev direction : ℕ
direction = 1

abbrev seven : List ℕ
seven = 1 ∷ 2 ∷ 3 ∷ 4 ∷ 5 ∷ 6 ∷ 7 ∷ []

pipe-ne-fuel_out : (buf : List ℕ) (s : Pipe) → (pipe.receive buf s).0 ≢ fuel_out
pipe-ne-fuel_out buf s e = ground arith

read_exact-ne-fuel_out_example : (read_exact pipe 9 (holding seven)).0 ≢ fuel_out
read_exact-ne-fuel_out_example = read_exact-ne-fuel_out pipe pipe-ne-fuel_out 9 (holding seven)

abbrev framed : List ℕ
framed = be_bytes 4 7 ++ seven

written : (write_frame pipe seven empty_pipe).1.sent ≡ framed
unfolding write_frame
written = ground arith

frame_transfer_example :
    let r = holding (framed ++ (8 ∷ 9 ∷ [])) in
    ((write_frame pipe seven empty_pipe).0 ≡ ok tt)
    × ((read_frame pipe r).0 ≡ ok seven)
    × ((read_frame pipe r).1.pending ≡ 8 ∷ 9 ∷ [])
frame_transfer_example =
    frame_transfer pipe pipe_laws pipe pipe_laws seven framed (8 ∷ 9 ∷ []) empty_pipe
      (holding (framed ++ (8 ∷ 9 ∷ []))) tt tt (omega arith) (omega arith) written refl
