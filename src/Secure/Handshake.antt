-- ===== src/Secure/Handshake.antt =====
-- The two sides of the handshake of crates/taunicorn/src/security.rs over their connections:
-- `SecureConnection::client` and `SecureConnection::server`.
pub mod Sound
use taunicorn.Prelude.{ℕ, not, Option, List, bytes_eq}
use taunicorn.Outcome.{
  ok, err, dropped, waiting, fuel_out, invalid_server_confirmation, invalid_client_confirmation,
}
use taunicorn.Outcome.Action.{Action, lift, ◌>>=◌, ◌>>◌, bail_if}
use taunicorn.Stream.{ByteStream}
use taunicorn.Secure.{client_finished, server_finished}
use taunicorn.Secure.Crypto.{Crypto}
use taunicorn.Secure.Wire.{decode_server_hello, encode_client_hello, encode_server_hello}
use taunicorn.Secure.Frame.{read_frame, write_frame}
use taunicorn.Secure.Session.{SecureConnection, send, receive}
use taunicorn.Secure.Establish.{
  Established, random_handshake_nonce, client_offer, client_establish, server_accept, server_offer,
  server_establish,
}

-- `let secure = Self { connection, .. }`, the key confirmation on it, and `Ok(secure)`.
abbrev pub confirm :
    {S : Type 0}
    → Established
    → Action (SecureConnection S) (Unit {0})
    → Action S (SecureConnection S)
confirm e exchange connection =
    let (r, secure) = exchange (record {
      connection = connection;
      receive_state = e.receive_state;
      send_state = e.send_state;
      transcript_hash = e.transcript_hash;
    }) in
    elim r [
      | ok _ ↦ (ok secure, secure.connection)
      | err x ↦ (err x, secure.connection)
      | dropped ↦ (dropped, secure.connection)
      | waiting ↦ (waiting, secure.connection)
      | fuel_out ↦ (fuel_out, secure.connection)
    ]

module _ (c : Crypto) {S : Type 0} (t : ByteStream S) where
  unfoldable pub confirm_client : Action (SecureConnection S) (Unit {0})
  confirm_client = do
    finished ← receive c t
    bail_if (not (bytes_eq finished server_finished)) invalid_server_confirmation
    send c t client_finished

  unfoldable pub confirm_server : Action (SecureConnection S) (Unit {0})
  confirm_server = do
    send c t server_finished
    finished ← receive c t
    bail_if (not (bytes_eq finished client_finished)) invalid_client_confirmation

  -- The private identity key, the server's pinned key, and what the client draws.
  unfoldable pub client : List ℕ → List ℕ → List ℕ → Option (List ℕ) → Action S (SecureConnection S)
  unfolding confirm_client
  client private pinned ephemeral_private drawn = do
    nonce ← lift (random_handshake_nonce drawn)
    let hello = client_offer c private pinned ephemeral_private nonce
    write_frame t (encode_client_hello hello)
    frame ← read_frame t
    server_hello ← lift (decode_server_hello frame)
    established ← lift (client_establish c hello pinned ephemeral_private server_hello)
    confirm established (confirm_client)

  -- The client's pinned key, the private identity key, and what the server draws.
  unfoldable pub server : List ℕ → List ℕ → List ℕ → Option (List ℕ) → Action S (SecureConnection S)
  unfolding confirm_server
  server pinned private ephemeral_private drawn = do
    frame ← read_frame t
    client_hello ← lift (server_accept c private pinned frame)
    nonce ← lift (random_handshake_nonce drawn)
    let hello = server_offer c private client_hello ephemeral_private nonce
    write_frame t (encode_server_hello hello)
    established ← lift (server_establish c client_hello ephemeral_private hello)
    confirm established (confirm_server)
