-- ===== src/Secure/Establish.antt =====
-- The values of the handshake of crates/taunicorn/src/security.rs: what `SecureConnection::client`
-- and `SecureConnection::server` compute between the frames that they exchange. The private
-- ephemeral key and the nonce that a side draws are arguments; the draw of a nonce may fail.
pub mod Checks
pub mod Agreement
use taunicorn.Prelude.{ℕ, not, Option, List, bytes_eq}
use taunicorn.Outcome.{
  Outcome, ok, ◌>>=◌, ◌>>◌, bail_if, server_identity_mismatch, client_identity_mismatch,
  non_contributory, randomness_failed,
}
use taunicorn.Secure.{
  ClientHello, ServerHello, DirectionState, direction_client_to_server, direction_server_to_client,
}
use taunicorn.Secure.Crypto.{Crypto}
use taunicorn.Secure.Wire.{ok_or, decode_client_hello, decode_server_hello}
use taunicorn.Secure.Messages.{
  client_signature_message, server_signature_message, handshake_transcript_hash, verify_signature,
  create_cipher, derive_key_material,
}

-- The directional states and the transcript hash of a new secure connection.
pub record Established : Type 0 where
  pub receive_state : DirectionState
  pub send_state : DirectionState
  pub transcript_hash : List ℕ

unfoldable pub random_handshake_nonce : Option (List ℕ) → Outcome (List ℕ)
random_handshake_nonce drawn = ok_or drawn randomness_failed

-- A direction with no message behind it.
abbrev pub fresh : List ℕ → ℕ → List ℕ → DirectionState
fresh cipher direction nonce_prefix = record {
  cipher = cipher;
  direction = direction;
  nonce_prefix = nonce_prefix;
  sequence = 0;
}

module _ (c : Crypto) where
  -- `identity_public_key`
  unfoldable pub identity_public_key : List ℕ → List ℕ
  identity_public_key private = c.verifying_key private

  -- The hello of a client with this identity, for the server with the pinned key.
  unfoldable pub client_offer : List ℕ → List ℕ → List ℕ → List ℕ → ClientHello
  client_offer private pinned ephemeral_private nonce =
      let identity = c.verifying_key private in
      let ephemeral = c.x25519_public ephemeral_private in
      record {
        ephemeral_public_key = ephemeral;
        identity_public_key = identity;
        nonce = nonce;
        signature = c.sign private (client_signature_message ephemeral identity nonce pinned);
      }

  -- What the client makes of the server's hello.
  unfoldable pub client_establish :
      ClientHello → List ℕ → List ℕ → ServerHello → Outcome Established
  client_establish hello pinned ephemeral_private server = do
    bail_if (not (bytes_eq server.identity_public_key pinned)) server_identity_mismatch
    verify_signature c server.identity_public_key
        (server_signature_message hello.ephemeral_public_key hello.identity_public_key hello.nonce
          server.ephemeral_public_key server.identity_public_key server.nonce)
        server.signature
    let shared_secret = c.diffie_hellman ephemeral_private server.ephemeral_public_key
    bail_if (not (c.was_contributory shared_secret)) non_contributory
    let transcript_hash =
        handshake_transcript_hash c hello.ephemeral_public_key hello.identity_public_key hello.nonce
          server.ephemeral_public_key server.identity_public_key server.nonce
    keys ← derive_key_material c shared_secret transcript_hash
    receive_cipher ← create_cipher c keys.server_to_client_key
    send_cipher ← create_cipher c keys.client_to_server_key
    ok (record {
      receive_state =
          fresh receive_cipher direction_server_to_client keys.server_to_client_nonce_prefix;
      send_state = fresh send_cipher direction_client_to_server keys.client_to_server_nonce_prefix;
      transcript_hash = transcript_hash;
    })

  -- What the server makes of the client's frame before it draws its own values.
  unfoldable pub server_accept : List ℕ → List ℕ → List ℕ → Outcome ClientHello
  server_accept private pinned frame = do
    hello ← decode_client_hello frame
    bail_if (not (bytes_eq hello.identity_public_key pinned)) client_identity_mismatch
    verify_signature c hello.identity_public_key
        (client_signature_message hello.ephemeral_public_key hello.identity_public_key hello.nonce
          (c.verifying_key private))
        hello.signature
    ok hello

  -- The server's hello.
  unfoldable pub server_offer : List ℕ → ClientHello → List ℕ → List ℕ → ServerHello
  server_offer private client ephemeral_private nonce =
      let identity = c.verifying_key private in
      let ephemeral = c.x25519_public ephemeral_private in
      record {
        ephemeral_public_key = ephemeral;
        identity_public_key = identity;
        nonce = nonce;
        signature = c.sign private (
            server_signature_message client.ephemeral_public_key client.identity_public_key
              client.nonce ephemeral identity nonce);
      }

  -- What the server derives once its hello is out.
  unfoldable pub server_establish : ClientHello → List ℕ → ServerHello → Outcome Established
  server_establish client ephemeral_private hello = do
    let shared_secret = c.diffie_hellman ephemeral_private client.ephemeral_public_key
    bail_if (not (c.was_contributory shared_secret)) non_contributory
    let transcript_hash =
        handshake_transcript_hash c client.ephemeral_public_key client.identity_public_key
          client.nonce hello.ephemeral_public_key hello.identity_public_key hello.nonce
    keys ← derive_key_material c shared_secret transcript_hash
    receive_cipher ← create_cipher c keys.client_to_server_key
    send_cipher ← create_cipher c keys.server_to_client_key
    ok (record {
      receive_state =
          fresh receive_cipher direction_client_to_server keys.client_to_server_nonce_prefix;
      send_state = fresh send_cipher direction_server_to_client keys.server_to_client_nonce_prefix;
      transcript_hash = transcript_hash;
    })
