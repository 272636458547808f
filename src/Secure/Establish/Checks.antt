-- ===== src/Secure/Establish/Checks.antt =====
-- What a handshake that goes through has checked (crates/taunicorn/src/security.rs).
use taunicorn.Prelude.{ℕ, ◌≡◌, true, List, bytes_eq→eq, arith}
use taunicorn.Outcome.{ok, before_ok}
use taunicorn.Secure.{
  ClientHello, ServerHello, direction_client_to_server, direction_server_to_client,
}
use taunicorn.Secure.Crypto.{Crypto}
use taunicorn.Secure.Wire.{decode_client_hello}
use taunicorn.Secure.Messages.{
  client_signature_message, server_signature_message, handshake_transcript_hash, verify_signature,
}
use taunicorn.Secure.Establish.{Established, client_establish, server_accept}

module _ (c : Crypto) where
  verify_signature_ok :
      (key message signature : List ℕ)
      → verify_signature c key message signature ≡ ok tt
      → c.verify key message signature ≡ true
  unfolding verify_signature
  verify_signature_ok key message signature e = ground arith

  -- The new states are those of a client: each direction under its own label, at sequence 0.
  abbrev pub IsNewClient : Established → Type 0
  IsNewClient e =
      (e.receive_state.direction ≡ direction_server_to_client)
      × (e.send_state.direction ≡ direction_client_to_server)
      × (e.receive_state.sequence ≡ 0)
      × (e.send_state.sequence ≡ 0)

  -- A client that goes on has a server hello of the pinned identity, whose signature covers the
  -- client's own hello and every value of the server's, and a contributory shared secret; its
  -- transcript hash is that of these six values, and its directions are new.
  pub client_establish_sound :
      (hello : ClientHello) (pinned ephemeral_private : List ℕ) (server : ServerHello)
      (e : Established)
      → client_establish c hello pinned ephemeral_private server ≡ ok e
      → (server.identity_public_key ≡ pinned)
        × (c.verify server.identity_public_key
              (server_signature_message hello.ephemeral_public_key hello.identity_public_key
                hello.nonce server.ephemeral_public_key server.identity_public_key server.nonce)
              server.signature
            ≡ true)
        × (c.was_contributory (c.diffie_hellman ephemeral_private server.ephemeral_public_key)
            ≡ true)
        × (e.transcript_hash
            ≡ handshake_transcript_hash c hello.ephemeral_public_key hello.identity_public_key
                hello.nonce server.ephemeral_public_key server.identity_public_key server.nonce)
        × IsNewClient e
  unfolding client_establish
  client_establish_sound hello pinned ephemeral_private server e h = ground (
    arith,
    bytes_eq→eq server.identity_public_key pinned,
    verify_signature_ok server.identity_public_key
        (server_signature_message hello.ephemeral_public_key hello.identity_public_key hello.nonce
          server.ephemeral_public_key server.identity_public_key server.nonce)
        server.signature,
  )

  -- A server that answers has decoded a client hello of the pinned identity, whose signature covers
  -- the server's own identity and the client's ephemeral key and nonce.
  pub server_accept_sound :
      (private pinned frame : List ℕ) (hello : ClientHello)
      → server_accept c private pinned frame ≡ ok hello
      → (decode_client_hello frame ≡ ok hello)
        × (hello.identity_public_key ≡ pinned)
        × (c.verify hello.identity_public_key
              (client_signature_message hello.ephemeral_public_key hello.identity_public_key
                hello.nonce
                (c.verifying_key private))
              hello.signature
            ≡ true)
  unfolding server_accept
  server_accept_sound private pinned frame hello h =
      let (x, d, h) = before_ok (decode_client_hello frame) _ h in
      ground (
        arith,
        bytes_eq→eq x.identity_public_key pinned,
        verify_signature_ok x.identity_public_key
            (client_signature_message x.ephemeral_public_key x.identity_public_key x.nonce
              (c.verifying_key private))
            x.signature,
      )
