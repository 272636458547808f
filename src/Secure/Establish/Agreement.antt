-- ===== src/Secure/Establish/Agreement.antt =====
-- Two honest sides derive the same keys (crates/taunicorn/src/security.rs).
use taunicorn.Prelude.{
  ℕ, ◌≡◌, refl, true, List, bytes_eq_refl, arith, length, take, drop, length-take, length-drop,
}
use taunicorn.Outcome.{ok}
use taunicorn.Secure.{
  ClientHello, ServerHello, KeyMaterial, IsKeyed, codes, direction_client_to_server,
  direction_server_to_client,
}
use taunicorn.Secure.Crypto.{Crypto, CryptoLaws}
use taunicorn.Secure.Wire.{encode_client_hello, encode_server_hello, decode_server_hello}
use taunicorn.Secure.Wire.RoundTrip.{take_array_inside, client_round_trip, server_round_trip}
use taunicorn.Secure.Messages.{
  client_signature_message, server_signature_message, handshake_transcript_hash, verify_signature,
  create_cipher, derive_key_material,
}
use taunicorn.Secure.Establish.{
  Established, fresh, client_offer, client_establish, server_accept, server_offer, server_establish,
}

module _ (c : Crypto) (laws : CryptoLaws c) where
  -- The four parts of the HKDF output.
  abbrev cut : List ℕ → KeyMaterial
  cut output = record {
    client_to_server_key = take 32 output;
    server_to_client_key = take 32 (drop 32 output);
    client_to_server_nonce_prefix = take 4 (drop 64 output);
    server_to_client_nonce_prefix = take 4 (drop 68 output);
  }

  -- The derivation succeeds, and cuts keys and prefixes of the cipher's sizes out of the output.
  derive_key_material_total :
      (secret hash : List ℕ)
      → (k : KeyMaterial) × (derive_key_material c secret hash ≡ ok k)
        × (length k.client_to_server_key ≡ 32)
        × (length k.server_to_client_key ≡ 32)
        × (length k.client_to_server_nonce_prefix ≡ 4)
        × (length k.server_to_client_nonce_prefix ≡ 4)
  unfolding derive_key_material
  derive_key_material_total secret hash =
      let (output, e, n) =
        laws.hkdf_output hash secret (codes "taunicorn-e2ee-v2/session-keys") 72 (omega arith) in
      (
        cut output,
        rw e (
            simp
              (
                take_array_inside 32 output 0 (omega arith) (omega arith),
                take_array_inside 32 output 32 (omega arith) (omega arith),
                take_array_inside 4 output 64 (omega arith) (omega arith),
                take_array_inside 4 output 68 (omega arith) (omega arith),
              )
              refl),
        omega (arith, length-take 32 output),
        omega (arith, length-take 32 (drop 32 output), length-drop 32 output),
        omega (arith, length-take 4 (drop 64 output), length-drop 64 output),
        omega (arith, length-take 4 (drop 68 output), length-drop 68 output),
      )

  verify-signed :
      (private message : List ℕ)
      → length private ≡ 32
      → verify_signature c (c.verifying_key private) message (c.sign private message) ≡ ok tt
  unfolding verify_signature
  verify-signed private message h = ground (
    arith,
    laws.key_accepted private h,
    laws.signature_accepted private message h,
    laws.verify-sign private message h,
  )

  -- Both sides with the identities that the other has pinned, and what they draw.
  module _
      (client_private server_private client_ephemeral server_ephemeral client_nonce
        server_nonce : List ℕ)
      (client_private_size : length client_private ≡ 32)
      (server_private_size : length server_private ≡ 32)
      (client_ephemeral_size : length client_ephemeral ≡ 32)
      (server_ephemeral_size : length server_ephemeral ≡ 32)
      (client_nonce_size : length client_nonce ≡ 32) (server_nonce_size : length server_nonce ≡ 32)
      (contributory : c.was_contributory
          (c.diffie_hellman client_ephemeral (c.x25519_public server_ephemeral))
        ≡ true) where
    abbrev ch : ClientHello
    ch =
        client_offer c client_private (c.verifying_key server_private) client_ephemeral client_nonce

    abbrev sh : ServerHello
    sh = server_offer c server_private ch server_ephemeral server_nonce

    -- The server accepts the client's hello.
    pub accepts :
        server_accept c server_private (c.verifying_key client_private) (encode_client_hello ch)
        ≡ ok ch
    unfolding server_accept client_offer
    accepts =
        rw
          (client_round_trip _ _ _ _ (laws.key_size client_private client_private_size)
            (laws.public_size client_ephemeral client_ephemeral_size) client_nonce_size
            (laws.signature_size client_private _ client_private_size))
          (ground (
            arith,
            bytes_eq_refl (c.verifying_key client_private),
            verify-signed client_private
                (client_signature_message (c.x25519_public client_ephemeral)
                  (c.verifying_key client_private) client_nonce (c.verifying_key server_private))
                client_private_size,
          ))

    -- The client reads the server's hello back from its frame.
    reads : decode_server_hello (encode_server_hello sh) ≡ ok sh
    unfolding server_offer
    reads =
        server_round_trip _ _ _ _ (laws.key_size server_private server_private_size)
          (laws.public_size server_ephemeral server_ephemeral_size) server_nonce_size
          (laws.signature_size server_private _ server_private_size)

    abbrev secret : List ℕ
    secret = c.diffie_hellman client_ephemeral (c.x25519_public server_ephemeral)

    abbrev hash : List ℕ
    hash =
        handshake_transcript_hash c ch.ephemeral_public_key ch.identity_public_key ch.nonce
          sh.ephemeral_public_key sh.identity_public_key sh.nonce

    hash_size : length hash ≡ 32
    unfolding handshake_transcript_hash
    hash_size = laws.digest_size _

    -- The states that the two sides end with, from the key material.
    abbrev of_client : KeyMaterial → Established
    of_client k = record {
      receive_state =
          fresh k.server_to_client_key direction_server_to_client k.server_to_client_nonce_prefix;
      send_state =
          fresh k.client_to_server_key direction_client_to_server k.client_to_server_nonce_prefix;
      transcript_hash = hash;
    }

    abbrev of_server : KeyMaterial → Established
    of_server k = record {
      receive_state = (of_client k).send_state;
      send_state = (of_client k).receive_state;
      transcript_hash = hash;
    }

    client_side :
        (k : KeyMaterial)
        → derive_key_material c secret hash ≡ ok k
        → length k.client_to_server_key ≡ 32
        → length k.server_to_client_key ≡ 32
        → client_establish c ch (c.verifying_key server_private) client_ephemeral sh
          ≡ ok (of_client k)
    unfolding client_establish client_offer server_offer create_cipher
    client_side k e a b = ground (
      arith,
      bytes_eq_refl (c.verifying_key server_private),
      verify-signed server_private
          (server_signature_message ch.ephemeral_public_key ch.identity_public_key ch.nonce
            sh.ephemeral_public_key sh.identity_public_key sh.nonce)
          server_private_size,
    )

    server_side :
        (k : KeyMaterial)
        → derive_key_material c secret hash ≡ ok k
        → length k.client_to_server_key ≡ 32
        → length k.server_to_client_key ≡ 32
        → server_establish c ch server_ephemeral sh ≡ ok (of_server k)
    unfolding server_establish client_offer server_offer create_cipher
    server_side k e a b = ground (
      arith,
      laws.dh_comm server_ephemeral client_ephemeral server_ephemeral_size client_ephemeral_size,
    )

    -- Two honest sides that have pinned each other's identity, with private keys and nonces of the
    -- protocol's sizes and a contributory shared secret: the server accepts the client's frame, the
    -- client decodes the server's frame and accepts what it holds, and both derive the same transcript
    -- hash, the client's sending state being the server's receiving state and the other way round,
    -- with keys, nonce prefixes and a hash of the sizes that the cipher takes.
    pub agreement :
        (server_accept c server_private (c.verifying_key client_private) (encode_client_hello ch)
          ≡ ok ch)
        × (decode_server_hello (encode_server_hello sh) ≡ ok sh)
        × (x : Established) × (y : Established) × (client_establish c ch
              (c.verifying_key server_private)
              client_ephemeral
              sh
            ≡ ok x)
        × (server_establish c ch server_ephemeral sh ≡ ok y)
        × (x.send_state ≡ y.receive_state)
        × (y.send_state ≡ x.receive_state)
        × (x.transcript_hash ≡ y.transcript_hash)
        × IsKeyed x.send_state x.transcript_hash
        × IsKeyed y.send_state y.transcript_hash
    agreement =
        let (k, e, a, b, p, q) = derive_key_material_total secret hash in
        (
          accepts,
          reads,
          of_client k,
          of_server k,
          client_side k e a b,
          server_side k e a b,
          refl,
          refl,
          refl,
          record { key = a; prefix = p; digest = hash_size },
          record { key = b; prefix = q; digest = hash_size },
        )
