-- ===== src/Secure/Messages.antt =====
-- The byte strings of crates/taunicorn/src/security.rs that are signed, hashed or authenticated,
-- and the values that are derived from them.
pub mod Binding
pub mod Nonces
use taunicorn.Prelude.{
  ℕ, ◌+◌, ◌≡◌, Bool, not, Option, none, some, List, [], ◌∷◌, ◌++◌, length, ◌==◌, if◌then◌else◌,
}
use taunicorn.Outcome.{
  Error, Outcome, ok, err, ◌>>=◌, ◌>>◌, bail_if, invalid_identity_key, invalid_signature_encoding,
  verification_failed, invalid_cipher_key, hkdf_failed,
}
use taunicorn.Secure.{
  codes, magic, version, KeyMaterial, aead_key_size, nonce_prefix_size, hkdf_output_size,
}
use taunicorn.Secure.Crypto.{Crypto}
use taunicorn.Secure.Wire.{take_array, ok_or}

unfoldable pub client_signature_message : List ℕ → List ℕ → List ℕ → List ℕ → List ℕ
client_signature_message client_ephemeral_public client_identity_public client_nonce
      server_identity_public =
    magic
    ++ (codes "/client-auth/"
        ++ (version
            ∷ (client_identity_public
                ++ (server_identity_public ++ (client_ephemeral_public ++ client_nonce)))))

unfoldable pub server_signature_message :
    List ℕ → List ℕ → List ℕ → List ℕ → List ℕ → List ℕ → List ℕ
server_signature_message client_ephemeral_public client_identity_public client_nonce
      server_ephemeral_public server_identity_public server_nonce =
    magic
    ++ (codes "/server-auth/"
        ++ (version
            ∷ (client_identity_public
                ++ (server_identity_public
                    ++ (client_ephemeral_public
                        ++ (server_ephemeral_public ++ (client_nonce ++ server_nonce)))))))

-- What `handshake_transcript_hash` feeds to the hash, piece by piece.
unfoldable pub transcript : List ℕ → List ℕ → List ℕ → List ℕ → List ℕ → List ℕ → List ℕ
transcript client_ephemeral_public client_identity_public client_nonce server_ephemeral_public
      server_identity_public server_nonce =
    magic
    ++ (codes "/transcript/"
        ++ (version
            ∷ (client_identity_public
                ++ (server_identity_public
                    ++ (client_ephemeral_public
                        ++ (server_ephemeral_public ++ (client_nonce ++ server_nonce)))))))

unfoldable pub make_aad : ℕ → List ℕ → List ℕ → List ℕ
make_aad direction sequence transcript_hash =
    magic ++ (version ∷ direction ∷ (sequence ++ transcript_hash))

unfoldable pub make_nonce : List ℕ → List ℕ → List ℕ
make_nonce nonce_prefix sequence = nonce_prefix ++ sequence

module _ (c : Crypto) where
  unfoldable pub handshake_transcript_hash :
      List ℕ → List ℕ → List ℕ → List ℕ → List ℕ → List ℕ → List ℕ
  unfolding transcript
  handshake_transcript_hash ce ci cn se si sn = c.sha256 (transcript ce ci cn se si sn)

  unfoldable pub verify_signature : List ℕ → List ℕ → List ℕ → Outcome (Unit {0})
  verify_signature identity_public_key message signature = do
    bail_if (not (c.is_key identity_public_key)) invalid_identity_key
    bail_if (not (c.is_signature signature)) invalid_signature_encoding
    bail_if (not (c.verify identity_public_key message signature)) verification_failed

  -- `new_from_slice` refuses a key of another length.
  unfoldable pub create_cipher : List ℕ → Outcome (List ℕ)
  create_cipher key = if length key == aead_key_size then ok key else err invalid_cipher_key

  unfoldable pub derive_key_material : List ℕ → List ℕ → Outcome KeyMaterial
  derive_key_material shared_secret transcript_hash = do
    output ←
        ok_or
          (c.hkdf transcript_hash shared_secret (codes "taunicorn-e2ee-v2/session-keys")
            hkdf_output_size)
          hkdf_failed
    (client_to_server_key, offset) ← take_array aead_key_size output 0
    (server_to_client_key, offset) ← take_array aead_key_size output offset
    (client_to_server_nonce_prefix, offset) ← take_array nonce_prefix_size output offset
    (server_to_client_nonce_prefix, offset) ← take_array nonce_prefix_size output offset
    ok (record {
      client_to_server_key = client_to_server_key;
      client_to_server_nonce_prefix = client_to_server_nonce_prefix;
      server_to_client_key = server_to_client_key;
      server_to_client_nonce_prefix = server_to_client_nonce_prefix;
    })
