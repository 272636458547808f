-- ===== src/Secure/Wire.antt =====
-- The fixed-size handshake frames of crates/taunicorn/src/security.rs: `take_array` and the
-- encoders and decoders of the two hellos.
pub mod RoundTrip
pub mod Accepted
use taunicorn.Prelude.{
  ℕ, ◌+◌, ◌-◌, ◌^◌, ◌≡◌, not, ◌&&◌, Option, none, some, List, [], ◌∷◌, ◌++◌, length, take, drop,
  get_elem?, ltb, leb, ◌==◌, if◌then◌else◌,
}
use taunicorn.Outcome.{
  Error, Outcome, ok, err, ◌>>=◌, ◌>>◌, bail_if, hello_size as bad_hello_size, hello_version,
  hello_type, offset_overflow, field_exceeds_frame, invalid_field,
}
use taunicorn.Secure.{
  ClientHello, ServerHello, hello_size, hello_header_size, client_hello, server_hello, version,
  ed25519_public_key_size, x25519_public_key_size, handshake_nonce_size, ed25519_signature_size,
}

-- `usize::checked_add` on a 64-bit target.
abbrev pub checked_add : ℕ → ℕ → Option ℕ
checked_add a b = if ltb (a + b) (2 ^ 64) then some (a + b) else none

-- `data.get(start..end)`
abbrev pub get_range : List ℕ → ℕ → ℕ → Option (List ℕ)
get_range xs start end' =
    if leb start end' && leb end' (length xs)
    then some (take (end' - start) (drop start xs))
    else none

abbrev pub ok_or {ℓ} : {A : Type ℓ} → Option A → Error → Outcome A
ok_or none e = err e
ok_or (some a) e = ok a

-- `slice.try_into()` for a `[u8; N]`
abbrev pub to_array : ℕ → List ℕ → Error → Outcome (List ℕ)
to_array n bytes e = if length bytes == n then ok bytes else err e

-- Returns the field and the advanced offset.
unfoldable pub take_array : ℕ → List ℕ → ℕ → Outcome (List ℕ × ℕ)
take_array n frame offset = do
  end' ← ok_or (checked_add offset n) offset_overflow
  bytes ← ok_or (get_range frame offset end') field_exceeds_frame
  value ← to_array n bytes invalid_field
  ok (value, end')

-- `data[i]`, which the length test before it makes safe.
abbrev pub byte_at : List ℕ → ℕ → ℕ
byte_at xs i = elim (get_elem? xs i) [ none ↦ 0 | some b ↦ b ]

unfoldable pub decode_client_hello : List ℕ → Outcome ClientHello
decode_client_hello frame = do
  bail_if (not (length frame == hello_size)) (bad_hello_size (length frame))
  bail_if (not (byte_at frame 0 == client_hello)) hello_type
  bail_if (not (byte_at frame 1 == version)) (hello_version (byte_at frame 1))
  (identity, offset) ← take_array ed25519_public_key_size frame hello_header_size
  (ephemeral, offset) ← take_array x25519_public_key_size frame offset
  (nonce, offset) ← take_array handshake_nonce_size frame offset
  (signature, offset) ← take_array ed25519_signature_size frame offset
  ok (record {
    ephemeral_public_key = ephemeral;
    identity_public_key = identity;
    nonce = nonce;
    signature = signature;
  })

unfoldable pub decode_server_hello : List ℕ → Outcome ServerHello
decode_server_hello frame = do
  bail_if (not (length frame == hello_size)) (bad_hello_size (length frame))
  bail_if (not (byte_at frame 0 == server_hello)) hello_type
  bail_if (not (byte_at frame 1 == version)) (hello_version (byte_at frame 1))
  (identity, offset) ← take_array ed25519_public_key_size frame hello_header_size
  (ephemeral, offset) ← take_array x25519_public_key_size frame offset
  (nonce, offset) ← take_array handshake_nonce_size frame offset
  (signature, offset) ← take_array ed25519_signature_size frame offset
  ok (record {
    ephemeral_public_key = ephemeral;
    identity_public_key = identity;
    nonce = nonce;
    signature = signature;
  })

unfoldable pub encode_client_hello : ClientHello → List ℕ
encode_client_hello hello =
    client_hello
    ∷ version
    ∷ (hello.identity_public_key
        ++ (hello.ephemeral_public_key ++ (hello.nonce ++ hello.signature)))

unfoldable pub encode_server_hello : ServerHello → List ℕ
encode_server_hello hello =
    server_hello
    ∷ version
    ∷ (hello.identity_public_key
        ++ (hello.ephemeral_public_key ++ (hello.nonce ++ hello.signature)))
