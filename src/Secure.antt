-- ===== src/Secure.antt =====
-- The secure layer of crates/taunicorn/src/security.rs: its constants and its structures. The
-- child modules hold its functions: `Wire` the handshake frames, `Frame` the length-prefixed
-- frames, `Messages` the byte strings that are signed, hashed and authenticated, `Session` the
-- encrypted messages, and `Handshake` the two sides of the handshake.
pub mod Crypto
pub mod Wire
pub mod Messages
pub mod Frame
pub mod Session
pub mod Establish
pub mod Handshake
use Prim.Native.Char.{code}
use Prim.Native.String
use Prim.Native.String.{String}
use taunicorn.Prelude.{ℕ, ◌+◌, ◌-◌, ◌*◌, ◌≡◌, List, [], ◌∷◌, length}

-- The bytes of an ASCII literal.
abbrev pub codes : String → List ℕ
codes String.[] = []
codes (String.◌∷◌ c s) = code c ∷ codes s

abbrev pub aead_key_size : ℕ
aead_key_size = 32

abbrev pub aead_nonce_size : ℕ
aead_nonce_size = 12

abbrev pub aead_tag_size : ℕ
aead_tag_size = 16

abbrev pub client_finished : List ℕ
client_finished = codes "taunicorn-e2ee-v2/client-finished"

abbrev pub client_hello : ℕ
client_hello = 0x01

abbrev pub direction_client_to_server : ℕ
direction_client_to_server = 0x01

abbrev pub direction_server_to_client : ℕ
direction_server_to_client = 0x02

abbrev pub ed25519_private_key_size : ℕ
ed25519_private_key_size = 32

abbrev pub ed25519_public_key_size : ℕ
ed25519_public_key_size = 32

abbrev pub ed25519_signature_size : ℕ
ed25519_signature_size = 64

abbrev pub message_type_size : ℕ
message_type_size = 1

abbrev pub version_size : ℕ
version_size = 1

abbrev pub sequence_size : ℕ
sequence_size = 8

abbrev pub encrypted_frame_header_size : ℕ
encrypted_frame_header_size = version_size + sequence_size

abbrev pub frame_length_size : ℕ
frame_length_size = 4

abbrev pub handshake_nonce_size : ℕ
handshake_nonce_size = 32

abbrev pub x25519_public_key_size : ℕ
x25519_public_key_size = 32

abbrev pub hello_header_size : ℕ
hello_header_size = message_type_size + version_size

abbrev pub hello_size : ℕ
hello_size =
    hello_header_size + ed25519_public_key_size + x25519_public_key_size + handshake_nonce_size
    + ed25519_signature_size

abbrev pub nonce_prefix_size : ℕ
nonce_prefix_size = aead_nonce_size - sequence_size

abbrev pub hkdf_output_size : ℕ
hkdf_output_size = aead_key_size * 2 + nonce_prefix_size * 2

abbrev pub magic : List ℕ
magic = codes "TNE2"

abbrev pub max_frame_size : ℕ
max_frame_size = 64 * 1024 * 1024

abbrev pub min_encrypted_frame_size : ℕ
min_encrypted_frame_size = encrypted_frame_header_size + aead_tag_size

abbrev pub server_finished : List ℕ
server_finished = codes "taunicorn-e2ee-v2/server-finished"

abbrev pub server_hello : ℕ
server_hello = 0x02

abbrev pub transcript_hash_size : ℕ
transcript_hash_size = 32

abbrev pub version : ℕ
version = 2

-- A `[u8; N]` is a list; its length is checked where the code converts a slice to an array.
pub record ClientHello : Type 0 where
  pub ephemeral_public_key : List ℕ
  pub identity_public_key : List ℕ
  pub nonce : List ℕ
  pub signature : List ℕ

pub record ServerHello : Type 0 where
  pub ephemeral_public_key : List ℕ
  pub identity_public_key : List ℕ
  pub nonce : List ℕ
  pub signature : List ℕ

-- `cipher` is the key that the ChaCha20Poly1305 instance was built from.
pub record DirectionState : Type 0 where
  pub cipher : List ℕ
  pub direction : ℕ
  pub nonce_prefix : List ℕ
  pub sequence : ℕ

pub record KeyMaterial : Type 0 where
  pub client_to_server_key : List ℕ
  pub client_to_server_nonce_prefix : List ℕ
  pub server_to_client_key : List ℕ
  pub server_to_client_nonce_prefix : List ℕ

-- What a handshake derives has the sizes that the cipher takes.
pub record IsKeyed (d : DirectionState) (hash : List ℕ) : Type 0 where
  pub key : length d.cipher ≡ 32
  pub prefix : length d.nonce_prefix ≡ 4
  pub digest : length hash ≡ 32
