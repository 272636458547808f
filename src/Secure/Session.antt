-- ===== src/Secure/Session.antt =====
-- Encrypted messages: `SecureConnection::send` and `SecureConnection::receive` of
-- crates/taunicorn/src/security.rs. Each direction has a mutex that a call holds from its first
-- statement to its last, so the calls of one direction run one after the other.
pub mod Sequence
pub mod Later
pub mod Message
pub mod Transfer
pub mod Connected
use taunicorn.Prelude.{ℕ, ◌+◌, ◌-◌, not, List, [], ◌∷◌, ◌++◌, length, take, drop, ltb, ◌==◌}
use taunicorn.Bytes.{be_bytes, from_be_bytes}
use taunicorn.Outcome.{
  Outcome, ok, err, frame_too_short, unsupported_version, invalid_sequence_encoding,
  invalid_sequence, authentication_failed, encryption_failed, send_exhausted, receive_exhausted,
}
use taunicorn.Outcome.Action.{Action, pure, lift, ◌>>=◌, ◌>>◌, bail_if}
use taunicorn.Stream.{ByteStream}
use taunicorn.Secure.{
  DirectionState, version, version_size, sequence_size, encrypted_frame_header_size,
  min_encrypted_frame_size,
}
use taunicorn.Secure.Crypto.{Crypto}
use taunicorn.Secure.Wire.{checked_add, ok_or, to_array, byte_at}
use taunicorn.Secure.Messages.{make_aad, make_nonce}
use taunicorn.Secure.Frame.{read_frame, write_frame}

-- `S` is the state of the connection underneath.
pub record SecureConnection (S : Type 0) : Type 0 where
  pub connection : S
  pub receive_state : DirectionState
  pub send_state : DirectionState
  pub transcript_hash : List ℕ

module _ {S : Type 0} where
  -- A call on the connection.
  abbrev pub on_connection : {A : Type 0} → Action S A → Action (SecureConnection S) A
  on_connection m s = let (r, inner) = m s.connection in (r, record s { connection = inner })

  abbrev pub gets : {A : Type 0} → (SecureConnection S → A) → Action (SecureConnection S) A
  gets f s = (ok (f s), s)

  -- `state.sequence = next`
  abbrev pub set_send_sequence : ℕ → Action (SecureConnection S) (Unit {0})
  set_send_sequence n s = (ok tt, record s { send_state = record (s.send_state) { sequence = n } })

  abbrev pub set_receive_sequence : ℕ → Action (SecureConnection S) (Unit {0})
  set_receive_sequence n s =
      (ok tt, record s { receive_state = record (s.receive_state) { sequence = n } })

module _ (c : Crypto) {S : Type 0} (t : ByteStream S) where
  unfoldable pub send : List ℕ → Action (SecureConnection S) (Unit {0})
  send plaintext = do
    state ← gets (λ s. s.send_state)
    transcript_hash ← gets (λ s. s.transcript_hash)
    let sequence = state.sequence
    next_sequence ← lift (ok_or (checked_add sequence 1) send_exhausted)
    let sequence_bytes = be_bytes sequence_size sequence
    let nonce = make_nonce state.nonce_prefix sequence_bytes
    let aad = make_aad state.direction sequence_bytes transcript_hash
    ciphertext ← lift (ok_or (c.encrypt state.cipher nonce aad plaintext) encryption_failed)
    on_connection (write_frame t (version ∷ (sequence_bytes ++ ciphertext)))
    set_send_sequence next_sequence

  unfoldable pub receive : Action (SecureConnection S) (List ℕ)
  receive = do
    state ← gets (λ s. s.receive_state)
    transcript_hash ← gets (λ s. s.transcript_hash)
    frame ← on_connection (read_frame t)
    bail_if (ltb (length frame) min_encrypted_frame_size) (frame_too_short (length frame))
    bail_if (not (byte_at frame 0 == version)) (unsupported_version (byte_at frame 0))
    sequence_bytes ← lift (
        to_array sequence_size (take sequence_size (drop version_size frame))
          invalid_sequence_encoding)
    let received_sequence = from_be_bytes sequence_bytes
    bail_if (not (received_sequence == state.sequence))
        (invalid_sequence state.sequence received_sequence)
    let nonce = make_nonce state.nonce_prefix sequence_bytes
    let aad = make_aad state.direction sequence_bytes transcript_hash
    plaintext ← lift (
        ok_or (c.decrypt state.cipher nonce aad (drop encrypted_frame_header_size frame))
          authentication_failed)
    next_sequence ← lift (ok_or (checked_add state.sequence 1) receive_exhausted)
    set_receive_sequence next_sequence
    pure plaintext
