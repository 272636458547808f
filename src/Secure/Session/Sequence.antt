-- ===== src/Secure/Session/Sequence.antt =====
-- The sequence numbers of an encrypted session (crates/taunicorn/src/security.rs).
use taunicorn.Prelude.{
  ℕ, ◌+◌, ◌≤◌, ◌≡◌, ◌≢◌, refl, Bool, true, false, some, List, length, take, drop, arith,
  if◌then◌else◌, length-take, length-drop,
}
use taunicorn.Bytes.{from_be_bytes}
use taunicorn.Outcome.{Outcome, ok, err, dropped, waiting, fuel_out, invalid_sequence}
use taunicorn.Stream.{ByteStream}
use taunicorn.Secure.{DirectionState, version}
use taunicorn.Secure.Crypto.{Crypto}
use taunicorn.Secure.Wire.{byte_at}
use taunicorn.Secure.Messages.{make_aad, make_nonce}
use taunicorn.Secure.Frame.{read_frame}
use taunicorn.Secure.Session.{SecureConnection, send, receive}

abbrev pub is_ok {ℓ} : {A : Type ℓ} → Outcome A → Bool
is_ok (ok a) = true
is_ok _ = false

abbrev pub next : DirectionState → DirectionState
next d = record d { sequence = d.sequence + 1 }

module _ (c : Crypto) {S : Type 0} (t : ByteStream S) where
  -- A send moves its own sequence number by one if it returns `Ok`, and leaves it where it was if
  -- it does not return `Ok`; the receiving direction and the transcript hash stay as they were.
  pub send_sequence :
      (plaintext : List ℕ) (s : SecureConnection S)
      → let (r, s') = send c t plaintext s in
        (s'.send_state ≡ (if is_ok r then next s.send_state else s.send_state))
        × (s'.receive_state ≡ s.receive_state)
        × (s'.transcript_hash ≡ s.transcript_hash)
  unfolding send
  send_sequence plaintext s = ground arith

  -- A receive moves its own sequence number by one if it returns `Ok`, and leaves it where it was if
  -- it does not return `Ok`; the sending direction and the transcript hash stay as they were.
  pub receive_sequence :
      (s : SecureConnection S)
      → let (r, s') = receive c t s in
        (s'.receive_state ≡ (if is_ok r then next s.receive_state else s.receive_state))
        × (s'.send_state ≡ s.send_state)
        × (s'.transcript_hash ≡ s.transcript_hash)
  unfolding receive
  receive_sequence s = ground arith

  -- A frame that a receive may take its plaintext from: of the protocol's version and the expected
  -- sequence number, and accepted by the cipher under this direction and this transcript.
  pub record IsAuthentic (s : SecureConnection S) (plaintext frame : List ℕ) : Type 0 where
    pub long_enough : 25 ≤ length frame
    pub right_version : byte_at frame 0 ≡ version
    pub right_sequence : from_be_bytes (take 8 (drop 1 frame)) ≡ s.receive_state.sequence
    pub authenticated :
        c.decrypt s.receive_state.cipher
          (make_nonce s.receive_state.nonce_prefix (take 8 (drop 1 frame)))
          (make_aad s.receive_state.direction (take 8 (drop 1 frame)) s.transcript_hash)
          (drop 9 frame)
        ≡ some plaintext

  -- Whatever a receive returns came out of an authentic frame, the next one of the stream.
  pub receive_sound :
      (plaintext : List ℕ) (s : SecureConnection S)
      → (receive c t s).0 ≡ ok plaintext
      → (frame : List ℕ) × ((read_frame t s.connection).0 ≡ ok frame)
        × IsAuthentic s plaintext frame
  unfolding receive
  receive_sound plaintext s e = go (read_frame t s.connection).0 refl
    where
      go :
          (r : Outcome (List ℕ))
          → (read_frame t s.connection).0 ≡ r
          → (frame : List ℕ) × ((read_frame t s.connection).0 ≡ ok frame)
            × IsAuthentic s plaintext frame
      go (ok frame) p = (frame, p, ground arith)
      go (err x) p = absurd (ground arith)
      go dropped p = absurd (ground arith)
      go waiting p = absurd (ground arith)
      go fuel_out p = absurd (ground arith)

  -- A frame of the protocol's version and least size with another sequence number than the expected
  -- one is refused, and both directions keep their state.
  pub other_sequence_refused :
      (frame : List ℕ) (s : SecureConnection S)
      → (read_frame t s.connection).0 ≡ ok frame
      → 25 ≤ length frame
      → byte_at frame 0 ≡ version
      → from_be_bytes (take 8 (drop 1 frame)) ≢ s.receive_state.sequence
      → receive c t s ≡ (
        err (invalid_sequence s.receive_state.sequence (from_be_bytes (take 8 (drop 1 frame)))),
        record s { connection = (read_frame t s.connection).1 },
      )
  unfolding receive
  other_sequence_refused frame s p long v ne =
      ground (arith, length-take 8 (drop 1 frame), length-drop 1 frame)
