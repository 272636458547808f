-- ===== src/Secure/Session/Message.antt =====
-- One encrypted message (crates/taunicorn/src/security.rs): `send` and `receive` as one equation
-- each, for a message that fits.
use taunicorn.Prelude.{
  ℕ, ◌+◌, ◌^◌, ◌≤◌, ◌<◌, ◌≡◌, sym, some, List, ◌∷◌, ◌++◌, length, take, drop, arith, length-append,
  take-append, drop-append,
}
use taunicorn.Bytes.{be_bytes, length-be_bytes, from_be_bytes-be_bytes}
use taunicorn.Outcome.{ok}
use taunicorn.Stream.{ByteStream}
use taunicorn.Secure.{DirectionState, version, max_frame_size}
use taunicorn.Secure.Crypto.{Crypto, CryptoLaws}
use taunicorn.Secure.Messages.{make_aad, make_nonce}
use taunicorn.Secure.Frame.{read_frame, write_frame}
use taunicorn.Secure.Session.{SecureConnection, send, receive}
use taunicorn.Secure.Session.Sequence.{next}

module _ (c : Crypto) where
  -- The ciphertext of a message, and its frame.
  abbrev pub Encrypts : DirectionState → List ℕ → List ℕ → List ℕ → Type 0
  Encrypts d hash plaintext ct =
      c.encrypt d.cipher (make_nonce d.nonce_prefix (be_bytes 8 d.sequence))
        (make_aad d.direction (be_bytes 8 d.sequence) hash) plaintext
      ≡ some ct

  abbrev pub frame_of : DirectionState → List ℕ → List ℕ
  frame_of d ct = version ∷ (be_bytes 8 d.sequence ++ ct)

-- A message that fits, its ciphertext, and the direction state that both ends hold.
pub record Message (c : Crypto) (d : DirectionState) (hash plaintext ct : List ℕ) : Type 0 where
  pub fits : length plaintext + 25 ≤ max_frame_size
  pub unexhausted : d.sequence + 1 < 2 ^ 64
  pub encrypted : Encrypts c d hash plaintext ct

module _ (c : Crypto) (laws : CryptoLaws c) {d : DirectionState} {hash plaintext ct : List ℕ}
    (msg : Message c d hash plaintext ct) where
  pub length-frame_of : length (frame_of c d ct) ≡ length plaintext + 25
  length-frame_of = omega (
    arith,
    length-append (be_bytes 8 d.sequence) ct,
    length-be_bytes 8 d.sequence,
    laws.ciphertext_size _ _ _ _ _ msg.encrypted,
  )

  frame_sequence : take 8 (drop 1 (frame_of c d ct)) ≡ be_bytes 8 d.sequence
  frame_sequence = take-append (be_bytes 8 d.sequence) ct 8 (sym (length-be_bytes 8 d.sequence))

  frame_ciphertext : drop 9 (frame_of c d ct) ≡ ct
  frame_ciphertext = drop-append (be_bytes 8 d.sequence) ct 8 (sym (length-be_bytes 8 d.sequence))

  -- A send whose write succeeds.
  pub send_eq :
      {S : Type 0} (t : ByteStream S) (s : SecureConnection S)
      → s.send_state ≡ d
      → s.transcript_hash ≡ hash
      → (write_frame t (frame_of c d ct) s.connection).0 ≡ ok tt
      → send c t plaintext s ≡ (
        ok tt,
        record s {
          connection = (write_frame t (frame_of c d ct) s.connection).1;
          send_state = next s.send_state;
        },
      )
  unfolding send
  send_eq t s e h w = ground (arith, msg.encrypted, msg.unexhausted)

  -- A receive whose read returns the frame.
  pub receive_eq :
      {S : Type 0} (t : ByteStream S) (s : SecureConnection S)
      → s.receive_state ≡ d
      → s.transcript_hash ≡ hash
      → (read_frame t s.connection).0 ≡ ok (frame_of c d ct)
      → receive c t s ≡ (
        ok plaintext,
        record s {
          connection = (read_frame t s.connection).1;
          receive_state = next s.receive_state;
        },
      )
  unfolding receive
  receive_eq t s e h r = ground (
    arith,
    length-frame_of,
    frame_sequence,
    frame_ciphertext,
    length-be_bytes 8 d.sequence,
    msg.unexhausted,
    from_be_bytes-be_bytes 8 d.sequence,
    laws.decrypt-encrypt _ _ _ _ _ msg.encrypted,
  )
