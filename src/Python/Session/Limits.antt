-- ===== src/Python/Session/Limits.antt =====
-- What crates/taunicorn-python/src/security.rs tests before a secure session is touched.
use taunicorn.Prelude.{
  ℕ, ◌+◌, ◌-◌, ◌*◌, ◌^◌, ◌<◌, ◌++◌, length-append, ◌≡◌, ◌⊎◌, inl, inr, Option, none, some, List,
  length, ltb, ◌==◌, if◌then◌else◌, arith,
}
use taunicorn.Outcome.{
  Error, err, frame_too_large, closed_in_frame, send_exhausted, receive_exhausted, io_failed,
}
use taunicorn.Python.Exceptions.{
  Exception, connection_error, os_error, eof_error, overflow_error, value_error,
}
use taunicorn.Bytes.{be_bytes, length-be_bytes}
use taunicorn.Stream.{ByteStream}
use taunicorn.Secure.Crypto.{Crypto, CryptoLaws}
use taunicorn.Secure.Frame.{write_frame}
use taunicorn.Secure.Session.{SecureConnection, send}
use taunicorn.Secure.Session.Message.{Encrypts, frame_of}

-- `key32`: an array of 32 bytes, or an error.
unfoldable pub key32 : List ℕ → Exception ⊎ List ℕ
key32 value = if length value == 32 then inr value else inl value_error

unfoldable pub max_plaintext_size : ℕ
max_plaintext_size = 64 * 1024 * 1024 - 25

-- The test of `send`, before its future.
unfoldable pub check_size : List ℕ → Option Exception
unfolding max_plaintext_size
check_size plaintext = if ltb max_plaintext_size (length plaintext) then some value_error else none

-- The class for an error of the connection below.
unfoldable pub secure_error : Error → Exception
secure_error closed_in_frame = eof_error
secure_error send_exhausted = overflow_error
secure_error receive_exhausted = overflow_error
secure_error (io_failed e) = os_error
secure_error _ = connection_error

module _ (c : Crypto) (laws : CryptoLaws c) {S : Type 0} (t : ByteStream S) (plaintext ct : List ℕ)
    (s : SecureConnection S) where
  length-frame_of :
      Encrypts c s.send_state s.transcript_hash plaintext ct
      → length (frame_of c s.send_state ct) ≡ length plaintext + 25
  length-frame_of e = omega (
    arith,
    length-append (be_bytes 8 s.send_state.sequence) ct,
    length-be_bytes 8 s.send_state.sequence,
    laws.ciphertext_size _ _ _ _ _ e,
  )

  -- The test before the future agrees with the test of the core's frame writer, for a plaintext that
  -- the cipher encrypts and a sequence number that is not the last: where it refuses, the core's `send`
  -- would refuse the encrypted frame as too large and change nothing; where it admits, the core's
  -- `send` hands that frame, behind its length, to the connection, and ends as the connection does.
  pub check_size-send :
      Encrypts c s.send_state s.transcript_hash plaintext ct
      → s.send_state.sequence + 1 < 2 ^ 64
      → (check_size plaintext ≡ some value_error
          → send c t plaintext s ≡ (err (frame_too_large (length plaintext + 25)), s))
        × (check_size plaintext ≡ none
            → (send c t plaintext s).0
              ≡ (t.send
                  (be_bytes 4 (length plaintext + 25) ++ frame_of c s.send_state ct)
                  s.connection).0)
  unfolding check_size send write_frame
  check_size-send e room =
      (λ h. ground (arith, length-frame_of e), λ h. ground (arith, length-frame_of e))
