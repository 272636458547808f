-- ===== src/Python/Failures/Classes.antt =====
-- The exceptions of the failures of crates/taunicorn/src/lib.rs, as the table of README.md has them.
use taunicorn.Prelude.{
  ℕ, ◌≡◌, refl, ◌∙◌, ap, Bool, true, false, not, ◌||◌, Option, none, some, List, ◌++◌, arith,
}
use mathlib.Core.Option
use taunicorn.Outcome.{
  Error, endpoint_empty, name_empty, name_rejected, server_is_stopped, server_poisoned,
  server_is_paused, server_was_stopped, accept_timed_out, connection_is_closed,
  connection_was_closed, connection_poisoned, connection_is_paused, receive_is_shut_down,
  receive_was_shut_down, send_is_shut_down, write_returned_zero, timeout_before_progress,
  read_timed_out, connect_timed_out, closed_after, zero_after, timeout_after, failed_after,
  io_failed, zero_length_frame, zero_length_read, closed_in_frame, receive_offset_overflow,
  frame_too_large, frame_too_short, length_not_u32, invalid_length_header,
  invalid_sequence_encoding, unsupported_version, invalid_sequence, authentication_failed,
  encryption_failed, send_exhausted, receive_exhausted, hello_size, hello_version, hello_type,
  offset_overflow, field_exceeds_frame, invalid_field, server_identity_mismatch,
  client_identity_mismatch, invalid_identity_key, invalid_signature_encoding, verification_failed,
  non_contributory, invalid_cipher_key, hkdf_failed, randomness_failed, invalid_server_confirmation,
  invalid_client_confirmation,
}
use taunicorn.Python.Exceptions.{
  Exception, os_error, timeout_error, blocking_io_error, connection_error, value_error,
  runtime_error,
}
use taunicorn.Python.Failures.{
  endpoint_failure, name_failure, server_failure, refusal, receive_failure, write_failure,
  deadline_failure, connect_failure, read_failure, io_failure, codes, by_text, progress, contains,
  failure, to_py_err,
}
use taunicorn.Python.Failures.Words.{over_progress, closed_text}

-- What README.md says of each failure of the transport.
abbrev pub documented : Error → Option Exception
documented endpoint_empty = some value_error
documented name_empty = some value_error
documented (name_rejected e) = some os_error
documented server_is_stopped = some connection_error
documented server_was_stopped = some connection_error
documented server_is_paused = some blocking_io_error
documented server_poisoned = some runtime_error
documented accept_timed_out = some timeout_error
documented connection_is_closed = some connection_error
documented connection_was_closed = some connection_error
documented connection_is_paused = some blocking_io_error
documented connection_poisoned = some runtime_error
documented receive_is_shut_down = some connection_error
documented receive_was_shut_down = some connection_error
documented send_is_shut_down = some connection_error
documented write_returned_zero = some connection_error
documented timeout_before_progress = some timeout_error
documented read_timed_out = some timeout_error
documented connect_timed_out = some timeout_error
documented (closed_after written size) = some connection_error
documented (zero_after written size) = some connection_error
documented (timeout_after written size) = some timeout_error
documented (failed_after written size e) = some connection_error
documented (io_failed e) = some os_error
documented _ = none

-- A text of the operating system that a failed write quotes does not have the words of another class.
abbrev pub is_plain : Error → Bool
is_plain (failed_after written size e) =
    not (contains (codes "timeout") e || contains (codes "paused") e)
is_plain _ = true

module _ (written size : ℕ) where
  closed_after_lem :
      by_text (
        progress "socket connection closed after " written size
          (codes " bytes were written; do not blindly retry the full buffer"))
      ≡ connection_error
  closed_after_lem =
      let after = codes " bytes were written; do not blindly retry the full buffer" in
      closed_text (progress "socket connection closed after " written size after)
        (over_progress b't' (codes "imeout") written size after (omega arith) (λ s. refl))
        (over_progress b'p' (codes "aused") written size after (omega arith) (λ s. refl)) refl

  zero_after_lem :
      by_text (
        progress "socket write returned zero after " written size
          (codes " bytes; connection closed"))
      ≡ connection_error
  zero_after_lem =
      let after = codes " bytes; connection closed" in
      closed_text (progress "socket write returned zero after " written size after)
        (over_progress b't' (codes "imeout") written size after (omega arith) (λ s. refl))
        (over_progress b'p' (codes "aused") written size after (omega arith) (λ s. refl))
        (over_progress b'c' (codes "losed") written size after (omega arith) (λ s. refl))

  failed_after_lem :
      (e : List ℕ)
      → (contains (codes "timeout") e ≡ false) × (contains (codes "paused") e ≡ false)
      → by_text (
          progress "socket write failed after " written size (
            codes " bytes; connection closed because a partial prefix may have been written: "
            ++ e))
        ≡ connection_error
  failed_after_lem e (a, b) =
      let after =
        codes " bytes; connection closed because a partial prefix may have been written: " ++ e in
      closed_text (progress "socket write failed after " written size after)
        (over_progress b't' (codes "imeout") written size after (omega arith) (λ s. refl) ∙ a)
        (over_progress b'p' (codes "aused") written size after (omega arith) (λ s. refl) ∙ b)
        (over_progress b'c' (codes "losed") written size after (omega arith) (λ s. refl))

neither : (a b : Bool) → not (a || b) ≡ true → (a ≡ false) × (b ≡ false)
neither true b h = absurd (let f : false ≡ true = h in cc)
neither false true h = absurd (let f : false ≡ true = h in cc)
neither false false h = (refl, refl)

-- The exception that the bindings choose by the text of a transport failure is the one of the table
-- of README.md, whatever counts of bytes the text prints; a connection that a failed or empty write
-- has closed counts as closed. A text of the operating system that is quoted after a partial write
-- must have neither "timeout" nor "paused" in it.
pub documented_exception :
    (e : Error) → is_plain e ≡ true → Option.map to_py_err (failure e) ≡ documented e
unfolding failure to_py_err by_text endpoint_failure name_failure server_failure refusal
    receive_failure write_failure deadline_failure connect_failure read_failure io_failure
documented_exception endpoint_empty h = refl
documented_exception name_empty h = refl
documented_exception server_is_stopped h = refl
documented_exception server_was_stopped h = refl
documented_exception server_is_paused h = refl
documented_exception server_poisoned h = refl
documented_exception accept_timed_out h = refl
documented_exception connection_is_closed h = refl
documented_exception connection_was_closed h = refl
documented_exception connection_is_paused h = refl
documented_exception connection_poisoned h = refl
documented_exception receive_is_shut_down h = refl
documented_exception receive_was_shut_down h = refl
documented_exception send_is_shut_down h = refl
documented_exception write_returned_zero h = refl
documented_exception timeout_before_progress h = refl
documented_exception read_timed_out h = refl
documented_exception connect_timed_out h = refl
documented_exception (name_rejected e) h = refl
documented_exception (io_failed e) h = refl
documented_exception (closed_after n m) h = ap some (closed_after_lem n m)
documented_exception (zero_after n m) h = ap some (zero_after_lem n m)
documented_exception (timeout_after n m) h = refl
documented_exception (failed_after n m e) h = ap some (
    failed_after_lem n m e (neither (contains (codes "timeout") e) (contains (codes "paused") e) h))
documented_exception zero_length_frame h = refl
documented_exception zero_length_read h = refl
documented_exception closed_in_frame h = refl
documented_exception receive_offset_overflow h = refl
documented_exception (frame_too_large n) h = refl
documented_exception (frame_too_short n) h = refl
documented_exception (length_not_u32 n) h = refl
documented_exception invalid_length_header h = refl
documented_exception invalid_sequence_encoding h = refl
documented_exception (unsupported_version n) h = refl
documented_exception (invalid_sequence n m) h = refl
documented_exception authentication_failed h = refl
documented_exception encryption_failed h = refl
documented_exception send_exhausted h = refl
documented_exception receive_exhausted h = refl
documented_exception (hello_size n) h = refl
documented_exception (hello_version n) h = refl
documented_exception hello_type h = refl
documented_exception offset_overflow h = refl
documented_exception field_exceeds_frame h = refl
documented_exception invalid_field h = refl
documented_exception server_identity_mismatch h = refl
documented_exception client_identity_mismatch h = refl
documented_exception invalid_identity_key h = refl
documented_exception invalid_signature_encoding h = refl
documented_exception verification_failed h = refl
documented_exception non_contributory h = refl
documented_exception invalid_cipher_key h = refl
documented_exception hkdf_failed h = refl
documented_exception randomness_failed h = refl
documented_exception invalid_server_confirmation h = refl
documented_exception invalid_client_confirmation h = refl
