-- ===== src/Tests/PythonSessions.antt =====
-- A direction of a `SecureSession` of crates/taunicorn-python/src/security.rs: a send is torn while
-- another one waits, and a message of two bytes.
use taunicorn.Prelude.{ℕ, ◌≡◌, false, some, List, ◌++◌, replicate, arith, refl, true, none, [], ◌∷◌}
use taunicorn.Bytes.{be_bytes}
use taunicorn.Outcome.{err, frame_too_large}
use taunicorn.Secure.{DirectionState}
use taunicorn.Secure.Messages.{make_nonce, make_aad}
use taunicorn.Secure.Session.{SecureConnection, send}
use taunicorn.Secure.Session.Message.{frame_of}
use taunicorn.Python.Exceptions.{value_error}
use taunicorn.Tests.Toy.{toy, toy_laws, tag, Pipe, pipe, empty_pipe}
use taunicorn.Python.Session.{
  dropped, SecureSession, look, ask, ensure_open, first_poll, begin, tear, drop_guard, release,
  looks, asks, checks, enters, begins_frame, is_dropped, unguards, releases, Reach, here, next, new,
}
use taunicorn.Python.Session.Orderly.{Stage, History, nothing_sent, begins, tears_it}
use taunicorn.Python.Session.Limits.{check_size, check_size-send}
use taunicorn.Python.Session.Terminal.{frames_in_order, torn_frame_cancels}
use taunicorn.Python.Session.Cancelled.{cancelled_is_terminal, is_entering, begun_by}

abbrev torn_send : SecureSession
torn_send = release 0 dropped (
    drop_guard 0 dropped
      (tear 0 dropped (begin 0 (first_poll 0 (ensure_open 0 (ask 0 (look 0 new)))))))

torn_send_reached : Reach new torn_send
unfolding new look ask ensure_open first_poll begin tear drop_guard release
torn_send_reached =
    next
      (next
        (next
          (next
            (next (next (next (next here (looks new 0 refl)) (asks _ 0 refl)) (checks _ 0 refl))
              (enters _ 0 refl))
            (begins_frame _ 0 refl))
          (is_dropped _ 0 refl))
        (unguards _ 0 dropped refl))
      (releases _ 0 dropped refl)

frames_in_order_example : (stage : Stage) × History torn_send.log stage
frames_in_order_example = frames_in_order torn_send_reached

torn_frame_cancels_example : torn_send.cancelled ≡ true
unfolding new look ask ensure_open first_poll begin tear drop_guard release
torn_frame_cancels_example =
    torn_frame_cancels torn_send_reached (tears_it 0 (begins 0 nothing_sent)) refl

-- Then the other send looks.
cancelled_is_terminal_example :
    ((look 1 torn_send).cancelled ≡ true)
    × ((i : ℕ)
        → is_entering (torn_send.phases i) ≡ false
        → begun_by i (look 1 torn_send).log ≡ begun_by i torn_send.log)
    × ((i : ℕ) → is_entering (torn_send.phases i) ≡ true → torn_send.gate ≡ some i)
unfolding new look ask ensure_open first_poll begin tear drop_guard release
cancelled_is_terminal_example =
    cancelled_is_terminal torn_send_reached (next here (looks torn_send 1 refl)) refl

-- A message of two bytes on a connection of keys and a hash of the protocol's sizes.
abbrev two : List ℕ
two = 1 ∷ 2 ∷ []

abbrev up : DirectionState
up = record {
  cipher = replicate 32 5;
  direction = 1;
  nonce_prefix = 1 ∷ 2 ∷ 3 ∷ 4 ∷ [];
  sequence = 6;
}

abbrev session : SecureConnection Pipe
session = record {
  connection = empty_pipe;
  receive_state = record up { direction = 2 };
  send_state = up;
  transcript_hash = replicate 32 9;
}

abbrev ciphertext : List ℕ
ciphertext =
    two
    ++ tag (replicate 32 5) (make_nonce (1 ∷ 2 ∷ 3 ∷ 4 ∷ []) (be_bytes 8 6))
        (make_aad 1 (be_bytes 8 6) (replicate 32 9))

check_size-send_example :
    (check_size two ≡ some value_error
      → send toy pipe two session ≡ (err (frame_too_large 27), session))
    × (check_size two ≡ none
        → (send toy pipe two session).0
          ≡ (pipe.send (be_bytes 4 27 ++ frame_of toy up ciphertext) empty_pipe).0)
check_size-send_example =
    check_size-send toy toy_laws pipe two ciphertext session refl (omega arith)
