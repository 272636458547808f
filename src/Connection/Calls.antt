-- ===== src/Connection/Calls.antt =====
-- The methods of `ConnectionCore` of crates/taunicorn/src/lib.rs, in the order of the source.
use taunicorn.Prelude.{
  ℕ, zero, suc, ◌+◌, Bool, true, false, not, Option, none, some, List, [], ◌∷◌, ◌++◌, length, drop,
  is_empty, ltb, if◌then◌else◌,
}
use taunicorn.Outcome.{
  Error, Outcome, ok, err, dropped, fuel_out, connection_is_closed, connection_was_closed,
  connection_poisoned, connection_is_paused, receive_is_shut_down, receive_was_shut_down,
  send_is_shut_down, write_returned_zero, timeout_before_progress, closed_after, zero_after,
  timeout_after, failed_after, io_failed,
}
use taunicorn.Stream.{ReceiveResult, data_read, end_of_stream}
use taunicorn.Endpoint.{Io, done, failed}
use taunicorn.Connection.{ConnectionCore}
use taunicorn.Connection.Flags
use taunicorn.Connection.Flags.{set_read_shutdown, set_write_shutdown, set_peer_sent_eof}
use taunicorn.Connection.Prog.{
  Gate, read_gate, write_gate, Token, close_token, read_shutdown_token, Select, Race, won,
  cancelled, elapsed, gone, flush as flush_stream, shutdown as shut_down_stream, Prog, ret, atomic,
  lock, read, write, sync, ◌>>=◌, ◌>>◌, pure, fail, bail_if, load, store, holding,
}

-- What the branches of a `select!` return, given the error of the close branch.
unfoldable pub settle : {A : Type 0} → Error → Race A → Outcome A
settle on_close (won a) = ok a
settle on_close (cancelled close_token) = err on_close
settle on_close (cancelled read_shutdown_token) = err receive_was_shut_down
settle on_close elapsed = err timeout_before_progress
settle on_close gone = dropped

-- The three kinds of `select!`, and a plain await.
abbrev pub until_close : Select
until_close = record { on_close = true; on_read_shutdown = false; on_deadline = false }

abbrev pub until_close_or_read_shutdown : Select
until_close_or_read_shutdown = record {
  on_close = true;
  on_read_shutdown = true;
  on_deadline = false;
}

abbrev pub until_close_or_deadline : Select
until_close_or_deadline = record { on_close = true; on_read_shutdown = false; on_deadline = true }

abbrev pub plain : Select
plain = record { on_close = false; on_read_shutdown = false; on_deadline = false }

abbrev pub take_gate : Gate → Select → Prog (Unit {0})
take_gate g q = lock g q (λ x. ret (settle connection_was_closed x))

-- `self.stream.lock()`, then a clone of the handle.
abbrev pub clone_of : Bool × Option ℕ → Prog ℕ
clone_of (true, s) = fail connection_poisoned
clone_of (false, none) = fail connection_is_closed
clone_of (false, some handle) = pure handle

unfoldable pub stream : Prog ℕ
unfolding Flags.is_closed
stream = do
  closed ← Flags.is_closed
  bail_if closed connection_is_closed
  clone_of (← load (λ s. (s.poisoned, s.stream)))

abbrev pub take_handle : ConnectionCore → ConnectionCore
take_handle s = record s { stream = if s.poisoned then s.stream else none }

unfoldable pub take_stream : Prog (Option ℕ)
take_stream =
    atomic take_handle (λ s. if s.poisoned then fail connection_poisoned else pure (s.stream))

unfoldable pub ensure_common_io_available : Prog (Unit {0})
unfolding Flags.is_closed Flags.is_paused
ensure_common_io_available = do
  closed ← Flags.is_closed
  bail_if closed connection_is_closed
  paused ← Flags.is_paused
  bail_if paused connection_is_paused

unfoldable pub ensure_read_available : Prog (Unit {0})
unfolding ensure_common_io_available Flags.is_read_shutdown
ensure_read_available = do
  ensure_common_io_available
  shut ← Flags.is_read_shutdown
  bail_if shut receive_is_shut_down

unfoldable pub ensure_write_available : Prog (Unit {0})
unfolding ensure_common_io_available Flags.is_write_shutdown
ensure_write_available = do
  ensure_common_io_available
  shut ← Flags.is_write_shutdown
  bail_if shut send_is_shut_down

-- `token.cancel()`
abbrev pub cancel : Token → ConnectionCore → ConnectionCore
cancel close_token s = record s { close_token = true }
cancel read_shutdown_token s = record s { read_shutdown_token = true }

unfoldable pub fail_connection : Prog (Unit {0})
unfolding Flags.close
fail_connection = do
  first ← Flags.close
  if first
      then (do store (cancel close_token); store (cancel read_shutdown_token); store take_handle)
      else pure tt

-- The arms of the match on what `io.read(buffer)` returned.
unfoldable pub after_read : List ℕ → Io (List ℕ) → Prog (ReceiveResult × List ℕ)
unfolding fail_connection
after_read buffer (done []) = do store (set_peer_sent_eof true); pure (end_of_stream, buffer)
after_read buffer (done (b ∷ bytes)) =
    pure (data_read (length (b ∷ bytes)), b ∷ bytes ++ drop (length (b ∷ bytes)) buffer)
after_read buffer (failed e) = do fail_connection; fail (io_failed e)

-- `receive` returns the buffer as it leaves it.
unfoldable pub receive : List ℕ → Prog (ReceiveResult × List ℕ)
unfolding settle Flags.peer_sent_eof ensure_read_available stream after_read
receive buffer = if is_empty buffer then pure (data_read 0, buffer) else do
  eof ← Flags.peer_sent_eof
  if eof then pure (end_of_stream, buffer) else do
    ensure_read_available
    take_gate read_gate until_close_or_read_shutdown
    holding read_gate (do
      eof_now ← Flags.peer_sent_eof
      if eof_now then pure (end_of_stream, buffer) else do
        ensure_read_available
        handle ← stream
        result ←
            read (length buffer) until_close_or_read_shutdown
              (λ x. ret (settle connection_was_closed x))
        after_read buffer result)

-- The arms of the match on what `io.write(data)` returned.
unfoldable pub after_write_once : Io ℕ → Prog ℕ
unfolding fail_connection
after_write_once (done zero) = do fail_connection; fail write_returned_zero
after_write_once (done (suc n)) = pure (suc n)
after_write_once (failed e) = do fail_connection; fail (io_failed e)

unfoldable pub write_once : List ℕ → Prog ℕ
unfolding settle ensure_write_available stream after_write_once
write_once bytes = if is_empty bytes then pure 0 else do
  ensure_write_available
  take_gate write_gate until_close
  holding write_gate (do
    ensure_write_available
    handle ← stream
    result ← write bytes until_close (λ x. ret (settle connection_was_closed x))
    after_write_once result)

-- One round of the loops of `send` and `send_timeout`: how the write's await ended, and the rest of
-- the loop.
unfoldable pub write_round : ℕ → ℕ → (ℕ → Prog (Unit {0})) → Race (Io ℕ) → Prog (Unit {0})
write_round written total go (won (done zero)) = do fail_connection; fail (zero_after written total)
write_round written total go (won (done (suc n))) = go (written + suc n)
write_round written total go (won (failed e)) = do
  fail_connection
  fail (failed_after written total e)
write_round written total go (cancelled t) = fail (closed_after written total)
write_round written total go elapsed = do fail_connection; fail (timeout_after written total)
write_round written total go gone = ret dropped

-- `while written < data.len()`: each round that goes on has written a byte at least, so as many
-- rounds as there are bytes are enough.
unfoldable pub write_loop : Select → ℕ → List ℕ → ℕ → Prog (Unit {0})
unfolding write_round
write_loop q zero bytes written = if ltb written (length bytes) then ret fuel_out else pure tt
write_loop q (suc fuel) bytes written =
    if ltb written (length bytes)
    then write (drop written bytes) q
        (write_round written (length bytes) (λ w. write_loop q fuel bytes w))
    else pure tt

unfoldable pub send : List ℕ → Prog (Unit {0})
unfolding settle ensure_write_available stream write_loop
send bytes = if is_empty bytes then pure tt else do
  ensure_write_available
  take_gate write_gate until_close
  holding write_gate
      (do ensure_write_available; handle ← stream; write_loop until_close (length bytes) bytes 0)

-- The deadline is a branch of both awaits.
unfoldable pub send_timeout : List ℕ → Prog (Unit {0})
unfolding settle ensure_write_available stream write_loop
send_timeout bytes = if is_empty bytes then pure tt else do
  ensure_write_available
  take_gate write_gate until_close_or_deadline
  holding write_gate (do
    ensure_write_available
    handle ← stream
    write_loop until_close_or_deadline (length bytes) bytes 0)

-- `Ok(()) => Ok(())`, or the connection fails.
unfoldable pub after_sync : Io (Unit {0}) → Prog (Unit {0})
unfolding fail_connection
after_sync (done _) = pure tt
after_sync (failed e) = do fail_connection; fail (io_failed e)

unfoldable pub flush : Prog (Unit {0})
unfolding settle ensure_write_available stream after_sync
flush = do
  ensure_write_available
  take_gate write_gate until_close
  holding write_gate (do
    ensure_write_available
    handle ← stream
    result ← sync flush_stream until_close (λ x. ret (settle connection_was_closed x))
    after_sync result)

-- `is_closed() || is_…_shutdown()`
abbrev pub either_flag : Prog Bool → Prog Bool → Prog Bool
either_flag p q = do first ← p; if first then pure true else q

unfoldable pub shutdown_read : Prog (Unit {0})
unfolding Flags.is_closed Flags.is_read_shutdown
shutdown_read = do
  nothing_to_do ← either_flag Flags.is_closed Flags.is_read_shutdown
  if nothing_to_do
      then pure tt
      else do store (set_read_shutdown true); store (cancel read_shutdown_token)

unfoldable pub shutdown_write : Prog (Unit {0})
unfolding settle Flags.is_closed Flags.is_write_shutdown stream after_sync
shutdown_write = do
  nothing_to_do ← either_flag Flags.is_closed Flags.is_write_shutdown
  if nothing_to_do then pure tt else do
    take_gate write_gate plain
    holding write_gate (do
      nothing_left ← either_flag Flags.is_closed Flags.is_write_shutdown
      if nothing_left then pure tt else do
        store (set_write_shutdown true)
        handle ← stream
        result ← sync shut_down_stream plain (λ x. ret (settle connection_was_closed x))
        after_sync result)

-- `io.shutdown()` of `close`, whose failure is only reported.
abbrev pub report : Io (Unit {0}) → Prog (Unit {0})
report (done _) = pure tt
report (failed e) = fail (io_failed e)

abbrev pub finish_close : Option ℕ → Prog (Unit {0})
finish_close none = pure tt
finish_close (some handle) = do
  take_gate write_gate plain
  holding write_gate (do
    result ← sync shut_down_stream plain (λ x. ret (settle connection_was_closed x))
    report result)

unfoldable pub close : Prog (Unit {0})
unfolding settle Flags.close take_stream
close = do
  first ← Flags.close
  if not first then pure tt else do
    store (cancel close_token)
    store (cancel read_shutdown_token)
    handle ← take_stream
    finish_close handle
