-- ===== src/Python/Failures.antt =====
-- `to_py_err` of crates/taunicorn-python/src/lib.rs: the exception of a failure of
-- crates/taunicorn/src/lib.rs, chosen by its text.
pub mod Words
pub mod Classes
use Prim.Native.Char.{code}
use Prim.Native.String.{String}
use taunicorn.Prelude.{
  ℕ, zero, suc, ◌+◌, ◌/◌, ◌%◌, Bool, true, false, ◌&&◌, ◌||◌, Option, none, some, List, [], ◌∷◌,
  ◌++◌, ◌==◌, ltb, if◌then◌else◌,
}
use taunicorn.Outcome.{
  Error, IoError, endpoint_empty, name_empty, name_rejected, server_is_stopped, server_poisoned,
  server_is_paused, server_was_stopped, accept_timed_out, connection_is_closed,
  connection_was_closed, connection_poisoned, connection_is_paused, receive_is_shut_down,
  receive_was_shut_down, send_is_shut_down, write_returned_zero, timeout_before_progress,
  read_timed_out, connect_timed_out, closed_after, zero_after, timeout_after, failed_after,
  io_failed,
}
use taunicorn.Python.Exceptions.{
  Exception, os_error, timeout_error, blocking_io_error, connection_error, value_error,
  runtime_error,
}

-- The bytes of a text in ASCII.
abbrev pub codes : String → List ℕ
codes String.[] = []
codes (String.◌∷◌ c s) = code c ∷ codes s

-- `{}` of a `usize`: a number has at most as many digits as its value, and one more.
unfoldable pub decimal_on : ℕ → ℕ → List ℕ
decimal_on zero n = []
decimal_on (suc fuel) n =
    let rest = decimal_on fuel (n / 10) in
    if ltb n 10 then (48 + n % 10) ∷ [] else (rest ++ (48 + n % 10) ∷ [])

abbrev pub decimal : ℕ → List ℕ
decimal n = decimal_on (suc n) n

-- `str::contains`
abbrev pub starts_with : List ℕ → List ℕ → Bool
starts_with [] s = true
starts_with (c ∷ w) [] = false
starts_with (c ∷ w) (d ∷ s) = (c == d) && starts_with w s

abbrev pub contains : List ℕ → List ℕ → Bool
contains w [] = starts_with w []
contains w (d ∷ s) = starts_with w (d ∷ s) || contains w s

-- An `anyhow::Error`: an error of the system, kept as it is, or a text.
pub data Failure : Type 0 where
  preserved : IoError → Failure
  message : List ℕ → Failure

-- "... after {written} of {} bytes ..."
abbrev pub progress : String → ℕ → ℕ → List ℕ → List ℕ
progress before written size after =
    (codes before ++ (decimal written ++ (codes " of " ++ (decimal size ++ after))))

-- `Endpoint::new`
unfoldable pub endpoint_failure : Error → Option Failure
endpoint_failure endpoint_empty = some (message (codes "socket endpoint must not be empty"))
endpoint_failure _ = none

-- `get_async_socket_name`
unfoldable pub name_failure : Error → Option Failure
name_failure name_empty = some (message (codes "socket name must not be empty"))
name_failure (name_rejected e) = some (preserved e)
name_failure _ = none

-- `Server`
unfoldable pub server_failure : Error → Option Failure
server_failure server_is_stopped = some (message (codes "socket server is stopped"))
server_failure server_poisoned = some (message (codes "socket server state is poisoned"))
server_failure server_is_paused = some (message (codes "socket server is paused"))
server_failure server_was_stopped = some (message (codes "socket server was stopped"))
server_failure accept_timed_out = some (message (codes "socket accept timeout"))
server_failure _ = none

-- `ConnectionCore`, before a call goes on
unfoldable pub refusal : Error → Option Failure
refusal connection_is_closed = some (message (codes "socket connection is closed"))
refusal connection_poisoned = some (message (codes "socket connection state is poisoned"))
refusal connection_is_paused = some (message (codes "socket connection is paused"))
refusal receive_is_shut_down = some (message (codes "socket receive direction is shut down"))
refusal send_is_shut_down = some (message (codes "socket send direction is shut down"))
refusal _ = none

-- `ConnectionCore::receive` and other calls whose connection is closed in an await
unfoldable pub receive_failure : Error → Option Failure
receive_failure connection_was_closed = some (message (codes "socket connection was closed"))
receive_failure receive_was_shut_down =
    some (message (codes "socket receive direction was shut down"))
receive_failure _ = none

-- `ConnectionCore::write_once` and `ConnectionCore::send`
unfoldable pub write_failure : Error → Option Failure
write_failure write_returned_zero =
    some (message (codes "socket write returned zero for a non-empty buffer; connection closed"))
write_failure (closed_after written size) = some (
    message (
      progress "socket connection closed after " written size
        (codes " bytes were written; do not blindly retry the full buffer")))
write_failure (zero_after written size) = some (
    message (
      progress "socket write returned zero after " written size
        (codes " bytes; connection closed")))
write_failure (failed_after written size e) = some (
    message (
      progress "socket write failed after " written size
        (codes " bytes; connection closed because a partial prefix may have been written: " ++ e)))
write_failure _ = none

-- `ConnectionCore::send_timeout`
unfoldable pub deadline_failure : Error → Option Failure
deadline_failure timeout_before_progress =
    some (message (codes "socket write timeout before any write progress"))
deadline_failure (timeout_after written size) = some (
    message (
      progress "socket write timeout after " written size
        (codes " bytes; connection closed because a partial prefix may have been written")))
deadline_failure _ = none

-- `Connection::connect_timeout`
unfoldable pub connect_failure : Error → Option Failure
connect_failure connect_timed_out = some (message (codes "socket connect timeout"))
connect_failure _ = none

-- `Connection::read_timeout`
unfoldable pub read_failure : Error → Option Failure
read_failure read_timed_out = some (message (codes "socket read timeout"))
read_failure _ = none

infixr 5 ◌or_else◌
abbrev pub ◌or_else◌ : Option Failure → Option Failure → Option Failure
some f or_else g = some f
none or_else g = g

-- An error of the system that `?` passes on.
unfoldable pub io_failure : Error → Option Failure
io_failure (io_failed e) = some (preserved e)
io_failure _ = none

-- The failures of the transport; those of security.rs never come to `to_py_err`.
unfoldable pub failure : Error → Option Failure
unfolding endpoint_failure name_failure server_failure refusal receive_failure write_failure
    deadline_failure connect_failure read_failure io_failure
failure e =
    endpoint_failure e
    or_else name_failure e
    or_else server_failure e
    or_else refusal e
    or_else receive_failure e
    or_else write_failure e
    or_else deadline_failure e
    or_else connect_failure e
    or_else read_failure e
    or_else io_failure e

unfoldable pub by_text : List ℕ → Exception
by_text text =
    if contains (codes "timeout") text
    then timeout_error
    else if contains (codes "paused") text
    then blocking_io_error
    else if contains (codes "closed") text
        || contains (codes "shut down") text
        || contains (codes "stopped") text
    then connection_error
    else if contains (codes "must not be empty") text
    then value_error
    else runtime_error

unfoldable pub to_py_err : Failure → Exception
to_py_err (preserved e) = os_error
to_py_err (message text) = by_text text
