-- ===== src/Python/Slot.antt =====
-- `ConnectionSlot`, `ConnectionHandle` and the private methods of `PyConnection` of
-- crates/taunicorn-python/src/lib.rs. A method that takes the slot's mutex is one step.
pub mod Handle
use taunicorn.Prelude.{ℕ, ◌+◌, Bool, true, false, not, Option, none, some, ◌==◌, if◌then◌else◌}
use taunicorn.Python.Exceptions.{Exception, runtime_error, connection_error}

-- A secure session, and a handshake, is known by its cancellation token, a number.
pub data ConnectionSlot : Type 0 where
  plain : ConnectionSlot
  upgrading secure : ℕ → ConnectionSlot
  consumed : ConnectionSlot

pub data ConnectionHandle : Type 0 where
  plain_handle : ConnectionHandle
  secure_handle : ℕ → ConnectionHandle

-- What `cannot {operation} Connection` names.
pub data Operation : Type 0 where
  split secure_upgrade : Operation

-- The messages of the exceptions.
pub data Refusal : Type 0 where
  wrapper_poisoned handshake_failed handshake_in_progress was_split raw_io_disabled : Refusal
  still_pending not_plain : Operation → Refusal
  upgrade_inactive : Refusal

abbrev pub exception : Refusal → Exception
exception handshake_failed = connection_error
exception upgrade_inactive = connection_error
exception wrapper_poisoned = runtime_error
exception handshake_in_progress = runtime_error
exception was_split = runtime_error
exception raw_io_disabled = runtime_error
exception (still_pending o) = runtime_error
exception (not_plain o) = runtime_error

pub data Checked (A : Type 0) : Type 0 where
  granted : A → Checked A
  refused : Refusal → Checked A

-- `PyConnection`, the tokens that are cancelled, and how many clones of the plain connection's `Arc`
-- there are beside the slot's own.
pub record PyConnection : Type 0 where
  pub slot : ConnectionSlot
  pub poisoned : Bool
  pub clones : ℕ
  pub cancelled : ℕ → Bool

unfoldable pub from_rust : PyConnection
from_rust = record { slot = plain; poisoned = false; clones = 0; cancelled = λ t. false }

unfoldable pub handle_of : ConnectionSlot → PyConnection → Checked ConnectionHandle × PyConnection
handle_of plain w = (granted plain_handle, record w { clones = w.clones + 1 })
handle_of (secure t) w = (granted (secure_handle t), w)
handle_of (upgrading t) w =
    (refused (if w.cancelled t then handshake_failed else handshake_in_progress), w)
handle_of consumed w = (refused was_split, w)

unfoldable pub connection : PyConnection → Checked ConnectionHandle × PyConnection
unfolding handle_of
connection w = if w.poisoned then (refused wrapper_poisoned, w) else handle_of w.slot w

abbrev pub only_plain : Checked ConnectionHandle → Checked (Unit {0})
only_plain (granted plain_handle) = granted tt
only_plain (granted (secure_handle t)) = refused raw_io_disabled
only_plain (refused e) = refused e

-- The clone of the connection is what is granted.
unfoldable pub plain_connection : PyConnection → Checked (Unit {0}) × PyConnection
unfolding connection
plain_connection w = let r = connection w in (only_plain r.0, r.1)

-- `Arc::try_unwrap` succeeds if the slot has the only reference.
unfoldable pub take_from :
    ConnectionSlot → ConnectionSlot → Operation → PyConnection → Checked (Unit {0}) × PyConnection
take_from plain next o w =
    if w.clones == 0 then (granted tt, record w { slot = next }) else (refused (still_pending o), w)
take_from (upgrading t) next o w = (refused (not_plain o), w)
take_from (secure t) next o w = (refused (not_plain o), w)
take_from consumed next o w = (refused (not_plain o), w)

-- What is granted is the connection itself.
unfoldable pub take_plain :
    ConnectionSlot → Operation → PyConnection → Checked (Unit {0}) × PyConnection
unfolding take_from
take_plain next o w =
    if w.poisoned then (refused wrapper_poisoned, w) else take_from w.slot next o w

unfoldable pub take_for_split : PyConnection → Checked (Unit {0}) × PyConnection
unfolding take_plain
take_for_split w = take_plain consumed split w

unfoldable pub begin_secure : ℕ → PyConnection → Checked (Unit {0}) × PyConnection
unfolding take_plain
begin_secure token w = take_plain (upgrading token) secure_upgrade w

unfoldable pub finish_from : ConnectionSlot → ℕ → PyConnection → Checked (Unit {0}) × PyConnection
finish_from (upgrading t) session w =
    if not (w.cancelled t)
    then (granted tt, record w { slot = secure session })
    else (refused upgrade_inactive, w)
finish_from plain session w = (refused upgrade_inactive, w)
finish_from (secure t) session w = (refused upgrade_inactive, w)
finish_from consumed session w = (refused upgrade_inactive, w)

unfoldable pub finish_secure : ℕ → PyConnection → Checked (Unit {0}) × PyConnection
unfolding finish_from
finish_secure session w =
    if w.poisoned then (refused wrapper_poisoned, w) else finish_from w.slot session w

-- `token.cancel()`
abbrev pub cancel : ℕ → PyConnection → PyConnection
cancel t w = record w { cancelled = λ u. if t == u then true else w.cancelled u }

-- `close`, up to its future: whose connection the future closes.
unfoldable pub close_from :
    ConnectionSlot → PyConnection → Checked (Option ConnectionHandle) × PyConnection
close_from (upgrading t) w = (granted none, cancel t w)
close_from plain w = (granted (some plain_handle), record w { clones = w.clones + 1 })
close_from (secure t) w = (granted (some (secure_handle t)), cancel t w)
close_from consumed w = (refused was_split, w)

unfoldable pub close_target : PyConnection → Checked (Option ConnectionHandle) × PyConnection
unfolding close_from
close_target w = if w.poisoned then (refused wrapper_poisoned, w) else close_from w.slot w
