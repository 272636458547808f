-- ===== src/Lib.antt =====
-- Taunicorn: local sockets for asynchronous programs, and an end-to-end encrypted layer on top.
--
-- The program has three parts in Rust. `crates/taunicorn/src/lib.rs` has a server that accepts
-- connections, and a connection: an ordered byte stream with two directions that can be paused, shut
-- down one by one and closed, and whose calls run side by side. `crates/taunicorn/src/security.rs`
-- puts authenticated encryption on a connection: a handshake of two hello frames, which pins both
-- identities and derives a key for each direction, and then frames that carry a sequence number.
-- `crates/taunicorn-python/src` gives both to Python's asyncio: lib.rs wraps a connection in a slot,
-- from which a handshake takes it, and guards the calls that write; security.rs makes a session whose
-- token ends it for good; channel.rs has two queues.
--
-- Which file models what:
-- - Prelude: numbers, lists and tests on them. Bytes: `to_be_bytes` and `from_be_bytes`.
-- - Outcome: a constructor for each error text, and the results of fallible functions. An Action
--   changes a state and may fail; what it changed before a failure stays. Chains inverts a run of
--   calls that ends well.
-- - Endpoint: `Endpoint` and `get_async_socket_name` of lib.rs.
-- - Server: `ServerState` and `Server` of lib.rs. Steps is the language of its calls, one atomic
--   access to the shared state at a time; Calls are the calls; Run runs one call while other calls
--   change the state before each of its steps; Stopping is about `stop`.
-- - Connection: `ConnectionState` and `ConnectionCore` of lib.rs. Prog is the language of its calls,
--   Flags and Calls are the calls (`resume` is `unpause` there). Exec runs one call against an
--   environment that decides how each await ends and what the others do to the shared state
--   meanwhile; Exec/Rounds has the rules for sequences and for guards. WriteLoop and Sending are about
--   `send` and `send_timeout`, Receiving about `receive`, Keeping about what no step takes
--   back, Calm, Parts, Turns and Kept about how the calls use the writers' gate, Closing about `close`;
--   Together interleaves any number of calls, and Together/Holder and Together/Exclusive keep their
--   writes apart; Api has `read_bytes` and `info`. Ordered, Ready and Transport show that a connection
--   that nothing stops is a stream in the sense of Stream.
-- - Stream: what security.rs uses of a connection, as operations with laws.
-- - Secure: the constants and structures of security.rs. Crypto is its cryptography, as
--   operations with laws; Wire the hello frames and `take_array`; Messages what is signed, hashed
--   and authenticated; Frame `read_exact`, `read_frame` and `write_frame`; Session
--   `SecureConnection::send` and `receive`, Session/Later what one call rules out for all later
--   ones, and Session/Connected whole messages over the connections of lib.rs; Establish the values of
--   the handshake; Handshake its two sides over their connections, and Handshake/Sound what they
--   have checked.
-- - Python: crates/taunicorn-python/src. Exceptions are the classes that it raises. Queue is
--   channel.rs: Bounded and Unbounded have one definition per method, as trees of single accesses
--   to the token, the receiver's mutex and tokio's channel; System interleaves any number of
--   calls; Fifo has the laws of the channel and the order of the items, Rules, Steps, Runs and
--   Promises what each call says by its reply, Closing and Draining what comes after a close.
--   Slot is `ConnectionSlot` and the private methods of `PyConnection` of lib.rs, Slot/Handle the
--   queries of `ConnectionHandle`. Upgrade is `PySecureConnection::establish` of security.rs on
--   that slot, as a step relation; Upgrade/Owned (Slots and Phases for the steps, Kept for the
--   runs) and Upgrade/Exclusive say who has the connection. Session is `SecureSession` and the
--   calls of `PySecureConnection`, as a step relation for one direction; Session/Orderly (with
--   its Moves and Kept) and Session/Terminal are about its frames, Session/Cancelled about a
--   cancelled token, Session/Limits about the tests of its arguments. Calls are the guards of
--   lib.rs around the calls of Connection/Calls, and Calls/Guarded what they do. Failures is
--   `to_py_err` of lib.rs with the texts of the errors of crates/taunicorn/src/lib.rs,
--   Failures/Words the search in them and Failures/Classes the exceptions.
-- - Tests: concrete parameters and runs.
--
-- How the code is read. Numbers are natural numbers; where Rust wraps or checks, the bound is written
-- out, for a 64-bit target. A byte string, and an array of a fixed size, is a list of numbers; the
-- slices that the code converts to arrays are tested for their length. A stream and a listener are
-- numbers that stand for the handle. A mutex is a flag for being poisoned beside its content. Rust's
-- `select!` is an await with the branches that it has; a future that is dropped ends with `dropped`,
-- and a call that waits for good ends with `waiting`, its state being the one it waits in.
--
-- Fuel: the loop of `read_exact` gets as many rounds as there are bytes to read, and the loops of
-- `send` and `send_timeout` as many as there are bytes to write. Each round that goes on has moved
-- one byte at least, so the fuel does not run out.
--
-- In Connection/Exec a call runs alone between two of its awaits, and what is unread stands for the
-- bytes that no other call reads; in Connection/Together and Server/Run other calls come between any
-- two steps.
--
-- In Python/Session the two directions share the token and the connection; one of them is modelled,
-- and the other is a part of what may happen at any time. In Python/Calls the task that a guard spawns
-- runs behind the call that dropped the guard. In Python/Queue a future that is dropped before its
-- first poll is a call that takes no step.
--
-- The laws of Secure/Crypto hold within the limits of the libraries: keys of 32 bytes, an output of at
-- most 255 blocks, nonces of 12 bytes, and texts of less than 2^32 bytes, where a frame is at most
-- 64 MiB.
--
-- Not modelled: the socket library, the runtime with its channels, and PyO3, whose results are
-- parameters or steps that may come at any time; the cryptographic libraries, which are a parameter
-- with laws; the Windows branch of `Server::bind`; the MessagePack helpers, which only call the
-- serializer; the wrappers of `Connection`, its halves and their Python classes that only pass a call
-- on or copy fields; and the Python modules, which re-export the compiled one.
pub mod Prelude
pub mod Outcome
pub mod Bytes
pub mod Stream
pub mod Secure
pub mod Endpoint
pub mod Connection
pub mod Server
pub mod Python
pub mod Tests
