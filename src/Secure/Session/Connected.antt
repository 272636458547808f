-- ===== src/Secure/Session/Connected.antt =====
-- Encrypted messages of crates/taunicorn/src/security.rs over the connections of
-- crates/taunicorn/src/lib.rs: the two components together.
use taunicorn.Prelude.{ℕ, ◌+◌, ◌^◌, ◌<◌, ◌≡◌, List, ◌++◌, length, All}
use taunicorn.Outcome.{ok}
use taunicorn.Secure.{IsKeyed}
use taunicorn.Secure.Crypto.{Crypto, CryptoLaws}
use taunicorn.Secure.Session.{SecureConnection}
use taunicorn.Secure.Session.Transfer.{InStep, Fits, send_all, receive_all, conversation}
use taunicorn.Connection.Exec.{World}
use taunicorn.Connection.Ready.{IsReady}
use taunicorn.Connection.Transport.{transport, transport_laws}

-- Two secure connections in step, with a key, a nonce prefix and a transcript hash of 32, 4 and 32
-- bytes, each on a connection that is open, whose gates are free, whose operating system makes progress
-- and which no other call changes during the awaits: messages that fit, sent one after the other, are received one
-- after the other, unchanged and in order, once the bytes that the one end handed to its operating
-- system have arrived at the other; then the two ends are in step again, and the bytes behind them
-- are still unread. It needs sequence numbers for all messages.
pub connected_conversation :
    (c : Crypto) (laws : CryptoLaws c) (messages : List (List ℕ)) (wire rest : List ℕ)
    (s r : SecureConnection World)
    → IsReady s.connection
    → IsReady r.connection
    → InStep s r
    → IsKeyed s.send_state s.transcript_hash
    → All Fits messages
    → s.send_state.sequence + length messages < 2 ^ 64
    → (send_all c transport messages s).1.connection.sent ≡ s.connection.sent ++ wire
    → r.connection.inbound ≡ wire ++ rest
    → ((send_all c transport messages s).0 ≡ ok tt)
      × ((receive_all c transport (length messages) r).0 ≡ ok messages)
      × ((receive_all c transport (length messages) r).1.connection.inbound ≡ rest)
      × InStep (send_all c transport messages s).1 (receive_all c transport (length messages) r).1
unfolding transport_laws
connected_conversation c laws messages wire rest s r ready_s ready_r step keyed fits room w p =
    conversation c laws transport transport_laws transport transport_laws messages wire rest s r
      ready_s ready_r step keyed fits room w p
