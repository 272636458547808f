-- ===== src/Python/Queue/Calls.antt =====
-- The calls of both queues of crates/taunicorn-python/src/channel.rs, as one type.
use taunicorn.Python.Queue.{Task}
use taunicorn.Python.Queue.Bounded
use taunicorn.Python.Queue.Unbounded

pub data Kind : Type 0 where
  bounded unbounded : Kind

pub data Call (A : Type 0) : Type 0 where
  send try_send : A → Call A
  recv try_recv close is_closed : Call A

module _ {A : Type 0} where
  unfoldable pub perform : Kind → Call A → Task A
  perform bounded (send a) = Bounded.send a
  perform bounded (try_send a) = Bounded.try_send a
  perform bounded recv = Bounded.recv
  perform bounded try_recv = Bounded.try_recv
  perform bounded close = Bounded.close
  perform bounded is_closed = Bounded.is_closed
  perform unbounded (send a) = Unbounded.send a
  perform unbounded (try_send a) = Unbounded.try_send a
  perform unbounded recv = Unbounded.recv
  perform unbounded try_recv = Unbounded.try_recv
  perform unbounded close = Unbounded.close
  perform unbounded is_closed = Unbounded.is_closed
