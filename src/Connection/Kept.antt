-- ===== src/Connection/Kept.antt =====
-- The calls of a connection (crates/taunicorn/src/lib.rs) keep its terminal state, and the discipline
-- of its writers' gate.
use taunicorn.Prelude.{
  ℕ, refl, Bool, true, false, not, Option, none, some, List, length, is_empty, if◌then◌else◌, arith,
}
use taunicorn.Outcome.{connection_was_closed, connection_poisoned}
use taunicorn.Stream.{ReceiveResult, data_read, end_of_stream}
use taunicorn.Endpoint.{Io, done, failed}
use taunicorn.Connection.Prog.{
  read_gate, write_gate, close_token, read_shutdown_token, Prog, ret, read, write, sync, Select,
  flush as flush_stream, shutdown as shut_down_stream, ◌>>=◌, ◌>>◌, pure, fail, store, holding,
}
use taunicorn.Connection.Flags
use taunicorn.Connection.Flags.{set_closed, set_paused, set_read_shutdown, set_write_shutdown}
use taunicorn.Connection.Calls.{
  settle, until_close, until_close_or_read_shutdown, until_close_or_deadline, plain, take_gate,
  stream, take_stream, ensure_read_available, ensure_write_available, cancel, after_read, receive,
  after_write_once, write_once, write_loop, send, send_timeout, after_sync, flush, either_flag,
  shutdown_read, shutdown_write, report, finish_close, close,
}
use taunicorn.Connection.Keeping.{Keeps}
use taunicorn.Connection.Calm.{Calm, calm_refl, bind-Calm, if-Calm}
use taunicorn.Connection.Parts.{
  stream-Calm, ensure_read-Calm, ensure_write-Calm, flags_close-Calm, after_read-Calm,
  after_write_once-Calm, after_sync-Calm, write_loop-Calm,
}
use taunicorn.Connection.Turns.{
  Turn, bind-Turn, if-Turn, Calm-Turn, read_guard-Turn, gated-Turn, Turn-Keeps,
}

-- What `send` and its like do under the gate.
under_gate-Turn :
    {A : Type 0} (m : Prog A) (q : Select) (n : Bool) (z : Prog A)
    → Calm true m
    → Turn false z
    → Turn false (
        if n then z else do
          ensure_write_available
          take_gate write_gate q
          holding write_gate (do ensure_write_available; handle ← stream; m))
under_gate-Turn m q n z h k = if-Turn n z _ k (
    bind-Turn false ensure_write_available _
      (Calm-Turn ensure_write_available (ensure_write-Calm false))
      λ _.
        gated-Turn q (do ensure_write_available; handle ← stream; m)
          (bind-Calm true ensure_write_available _ (ensure_write-Calm true)
            λ _. bind-Calm true stream _ (stream-Calm true) λ _. h))

abbrev attempt : List ℕ → Prog ℕ
attempt bytes = do
  result ← write bytes until_close (λ x. ret (settle connection_was_closed x))
  after_write_once result

abbrev flushing : Prog (Unit {0})
flushing = do
  result ← sync flush_stream until_close (λ x. ret (settle connection_was_closed x))
  after_sync result

eof-Turn : Turn false Flags.peer_sent_eof
unfolding Flags.peer_sent_eof
eof-Turn = (calm_refl, λ s. tt)

-- What `receive` does under the gate.
abbrev pub reading : List ℕ → Prog (ReceiveResult × List ℕ)
reading buffer = do
  eof_now ← Flags.peer_sent_eof
  if eof_now then pure (end_of_stream, buffer) else do
    ensure_read_available
    handle ← stream
    result ←
        read (length buffer) until_close_or_read_shutdown
          (λ x. ret (settle connection_was_closed x))
    after_read buffer result

reading-Turn : (buffer : List ℕ) → Turn false (reading buffer)
reading-Turn buffer = bind-Turn false Flags.peer_sent_eof _ eof-Turn λ eof_now.
    if-Turn eof_now (pure (end_of_stream, buffer)) _ tt (
      bind-Turn false ensure_read_available _
        (Calm-Turn ensure_read_available (ensure_read-Calm false))
        λ _. bind-Turn false stream _ (Calm-Turn stream (stream-Calm false)) λ _. λ x.
          bind-Turn false (ret (settle connection_was_closed x)) _ tt
            (λ y. Calm-Turn (after_read buffer y) (after_read-Calm false buffer y)))

pub receive-Turn : (buffer : List ℕ) → Turn false (receive buffer)
unfolding receive
receive-Turn buffer = if-Turn (is_empty buffer) (pure (data_read 0, buffer)) _ tt (
    bind-Turn false Flags.peer_sent_eof _ eof-Turn λ eof.
      if-Turn eof (pure (end_of_stream, buffer)) _ tt (
        bind-Turn false ensure_read_available _
          (Calm-Turn ensure_read_available (ensure_read-Calm false))
          λ _.
            bind-Turn false (take_gate read_gate until_close_or_read_shutdown) _ (λ x. tt)
              λ _. read_guard-Turn false (reading buffer) (reading-Turn buffer)))

pub write_once-Turn : (bytes : List ℕ) → Turn false (write_once bytes)
unfolding write_once
write_once-Turn bytes =
    under_gate-Turn (attempt bytes) until_close (is_empty bytes) (pure 0)
      (
        refl,
        λ x.
            bind-Calm true (ret (settle connection_was_closed x)) _ tt (after_write_once-Calm true),
      )
      tt

pub send-Turn : (bytes : List ℕ) → Turn false (send bytes)
unfolding send
send-Turn bytes =
    under_gate-Turn (write_loop until_close (length bytes) bytes 0) until_close (is_empty bytes)
      (pure tt) (write_loop-Calm until_close (length bytes) bytes 0) tt

pub send_timeout-Turn : (bytes : List ℕ) → Turn false (send_timeout bytes)
unfolding send_timeout
send_timeout-Turn bytes =
    under_gate-Turn (write_loop until_close_or_deadline (length bytes) bytes 0)
      until_close_or_deadline (is_empty bytes) (pure tt)
      (write_loop-Calm until_close_or_deadline (length bytes) bytes 0) tt

pub flush-Turn : Turn false flush
unfolding flush
flush-Turn =
    under_gate-Turn flushing until_close false (pure tt)
      (refl, λ x. bind-Calm true (ret (settle connection_was_closed x)) _ tt (after_sync-Calm true))
      tt

module _ (io : Bool) where
  closed-Calm : Calm io Flags.is_closed
  unfolding Flags.is_closed
  closed-Calm = (calm_refl, λ s. tt)

  either-Calm : (p q : Prog Bool) → Calm io p → Calm io q → Calm io (either_flag p q)
  either-Calm p q h k = bind-Calm io p _ h λ b. if-Calm io b (pure true) q tt k

  read_shutdown-Calm : Calm io (either_flag Flags.is_closed Flags.is_read_shutdown)
  unfolding Flags.is_read_shutdown
  read_shutdown-Calm =
      either-Calm Flags.is_closed Flags.is_read_shutdown closed-Calm (calm_refl, λ s. tt)

  write_shutdown-Calm : Calm io (either_flag Flags.is_closed Flags.is_write_shutdown)
  unfolding Flags.is_write_shutdown
  write_shutdown-Calm =
      either-Calm Flags.is_closed Flags.is_write_shutdown closed-Calm (calm_refl, λ s. tt)

pub shutdown_read-Turn : Turn false shutdown_read
unfolding shutdown_read
shutdown_read-Turn =
    bind-Turn false (either_flag Flags.is_closed Flags.is_read_shutdown) _
      (Calm-Turn (either_flag Flags.is_closed Flags.is_read_shutdown) (read_shutdown-Calm false))
      λ b.
        if-Turn b (pure tt) (store (set_read_shutdown true) >> store (cancel read_shutdown_token))
          tt (λ s. ground arith, λ s. (λ t. ground arith, λ t. tt))

-- `shutdown_write` once it has marked its direction.
abbrev shutting : Prog (Unit {0})
shutting = do
  store (set_write_shutdown true)
  handle ← stream
  result ← sync shut_down_stream plain (λ x. ret (settle connection_was_closed x))
  after_sync result

shutting-Calm : Calm true shutting
shutting-Calm = (
  λ s. ground arith,
  λ s. bind-Calm true stream _ (stream-Calm true) λ _. (
    refl,
    λ x. bind-Calm true (ret (settle connection_was_closed x)) _ tt (after_sync-Calm true),
  ),
)

pub shutdown_write-Turn : Turn false shutdown_write
unfolding shutdown_write
shutdown_write-Turn =
    bind-Turn false (either_flag Flags.is_closed Flags.is_write_shutdown) _
      (Calm-Turn (either_flag Flags.is_closed Flags.is_write_shutdown) (write_shutdown-Calm false))
      λ b. if-Turn b (pure tt) _ tt (
        gated-Turn plain
          (do
            nothing_left ← either_flag Flags.is_closed Flags.is_write_shutdown
            if nothing_left then pure tt else shutting)
          (bind-Calm true (either_flag Flags.is_closed Flags.is_write_shutdown) _
            (write_shutdown-Calm true) λ c. if-Calm true c (pure tt) shutting tt shutting-Calm))

report-Calm : (x : Io (Unit {0})) → Calm true (report x)
report-Calm (done y) = tt
report-Calm (failed e) = tt

pub finish_close-Turn : (handle : Option ℕ) → Turn false (finish_close handle)
finish_close-Turn none = tt
finish_close-Turn (some handle) =
    gated-Turn plain
      (do
        result ← sync shut_down_stream plain (λ x. ret (settle connection_was_closed x))
        report result)
      (refl, λ x. bind-Calm true (ret (settle connection_was_closed x)) _ tt report-Calm)

take_stream-Calm : Calm false take_stream
unfolding take_stream
take_stream-Calm = (
  λ s. ground arith,
  λ s. if-Calm false s.poisoned (fail connection_poisoned) (pure s.stream) tt tt,
)

-- `close`, once its swap has found whether it is the first.
abbrev pub closing : Bool → Prog (Unit {0})
closing first = if not first then pure tt else do
  store (cancel close_token)
  store (cancel read_shutdown_token)
  handle ← take_stream
  finish_close handle

closing-Turn : (first : Bool) → Turn false (closing first)
closing-Turn false = tt
closing-Turn true = (
  λ s. ground arith,
  λ s. (
    λ t. ground arith,
    λ t. bind-Turn false take_stream _ (Calm-Turn take_stream take_stream-Calm) finish_close-Turn,
  ),
)

pub close-Turn : Turn false close
unfolding close
close-Turn =
    bind-Turn false Flags.close closing (Calm-Turn Flags.close (flags_close-Calm false))
      closing-Turn

pub keep_closing : (first : Bool) → Keeps (closing first)
keep_closing first = Turn-Keeps false (closing first) (closing-Turn first)

pub keep_finish_close : (handle : Option ℕ) → Keeps (finish_close handle)
keep_finish_close handle = Turn-Keeps false (finish_close handle) (finish_close-Turn handle)
