-- ===== src/Connection/Closing.antt =====
-- The end of a connection (crates/taunicorn/src/lib.rs): what `close` reaches, that no call takes it
-- back, and what the calls do afterwards.
use taunicorn.Prelude.{ℕ, ◌≡◌, refl, true, false, not, none, List, is_empty, if◌then◌else◌, arith}
use taunicorn.Outcome.{ok, err, connection_is_closed}
use taunicorn.Stream.{data_read, end_of_stream}
use taunicorn.Connection.{ConnectionCore}
use taunicorn.Connection.Prog.{Prog, ◌>>=◌, pure, store}
use taunicorn.Connection.Flags
use taunicorn.Connection.Flags.{set_paused}
use taunicorn.Connection.Calls.{
  receive, write_once, send, send_timeout, flush, shutdown_read, shutdown_write, close,
  finish_close, take_stream, ensure_read_available, ensure_write_available,
}
use taunicorn.Connection.Exec.{World, run}
use taunicorn.Connection.Keeping.{is_kept, is_none, Keeps, Obeys, run-Keeps}
use taunicorn.Connection.Kept.{
  receive-Turn, write_once-Turn, send-Turn, send_timeout-Turn, flush-Turn, shutdown_read-Turn,
  shutdown_write-Turn, close-Turn, closing, keep_closing, keep_finish_close,
}
use taunicorn.Connection.Calm.{calm_refl}
use taunicorn.Connection.Turns.{Turn, bind-Turn, if-Turn, Turn-Keeps}

-- The calls that change a connection.
pub data Call : Type 0 where
  receiving writing sending sending_timeout : List ℕ → Call
  flushing shutting_read shutting_write full_close pausing resuming : Call

abbrev ignore : {A : Type 0} → Prog A → Prog (Unit {0})
ignore m = m >>= λ _. pure tt

abbrev pub perform : Call → Prog (Unit {0})
perform (receiving buffer) = ignore (receive buffer)
perform (writing bytes) = ignore (write_once bytes)
perform (sending bytes) = send bytes
perform (sending_timeout bytes) = send_timeout bytes
perform flushing = flush
perform shutting_read = shutdown_read
perform shutting_write = shutdown_write
perform full_close = close
perform pausing = Flags.pause
perform resuming = Flags.unpause

pause-Turn : Turn false Flags.pause
unfolding Flags.pause Flags.is_closed
pause-Turn = (
  calm_refl,
  λ s. if-Turn (not s.closed) (store (set_paused true)) (pure tt) (λ t. ground arith, λ t. tt) tt,
)

unpause-Turn : Turn false Flags.unpause
unfolding Flags.unpause Flags.is_closed
unpause-Turn = (
  calm_refl,
  λ s. if-Turn (not s.closed) (store (set_paused false)) (pure tt) (λ t. ground arith, λ t. tt) tt,
)

-- Every call takes the writers' gate before it writes, and frees it before it ends.
pub perform-Turn : (c : Call) → Turn false (perform c)
perform-Turn (receiving buffer) = bind-Turn false (receive buffer) _ (receive-Turn buffer) λ _. tt
perform-Turn (writing bytes) = bind-Turn false (write_once bytes) _ (write_once-Turn bytes) λ _. tt
perform-Turn (sending bytes) = send-Turn bytes
perform-Turn (sending_timeout bytes) = send_timeout-Turn bytes
perform-Turn flushing = flush-Turn
perform-Turn shutting_read = shutdown_read-Turn
perform-Turn shutting_write = shutdown_write-Turn
perform-Turn full_close = close-Turn
perform-Turn pausing = pause-Turn
perform-Turn resuming = unpause-Turn

-- No step of any call, in whatever state it comes and however its awaits end, takes back a terminal
-- flag, a cancelled token or the release of the stream.
pub perform-Keeps : (c : Call) → Keeps (perform c)
perform-Keeps c = Turn-Keeps false (perform c) (perform-Turn c)

-- A whole call, among other calls that obey this, obeys it: a closed connection stays closed, and a
-- direction that is shut down, the end of the peer's data, a cancelled token and the release of the
-- stream stay.
pub call-keeps :
    (c : Call) (w : World) → Obeys w.script → is_kept w.core (run (perform c) w).1.core ≡ true
call-keeps c w obeys = run-Keeps (perform c) w obeys (perform-Keeps c)

kept_terminal :
    (s t : ConnectionCore)
    → is_kept s t ≡ true
    → s.closed ≡ true
    → s.read_shutdown ≡ true
    → s.write_shutdown ≡ true
    → (t.closed ≡ true) × (t.read_shutdown ≡ true) × (t.write_shutdown ≡ true)
kept_terminal s t h a b c = ground arith

kept_released :
    (s t : ConnectionCore)
    → is_kept s t ≡ true
    → s.close_token ≡ true
    → s.read_shutdown_token ≡ true
    → is_none s.stream ≡ true
    → (t.close_token ≡ true) × (t.read_shutdown_token ≡ true) × (is_none t.stream ≡ true)
kept_released s t h a b c = ground arith

-- The world when `ConnectionState::close` is through.
abbrev pub flagged : World → World
flagged w = record w {
  core = record (w.core) {
    state = record (w.core.state) {
      closed = true;
      paused = false;
      read_shutdown = true;
      write_shutdown = true;
    };
  };
}

run-close : (w : World) → run close w ≡ run (closing (not w.core.closed)) (flagged w)
unfolding run close Flags.close
run-close w = refl

-- However `close` ends and whatever the other calls do in its awaits, if they take back nothing
-- terminal: the connection is closed, and so are its two directions.
pub close_closes :
    (w : World)
    → Obeys w.script
    → let s = (run close w).1.core in
      (s.closed ≡ true) × (s.read_shutdown ≡ true) × (s.write_shutdown ≡ true)
close_closes w obeys = rw (run-close w) (
    kept_terminal (flagged w).core (run (closing (not w.core.closed)) (flagged w)).1.core
      (run-Keeps (closing (not w.core.closed)) (flagged w) obeys (keep_closing (not w.core.closed)))
      refl refl refl)

-- The world when the first close has also cancelled the tokens and taken the stream.
abbrev released : World → World
released w = record w {
  core = record ((flagged w).core) {
    close_token = true;
    read_shutdown_token = true;
    stream = none;
  };
}

run-first :
    (w : World)
    → w.core.poisoned ≡ false
    → run (closing true) (flagged w) ≡ run (finish_close w.core.stream) (released w)
unfolding run take_stream
run-first w p = ground arith

tokens_and_stream :
    (w : World)
    → Obeys w.script
    → w.core.closed ≡ false
    → w.core.poisoned ≡ false
    → let s = (run close w).1.core in
      (s.close_token ≡ true) × (s.read_shutdown_token ≡ true) × (is_none s.stream ≡ true)
tokens_and_stream w obeys c p =
    rw (run-close w, c, run-first w p)
      (kept_released (released w).core (run (finish_close w.core.stream) (released w)).1.core
        (run-Keeps (finish_close w.core.stream) (released w) obeys
          (keep_finish_close w.core.stream))
        refl refl refl)

-- The first close, where the stream's mutex is not poisoned and the other calls take back nothing
-- terminal: when it ends, in whatever way, whether or not the transport's own shutdown then succeeds,
-- the connection and its two directions are closed, both tokens are cancelled, and the stream is
-- released.
pub first_close_releases :
    (w : World)
    → Obeys w.script
    → w.core.closed ≡ false
    → w.core.poisoned ≡ false
    → let s = (run close w).1.core in
      ((s.closed ≡ true) × (s.read_shutdown ≡ true) × (s.write_shutdown ≡ true))
      × (s.close_token ≡ true)
      × (s.read_shutdown_token ≡ true)
      × (is_none s.stream ≡ true)
first_close_releases w obeys c p =
    let (close_token, read_token, stream) = tokens_and_stream w obeys c p in
    (close_closes w obeys, close_token, read_token, stream)

-- On a closed connection: `close` changes no more than its flags, with `Ok` and no await; every call
-- that would read or write is refused at once and changes nothing, but for calls with no bytes and
-- for a `receive` after the end of the peer's data, which is reported again.
pub closed_refuses :
    (bytes : List ℕ) (w : World)
    → w.core.closed ≡ true
    → (run close w ≡ (ok tt, flagged w))
      × (run (send bytes) w ≡ (if is_empty bytes then ok tt else err connection_is_closed, w))
      × (run (send_timeout bytes) w
          ≡ (if is_empty bytes then ok tt else err connection_is_closed, w))
      × (run (write_once bytes) w ≡ (if is_empty bytes then ok 0 else err connection_is_closed, w))
      × (run flush w ≡ (err connection_is_closed, w))
      × (run (receive bytes) w ≡ (
        if is_empty bytes
            then ok (data_read 0, bytes)
            else if w.core.peer_sent_eof
            then ok (end_of_stream, bytes)
            else err connection_is_closed,
        w,
      ))
unfolding run send send_timeout write_once flush receive ensure_write_available
    ensure_read_available
closed_refuses bytes w h =
    (rw (run-close w, h) refl, ground arith, ground arith, ground arith, ground arith, ground arith)
