-- ===== src/Connection/Api.antt =====
-- The methods of `Connection` of crates/taunicorn/src/lib.rs that do more than pass a call on.
use taunicorn.Prelude.{
  arith, ℕ, zero, suc, ap, refl, false, ◌≡◌, ◌∙◌, Bool, Option, List, [], ◌++◌, take, replicate,
  ◌==◌, if◌then◌else◌,
}
use taunicorn.Outcome.{Outcome, ok, err, dropped, waiting, fuel_out}
use taunicorn.Outcome.Action.{continue}
use taunicorn.Stream.{ReceiveResult, data_read, end_of_stream}
use taunicorn.Endpoint.{Endpoint}
use taunicorn.Connection.Prog.{Prog, ◌>>=◌, pure, load}
use taunicorn.Connection.Flags
use taunicorn.Connection.Calls.{receive}
use taunicorn.Connection.Exec.{World, run}
use taunicorn.Connection.Exec.Rounds.{run-bind}
use taunicorn.Connection.Receiving.{Got, receive_accounts}

pub record ConnectionInfo : Type 0 where
  pub id : ℕ
  pub local_endpoint : Option Endpoint
  pub peer_endpoint : Option Endpoint
  pub is_closed : Bool
  pub is_read_shutdown : Bool
  pub is_write_shutdown : Bool
  pub peer_sent_eof : Bool

-- `ConnectionCore::info`
unfoldable pub info : Prog ConnectionInfo
unfolding Flags.is_closed Flags.is_read_shutdown Flags.is_write_shutdown Flags.peer_sent_eof
info = do
  core ← load (λ s. s)
  closed ← Flags.is_closed
  read_shutdown ← Flags.is_read_shutdown
  write_shutdown ← Flags.is_write_shutdown
  eof ← Flags.peer_sent_eof
  pure (record {
    id = core.id;
    local_endpoint = core.local_endpoint;
    peer_endpoint = core.peer_endpoint;
    is_closed = closed;
    is_read_shutdown = read_shutdown;
    is_write_shutdown = write_shutdown;
    peer_sent_eof = eof;
  })

-- The match of `read_bytes` on what `receive` returned.
abbrev pub received_bytes : ReceiveResult × List ℕ → Prog (List ℕ)
received_bytes (data_read n, buffer) = pure (take n buffer)
received_bytes (end_of_stream, buffer) = pure []

unfoldable pub read_bytes : ℕ → Prog (List ℕ)
read_bytes max_bytes =
    if max_bytes == 0 then pure [] else (receive (replicate max_bytes 0) >>= received_bytes)

-- What `read_bytes` returns left the front of the unread stream; on every other end nothing did.
abbrev pub Took : List ℕ → Outcome (List ℕ) → List ℕ → Type 0
Took before (ok bytes) after = before ≡ bytes ++ after
Took before (err e) after = before ≡ after
Took before dropped after = before ≡ after
Took before waiting after = before ≡ after
Took before fuel_out after = ⊥

run-received_bytes :
    (max : ℕ) (w : World)
    → (max == 0) ≡ false
    → run (read_bytes max) w
      ≡ continue
          (run (receive (replicate max 0)) w).0
          (λ a. run (received_bytes a))
          (run (receive (replicate max 0)) w).1
unfolding read_bytes
run-received_bytes max w e =
    ap (λ b. run (if b then pure [] else (receive (replicate max 0) >>= received_bytes)) w) e
    ∙ run-bind (receive (replicate max 0)) received_bytes w

-- The match keeps what `receive` tells.
kept_count :
    (buffer before : List ℕ) (r : Outcome (ReceiveResult × List ℕ)) (w : World)
    → Got buffer before r w.inbound w.core.state
    → let (x, v) = continue r (λ a. run (received_bytes a)) w in Took before x v.inbound
unfolding run
kept_count buffer before (ok (data_read n, out)) w h = h.2
kept_count buffer before (ok (end_of_stream, out)) w h = h.1
kept_count buffer before (err e) w h = h
kept_count buffer before dropped w h = h
kept_count buffer before waiting w h = h
kept_count buffer before fuel_out w h = absurd h

-- However the other calls, the peer and the operating system behave during its awaits: the bytes that
-- `read_bytes` returns are those that left the front of the unread stream, and on an error, when its
-- future is dropped or while it waits no byte has left it.
pub read_bytes_accounts :
    (max : ℕ) (w : World) → let (r, v) = run (read_bytes max) w in Took w.inbound r v.inbound
unfolding run read_bytes
read_bytes_accounts zero w = refl
read_bytes_accounts (suc n) w =
    let max = suc n in
    rw (run-received_bytes max w (ground arith)) (
      kept_count (replicate max 0) w.inbound (run (receive (replicate max 0)) w).0
        (run (receive (replicate max 0)) w).1 (receive_accounts (replicate max 0) w))
