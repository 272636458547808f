-- ===== src/Connection/Receiving.antt =====
-- `receive` of crates/taunicorn/src/lib.rs as a whole call: which bytes leave the stream, and where
-- they go.
use Prim.Native.Nat.{min}
use taunicorn.Prelude.{
  none, some, ℕ, ◌≤◌, ◌≡◌, refl, sym, ap, subst, Bool, true, false, List, [], ◌∷◌, ◌++◌, length,
  take, drop, is_empty, ◌==◌, if◌then◌else◌, arith, take-append, drop-append, take-append-drop,
  length-take,
}
use taunicorn.Outcome.{
  Outcome, ok, err, dropped, waiting, fuel_out, connection_is_closed, connection_is_paused,
  receive_is_shut_down, connection_poisoned, connection_was_closed,
}
use taunicorn.Stream.{ReceiveResult, data_read, end_of_stream}
use taunicorn.Endpoint.{Io, done, failed}
use taunicorn.Connection.{ConnectionState}
use taunicorn.Connection.Prog.{
  read_gate, close_token, read_shutdown_token, Race, won, cancelled, elapsed, gone, ret, ◌>>=◌,
  set_gate, holding,
}
use taunicorn.Connection.Calls.{
  settle, until_close_or_read_shutdown, ensure_read_available, stream, after_read, receive,
  fail_connection,
}
use taunicorn.Connection.Kept.{reading}
use taunicorn.Connection.Exec.{
  World, after_meddling, answer, finish_lock, finish_read, deliver, run,
}
use taunicorn.Connection.Exec.Rounds.{deliver-if, Ungated, ungated, ungated-holding}
use taunicorn.Connection.Sending.{if-rule}
use taunicorn.Connection.Keeping.{is_none}
use taunicorn.Connection.Flags

-- A result of `receive`, with what was unread before and after: the bytes that it reports left the
-- front of the stream and stand at the front of the buffer, whose rest is untouched; the end of the
-- stream is only reported together with its flag; on every other end no byte has left the stream.
abbrev pub Got :
    List ℕ → List ℕ → Outcome (ReceiveResult × List ℕ) → List ℕ → ConnectionState → Type 0
Got buffer before (ok (data_read n, out)) after s =
    (n ≤ length buffer)
    × ((n == 0) ≡ is_empty buffer)
    × (before ≡ take n out ++ after)
    × (drop n out ≡ drop n buffer)
Got buffer before (ok (end_of_stream, out)) after s =
    (out ≡ buffer) × (before ≡ after) × (s.peer_sent_eof ≡ true)
Got buffer before (err e) after s = before ≡ after
Got buffer before dropped after s = before ≡ after
Got buffer before waiting after s = before ≡ after
Got buffer before fuel_out after s = ⊥

abbrev pub GotFrom : List ℕ → List ℕ → Ungated (ReceiveResult × List ℕ) → Type 0
GotFrom buffer before u = Got buffer before u.outcome u.inbound u.state

run_after_failure :
    (buffer : List ℕ) (e : List ℕ) (v : World)
    → GotFrom buffer v.inbound (ungated (run (after_read buffer (failed e)) v))
unfolding run after_read fail_connection Flags.close
run_after_failure buffer e v = ground arith

-- The arms of the match on what the read returned.
read_done :
    (buffer l : List ℕ) (v : World)
    → length l ≤ length buffer
    → GotFrom buffer (l ++ v.inbound) (ungated (run (after_read buffer (done l)) v))
unfolding run after_read
read_done buffer [] v h = (refl, refl, refl)
read_done buffer (b ∷ bytes) v h = (
  h,
  ground arith,
  ap (λ x. x ++ v.inbound)
      (sym (take-append (b ∷ bytes) (drop (length (b ∷ bytes)) buffer) (length (b ∷ bytes)) refl)),
  drop-append (b ∷ bytes) (drop (length (b ∷ bytes)) buffer) (length (b ∷ bytes)) refl,
)

pub run-reading :
    (buffer : List ℕ) (w : World)
    → let v = after_meddling w in
      run (reading buffer) w ≡ (
        if w.core.peer_sent_eof
        then (ok (end_of_stream, buffer), w)
        else if w.core.closed
        then (err connection_is_closed, w)
        else if w.core.paused
        then (err connection_is_paused, w)
        else if w.core.read_shutdown
        then (err receive_is_shut_down, w)
        else if w.core.poisoned
        then (err connection_poisoned, w)
        else if is_none w.core.stream
        then (err connection_is_closed, w)
        else deliver
            (answer until_close_or_read_shutdown v
              (finish_read (length buffer) v)
              (w.script 0).pick)
            (λ x. run (ret (settle connection_was_closed x) >>= after_read buffer))
            v)
unfolding run Flags.peer_sent_eof ensure_read_available stream
run-reading buffer w = ground arith

module _ (buffer : List ℕ) (w : World) where
  abbrev Fine : Outcome (ReceiveResult × List ℕ) × World → Type 0
  Fine r = GotFrom buffer w.inbound (ungated r)

  -- What is done with the answer of the read.
  abbrev pub handled : Race (Io (List ℕ)) → World → Outcome (ReceiveResult × List ℕ) × World
  handled x = run (ret (settle connection_was_closed x) >>= after_read buffer)

  abbrev reading_answer : Race (Io ℕ) → Outcome (ReceiveResult × List ℕ) × World
  reading_answer x =
      let v = after_meddling w in
      deliver (answer until_close_or_read_shutdown v (finish_read (length buffer) v) x) handled v

  some_read :
      (k : ℕ)
      → let v = after_meddling w in
        let m = min k (length buffer) in
        Fine (handled (won (done (take m w.inbound))) (record v { inbound = drop m w.inbound }))
  unfolding settle
  some_read k =
      let v = after_meddling w in
      let m = min k (length buffer) in
      let u = record v { inbound = drop m w.inbound } in
      subst (λ l. GotFrom buffer l (ungated (run (after_read buffer (done (take m w.inbound))) u)))
        (take-append-drop m w.inbound)
        (read_done buffer (take m w.inbound) u (omega (arith, length-take m w.inbound)))

  reading_fine : (x : Race (Io ℕ)) → Fine (reading_answer x)
  unfolding settle run
  reading_fine (won (failed e)) = run_after_failure buffer e (after_meddling w)
  reading_fine (won (done k)) =
      let v = after_meddling w in
      branches (is_empty w.inbound) w.peer_finished (0 == min k (length buffer))
    where
      branches :
          (a b c : Bool)
          → let v = after_meddling w in
            let m = min k (length buffer) in
            Fine (
              deliver
                (if a
                  then (if b then some (won (done []), v) else none)
                  else if c
                  then none
                  else some
                      (won (done (take m w.inbound)), record v { inbound = drop m w.inbound }))
                handled
                v)
      branches true true c = read_done buffer [] (after_meddling w) (omega arith)
      branches true false c = refl
      branches false true true = refl
      branches false false true = refl
      branches false true false = some_read k
      branches false false false = some_read k
  reading_fine (cancelled close_token) =
      let v = after_meddling w in
      deliver-if Fine _ (cancelled close_token, v) handled v (λ _. refl) refl
  reading_fine (cancelled read_shutdown_token) =
      let v = after_meddling w in
      deliver-if Fine _ (cancelled read_shutdown_token, v) handled v (λ _. refl) refl
  reading_fine elapsed = refl
  reading_fine gone = refl

  reading_gets : Fine (run (reading buffer) w)
  reading_gets = rw (run-reading buffer w) (
      if-rule Fine w.core.peer_sent_eof _ _ (λ e. (refl, refl, e))
        λ _.
          if-rule Fine w.core.closed _ _ (λ _. refl)
            λ _.
              if-rule Fine w.core.paused _ _ (λ _. refl)
                λ _.
                  if-rule Fine w.core.read_shutdown _ _ (λ _. refl)
                    λ _.
                      if-rule Fine w.core.poisoned _ _ (λ _. refl)
                        λ _.
                          if-rule Fine (is_none w.core.stream) _ _ (λ _. refl)
                            λ _. reading_fine (w.script 0).pick)

  -- What the call does once the wait for the gate is over.
  abbrev pub entered : Race (Unit {0}) → World → Outcome (ReceiveResult × List ℕ) × World
  entered x = run (ret (settle connection_was_closed x) >>= λ _. holding read_gate (reading buffer))

pub run-receive :
    (buffer : List ℕ) (w : World)
    → let v = after_meddling w in
      run (receive buffer) w ≡ (
        if is_empty buffer
        then (ok (data_read 0, buffer), w)
        else if w.core.peer_sent_eof
        then (ok (end_of_stream, buffer), w)
        else if w.core.closed
        then (err connection_is_closed, w)
        else if w.core.paused
        then (err connection_is_paused, w)
        else if w.core.read_shutdown
        then (err receive_is_shut_down, w)
        else deliver
            (answer until_close_or_read_shutdown v (finish_lock read_gate v) (w.script 0).pick)
            (entered buffer w)
            v)
unfolding run receive Flags.peer_sent_eof ensure_read_available
run-receive buffer w = ground arith

module _ (buffer : List ℕ) (w : World) where
  by_pick :
      (x : Race (Io ℕ))
      → let v = after_meddling w in
        Fine buffer w (
          deliver
            (answer until_close_or_read_shutdown v (finish_lock read_gate v) x)
            (entered buffer w)
            v)
  unfolding run settle
  by_pick (won x) =
      let v = after_meddling w in
      let u = record v { core = set_gate read_gate true v.core } in
      deliver-if (Fine buffer w) _ (won tt, u) (entered buffer w) v
        (λ _.
          subst (GotFrom buffer w.inbound) (sym (ungated-holding read_gate (reading buffer) u))
            (reading_gets buffer u))
        refl
  by_pick (cancelled close_token) =
      let v = after_meddling w in
      deliver-if (Fine buffer w) _ (cancelled close_token, v) (entered buffer w) v (λ _. refl) refl
  by_pick (cancelled read_shutdown_token) =
      let v = after_meddling w in
      deliver-if (Fine buffer w) _ (cancelled read_shutdown_token, v) (entered buffer w) v
        (λ _. refl) refl
  by_pick elapsed = refl
  by_pick gone = refl

-- However the other calls, the peer and the operating system behave during its awaits, a `receive`
-- loses no byte: the bytes that it reports left the front of the unread stream, stand at the front
-- of the buffer and fit into it, the rest of the buffer being untouched, and they are none only for
-- an empty buffer; after the end of the stream, any error, a dropped future or while it waits, what
-- is unread is what was unread before.
pub receive_accounts :
    (buffer : List ℕ) (w : World) → GotFrom buffer w.inbound (ungated (run (receive buffer) w))
receive_accounts buffer w = rw (run-receive buffer w) (
    if-rule (Fine buffer w) (is_empty buffer) _ _ (λ e. (omega arith, ground arith, refl, refl))
      λ _.
        if-rule (Fine buffer w) w.core.peer_sent_eof _ _ (λ e. (refl, refl, e))
          λ _.
            if-rule (Fine buffer w) w.core.closed _ _ (λ _. refl)
              λ _.
                if-rule (Fine buffer w) w.core.paused _ _ (λ _. refl)
                  λ _.
                    if-rule (Fine buffer w) w.core.read_shutdown _ _ (λ _. refl)
                      λ _. by_pick buffer w (w.script 0).pick)
