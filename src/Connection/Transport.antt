-- ===== src/Connection/Transport.antt =====
-- A connection of crates/taunicorn/src/lib.rs as the ordered stream of the secure layer: the laws of
-- Stream hold for `send` and `receive` while nobody closes, pauses or holds the connection and the
-- operating system makes progress.
use Prim.Native.Nat.{min}
use taunicorn.Prelude.{
  ℕ, zero, suc, ◌<◌, ◌≡◌, refl, sym, ap, ◌∙◌, subst, true, false, not, none, some, List, [], ◌∷◌,
  ◌++◌, length, take, drop, is_empty, if◌then◌else◌, arith, length-take, take-length-take,
  drop-length-take, ◌==◌,
}
use taunicorn.Outcome.{ok}
use taunicorn.Stream.{ByteStream, StreamLaws, Received, data_read}
use taunicorn.Endpoint.{Io, done, failed}
use taunicorn.Connection.Prog.{read_gate, Race, won, cancelled, elapsed, gone, set_gate, holding}
use taunicorn.Connection.Calls.{send, receive, until_close_or_read_shutdown, after_read, settle}
use taunicorn.Connection.Kept.{reading}
use taunicorn.Connection.Receiving.{run-reading, run-receive}
use taunicorn.Connection.Receiving as Receiving
use taunicorn.Connection.Ordered.{Moves, IsHelpful, later}
use taunicorn.Connection.Exec.{
  World, after_meddling, answer, finish_lock, finish_read, deliver, run,
}
use taunicorn.Connection.Ready.{
  IsOpen, IsReady, otherwise, run-holding, read_gate_back, still-IsOpen, still-IsReady, send_moves,
}

-- The next read.
module _ (buffer : List ℕ) (w : World) (ready : IsReady w) where
  abbrev held : World
  held = record (after_meddling w) { core = set_gate read_gate true (after_meddling w).core }

  entered_read :
      (x : Race (Io ℕ))
      → Moves x
      → let v = after_meddling w in
        deliver
          (answer until_close_or_read_shutdown v (finish_lock read_gate v) x)
          (Receiving.entered buffer w)
          v
        ≡ run (holding read_gate (reading buffer)) held
  unfolding run settle
  entered_read (won (done (suc k))) t =
      ap
        (λ b.
          deliver (if not b then some (won tt, held) else none) (Receiving.entered buffer w)
            (after_meddling w))
        (ap (λ s. s.read_gate) (ready.helpful.quiet 0 w.core) ∙ ready.free_to_read)
  entered_read (won (done zero)) t = absurd t
  entered_read (won (failed e)) t = absurd t
  entered_read (cancelled x) t = absurd t
  entered_read elapsed t = absurd t
  entered_read gone t = absurd t

  whole_read :
      is_empty buffer ≡ false
      → run (receive buffer) w ≡ run (holding read_gate (reading buffer)) held
  whole_read e =
      let o = ready.is_open in
      run-receive buffer w
      ∙ otherwise _ _ e
      ∙ otherwise _ _ o.no_eof
      ∙ otherwise _ _ o.not_closed
      ∙ otherwise _ _ o.not_paused
      ∙ otherwise _ _ o.can_read
      ∙ entered_read (w.script 0).pick (ready.helpful.moves 0)

read_bytes :
    (buffer l : List ℕ) (w : World)
    → 0 < length l
    → run (after_read buffer (done l)) w
      ≡ (ok (data_read (length l), l ++ drop (length l) buffer), w)
unfolding run after_read
read_bytes buffer [] w h = absurd (omega (arith, h))
read_bytes buffer (b ∷ bytes) w h = refl

-- A read that takes `m` bytes at most.
module _ (buffer : List ℕ) (w : World) (room : 0 < length buffer)
    (more : 0 < length w.inbound) where
  abbrev took : ℕ → List ℕ
  took k = take (min (suc k) (length buffer)) w.inbound

  length-took : (k : ℕ) → length (took k) ≡ min (min (suc k) (length buffer)) (length w.inbound)
  length-took k = omega (arith, length-take (min (suc k) (length buffer)) w.inbound)

  abbrev read_by : ℕ → World
  read_by k =
      let v = after_meddling w in
      record v { inbound = drop (min (suc k) (length buffer)) w.inbound }

  read_answer :
      (k : ℕ)
      → let v = after_meddling w in
        deliver
          (answer until_close_or_read_shutdown v
            (finish_read (length buffer) v)
            (won (done (suc k))))
          (Receiving.handled buffer w)
          v
        ≡ (ok (data_read (length (took k)), took k ++ drop (length (took k)) buffer), read_by k)
  unfolding settle
  read_answer k =
      ap (λ o. deliver o (Receiving.handled buffer w) (after_meddling w))
        (otherwise _ _ unread ∙ otherwise _ _ moving)
      ∙ read_bytes buffer (took k) (read_by k) (omega (arith, length-took k))
    where
      unread : is_empty w.inbound ≡ false
      unread = ground arith

      moving : (0 == min (suc k) (length buffer)) ≡ false
      moving = ground arith

-- One receive takes the next bytes, and leaves the connection ready.
module _ (buffer : List ℕ) (w : World) (ready : IsReady w) (room : 0 < length buffer)
    (more : 0 < length w.inbound) where
  abbrev inner : World
  inner = held buffer w ready

  inner-IsOpen : IsOpen (after_meddling w).core
  inner-IsOpen = still-IsOpen w ready

  reading_takes :
      (x : Race (Io ℕ))
      → Moves x
      → let v = after_meddling inner in
        (k : ℕ) × (deliver
            (answer until_close_or_read_shutdown v (finish_read (length buffer) v) x)
            (Receiving.handled buffer inner)
            v
          ≡ (
            ok (
              data_read (length (took buffer inner room more k)),
              took buffer inner room more k ++ drop (length (took buffer inner room more k)) buffer,
            ),
            read_by buffer inner room more k,
          ))
  reading_takes (won (done (suc k))) t = (k, read_answer buffer inner room more k)
  reading_takes (won (done zero)) t = absurd t
  reading_takes (won (failed e)) t = absurd t
  reading_takes (cancelled x) t = absurd t
  reading_takes elapsed t = absurd t
  reading_takes gone t = absurd t

  run-inner :
      let v = after_meddling inner in
      run (reading buffer) inner
      ≡ deliver
          (answer until_close_or_read_shutdown v
            (finish_read (length buffer) v)
            (inner.script 0).pick)
          (Receiving.handled buffer inner)
          v
  run-inner =
      let o = inner-IsOpen in
      run-reading buffer inner
      ∙ otherwise _ _ o.no_eof
      ∙ otherwise _ _ o.not_closed
      ∙ otherwise _ _ o.not_paused
      ∙ otherwise _ _ o.can_read
      ∙ otherwise _ _ o.sound
      ∙ otherwise _ _ o.has_stream

  -- A receive into a buffer with room, on a connection that is open, with its gates free and an
  -- operating system that makes progress, that no other call changes during the receive's awaits,
  -- where bytes are unread: it returns the next of them, one at least, at the front of the buffer,
  -- and the connection is as ready as before.
  pub receive_moves :
      Received
        (λ u. u.inbound)
        IsReady
        buffer
        w
        (run (receive buffer) w).0
        (run (receive buffer) w).1
  receive_moves =
      let (k, t) = reading_takes (inner.script 0).pick (ready.helpful.moves 1) in
      let b = run-inner ∙ t in
      let h = run-holding read_gate (reading buffer) inner _ (ap (λ r. r.0) b) in
      let r = whole_read buffer w ready (ground arith) ∙ h in
      let long = length-took buffer inner room more k in
      record {
        count = length (took buffer inner room more k);
        some_read = omega (arith, long);
        fits = omega (arith, long);
        available = omega (arith, long);
        result =
            ap (λ x. x.0) r
            ∙ ap
                (λ l. ok (
                  data_read (length (took buffer inner room more k)),
                  l ++ drop (length (took buffer inner room more k)) buffer,
                ))
                (sym (take-length-take (min (suc k) (length buffer)) w.inbound));
        rest =
            ap (λ x. x.1.inbound) r
            ∙ ap (λ x. x.1.inbound) b
            ∙ sym (drop-length-take (min (suc k) (length buffer)) w.inbound);
        ready =
            still-IsReady w _ ready
              (ap (λ x. x.1.core) r
                ∙ ap (λ x. set_gate read_gate false x.1.core) b
                ∙ ap (set_gate read_gate false) (ready.helpful.quiet 1 inner.core)
                ∙ ap (set_gate read_gate false) (ready.helpful.quiet 0 w.core)
                ∙ read_gate_back w.core ready.free_to_read)
              (subst IsHelpful (sym (ap (λ x. x.1.script) r ∙ ap (λ x. x.1.script) b))
                (later inner.script (later w.script ready.helpful)));
      }

-- The calls of a connection, as those that the secure layer makes.
unfoldable pub transport : ByteStream World
transport = record { send = λ bytes. run (send bytes); receive = λ buffer. run (receive buffer) }

-- A connection that is ready keeps all laws of an ordered stream.
unfoldable pub transport_laws : StreamLaws transport
unfolding transport
transport_laws = record {
  sent = λ w. w.sent;
  pending = λ w. w.inbound;
  CanSend = IsReady;
  CanReceive = IsReady;
  send_ok = λ bytes w h. (send_moves bytes w h).0;
  send_appends = λ bytes w h. (send_moves bytes w h).1.sent;
  send_keeps = λ bytes w h.
      let m = (send_moves bytes w h).1 in still-IsReady w (run (send bytes) w).1 h m.core m.helpful;
  receive_some = λ buffer w h room more. receive_moves buffer w h room more;
}
