-- ===== src/Connection/Ready.antt =====
-- `send` of crates/taunicorn/src/lib.rs on a connection that nothing stops.
use taunicorn.Prelude.{
  ℕ, zero, suc, ◌≡◌, refl, sym, ap, ◌∙◌, subst, Bool, true, false, not, none, some, Option, List,
  [], ◌∷◌, append-nil, length, is_empty, if◌then◌else◌, arith,
}
use taunicorn.Outcome.{Outcome, ok}
use taunicorn.Endpoint.{Io, done, failed}
use taunicorn.Connection.{ConnectionCore}
use taunicorn.Connection.Prog.{
  Gate, read_gate, write_gate, Race, won, cancelled, elapsed, gone, Prog, ret, atomic, lock, read,
  write, sync, set_gate, holding,
}
use taunicorn.Connection.Calls.{send, until_close, write_loop, settle}
use taunicorn.Connection.Keeping.{is_none}
use taunicorn.Connection.Sending.{send_with, body, entered, no_handle, run-body, run-send_with}
use taunicorn.Connection.Ordered.{Moves, IsHelpful, later, Sends, loop_sends}
use taunicorn.Connection.Exec.{
  World, after_meddling, answer, finish_lock, finish_read, finish_write, finish_sync, deliver, run,
}

-- How a guard is dropped at the end of a call that returns a value.
module _ {X A : Type 0} (g : Gate) (go go' : X → World → Outcome A × World) where
  abbrev dropping : A → World → Outcome A × World
  dropping a u = (ok a, record u { core = set_gate g false u.core })

  delivered :
      (o : Option (X × World)) (w : World) (a : A)
      → ((x : X) (u : World) → (go' x u).0 ≡ ok a → go x u ≡ dropping a (go' x u).1)
      → (deliver o go' w).0 ≡ ok a
      → deliver o go w ≡ dropping a (deliver o go' w).1
  delivered none w a h e = cc
  delivered (some (x, u)) w a h e = h x u e

pub run-holding :
    {A : Type 0} (g : Gate) (p : Prog A) (w : World) (a : A)
    → (run p w).0 ≡ ok a
    → run (holding g p) w
      ≡ (ok a, record ((run p w).1) { core = set_gate g false ((run p w).1.core) })
unfolding run
run-holding g (ret r) w a e = ap (λ x. (x, record w { core = set_gate g false w.core })) e
run-holding g (atomic f k) w a e = run-holding g (k w.core) (record w { core = f w.core }) a e
run-holding g (lock h q k) w a e =
    let v = after_meddling w in
    delivered g (λ x. run (holding g (k x))) (λ x. run (k x))
      (answer q v (finish_lock h v) (w.script 0).pick) v a (λ x u. run-holding g (k x) u a) e
run-holding g (read n q k) w a e =
    let v = after_meddling w in
    delivered g (λ x. run (holding g (k x))) (λ x. run (k x))
      (answer q v (finish_read n v) (w.script 0).pick) v a (λ x u. run-holding g (k x) u a) e
run-holding g (write b q k) w a e =
    let v = after_meddling w in
    delivered g (λ x. run (holding g (k x))) (λ x. run (k x))
      (answer q v (finish_write b v) (w.script 0).pick) v a (λ x u. run-holding g (k x) u a) e
run-holding g (sync y q k) w a e =
    let v = after_meddling w in
    delivered g (λ x. run (holding g (k x))) (λ x. run (k x))
      (answer q v (finish_sync v) (w.script 0).pick) v a (λ x u. run-holding g (k x) u a) e

-- Nothing stops a call.
pub record IsOpen (s : ConnectionCore) : Type 0 where
  pub not_closed : s.closed ≡ false
  pub not_paused : s.paused ≡ false
  pub can_read : s.read_shutdown ≡ false
  pub can_write : s.write_shutdown ≡ false
  pub no_eof : s.peer_sent_eof ≡ false
  pub sound : s.poisoned ≡ false
  pub has_stream : is_none s.stream ≡ false

pub record IsReady (w : World) : Type 0 where
  pub is_open : IsOpen w.core
  pub free_to_read : w.core.read_gate ≡ false
  pub free_to_write : w.core.write_gate ≡ false
  pub helpful : IsHelpful w.script

write_gate_back : (s : ConnectionCore) → s.write_gate ≡ false → set_gate write_gate false s ≡ s
write_gate_back s e = λ i. record s { write_gate = sym e i }

pub read_gate_back : (s : ConnectionCore) → s.read_gate ≡ false → set_gate read_gate false s ≡ s
read_gate_back s e = λ i. record s { read_gate = sym e i }

-- A test that fails.
pub otherwise : {A : Type 0} {b : Bool} (x y : A) → b ≡ false → (if b then x else y) ≡ y
otherwise x y e = ap (λ c. if c then x else y) e

handle_there :
    (bytes : List ℕ) (s : Option ℕ) → is_none s ≡ false → no_handle until_close bytes s ≡ false
handle_there bytes none e = e
handle_there bytes (some h) e = refl

body_sends :
    (bytes : List ℕ) (u : World)
    → IsOpen u.core
    → run (body until_close bytes) u ≡ run (write_loop until_close (length bytes) bytes 0) u
body_sends bytes u o =
    run-body until_close bytes u
    ∙ otherwise _ _ o.not_closed
    ∙ otherwise _ _ o.not_paused
    ∙ otherwise _ _ o.can_write
    ∙ otherwise _ _ o.sound
    ∙ otherwise _ _ (handle_there bytes u.core.stream o.has_stream)

pub still-IsOpen : (w : World) → IsReady w → IsOpen (after_meddling w).core
still-IsOpen w r = subst IsOpen (sym (r.helpful.quiet 0 w.core)) r.is_open

-- With the gate free, the wait for it ends.
module _ (bytes : List ℕ) (w : World) (ready : IsReady w) where
  abbrev v : World
  v = after_meddling w

  abbrev u : World
  u = record v { core = set_gate write_gate true v.core }

  under_gate :
      run (body until_close bytes) u ≡ run (write_loop until_close (length bytes) bytes 0) u
  under_gate =
      let o = still-IsOpen w ready in
      body_sends bytes u (record {
        not_closed = o.not_closed;
        not_paused = o.not_paused;
        can_read = o.can_read;
        can_write = o.can_write;
        no_eof = o.no_eof;
        sound = o.sound;
        has_stream = o.has_stream;
      })

  entered_lock :
      (x : Race (Io ℕ))
      → Moves x
      → deliver (answer until_close v (finish_lock write_gate v) x) (entered until_close bytes) v
        ≡ run (holding write_gate (body until_close bytes)) u
  unfolding run settle
  entered_lock (won (done (suc k))) t =
      ap (λ b. deliver (if not b then some (won tt, u) else none) (entered until_close bytes) v)
        (ap (λ s. s.write_gate) (ready.helpful.quiet 0 w.core) ∙ ready.free_to_write)
  entered_lock (won (done zero)) t = absurd t
  entered_lock (won (failed e)) t = absurd t
  entered_lock (cancelled x) t = absurd t
  entered_lock elapsed t = absurd t
  entered_lock gone t = absurd t

  whole :
      is_empty bytes ≡ false
      → run (send_with until_close bytes) w ≡ run (holding write_gate (body until_close bytes)) u
  whole e =
      let o = ready.is_open in
      run-send_with until_close bytes w
      ∙ otherwise _ _ e
      ∙ otherwise _ _ o.not_closed
      ∙ otherwise _ _ o.not_paused
      ∙ otherwise _ _ o.can_write
      ∙ entered_lock (w.script 0).pick (ready.helpful.moves 0)

pub still-IsReady : (w u : World) → IsReady w → u.core ≡ w.core → IsHelpful u.script → IsReady u
still-IsReady w u r e h = record {
  is_open = subst IsOpen (sym e) r.is_open;
  free_to_read = ap (λ s. s.read_gate) e ∙ r.free_to_read;
  free_to_write = ap (λ s. s.write_gate) e ∙ r.free_to_write;
  helpful = h;
}

-- A send on a connection that is open, with its gates free and an operating system that makes
-- progress, and that no other call changes during the send's awaits, returns `Ok` with all of its bytes
-- handed over in order; the state of the connection and what is unread are as before.
pub send_moves :
    (bytes : List ℕ) (w : World)
    → IsReady w
    → ((run (send bytes) w).0 ≡ ok tt) × Sends bytes w (run (send bytes) w).1
unfolding send run
send_moves [] w ready = (
  refl,
  record {
    core = refl;
    sent = sym (append-nil w.sent);
    inbound = refl;
    peer_finished = refl;
    helpful = ready.helpful;
  },
)
send_moves (x ∷ xs) w ready =
    let bytes = x ∷ xs in
    let (d, s) =
      loop_sends until_close bytes (length bytes) 0 (u bytes w ready) (later w.script ready.helpful)
        (omega arith) (omega arith) in
    let b = under_gate bytes w ready in
    let h =
      run-holding write_gate (body until_close bytes) (u bytes w ready) tt (ap (λ r. r.0) b ∙ d) in
    let r = whole bytes w ready refl ∙ h in
    (
      ap (λ r. r.0) r,
      record {
        core =
            ap (λ r. r.1.core) r
            ∙ ap (λ r. set_gate write_gate false r.1.core) b
            ∙ ap (set_gate write_gate false) s.core
            ∙ ap (set_gate write_gate false) (ready.helpful.quiet 0 w.core)
            ∙ write_gate_back w.core ready.free_to_write;
        sent = ap (λ r. r.1.sent) r ∙ ap (λ r. r.1.sent) b ∙ s.sent;
        inbound = ap (λ r. r.1.inbound) r ∙ ap (λ r. r.1.inbound) b ∙ s.inbound;
        peer_finished =
            ap (λ r. r.1.peer_finished) r ∙ ap (λ r. r.1.peer_finished) b ∙ s.peer_finished;
        helpful = subst IsHelpful (sym (ap (λ r. r.1.script) r ∙ ap (λ r. r.1.script) b)) s.helpful;
      },
    )
