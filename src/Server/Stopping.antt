-- ===== src/Server/Stopping.antt =====
-- Stopping a server (crates/taunicorn/src/lib.rs) while its other calls run.
use taunicorn.Prelude.{
  ℕ, suc, Bool, true, false, none, some, ◌≡◌, refl, arith, not, if◌then◌else◌, Option,
}
use taunicorn.Outcome.{
  Error, Outcome, ok, err, dropped, waiting, fuel_out, server_is_paused, server_is_stopped,
  server_poisoned,
}
use taunicorn.Connection.{ConnectionCore, next_socket_id, new, from_accepted}
use taunicorn.Endpoint.{done, failed, or_io_error}
use taunicorn.Server.{Process}
use taunicorn.Server.Steps.{
  Accepted, arrived, stop_cancelled, elapsed, gone, Steps, ret, atomic, await_client, ◌>>=◌, ◌>>◌,
  pure, fail, bail_if, store,
}
use taunicorn.Server.Calls.{
  pause, unpause, stop_now, accept, accept_timeout, accept_until, clone_of, settle, count,
  connection_of, is_paused, is_stopped, listener, stop, set_paused, set_stopped, cancel,
  take_listener,
}
use taunicorn.Server.Run.{Turn, later, run, is_ready, is_kept, Keeps}

kept_refl : (p : Process) → is_kept p p ≡ true
kept_refl p = ground arith

kept_trans : (p q r : Process) → is_kept p q ≡ true → is_kept q r ≡ true → is_kept p r ≡ true
kept_trans p q r h k = ground arith

kept_stopped :
    (p q : Process) → is_kept p q ≡ true → p.server.stopped ≡ true → q.server.stopped ≡ true
kept_stopped p q h e = ground arith

module _ {A B : Type 0} where
  keep_bind : (m : Steps A) (f : A → Steps B) → Keeps m → ((a : A) → Keeps (f a)) → Keeps (m >>= f)
  keep_bind (ret (ok a)) f h k = k a
  keep_bind (ret (err e)) f h k = tt
  keep_bind (ret dropped) f h k = tt
  keep_bind (ret waiting) f h k = tt
  keep_bind (ret fuel_out) f h k = tt
  keep_bind (atomic g go) f (h, t) k = (h, λ p. keep_bind (go p) f (t p) k)
  keep_bind (await_client l d go) f h k = λ x. keep_bind (go x) f (h x) k

keep_if : {A : Type 0} (b : Bool) (m n : Steps A) → Keeps m → Keeps n → Keeps (if b then m else n)
keep_if true m n h k = h
keep_if false m n h k = k

keep_bail : (b : Bool) (e : Error) → Keeps (bail_if b e)
keep_bail true e = tt
keep_bail false e = tt

keep_clone : (x : Bool × Option ℕ) → Keeps (clone_of x)
keep_clone (true, h) = tt
keep_clone (false, none) = tt
keep_clone (false, some h) = tt

keep_listener : Keeps listener
unfolding listener is_stopped
keep_listener = (
  kept_refl,
  λ p.
      keep_bind (bail_if p.server.stopped server_is_stopped) _ (keep_bail _ _)
        λ _. (kept_refl, λ q. keep_clone (q.server.poisoned, q.server.inner)),
)

keep_accept : (deadline : Bool) → Keeps (accept_until deadline)
unfolding accept_until is_paused connection_of count next_socket_id
keep_accept deadline = (
  kept_refl,
  λ p. keep_bind (bail_if p.server.paused server_is_paused) _ (keep_bail _ _) λ _.
      keep_bind listener _ keep_listener
        λ handle. λ x. keep_bind (ret (settle x)) _ tt λ stream. (λ q. ground arith, λ q. tt),
)

abbrev release : Steps (Unit {0})
release = atomic take_listener (λ p. if p.server.poisoned then fail server_poisoned else pure tt)

-- No step of any call takes back a stop, a cancelled token or the release of the listener.
pub calls-Keeps : Keeps pause × Keeps unpause × Keeps stop_now × Keeps accept × Keeps accept_timeout
unfolding pause unpause stop_now accept accept_timeout stop
calls-Keeps = (
  (
    kept_refl,
    λ p.
        keep_if (not p.server.stopped) (store (set_paused true)) (pure tt)
          (λ q. ground arith, λ q. tt) tt,
  ),
  (
    kept_refl,
    λ p.
        keep_if (not p.server.stopped) (store (set_paused false)) (pure tt)
          (λ q. ground arith, λ q. tt) tt,
  ),
  (
    λ q. ground arith,
    λ p. (
      λ q. ground arith,
      λ q.
          keep_if (not p.server.stopped) (store cancel >> release) (pure tt)
            (
              λ q. ground arith,
              λ q. (
                λ r. ground arith,
                λ r. keep_if r.server.poisoned (fail server_poisoned) (pure tt) tt tt,
              ),
            )
            tt,
    ),
  ),
  keep_accept false,
  keep_accept true,
)

-- Whatever a call does among others that keep a stop, the token and the release: it keeps them too.
pub run-Keeps :
    {A : Type 0} (m : Steps A) (script : ℕ → Turn) (p : Process)
    → ((n : ℕ) (q : Process) → is_kept q ((script n).meddle q) ≡ true)
    → Keeps m
    → is_kept p (run m script p).1 ≡ true
unfolding run
run-Keeps (ret r) script p obeys h = kept_refl p
run-Keeps (atomic f k) script p obeys (h, t) =
    let q = (script 0).meddle p in
    let r = (run (k q) (later script) (f q)).1 in
    kept_trans p q r (obeys 0 p)
      (kept_trans q (f q) r (h q) (run-Keeps (k q) (later script) (f q) (λ n. obeys (suc n)) (t q)))
run-Keeps {A = A} (await_client l d k) script p obeys h =
    let q = (script 0).meddle p in
    let go = run (k (script 0).ended) (later script) q in
    kept_trans p q (if is_ready q d (script 0).ended then go else (waiting, q)).1 (obeys 0 p) (
      chosen (is_ready q d (script 0).ended) q go
        (run-Keeps (k (script 0).ended) (later script) q (λ n. obeys (suc n)) (h (script 0).ended)))
  where
    chosen :
        (b : Bool) (q : Process) (r : Outcome A × Process)
        → is_kept q r.1 ≡ true
        → is_kept q (if b then r else (waiting, q)).1 ≡ true
    chosen true q r e = e
    chosen false q r e = kept_refl q

module _ (script : ℕ → Turn)
    (obeys : (n : ℕ) (p : Process) → is_kept p ((script n).meddle p) ≡ true) where
  -- If the other calls take back no stop, `stop_now` leaves the server stopped, whatever they do
  -- between its steps.
  pub stop_now_stops : (p : Process) → (run stop_now script p).1.server.stopped ≡ true
  unfolding run stop_now stop
  stop_now_stops p =
      let q = (script 0).meddle p in
      kept_stopped (set_stopped true q) (run stop_now script p).1
        (run-Keeps
          (store (set_paused false)
            >> (if not q.server.stopped then store cancel >> release else pure tt))
          (later script) (set_stopped true q) (λ n. obeys (suc n)) (calls-Keeps.2.1 q))
        refl

  refused :
      (d : Bool) (p : Process)
      → p.server.stopped ≡ true
      → (run (accept_until d) script p).0
        ≡ err (if ((script 0).meddle p).server.paused then server_is_paused else server_is_stopped)
  unfolding run accept_until listener is_stopped is_paused
  refused d p h = ground (arith, obeys 0 p, obeys 1 ((script 0).meddle p))

  -- If the other calls take back no stop: once a server is stopped, an accept that starts then
  -- returns no connection and does not wait for one. It fails, with the text for a pause if the
  -- paused flag is set, and else with the text for a stopped server.
  pub stopped_refuses :
      (p : Process)
      → p.server.stopped ≡ true
      → let e =
          err
            (if ((script 0).meddle p).server.paused then server_is_paused else server_is_stopped) in
        ((run accept script p).0 ≡ e) × ((run accept_timeout script p).0 ≡ e)
  unfolding accept accept_timeout
  stopped_refuses p h = (refused false p h, refused true p h)

-- A new connection on the stream that an await ended with.
pub record IsNewFrom (x : Accepted) (conn : ConnectionCore) : Type 0 where
  pub handle : ℕ
  pub came : x ≡ arrived (done handle)
  pub holds : conn.stream ≡ some handle
  pub local : conn.local_endpoint ≡ some conn.endpoint
  pub open' : conn.closed ≡ false
  pub not_paused : conn.paused ≡ false
  pub can_read : conn.read_shutdown ≡ false
  pub can_write : conn.write_shutdown ≡ false
  pub no_eof : conn.peer_sent_eof ≡ false

-- What `accept` returns is a new connection on the stream that the socket library gave it: no flag is
-- set, and the server's endpoint is its own and its local one.
pub accept_sound :
    (script : ℕ → Turn) (p : Process) (conn : ConnectionCore)
    → (run accept script p).0 ≡ ok conn
    → IsNewFrom (script 3).ended conn
unfolding run accept accept_until listener is_stopped is_paused settle connection_of from_accepted
    new or_io_error
accept_sound script p conn e = go (script 3).ended refl
  where
    go : (x : Accepted) → (script 3).ended ≡ x → IsNewFrom (script 3).ended conn
    go (arrived (done stream)) h = record {
      handle = stream;
      came = h;
      holds = ground arith;
      local = ground arith;
      open' = ground arith;
      not_paused = ground arith;
      can_read = ground arith;
      can_write = ground arith;
      no_eof = ground arith;
    }
    go (arrived (failed x)) h = absurd (ground arith)
    go stop_cancelled h = absurd (ground arith)
    go elapsed h = absurd (ground arith)
    go gone h = absurd (ground arith)
