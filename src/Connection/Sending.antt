-- ===== src/Connection/Sending.antt =====
-- `send` and `send_timeout` of crates/taunicorn/src/lib.rs as whole calls.
use taunicorn.Prelude.{
  ℕ, ◌-◌, ◌≤◌, ◌≡◌, refl, sym, ap, ◌∙◌, Bool, true, false, List, ◌++◌, append-nil, length, take,
  is_empty, if◌then◌else◌, arith, none, some, Option, subst,
}
use taunicorn.Outcome.{
  Error, Outcome, ok, err, dropped, waiting, connection_is_closed, connection_is_paused,
  send_is_shut_down, connection_poisoned, connection_was_closed, receive_was_shut_down,
  timeout_before_progress,
}
use taunicorn.Connection.Prog.{
  Select, write_gate, Prog, ret, Race, won, cancelled, elapsed, gone, ◌>>=◌, ◌>>◌, pure, holding,
  close_token, read_shutdown_token, set_gate,
}
use taunicorn.Connection.Calls.{
  settle, ensure_write_available, stream, write_loop, send, send_timeout, until_close,
  until_close_or_deadline, take_gate,
}
use taunicorn.Endpoint.{Io}
use taunicorn.Connection.Exec.{World, after_meddling, answer, finish_lock, deliver, run}
use taunicorn.Connection.Exec.Rounds.{deliver-if, Ungated, ungated, ungated-holding}
use taunicorn.Connection.WriteLoop.{Reported, loop_accounts}

-- What a call that was given `bytes` has handed over, and what it says of it.
pub record Sent (bytes before : List ℕ) (u : Ungated (Unit {0})) : Type 0 where
  pub upto : ℕ
  pub within : upto ≤ length bytes
  pub handed : u.sent ≡ before ++ take upto bytes
  pub told : Reported (length bytes) upto u.outcome u.state

pub if-rule :
    {A : Type 0} (P : A → Type 0) (b : Bool) (x y : A)
    → (b ≡ true → P x)
    → (b ≡ false → P y)
    → P (if b then x else y)
if-rule P true x y h k = h refl
if-rule P false x y h k = k refl

module _ (q : Select) (bytes : List ℕ) where
  -- What is done under the write gate.
  abbrev pub body : Prog (Unit {0})
  body = do ensure_write_available; handle ← stream; write_loop q (length bytes) bytes 0

  abbrev pub send_with : Prog (Unit {0})
  send_with =
      if is_empty bytes
      then pure tt
      else do ensure_write_available; take_gate write_gate q; holding write_gate body

  unsent :
      (r : Outcome (Unit {0}) × World) (before : List ℕ)
      → r.1.sent ≡ before
      → Reported (length bytes) 0 r.0 r.1.core.state
      → Sent bytes before (ungated r)
  unsent r before e told = record {
    upto = 0;
    within = omega arith;
    handed = e ∙ sym (append-nil before);
    told = told;
  }

  abbrev pub no_handle : Option ℕ → Bool
  no_handle none = true
  no_handle (some _) = false

  pub run-body :
      (w : World)
      → run body w ≡ (
          if w.core.closed
          then (err connection_is_closed, w)
          else if w.core.paused
          then (err connection_is_paused, w)
          else if w.core.write_shutdown
          then (err send_is_shut_down, w)
          else if w.core.poisoned
          then (err connection_poisoned, w)
          else if no_handle w.core.stream
          then (err connection_is_closed, w)
          else run (write_loop q (length bytes) bytes 0) w)
  unfolding run ensure_write_available stream
  run-body w = ground arith

  body_sends : (w : World) → Sent bytes w.sent (ungated (run body w))
  body_sends w = rw (run-body w) (
      if-rule P w.core.closed _ _ (λ _. refused connection_is_closed refl)
        λ _.
          if-rule P w.core.paused _ _ (λ _. refused connection_is_paused refl)
            λ _.
              if-rule P w.core.write_shutdown _ _ (λ _. refused send_is_shut_down refl)
                λ _.
                  if-rule P w.core.poisoned _ _ (λ _. refused connection_poisoned refl)
                    λ _.
                      if-rule P (no_handle w.core.stream) _ _
                        (λ _. refused connection_is_closed refl) λ _. looped)
    where
      P : Outcome (Unit {0}) × World → Type 0
      P r = Sent bytes w.sent (ungated r)

      refused :
          (e : Error)
          → Reported (length bytes) 0 (err e) w.core.state
          → Sent bytes w.sent (ungated (err e, w))
      refused e told = unsent (err e, w) w.sent refl told

      looped : Sent bytes w.sent (ungated (run (write_loop q (length bytes) bytes 0) w))
      looped =
          let a = loop_accounts q bytes (length bytes) 0 w (omega arith) (omega arith) in
          let e : a.upto - 0 ≡ a.upto = omega arith in
          record {
            upto = a.upto;
            within = a.within;
            handed = a.handed ∙ ap (λ k. w.sent ++ take k bytes) e;
            told = a.told;
          }

  -- What the call does once the wait for the gate is over.
  abbrev pub entered : Race (Unit {0}) → World → Outcome (Unit {0}) × World
  entered x = run (ret (settle connection_was_closed x) >>= λ _. holding write_gate body)

  pub run-send_with :
      (w : World)
      → let v = after_meddling w in
        run send_with w ≡ (
          if is_empty bytes
          then (ok tt, w)
          else if w.core.closed
          then (err connection_is_closed, w)
          else if w.core.paused
          then (err connection_is_paused, w)
          else if w.core.write_shutdown
          then (err send_is_shut_down, w)
          else deliver (answer q v (finish_lock write_gate v) (w.script 0).pick) entered v)
  unfolding run ensure_write_available
  run-send_with w = ground arith

  module _ (w : World) where
    abbrev Fine : Outcome (Unit {0}) × World → Type 0
    Fine r = Sent bytes w.sent (ungated r)

    stopped :
        (e : Error) (v : World)
        → v.sent ≡ w.sent
        → Reported (length bytes) 0 (err e) v.core.state
        → Fine (err e, v)
    stopped e v same told = unsent (err e, v) w.sent same told

    waits : (v : World) → v.sent ≡ w.sent → Fine (waiting, v)
    waits v same = unsent (waiting, v) w.sent same tt

    by_pick :
        (x : Race (Io ℕ))
        → let v = after_meddling w in
          Fine (deliver (answer q v (finish_lock write_gate v) x) entered v)
    unfolding run settle
    by_pick (won x) =
        let v = after_meddling w in
        let u = record v { core = set_gate write_gate true v.core } in
        deliver-if Fine _ (won tt, u) entered v
          (λ _. subst (Sent bytes w.sent) (sym (ungated-holding write_gate body u)) (body_sends u))
          (waits v refl)
    by_pick (cancelled close_token) =
        let v = after_meddling w in
        deliver-if Fine _ (cancelled close_token, v) entered v
          (λ _. stopped connection_was_closed v refl refl) (waits v refl)
    by_pick (cancelled read_shutdown_token) =
        let v = after_meddling w in
        deliver-if Fine _ (cancelled read_shutdown_token, v) entered v
          (λ _. stopped receive_was_shut_down v refl refl) (waits v refl)
    by_pick elapsed =
        let v = after_meddling w in
        deliver-if Fine _ (elapsed, v) entered v (λ _. stopped timeout_before_progress v refl refl)
          (waits v refl)
    by_pick gone = unsent (dropped, after_meddling w) w.sent refl tt

  send_with_accounts : (w : World) → Sent bytes w.sent (ungated (run send_with w))
  send_with_accounts w = rw (run-send_with w) (
      if-rule (Fine w) (is_empty bytes) _ _ (λ e. unsent (ok tt, w) w.sent refl (ground arith))
        λ _.
          if-rule (Fine w) w.core.closed _ _ (λ _. stopped w connection_is_closed w refl refl)
            λ _.
              if-rule (Fine w) w.core.paused _ _ (λ _. stopped w connection_is_paused w refl refl)
                λ _.
                  if-rule (Fine w) w.core.write_shutdown _ _
                    (λ _. stopped w send_is_shut_down w refl refl) λ _. by_pick w (w.script 0).pick)

-- However the other calls, the peer and the operating system behave during its awaits: a `send` has
-- handed over a front part of its bytes and nothing else. `Ok` means all of them; an error text with
-- a count gives the exact count, and after it the connection is closed unless the close is by
-- another call; any other error means that not one byte was handed over. The model's fuel is enough.
pub send_accounts : (bytes : List ℕ) (w : World) → Sent bytes w.sent (ungated (run (send bytes) w))
unfolding send
send_accounts bytes w = send_with_accounts until_close bytes w

-- The same for `send_timeout`, whose awaits may also end by the deadline.
pub send_timeout_accounts :
    (bytes : List ℕ) (w : World) → Sent bytes w.sent (ungated (run (send_timeout bytes) w))
unfolding send_timeout
send_timeout_accounts bytes w = send_with_accounts until_close_or_deadline bytes w
