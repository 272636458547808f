-- ===== src/Connection/Ordered.antt =====
-- A connection of crates/taunicorn/src/lib.rs is the ordered stream that the secure layer relies on,
-- as long as nobody closes, pauses or holds it and the operating system makes progress.
use Prim.Native.Nat.{min}
use taunicorn.Prelude.{
  ℕ, zero, suc, ◌+◌, ◌-◌, ◌≤◌, ◌<◌, ◌≡◌, refl, sym, ap, ◌∙◌, true, inl, inr, List, ◌++◌, append-nil,
  append_assoc, length, take, drop, ltb, arith, Bool-cases, length-drop, drop-drop, drop-length,
  take-append-drop,
}
use taunicorn.Outcome.{Outcome, ok}
use taunicorn.Endpoint.{Io, done, failed}
use taunicorn.Connection.{ConnectionCore}
use taunicorn.Connection.Prog.{Select, Race, won, cancelled, elapsed, gone, Prog}
use taunicorn.Connection.Calls.{write_loop, write_round}
use taunicorn.Connection.Exec.{Event, World, after_meddling, answer, finish_write, deliver, run}

-- An await that ends with its operation, which moves one byte at least.
abbrev pub Moves : Race (Io ℕ) → Type 0
Moves (won (done (suc k))) = Unit
Moves _ = ⊥

pub record IsHelpful (script : ℕ → Event) : Type 0 where
  pub quiet : (n : ℕ) (s : ConnectionCore) → (script n).meddle s ≡ s
  pub moves : (n : ℕ) → Moves (script n).pick

pub later : (script : ℕ → Event) → IsHelpful script → IsHelpful (λ n. script (suc n))
later script h = record { quiet = λ n. h.quiet (suc n); moves = λ n. h.moves (suc n) }

-- What is the same in the world `u` as in `w`, but for the bytes that were sent.
pub record Sends (bytes : List ℕ) (w u : World) : Type 0 where
  pub core : u.core ≡ w.core
  pub sent : u.sent ≡ w.sent ++ bytes
  pub inbound : u.inbound ≡ w.inbound
  pub peer_finished : u.peer_finished ≡ w.peer_finished
  pub helpful : IsHelpful u.script

module _ (q : Select) (bytes : List ℕ) where
  abbrev pub Done : ℕ → World → Outcome (Unit {0}) × World → Type 0
  Done written w r = (r.0 ≡ ok tt) × Sends (drop written bytes) w r.1

  finished :
      (written : ℕ) (w : World)
      → IsHelpful w.script
      → length bytes ≤ written
      → Done written w (ok tt, w)
  finished written w h le = (
    refl,
    record {
      core = refl;
      sent = sym (append-nil w.sent) ∙ ap (λ l. w.sent ++ l) (sym (drop-length written bytes le));
      inbound = refl;
      peer_finished = refl;
      helpful = h;
    },
  )

  -- One round with a write of `m` bytes, and what the rest of the loop does.
  round :
      (written m : ℕ) (w u : World) (r : Outcome (Unit {0}) × World)
      → u.core ≡ w.core
      → u.sent ≡ w.sent ++ take m (drop written bytes)
      → u.inbound ≡ w.inbound
      → u.peer_finished ≡ w.peer_finished
      → Done (written + m) u r
      → Done written w r
  round written m w u r c s i p (e, rest) = (
    e,
    record {
      core = rest.core ∙ c;
      sent =
          rest.sent
          ∙ ap (λ l. l ++ drop (written + m) bytes) s
          ∙ append_assoc w.sent (take m (drop written bytes)) (drop (written + m) bytes)
          ∙ ap (λ l. w.sent ++ (take m (drop written bytes) ++ l)) (sym (drop-drop written m bytes))
          ∙ ap (λ l. w.sent ++ l) (take-append-drop m (drop written bytes));
      inbound = rest.inbound ∙ i;
      peer_finished = rest.peer_finished ∙ p;
      helpful = rest.helpful;
    },
  )

  more :
      (fuel written : ℕ) (w : World)
      → ltb written (length bytes) ≡ true
      → let v = after_meddling w in
        let rest = drop written bytes in
        run (write_loop q (suc fuel) bytes written) w
        ≡ deliver
            (answer q v (finish_write rest v) (w.script 0).pick)
            (λ x. run (write_round written (length bytes) (λ n. write_loop q fuel bytes n) x))
            v
  unfolding run write_loop
  more fuel written w e = ground arith

  goes_on :
      (written m : ℕ) (go : ℕ → Prog (Unit {0})) (u : World)
      → 0 < m
      → run (write_round written (length bytes) go (won (done m))) u ≡ run (go (written + m)) u
  unfolding write_round
  goes_on written zero go u h = absurd (omega (arith, h))
  goes_on written (suc m) go u h = refl

  module _ (fuel written : ℕ) (w : World) (h : IsHelpful w.script) (lt : written < length bytes)
      (rest_sends : (n : ℕ) (u : World)
        → IsHelpful u.script
        → written < n
        → n ≤ length bytes
        → Done n u (run (write_loop q fuel bytes n) u)) where
    by_pick :
        (x : Race (Io ℕ))
        → Moves x
        → let v = after_meddling w in
          let rest = drop written bytes in
          Done written w (
            deliver
              (answer q v (finish_write rest v) x)
              (λ y. run (write_round written (length bytes) (λ n. write_loop q fuel bytes n) y))
              v)
    by_pick (won (done (suc k))) t =
        let v = after_meddling w in
        let rest = drop written bytes in
        let m = min (suc k) (length rest) in
        let u = record v { sent = w.sent ++ take m rest } in
        let long = length-drop written bytes in
        rw (goes_on written m (λ n. write_loop q fuel bytes n) u (omega (arith, long))) (
          round written m w u _ (h.quiet 0 w.core) refl refl refl (
            rest_sends (written + m) u (later w.script h) (omega (arith, long))
              (omega (arith, long))))
    by_pick (won (done zero)) t = absurd t
    by_pick (won (failed e)) t = absurd t
    by_pick (cancelled x) t = absurd t
    by_pick elapsed t = absurd t
    by_pick gone t = absurd t

  stops :
      (fuel written : ℕ) (w : World)
      → length bytes ≤ written
      → run (write_loop q fuel bytes written) w ≡ (ok tt, w)
  unfolding run write_loop
  stops zero written w le = ground arith
  stops (suc fuel) written w le = ground arith

  pub loop_sends :
      (fuel written : ℕ) (w : World)
      → IsHelpful w.script
      → written ≤ length bytes
      → length bytes - written ≤ fuel
      → Done written w (run (write_loop q fuel bytes written) w)
  loop_sends zero written w h le enough =
      rw (stops zero written w (omega arith)) (finished written w h (omega arith))
  loop_sends (suc fuel) written w h le enough = elim (Bool-cases (ltb written (length bytes))) [
    | inl e ↦ rw (more fuel written w e) (
        by_pick fuel written w h (ground arith)
          (λ n u k up le'. loop_sends fuel n u k le' (omega arith)) (w.script 0).pick (h.moves 0))
    | inr e ↦ rw (stops (suc fuel) written w (ground arith)) (finished written w h (ground arith))
  ]
