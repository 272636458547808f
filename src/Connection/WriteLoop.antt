-- ===== src/Connection/WriteLoop.antt =====
-- The loop of `send` and `send_timeout` in crates/taunicorn/src/lib.rs: how many bytes have been
-- handed over, on every branch, and what the error texts say of it.
use Prim.Native.Nat.{min}
use taunicorn.Prelude.{
  ℕ, zero, suc, ◌+◌, ◌-◌, ◌≤◌, ◌<◌, ◌≡◌, refl, sym, ap, ◌∙◌, true, inl, inr, List, ◌++◌, append-nil,
  append_assoc, length, take, drop, ltb, arith, Bool-cases, length-drop, drop-drop,
  take-append-take,
}
use taunicorn.Outcome.{
  Error, Outcome, ok, err, dropped, waiting, fuel_out, closed_after, zero_after, timeout_after,
  failed_after,
}
use taunicorn.Endpoint.{Io, done, failed}
use taunicorn.Outcome.Action.{continue}
use taunicorn.Connection.{ConnectionState}
use taunicorn.Connection.Exec.Rounds.{run-bind, deliver-if}
use taunicorn.Connection.Prog.{Select, Race, won, cancelled, elapsed, gone, ◌>>◌, fail}
use taunicorn.Connection.Calls.{write_round, write_loop, fail_connection}
use taunicorn.Connection.Exec.{World, after_meddling, answer, finish_write, deliver, run}

-- What a result says of the bytes that were handed over, `k` of `total`. An error with a count is
-- followed by a closed connection, but for the one of a close by another call.
abbrev pub Reported : ℕ → ℕ → Outcome (Unit {0}) → ConnectionState → Type 0
Reported total k (ok _) w = k ≡ total
Reported total k (err (closed_after m n)) w = (m ≡ k) × (n ≡ total)
Reported total k (err (zero_after m n)) w = (m ≡ k) × (n ≡ total) × (w.closed ≡ true)
Reported total k (err (timeout_after m n)) w = (m ≡ k) × (n ≡ total) × (w.closed ≡ true)
Reported total k (err (failed_after m n e)) w = (m ≡ k) × (n ≡ total) × (w.closed ≡ true)
Reported total k (err _) w = k ≡ 0
Reported total k dropped w = Unit
Reported total k waiting w = Unit
Reported total k fuel_out w = ⊥

pub record Accounts (bytes : List ℕ) (written : ℕ) (before : List ℕ)
    (r : Outcome (Unit {0}) × World) : Type 0 where
  pub upto : ℕ
  pub from : written ≤ upto
  pub within : upto ≤ length bytes
  pub handed : r.1.sent ≡ before ++ take (upto - written) (drop written bytes)
  pub told : Reported (length bytes) upto r.0 r.1.core.state

module _ (bytes : List ℕ) (written : ℕ) (w : World) (le : written ≤ length bytes) where
  -- Nothing more was handed over.
  no_more :
      (r : Outcome (Unit {0}) × World)
      → r.1.sent ≡ w.sent
      → Reported (length bytes) written r.0 r.1.core.state
      → Accounts bytes written w.sent r
  no_more r e told = record {
    upto = written;
    from = omega arith;
    within = le;
    handed = let z : written - written ≡ 0 = omega arith in rw z (e ∙ sym (append-nil w.sent));
    told = told;
  }

run-fail_connection :
    (w : World)
    → ((run fail_connection w).0 ≡ ok tt)
      × ((run fail_connection w).1.core.closed ≡ true)
      × ((run fail_connection w).1.sent ≡ w.sent)
unfolding run fail_connection
run-fail_connection w = ground arith

run-fail : (e : Error) (w : World) → run {A = Unit {0}} (fail e) w ≡ (err e, w)
unfolding run
run-fail e w = refl

run-fail_then :
    (e : Error) (w : World)
    → run {A = Unit {0}} (fail_connection >> fail e) w ≡ (err e, (run fail_connection w).1)
run-fail_then e w =
    run-bind fail_connection (λ _. fail {A = Unit {0}} e) w
    ∙ ap (λ r. continue r (λ _. run {A = Unit {0}} (fail e)) (run fail_connection w).1)
        (run-fail_connection w).0
    ∙ run-fail e (run fail_connection w).1

-- Two parts handed over in a row.
regroup :
    (before bytes : List ℕ) (written m upto : ℕ)
    → written + m ≤ upto
    → (before ++ take m (drop written bytes))
        ++ take (upto - (written + m)) (drop (written + m) bytes)
      ≡ before ++ take (upto - written) (drop written bytes)
regroup before bytes written m upto h =
    let k = upto - (written + m) in
    let e : m + k ≡ upto - written = omega arith in
    append_assoc before (take m (drop written bytes)) (take k (drop (written + m) bytes))
    ∙ ap (λ x. before ++ (take m (drop written bytes) ++ take k x))
        (sym (drop-drop written m bytes))
    ∙ ap (λ x. before ++ x) (take-append-take m k (drop written bytes))
    ∙ ap (λ x. before ++ take x (drop written bytes)) e

module _ (q : Select) (bytes : List ℕ) where
  -- The statement for the rest of the loop.
  abbrev pub Goes : ℕ → Type 0
  Goes fuel =
      (written : ℕ) (w : World)
      → written ≤ length bytes
      → length bytes - written ≤ fuel
      → Accounts bytes written w.sent (run (write_loop q fuel bytes written) w)

  loop_ends :
      (fuel written : ℕ) (w : World)
      → length bytes ≤ written
      → run (write_loop q fuel bytes written) w ≡ (ok tt, w)
  unfolding run write_loop
  loop_ends zero written w h = ground arith
  loop_ends (suc fuel) written w h = ground arith

  loop_round :
      (fuel written : ℕ) (w : World)
      → written < length bytes
      → let v = after_meddling w in
        run (write_loop q (suc fuel) bytes written) w
        ≡ deliver
            (answer q v (finish_write (drop written bytes) v) (w.script 0).pick)
            (λ x. run (write_round written (length bytes) (λ n. write_loop q fuel bytes n) x))
            v
  unfolding run write_loop
  loop_round fuel written w h = ground arith

  module _ (fuel written : ℕ) (w : World) (lt : written < length bytes)
      (enough : length bytes - written ≤ suc fuel) (go : Goes fuel) where
    abbrev rest : Race (Io ℕ) → World → Outcome (Unit {0}) × World
    rest x = run (write_round written (length bytes) (λ n. write_loop q fuel bytes n) x)

    -- The connection fails, and the text gives the count.
    gives_up :
        (e : Error) (v : World)
        → v.sent ≡ w.sent
        → ((x : ConnectionState) → x.closed ≡ true → Reported (length bytes) written (err e) x)
        → Accounts bytes written w.sent (run (fail_connection >> fail e) v)
    gives_up e v same told =
        let (_, closed, sent) = run-fail_connection v in
        rw (run-fail_then e v) (
          no_more bytes written w (omega arith) (err e, (run fail_connection v).1) (sent ∙ same)
            (told _ closed))

    -- A write of `n + 1` bytes, and the rest of the loop.
    goes_on :
        (n : ℕ) (v : World)
        → suc n ≤ length bytes - written
        → v.sent ≡ w.sent ++ take (suc n) (drop written bytes)
        → Accounts bytes written w.sent (run (write_loop q fuel bytes (written + suc n)) v)
    goes_on n v le sent =
        let a = go (written + suc n) v (omega arith) (omega arith) in
        record {
          upto = a.upto;
          from = omega (arith, a.from);
          within = a.within;
          handed =
              a.handed
              ∙ ap (λ x. x ++ take (a.upto - (written + suc n)) (drop (written + suc n) bytes)) sent
              ∙ regroup w.sent bytes written (suc n) a.upto a.from;
          told = a.told;
        }

    by_count :
        (n : ℕ)
        → n ≤ length bytes - written
        → (v : World) → v.sent ≡ w.sent ++ take n (drop written bytes)
        → Accounts bytes written w.sent (rest (won (done n)) v)
    unfolding write_round
    by_count zero le v e =
        gives_up (zero_after written (length bytes)) v (e ∙ append-nil w.sent)
          (λ v' c. (refl, refl, c))
    by_count (suc n) le v e = goes_on n v le e

    -- The round, by how its await ended.
    by_pick :
        (x : Race (Io ℕ))
        → let v = after_meddling w in
          Accounts bytes written w.sent
            (deliver (answer q v (finish_write (drop written bytes) v) x) rest v)
    unfolding run write_round
    by_pick (won (done k)) =
        let v = after_meddling w in
        let b = drop written bytes in
        by_count (min k (length b)) (omega (arith, length-drop written bytes))
          (record v { sent = v.sent ++ take (min k (length b)) b }) refl
    by_pick (won (failed e)) =
        gives_up (failed_after written (length bytes) e) (after_meddling w) refl
          (λ v' c. (refl, refl, c))
    by_pick (cancelled t) =
        let v = after_meddling w in
        deliver-if (Accounts bytes written w.sent) _ (cancelled t, v) rest v
          (λ _.
            no_more bytes written w (omega arith) (err (closed_after written (length bytes)), v)
              refl (refl, refl))
          (no_more bytes written w (omega arith) (waiting, v) refl tt)
    by_pick elapsed =
        let v = after_meddling w in
        deliver-if (Accounts bytes written w.sent) _ (elapsed, v) rest v
          (λ _. gives_up (timeout_after written (length bytes)) v refl (λ v' c. (refl, refl, c)))
          (no_more bytes written w (omega arith) (waiting, v) refl tt)
    by_pick gone = no_more bytes written w (omega arith) (dropped, after_meddling w) refl tt

  pub loop_accounts : (fuel : ℕ) → Goes fuel
  loop_accounts zero written w le enough =
      rw (loop_ends zero written w (omega arith))
        (no_more bytes written w le (ok tt, w) refl (omega arith))
  loop_accounts (suc fuel) written w le enough = elim (Bool-cases (ltb written (length bytes))) [
    | inl more ↦
        let lt : written < length bytes = ground arith in
        rw (loop_round fuel written w lt)
          (by_pick fuel written w lt enough (loop_accounts fuel) (w.script 0).pick)
    | inr done_all ↦
        rw (loop_ends (suc fuel) written w (ground arith))
          (no_more bytes written w le (ok tt, w) refl (ground arith))
  ]
