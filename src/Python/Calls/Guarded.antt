-- ===== src/Python/Calls/Guarded.antt =====
-- What the guards of crates/taunicorn-python/src/lib.rs do to a connection whose write did not end
-- with `Ok`.
use taunicorn.Prelude.{
  ℕ, suc, ◌≡◌, refl, sym, ◌∙◌, ap, subst, Bool, true, false, Option, none, some, List, is_empty,
  arith,
}
use taunicorn.Outcome.{Outcome, ok, err, dropped, waiting, fuel_out, connection_is_paused}
use taunicorn.Connection.Prog.{Prog, ret, atomic, lock, read, write, sync}
use taunicorn.Connection.Calls
use taunicorn.Connection.Exec.{
  World, after_meddling, answer, finish_lock, finish_read, finish_write, finish_sync, deliver, run,
}
use taunicorn.Connection.Keeping.{
  Obeys, Fine, answer-Fine, finish_lock-Fine, finish_read-Fine, finish_write-Fine, finish_sync-Fine,
}
use taunicorn.Connection.Closing.{close_closes}
use taunicorn.Python.Calls.{regardless, unless_completed, send, write_some, write_all_timeout}

-- The spawned task, after the call.
abbrev spawned : {A : Type 0} → Prog (Unit {0}) → Outcome A × World → Outcome A × World
spawned task (ok a, w) = (ok a, w)
spawned task (err e, w) = run (regardless task (err e)) w
spawned task (dropped, w) = run (regardless task dropped) w
spawned task (waiting, w) = (waiting, w)
spawned task (fuel_out, w) = (fuel_out, w)

module _ {A : Type 0} (task : Prog (Unit {0})) where
  deliver-spawned :
      {X : Type 0} (o : Option (X × World)) (go : X → World → Outcome A × World) (w : World)
      → deliver o (λ x v. spawned task (go x v)) w ≡ spawned task (deliver o go w)
  deliver-spawned none go w = refl
  deliver-spawned (some (x, v)) go w = refl

  run-unless_completed :
      (m : Prog A) (w : World) → run (unless_completed task m) w ≡ spawned task (run m w)
  unfolding run unless_completed
  run-unless_completed (ret (ok a)) w = refl
  run-unless_completed (ret (err e)) w = refl
  run-unless_completed (ret dropped) w = refl
  run-unless_completed (ret waiting) w = refl
  run-unless_completed (ret fuel_out) w = refl
  run-unless_completed (atomic f k) w =
      run-unless_completed (k w.core) (record w { core = f w.core })
  run-unless_completed (lock g q k) w =
      let v = after_meddling w in
      let o = answer q v (finish_lock g v) (w.script 0).pick in
      (λ i. deliver o (λ x u. run-unless_completed (k x) u i) v)
      ∙ deliver-spawned o (λ x. run (k x)) v
  run-unless_completed (read n q k) w =
      let v = after_meddling w in
      let o = answer q v (finish_read n v) (w.script 0).pick in
      (λ i. deliver o (λ x u. run-unless_completed (k x) u i) v)
      ∙ deliver-spawned o (λ x. run (k x)) v
  run-unless_completed (write b q k) w =
      let v = after_meddling w in
      let o = answer q v (finish_write b v) (w.script 0).pick in
      (λ i. deliver o (λ x u. run-unless_completed (k x) u i) v)
      ∙ deliver-spawned o (λ x. run (k x)) v
  run-unless_completed (sync y q k) w =
      let v = after_meddling w in
      let o = answer q v (finish_sync v) (w.script 0).pick in
      (λ i. deliver o (λ x u. run-unless_completed (k x) u i) v)
      ∙ deliver-spawned o (λ x. run (k x)) v

-- The task changes the world as it does alone.
deliver-world :
    {X A B : Type 0} (o : Option (X × World)) (go : X → World → Outcome A × World)
    (go' : X → World → Outcome B × World) (w : World)
    → ((x : X) (v : World) → (go x v).1 ≡ (go' x v).1)
    → (deliver o go w).1 ≡ (deliver o go' w).1
deliver-world none go go' w h = refl
deliver-world (some (x, v)) go go' w h = h x v

run-regardless :
    {A : Type 0} (task : Prog (Unit {0})) (r : Outcome A) (w : World)
    → (run (regardless task r) w).1 ≡ (run task w).1
unfolding run regardless
run-regardless (ret x) r w = refl
run-regardless (atomic f k) r w = run-regardless (k w.core) r (record w { core = f w.core })
run-regardless (lock g q k) r w =
    let v = after_meddling w in
    deliver-world (answer q v (finish_lock g v) (w.script 0).pick) (λ x. run (regardless (k x) r))
      (λ x. run (k x)) v (λ x u. run-regardless (k x) r u)
run-regardless (read n q k) r w =
    let v = after_meddling w in
    deliver-world (answer q v (finish_read n v) (w.script 0).pick) (λ x. run (regardless (k x) r))
      (λ x. run (k x)) v (λ x u. run-regardless (k x) r u)
run-regardless (write b q k) r w =
    let v = after_meddling w in
    deliver-world (answer q v (finish_write b v) (w.script 0).pick) (λ x. run (regardless (k x) r))
      (λ x. run (k x)) v (λ x u. run-regardless (k x) r u)
run-regardless (sync y q k) r w =
    let v = after_meddling w in
    deliver-world (answer q v (finish_sync v) (w.script 0).pick) (λ x. run (regardless (k x) r))
      (λ x. run (k x)) v (λ x u. run-regardless (k x) r u)

-- The other calls obey as long as they did.
module _ {X A : Type 0} (w : World) (obeys : Obeys w.script) (go : X → World → Outcome A × World)
    (rest : (x : X) (v : World) → Obeys v.script → Obeys (go x v).1.script) where
  delivered-Obeys :
      (o : Option (X × World))
      → Fine (after_meddling w) o
      → Obeys (deliver o go (after_meddling w)).1.script
  delivered-Obeys none f = λ n. obeys (suc n)
  delivered-Obeys (some (x, v)) (f, same) = rest x v (subst Obeys (sym same) (λ n. obeys (suc n)))

run-Obeys : {A : Type 0} (m : Prog A) (w : World) → Obeys w.script → Obeys (run m w).1.script
unfolding run
run-Obeys (ret r) w o = o
run-Obeys (atomic f k) w o = run-Obeys (k w.core) (record w { core = f w.core }) o
run-Obeys (lock g q k) w o =
    let v = after_meddling w in
    delivered-Obeys w o (λ x. run (k x)) (λ x u p. run-Obeys (k x) u p)
      (answer q v (finish_lock g v) (w.script 0).pick)
      (answer-Fine q v (finish_lock g v) (finish_lock-Fine g v) (w.script 0).pick)
run-Obeys (read n q k) w o =
    let v = after_meddling w in
    delivered-Obeys w o (λ x. run (k x)) (λ x u p. run-Obeys (k x) u p)
      (answer q v (finish_read n v) (w.script 0).pick)
      (answer-Fine q v (finish_read n v) (finish_read-Fine n v) (w.script 0).pick)
run-Obeys (write b q k) w o =
    let v = after_meddling w in
    delivered-Obeys w o (λ x. run (k x)) (λ x u p. run-Obeys (k x) u p)
      (answer q v (finish_write b v) (w.script 0).pick)
      (answer-Fine q v (finish_write b v) (finish_write-Fine b v) (w.script 0).pick)
run-Obeys (sync y q k) w o =
    let v = after_meddling w in
    delivered-Obeys w o (λ x. run (k x)) (λ x u p. run-Obeys (k x) u p)
      (answer q v (finish_sync v) (w.script 0).pick)
      (answer-Fine q v (finish_sync v) (finish_sync-Fine v) (w.script 0).pick)

abbrev pub is_failure : {A : Type 0} → Outcome A → Bool
is_failure (ok a) = false
is_failure (err e) = true
is_failure dropped = true
is_failure waiting = false
is_failure fuel_out = false

-- Whether a connection is closed, in both directions.
abbrev pub IsShut : World → Type 0
IsShut w = (w.core.closed ≡ true) × (w.core.read_shutdown ≡ true) × (w.core.write_shutdown ≡ true)

close-IsShut :
    {A : Type 0} (r : Outcome A) (w : World)
    → Obeys w.script
    → IsShut (run (regardless Calls.close r) w).1
close-IsShut r w o = subst IsShut (sym (run-regardless Calls.close r w)) (close_closes w o)

spawned-IsShut :
    {A : Type 0} (r : Outcome A × World)
    → Obeys r.1.script
    → is_failure r.0 ≡ true
    → IsShut (spawned Calls.close r).1
spawned-IsShut (ok a, w) o e = cc
spawned-IsShut (err x, w) o e = close-IsShut (err x) w o
spawned-IsShut (dropped, w) o e = close-IsShut dropped w o
spawned-IsShut (waiting, w) o e = cc
spawned-IsShut (fuel_out, w) o e = cc

-- A call under the guard, on whose connection the other calls take back nothing terminal: if the call
-- itself ends with an error or its future is dropped, the connection is closed in both directions
-- when the guard's task has come to its end or to its wait.
pub guard_closes :
    {A : Type 0} (m : Prog A) (w : World)
    → Obeys w.script
    → is_failure (run m w).0 ≡ true
    → IsShut (run (unless_completed Calls.close m) w).1
guard_closes m w o e =
    subst (λ r. IsShut r.1) (sym (run-unless_completed Calls.close m w))
      (spawned-IsShut (run m w) (run-Obeys m w o) e)

paused_refuses :
    (bytes : List ℕ) (w : World)
    → w.core.closed ≡ false
    → w.core.paused ≡ true
    → is_empty bytes ≡ false
    → (run (Calls.send bytes) w ≡ (err connection_is_paused, w))
      × (run (Calls.send_timeout bytes) w ≡ (err connection_is_paused, w))
      × (run (Calls.write_once bytes) w ≡ (err connection_is_paused, w))
unfolding run Calls.send Calls.send_timeout Calls.write_once Calls.ensure_write_available
paused_refuses bytes w c p e = (ground arith, ground arith, ground arith)

-- A write with bytes on a connection that is open and paused, on which the other calls take back
-- nothing terminal: the core refuses it and touches nothing, so that the connection could be resumed;
-- but the guard then closes the connection for good.
pub paused_write_closes :
    (bytes : List ℕ) (w : World)
    → Obeys w.script
    → w.core.closed ≡ false
    → w.core.paused ≡ true
    → is_empty bytes ≡ false
    → (run (Calls.send bytes) w ≡ (err connection_is_paused, w))
      × IsShut (run (send bytes) w).1
      × IsShut (run (write_all_timeout bytes) w).1
      × IsShut (run (write_some bytes) w).1
unfolding send write_all_timeout write_some
paused_write_closes bytes w o c p e =
    let r = paused_refuses bytes w c p e in
    (
      r.0,
      guard_closes (Calls.send bytes) w o (ap (λ x. is_failure x.0) r.0),
      guard_closes (Calls.send_timeout bytes) w o (ap (λ x. is_failure x.0) r.1),
      guard_closes (Calls.write_once bytes) w o (ap (λ x. is_failure x.0) r.2),
    )
