-- ===== src/Connection/Exec/Rounds.antt =====
-- How `run` goes through a sequence of steps and through a function that holds a guard.
use taunicorn.Prelude.{
  ◌≡◌, refl, ◌∙◌, Bool, true, false, if◌then◌else◌, Option, none, some, List, ℕ,
}
use taunicorn.Outcome.{Outcome, ok, err, dropped, waiting, fuel_out}
use taunicorn.Outcome.Action.{continue}
use taunicorn.Connection.{ConnectionState}
use taunicorn.Connection.Prog.{
  Gate, read_gate, write_gate, Prog, ret, atomic, lock, read, write, sync, ◌>>=◌, holding,
}
use taunicorn.Connection.Exec.{
  World, after_meddling, answer, finish_lock, finish_read, finish_write, finish_sync, deliver, run,
}

module _ {X A B : Type 0} where
  deliver-continue :
      (o : Option (X × World)) (go : X → World → Outcome A × World)
      (h : A → World → Outcome B × World) (w : World)
      → deliver o (λ x v. continue (go x v).0 h (go x v).1) w
        ≡ continue (deliver o go w).0 h (deliver o go w).1
  deliver-continue none go h w = refl
  deliver-continue (some (x, v)) go h w = refl

-- An answer that a test allows.
pub deliver-if :
    {X A : Type 0} (P : Outcome A × World → Type 0) (b : Bool) (y : X × World)
    (go : X → World → Outcome A × World) (w : World)
    → (b ≡ true → P (go y.0 y.1))
    → P (waiting, w)
    → P (deliver (if b then some y else none) go w)
deliver-if P true y go w yes' no' = yes' refl
deliver-if P false y go w yes' no' = no'

-- A bind runs the first part, and then the second where the first has a value.
pub run-bind :
    {A B : Type 0} (p : Prog A) (f : A → Prog B) (w : World)
    → run (p >>= f) w ≡ continue (run p w).0 (λ a. run (f a)) (run p w).1
unfolding run
run-bind (ret (ok a)) f w = refl
run-bind (ret (err e)) f w = refl
run-bind (ret dropped) f w = refl
run-bind (ret waiting) f w = refl
run-bind (ret fuel_out) f w = refl
run-bind (atomic g k) f w = run-bind (k w.core) f (record w { core = g w.core })
run-bind (lock g q k) f w =
    let v = after_meddling w in
    let o = answer q v (finish_lock g v) (w.script 0).pick in
    (λ i. deliver o (λ x u. run-bind (k x) f u i) v)
    ∙ deliver-continue o (λ x. run (k x)) (λ a. run (f a)) v
run-bind (read n q k) f w =
    let v = after_meddling w in
    let o = answer q v (finish_read n v) (w.script 0).pick in
    (λ i. deliver o (λ x u. run-bind (k x) f u i) v)
    ∙ deliver-continue o (λ x. run (k x)) (λ a. run (f a)) v
run-bind (write b q k) f w =
    let v = after_meddling w in
    let o = answer q v (finish_write b v) (w.script 0).pick in
    (λ i. deliver o (λ x u. run-bind (k x) f u i) v)
    ∙ deliver-continue o (λ x. run (k x)) (λ a. run (f a)) v
run-bind (sync y q k) f w =
    let v = after_meddling w in
    let o = answer q v (finish_sync v) (w.script 0).pick in
    (λ i. deliver o (λ x u. run-bind (k x) f u i) v)
    ∙ deliver-continue o (λ x. run (k x)) (λ a. run (f a)) v

-- What a result and a world are but for the gates.
pub record Ungated (A : Type 0) : Type 0 where
  pub outcome : Outcome A
  pub state : ConnectionState
  pub stream : Option ℕ
  pub close_token : Bool
  pub read_shutdown_token : Bool
  pub sent : List ℕ
  pub inbound : List ℕ
  pub peer_finished : Bool

abbrev pub ungated : {A : Type 0} → Outcome A × World → Ungated A
ungated (r, w) = record {
  outcome = r;
  state = w.core.state;
  stream = w.core.stream;
  close_token = w.core.close_token;
  read_shutdown_token = w.core.read_shutdown_token;
  sent = w.sent;
  inbound = w.inbound;
  peer_finished = w.peer_finished;
}

delivered :
    {X A : Type 0} (o : Option (X × World)) (go go' : X → World → Outcome A × World) (w : World)
    → ((x : X) (v : World) → ungated (go x v) ≡ ungated (go' x v))
    → ungated (deliver o go w) ≡ ungated (deliver o go' w)
delivered none go go' w h = refl
delivered (some (x, v)) go go' w h = h x v

-- A guard that is dropped at the end changes nothing but its gate.
pub ungated-holding :
    {A : Type 0} (g : Gate) (p : Prog A) (w : World)
    → ungated (run (holding g p) w) ≡ ungated (run p w)
unfolding run
ungated-holding read_gate (ret r) w = refl
ungated-holding write_gate (ret r) w = refl
ungated-holding g (atomic f k) w = ungated-holding g (k w.core) (record w { core = f w.core })
ungated-holding g (lock h q k) w =
    let v = after_meddling w in
    delivered (answer q v (finish_lock h v) (w.script 0).pick) (λ x. run (holding g (k x)))
      (λ x. run (k x)) v (λ x u. ungated-holding g (k x) u)
ungated-holding g (read n q k) w =
    let v = after_meddling w in
    delivered (answer q v (finish_read n v) (w.script 0).pick) (λ x. run (holding g (k x)))
      (λ x. run (k x)) v (λ x u. ungated-holding g (k x) u)
ungated-holding g (write b q k) w =
    let v = after_meddling w in
    delivered (answer q v (finish_write b v) (w.script 0).pick) (λ x. run (holding g (k x)))
      (λ x. run (k x)) v (λ x u. ungated-holding g (k x) u)
ungated-holding g (sync y q k) w =
    let v = after_meddling w in
    delivered (answer q v (finish_sync v) (w.script 0).pick) (λ x. run (holding g (k x)))
      (λ x. run (k x)) v (λ x u. ungated-holding g (k x) u)
