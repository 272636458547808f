-- ===== src/Python/Queue/Runs.antt =====
-- The rules about one call of a queue (crates/taunicorn-python/src/channel.rs), lifted to any
-- schedule of any number of calls.
use taunicorn.Prelude.{
  ℕ, ◌≡◌, refl, sym, subst, Bool, true, false, Option, none, some, List, [], ◌∷◌, ◌++◌, ◌==◌,
  ==_iff, if◌then◌else◌, arith,
}
use taunicorn.Python.Queue.{Channel, Reply, Task}
use taunicorn.Python.Queue.System
use taunicorn.Python.Queue.System.{
  Event, Move, step, abandon, Queue, System, advance, abandoned, move, run,
}
use taunicorn.Python.Queue.Fifo.{ChannelLaws}
use taunicorn.Python.Queue.Rules.{Obeys, extended, Goes}
use taunicorn.Python.Queue.Steps.{advance-Goes, abandoned-Goes}

module _ {A : Type 0} where
  -- What one call has put in and taken out.
  abbrev pub own : ℕ → List (ℕ × Event A) → List (Event A)
  own i [] = []
  own i ((j, e) ∷ h) = if j == i then e ∷ own i h else own i h

  own-append :
      (i j : ℕ) (e : Event A) (h : List (ℕ × Event A))
      → own j (h ++ (i, e) ∷ []) ≡ (if i == j then own j h ++ e ∷ [] else own j h)
  own-append i j e [] = ground arith
  own-append i j e ((k, d) ∷ h) = ground (arith, own-append i j e h)

  own-logged :
      (c : Channel A) (i j : ℕ) (o : Option (Event A)) (h : List (ℕ × Event A))
      → own j (System.logged c i o h)
        ≡ (if i == j then extended (λ b r log. Unit {0}) (own j h) o else own j h)
  own-logged c i j none h = ground arith
  own-logged c i j (some e) h = own-append i j e h

module _ {A : Type 0} (w : ℕ → Bool → Reply A → List (Event A) → Type 0) {c : Channel A}
    (l : ChannelLaws c) where
  -- A call that has come as far as its log and its rest say, at a token.
  pub record Fits (shutdown : Bool) (j : ℕ) (log : List (Event A)) (t : Task A) : Type 0 where
    pub knows : Bool
    pub rightly : knows ≡ true → shutdown ≡ true
    pub obeys : Obeys (w j) knows log t

  pub record Upholds (s : System c) : Type 0 where
    pub only : c.is_closed s.queue.channel ≡ true → s.queue.shutdown ≡ true
    pub each : (j : ℕ) → Fits s.queue.shutdown j (own j s.history) (s.tasks j)

  module _ (i : ℕ) (r : System.After c) (s : System c) (u : Upholds s)
      (goes : Goes (w i) l (own i s.history) s.queue r) where
    mine-Fits : Fits r.queue.shutdown i (extended (w i) (own i s.history) r.event) r.task
    mine-Fits = record { knows = goes.knows; rightly = goes.rightly; obeys = goes.obeys }

    other-Fits : (j : ℕ) → Fits r.queue.shutdown j (own j s.history) (s.tasks j)
    other-Fits j =
        let f = u.each j in
        record { knows = f.knows; rightly = λ e. goes.forever (f.rightly e); obeys = f.obeys }

    either-Fits :
        (j : ℕ) (b : Bool)
        → (i == j) ≡ b
        → Fits r.queue.shutdown j
            (if b then extended (w j) (own j s.history) r.event else own j s.history)
            (if b then r.task else s.tasks j)
    either-Fits j true e =
        subst (λ k. Fits r.queue.shutdown k (extended (w k) (own k s.history) r.event) r.task)
          ((==_iff i j).0 e) mine-Fits
    either-Fits j false e = other-Fits j

    settled-Fits :
        (j : ℕ)
        → let t = System.settle c i r s in Fits t.queue.shutdown j (own j t.history) (t.tasks j)
    settled-Fits j =
        subst (λ log. Fits r.queue.shutdown j log (if i == j then r.task else s.tasks j))
          (sym (own-logged c i j r.event s.history)) (either-Fits j (i == j) refl)

    settle-Upholds : Upholds (System.settle c i r s)
    settle-Upholds = record { only = goes.only; each = settled-Fits }

  pub move-Upholds : (m : Move) (s : System c) → Upholds s → Upholds (move c m s)
  unfolding move
  move-Upholds (step i) s u =
      let f = u.each i in
      settle-Upholds i (advance c i (s.tasks i) s.queue) s u (
        advance-Goes (w i) l i (own i s.history) s.queue u.only f.knows f.rightly (s.tasks i)
          f.obeys)
  move-Upholds (abandon i) s u =
      let f = u.each i in
      settle-Upholds i (abandoned c i (s.tasks i) s.queue) s u (
        abandoned-Goes (w i) l i (own i s.history) s.queue u.only f.knows f.rightly (s.tasks i)
          f.obeys)

  pub run-Upholds : (ms : List Move) (s : System c) → Upholds s → Upholds (run c ms s)
  unfolding run
  run-Upholds [] s u = u
  run-Upholds (m ∷ ms) s u = run-Upholds ms (move c m s) (move-Upholds m s u)
