-- ===== src/Connection/Keeping.antt =====
-- What no call of a connection (crates/taunicorn/src/lib.rs) takes back, in any interleaving.
use taunicorn.Prelude.{
  ℕ, suc, ◌≡◌, refl, sym, subst, Bool, true, false, not, ◌||◌, ◌&&◌, Option, none, some, List, [],
  take, drop, ◌==◌, if◌then◌else◌, arith, is_empty,
}
use taunicorn.Outcome.{Outcome}
use taunicorn.Endpoint.{Io, done, failed}
use taunicorn.Connection.{ConnectionCore}
use taunicorn.Connection.Prog.{
  Gate, read_gate, write_gate, Select, Race, won, cancelled, elapsed, gone, Prog, ret, atomic, lock,
  read, write, sync, set_gate,
}
use Prim.Native.Nat.{min}
use taunicorn.Connection.Exec.{
  is_ready, is_held, Event, World, after_meddling, answer, finish_lock, finish_read, finish_write,
  finish_sync, deliver, run,
}

abbrev implies : Bool → Bool → Bool
implies a b = not a || b

abbrev pub is_none : Option ℕ → Bool
is_none none = true
is_none (some _) = false

-- The terminal flags, the cancelled tokens and the release of the stream.
abbrev pub is_kept : ConnectionCore → ConnectionCore → Bool
is_kept s t =
    implies s.closed t.closed
    && implies s.read_shutdown t.read_shutdown
    && implies s.write_shutdown t.write_shutdown
    && implies s.peer_sent_eof t.peer_sent_eof
    && implies s.close_token t.close_token
    && implies s.read_shutdown_token t.read_shutdown_token
    && implies (is_none s.stream) (is_none t.stream)

-- Every step of a call keeps these, in whatever state it comes and however its awaits end.
abbrev pub Keeps : {A : Type 0} → Prog A → Type 0
Keeps (ret r) = Unit
Keeps (atomic f k) =
    ((s : ConnectionCore) → is_kept s (f s) ≡ true) × ((s : ConnectionCore) → Keeps (k s))
Keeps (lock g q k) = (x : Race (Unit {0})) → Keeps (k x)
Keeps (read n q k) = (x : Race (Io (List ℕ))) → Keeps (k x)
Keeps (write b q k) = (x : Race (Io ℕ)) → Keeps (k x)
Keeps (sync y q k) = (x : Race (Io (Unit {0}))) → Keeps (k x)

kept_refl : (s : ConnectionCore) → is_kept s s ≡ true
kept_refl s = ground arith

kept_trans : (s t u : ConnectionCore) → is_kept s t ≡ true → is_kept t u ≡ true → is_kept s u ≡ true
kept_trans s t u h k = ground arith

kept_taken : (g : Gate) (s : ConnectionCore) → is_kept s (set_gate g true s) ≡ true
kept_taken read_gate s = ground arith
kept_taken write_gate s = ground arith

-- How an answer leaves the terminal state.
module _ {X : Type 0} (w : World) where
  abbrev pub Fine : Option (X × World) → Type 0
  Fine none = Unit
  Fine (some (x, v)) = (is_kept w.core v.core ≡ true) × (v.script ≡ w.script)

  fine_if : (b : Bool) (x : X) → Fine (if b then some (x, w) else none)
  fine_if true x = (kept_refl w.core, refl)
  fine_if false x = tt

module _ {A : Type 0} (q : Select) (w : World) (finish : Io ℕ → Option (Race A × World))
    (h : (x : Io ℕ) → Fine w (finish x)) where
  pub answer-Fine : (x : Race (Io ℕ)) → Fine w (answer q w finish x)
  answer-Fine (won x) = h x
  answer-Fine (cancelled t) = fine_if w (is_ready q w.core t) (cancelled t)
  answer-Fine elapsed = fine_if w q.on_deadline elapsed
  answer-Fine gone = (kept_refl w.core, refl)

pub finish_lock-Fine : (g : Gate) (w : World) (x : Io ℕ) → Fine w (finish_lock g w x)
finish_lock-Fine g w x = go (not (is_held g w.core))
  where
    go :
        (b : Bool)
        → Fine {X = Race (Unit {0})} w
            (if b then some (won tt, record w { core = set_gate g true w.core }) else none)
    go true = (kept_taken g w.core, refl)
    go false = tt

pub finish_read-Fine : (n : ℕ) (w : World) (x : Io ℕ) → Fine w (finish_read n w x)
finish_read-Fine n w (failed e) = (kept_refl w.core, refl)
finish_read-Fine n w (done k) = go (is_empty w.inbound) (0 == min k n)
  where
    go :
        (b c : Bool)
        → Fine {X = Race (Io (List ℕ))} w (
            if b
            then (if w.peer_finished then some (won (done []), w) else none)
            else if c
            then none
            else some (
              won (done (take (min k n) w.inbound)),
              record w { inbound = drop (min k n) w.inbound },
            ))
    go true c = fine_if w w.peer_finished (won (done []))
    go false true = tt
    go false false = (kept_refl w.core, refl)

pub finish_write-Fine : (b : List ℕ) (w : World) (x : Io ℕ) → Fine w (finish_write b w x)
finish_write-Fine b w (failed e) = (kept_refl w.core, refl)
finish_write-Fine b w (done k) = (kept_refl w.core, refl)

pub finish_sync-Fine : (w : World) (x : Io ℕ) → Fine w (finish_sync w x)
finish_sync-Fine w (failed e) = (kept_refl w.core, refl)
finish_sync-Fine w (done k) = (kept_refl w.core, refl)

-- The others keep the terminal state at every await.
abbrev pub Obeys : (ℕ → Event) → Type 0
Obeys script = (n : ℕ) (s : ConnectionCore) → is_kept s ((script n).meddle s) ≡ true

-- An await whose answer keeps the state, before a rest that does.
module _ {X A : Type 0} (w : World) (obeys : Obeys w.script) (go : X → World → Outcome A × World)
    (rest : (x : X) (v : World) → Obeys v.script → is_kept v.core (go x v).1.core ≡ true) where
  awaited :
      (o : Option (X × World))
      → Fine (after_meddling w) o
      → is_kept w.core (deliver o go (after_meddling w)).1.core ≡ true
  awaited none f = obeys 0 w.core
  awaited (some (x, v)) (f, same) =
      kept_trans w.core (after_meddling w).core (go x v).1.core (obeys 0 w.core) (
        kept_trans (after_meddling w).core v.core (go x v).1.core f
          (rest x v (subst Obeys (sym same) (λ n. obeys (suc n)))))

-- A call whose steps keep the terminal state, among others that do, keeps it as a whole.
pub run-Keeps :
    {A : Type 0} (m : Prog A) (w : World)
    → Obeys w.script
    → Keeps m
    → is_kept w.core (run m w).1.core ≡ true
unfolding run
run-Keeps (ret r) w obeys h = kept_refl w.core
run-Keeps (atomic f k) w obeys (h, t) =
    kept_trans w.core (f w.core) (run (atomic f k) w).1.core (h w.core)
      (run-Keeps (k w.core) (record w { core = f w.core }) obeys (t w.core))
run-Keeps (lock g q k) w obeys h =
    let v = after_meddling w in
    awaited w obeys (λ x. run (k x)) (λ x u o. run-Keeps (k x) u o (h x))
      (answer q v (finish_lock g v) (w.script 0).pick)
      (answer-Fine q v (finish_lock g v) (finish_lock-Fine g v) (w.script 0).pick)
run-Keeps (read n q k) w obeys h =
    let v = after_meddling w in
    awaited w obeys (λ x. run (k x)) (λ x u o. run-Keeps (k x) u o (h x))
      (answer q v (finish_read n v) (w.script 0).pick)
      (answer-Fine q v (finish_read n v) (finish_read-Fine n v) (w.script 0).pick)
run-Keeps (write b q k) w obeys h =
    let v = after_meddling w in
    awaited w obeys (λ x. run (k x)) (λ x u o. run-Keeps (k x) u o (h x))
      (answer q v (finish_write b v) (w.script 0).pick)
      (answer-Fine q v (finish_write b v) (finish_write-Fine b v) (w.script 0).pick)
run-Keeps (sync y q k) w obeys h =
    let v = after_meddling w in
    awaited w obeys (λ x. run (k x)) (λ x u o. run-Keeps (k x) u o (h x))
      (answer q v (finish_sync v) (w.script 0).pick)
      (answer-Fine q v (finish_sync v) (finish_sync-Fine v) (w.script 0).pick)
