-- ===== src/Connection/Together/Exclusive.antt =====
-- The writers' gate keeps the writes of concurrent calls apart (crates/taunicorn/src/lib.rs).
use taunicorn.Prelude.{
  ℕ, ◌≡◌, refl, sym, ◌∙◌, subst, Bool, true, false, inl, inr, Option, none, some, List, ◌∷◌, take,
  ◌==◌, ==_iff,
}
use taunicorn.Endpoint.{Io, done, failed}
use taunicorn.Connection.{ConnectionCore}
use taunicorn.Connection.Prog.{
  Gate, read_gate, write_gate, Select, Race, won, cancelled, elapsed, gone, Sync, Prog, atomic,
  lock, read, write, sync, set_gate,
}
use taunicorn.Connection.Exec.{is_held}
use taunicorn.Connection.Turns.{Turn}
use taunicorn.Connection.Closing.{Call, perform-Turn}
use taunicorn.Connection.Together.{
  Event, took, wrote, Tasks, go_on, is_lost, taken, written, Step, accesses, locks, leaves, reads,
  writes, syncs, Reach, here, next, Apart, untouched, takes, goes_on, calls_on,
}
use taunicorn.Connection.Together.Holder.{
  has, is_some, Wrote, IsExclusive, set-Turn, free-Turn, take-Turn, same_gate, freed_gate,
}

module _ (s : Tasks) (o : IsExclusive s) (i : ℕ) where
  -- A step that leaves the gate alone.
  goes :
      (t : Prog (Unit {0})) (core : ConnectionCore)
      → core.write_gate ≡ s.core.write_gate
      → Turn (has o.holder i) t
      → IsExclusive (go_on i t core s.log s)
  goes t core e h = record {
    holder = o.holder;
    gate = e ∙ o.gate;
    turns = set-Turn o.holder s.tasks i t o.turns h;
    apart = o.apart;
  }

  at_task : (t : Prog (Unit {0})) → s.tasks i ≡ t → Turn (has o.holder i) t
  at_task t e = subst (λ x. Turn (has o.holder i) x) e (o.turns i)

  back : (b : Bool) (t : Prog (Unit {0})) → has o.holder i ≡ b → Turn b t → Turn (has o.holder i) t
  back b t e h = subst (λ x. Turn x t) (sym e) h

  forth : (b : Bool) (t : Prog (Unit {0})) → s.tasks i ≡ t → has o.holder i ≡ b → Turn b t
  forth b t e f = subst (λ x. Turn x t) f (at_task t e)

  -- A step that frees it.
  lets_go :
      (t : Prog (Unit {0})) (core : ConnectionCore) (holder : Option ℕ)
      → has holder i ≡ true
      → ((j : ℕ) → Turn (has holder j) (s.tasks j))
      → Wrote holder s.log
      → core.write_gate ≡ false
      → Turn false t
      → IsExclusive (go_on i t core s.log s)
  lets_go t core none e turns apart f h = cc
  lets_go t core (some n) e turns apart f h = record {
    holder = none;
    gate = f;
    turns =
        free-Turn s.tasks i t
          (subst (λ m. (j : ℕ) → Turn (m == j) (s.tasks j)) ((==_iff n i).0 e) turns) h;
    apart = (some n, apart);
  }

  accessed :
      (f : ConnectionCore → ConnectionCore) (k : ConnectionCore → Prog (Unit {0})) (b : Bool)
      → has o.holder i ≡ b
      → Turn b (atomic f k)
      → IsExclusive (go_on i (k s.core) (f s.core) s.log s)
  accessed f k false e (h, t) =
      goes (k s.core) (f s.core) (same_gate s.core (f s.core) (h s.core))
        (back false (k s.core) e (t s.core))
  accessed f k true e (inl (h, t)) =
      goes (k s.core) (f s.core) (same_gate s.core (f s.core) (h s.core))
        (back true (k s.core) e (t s.core))
  accessed f k true e (inr (h, t)) =
      lets_go (k s.core) (f s.core) o.holder e o.turns o.apart
        (freed_gate s.core (f s.core) (h s.core)) (t s.core)

  -- The gate of the writers is free, so no task has it.
  takes_it :
      (t : Prog (Unit {0})) (holder : Option ℕ)
      → s.core.write_gate ≡ is_some holder
      → s.core.write_gate ≡ false
      → ((j : ℕ) → Turn (has holder j) (s.tasks j))
      → Wrote holder s.log
      → Turn true t
      → IsExclusive (go_on i t (set_gate write_gate true s.core) (took i ∷ s.log) s)
  takes_it t (some n) e f turns apart h = absurd (let g : true ≡ false = sym e ∙ f in cc)
  takes_it t none e f turns (last, apart) h = record {
    holder = some i;
    gate = refl;
    turns = take-Turn s.tasks i t turns h;
    apart = takes i apart;
  }

  locked :
      (g : Gate) (q : Select) (k : Race (Unit {0}) → Prog (Unit {0})) (b : Bool)
      → has o.holder i ≡ b
      → Turn b (lock g q k)
      → is_held g s.core ≡ false
      → IsExclusive (go_on i (k (won tt)) (set_gate g true s.core) (taken g i s.log) s)
  locked read_gate q k false e h f =
      goes (k (won tt)) (set_gate read_gate true s.core) refl
        (back false (k (won tt)) e (h (won tt)))
  locked read_gate q k true e h f = absurd h
  locked write_gate q k false e (h, t, d, g) f =
      takes_it (k (won tt)) o.holder o.gate f o.turns o.apart h
  locked write_gate q k true e h f = absurd h

  left :
      (g : Gate) (q : Select) (k : Race (Unit {0}) → Prog (Unit {0})) (x : Race (Unit {0}))
      (b : Bool)
      → has o.holder i ≡ b
      → Turn b (lock g q k)
      → is_lost x ≡ true
      → IsExclusive (go_on i (k x) s.core s.log s)
  left read_gate q k x false e h f = goes (k x) s.core refl (back false (k x) e (h x))
  left write_gate q k (cancelled y) false e (h, t, d, g) f =
      goes (k (cancelled y)) s.core refl (back false (k (cancelled y)) e (t y))
  left write_gate q k elapsed false e (h, t, d, g) f =
      goes (k elapsed) s.core refl (back false (k elapsed) e d)
  left write_gate q k gone false e (h, t, d, g) f =
      goes (k gone) s.core refl (back false (k gone) e g)
  left write_gate q k (won y) false e h f = cc
  left read_gate q k x true e h f = absurd h
  left write_gate q k x true e h f = absurd h

  has_read :
      (n : ℕ) (q : Select) (k : Race (Io (List ℕ)) → Prog (Unit {0})) (x : Race (Io (List ℕ)))
      (b : Bool)
      → has o.holder i ≡ b
      → Turn b (read n q k)
      → IsExclusive (go_on i (k x) s.core s.log s)
  has_read n q k x false e h = goes (k x) s.core refl (back false (k x) e (h x))
  has_read n q k x true e h = goes (k x) s.core refl (back true (k x) e (h x))

  -- The log of a write, by the task that has the gate.
  apart_written :
      (holder : Option ℕ) (bytes : List ℕ) (x : Race (Io ℕ))
      → has holder i ≡ true
      → Wrote holder s.log
      → Wrote holder (written i bytes x s.log)
  apart_written none bytes x e a = cc
  apart_written (some n) bytes (won (done m)) e a =
      subst (λ h. Apart (wrote i (take m bytes) ∷ s.log) (some h)) (sym ((==_iff n i).0 e))
        (goes_on i (take m bytes) (subst (λ h. Apart s.log (some h)) ((==_iff n i).0 e) a))
  apart_written (some n) bytes (won (failed d)) e a = a
  apart_written (some n) bytes (cancelled t) e a = a
  apart_written (some n) bytes elapsed e a = a
  apart_written (some n) bytes gone e a = a

  has_written :
      (bytes : List ℕ) (q : Select) (k : Race (Io ℕ) → Prog (Unit {0})) (x : Race (Io ℕ)) (b : Bool)
      → has o.holder i ≡ b
      → Turn b (write bytes q k)
      → IsExclusive (go_on i (k x) s.core (written i bytes x s.log) s)
  has_written bytes q k x false e h = absurd h
  has_written bytes q k x true e h = record {
    holder = o.holder;
    gate = o.gate;
    turns = set-Turn o.holder s.tasks i (k x) o.turns (back true (k x) e (h x));
    apart = apart_written o.holder bytes x e o.apart;
  }

  synced :
      (y : Sync) (q : Select) (k : Race (Io (Unit {0})) → Prog (Unit {0}))
      (x : Race (Io (Unit {0}))) (b : Bool)
      → has o.holder i ≡ b
      → Turn b (sync y q k)
      → IsExclusive (go_on i (k x) s.core s.log s)
  synced y q k x false e h = absurd h
  synced y q k x true e h = goes (k x) s.core refl (back true (k x) e (h x))

Step-IsExclusive : {s u : Tasks} → Step s u → IsExclusive s → IsExclusive u
Step-IsExclusive (accesses s i f k e) o =
    accessed s o i f k (has o.holder i) refl (at_task s o i (atomic f k) e)
Step-IsExclusive (locks s i g q k e f) o =
    locked s o i g q k (has o.holder i) refl (at_task s o i (lock g q k) e) f
Step-IsExclusive (leaves s i g q k x e f) o =
    left s o i g q k x (has o.holder i) refl (at_task s o i (lock g q k) e) f
Step-IsExclusive (reads s i n q k x e) o =
    has_read s o i n q k x (has o.holder i) refl (at_task s o i (read n q k) e)
Step-IsExclusive (writes s i b q k x e) o =
    has_written s o i b q k x (has o.holder i) refl (at_task s o i (write b q k) e)
Step-IsExclusive (syncs s i y q k x e) o =
    synced s o i y q k x (has o.holder i) refl (at_task s o i (sync y q k) e)

Reach-IsExclusive : {s u : Tasks} → IsExclusive s → Reach s u → IsExclusive u
Reach-IsExclusive o here = o
Reach-IsExclusive o (next r step) = Step-IsExclusive step (Reach-IsExclusive o r)

last_of :
    (holder : Option ℕ) (log : List Event) → Wrote holder log → (last : Option ℕ) × Apart log last
last_of none log a = a
last_of (some h) log a = (some h, a)

-- Any number of calls of any kind on one connection whose writers' gate is free, interleaved one
-- atomic access at a time, whose awaits end in any way: every write of bytes is by the call that was
-- the last to take the gate, so that no bytes of another call come between two writes under one guard.
pub writes-Apart :
    (core : ConnectionCore) (calls : ℕ → Call) (u : Tasks)
    → core.write_gate ≡ false
    → Reach (calls_on core calls) u
    → (last : Option ℕ) × Apart u.log last
writes-Apart core calls u free r =
    let o =
      Reach-IsExclusive
        (record {
          holder = none;
          gate = free;
          turns = λ i. perform-Turn (calls i);
          apart = (none, untouched);
        })
        r in
    last_of o.holder u.log o.apart
