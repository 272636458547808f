-- ===== src/Connection/Together/Holder.antt =====
-- The call that holds the writers' gate of a connection (crates/taunicorn/src/lib.rs).
use taunicorn.Prelude.{
  ℕ, ◌≡◌, refl, subst, Bool, true, false, Option, none, some, List, ◌==◌, ==_iff, if◌then◌else◌,
  arith,
}
use taunicorn.Connection.{ConnectionCore}
use taunicorn.Connection.Prog.{Prog}
use taunicorn.Connection.Calm.{is_calm}
use taunicorn.Connection.Turns.{Turn, frees}
use taunicorn.Connection.Together.{Event, Tasks, Apart}

abbrev pub has : Option ℕ → ℕ → Bool
has none i = false
has (some h) i = h == i

abbrev pub is_some : Option ℕ → Bool
is_some none = false
is_some (some h) = true

abbrev pub Wrote : Option ℕ → List Event → Type 0
Wrote none log = (last : Option ℕ) × Apart log last
Wrote (some h) log = Apart log (some h)

-- One task at most has the gate, and only it is inside its guard.
pub record IsExclusive (s : Tasks) : Type 0 where
  pub holder : Option ℕ
  pub gate : s.core.write_gate ≡ is_some holder
  pub turns : (i : ℕ) → Turn (has holder i) (s.tasks i)
  pub apart : Wrote holder s.log

module _ (holder : Option ℕ) (tasks : ℕ → Prog (Unit {0})) (i : ℕ) (t : Prog (Unit {0})) where
  pub set-Turn :
      ((j : ℕ) → Turn (has holder j) (tasks j))
      → Turn (has holder i) t
      → (j : ℕ) → Turn (has holder j) (if i == j then t else tasks j)
  set-Turn h new j = go (i == j) refl
    where
      go : (b : Bool) → (i == j) ≡ b → Turn (has holder j) (if b then t else tasks j)
      go true e = subst (λ n. Turn (has holder n) t) ((==_iff i j).0 e) new
      go false e = h j

-- The task frees the gate.
pub free-Turn :
    (tasks : ℕ → Prog (Unit {0})) (i : ℕ) (t : Prog (Unit {0}))
    → ((j : ℕ) → Turn (i == j) (tasks j))
    → Turn false t
    → (j : ℕ) → Turn false (if i == j then t else tasks j)
free-Turn tasks i t h new j = go (i == j) refl
  where
    go : (b : Bool) → (i == j) ≡ b → Turn false (if b then t else tasks j)
    go true e = new
    go false e = subst (λ b. Turn b (tasks j)) e (h j)

-- The task takes the gate.
pub take-Turn :
    (tasks : ℕ → Prog (Unit {0})) (i : ℕ) (t : Prog (Unit {0}))
    → ((j : ℕ) → Turn false (tasks j))
    → Turn true t
    → (j : ℕ) → Turn (i == j) (if i == j then t else tasks j)
take-Turn tasks i t h new j = go (i == j)
  where
    go : (b : Bool) → Turn b (if b then t else tasks j)
    go true = new
    go false = h j

pub same_gate : (s t : ConnectionCore) → is_calm s t ≡ true → t.write_gate ≡ s.write_gate
same_gate s t h = ground arith

pub freed_gate : (s t : ConnectionCore) → frees s t ≡ true → t.write_gate ≡ false
freed_gate s t h = ground arith
