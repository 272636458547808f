-- ===== src/Python/Session/Orderly.antt =====
-- The frames of one direction of a `SecureSession` (crates/taunicorn-python/src/security.rs), in
-- every order of steps of any number of calls.
pub mod Moves
pub mod Kept
use taunicorn.Prelude.{
  ℕ, ◌≡◌, refl, sym, ◌∙◌, ap, subst, Bool, true, false, ◌||◌, ◌⊎◌, inl, inr, Option, none, some,
  List, [], ◌∷◌, ◌==◌, ==_iff, if◌then◌else◌, arith,
}
use taunicorn.Python.Session.{
  End, returned, session_closed, failed, dropped, Phase, waiting, locking, gated, armed, entering,
  inside, unguarding, releasing, done, Event, begun, completed, torn, SecureSession, at, logged,
  look, ask, ensure_open, first_poll, complete, tear, not_converted, drop_guard, release, Step,
  looks, asks, leaves, checks, enters, completes, converts_not, fails, is_dropped, interrupted,
  unguards, releases, cancels, closes, Reach, here, next, new,
}

-- What the frames of the log, the latest first, have come to.
pub data Stage : Type 0 where
  between : Stage
  within : ℕ → Stage
  broken : Stage

-- One frame after the other: each is completed by the call that began it before another begins, and
-- none begins after a torn one.
pub data History : List Event → Stage → Type 0 where
  nothing_sent : History [] between
  begins : {log : List Event} (i : ℕ) → History log between → History (begun i ∷ log) (within i)
  completes_it :
      {log : List Event} (i : ℕ) → History log (within i) → History (completed i ∷ log) between
  tears_it : {log : List Event} (i : ℕ) → History log (within i) → History (torn i ∷ log) broken

-- No call is inside: after a torn frame the token is cancelled.
abbrev pub Quiet : Bool → List Event → Type 0
Quiet cancelled log = History log between ⊎ (History log broken × (cancelled ≡ true))

-- What the phase of the call with the gate says of the log.
abbrev pub Held : Phase → ℕ → Bool → List Event → Type 0
Held gated i c log = Quiet c log
Held armed i c log = History log between
Held entering i c log = History log between
Held inside i c log = History log (within i)
Held (unguarding e) i c log = History log between ⊎ History log broken
Held (releasing e) i c log = Quiet c log
Held waiting i c log = ⊥
Held locking i c log = ⊥
Held (done e) i c log = ⊥

abbrev pub Gate : Option ℕ → (ℕ → Phase) → Bool → List Event → Type 0
Gate none phases c log = Quiet c log
Gate (some i) phases c log = Held (phases i) i c log

abbrev pub has_gate : Phase → Bool
has_gate gated = true
has_gate armed = true
has_gate entering = true
has_gate inside = true
has_gate (unguarding e) = true
has_gate (releasing e) = true
has_gate _ = false

pub record IsOrderly (s : SecureSession) : Type 0 where
  pub holder : (i : ℕ) → has_gate (s.phases i) ≡ true → s.gate ≡ some i
  pub frames : Gate s.gate s.phases s.cancelled s.log

pub new-IsOrderly : IsOrderly new
unfolding new
new-IsOrderly = record { holder = λ i e. cc; frames = inl nothing_sent }

Quiet-true : (c : Bool) (log : List Event) → Quiet c log → Quiet true log
Quiet-true c log (inl h) = inl h
Quiet-true c log (inr (h, e)) = inr (h, refl)

Held-true : (p : Phase) (i : ℕ) (c : Bool) (log : List Event) → Held p i c log → Held p i true log
Held-true gated i c log h = Quiet-true c log h
Held-true armed i c log h = h
Held-true entering i c log h = h
Held-true inside i c log h = h
Held-true (unguarding e) i c log h = h
Held-true (releasing e) i c log h = Quiet-true c log h
Held-true waiting i c log h = absurd h
Held-true locking i c log h = absurd h
Held-true (done e) i c log h = absurd h

pub Gate-true :
    (g : Option ℕ) (f : ℕ → Phase) (c : Bool) (log : List Event)
    → Gate g f c log
    → Gate g f true log
Gate-true none f c log h = Quiet-true c log h
Gate-true (some i) f c log h = Held-true (f i) i c log h

pub set-eq : (i : ℕ) (p : Phase) (f : ℕ → Phase) → (if i == i then p else f i) ≡ p
set-eq i p f = ground (arith, (==_iff i i).1 refl)

pub held_has :
    (p : Phase) (i : ℕ) (c : Bool) (log : List Event) → Held p i c log → has_gate p ≡ true
held_has gated i c log h = refl
held_has armed i c log h = refl
held_has entering i c log h = refl
held_has inside i c log h = refl
held_has (unguarding e) i c log h = refl
held_has (releasing e) i c log h = refl
held_has waiting i c log h = absurd h
held_has locking i c log h = absurd h
held_has (done e) i c log h = absurd h

pub not_both : (b : Bool) → b ≡ true → b ≡ false → ⊥
not_both b e f = let g : true ≡ false = sym e ∙ f in cc
