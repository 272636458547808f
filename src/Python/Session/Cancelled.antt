-- ===== src/Python/Session/Cancelled.antt =====
-- What a cancelled token of a `SecureSession` (crates/taunicorn-python/src/security.rs) still lets
-- happen.
use taunicorn.Prelude.{
  ℕ, ◌+◌, ◌≡◌, refl, sym, ◌∙◌, subst, Bool, true, false, Option, none, some, List, [], ◌∷◌,
  if◌then◌else◌, ap, ◌||◌, ◌==◌, ==_iff, arith,
}
use taunicorn.Python.Session.{
  End, returned, failed, dropped, Phase, waiting, locking, gated, armed, entering, inside,
  unguarding, releasing, done, session_closed, Event, begun, completed, torn, SecureSession, at,
  logged, look, ask, ensure_open, first_poll, begin, begins_frame, complete, tear, not_converted,
  drop_guard, release, Step, looks, asks, leaves, checks, enters, completes, converts_not, fails,
  is_dropped, interrupted, unguards, releases, cancels, closes, Reach, here, next, new,
}
use taunicorn.Python.Session.Orderly.{has_gate}
use taunicorn.Python.Session.Orderly.Kept.{Reach-IsOrderly}

-- How often a call has begun a frame.
abbrev pub begun_by : ℕ → List Event → ℕ
begun_by i [] = 0
begun_by i (begun j ∷ log) = begun_by i log + (if j == i then 1 else 0)
begun_by i (completed j ∷ log) = begun_by i log
begun_by i (torn j ∷ log) = begun_by i log

-- A call between its poll of the token and its first poll of the connection below.
abbrev pub is_entering : Phase → Bool
is_entering entering = true
is_entering _ = false

-- What a step keeps for a call under a cancelled token.
record Same (i : ℕ) (s u : SecureSession) : Type 0 where
  cancelled : u.cancelled ≡ true
  outside : is_entering (u.phases i) ≡ false
  begun : begun_by i u.log ≡ begun_by i s.log

module _ (i : ℕ) (s : SecureSession) (token : s.cancelled ≡ true)
    (outside : is_entering (s.phases i) ≡ false) where
  set_outside :
      (j : ℕ) (p : Phase)
      → is_entering p ≡ false
      → is_entering (if j == i then p else s.phases i) ≡ false
  set_outside j p e = go (j == i)
    where
      go : (b : Bool) → is_entering (if b then p else s.phases i) ≡ false
      go true = e
      go false = outside

  moved : (j : ℕ) (p : Phase) → is_entering p ≡ false → Same i s (at j p s)
  moved j p e = record { cancelled = token; outside = set_outside j p e; begun = refl }

  -- A step that also writes in the log, but not of a beginning.
  told :
      (j : ℕ) (p : Phase) (event : Event)
      → is_entering p ≡ false
      → begun_by i (event ∷ s.log) ≡ begun_by i s.log
      → Same i s (at j p (logged event s))
  told j p event e f = record { cancelled = token; outside = set_outside j p e; begun = f }

  ask-Same :
      (j : ℕ) (g : Option ℕ)
      → Same i s
          (elim g [ none ↦ at j gated (record s { gate = some j }) | some k ↦ at j waiting s ])
  ask-Same j none = record { cancelled = token; outside = set_outside j gated refl; begun = refl }
  ask-Same j (some k) = moved j waiting refl

  look-Same : (j : ℕ) (b : Bool) → Same i s (at j (if b then done session_closed else locking) s)
  look-Same j true = moved j (done session_closed) refl
  look-Same j false = moved j locking refl

  check-Same :
      (j : ℕ) (b : Bool) → Same i s (at j (if b then releasing session_closed else armed) s)
  check-Same j true = moved j (releasing session_closed) refl
  check-Same j false = moved j armed refl

  enter-Same : (j : ℕ) → Same i s (first_poll j s)
  unfolding first_poll
  enter-Same j = record {
    cancelled = token;
    outside =
        subst
          (λ b.
            is_entering
              (if j == i then (if b then unguarding session_closed else entering) else s.phases i)
            ≡ false)
          (sym token) (set_outside j (unguarding session_closed) refl);
    begun = refl;
  }

  -- The call that begins a frame is another one.
  begin-Same : (j : ℕ) → s.phases j ≡ entering → Same i s (begin j s)
  unfolding begin
  begin-Same j e = record {
    cancelled = token;
    outside = set_outside j inside refl;
    begun = go (j == i) refl;
  }
    where
      go : (b : Bool) → (j == i) ≡ b → begun_by i s.log + (if b then 1 else 0) ≡ begun_by i s.log
      go true f = absurd (
          let g : true ≡ false =
            sym (ap is_entering (subst (λ k. s.phases k ≡ entering) ((==_iff j i).0 f) e))
            ∙ outside in
          cc)
      go false f = omega arith

  drop_guard-Same : (j : ℕ) (d : End) → Same i s (drop_guard j d s)
  unfolding drop_guard
  drop_guard-Same j d = record {
    cancelled = refl;
    outside = set_outside j (releasing d) refl;
    begun = refl;
  }

Step-Same :
    (i : ℕ) {s u : SecureSession}
    → Step s u
    → s.cancelled ≡ true
    → is_entering (s.phases i) ≡ false
    → Same i s u
unfolding look ask ensure_open complete tear not_converted release
Step-Same i (looks s j f) e o = look-Same i s e o j s.cancelled
Step-Same i (asks s j f) e o = ask-Same i s e o j s.gate
Step-Same i (leaves s j f) e o = moved i s e o j (done dropped) refl
Step-Same i (checks s j f) e o = check-Same i s e o j (s.cancelled || s.closed)
Step-Same i (enters s j f) e o = enter-Same i s e o j
Step-Same i (begins_frame s j f) e o = begin-Same i s e o j f
Step-Same i (completes s j f) e o = told i s e o j (releasing returned) (completed j) refl refl
Step-Same i (converts_not s j f) e o = told i s e o j (unguarding failed) (completed j) refl refl
Step-Same i (fails s j f) e o = told i s e o j (unguarding failed) (torn j) refl refl
Step-Same i (is_dropped s j f) e o = told i s e o j (unguarding dropped) (torn j) refl refl
Step-Same i (interrupted s j f c) e o =
    told i s e o j (unguarding session_closed) (torn j) refl refl
Step-Same i (unguards s j d f) e o = drop_guard-Same i s e o j d
Step-Same i (releases s j d f) e o = record {
  cancelled = e;
  outside = set_outside i s e o j (done d) refl;
  begun = refl;
}
Step-Same i (cancels s) e o = record { cancelled = refl; outside = o; begun = refl }
Step-Same i (closes s) e o = record { cancelled = e; outside = o; begun = refl }

Reach-Same :
    (i : ℕ) {s u : SecureSession}
    → Reach s u
    → s.cancelled ≡ true
    → is_entering (s.phases i) ≡ false
    → Same i s u
Reach-Same i here e o = record { cancelled = e; outside = o; begun = refl }
Reach-Same i (next r step) e o =
    let p = Reach-Same i r e o in
    let q = Step-Same i step p.cancelled p.outside in
    record { cancelled = q.cancelled; outside = q.outside; begun = q.begun ∙ p.begun }

entering_has : (p : Phase) → is_entering p ≡ true → has_gate p ≡ true
entering_has entering e = refl
entering_has waiting e = cc
entering_has locking e = cc
entering_has gated e = cc
entering_has armed e = cc
entering_has inside e = cc
entering_has (unguarding d) e = cc
entering_has (releasing d) e = cc
entering_has (done d) e = cc

ask-cancelled :
    (i : ℕ) (s : SecureSession) (g : Option ℕ)
    → s.cancelled ≡ true
    → let u : SecureSession = elim g [
      | none ↦ at i gated (record s { gate = some i })
      | some j ↦ at i waiting s
    ] in
      u.cancelled ≡ true
ask-cancelled i s none e = e
ask-cancelled i s (some j) e = e

Step-cancelled : {s u : SecureSession} → Step s u → s.cancelled ≡ true → u.cancelled ≡ true
unfolding look ask ensure_open first_poll begin complete tear not_converted drop_guard release
Step-cancelled (looks s i f) e = e
Step-cancelled (asks s i f) e = ask-cancelled i s s.gate e
Step-cancelled (leaves s i f) e = e
Step-cancelled (checks s i f) e = e
Step-cancelled (enters s i f) e = e
Step-cancelled (begins_frame s i f) e = e
Step-cancelled (completes s i f) e = e
Step-cancelled (converts_not s i f) e = e
Step-cancelled (fails s i f) e = e
Step-cancelled (is_dropped s i f) e = e
Step-cancelled (interrupted s i f c) e = e
Step-cancelled (unguards s i d f) e = refl
Step-cancelled (releases s i d f) e = e
Step-cancelled (cancels s) e = refl
Step-cancelled (closes s) e = e

Reach-cancelled : {s u : SecureSession} → Reach s u → s.cancelled ≡ true → u.cancelled ≡ true
Reach-cancelled here e = e
Reach-cancelled (next r step) e = Step-cancelled step (Reach-cancelled r e)

-- From a state with a cancelled token on, whatever the calls do: the token stays cancelled, and only
-- a call that stood between its poll of the token and its first poll of the connection below may
-- still begin a frame. That is the call with the gate, so there is one at most.
pub cancelled_is_terminal :
    {s u : SecureSession}
    → Reach new s
    → Reach s u
    → s.cancelled ≡ true
    → (u.cancelled ≡ true)
      × ((i : ℕ) → is_entering (s.phases i) ≡ false → begun_by i u.log ≡ begun_by i s.log)
      × ((i : ℕ) → is_entering (s.phases i) ≡ true → s.gate ≡ some i)
cancelled_is_terminal {s} r after e = (
  Reach-cancelled after e,
  λ i o. (Reach-Same i after e o).begun,
  λ i f. (Reach-IsOrderly r).holder i (entering_has (s.phases i) f),
)
