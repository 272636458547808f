-- ===== src/Python/Session/Terminal.antt =====
-- What a direction of a `SecureSession` (crates/taunicorn-python/src/security.rs) promises after a
-- frame that was not completed.
use taunicorn.Prelude.{
  ℕ, ◌≡◌, refl, sym, ◌∙◌, subst, Bool, true, inl, inr, Option, none, some, List, [], ◌∷◌,
}
use taunicorn.Python.Session.{
  Phase, waiting, locking, gated, armed, entering, inside, unguarding, releasing, done, Event,
  begun, completed, torn, SecureSession, Reach, new,
}
use taunicorn.Python.Session.Orderly.{
  Stage, between, within, broken, History, nothing_sent, begins, completes_it, tears_it, Quiet,
  Held, Gate,
}
use taunicorn.Python.Session.Orderly.Kept.{Reach-IsOrderly}

abbrev Known : List Event → Type 0
Known log = (stage : Stage) × History log stage

Quiet-Known : (c : Bool) (log : List Event) → Quiet c log → Known log
Quiet-Known c log (inl h) = (between, h)
Quiet-Known c log (inr (h, e)) = (broken, h)

Held-Known : (p : Phase) (i : ℕ) (c : Bool) (log : List Event) → Held p i c log → Known log
Held-Known gated i c log h = Quiet-Known c log h
Held-Known armed i c log h = (between, h)
Held-Known entering i c log h = (between, h)
Held-Known inside i c log h = (within i, h)
Held-Known (unguarding e) i c log (inl h) = (between, h)
Held-Known (unguarding e) i c log (inr h) = (broken, h)
Held-Known (releasing e) i c log h = Quiet-Known c log h
Held-Known waiting i c log h = absurd h
Held-Known locking i c log h = absurd h
Held-Known (done e) i c log h = absurd h

Gate-Known :
    (g : Option ℕ) (f : ℕ → Phase) (c : Bool) (log : List Event) → Gate g f c log → Known log
Gate-Known none f c log h = Quiet-Known c log h
Gate-Known (some i) f c log h = Held-Known (f i) i c log h

-- In every order of the steps of any number of sends (or receives), with closes, cancellations,
-- errors and dropped futures anywhere: the frames of the direction come one after the other, each
-- completed by the call that began it before another begins, and after a torn frame no frame begins.
pub frames_in_order : {s : SecureSession} → Reach new s → (stage : Stage) × History s.log stage
frames_in_order {s} r = Gate-Known s.gate s.phases s.cancelled s.log (Reach-IsOrderly r).frames

-- The stage is the log's.
stage_of : List Event → Stage
stage_of [] = between
stage_of (begun i ∷ log) = within i
stage_of (completed i ∷ log) = between
stage_of (torn i ∷ log) = broken

stage_of_lem : {log : List Event} {stage : Stage} → History log stage → stage_of log ≡ stage
unfolding stage_of
stage_of_lem nothing_sent = refl
stage_of_lem (begins i h) = refl
stage_of_lem (completes_it i h) = refl
stage_of_lem (tears_it i h) = refl

torn-Quiet : (c : Bool) (log : List Event) → History log broken → Quiet c log → c ≡ true
torn-Quiet c log b (inl h) =
    absurd (let e : broken ≡ between = sym (stage_of_lem b) ∙ stage_of_lem h in cc)
torn-Quiet c log b (inr (h, e)) = e

-- When a frame was torn and no call has the gate, the token is cancelled: the guard of the call that
-- tore it has cancelled the token before it let the gate go.
pub torn_frame_cancels :
    {s : SecureSession} → Reach new s → History s.log broken → s.gate ≡ none → s.cancelled ≡ true
torn_frame_cancels {s} r b e =
    torn-Quiet s.cancelled s.log b
      (subst (λ g. Gate g s.phases s.cancelled s.log) e (Reach-IsOrderly r).frames)
