-- ===== src/Python/Session/Orderly/Kept.antt =====
-- Each step of a `SecureSession` (crates/taunicorn-python/src/security.rs) leaves its frames in order.
use taunicorn.Prelude.{
  ℕ, ◌≡◌, refl, sym, ◌∙◌, ap, subst, Bool, true, false, ◌||◌, ◌⊎◌, inl, inr, none, some, List, ◌∷◌,
  ◌==◌, ==_iff, if◌then◌else◌,
}
use taunicorn.Python.Session.{
  End, returned, session_closed, failed, dropped, Phase, waiting, locking, gated, armed, inside,
  unguarding, releasing, done, Event, begun, completed, torn, SecureSession, at, look, ensure_open,
  first_poll, begin, begins_frame, entering, complete, tear, not_converted, drop_guard, release,
  Step, looks, asks, leaves, checks, enters, completes, converts_not, fails, is_dropped,
  interrupted, unguards, releases, cancels, closes, Reach, here, next, new,
}
use taunicorn.Python.Session.Orderly.{
  between, broken, History, begins, completes_it, tears_it, Quiet, Held, has_gate, IsOrderly,
  new-IsOrderly, Gate-true, not_both,
}
use taunicorn.Python.Session.Orderly.Moves.{here_held, step_held, step_out, ask-IsOrderly}

module _ (i : ℕ) (s : SecureSession) (o : IsOrderly s) where
  has_if : (p : Phase) → s.phases i ≡ p → has_gate (s.phases i) ≡ has_gate p
  has_if p e = ap has_gate e

  -- What the log is, by the phase of a call that has the gate.
  now : (p : Phase) → s.phases i ≡ p → has_gate p ≡ true → Held p i s.cancelled s.log
  now p e h = subst (λ q. Held q i s.cancelled s.log) e (here_held i s o (has_if p e ∙ h))

  moves :
      (old p : Phase) (c : Bool) (log : List Event)
      → s.phases i ≡ old
      → has_gate old ≡ true
      → Held p i c log
      → IsOrderly (at i p (record s { cancelled = c; log = log }))
  moves old p c log e h = step_held i s o (has_if old e ∙ h) p c log

  release-IsOrderly : (e : End) → s.phases i ≡ releasing e → IsOrderly (release i e s)
  unfolding release
  release-IsOrderly e f = record {
    holder = λ j. go j (i == j) refl;
    frames = now (releasing e) f refl;
  }
    where
      go :
          (j : ℕ) (b : Bool)
          → (i == j) ≡ b
          → has_gate (if b then done e else s.phases j) ≡ true
          → none ≡ some j
      go j true g h = cc
      go j false g h = absurd (
          not_both (i == j)
            ((==_iff i j).1 (
              let same : some i ≡ some j =
                sym (o.holder i (has_if (releasing e) f)) ∙ o.holder j h in
              cc))
            g)

  look-IsOrderly : s.phases i ≡ waiting → IsOrderly (look i s)
  unfolding look
  look-IsOrderly e = go s.cancelled
    where
      go : (b : Bool) → IsOrderly (at i (if b then done session_closed else locking) s)
      go true = step_out i s o (has_if waiting e) (done session_closed) refl
      go false = step_out i s o (has_if waiting e) locking refl

  -- The token is not cancelled where the test is passed, so no frame is torn.
  whole : Quiet s.cancelled s.log → s.cancelled ≡ false → History s.log between
  whole (inl h) e = h
  whole (inr (h, f)) e = absurd (not_both s.cancelled f e)

  check-IsOrderly : s.phases i ≡ gated → IsOrderly (ensure_open i s)
  unfolding ensure_open
  check-IsOrderly e = go s.cancelled refl s.closed
    where
      go :
          (b : Bool)
          → s.cancelled ≡ b
          → (d : Bool) → IsOrderly (at i (if b || d then releasing session_closed else armed) s)
      go true f d =
          moves gated (releasing session_closed) s.cancelled s.log e refl (now gated e refl)
      go false f true =
          moves gated (releasing session_closed) s.cancelled s.log e refl (now gated e refl)
      go false f false = moves gated armed s.cancelled s.log e refl (whole (now gated e refl) f)

  enter-IsOrderly : s.phases i ≡ armed → IsOrderly (first_poll i s)
  unfolding first_poll
  enter-IsOrderly e = go s.cancelled
    where
      go : (b : Bool) → IsOrderly (at i (if b then unguarding session_closed else entering) s)
      go true =
          moves armed (unguarding session_closed) s.cancelled s.log e refl (inl (now armed e refl))
      go false = moves armed entering s.cancelled s.log e refl (now armed e refl)

  begin-IsOrderly : s.phases i ≡ entering → IsOrderly (begin i s)
  unfolding begin
  begin-IsOrderly e =
      moves entering inside s.cancelled (begun i ∷ s.log) e refl (begins i (now entering e refl))

  drop_guard-IsOrderly : (e : End) → s.phases i ≡ unguarding e → IsOrderly (drop_guard i e s)
  unfolding drop_guard
  drop_guard-IsOrderly e f =
      moves (unguarding e) (releasing e) true s.log f refl (go (now (unguarding e) f refl))
    where
      go : History s.log between ⊎ History s.log broken → Quiet true s.log
      go (inl h) = inl h
      go (inr h) = inr (h, refl)

  tear-IsOrderly : (e : End) → s.phases i ≡ inside → IsOrderly (tear i e s)
  unfolding tear
  tear-IsOrderly e f =
      moves inside (unguarding e) s.cancelled (torn i ∷ s.log) f refl
        (inr (tears_it i (now inside f refl)))

Step-IsOrderly : {s u : SecureSession} → Step s u → IsOrderly s → IsOrderly u
unfolding complete not_converted
Step-IsOrderly (looks s i e) o = look-IsOrderly i s o e
Step-IsOrderly (asks s i e) o = ask-IsOrderly i s o (has_if i s o locking e)
Step-IsOrderly (leaves s i e) o = step_out i s o (has_if i s o waiting e) (done dropped) refl
Step-IsOrderly (checks s i e) o = check-IsOrderly i s o e
Step-IsOrderly (enters s i e) o = enter-IsOrderly i s o e
Step-IsOrderly (begins_frame s i e) o = begin-IsOrderly i s o e
Step-IsOrderly (completes s i e) o =
    moves i s o inside (releasing returned) s.cancelled (completed i ∷ s.log) e refl
      (inl (completes_it i (now i s o inside e refl)))
Step-IsOrderly (converts_not s i e) o =
    moves i s o inside (unguarding failed) s.cancelled (completed i ∷ s.log) e refl
      (inl (completes_it i (now i s o inside e refl)))
Step-IsOrderly (fails s i e) o = tear-IsOrderly i s o failed e
Step-IsOrderly (is_dropped s i e) o = tear-IsOrderly i s o dropped e
Step-IsOrderly (interrupted s i e c) o = tear-IsOrderly i s o session_closed e
Step-IsOrderly (unguards s i e f) o = drop_guard-IsOrderly i s o e f
Step-IsOrderly (releases s i e f) o = release-IsOrderly i s o e f
Step-IsOrderly (cancels s) o = record {
  holder = o.holder;
  frames = Gate-true s.gate s.phases s.cancelled s.log o.frames;
}
Step-IsOrderly (closes s) o = record { holder = o.holder; frames = o.frames }

pub Reach-IsOrderly : {s : SecureSession} → Reach new s → IsOrderly s
Reach-IsOrderly here = new-IsOrderly
Reach-IsOrderly (next r step) = Step-IsOrderly step (Reach-IsOrderly r)
