-- ===== src/Python/Session/Orderly/Moves.antt =====
-- A call of a `SecureSession` (crates/taunicorn-python/src/security.rs) that moves with the gate or
-- without it.
use taunicorn.Prelude.{
  ℕ, ◌≡◌, refl, sym, ◌∙◌, ap, subst, Bool, true, false, Option, none, some, List, ◌==◌, ==_iff,
  if◌then◌else◌,
}
use taunicorn.Python.Session.{Phase, waiting, gated, Event, SecureSession, at, ask}
use taunicorn.Python.Session.Orderly.{Held, Gate, has_gate, IsOrderly, set-eq, held_has, not_both}

-- The call that moves has the gate before and after.
module _ (i : ℕ) (s : SecureSession) (o : IsOrderly s) (has : has_gate (s.phases i) ≡ true) where
  abbrev pub here_held : Held (s.phases i) i s.cancelled s.log
  here_held = subst (λ g. Gate g s.phases s.cancelled s.log) (o.holder i has) o.frames

  set_holder :
      (p : Phase) (j : ℕ) → has_gate (if i == j then p else s.phases j) ≡ true → s.gate ≡ some j
  set_holder p j = go (i == j) refl
    where
      go :
          (b : Bool)
          → (i == j) ≡ b
          → has_gate (if b then p else s.phases j) ≡ true
          → s.gate ≡ some j
      go true e h = o.holder i has ∙ ap some ((==_iff i j).0 e)
      go false e h = o.holder j h

  -- The token and the log may change on the way.
  pub step_held :
      (p : Phase) (c : Bool) (log : List Event)
      → Held p i c log
      → IsOrderly (at i p (record s { cancelled = c; log = log }))
  step_held p c log h = record {
    holder = set_holder p;
    frames =
        subst (λ g. Gate g (λ j. if i == j then p else s.phases j) c log) (sym (o.holder i has))
          (subst (λ q. Held q i c log) (sym (set-eq i p s.phases)) h);
  }

-- The call that moves has no gate before and after.
module _ (i : ℕ) (s : SecureSession) (o : IsOrderly s) (has : has_gate (s.phases i) ≡ false) where
  out_holder :
      (p : Phase)
      → has_gate p ≡ false
      → (j : ℕ) → has_gate (if i == j then p else s.phases j) ≡ true
      → s.gate ≡ some j
  out_holder p none_after j = go (i == j)
    where
      go : (b : Bool) → has_gate (if b then p else s.phases j) ≡ true → s.gate ≡ some j
      go true h = absurd (not_both (has_gate p) h none_after)
      go false h = o.holder j h

  out_frames :
      (p : Phase) (g : Option ℕ)
      → Gate g s.phases s.cancelled s.log
      → Gate g (λ j. if i == j then p else s.phases j) s.cancelled s.log
  out_frames p none h = h
  out_frames p (some j) h = go (i == j) refl
    where
      go : (b : Bool) → (i == j) ≡ b → Held (if b then p else s.phases j) j s.cancelled s.log
      go true e = absurd (
          not_both (has_gate (s.phases j)) (held_has (s.phases j) j s.cancelled s.log h)
            (subst (λ k. has_gate (s.phases k) ≡ false) ((==_iff i j).0 e) has))
      go false e = h

  pub step_out : (p : Phase) → has_gate p ≡ false → IsOrderly (at i p s)
  step_out p e = record { holder = out_holder p e; frames = out_frames p s.gate o.frames }

  take_free :
      (g : Option ℕ)
      → s.gate ≡ g
      → IsOrderly
          (elim g [ none ↦ at i gated (record s { gate = some i }) | some j ↦ at i waiting s ])
  take_free (some j) e = step_out waiting refl
  take_free none e = record {
    holder = λ j. go j (i == j) refl;
    frames =
        subst (λ q. Held q i s.cancelled s.log) (sym (set-eq i gated s.phases))
          (subst (λ g. Gate g s.phases s.cancelled s.log) e o.frames);
  }
    where
      go :
          (j : ℕ) (b : Bool)
          → (i == j) ≡ b
          → has_gate (if b then gated else s.phases j) ≡ true
          → ◌≡◌ {A = Option ℕ} (some i) (some j)
      go j true f h = ap some ((==_iff i j).0 f)
      go j false f h = absurd (let g : none ≡ some j = sym e ∙ o.holder j h in cc)

  pub ask-IsOrderly : IsOrderly (ask i s)
  unfolding ask
  ask-IsOrderly = take_free s.gate refl
