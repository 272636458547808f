-- ===== src/Python/Upgrade/Owned.antt =====
-- Who owns the connection behind a `PyConnection`, in every order of upgrades, raw calls, splits and
-- closes (`establish` of crates/taunicorn-python/src/security.rs).
pub mod Slots
pub mod Phases
pub mod Kept
use taunicorn.Prelude.{
  ℕ, ◌≡◌, refl, sym, ◌∙◌, ap, subst, Bool, true, false, Bool-cases, not, ◌⊎◌, inl, inr, ◌==◌,
  ==_iff, if◌then◌else◌, arith,
}
use taunicorn.Python.Slot.{
  ConnectionSlot, plain, upgrading, secure, consumed, Checked, granted, refused, PyConnection,
  from_rust, plain_connection, take_for_split, Operation, still_pending, split, secure_upgrade,
  upgrade_inactive, begin_secure, finish_secure, cancel, close_target,
}
use taunicorn.Python.Upgrade.{
  Phase, idle, handshaking, finishing, live, failed, Upgrades, set_phase, start, give_up, finish,
  is_running, Step, raw_call, raw_end, splits, closes, starts, succeeds, gives_up, finishes,
  cancels, Reach, here, next, new_connection,
}

-- What an upgrade's phase and its token say of the slot.
abbrev pub Going : Phase → Bool → Type 0
Going handshaking c = Unit
Going finishing c = Unit
Going failed c = c ≡ true
Going idle c = ⊥
Going live c = ⊥

abbrev pub Agrees : ConnectionSlot → ℕ → Phase → Bool → Type 0
Agrees plain t p c = p ≡ idle
Agrees consumed t p c = p ≡ idle
Agrees (upgrading u) t p c = ((u == t) ≡ true → Going p c) × ((u == t) ≡ false → p ≡ idle)
Agrees (secure u) t p c = ((u == t) ≡ true → p ≡ live) × ((u == t) ≡ false → p ≡ idle)

abbrev pub is_plain : ConnectionSlot → Bool
is_plain plain = true
is_plain _ = false

-- The slot agrees with every upgrade, and only a plain slot has clones outside.
pub record IsOwned (s : Upgrades) : Type 0 where
  pub agrees : (t : ℕ) → Agrees s.wrapper.slot t (s.phase t) (s.wrapper.cancelled t)
  pub unshared : is_plain s.wrapper.slot ≡ false → s.wrapper.clones ≡ 0

pub new_connection-IsOwned : IsOwned new_connection
unfolding from_rust
new_connection-IsOwned = record { agrees = λ t. refl; unshared = λ e. cc }

not_idle : (q : Phase) → q ≡ idle → is_running q ≡ true → ⊥
not_idle q e r = let f : false ≡ true = sym (ap is_running e) ∙ r in cc

not_live : (q : Phase) → q ≡ live → is_running q ≡ true → ⊥
not_live q e r = let f : false ≡ true = sym (ap is_running e) ∙ r in cc

abbrev pub made : ConnectionSlot → Bool → ℕ → (ℕ → Bool) → PyConnection
made slot b n c = record { slot = slot; poisoned = b; clones = n; cancelled = c }

module _ (n : ℕ) (c : ℕ → Bool) (p : ℕ → Phase) where
  abbrev pub with_slot : ConnectionSlot → Bool → Upgrades
  with_slot slot b = record { wrapper = made slot b n c; phase = p }

  -- The test of `Arc::try_unwrap`.
  abbrev pub unwrapped : Bool → ConnectionSlot → Operation → Checked (Unit {0}) × PyConnection
  unwrapped b slot o =
      if b
      then (granted tt, made slot false n c)
      else (refused (still_pending o), made plain false n c)

  -- Cancelling a token breaks nothing.
  Going-true : (q : Phase) (b : Bool) → Going q b → Going q true
  Going-true handshaking b g = tt
  Going-true finishing b g = tt
  Going-true failed b g = refl
  Going-true idle b g = absurd g
  Going-true live b g = absurd g

  Going-cancel : (t u : ℕ) (q : Phase) → Going q (c u) → Going q (if t == u then true else c u)
  Going-cancel t u q g = at (t == u)
    where
      at : (b : Bool) → Going q (if b then true else c u)
      at true = Going-true q (c u) g
      at false = g

  Agrees-cancel :
      (slot : ConnectionSlot) (t u : ℕ) (q : Phase)
      → Agrees slot u q (c u)
      → Agrees slot u q (if t == u then true else c u)
  Agrees-cancel plain t u q a = a
  Agrees-cancel consumed t u q a = a
  Agrees-cancel (secure v) t u q a = a
  Agrees-cancel (upgrading v) t u q a = ((λ e. Going-cancel t u q (a.0 e)), a.1)

  pub cancel-IsOwned :
      (slot : ConnectionSlot) (b : Bool) (t : ℕ)
      → IsOwned (with_slot slot b)
      → IsOwned (record { wrapper = cancel t (made slot b n c); phase = p })
  cancel-IsOwned slot b t o = record {
    agrees = λ u. Agrees-cancel slot t u (p u) (o.agrees u);
    unshared = o.unshared;
  }

  -- Only the slot that waits for it belongs to an upgrade that runs.
  pub owner :
      (slot : ConnectionSlot) (t : ℕ)
      → Agrees slot t (p t) (c t)
      → is_running (p t) ≡ true
      → slot ≡ upgrading t
  owner plain t a e = absurd (not_idle (p t) a e)
  owner consumed t a e = absurd (not_idle (p t) a e)
  owner (upgrading u) t a e = elim (Bool-cases (u == t)) [
    | inl same ↦ ap upgrading ((==_iff u t).0 same)
    | inr other ↦ absurd (not_idle (p t) (a.1 other) e)
  ]
  owner (secure u) t a e = elim (Bool-cases (u == t)) [
    | inl same ↦ absurd (not_live (p t) (a.0 same) e)
    | inr other ↦ absurd (not_idle (p t) (a.1 other) e)
  ]
