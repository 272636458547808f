-- ===== src/Python/Upgrade.antt =====
-- `PySecureConnection::establish` of crates/taunicorn-python/src/security.rs on the slot of a
-- `PyConnection`: any number of upgrades, raw calls, splits and closes, in any order.
pub mod Owned
pub mod Exclusive
use taunicorn.Prelude.{
  ℕ, zero, suc, ◌+◌, ◌≡◌, ◌≢◌, refl, sym, ◌∙◌, ap, subst, Bool, true, false, Bool-cases, not, ◌⊎◌,
  inl, inr, ◌==◌, ==_iff, if◌then◌else◌, arith,
}
use taunicorn.Python.Slot.{
  ConnectionSlot, plain, upgrading, secure, consumed, Checked, granted, refused, Refusal,
  handshake_failed, PyConnection, from_rust, connection, plain_connection, take_from, take_plain,
  take_for_split, Operation, still_pending, split, secure_upgrade, upgrade_inactive, begin_secure,
  finish_from, finish_secure, cancel, close_from, close_target,
}

-- How far an upgrade has come. It owns the connection while the handshake runs, then a session is
-- made of it, and the session stays.
pub data Phase : Type 0 where
  idle handshaking finishing live failed : Phase

pub record Upgrades : Type 0 where
  pub wrapper : PyConnection
  pub phase : ℕ → Phase

abbrev pub set_phase : ℕ → Phase → (ℕ → Phase) → ℕ → Phase
set_phase t p f u = if t == u then p else f u

-- The upgrade starts: it keeps the token if it gets the connection.
unfoldable pub start : ℕ → Upgrades → Upgrades
start t s =
    let r = begin_secure t s.wrapper in
    elim (r.0) [
      | granted _ ↦ record { wrapper = r.1; phase = set_phase t handshaking s.phase }
      | refused _ ↦ record s { wrapper = r.1 }
    ]

-- The `select!` has ended with the token or with an error, or the future was dropped: the guard
-- cancels the token.
unfoldable pub give_up : ℕ → Upgrades → Upgrades
give_up t s = record { wrapper = cancel t s.wrapper; phase = set_phase t failed s.phase }

-- The session is put into the slot; if that is refused, the guard cancels the token.
unfoldable pub finish : ℕ → Upgrades → Upgrades
finish t s =
    let r = finish_secure t s.wrapper in
    elim (r.0) [
      | granted _ ↦ record { wrapper = r.1; phase = set_phase t live s.phase }
      | refused _ ↦ record { wrapper = cancel t r.1; phase = set_phase t failed s.phase }
    ]

abbrev pub is_running : Phase → Bool
is_running handshaking = true
is_running finishing = true
is_running _ = false

-- What happens next.
pub data Step : Upgrades → Upgrades → Type 0 where
  -- A raw call takes a clone of the connection, and drops it at its end.
  raw_call : (s : Upgrades) → Step s (record s { wrapper = (plain_connection s.wrapper).1 })
  raw_end :
      (s : Upgrades) (n : ℕ)
      → s.wrapper.clones ≡ suc n
      → Step s (record s { wrapper = record s.wrapper { clones = n } })
  splits : (s : Upgrades) → Step s (record s { wrapper = (take_for_split s.wrapper).1 })
  closes : (s : Upgrades) → Step s (record s { wrapper = (close_target s.wrapper).1 })
  starts : (s : Upgrades) (t : ℕ) → s.phase t ≡ idle → Step s (start t s)
  succeeds :
      (s : Upgrades) (t : ℕ)
      → s.phase t ≡ handshaking
      → Step s (record s { phase = set_phase t finishing s.phase })
  gives_up : (s : Upgrades) (t : ℕ) → is_running (s.phase t) ≡ true → Step s (give_up t s)
  finishes : (s : Upgrades) (t : ℕ) → s.phase t ≡ finishing → Step s (finish t s)
  -- A token is cancelled: by `close`, `abort`, a cancelled Python future or a dropped session.
  cancels : (s : Upgrades) (t : ℕ) → Step s (record s { wrapper = cancel t s.wrapper })

pub data Reach (s : Upgrades) : Upgrades → Type 0 where
  here : Reach s s
  next : {t u : Upgrades} → Reach s t → Step t u → Reach s u

abbrev pub new_connection : Upgrades
new_connection = record { wrapper = from_rust; phase = λ t. idle }
