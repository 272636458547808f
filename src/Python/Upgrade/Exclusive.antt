-- ===== src/Python/Upgrade/Exclusive.antt =====
-- What the owner of the connection can rely on: `establish` of
-- crates/taunicorn-python/src/security.rs with the slot of lib.rs.
use taunicorn.Prelude.{
  ℕ, ◌≡◌, refl, sym, ◌∙◌, ap, subst, Bool, true, false, Bool-cases, ◌⊎◌, inl, inr, ◌==◌, ==_iff,
  arith,
}
use taunicorn.Python.Slot.{
  ConnectionSlot, plain, upgrading, secure, consumed, Checked, granted, refused, handshake_failed,
  PyConnection, connection, plain_connection, take_for_split, begin_secure, finish_secure,
}
use taunicorn.Python.Upgrade.{
  Phase, idle, handshaking, finishing, live, failed, Upgrades, finish, is_running, Reach,
  new_connection,
}
use taunicorn.Python.Upgrade.Owned.{Agrees, Going, is_plain, owner}
use taunicorn.Python.Upgrade.Owned.Kept.{Reach-IsOwned}

abbrev pub owns : Phase → Bool
owns handshaking = true
owns finishing = true
owns live = true
owns _ = false

abbrev pub is_refused : {A : Type 0} → Checked A → Bool
is_refused (granted _) = false
is_refused (refused _) = true

-- Where the connection is, if an upgrade has it.
abbrev Held : ConnectionSlot → ℕ → Type 0
Held slot t = (slot ≡ upgrading t) ⊎ (slot ≡ secure t)

not_owner : (q : Phase) → q ≡ idle → owns q ≡ true → ⊥
not_owner q e r = let f : false ≡ true = sym (ap owns e) ∙ r in cc

held :
    (slot : ConnectionSlot) (t : ℕ) (q : Phase) (b : Bool)
    → Agrees slot t q b
    → owns q ≡ true
    → Held slot t
held plain t q b a e = absurd (not_owner q a e)
held consumed t q b a e = absurd (not_owner q a e)
held (upgrading u) t q b a e = elim (Bool-cases (u == t)) [
  | inl same ↦ inl (ap upgrading ((==_iff u t).0 same))
  | inr other ↦ absurd (not_owner q (a.1 other) e)
]
held (secure u) t q b a e = elim (Bool-cases (u == t)) [
  | inl same ↦ inr (ap secure ((==_iff u t).0 same))
  | inr other ↦ absurd (not_owner q (a.1 other) e)
]

same_owner : (slot : ConnectionSlot) (t u : ℕ) → Held slot t → Held slot u → u ≡ t
same_owner slot t u (inl e) (inl f) = cc
same_owner slot t u (inr e) (inr f) = cc
same_owner slot t u (inl e) (inr f) = cc
same_owner slot t u (inr e) (inl f) = cc

held_not_plain : (slot : ConnectionSlot) (t : ℕ) → Held slot t → is_plain slot ≡ false
held_not_plain slot t (inl e) = ap is_plain e
held_not_plain slot t (inr e) = ap is_plain e

all_refused :
    (slot : ConnectionSlot) (b : Bool) (n : ℕ) (c : ℕ → Bool) (v : ℕ)
    → is_plain slot ≡ false
    → let w : PyConnection = record { slot = slot; poisoned = b; clones = n; cancelled = c } in
      (is_refused (plain_connection w).0 ≡ true)
      × (is_refused (take_for_split w).0 ≡ true)
      × (is_refused (begin_secure v w).0 ≡ true)
unfolding plain_connection take_for_split begin_secure
all_refused slot true n c v e = (refl, refl, refl)
all_refused plain false n c v e = absurd (let f : true ≡ false = e in cc)
all_refused (upgrading t) false n c v e = (refl, refl, refl)
all_refused (secure t) false n c v e = (refl, refl, refl)
all_refused consumed false n c v e = (refl, refl, refl)

ended : (q : Phase) (b : Bool) → Going q b → is_running q ≡ false → b ≡ true
ended handshaking b g f = cc
ended finishing b g f = cc
ended failed b g f = g
ended idle b g f = absurd g
ended live b g f = absurd g

reported :
    (w : PyConnection) (t : ℕ)
    → w.slot ≡ upgrading t
    → w.poisoned ≡ false
    → w.cancelled t ≡ true
    → (connection w).0 ≡ refused handshake_failed
unfolding connection
reported w t e g h = ground arith

installs :
    (s : Upgrades) (t : ℕ)
    → s.wrapper.slot ≡ upgrading t
    → s.wrapper.poisoned ≡ false
    → let u = finish t s in
      ((s.wrapper.cancelled t ≡ false) × (u.wrapper.slot ≡ secure t) × (u.phase t ≡ live))
      ⊎ ((s.wrapper.cancelled t ≡ true)
          × (u.wrapper.slot ≡ upgrading t)
          × (u.phase t ≡ failed)
          × (u.wrapper.cancelled t ≡ true))
unfolding finish finish_secure
installs s t e g = elim (Bool-cases (s.wrapper.cancelled t)) [
  | inl h ↦ inr (h, ground arith, ground arith, ground arith)
  | inr h ↦ inl (h, ground arith, ground arith)
]

module _ {s : Upgrades} (r : Reach new_connection s) where
  -- While a handshake or a session has the connection, in whatever order upgrades, raw calls, splits,
  -- closes and cancellations came before: no other upgrade has it, no raw call holds a clone of it,
  -- and raw calls, a split and further upgrades are refused.
  pub owner_excludes :
      (t u v : ℕ)
      → owns (s.phase t) ≡ true
      → owns (s.phase u) ≡ true
      → (u ≡ t)
        × (s.wrapper.clones ≡ 0)
        × (is_refused (plain_connection s.wrapper).0 ≡ true)
        × (is_refused (take_for_split s.wrapper).0 ≡ true)
        × (is_refused (begin_secure v s.wrapper).0 ≡ true)
  owner_excludes t u v e f =
      let o = Reach-IsOwned r in
      let w = s.wrapper in
      let h = held w.slot t (s.phase t) (w.cancelled t) (o.agrees t) e in
      let g = held w.slot u (s.phase u) (w.cancelled u) (o.agrees u) f in
      let raw = held_not_plain w.slot t h in
      let a = all_refused w.slot w.poisoned w.clones w.cancelled v raw in
      (same_owner w.slot t u h g, o.unshared raw, a.0, a.1, a.2)

  -- An upgrade that has ended without a session, by an error, a cancellation or a dropped future,
  -- leaves a connection that says so: it raises `ConnectionError` and asks to connect again, and not
  -- that a handshake is in progress.
  pub failed_upgrade_reported :
      (t : ℕ)
      → s.wrapper.slot ≡ upgrading t
      → is_running (s.phase t) ≡ false
      → s.wrapper.poisoned ≡ false
      → (connection s.wrapper).0 ≡ refused handshake_failed
  failed_upgrade_reported t e f g = reported s.wrapper t e g (
      ended (s.phase t) (s.wrapper.cancelled t)
        ((subst (λ slot. Agrees slot t (s.phase t) (s.wrapper.cancelled t)) e
            ((Reach-IsOwned r).agrees t)).0
          ((==_iff t t).1 refl))
        f)

  -- An upgrade whose handshake has succeeded gets its session into the slot, unless its token was
  -- cancelled before; and then the token stays cancelled.
  finish_installs :
      (t : ℕ)
      → s.phase t ≡ finishing
      → s.wrapper.poisoned ≡ false
      → let u = finish t s in
        ((s.wrapper.cancelled t ≡ false) × (u.wrapper.slot ≡ secure t) × (u.phase t ≡ live))
        ⊎ ((s.wrapper.cancelled t ≡ true)
            × (u.wrapper.slot ≡ upgrading t)
            × (u.phase t ≡ failed)
            × (u.wrapper.cancelled t ≡ true))
  finish_installs t e g =
      installs s t
        (owner s.wrapper.clones s.wrapper.cancelled s.phase s.wrapper.slot t
          ((Reach-IsOwned r).agrees t) (ap is_running e))
        g
