-- ===== src/Python/Upgrade/Owned/Phases.antt =====
-- The start and the end of an upgrade (`establish` of crates/taunicorn-python/src/security.rs).
use taunicorn.Prelude.{ℕ, ◌≡◌, refl, Bool, true, false, not, ◌==◌, ==_iff, if◌then◌else◌}
use taunicorn.Python.Slot.{
  ConnectionSlot, plain, upgrading, secure, consumed, Checked, granted, refused, PyConnection,
  secure_upgrade, upgrade_inactive, begin_secure, finish_secure, cancel,
}
use taunicorn.Python.Upgrade.{
  Phase, idle, handshaking, finishing, live, failed, set_phase, start, give_up, finish,
}
use taunicorn.Python.Upgrade.Owned.{Going, Agrees, IsOwned, made, with_slot, unwrapped}

module _ (n : ℕ) (c : ℕ → Bool) (p : ℕ → Phase) where
  -- The slot of an upgrade that starts, and of one that moves on.
  started : (t u : ℕ) → p u ≡ idle → Agrees (upgrading t) u (set_phase t handshaking p u) (c u)
  started t u e = at (t == u)
    where
      at :
          (b : Bool)
          → (b ≡ true → Going (if b then handshaking else p u) (c u))
            × (b ≡ false → (if b then handshaking else p u) ≡ idle)
      at true = ((λ _. tt), λ f. cc)
      at false = ((λ f. cc), λ _. e)

  start_taken :
      (t : ℕ) (b : Bool)
      → (n == 0) ≡ b
      → IsOwned (with_slot n c p plain false)
      → IsOwned (
          let r = unwrapped n c p b (upgrading t) secure_upgrade in
          elim (r.0) [
            | granted _ ↦ record { wrapper = r.1; phase = set_phase t handshaking p }
            | refused _ ↦ record { wrapper = r.1; phase = p }
          ])
  start_taken t true e o = record {
    agrees = λ u. started t u (o.agrees u);
    unshared = λ _. (==_iff n 0).0 e;
  }
  start_taken t false e o = o

  pub start-IsOwned :
      (slot : ConnectionSlot) (b : Bool) (t : ℕ)
      → IsOwned (with_slot n c p slot b)
      → IsOwned (start t (with_slot n c p slot b))
  unfolding start begin_secure
  start-IsOwned slot true t o = o
  start-IsOwned plain false t o = start_taken t (n == 0) refl o
  start-IsOwned (upgrading u) false t o = o
  start-IsOwned (secure u) false t o = o
  start-IsOwned consumed false t o = o

  module _ (t u : ℕ) (old : Agrees (upgrading t) u (p u) (c u)) where
    moved_on : Agrees (upgrading t) u (set_phase t finishing p u) (c u)
    moved_on = at (t == u) old
      where
        at :
            (b : Bool)
            → (b ≡ true → Going (p u) (c u)) × (b ≡ false → p u ≡ idle)
            → (b ≡ true → Going (if b then finishing else p u) (c u))
              × (b ≡ false → (if b then finishing else p u) ≡ idle)
        at true old = ((λ _. tt), λ f. cc)
        at false old = old

    given_up : Agrees (upgrading t) u (set_phase t failed p u) (if t == u then true else c u)
    given_up = at (t == u) old
      where
        at :
            (b : Bool)
            → (b ≡ true → Going (p u) (c u)) × (b ≡ false → p u ≡ idle)
            → (b ≡ true → Going (if b then failed else p u) (if b then true else c u))
              × (b ≡ false → (if b then failed else p u) ≡ idle)
        at true old = ((λ _. refl), λ f. cc)
        at false old = old

    finished_at : Agrees (secure t) u (set_phase t live p u) (c u)
    finished_at = at (t == u) old
      where
        at :
            (b : Bool)
            → (b ≡ true → Going (p u) (c u)) × (b ≡ false → p u ≡ idle)
            → (b ≡ true → (if b then live else p u) ≡ live)
              × (b ≡ false → (if b then live else p u) ≡ idle)
        at true old = ((λ _. refl), λ f. cc)
        at false old = ((λ f. cc), old.1)

  module _ (b : Bool) (t : ℕ) where
    pub succeeds-IsOwned :
        IsOwned (with_slot n c p (upgrading t) b)
        → IsOwned (record { wrapper = made (upgrading t) b n c; phase = set_phase t finishing p })
    succeeds-IsOwned o = record { agrees = λ u. moved_on t u (o.agrees u); unshared = o.unshared }

    pub give_up-IsOwned :
        IsOwned (with_slot n c p (upgrading t) b)
        → IsOwned (give_up t (with_slot n c p (upgrading t) b))
    unfolding give_up
    give_up-IsOwned o = record { agrees = λ u. given_up t u (o.agrees u); unshared = o.unshared }

  finish_ends :
      (t : ℕ) (b : Bool)
      → IsOwned (with_slot n c p (upgrading t) false)
      → IsOwned (
          let r : Checked (Unit {0}) × PyConnection =
            if b
            then (granted tt, made (secure t) false n c)
            else (refused upgrade_inactive, made (upgrading t) false n c) in
          elim (r.0) [
            | granted _ ↦ record { wrapper = r.1; phase = set_phase t live p }
            | refused _ ↦ record { wrapper = cancel t r.1; phase = set_phase t failed p }
          ])
  finish_ends t true o = record {
    agrees = λ u. finished_at t u (o.agrees u);
    unshared = o.unshared;
  }
  finish_ends t false o = record { agrees = λ u. given_up t u (o.agrees u); unshared = o.unshared }

  pub finish-IsOwned :
      (b : Bool) (t : ℕ)
      → IsOwned (with_slot n c p (upgrading t) b)
      → IsOwned (finish t (with_slot n c p (upgrading t) b))
  unfolding finish finish_secure
  finish-IsOwned true t o = record {
    agrees = λ u. given_up t u (o.agrees u);
    unshared = o.unshared;
  }
  finish-IsOwned false t o = finish_ends t (not (c t)) o
