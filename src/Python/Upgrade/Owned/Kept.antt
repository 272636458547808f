-- ===== src/Python/Upgrade/Owned/Kept.antt =====
-- Each step of the upgrades of a `PyConnection` (crates/taunicorn-python/src/security.rs) keeps its
-- owner.
use taunicorn.Prelude.{ℕ, ◌≡◌, sym, ap, subst, true, ◌⊎◌, inl, inr, arith}
use taunicorn.Python.Slot.{ConnectionSlot, upgrading}
use taunicorn.Python.Upgrade.{
  Phase, handshaking, finishing, Upgrades, set_phase, give_up, finish, is_running, Step, raw_call,
  raw_end, splits, closes, starts, succeeds, gives_up, finishes, cancels, Reach, here, next,
  new_connection,
}
use taunicorn.Python.Upgrade.Owned.{
  IsOwned, new_connection-IsOwned, with_slot, cancel-IsOwned, owner,
}
use taunicorn.Python.Upgrade.Owned.Slots.{raw-IsOwned, split-IsOwned, close-IsOwned}
use taunicorn.Python.Upgrade.Owned.Phases.{
  start-IsOwned, succeeds-IsOwned, give_up-IsOwned, finish-IsOwned,
}

module _ (s : Upgrades) (o : IsOwned s) where
  abbrev Wrapped : ConnectionSlot → Type 0
  Wrapped slot =
      IsOwned (with_slot s.wrapper.clones s.wrapper.cancelled s.phase slot s.wrapper.poisoned)

  -- A fact about the slot of a running upgrade.
  at_owner :
      (f : Upgrades → Upgrades) (t : ℕ)
      → is_running (s.phase t) ≡ true
      → ((IsOwned (
            with_slot s.wrapper.clones s.wrapper.cancelled s.phase
              (upgrading t)
              s.wrapper.poisoned))
          → IsOwned (
              f (
                with_slot s.wrapper.clones s.wrapper.cancelled s.phase
                  (upgrading t)
                  s.wrapper.poisoned)))
      → IsOwned (f s)
  at_owner f t e g =
      subst
        (λ slot.
          Wrapped slot
          → IsOwned
              (f (with_slot s.wrapper.clones s.wrapper.cancelled s.phase slot s.wrapper.poisoned)))
        (sym (owner s.wrapper.clones s.wrapper.cancelled s.phase s.wrapper.slot t (o.agrees t) e)) g
        o

running_of : (q : Phase) → q ≡ handshaking ⊎ q ≡ finishing → is_running q ≡ true
running_of q (inl e) = ap is_running e
running_of q (inr e) = ap is_running e

Step-IsOwned : {s u : Upgrades} → Step s u → IsOwned s → IsOwned u
Step-IsOwned (raw_call s) o =
    raw-IsOwned s.wrapper.clones s.wrapper.cancelled s.phase s.wrapper.slot s.wrapper.poisoned o
Step-IsOwned (raw_end s n e) o = record {
  agrees = o.agrees;
  unshared = λ f. absurd (omega (arith, o.unshared f));
}
Step-IsOwned (splits s) o =
    split-IsOwned s.wrapper.clones s.wrapper.cancelled s.phase s.wrapper.slot s.wrapper.poisoned o
Step-IsOwned (closes s) o =
    close-IsOwned s.wrapper.clones s.wrapper.cancelled s.phase s.wrapper.slot s.wrapper.poisoned o
Step-IsOwned (starts s t e) o =
    start-IsOwned s.wrapper.clones s.wrapper.cancelled s.phase s.wrapper.slot s.wrapper.poisoned t o
Step-IsOwned (succeeds s t e) o =
    at_owner s o (λ x. record x { phase = set_phase t finishing x.phase }) t
      (running_of (s.phase t) (inl e))
      (succeeds-IsOwned s.wrapper.clones s.wrapper.cancelled s.phase s.wrapper.poisoned t)
Step-IsOwned (gives_up s t e) o =
    at_owner s o (give_up t) t e
      (give_up-IsOwned s.wrapper.clones s.wrapper.cancelled s.phase s.wrapper.poisoned t)
Step-IsOwned (finishes s t e) o =
    at_owner s o (finish t) t (running_of (s.phase t) (inr e))
      (finish-IsOwned s.wrapper.clones s.wrapper.cancelled s.phase s.wrapper.poisoned t)
Step-IsOwned (cancels s t) o =
    cancel-IsOwned s.wrapper.clones s.wrapper.cancelled s.phase s.wrapper.slot s.wrapper.poisoned t
      o

pub Reach-IsOwned : {s : Upgrades} → Reach new_connection s → IsOwned s
Reach-IsOwned here = new_connection-IsOwned
Reach-IsOwned (next r step) = Step-IsOwned step (Reach-IsOwned r)
