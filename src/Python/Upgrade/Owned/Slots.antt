-- ===== src/Python/Upgrade/Owned/Slots.antt =====
-- Raw calls, splits and closes on the slot of a `PyConnection` (crates/taunicorn-python/src/lib.rs).
use taunicorn.Prelude.{ℕ, ◌≡◌, refl, Bool, true, false, ◌==◌, ==_iff}
use taunicorn.Python.Slot.{
  ConnectionSlot, plain, upgrading, secure, consumed, plain_connection, take_for_split, split,
  close_target,
}
use taunicorn.Python.Upgrade.{Phase}
use taunicorn.Python.Upgrade.Owned.{IsOwned, made, with_slot, unwrapped, cancel-IsOwned}

module _ (n : ℕ) (c : ℕ → Bool) (p : ℕ → Phase) where
  pub raw-IsOwned :
      (slot : ConnectionSlot) (b : Bool)
      → IsOwned (with_slot n c p slot b)
      → IsOwned (record { wrapper = (plain_connection (made slot b n c)).1; phase = p })
  unfolding plain_connection
  raw-IsOwned slot true o = o
  raw-IsOwned plain false o = record { agrees = o.agrees; unshared = λ e. cc }
  raw-IsOwned (upgrading t) false o = o
  raw-IsOwned (secure t) false o = o
  raw-IsOwned consumed false o = o

  split_taken :
      (b : Bool)
      → (n == 0) ≡ b
      → IsOwned (with_slot n c p plain false)
      → IsOwned (record { wrapper = (unwrapped n c p b consumed split).1; phase = p })
  split_taken true e o = record { agrees = o.agrees; unshared = λ _. (==_iff n 0).0 e }
  split_taken false e o = o

  pub split-IsOwned :
      (slot : ConnectionSlot) (b : Bool)
      → IsOwned (with_slot n c p slot b)
      → IsOwned (record { wrapper = (take_for_split (made slot b n c)).1; phase = p })
  unfolding take_for_split
  split-IsOwned slot true o = o
  split-IsOwned plain false o = split_taken (n == 0) refl o
  split-IsOwned (upgrading t) false o = o
  split-IsOwned (secure t) false o = o
  split-IsOwned consumed false o = o

  pub close-IsOwned :
      (slot : ConnectionSlot) (b : Bool)
      → IsOwned (with_slot n c p slot b)
      → IsOwned (record { wrapper = (close_target (made slot b n c)).1; phase = p })
  unfolding close_target
  close-IsOwned slot true o = o
  close-IsOwned plain false o = record { agrees = o.agrees; unshared = λ e. cc }
  close-IsOwned (upgrading t) false o = cancel-IsOwned n c p (upgrading t) false t o
  close-IsOwned (secure t) false o = cancel-IsOwned n c p (secure t) false t o
  close-IsOwned consumed false o = o
