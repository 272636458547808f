-- ===== src/Tests/Upgrades.antt =====
-- The slot of a `PyConnection` of crates/taunicorn-python/src/lib.rs, with one upgrade.
use taunicorn.Prelude.{ℕ, ◌≡◌, refl, true}
use taunicorn.Python.Slot.{
  from_rust, connection, plain_connection, take_for_split, begin_secure, finish_secure, refused,
  handshake_failed,
}
use taunicorn.Python.Upgrade.{
  finishing, Upgrades, set_phase, start, give_up, finish, Reach, here, next, starts, succeeds,
  gives_up, finishes, new_connection,
}
use taunicorn.Python.Upgrade.Exclusive.{owner_excludes, failed_upgrade_reported, is_refused}

abbrev begun : Upgrades
begun = start 0 new_connection

abbrev handshaken : Upgrades
handshaken = record begun { phase = set_phase 0 finishing begun.phase }

begun_reached : Reach new_connection begun
begun_reached = next here (starts new_connection 0 refl)

handshaken_reached : Reach new_connection handshaken
unfolding start begin_secure from_rust
handshaken_reached = next begun_reached (succeeds begun 0 refl)

secured_reached : Reach new_connection (finish 0 handshaken)
unfolding start begin_secure from_rust
secured_reached = next handshaken_reached (finishes handshaken 0 refl)

failed_reached : Reach new_connection (give_up 0 begun)
unfolding start begin_secure from_rust
failed_reached = next begun_reached (gives_up begun 0 refl)

owner_excludes_example :
    (◌≡◌ {A = ℕ} 0 0)
    × ((finish 0 handshaken).wrapper.clones ≡ 0)
    × (is_refused (plain_connection (finish 0 handshaken).wrapper).0 ≡ true)
    × (is_refused (take_for_split (finish 0 handshaken).wrapper).0 ≡ true)
    × (is_refused (begin_secure 1 (finish 0 handshaken).wrapper).0 ≡ true)
unfolding start begin_secure from_rust finish finish_secure
owner_excludes_example = owner_excludes secured_reached 0 0 1 refl refl

failed_upgrade_reported_example :
    (connection (give_up 0 begun).wrapper).0 ≡ refused handshake_failed
unfolding start begin_secure from_rust give_up
failed_upgrade_reported_example = failed_upgrade_reported failed_reached 0 refl refl refl
