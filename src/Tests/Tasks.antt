-- ===== src/Tests/Tasks.antt =====
-- Two sends on one connection (crates/taunicorn/src/lib.rs): the second looks at the flags while the
-- first one writes.
use taunicorn.Prelude.{ℕ, refl, Option}
use taunicorn.Endpoint.{done}
use taunicorn.Connection.{new, next_socket_id}
use taunicorn.Connection.Prog.{won}
use taunicorn.Connection.Calls.{send, ensure_write_available, stream, write_loop}
use taunicorn.Connection.Closing.{Call, sending}
use taunicorn.Connection.Together.{
  Tasks, accesses, locks, writes, Reach, here, next, Apart, calls_on,
}
use taunicorn.Connection.Together.Exclusive.{writes-Apart}
use taunicorn.Tests.Connections.{open_core, five}

abbrev sends : ℕ → Call
sends i = sending five

two_sends : (u : Tasks) × Reach (calls_on open_core sends) u
unfolding send ensure_write_available stream write_loop new next_socket_id
two_sends = (
  _,
  next
      (next
        (next
          (next
            (next
              (next
                (next
                  (next
                    (next (next (next here (accesses _ 0 _ _ refl)) (accesses _ 0 _ _ refl))
                      (accesses _ 1 _ _ refl))
                    (accesses _ 0 _ _ refl))
                  (locks _ 0 _ _ _ refl refl))
                (accesses _ 0 _ _ refl))
              (accesses _ 0 _ _ refl))
            (accesses _ 0 _ _ refl))
          (accesses _ 0 _ _ refl))
        (accesses _ 0 _ _ refl))
      (writes _ 0 _ _ _ (won (done 2)) refl),
)

writes-Apart_example : (last : Option ℕ) × Apart two_sends.0.log last
unfolding new next_socket_id
writes-Apart_example = writes-Apart open_core sends two_sends.0 refl two_sends.1
