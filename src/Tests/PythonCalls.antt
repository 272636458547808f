-- ===== src/Tests/PythonCalls.antt =====
-- The guards of crates/taunicorn-python/src/lib.rs on a connection that is open and paused, and the
-- exception of a write that failed after a part.
use taunicorn.Prelude.{◌≡◌, refl, true, some}
use mathlib.Core.Option
use taunicorn.Outcome.{err, connection_is_paused, failed_after}
use taunicorn.Connection.{new, next_socket_id}
use taunicorn.Connection.Flags.{set_paused}
use taunicorn.Connection.Calls
use taunicorn.Connection.Calls.{ensure_write_available}
use taunicorn.Connection.Exec.{World, run}
use taunicorn.Python.Exceptions.{connection_error}
use taunicorn.Python.Failures.{codes, failure, to_py_err}
use taunicorn.Python.Failures.Classes.{documented_exception}
use taunicorn.Python.Calls.{unless_completed, send, write_some, write_all_timeout}
use taunicorn.Python.Calls.Guarded.{IsShut, guard_closes, paused_write_closes}
use taunicorn.Tests.Connections.{world, five, quiet}

abbrev paused_world : World
paused_world = record world { core = set_paused true world.core }

guard_closes_example : IsShut (run (unless_completed Calls.close (Calls.send five)) paused_world).1
unfolding run Calls.send ensure_write_available new next_socket_id
guard_closes_example = guard_closes (Calls.send five) paused_world quiet refl

paused_write_closes_example :
    (run (Calls.send five) paused_world ≡ (err connection_is_paused, paused_world))
    × IsShut (run (send five) paused_world).1
    × IsShut (run (write_all_timeout five) paused_world).1
    × IsShut (run (write_some five) paused_world).1
unfolding new next_socket_id
paused_write_closes_example = paused_write_closes five paused_world quiet refl refl refl

documented_exception_example :
    Option.map to_py_err (failure (failed_after 12 345 (codes "Broken pipe (os error 32)")))
    ≡ some connection_error
documented_exception_example =
    documented_exception (failed_after 12 345 (codes "Broken pipe (os error 32)")) refl
