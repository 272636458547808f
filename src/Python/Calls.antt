-- ===== src/Python/Calls.antt =====
-- The calls of `PyConnection`, `PyReadHalf` and `PyWriteHalf` of crates/taunicorn-python/src/lib.rs
-- on the connection that they hold, as programs of Connection/Prog. The task that a guard spawns when
-- it is dropped stands behind the call that dropped it.
pub mod Guarded
use taunicorn.Prelude.{ℕ, List, [], take, replicate, ◌==◌, if◌then◌else◌}
use taunicorn.Outcome.{Error, Outcome, ok, err, dropped, waiting, fuel_out}
use taunicorn.Stream.{ReceiveResult, data_read, end_of_stream}
use taunicorn.Connection.Prog.{Prog, ret, atomic, lock, read, write, sync, ◌>>=◌, pure}
use taunicorn.Connection.Calls

-- `let _ = …` of the spawned task, before a result that does not depend on it.
unfoldable pub regardless : {A : Type 0} → Prog (Unit {0}) → Outcome A → Prog A
regardless (ret x) r = ret r
regardless (atomic f k) r = atomic f (λ s. regardless (k s) r)
regardless (lock g q k) r = lock g q (λ x. regardless (k x) r)
regardless (read n q k) r = read n q (λ x. regardless (k x) r)
regardless (write b q k) r = write b q (λ x. regardless (k x) r)
regardless (sync y q k) r = sync y q (λ x. regardless (k x) r)

-- `CloseConnectionUnlessCompleted` and `ShutdownWriteUnlessCompleted`: the guard is disarmed if the
-- result is `Ok`, and its drop spawns the task otherwise.
unfoldable pub unless_completed : {A : Type 0} → Prog (Unit {0}) → Prog A → Prog A
unfolding regardless
unless_completed task (ret (ok a)) = ret (ok a)
unless_completed task (ret (err e)) = regardless task (err e)
unless_completed task (ret dropped) = regardless task dropped
unless_completed task (ret waiting) = ret waiting
unless_completed task (ret fuel_out) = ret fuel_out
unless_completed task (atomic f k) = atomic f (λ s. unless_completed task (k s))
unless_completed task (lock g q k) = lock g q (λ x. unless_completed task (k x))
unless_completed task (read n q k) = read n q (λ x. unless_completed task (k x))
unless_completed task (write b q k) = write b q (λ x. unless_completed task (k x))
unless_completed task (sync y q k) = sync y q (λ x. unless_completed task (k x))

-- `PyConnection`
unfoldable pub send : List ℕ → Prog (Unit {0})
send bytes = unless_completed Calls.close (Calls.send bytes)

unfoldable pub write_some : List ℕ → Prog ℕ
write_some bytes = unless_completed Calls.close (Calls.write_once bytes)

unfoldable pub write_all_timeout : List ℕ → Prog (Unit {0})
write_all_timeout bytes = unless_completed Calls.close (Calls.send_timeout bytes)

unfoldable pub shutdown_write : Prog (Unit {0})
shutdown_write = unless_completed Calls.close Calls.shutdown_write

-- The future of `close` on a plain connection.
unfoldable pub close_plain : Prog (Unit {0})
close_plain = unless_completed Calls.close Calls.close

-- `PyWriteHalf`
unfoldable pub half_send : List ℕ → Prog (Unit {0})
half_send bytes = unless_completed Calls.shutdown_write (Calls.send bytes)

unfoldable pub half_write : List ℕ → Prog ℕ
half_write bytes = unless_completed Calls.shutdown_write (Calls.write_once bytes)

unfoldable pub half_shutdown_write : Prog (Unit {0})
half_shutdown_write = unless_completed Calls.shutdown_write Calls.shutdown_write

-- `receive_bytes` and `receive_half_bytes`
abbrev pub received : ReceiveResult × List ℕ → Prog (List ℕ)
received (data_read n, buffer) = pure (take n buffer)
received (end_of_stream, buffer) = pure []

unfoldable pub receive_bytes : ℕ → Prog (List ℕ)
receive_bytes max_bytes =
    if max_bytes == 0 then pure [] else (Calls.receive (replicate max_bytes 0) >>= received)
