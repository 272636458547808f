-- ===== src/Python/Exceptions.antt =====
-- The classes of the Python exceptions that crates/taunicorn-python/src raises. The four classes of
-- queues are declared in channel.rs.
pub data Exception : Type 0 where
  queue_closed queue_full queue_empty queue_busy : Exception
  blocking_io_error connection_error os_error runtime_error timeout_error : Exception
  type_error value_error eof_error overflow_error : Exception
