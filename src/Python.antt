-- ===== src/Python.antt =====
-- The Python bindings in crates/taunicorn-python/src.
pub mod Exceptions
pub mod Failures
pub mod Queue
pub mod Slot
pub mod Upgrade
pub mod Session
pub mod Calls
