-- ===== src/Tests.antt =====
-- The tests: concrete parameters, and for each theorem with hypotheses an input where they hold.
mod Toy
mod Frames
mod Sessions
mod Connections
mod Servers
mod Connected
mod Handshakes
pub mod Queues
mod Upgrades
mod PythonSessions
mod PythonCalls
mod Tasks
