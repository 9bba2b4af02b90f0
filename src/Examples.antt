-- ===== src/Examples.antt =====
-- Runs of the modelled code on concrete data, with a small server in memory as the database.
pub mod Samples
mod Bytes
mod Lobby
mod Locks
mod Calls
mod Draining
mod Accounts
mod Arrivals
mod Wire
mod Workers
mod Programs
mod Receptions
