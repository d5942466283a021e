-- ===== src/Store.antt =====
-- The runtime store of eventide/store.py: sessions, turns, runs, and the append-only Event Log.
pub mod State
pub mod Sets
pub mod Visits
pub mod Log
pub mod Sessions
pub mod Runs
pub mod Rows
pub mod Calls
pub mod Links
pub mod Queries
pub mod Finish
