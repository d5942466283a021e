-- ===== src/Budgets.antt =====
-- Token budgets of eventide/budgets.py: a ledger that is read off the Event Log.
pub mod Ledger
pub mod Context
pub mod Operations
pub mod Settling
pub mod Limits
pub mod Replay
pub mod Totals
pub mod Conservation
pub mod Climb
