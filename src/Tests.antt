-- ===== src/Tests.antt =====
-- The theorems at concrete inputs, and runs of the definitions.
mod Data
mod Log
mod Ledger
mod Queueing
mod Tasks
mod Loops
mod Bills
mod Transcripts
mod Passages
mod Repairs
mod Costs
mod Requests
mod Recoveries
mod Plans
mod Modes
