-- ===== src/Scheduler.antt =====
-- The admission of root runs of eventide/scheduler.py: the queue that is read off the Event Log,
-- the tickets and leases of one Host, and the slots of model requests.
pub mod Queue
pub mod Admission
pub mod Cases
pub mod Counting
pub mod Distinct
pub mod Exclusive
pub mod Capacity
pub mod Transfers
pub mod Sequences
pub mod Limits
pub mod Arrivals
pub mod Order
pub mod Slots
