-- ===== src/TaskPlan.antt =====
-- Task plans of eventide/task_plan.py: a full plan is validated against the previous one.
pub mod Items
pub mod Dependencies
pub mod Updates
pub mod Visits
pub mod Turns
pub mod Identities
pub mod Plans
