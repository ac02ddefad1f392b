-- ===== src/Compensation.antt =====
-- apps/compensation: scoring of an employee against a policy, and the approval and application of
-- the recommendation.
pub mod Models
pub mod Scoring
pub mod Workflow
pub mod Guards
mod Tests
