-- ===== src/Enroll.antt =====
-- Which rollouts the next cycle folds: internal/enroll/planner.go.
pub mod Estimate
pub mod Plan
pub mod Build
pub mod Apply
mod Tests
