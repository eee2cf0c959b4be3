-- ===== src/Contain.antt =====
-- Whether one rollout is contained in another: internal/contain/contain.go.
pub mod Records
pub mod Matching
pub mod Comparison
pub mod Lines
pub mod Exact
pub mod Progress
pub mod Borders
pub mod Longest
pub mod Complete
mod Tests
