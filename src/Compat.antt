-- ===== src/Compat.antt =====
-- Which client versions the mount may serve: internal/compat/contract.go.
pub mod Contract
pub mod Approval
mod Tests
