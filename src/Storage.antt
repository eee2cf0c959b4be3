-- ===== src/Storage.antt =====
-- What a mutation of the store may cost: internal/storage/budget.go.
pub mod Budget
pub mod Policy
mod Tests
