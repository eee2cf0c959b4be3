-- ===== src/Vfs.antt =====
-- Virtual files over folded manifests: internal/vfs/view.go.
pub mod View
pub mod Slices
pub mod Prefixes
pub mod Chain
pub mod Rounds
pub mod Loop
pub mod Reading
pub mod Room
pub mod Session
mod Tests
