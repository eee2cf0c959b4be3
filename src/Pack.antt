-- ===== src/Pack.antt =====
-- The index of a generation of pack files: internal/pack/format.go.
pub mod Format
pub mod Tiling
mod Tests
