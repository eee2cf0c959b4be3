-- ===== src/Fold.antt =====
-- The manifests of folded sessions: internal/fold/manifest.go.
pub mod Manifest
pub mod Digests
