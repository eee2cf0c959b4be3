-- ===== src/Vfs/Session.antt =====
-- Sessions over virtual files: internal/vfs/session.go, handles.go, and the parts of
-- native_retirement.go, journal.go and state.go that they call.
pub mod State
pub mod Readers
pub mod Copying
pub mod Materializing
pub mod Writers
pub mod Checkpoints
pub mod Reads
pub mod Exact
pub mod Copied
pub mod Kept
pub mod Stages
pub mod Unseen
pub mod Leases
pub mod Backing
pub mod Edits
pub mod Appends
pub mod Overwrites
pub mod Truncates
pub mod Opening
pub mod Handles
pub mod Steps
pub mod Sound
pub mod Reached
pub mod Snapshots
pub mod Served
pub mod Materialized
pub mod Stalls
pub mod Hashes
pub mod Identities
pub mod Syncing
mod Tests
