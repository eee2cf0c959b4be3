-- ===== src/Vfs/Session/Tests/Syncing.antt =====
-- A writer that appends and syncs.
use codexfold.Prelude.{List, [], ◌∷◌}
use codexfold.Vfs.Session.State.{Host}
use codexfold.Vfs.Session.Writers.{new_writer}
use codexfold.Vfs.Session.Checkpoints.{sync_and_checkpoint}
use codexfold.Vfs.Session.Steps.{Request, appending}
use codexfold.Vfs.Session.Syncing.{Synced, perform_all, sync-perform_all}
use codexfold.Vfs.Session.Tests.{
  well_host, session, base, session-IsServed, no_collisions, session-IsApart,
}

abbrev requests : List (Host × Request)
requests = (well_host, appending (b'!' ∷ [])) ∷ []

sync-perform_all_example : Synced well_host (perform_all requests new_writer session).session (
    sync_and_checkpoint well_host
      ((perform_all requests new_writer session).handle)
      ((perform_all requests new_writer session).session))
sync-perform_all_example =
    sync-perform_all base requests well_host session session-IsApart
      (record { served = session-IsServed; collision_free = no_collisions }, tt)
