-- ===== src/Vfs/Session/Served.antt =====
-- A session over a view that `NewView` accepts stands on the file of the manifest.
use codexfold.Prelude.{◌≡◌, ok, All}
use codexfold.Fold.Manifest.{Manifest}
use codexfold.Vfs.View.{View, new_view, finished}
use codexfold.Vfs.Chain.{Store, Serves, NeverCancelled}
use codexfold.Vfs.Reading.{Stored, file_of, read_at-exact}
use codexfold.Vfs.Session.State.{Host}
use codexfold.Vfs.Session.Reads.{IsBased}

pub new_view-IsBased :
    (store : Store) (host : Host) (manifest : Manifest) {v : View}
    → Serves store host.read_object
    → NeverCancelled host.is_cancelled
    → All (Stored store) manifest.parts
    → new_view manifest ≡ ok v
    → IsBased host v (file_of store manifest.parts)
unfolding finished
new_view-IsBased store host manifest serves never stored h = λ wanted offset.
    read_at-exact store host.read_object host.is_cancelled manifest wanted offset serves never
      stored h
