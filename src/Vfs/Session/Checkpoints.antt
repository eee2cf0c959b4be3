-- ===== src/Vfs/Session/Checkpoints.antt =====
-- Sync, Close and the checkpoint of a WriteHandle: internal/vfs/handles.go. Of the checkpoint, what
-- is handed to it is kept.
use codexfold.Prelude.{
  Bool, true, false, not, ◌&&◌, ◌||◌, [], ◌∷◌, ◌++◌, Option, none, some, ◌==◌, length,
  if◌then◌else◌,
}
use codexfold.Prelude.Bytes.{Bytes, bytes_eq}
use codexfold.Vfs.Session.State.{
  Session, Host, Trouble, NativeFile, active_path, open_target, sync_target, close_target,
  checkpoint, unlock_lease, close_lease, call_failed, missing_file, writer_closed,
}
use codexfold.Vfs.Session.Readers.{join, failure_of}
use codexfold.Vfs.Session.Writers.{WriteHandle, Reply, refuse, keep}

abbrev pub is_hashed : WriteHandle → Bytes → Bytes → Bool
is_hashed h path bytes =
    h.append_hash_valid && bytes_eq h.append_hash_path path && length bytes == h.append_hash_bytes

-- The identity of the file in use, where the hash of its bytes is at hand.
unfoldable pub active_identity : Host → WriteHandle → Bytes → Bytes → Option NativeFile
active_identity host h path bytes =
    if is_hashed h path bytes
    then some
        (record { path = path; bytes = h.append_hash_bytes; sha256 = host.sha256 h.append_hashed })
    else none

-- A hash that does not fit the file is given up.
abbrev pub checked_hash : WriteHandle → Bytes → Bytes → WriteHandle
checked_hash h path bytes = record h {
  append_hash_valid =
      h.append_hash_valid
      && (not (bytes_eq h.append_hash_path path) || length bytes == h.append_hash_bytes);
}

unfoldable pub refresh_checkpoint : Host → WriteHandle → Session → Bytes → Bytes → Reply
refresh_checkpoint host h s path bytes =
    if host.fails checkpoint
    then refuse (call_failed checkpoint) (checked_hash h path bytes) s
    else keep (record (checked_hash h path bytes) { dirty = false })
        (record s {
          checkpoints =
              s.checkpoints
              ++ (record { state = s.state; identity = active_identity host h path bytes } ∷ []);
        })

-- What is done once the file is synced and closed, or is not.
abbrev pub synced : Host → WriteHandle → Session → Bytes → Bytes → Option Trouble → Reply
synced host h s path bytes (some e) = refuse e h s
synced host h s path bytes none =
    if not h.dirty then keep h s else refresh_checkpoint host h s path bytes

unfoldable pub sync_file : Host → WriteHandle → Session → Bytes → Bytes → Reply
sync_file host h s path bytes =
    if host.fails open_target
    then refuse (call_failed open_target) h s
    else synced host h s path bytes
        (join (failure_of host sync_target) (failure_of host close_target))

abbrev pub sync_found : Host → WriteHandle → Session → Option Bytes → Reply
sync_found host h s none = refuse missing_file h s
sync_found host h s (some bytes) = sync_file host h s (active_path s.state) bytes

-- `Sync`.
unfoldable pub sync_and_checkpoint : Host → WriteHandle → Session → Reply
sync_and_checkpoint host h s =
    if h.closed
    then refuse writer_closed h s
    else sync_found host h s (s.files (active_path s.state))

-- The end of `Close`, whatever became of the checkpoint.
unfoldable pub let_go : Host → Reply → Reply
let_go host r = record {
  count = 0;
  failure = join r.failure (join (failure_of host unlock_lease) (failure_of host close_lease));
  handle = record r.handle { closed = true };
  session = record r.session { writer_open = false };
}

unfoldable pub close_writer : Host → WriteHandle → Session → Reply
close_writer host h s =
    if h.closed
    then keep h s
    else let_go host (if h.dirty then sync_and_checkpoint host h s else keep h s)
