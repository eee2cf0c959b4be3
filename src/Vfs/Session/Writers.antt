-- ===== src/Vfs/Session/Writers.antt =====
-- The writers of a session: OpenWriter and acquireWriterLease of internal/vfs/session.go, refreshNativeRetirementLocked of native_retirement.go, and the
-- WriteHandle of handles.go. The hash of the appended bytes is known by the bytes that went into it.
use codexfold.Prelude.{
  ℕ, zero, suc, ◌+◌, ◌-◌, ◌^◌, Bool, true, false, not, ◌||◌, ◌&&◌, [], ◌∷◌, ◌++◌, Option, none,
  some, Outcome, ok, err, ltb, ◌==◌, length, take, drop, if◌then◌else◌,
}
use codexfold.Prelude.Bytes.{Bytes, bytes_eq, is_empty}
use codexfold.Prelude.Int.{ℤ, pos_part, is_negative}
use codexfold.Vfs.Session.State.{
  Session, SessionState, NativeFile, Host, Call, Trouble, Method, put, attempt, continue, ◌>>◌,
  active_path, visible_size, open_lease_file, lock_lease_file, fill_lease_file, reload_state,
  load_proof, open_target, stat_target, close_target, rollback, sync_rollback, hash_target,
  resize_target, call_failed, writer_busy, recovery_deferred, changed_outside, proof_mismatch,
  missing_file, writer_closed, negative_offset, negative_size, short_write, joined, context,
}
use codexfold.Vfs.Session.Copying.{ensure_backing}

-- What the bytes of the hash were, and of which file.
pub record WriteHandle : Type 0 where
  pub closed : Bool
  pub dirty : Bool
  pub append_hashed : Bytes
  pub append_hash_path : Bytes
  pub append_hash_bytes : ℕ
  pub append_hash_valid : Bool

abbrev pub new_writer : WriteHandle
new_writer = record {
  closed = false;
  dirty = false;
  append_hashed = [];
  append_hash_path = [];
  append_hash_bytes = 0;
  append_hash_valid = false;
}

-- The lock of the file, unless another holds it.
abbrev pub try_lock : Host → Method Unit
try_lock host s = if host.is_locked then (err writer_busy, s) else (ok tt, s)

-- `acquireWriterLease`: the lock of another holder is not waited for.
unfoldable pub acquire_writer_lease : Host → Method Unit
acquire_writer_lease host = do
  attempt host open_lease_file
  attempt host lock_lease_file
  try_lock host
  attempt host fill_lease_file

abbrev pub same_native : NativeFile → NativeFile → Bool
same_native a b = bytes_eq a.path b.path && a.bytes == b.bytes && bytes_eq a.sha256 b.sha256

abbrev pub same_path : Option Bytes → Option Bytes → Bool
same_path none none = true
same_path none (some b) = false
same_path (some a) none = false
same_path (some a) (some b) = bytes_eq a b

-- `sameSessionStateExceptRetiredNative`: equal but for the generation and the snapshot.
unfoldable pub same_but_native : SessionState → SessionState → Bool
same_but_native a b =
    a.version == b.version
    && bytes_eq a.session_id b.session_id
    && bytes_eq a.manifest_path b.manifest_path
    && bytes_eq a.manifest_sha256 b.manifest_sha256
    && a.base_bytes == b.base_bytes
    && bytes_eq a.base_sha256 b.base_sha256
    && bytes_eq a.delta_path b.delta_path
    && same_path a.backing_path b.backing_path

abbrev pub same_state : SessionState → SessionState → Bool
same_state a b =
    same_but_native a b
    && a.generation == b.generation
    && same_native a.native_snapshot b.native_snapshot

abbrev no_file : NativeFile
no_file = record { path = []; bytes = 0; sha256 = [] }

-- The published state has retired the snapshot, and nothing else.
unfoldable pub retires : SessionState → SessionState → Bool
retires current published =
    not (current.generation == 2 ^ 64 - 1)
    && published.generation == current.generation + 1
    && not (is_empty current.native_snapshot.path)
    && same_native published.native_snapshot no_file
    && same_but_native current published

unfoldable pub proves : Host → SessionState → Bool
proves host current =
    bytes_eq host.retirement_proof.session_id current.session_id
    && host.retirement_proof.state_generation == current.generation
    && same_native host.retirement_proof.snapshot current.native_snapshot

-- `refreshNativeRetirementLocked`.
unfoldable pub refresh_native_retirement : Host → Method Unit
refresh_native_retirement host s =
    if host.fails reload_state
    then (err (call_failed reload_state), s)
    else if same_state s.published s.state
    then (ok tt, s)
    else if not (retires s.state s.published)
    then (err changed_outside, s)
    else if host.fails load_proof
    then (err (call_failed load_proof), s)
    else if not (proves host s.state)
    then (err proof_mismatch, s)
    else (ok tt, record s { state = s.published })

-- The refresh of `OpenWriter`, which frees the lease where it fails.
unfoldable pub refreshed :
    Outcome Trouble (Unit {0}) × Session → Outcome Trouble WriteHandle × Session
refreshed (ok u, s) = (ok new_writer, s)
refreshed (err e, s) = (err e, record s { writer_open = false })

unfoldable pub open_writer : Host → Method WriteHandle
open_writer host s =
    if s.recovery_deferred
    then (err recovery_deferred, s)
    else if s.writer_open
    then (err writer_busy, s)
    else continue
        (λ u t. refreshed (refresh_native_retirement host (record t { writer_open = true })))
        (acquire_writer_lease host s)

-- A method of a write handle: what it returns, the error, the handle and the session.
pub record Reply : Type 0 where
  pub count : ℕ
  pub failure : Option Trouble
  pub handle : WriteHandle
  pub session : Session

abbrev pub refuse : Trouble → WriteHandle → Session → Reply
refuse e h s = record { count = 0; failure = some e; handle = h; session = s }

-- `ensureAppendHash`, where the file is there.
unfoldable pub rehash : WriteHandle → Bytes → Bytes → WriteHandle
rehash h path bytes =
    if h.append_hash_valid && bytes_eq h.append_hash_path path then h else record h {
      append_hashed = bytes;
      append_hash_path = path;
      append_hash_bytes = length bytes;
      append_hash_valid = true;
    }

unfoldable pub needs_hash : WriteHandle → Bytes → Bool
needs_hash h path = not (h.append_hash_valid && bytes_eq h.append_hash_path path)

abbrev pub hash_more : WriteHandle → Bytes → WriteHandle
hash_more h more =
    if ltb 0 (length more)
    then record h {
      append_hashed = h.append_hashed ++ more;
      append_hash_bytes = h.append_hash_bytes + length more;
      dirty = true;
    }
    else h

abbrev pub write_failure : Bool → Bytes → Bytes → Option Trouble
write_failure failed wanted arrived =
    if failed
    then some (call_failed Call.write_target)
    else if not (length arrived == length wanted)
    then some short_write
    else none

-- A failed append is rolled back to the length that the file had.
unfoldable pub roll_back : Host → WriteHandle → Session → Bytes → Bytes → Bytes → Trouble → Reply
roll_back host h s path bytes arrived e =
    let written = record s { files = put path (bytes ++ arrived) s.files } in
    let undone = record s { files = put path bytes s.files } in
    let spoilt = record h { append_hash_valid = false; dirty = true } in
    if host.fails rollback
    then record {
      count = length arrived;
      failure = some (joined e (call_failed rollback));
      handle = spoilt;
      session = written;
    }
    else if host.fails sync_rollback
    then record {
      count = length arrived;
      failure = some (joined e (call_failed sync_rollback));
      handle = spoilt;
      session = undone;
    }
    else record { count = 0; failure = some e; handle = h; session = undone }

-- What `Append` does with the answer of the write.
unfoldable pub settle_append :
    Host → WriteHandle → Session → Bytes → Bytes → Bytes → Option Trouble → Reply
settle_append host h s path bytes arrived none = record {
  count = length arrived;
  failure = if host.fails close_target then some (call_failed close_target) else none;
  handle = hash_more h arrived;
  session = record s { files = put path (bytes ++ arrived) s.files };
}
settle_append host h s path bytes arrived (some e) =
    if ltb 0 (length arrived)
    then roll_back host h s path bytes arrived e
    else record { count = 0; failure = some e; handle = h; session = s }

unfoldable pub append_to : Host → WriteHandle → Session → Bytes → Bytes → Bytes → Reply
append_to host h s path bytes more =
    let arrived = take ((host.writes more).0) more in
    let hashed = rehash h path bytes in
    if needs_hash h path && host.fails hash_target
    then refuse (call_failed hash_target) h s
    else if host.fails open_target
    then refuse (call_failed open_target) hashed s
    else if host.fails stat_target
    then refuse (call_failed stat_target) hashed s
    else settle_append host hashed s path bytes arrived
        (write_failure ((host.writes more).1) more arrived)

abbrev pub append_found : Host → Bytes → WriteHandle → Session → Option Bytes → Reply
append_found host more h s none = refuse missing_file h s
append_found host more h s (some bytes) = append_to host h s (active_path s.state) bytes more

unfoldable pub append : Host → Bytes → WriteHandle → Session → Reply
append host more h s =
    if h.closed
    then refuse writer_closed h s
    else if host.fails (context 0)
    then refuse (call_failed (context 0)) h s
    else append_found host more h s (s.files (active_path s.state))

abbrev pub zeros : ℕ → Bytes
zeros zero = []
zeros (suc n) = 0 ∷ zeros n

-- `Truncate` of a file, which may make it longer.
unfoldable pub resize : ℕ → Bytes → Bytes
resize n bytes = take n bytes ++ zeros (n - length bytes)

-- `WriteAt` of a file. A write of no bytes leaves it as it is.
unfoldable pub overwrite : ℕ → Bytes → Bytes → Bytes
overwrite offset [] bytes = bytes
overwrite offset (b ∷ bs) bytes =
    resize offset bytes ++ ((b ∷ bs) ++ drop (offset + length (b ∷ bs)) bytes)

abbrev pub spoil : Bytes → WriteHandle → WriteHandle
spoil arrived h =
    if ltb 0 (length arrived) then record h { dirty = true; append_hash_valid = false } else h

unfoldable pub write_found : Host → ℕ → Bytes → WriteHandle → Bytes → Session → Option Bytes → Reply
write_found host offset more h path s none = refuse missing_file h s
write_found host offset more h path s (some bytes) =
    let arrived = take ((host.writes more).0) more in
    if host.fails open_target then refuse (call_failed open_target) h s else record {
      count = length arrived;
      failure =
          if (host.writes more).1 || not (length arrived == length more)
          then some (call_failed Call.write_target)
          else if host.fails close_target
          then some (call_failed close_target)
          else none;
      handle = spoil arrived h;
      session = record s { files = put path (overwrite offset arrived bytes) s.files };
    }

abbrev pub write_over : Host → ℕ → Bytes → WriteHandle → Bytes → Session → Reply
write_over host offset more h path s = write_found host offset more h path s (s.files path)

-- Goes on with the path of the backing file.
abbrev pub on_backing :
    (Bytes → Session → Reply) → WriteHandle → Outcome Trouble Bytes × Session → Reply
on_backing f h (ok path, s) = f path s
on_backing f h (err e, s) = refuse e h s

unfoldable pub write_at : Host → Bytes → ℤ → WriteHandle → Session → Reply
write_at host more offset h s =
    if h.closed
    then refuse writer_closed h s
    else if is_negative offset
    then refuse negative_offset h s
    else on_backing (write_over host (pos_part offset) more h) h (ensure_backing host s)

unfoldable pub resize_found : Host → ℕ → WriteHandle → Bytes → Session → Option Bytes → Reply
resize_found host size h path s none = refuse missing_file h s
resize_found host size h path s (some bytes) =
    if host.fails resize_target then refuse (call_failed resize_target) h s else record {
      count = 0;
      failure = none;
      handle = record h { dirty = true; append_hash_valid = false };
      session = record s { files = put path (resize size bytes) s.files };
    }

abbrev pub resize_file : Host → ℕ → WriteHandle → Bytes → Session → Reply
resize_file host size h path s = resize_found host size h path s (s.files path)

abbrev pub keep : WriteHandle → Session → Reply
keep h s = record { count = 0; failure = none; handle = h; session = s }

unfoldable pub truncate_from : Host → ℕ → WriteHandle → Session → Outcome Trouble ℕ → Reply
truncate_from host size h s (err e) = refuse e h s
truncate_from host size h s (ok current) =
    if size == current
    then keep h s
    else on_backing (resize_file host size h) h (ensure_backing host s)

unfoldable pub truncate : Host → ℤ → WriteHandle → Session → Reply
truncate host size h s =
    if h.closed
    then refuse writer_closed h s
    else if is_negative size
    then refuse negative_size h s
    else truncate_from host (pos_part size) h s (visible_size s)
