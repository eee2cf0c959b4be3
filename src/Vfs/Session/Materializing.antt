-- ===== src/Vfs/Session/Materializing.antt =====
-- MaterializeCurrent and hashNativePath of internal/vfs/session.go. The loop of the code has no
-- bound: where a read adds nothing and is no error, it reads again. Here it runs on fuel.
use codexfold.Prelude.{
  ℕ, zero, suc, ◌-◌, Bool, true, false, not, ◌||◌, ◌&&◌, [], ◌++◌, Option, none, some, Outcome, ok,
  err, ltb, ◌==◌, length, min, if◌then◌else◌,
}
use codexfold.Prelude.Bytes.{Bytes, bytes_eq, is_empty}
use codexfold.Prelude.Int.{pos}
use codexfold.Vfs.View.{Fault, is_end_of_file}
use codexfold.Vfs.Session.State.{
  Session, NativeFile, Host, Files, Trouble, Method, put, continue, call_failed, read_failed,
  out_of_fuel, over_budget, target_missing, target_exists, verification_failed, stat_target_path,
  make_directory, hash_materialized, create_temporary, chmod_temporary, write_temporary,
  sync_temporary, close_temporary, publish_file, sync_directory, context,
}
use codexfold.Vfs.Session.Readers.{ReadHandle, read_handle, open_reader, close_reader}
use codexfold.Vfs.Session.Copying.{Round, broken, ended, grown, copy_buffer_size}

-- A round ends the loop only by an error.
unfoldable pub heed : Bytes → Bytes → Option Fault → Round
heed out found none = grown (out ++ found)
heed out found (some e) =
    if not (is_end_of_file e) then broken (read_failed e) else grown (out ++ found)

unfoldable pub after_chunk : Host → Bytes → Bytes × Option Fault → Round
after_chunk host out (found, failure) =
    if ltb 0 (length found) && host.fails (write_temporary (length out))
    then broken (call_failed (write_temporary (length out)))
    else heed out found failure

module _ (host : Host) (files : Files) (h : ReadHandle) where
  unfoldable pub materialize_round : Bytes → Round
  materialize_round out =
      if not (ltb (length out) h.size)
      then ended out
      else if host.fails (context (length out))
      then broken (call_failed (context (length out)))
      else after_chunk host out
          (read_handle host files h (min copy_buffer_size (h.size - length out)) (pos (length out)))

  unfoldable pub materialize_loop : ℕ → Bytes → Outcome Trouble Bytes
  materialize_loop zero out = err out_of_fuel
  materialize_loop (suc fuel) out = elim (materialize_round out) [
    | broken e ↦ err e
    | ended out' ↦ ok out'
    | grown out' ↦ materialize_loop fuel out'
  ]

-- The bytes that an overwritten target gives back.
abbrev pub reclaimable : Bool → Option Bytes → ℕ
reclaimable overwrite none = 0
reclaimable overwrite (some bytes) = if overwrite then length bytes else 0

-- The file, once it is in place, is read back.
unfoldable pub settle_target : Host → Bytes → Bytes → Method NativeFile
settle_target host target out s =
    let native : NativeFile = record {
      path = target;
      bytes = length out;
      sha256 = host.sha256 out;
    } in
    let written = host.settles out in
    let placed : Session = record s { files = put target written s.files } in
    if host.fails publish_file
    then (err (call_failed publish_file), s)
    else if host.fails sync_directory
    then (err (call_failed sync_directory), placed)
    else if host.fails hash_materialized
    then (err (call_failed hash_materialized), placed)
    else if not (length written == length out)
        || not (bytes_eq (host.sha256 written) (host.sha256 out))
    then (err verification_failed, placed)
    else (ok native, placed)

abbrev pub after_loop : Host → Bytes → Outcome Trouble Bytes → Method NativeFile
after_loop host target (err e) s = (err e, s)
after_loop host target (ok out) s =
    if host.fails sync_temporary
    then (err (call_failed sync_temporary), s)
    else if host.fails close_temporary
    then (err (call_failed close_temporary), s)
    else settle_target host target out s

unfoldable pub write_target_file : Host → ℕ → Bytes → Bool → ReadHandle → Method NativeFile
write_target_file host fuel target overwrite h s =
    if overwrite && host.fails stat_target_path
    then (err (call_failed stat_target_path), s)
    else if not (
        host.grants (record {
          additional_persistent_bytes = h.size;
          temporary_bytes = h.size;
          temporary_persistent_overlap_bytes = h.size;
          reclaimable_bytes = reclaimable overwrite (s.files target);
        }))
    then (err over_budget, s)
    else if host.fails make_directory
    then (err (call_failed make_directory), s)
    else if host.fails create_temporary
    then (err (call_failed create_temporary), s)
    else if host.fails chmod_temporary
    then (err (call_failed chmod_temporary), s)
    else after_loop host target (materialize_loop host s.files h fuel []) s

-- The deferred close of the reader.
abbrev pub and_close :
    Host → ReadHandle → Outcome Trouble NativeFile × Session → Outcome Trouble NativeFile × Session
and_close host h (r, s) = (r, (close_reader host h s).1.1)

abbrev pub is_there : Option Bytes → Bool
is_there none = false
is_there (some bytes) = true

unfoldable pub materialize_current : Host → ℕ → Bytes → Bool → Method NativeFile
materialize_current host fuel target overwrite s =
    if is_empty target
    then (err target_missing, s)
    else if not overwrite && is_there (s.files target)
    then (err target_exists, s)
    else if not overwrite && host.fails stat_target_path
    then (err (call_failed stat_target_path), s)
    else continue (λ h t. and_close host h (write_target_file host fuel target overwrite h t))
        (open_reader host s)
