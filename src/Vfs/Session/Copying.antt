-- ===== src/Vfs/Session/Copying.antt =====
-- The copy on write: ensureBacking of internal/vfs/session.go. The two parts that hold the lock and
-- the copy between them are one step, since only the holder of the writer lease makes copies.
use codexfold.Prelude.{
  ℕ, zero, suc, ◌-◌, Bool, true, false, not, ◌||◌, ◌&&◌, [], ◌∷◌, ◌++◌, Option, none, some, Outcome,
  ok, err, ltb, ◌==◌, length, min, if◌then◌else◌,
}
use codexfold.Prelude.Bytes.{Bytes, bytes_eq}
use codexfold.Prelude.Int.{pos}
use codexfold.Vfs.View.{Fault, is_end_of_file}
use codexfold.Vfs.Session.State.{
  Session, SessionState, Host, Files, Trouble, Method, Phase, put, attempt, return, continue, ◌>>◌,
  backing_name, next_generation, data_synced, after_file_publish, state_published, complete,
  create_temporary, chmod_temporary, write_temporary, sync_temporary, close_temporary,
  hash_temporary, publish_file, sync_directory, publish_state, settle_state, journal,
  settle_journal, hook, context, call_failed, read_failed, over_budget, ended_early,
  verification_failed, generation_changed, out_of_fuel,
}
use codexfold.Vfs.Session.Readers.{ReadHandle, read_handle, open_reader, close_reader}

abbrev pub copy_buffer_size : ℕ
copy_buffer_size = 1048576

-- What one round of the loop makes of a read. A write takes all bytes or fails.
pub data Round : Type 0 where
  broken : Trouble → Round
  ended : Bytes → Round
  grown : Bytes → Round

unfoldable pub grow : Bytes → Bytes → Round
grow out found = if length found == 0 then ended out else grown (out ++ found)

unfoldable pub weigh : Bytes → Bytes → Option Fault → Round
weigh out found none = grow out found
weigh out found (some e) = if not (is_end_of_file e) then broken (read_failed e) else grow out found

unfoldable pub after_read : Host → Bytes → Bytes × Option Fault → Round
after_read host out (found, failure) =
    if ltb 0 (length found) && host.fails (write_temporary (length out))
    then broken (call_failed (write_temporary (length out)))
    else weigh out found failure

module _ (host : Host) (files : Files) (h : ReadHandle) where
  unfoldable pub copy_round : Bytes → Round
  copy_round out =
      if not (ltb (length out) h.size)
      then ended out
      else if host.fails (context (length out))
      then broken (call_failed (context (length out)))
      else after_read host out
          (read_handle host files h (min copy_buffer_size (h.size - length out)) (pos (length out)))

  -- The loop, in which `out` has been written.
  unfoldable pub copy_loop : ℕ → Bytes → Outcome Trouble Bytes
  copy_loop zero out = err out_of_fuel
  copy_loop (suc fuel) out = elim (copy_round out) [
    | broken e ↦ err e
    | ended out' ↦ ok out'
    | grown out' ↦ copy_loop fuel out'
  ]

  -- The checks of the temporary file after the loop, which is read back.
  unfoldable pub check_copy : Bytes → Outcome Trouble Bytes
  check_copy out =
      if not (length out == h.size)
      then err ended_early
      else if host.fails sync_temporary
      then err (call_failed sync_temporary)
      else if host.fails close_temporary
      then err (call_failed close_temporary)
      else if host.fails hash_temporary
      then err (call_failed hash_temporary)
      else if not (length (host.settles out) == h.size)
          || not (bytes_eq (host.sha256 (host.settles out)) (host.sha256 out))
      then err verification_failed
      else ok (host.settles out)

  abbrev pub check_looped : Outcome Trouble Bytes → Outcome Trouble Bytes
  check_looped (ok out) = check_copy out
  check_looped (err e) = err e

  -- The temporary file, as it is once it is verified. Each round adds at least one byte, so that
  -- one more round than bytes is enough.
  unfoldable pub copy_out : Outcome Trouble Bytes
  copy_out =
      if not (
        host.grants (record {
          additional_persistent_bytes = h.size;
          temporary_bytes = h.size;
          temporary_persistent_overlap_bytes = h.size;
          reclaimable_bytes = 0;
        }))
      then err over_budget
      else if host.fails create_temporary
      then err (call_failed create_temporary)
      else if host.fails chmod_temporary
      then err (call_failed chmod_temporary)
      else check_looped (copy_loop (suc h.size) [])

-- `appendJournal`: the record stays where it is written but not made durable, or the file is not
-- closed.
unfoldable pub append_journal : Host → ℕ → Phase → Option SessionState → Method Unit
append_journal host operation phase candidate s =
    let written = record s {
      records =
          s.records
          ++ (record { operation = operation; phase = phase; candidate = candidate } ∷ []);
    } in
    if host.fails (journal phase)
    then (err (call_failed (journal phase)), s)
    else if host.fails (settle_journal phase)
    then (err (call_failed (settle_journal phase)), written)
    else (ok tt, written)

unfoldable pub rename_temporary : Host → Bytes → Bytes → Method Unit
rename_temporary host path bytes s =
    if host.fails publish_file
    then (err (call_failed publish_file), s)
    else (ok tt, record s { files = put path bytes s.files })

-- `publishSessionState`: the new state may be in place although the call fails.
unfoldable pub publish_session_state : Host → SessionState → Method Unit
publish_session_state host state s =
    if host.fails publish_state
    then (err (call_failed publish_state), s)
    else if host.fails settle_state
    then (err (call_failed settle_state), record s { published = state })
    else (ok tt, record s { published = state })

abbrev pub backed_by : Bytes → SessionState → SessionState
backed_by path state = record state {
  generation = next_generation state.generation;
  backing_path = some path;
}

abbrev pub is_backed : SessionState → Bool
is_backed state = elim state.backing_path [ none ↦ false | some path ↦ true ]

abbrev pub set_state : SessionState → Method Unit
set_state state s = (ok tt, record s { state = state })

-- The second part that holds the lock, where the generation is still the one that was copied.
unfoldable pub switch_state : Host → ℕ → Bytes → SessionState → Method Bytes
switch_state host g path next = do
  publish_session_state host next
  set_state next
  append_journal host g state_published (some next)
  append_journal host g complete (some next)
  return path

unfoldable pub switch_to : Host → ℕ → Bytes → Method Bytes
switch_to host g path s =
    if not (s.state.generation == g) || is_backed s.state
    then (err generation_changed, s)
    else switch_state host g path (backed_by path s.state) s

-- The rename of the copy, and what comes after it.
unfoldable pub publish_copy : Host → Bytes → ℕ → Bytes → SessionState → Method Bytes
publish_copy host bytes g path candidate = do
  rename_temporary host path bytes
  attempt host sync_directory
  append_journal host g after_file_publish (some candidate)
  attempt host (hook after_file_publish)
  switch_to host g path

-- The verified copy becomes the backing file, with a record of each phase.
unfoldable pub publish_backing : Host → Bytes → Method Bytes
publish_backing host bytes s =
    let g = s.state.generation in
    let path = backing_name s.directory (next_generation g) in
    (do
      append_journal host g data_synced none
      attempt host (hook data_synced)
      publish_copy host bytes g path (backed_by path s.state))
      s

unfoldable pub copy_with : Host → ReadHandle → Method Bytes
copy_with host h s = elim (copy_out host s.files h) [
  | err e ↦ (err e, s)
  | ok bytes ↦ publish_backing host bytes s
]

-- The deferred close of the reader, whose error is dropped.
unfoldable pub closing :
    Host → ReadHandle → Outcome Trouble Bytes × Session → Outcome Trouble Bytes × Session
closing host h (r, s) = (r, (close_reader host h s).1.1)

unfoldable pub copy_on_write : Host → Method Bytes
copy_on_write host s = continue (λ h t. closing host h (copy_with host h t)) (open_reader host s)

abbrev pub ensure_on : Host → Option Bytes → Method Bytes
ensure_on host none s = copy_on_write host s
ensure_on host (some path) s = (ok path, s)

unfoldable pub ensure_backing : Host → Method Bytes
ensure_backing host s = ensure_on host s.state.backing_path s
