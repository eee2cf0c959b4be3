-- ===== src/Vfs/Session/Tests.antt =====
-- A session over eight folded bytes and two of the delta, and the theorems at it.
mod Materialize
mod Syncing
use codexfold.Prelude.{
  ℕ, ◌≡◌, ◌≢◌, refl, Bool, true, false, [], ◌∷◌, ◌++◌, Option, none, some, ok, err, length, take,
  drop, if◌then◌else◌, arith, inl,
}
use codexfold.Prelude.Int.{ℤ, pos}
use codexfold.Prelude.Bytes.{Bytes, bytes_eq}
use codexfold.Vfs.Tests.{store, serve, manifest, view, serve-Serves, manifest_viewed}
use codexfold.Vfs.Reading.{file_of}
use codexfold.Vfs.Prefixes.{cons-injective}
use codexfold.Vfs.View.{
  read_at, read_parts, read_part, visit, take_answer, finished, out_of_parts, search, extents,
}
use codexfold.Vfs.Session.State.{
  Session, SessionState, Host, NativeFile, Files, visible, backing_name, call_failed, rollback,
  bytes_at, publish_state, Call,
}
use codexfold.Vfs.Session.Readers.{
  ReadHandle, handle_on, handle_from, read_own, read_handle, filled, open_reader, take_lease,
  count_reader, open_file, read_base, read_delta, read_file, broken_off, take_part, close_reader,
}
use codexfold.Vfs.Session.Copying.{
  copy_out, ensure_backing, copy_on_write, copy_with, check_copy, copy_loop, copy_round, after_read,
  weigh, grow, publish_backing, append_journal, publish_copy, rename_temporary, switch_to,
  switch_state, publish_session_state, closing,
}
use codexfold.Vfs.Session.Writers.{
  new_writer, append, write_at, truncate, open_writer, acquire_writer_lease,
  refresh_native_retirement, same_but_native, refreshed, write_found, overwrite, resize,
}
use codexfold.Vfs.Session.Reads.{IsBased, handle_bytes}
use codexfold.Vfs.Session.Exact.{IsWell, read_handle-exact}
use codexfold.Vfs.Session.Copied.{CollisionFree, Copies, copy_out-Copies}
use codexfold.Vfs.Session.Kept.{IsApart, Ends}
use codexfold.Vfs.Session.Unseen.{Settled, Backed}
use codexfold.Vfs.Session.Leases.{granted, counted}
use codexfold.Vfs.Session.Backing.{IsServed, handle_from-IsReadable, ensure_backing-Ends}
use codexfold.Vfs.Session.Appends.{Appended, append-Appended}
use codexfold.Vfs.Session.Overwrites.{Turns, overwritten, write_at-Turns}
use codexfold.Vfs.Session.Truncates.{truncated, truncate-Turns}
use codexfold.Vfs.Session.Steps.{
  System, IsSound, IsSuited, Step, Reach, here, next, performed, write_opened, appending,
  writing_at, read_opened, perform,
}
use codexfold.Vfs.Session.Reached.{with_reader, Reach-IsSound}
use codexfold.Vfs.Session.Snapshots.{open_reader-snapshot}
use codexfold.Vfs.Session.Served.{new_view-IsBased}

abbrev pub no_native : NativeFile
no_native = record { path = []; bytes = 0; sha256 = [] }

-- A host that is well; the contents are their own hash.
abbrev pub well_host : Host
well_host = record {
  fails = λ c. false;
  reads = λ o. none;
  writes = λ b. (length b, false);
  settles = λ b. b;
  grants = λ p. true;
  is_locked = false;
  retirement_proof = record { session_id = []; state_generation = 0; snapshot = no_native };
  sha256 = λ b. b;
  read_object = serve;
  is_cancelled = λ c n. false;
}

abbrev pub delta_name : Bytes
delta_name = b'd' ∷ []

abbrev pub state : SessionState
state = record {
  version = 1;
  session_id = b's' ∷ [];
  generation = 1;
  manifest_path = [];
  manifest_sha256 = [];
  base_bytes = 8;
  base_sha256 = [];
  delta_path = delta_name;
  backing_path = none;
  native_snapshot = no_native;
}

abbrev pub session : Session
session = record {
  state = state;
  directory = b's' ∷ [];
  view = view;
  reader_leases = λ g. 0;
  reader_lease_files = λ g. false;
  writer_open = false;
  recovery_deferred = false;
  files = λ p. if bytes_eq delta_name p then some (b'y' ∷ b'z' ∷ []) else none;
  records = [];
  published = state;
  checkpoints = [];
}

abbrev pub base : Bytes
base = file_of store manifest.parts

session-IsBased : IsBased well_host view base
session-IsBased =
    new_view-IsBased store well_host manifest serve-Serves (λ c n. refl) (refl, (refl, (refl, tt)))
      manifest_viewed

pub session-IsServed : IsServed well_host base session
session-IsServed = record { based = session-IsBased; base_size = refl }

pub no_collisions : CollisionFree well_host
no_collisions a b h = h

other_head : (xs ys : Bytes) → (b's' ∷ xs) ≡ (b'd' ∷ ys) → ⊥
other_head xs ys h = omega (arith, (cons-injective b's' b'd' xs ys h).0)

none_or_some : (p : Bytes) → ◌≡◌ {A = Option Bytes} none (some p) → ⊥
none_or_some p h = cc

pub session-IsApart : IsApart session
unfolding backing_name
session-IsApart = record {
  names = λ g h. other_head _ [] h;
  backing = λ p h. absurd (none_or_some p h);
}

pub well_host-IsWell : IsWell well_host
well_host-IsWell = record { reads_on = λ o. refl; goes_on = λ o. refl }

delta_there : session.files delta_name ≡ some (b'y' ∷ b'z' ∷ [])
unfolding bytes_eq
delta_there = refl

abbrev handle : ReadHandle
handle = handle_from session (b'y' ∷ b'z' ∷ []) none

-- Six bytes from the seventh on: four are left.
read_handle-exact_example :
    read_handle well_host session.files handle 6 (pos 6)
    ≡ filled 6 (take 6 (drop 6 (handle_bytes base session.files handle)))
read_handle-exact_example =
    read_handle-exact well_host base session.files handle 6 6
      (handle_from-IsReadable well_host base session session-IsServed none _ delta_there)
      well_host-IsWell

ensure_backing-Ends_example :
    Ends
      (Settled base (visible base session) session)
      (λ p t. Backed base (visible base session) session p t)
      (ensure_backing well_host session)
ensure_backing-Ends_example =
    ensure_backing-Ends well_host base session session-IsServed no_collisions session-IsApart

append-Appended_example :
    Appended well_host base (b'!' ∷ []) session (append well_host (b'!' ∷ []) new_writer session)
append-Appended_example =
    append-Appended well_host base (b'!' ∷ []) new_writer session session-IsApart

write_at-Turns_example :
    Turns base
      (overwritten base (b'!' ∷ []) 9 session)
      session
      (write_at well_host (b'!' ∷ []) (pos 9) new_writer session)
write_at-Turns_example =
    write_at-Turns well_host base (b'!' ∷ []) (pos 9) new_writer session session-IsServed
      no_collisions session-IsApart

truncate-Turns_example :
    Turns base (truncated base 12 session) session (truncate well_host (pos 12) new_writer session)
truncate-Turns_example =
    truncate-Turns well_host base (pos 12) new_writer session session-IsServed no_collisions
      session-IsApart

-- The session with no handle, with a reader, and with a writer after it.
abbrev start : System
start = record { session = session; readers = []; writers = [] }

start-IsSound : IsSound start
start-IsSound = record {
  leases = λ g. refl;
  leased = λ g. refl;
  writers = refl;
  apart = session-IsApart;
}

abbrev reader : ReadHandle
reader = handle_on session (b'y' ∷ b'z' ∷ [])

abbrev read_session : Session
read_session = counted (granted session)

reader_opens : open_reader well_host session ≡ (ok reader, read_session)
unfolding open_reader take_lease count_reader open_file bytes_eq
reader_opens = refl

abbrev write_session : Session
write_session = record read_session { writer_open = true }

writer_opens : open_writer well_host read_session ≡ (ok new_writer, write_session)
unfolding open_writer acquire_writer_lease refresh_native_retirement same_but_native refreshed
    bytes_eq
writer_opens = refl

abbrev opened : System
opened = with_reader start (ok reader, read_session)

abbrev opened_both : System
opened_both = record opened { session = write_session; writers = new_writer ∷ [] }

session-IsSuited : IsSuited base well_host write_session
session-IsSuited = record {
  served = record { based = session-IsBased; base_size = refl };
  collision_free = no_collisions;
}

-- A write over what is there, with the copy on write that it makes.
abbrev overwritten_both : System
overwritten_both = record opened_both {
  session = (perform well_host (writing_at (b'!' ∷ []) (pos 9)) new_writer write_session).session;
  writers =
      (perform well_host (writing_at (b'!' ∷ []) (pos 9)) new_writer write_session).handle ∷ [];
}

overwriting : Reach base opened overwritten_both
overwriting =
    next (next here (write_opened well_host new_writer write_session writer_opens refl))
      (performed well_host (writing_at (b'!' ∷ []) (pos 9)) 0 new_writer session-IsSuited refl refl)

Reach-IsSound_example : IsSound overwritten_both
Reach-IsSound_example =
    Reach-IsSound base start overwritten_both
      (next
        (next (next here (read_opened well_host reader read_session reader_opens refl))
          (write_opened well_host new_writer write_session writer_opens refl))
        (performed well_host (writing_at (b'!' ∷ []) (pos 9)) 0 new_writer session-IsSuited refl
          refl))
      start-IsSound

open_reader-snapshot_example :
    read_handle well_host overwritten_both.session.files reader 4 (pos 7)
    ≡ filled 4 (take 4 (drop 7 (visible base session)))
open_reader-snapshot_example =
    open_reader-snapshot base start overwritten_both well_host well_host reader read_session 4 7
      start-IsSound refl session-IsServed well_host-IsWell reader_opens overwriting

-- The copy of a fresh handle.
handle_size : length (handle_bytes base session.files handle) ≡ handle.size
unfolding handle_bytes bytes_eq
handle_size = refl

copy_out-Copies_example :
    Copies (handle_bytes base session.files handle) (copy_out well_host session.files handle)
copy_out-Copies_example =
    copy_out-Copies well_host base session.files handle
      (handle_from-IsReadable well_host base session session-IsServed none _ delta_there)
      no_collisions handle_size

-- The overwritten session shows the new byte.
overwritten_both_shown :
    visible base overwritten_both.session
    ≡ b'a' ∷ b'b' ∷ b'c' ∷ b'a' ∷ b'b' ∷ b'c' ∷ b'k' ∷ b'l' ∷ b'y' ∷ b'!' ∷ []
unfolding perform visible write_at ensure_backing copy_on_write open_reader take_lease count_reader
    open_file copy_with copy_out check_copy copy_loop copy_round after_read weigh grow read_handle
    read_base read_delta read_own read_file broken_off take_part publish_backing append_journal
    publish_copy rename_temporary switch_to switch_state publish_session_state backing_name closing
    close_reader write_found overwrite resize bytes_eq read_at read_parts read_part visit
    take_answer finished out_of_parts search extents
overwritten_both_shown = refl
