-- ===== src/Vfs/Session/Readers.antt =====
-- The readers of a session: OpenReader and releaseReader of internal/vfs/session.go, and the
-- ReadHandle of handles.go. The lock of the session makes each of its parts one step. A file that a
-- handle has open is known by its path, since no method replaces the file of a path in use.
use codexfold.Prelude.{
  ℕ, ◌+◌, ◌-◌, Bool, true, false, not, ◌&&◌, [], ◌++◌, Option, none, some, ok, err, ltb, leb, ◌==◌,
  length, take, drop, min, if◌then◌else◌,
}
use codexfold.Prelude.Bytes.{Bytes}
use codexfold.Prelude.Int.{ℤ, pos, pos_part, is_negative}
use codexfold.Vfs.View.{
  View, Fault, is_end_of_file, end_of_file, cancelled, failed, unexpected_end, read_at,
}
use codexfold.Vfs.Session.State.{
  Session, Host, Files, Call, Trouble, Method, bytes_at, active_path, attempt, ◌>>◌,
  make_lease_root, acquire_lease, open_reader_file, stat_reader_file, close_reader_file,
  close_lease, context, call_failed, missing_file, joined,
}

pub record ReadHandle : Type 0 where
  pub generation : ℕ
  pub base : View
  pub base_bytes : ℕ
  pub path : Bytes
  pub backing : Bool
  pub delta_bytes : ℕ
  pub size : ℕ
  pub closed : Bool
  pub close_failure : Option Trouble

-- A map of counters, or of flags, by generation.
abbrev pub update : {A : Type 0} → ℕ → A → (ℕ → A) → ℕ → A
update g a f h = if g == h then a else f h

-- The last reader of a generation gives its lease back.
abbrev pub release_reader : ℕ → Session → Session
release_reader g s =
    let is_last = leb (s.reader_leases g) 1 in
    record s {
      reader_leases = update g (if is_last then 0 else s.reader_leases g - 1) s.reader_leases;
      reader_lease_files =
          if is_last then update g false s.reader_lease_files else s.reader_lease_files;
    }

-- The first reader of a generation takes its lease.
unfoldable pub take_lease : Host → Method Unit
take_lease host s =
    let g = s.state.generation in
    if s.reader_leases g == 0
    then (do
      attempt host make_lease_root
      attempt host acquire_lease
      λ t. (ok tt, record t { reader_lease_files = update g true t.reader_lease_files }))
        s
    else (ok tt, s)

unfoldable pub count_reader : Method Unit
count_reader s =
    let g = s.state.generation in
    (ok tt, record s { reader_leases = update g (s.reader_leases g + 1) s.reader_leases })

-- A handle on the file in use, which has these bytes.
abbrev pub handle_from : Session → Bytes → Option Bytes → ReadHandle
handle_from s bytes none = record {
  generation = s.state.generation;
  base = s.view;
  base_bytes = s.state.base_bytes;
  path = s.state.delta_path;
  backing = false;
  delta_bytes = length bytes;
  size = s.state.base_bytes + length bytes;
  closed = false;
  close_failure = none;
}
handle_from s bytes (some path) = record {
  generation = s.state.generation;
  base = s.view;
  base_bytes = s.state.base_bytes;
  path = path;
  backing = true;
  delta_bytes = 0;
  size = length bytes;
  closed = false;
  close_failure = none;
}

abbrev pub handle_on : Session → Bytes → ReadHandle
handle_on s bytes = handle_from s bytes s.state.backing_path

-- The newest file is opened, and the lease is released where that fails.
unfoldable pub open_file : Host → Method ReadHandle
open_file host s = elim (s.files (active_path s.state)) [
  | none ↦ (err missing_file, release_reader s.state.generation s)
  | some bytes ↦
      if host.fails open_reader_file
      then (err (call_failed open_reader_file), release_reader s.state.generation s)
      else if host.fails stat_reader_file
      then (err (call_failed stat_reader_file), release_reader s.state.generation s)
      else (ok (handle_on s bytes), s)
]

unfoldable pub open_reader : Host → Method ReadHandle
open_reader host = do take_lease host; count_reader; open_file host

abbrev pub failure_of : Host → Call → Option Trouble
failure_of host call = if host.fails call then some (call_failed call) else none

-- `errors.Join` of two errors.
abbrev pub join : Option Trouble → Option Trouble → Option Trouble
join none e = e
join (some d) none = some d
join (some d) (some e) = some (joined d e)

abbrev pub close_error : Host → Option Trouble
close_error host = join (failure_of host close_reader_file) (failure_of host close_lease)

-- `Close`, which repeats its first answer.
unfoldable pub close_reader : Host → ReadHandle → Session → Option Trouble × (ReadHandle × Session)
close_reader host h s = if h.closed then (h.close_failure, (h, s)) else (
  close_error host,
  (record h { closed = true; close_failure = close_error host }, release_reader h.generation s),
)

-- `ReadAt` of a file: the bytes, and the end of the file where they are too few. Where the host
-- breaks the read off, it is an error.
unfoldable pub broken_off : ℕ → ℕ → Bytes → Option ℕ → Bytes × Option Fault
broken_off need offset found none =
    (found, if ltb (length found) need then some end_of_file else none)
broken_off need offset found (some n) = (take n found, some (failed offset))

unfoldable pub read_file : Host → Bytes → ℕ → ℕ → Bytes × Option Fault
read_file host bytes need offset =
    broken_off need offset (take need (drop offset bytes)) (host.reads offset)

abbrev pub is_tolerable : Option Fault → Bool
is_tolerable none = true
is_tolerable (some e) = is_end_of_file e

abbrev pub or_cut_short : Option Fault → Option Fault
or_cut_short none = some unexpected_end
or_cut_short (some e) = some e

-- The end of `ReadAt`.
abbrev pub filled : ℕ → Bytes → Bytes × Option Fault
filled wanted out = (out, if ltb (length out) wanted then some end_of_file else none)

-- What both reads of `ReadAt` do with an answer: `out` stands in the destination, and the loop goes
-- on only where all of `need` has come.
unfoldable pub take_part :
    Bytes → ℕ → (Bytes → Bytes × Option Fault) → Bytes × Option Fault → Bytes × Option Fault
take_part out need go_on (found, failure) =
    if not (length found == need)
    then (out ++ found, or_cut_short failure)
    else if not (is_tolerable failure)
    then (out ++ found, failure)
    else go_on (out ++ found)

-- `h.file.ReadAt`, which fails once the handle is closed.
unfoldable pub read_own : Host → Files → ReadHandle → ℕ → ℕ → Bytes × Option Fault
read_own host files h need offset =
    if h.closed
    then ([], some (failed offset))
    else read_file host (bytes_at files h.path) need offset

module _ (host : Host) (files : Files) (h : ReadHandle) (wanted : ℕ) where
  unfoldable pub read_backing : ℕ → Bytes × Option Fault
  read_backing offset =
      let r = read_own host files h (min wanted (h.size - offset)) offset in
      if not (is_tolerable (r.1)) then r else filled wanted (r.0)

  -- The delta, from `offset` of the session on.
  unfoldable pub read_delta : ℕ → Bytes → Bytes × Option Fault
  read_delta offset out =
      let inside = offset - h.base_bytes in
      let need = min (wanted - length out) (h.delta_bytes - inside) in
      if ltb (length out) wanted && leb h.base_bytes offset && ltb offset h.size
      then take_part out need (filled wanted) (read_own host files h need inside)
      else filled wanted out

  unfoldable pub read_base : ℕ → Bytes × Option Fault
  read_base offset =
      let need = min wanted (h.base_bytes - offset) in
      if ltb offset h.base_bytes
      then take_part [] need (read_delta (offset + need))
          (read_at host.read_object host.is_cancelled h.base need (pos offset))
      else read_delta offset []

  unfoldable pub read_handle : ℤ → Bytes × Option Fault
  read_handle offset =
      if is_negative offset
      then ([], some Fault.negative_offset)
      else if wanted == 0
      then ([], none)
      else if host.fails (context (pos_part offset))
      then ([], some cancelled)
      else if leb h.size (pos_part offset)
      then ([], some end_of_file)
      else if h.backing
      then read_backing (pos_part offset)
      else read_base (pos_part offset)
