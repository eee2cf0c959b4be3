-- ===== src/Vfs/Session/Handles.antt =====
-- No method of a writer but `Close` closes it.
use codexfold.Prelude.{ℕ, ◌≡◌, refl, Option, none, some, Outcome, ok, err, take, arith}
use codexfold.Prelude.Bytes.{Bytes}
use codexfold.Prelude.Int.{ℤ, pos_part}
use codexfold.Vfs.Session.State.{Session, Host, Trouble, active_path, visible_size}
use codexfold.Vfs.Session.Copying.{ensure_backing}
use codexfold.Vfs.Session.Writers.{
  WriteHandle, Reply, rehash, roll_back, settle_append, append_to, append_found, append,
  write_found, write_over, on_backing, write_at, resize_found, resize_file, truncate_from, truncate,
  write_failure,
}

rehash-closed : (h : WriteHandle) (path bytes : Bytes) → (rehash h path bytes).closed ≡ h.closed
unfolding rehash
rehash-closed h path bytes = ground arith

settle_append-closed :
    (host : Host) (h : WriteHandle) (s : Session) (path bytes arrived : Bytes)
    (failure : Option Trouble)
    → (settle_append host h s path bytes arrived failure).handle.closed ≡ h.closed
unfolding settle_append roll_back
settle_append-closed host h s path bytes arrived none = ground arith
settle_append-closed host h s path bytes arrived (some e) = ground arith

append_found-closed :
    (host : Host) (more : Bytes) (h : WriteHandle) (s : Session) (o : Option Bytes)
    → (append_found host more h s o).handle.closed ≡ h.closed
unfolding append_to
append_found-closed host more h s none = refl
append_found-closed host more h s (some bytes) =
    let path = active_path s.state in
    let arrived = take ((host.writes more).0) more in
    ground (
      arith,
      rehash-closed h path bytes,
      settle_append-closed host (rehash h path bytes) s path bytes arrived
          (write_failure ((host.writes more).1) more arrived),
    )

pub append-closed :
    (host : Host) (more : Bytes) (h : WriteHandle) (s : Session)
    → (append host more h s).handle.closed ≡ h.closed
unfolding append
append-closed host more h s =
    ground (arith, append_found-closed host more h s (s.files (active_path s.state)))

on_backing-closed :
    (f : Bytes → Session → Reply) (h : WriteHandle) (r : Outcome Trouble Bytes × Session)
    → ((p : Bytes) (t : Session) → (f p t).handle.closed ≡ h.closed)
    → (on_backing f h r).handle.closed ≡ h.closed
on_backing-closed f h (ok p, t) keeps = keeps p t
on_backing-closed f h (err e, t) keeps = refl

write_found-closed :
    (host : Host) (offset : ℕ) (more : Bytes) (h : WriteHandle) (path : Bytes) (s : Session)
    (o : Option Bytes)
    → (write_found host offset more h path s o).handle.closed ≡ h.closed
unfolding write_found
write_found-closed host offset more h path s none = refl
write_found-closed host offset more h path s (some bytes) = ground arith

pub write_at-closed :
    (host : Host) (more : Bytes) (offset : ℤ) (h : WriteHandle) (s : Session)
    → (write_at host more offset h s).handle.closed ≡ h.closed
unfolding write_at
write_at-closed host more offset h s = ground (
  arith,
  on_backing-closed (write_over host (pos_part offset) more h) h (ensure_backing host s)
      (λ p t. write_found-closed host (pos_part offset) more h p t (t.files p)),
)

resize_found-closed :
    (host : Host) (size : ℕ) (h : WriteHandle) (path : Bytes) (s : Session) (o : Option Bytes)
    → (resize_found host size h path s o).handle.closed ≡ h.closed
unfolding resize_found
resize_found-closed host size h path s none = refl
resize_found-closed host size h path s (some bytes) = ground arith

truncate_from-closed :
    (host : Host) (size : ℕ) (h : WriteHandle) (s : Session) (o : Outcome Trouble ℕ)
    → (truncate_from host size h s o).handle.closed ≡ h.closed
unfolding truncate_from
truncate_from-closed host size h s (err e) = refl
truncate_from-closed host size h s (ok n) = ground (
  arith,
  on_backing-closed (resize_file host size h) h (ensure_backing host s)
      (λ p t. resize_found-closed host size h p t (t.files p)),
)

pub truncate-closed :
    (host : Host) (size : ℤ) (h : WriteHandle) (s : Session)
    → (truncate host size h s).handle.closed ≡ h.closed
unfolding truncate
truncate-closed host size h s =
    ground (arith, truncate_from-closed host (pos_part size) h s (visible_size s))
