-- ===== src/Vfs/Session/Syncing.antt =====
-- What a writer hands to the checkpoint is the identity of the file in use.
use codexfold.Prelude.{
  ◌≡◌, ◌⊎◌, refl, ap, ◌∙◌, Bool, true, false, ◌&&◌, List, [], ◌∷◌, ◌++◌, Option, none, some, length,
  arith, Bool-cases, inl, inr,
}
use codexfold.Prelude.Bytes.{Bytes, bytes_eq→eq}
use codexfold.Vfs.Session.State.{
  Session, NativeFile, Checkpointed, Host, Trouble, active_path, bytes_at, open_target, checkpoint,
  sync_target, close_target, writer_closed,
}
use codexfold.Vfs.Session.Readers.{join, failure_of}
use codexfold.Vfs.Session.Writers.{WriteHandle, Reply, keep, new_writer}
use codexfold.Vfs.Session.Checkpoints.{
  is_hashed, active_identity, checked_hash, refresh_checkpoint, synced, sync_file, sync_found,
  sync_and_checkpoint, let_go, close_writer,
}
use codexfold.Vfs.Session.Kept.{IsApart}
use codexfold.Vfs.Session.Steps.{
  Request, appending, writing_at, truncating, syncing, closing, perform, IsSuited,
}
use codexfold.Vfs.Session.Sound.{perform-Performs}
use codexfold.Vfs.Session.Hashes.{Fits, append-Fits, invalid-Fits}
use codexfold.Vfs.Session.Identities.{write_at-Fits, truncate-Fits}

-- An identity, where there is one, is that of the bytes of the file in use.
abbrev pub IsIdentity : Host → Session → Option NativeFile → Type 0
IsIdentity host s none = Unit
IsIdentity host s (some native) =
    (native.path ≡ active_path s.state)
    × (native.bytes ≡ length (bytes_at s.files (active_path s.state)))
    × (native.sha256 ≡ host.sha256 (bytes_at s.files (active_path s.state)))

-- A sync hands nothing to the checkpoint, or the state with such an identity.
abbrev Tells : Host → Session → List Checkpointed → Type 0
Tells host s told =
    (told ≡ s.checkpoints)
    ⊎ ((c : Checkpointed) × (told ≡ s.checkpoints ++ (c ∷ []))
        × (c.state ≡ s.state)
        × IsIdentity host s c.identity)

pub record Synced (host : Host) (s : Session) (r : Reply) : Type 0 where
  pub fits : Fits r.handle r.session
  pub tells : Tells host s r.session.checkpoints

same-Synced :
    (host : Host) (s : Session) (h : WriteHandle) (failure : Option Trouble)
    → Fits h s
    → Synced host s (record { count = 0; failure = failure; handle = h; session = s })
same-Synced host s h failure fits = record { fits = fits; tells = inl refl }

checked-Fits :
    (h : WriteHandle) (s : Session) (path bytes : Bytes)
    → Fits h s
    → Fits (checked_hash h path bytes) s
checked-Fits h s path bytes fits =
    let valid : (checked_hash h path bytes).append_hash_valid ≡ true → h.append_hash_valid ≡ true =
      λ v. still_valid h.append_hash_valid _ v in
    record {
      hashed = λ v. fits.hashed (valid v);
      counted = λ v. fits.counted (valid v);
      known = λ v. fits.known (valid v);
    }
  where
    still_valid : (a b : Bool) → a && b ≡ true → a ≡ true
    still_valid true b h = refl
    still_valid false b h = h

active_identity-IsIdentity :
    (host : Host) (h : WriteHandle) (s : Session) (bytes : Bytes)
    → Fits h s
    → s.files (active_path s.state) ≡ some bytes
    → IsIdentity host s (active_identity host h (active_path s.state) bytes)
unfolding active_identity
active_identity-IsIdentity host h s bytes fits there =
    let path = active_path s.state in
    elim (Bool-cases (is_hashed h path bytes)) [
      | inr other ↦ rw other tt
      | inl fine ↦
          let valid : h.append_hash_valid ≡ true = ground arith in
          let same : h.append_hash_path ≡ path =
            bytes_eq→eq h.append_hash_path path (ground arith) in
          let all : h.append_hashed ≡ bytes_at s.files path =
            fits.hashed valid ∙ ap (bytes_at s.files) same in
          rw fine (refl, fits.counted valid ∙ ap length all, ap host.sha256 all)
    ]

refresh-Synced :
    (host : Host) (h : WriteHandle) (s : Session) (bytes : Bytes)
    → Fits h s
    → s.files (active_path s.state) ≡ some bytes
    → Synced host s (refresh_checkpoint host h s (active_path s.state) bytes)
unfolding refresh_checkpoint
refresh-Synced host h s bytes fits there =
    let path = active_path s.state in
    let checked = checked-Fits h s path bytes fits in
    elim (Bool-cases (host.fails checkpoint)) [
      | inl bad ↦ rw bad (same-Synced host s _ _ checked)
      | inr fine ↦ rw fine (record {
        fits = record { hashed = checked.hashed; counted = checked.counted; known = checked.known };
        tells = inr (_, refl, refl, active_identity-IsIdentity host h s bytes fits there);
      })
    ]

synced-Synced :
    (host : Host) (h : WriteHandle) (s : Session) (bytes : Bytes) (failure : Option Trouble)
    → Fits h s
    → s.files (active_path s.state) ≡ some bytes
    → Synced host s (synced host h s (active_path s.state) bytes failure)
synced-Synced host h s bytes (some e) fits there = same-Synced host s h (some e) fits
synced-Synced host h s bytes none fits there = elim (Bool-cases h.dirty) [
  | inl dirty ↦ simp dirty (refresh-Synced host h s bytes fits there)
  | inr clean ↦ simp clean (same-Synced host s h none fits)
]

sync_found-Synced :
    (host : Host) (h : WriteHandle) (s : Session) (o : Option Bytes)
    → Fits h s
    → s.files (active_path s.state) ≡ o
    → Synced host s (sync_found host h s o)
unfolding sync_file
sync_found-Synced host h s none fits there = same-Synced host s h _ fits
sync_found-Synced host h s (some bytes) fits there = elim (Bool-cases (host.fails open_target)) [
  | inl bad ↦ rw bad (same-Synced host s h _ fits)
  | inr fine ↦ rw fine (
      synced-Synced host h s bytes
        (join (failure_of host sync_target) (failure_of host close_target)) fits there)
]

sync_and_checkpoint-Synced :
    (host : Host) (h : WriteHandle) (s : Session)
    → Fits h s
    → Synced host s (sync_and_checkpoint host h s)
unfolding sync_and_checkpoint
sync_and_checkpoint-Synced host h s fits = elim (Bool-cases h.closed) [
  | inl closed ↦ simp closed (same-Synced host s h (some writer_closed) fits)
  | inr still ↦ simp still (sync_found-Synced host h s (s.files (active_path s.state)) fits refl)
]

let_go-Fits :
    (host : Host) (r : Reply)
    → Fits r.handle r.session
    → Fits ((let_go host r).handle) ((let_go host r).session)
unfolding let_go
let_go-Fits host r fits = record {
  hashed = fits.hashed;
  counted = fits.counted;
  known = fits.known;
}

close_writer-Fits :
    (host : Host) (h : WriteHandle) (s : Session)
    → Fits h s
    → Fits ((close_writer host h s).handle) ((close_writer host h s).session)
unfolding close_writer
close_writer-Fits host h s fits = elim (Bool-cases h.closed) [
  | inl closed ↦ simp closed fits
  | inr still ↦ elim (Bool-cases h.dirty) [
    | inl dirty ↦
        simp (still, dirty)
          (let_go-Fits host (sync_and_checkpoint host h s)
            ((sync_and_checkpoint-Synced host h s fits).fits))
    | inr clean ↦ simp (still, clean) (let_go-Fits host (keep h s) fits)
  ]
]

perform-Fits :
    (base : Bytes) (host : Host) (request : Request) (h : WriteHandle) (s : Session)
    → IsSuited base host s
    → IsApart s
    → Fits h s
    → Fits ((perform host request h s).handle) ((perform host request h s).session)
unfolding perform
perform-Fits base host (appending more) h s suited apart fits = append-Fits host more h s fits
perform-Fits base host (writing_at more offset) h s suited apart fits =
    write_at-Fits base host h s suited apart fits more offset
perform-Fits base host (truncating size) h s suited apart fits =
    truncate-Fits base host h s suited apart fits size
perform-Fits base host syncing h s suited apart fits =
    (sync_and_checkpoint-Synced host h s fits).fits
perform-Fits base host closing h s suited apart fits = close_writer-Fits host h s fits

-- Requests to one handle, each with a host of its own.
unfoldable pub perform_all : List (Host × Request) → WriteHandle → Session → Reply
perform_all [] h s = keep h s
perform_all ((host, request) ∷ rest) h s =
    let r = perform host request h s in perform_all rest r.handle r.session

abbrev pub Suits : Bytes → List (Host × Request) → WriteHandle → Session → Type 0
Suits base [] h s = Unit
Suits base ((host, request) ∷ rest) h s =
    IsSuited base host s
    × Suits base rest ((perform host request h s).handle) ((perform host request h s).session)

perform_all-Fits :
    (base : Bytes) (requests : List (Host × Request)) (h : WriteHandle) (s : Session)
    → IsApart s
    → Suits base requests h s
    → Fits h s
    → Fits ((perform_all requests h s).handle) ((perform_all requests h s).session)
unfolding perform_all
perform_all-Fits base [] h s apart suits fits = fits
perform_all-Fits base ((host, request) ∷ rest) h s apart (suited, suits) fits =
    perform_all-Fits base rest _ _ ((perform-Performs base host request h s suited apart).apart)
      suits (perform-Fits base host request h s suited apart fits)

-- After any requests to a handle that was just opened, its appends and rollbacks, overwrites,
-- truncations and syncs included, whatever of their hosts fails, a sync hands to the checkpoint
-- nothing, or the state of the session with the identity of the file in use, if any: its path, its
-- size and the hash of its bytes, although no byte was read again for it. The paths of backing files
-- are none of the delta, and each host serves the file of the session and has no collisions.
pub sync-perform_all :
    (base : Bytes) (requests : List (Host × Request)) (host : Host) (s : Session)
    → IsApart s
    → Suits base requests new_writer s
    → Synced host (perform_all requests new_writer s).session (
        sync_and_checkpoint host
          ((perform_all requests new_writer s).handle)
          ((perform_all requests new_writer s).session))
sync-perform_all base requests host s apart suits =
    sync_and_checkpoint-Synced host _ _
      (perform_all-Fits base requests new_writer s apart suits (invalid-Fits new_writer s refl))
