-- ===== src/Vfs/Session/Sound.antt =====
-- Each step keeps the session sound, and what the delta holds.
use codexfold.Prelude.{
  ℕ, ◌≡◌, ◌⊎◌, inl, inr, refl, ◌∙◌, Bool, true, false, some, get_elem?, arith, Bool-cases,
}
use codexfold.Prelude.Bytes.{Bytes}
use codexfold.Vfs.Session.State.{Session, Host}
use codexfold.Vfs.Session.Writers.{WriteHandle, Reply, keep}
use codexfold.Vfs.Session.Checkpoints.{sync_and_checkpoint, close_writer, let_go}
use codexfold.Vfs.Session.Kept.{Kept, Kept-refl, IsApart}
use codexfold.Vfs.Session.Appends.{append-Appended}
use codexfold.Vfs.Session.Overwrites.{write_at-Turns}
use codexfold.Vfs.Session.Truncates.{truncate-Turns}
use codexfold.Vfs.Session.Opening.{sync_and_checkpoint-Leaves}
use codexfold.Vfs.Session.Handles.{append-closed, write_at-closed, truncate-closed}
use codexfold.Vfs.Session.Steps.{
  System, Request, appending, writing_at, truncating, syncing, closing, perform, replace, IsSuited,
  total-replace, open_weight, IsSound,
}

-- The session but for whether a writer is open.
abbrev pub with_writer : Bool → Session → Session
with_writer open_now s = record s { writer_open = open_now }

-- What a method of a write handle changes.
pub record Performs (h : WriteHandle) (s : Session) (r : Reply) : Type 0 where
  pub kept : Kept (with_writer r.session.writer_open s) r.session
  pub apart : IsApart r.session
  pub flag :
      ((r.handle.closed ≡ h.closed) × (r.session.writer_open ≡ s.writer_open))
      ⊎ ((h.closed ≡ false) × (r.handle.closed ≡ true) × (r.session.writer_open ≡ false))

-- The writer flag is a fact of its own.
reflag : (s t : Session) → Kept s t → Kept (with_writer t.writer_open s) t
reflag s t k = record {
  delta_path = k.delta_path;
  base_bytes = k.base_bytes;
  directory = k.directory;
  view = k.view;
  writer_open = refl;
  leases = k.leases;
  leased = k.leased;
  delta = k.delta;
}

kept-Performs :
    (h : WriteHandle) (s : Session) (r : Reply)
    → r.handle.closed ≡ h.closed
    → Kept s r.session
    → IsApart r.session
    → Performs h s r
kept-Performs h s r closed kept apart = record {
  kept = reflag s r.session kept;
  apart = apart;
  flag = inl (closed, kept.writer_open);
}

let_go-Performs :
    (host : Host) (h : WriteHandle) (s : Session) (r : Reply)
    → h.closed ≡ false
    → Kept s r.session
    → IsApart r.session
    → Performs h s (let_go host r)
unfolding let_go
let_go-Performs host h s r still k a = record {
  kept = record {
    delta_path = k.delta_path;
    base_bytes = k.base_bytes;
    directory = k.directory;
    view = k.view;
    writer_open = refl;
    leases = k.leases;
    leased = k.leased;
    delta = k.delta;
  };
  apart = record { names = a.names; backing = a.backing };
  flag = inr (still, refl, refl);
}

close_writer-Performs :
    (host : Host) (h : WriteHandle) (s : Session) → IsApart s → Performs h s (close_writer host h s)
unfolding close_writer
close_writer-Performs host h s apart = elim (Bool-cases h.closed) [
  | inl closed ↦ simp closed (kept-Performs h s (keep h s) refl (Kept-refl s) apart)
  | inr still ↦ elim (Bool-cases h.dirty) [
    | inl dirty ↦
        let l = sync_and_checkpoint-Leaves host h s in
        simp (still, dirty)
          (let_go-Performs host h s (sync_and_checkpoint host h s) still l.kept (l.apart apart))
    | inr clean ↦
        simp (still, clean) (let_go-Performs host h s (keep h s) still (Kept-refl s) apart)
  ]
]

pub perform-Performs :
    (base : Bytes) (host : Host) (request : Request) (h : WriteHandle) (s : Session)
    → IsSuited base host s
    → IsApart s
    → Performs h s (perform host request h s)
unfolding perform
perform-Performs base host (appending more) h s suited apart =
    let a = append-Appended host base more h s apart in
    kept-Performs h s _ (append-closed host more h s) a.kept a.apart
perform-Performs base host (writing_at more offset) h s suited apart =
    let a = write_at-Turns host base more offset h s suited.served suited.collision_free apart in
    kept-Performs h s _ (write_at-closed host more offset h s) a.kept a.apart
perform-Performs base host (truncating size) h s suited apart =
    let a = truncate-Turns host base size h s suited.served suited.collision_free apart in
    kept-Performs h s _ (truncate-closed host size h s) a.kept a.apart
perform-Performs base host syncing h s suited apart =
    let l = sync_and_checkpoint-Leaves host h s in
    kept-Performs h s _ l.closed l.kept (l.apart apart)
perform-Performs base host closing h s suited apart = close_writer-Performs host h s apart

pub performed-IsSound :
    (σ : System) (i : ℕ) (h : WriteHandle) (r : Reply)
    → IsSound σ
    → Performs h σ.session r
    → get_elem? σ.writers i ≡ some h
    → IsSound (record σ { session = r.session; writers = replace i r.handle σ.writers })
performed-IsSound σ i h r sound p at =
    let counts = total-replace open_weight i h r.handle σ.writers at in
    record {
      leases = λ g. p.kept.leases g ∙ sound.leases g;
      leased = p.kept.leased sound.leased;
      writers = elim p.flag [
        | inl (closed, flag) ↦ ground (arith, counts, sound.writers)
        | inr (was, closed, flag) ↦ ground (arith, counts, sound.writers)
      ];
      apart = p.apart;
    }
