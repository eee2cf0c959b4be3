-- ===== src/Vfs/Session/Leases.antt =====
-- The leases of the readers: opening and closing one, on every branch.
use codexfold.Prelude.{
  ℕ, ◌+◌, ◌-◌, ◌≡◌, refl, ◌⊎◌, true, some, Outcome, ok, err, ◌==◌, arith, Bool-cases, Option-cases,
  inl, inr, if◌then◌else◌,
}
use codexfold.Prelude.Bytes.{Bytes}
use codexfold.Vfs.Session.State.{
  Session, Host, Trouble, active_path, call_failed, missing_file, make_lease_root, acquire_lease,
  open_reader_file, stat_reader_file,
}
use codexfold.Vfs.Session.Readers.{
  ReadHandle, update, release_reader, take_lease, count_reader, handle_on, open_file, open_reader,
}
use codexfold.Vfs.Session.Kept.{IsLeased}

-- The session once the lease of its generation is taken.
abbrev pub granted : Session → Session
granted s = record s {
  reader_lease_files =
      if s.reader_leases s.state.generation == 0
      then update s.state.generation true s.reader_lease_files
      else s.reader_lease_files;
}

-- And once the reader is counted.
abbrev pub counted : Session → Session
counted s = record s {
  reader_leases =
      update s.state.generation (s.reader_leases s.state.generation + 1) s.reader_leases;
}

take_lease-cases :
    (host : Host) (s : Session)
    → ((e : Trouble) × (take_lease host s ≡ (err e, s))) ⊎ (take_lease host s ≡ (ok tt, granted s))
unfolding take_lease
take_lease-cases host s = elim (Bool-cases (s.reader_leases s.state.generation == 0)) [
  | inr others ↦ inr (rw others refl)
  | inl first ↦ elim (Bool-cases (host.fails make_lease_root)) [
    | inl bad ↦ inl (call_failed make_lease_root, rw (first, bad) refl)
    | inr made ↦ elim (Bool-cases (host.fails acquire_lease)) [
      | inl bad ↦ inl (call_failed acquire_lease, rw (first, made, bad) refl)
      | inr held ↦ inr (rw (first, made, held) refl)
    ]
  ]
]

open_file-cases :
    (host : Host) (s : Session)
    → ((e : Trouble) × (open_file host s ≡ (err e, release_reader s.state.generation s)))
      ⊎ ((bytes : Bytes) × (s.files (active_path s.state) ≡ some bytes)
          × (open_file host s ≡ (ok (handle_on s bytes), s)))
unfolding open_file
open_file-cases host s = elim (Option-cases (s.files (active_path s.state))) [
  | inl missing ↦ inl (missing_file, rw (missing, open_file) refl)
  | inr (bytes, there) ↦ elim (Bool-cases (host.fails open_reader_file)) [
    | inl bad ↦ inl (call_failed open_reader_file, rw (there, open_file, bad) refl)
    | inr opened ↦ elim (Bool-cases (host.fails stat_reader_file)) [
      | inl bad ↦ inl (call_failed stat_reader_file, rw (there, open_file, opened, bad) refl)
      | inr sized ↦ inr (bytes, there, rw (there, open_file, opened, sized) refl)
    ]
  ]
]

-- How `OpenReader` ends: with nothing changed, with the count taken back, or with a handle.
abbrev pub Opens : Session → Outcome Trouble ReadHandle × Session → Type 0
Opens s r =
    ((e : Trouble) × (r ≡ (err e, s)))
    ⊎ ((e : Trouble) × (r ≡ (err e, release_reader s.state.generation (counted (granted s)))))
    ⊎ ((bytes : Bytes) × (s.files (active_path s.state) ≡ some bytes)
        × (r ≡ (ok (handle_on s bytes), counted (granted s))))

pub open_reader-Opens : (host : Host) (s : Session) → Opens s (open_reader host s)
unfolding open_reader count_reader
open_reader-Opens host s = elim (take_lease-cases host s) [
  | inl (e, refused) ↦ inl (e, rw refused refl)
  | inr held ↦ elim (open_file-cases host (counted (granted s))) [
    | inl (e, failed) ↦ inr (inl (e, rw (held, failed) refl))
    | inr (bytes, there, opened) ↦ inr (inr (bytes, there, rw (held, opened) refl))
  ]
]

pub release_reader-leases :
    (g : ℕ) (s : Session) (k : ℕ)
    → (release_reader g s).reader_leases k
      ≡ (if g == k then s.reader_leases g - 1 else s.reader_leases k)
release_reader-leases g s k = ground arith

pub release_reader-IsLeased : (g : ℕ) (s : Session) → IsLeased s → IsLeased (release_reader g s)
release_reader-IsLeased g s h k = ground (arith, h k)

pub counted-leases :
    (s : Session) (k : ℕ)
    → (counted (granted s)).reader_leases k
      ≡ (if s.state.generation == k then s.reader_leases k + 1 else s.reader_leases k)
counted-leases s k = ground arith

pub counted-IsLeased : (s : Session) → IsLeased s → IsLeased (counted (granted s))
counted-IsLeased s h k = ground (arith, h k)

pub taken_back :
    (s : Session) (k : ℕ)
    → (release_reader s.state.generation (counted (granted s))).reader_leases k ≡ s.reader_leases k
taken_back s k = ground (arith, release_reader-leases s.state.generation (counted (granted s)) k)
