-- ===== src/Vfs/Session/Opening.antt =====
-- What opening, syncing and closing a writer change of the session.
use codexfold.Prelude.{
  ◌≡◌, refl, sym, ap, subst, ◌∙◌, true, false, not, Option, none, some, Outcome, ok, err, arith,
  Bool-cases, inl, inr, ◌⊎◌, List,
}
use codexfold.Prelude.Bytes.{Bytes, bytes_eq→eq}
use codexfold.Vfs.Prefixes.{IsPrefix, IsPrefix-refl}
use codexfold.Vfs.Session.State.{
  Session, SessionState, Checkpointed, checkpoint, open_target, writer_closed, Host, Trouble,
  active_path, bytes_at, call_failed, open_lease_file, lock_lease_file, fill_lease_file,
  reload_state, load_proof, writer_busy,
}
use codexfold.Vfs.Session.Writers.{
  WriteHandle, Reply, acquire_writer_lease, same_path, same_but_native, same_state, retires, proves,
  refresh_native_retirement, refreshed, open_writer, new_writer, refuse, keep,
}
use codexfold.Vfs.Session.Checkpoints.{
  checked_hash, synced, sync_found, refresh_checkpoint, sync_file, sync_and_checkpoint,
}
use codexfold.Vfs.Session.Kept.{IsApart, Kept, Kept-refl, delta_of}

same_path→eq : (a b : Option Bytes) → same_path a b ≡ true → a ≡ b
same_path→eq none none h = refl
same_path→eq none (some b) h = cc
same_path→eq (some a) none h = cc
same_path→eq (some a) (some b) h = ap some (bytes_eq→eq a b h)

-- The two states have the same files.
record SameFiles (a b : SessionState) : Type 0 where
  delta_path : b.delta_path ≡ a.delta_path
  backing_path : b.backing_path ≡ a.backing_path
  base_bytes : b.base_bytes ≡ a.base_bytes

same_but_native→SameFiles : (a b : SessionState) → same_but_native a b ≡ true → SameFiles a b
unfolding same_but_native
same_but_native→SameFiles a b h = record {
  delta_path = sym (bytes_eq→eq a.delta_path b.delta_path (ground arith));
  backing_path = sym (same_path→eq a.backing_path b.backing_path (ground arith));
  base_bytes = ground arith;
}

adopted-Kept :
    (s : Session) → SameFiles s.state s.published → Kept s (record s { state = s.published })
adopted-Kept s same = record {
  delta_path = same.delta_path;
  base_bytes = same.base_bytes;
  directory = refl;
  view = refl;
  writer_open = refl;
  leases = λ g. refl;
  leased = λ h. h;
  delta =
      subst (λ p. IsPrefix (delta_of s) (bytes_at s.files p)) (sym same.delta_path)
        (IsPrefix-refl _);
}

adopted-IsApart :
    (s : Session)
    → SameFiles s.state s.published
    → IsApart s
    → IsApart (record s { state = s.published })
adopted-IsApart s same apart = record {
  names = λ g e. apart.names g (e ∙ same.delta_path);
  backing = λ p h e. apart.backing p (sym same.backing_path ∙ h) (e ∙ same.delta_path);
}

-- How the refresh ends: with nothing changed, or with the published state, of the same files.
abbrev Refreshes : Session → Outcome Trouble (Unit {0}) × Session → Type 0
Refreshes s (r, t) = Kept s t × (IsApart s → IsApart t)

refresh-Refreshes : (host : Host) (s : Session) → Refreshes s (refresh_native_retirement host s)
unfolding refresh_native_retirement retires
refresh-Refreshes host s =
    let unchanged : Kept s s × (IsApart s → IsApart s) = (Kept-refl s, λ a. a) in
    elim (Bool-cases (host.fails reload_state)) [
      | inl bad ↦ rw bad unchanged
      | inr loaded ↦ elim (Bool-cases (same_state s.published s.state)) [
        | inl same ↦ rw (loaded, same) unchanged
        | inr differs ↦ elim (Bool-cases (not (retires s.state s.published))) [
          | inl outside ↦ rw (loaded, differs, outside) unchanged
          | inr retired ↦ elim (Bool-cases (host.fails load_proof)) [
            | inl bad ↦ rw (loaded, differs, retired, bad) unchanged
            | inr read ↦ elim (Bool-cases (not (proves host s.state))) [
              | inl other ↦ rw (loaded, differs, retired, read, other) unchanged
              | inr proved ↦
                  let same : SameFiles s.state s.published =
                    same_but_native→SameFiles s.state s.published (ground arith) in
                  rw (loaded, differs, retired, read, proved)
                    (adopted-Kept s same, adopted-IsApart s same)
            ]
          ]
        ]
      ]
    ]

-- The lease is taken, or not; the session stays.
acquire-cases :
    (host : Host) (s : Session)
    → ((e : Trouble) × (acquire_writer_lease host s ≡ (err e, s)))
      ⊎ (acquire_writer_lease host s ≡ (ok tt, s))
unfolding acquire_writer_lease
acquire-cases host s = elim (Bool-cases (host.fails open_lease_file)) [
  | inl bad ↦ inl (call_failed open_lease_file, rw bad refl)
  | inr opened ↦ elim (Bool-cases (host.fails lock_lease_file)) [
    | inl bad ↦ inl (call_failed lock_lease_file, rw (opened, bad) refl)
    | inr locked ↦ elim (Bool-cases host.is_locked) [
      | inl held ↦ inl (writer_busy, rw (opened, locked, held) refl)
      | inr alone ↦ elim (Bool-cases (host.fails fill_lease_file)) [
        | inl bad ↦ inl (call_failed fill_lease_file, rw (opened, locked, alone, bad) refl)
        | inr filled ↦ inr (rw (opened, locked, alone, filled) refl)
      ]
    ]
  ]
]

-- How `OpenWriter` ends.
abbrev pub OpensWriter : Session → Outcome Trouble WriteHandle × Session → Type 0
OpensWriter s (ok h, t) =
    (s.writer_open ≡ false)
    × (h ≡ new_writer)
    × Kept (record s { writer_open = true }) t
    × (IsApart s → IsApart t)
OpensWriter s (err e, t) = Kept s t × (IsApart s → IsApart t)

refreshed-OpensWriter :
    (s : Session) (r : Outcome Trouble (Unit {0}) × Session)
    → s.writer_open ≡ false
    → Refreshes (record s { writer_open = true }) r
    → OpensWriter s (refreshed r)
unfolding refreshed
refreshed-OpensWriter s (ok u, t) free (k, a) =
    (free, refl, k, λ p. a (record { names = p.names; backing = p.backing }))
refreshed-OpensWriter s (err e, t) free (k, a) = (
  record {
    delta_path = k.delta_path;
    base_bytes = k.base_bytes;
    directory = k.directory;
    view = k.view;
    writer_open = sym free;
    leases = k.leases;
    leased = k.leased;
    delta = k.delta;
  },
  λ p.
      let q = a (record { names = p.names; backing = p.backing }) in
      record { names = q.names; backing = q.backing },
)

pub open_writer-OpensWriter : (host : Host) (s : Session) → OpensWriter s (open_writer host s)
unfolding open_writer
open_writer-OpensWriter host s =
    let unchanged : Kept s s × (IsApart s → IsApart s) = (Kept-refl s, λ a. a) in
    elim (Bool-cases s.recovery_deferred) [
      | inl deferred ↦ simp deferred unchanged
      | inr ready ↦ elim (Bool-cases s.writer_open) [
        | inl busy ↦ simp (ready, busy) unchanged
        | inr free ↦ elim (acquire-cases host s) [
          | inl (e, refused) ↦ simp (ready, free) (rw refused unchanged)
          | inr held ↦
              simp (ready, free)
                (rw held (
                  refreshed-OpensWriter s _ free
                    (refresh-Refreshes host (record s { writer_open = true }))))
        ]
      ]
    ]

-- What a method of a write handle leaves of it and of the session.
pub record Leaves (h : WriteHandle) (s : Session) (r : Reply) : Type 0 where
  pub closed : r.handle.closed ≡ h.closed
  pub kept : Kept s r.session
  pub apart : IsApart s → IsApart r.session

unchanged-Leaves :
    (h : WriteHandle) (s : Session) (r : Reply)
    → r.handle.closed ≡ h.closed
    → r.session ≡ s
    → Leaves h s r
unchanged-Leaves h s r c e = record {
  closed = c;
  kept = subst (Kept s) (sym e) (Kept-refl s);
  apart = subst (λ t. IsApart s → IsApart t) (sym e) (λ a. a);
}

-- A sync changes only what is written down of the session.
abbrev Noted : Session → Session → Type 0
Noted s t = (l : List Checkpointed) × (t ≡ record s { checkpoints = l })

Noted-Leaves :
    (h : WriteHandle) (s : Session) (r : Reply)
    → r.handle.closed ≡ h.closed
    → Noted s r.session
    → Leaves h s r
Noted-Leaves h s r c (l, e) = record {
  closed = c;
  kept = subst (Kept s) (sym e) (record {
    delta_path = refl;
    base_bytes = refl;
    directory = refl;
    view = refl;
    writer_open = refl;
    leases = λ g. refl;
    leased = λ h. h;
    delta = IsPrefix-refl _;
  });
  apart =
      subst (λ t. IsApart s → IsApart t) (sym e)
        (λ a. record { names = a.names; backing = a.backing });
}

synced-Leaves :
    (host : Host) (h : WriteHandle) (s : Session) (path bytes : Bytes) (failure : Option Trouble)
    → Leaves h s (synced host h s path bytes failure)
unfolding refresh_checkpoint
synced-Leaves host h s path bytes (some e) = unchanged-Leaves h s _ refl refl
synced-Leaves host h s path bytes none = elim (Bool-cases (not h.dirty)) [
  | inl clean ↦ simp clean (unchanged-Leaves h s (keep h s) refl refl)
  | inr dirty ↦ elim (Bool-cases (host.fails checkpoint)) [
    | inl bad ↦ simp dirty (
        rw bad (
          unchanged-Leaves h s (refuse (call_failed checkpoint) (checked_hash h path bytes) s) refl
            refl))
    | inr fine ↦ simp dirty (rw fine (Noted-Leaves h s _ refl (_, refl)))
  ]
]

sync_found-Leaves :
    (host : Host) (h : WriteHandle) (s : Session) (o : Option Bytes)
    → Leaves h s (sync_found host h s o)
unfolding sync_file
sync_found-Leaves host h s none = unchanged-Leaves h s _ refl refl
sync_found-Leaves host h s (some bytes) = elim (Bool-cases (host.fails open_target)) [
  | inl bad ↦ rw bad (unchanged-Leaves h s _ refl refl)
  | inr fine ↦ rw fine (synced-Leaves host h s (active_path s.state) bytes _)
]

pub sync_and_checkpoint-Leaves :
    (host : Host) (h : WriteHandle) (s : Session) → Leaves h s (sync_and_checkpoint host h s)
unfolding sync_and_checkpoint
sync_and_checkpoint-Leaves host h s = elim (Bool-cases h.closed) [
  | inl closed ↦ simp closed (unchanged-Leaves h s (refuse writer_closed h s) refl refl)
  | inr still ↦ simp still (sync_found-Leaves host h s (s.files (active_path s.state)))
]
