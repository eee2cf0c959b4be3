-- ===== src/Vfs/Session/Stages.antt =====
-- The stages of a copy on write.
use codexfold.Prelude.{ℕ, ◌≡◌, List, Option, Bool-cases, inl, inr}
use codexfold.Vfs.Session.State.{
  Session, SessionState, JournalRecord, Call, Host, Files, Phase, attempt, journal, settle_journal,
  publish_state, settle_state,
}
use codexfold.Vfs.Session.Copying.{append_journal, publish_session_state}
use codexfold.Vfs.Session.Kept.{Ends}

-- A session that differs from `s` by its state, its files, and what is written down of it.
pub record Stage (s : Session) (state : SessionState) (files : Files) (t : Session) : Type 0 where
  pub state_is : t.state ≡ state
  pub files_is : t.files ≡ files
  pub directory : t.directory ≡ s.directory
  pub view : t.view ≡ s.view
  pub writer_open : t.writer_open ≡ s.writer_open
  pub leases : t.reader_leases ≡ s.reader_leases
  pub lease_files : t.reader_lease_files ≡ s.reader_lease_files

-- What is written down changes no stage.
recorded :
    (s : Session) (state : SessionState) (files : Files) (t : Session)
    (records : List JournalRecord) (published : SessionState)
    → Stage s state files t
    → Stage s state files (record t { records = records; published = published })
recorded s state files t records published st = record {
  state_is = st.state_is;
  files_is = st.files_is;
  directory = st.directory;
  view = st.view;
  writer_open = st.writer_open;
  leases = st.leases;
  lease_files = st.lease_files;
}

module _ (host : Host) (s : Session) (Failed : Session → Type 0) (state : SessionState)
    (files : Files) (fails_well : (t : Session) → Stage s state files t → Failed t) where
  pub attempt-Stage :
      (call : Call) (t : Session)
      → Stage s state files t
      → Ends Failed (λ u. Stage s state files) (attempt host call t)
  attempt-Stage call t st = elim (Bool-cases (host.fails call)) [
    | inl bad ↦ rw bad (fails_well t st)
    | inr fine ↦ rw fine st
  ]

  pub append_journal-Stage :
      (g : ℕ) (phase : Phase) (candidate : Option SessionState) (t : Session)
      → Stage s state files t
      → Ends Failed (λ u. Stage s state files) (append_journal host g phase candidate t)
  unfolding append_journal
  append_journal-Stage g phase candidate t st = elim (Bool-cases (host.fails (journal phase))) [
    | inl bad ↦ rw bad (fails_well t st)
    | inr fine ↦ elim (Bool-cases (host.fails (settle_journal phase))) [
      | inl bad ↦ rw (fine, bad) (fails_well _ (recorded s state files t _ t.published st))
      | inr settled ↦ rw (fine, settled) (recorded s state files t _ t.published st)
    ]
  ]

  pub publish-Stage :
      (next : SessionState) (t : Session)
      → Stage s state files t
      → Ends Failed (λ u. Stage s state files) (publish_session_state host next t)
  unfolding publish_session_state
  publish-Stage next t st = elim (Bool-cases (host.fails publish_state)) [
    | inl bad ↦ rw bad (fails_well t st)
    | inr fine ↦ elim (Bool-cases (host.fails settle_state)) [
      | inl bad ↦ rw (fine, bad) (fails_well _ (recorded s state files t t.records next st))
      | inr settled ↦ rw (fine, settled) (recorded s state files t t.records next st)
    ]
  ]
