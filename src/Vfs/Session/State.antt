-- ===== src/Vfs/Session/State.antt =====
-- internal/vfs/session.go and state.go: the state of a session, and the files below it. A file is
-- known by its path; what the host answers to each call is a parameter, so that every call may
-- fail. Counts of bytes and generations are natural numbers, and a generation wraps as a `uint64`.
use codexfold.Prelude.{
  ℕ, suc, zero, ◌+◌, ◌/◌, ◌%◌, ◌^◌, Bool, List, [], ◌∷◌, ◌++◌, Option, none, some, Outcome, ok, err,
  length, if◌then◌else◌,
}
use codexfold.Prelude.Bytes.{Bytes, bytes_eq}
use codexfold.Fold.Manifest.{ObjectRef}
use codexfold.Vfs.View.{Fault, View, Answer, Checkpoint}

pub record NativeFile : Type 0 where
  pub path : Bytes
  pub bytes : ℕ
  pub sha256 : Bytes

-- A backing path that is left out is `none`.
pub record SessionState : Type 0 where
  pub version : ℕ
  pub session_id : Bytes
  pub generation : ℕ
  pub manifest_path : Bytes
  pub manifest_sha256 : Bytes
  pub base_bytes : ℕ
  pub base_sha256 : Bytes
  pub delta_path : Bytes
  pub backing_path : Option Bytes
  pub native_snapshot : NativeFile

-- The four records that a copy on write leaves in the journal.
pub data Phase : Type 0 where
  data_synced after_file_publish state_published complete : Phase

pub record JournalRecord : Type 0 where
  pub operation : ℕ
  pub phase : Phase
  pub candidate : Option SessionState

-- A call of the host that may fail.
pub data Call : Type 0 where
  make_lease_root acquire_lease open_reader_file stat_reader_file close_reader_file close_lease :
      Call
  open_lease_file lock_lease_file fill_lease_file reload_state load_proof : Call
  create_temporary chmod_temporary sync_temporary close_temporary hash_temporary : Call
  publish_file sync_directory publish_state settle_state : Call
  write_temporary : ℕ → Call
  journal settle_journal hook : Phase → Call
  open_target stat_target write_target close_target rollback sync_rollback hash_target : Call
  stat_target_path make_directory hash_materialized : Call
  resize_target sync_target checkpoint unlock_lease : Call
  context : ℕ → Call

pub data Trouble : Type 0 where
  call_failed : Call → Trouble
  read_failed : Fault → Trouble
  writer_busy recovery_deferred changed_outside proof_mismatch : Trouble
  missing_file target_missing target_exists over_budget ended_early verification_failed
        generation_changed :
      Trouble
  writer_closed negative_offset negative_size short_write out_of_fuel : Trouble
  joined : Trouble → Trouble → Trouble

pub record BudgetProjection : Type 0 where
  pub additional_persistent_bytes : ℕ
  pub temporary_bytes : ℕ
  pub temporary_persistent_overlap_bytes : ℕ
  pub reclaimable_bytes : ℕ

pub record RetirementProof : Type 0 where
  pub session_id : Bytes
  pub state_generation : ℕ
  pub snapshot : NativeFile

-- What the host answers. `reads` tells after how many bytes a read of a file breaks off, `writes`
-- how many bytes of a write arrive, and whether it then reports an error, `settles` what a new file
-- holds of the bytes that were written to it.
pub record Host : Type 0 where
  pub fails : Call → Bool
  pub reads : ℕ → Option ℕ
  pub writes : Bytes → ℕ × Bool
  pub settles : Bytes → Bytes
  pub grants : BudgetProjection → Bool
  pub is_locked : Bool
  pub retirement_proof : RetirementProof
  pub sha256 : Bytes → Bytes
  pub read_object : ObjectRef → ℕ → ℕ → Answer
  pub is_cancelled : Checkpoint → ℕ → Bool

abbrev pub Files : Type 0
Files = Bytes → Option Bytes

-- The bytes of a file, none where it is missing.
abbrev pub contents : Option Bytes → Bytes
contents none = []
contents (some bytes) = bytes

abbrev pub bytes_at : Files → Bytes → Bytes
bytes_at files path = contents (files path)

abbrev pub put : Bytes → Bytes → Files → Files
put path bytes files = λ p. if bytes_eq path p then some bytes else files p

-- What is handed to the checkpoint of a state: it, and what is known of the file in use.
pub record Checkpointed : Type 0 where
  pub state : SessionState
  pub identity : Option NativeFile

-- A session, with the files, the journal and the published state of its directory.
pub record Session : Type 0 where
  pub state : SessionState
  pub directory : Bytes
  pub view : View
  pub reader_leases : ℕ → ℕ
  pub reader_lease_files : ℕ → Bool
  pub writer_open : Bool
  pub recovery_deferred : Bool
  pub files : Files
  pub records : List JournalRecord
  pub published : SessionState
  pub checkpoints : List Checkpointed

-- Where the session's newest bytes are.
abbrev pub path_in_use : Bytes → Option Bytes → Bytes
path_in_use delta_path none = delta_path
path_in_use delta_path (some path) = path

abbrev pub active_path : SessionState → Bytes
active_path state = path_in_use state.delta_path state.backing_path

-- The bytes of the session as its readers see them, over the bytes of the folded file.
abbrev pub shown : Bytes → Bytes → Files → Option Bytes → Bytes
shown base delta_path files none = base ++ bytes_at files delta_path
shown base delta_path files (some path) = bytes_at files path

unfoldable pub visible : Bytes → Session → Bytes
visible base s = shown base s.state.delta_path s.files s.state.backing_path

-- `MetadataPath`.
abbrev pub metadata_path : Session → Bytes
metadata_path s = active_path s.state

-- `VisibleInfo`, of which the time of the last change is left out.
abbrev pub size_of : ℕ → Option Bytes → Option Bytes → Outcome Trouble ℕ
size_of base_bytes backing none = err missing_file
size_of base_bytes none (some bytes) = ok (length bytes + base_bytes)
size_of base_bytes (some path) (some bytes) = ok (length bytes)

unfoldable pub visible_size : Session → Outcome Trouble ℕ
visible_size s = size_of s.state.base_bytes s.state.backing_path (s.files (active_path s.state))

-- `%020d`, which any `uint64` fits.
abbrev decimal : ℕ → ℕ → Bytes
decimal zero n = []
decimal (suc width) n = decimal width (n / 10) ++ ((b'0' + n % 10) ∷ [])

abbrev backing_prefix : Bytes
backing_prefix = b'/' ∷ b'b' ∷ b'a' ∷ b'c' ∷ b'k' ∷ b'i' ∷ b'n' ∷ b'g' ∷ b'-' ∷ []

abbrev backing_suffix : Bytes
backing_suffix = b'.' ∷ b'j' ∷ b's' ∷ b'o' ∷ b'n' ∷ b'l' ∷ []

unfoldable pub backing_name : Bytes → ℕ → Bytes
backing_name directory generation =
    directory ++ (backing_prefix ++ (decimal 20 generation ++ backing_suffix))

abbrev pub next_generation : ℕ → ℕ
next_generation g = (g + 1) % 2 ^ 64

-- A method of the session that may fail. Its changes stay where it does.
abbrev pub Method : Type 0 → Type 0
Method A = Session → Outcome Trouble A × Session

infixl 5 ◌>>=◌ ◌>>◌
abbrev pub continue :
    {A B : Type 0} → (A → Method B) → Outcome Trouble A × Session → Outcome Trouble B × Session
continue f (ok a, s) = f a s
continue f (err e, s) = (err e, s)

abbrev pub ◌>>=◌ : {A B : Type 0} → Method A → (A → Method B) → Method B
m >>= f = λ s. continue f (m s)

abbrev pub ◌>>◌ : {A B : Type 0} → Method A → Method B → Method B
m >> k = m >>= λ _. k

abbrev pub return : {A : Type 0} → A → Method A
return a = λ s. (ok a, s)

abbrev pub fail : {A : Type 0} → Trouble → Method A
fail e = λ s. (err e, s)

-- A call of which only the failure matters.
abbrev pub attempt : Host → Call → Method Unit
attempt host call = λ s. if host.fails call then (err (call_failed call), s) else (ok tt, s)
