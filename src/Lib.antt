-- ===== src/Lib.antt =====
-- CodexFold folds the rollouts of Codex sessions into a store of shared objects and serves them
-- again as files. This library models parts of its Go code, which talk to each other like this: the
-- planner of internal/enroll chooses the rollouts that the next cycle folds and asks the budget of
-- internal/storage what it may cost; the rollouts are cut up by internal/cdc, described by
-- manifests of internal/fold and stored in packs of internal/pack; internal/vfs serves reads from a
-- manifest and its objects; internal/fskitproto carries them to the file system extension.
-- internal/compat says whether the clients that are installed may use the mount, and
-- internal/contain whether one rollout is part of another and may go.
--
--   Prelude    numbers, lists, byte strings, results; Prelude/Int has the int64 of Go with its
--              wrap-around, on the native numbers.
--   FilePath   Clean, Base and IsAbs of path/filepath, which the code calls.
--   Protocol   internal/fskitproto/codec.go (Codec, Message) and protocol.go (Descriptor, Frame). The
--              encoder is a function on its buffer (put_uint32 for Uint32), the decoder an action on
--              input and offset (get_uint32), and a stream is the bytes to come. An io.Writer is a
--              parameter with the contract that its documentation states.
--   Storage    internal/storage/policy.go (Policy): the limits and the retention that a store is run with.
--              internal/storage/budget.go (Budget). check_budget is CheckBudget with the wrap-around of
--              its sums written out; Budget/Exact asks the same of unbounded numbers.
--   Enroll     internal/enroll/planner.go (Estimate, Plan, Build) and apply.go (Apply). The loop of
--              Build is plan_sessions over a Progress; one round is plan_session, whose early
--              returns are refusal and judge_file, and whose end is settle. The file system, the
--              probe for writers, the budget, the managed state and the work itself are
--              parameters; a nil probe or budget is none, and nil callbacks of Apply, which are refused
--              at its entry, are left out. Apply keeps the decisions of its calls, on which
--              the callback's answer may depend.
--   Cdc        internal/cdc/chunker.go. SHA-256 and the callback are parameters.
--   Pack       internal/pack/format.go (Format): the index and validateIndex.
--   Fold       internal/fold/manifest.go (Manifest): the manifest and its validation; and digestset.go
--              (Digests): Add and Count, with the runs, the merge and its passes. The heap is a list of
--              runs, and the directory the names in it.
--   Contain    internal/contain/contain.go: the records of a rollout (Records), and the prefix table, the
--              search and the comparison of Check (Matching). SHA-256 and JSON are parameters.
--   Compat     internal/compat/contract.go (Contract): the validation of contracts and Evaluate.
--   Vfs        internal/vfs/view.go (View): NewView and ReadAt. The reader of objects and the
--              cancellation of the context are parameters.
--   Vfs/Session  internal/vfs/session.go, handles.go, and what they call of native_retirement.go,
--              journal.go and state_checkpoint.go. State has the session with the files, the journal
--              and the published state of its directory; Readers OpenReader, ReadHandle and the
--              leases; Copying ensureBacking; Materializing MaterializeCurrent; Writers OpenWriter,
--              Append, WriteAt and Truncate; Checkpoints Sync and Close. A method goes from a session
--              to a session, and its changes stay where it fails. Host says which call fails, after how
--              many bytes a read or a write breaks off, and what the budget grants. Steps lets any
--              handles act in any order, each with a host of its own. A file is known by its path.
--
-- Most loops follow the structure of their lists. Nine run on fuel. copy_loop, for the loop of
-- ensureBacking, has one round more than there are bytes, since each round adds one at least
-- (Vfs/Session/Copied); materialize_loop, for that of MaterializeCurrent, takes its fuel as an
-- argument, since the loop of the code has no bound (Vfs/Session/Stalls); write_all, for writeAll, the
-- number of bytes, since each call writes one at least (Protocol/Frame/Writing); fall_back, for the
-- inner loop of buildPrefixTable and Check, the length of the match, which each round shortens
-- (Contain/Progress); equal_chunks, for equalFileRanges, the number of bytes, of which each
-- round compares one at least; and create_runs, merge_loop and merge_groups, of Count, as many rounds
-- as there are digests, or runs, since each takes one at least. The passes of Count, count_runs, have
-- one round more than there are runs: the theorems on it show that two are enough
-- (Fold/Digests/Counting, Fold/Digests/Crowding).
--
-- Not modelled: JSON, SQL, file and network I/O, compression, locks, the mount and the platform
-- services; archives, pruning, reconciliation, the opening of a session with its recovery, the
-- files of its checkpoints, deletion and collection of objects, the command line and the tray. A byte is a natural number, and a string of Go is its bytes.
pub mod Prelude
pub mod FilePath
pub mod Protocol
pub mod Storage
pub mod Cdc
pub mod Pack
pub mod Fold
pub mod Contain
pub mod Vfs
pub mod Compat
pub mod Enroll
