-- ===== src/Fold/Digests.antt =====
-- internal/fold/digestset.go: the set of digests on disk. A file of whole digests is the list of
-- them, and the directory is the names that are in it; I/O that fails is not modelled, but a file
-- that is there already is. The heap of the merge is the list of its runs, of which the least is
-- taken, and a chunk is sorted by insertion: digests that compare equal are equal.
pub mod Order
pub mod Merging
pub mod Passing
pub mod Chunking
pub mod Counting
pub mod Crowding
mod Tests
use codexfold.Prelude.{
  ℕ, zero, suc, ◌+◌, ◌-◌, ◌*◌, Bool, true, false, not, ◌&&◌, ◌||◌, List, [], ◌∷◌, ◌++◌, Option,
  none, some, Outcome, ok, err, ◌>>=◌, ltb, leb, ◌==◌, length, take, drop, if◌then◌else◌,
}
use codexfold.Prelude.Bytes.{Bytes, bytes_eq, bytes_less}

abbrev pub digest_bytes : ℕ
digest_bytes = 32

abbrev pub digest_chunk_count : ℕ
digest_chunk_count = 1048576

abbrev pub max_merge_run_inputs : ℕ
max_merge_run_inputs = 64

-- `run-%06d.bin` and `merged-%06d.bin`.
pub data RunName : Type 0 where
  run_file merged_file : ℕ → RunName

pub record RunFile : Type 0 where
  pub name : RunName
  pub digests : List Bytes

pub data Fault : Type 0 where
  closed_set invalid_digest : Fault
  file_exists : RunName → Fault
  out_of_fuel : Fault

pub record DigestSet : Type 0 where
  pub input : List Bytes
  pub closed : Bool

abbrev pub new_set : DigestSet
new_set = record { input = []; closed = false }

abbrev pub close : DigestSet → DigestSet
close s = record s { closed = true }

abbrev hex_digit : ℕ → Option ℕ
hex_digit c =
    if leb b'0' c && leb c b'9'
    then some (c - b'0')
    else if leb b'a' c && leb c b'f'
    then some (c - b'a' + 10)
    else if leb b'A' c && leb c b'F'
    then some (c - b'A' + 10)
    else none

abbrev hex_pair : Option ℕ → Option ℕ → Option Bytes → Option Bytes
hex_pair (some high) (some low) (some rest) = some ((16 * high + low) ∷ rest)
hex_pair _ _ _ = none

-- `hex.DecodeString`.
unfoldable pub decode_hex : Bytes → Option Bytes
decode_hex [] = some []
decode_hex (c ∷ []) = none
decode_hex (c ∷ d ∷ rest) = hex_pair (hex_digit c) (hex_digit d) (decode_hex rest)

abbrev added : DigestSet → Option Bytes → Outcome Fault DigestSet
added s none = err invalid_digest
added s (some digest) =
    if length digest == digest_bytes
    then ok (record s { input = s.input ++ (digest ∷ []) })
    else err invalid_digest

unfoldable pub add : Bytes → DigestSet → Outcome Fault DigestSet
add value s = if s.closed then err closed_set else added s (decode_hex value)

-- `sort.Slice` of a chunk.
unfoldable pub insert : Bytes → List Bytes → List Bytes
insert d [] = d ∷ []
insert d (e ∷ es) = if bytes_less e d then e ∷ insert d es else d ∷ e ∷ es

unfoldable pub sort : List Bytes → List Bytes
sort [] = []
sort (d ∷ ds) = insert d (sort ds)

abbrev pub is_previous : Option Bytes → Bytes → Bool
is_previous none d = false
is_previous (some p) d = bytes_eq d p

-- What is written of a sorted chunk: no digest that was just written.
unfoldable pub without_repeats : Option Bytes → List Bytes → List Bytes
without_repeats previous [] = []
without_repeats previous (d ∷ ds) =
    let rest = without_repeats (some d) ds in if is_previous previous d then rest else d ∷ rest

abbrev pub same_name : RunName → RunName → Bool
same_name (run_file i) (run_file j) = i == j
same_name (merged_file i) (merged_file j) = i == j
same_name _ _ = false

abbrev pub is_present : RunName → List RunName → Bool
is_present name [] = false
is_present name (n ∷ ns) = same_name name n || is_present name ns

-- `createRuns`, over chunks of a size: the loop goes on until no digest is left. The names in the
-- directory grow with the runs.
unfoldable pub create_runs : ℕ → ℕ → List RunName → ℕ → List Bytes → Outcome Fault (List RunFile)
create_runs size zero present index ds = ok []
create_runs size (suc fuel) present index [] = ok []
create_runs size (suc fuel) present index (d ∷ ds) =
    let rest = create_runs size fuel (run_file index ∷ present) (suc index) (drop size (d ∷ ds)) in
    if is_present (run_file index) present then err (file_exists (run_file index)) else (do
      runs ← rest
      ok (
          record {
            name = run_file index;
            digests = without_repeats none (sort (take size (d ∷ ds)));
          }
          ∷ runs))

-- A run in the heap: the digest that was read last, and those to come.
pub record DigestRun : Type 0 where
  pub digest : Bytes
  pub coming : List Bytes
  pub ordinal : ℕ

abbrev pub less : DigestRun → DigestRun → Bool
less l r = bytes_less l.digest r.digest || (bytes_eq l.digest r.digest && ltb l.ordinal r.ordinal)

-- `heap.Pop`: the least run, and the others.
unfoldable pub pop : DigestRun → List DigestRun → DigestRun × List DigestRun
pop r [] = (r, [])
pop r (q ∷ qs) =
    let (least, others) = pop q qs in
    if less least r then (least, r ∷ others) else (r, least ∷ others)

-- A run with a digest to read goes into the heap.
abbrev pub queued : ℕ → List Bytes → List DigestRun → List DigestRun
queued ordinal [] queue = queue
queued ordinal (d ∷ ds) queue = record { digest = d; coming = ds; ordinal = ordinal } ∷ queue

abbrev pub start_runs : ℕ → List RunFile → List DigestRun
start_runs ordinal [] = []
start_runs ordinal (f ∷ fs) = queued ordinal f.digests (start_runs (suc ordinal) fs)

-- The loop of `mergeDigestRuns`: what is written.
unfoldable pub merge_loop : ℕ → Option Bytes → List DigestRun → List Bytes
merge_loop fuel previous [] = []
merge_loop zero previous (r ∷ rs) = []
merge_loop (suc fuel) previous (r ∷ rs) =
    let (least, others) = pop r rs in
    let rest = merge_loop fuel (some least.digest) (queued least.ordinal least.coming others) in
    if is_previous previous least.digest then rest else least.digest ∷ rest

abbrev pub size_of_runs : List RunFile → ℕ
size_of_runs [] = 0
size_of_runs (f ∷ fs) = length f.digests + size_of_runs fs

-- `mergeDigestRuns`: each round takes one digest. It returns how many it writes.
unfoldable pub merge_digest_runs : List RunFile → List Bytes
merge_digest_runs fs = merge_loop (size_of_runs fs) none (start_runs 0 fs)

abbrev pub names : List RunFile → List RunName
names [] = []
names (f ∷ fs) = f.name ∷ names fs

-- One pass over the runs, in groups: a group is removed once it is merged, so that in the directory
-- are what was merged and the runs to come.
unfoldable pub merge_groups : ℕ → ℕ → List RunFile → List RunFile → Outcome Fault (List RunFile)
merge_groups width zero next fs = ok next
merge_groups width (suc fuel) next [] = ok next
merge_groups width (suc fuel) next (f ∷ fs) =
    let name = merged_file (length next) in
    let merged : RunFile = record {
      name = name;
      digests = merge_digest_runs (take width (f ∷ fs));
    } in
    let rest = merge_groups width fuel (next ++ (merged ∷ [])) (drop width (f ∷ fs)) in
    if is_present name (names (next ++ (f ∷ fs))) then err (file_exists name) else rest

abbrev pub count_of : List RunFile → ℕ
count_of [] = 0
count_of (f ∷ fs) = length (merge_digest_runs (f ∷ fs))

-- The loop of `Count`: passes until few enough runs are left. Each leaves fewer, so that as many
-- passes as runs are enough.
unfoldable pub count_runs : ℕ → ℕ → List RunFile → Outcome Fault ℕ
count_runs width zero fs = err out_of_fuel
count_runs width (suc fuel) fs =
    let rest = (do next ← merge_groups width (length fs) [] fs; count_runs width fuel next) in
    if ltb width (length fs) then rest else ok (count_of fs)

-- `Count` of a set that was not counted before, whose directory has no run.
unfoldable pub count : ℕ → ℕ → DigestSet → Outcome Fault ℕ
count size width s = if s.closed then err closed_set else (do
  runs ← create_runs size (length s.input) [] 0 s.input
  count_runs width (suc (length runs)) runs)
