-- ===== src/Contain/Tests.antt =====
-- A rollout within another, and the theorems of the containment check at them.
use codexfold.Prelude.{
  ℕ, ◌+◌, ◌*◌, ◌≡◌, refl, true, false, List, [], ◌∷◌, Option, none, some, ok, length, arith, ◌==◌,
  if◌then◌else◌,
}
use codexfold.Prelude.Bytes.{Bytes, bytes_eq}
use codexfold.Contain.Records.{
  RecordFingerprint, RecordInfo, lines, same_fingerprint, trim_newline, is_session_meta, scan_from,
  scan_records, session_meta,
}
use codexfold.Contain.Matching.{
  same_at, fall_back, advance, build_from, build_prefix_table, equal_chunks, equal_file_ranges,
  Containment, needle_of, verify, search_records, check,
}
use codexfold.Contain.Exact.{IsContained, check-IsContained}
use codexfold.Contain.Complete.{Differs, check-Differs}
use codexfold.Contain.Progress.{Settled, fall_back-build_prefix_table}

-- A stand-in for SHA-256, under which all lines of a length collide.
abbrev checksum : Bytes → Bytes
checksum bytes = length bytes ∷ []

-- A first record that starts with `m` holds the session's metadata.
abbrev type_of : Bytes → Option Bytes
type_of [] = none
type_of (c ∷ cs) = if c == b'm' then some session_meta else none

abbrev small : Bytes
small = b'm' ∷ 10 ∷ b'a' ∷ 10 ∷ b'b' ∷ 10 ∷ []

abbrev large : Bytes
large = b'm' ∷ b'm' ∷ 10 ∷ b'a' ∷ 10 ∷ b'a' ∷ 10 ∷ b'b' ∷ 10 ∷ b'c' ∷ 10 ∷ []

abbrev report : Containment
report = record {
  contained = true;
  verified_exact = true;
  contained_records = 2;
  contained_bytes = 4;
  container_start_record = 2;
  container_end_record = 3;
  container_start_byte = 5;
  container_end_byte = 9;
}

small_contained :
    check checksum type_of true (b's' ∷ []) (some small) (b'l' ∷ []) (some large) ≡ ok report
unfolding check scan_records scan_from is_session_meta trim_newline lines build_prefix_table
    build_from search_records verify advance fall_back same_at same_fingerprint equal_file_ranges
    equal_chunks bytes_eq
small_contained = refl

check-IsContained_example : IsContained true small large report
check-IsContained_example =
    check-IsContained checksum type_of true (b's' ∷ []) (b'l' ∷ []) small large small_contained refl

abbrev mark : ℕ → RecordFingerprint
mark n = record { digest = n ∷ []; size = 1 }

abbrev pattern_of : List RecordFingerprint
pattern_of = mark 1 ∷ mark 2 ∷ mark 1 ∷ mark 2 ∷ mark 1 ∷ mark 3 ∷ []

prefix_example : build_prefix_table pattern_of ≡ 0 ∷ 0 ∷ 1 ∷ 2 ∷ 3 ∷ 0 ∷ []
unfolding build_prefix_table build_from advance fall_back same_at same_fingerprint bytes_eq
prefix_example = refl

fall_back-build_prefix_table_example :
    Settled pattern_of
      (mark 2)
      5
      (fall_back pattern_of (build_prefix_table pattern_of) (mark 2) 5 5)
fall_back-build_prefix_table_example =
    fall_back-build_prefix_table pattern_of (mark 2) 5 5 (omega arith)

-- Its fingerprints stand in the container, but not its bytes.
abbrev twin : Bytes
twin = b'd' ∷ 10 ∷ b'd' ∷ 10 ∷ []

abbrev record_at : ℕ → RecordInfo
record_at i = record {
  index = i;
  start = 2 * i;
  stop = 2 * i + 2;
  fingerprint = record { digest = 2 ∷ []; size = 2 };
}

abbrev nothing_found : Containment
nothing_found = record {
  contained = false;
  verified_exact = false;
  contained_records = 2;
  contained_bytes = 4;
  container_start_record = 0;
  container_end_record = 0;
  container_start_byte = 0;
  container_end_byte = 0;
}

twin_records : scan_records checksum type_of false twin ≡ record_at 0 ∷ record_at 1 ∷ []
unfolding scan_records scan_from is_session_meta trim_newline lines
twin_records = refl

twin_apart :
    check checksum type_of false (b's' ∷ []) (some twin) (b'l' ∷ []) (some small) ≡ ok nothing_found
unfolding check scan_records scan_from is_session_meta trim_newline lines build_prefix_table
    build_from search_records verify advance fall_back same_at same_fingerprint equal_file_ranges
    equal_chunks bytes_eq
twin_apart = refl

small_records :
    scan_records checksum type_of false small ≡ record_at 0 ∷ record_at 1 ∷ record_at 2 ∷ []
unfolding scan_records scan_from is_session_meta trim_newline lines
small_records = refl

check-Differs_example :
    Differs twin small (needle_of (record_at 0) (record_at 1 ∷ [])) (record_at 2)
check-Differs_example =
    check-Differs checksum type_of false (b's' ∷ []) (b'l' ∷ []) twin small (record_at 0)
      (record_at 1 ∷ []) nothing_found (record_at 0 ∷ record_at 1 ∷ []) (record_at 2) []
      twin_records small_records (refl, (refl, tt)) twin_apart refl
